-- ===== src/Lib.antt =====
-- Host-side logic of the three-rank recipe: the rank protocol, speculative decoding with an n-gram
-- drafter, the uneven bands of the LM head, the gate on the engine's state rollback, and the NCCL
-- microbenchmark.
--
-- The repository is a series of patches to a runtime that it does not hold, the gates that go with
-- them, and one program of its own. The parts work together in this way: at each decode step the
-- drafter proposes tokens from the history, one verify pass evaluates them, the accepted-prefix
-- rule keeps the longest prefix that the pass confirms, and the engine's state is rolled back to
-- it. The logits of a pass are projected in bands, one for each rank, and summed. Rank 0 drives
-- the ranks by the messages of the rank protocol: a batch of tokens, with the rollback of the one
-- before it, is one step, and the next begins when all ranks have reported. The benchmark checks
-- the collective that all of this stands on.
--
--   Draft       kimi_k3_ngram_draft of runtime/include/sparkinfer/models/kimi_k3_ngram_draft.h, as
--               patches/sparkinfer/next/0024-*, 0025-* and 0026-* build it up (Config, Window, Span,
--               Majority, Drafter), and the gates A and E on it (Reference, Gate, Cases):
--               reference_draft and test_drafter of
--               patches/sparkinfer/next/new-tests/kimi_k3_spec_draft_check.cpp, test_gating of
--               patches/sparkinfer/next/new-tests/kimi_k3_tune_check.cpp.
--   Spec        kimi_k3_spec_accept_prefix (0024-*, Accept), the greedy and the speculative loop of
--               gate D (Loop), its sweep (Gate), and gate B (Cases).
--   HeadBand    k3_head_band_uneven (0025-*, Band), the part of kimi_k3_dist_forward_token that
--               projects and sums the bands, with dist_head_band and the loader's load_head (Gather),
--               gate F (Gate, Cases).
--   Rollback    run_spec_rollback_check of
--               patches/sparkinfer/next/new-tests/kimi_k3_spec_rollback_check.cpp (Engine, Gate).
--   Microbench  scripts/k3_dist_nccl_microbench.cpp: send_all and recv_all (Socket), exchange_id
--               (Exchange), the options of main (Args), its correctness check (Check).
--   Protocol    runtime/src/tp/rank_protocol.cpp and its header as patches/sparkinfer/next/0003-*, 0004-*,
--               0015-* and 0024-* build them up: the frame (Message, Wire, Frame: encode_message,
--               decode_message, crc32), class Coordinator (Coordinator, Accept, Drive), class RankSession
--               (Session), validate_rank_spec with moe_all_expert_width_dims of
--               patches/sparkinfer/0001-* (Shard), and test_protocol, gate C of
--               kimi_k3_spec_draft_check.cpp (Gate). System is a cluster of these, Calls the traces of
--               calls on a coordinator.
--   Prelude     tests, lists, integers and loops that the parts share.
--
-- State is passed explicitly: SpecState holds the locals of the decode loop, Proposal the vector
-- that the drafter appends to, Sweep and Flags the locals of gate F, Progress the engine's state
-- and the failure count of the rollback gate. A call on a Coordinator gives a Reply: the
-- coordinator, what it sends, whether the call was accepted, and the error; one on a RankSession
-- an Answer. A call that never returns, undefined behaviour and an early return are values of a
-- result type. A token is an int; the int fields of a drafter configuration are naturals, since
-- every negative value takes the branches of 0. A size_t product wraps at 2^64, the hash and the
-- generators of the gates at 2^32.
--
-- Loops recurse on what they consume. The speculative loop has fuel, one round for each token to
-- predict: each step emits at least one token. The socket loops recurse on the results that the
-- kernel gives, one for each call; they are enough where they move all the bytes together.
--
-- Parameters: the model's argmax (an oracle on the consumed tokens), the engine behind the
-- rollback gate, the projection kernel and the addition of the collective, the socket calls, atoi,
-- CUDA and NCCL, and the Planner: divisible, even_band, moe_2d_dims and the printing of a number,
-- which the repository does not hold. What the theorems ask of them is stated in IsBounded,
-- IsSnapshots, Lane, Splits and Adds. System hands every message to its rank, once and in order,
-- as TCP does, and leaves open in which order the ranks reply.
--
-- Not modelled: kernels, loading, the transport of the rank protocol, the serve mode, the gates
-- that compare GPU results under a tolerance, printing and timing.
pub mod Prelude
pub mod Draft
pub mod Spec
pub mod HeadBand
pub mod Microbench
pub mod Rollback
pub mod Protocol
