-- ===== src/Protocol/Tests.antt =====
-- Tests of the rank protocol, and the theorems about it at concrete inputs.
use kimi_k3_neuron_tp3_dgxsp.Prelude.{
  ℕ, zero, suc, ◌+◌, ◌%◌, ◌^◌, ◌<◌, ◌≡◌, ◌⊎◌, refl, arith, Bool, true, false, ◌&&◌, List, [], ◌∷◌,
  All, ltb, ◌==◌, get_or, replicate, inl,
}
use kimi_k3_neuron_tp3_dgxsp.Prelude.Int.{ℤ, pos, negsuc, pos_part}
use kimi_k3_neuron_tp3_dgxsp.Protocol.Message.{
  Byte, Message, MessageType, Phase, default_message, unset_nccl_id,
}
use kimi_k3_neuron_tp3_dgxsp.Protocol.Wire.{crc32, put_u64, put_u32, put_u16}
use kimi_k3_neuron_tp3_dgxsp.Protocol.Frame.{head_differs, ok, encode_message, decode_message}
use kimi_k3_neuron_tp3_dgxsp.Protocol.Shard.{Planner, MoeShardMode, refused, quotient}
use kimi_k3_neuron_tp3_dgxsp.Protocol.Coordinator.{
  Coordinator, CoordinatorState, coordinator, same_state,
}
use kimi_k3_neuron_tp3_dgxsp.Protocol.Drive.{any_outside, begin_step_multi}
use kimi_k3_neuron_tp3_dgxsp.Protocol.Session.{RankSession, RankState}
use kimi_k3_neuron_tp3_dgxsp.Protocol.Valid.{IsMessage, IsEncodable}
use kimi_k3_neuron_tp3_dgxsp.Protocol.Reading.{IsByte}
use kimi_k3_neuron_tp3_dgxsp.Protocol.RoundTrip.{decode_message-encode_message}
use kimi_k3_neuron_tp3_dgxsp.Protocol.Canonical.{encode_message-decode_message}
use kimi_k3_neuron_tp3_dgxsp.Protocol.Gathering.{IsOrder}
use kimi_k3_neuron_tp3_dgxsp.Protocol.Identity.{spec_of, peer}
use kimi_k3_neuron_tp3_dgxsp.Protocol.System.{System, Round, InStep, receives, step, run}
use kimi_k3_neuron_tp3_dgxsp.Protocol.Stepping.{IsBatch, taken}
use kimi_k3_neuron_tp3_dgxsp.Protocol.Progress.{step_completes, run_completes}
use kimi_k3_neuron_tp3_dgxsp.Protocol.Calls.{Call, accepting, beginning, call, here, next}
use kimi_k3_neuron_tp3_dgxsp.Protocol.Stages.{IsStaged}
use kimi_k3_neuron_tp3_dgxsp.Protocol.Readiness.{Reach-IsStaged}
use kimi_k3_neuron_tp3_dgxsp.Protocol.Terminal.{Stays, call-Stays}
use kimi_k3_neuron_tp3_dgxsp.Protocol.Refusal.{AllFail, refused_call-AllFail}
use kimi_k3_neuron_tp3_dgxsp.Protocol.Gate.{value_or, make_spec, test_protocol}
use kimi_k3_neuron_tp3_dgxsp.Protocol.Passes.{test_protocol_passes}

-- The check value of the CRC: that of the digits 1 to 9.
abbrev digits : List Byte
digits = 49 ∷ 50 ∷ 51 ∷ 52 ∷ 53 ∷ 54 ∷ 55 ∷ 56 ∷ 57 ∷ []

crc32_check : crc32 digits ≡ 0xcbf4_3926
unfolding crc32
crc32_check = refl

-- Bytes, by evaluation.
all_bytes : List Byte → Bool
all_bytes [] = true
all_bytes (b ∷ bs) = ltb b 256 && all_bytes bs

all_bytes_sound : (bs : List Byte) → all_bytes bs ≡ true → All IsByte bs
unfolding all_bytes
all_bytes_sound [] e = tt
all_bytes_sound (b ∷ bs) e = (ground (arith, e), all_bytes_sound bs (ground (arith, e)))

-- A batch of two tokens for rank 1, with a detail and a rollback.
abbrev batch_token : Message
batch_token = record default_message {
  type = MessageType.token;
  session_id = 7;
  sequence = 4;
  rank = pos 1;
  world_size = pos 3;
  vocab = pos 163840;
  token_id = pos 101;
  rollback_j = pos 2;
  phase = Phase.step;
  model_digest = 0xA5 ∷ replicate 31 0;
  detail = 104 ∷ 105 ∷ [];
  token_ids = pos 101 ∷ pos 202 ∷ [];
}

batch_token-IsMessage : IsMessage batch_token
unfolding all_bytes
batch_token-IsMessage = (
  (
    omega arith,
    (
      omega arith,
      (
        (omega arith, omega arith),
        (
          (omega arith, omega arith),
          (
            (omega arith, omega arith),
            (
              (omega arith, omega arith),
              (
                (omega arith, omega arith),
                (
                  (omega arith, omega arith),
                  (
                    (omega arith, omega arith),
                    (
                      (omega arith, omega arith),
                      ((omega arith, omega arith), ((omega arith, omega arith), tt)),
                    ),
                  ),
                ),
              ),
            ),
          ),
        ),
      ),
    ),
  ),
  (refl, all_bytes_sound (0xA5 ∷ replicate 31 0) refl),
  (refl, all_bytes_sound (replicate 32 0) refl),
  (refl, all_bytes_sound unset_nccl_id refl),
  all_bytes_sound (104 ∷ 105 ∷ []) refl,
  ((omega arith, omega arith), ((omega arith, omega arith), tt)),
)

batch_token-IsEncodable : IsEncodable batch_token
unfolding head_differs
batch_token-IsEncodable = (omega arith, omega arith, refl)

decode_message-encode_message_example :
    (frame : List Byte) × (encode_message batch_token ≡ ok frame)
    × (decode_message frame ≡ ok batch_token)
decode_message-encode_message_example =
    decode_message-encode_message batch_token batch_token-IsMessage batch_token-IsEncodable

-- The frame of that message, from the code.
abbrev batch_frame : List Byte
unfolding encode_message put_u64 put_u32 put_u16
batch_frame = value_or [] (encode_message batch_token)

batch_frame-decodes : decode_message batch_frame ≡ ok batch_token
unfolding encode_message decode_message put_u64 put_u32 put_u16
batch_frame-decodes = refl

batch_frame-bytes : all_bytes batch_frame ≡ true
unfolding encode_message put_u64 put_u32 put_u16 all_bytes
batch_frame-bytes = refl

encode_message-decode_message_example :
    IsMessage batch_token × IsEncodable batch_token × (encode_message batch_token ≡ ok batch_frame)
encode_message-decode_message_example =
    encode_message-decode_message batch_frame batch_token
      (all_bytes_sound batch_frame batch_frame-bytes) batch_frame-decodes

-- A planner that divides.
abbrev planner : Planner
planner = record {
  divisible = λ a b. pos_part a % pos_part b == 0;
  even_band = λ total n i. record { offset = pos 0; extent = quotient total n };
  moe_2d_dims = λ spec d. refused [];
  decimal = λ n. [];
  no_dims = record {
    tp_size = pos 1;
    rank = pos 0;
    hidden = pos 0;
    n_experts_total = pos 0;
    n_experts = pos 0;
    expert_band = record { offset = pos 0; extent = pos 0 };
    experts_sharded = false;
    moe_shard_mode = MoeShardMode.none;
    moe_2d = false;
    moe_expert_groups = pos 1;
    moe_ffn_shards = pos 1;
    moe_ffn_total = pos 0;
    moe_ffn_band = record { offset = pos 0; extent = pos 0 };
    moe_ffn = pos 0;
  };
}

-- Gate C.
gate_c_passes : test_protocol planner ≡ 0
gate_c_passes = test_protocol_passes planner refl

-- A coordinator that is ready for its first step, and its three ranks.
abbrev ready_coordinator : Coordinator
unfolding make_spec
ready_coordinator = record {
  cluster = make_spec 0;
  state = CoordinatorState.ready;
  hello = replicate 3 true;
  nccl_ready = replicate 3 true;
  load_ready = replicate 3 true;
  step_done = replicate 3 false;
  finish_ack = replicate 3 false;
  peer_connection = 1 ∷ 2 ∷ 3 ∷ [];
  next_sequence = 0;
  failure = [];
}

abbrev waiting_rank : ℕ → RankSession
waiting_rank r = record {
  spec = spec_of (make_spec 0) r;
  state = RankState.waiting_token;
  next_sequence = 0;
  nccl_id = unset_nccl_id;
  failure = [];
}

abbrev three : System
three = record { coord = ready_coordinator; rank = waiting_rank }

connected : (r : ℕ) → r < 3 → get_or (1 ∷ 2 ∷ 3 ∷ []) r 0 ≡ suc r
connected zero h = refl
connected (suc zero) h = refl
connected (suc (suc zero)) h = refl
connected (suc (suc (suc r))) h = absurd (omega arith)

three-InStep : InStep 3 suc three
unfolding make_spec
three-InStep =
    ((refl, refl, omega arith), refl, refl, λ r h. (ground arith, connected r h, refl, refl, refl))

abbrev last_first : List ℕ
last_first = 2 ∷ 0 ∷ 1 ∷ []

last_first-IsOrder : IsOrder 3 last_first
last_first-IsOrder = (
  (omega arith, (omega arith, (omega arith, tt))),
  (
    ((λ e. omega (arith, e)), ((λ e. omega (arith, e)), tt)),
    (((λ e. omega (arith, e)), tt), (tt, tt)),
  ),
  refl,
)

abbrev two_ids : List ℤ
two_ids = pos 10 ∷ pos 20 ∷ []

two_ids-IsBatch : IsBatch (pos 163840) two_ids (negsuc 0)
unfolding any_outside
two_ids-IsBatch = (omega arith, omega arith, refl, refl)

step_completes_example :
    ((r : ℕ)
      → r < 3
      → receives
          (begin_step_multi two_ids (negsuc 0) true ready_coordinator).outbound
          (waiting_rank r)
          r
        ≡ taken (waiting_rank r) two_ids (negsuc 0))
    × InStep 3 suc (step suc last_first two_ids (negsuc 0) three)
    × ((step suc last_first two_ids (negsuc 0) three).coord.next_sequence ≡ suc 0 % 2 ^ 64)
unfolding make_spec
step_completes_example =
    step_completes 3 suc last_first three two_ids (negsuc 0) three-InStep two_ids-IsBatch
      last_first-IsOrder

abbrev round : Round
round = record { ids = two_ids; rollback_j = negsuc 0; order = last_first }

run_completes_example :
    InStep 3 suc (run suc (round ∷ round ∷ []) three)
    × ((run suc (round ∷ round ∷ []) three).coord.next_sequence ≡ (0 + 2) % 2 ^ 64)
unfolding make_spec
run_completes_example =
    run_completes 3 suc (round ∷ round ∷ []) three three-InStep
      ((two_ids-IsBatch, last_first-IsOrder), ((two_ids-IsBatch, last_first-IsOrder), tt))
      (omega arith)

-- The Hello of rank 1 to a new coordinator.
abbrev greeting : Call
unfolding make_spec
greeting = accepting (peer 1 2) (record default_message {
  session_id = 7;
  rank = pos 1;
  world_size = pos 3;
  n_experts = pos 896;
  moe_ffn = pos 1536;
  expert_block_elems = pos 256;
  vocab = pos 163840;
  phase = Phase.bootstrap;
  model_digest = (make_spec 0).model_digest;
  plan_digest = (make_spec 0).plan_digest;
})

Reach-IsStaged_example :
    IsStaged (call greeting true (coordinator planner (make_spec 0))).coordinator
Reach-IsStaged_example = Reach-IsStaged planner (make_spec 0) (next greeting here)

-- A coordinator that has failed is asked for a step.
abbrev gone : Coordinator
gone = record ready_coordinator { state = CoordinatorState.failed }

call-Stays_example : Stays gone (call (beginning (pos 5)) true gone)
call-Stays_example = call-Stays (beginning (pos 5)) true gone (inl refl)

-- A token outside the vocabulary.
refused_call-AllFail_example :
    ((call (beginning (negsuc 4)) true ready_coordinator).accepted ≡ true)
    ⊎ AllFail 3 ready_coordinator (call (beginning (negsuc 4)) true ready_coordinator)
unfolding make_spec same_state
refused_call-AllFail_example =
    refused_call-AllFail 3 (beginning (negsuc 4)) ready_coordinator (refl, refl, omega arith)
      (refl, refl) tt
