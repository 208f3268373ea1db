-- ===== src/Protocol/Valid.antt =====
-- The messages that the source's types can hold, and those that a frame can carry.
use kimi_k3_neuron_tp3_dgxsp.Prelude.{ℕ, ◌^◌, ◌<◌, ◌≤◌, ◌≡◌, false, List, length, All}
use kimi_k3_neuron_tp3_dgxsp.Protocol.Message.{
  Byte, Message, digest_bytes, nccl_unique_id_bytes, max_detail_bytes, max_step_tokens,
}
use kimi_k3_neuron_tp3_dgxsp.Protocol.Frame.{Numbers, Blobs, numbers_of, head_differs}
use kimi_k3_neuron_tp3_dgxsp.Protocol.Reading.{IsByte, IsInt32}

-- A std::array of n bytes.
abbrev pub IsArray : ℕ → List Byte → Type 0
IsArray n xs = (length xs ≡ n) × All IsByte xs

abbrev pub IsNumbers : Numbers → Type 0
IsNumbers n =
    (n.session_id < 2 ^ 64)
    × ((n.sequence < 2 ^ 64)
        × (IsInt32 n.rank
            × (IsInt32 n.world_size
                × (IsInt32 n.local_device
                    × (IsInt32 n.n_experts
                        × (IsInt32 n.moe_ffn
                            × (IsInt32 n.expert_block_elems
                                × (IsInt32 n.vocab
                                    × (IsInt32 n.token_id
                                        × (IsInt32 n.status
                                            × (IsInt32 n.rollback_j × Unit {0})))))))))))

abbrev pub IsBlobs : Blobs → Type 0
IsBlobs b =
    (b.phase < 2 ^ 16)
    × ((b.reserved < 2 ^ 16)
        × ((b.n_ids < 2 ^ 16)
            × ((b.reserved2 < 2 ^ 16)
                × (IsArray digest_bytes b.model_digest
                    × (IsArray digest_bytes b.plan_digest
                        × (IsArray nccl_unique_id_bytes b.nccl_id
                            × ((b.detail_size < 2 ^ 16) × Unit {0})))))))

-- Integers in the ranges of their types, arrays of their sizes, and strings of bytes.
abbrev pub IsMessage : Message → Type 0
IsMessage m =
    IsNumbers (numbers_of m)
    × IsArray digest_bytes m.model_digest
    × IsArray digest_bytes m.plan_digest
    × IsArray nccl_unique_id_bytes m.nccl_id
    × All IsByte m.detail
    × All IsInt32 m.token_ids

-- At most 256 bytes of detail and 16 tokens, of which the first is the scalar one.
abbrev pub IsEncodable : Message → Type 0
IsEncodable m =
    (length m.detail ≤ max_detail_bytes)
    × (length m.token_ids ≤ max_step_tokens)
    × (head_differs m.token_ids m.token_id ≡ false)
