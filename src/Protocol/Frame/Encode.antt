-- ===== src/Protocol/Frame/Encode.antt =====
-- encode_message of runtime/src/tp/rank_protocol.cpp, and the records that a frame is laid out by.
use Prim.Native.String.{String}
use kimi_k3_neuron_tp3_dgxsp.Prelude.{
  ℕ, Bool, false, not, ◌||◌, List, [], ◌∷◌, ◌++◌, if◌then◌else◌, ltb, length,
}
use kimi_k3_neuron_tp3_dgxsp.Prelude.Int.{ℤ, ◌==ℤ◌}
use kimi_k3_neuron_tp3_dgxsp.Protocol.Message.{
  Byte, Message, type_code, phase_code, valid_type, valid_phase, protocol_version, max_step_tokens,
  max_detail_bytes, wire_fixed_payload_bytes, max_payload_bytes,
}
use kimi_k3_neuron_tp3_dgxsp.Protocol.Wire.{
  put_u16, put_u32, put_u64, put_i32, put_i32s, joined, crc32,
}

pub data Result (A : Type 0) : Type 0 where
  ok : A → Result A
  error : String → Result A

abbrev pub magic_bytes : ℕ
magic_bytes = 0x5052_334b

-- `!ids.empty() && ids[0] != token_id`.
unfoldable pub head_differs : List ℤ → ℤ → Bool
unfolding ◌==ℤ◌
head_differs [] token_id = false
head_differs (id ∷ ids) token_id = not (id ==ℤ token_id)

-- A frame: a header, then a payload, which begins with numbers and goes on with blobs.
pub record Header : Type 0 where
  pub magic : ℕ
  pub version : ℕ
  pub type : ℕ
  pub payload_size : ℕ
  pub checksum : ℕ

pub record Numbers : Type 0 where
  pub session_id : ℕ
  pub sequence : ℕ
  pub rank : ℤ
  pub world_size : ℤ
  pub local_device : ℤ
  pub n_experts : ℤ
  pub moe_ffn : ℤ
  pub expert_block_elems : ℤ
  pub vocab : ℤ
  pub token_id : ℤ
  pub status : ℤ
  pub rollback_j : ℤ

pub record Blobs : Type 0 where
  pub phase : ℕ
  pub reserved : ℕ
  pub n_ids : ℕ
  pub reserved2 : ℕ
  pub model_digest : List Byte
  pub plan_digest : List Byte
  pub nccl_id : List Byte
  pub detail_size : ℕ

-- What encode_message puts into the fixed part: the two reserved fields are zero.
abbrev pub numbers_of : Message → Numbers
numbers_of m = record {
  session_id = m.session_id;
  sequence = m.sequence;
  rank = m.rank;
  world_size = m.world_size;
  local_device = m.local_device;
  n_experts = m.n_experts;
  moe_ffn = m.moe_ffn;
  expert_block_elems = m.expert_block_elems;
  vocab = m.vocab;
  token_id = m.token_id;
  status = m.status;
  rollback_j = m.rollback_j;
}

abbrev pub blobs_of : Message → Blobs
blobs_of m = record {
  phase = phase_code m.phase;
  reserved = 0;
  n_ids = length m.token_ids;
  reserved2 = 0;
  model_digest = m.model_digest;
  plan_digest = m.plan_digest;
  nccl_id = m.nccl_id;
  detail_size = length m.detail;
}

-- The twelve numbers that a payload begins with.
abbrev pub put_numbers : Numbers → List Byte
put_numbers n = joined (
    put_u64 n.session_id
    ∷ put_u64 n.sequence
    ∷ put_i32 n.rank
    ∷ put_i32 n.world_size
    ∷ put_i32 n.local_device
    ∷ put_i32 n.n_experts
    ∷ put_i32 n.moe_ffn
    ∷ put_i32 n.expert_block_elems
    ∷ put_i32 n.vocab
    ∷ put_i32 n.token_id
    ∷ put_i32 n.status
    ∷ put_i32 n.rollback_j
    ∷ [])

-- The rest of the fixed part: the phase, the counts, the digests and the id.
abbrev pub put_blobs : Blobs → List Byte
put_blobs b = joined (
    put_u16 b.phase
    ∷ put_u16 b.reserved
    ∷ put_u16 b.n_ids
    ∷ put_u16 b.reserved2
    ∷ b.model_digest
    ∷ b.plan_digest
    ∷ b.nccl_id
    ∷ put_u16 b.detail_size
    ∷ [])

abbrev pub put_header : Header → List Byte
put_header h = joined (
    put_u32 h.magic
    ∷ put_u16 h.version
    ∷ put_u16 h.type
    ∷ put_u32 h.payload_size
    ∷ put_u32 h.checksum
    ∷ [])

unfoldable pub payload_of : Message → List Byte
unfolding put_i32s phase_code
payload_of m =
    joined
      (put_numbers (numbers_of m) ∷ put_blobs (blobs_of m) ∷ m.detail ∷ put_i32s m.token_ids ∷ [])

abbrev pub header_of : ℕ → List Byte → Header
header_of type payload = record {
  magic = magic_bytes;
  version = protocol_version;
  type = type;
  payload_size = length payload;
  checksum = crc32 payload;
}

unfoldable pub encode_message : Message → Result (List Byte)
unfolding type_code phase_code head_differs payload_of crc32
encode_message m =
    let payload = payload_of m in
    if not (valid_type (type_code m.type))
    then error "unknown message type"
    else (if not (valid_phase (phase_code m.phase))
        then error "unknown protocol phase"
        else (if ltb max_detail_bytes (length m.detail)
            then error "diagnostic detail exceeds protocol bound"
            else (if ltb max_step_tokens (length m.token_ids)
                then error "step token count exceeds protocol bound"
                else (if head_differs m.token_ids m.token_id
                    then error "token_ids[0] disagrees with token_id"
                    else (if ltb (length payload) wire_fixed_payload_bytes
                          || ltb max_payload_bytes (length payload)
                        then error "internal payload length outside protocol bounds"
                        else ok (put_header (header_of (type_code m.type) payload) ++ payload))))))
