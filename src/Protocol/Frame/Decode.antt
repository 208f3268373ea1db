-- ===== src/Protocol/Frame/Decode.antt =====
-- decode_message of runtime/src/tp/rank_protocol.cpp.
use kimi_k3_neuron_tp3_dgxsp.Prelude.{
  ℕ, ◌+◌, not, ◌||◌, Option, none, some, List, [], ◌∷◌, if◌then◌else◌, ltb, ◌==◌, length, take,
  drop,
}
use kimi_k3_neuron_tp3_dgxsp.Prelude.Int.{ℤ}
use kimi_k3_neuron_tp3_dgxsp.Protocol.Message.{
  Byte, Message, valid_type, valid_phase, type_of, phase_of, protocol_version, max_step_tokens,
  digest_bytes, nccl_unique_id_bytes, max_detail_bytes, wire_header_bytes, wire_fixed_payload_bytes,
  max_payload_bytes,
}
use kimi_k3_neuron_tp3_dgxsp.Protocol.Wire.{
  Read, ◌>>=◌, returns, u16, u32, u64, i32, bytes, i32s, crc32,
}
use kimi_k3_neuron_tp3_dgxsp.Protocol.Frame.Encode.{
  Result, magic_bytes, head_differs, Header, Numbers, Blobs, ok, error,
}

unfoldable pub read_header : Read Header
unfolding u32 u16
read_header = do
  magic ← u32
  version ← u16
  type ← u16
  payload_size ← u32
  checksum ← u32
  returns (record {
    magic = magic;
    version = version;
    type = type;
    payload_size = payload_size;
    checksum = checksum;
  })

unfoldable pub read_numbers : Read Numbers
unfolding u64 i32
read_numbers = do
  session_id ← u64
  sequence ← u64
  rank ← i32
  world_size ← i32
  local_device ← i32
  n_experts ← i32
  moe_ffn ← i32
  expert_block_elems ← i32
  vocab ← i32
  token_id ← i32
  status ← i32
  rollback_j ← i32
  returns (record {
    session_id = session_id;
    sequence = sequence;
    rank = rank;
    world_size = world_size;
    local_device = local_device;
    n_experts = n_experts;
    moe_ffn = moe_ffn;
    expert_block_elems = expert_block_elems;
    vocab = vocab;
    token_id = token_id;
    status = status;
    rollback_j = rollback_j;
  })

unfoldable pub read_blobs : Read Blobs
unfolding u16 bytes
read_blobs = do
  phase ← u16
  reserved ← u16
  n_ids ← u16
  reserved2 ← u16
  model_digest ← bytes digest_bytes
  plan_digest ← bytes digest_bytes
  nccl_id ← bytes nccl_unique_id_bytes
  detail_size ← u16
  returns (record {
    phase = phase;
    reserved = reserved;
    n_ids = n_ids;
    reserved2 = reserved2;
    model_digest = model_digest;
    plan_digest = plan_digest;
    nccl_id = nccl_id;
    detail_size = detail_size;
  })

unfoldable pub message_of : ℕ → Numbers → Blobs → List Byte → List ℤ → Message
unfolding type_of phase_of
message_of type n b detail token_ids = record {
  type = type_of type;
  session_id = n.session_id;
  sequence = n.sequence;
  rank = n.rank;
  world_size = n.world_size;
  local_device = n.local_device;
  n_experts = n.n_experts;
  moe_ffn = n.moe_ffn;
  expert_block_elems = n.expert_block_elems;
  vocab = n.vocab;
  token_id = n.token_id;
  status = n.status;
  rollback_j = n.rollback_j;
  phase = phase_of b.phase;
  model_digest = b.model_digest;
  plan_digest = b.plan_digest;
  nccl_id = b.nccl_id;
  detail = detail;
  token_ids = token_ids;
}

-- From the token vector on: `if (r.at != r.size)`, then the leading token.
unfoldable pub decode_tokens :
    ℕ → Numbers → Blobs → List Byte → Option (List ℤ × List Byte) → Result Message
unfolding head_differs message_of
decode_tokens type n b detail none = error "truncated step token vector"
decode_tokens type n b detail (some (token_ids, extra ∷ rest)) =
    error "trailing bytes after payload"
decode_tokens type n b detail (some (token_ids, [])) =
    if head_differs token_ids n.token_id
    then error "token_ids[0] disagrees with token_id"
    else ok (message_of type n b detail token_ids)

-- From the fixed part on, with the bytes behind it.
unfoldable pub decode_variable : ℕ → Numbers → Blobs → List Byte → Result Message
unfolding decode_tokens i32s
decode_variable type n b rest =
    if not (valid_phase b.phase)
    then error "unknown protocol phase"
    else (if not (b.reserved == 0) || not (b.reserved2 == 0)
        then error "nonzero reserved field"
        else (if ltb max_step_tokens b.n_ids
            then error "step token count outside protocol bounds"
            else (if ltb max_detail_bytes b.detail_size || ltb (length rest) b.detail_size
                then error "invalid diagnostic detail length"
                else decode_tokens type n b (take b.detail_size rest)
                    (i32s b.n_ids (drop b.detail_size rest)))))

unfoldable pub read_fixed : Read (Numbers × Blobs)
unfolding read_numbers read_blobs
read_fixed = do numbers ← read_numbers; blobs ← read_blobs; returns (numbers, blobs)

unfoldable pub decode_payload : ℕ → List Byte → Result Message
unfolding read_fixed decode_variable
decode_payload type payload = elim (read_fixed payload) [
  | none ↦ error "truncated message payload"
  | some ((n, b), rest) ↦ decode_variable type n b rest
]

unfoldable pub decode_body : Header → ℕ → List Byte → Result Message
unfolding crc32 decode_payload
decode_body h size payload =
    if not (h.magic == magic_bytes)
    then error "bad frame magic"
    else (if not (h.version == protocol_version)
        then error "unsupported protocol version"
        else (if not (valid_type h.type)
            then error "unknown message type"
            else (if ltb h.payload_size wire_fixed_payload_bytes
                  || ltb max_payload_bytes h.payload_size
                then error "payload length outside protocol bounds"
                else (if not (size == wire_header_bytes + h.payload_size)
                    then error "frame length mismatch"
                    else (if not (crc32 payload == h.checksum)
                        then error "payload CRC mismatch"
                        else decode_payload h.type payload)))))

-- The header is read from the first sixteen bytes, the payload is what follows them.
unfoldable pub decode_message : List Byte → Result Message
unfolding read_header decode_body
decode_message frame =
    if ltb (length frame) wire_header_bytes
    then error "truncated frame header"
    else elim (read_header (take wire_header_bytes frame)) [
      | none ↦ error "invalid frame header"
      | some (h, rest) ↦ decode_body h (length frame) (drop wire_header_bytes frame)
    ]
