-- ===== src/Protocol/Gate/Frames.antt =====
-- Cases 1 to 5 of gate C: the frame of a K-token step.
use Prim.Native.Nat.{bit_xor}
use kimi_k3_neuron_tp3_dgxsp.Prelude.{
  ℕ, suc, ◌+◌, ◌-◌, Bool, true, false, not, ◌&&◌, List, [], ◌∷◌, ◌++◌, ◌==◌, length, take,
  replicate,
}
use kimi_k3_neuron_tp3_dgxsp.Prelude.Int.{ℤ, pos, negsuc, ◌==ℤ◌}
use kimi_k3_neuron_tp3_dgxsp.Protocol.Message.{
  Byte, MessageType, Phase, RankSpec, Message, default_message, max_step_tokens, wire_header_bytes,
  wire_fixed_payload_bytes,
}
use kimi_k3_neuron_tp3_dgxsp.Protocol.Wire.{put_u64, put_u32, put_u16}
use kimi_k3_neuron_tp3_dgxsp.Protocol.Frame.{Result, ok, error, encode_message, decode_message}

unfoldable pub make_spec : ℕ → RankSpec
make_spec rank = record {
  session_id = 7;
  world_size = pos 3;
  rank = pos rank;
  local_device = pos 0;
  n_experts = pos 896;
  moe_ffn = pos 1536;
  expert_block_elems = pos 256;
  vocab = pos 163840;
  model_digest = 0xA5 ∷ replicate 31 0;
  plan_digest = 0x5A ∷ replicate 31 0;
}

-- `==` on vectors of tokens.
unfoldable pub same_ids : List ℤ → List ℤ → Bool
unfolding ◌==ℤ◌
same_ids [] [] = true
same_ids (x ∷ xs) (y ∷ ys) = (x ==ℤ y) && same_ids xs ys
same_ids _ _ = false

-- The Token that the cases begin from.
unfoldable pub token_frame : ℤ → List ℤ → Message
token_frame token_id token_ids = record default_message {
  type = MessageType.token;
  session_id = 7;
  vocab = pos 163840;
  phase = Phase.step;
  token_id = token_id;
  token_ids = token_ids;
}

-- Whether a call of the codec succeeds, and what it then gives.
abbrev pub succeeds : {A : Type 0} → Result A → Bool
succeeds (ok a) = true
succeeds (error message) = false

abbrev pub value_or : {A : Type 0} → A → Result A → A
value_or a (ok b) = b
value_or a (error message) = a

-- Case 1.
unfoldable pub round_trip : List Bool
unfolding token_frame encode_message put_u64 put_u32 put_u16 decode_message same_ids ◌==ℤ◌
round_trip =
    let m = record (token_frame (pos 101) (pos 101 ∷ pos 202 ∷ pos 303 ∷ pos 404 ∷ [])) {
      sequence = 4;
      rank = pos 1;
      world_size = pos 3;
      rollback_j = pos 2;
    } in
    let frame = encode_message m in
    let decoded = decode_message (value_or [] frame) in
    let got = value_or default_message decoded in
    succeeds frame
    ∷ succeeds decoded
    ∷ same_ids got.token_ids m.token_ids
    ∷ (got.rollback_j ==ℤ pos 2)
    ∷ (got.token_id ==ℤ pos 101)
    ∷ []

-- Case 2.
unfoldable pub scalar_token : List Bool
unfolding token_frame encode_message put_u64 put_u32 put_u16 decode_message same_ids ◌==ℤ◌
scalar_token =
    let frame = encode_message (token_frame (pos 55) []) in
    let decoded = decode_message (value_or [] frame) in
    let got = value_or default_message decoded in
    succeeds frame
    ∷ (length (value_or [] frame) == wire_header_bytes + wire_fixed_payload_bytes)
    ∷ succeeds decoded
    ∷ (same_ids got.token_ids [] && (got.token_id ==ℤ pos 55) && (got.rollback_j ==ℤ negsuc 0))
    ∷ []

-- Cases 3 and 4.
unfoldable pub refused_frames : List Bool
unfolding token_frame encode_message put_u64 put_u32 put_u16
refused_frames =
    not (succeeds (encode_message (token_frame (pos 5) (pos 6 ∷ pos 7 ∷ []))))
    ∷ not
        (succeeds (encode_message (token_frame (pos 1) (replicate (suc max_step_tokens) (pos 1)))))
    ∷ []

-- `flip[flip.size() - 1] ^= 0xFF`.
abbrev pub flip_last : List Byte → List Byte
flip_last [] = []
flip_last (b ∷ []) = bit_xor b 0xFF ∷ []
flip_last (b ∷ c ∷ bs) = b ∷ flip_last (c ∷ bs)

-- Case 5.
unfoldable pub corrupted : List Bool
unfolding token_frame encode_message put_u64 put_u32 put_u16 decode_message
corrupted =
    let encoded = encode_message (token_frame (pos 1) (pos 1 ∷ pos 2 ∷ pos 3 ∷ [])) in
    let frame = value_or [] encoded in
    succeeds encoded
    ∷ not (succeeds (decode_message (take (length frame - 4) frame)))
    ∷ not (succeeds (decode_message (frame ++ 0 ∷ [])))
    ∷ not (succeeds (decode_message (flip_last frame)))
    ∷ []
