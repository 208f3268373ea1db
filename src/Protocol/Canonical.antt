-- ===== src/Protocol/Canonical.antt =====
-- The frames that decode_message accepts.
use mathlib.Core.Path.{subst}
use kimi_k3_neuron_tp3_dgxsp.Prelude.{
  ◌+◌, ◌≤◌, ◌≡◌, refl, sym, ap, ap₂, ◌∙◌, arith, List, [], ◌∷◌, ◌++◌, append-nil, length, take,
  drop, All, inl, inr, Option-cases, take-append-drop, length-take, length-drop, length-append, ltb,
}
use kimi_k3_neuron_tp3_dgxsp.Protocol.Message.{Byte, Message, type_code, wire_header_bytes}
use kimi_k3_neuron_tp3_dgxsp.Protocol.Wire.{crc32}
use kimi_k3_neuron_tp3_dgxsp.Protocol.Frame.{
  Header, ok, decode_body, decode_message, put_header, read_header, payload_of, header_of,
  encode_message,
}
use kimi_k3_neuron_tp3_dgxsp.Protocol.Reading.{IsByte}
use kimi_k3_neuron_tp3_dgxsp.Protocol.Inverting.{All-append_inv}
use kimi_k3_neuron_tp3_dgxsp.Protocol.Fixed.{read_header-Inverts}
use kimi_k3_neuron_tp3_dgxsp.Protocol.Sizes.{length-put_header}
use kimi_k3_neuron_tp3_dgxsp.Protocol.Accepted.{check_inv, decode_body_inv, decode_payload_inv}
use kimi_k3_neuron_tp3_dgxsp.Protocol.RoundTrip.{frame_of, encode_message_lem}
use kimi_k3_neuron_tp3_dgxsp.Protocol.Valid.{IsMessage, IsEncodable}

empty-of_length : (xs : List Byte) → length xs ≡ 0 → xs ≡ []
empty-of_length [] e = refl
empty-of_length (x ∷ xs) e = absurd (omega arith)

-- The first sixteen bytes of a frame that decodes are those of its header.
decode_message_inv :
    (frame : List Byte) {m : Message}
    → All IsByte frame
    → decode_message frame ≡ ok m
    → (h : Header) × (payload : List Byte) × (frame ≡ put_header h ++ payload)
      × All IsByte payload
      × (decode_body h (16 + length payload) payload ≡ ok m)
unfolding decode_message
decode_message_inv frame {m} all e =
    let (long, e₁) = check_inv (ltb (length frame) wire_header_bytes) _ _ e in
    elim (Option-cases (read_header (take 16 frame))) [
      | inl stop ↦ absurd (cc (rw stop at e₁))
      | inr ((h, rest), goes) ↦
          let split = take-append-drop 16 frame in
          let (front, back) =
            All-append_inv IsByte (take 16 frame) (drop 16 frame)
              (subst (All IsByte) (sym split) all) in
          let (shape, _, _) = read_header-Inverts (take 16 frame) h rest front goes in
          let enough : 16 ≤ length frame = ground (arith, long) in
          let sixteen : length (take 16 frame) ≡ 16 = omega (arith, length-take 16 frame, enough) in
          let added : length (take 16 frame) ≡ 16 + length rest =
            ap length shape
            ∙ length-append (put_header h) rest
            ∙ ap (λ k. k + length rest) (length-put_header h) in
          let taken : length rest ≡ 0 = omega (arith, sixteen, added) in
          let none_left : rest ≡ [] = empty-of_length rest taken in
          let whole : frame ≡ put_header h ++ drop 16 frame =
            sym split
            ∙ ap (λ ys. ys ++ drop 16 frame)
                (shape ∙ ap (λ ys. put_header h ++ ys) none_left ∙ append-nil (put_header h)) in
          let size : length frame ≡ 16 + length (drop 16 frame) =
            omega (arith, length-drop 16 frame, enough) in
          (
            h,
            drop 16 frame,
            whole,
            back,
            subst (λ k. decode_body h k (drop 16 frame) ≡ ok m) size (rw goes at e₁),
          )
    ]

-- A frame of bytes that decode_message accepts is exactly what encode_message gives for the message,
-- which has the ranges of its types and fits a frame.
pub encode_message-decode_message :
    (frame : List Byte) (m : Message)
    → All IsByte frame
    → decode_message frame ≡ ok m
    → IsMessage m × IsEncodable m × (encode_message m ≡ ok frame)
unfolding frame_of
encode_message-decode_message frame m all e =
    let (h, payload, whole, bytes, e₁) = decode_message_inv frame all e in
    let (magic, version, lo, hi, size, sum, e₂) = decode_body_inv h _ payload e₁ in
    let (type, fits, enc, same) = decode_payload_inv h.type payload m lo hi bytes e₂ in
    let counted : length (payload_of m) ≡ h.payload_size =
      ap length same ∙ (let g : length payload ≡ h.payload_size = omega (arith, size) in g) in
    let header : header_of (type_code m.type) (payload_of m) ≡ h = λ k. record {
      magic = sym magic k;
      version = sym version k;
      type = type k;
      payload_size = counted k;
      checksum = (ap crc32 same ∙ sum) k;
    } in
    (
      fits,
      enc,
      encode_message_lem m fits enc
          ∙ ap ok (ap₂ (λ c ys. put_header c ++ ys) header same ∙ sym whole),
    )
