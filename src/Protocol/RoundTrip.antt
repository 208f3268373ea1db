-- ===== src/Protocol/RoundTrip.antt =====
-- decode_message on what encode_message gives.
use kimi_k3_neuron_tp3_dgxsp.Prelude.{
  ℕ, ◌+◌, ◌≤◌, ◌≡◌, refl, sym, ap, ap₂, ◌∙◌, arith, true, false, some, List, [], ◌∷◌, ◌++◌,
  append-nil, append_assoc, ltb, ◌==◌, ==_iff, All, length, take, drop, length-append, take-append,
  drop-append,
}
use kimi_k3_neuron_tp3_dgxsp.Prelude.Int.{ℤ}
use kimi_k3_neuron_tp3_dgxsp.Protocol.Message.{
  Byte, Message, type_code, phase_code, valid_type, valid_phase,
}
use kimi_k3_neuron_tp3_dgxsp.Protocol.Wire.{crc32, i32s, put_i32s, joined}
use kimi_k3_neuron_tp3_dgxsp.Protocol.Frame.{
  Header, read_header, ok, Numbers, Blobs, numbers_of, blobs_of, put_header, put_numbers, put_blobs,
  payload_of, header_of, message_of, head_differs, encode_message, read_fixed, read_numbers,
  read_blobs, decode_tokens, decode_variable, decode_payload, decode_body, decode_message,
}
use kimi_k3_neuron_tp3_dgxsp.Protocol.Reading.{IsInt32, Reads, bind-Reads, last-Reads, i32s-Reads}
use kimi_k3_neuron_tp3_dgxsp.Protocol.Fixed.{
  IsHeader, read_header-Reads, read_numbers-Reads, read_blobs-Reads,
}
use kimi_k3_neuron_tp3_dgxsp.Protocol.Sizes.{
  type_of-type_code, type_code_range, phase_of-phase_code, phase_code_range, length-payload_of,
  blobs_of-IsBlobs, length-put_header, crc32-lt,
}
use kimi_k3_neuron_tp3_dgxsp.Protocol.Valid.{IsNumbers, IsBlobs, IsMessage, IsEncodable}

read_fixed-Reads :
    (n : Numbers) (b : Blobs)
    → IsNumbers n
    → IsBlobs b
    → Reads read_fixed (n, b) (put_numbers n ++ put_blobs b)
unfolding read_fixed
read_fixed-Reads n b hn hb =
    bind-Reads read_numbers _ (put_numbers n) (put_blobs b) (read_numbers-Reads n hn)
      (last-Reads read_blobs (λ c. (n, c)) (put_blobs b) (read_blobs-Reads b hb))

-- The bytes behind the fixed part give the message, where the counts agree with them.
decode_variable_lem :
    (type : ℕ) (n : Numbers) (b : Blobs) (detail : List Byte) (ids : List ℤ)
    → b.phase ≤ 5
    → b.reserved ≡ 0
    → b.reserved2 ≡ 0
    → b.n_ids ≡ length ids
    → b.detail_size ≡ length detail
    → length ids ≤ 16
    → length detail ≤ 256
    → All IsInt32 ids
    → head_differs ids n.token_id ≡ false
    → decode_variable type n b (detail ++ put_i32s ids) ≡ ok (message_of type n b detail ids)
unfolding decode_variable decode_tokens
decode_variable_lem type n b detail ids p r r2 ni ds few fewer ints same =
    let ep : valid_phase b.phase ≡ true = ground arith in
    let er : (b.reserved == 0) ≡ true = ground arith in
    let er2 : (b.reserved2 == 0) ≡ true = ground arith in
    let en : ltb 16 b.n_ids ≡ false = ground arith in
    let ed : ltb 256 b.detail_size ≡ false = ground arith in
    let el : ltb (length (detail ++ put_i32s ids)) b.detail_size ≡ false =
      ground (arith, length-append detail (put_i32s ids)) in
    let here : i32s b.n_ids (put_i32s ids) ≡ some (ids, []) =
      ap (λ k. i32s k (put_i32s ids)) ni
      ∙ ap (λ bs. i32s (length ids) bs) (sym (append-nil (put_i32s ids)))
      ∙ i32s-Reads ids ints [] in
    let front : take b.detail_size (detail ++ put_i32s ids) ≡ detail =
      ap (λ k. take k (detail ++ put_i32s ids)) ds ∙ take-append detail (put_i32s ids) in
    let back : drop b.detail_size (detail ++ put_i32s ids) ≡ put_i32s ids =
      ap (λ k. drop k (detail ++ put_i32s ids)) ds ∙ drop-append detail (put_i32s ids) in
    let checked : decode_tokens type n b detail (some (ids, []))
        ≡ ok (message_of type n b detail ids) =
      rw (decode_tokens, same) refl in
    rw (decode_variable, ep, er, er2, en, ed, el)
      (ap₂ (decode_tokens type n b) front (ap (i32s b.n_ids) back ∙ here) ∙ checked)

joined_split : (a b c d : List Byte) → joined (a ∷ b ∷ c ∷ d ∷ []) ≡ (a ++ b) ++ (c ++ d)
joined_split a b c d = rw (append-nil d, append_assoc a b (c ++ d)) refl

decode_payload_lem :
    (type : ℕ) (payload : List Byte) {n : Numbers} {b : Blobs} {tail : List Byte}
    → read_fixed payload ≡ some ((n, b), tail)
    → decode_payload type payload ≡ decode_variable type n b tail
unfolding decode_payload
decode_payload_lem type payload e = rw (decode_payload, e) refl

message_of_lem :
    (m : Message)
    → message_of (type_code m.type) (numbers_of m) (blobs_of m) m.detail m.token_ids ≡ m
unfolding message_of
message_of_lem m = rw (type_of-type_code m.type, phase_of-phase_code m.phase) refl

-- The payload of a message gives the message back.
payload_lem :
    (m : Message)
    → IsMessage m
    → IsEncodable m
    → decode_payload (type_code m.type) (payload_of m) ≡ ok m
unfolding payload_of
payload_lem m fits enc =
    let n = numbers_of m in
    let b = blobs_of m in
    let tail = m.detail ++ put_i32s m.token_ids in
    let shape : payload_of m ≡ (put_numbers n ++ put_blobs b) ++ tail =
      joined_split (put_numbers n) (put_blobs b) m.detail (put_i32s m.token_ids) in
    let reads : read_fixed (payload_of m) ≡ some ((n, b), tail) =
      ap read_fixed shape ∙ read_fixed-Reads n b fits.0 (blobs_of-IsBlobs m fits enc) tail in
    decode_payload_lem (type_code m.type) (payload_of m) reads
    ∙ decode_variable_lem (type_code m.type) n b m.detail m.token_ids (phase_code_range m.phase)
        refl refl refl refl enc.1 enc.0 fits.5 enc.2
    ∙ ap ok (message_of_lem m)

-- A payload of an encodable message has the length that the header may carry.
payload_range :
    (m : Message)
    → IsMessage m
    → IsEncodable m
    → (258 ≤ length (payload_of m)) × (length (payload_of m) ≤ 578)
payload_range m fits enc =
    let size = length-payload_of m (blobs_of-IsBlobs m fits enc) in
    (omega (arith, size, enc.0, enc.1), omega (arith, size, enc.0, enc.1))

unfoldable pub frame_of : Message → List Byte
frame_of m = put_header (header_of (type_code m.type) (payload_of m)) ++ payload_of m

pub encode_message_lem :
    (m : Message) → IsMessage m → IsEncodable m → encode_message m ≡ ok (frame_of m)
unfolding encode_message frame_of
encode_message_lem m fits enc =
    let et : valid_type (type_code m.type) ≡ true = ground (arith, type_code_range m.type) in
    let ep : valid_phase (phase_code m.phase) ≡ true = ground (arith, phase_code_range m.phase) in
    let ed : ltb 256 (length m.detail) ≡ false = ground (arith, enc.0) in
    let ei : ltb 16 (length m.token_ids) ≡ false = ground (arith, enc.1) in
    let lo : ltb (length (payload_of m)) 258 ≡ false = ground (arith, payload_range m fits enc) in
    let hi : ltb 578 (length (payload_of m)) ≡ false = ground (arith, payload_range m fits enc) in
    rw (encode_message, et, ep, ed, ei, enc.2, lo, hi) refl

decode_body_lem :
    (type : ℕ) (payload : List Byte) (size : ℕ)
    → 1 ≤ type
    → type ≤ 11
    → 258 ≤ length payload
    → length payload ≤ 578
    → size ≡ 16 + length payload
    → decode_body (header_of type payload) size payload ≡ decode_payload type payload
unfolding decode_body
decode_body_lem type payload size lo hi few fewer e =
    let et : valid_type type ≡ true = ground arith in
    let el : ltb (length payload) 258 ≡ false = ground arith in
    let eh : ltb 578 (length payload) ≡ false = ground arith in
    let es : (size == 16 + length payload) ≡ true = (==_iff size (16 + length payload)).1 e in
    let ec : (crc32 payload == crc32 payload) ≡ true =
      (==_iff (crc32 payload) (crc32 payload)).1 refl in
    rw (decode_body, et, el, eh, es, ec) refl

decode_message_lem :
    (frame : List Byte) {h : Header} {rest : List Byte}
    → ltb (length frame) 16 ≡ false
    → read_header (take 16 frame) ≡ some (h, rest)
    → decode_message frame ≡ decode_body h (length frame) (drop 16 frame)
unfolding decode_message
decode_message_lem frame long e = rw (decode_message, long, e) refl

-- A frame is its header, read back, and its payload.
pub decode_frame_lem :
    (h : Header) (payload : List Byte)
    → IsHeader h
    → decode_message (put_header h ++ payload) ≡ decode_body h (16 + length payload) payload
decode_frame_lem h payload fits =
    let size =
      length-append (put_header h) payload ∙ ap (λ k. k + length payload) (length-put_header h) in
    let front : take 16 (put_header h ++ payload) ≡ put_header h ++ [] =
      ap (λ k. take k (put_header h ++ payload)) (sym (length-put_header h))
      ∙ take-append (put_header h) payload
      ∙ sym (append-nil (put_header h)) in
    let back : drop 16 (put_header h ++ payload) ≡ payload =
      ap (λ k. drop k (put_header h ++ payload)) (sym (length-put_header h))
      ∙ drop-append (put_header h) payload in
    let long : ltb (length (put_header h ++ payload)) 16 ≡ false = ground (arith, size) in
    decode_message_lem (put_header h ++ payload) long
      (ap read_header front ∙ read_header-Reads h fits [])
    ∙ ap₂ (decode_body h) size back

-- A message whose fields have the ranges of their types, with at most 256 bytes of detail and at most 16
-- tokens, the first of which is token_id: encode_message gives a frame, and decode_message gives the
-- message back from it.
pub decode_message-encode_message :
    (m : Message)
    → IsMessage m
    → IsEncodable m
    → (frame : List Byte) × (encode_message m ≡ ok frame) × (decode_message frame ≡ ok m)
unfolding frame_of
decode_message-encode_message m fits enc =
    let (lo, hi) = payload_range m fits enc in
    let (tlo, thi) = type_code_range m.type in
    let h = header_of (type_code m.type) (payload_of m) in
    (
      frame_of m,
      encode_message_lem m fits enc,
      decode_frame_lem h (payload_of m) (
        omega arith,
        (omega arith, (omega arith, (omega arith, (crc32-lt (payload_of m), tt)))),
      )
          ∙ decode_body_lem (type_code m.type) (payload_of m) (16 + length (payload_of m)) tlo thi
              lo hi refl
          ∙ payload_lem m fits enc,
    )
