-- ===== src/Protocol/Accepted.antt =====
-- What decode_message has checked where it gives a message, and the payload that this message is put
-- as.
use Prim.Native.String.{String}
use mathlib.Core.Path.{subst}
use kimi_k3_neuron_tp3_dgxsp.Prelude.{
  ℕ, ◌+◌, ◌≤◌, ◌≡◌, refl, sym, ap, ap₂, ◌∙◌, arith, Bool, true, false, if◌then◌else◌, Option, some,
  none, List, [], ◌∷◌, ◌++◌, append-nil, length, take, drop, All, inl, inr, Option-cases,
  take-append-drop, length-take, ltb, ◌==◌, not, ◌||◌,
}
use kimi_k3_neuron_tp3_dgxsp.Prelude.Int.{ℤ}
use kimi_k3_neuron_tp3_dgxsp.Protocol.Message.{
  Byte, Message, type_code, protocol_version, valid_type, valid_phase, wire_fixed_payload_bytes,
  max_payload_bytes, wire_header_bytes, max_step_tokens, max_detail_bytes,
}
use kimi_k3_neuron_tp3_dgxsp.Protocol.Wire.{returns, ◌>>=◌, crc32, i32s, put_i32s, joined}
use kimi_k3_neuron_tp3_dgxsp.Protocol.Frame.{
  Header, Numbers, Blobs, Result, ok, error, magic_bytes, message_of, head_differs, decode_tokens,
  decode_variable, decode_payload, decode_body, put_numbers, put_blobs, read_numbers, read_blobs,
  read_fixed, payload_of, blobs_of,
}
use kimi_k3_neuron_tp3_dgxsp.Protocol.Reading.{IsByte, IsInt32}
use kimi_k3_neuron_tp3_dgxsp.Protocol.Inverting.{
  bind-inv, returns-inv, i32s-Inverts, All-append_inv,
}
use kimi_k3_neuron_tp3_dgxsp.Protocol.Fixed.{read_numbers-Inverts, read_blobs-Inverts}
use kimi_k3_neuron_tp3_dgxsp.Protocol.Sizes.{type_code-type_of, phase_code-phase_of}
use kimi_k3_neuron_tp3_dgxsp.Protocol.Valid.{IsNumbers, IsBlobs, IsMessage, IsEncodable}

-- What is behind a check that a call has passed.
pub check_inv :
    {A : Type 0} (failed : Bool) (text : String) (r : Result A) {a : A}
    → (if failed then error text else r) ≡ ok a
    → (failed ≡ false) × (r ≡ ok a)
check_inv true text r e = absurd cc
check_inv false text r e = (refl, e)

not_==_inv : {a b : ℕ} → not (a == b) ≡ false → a ≡ b
not_==_inv {a} {b} e = ground arith

valid_type_inv : (v : ℕ) → not (valid_type v) ≡ false → (1 ≤ v) × (v ≤ 11)
valid_type_inv v e = ground arith

abbrev ok_value : Message → Result Message → Message
ok_value m (ok a) = a
ok_value m (error text) = m

pub decode_body_inv :
    (h : Header) (size : ℕ) (payload : List Byte) {m : Message}
    → decode_body h size payload ≡ ok m
    → (h.magic ≡ magic_bytes)
      × (h.version ≡ 2)
      × (1 ≤ h.type)
      × (h.type ≤ 11)
      × (size ≡ 16 + h.payload_size)
      × (crc32 payload ≡ h.checksum)
      × (decode_payload h.type payload ≡ ok m)
unfolding decode_body
decode_body_inv h size payload e =
    let (magic, e₁) = check_inv (not (h.magic == magic_bytes)) _ _ e in
    let (version, e₂) = check_inv (not (h.version == protocol_version)) _ _ e₁ in
    let (type, e₃) = check_inv (not (valid_type h.type)) _ _ e₂ in
    let (range, e₄) =
      check_inv
        (ltb h.payload_size wire_fixed_payload_bytes || ltb max_payload_bytes h.payload_size) _ _
        e₃ in
    let (length, e₅) = check_inv (not (size == wire_header_bytes + h.payload_size)) _ _ e₄ in
    let (sum, e₆) = check_inv (not (crc32 payload == h.checksum)) _ _ e₅ in
    let (lo, hi) = valid_type_inv h.type type in
    (not_==_inv magic, not_==_inv version, lo, hi, not_==_inv length, not_==_inv sum, e₆)

decode_variable_inv :
    (type : ℕ) (n : Numbers) (b : Blobs) (rest : List Byte) {m : Message}
    → decode_variable type n b rest ≡ ok m
    → (b.phase ≤ 5)
      × (b.reserved ≡ 0)
      × (b.reserved2 ≡ 0)
      × (b.n_ids ≤ 16)
      × (b.detail_size ≤ 256)
      × (b.detail_size ≤ length rest)
      × (decode_tokens type n b (take b.detail_size rest) (i32s b.n_ids (drop b.detail_size rest))
          ≡ ok m)
unfolding decode_variable
decode_variable_inv type n b rest e =
    let (phase, e₁) = check_inv (not (valid_phase b.phase)) _ _ e in
    let (reserved, e₂) = check_inv (not (b.reserved == 0) || not (b.reserved2 == 0)) _ _ e₁ in
    let (few, e₃) = check_inv (ltb max_step_tokens b.n_ids) _ _ e₂ in
    let (fits, e₄) =
      check_inv (ltb max_detail_bytes b.detail_size || ltb (length rest) b.detail_size) _ _ e₃ in
    (
      ground (arith, phase),
      ground (arith, reserved),
      ground (arith, reserved),
      ground (arith, few),
      ground (arith, fits),
      ground (arith, fits),
      e₄,
    )

decode_tokens_inv :
    (type : ℕ) (n : Numbers) (b : Blobs) (detail : List Byte) (read : Option (List ℤ × List Byte))
    {m : Message}
    → decode_tokens type n b detail read ≡ ok m
    → (ids : List ℤ) × (read ≡ some (ids, []))
      × (head_differs ids n.token_id ≡ false)
      × (m ≡ message_of type n b detail ids)
unfolding decode_tokens
decode_tokens_inv type n b detail none e = absurd cc
decode_tokens_inv type n b detail (some (ids, extra ∷ rest)) e = absurd cc
decode_tokens_inv type n b detail (some (ids, [])) {m} e =
    let (same, e₁) = check_inv (head_differs ids n.token_id) _ _ e in
    (ids, refl, same, sym (ap (ok_value m) e₁))

read_fixed_inv :
    (payload : List Byte) {n : Numbers} {b : Blobs} {rest : List Byte}
    → All IsByte payload
    → read_fixed payload ≡ some ((n, b), rest)
    → (payload ≡ put_numbers n ++ (put_blobs b ++ rest)) × IsNumbers n × IsBlobs b × All IsByte rest
unfolding read_fixed
read_fixed_inv payload {n} {b} {rest} all e =
    let (n₁, mid, goes, last) =
      bind-inv read_numbers (λ c. read_blobs >>= λ d. returns (c, d)) payload e in
    let (front, (_, numbers), all₁) = read_numbers-Inverts payload n₁ mid all goes in
    let (b₁, end, goes₁, last₁) = bind-inv read_blobs (λ d. returns (n₁, d)) mid last in
    let (back, (_, blobs), all₂) = read_blobs-Inverts mid b₁ end all₁ goes₁ in
    let (z, s) = returns-inv last₁ in
    let en : n ≡ n₁ = ap (λ q. q.0) z in
    let eb : b ≡ b₁ = ap (λ q. q.1) z in
    (
      front
          ∙ ap₂ (λ c ys. put_numbers c ++ ys) (sym en)
              (back ∙ ap₂ (λ d ys. put_blobs d ++ ys) (sym eb) s),
      subst IsNumbers (sym en) numbers,
      subst IsBlobs (sym eb) blobs,
      subst (All IsByte) s all₂,
    )

-- What decode_message puts together, taken apart again.
blobs_of_lem :
    (type : ℕ) (n : Numbers) (b : Blobs) (detail : List Byte) (ids : List ℤ)
    → b.phase ≤ 5
    → b.reserved ≡ 0
    → b.reserved2 ≡ 0
    → b.n_ids ≡ length ids
    → b.detail_size ≡ length detail
    → blobs_of (message_of type n b detail ids) ≡ b
unfolding message_of
blobs_of_lem type n b detail ids hi r r₂ few size = λ k. record {
  phase = phase_code-phase_of b.phase hi k;
  reserved = sym r k;
  n_ids = sym few k;
  reserved2 = sym r₂ k;
  model_digest = b.model_digest;
  plan_digest = b.plan_digest;
  nccl_id = b.nccl_id;
  detail_size = sym size k;
}

IsMessage-message_of :
    (type : ℕ) (n : Numbers) (b : Blobs) (detail : List Byte) (ids : List ℤ)
    → IsNumbers n
    → IsBlobs b
    → All IsByte detail
    → All IsInt32 ids
    → IsMessage (message_of type n b detail ids)
unfolding message_of
IsMessage-message_of type n b detail ids numbers (_, (_, (_, (_, (model, (plan, (id, _))))))) all
      ints =
    (numbers, model, plan, id, all, ints)

payload_of_lem :
    (type : ℕ) (n : Numbers) (b : Blobs) (detail : List Byte) (ids : List ℤ)
    (payload rest : List Byte)
    → blobs_of (message_of type n b detail ids) ≡ b
    → payload ≡ put_numbers n ++ (put_blobs b ++ rest)
    → rest ≡ detail ++ put_i32s ids
    → payload_of (message_of type n b detail ids) ≡ payload
unfolding payload_of message_of
payload_of_lem type n b detail ids payload rest same front back =
    ap (λ c. joined (put_numbers n ∷ put_blobs c ∷ detail ∷ put_i32s ids ∷ [])) same
    ∙ ap (λ ys. put_numbers n ++ (put_blobs b ++ (detail ++ ys))) (append-nil (put_i32s ids))
    ∙ ap (λ ys. put_numbers n ++ (put_blobs b ++ ys)) (sym back)
    ∙ sym front

-- The message of a payload that decodes has the sizes of its types, fits a frame, and is put as that
-- payload.
pub decode_payload_inv :
    (type : ℕ) (payload : List Byte) (m : Message)
    → 1 ≤ type
    → type ≤ 11
    → All IsByte payload
    → decode_payload type payload ≡ ok m
    → (type_code m.type ≡ type) × IsMessage m × IsEncodable m × (payload_of m ≡ payload)
unfolding decode_payload message_of
decode_payload_inv type payload m lo hi all e = elim (Option-cases (read_fixed payload)) [
  | inl stop ↦ absurd (cc (rw (decode_payload, stop) at e))
  | inr (((n, b), rest), goes) ↦
      let (front, numbers, blobs, all₁) = read_fixed_inv payload all goes in
      let (phase, r, r₂, few, fits, long, e₁) =
        decode_variable_inv type n b rest (rw (decode_payload, goes) at e) in
      let detail = take b.detail_size rest in
      let (ids, read, same, is) = decode_tokens_inv type n b detail _ e₁ in
      let split = take-append-drop b.detail_size rest in
      let (all₂, all₃) =
        All-append_inv IsByte detail (drop b.detail_size rest)
          (subst (All IsByte) (sym split) all₁) in
      let (back, (count, ints), _) =
        i32s-Inverts b.n_ids (drop b.detail_size rest) ids [] all₃ read in
      let size : length detail ≡ b.detail_size =
        omega (arith, length-take b.detail_size rest, long) in
      let whole : rest ≡ detail ++ put_i32s ids =
        sym split ∙ ap (λ ys. detail ++ ys) (back ∙ append-nil (put_i32s ids)) in
      let again = blobs_of_lem type n b detail ids phase r r₂ (sym count) (sym size) in
      subst
        (λ c. (type_code c.type ≡ type) × IsMessage c × IsEncodable c × (payload_of c ≡ payload))
        (sym is)
        (
          type_code-type_of type lo hi,
          IsMessage-message_of type n b detail ids numbers blobs all₂ ints,
          (omega (arith, size, fits), omega (arith, count, few), same),
          payload_of_lem type n b detail ids payload rest again front whole,
        )
]
