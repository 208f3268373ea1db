-- ===== src/Protocol/Sizes.antt =====
-- The numbers of the enumerations and the sizes of the parts of a frame.
use mathlib.Core.Path.{subst}
use kimi_k3_neuron_tp3_dgxsp.Prelude.{
  zero, suc, ◌-◌, ◌&&◌, ℕ, ◌+◌, ◌*◌, ◌^◌, ◌<◌, ◌≤◌, ◌≡◌, refl, arith, Bool, true, List, [], ◌∷◌,
  ◌++◌, ◌==◌, ==_iff, length, length-append,
}
use kimi_k3_neuron_tp3_dgxsp.Prelude.Int.{ℤ}
use kimi_k3_neuron_tp3_dgxsp.Protocol.Message.{
  Byte, Message, MessageType, Phase, type_code, phase_code, type_of, phase_of,
}
use kimi_k3_neuron_tp3_dgxsp.Protocol.Wire
use kimi_k3_neuron_tp3_dgxsp.Protocol.Wire.{
  Read, ◌>>=◌, returns, crc32, i32s, put_i32s, joined, put_u16,
}
use kimi_k3_neuron_tp3_dgxsp.Protocol.Frame.{
  Header, Numbers, Blobs, numbers_of, blobs_of, put_header, put_numbers, put_blobs, payload_of,
}
use kimi_k3_neuron_tp3_dgxsp.Protocol.Valid.{IsBlobs, IsMessage, IsEncodable}

pub type_of-type_code : (t : MessageType) → type_of (type_code t) ≡ t
unfolding type_of type_code
type_of-type_code MessageType.hello = refl
type_of-type_code MessageType.nccl_unique_id = refl
type_of-type_code MessageType.nccl_ready = refl
type_of-type_code MessageType.begin_load = refl
type_of-type_code MessageType.load_ready = refl
type_of-type_code MessageType.token = refl
type_of-type_code MessageType.step_done = refl
type_of-type_code MessageType.failure = refl
type_of-type_code MessageType.abort = refl
type_of-type_code MessageType.finish = refl
type_of-type_code MessageType.finish_ack = refl

pub type_code_range : (t : MessageType) → (1 ≤ type_code t) × (type_code t ≤ 11)
unfolding type_code
type_code_range MessageType.hello = omega arith
type_code_range MessageType.nccl_unique_id = omega arith
type_code_range MessageType.nccl_ready = omega arith
type_code_range MessageType.begin_load = omega arith
type_code_range MessageType.load_ready = omega arith
type_code_range MessageType.token = omega arith
type_code_range MessageType.step_done = omega arith
type_code_range MessageType.failure = omega arith
type_code_range MessageType.abort = omega arith
type_code_range MessageType.finish = omega arith
type_code_range MessageType.finish_ack = omega arith

pub phase_of-phase_code : (p : Phase) → phase_of (phase_code p) ≡ p
unfolding phase_of phase_code
phase_of-phase_code Phase.none = refl
phase_of-phase_code Phase.bootstrap = refl
phase_of-phase_code Phase.nccl_init = refl
phase_of-phase_code Phase.load = refl
phase_of-phase_code Phase.step = refl
phase_of-phase_code Phase.shutdown = refl

pub phase_code_range : (p : Phase) → phase_code p ≤ 5
unfolding phase_code
phase_code_range Phase.none = omega arith
phase_code_range Phase.bootstrap = omega arith
phase_code_range Phase.nccl_init = omega arith
phase_code_range Phase.load = omega arith
phase_code_range Phase.step = omega arith
phase_code_range Phase.shutdown = omega arith

pub length-put_numbers : (n : Numbers) → length (put_numbers n) ≡ 56
unfolding Wire.put_u64 Wire.put_i32 Wire.put_u32 Wire.little_endian
length-put_numbers n = refl

pub length-put_i32s : (vs : List ℤ) → length (put_i32s vs) ≡ 4 * length vs
unfolding put_i32s Wire.put_i32 Wire.put_u32 Wire.little_endian
length-put_i32s [] = refl
length-put_i32s (v ∷ vs) = omega (arith, length-put_i32s vs)

length-joined :
    (a b c d : List Byte) (i j k l : ℕ)
    → length a ≡ i
    → length b ≡ j
    → length c ≡ k
    → length d ≡ l
    → length (joined (a ∷ b ∷ c ∷ d ∷ [])) ≡ i + j + k + l
length-joined a b c d i j k l ha hb hc hd = omega (
  arith,
  length-append a (b ++ (c ++ (d ++ []))),
  length-append b (c ++ (d ++ [])),
  length-append c (d ++ []),
  length-append d [],
  ha,
  hb,
  hc,
  hd,
)

pub length-put_blobs : (b : Blobs) → IsBlobs b → length (put_blobs b) ≡ 202
unfolding Wire.put_u16 Wire.little_endian
length-put_blobs b (_, (_, (_, (_, (model, (plan, (id, _))))))) = omega (
  arith,
  length-joined b.model_digest b.plan_digest b.nccl_id (put_u16 b.detail_size) 32 32 128 2 model.0
      plan.0 id.0 refl,
)

-- The size of a payload: 258 bytes, the detail, and four bytes for each token.
pub length-payload_of :
    (m : Message)
    → IsBlobs (blobs_of m)
    → length (payload_of m) ≡ 56 + 202 + length m.detail + 4 * length m.token_ids
unfolding payload_of
length-payload_of m fits =
    length-joined (put_numbers (numbers_of m)) (put_blobs (blobs_of m)) m.detail
      (put_i32s m.token_ids) 56 202 (length m.detail) (4 * length m.token_ids)
      (length-put_numbers (numbers_of m)) (length-put_blobs (blobs_of m) fits) refl
      (length-put_i32s m.token_ids)

pub blobs_of-IsBlobs : (m : Message) → IsMessage m → IsEncodable m → IsBlobs (blobs_of m)
blobs_of-IsBlobs m (_, model, plan, id, _, _) (few, fewer, _) =
    let p : phase_code m.phase < 2 ^ 16 = omega (arith, phase_code_range m.phase) in
    (p, (omega arith, (omega arith, (omega arith, (model, (plan, (id, (omega arith, tt))))))))

pub length-put_header : (h : Header) → length (put_header h) ≡ 16
unfolding Wire.put_u32 Wire.put_u16 Wire.little_endian
length-put_header h = refl

pub crc32-lt : (bs : List Byte) → crc32 bs < 2 ^ 32
unfolding crc32
crc32-lt bs = omega arith

-- A test that holds at every number below n, by evaluation.
every_code : (ℕ → Bool) → ℕ → Bool
every_code test zero = true
every_code test (suc bound) = every_code test bound && test bound

every_code_lem :
    (test : ℕ → Bool) (bound : ℕ) {v : ℕ} → v < bound → every_code test bound ≡ true → test v ≡ true
unfolding every_code
every_code_lem test zero small whole = absurd (omega (arith, small))
every_code_lem test (suc bound) {v = v} small whole = ground (
  arith,
  λ (less : v < bound) (e : every_code test bound ≡ true). every_code_lem test bound less e,
)

pub type_code-type_of : (v : ℕ) → 1 ≤ v → v ≤ 11 → type_code (type_of v) ≡ v
unfolding type_code type_of every_code
type_code-type_of v lo hi =
    let e : (type_code (type_of (1 + (v - 1))) == 1 + (v - 1)) ≡ true =
      every_code_lem (λ k. type_code (type_of (1 + k)) == 1 + k) 11 {v = v - 1} (omega arith)
        refl in
    subst (λ w. type_code (type_of w) ≡ w) (omega arith) ((==_iff _ _).0 e)

pub phase_code-phase_of : (v : ℕ) → v ≤ 5 → phase_code (phase_of v) ≡ v
unfolding phase_code phase_of every_code
phase_code-phase_of v hi =
    (==_iff _ _).0 (every_code_lem (λ k. phase_code (phase_of k) == k) 6 {v = v} (omega arith) refl)
