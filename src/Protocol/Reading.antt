-- ===== src/Protocol/Reading.antt =====
-- What the reads of a frame do to the bytes that the writes put there.
use kimi_k3_neuron_tp3_dgxsp.Prelude.{
  ℕ, zero, suc, ◌+◌, ◌*◌, ◌/◌, ◌%◌, ◌^◌, ◌<◌, ◌≤◌, ◌≡◌, refl, sym, ap, ◌∙◌, arith, some, List, [],
  ◌∷◌, ◌++◌, append_assoc, All, length, take-append, drop-append, length-append, ltb, false,
}
use kimi_k3_neuron_tp3_dgxsp.Prelude.Int.{ℤ, pos, negsuc, pos_part, neg_part}
use kimi_k3_neuron_tp3_dgxsp.Protocol.Message.{Byte}
use kimi_k3_neuron_tp3_dgxsp.Protocol.Wire.{
  little_endian, put_u16, put_u32, put_u64, put_i32, put_i32s, to_u32, of_u32, Read, ◌>>=◌, returns,
  next, unsigned, u16, u32, u64, i32, bytes, i32s,
}

abbrev pub IsByte : Byte → Type 0
IsByte b = b < 256

-- The read takes `xs` off the front of any bytes, and gives `a`.
abbrev pub Reads : {A : Type 0} → Read A → A → List Byte → Type 0
Reads r a xs = (rest : List Byte) → r (xs ++ rest) ≡ some (a, rest)

pub bind-Reads :
    {A B : Type 0} (r : Read A) (k : A → Read B) {a : A} {b : B} (xs ys : List Byte)
    → Reads r a xs
    → Reads (k a) b ys
    → Reads (r >>= k) b (xs ++ ys)
bind-Reads r k {a} xs ys hr hk rest =
    rw (append_assoc xs ys rest, ◌>>=◌, hr (ys ++ rest), hk rest) refl

pub returns-Reads : {A : Type 0} (a : A) → Reads (returns a) a []
returns-Reads a rest = refl

pub last-Reads :
    {A B : Type 0} (r : Read A) (k : A → B) {a : A} (xs : List Byte)
    → Reads r a xs
    → Reads (r >>= λ v. returns (k v)) (k a) xs
last-Reads r k xs hr rest = rw (◌>>=◌, hr rest) refl

pub unsigned-Reads : (n v : ℕ) → v < 256 ^ n → Reads (unsigned n) v (little_endian n v)
unfolding unsigned next little_endian
unsigned-Reads zero v h rest = let e : v ≡ 0 = omega arith in rw e refl
unsigned-Reads (suc n) v h rest =
    let q : v / 256 < 256 ^ n = grind arith in
    let e : v % 256 + 256 * (v / 256) ≡ v = omega arith in
    last-Reads (unsigned n) (λ high. v % 256 + 256 * high) _ (unsigned-Reads n (v / 256) q) rest
    ∙ ap (λ w. some (w, rest)) e

-- A value of an int32_t.
abbrev pub IsInt32 : ℤ → Type 0
IsInt32 v = (pos_part v < 2 ^ 31) × (neg_part v ≤ 2 ^ 31)

to_u32-lt : (v : ℤ) → to_u32 v < 256 ^ 4
to_u32-lt (pos n) = omega arith
to_u32-lt (negsuc n) = omega arith

of_u32-to_u32 : (v : ℤ) → IsInt32 v → of_u32 (to_u32 v) ≡ v
of_u32-to_u32 (pos n) h = ground arith
of_u32-to_u32 (negsuc n) h = ground arith

pub u16-Reads : (v : ℕ) → v < 2 ^ 16 → Reads u16 v (put_u16 v)
unfolding u16 put_u16
u16-Reads v h = unsigned-Reads 2 v h

pub u32-Reads : (v : ℕ) → v < 2 ^ 32 → Reads u32 v (put_u32 v)
unfolding u32 put_u32
u32-Reads v h = unsigned-Reads 4 v h

pub u64-Reads : (v : ℕ) → v < 2 ^ 64 → Reads u64 v (put_u64 v)
unfolding u64 put_u64
u64-Reads v h = unsigned-Reads 8 v h

pub i32-Reads : (v : ℤ) → IsInt32 v → Reads i32 v (put_i32 v)
unfolding i32 put_i32 u32 put_u32
i32-Reads v h rest =
    last-Reads (unsigned 4) of_u32 (little_endian 4 (to_u32 v))
      (unsigned-Reads 4 (to_u32 v) (to_u32-lt v)) rest
    ∙ ap (λ w. some (w, rest)) (of_u32-to_u32 v h)

pub i32s-Reads : (vs : List ℤ) → All IsInt32 vs → Reads (i32s (length vs)) vs (put_i32s vs)
unfolding i32s put_i32s
i32s-Reads [] h = returns-Reads []
i32s-Reads (v ∷ vs) h =
    bind-Reads i32 (λ w. i32s (length vs) >>= λ ws. returns (w ∷ ws)) (put_i32 v) (put_i32s vs)
      (i32-Reads v h.0)
      (last-Reads (i32s (length vs)) (λ ws. v ∷ ws) (put_i32s vs) (i32s-Reads vs h.1))

pub bytes-Reads : (n : ℕ) (xs : List Byte) → length xs ≡ n → Reads (bytes n) xs xs
unfolding bytes
bytes-Reads n xs h rest =
    let e : ltb (length (xs ++ rest)) n ≡ false = ground (arith, length-append xs rest, h) in
    rw (e, sym h, take-append xs rest, drop-append xs rest) refl
