-- ===== src/Protocol/Inverting.antt =====
-- What a read of a frame that succeeds says of the bytes it has taken: the writes put the same.
use mathlib.Core.Option.{some-injective}
use mathlib.Core.Path.{subst}
use kimi_k3_neuron_tp3_dgxsp.Prelude.{
  ℕ, zero, suc, ◌+◌, ◌*◌, ◌/◌, ◌%◌, ◌^◌, ◌<◌, ◌≡◌, refl, sym, ap, ap₂, ◌∙◌, arith, some, List, [],
  ◌∷◌, ◌++◌, append_assoc, append_assoc, inl, inr, Option-cases, All, length, take-append-drop,
  length-take, ltb, Bool-cases,
}
use kimi_k3_neuron_tp3_dgxsp.Protocol.Message.{Byte}
use kimi_k3_neuron_tp3_dgxsp.Protocol.Wire.{
  little_endian, put_u16, put_u32, put_u64, put_i32, put_i32s, to_u32, of_u32, Read, ◌>>=◌, returns,
  next, unsigned, u16, u32, u64, i32, bytes, i32s,
}
use kimi_k3_neuron_tp3_dgxsp.Protocol.Reading.{IsByte, IsInt32}

-- A read that succeeds, apart: what its first part gives, and what its second part gives on that.
pub bind-inv :
    {A B : Type 0} (r : Read A) (k : A → Read B) (bs : List Byte) {b : B} {rest : List Byte}
    → (r >>= k) bs ≡ some (b, rest)
    → (a : A) × (mid : List Byte) × (r bs ≡ some (a, mid)) × (k a mid ≡ some (b, rest))
bind-inv r k bs e = elim (Option-cases (r bs)) [
  | inl stop ↦ absurd (cc (rw (◌>>=◌, stop) at e))
  | inr ((a, mid), goes) ↦ (a, mid, goes, rw (◌>>=◌, goes) at e)
]

pub returns-inv :
    {A : Type 0} {a b : A} {bs rest : List Byte}
    → returns a bs ≡ some (b, rest)
    → (b ≡ a) × (bs ≡ rest)
returns-inv e = let p = some-injective _ _ e in (sym (ap (λ q. q.0) p), ap (λ q. q.1) p)

pub unsigned-inv :
    (n : ℕ) (bs : List Byte) {v : ℕ} {rest : List Byte}
    → All IsByte bs
    → unsigned n bs ≡ some (v, rest)
    → (bs ≡ little_endian n v ++ rest) × (v < 256 ^ n)
unfolding unsigned next little_endian
unsigned-inv zero bs h e = let (z, s) = returns-inv e in (s, rw z (omega arith))
unsigned-inv (suc n) [] h e = absurd cc
unsigned-inv (suc n) (b ∷ bs) {v} {rest} h e =
    let (high, mid, goes, last) = bind-inv (unsigned n) (λ w. returns (b + 256 * w)) bs e in
    let (z, s) = returns-inv last in
    let (front, lt) = unsigned-inv n bs h.1 goes in
    let low : v % 256 ≡ b = omega (arith, z, h.0) in
    let rest_of : v / 256 ≡ high = omega (arith, z, h.0) in
    (
      ap₂ ◌∷◌ (sym low) (front ∙ ap₂ (λ w ys. little_endian n w ++ ys) (sym rest_of) s),
      grind (arith, z, h.0, lt),
    )

pub All-append_inv :
    (P : Byte → Type 0) (xs ys : List Byte) → All P (xs ++ ys) → All P xs × All P ys
All-append_inv P [] ys h = (tt, h)
All-append_inv P (x ∷ xs) ys h =
    let (front, back) = All-append_inv P xs ys h.1 in ((h.0, front), back)

-- A read of the bytes of `put v`, for a v that satisfies P, and of no other bytes.
abbrev pub Inverts : {A : Type 0} → Read A → (A → List Byte) → (A → Type 0) → Type 0
Inverts {A} r put P =
    (bs : List Byte) (v : A) (rest : List Byte)
    → All IsByte bs
    → r bs ≡ some (v, rest)
    → (bs ≡ put v ++ rest) × P v × All IsByte rest

pub unsigned-Inverts : (n : ℕ) → Inverts (unsigned n) (little_endian n) (λ v. v < 256 ^ n)
unsigned-Inverts n bs v rest h e =
    let (front, lt) = unsigned-inv n bs h e in
    (front, lt, (All-append_inv IsByte (little_endian n v) rest (subst (All IsByte) front h)).1)

to_u32-of_u32 : (v : ℕ) → v < 256 ^ 4 → to_u32 (of_u32 v) ≡ v
to_u32-of_u32 v h = ground arith

of_u32-IsInt32 : (v : ℕ) → v < 256 ^ 4 → IsInt32 (of_u32 v)
of_u32-IsInt32 v h = ground arith

-- The rules for a chain of reads whose result keeps what each has read: the projection finds it
-- there. E collects what is known of the result, in the order from the last read to the first.
pub bind-Inverts :
    {A B : Type 0} {P : A → Type 0} (put : A → List Byte) (more : B → List Byte) {E Q : B → Type 0}
    (r : Read A) (k : A → Read B) (field : B → A)
    → Inverts r put P
    → ((a : A) → Inverts (k a) more (λ b. ((field b ≡ a) × E b) × Q b))
    → Inverts (r >>= k) (λ b. put (field b) ++ more b) (λ b. E b × (P (field b) × Q b))
bind-Inverts {P = P} put more r k field hr hk bs b rest h e =
    let (a, mid, goes, last) = bind-inv r k bs e in
    let (front, fits, all) = hr bs a mid h goes in
    let (back, ((same, known), rest_fits), behind) = hk a mid b rest all last in
    (
      front
          ∙ ap₂ (λ x ys. put x ++ ys) (sym same) back
          ∙ sym (append_assoc (put (field b)) (more b) rest),
      (known, (subst P (sym same) fits, rest_fits)),
      behind,
    )

pub returns-Inverts :
    {B : Type 0} (E : B → Type 0) (b : B)
    → E b
    → Inverts (returns b) (λ _. []) (λ c. E c × Unit {0})
returns-Inverts E b known bs c rest h e =
    let (z, s) = returns-inv e in (s, (subst E (sym z) known, tt), subst (All IsByte) s h)

pub u16-Inverts : Inverts u16 put_u16 (λ v. v < 2 ^ 16)
unfolding u16 put_u16
u16-Inverts = unsigned-Inverts 2

pub u32-Inverts : Inverts u32 put_u32 (λ v. v < 2 ^ 32)
unfolding u32 put_u32
u32-Inverts = unsigned-Inverts 4

pub u64-Inverts : Inverts u64 put_u64 (λ v. v < 2 ^ 64)
unfolding u64 put_u64
u64-Inverts = unsigned-Inverts 8

pub i32-Inverts : Inverts i32 put_i32 IsInt32
unfolding i32 put_i32
i32-Inverts bs v rest h e =
    let (w, mid, goes, last) = bind-inv u32 (λ w. returns (of_u32 w)) bs e in
    let (z, s) = returns-inv last in
    let (front, lt, all) = u32-Inverts bs w mid h goes in
    let value : to_u32 v ≡ w = ap to_u32 z ∙ to_u32-of_u32 w lt in
    (
      front ∙ ap₂ (λ x ys. put_u32 x ++ ys) (sym value) s,
      subst IsInt32 (sym z) (of_u32-IsInt32 w lt),
      subst (All IsByte) s all,
    )

pub bytes-Inverts : (n : ℕ) → Inverts (bytes n) (λ xs. xs) (λ xs. (length xs ≡ n) × All IsByte xs)
unfolding bytes
bytes-Inverts n bs v rest h e = elim (Bool-cases (ltb (length bs) n)) [
  | inl short ↦ absurd (cc (rw short at e))
  | inr enough ↦
      let p = some-injective _ _ (rw enough at e) in
      let back : bs ≡ v ++ rest =
        sym (take-append-drop n bs) ∙ ap₂ (λ xs ys. xs ++ ys) (ap (λ q. q.0) p) (ap (λ q. q.1) p) in
      let (front, behind) = All-append_inv IsByte v rest (subst (All IsByte) back h) in
      let size : length v ≡ n =
        sym (ap (λ q. length (q.0)) p) ∙ length-take n bs ∙ ground (arith, enough) in
      (back, (size, front), behind)
]

pub i32s-Inverts : (n : ℕ) → Inverts (i32s n) put_i32s (λ vs. (length vs ≡ n) × All IsInt32 vs)
unfolding i32s put_i32s
i32s-Inverts zero bs v rest h e =
    let (z, s) = returns-inv e in
    subst (λ vs. (bs ≡ put_i32s vs ++ rest) × ((length vs ≡ 0) × All IsInt32 vs) × All IsByte rest)
      (sym z) (s, (refl, tt), subst (All IsByte) s h)
i32s-Inverts (suc n) bs v rest h e =
    let (w, mid, goes, last) = bind-inv i32 (λ w. i32s n >>= λ ws. returns (w ∷ ws)) bs e in
    let (front, int, all) = i32-Inverts bs w mid h goes in
    let (ws, end, goes_on, last_of) = bind-inv (i32s n) (λ ws. returns (w ∷ ws)) mid last in
    let (back, (size, ints), behind) = i32s-Inverts n mid ws end all goes_on in
    let (z, s) = returns-inv last_of in
    let parts : bs ≡ put_i32s (w ∷ ws) ++ end =
      front ∙ ap (λ ys. put_i32 w ++ ys) back ∙ sym (append_assoc (put_i32 w) (put_i32s ws) end) in
    subst
      (λ vs. (bs ≡ put_i32s vs ++ rest) × ((length vs ≡ suc n) × All IsInt32 vs) × All IsByte rest)
      (sym z)
      (
        parts ∙ ap (λ ys. put_i32s (w ∷ ws) ++ ys) s,
        (ap suc size, (int, ints)),
        subst (All IsByte) s behind,
      )
