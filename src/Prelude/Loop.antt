-- ===== src/Prelude/Loop.antt =====
-- Counted loops and loops over a list, and the rules for what their bodies keep.
use kimi_k3_neuron_tp3_dgxsp.Prelude.Lists.{All}
use kimi_k3_neuron_tp3_dgxsp.Prelude.Tests.{◌==◌, Bool-cases, Option-cases}
use Prim.Native.Nat.{ℕ, zero, suc, ◌+◌, ◌≤◌, ◌<◌}
use mathlib.Core.Logic.{inl, inr}
use mathlib.Core.Option.{Option, none, some, some-injective}
use mathlib.Core.Path.{◌≡◌, refl, sym, subst}
use mathlib.Core.List.{List, [], ◌∷◌}
use native.Mathlib.Omega.{arith}

-- `for (int i = first; i < first + rounds; ++i)`, with the rounds left.
unfoldable pub for_rounds {ℓ} : {S : Type ℓ} → ℕ → ℕ → (ℕ → S → S) → S → S
for_rounds zero i body s = s
for_rounds (suc rounds) i body s = for_rounds rounds (suc i) body (body i s)

-- `for (x : xs)`.
unfoldable pub for_each {ℓ κ} : {A : Type ℓ} {S : Type κ} → List A → (A → S → S) → S → S
for_each [] body s = s
for_each (x ∷ xs) body s = for_each xs body (body x s)

module _ {ℓ κ} {S : Type ℓ} (P : S → Type κ) where
  pub for_rounds_keeps :
      (body : ℕ → S → S)
      → ((i : ℕ) (s : S) → P s → P (body i s))
      → (rounds i : ℕ) (s : S) → P s
      → P (for_rounds rounds i body s)
  unfolding for_rounds
  for_rounds_keeps body keep zero i s h = h
  for_rounds_keeps body keep (suc rounds) i s h =
      for_rounds_keeps body keep rounds (suc i) (body i s) (keep i s h)

-- The rule for an invariant that speaks of the index. The end is a variable with an equation.
pub for_rounds_inv {ℓ κ} :
    {S : Type ℓ} (P : ℕ → S → Type κ) (body : ℕ → S → S) (stop : ℕ)
    → ((i : ℕ) (s : S) → i < stop → P i s → P (suc i) (body i s))
    → (rounds i : ℕ) (s : S) → i + rounds ≡ stop
    → P i s
    → P stop (for_rounds rounds i body s)
unfolding for_rounds
for_rounds_inv P body stop keep zero i s e h = subst (λ j. P j s) (omega arith) h
for_rounds_inv P body stop keep (suc rounds) i s e h =
    for_rounds_inv P body stop keep rounds (suc i) (body i s) (omega arith)
      (keep i s (omega arith) h)

-- A body that keeps P at the elements that satisfy Q.
pub for_each_keeps_all {ℓ κ ℓ' κ'} :
    {S : Type ℓ} {A : Type ℓ'} (P : S → Type κ) (Q : A → Type κ') (body : A → S → S)
    → ((x : A) (s : S) → Q x → P s → P (body x s))
    → (xs : List A) (s : S) → All Q xs
    → P s
    → P (for_each xs body s)
unfolding for_each
for_each_keeps_all P Q body keep [] s all h = h
for_each_keeps_all P Q body keep (x ∷ xs) s all h =
    for_each_keeps_all P Q body keep xs (body x s) all.1 (keep x s all.0 h)

-- What follows a call that can fail.
infixl 5 ◌>>=◌
abbrev pub ◌>>=◌ {ℓ κ} : {A : Type ℓ} {B : Type κ} → Option A → (A → Option B) → Option B
none >>= f = none
some a >>= f = f a

-- A counted loop whose body can leave the function.
unfoldable pub try_rounds {ℓ} : {S : Type ℓ} → ℕ → ℕ → (ℕ → S → Option S) → S → Option S
try_rounds zero i body s = some s
try_rounds (suc rounds) i body s = body i s >>= try_rounds rounds (suc i) body

-- Where the body goes on from what it keeps, at the indices below the end, so does the loop.
pub try_rounds_inv {ℓ κ} :
    {S : Type ℓ} (P : S → Type κ) (body : ℕ → S → Option S) (first stop : ℕ)
    → ((i : ℕ) (s : S) → first ≤ i → i < stop → P s → (s' : S) × (body i s ≡ some s') × P s')
    → (rounds i : ℕ) (s : S) → first ≤ i
    → i + rounds ≤ stop
    → P s
    → (s' : S) × (try_rounds rounds i body s ≡ some s') × P s'
unfolding try_rounds
try_rounds_inv P body first stop keep zero i s lo hi h = (s, refl, h)
try_rounds_inv P body first stop keep (suc rounds) i s lo hi h =
    let (s₁, runs, h₁) = keep i s lo (omega arith) h in
    let (s₂, more, h₂) =
      try_rounds_inv P body first stop keep rounds (suc i) s₁ (omega arith) (omega arith) h₁ in
    (s₂, rw runs more, h₂)

-- A property Z that holds at the end only if it held all along, with a fact for each round.
pub try_rounds_all {ℓ κ κ'} :
    {S : Type ℓ} (Z : S → Type κ) (Q : ℕ → Type κ') (body : ℕ → S → Option S)
    → ((i : ℕ) (s s' : S) → body i s ≡ some s' → Z s' → Z s × Q i)
    → (rounds i : ℕ) (s s' : S) → try_rounds rounds i body s ≡ some s'
    → Z s'
    → Z s × ((k : ℕ) → i ≤ k → k < i + rounds → Q k)
unfolding try_rounds
try_rounds_all Z Q body back zero i s s' e z =
    (subst Z (sym (some-injective _ _ e)) z, λ k hi lt. absurd (omega arith))
try_rounds_all Z Q body back (suc rounds) i s s' e z = elim (Option-cases (body i s)) [
  | inl stop ↦ absurd (cc (rw (stop, try_rounds) at e))
  | inr (s₁, goes) ↦
      let (z₁, later) =
        try_rounds_all Z Q body back rounds (suc i) s₁ s' (rw (goes, try_rounds) at e) z in
      let (z₀, here) = back i s s₁ goes z₁ in
      (
        z₀,
        λ k hi lt. elim (Bool-cases (k == i)) [
          | inl same ↦ let e : i ≡ k = ground (arith, same) in subst Q e here
          | inr other ↦ later k (ground (arith, other)) (omega arith)
        ],
      )
]
