-- ===== src/Rollback/Shared.antt =====
-- What the arms of the gate share, and comparisons of a row with itself.
use kimi_k3_neuron_tp3_dgxsp.Prelude.{
  ℕ, zero, suc, ◌+◌, ◌*◌, ◌-◌, ◌<◌, ◌≡◌, refl, ap, ◌∙◌, Bool, true, false, some, List, [], ◌∷◌,
  ◌++◌, length, get_elem?, arith, length-append, ==_iff,
}
use kimi_k3_neuron_tp3_dgxsp.Prelude.Int.{pos}
use kimi_k3_neuron_tp3_dgxsp.Draft.Config.{Token}
use kimi_k3_neuron_tp3_dgxsp.Rollback.Engine.{
  Engine, compare_from, compare_rows, memcmp_row, memcmp_rows,
}
use kimi_k3_neuron_tp3_dgxsp.Rollback.Gate.{
  cyc, ids_from, prompt_ids, swapped_ids, all_bitwise, count,
}
use kimi_k3_neuron_tp3_dgxsp.Rollback.Snapshots.{cores}

length-ids_from : (f : ℕ → Token) (n b : ℕ) → length (ids_from f n b) ≡ n
unfolding ids_from
length-ids_from f zero b = refl
length-ids_from f (suc n) b = ap suc (length-ids_from f n (suc b))

ids_from-add :
    (f : ℕ → Token) (m n b : ℕ) → ids_from f (m + n) b ≡ ids_from f m b ++ ids_from f n (b + m)
unfolding ids_from
ids_from-add f zero n b = let (e, z) : (0 + n ≡ n) × (b + 0 ≡ b) = omega arith in rw (e, z) refl
ids_from-add f (suc m) n b =
    let e : suc m + n ≡ suc (m + n) = omega arith in
    let z : suc b + m ≡ b + suc m = omega arith in
    rw e (ap (◌∷◌ (f b)) (ids_from-add f m n (suc b) ∙ rw z refl))

-- The core after a row is a function of the ids up to the row.
cores-prefix :
    {C R : Type 0} (row : C → Token → C × R) (c : C) (xs ys : List Token) (j : ℕ)
    → j < length xs
    → get_elem? (cores row c (xs ++ ys)) j ≡ get_elem? (cores row c xs) j
cores-prefix row c [] ys j h = absurd (omega arith)
cores-prefix row c (x ∷ xs) ys zero h = refl
cores-prefix row c (x ∷ xs) ys (suc j) h = cores-prefix row (row c x).0 xs ys j (omega arith)

core_at :
    {C R : Type 0} (row : C → Token → C × R) (c : C) (xs : List Token) (j : ℕ)
    → j < length xs
    → (d : C) × (get_elem? (cores row c xs) j ≡ some d)
core_at row c [] j h = absurd (omega arith)
core_at row c (x ∷ xs) zero h = ((row c x).0, refl)
core_at row c (x ∷ xs) (suc j) h = core_at row (row c x).0 xs j (omega arith)

pub length-prompt_ids : (prompt : List Token) (k : ℕ) → length (prompt_ids prompt k) ≡ k
unfolding prompt_ids
length-prompt_ids prompt k = length-ids_from (cyc prompt) k 0

pub length-swapped_ids :
    (prompt : List Token) (k j : ℕ) → j < k → length (swapped_ids prompt k j) ≡ k
unfolding swapped_ids
length-swapped_ids prompt k j lt =
    let shared = ids_from (cyc prompt) (j + 1) 0 in
    let other = λ (b : ℕ). pos (1000 + 37 * b) in
    omega (
      arith,
      length-append shared (ids_from other (k - (j + 1)) (j + 1)),
      length-ids_from (cyc prompt) (j + 1) 0,
      length-ids_from other (k - (j + 1)) (j + 1),
    )

-- Test A's two passes have one core after row j.
pub shared_core :
    {C R : Type 0} (row : ℕ → C → Token → C × R) (c : C) (prompt : List Token) (k j : ℕ)
    → j < k
    → (d : C) × (get_elem? (cores (row (length (prompt_ids prompt k))) c (prompt_ids prompt k)) j
        ≡ some d)
      × (get_elem? (cores (row (length (swapped_ids prompt k j))) c (swapped_ids prompt k j)) j
          ≡ some d)
unfolding prompt_ids swapped_ids
shared_core row c prompt k j lt =
    let shared = ids_from (cyc prompt) (j + 1) 0 in
    let len = length-ids_from (cyc prompt) (j + 1) 0 in
    let split : prompt_ids prompt k ≡ shared ++ ids_from (cyc prompt) (k - (j + 1)) (0 + (j + 1)) =
      ap (λ n. ids_from (cyc prompt) n 0) (omega arith)
      ∙ ids_from-add (cyc prompt) (j + 1) (k - (j + 1)) 0 in
    let (d, at) = core_at (row k) c shared j (omega arith) in
    (
      d,
      rw (length-prompt_ids prompt k) (
          ap (λ ids. get_elem? (cores (row k) c ids) j) split
          ∙ cores-prefix (row k) c shared _ j (omega arith)
          ∙ at),
      rw (length-swapped_ids prompt k j lt) (cores-prefix (row k) c shared _ j (omega arith) ∙ at),
    )

module _ (engine : Engine) (refl_bits : (x : engine.Float) → engine.same_bits x x ≡ true) where
  compare_from_refl :
      (a : List engine.Float) (i ta : ℕ) (ba : engine.Float) (tb : ℕ) (bb : engine.Float)
      → (compare_from engine a a i i ta ba tb bb).bitwise ≡ true
  unfolding compare_from
  compare_from_refl [] i ta ba tb bb = (==_iff i i).1 refl
  compare_from_refl (x ∷ a) i ta ba tb bb =
      rw (refl_bits x, compare_from) (compare_from_refl a (suc i) _ _ _ _)

  compare_rows_refl : (a : List engine.Float) → (compare_rows engine a a).bitwise ≡ true
  unfolding compare_rows
  compare_rows_refl [] = refl
  compare_rows_refl (x ∷ a) = compare_from_refl (x ∷ a) 0 0 x 0 x

  memcmp_row_refl : (a : List engine.Float) → memcmp_row engine a a ≡ true
  unfolding memcmp_row
  memcmp_row_refl [] = refl
  memcmp_row_refl (x ∷ a) = rw (refl_bits x) (memcmp_row_refl a)

  pub memcmp_rows_refl : (r : List (List engine.Float)) → memcmp_rows engine r r ≡ true
  unfolding memcmp_rows
  memcmp_rows_refl [] = refl
  memcmp_rows_refl (a ∷ r) = rw (memcmp_row_refl a) (memcmp_rows_refl r)

  pub all_bitwise_refl : (r : List (List engine.Float)) → all_bitwise engine r r ≡ true
  unfolding all_bitwise
  all_bitwise_refl [] = refl
  all_bitwise_refl (a ∷ r) = rw (compare_rows_refl a) (all_bitwise_refl r)

pub count-same : (r0 : Bool) (n : ℕ) → count r0 true n ≡ n
unfolding count
count-same true n = refl
count-same false n = refl
