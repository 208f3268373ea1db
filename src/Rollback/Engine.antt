-- ===== src/Rollback/Engine.antt =====
-- The engine behind the rollback gate, as the gate calls it, and the comparison of two rows.
use kimi_k3_neuron_tp3_dgxsp.Prelude.{
  ℕ, suc, Bool, true, false, Option, List, [], ◌∷◌, ◌==◌, if◌then◌else◌,
}
use kimi_k3_neuron_tp3_dgxsp.Draft.Config.{Token}

-- The calls of one rank, with `none` for a call that reports an error. `same_bits` is memcmp on one
-- float and `greater` the float's order. A row is the logits of one position.
pub record Engine : Type 1 where
  pub Float : Type 0
  pub same_bits : Float → Float → Bool
  pub greater : Float → Float → Bool
  pub State : Type 0
  pub reset_state : State → State
  pub synchronize : State → Option State
  pub forward_token : State → Token → Option (State × List Float)
  pub forward_batch : State → List Token → Option (State × List (List Float))
  pub set_rollback : State → Bool → State
  pub forward_rollback : State → ℕ → Option State

-- The part of Cmp that is not about the size of a difference.
pub record Cmp : Type 0 where
  pub n_exact : ℕ
  pub top_a : ℕ
  pub top_b : ℕ
  pub bitwise : Bool

module _ (engine : Engine) where
  -- The loop of compare_rows on positions i and up; best_a is a[top_a].
  unfoldable pub compare_from :
      List engine.Float → List engine.Float → ℕ → ℕ → ℕ → engine.Float → ℕ → engine.Float → Cmp
  compare_from (x ∷ a) (y ∷ b) i n_exact top_a best_a top_b best_b =
      let n = if engine.same_bits x y then suc n_exact else n_exact in
      let better_a = engine.greater x best_a in
      let better_b = engine.greater y best_b in
      compare_from a b (suc i) n (if better_a then i else top_a) (if better_a then x else best_a)
        (if better_b then i else top_b) (if better_b then y else best_b)
  compare_from _ _ i n_exact top_a best_a top_b best_b = record {
    n_exact = n_exact;
    top_a = top_a;
    top_b = top_b;
    bitwise = n_exact == i;
  }

  -- compare_rows on rows of one length.
  unfoldable pub compare_rows : List engine.Float → List engine.Float → Cmp
  unfolding compare_from
  compare_rows (x ∷ a) (y ∷ b) = compare_from (x ∷ a) (y ∷ b) 0 0 0 x 0 y
  compare_rows _ _ = record { n_exact = 0; top_a = 0; top_b = 0; bitwise = true }

  -- memcmp on two rows, and on two buffers of rows.
  unfoldable pub memcmp_row : List engine.Float → List engine.Float → Bool
  memcmp_row [] [] = true
  memcmp_row (x ∷ a) (y ∷ b) =
      let rest = memcmp_row a b in if engine.same_bits x y then rest else false
  memcmp_row _ _ = false

  unfoldable pub memcmp_rows : List (List engine.Float) → List (List engine.Float) → Bool
  unfolding memcmp_row
  memcmp_rows [] [] = true
  memcmp_rows (a ∷ rows) (b ∷ rows_b) =
      let rest = memcmp_rows rows rows_b in if memcmp_row a b then rest else false
  memcmp_rows _ _ = false
