-- ===== src/Rollback/Gate.antt =====
-- run_spec_rollback_check: tests C, A and D, with the failed comparisons counted on rank 0. `none` is
-- the early `return 1` of a call that fails; what is only printed is left out.
use kimi_k3_neuron_tp3_dgxsp.Prelude.{
  ℕ, zero, suc, ◌+◌, ◌-◌, ◌*◌, ◌%◌, Bool, true, false, Option, none, some, List, [], ◌∷◌, ◌++◌,
  length, leb, ◌&&◌, get_or, ◌==◌, if◌then◌else◌,
}
use kimi_k3_neuron_tp3_dgxsp.Prelude.Int.{pos}
use kimi_k3_neuron_tp3_dgxsp.Prelude.Loop.{◌>>=◌, try_rounds}
use kimi_k3_neuron_tp3_dgxsp.Draft.Config.{Token}
use kimi_k3_neuron_tp3_dgxsp.Rollback.Engine.{Engine, compare_rows, memcmp_rows}

-- p[i % p.size()]. On an empty prompt this divides by zero: `divides_by_zero` keeps the gate from it.
unfoldable pub cyc : List Token → ℕ → Token
cyc p i = get_or p (i % length p) (pos 0)

-- `for (b = first; b < first + n; ++b) ids[b] = f(b)`.
unfoldable pub ids_from : (ℕ → Token) → ℕ → ℕ → List Token
ids_from f zero b = []
ids_from f (suc n) b = f b ∷ ids_from f n (suc b)

-- `ids` of tests C and D, `ia` of test A.
unfoldable pub prompt_ids : List Token → ℕ → List Token
unfolding ids_from cyc
prompt_ids prompt k = ids_from (cyc prompt) k 0

-- `ib`: the first j + 1 ids of `ia`, and others after them.
unfoldable pub swapped_ids : List Token → ℕ → ℕ → List Token
unfolding ids_from cyc
swapped_ids prompt k j =
    ids_from (cyc prompt) (j + 1) 0 ++ ids_from (λ b. pos (1000 + 37 * b)) (k - (j + 1)) (j + 1)

abbrev pub cont_tok : ℕ → Token
cont_tok s = pos (4096 + 101 * (s + 1))

-- Whether there is a pass to make and no token to fill it with.
abbrev pub divides_by_zero : List Token → ℕ → Bool
divides_by_zero prompt k_max = leb 2 k_max && (length prompt == 0)

-- A failed comparison is counted on rank 0 only.
unfoldable pub count : Bool → Bool → ℕ → ℕ
count true false failures = suc failures
count _ _ failures = failures

module _ (engine : Engine) where
  unfoldable pub forward_all : List Token → engine.State → Option engine.State
  forward_all [] st = some st
  forward_all (t ∷ ts) st = do (st, row) ← engine.forward_token st t; forward_all ts st

  unfoldable pub replay : List Token → engine.State → Option engine.State
  unfolding forward_all
  replay prompt st = do st ← engine.synchronize (engine.reset_state st); forward_all prompt st

  -- The continuation from step s on, and its rows.
  unfoldable pub capture_from :
      ℕ → ℕ → engine.State → Option (engine.State × List (List engine.Float))
  capture_from zero s st = some (st, [])
  capture_from (suc n) s st = do
    (st, row) ← engine.forward_token st (cont_tok s)
    (st, rows) ← capture_from n (suc s) st
    some (st, row ∷ rows)

  unfoldable pub continue_and_capture :
      ℕ → engine.State → Option (engine.State × List (List engine.Float))
  unfolding capture_from
  continue_and_capture n_cont = capture_from n_cont 0

  -- One arm of test C.
  unfoldable pub pass_arm :
      Bool
      → List Token
      → List Token
      → engine.State
      → Option (engine.State × List (List engine.Float))
  unfolding replay
  pass_arm on prompt ids st = do
    st ← replay prompt (engine.set_rollback st on)
    engine.forward_batch st ids

  -- One arm of test A, and the speculative arm of test D.
  unfoldable pub rollback_arm :
      List Token
      → List Token
      → ℕ
      → ℕ
      → engine.State
      → Option (engine.State × List (List engine.Float))
  unfolding replay continue_and_capture
  rollback_arm prompt ids j n_cont st = do
    st ← replay prompt st
    (st, rows) ← engine.forward_batch st ids
    st ← engine.forward_rollback st j
    continue_and_capture n_cont st

  -- The sequential arm of test D.
  unfoldable pub sequential_arm :
      List Token → List Token → ℕ → engine.State → Option (engine.State × List (List engine.Float))
  unfolding replay forward_all continue_and_capture
  sequential_arm prompt ids n_cont st = do
    st ← replay prompt st
    st ← forward_all ids st
    continue_and_capture n_cont st

  -- `all_bit`: the rows of the two arms, one by one.
  unfoldable pub all_bitwise : List (List engine.Float) → List (List engine.Float) → Bool
  unfolding compare_rows
  all_bitwise (a ∷ as_) (b ∷ bs) =
      let rest = all_bitwise as_ bs in if (compare_rows engine a b).bitwise then rest else false
  all_bitwise _ _ = true

  -- The state of the engine, and `failures`.
  abbrev pub Progress : Type 0
  Progress = engine.State × ℕ

  unfoldable pub test_c : Bool → List Token → ℕ → Progress → Option Progress
  unfolding pass_arm prompt_ids memcmp_rows count
  test_c r0 prompt k p = do
    (st, off) ← pass_arm false prompt (prompt_ids prompt k) p.0
    (st, on) ← pass_arm true prompt (prompt_ids prompt k) st
    some (st, count r0 (memcmp_rows engine off on) p.1)

  unfoldable pub test_a : Bool → List Token → ℕ → ℕ → ℕ → Progress → Option Progress
  unfolding rollback_arm prompt_ids swapped_ids all_bitwise count
  test_a r0 prompt n_cont k j p = do
    (st, ca) ← rollback_arm prompt (prompt_ids prompt k) j n_cont p.0
    (st, cb) ← rollback_arm prompt (swapped_ids prompt k j) j n_cont st
    some (st, count r0 (all_bitwise ca cb) p.1)

  unfoldable pub test_d : List Token → ℕ → ℕ → ℕ → Progress → Option Progress
  unfolding rollback_arm sequential_arm prompt_ids ids_from
  test_d prompt n_cont k j p = do
    (st, spec) ← rollback_arm prompt (prompt_ids prompt k) j n_cont p.0
    (st, seq) ← sequential_arm prompt (ids_from (cyc prompt) (j + 1) 0) n_cont st
    some (st, p.1)

  -- The loops over K in [2, Kmax], and over j in [0, K) inside.
  unfoldable pub tests_a : Bool → List Token → ℕ → ℕ → Progress → Option Progress
  unfolding test_a try_rounds
  tests_a r0 prompt n_cont k = try_rounds k 0 (test_a r0 prompt n_cont k)

  unfoldable pub tests_d : List Token → ℕ → ℕ → Progress → Option Progress
  unfolding test_d try_rounds
  tests_d prompt n_cont k = try_rounds k 0 (test_d prompt n_cont k)

  unfoldable pub run_tests : Bool → List Token → ℕ → ℕ → engine.State → Option Progress
  unfolding test_c tests_a tests_d try_rounds
  run_tests r0 prompt k_max n_cont st = do
    p ← try_rounds (k_max - 1) 2 (test_c r0 prompt) (st, 0)
    p ← try_rounds (k_max - 1) 2 (tests_a r0 prompt n_cont) (engine.set_rollback p.0 true, p.1)
    p ← try_rounds (k_max - 1) 2 (tests_d prompt n_cont) p
    some (engine.set_rollback p.0 false, p.1)

  -- What the function returns; `none` is undefined behaviour, at the first id of the first pass.
  unfoldable pub run_spec_rollback_check : Bool → List Token → ℕ → ℕ → engine.State → Option ℕ
  unfolding run_tests
  run_spec_rollback_check r0 prompt k_max n_cont st =
      if divides_by_zero prompt k_max then none else (elim (run_tests r0 prompt k_max n_cont st) [
        | none ↦ some 1
        | some p ↦ some (if p.1 == 0 then 0 else 1)
      ])
