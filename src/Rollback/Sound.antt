-- ===== src/Rollback/Sound.antt =====
-- What a pass of the rollback gate shows.
use kimi_k3_neuron_tp3_dgxsp.Prelude.{
  ℕ, ◌+◌, ◌-◌, ◌≤◌, ◌<◌, ◌≡◌, refl, ap, ◌∙◌, Bool, true, false, Option, none, some, List, arith,
  inl, inr, Option-cases, Bool-cases,
}
use mathlib.Core.Option.{some-injective}
use kimi_k3_neuron_tp3_dgxsp.Prelude.Loop.{◌>>=◌, try_rounds, try_rounds_all}
use kimi_k3_neuron_tp3_dgxsp.Draft.Config.{Token}
use kimi_k3_neuron_tp3_dgxsp.Rollback.Engine.{Engine, memcmp_rows}
use kimi_k3_neuron_tp3_dgxsp.Rollback.Gate.{
  cyc, ids_from, sequential_arm, prompt_ids, swapped_ids, pass_arm, rollback_arm, all_bitwise,
  count, test_c, test_a, test_d, tests_a, tests_d, run_tests, run_spec_rollback_check,
  divides_by_zero,
}

-- Inversion of a chain that goes on.
bind-some {ℓ κ} :
    {A : Type ℓ} {B : Type κ} (m : Option A) (f : A → Option B) {b : B}
    → (m >>= f) ≡ some b
    → (a : A) × (m ≡ some a) × (f a ≡ some b)
bind-some none f e = cc
bind-some (some a) f e = (a, refl, e)

count-zero : (same : Bool) (n : ℕ) → count true same n ≡ 0 → (n ≡ 0) × (same ≡ true)
unfolding count
count-zero true n e = (e, refl)
count-zero false n e = absurd (omega arith)

module _ (engine : Engine) (prompt : List Token) where
  -- The two arms of test C ran one after the other, and gave the same bits in every row.
  pub record RingInert (k : ℕ) : Type 0 where
    pub before : engine.State
    pub between : engine.State
    pub after : engine.State
    pub off : List (List engine.Float)
    pub on : List (List engine.Float)
    pub ring_off : pass_arm engine false prompt (prompt_ids prompt k) before ≡ some (between, off)
    pub ring_on : pass_arm engine true prompt (prompt_ids prompt k) between ≡ some (after, on)
    pub equal : memcmp_rows engine off on ≡ true

  -- The two arms of test A ran one after the other, and continued with the same bits.
  pub record SuffixIndependent (n_cont k j : ℕ) : Type 0 where
    pub before : engine.State
    pub between : engine.State
    pub after : engine.State
    pub ca : List (List engine.Float)
    pub cb : List (List engine.Float)
    pub arm_a :
        rollback_arm engine prompt (prompt_ids prompt k) j n_cont before ≡ some (between, ca)
    pub arm_b :
        rollback_arm engine prompt (swapped_ids prompt k j) j n_cont between ≡ some (after, cb)
    pub equal : all_bitwise engine ca cb ≡ true

  abbrev NoFailure : engine.State × ℕ → Type 0
  NoFailure p = p.1 ≡ 0

  test_c-back :
      (k : ℕ) (p q : engine.State × ℕ)
      → test_c engine true prompt k p ≡ some q
      → NoFailure q
      → NoFailure p × RingInert k
  unfolding test_c
  test_c-back k p q e z =
      let (a, off, e₁) = bind-some (pass_arm engine false prompt (prompt_ids prompt k) p.0) _ e in
      let (b, on, e₂) = bind-some (pass_arm engine true prompt (prompt_ids prompt k) a.0) _ e₁ in
      let counted = ap (λ (p : engine.State × ℕ). p.1) (some-injective _ _ e₂) ∙ z in
      let (z₀, same) = count-zero (memcmp_rows engine a.1 b.1) p.1 counted in
      (
        z₀,
        record {
          before = p.0;
          between = a.0;
          after = b.0;
          off = a.1;
          on = b.1;
          ring_off = off;
          ring_on = on;
          equal = same;
        },
      )

  test_a-back :
      (n_cont k j : ℕ) (p q : engine.State × ℕ)
      → test_a engine true prompt n_cont k j p ≡ some q
      → NoFailure q
      → NoFailure p × SuffixIndependent n_cont k j
  unfolding test_a
  test_a-back n_cont k j p q e z =
      let (a, arm_a, e₁) =
        bind-some (rollback_arm engine prompt (prompt_ids prompt k) j n_cont p.0) _ e in
      let (b, arm_b, e₂) =
        bind-some (rollback_arm engine prompt (swapped_ids prompt k j) j n_cont a.0) _ e₁ in
      let counted = ap (λ (p : engine.State × ℕ). p.1) (some-injective _ _ e₂) ∙ z in
      let (z₀, same) = count-zero (all_bitwise engine a.1 b.1) p.1 counted in
      (
        z₀,
        record {
          before = p.0;
          between = a.0;
          after = b.0;
          ca = a.1;
          cb = b.1;
          arm_a = arm_a;
          arm_b = arm_b;
          equal = same;
        },
      )

  tests_a-back :
      (n_cont k : ℕ) (p q : engine.State × ℕ)
      → tests_a engine true prompt n_cont k p ≡ some q
      → NoFailure q
      → NoFailure p × ((j : ℕ) → j < k → SuffixIndependent n_cont k j)
  unfolding tests_a
  tests_a-back n_cont k p q e z =
      let (z₀, all) =
        try_rounds_all NoFailure (SuffixIndependent n_cont k) (test_a engine true prompt n_cont k)
          (test_a-back n_cont k) k 0 p q e z in
      (z₀, λ j h. all j (omega arith) (omega arith))

  test_d-back :
      (n_cont k j : ℕ) (p q : engine.State × ℕ)
      → test_d engine prompt n_cont k j p ≡ some q
      → NoFailure q
      → NoFailure p × Unit {0}
  unfolding test_d
  test_d-back n_cont k j p q e z =
      let (a, _, e₁) =
        bind-some (rollback_arm engine prompt (prompt_ids prompt k) j n_cont p.0) _ e in
      let (b, _, e₂) =
        bind-some (sequential_arm engine prompt (ids_from (cyc prompt) (j + 1) 0) n_cont a.0) _
          e₁ in
      (ap (λ (p : engine.State × ℕ). p.1) (some-injective _ _ e₂) ∙ z, tt)

  tests_d-back :
      (n_cont k : ℕ) (p q : engine.State × ℕ)
      → tests_d engine prompt n_cont k p ≡ some q
      → NoFailure q
      → NoFailure p × Unit {0}
  unfolding tests_d
  tests_d-back n_cont k p q e z =
      let (z₀, _) =
        try_rounds_all NoFailure (λ _. Unit {0}) (test_d engine prompt n_cont k)
          (test_d-back n_cont k) k 0 p q e z in
      (z₀, tt)

  -- Where rank 0's run of the gate returns 0: for every K in [2, Kmax], snapshots on or off gave the
  -- same bits in every row of a pass over K tokens, and for every j < K, rolling back to j after a
  -- pass over the prompt's tokens and after one that differs beyond j gave continuations with the
  -- same bits.
  pub gate_sound :
      (k_max n_cont : ℕ) (st : engine.State)
      → run_spec_rollback_check engine true prompt k_max n_cont st ≡ some 0
      → (k : ℕ) → 2 ≤ k
      → k ≤ k_max
      → RingInert k × ((j : ℕ) → j < k → SuffixIndependent n_cont k j)
  unfolding run_spec_rollback_check run_tests
  gate_sound k_max n_cont st e k lo hi = elim (Bool-cases (divides_by_zero prompt k_max)) [
    | inl undefined ↦ absurd (cc (rw (undefined, run_spec_rollback_check) at e))
    | inr defined ↦ elim (Option-cases (run_tests engine true prompt k_max n_cont st)) [
      | inl stop ↦ absurd (
          let bad : 1 ≡ 0 = some-injective _ _ (rw (defined, stop, run_spec_rollback_check) at e) in
          omega arith)
      | inr (q, goes) ↦
          let zero_failures : q.1 ≡ 0 =
            ground (arith, some-injective _ _ (rw (defined, goes, run_spec_rollback_check) at e)) in
          let (p₁, c, e₁) =
            bind-some (try_rounds (k_max - 1) 2 (test_c engine true prompt) (st, 0)) _ goes in
          let (p₂, a, e₂) =
            bind-some
              (try_rounds (k_max - 1) 2 (tests_a engine true prompt n_cont)
                (engine.set_rollback p₁.0 true, p₁.1))
              _ e₁ in
          let (p₃, d, e₃) =
            bind-some (try_rounds (k_max - 1) 2 (tests_d engine prompt n_cont) p₂) _ e₂ in
          let z₃ = ap (λ (p : engine.State × ℕ). p.1) (some-injective _ _ e₃) ∙ zero_failures in
          let (z₂, _) =
            try_rounds_all NoFailure (λ _. Unit {0}) _ (tests_d-back n_cont) (k_max - 1) 2 p₂ p₃ d
              z₃ in
          let (z₁, suffix) =
            try_rounds_all NoFailure (λ (k : ℕ). (j : ℕ) → j < k → SuffixIndependent n_cont k j) _
              (tests_a-back n_cont) (k_max - 1) 2 (engine.set_rollback p₁.0 true, p₁.1) p₂ a z₂ in
          let (z₀, inert) =
            try_rounds_all NoFailure RingInert _ test_c-back (k_max - 1) 2 (st, 0) p₁ c z₁ in
          (inert k lo (omega arith), suffix k lo (omega arith))
    ]
  ]
