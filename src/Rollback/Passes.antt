-- ===== src/Rollback/Passes.antt =====
-- The engines that keep snapshots pass the gate.
use kimi_k3_neuron_tp3_dgxsp.Prelude.{
  ℕ, ◌+◌, ◌-◌, ◌≤◌, ◌<◌, ◌≡◌, refl, ◌∙◌, Bool, true, false, some, List, length, arith,
}
use kimi_k3_neuron_tp3_dgxsp.Prelude.Loop.{try_rounds_inv}
use kimi_k3_neuron_tp3_dgxsp.Draft.Config.{Token}
use kimi_k3_neuron_tp3_dgxsp.Rollback.Engine.{Engine}
use kimi_k3_neuron_tp3_dgxsp.Rollback.Gate.{
  cyc, ids_from, prompt_ids, swapped_ids, test_c, test_a, test_d, tests_a, tests_d, run_tests,
  run_spec_rollback_check, divides_by_zero,
}
use kimi_k3_neuron_tp3_dgxsp.Rollback.Snapshots.{
  Snapshots, rows, IsSnapshots, continued, prompt_core, pass_arm-rows, rollback_arm-rows,
  sequential_arm-runs,
}
use kimi_k3_neuron_tp3_dgxsp.Rollback.Shared.{
  length-prompt_ids, length-swapped_ids, shared_core, memcmp_rows_refl, all_bitwise_refl,
  count-same,
}

module _ {engine : Engine} (s : Snapshots engine) (laws : IsSnapshots s) (r0 : Bool)
    (prompt : List Token) where
  -- No failure so far.
  abbrev Clean : engine.State × ℕ → Type 0
  Clean p = p.1 ≡ 0

  -- No failure so far, and the snapshots are on.
  abbrev CleanOn : engine.State × ℕ → Type 0
  CleanOn p = (p.1 ≡ 0) × (s.enabled p.0 ≡ true)

  test_c-Clean :
      (k : ℕ) (p : engine.State × ℕ)
      → 1 ≤ k
      → k ≤ s.max_width
      → Clean p
      → (q : engine.State × ℕ) × (test_c engine r0 prompt k p ≡ some q) × Clean q
  unfolding test_c
  test_c-Clean k p lo hi clean =
      let ids = prompt_ids prompt k in
      let len = length-prompt_ids prompt k in
      let (st₁, off) = pass_arm-rows s laws false prompt ids p.0 (omega arith) (omega arith) in
      let (st₂, on) = pass_arm-rows s laws true prompt ids st₁ (omega arith) (omega arith) in
      let same =
        memcmp_rows_refl engine laws.same_bits-refl
          (rows (s.row (length ids)) (prompt_core s laws prompt) ids) in
      ((st₂, p.1), rw off (rw on (rw same (rw (count-same r0 p.1) refl))), clean)

  test_a-Clean :
      (n_cont k j : ℕ) (p : engine.State × ℕ)
      → j < k
      → k ≤ s.max_width
      → CleanOn p
      → (q : engine.State × ℕ) × (test_a engine r0 prompt n_cont k j p ≡ some q) × CleanOn q
  unfolding test_a
  test_a-Clean n_cont k j p lt hi (clean, on) =
      let len = length-prompt_ids prompt k in
      let len' = length-swapped_ids prompt k j lt in
      let (c, here, there) = shared_core s.row (prompt_core s laws prompt) prompt k j lt in
      let (st₁, arm_a, on₁) =
        rollback_arm-rows s laws prompt (prompt_ids prompt k) j n_cont c p.0 (omega arith)
          (omega arith) on here in
      let (st₂, arm_b, on₂) =
        rollback_arm-rows s laws prompt (swapped_ids prompt k j) j n_cont c st₁ (omega arith)
          (omega arith) on₁ there in
      let same = all_bitwise_refl engine laws.same_bits-refl (continued s.step c n_cont 0) in
      ((st₂, p.1), rw arm_a (rw arm_b (rw same (rw (count-same r0 p.1) refl))), (clean, on₂))

  test_d-Clean :
      (n_cont k j : ℕ) (p : engine.State × ℕ)
      → j < k
      → k ≤ s.max_width
      → CleanOn p
      → (q : engine.State × ℕ) × (test_d engine prompt n_cont k j p ≡ some q) × CleanOn q
  unfolding test_d
  test_d-Clean n_cont k j p lt hi (clean, on) =
      let len = length-prompt_ids prompt k in
      let (c, here, _) = shared_core s.row (prompt_core s laws prompt) prompt k j lt in
      let (st₁, spec, on₁) =
        rollback_arm-rows s laws prompt (prompt_ids prompt k) j n_cont c p.0 (omega arith)
          (omega arith) on here in
      let (st₂, r, seq, on₂) =
        sequential_arm-runs s laws prompt (ids_from (cyc prompt) (j + 1) 0) n_cont st₁ in
      ((st₂, p.1), rw spec (rw seq refl), (clean, on₂ ∙ on₁))

  tests_a-Clean :
      (n_cont k : ℕ) (p : engine.State × ℕ)
      → k ≤ s.max_width
      → CleanOn p
      → (q : engine.State × ℕ) × (tests_a engine r0 prompt n_cont k p ≡ some q) × CleanOn q
  unfolding tests_a
  tests_a-Clean n_cont k p hi clean =
      try_rounds_inv CleanOn (test_a engine r0 prompt n_cont k) 0 k
        (λ j q lo lt h. test_a-Clean n_cont k j q lt hi h) k 0 p (omega arith) (omega arith) clean

  tests_d-Clean :
      (n_cont k : ℕ) (p : engine.State × ℕ)
      → k ≤ s.max_width
      → CleanOn p
      → (q : engine.State × ℕ) × (tests_d engine prompt n_cont k p ≡ some q) × CleanOn q
  unfolding tests_d
  tests_d-Clean n_cont k p hi clean =
      try_rounds_inv CleanOn (test_d engine prompt n_cont k) 0 k
        (λ j q lo lt h. test_d-Clean n_cont k j q lt hi h) k 0 p (omega arith) (omega arith) clean

  -- On an engine that keeps to the laws, the gate returns, and returns 0: on every rank, for every
  -- prompt that is not empty, number of continuation steps and state to start from, and every Kmax
  -- that the engine's passes can be wide.
  pub gate_passes :
      (k_max n_cont : ℕ) (st : engine.State)
      → 0 < length prompt
      → k_max ≤ s.max_width
      → run_spec_rollback_check engine r0 prompt k_max n_cont st ≡ some 0
  unfolding run_spec_rollback_check run_tests
  gate_passes k_max n_cont st nonempty h =
      let defined : divides_by_zero prompt k_max ≡ false = ground (arith, nonempty) in
      let stop = 2 + (k_max - 1) in
      let (p₁, c, clean₁) =
        try_rounds_inv Clean (test_c engine r0 prompt) 2 stop
          (λ k q lo lt z. test_c-Clean k q (omega arith) (omega arith) z) (k_max - 1) 2 (st, 0)
          (omega arith) (omega arith) refl in
      let (p₂, a, clean₂) =
        try_rounds_inv CleanOn (tests_a engine r0 prompt n_cont) 2 stop
          (λ k q lo lt z. tests_a-Clean n_cont k q (omega arith) z) (k_max - 1) 2
          (engine.set_rollback p₁.0 true, p₁.1) (omega arith) (omega arith)
          (clean₁, laws.switch_enabled p₁.0 true) in
      let (p₃, d, clean₃) =
        try_rounds_inv CleanOn (tests_d engine prompt n_cont) 2 stop
          (λ k q lo lt z. tests_d-Clean n_cont k q (omega arith) z) (k_max - 1) 2 p₂ (omega arith)
          (omega arith) clean₂ in
      rw (defined, c, a, d, clean₃.0, run_spec_rollback_check, run_tests) refl
