-- ===== src/Microbench/Verdict.antt =====
-- What a 0 from the correctness check shows.
use kimi_k3_neuron_tp3_dgxsp.Prelude.{
  ℕ, suc, ◌+◌, ◌*◌, ◌^◌, ◌<◌, ltb, ltb→lt, ◌≡◌, ◌∙◌, true, List, [], ◌∷◌, All, arith, inl, inr,
  Bool-cases,
}
use kimi_k3_neuron_tp3_dgxsp.Microbench.Exchange.{runs}
use kimi_k3_neuron_tp3_dgxsp.Microbench.Agreement.{bind-runs}
use kimi_k3_neuron_tp3_dgxsp.Microbench.Check.{
  Calls, cuda_check, nccl_check, bench_allreduce, Device, all_same, buffers, half_product, expect,
  check_count, check_counts,
}

-- The all-reduce of the buffers rank + 1 gave the expected sum in every place.
abbrev pub Correct : Device → ℕ → ℕ → Type 0
Correct device world count =
    All (λ x. device.same x (device.of_nat (half_product world)) ≡ true)
      (device.all_reduce count (buffers device count world 0))

all_same-All :
    (device : Device) (x : device.Float) (h : List device.Float)
    → all_same device x h ≡ true
    → All (λ y. device.same y x ≡ true) h
unfolding all_same
all_same-All device x [] e = tt
all_same-All device x (y ∷ h) e = elim (Bool-cases (device.same y x)) [
  | inl same ↦ (same, all_same-All device x h (rw (same, all_same) at e))
  | inr differ ↦ absurd (cc (rw (differ, all_same) at e))
]

check_count-Correct :
    (device : Device) (calls : Calls) (world iters count fails after : ℕ)
    → check_count device calls (device.of_nat (half_product world)) world iters count fails
      ≡ runs after
    → after ≡ 0
    → (fails ≡ 0) × Correct device world count
unfolding check_count
check_count-Correct device calls world iters count fails after e z =
    let (_, _, e₁) = bind-runs (cuda_check calls.malloc) _ e in
    let (_, _, e₂) = bind-runs (cuda_check calls.h2d) _ e₁ in
    let (_, _, e₃) = bind-runs (nccl_check calls.correctness_ar) _ e₂ in
    let (_, _, e₄) = bind-runs (cuda_check calls.sync_corr) _ e₃ in
    let (_, _, e₅) = bind-runs (cuda_check calls.d2h) _ e₄ in
    let (_, _, e₆) = bind-runs (bench_allreduce calls iters) _ e₅ in
    let sums = device.all_reduce count (buffers device count world 0) in
    elim (Bool-cases (all_same device (device.of_nat (half_product world)) sums)) [
      | inl same ↦
          let kept : fails ≡ after = cc (rw same at e₆) in
          (kept ∙ z, all_same-All device (device.of_nat (half_product world)) sums same)
      | inr differ ↦
          let counted : suc fails ≡ after = cc (rw differ at e₆) in
          absurd (omega (arith, counted, z))
    ]

expect-runs :
    (device : Device) (world : ℕ) {expected : device.Float}
    → expect device world ≡ runs expected
    → (world * (world + 1) < 2 ^ 31) × (expected ≡ device.of_nat (half_product world))
unfolding expect
expect-runs device world e = elim (Bool-cases (ltb (world * (world + 1)) (2 ^ 31))) [
  | inl small ↦ (ltb→lt _ _ small, cc (rw (small, expect) at e))
  | inr large ↦ absurd (cc (rw (large, expect) at e))
]

-- Where the check returns 0, the product world * (world + 1) did not overflow an int, and each element
-- of both reduced buffers compared equal to its half.
pub check_counts-Correct :
    (device : Device) (calls : ℕ → Calls) (world iters : ℕ)
    → check_counts device calls world iters ≡ runs 0
    → (world * (world + 1) < 2 ^ 31) × Correct device world 7168 × Correct device world 10752
unfolding check_counts
check_counts-Correct device calls world iters e =
    let (expected, computed, e₀) = bind-runs (expect device world) _ e in
    let (bounded, half) = expect-runs device world computed in
    let (fails, first, e₁) =
      bind-runs (check_count device (calls 0) expected world iters 7168 0) _ e₀ in
    let (fails', second, e₂) =
      bind-runs (check_count device (calls 1) expected world iters 10752 fails) _ e₁ in
    let none_failed : fails' ≡ 0 = ground (arith, e₂) in
    let (z, large) =
      check_count-Correct device (calls 1) world iters 10752 fails fails' (rw half at second)
        none_failed in
    let (_, small) =
      check_count-Correct device (calls 0) world iters 7168 0 fails (rw half at first) z in
    (bounded, small, large)
