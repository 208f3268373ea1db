-- ===== src/Microbench/Sums.antt =====
-- The check passes on an all-reduce that adds.
use kimi_k3_neuron_tp3_dgxsp.Prelude.{
  ℕ, zero, suc, ◌+◌, ◌*◌, ◌/◌, ◌≤◌, ◌^◌, ◌≡◌, ltb, refl, ap, ◌∙◌, Bool, true, List, [], ◌∷◌,
  replicate, arith,
}
use kimi_k3_neuron_tp3_dgxsp.Microbench.Exchange.{runs}
use kimi_k3_neuron_tp3_dgxsp.Microbench.Check.{
  Calls, reductions, bench_allreduce, Device, all_same, filled, buffers, half_product, expect,
  check_count, check_counts,
}

abbrev pub sum : List ℕ → ℕ
sum [] = 0
sum (n ∷ ns) = n + sum ns

-- One buffer for each number, filled with it.
abbrev pub constant : (device : Device) → ℕ → List ℕ → List (List device.Float)
constant device count [] = []
constant device count (n ∷ ns) = replicate count (device.of_nat n) ∷ constant device count ns

-- What the check relies on: a float is equal to itself, and the all-reduce of buffers that are each
-- filled with a whole number is filled with the numbers' sum, where a float32 is exact up to it.
pub record Adds (device : Device) : Type 0 where
  pub same-refl : (n : ℕ) → n ≤ 2 ^ 24 → device.same (device.of_nat n) (device.of_nat n) ≡ true
  pub exact :
      (count : ℕ) (ns : List ℕ)
      → sum ns ≤ 2 ^ 24
      → device.all_reduce count (constant device count ns)
        ≡ replicate count (device.of_nat (sum ns))

-- Every call of a buffer succeeds.
pub record Succeeds (calls : Calls) : Type 0 where
  pub malloc : calls.malloc ≡ true
  pub h2d : calls.h2d ≡ true
  pub correctness_ar : calls.correctness_ar ≡ true
  pub sync_corr : calls.sync_corr ≡ true
  pub d2h : calls.d2h ≡ true
  pub warmup : (i : ℕ) → calls.warmup i ≡ true
  pub sync_warmup : calls.sync_warmup ≡ true
  pub bench : (i : ℕ) → calls.bench i ≡ true
  pub sync_bench : calls.sync_bench ≡ true

-- The numbers rank + 1, from a rank on.
abbrev marks : ℕ → ℕ → List ℕ
marks zero rank = []
marks (suc ranks) rank = (rank + 1) ∷ marks ranks (suc rank)

buffers-eq-constant :
    (device : Device) (count ranks rank : ℕ)
    → buffers device count ranks rank ≡ constant device count (marks ranks rank)
unfolding buffers filled
buffers-eq-constant device count zero rank = refl
buffers-eq-constant device count (suc ranks) rank =
    rw (buffers-eq-constant device count ranks (suc rank)) refl

sum-marks : (ranks rank : ℕ) → sum (marks ranks rank) * 2 ≡ ranks * (2 * rank + ranks + 1)
sum-marks zero rank = omega arith
sum-marks (suc ranks) rank = omega (arith, sum-marks ranks (suc rank))

-- The sum that the source expects.
sum-marks-half : (world : ℕ) → sum (marks world 0) ≡ world * (world + 1) / 2
sum-marks-half world = omega (arith, sum-marks world 0)

all_same-replicate :
    (device : Device) (x : device.Float) (n : ℕ)
    → device.same x x ≡ true
    → all_same device x (replicate n x) ≡ true
unfolding all_same
all_same-replicate device x zero e = refl
all_same-replicate device x (suc n) e = rw (e) (all_same-replicate device x n e)

reductions-succeed :
    (call : ℕ → Bool) (rounds i : ℕ)
    → ((i : ℕ) → call i ≡ true)
    → reductions call rounds i ≡ runs tt
unfolding reductions
reductions-succeed call zero i all = refl
reductions-succeed call (suc rounds) i all = rw (all i) (reductions-succeed call rounds (suc i) all)

check_count-passes :
    (device : Device) (calls : Calls) (world iters count fails : ℕ)
    → Adds device
    → Succeeds calls
    → world * (world + 1) ≤ 2 ^ 25
    → check_count device calls (device.of_nat (half_product world)) world iters count fails
      ≡ runs fails
unfolding check_count bench_allreduce
check_count-passes device calls world iters count fails adds good h =
    let total = sum-marks-half world in
    let small : sum (marks world 0) ≤ 2 ^ 24 = omega (arith, total) in
    let reduced =
      ap (device.all_reduce count) (buffers-eq-constant device count world 0)
      ∙ adds.exact count (marks world 0) small in
    let same =
      all_same-replicate device (device.of_nat (sum (marks world 0))) count
        (adds.same-refl _ small) in
    rw
      (
        good.malloc,
        good.h2d,
        good.correctness_ar,
        good.sync_corr,
        good.d2h,
        reductions-succeed calls.warmup 10 0 good.warmup,
        good.sync_warmup,
        reductions-succeed calls.bench iters 0 good.bench,
        good.sync_bench,
        ← total,
        reduced,
        same,
        check_count,
        bench_allreduce,
      )
      refl

-- Where every call succeeds, NCCL adds, and the expected sum is one that a float32 holds exactly,
-- both buffers check out and main returns 0, for every world size.
pub check_counts-pass :
    (device : Device) (calls : ℕ → Calls) (world iters : ℕ)
    → Adds device
    → ((i : ℕ) → Succeeds (calls i))
    → world * (world + 1) ≤ 2 ^ 25
    → check_counts device calls world iters ≡ runs 0
unfolding check_counts expect
check_counts-pass device calls world iters adds good h =
    let small : ltb (world * (world + 1)) (2 ^ 31) ≡ true = ground (arith, h) in
    rw
      (
        expect,
        small,
        check_count-passes device (calls 0) world iters 7168 0 adds (good 0) h,
        check_count-passes device (calls 1) world iters 10752 0 adds (good 1) h,
      )
      refl
