-- ===== src/Microbench/Check.antt =====
-- The correctness check of main: on every rank a buffer filled with rank + 1 is reduced over all
-- ranks and compared with world * (world + 1) / 2. The calls of CUDA and NCCL are parameters, as is
-- `float`; times and printing are left out.
use kimi_k3_neuron_tp3_dgxsp.Prelude.{
  ℕ, zero, suc, ◌+◌, ◌*◌, ◌/◌, ◌^◌, ltb, Bool, true, false, not, List, [], ◌∷◌, replicate, ◌==◌,
  if◌then◌else◌,
}
use kimi_k3_neuron_tp3_dgxsp.Microbench.Exchange.{
  Run, runs, undefined, nccl_failed, cuda_failed, ◌>>=◌, ◌>>◌, die_if,
}

-- What the fallible calls of one buffer report; `true` is success.
pub record Calls : Type 0 where
  pub malloc : Bool
  pub h2d : Bool
  pub correctness_ar : Bool
  pub sync_corr : Bool
  pub d2h : Bool
  pub warmup : ℕ → Bool
  pub sync_warmup : Bool
  pub bench : ℕ → Bool
  pub sync_bench : Bool

abbrev pub cuda_check : Bool → Run (Unit {0})
cuda_check b = die_if (not b) cuda_failed

abbrev pub nccl_check : Bool → Run (Unit {0})
nccl_check b = die_if (not b) nccl_failed

-- A loop of all-reduces, with the rounds left.
unfoldable pub reductions : (ℕ → Bool) → ℕ → ℕ → Run (Unit {0})
reductions call zero i = runs tt
reductions call (suc rounds) i = nccl_check (call i) >> reductions call rounds (suc i)

unfoldable pub bench_allreduce : Calls → ℕ → Run (Unit {0})
unfolding reductions
bench_allreduce calls iters = do
  reductions calls.warmup 10 0
  cuda_check calls.sync_warmup
  reductions calls.bench iters 0
  cuda_check calls.sync_bench

-- The numbers of the device, and NCCL's sum of the buffers of all ranks, as one rank receives it.
pub record Device : Type 1 where
  pub Float : Type 0
  pub of_nat : ℕ → Float
  pub same : Float → Float → Bool
  pub all_reduce : ℕ → List (List Float) → List Float

-- `h[i] != expect` at an element ends the loop.
unfoldable pub all_same : (device : Device) → device.Float → List device.Float → Bool
all_same device expect [] = true
all_same device expect (x ∷ h) =
    let rest = all_same device expect h in if device.same x expect then rest else false

unfoldable pub filled : (device : Device) → ℕ → ℕ → List device.Float
filled device count rank = replicate count (device.of_nat (rank + 1))

-- The buffers of the ranks from `rank` on, with the ranks left.
unfoldable pub buffers : (device : Device) → ℕ → ℕ → ℕ → List (List device.Float)
unfolding filled
buffers device count zero rank = []
buffers device count (suc ranks) rank =
    filled device count rank ∷ buffers device count ranks (suc rank)

-- The number that `expect` is, and the local `expect`: `world * (world + 1)` is a product of ints, which
-- must not overflow.
abbrev pub half_product : ℕ → ℕ
half_product world = world * (world + 1) / 2

unfoldable pub expect : (device : Device) → ℕ → Run device.Float
expect device world =
    if ltb (world * (world + 1)) (2 ^ 31)
    then runs (device.of_nat (half_product world))
    else undefined

-- One round of `for (size_t count : counts)`: the number of fails after it.
unfoldable pub check_count : (device : Device) → Calls → device.Float → ℕ → ℕ → ℕ → ℕ → Run ℕ
unfolding bench_allreduce all_same buffers
check_count device calls expected world iters count fails = do
  cuda_check calls.malloc
  cuda_check calls.h2d
  nccl_check calls.correctness_ar
  cuda_check calls.sync_corr
  cuda_check calls.d2h
  bench_allreduce calls iters
  runs (
      if all_same device expected (device.all_reduce count (buffers device count world 0))
      then fails
      else suc fails)

-- Both counts, and the status that main returns.
unfoldable pub check_counts : (device : Device) → (ℕ → Calls) → ℕ → ℕ → Run ℕ
unfolding expect check_count
check_counts device calls world iters = do
  expected ← expect device world
  fails ← check_count device (calls 0) expected world iters 7168 0
  fails' ← check_count device (calls 1) expected world iters 10752 fails
  runs (if fails' == 0 then 0 else 1)
