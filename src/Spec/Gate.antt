-- ===== src/Spec/Gate.antt =====
-- Gate D, test_loop_equivalence of new-tests/kimi_k3_spec_draft_check.cpp: its oracle, its prompts,
-- its checks and its sweep over alphabets, widths, tail lengths and seeds.
use Prim.Native.Nat.{bit_xor}
use kimi_k3_neuron_tp3_dgxsp.Prelude.{
  ℕ, zero, suc, ◌+◌, ◌-◌, ◌*◌, ◌/◌, ◌%◌, ◌^◌, Option, none, some, List, [], ◌∷◌, length, drop, leb,
  ltb, ◌==◌, if◌then◌else◌,
}
use kimi_k3_neuron_tp3_dgxsp.Prelude.Int.{pos, negsuc}
use kimi_k3_neuron_tp3_dgxsp.Prelude.Loop.{for_rounds, for_each}
use kimi_k3_neuron_tp3_dgxsp.Draft.Config.{Token, K3NgramDraftConfig, default_config}
use kimi_k3_neuron_tp3_dgxsp.Draft.Window.{memcmp_eq}
use kimi_k3_neuron_tp3_dgxsp.Draft.Drafter.{draft_of}
use kimi_k3_neuron_tp3_dgxsp.Spec.Loop.{Oracle, Drafter, greedy, SpecState, spec_run}

-- `(unsigned)x`.
unfoldable pub to_unsigned : Token → ℕ
to_unsigned (pos n) = n % 2 ^ 32
to_unsigned (negsuc n) = 2 ^ 32 - 1 - n % 2 ^ 32

-- `h ^= x; h *= 16777619u;` over a list.
unfoldable pub hash_from : ℕ → List Token → ℕ
unfolding to_unsigned
hash_from h [] = h
hash_from h (x ∷ xs) = hash_from (bit_xor h (to_unsigned x) * 16777619 % 2 ^ 32) xs

-- The oracle of the gate: a hash of the last three consumed tokens, modulo the alphabet, which has at
-- least one symbol.
unfoldable pub hash_oracle : ℕ → Oracle
unfolding hash_from
hash_oracle alpha consumed =
    pos (hash_from 2166136261 (drop (length consumed - 3) consumed) % alpha)

-- `s = s * 1664525u + 1013904223u`.
abbrev pub lcg : ℕ → ℕ
lcg s = (s * 1664525 + 1013904223) % 2 ^ 32

unfoldable pub prompt_from : ℕ → ℕ → List Token
prompt_from zero s = []
prompt_from (suc n) s = pos (lcg s / 2 ^ 16 % 17) ∷ prompt_from n (lcg s)

unfoldable pub gate_prompt : ℕ → List Token
unfolding prompt_from
gate_prompt seed = prompt_from (3 + seed) (1000 + seed * 77)

-- The drafter with a configuration, on a fresh vector. Undefined behaviour would show as no draft.
unfoldable pub ngram_drafter : K3NgramDraftConfig → Drafter
unfolding draft_of
ngram_drafter cfg ctx max_draft = elim (draft_of ctx max_draft cfg) [ none ↦ [] | some ts ↦ ts ]

-- How many of a case's four checks fail: emitted count, sequence, ctx against consumed, steps.
unfoldable pub failed_checks : ℕ → List Token → Option SpecState → ℕ
unfolding memcmp_eq
failed_checks n_predict ref none = 4
failed_checks n_predict ref (some st) =
    (if length st.got == length ref then 0 else 1)
    + (if memcmp_eq st.got ref then 0 else 1)
    + (if length st.ctx == length st.spec_consumed + 1 then 0 else 1)
    + (if leb st.steps n_predict then 0 else 1)

pub record Totals : Type 0 where
  pub failed : ℕ
  pub full : ℕ
  pub partial : ℕ
  pub nothing_kept : ℕ
  pub accepted : ℕ

unfoldable pub arms : Option SpecState → Totals → Totals
arms none t = t
arms (some st) t = record t {
  full = t.full + st.saw_full;
  partial = t.partial + st.saw_partial;
  nothing_kept = t.nothing_kept + st.saw_none;
  accepted = t.accepted + st.sum_j;
}

unfoldable pub gate_case : ℕ → ℕ → ℕ → ℕ → ℕ → Totals → Totals
unfolding spec_run greedy hash_oracle ngram_drafter gate_prompt failed_checks arms
gate_case n_predict alpha k nmin seed t =
    let oracle = hash_oracle alpha in
    let cfg = record default_config { n_max = 3; n_min = nmin } in
    let run = spec_run oracle (ngram_drafter cfg) k n_predict (gate_prompt seed) in
    let ref = greedy oracle n_predict (gate_prompt seed) in
    record (arms run t) { failed = t.failed + failed_checks n_predict ref run }

-- The four nested loops: alphabets, K in [2, 8], nmin in [1, 3], seed in [0, 5].
unfoldable pub over_seeds : ℕ → ℕ → ℕ → ℕ → Totals → Totals
unfolding gate_case for_rounds
over_seeds n_predict alpha k nmin = for_rounds 6 0 (gate_case n_predict alpha k nmin)

unfoldable pub over_tails : ℕ → ℕ → ℕ → Totals → Totals
unfolding over_seeds for_rounds
over_tails n_predict alpha k = for_rounds 3 1 (over_seeds n_predict alpha k)

unfoldable pub over_widths : ℕ → ℕ → Totals → Totals
unfolding over_tails for_rounds
over_widths n_predict alpha = for_rounds 7 2 (over_tails n_predict alpha)

unfoldable pub sweep : ℕ → List ℕ → Totals → Totals
unfolding over_widths for_each
sweep n_predict alphabets = for_each alphabets (over_widths n_predict)

-- The sweep and the four checks that every arm was taken; the number of failed checks.
unfoldable pub test_loop_equivalence : List ℕ → ℕ
unfolding sweep
test_loop_equivalence alphabets =
    let t =
      sweep 40 alphabets
        (record { failed = 0; full = 0; partial = 0; nothing_kept = 0; accepted = 0 }) in
    t.failed
    + (if ltb 0 t.accepted then 0 else 1)
    + (if ltb 0 t.full then 0 else 1)
    + (if ltb 0 t.partial then 0 else 1)
    + (if ltb 0 t.nothing_kept then 0 else 1)
