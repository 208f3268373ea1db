-- ===== src/Spec/Passes.antt =====
-- Gate D cannot fail in its sequence checks, whatever is swept over.
use kimi_k3_neuron_tp3_dgxsp.Prelude.{
  ℕ, ◌<◌, All, ◌≤◌, ◌≡◌, refl, ap, ◌∙◌, some, List, [], ◌∷◌, ◌++◌, length, arith, length-append,
}
use kimi_k3_neuron_tp3_dgxsp.Prelude.Loop.{for_rounds_keeps, for_each_keeps_all}
use native.Mathlib.Nat.{add-zero}
use kimi_k3_neuron_tp3_dgxsp.Draft.Equal.{memcmp_eq_refl}
use kimi_k3_neuron_tp3_dgxsp.Draft.Config.{Token, K3NgramDraftConfig, default_config}
use kimi_k3_neuron_tp3_dgxsp.Draft.Drafter.{Proposal, kimi_k3_ngram_draft, draft_of}
use kimi_k3_neuron_tp3_dgxsp.Draft.Bounds.{kimi_k3_ngram_draft-Keeps}
use kimi_k3_neuron_tp3_dgxsp.Spec.Loop.{SpecState}
use kimi_k3_neuron_tp3_dgxsp.Spec.Equivalence.{IsBounded, spec_run-eq-greedy}
use kimi_k3_neuron_tp3_dgxsp.Spec.Gate.{
  hash_oracle, gate_prompt, ngram_drafter, failed_checks, Totals, gate_case, over_seeds, over_tails,
  over_widths, sweep,
}

ngram_drafter-eq-out :
    (cfg : K3NgramDraftConfig) (ctx : List Token) (max_draft : ℕ) (p : Proposal)
    → kimi_k3_ngram_draft ctx max_draft cfg [] ≡ some p
    → ngram_drafter cfg ctx max_draft ≡ p.out
unfolding ngram_drafter draft_of
ngram_drafter-eq-out cfg ctx max_draft p runs = rw (runs, ngram_drafter, draft_of) refl

-- The n-gram drafter keeps to its budget, under any configuration that asks for an occurrence.
pub ngram_drafter-IsBounded :
    (cfg : K3NgramDraftConfig) → 1 ≤ cfg.min_occurrences → IsBounded (ngram_drafter cfg)
ngram_drafter-IsBounded cfg h = record {
  within = λ ctx max_draft.
      let (p, runs, keeps) = kimi_k3_ngram_draft-Keeps ctx max_draft cfg [] h in
      omega (
        arith,
        ap length (ngram_drafter-eq-out cfg ctx max_draft p runs),
        ap length keeps.appended,
        keeps.within,
      );
}

failed_checks-zero :
    (n_predict : ℕ) (ref : List Token) (st : SpecState)
    → st.got ≡ ref
    → st.ctx ≡ st.spec_consumed ++ st.next ∷ []
    → st.steps ≤ n_predict
    → failed_checks n_predict ref (some st) ≡ 0
unfolding failed_checks
failed_checks-zero n_predict ref st same pending paced =
    rw (same, memcmp_eq_refl ref)
      (ground (arith, ap length pending, length-append st.spec_consumed (st.next ∷ [])))

-- A case of the gate adds no failed check, for every count, alphabet, width, tail length and seed.
gate_case-passes :
    (n_predict alpha k nmin seed : ℕ) (t : Totals)
    → (gate_case n_predict alpha k nmin seed t).failed ≡ t.failed
gate_case-passes n_predict alpha k nmin seed t =
    let cfg = record default_config { n_max = 3; n_min = nmin } in
    let (st, runs, same, pending, paced) =
      spec_run-eq-greedy (hash_oracle alpha) (ngram_drafter cfg) k n_predict
        (ngram_drafter-IsBounded cfg (omega arith)) (gate_prompt seed) in
    unfold gate_case in
    rw (runs, failed_checks-zero n_predict _ st same pending paced) (add-zero t.failed)

-- Nothing failed beyond what had failed in t.
abbrev NoMore : Totals → Totals → Type 0
NoMore t s = s.failed ≡ t.failed

over_seeds-passes :
    (n_predict alpha k nmin : ℕ) (t : Totals) → NoMore t (over_seeds n_predict alpha k nmin t)
unfolding over_seeds
over_seeds-passes n_predict alpha k nmin t =
    for_rounds_keeps (NoMore t) (gate_case n_predict alpha k nmin)
      (λ seed s e. gate_case-passes n_predict alpha k nmin seed s ∙ e) 6 0 t refl

over_tails-passes : (n_predict alpha k : ℕ) (t : Totals) → NoMore t (over_tails n_predict alpha k t)
unfolding over_tails
over_tails-passes n_predict alpha k t =
    for_rounds_keeps (NoMore t) (over_seeds n_predict alpha k)
      (λ nmin s e. over_seeds-passes n_predict alpha k nmin s ∙ e) 3 1 t refl

over_widths-passes : (n_predict alpha : ℕ) (t : Totals) → NoMore t (over_widths n_predict alpha t)
unfolding over_widths
over_widths-passes n_predict alpha t =
    for_rounds_keeps (NoMore t) (over_tails n_predict alpha)
      (λ k s e. over_tails-passes n_predict alpha k s ∙ e) 7 2 t refl

-- The sweep of gate D finds no failed check: for any alphabets of at least one symbol and any number
-- of tokens, every one of its runs ends, and emits what the greedy loop emits, with a history of the
-- right length and no more steps than tokens.
pub sweep-passes :
    (n_predict : ℕ) (alphabets : List ℕ) (t : Totals)
    → All (λ alpha. 0 < alpha) alphabets
    → (sweep n_predict alphabets t).failed ≡ t.failed
unfolding sweep
sweep-passes n_predict alphabets t positive =
    for_each_keeps_all (NoMore t) (λ alpha. 0 < alpha) (over_widths n_predict)
      (λ alpha s h e. over_widths-passes n_predict alpha s ∙ e) alphabets t positive refl
