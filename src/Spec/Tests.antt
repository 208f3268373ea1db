-- ===== src/Spec/Tests.antt =====
-- Concrete inputs for the theorems on speculative decoding.
use kimi_k3_neuron_tp3_dgxsp.Prelude.{
  ℕ, suc, ◌+◌, ◌-◌, ◌≤◌, ◌≡◌, refl, some, List, [], ◌∷◌, ◌++◌, take, get_or, arith,
}
use kimi_k3_neuron_tp3_dgxsp.Prelude.Int.{pos}
use kimi_k3_neuron_tp3_dgxsp.Draft.Config.{Token, default_config}
use kimi_k3_neuron_tp3_dgxsp.Spec.Accept.{kimi_k3_spec_accept_prefix}
use kimi_k3_neuron_tp3_dgxsp.Spec.Loop.{greedy, verify_rows, SpecState, spec_run}
use kimi_k3_neuron_tp3_dgxsp.Spec.Gate.{ngram_drafter, hash_oracle, gate_prompt, Totals, sweep}
use kimi_k3_neuron_tp3_dgxsp.Spec.Cases.{test_accept}
use kimi_k3_neuron_tp3_dgxsp.Spec.Prefix.{
  continuation, IsLongestPrefix, accept_prefix-IsLongestPrefix, accept_prefix-eq-continuation,
}
use kimi_k3_neuron_tp3_dgxsp.Spec.Equivalence.{greedy-eq-continuation, spec_run-eq-greedy}
use kimi_k3_neuron_tp3_dgxsp.Spec.Passes.{ngram_drafter-IsBounded, sweep-passes}

-- Gate B's partial accept.
abbrev drafts : List Token
drafts = pos 11 ∷ pos 12 ∷ pos 13 ∷ []

abbrev rows : ℕ → Token
rows r = get_or (pos 11 ∷ pos 77 ∷ pos 13 ∷ pos 14 ∷ []) r (pos 0)

accept_prefix-IsLongestPrefix_example :
    IsLongestPrefix rows drafts (kimi_k3_spec_accept_prefix drafts rows)
accept_prefix-IsLongestPrefix_example = accept_prefix-IsLongestPrefix drafts rows

accept_prefix-eq-continuation_example :
    let a =
      kimi_k3_spec_accept_prefix drafts
        (λ r. get_or (verify_rows (hash_oracle 4) (gate_prompt 0) (pos 3 ∷ drafts)) r (pos 0)) in
    take a.accepted drafts ++ a.bonus ∷ []
    ≡ continuation (hash_oracle 4) (gate_prompt 0 ++ pos 3 ∷ []) (a.accepted + 1)
accept_prefix-eq-continuation_example =
    accept_prefix-eq-continuation (hash_oracle 4) (gate_prompt 0) (pos 3) drafts (pos 0)

greedy-eq-continuation_example :
    greedy (hash_oracle 4) 40 (gate_prompt 0)
    ≡ continuation (hash_oracle 4) (gate_prompt 0) (suc (40 - 1))
greedy-eq-continuation_example = greedy-eq-continuation (hash_oracle 4) 40 (gate_prompt 0)

-- The narrow alphabet of gate D.
spec_run-eq-greedy_example :
    (st : SpecState) × (spec_run (hash_oracle 4) (ngram_drafter default_config) 5 40 (gate_prompt 0)
      ≡ some st)
    × (st.got ≡ greedy (hash_oracle 4) 40 (gate_prompt 0))
    × (st.ctx ≡ st.spec_consumed ++ st.next ∷ [])
    × (st.steps ≤ 40)
spec_run-eq-greedy_example =
    spec_run-eq-greedy (hash_oracle 4) (ngram_drafter default_config) 5 40
      (ngram_drafter-IsBounded default_config (omega arith)) (gate_prompt 0)

abbrev none_yet : Totals
none_yet = record { failed = 0; full = 0; partial = 0; nothing_kept = 0; accepted = 0 }

sweep-passes_example : (sweep 40 (4 ∷ 17 ∷ []) none_yet).failed ≡ 0
sweep-passes_example = sweep-passes 40 (4 ∷ 17 ∷ []) none_yet (omega arith, (omega arith, tt))

accept_cases : test_accept 0 ≡ 0
unfolding test_accept
accept_cases = refl
