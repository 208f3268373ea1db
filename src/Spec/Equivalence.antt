-- ===== src/Spec/Equivalence.antt =====
-- The speculative loop against the greedy loop, for every oracle and every drafter that keeps to its
-- budget.
use kimi_k3_neuron_tp3_dgxsp.Prelude.{
  ℕ, zero, suc, ◌+◌, ◌-◌, ◌*◌, ◌≤◌, ◌<◌, ◌≡◌, refl, sym, ap, ◌∙◌, false, some, List, [], ◌∷◌, ◌++◌,
  length, take, get_or, ltb, ltb→lt, arith, inl, inr, Bool-cases, append_assoc, append-nil,
  length-append, length-take,
}
use kimi_k3_neuron_tp3_dgxsp.Prelude.Int.{pos}
use native.Mathlib.Nat.{add_assoc}
use kimi_k3_neuron_tp3_dgxsp.Draft.Config.{Token}
use kimi_k3_neuron_tp3_dgxsp.Spec.Accept.{Accepted, kimi_k3_spec_accept_prefix}
use kimi_k3_neuron_tp3_dgxsp.Spec.Loop.{
  Oracle, Drafter, greedy_while, greedy, verify_rows, SpecState, width, draft_within, commit,
  spec_step, spec_while, spec_start, spec_run,
}
use kimi_k3_neuron_tp3_dgxsp.Spec.Prefix.{
  continuation, continuation-add, accept_prefix-IsLongestPrefix, accept_prefix-eq-continuation,
}

-- The drafter keeps to the budget that it is given.
pub record IsBounded (drafter : Drafter) : Type 0 where
  pub within : (ctx : List Token) (max_draft : ℕ) → length (drafter ctx max_draft) ≤ max_draft

greedy_while-eq-continuation :
    (oracle : Oracle) (rounds : ℕ) (consumed ref : List Token)
    → greedy_while oracle rounds consumed (oracle consumed) ref
      ≡ ref ++ continuation oracle (consumed ++ oracle consumed ∷ []) rounds
unfolding greedy_while
greedy_while-eq-continuation oracle zero consumed ref = rw append-nil refl
greedy_while-eq-continuation oracle (suc rounds) consumed ref =
    let consumed' = consumed ++ oracle consumed ∷ [] in
    greedy_while-eq-continuation oracle rounds consumed' (ref ++ oracle consumed' ∷ [])
    ∙ append_assoc ref (oracle consumed' ∷ [])
        (continuation oracle (consumed' ++ oracle consumed' ∷ []) rounds)

-- Greedy decoding emits the oracle's stream, one token even where none is asked for.
pub greedy-eq-continuation :
    (oracle : Oracle) (n_predict : ℕ) (prompt : List Token)
    → greedy oracle n_predict prompt ≡ continuation oracle prompt (suc (n_predict - 1))
unfolding greedy
greedy-eq-continuation oracle n_predict prompt =
    greedy_while-eq-continuation oracle (n_predict - 1) prompt (oracle prompt ∷ [])

-- What holds between two steps.
pub record Inv (oracle : Oracle) (prompt : List Token) (st : SpecState) : Type 0 where
  pub history : st.ctx ≡ prompt ++ st.got
  pub pending : st.ctx ≡ st.spec_consumed ++ st.next ∷ []
  pub stream : st.got ≡ continuation oracle prompt (length st.got)
  pub paced : st.steps + 1 ≤ length st.got

start-Inv : (oracle : Oracle) (prompt : List Token) → Inv oracle prompt (spec_start oracle prompt)
unfolding spec_start
start-Inv oracle prompt = record {
  history = refl;
  pending = refl;
  stream = refl;
  paced = omega arith;
}

-- A stream that is extended by its own continuation.
continuation_extend :
    (oracle : Oracle) (prompt got : List Token) (m n : ℕ)
    → got ≡ continuation oracle prompt (length got)
    → n ≡ length got + m
    → got ++ continuation oracle (prompt ++ got) m ≡ continuation oracle prompt n
continuation_extend oracle prompt got m n stream e =
    ap (λ g. g ++ continuation oracle (prompt ++ g) m) stream
    ∙ sym (continuation-add oracle prompt (length got) m)
    ∙ ap (continuation oracle prompt) (sym e)

length-commit :
    (st : SpecState) (draft : List Token) (a : Accepted)
    → a.accepted ≤ length draft
    → length (commit st draft a).got ≡ length st.got + a.accepted + 1
unfolding commit
length-commit st draft a h =
    let kept = take a.accepted draft in
    omega (
      arith,
      length-append (st.got ++ kept) (a.bonus ∷ []),
      length-append st.got kept,
      length-take a.accepted draft,
    )

commit-Inv :
    (oracle : Oracle) {prompt : List Token} (st : SpecState) (draft : List Token) (a : Accepted)
    → Inv oracle prompt st
    → a.accepted ≤ length draft
    → take a.accepted draft ++ a.bonus ∷ []
      ≡ continuation oracle (st.spec_consumed ++ st.next ∷ []) (a.accepted + 1)
    → Inv oracle prompt (commit st draft a)
unfolding commit
commit-Inv oracle {prompt} st draft a v le emitted =
    let kept = take a.accepted draft in
    record {
      history = rw v.history (simp append_assoc);
      pending = rw v.pending (simp append_assoc);
      stream =
          append_assoc st.got kept (a.bonus ∷ [])
          ∙ ap (◌++◌ st.got) (
              emitted
              ∙ ap (λ w. continuation oracle w (a.accepted + 1)) (sym v.pending ∙ v.history))
          ∙ continuation_extend oracle prompt st.got (a.accepted + 1) _ v.stream
              (length-commit st draft a le ∙ add_assoc _ _ _);
      paced = omega (arith, length-commit st draft a le);
    }

module _ (oracle : Oracle) (drafter : Drafter) (k n_predict : ℕ) where
  step-Inv :
      {prompt : List Token} (st : SpecState)
      → Inv oracle prompt st
      → Inv oracle prompt (spec_step oracle drafter k n_predict st)
  unfolding spec_step
  step-Inv st v =
      let draft = draft_within drafter st.ctx (width k (n_predict - length st.got)) in
      let row =
        λ (r : ℕ). get_or (verify_rows oracle st.spec_consumed (st.next ∷ draft)) r (pos 0) in
      commit-Inv oracle st draft (kimi_k3_spec_accept_prefix draft row) v
        (accept_prefix-IsLongestPrefix draft row).within
        (accept_prefix-eq-continuation oracle st.spec_consumed st.next draft (pos 0))

  module _ (bounded : IsBounded drafter) where
    draft_within-le :
        (ctx : List Token) (budget : ℕ)
        → length (draft_within drafter ctx (width k budget)) ≤ budget - 1
    unfolding draft_within width
    draft_within-le ctx budget =
        ground (arith, bounded.within ctx (budget - 1), bounded.within ctx (k - 1))

    -- A step emits at least one token and never more than are left.
    step_progress :
        (st : SpecState)
        → length st.got < n_predict
        → (length st.got < length (spec_step oracle drafter k n_predict st).got)
          × (length (spec_step oracle drafter k n_predict st).got ≤ n_predict)
    unfolding spec_step
    step_progress st h =
        let draft = draft_within drafter st.ctx (width k (n_predict - length st.got)) in
        let row =
          λ (r : ℕ). get_or (verify_rows oracle st.spec_consumed (st.next ∷ draft)) r (pos 0) in
        let a = kimi_k3_spec_accept_prefix draft row in
        let le = (accept_prefix-IsLongestPrefix draft row).within in
        omega (
          arith,
          length-commit st draft a le,
          le,
          draft_within-le st.ctx (n_predict - length st.got),
        )

    -- With enough fuel the loop ends, by its own test: the guard on the steps is never met.
    spec_while_total :
        {prompt : List Token} (fuel : ℕ) (st : SpecState)
        → Inv oracle prompt st
        → n_predict ≤ length st.got + fuel
        → length st.got ≤ suc (n_predict - 1)
        → (st' : SpecState) × (spec_while oracle drafter k n_predict fuel st ≡ some st')
          × Inv oracle prompt st'
          × (length st'.got ≡ suc (n_predict - 1))
    unfolding spec_while
    spec_while_total zero st v enough most =
        (st, ground (arith, v.paced), v, omega (arith, v.paced))
    spec_while_total {prompt} (suc fuel) st v enough most =
        elim (Bool-cases (ltb (length st.got) n_predict)) [
          | inl more ↦
              let grow = step_progress st (ltb→lt _ _ more) in
              let v' = step-Inv st v in
              let (st', runs, v'', full) =
                spec_while_total fuel (spec_step oracle drafter k n_predict st) v'
                  (omega (arith, grow)) (omega (arith, grow)) in
              let quiet : ltb (4 * n_predict) (spec_step oracle drafter k n_predict st).steps
                  ≡ false =
                ground (arith, v'.paced, grow.1) in
              (st', rw (more, quiet, spec_while) runs, v'', full)
          | inr done ↦ (st, rw (done, spec_while) refl, v, ground (arith, v.paced))
        ]

    -- For every oracle, every drafter that keeps to its budget, every width K, count and prompt: the
    -- speculative loop returns, it emits exactly the tokens of plain greedy decoding, its history is
    -- what was consumed and the one pending token, and it takes at most one step for each token.
    pub spec_run-eq-greedy :
        (prompt : List Token)
        → (st : SpecState) × (spec_run oracle drafter k n_predict prompt ≡ some st)
          × (st.got ≡ greedy oracle n_predict prompt)
          × (st.ctx ≡ st.spec_consumed ++ st.next ∷ [])
          × (st.steps ≤ n_predict)
    unfolding spec_run
    spec_run-eq-greedy prompt =
        let (st, runs, v, full) =
          spec_while_total n_predict (spec_start oracle prompt) (start-Inv oracle prompt)
            (omega arith) (omega arith) in
        (
          st,
          runs,
          v.stream
              ∙ ap (continuation oracle prompt) full
              ∙ sym (greedy-eq-continuation oracle n_predict prompt),
          v.pending,
          omega (arith, v.paced),
        )
