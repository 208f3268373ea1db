-- ===== src/Draft/Returned.antt =====
-- The count that the drafter returns.
use kimi_k3_neuron_tp3_dgxsp.Prelude.{
  ℕ, ◌+◌, ◌≡◌, sym, ap, ◌∙◌, false, ◌||◌, some, List, [], ◌++◌, length, ◌==◌, if◌then◌else◌, inl,
  inr, Bool-cases, Option-cases, length-append, append-nil,
}
use mathlib.Core.Option.{some-injective}
use kimi_k3_neuron_tp3_dgxsp.Draft.Config.{Token, K3NgramDraftConfig}
use kimi_k3_neuron_tp3_dgxsp.Draft.Majority.{picks}
use kimi_k3_neuron_tp3_dgxsp.Draft.Bounds.{drafted-eq-length}
use kimi_k3_neuron_tp3_dgxsp.Draft.Down.{Outcome-cases}
use kimi_k3_neuron_tp3_dgxsp.Draft.Drafter.{
  Proposal, span_down, span_draft, picked_tokens, majority_draft, majority_mode,
  kimi_k3_ngram_draft,
}

majority_ret :
    (ctx : List Token) (max_draft : ℕ) (cfg : K3NgramDraftConfig) (out : List Token) (p : Proposal)
    → majority_draft ctx max_draft cfg out ≡ some p
    → (proposed : List Token) × (p.out ≡ out ++ proposed) × (p.ret ≡ length out + length proposed)
unfolding majority_draft
majority_ret ctx max_draft cfg out p e = elim (Option-cases (picks cfg max_draft ctx [])) [
  | inl faulty ↦ absurd (cc (rw (faulty, majority_draft) at e))
  | inr (ps, runs) ↦
      let same = some-injective _ _ (rw (runs, majority_draft) at e) in
      (
        picked_tokens ps,
        sym (ap (λ (q : Proposal). q.out) same),
        sym (ap (λ (q : Proposal). q.ret) same) ∙ length-append out (picked_tokens ps),
      )
]

span_ret :
    (ctx : List Token) (max_draft : ℕ) (cfg : K3NgramDraftConfig) (out : List Token) (p : Proposal)
    → span_draft ctx max_draft cfg out ≡ some p
    → (proposed : List Token) × (p.out ≡ out ++ proposed) × (p.ret ≡ length proposed)
unfolding span_draft
span_ret ctx max_draft cfg out p e = elim (Outcome-cases (span_down ctx max_draft cfg)) [
  | inl faulty ↦ absurd (cc (rw (faulty, span_draft) at e))
  | inr (inl declined) ↦
      let same = some-injective _ _ (rw (declined, span_draft) at e) in
      (
        [],
        sym (ap (λ (q : Proposal). q.out) same) ∙ sym (append-nil out),
        sym (ap (λ (q : Proposal). q.ret) same),
      )
  | inr (inr (m, got)) ↦
      let same = some-injective _ _ (rw (got, span_draft) at e) in
      (
        m.tokens,
        sym (ap (λ (q : Proposal). q.out) same),
        sym (ap (λ (q : Proposal). q.ret) same) ∙ drafted-eq-length ctx max_draft cfg m got,
      )
]

-- A call with a budget and a history that ends with a result: the vector has been appended to, and
-- what is returned is the number of appended tokens in the span arms, but the size of the whole vector
-- in the majority arm.
pub ret-counts :
    (ctx : List Token) (max_draft : ℕ) (cfg : K3NgramDraftConfig) (out : List Token) (p : Proposal)
    → (max_draft == 0 || length ctx == 0) ≡ false
    → kimi_k3_ngram_draft ctx max_draft cfg out ≡ some p
    → (proposed : List Token) × (p.out ≡ out ++ proposed)
      × (p.ret ≡ (if majority_mode cfg then length out + length proposed else length proposed))
unfolding kimi_k3_ngram_draft
ret-counts ctx max_draft cfg out p go e = elim (Bool-cases (majority_mode cfg)) [
  | inl on ↦ rw on (majority_ret ctx max_draft cfg out p (rw (go, on, kimi_k3_ngram_draft) at e))
  | inr off ↦ rw off (span_ret ctx max_draft cfg out p (rw (go, off, kimi_k3_ngram_draft) at e))
]
