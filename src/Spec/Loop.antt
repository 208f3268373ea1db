-- ===== src/Spec/Loop.antt =====
-- The plain greedy loop and the speculative loop of gate D. The oracle stands for the model's
-- forward pass and argmax: row i of a verify pass is the oracle over the accepted prefix through
-- batch position i. The drafter is a parameter.
use kimi_k3_neuron_tp3_dgxsp.Prelude.{
  ℕ, zero, suc, ◌+◌, ◌-◌, ◌*◌, Option, none, some, List, [], ◌∷◌, ◌++◌, length, take, get_or, ltb,
  ◌==◌, ◌&&◌, if◌then◌else◌,
}
use kimi_k3_neuron_tp3_dgxsp.Prelude.Int.{pos}
use kimi_k3_neuron_tp3_dgxsp.Draft.Config.{Token}
use kimi_k3_neuron_tp3_dgxsp.Spec.Accept.{Accepted, kimi_k3_spec_accept_prefix}

-- `consumed` ↦ the next token.
abbrev pub Oracle : Type 0
Oracle = List Token → Token

-- A history and a budget ↦ the proposed tokens.
abbrev pub Drafter : Type 0
Drafter = List Token → ℕ → List Token

-- `while (ref.size() < n_predict)`, on the rounds left: each round adds one token.
unfoldable pub greedy_while : Oracle → ℕ → List Token → Token → List Token → List Token
greedy_while oracle zero consumed next ref = ref
greedy_while oracle (suc rounds) consumed next ref =
    let consumed' = consumed ++ next ∷ [] in
    greedy_while oracle rounds consumed' (oracle consumed') (ref ++ oracle consumed' ∷ [])

unfoldable pub greedy : Oracle → ℕ → List Token → List Token
unfolding greedy_while
greedy oracle n_predict prompt =
    greedy_while oracle (n_predict - 1) prompt (oracle prompt) (oracle prompt ∷ [])

-- The rows of a verify pass over a batch.
unfoldable pub verify_rows : Oracle → List Token → List Token → List Token
verify_rows oracle walk [] = []
verify_rows oracle walk (x ∷ batch) =
    oracle (walk ++ x ∷ []) ∷ verify_rows oracle (walk ++ x ∷ []) batch

pub record SpecState : Type 0 where
  pub got : List Token
  pub ctx : List Token
  pub spec_consumed : List Token
  pub next : Token
  pub steps : ℕ
  pub sum_d : ℕ
  pub sum_j : ℕ
  pub saw_full : ℕ
  pub saw_partial : ℕ
  pub saw_none : ℕ

-- The width of the draft: `K - 1`, cut to `budget - 1`.
unfoldable pub width : ℕ → ℕ → ℕ
width k budget = if ltb (budget - 1) (k - 1) then budget - 1 else k - 1

unfoldable pub draft_within : Drafter → List Token → ℕ → List Token
draft_within drafter ctx max_draft = if ltb 0 max_draft then drafter ctx max_draft else []

-- What the step does once the pass has been accepted.
unfoldable pub commit : SpecState → List Token → Accepted → SpecState
commit st draft a =
    let kept = take a.accepted draft in
    let d = length draft in
    record {
      got = (st.got ++ kept) ++ a.bonus ∷ [];
      ctx = (st.ctx ++ kept) ++ a.bonus ∷ [];
      spec_consumed = (st.spec_consumed ++ st.next ∷ []) ++ kept;
      next = a.bonus;
      steps = st.steps + 1;
      sum_d = st.sum_d + d;
      sum_j = st.sum_j + a.accepted;
      saw_full = if ltb 0 d && (a.accepted == d) then st.saw_full + 1 else st.saw_full;
      saw_partial =
          if ltb 0 d && (ltb 0 a.accepted && ltb a.accepted d)
          then st.saw_partial + 1
          else st.saw_partial;
      saw_none = if ltb 0 d && (a.accepted == 0) then st.saw_none + 1 else st.saw_none;
    }

unfoldable pub spec_step : Oracle → Drafter → ℕ → ℕ → SpecState → SpecState
unfolding verify_rows width draft_within commit kimi_k3_spec_accept_prefix
spec_step oracle drafter k n_predict st =
    let draft = draft_within drafter st.ctx (width k (n_predict - length st.got)) in
    let rows = verify_rows oracle st.spec_consumed (st.next ∷ draft) in
    commit st draft (kimi_k3_spec_accept_prefix draft (λ r. get_or rows r (pos 0)))

-- `while (got.size() < n_predict)` with the livelock guard; `none` is fuel that ran out.
unfoldable pub spec_while : Oracle → Drafter → ℕ → ℕ → ℕ → SpecState → Option SpecState
unfolding spec_step
spec_while oracle drafter k n_predict zero st =
    if ltb (length st.got) n_predict then none else some st
spec_while oracle drafter k n_predict (suc fuel) st =
    let st' = spec_step oracle drafter k n_predict st in
    let rest = spec_while oracle drafter k n_predict fuel st' in
    if ltb (length st.got) n_predict
    then (if ltb (4 * n_predict) st'.steps then some st' else rest)
    else some st

unfoldable pub spec_start : Oracle → List Token → SpecState
spec_start oracle prompt = record {
  got = oracle prompt ∷ [];
  ctx = prompt ++ oracle prompt ∷ [];
  spec_consumed = prompt;
  next = oracle prompt;
  steps = 0;
  sum_d = 0;
  sum_j = 0;
  saw_full = 0;
  saw_partial = 0;
  saw_none = 0;
}

unfoldable pub spec_run : Oracle → Drafter → ℕ → ℕ → List Token → Option SpecState
unfolding spec_while spec_start
spec_run oracle drafter k n_predict prompt =
    spec_while oracle drafter k n_predict n_predict (spec_start oracle prompt)
