-- ===== src/Draft/Reference.antt =====
-- reference_draft of new-tests/kimi_k3_spec_draft_check.cpp, the gate's restatement of the contract.
use kimi_k3_neuron_tp3_dgxsp.Prelude.{
  ℕ, zero, suc, ◌+◌, ◌-◌, min, Bool, true, false, ◌||◌, Option, none, some, List, [], length, take,
  drop, get_elem?, ltb, ◌==◌, if◌then◌else◌,
}
use kimi_k3_neuron_tp3_dgxsp.Prelude.Int.{◌==ℤ◌}
use kimi_k3_neuron_tp3_dgxsp.Draft.Config.{
  Token, K3NgramDraftConfig, Outcome, fault, decline, found, first_down,
}

unfoldable pub same_token : Option Token → Option Token → Bool
unfolding ◌==ℤ◌
same_token (some a) (some b) = a ==ℤ b
same_token _ _ = false

-- `for (k = 0; k < n; ++k) if (ctx[s + k] != ctx[p + k]) break`, with the rounds left first.
unfoldable pub agrees : List Token → ℕ → ℕ → ℕ → Bool
unfolding same_token
agrees ctx zero s p = true
agrees ctx (suc r) s p =
    let rest = agrees ctx r (suc s) (suc p) in
    if same_token (get_elem? ctx s) (get_elem? ctx p) then rest else false

-- `for (s = 0; s + n < len; ++s)`: the last hit is the one that stays.
unfoldable pub last_hit : List Token → ℕ → ℕ → ℕ → Option ℕ → Option ℕ
unfolding agrees
last_hit ctx n zero s best = best
last_hit ctx n (suc r) s best =
    last_hit ctx n r (suc s) (if agrees ctx n s (length ctx - n) then some s else best)

unfoldable pub propose : List Token → ℕ → ℕ → Option ℕ → Outcome (List Token)
propose ctx max_draft n none = decline
propose ctx max_draft n (some best) =
    let out = take max_draft (drop (best + n) ctx) in
    if ltb 0 (length out) then found out else decline

unfoldable pub reference_at : List Token → ℕ → ℕ → Outcome (List Token)
unfolding last_hit propose
reference_at ctx max_draft n = propose ctx max_draft n (last_hit ctx n (length ctx - n) 0 none)

unfoldable pub reference_draft : List Token → ℕ → K3NgramDraftConfig → List Token
unfolding reference_at first_down
reference_draft ctx max_draft cfg =
    if max_draft == 0 || length ctx == 0
    then []
    else (elim (first_down (reference_at ctx max_draft) cfg.n_min (min cfg.n_max (length ctx))) [
      | fault ↦ []
      | decline ↦ []
      | found out ↦ out
    ])
