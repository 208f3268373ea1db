-- ===== src/Spec/Accept.antt =====
-- kimi_k3_spec_accept_prefix. `calls` counts the rows that are evaluated, as gate B does.
use kimi_k3_neuron_tp3_dgxsp.Prelude.{ℕ, suc, List, [], ◌∷◌, if◌then◌else◌}
use kimi_k3_neuron_tp3_dgxsp.Prelude.Int.{◌==ℤ◌}
use kimi_k3_neuron_tp3_dgxsp.Draft.Config.{Token}

pub record Accepted : Type 0 where
  pub accepted : ℕ
  pub bonus : Token
  pub calls : ℕ

-- The endless loop: the drafts from position j on, and the rows evaluated so far. The null draft
-- pointer is the empty list.
unfoldable pub accept_from : (ℕ → Token) → List Token → ℕ → ℕ → Accepted
unfolding ◌==ℤ◌
accept_from row_argmax [] j calls = record { accepted = j; bonus = row_argmax j; calls = suc calls }
accept_from row_argmax (x ∷ draft) j calls =
    let rest = accept_from row_argmax draft (suc j) (suc calls) in
    let a = row_argmax j in
    if a ==ℤ x then rest else record { accepted = j; bonus = a; calls = suc calls }

unfoldable pub kimi_k3_spec_accept_prefix : List Token → (ℕ → Token) → Accepted
unfolding accept_from
kimi_k3_spec_accept_prefix draft row_argmax = accept_from row_argmax draft 0 0
