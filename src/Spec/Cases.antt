-- ===== src/Spec/Cases.antt =====
-- Gate B, test_accept of new-tests/kimi_k3_spec_draft_check.cpp: the number of its checks that fail.
use kimi_k3_neuron_tp3_dgxsp.Prelude.{ℕ, ◌&&◌, List, [], ◌∷◌, get_or, ◌==◌}
use kimi_k3_neuron_tp3_dgxsp.Prelude.Int.{pos, ◌==ℤ◌}
use kimi_k3_neuron_tp3_dgxsp.Prelude.Report.{checks}
use kimi_k3_neuron_tp3_dgxsp.Draft.Config.{Token}
use kimi_k3_neuron_tp3_dgxsp.Spec.Accept.{Accepted, kimi_k3_spec_accept_prefix}

-- `run`: the row r of the pass is rows[r], which is there for every row that is evaluated.
unfoldable pub run : List Token → List Token → Accepted
unfolding kimi_k3_spec_accept_prefix
run draft rows = kimi_k3_spec_accept_prefix draft (λ r. get_or rows r (pos 0))

abbrev pub three : List Token
three = pos 11 ∷ pos 12 ∷ pos 13 ∷ []

unfoldable pub test_accept : ℕ → ℕ
unfolding run checks ◌==ℤ◌
test_accept =
    let b1 = run three (pos 11 ∷ pos 12 ∷ pos 13 ∷ pos 14 ∷ []) in
    let b2 = run three (pos 99 ∷ pos 12 ∷ pos 13 ∷ pos 14 ∷ []) in
    let b3 = run three (pos 11 ∷ pos 77 ∷ pos 13 ∷ pos 14 ∷ []) in
    let b4 = run [] (pos 42 ∷ []) in
    checks (
      (b1.accepted == 3 && (b1.bonus ==ℤ pos 14))
      ∷ (b1.calls == 4)
      ∷ (b2.accepted == 0 && (b2.bonus ==ℤ pos 99))
      ∷ (b2.calls == 1)
      ∷ (b3.accepted == 1 && (b3.bonus ==ℤ pos 77))
      ∷ (b3.calls == 2)
      ∷ (b4.accepted == 0 && ((b4.bonus ==ℤ pos 42) && (b4.calls == 1)))
      ∷ (b3.accepted == 1)
      ∷ [])
