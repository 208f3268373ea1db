-- ===== src/Draft/Trials.antt =====
-- The random cases of gate A.
use kimi_k3_neuron_tp3_dgxsp.Prelude.{ℕ, zero, suc, ◌≡◌, refl, some, List, arith}
use kimi_k3_neuron_tp3_dgxsp.Draft.Equal.{memcmp_eq_refl}
use kimi_k3_neuron_tp3_dgxsp.Draft.Config.{Token}
use kimi_k3_neuron_tp3_dgxsp.Draft.Drafter.{draft_of}
use kimi_k3_neuron_tp3_dgxsp.Draft.Reference.{reference_draft}
use kimi_k3_neuron_tp3_dgxsp.Draft.Recency.{draft_of-eq-reference_draft}
use kimi_k3_neuron_tp3_dgxsp.Draft.Gate.{trial, compared, mismatches}

compared-same : (d : List Token) (mismatch : ℕ) → compared (some d) d mismatch ≡ mismatch
unfolding compared
compared-same d mismatch = rw (memcmp_eq_refl d) refl

trial-agrees :
    (s : ℕ) → let t = trial s in draft_of t.ctx t.md t.cfg ≡ some (reference_draft t.ctx t.md t.cfg)
unfolding trial
trial-agrees s =
    let t = trial s in
    draft_of-eq-reference_draft t.ctx t.md t.cfg refl (omega arith) refl (omega arith)

-- The random comparison of gate A counts no mismatch, for every number of trials and every seed.
pub mismatches-none : (trials s mismatch : ℕ) → mismatches trials s mismatch ≡ mismatch
unfolding mismatches
mismatches-none zero s mismatch = refl
mismatches-none (suc trials) s mismatch =
    let t = trial s in
    rw (trial-agrees s, compared-same (reference_draft t.ctx t.md t.cfg) mismatch)
      (mismatches-none trials t.seed mismatch)
