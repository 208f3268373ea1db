-- ===== src/Draft/Tests.antt =====
-- The hand-written cases of the gates, run on the model, and concrete inputs for the theorems.
use kimi_k3_neuron_tp3_dgxsp.Prelude.{
  ℕ, ◌+◌, ◌≤◌, min, true, false, ◌≡◌, refl, some, List, [], ◌∷◌, ◌++◌, length, if◌then◌else◌, arith,
}
use kimi_k3_neuron_tp3_dgxsp.Draft.Config.{Token, K3NgramDraftConfig, default_config, Match, found}
use kimi_k3_neuron_tp3_dgxsp.Draft.Drafter.{
  Proposal, span_down, kimi_k3_ngram_draft, draft_of, majority_mode,
}
use kimi_k3_neuron_tp3_dgxsp.Prelude.Int.{pos}
use kimi_k3_neuron_tp3_dgxsp.Draft.Majority.{Pick, n_lo, pick_down}
use kimi_k3_neuron_tp3_dgxsp.Draft.Election.{IsElected, pick_down-IsElected}
use kimi_k3_neuron_tp3_dgxsp.Draft.Confidence.{IsConfident, span_down-IsConfident}
use kimi_k3_neuron_tp3_dgxsp.Draft.Gate.{mismatches}
use kimi_k3_neuron_tp3_dgxsp.Draft.Cases.{ids, c3, e3, twice, test_drafter, test_gating}
use kimi_k3_neuron_tp3_dgxsp.Draft.Recency.{draft_of-eq-reference_draft}
use kimi_k3_neuron_tp3_dgxsp.Draft.Bounds.{Keeps, kimi_k3_ngram_draft-Keeps}
use kimi_k3_neuron_tp3_dgxsp.Draft.Trials.{mismatches-none}
use kimi_k3_neuron_tp3_dgxsp.Draft.Returned.{ret-counts}
use kimi_k3_neuron_tp3_dgxsp.Draft.Reference.{reference_draft}

drafter_cases : test_drafter 0 ≡ 0
unfolding test_drafter
drafter_cases = refl

gating_cases : test_gating 0 ≡ 0
unfolding test_gating
gating_cases = refl

abbrev cm : K3NgramDraftConfig
cm = record default_config {
  n_min = 1;
  n_max = 1;
  min_occurrences = 2;
  majority_num = 2;
  majority_den = 3;
}

a12 : draft_of (ids (1 ∷ 5 ∷ 1 ∷ 5 ∷ 1 ∷ 9 ∷ 1 ∷ [])) 3 cm ≡ some (ids (5 ∷ 1 ∷ 5 ∷ []))
unfolding draft_of
a12 = refl

a13 : draft_of (ids (1 ∷ 5 ∷ 1 ∷ 6 ∷ 1 ∷ [])) 3 cm ≡ some []
unfolding draft_of
a13 = refl

-- The inputs of the theorems: case A5's history.
abbrev recurring : List Token
recurring = ids (1 ∷ 2 ∷ 3 ∷ 4 ∷ 1 ∷ 2 ∷ 7 ∷ 8 ∷ 1 ∷ 2 ∷ [])

draft_of-eq-reference_draft_example :
    draft_of recurring 2 (record c3 { weak_max_draft = 1 })
    ≡ some (reference_draft recurring 2 (record c3 { weak_max_draft = 1 }))
draft_of-eq-reference_draft_example =
    draft_of-eq-reference_draft recurring 2 (record c3 { weak_max_draft = 1 }) refl (omega arith)
      refl (omega arith)

kimi_k3_ngram_draft-Keeps_example :
    (p : Proposal) × (kimi_k3_ngram_draft recurring 2 cm (ids (5 ∷ [])) ≡ some p)
    × Keeps 2 (ids (5 ∷ [])) p
kimi_k3_ngram_draft-Keeps_example =
    kimi_k3_ngram_draft-Keeps recurring 2 cm (ids (5 ∷ [])) (omega arith)

-- Case A11.
random_trials_agree : mismatches 4000 12345 0 ≡ 0
random_trials_agree = mismatches-none 4000 12345 0

-- The majority arm on a vector that holds a token already: one token is proposed, and 2 is returned.
abbrev appended_to : Proposal
appended_to = record {
  out = ids (9 ∷ 5 ∷ []);
  ret = 2;
  info = record { n = 1; occurrences = 3; agreed = false; weak = false };
}

majority_appends :
    kimi_k3_ngram_draft (ids (1 ∷ 5 ∷ 1 ∷ 5 ∷ 1 ∷ 9 ∷ 1 ∷ [])) 1 cm (ids (9 ∷ []))
    ≡ some appended_to
unfolding kimi_k3_ngram_draft
majority_appends = refl

ret-counts_example :
    (proposed : List Token) × (ids (9 ∷ 5 ∷ []) ≡ ids (9 ∷ []) ++ proposed)
    × (2 ≡ (if majority_mode cm then length (ids (9 ∷ [])) + length proposed else length proposed))
ret-counts_example =
    ret-counts (ids (1 ∷ 5 ∷ 1 ∷ 5 ∷ 1 ∷ 9 ∷ 1 ∷ [])) 1 cm (ids (9 ∷ [])) appended_to refl
      majority_appends

-- A tie goes to the token that was met first, though 6 reaches the winning count before 5 does.
tie :
    draft_of (ids (1 ∷ 5 ∷ 1 ∷ 6 ∷ 1 ∷ 6 ∷ 1 ∷ 5 ∷ 1 ∷ [])) 1 (record cm { majority_num = 1 })
    ≡ some (ids (5 ∷ []))
unfolding draft_of
tie = refl

abbrev elected : Pick
elected = record { picked = pos 5; picked_n = 1; picked_occ = 3; picked_best = 2 }

elects : pick_down (ids (1 ∷ 5 ∷ 1 ∷ 5 ∷ 1 ∷ 9 ∷ 1 ∷ [])) cm ≡ found elected
unfolding pick_down
elects = refl

pick_down-IsElected_example :
    (n : ℕ) × (n_lo cm ≤ n)
    × (n ≤ min 1 7)
    × IsElected (ids (1 ∷ 5 ∷ 1 ∷ 5 ∷ 1 ∷ 9 ∷ 1 ∷ [])) cm n elected
pick_down-IsElected_example =
    pick_down-IsElected (ids (1 ∷ 5 ∷ 1 ∷ 5 ∷ 1 ∷ 9 ∷ 1 ∷ [])) cm elected elects

-- Case E3: the tail has occurred twice, and 9 followed it both times.
abbrev copied : Match
copied = record {
  tokens = ids (9 ∷ 7 ∷ []);
  drafted = 2;
  info = record { n = 2; occurrences = 2; agreed = true; weak = false };
}

copies : span_down (ids twice) 2 e3 ≡ found copied
unfolding span_down
copies = refl

span_down-IsConfident_example :
    (n : ℕ) × (n_lo e3 ≤ n) × (n ≤ min 2 (length (ids twice))) × IsConfident (ids twice) e3 n copied
span_down-IsConfident_example = span_down-IsConfident (ids twice) 2 e3 copied refl copies
