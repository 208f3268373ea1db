-- ===== src/Draft/Cases.antt =====
-- The hand-written cases of gates A and E: test_drafter (before its random part) of
-- new-tests/kimi_k3_spec_draft_check.cpp and test_gating of new-tests/kimi_k3_tune_check.cpp, each as
-- the number of its checks that fail.
use kimi_k3_neuron_tp3_dgxsp.Prelude.{
  ℕ, Bool, true, false, not, ◌&&◌, none, some, List, [], ◌∷◌, ◌==◌,
}
use kimi_k3_neuron_tp3_dgxsp.Prelude.Int.{pos}
use kimi_k3_neuron_tp3_dgxsp.Prelude.Report.{checks}
use kimi_k3_neuron_tp3_dgxsp.Draft.Config.{
  Token, K3NgramDraftConfig, default_config, K3NgramDraftInfo,
}
use kimi_k3_neuron_tp3_dgxsp.Draft.Window.{memcmp_eq}
use kimi_k3_neuron_tp3_dgxsp.Draft.Drafter.{kimi_k3_ngram_draft, draft_of}

-- A vector literal.
abbrev pub ids : List ℕ → List Token
ids [] = []
ids (n ∷ ns) = pos n ∷ ids ns

-- `draft_of(...) == std::vector<int>(...)`.
unfoldable pub drafts : List ℕ → ℕ → K3NgramDraftConfig → List ℕ → Bool
unfolding draft_of memcmp_eq
drafts ctx max_draft cfg want = elim (draft_of (ids ctx) max_draft cfg) [
  | none ↦ false
  | some d ↦ memcmp_eq d (ids want)
]

-- `info` after the call.
unfoldable pub reports : List ℕ → ℕ → K3NgramDraftConfig → (K3NgramDraftInfo → Bool) → Bool
unfolding kimi_k3_ngram_draft
reports ctx max_draft cfg test = elim (kimi_k3_ngram_draft (ids ctx) max_draft cfg []) [
  | none ↦ false
  | some p ↦ test p.info
]

abbrev pub c3 : K3NgramDraftConfig
c3 = record default_config { n_max = 3; n_min = 1 }

-- A0 to A10.
unfoldable pub test_drafter : ℕ → ℕ
unfolding drafts checks
test_drafter = checks (
    (default_config.n_max == 3 && (default_config.n_min == 2))
    ∷ drafts (5 ∷ 6 ∷ 7 ∷ 8 ∷ []) 4 c3 []
    ∷ drafts (1 ∷ 2 ∷ 3 ∷ 4 ∷ 9 ∷ 1 ∷ 2 ∷ 3 ∷ []) 3 c3 (4 ∷ 9 ∷ 1 ∷ [])
    ∷ drafts (7 ∷ 2 ∷ 3 ∷ 4 ∷ 5 ∷ 8 ∷ 2 ∷ 3 ∷ []) 2 c3 (4 ∷ 5 ∷ [])
    ∷ drafts (4 ∷ 9 ∷ 9 ∷ 9 ∷ 1 ∷ 2 ∷ 4 ∷ []) 1 c3 (9 ∷ [])
    ∷ drafts (1 ∷ 2 ∷ 3 ∷ 4 ∷ 1 ∷ 2 ∷ 7 ∷ 8 ∷ 1 ∷ 2 ∷ []) 2 c3 (7 ∷ 8 ∷ [])
    ∷ drafts (1 ∷ 2 ∷ 3 ∷ 4 ∷ 5 ∷ 6 ∷ 1 ∷ 2 ∷ 3 ∷ []) 2 c3 (4 ∷ 5 ∷ [])
    ∷ drafts (1 ∷ 2 ∷ 3 ∷ []) 3 c3 []
    ∷ drafts (4 ∷ 9 ∷ 9 ∷ 9 ∷ 1 ∷ 2 ∷ 4 ∷ []) 2 (record c3 { n_min = 2 }) []
    ∷ drafts (1 ∷ 2 ∷ 1 ∷ 2 ∷ []) 0 c3 []
    ∷ drafts (1 ∷ []) 4 c3 []
    ∷ [])

abbrev e1 : K3NgramDraftConfig
e1 = record default_config { n_min = 2; n_max = 2 }

abbrev e2 : K3NgramDraftConfig
e2 = record e1 { min_occurrences = 2 }

abbrev pub e3 : K3NgramDraftConfig
e3 = record e2 { require_agreement = true }

abbrev e7 : K3NgramDraftConfig
e7 = record e3 { weak_max_draft = 1 }

abbrev once : List ℕ
once = 1 ∷ 2 ∷ 7 ∷ 8 ∷ 9 ∷ 5 ∷ 6 ∷ 1 ∷ 2 ∷ []

abbrev pub twice : List ℕ
twice = 4 ∷ 4 ∷ 9 ∷ 1 ∷ 2 ∷ 3 ∷ 4 ∷ 4 ∷ 9 ∷ 7 ∷ 7 ∷ 4 ∷ 4 ∷ []

abbrev split : List ℕ
split = 5 ∷ 5 ∷ 1 ∷ 0 ∷ 0 ∷ 5 ∷ 5 ∷ 2 ∷ 0 ∷ 0 ∷ 5 ∷ 5 ∷ []

abbrev shorter : List ℕ
shorter = 8 ∷ 1 ∷ 2 ∷ 3 ∷ 9 ∷ 9 ∷ 1 ∷ 2 ∷ 3 ∷ 4 ∷ 8 ∷ 1 ∷ 2 ∷ []

abbrev strong : List ℕ
strong = 4 ∷ 4 ∷ 9 ∷ 7 ∷ 1 ∷ 4 ∷ 4 ∷ 9 ∷ 7 ∷ 2 ∷ 4 ∷ 4 ∷ []

abbrev alike : List ℕ
alike = 3 ∷ 1 ∷ 5 ∷ 0 ∷ 3 ∷ 1 ∷ 6 ∷ 0 ∷ 3 ∷ 1 ∷ []

-- E9's comparison of two configurations.
unfoldable pub same_drafts : List ℕ → ℕ → K3NgramDraftConfig → K3NgramDraftConfig → Bool
unfolding draft_of memcmp_eq
same_drafts ctx max_draft a b = elim (draft_of (ids ctx) max_draft a) [
  | none ↦ false
  | some d ↦ elim (draft_of (ids ctx) max_draft b) [ none ↦ false | some d' ↦ memcmp_eq d d' ]
]

-- E0 to E9.
unfoldable pub test_gating : ℕ → ℕ
unfolding drafts reports same_drafts checks
test_gating = checks (
    (default_config.min_occurrences == 1
      && (not default_config.require_agreement && (default_config.weak_max_draft == 0)))
    ∷ drafts once 3 e1 (7 ∷ 8 ∷ 9 ∷ [])
    ∷ drafts once 3 e2 []
    ∷ reports once 3 e2 (λ info. info.n == 0)
    ∷ drafts twice 2 e3 (9 ∷ 7 ∷ [])
    ∷ reports twice 2 e3 (λ info. info.occurrences == 2 && (info.agreed && not info.weak))
    ∷ drafts split 1 e2 (2 ∷ [])
    ∷ reports split 1 e2 (λ info. info.occurrences == 2 && not info.agreed)
    ∷ drafts split 1 e3 []
    ∷ (drafts shorter 1 (record e3 { n_max = 3 }) (3 ∷ [])
        && reports shorter 1 (record e3 { n_max = 3 }) (λ info. info.n == 2))
    ∷ drafts once 3 e7 (7 ∷ [])
    ∷ reports once 3 e7 (λ info. info.weak)
    ∷ (drafts strong 2 e7 (9 ∷ 7 ∷ []) && reports strong 2 e7 (λ info. not info.weak))
    ∷ same_drafts alike 1 e1 (record e1 { weak_max_draft = 1 })
    ∷ [])
