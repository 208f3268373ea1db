-- ===== src/Draft/Drafter.antt =====
-- kimi_k3_ngram_draft: the guards, the choice of the arm, and what the caller gets back.
use kimi_k3_neuron_tp3_dgxsp.Prelude.{
  ℕ, min, Bool, ◌&&◌, ◌||◌, Option, none, some, List, [], ◌∷◌, ◌++◌, length, ltb, ◌==◌,
  if◌then◌else◌,
}
use kimi_k3_neuron_tp3_dgxsp.Draft.Config.{
  Token, K3NgramDraftConfig, K3NgramDraftInfo, Match, Outcome, fault, decline, found, first_down,
  no_info,
}
use kimi_k3_neuron_tp3_dgxsp.Draft.Span.{ungated, gated, gating}
use kimi_k3_neuron_tp3_dgxsp.Draft.Majority.{Pick, n_lo, picks}

-- The vector behind `out` after the call, the returned count, and `*info`.
pub record Proposal : Type 0 where
  pub out : List Token
  pub ret : ℕ
  pub info : K3NgramDraftInfo

abbrev pub nothing : List Token → Proposal
nothing out = record { out = out; ret = 0; info = no_info }

-- One tail length of the span arms.
unfoldable pub span : List Token → ℕ → K3NgramDraftConfig → ℕ → Outcome Match
unfolding ungated gated
span ctx max_draft cfg n = if gating cfg then gated ctx max_draft cfg n else ungated ctx max_draft n

unfoldable pub span_down : List Token → ℕ → K3NgramDraftConfig → Outcome Match
unfolding span first_down
span_down ctx max_draft cfg =
    first_down (span ctx max_draft cfg) (n_lo cfg) (min cfg.n_max (length ctx))

unfoldable pub span_draft : List Token → ℕ → K3NgramDraftConfig → List Token → Option Proposal
unfolding span_down
span_draft ctx max_draft cfg out = elim (span_down ctx max_draft cfg) [
  | fault ↦ none
  | decline ↦ some (nothing out)
  | found m ↦ some (record { out = out ++ m.tokens; ret = m.drafted; info = m.info })
]

unfoldable pub picked_tokens : List Pick → List Token
picked_tokens [] = []
picked_tokens (p ∷ ps) = p.picked ∷ picked_tokens ps

-- `info` of the first pick; the code's three locals are 0 when there is none.
unfoldable pub majority_info : List Token → List Pick → K3NgramDraftInfo
majority_info [] [] = no_info
majority_info (_ ∷ _) [] = record no_info { agreed = 0 == 0 }
majority_info _ (p ∷ _) = record no_info {
  n = p.picked_n;
  occurrences = p.picked_occ;
  agreed = p.picked_best == p.picked_occ;
}

-- The majority arm returns the size of the whole vector.
unfoldable pub majority_draft : List Token → ℕ → K3NgramDraftConfig → List Token → Option Proposal
unfolding picks picked_tokens majority_info
majority_draft ctx max_draft cfg out = elim (picks cfg max_draft ctx []) [
  | none ↦ none
  | some ps ↦ some (record {
    out = out ++ picked_tokens ps;
    ret = length (out ++ picked_tokens ps);
    info = majority_info out ps;
  })
]

abbrev pub majority_mode : K3NgramDraftConfig → Bool
majority_mode cfg = ltb 0 cfg.majority_num && ltb 0 cfg.majority_den

-- `none` is undefined behaviour: the majority arm read the first of no counts.
unfoldable pub kimi_k3_ngram_draft :
    List Token → ℕ → K3NgramDraftConfig → List Token → Option Proposal
unfolding span_draft majority_draft
kimi_k3_ngram_draft ctx max_draft cfg out =
    if max_draft == 0 || length ctx == 0
    then some (nothing out)
    else (if majority_mode cfg
        then majority_draft ctx max_draft cfg out
        else span_draft ctx max_draft cfg out)

-- `draft_of` of the two gates: a fresh vector, and what was put into it.
unfoldable pub draft_of : List Token → ℕ → K3NgramDraftConfig → Option (List Token)
unfolding kimi_k3_ngram_draft
draft_of ctx max_draft cfg = elim (kimi_k3_ngram_draft ctx max_draft cfg []) [
  | none ↦ none
  | some p ↦ some p.out
]
