-- ===== src/Draft/Bounds.antt =====
-- The drafter returns whenever an occurrence is asked for, and keeps to its budget.
use kimi_k3_neuron_tp3_dgxsp.Prelude.{
  ℕ, zero, suc, ◌+◌, ◌-◌, ◌≤◌, ◌<◌, min, ◌≡◌, ◌≢◌, refl, sym, ap, ◌&&◌, ◌||◌, Option, some, List,
  [], ◌∷◌, ◌++◌, length, drop, ltb, ◌==◌, if◌then◌else◌, arith, length-take, length-append,
  append-nil, inl, inr, Bool-cases,
}
use kimi_k3_neuron_tp3_dgxsp.Prelude.Int.{◌==ℤ◌}
use kimi_k3_neuron_tp3_dgxsp.Draft.Config.{
  Token, K3NgramDraftConfig, Match, Outcome, fault, decline, found,
}
use kimi_k3_neuron_tp3_dgxsp.Draft.Window.{hit, emit, emitted, successor}
use kimi_k3_neuron_tp3_dgxsp.Draft.Span.{scan_recent, Tally, no_tally, tally, admit, gating}
use kimi_k3_neuron_tp3_dgxsp.Draft.Majority.{Votes, cast, poll, Pick, pick, n_lo, pick_down, picks}
use kimi_k3_neuron_tp3_dgxsp.Draft.Drafter.{
  Proposal, nothing, span, span_down, span_draft, picked_tokens, majority_info, majority_draft,
  majority_mode, kimi_k3_ngram_draft,
}
use kimi_k3_neuron_tp3_dgxsp.Draft.Admitting.{emitted-length}
use kimi_k3_neuron_tp3_dgxsp.Draft.Down.{first_down-ne-fault, first_down_result, Outcome-cases}

pub length-emit-le : (ctx : List Token) (s n cap : ℕ) → length (emit ctx s n cap) ≤ cap
unfolding emit
length-emit-le ctx s n cap = omega (arith, length-take cap (drop (s + n) ctx))

-- A span arm does not fault, and what it finds is not empty and within the budget.
abbrev IsFair : ℕ → Outcome Match → Type 0
IsFair max_draft fault = ⊥
IsFair max_draft decline = Unit
IsFair max_draft (found m) =
    (0 < m.drafted) × (m.drafted ≡ length m.tokens) × (length m.tokens ≤ max_draft)

scan_recent-IsFair :
    (ctx : List Token) (max_draft n s : ℕ) → IsFair max_draft (scan_recent ctx max_draft n s)
unfolding scan_recent
scan_recent-IsFair ctx max_draft n zero = tt
scan_recent-IsFair ctx max_draft n (suc s) =
    elim (Bool-cases (hit ctx n s && ltb 0 (emitted ctx s n max_draft))) [
      | inl here ↦
          rw (here, scan_recent)
            (
              ground (arith, here),
              emitted-length ctx s n max_draft,
              length-emit-le ctx s n max_draft,
            )
      | inr on ↦ rw (on, scan_recent) (scan_recent-IsFair ctx max_draft n s)
    ]

admit-IsFair :
    (ctx : List Token) (max_draft : ℕ) (cfg : K3NgramDraftConfig) (n : ℕ) (t : Tally)
    → IsFair max_draft (admit ctx max_draft cfg n t)
unfolding admit
admit-IsFair ctx max_draft cfg n t = ground (
  arith,
  emitted-length ctx t.first n max_draft,
  emitted-length ctx t.first n (min cfg.weak_max_draft max_draft),
  length-emit-le ctx t.first n max_draft,
  length-emit-le ctx t.first n (min cfg.weak_max_draft max_draft),
)

span-IsFair :
    (ctx : List Token) (max_draft : ℕ) (cfg : K3NgramDraftConfig) (n : ℕ)
    → IsFair max_draft (span ctx max_draft cfg n)
unfolding span
span-IsFair ctx max_draft cfg n = elim (Bool-cases (gating cfg)) [
  | inl shut ↦
      rw (shut, span) (admit-IsFair ctx max_draft cfg n (tally ctx n (length ctx - n) no_tally))
  | inr open_arm ↦ rw (open_arm, span) (scan_recent-IsFair ctx max_draft n (length ctx - n))
]

IsFair-ne-fault : (max_draft : ℕ) (o : Outcome Match) → IsFair max_draft o → o ≢ fault
IsFair-ne-fault max_draft fault h e = h
IsFair-ne-fault max_draft decline h e = cc
IsFair-ne-fault max_draft (found m) h e = cc

IsFair-of-found :
    (max_draft : ℕ) (o : Outcome Match) {m : Match}
    → IsFair max_draft o
    → o ≡ found m
    → (0 < m.drafted) × (m.drafted ≡ length m.tokens) × (length m.tokens ≤ max_draft)
IsFair-of-found max_draft fault h e = absurd h
IsFair-of-found max_draft decline h e = absurd (cc e)
IsFair-of-found max_draft (found m') h e = ground arith

-- What a call of the drafter gives: the old contents, then at most `max_draft` tokens.
pub record Keeps (max_draft : ℕ) (out : List Token) (p : Proposal) : Type 0 where
  pub proposed : List Token
  pub appended : p.out ≡ out ++ proposed
  pub within : length proposed ≤ max_draft

abbrev Gives : ℕ → List Token → Option Proposal → Type 0
Gives max_draft out o = (p : Proposal) × (o ≡ some p) × Keeps max_draft out p

nothing-Gives : (max_draft : ℕ) (out : List Token) → Gives max_draft out (some (nothing out))
nothing-Gives max_draft out = (
  nothing out,
  refl,
  record { proposed = []; appended = sym (append-nil out); within = omega arith },
)

-- The count that a match of a span arm returns is that of the tokens that it pushes.
pub drafted-eq-length :
    (ctx : List Token) (max_draft : ℕ) (cfg : K3NgramDraftConfig) (m : Match)
    → span_down ctx max_draft cfg ≡ found m
    → m.drafted ≡ length m.tokens
unfolding span_down
drafted-eq-length ctx max_draft cfg m got =
    let body = span ctx max_draft cfg in
    let (k, _, _, at_k) = first_down_result body (n_lo cfg) (min cfg.n_max (length ctx)) got in
    (IsFair-of-found max_draft (body k) (span-IsFair ctx max_draft cfg k) at_k).1

span_draft-Gives :
    (ctx : List Token) (max_draft : ℕ) (cfg : K3NgramDraftConfig) (out : List Token)
    → Gives max_draft out (span_draft ctx max_draft cfg out)
unfolding span_draft span_down
span_draft-Gives ctx max_draft cfg out =
    let body = span ctx max_draft cfg in
    let hi = min cfg.n_max (length ctx) in
    elim (Outcome-cases (span_down ctx max_draft cfg)) [
      | inl faulty ↦ absurd (
          first_down-ne-fault body (n_lo cfg) hi
            (λ k hl hk. IsFair-ne-fault max_draft (body k) (span-IsFair ctx max_draft cfg k))
            faulty)
      | inr (inl declined) ↦ rw (declined, span_draft) (nothing-Gives max_draft out)
      | inr (inr (m, got)) ↦
          let (k, hl, hk, at_k) = first_down_result body (n_lo cfg) hi got in
          let fair = IsFair-of-found max_draft (body k) (span-IsFair ctx max_draft cfg k) at_k in
          (
            record { out = out ++ m.tokens; ret = m.drafted; info = m.info },
            rw (got, span_draft) refl,
            record { proposed = m.tokens; appended = refl; within = fair.2 },
          )
    ]

cast-ne-nil : (tok : Token) (vs : Votes) → cast tok vs ≢ []
unfolding cast
cast-ne-nil tok [] e = cc e
cast-ne-nil tok ((t, c) ∷ vs) e = elim (Bool-cases (t ==ℤ tok)) [
  | inl same ↦ cc (rw (same, cast) at e)
  | inr other ↦ cc (rw (other, cast) at e)
]

-- Votes were cast where occurrences were counted.
poll_counted :
    (work : List Token) (n r s : ℕ) (v : Votes × ℕ)
    → (v.0 ≡ [] → v.1 ≡ 0)
    → (poll work n r s v).0 ≡ []
    → (poll work n r s v).1 ≡ 0
unfolding poll
poll_counted work n zero s v h = h
poll_counted work n (suc r) s v h =
    poll_counted work n r (suc s)
      (if hit work n s then (cast (successor work n s) v.0, suc v.1) else v)
      (ground (arith, h, cast-ne-nil (successor work n s) v.0))

-- With at least one occurrence asked for, the election reads the first of at least one count.
pick-ne-fault :
    (work : List Token) (cfg : K3NgramDraftConfig) (n : ℕ)
    → 1 ≤ cfg.min_occurrences
    → pick work cfg n ≢ fault
unfolding pick
pick-ne-fault work cfg n h =
    ground (arith, poll_counted work n (length work - n) 0 ([], 0) (λ e. refl))

picks_total :
    (cfg : K3NgramDraftConfig)
    → 1 ≤ cfg.min_occurrences
    → (k : ℕ) (work : List Token) (ps : List Pick)
    → (qs : List Pick) × (picks cfg k work ps ≡ some qs) × (length qs ≤ length ps + k)
unfolding picks pick_down
picks_total cfg h zero work ps = (ps, refl, omega arith)
picks_total cfg h (suc k) work ps = elim (Outcome-cases (pick_down work cfg)) [
  | inl faulty ↦ absurd (
      first_down-ne-fault (pick work cfg) (n_lo cfg) (min cfg.n_max (length work))
        (λ n hl hk. pick-ne-fault work cfg n h) faulty)
  | inr (inl declined) ↦ (ps, rw (declined, picks) refl, omega arith)
  | inr (inr (p, got)) ↦
      let (qs, runs, le) = picks_total cfg h k (work ++ p.picked ∷ []) (ps ++ p ∷ []) in
      (qs, rw (got, picks) runs, omega (arith, le, length-append ps (p ∷ [])))
]

length-picked_tokens : (ps : List Pick) → length (picked_tokens ps) ≡ length ps
unfolding picked_tokens
length-picked_tokens [] = refl
length-picked_tokens (p ∷ ps) = ap suc (length-picked_tokens ps)

majority_draft-Gives :
    (ctx : List Token) (max_draft : ℕ) (cfg : K3NgramDraftConfig) (out : List Token)
    → 1 ≤ cfg.min_occurrences
    → Gives max_draft out (majority_draft ctx max_draft cfg out)
unfolding majority_draft
majority_draft-Gives ctx max_draft cfg out h =
    let (qs, runs, le) = picks_total cfg h max_draft ctx [] in
    (
      record {
        out = out ++ picked_tokens qs;
        ret = length (out ++ picked_tokens qs);
        info = majority_info out qs;
      },
      rw (runs, majority_draft) refl,
      record {
        proposed = picked_tokens qs;
        appended = refl;
        within = omega (arith, le, length-picked_tokens qs);
      },
    )

-- Whatever the arm: if at least one occurrence is asked for, the drafter returns; it leaves the
-- tokens that `out` held in place and appends at most `max_draft` to them.
pub kimi_k3_ngram_draft-Keeps :
    (ctx : List Token) (max_draft : ℕ) (cfg : K3NgramDraftConfig) (out : List Token)
    → 1 ≤ cfg.min_occurrences
    → (p : Proposal) × (kimi_k3_ngram_draft ctx max_draft cfg out ≡ some p) × Keeps max_draft out p
unfolding kimi_k3_ngram_draft
kimi_k3_ngram_draft-Keeps ctx max_draft cfg out h =
    elim (Bool-cases (max_draft == 0 || length ctx == 0)) [
      | inl stop ↦ rw (stop, kimi_k3_ngram_draft) (nothing-Gives max_draft out)
      | inr go ↦ elim (Bool-cases (majority_mode cfg)) [
        | inl on ↦ rw (go, on, kimi_k3_ngram_draft) (majority_draft-Gives ctx max_draft cfg out h)
        | inr off ↦ rw (go, off, kimi_k3_ngram_draft) (span_draft-Gives ctx max_draft cfg out)
      ]
    ]
