-- ===== src/Draft/Admitting.antt =====
-- The counting scan that admits every match finds what the ungated scan finds.
use kimi_k3_neuron_tp3_dgxsp.Prelude.{
  ℕ, zero, suc, ◌+◌, ◌-◌, ◌≤◌, ◌<◌, ◌≡◌, refl, ◌∙◌, false, List, [], ◌∷◌, ltb, length, take, drop,
  arith, inl, inr, Bool-cases, length-take, length-drop,
}
use kimi_k3_neuron_tp3_dgxsp.Draft.Config.{
  Token, K3NgramDraftConfig, Match, Outcome, fault, decline, found,
}
use kimi_k3_neuron_tp3_dgxsp.Draft.Window.{hit, emit, emitted_from, emitted, successor}
use kimi_k3_neuron_tp3_dgxsp.Draft.Span.{
  scan_recent, ungated, Tally, no_tally, note, tally, admit, gated, gating,
}
use kimi_k3_neuron_tp3_dgxsp.Draft.Drafter.{span}

-- What a scan proposes, without what is logged about it.
abbrev pub tokens_of : Outcome Match → Outcome (List Token)
tokens_of fault = fault
tokens_of decline = decline
tokens_of (found m) = found m.tokens

pub length-emit :
    (ctx : List Token) (max_draft s n : ℕ)
    → 0 < max_draft
    → s + n < length ctx
    → 0 < length (take max_draft (drop (s + n) ctx))
length-emit ctx max_draft s n hm h =
    omega (arith, length-take max_draft (drop (s + n) ctx), length-drop (s + n) ctx)

emitted_from-length :
    (cap : ℕ) (rest : List Token) (d : ℕ)
    → d ≤ cap
    → emitted_from cap rest d ≡ d + length (take (cap - d) rest)
unfolding emitted_from
emitted_from-length cap [] d h =
    let none_left : List Token = [] in omega (arith, length-take (cap - d) none_left)
emitted_from-length cap (x ∷ rest) d h = elim (Bool-cases (ltb d cap)) [
  | inl more ↦
      let lt : suc d ≤ cap = ground (arith, more) in
      rw (more, emitted_from)
        (omega (
          arith,
          emitted_from-length cap rest (suc d) lt,
          length-take (cap - d) (x ∷ rest),
          length-take (cap - suc d) rest,
        ))
  | inr full ↦
      let e : cap - d ≡ 0 = ground (arith, full) in
      rw (full, emitted_from) (omega (arith, e, length-take (cap - d) (x ∷ rest)))
]

-- `emit` returns the number of tokens that it pushes.
pub emitted-length :
    (ctx : List Token) (s n cap : ℕ) → emitted ctx s n cap ≡ length (emit ctx s n cap)
unfolding emitted emit
emitted-length ctx s n cap =
    let rest = drop (s + n) ctx in
    omega (
      arith,
      emitted_from-length cap rest 0 (omega arith),
      length-take cap rest,
      length-take (cap - 0) rest,
    )

note_first :
    (s : ℕ) (c : Token) (t : Tally) → t.cnt ≡ 0 → ((note s c t).first ≡ s) × ((note s c t).cnt ≡ 1)
unfolding note
note_first s c t e = rw e (refl, refl)

note_later :
    (s : ℕ) (c : Token) (t : Tally)
    → 1 ≤ t.cnt
    → ((note s c t).first ≡ t.first) × ((note s c t).cnt ≡ t.cnt + 1)
unfolding note
note_later s c t h = ground arith

-- The first occurrence that is counted stays the one that is copied.
tally_keeps :
    (ctx : List Token) (n s : ℕ) (t : Tally)
    → 1 ≤ t.cnt
    → ((tally ctx n s t).first ≡ t.first) × (1 ≤ (tally ctx n s t).cnt)
unfolding tally note
tally_keeps ctx n zero t h = (refl, h)
tally_keeps ctx n (suc s) t h = elim (Bool-cases (hit ctx n s)) [
  | inl here ↦
      let (same, more) = note_later s (successor ctx n s) t h in
      let (first, counted) = tally_keeps ctx n s (note s (successor ctx n s) t) (omega arith) in
      rw (here, tally) (first ∙ same, counted)
  | inr on ↦ rw (on, tally) (tally_keeps ctx n s t h)
]

module _ (ctx : List Token) (max_draft : ℕ) (cfg : K3NgramDraftConfig) (n : ℕ) (hm : 0 < max_draft)
    (few : cfg.min_occurrences ≤ 1) (any : cfg.require_agreement ≡ false) where
  -- A count of one at least clears the bar.
  admit-counted :
      (t : Tally)
      → 1 ≤ t.cnt
      → t.first + n < length ctx
      → tokens_of (admit ctx max_draft cfg n t) ≡ found (emit ctx t.first n max_draft)
  unfolding admit emit
  admit-counted t h lt = rw any (
      ground
        (arith, length-emit ctx max_draft t.first n hm lt, emitted-length ctx t.first n max_draft))

  admit-tally :
      (s : ℕ) (t : Tally)
      → t.cnt ≡ 0
      → s + n ≤ length ctx
      → tokens_of (admit ctx max_draft cfg n (tally ctx n s t))
        ≡ tokens_of (scan_recent ctx max_draft n s)
  unfolding tally scan_recent
  admit-tally zero t e h = unfold admit in ground (arith, e)
  admit-tally (suc s) t e h = elim (Bool-cases (hit ctx n s)) [
    | inl here ↦
        let t' = note s (successor ctx n s) t in
        let (at, one) = note_first s (successor ctx n s) t e in
        let (first, counted) = tally_keeps ctx n s t' (omega arith) in
        let admitted = admit-counted (tally ctx n s t') counted (omega arith) in
        let long = length-emit ctx max_draft s n hm (omega arith) in
        rw (here, tally, admitted, first ∙ at)
          (unfold emit in ground (arith, long, here, emitted-length ctx s n max_draft))
    | inr on ↦ rw (on, tally) (admit-tally s t e (omega arith))
  ]

  pub span-eq-ungated :
      n ≤ length ctx → tokens_of (span ctx max_draft cfg n) ≡ tokens_of (ungated ctx max_draft n)
  unfolding span gated ungated
  span-eq-ungated h = elim (Bool-cases (gating cfg)) [
    | inl counting ↦ rw (counting, span) (admit-tally (length ctx - n) no_tally refl (omega arith))
    | inr off ↦ rw (off, span) refl
  ]
