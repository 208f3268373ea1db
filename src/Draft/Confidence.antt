-- ===== src/Draft/Confidence.antt =====
-- What the counting scan reports of a match, and what its confidence bar lets through.
use kimi_k3_neuron_tp3_dgxsp.Prelude.{
  ℕ, zero, suc, ◌+◌, ◌-◌, ◌≤◌, ◌<◌, ◌≡◌, refl, sym, ap, ◌∙◌, Bool, true, false, not, ◌&&◌, ◌||◌,
  List, length, min, leb, ◌==◌, arith, inl, inr, Bool-cases, ==_iff, if◌then◌else◌,
}
use mathlib.Core.Path.{subst}
use native.Mathlib.Nat.{zero-add}
use kimi_k3_neuron_tp3_dgxsp.Prelude.Int.{==ℤ_iff}
use kimi_k3_neuron_tp3_dgxsp.Draft.Config.{Token, K3NgramDraftConfig, Match, found}
use kimi_k3_neuron_tp3_dgxsp.Draft.Window.{hit, successor}
use kimi_k3_neuron_tp3_dgxsp.Draft.Span.{Tally, no_tally, note, tally, admit, gated, gating}
use kimi_k3_neuron_tp3_dgxsp.Draft.Majority.{n_lo}
use kimi_k3_neuron_tp3_dgxsp.Draft.Drafter.{span, span_down}
use kimi_k3_neuron_tp3_dgxsp.Draft.Down.{first_down_result}
use kimi_k3_neuron_tp3_dgxsp.Draft.Ballot.{counted}
use kimi_k3_neuron_tp3_dgxsp.Draft.Bounds.{length-emit-le}

-- Two occurrences of the tail of length n were followed by one token.
abbrev pub Alike : List Token → ℕ → Type 0
Alike ctx n =
    (i j : ℕ)
    → i < length ctx - n
    → j < length ctx - n
    → hit ctx n i ≡ true
    → hit ctx n j ≡ true
    → successor ctx n i ≡ successor ctx n j

-- A match of the counting scan: it reports the occurrences that there are; where it reports agreement
-- they were all followed by one token; if it is not weak it has cleared the bar, and if it is weak it
-- keeps to the cap.
pub record IsConfident (ctx : List Token) (cfg : K3NgramDraftConfig) (n : ℕ) (m : Match)
    : Type 0 where
  pub tail : m.info.n ≡ n
  pub occurrences : m.info.occurrences ≡ counted (hit ctx n) (length ctx - n) 0
  pub alike : m.info.agreed ≡ true → Alike ctx n
  pub often : m.info.weak ≡ false → cfg.min_occurrences ≤ m.info.occurrences
  pub agreed : m.info.weak ≡ false → cfg.require_agreement ≡ true → m.info.agreed ≡ true
  pub capped : m.info.weak ≡ true → length m.tokens ≤ cfg.weak_max_draft

counted-suc :
    (test : ℕ → Bool) (r s : ℕ)
    → counted test (suc r) s ≡ counted test r s + (if test (s + r) then 1 else 0)
counted-suc test zero s = let z : s + 0 ≡ s = omega arith in rw z (omega arith)
counted-suc test (suc r) s =
    let z : suc s + r ≡ s + suc r = omega arith in
    omega (arith, rw z at (counted-suc test r (suc s)))

tally-cnt :
    (ctx : List Token) (n s : ℕ) (t : Tally)
    → (tally ctx n s t).cnt ≡ t.cnt + counted (hit ctx n) s 0
unfolding tally note
tally-cnt ctx n zero t = omega arith
tally-cnt ctx n (suc s) t =
    let last = rw (zero-add s) at (counted-suc (hit ctx n) s 0) in
    let later = tally-cnt ctx n s (if hit ctx n s then note s (successor ctx n s) t else t) in
    ground (arith, last, later)

-- The occurrences from s on have been counted, and as long as they agree they continue with cont0.
abbrev Agreeing : List Token → ℕ → ℕ → Tally → Type 0
Agreeing ctx n s t =
    t.agree ≡ true
    → (i : ℕ) → s ≤ i
    → i < length ctx - n
    → hit ctx n i ≡ true
    → (1 ≤ t.cnt) × (successor ctx n i ≡ t.cont0)

note-Agreeing :
    (ctx : List Token) (n s : ℕ) (t : Tally)
    → Agreeing ctx n (suc s) t
    → Agreeing ctx n s (note s (successor ctx n s) t)
unfolding note
note-Agreeing ctx n s t h agree i lo hi at_i = elim (Bool-cases (s == i)) [
  | inl same ↦
      let e = (==_iff s i).0 same in
      subst
        (λ i.
          (1 ≤ (note s (successor ctx n s) t).cnt)
          × (successor ctx n i ≡ (note s (successor ctx n s) t).cont0))
        e (ground (arith, agree, (==ℤ_iff (successor ctx n s) t.cont0).0))
  | inr other ↦
      let old = λ (a : t.agree ≡ true). h a i (ground (arith, other)) hi at_i in
      ground (arith, agree, old)
]

tally-Agreeing :
    (ctx : List Token) (n s : ℕ) (t : Tally)
    → Agreeing ctx n s t
    → Agreeing ctx n 0 (tally ctx n s t)
unfolding tally
tally-Agreeing ctx n zero t h = h
tally-Agreeing ctx n (suc s) t h = elim (Bool-cases (hit ctx n s)) [
  | inl here ↦
      rw (here, tally)
        (tally-Agreeing ctx n s (note s (successor ctx n s) t) (note-Agreeing ctx n s t h))
  | inr on ↦
      rw (on, tally)
        (tally-Agreeing ctx n s t (λ agree i lo hi at_i. h agree i (later i lo on at_i) hi at_i))
]
  where
    later : (i : ℕ) → s ≤ i → hit ctx n s ≡ false → hit ctx n i ≡ true → suc s ≤ i
    later i lo on at_i = elim (Bool-cases (s == i)) [
      | inl same ↦ let e = (==_iff s i).0 same in absurd (cc (sym (ap (hit ctx n) e) ∙ on, at_i))
      | inr other ↦ ground (arith, other)
    ]

admit-IsConfident :
    (ctx : List Token) (max_draft : ℕ) (cfg : K3NgramDraftConfig) (n : ℕ) (t : Tally) (m : Match)
    → admit ctx max_draft cfg n t ≡ found m
    → (m.info.n ≡ n)
      × (m.info.occurrences ≡ t.cnt)
      × (m.info.agreed ≡ t.agree)
      × (m.info.weak
          ≡ not (leb cfg.min_occurrences t.cnt && (not cfg.require_agreement || t.agree)))
      × (m.info.weak ≡ true → length m.tokens ≤ cfg.weak_max_draft)
unfolding admit
admit-IsConfident ctx max_draft cfg n t m e =
    ground (arith, e, length-emit-le ctx t.first n (min cfg.weak_max_draft max_draft))

gated-IsConfident :
    (ctx : List Token) (max_draft : ℕ) (cfg : K3NgramDraftConfig) (n : ℕ) (m : Match)
    → gated ctx max_draft cfg n ≡ found m
    → IsConfident ctx cfg n m
unfolding gated
gated-IsConfident ctx max_draft cfg n m e =
    let r = length ctx - n in
    let t = tally ctx n r no_tally in
    let (tail, occ, agreed, weak, capped) = admit-IsConfident ctx max_draft cfg n t m e in
    let agreeing = tally-Agreeing ctx n r no_tally (λ a i lo hi at_i. absurd (omega arith)) in
    record {
      tail = tail;
      occurrences = occ ∙ tally-cnt ctx n r no_tally ∙ zero-add _;
      alike = λ a i j hi hj at_i at_j.
          (agreeing (sym agreed ∙ a) i (omega arith) hi at_i).1
          ∙ sym (agreeing (sym agreed ∙ a) j (omega arith) hj at_j).1;
      often = λ w. ground (arith, w, weak, occ);
      agreed = λ w required. ground (arith, w, weak, required, agreed);
      capped = capped;
    }

-- With gating on, what the drafter copies is a match of a tail length of the configured range: it
-- reports the occurrences that there are, it reports agreement only where every occurrence was
-- followed by the same token, it clears the bar unless it is weak, and a weak one keeps to the cap.
pub span_down-IsConfident :
    (ctx : List Token) (max_draft : ℕ) (cfg : K3NgramDraftConfig) (m : Match)
    → gating cfg ≡ true
    → span_down ctx max_draft cfg ≡ found m
    → (n : ℕ) × (n_lo cfg ≤ n) × (n ≤ min cfg.n_max (length ctx)) × IsConfident ctx cfg n m
unfolding span_down
span_down-IsConfident ctx max_draft cfg m counting e =
    let (n, lo, hi, at_n) =
      first_down_result (span ctx max_draft cfg) (n_lo cfg) (min cfg.n_max (length ctx)) e in
    (n, lo, hi, gated-IsConfident ctx max_draft cfg n m (sym (span_counts n) ∙ at_n))
  where
    span_counts : (n : ℕ) → span ctx max_draft cfg n ≡ gated ctx max_draft cfg n
    span_counts n = unfold span in rw counting refl
