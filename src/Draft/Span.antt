-- ===== src/Draft/Span.antt =====
-- The two arms that copy one old span: the ungated scan of stage 4 and the gated scan.
use kimi_k3_neuron_tp3_dgxsp.Prelude.{
  ℕ, zero, suc, ◌+◌, ◌-◌, min, Bool, true, not, ◌&&◌, ◌||◌, List, length, leb, ltb, ◌==◌,
  if◌then◌else◌,
}
use kimi_k3_neuron_tp3_dgxsp.Prelude.Int.{pos, ◌==ℤ◌}
use kimi_k3_neuron_tp3_dgxsp.Draft.Config.{
  Token, K3NgramDraftConfig, Match, Outcome, decline, found, no_info,
}
use kimi_k3_neuron_tp3_dgxsp.Draft.Window.{hit, emit, emitted, successor}

-- `for (s = len - n - 1; s >= 0; --s)`, with s + 1 as the argument.
unfoldable pub scan_recent : List Token → ℕ → ℕ → ℕ → Outcome Match
scan_recent ctx max_draft n zero = decline
scan_recent ctx max_draft n (suc s) =
    let rest = scan_recent ctx max_draft n s in
    let tokens = emit ctx s n max_draft in
    let d = emitted ctx s n max_draft in
    if hit ctx n s && ltb 0 d
    then found
        (record { tokens = tokens; drafted = d; info = record no_info { n = n; occurrences = 1 } })
    else rest

unfoldable pub ungated : List Token → ℕ → ℕ → Outcome Match
unfolding scan_recent hit emit emitted
ungated ctx max_draft n = scan_recent ctx max_draft n (length ctx - n)

-- The locals of the counting scan. `first` is read only where `cnt` is not 0.
pub record Tally : Type 0 where
  pub first : ℕ
  pub cnt : ℕ
  pub agree : Bool
  pub cont0 : Token

abbrev pub no_tally : Tally
no_tally = record { first = 0; cnt = 0; agree = true; cont0 = pos 0 }

-- One occurrence at s, continued by c.
unfoldable pub note : ℕ → Token → Tally → Tally
note s c t =
    if t.cnt == 0
    then record t { first = s; cnt = 1; cont0 = c }
    else record t { agree = t.agree && (c ==ℤ t.cont0); cnt = t.cnt + 1 }

unfoldable pub tally : List Token → ℕ → ℕ → Tally → Tally
unfolding note
tally ctx n zero t = t
tally ctx n (suc s) t = tally ctx n s (if hit ctx n s then note s (successor ctx n s) t else t)

-- What follows the count: the confidence bar, the width cap, and the emission.
unfoldable pub admit : List Token → ℕ → K3NgramDraftConfig → ℕ → Tally → Outcome Match
admit ctx max_draft cfg n t =
    let strong = leb cfg.min_occurrences t.cnt && (not cfg.require_agreement || t.agree) in
    let cap = if strong then max_draft else min cfg.weak_max_draft max_draft in
    let tokens = emit ctx t.first n cap in
    let d = emitted ctx t.first n cap in
    if t.cnt == 0
    then decline
    else (if not strong && (cfg.weak_max_draft == 0)
        then decline
        else (if ltb 0 d
            then found (record {
              tokens = tokens;
              drafted = d;
              info = record { n = n; occurrences = t.cnt; agreed = t.agree; weak = not strong };
            })
            else decline))

unfoldable pub gated : List Token → ℕ → K3NgramDraftConfig → ℕ → Outcome Match
unfolding tally admit hit emit emitted successor
gated ctx max_draft cfg n = admit ctx max_draft cfg n (tally ctx n (length ctx - n) no_tally)

-- `cfg.min_occurrences > 1 || cfg.require_agreement || cfg.weak_max_draft > 0`
abbrev pub gating : K3NgramDraftConfig → Bool
gating cfg = ltb 1 cfg.min_occurrences || cfg.require_agreement || ltb 0 cfg.weak_max_draft
