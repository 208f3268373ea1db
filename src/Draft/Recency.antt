-- ===== src/Draft/Recency.antt =====
-- The ungated arm proposes what reference_draft proposes: the backward scan stops where the forward
-- scan of the gate ends.
use kimi_k3_neuron_tp3_dgxsp.Prelude.{
  ℕ, zero, suc, ◌+◌, ◌-◌, ◌≤◌, ◌<◌, min, ◌≡◌, ◌≢◌, refl, ap, ◌∙◌, Bool, true, false, ◌&&◌, ◌||◌,
  Option, none, some, List, [], length, take, drop, ◌==◌, if◌then◌else◌, arith, drop-get_elem?, inl,
  inr, Bool-cases,
}
use kimi_k3_neuron_tp3_dgxsp.Prelude.Int.{◌==ℤ◌}
use kimi_k3_neuron_tp3_dgxsp.Draft.Config.{
  Token, K3NgramDraftConfig, Match, Outcome, fault, decline, found, first_down,
}
use kimi_k3_neuron_tp3_dgxsp.Draft.Down.{first_down-ne-fault}
use kimi_k3_neuron_tp3_dgxsp.Draft.Window.{memcmp_eq, hit, emit}
use kimi_k3_neuron_tp3_dgxsp.Draft.Span.{scan_recent, ungated}
use kimi_k3_neuron_tp3_dgxsp.Draft.Majority.{n_lo}
use kimi_k3_neuron_tp3_dgxsp.Draft.Admitting.{
  tokens_of, length-emit, emitted-length, span-eq-ungated,
}
use kimi_k3_neuron_tp3_dgxsp.Draft.Drafter.{
  Proposal, nothing, span, span_down, draft_of, majority_mode,
}
use kimi_k3_neuron_tp3_dgxsp.Draft.Reference.{
  agrees, last_hit, propose, reference_at, reference_draft,
}

if-else-false : (a b : Bool) → (if a then b else false) ≡ (a && b)
if-else-false true b = refl
if-else-false false b = refl

-- The token by token comparison is the comparison of the windows.
agrees-eq-memcmp_eq :
    (ctx : List Token) (r s p : ℕ)
    → s + r ≤ length ctx
    → p + r ≤ length ctx
    → agrees ctx r s p ≡ memcmp_eq (take r (drop s ctx)) (take r (drop p ctx))
unfolding agrees memcmp_eq
agrees-eq-memcmp_eq ctx zero s p hs hp = refl
agrees-eq-memcmp_eq ctx (suc r) s p hs hp =
    let (x, at_s, from_s) = drop-get_elem? s ctx (omega arith) in
    let (y, at_p, from_p) = drop-get_elem? p ctx (omega arith) in
    rw
      (
        at_s,
        at_p,
        from_s,
        from_p,
        agrees-eq-memcmp_eq ctx r (suc s) (suc p) (omega arith) (omega arith),
      )
      (if-else-false (x ==ℤ y) (memcmp_eq (take r (drop (suc s) ctx)) (take r (drop (suc p) ctx))))

agrees-eq-hit :
    (ctx : List Token) (n s : ℕ)
    → s + n < length ctx
    → agrees ctx n s (length ctx - n) ≡ hit ctx n s
unfolding hit
agrees-eq-hit ctx n s h = agrees-eq-memcmp_eq ctx n s (length ctx - n) (omega arith) (omega arith)

-- The greatest position below lo + r, from lo on, that passes a test.
search_back : (ℕ → Bool) → ℕ → ℕ → Option ℕ
search_back p lo zero = none
search_back p lo (suc r) =
    let rest = search_back p lo r in if p (lo + r) then some (lo + r) else rest

abbrev or_else : Option ℕ → Option ℕ → Option ℕ
or_else none d = d
or_else (some a) d = some a

search_back_peel :
    (p : ℕ → Bool) (lo r : ℕ)
    → search_back p lo (suc r) ≡ or_else (search_back p (suc lo) r) (if p lo then some lo else none)
unfolding search_back
search_back_peel p lo zero = let e : lo + 0 ≡ lo = omega arith in rw e refl
search_back_peel p lo (suc r) =
    let e : lo + suc r ≡ suc lo + r = omega arith in rw (e, search_back_peel p lo r) (ground arith)

search_back_ext :
    (p q : ℕ → Bool) (lo r : ℕ)
    → ((i : ℕ) → i < r → p (lo + i) ≡ q (lo + i))
    → search_back p lo r ≡ search_back q lo r
unfolding search_back
search_back_ext p q lo zero h = refl
search_back_ext p q lo (suc r) h =
    rw (h r (omega arith), search_back_ext p q lo r (λ i hi. h i (omega arith)))

-- The forward loop keeps the last hit, which the backward search meets first.
last_hit-eq-search_back :
    (ctx : List Token) (n r s : ℕ) (best : Option ℕ)
    → last_hit ctx n r s best
      ≡ or_else (search_back (λ i. agrees ctx n i (length ctx - n)) s r) best
unfolding last_hit
last_hit-eq-search_back ctx n zero s best = unfold search_back in refl
last_hit-eq-search_back ctx n (suc r) s best =
    rw
      (
        last_hit-eq-search_back ctx n r (suc s)
            (if agrees ctx n s (length ctx - n) then some s else best),
        search_back_peel (λ i. agrees ctx n i (length ctx - n)) s r,
      )
      (ground arith)

scan_recent-eq-search_back :
    (ctx : List Token) (max_draft n r : ℕ)
    → 0 < max_draft
    → r + n ≤ length ctx
    → tokens_of (scan_recent ctx max_draft n r)
      ≡ propose ctx max_draft n (search_back (hit ctx n) 0 r)
unfolding scan_recent search_back propose emit
scan_recent-eq-search_back ctx max_draft n zero hm h = refl
scan_recent-eq-search_back ctx max_draft n (suc r) hm h = ground (
  arith,
  length-emit ctx max_draft r n,
  emitted-length ctx r n max_draft,
  scan_recent-eq-search_back ctx max_draft n r,
)

ungated-eq-reference_at :
    (ctx : List Token) (max_draft n : ℕ)
    → 0 < max_draft
    → n ≤ length ctx
    → tokens_of (ungated ctx max_draft n) ≡ reference_at ctx max_draft n
unfolding ungated reference_at
ungated-eq-reference_at ctx max_draft n hm hn =
    rw
      (
        scan_recent-eq-search_back ctx max_draft n (length ctx - n) hm (omega arith),
        last_hit-eq-search_back ctx n (length ctx - n) 0 none,
        search_back_ext (λ i. agrees ctx n i (length ctx - n)) (hit ctx n) 0 (length ctx - n)
            (λ i hi. agrees-eq-hit ctx n (0 + i) (omega arith)),
      )
      (or_else-none _)
  where
    or_else-none :
        (o : Option ℕ) → propose ctx max_draft n o ≡ propose ctx max_draft n (or_else o none)
    or_else-none none = refl
    or_else-none (some a) = refl

-- Two downward loops whose bodies agree give the same result.
first_down_map :
    (f : ℕ → Outcome Match) (g : ℕ → Outcome (List Token)) (lo n : ℕ)
    → 1 ≤ lo
    → ((k : ℕ) → k ≤ n → tokens_of (f k) ≡ g k)
    → tokens_of (first_down f lo n) ≡ first_down g lo n
unfolding first_down
first_down_map f g lo zero hl h = ground arith
first_down_map f g lo (suc n) hl h =
    ground (arith, h (suc n), first_down_map f g lo n hl (λ k hk. h k (omega arith)))

n_lo-eq-n_min : (cfg : K3NgramDraftConfig) → 1 ≤ cfg.n_min → n_lo cfg ≡ cfg.n_min
n_lo-eq-n_min cfg low = ground arith

span_down-eq-first_down :
    (ctx : List Token) (max_draft : ℕ) (cfg : K3NgramDraftConfig)
    → 0 < max_draft
    → cfg.min_occurrences ≤ 1
    → cfg.require_agreement ≡ false
    → 1 ≤ cfg.n_min
    → tokens_of (span_down ctx max_draft cfg)
      ≡ first_down (reference_at ctx max_draft) cfg.n_min (min cfg.n_max (length ctx))
span_down-eq-first_down ctx max_draft cfg hm few any low =
    unfold span_down in
    rw (n_lo-eq-n_min cfg low) (
      first_down_map (span ctx max_draft cfg) (reference_at ctx max_draft) cfg.n_min
        (min cfg.n_max (length ctx)) low
        λ k hk.
          span-eq-ungated ctx max_draft cfg k hm few any (omega arith)
          ∙ ungated-eq-reference_at ctx max_draft k hm (omega arith))

-- The last step of both routines: from the scan to the tokens.
abbrev proposal_of : Outcome Match → Option Proposal
proposal_of fault = none
proposal_of decline = some (nothing [])
proposal_of (found m) = some (record { out = m.tokens; ret = m.drafted; info = m.info })

abbrev kept : Outcome (List Token) → List Token
kept fault = []
kept decline = []
kept (found ts) = ts

abbrev out_of : Option Proposal → Option (List Token)
out_of none = none
out_of (some p) = some p.out

out_of-proposal_of :
    (o : Outcome Match) → tokens_of o ≢ fault → out_of (proposal_of o) ≡ some (kept (tokens_of o))
out_of-proposal_of fault h = absurd (h refl)
out_of-proposal_of decline h = refl
out_of-proposal_of (found m) h = refl

propose-ne-fault :
    (ctx : List Token) (max_draft n : ℕ) (o : Option ℕ) → propose ctx max_draft n o ≢ fault
unfolding propose
propose-ne-fault ctx max_draft n o = ground arith

reference_at-ne-fault : (ctx : List Token) (max_draft n : ℕ) → reference_at ctx max_draft n ≢ fault
unfolding reference_at
reference_at-ne-fault ctx max_draft n = propose-ne-fault ctx max_draft n _

-- With the majority mode off, n_min at least 1, and a bar that one occurrence clears, the drafter
-- returns, and what it proposes is what reference_draft proposes, for every history, budget and tail
-- lengths, whether the scan stops early or counts (a cap for weak matches makes it count).
pub draft_of-eq-reference_draft :
    (ctx : List Token) (max_draft : ℕ) (cfg : K3NgramDraftConfig)
    → majority_mode cfg ≡ false
    → cfg.min_occurrences ≤ 1
    → cfg.require_agreement ≡ false
    → 1 ≤ cfg.n_min
    → draft_of ctx max_draft cfg ≡ some (reference_draft ctx max_draft cfg)
unfolding draft_of reference_draft
draft_of-eq-reference_draft ctx max_draft cfg off few any low =
    elim (Bool-cases (max_draft == 0 || length ctx == 0)) [
      | inl stop ↦ rw (stop, draft_of, reference_draft) refl
      | inr go ↦
          let same = span_down-eq-first_down ctx max_draft cfg (ground arith) few any low in
          let safe =
            first_down-ne-fault (reference_at ctx max_draft) cfg.n_min (min cfg.n_max (length ctx))
              (λ k hl hk. reference_at-ne-fault ctx max_draft k) in
          rw (go, off, draft_of, reference_draft)
            (out_of-proposal_of (span_down ctx max_draft cfg) (rw same safe)
              ∙ ap (λ o. some (kept o)) same)
    ]
