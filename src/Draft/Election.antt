-- ===== src/Draft/Election.antt =====
-- What the majority arm picks.
use kimi_k3_neuron_tp3_dgxsp.Prelude.{
  ℕ, ◌-◌, ◌*◌, ◌≤◌, ◌≡◌, refl, sym, ◌∙◌, some, List, [], length, min, ltb, arith, inl, inr,
  Bool-cases, Option-cases,
}
use native.Mathlib.Nat.{zero-add}
use mathlib.Core.Path.{subst}
use kimi_k3_neuron_tp3_dgxsp.Draft.Config.{Token, K3NgramDraftConfig, found}
use kimi_k3_neuron_tp3_dgxsp.Draft.Window.{hit}
use kimi_k3_neuron_tp3_dgxsp.Draft.Majority.{
  Votes, poll, leader, Pick, elect, pick, n_lo, pick_down,
}
use kimi_k3_neuron_tp3_dgxsp.Draft.Down.{first_down_result}
use kimi_k3_neuron_tp3_dgxsp.Draft.Ballot.{
  counted, followed_by, poll-votes_of, poll-count, poll-Distinct, leader-wins,
}

-- Token x followed an earlier occurrence of the tail of length n so many times.
abbrev pub times : List Token → ℕ → Token → ℕ
times work n x = counted (followed_by work n x) (length work - n) 0

-- The pick of tail length n: what it reports is what there is in the history, no other token followed
-- the tail more often, and both bars are cleared.
pub record IsElected (work : List Token) (cfg : K3NgramDraftConfig) (n : ℕ) (p : Pick)
    : Type 0 where
  pub tail : p.picked_n ≡ n
  pub occurrences : p.picked_occ ≡ counted (hit work n) (length work - n) 0
  pub best : p.picked_best ≡ times work n p.picked
  pub most : (x : Token) → times work n x ≤ p.picked_best
  pub enough : cfg.min_occurrences ≤ p.picked_occ
  pub majority : p.picked_occ * cfg.majority_num ≤ p.picked_best * cfg.majority_den

-- The election inverted.
elect_result :
    (cfg : K3NgramDraftConfig) (n : ℕ) (v : Votes × ℕ) (p : Pick)
    → elect cfg n v ≡ found p
    → (leader v.0 ≡ some (p.picked, p.picked_best))
      × (p.picked_n ≡ n)
      × (p.picked_occ ≡ v.1)
      × (cfg.min_occurrences ≤ v.1)
      × (v.1 * cfg.majority_num ≤ p.picked_best * cfg.majority_den)
unfolding elect
elect_result cfg n v p e = elim (Bool-cases (ltb v.1 cfg.min_occurrences)) [
  | inl few ↦ absurd (cc (rw (few, elect) at e))
  | inr enough ↦ elim (Option-cases (leader v.0)) [
    | inl nobody ↦ absurd (cc (rw (enough, nobody, elect) at e))
    | inr (b, won) ↦ elim (Bool-cases (ltb (b.1 * cfg.majority_den) (v.1 * cfg.majority_num))) [
      | inl short ↦ absurd (cc (rw (enough, won, short, elect) at e))
      | inr wide ↦
          let same : record { picked = b.0; picked_n = n; picked_occ = v.1; picked_best = b.1 }
              ≡ p =
            cc (rw (enough, won, wide, elect) at e) in
          subst
            (λ (q : Pick).
              (leader v.0 ≡ some (q.picked, q.picked_best))
              × (q.picked_n ≡ n)
              × (q.picked_occ ≡ v.1)
              × (cfg.min_occurrences ≤ v.1)
              × (v.1 * cfg.majority_num ≤ q.picked_best * cfg.majority_den))
            same (won, refl, refl, ground (arith, enough), ground (arith, wide))
    ]
  ]
]

pick-IsElected :
    (work : List Token) (cfg : K3NgramDraftConfig) (n : ℕ) (p : Pick)
    → pick work cfg n ≡ found p
    → IsElected work cfg n p
unfolding pick
pick-IsElected work cfg n p e =
    let rounds = length work - n in
    let v = poll work n rounds 0 ([], 0) in
    let (lead, tail, occ, enough, majority) = elect_result cfg n v p e in
    let (own, most) =
      leader-wins v.0 (p.picked, p.picked_best) (poll-Distinct work n rounds 0 ([], 0) tt) lead in
    let votes =
      λ (x : Token). poll-votes_of work n x rounds 0 ([], 0) ∙ zero-add (times work n x) in
    record {
      tail = tail;
      occurrences = occ ∙ poll-count work n rounds 0 ([], 0) ∙ zero-add _;
      best = sym own ∙ votes p.picked;
      most = λ x. omega (arith, votes x, most x);
      enough = omega arith;
      majority = rw occ majority;
    }

-- Each pick of the majority arm: it comes from a tail length of the configured range, its counts are
-- those of the history, no token followed that tail more often than the picked one, and the bars on
-- the occurrences and on the share are cleared.
pub pick_down-IsElected :
    (work : List Token) (cfg : K3NgramDraftConfig) (p : Pick)
    → pick_down work cfg ≡ found p
    → (n : ℕ) × (n_lo cfg ≤ n) × (n ≤ min cfg.n_max (length work)) × IsElected work cfg n p
unfolding pick_down
pick_down-IsElected work cfg p e =
    let (n, lo, hi, at_n) =
      first_down_result (pick work cfg) (n_lo cfg) (min cfg.n_max (length work)) e in
    (n, lo, hi, pick-IsElected work cfg n p at_n)
