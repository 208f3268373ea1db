-- ===== src/Draft/Ballot.antt =====
-- The votes of the majority arm: what a poll counts, and what the leader is.
use kimi_k3_neuron_tp3_dgxsp.Prelude.{
  ℕ, zero, suc, ◌+◌, ◌≤◌, ◌≡◌, ◌⊎◌, inl, inr, refl, sym, ◌∙◌, Bool, true, false, ◌&&◌, some, List,
  [], ◌∷◌, All, ltb, if◌then◌else◌, arith, Bool-cases,
}
use mathlib.Core.Path.{subst}
use kimi_k3_neuron_tp3_dgxsp.Prelude.Int.{◌==ℤ◌, ==ℤ_iff, ==ℤ-refl}
use kimi_k3_neuron_tp3_dgxsp.Draft.Config.{Token}
use kimi_k3_neuron_tp3_dgxsp.Draft.Window.{hit, successor}
use kimi_k3_neuron_tp3_dgxsp.Draft.Majority.{Votes, cast, poll, lead, leader}

-- At how many of the positions s, …, s + r - 1 a test holds.
abbrev pub counted : (ℕ → Bool) → ℕ → ℕ → ℕ
counted test zero s = 0
counted test (suc r) s = (if test s then 1 else 0) + counted test r (suc s)

-- The tail occurs at i and x followed it.
abbrev pub followed_by : List Token → ℕ → Token → ℕ → Bool
followed_by work n x i = hit work n i && (successor work n i ==ℤ x)

abbrev pub votes_of : Token → Votes → ℕ
votes_of x [] = 0
votes_of x (v ∷ vs) = if v.0 ==ℤ x then v.1 else votes_of x vs

abbrev Absent : Token → Votes → Type 0
Absent t vs = All (λ e. (e.0 ==ℤ t) ≡ false) vs

-- No token has two entries.
abbrev pub Distinct : Votes → Type 0
Distinct [] = Unit
Distinct (v ∷ vs) = Absent v.0 vs × Distinct vs

abbrev In : Token × ℕ → Votes → Type 0
In e [] = ⊥
In e (v ∷ vs) = (e ≡ v) ⊎ In e vs

cast-votes_of :
    (tok x : Token) (vs : Votes)
    → votes_of x (cast tok vs) ≡ (if tok ==ℤ x then 1 else 0) + votes_of x vs
unfolding cast
cast-votes_of tok x [] = ground arith
cast-votes_of tok x ((t, c) ∷ vs) = elim (Bool-cases (t ==ℤ tok)) [
  | inl same ↦ let e : t ≡ tok = (==ℤ_iff t tok).0 same in rw (same, cast, e) (ground arith)
  | inr other ↦ rw (other, cast) (ground (arith, cast-votes_of tok x vs, apart))
]
  where
    apart : (t ==ℤ x) ≡ true → (tok ==ℤ x) ≡ true → (t ==ℤ tok) ≡ true
    apart a b = (==ℤ_iff t tok).1 ((==ℤ_iff t x).0 a ∙ sym ((==ℤ_iff tok x).0 b))

cast-Absent :
    (t tok : Token) (vs : Votes) → (tok ==ℤ t) ≡ false → Absent t vs → Absent t (cast tok vs)
unfolding cast
cast-Absent t tok [] h a = (h, tt)
cast-Absent t tok ((u, c) ∷ vs) h a = elim (Bool-cases (u ==ℤ tok)) [
  | inl same ↦ rw (same, cast) (a.0, a.1)
  | inr other ↦ rw (other, cast) (a.0, cast-Absent t tok vs h a.1)
]

==ℤ_false_sym : (a b : Token) → (a ==ℤ b) ≡ false → (b ==ℤ a) ≡ false
==ℤ_false_sym a b h = elim (Bool-cases (b ==ℤ a)) [
  | inl same ↦ absurd (cc (h, (==ℤ_iff a b).1 (sym ((==ℤ_iff b a).0 same))))
  | inr other ↦ other
]

cast-Distinct : (tok : Token) (vs : Votes) → Distinct vs → Distinct (cast tok vs)
unfolding cast
cast-Distinct tok [] d = (tt, tt)
cast-Distinct tok ((t, c) ∷ vs) d = elim (Bool-cases (t ==ℤ tok)) [
  | inl same ↦ rw (same, cast) (d.0, d.1)
  | inr other ↦
      rw (other, cast)
        (cast-Absent t tok vs (==ℤ_false_sym t tok other) d.0, cast-Distinct tok vs d.1)
]

-- A poll adds to each token's votes the occurrences that it followed.
pub poll-votes_of :
    (work : List Token) (n : ℕ) (x : Token) (r s : ℕ) (v : Votes × ℕ)
    → votes_of x (poll work n r s v).0 ≡ votes_of x v.0 + counted (followed_by work n x) r s
unfolding poll
poll-votes_of work n x zero s v = omega arith
poll-votes_of work n x (suc r) s v = elim (Bool-cases (hit work n s)) [
  | inl here ↦
      let cast_one = cast-votes_of (successor work n s) x v.0 in
      let later = poll-votes_of work n x r (suc s) (cast (successor work n s) v.0, suc v.1) in
      rw (here, poll) (ground (arith, cast_one, later))
  | inr on ↦ let later = poll-votes_of work n x r (suc s) v in rw (on, poll) (ground (arith, later))
]

pub poll-count :
    (work : List Token) (n r s : ℕ) (v : Votes × ℕ)
    → (poll work n r s v).1 ≡ v.1 + counted (hit work n) r s
unfolding poll
poll-count work n zero s v = omega arith
poll-count work n (suc r) s v = elim (Bool-cases (hit work n s)) [
  | inl here ↦
      let later = poll-count work n r (suc s) (cast (successor work n s) v.0, suc v.1) in
      rw (here, poll) (omega (arith, later))
  | inr on ↦ let later = poll-count work n r (suc s) v in rw (on, poll) (omega (arith, later))
]

pub poll-Distinct :
    (work : List Token) (n r s : ℕ) (v : Votes × ℕ) → Distinct v.0 → Distinct (poll work n r s v).0
unfolding poll
poll-Distinct work n zero s v d = d
poll-Distinct work n (suc r) s v d = elim (Bool-cases (hit work n s)) [
  | inl here ↦
      rw (here, poll)
        (poll-Distinct work n r (suc s) (cast (successor work n s) v.0, suc v.1)
          (cast-Distinct (successor work n s) v.0 d))
  | inr on ↦ rw (on, poll) (poll-Distinct work n r (suc s) v d)
]

lead_more : (b v : Token × ℕ) (vs : Votes) → ltb b.1 v.1 ≡ true → lead v vs ≡ lead b (v ∷ vs)
unfolding lead
lead_more b v vs more = rw (more, lead) refl

lead_kept : (b v : Token × ℕ) (vs : Votes) → ltb b.1 v.1 ≡ false → lead b vs ≡ lead b (v ∷ vs)
unfolding lead
lead_kept b v vs kept = rw (kept, lead) refl

lead-In : (b : Token × ℕ) (vs : Votes) → In (lead b vs) (b ∷ vs)
unfolding lead
lead-In b [] = inl refl
lead-In b (v ∷ vs) = elim (Bool-cases (ltb b.1 v.1)) [
  | inl more ↦ subst (λ m. In m (b ∷ v ∷ vs)) (lead_more b v vs more) (inr (lead-In v vs))
  | inr kept ↦
      subst (λ m. In m (b ∷ v ∷ vs)) (lead_kept b v vs kept)
        (elim (lead-In b vs) [ inl e ↦ inl e | inr later ↦ inr (inr later) ])
]

abbrev Below : ℕ → Votes → Type 0
Below m vs = All (λ e. e.1 ≤ m) vs

lead-Below : (b : Token × ℕ) (vs : Votes) → Below (lead b vs).1 (b ∷ vs)
unfolding lead
lead-Below b [] = (omega arith, tt)
lead-Below b (v ∷ vs) = elim (Bool-cases (ltb b.1 v.1)) [
  | inl more ↦
      let (first, others) = lead-Below v vs in
      let under : b.1 ≤ (lead v vs).1 = ground (arith, first, more) in
      subst (λ (m : Token × ℕ). Below m.1 (b ∷ v ∷ vs)) (lead_more b v vs more)
        (under, (first, others))
  | inr kept ↦
      let (first, others) = lead-Below b vs in
      let under : v.1 ≤ (lead b vs).1 = ground (arith, first, kept) in
      subst (λ (m : Token × ℕ). Below m.1 (b ∷ v ∷ vs)) (lead_kept b v vs kept)
        (first, (under, others))
]

pub votes_of-le : (x : Token) (m : ℕ) (vs : Votes) → All (λ e. e.1 ≤ m) vs → votes_of x vs ≤ m
votes_of-le x m [] all = omega arith
votes_of-le x m (v ∷ vs) all = ground (arith, all.0, votes_of-le x m vs all.1)

votes_of-In : (e : Token × ℕ) (vs : Votes) → Distinct vs → In e vs → votes_of e.0 vs ≡ e.1
votes_of-In e [] d h = absurd h
votes_of-In e (v ∷ vs) d (inl same) = rw (same, ==ℤ-refl v.0) refl
votes_of-In e (v ∷ vs) d (inr later) =
    rw (==ℤ_false_sym e.0 v.0 (missing vs d.0 later)) (votes_of-In e vs d.1 later)
  where
    missing : (vs : Votes) → Absent v.0 vs → In e vs → (e.0 ==ℤ v.0) ≡ false
    missing [] a h = absurd h
    missing (w ∷ ws) a (inl same) = rw same a.0
    missing (w ∷ ws) a (inr later) = missing ws a.1 later

-- The leader has the votes that its entry says, and no token has more.
pub leader-wins :
    (vs : Votes) (b : Token × ℕ)
    → Distinct vs
    → leader vs ≡ some b
    → (votes_of b.0 vs ≡ b.1) × ((x : Token) → votes_of x vs ≤ b.1)
unfolding leader
leader-wins [] b d e = cc e
leader-wins (v ∷ vs) b d e =
    let same : lead v vs ≡ b = cc e in
    subst
      (λ (m : Token × ℕ). (votes_of m.0 (v ∷ vs) ≡ m.1) × ((x : Token) → votes_of x (v ∷ vs) ≤ m.1))
      same
      (
        votes_of-In (lead v vs) (v ∷ vs) d (lead-In v vs),
        λ x. votes_of-le x _ (v ∷ vs) (lead-Below v vs),
      )
