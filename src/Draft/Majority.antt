-- ===== src/Draft/Majority.antt =====
-- The recursive majority arm of patch 0026.
use kimi_k3_neuron_tp3_dgxsp.Prelude.{
  ℕ, zero, suc, ◌-◌, ◌*◌, min, Option, none, some, List, [], ◌∷◌, ◌++◌, length, ltb, if◌then◌else◌,
}
use kimi_k3_neuron_tp3_dgxsp.Prelude.Int.{◌==ℤ◌}
use kimi_k3_neuron_tp3_dgxsp.Draft.Config.{
  Token, K3NgramDraftConfig, Outcome, fault, decline, found, first_down,
}
use kimi_k3_neuron_tp3_dgxsp.Draft.Window.{hit, successor}

-- `tokens` and `counts`, which the code keeps as two vectors of one length, in encounter order.
abbrev pub Votes : Type 0
Votes = List (Token × ℕ)

unfoldable pub cast : Token → Votes → Votes
unfolding ◌==ℤ◌
cast tok [] = (tok, 1) ∷ []
cast tok ((t, c) ∷ vs) =
    let rest = cast tok vs in if t ==ℤ tok then (t, suc c) ∷ vs else (t, c) ∷ rest

-- `for (s = 0; s < wlen - n; ++s)`: the rounds left, s, the votes and the occurrences so far.
unfoldable pub poll : List Token → ℕ → ℕ → ℕ → Votes × ℕ → Votes × ℕ
unfolding cast
poll work n zero s v = v
poll work n (suc r) s v =
    poll work n r (suc s) (if hit work n s then (cast (successor work n s) v.0, suc v.1) else v)

-- The first entry that has the greatest count; `none` is the read of `counts[0]` when there is none.
unfoldable pub lead : Token × ℕ → Votes → Token × ℕ
lead b [] = b
lead b (v ∷ vs) = lead (if ltb b.1 v.1 then v else b) vs

unfoldable pub leader : Votes → Option (Token × ℕ)
unfolding lead
leader [] = none
leader (v ∷ vs) = some (lead v vs)

pub record Pick : Type 0 where
  pub picked : Token
  pub picked_n : ℕ
  pub picked_occ : ℕ
  pub picked_best : ℕ

-- From the votes of one tail length to its pick.
unfoldable pub elect : K3NgramDraftConfig → ℕ → Votes × ℕ → Outcome Pick
unfolding leader
elect cfg n v = if ltb v.1 cfg.min_occurrences then decline else (elim (leader v.0) [
  | none ↦ fault
  | some b ↦
      if ltb (b.1 * cfg.majority_den) (v.1 * cfg.majority_num)
      then decline
      else found (record { picked = b.0; picked_n = n; picked_occ = v.1; picked_best = b.1 })
])

unfoldable pub pick : List Token → K3NgramDraftConfig → ℕ → Outcome Pick
unfolding poll elect hit successor
pick work cfg n = elect cfg n (poll work n (length work - n) 0 ([], 0))

-- `n_lo` of the drafter.
abbrev pub n_lo : K3NgramDraftConfig → ℕ
n_lo cfg = if ltb cfg.n_min 1 then 1 else cfg.n_min

unfoldable pub pick_down : List Token → K3NgramDraftConfig → Outcome Pick
unfolding pick first_down
pick_down work cfg = first_down (pick work cfg) (n_lo cfg) (min cfg.n_max (length work))

-- `for (di = 0; di < max_draft; ++di)` on the rounds left, the history and the picks so far.
unfoldable pub picks : K3NgramDraftConfig → ℕ → List Token → List Pick → Option (List Pick)
unfolding pick_down
picks cfg zero work ps = some ps
picks cfg (suc k) work ps = elim (pick_down work cfg) [
  | fault ↦ none
  | decline ↦ some ps
  | found p ↦ picks cfg k (work ++ p.picked ∷ []) (ps ++ p ∷ [])
]
