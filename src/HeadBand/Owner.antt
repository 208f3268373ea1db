-- ===== src/HeadBand/Owner.antt =====
-- Every row of the head has exactly one owner.
use kimi_k3_neuron_tp3_dgxsp.Prelude.{
  ℕ, zero, suc, ◌+◌, ◌-◌, ◌/◌, ◌%◌, ◌*◌, ◌≤◌, ◌<◌, ◌^◌, ◌≡◌, refl, sym, ◌∙◌, inl, inr, true, some,
  arith, ltb, Bool-cases, ltb→lt,
}
use mathlib.Core.Option.{some-injective}
use kimi_k3_neuron_tp3_dgxsp.Prelude.Int.{pos}
use kimi_k3_neuron_tp3_dgxsp.HeadBand.Band.{K3HeadBand, band_offset, band, k3_head_band_uneven}
use kimi_k3_neuron_tp3_dgxsp.HeadBand.Tiling.{
  band_offset-zero, band_offset-suc, band_offset-all, band_offset_mono, uneven-some,
}
use kimi_k3_neuron_tp3_dgxsp.HeadBand.Combine.{byte_off-exact}

-- Row i is one of the rows of the band.
abbrev pub Holds : K3HeadBand → ℕ → Type 0
Holds b i = (b.offset ≤ i) × (i < b.offset + b.rows)

abbrev Between : ℕ → ℕ → ℕ → ℕ → Type 0
Between vocab tp_size r i =
    (band_offset vocab tp_size r ≤ i) × (i < band_offset vocab tp_size (suc r))

owner :
    (vocab tp_size i m : ℕ)
    → i < band_offset vocab tp_size m
    → (r : ℕ) × (r < m) × Between vocab tp_size r i
owner vocab tp_size i zero h = absurd (omega (arith, band_offset-zero vocab tp_size))
owner vocab tp_size i (suc m) h = elim (Bool-cases (ltb i (band_offset vocab tp_size m))) [
  | inl below ↦ let (r, hr, at) = owner vocab tp_size i m (ltb→lt _ _ below) in (r, omega arith, at)
  | inr here ↦ (m, omega arith, (ground arith, h))
]

-- A later band starts after an earlier one has ended.
apart :
    (vocab tp_size i r s : ℕ) → Between vocab tp_size r i → Between vocab tp_size s i → ¬ (r < s)
apart vocab tp_size i r s at_r at_s h =
    let e : suc r + (s - suc r) ≡ s = omega arith in
    let later : band_offset vocab tp_size (suc r) ≤ band_offset vocab tp_size s =
      rw e at (band_offset_mono vocab tp_size (suc r) (s - suc r)) in
    omega arith

Holds-Between :
    (vocab weight_bytes tp_size r i : ℕ)
    → Holds (band vocab weight_bytes tp_size r) i
    → Between vocab tp_size r i
unfolding band
Holds-Between vocab weight_bytes tp_size r i h = omega (arith, band_offset-suc vocab tp_size r, h)

Between-Holds :
    (vocab weight_bytes tp_size r i : ℕ)
    → Between vocab tp_size r i
    → Holds (band vocab weight_bytes tp_size r) i
unfolding band
Between-Holds vocab weight_bytes tp_size r i h = omega (arith, band_offset-suc vocab tp_size r, h)

-- With the toggle on, at least two ranks, at least as many rows as ranks, and a weight of fewer than
-- 2^64 bytes, not zero, that divides into rows: every row below the vocabulary stands in the band of
-- one rank, and in the band of no other. That rank's byte offset is the row offset times the row size.
pub row_owner :
    (vocab weight_bytes tp_size i : ℕ)
    → 2 ≤ tp_size
    → tp_size ≤ vocab
    → 0 < weight_bytes
    → weight_bytes < 2 ^ 64
    → weight_bytes % vocab ≡ 0
    → i < vocab
    → (r : ℕ) × (b : K3HeadBand) × (r < tp_size)
      × (k3_head_band_uneven true true (pos vocab) weight_bytes (pos tp_size) (pos r) ≡ some b)
      × Holds b i
      × (b.byte_off ≡ b.offset * (weight_bytes / vocab))
      × ((s : ℕ) (c : K3HeadBand)
          → s < tp_size
          → k3_head_band_uneven true true (pos vocab) weight_bytes (pos tp_size) (pos s) ≡ some c
          → Holds c i
          → s ≡ r)
row_owner vocab weight_bytes tp_size i many enough some_bytes small whole h =
    let all : band_offset vocab tp_size tp_size ≡ vocab =
      band_offset-all vocab tp_size (omega arith) in
    let (r, within, at) = owner vocab tp_size i tp_size (omega arith) in
    (
      r,
      band vocab weight_bytes tp_size r,
      within,
      uneven-some vocab weight_bytes tp_size r many within enough some_bytes whole,
      Between-Holds vocab weight_bytes tp_size r i at,
      byte_off-plain r within,
      only r at,
    )
  where
    byte_off-plain :
        (r : ℕ)
        → r < tp_size
        → (band vocab weight_bytes tp_size r).byte_off
          ≡ (band vocab weight_bytes tp_size r).offset * (weight_bytes / vocab)
    byte_off-plain r within =
        byte_off-exact vocab weight_bytes tp_size r within small ∙ (unfold band in refl)

    only :
        (r : ℕ)
        → Between vocab tp_size r i
        → (s : ℕ) (c : K3HeadBand) → s < tp_size
        → k3_head_band_uneven true true (pos vocab) weight_bytes (pos tp_size) (pos s) ≡ some c
        → Holds c i
        → s ≡ r
    only r at s c hs answer holds =
        let same : band vocab weight_bytes tp_size s ≡ c = some-injective _ _ (
          sym (uneven-some vocab weight_bytes tp_size s many hs enough some_bytes whole)
          ∙ answer) in
        let at_s = Holds-Between vocab weight_bytes tp_size s i (rw same holds) in
        omega (arith, apart vocab tp_size i r s at at_s, apart vocab tp_size i s r at_s at)
