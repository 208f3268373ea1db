-- ===== src/HeadBand/Combine.antt =====
-- The banded logits are the unbanded ones.
use kimi_k3_neuron_tp3_dgxsp.Prelude.{
  ℕ, zero, suc, ◌+◌, ◌-◌, ◌*◌, ◌/◌, ◌%◌, ◌^◌, ◌≤◌, ◌<◌, ◌≡◌, refl, ap, ap₂, ◌∙◌, Bool, true, some,
  leb, leb→le, ltb, ◌&&◌, if◌then◌else◌, arith, inl, inr, Bool-cases, Option-cases, lt→ltb,
}
use kimi_k3_neuron_tp3_dgxsp.Prelude.Int.{pos}
use native.Mathlib.Nat.{div-add-mod, mod-eq_of_lt}
use kimi_k3_neuron_tp3_dgxsp.HeadBand.Band.{K3HeadBand, band_offset, band, k3_head_band_uneven}
use kimi_k3_neuron_tp3_dgxsp.HeadBand.Gather.{
  Lane, load_head, dist_head_band, slice, rank_buffer, allreduce, dist_logits,
}
use kimi_k3_neuron_tp3_dgxsp.HeadBand.Tiling.{
  band_offset-zero, band_offset-suc, band_offset-all, band_offset_mono_suc, band-le-vocab,
  uneven-IsGranted, uneven-some,
}

-- The byte offset of a band does not wrap: it is inside the weight.
pub byte_off-exact :
    (vocab weight_bytes tp_size rank : ℕ)
    → rank < tp_size
    → weight_bytes < 2 ^ 64
    → (band vocab weight_bytes tp_size rank).byte_off
      ≡ band_offset vocab tp_size rank * (weight_bytes / vocab)
unfolding band
byte_off-exact vocab weight_bytes tp_size rank within small = mod-eq_of_lt (
    offset_small vocab (weight_bytes / vocab) (weight_bytes % vocab) weight_bytes
      (band_offset vocab tp_size rank) (div-add-mod weight_bytes vocab)
      (omega (arith, band-le-vocab vocab tp_size rank within)) small)
  where
    offset_small : (v q m w o : ℕ) → v * q + m ≡ w → o ≤ v → w < 2 ^ 64 → o * q < 2 ^ 64
    offset_small v q m w o e le small = grind arith

load_head-on : (rank : ℕ) → load_head true rank ≡ true
unfolding load_head
load_head-on rank = ground arith

-- Rank 0 holds the weight in any case.
dist_head_band-zero :
    (enabled : Bool) (vocab weight_bytes tp_size : ℕ)
    → dist_head_band enabled vocab weight_bytes tp_size 0
      ≡ k3_head_band_uneven true enabled (pos vocab) weight_bytes (pos tp_size) (pos 0)
unfolding dist_head_band load_head
dist_head_band-zero enabled vocab weight_bytes tp_size = refl

module _ (lane : Lane) (proj : ℕ → lane.Carrier) (vocab weight_bytes tp_size : ℕ) where
  slice-inside :
      (i m : ℕ)
      → m < tp_size
      → weight_bytes < 2 ^ 64
      → slice lane proj (band vocab weight_bytes tp_size m) (weight_bytes / vocab) i ≡ (
          if leb (band_offset vocab tp_size m) i && ltb i (band_offset vocab tp_size (suc m))
          then proj (i * (weight_bytes / vocab))
          else lane.nought)
  unfolding slice
  slice-inside i m h small =
      let lo = band_offset vocab tp_size m in
      rw (byte_off-exact vocab weight_bytes tp_size m h small) (
        unfold band in
        rw (band_offset-suc vocab tp_size m)
          (row_address lo (band_offset vocab tp_size (suc m)) i (weight_bytes / vocab)))
    where
      address : (lo i q : ℕ) → lo ≤ i → lo * q + (i - lo) * q ≡ i * q
      address lo i q le =
          let e : lo + (i - lo) ≡ i = omega arith in omega (arith, ap (λ (t : ℕ). t * q) e)

      row_address :
          (lo hi i q : ℕ)
          → (if leb lo i && ltb i hi then proj (lo * q + (i - lo) * q) else lane.nought)
            ≡ (if leb lo i && ltb i hi then proj (i * q) else lane.nought)
      row_address lo hi i q = elim (Bool-cases (leb lo i)) [
        | inl inside ↦ rw (address lo i q (leb→le lo i inside)) refl
        | inr outside ↦ rw outside refl
      ]

  -- The sum over the first m bands: the projection below the end of band m, and 0 from there on.
  bands_below :
      (i m : ℕ)
      → m ≤ tp_size
      → weight_bytes < 2 ^ 64
      → allreduce lane proj
          (λ r. slice lane proj (band vocab weight_bytes tp_size r) (weight_bytes / vocab))
          m
          i
        ≡ (if ltb i (band_offset vocab tp_size m)
            then proj (i * (weight_bytes / vocab))
            else lane.nought)
  unfolding allreduce
  bands_below i zero h small = rw (band_offset-zero vocab tp_size) (ground arith)
  bands_below i (suc m) h small =
      ap₂ lane.plus (bands_below i m (omega arith) small) (slice-inside i m h small)
      ∙ joined (band_offset vocab tp_size m) (band_offset vocab tp_size (suc m))
          (proj (i * (weight_bytes / vocab))) (band_offset_mono_suc vocab tp_size m)
    where
      joined :
          (lo hi : ℕ) (x : lane.Carrier)
          → lo ≤ hi
          → lane.plus
              (if ltb i lo then x else lane.nought)
              (if leb lo i && ltb i hi then x else lane.nought)
            ≡ (if ltb i hi then x else lane.nought)
      joined lo hi x le =
          ground (arith, lane.nought_plus x, lane.plus_nought x, lane.nought_plus lane.nought)

  -- If rank 0 answers with a band, every rank below tp_size answers with its own.
  all_banded :
      (enabled : Bool) (r : ℕ) {b : K3HeadBand}
      → k3_head_band_uneven true enabled (pos vocab) weight_bytes (pos tp_size) (pos 0) ≡ some b
      → r < tp_size
      → dist_head_band enabled vocab weight_bytes tp_size r
        ≡ some (band vocab weight_bytes tp_size r)
  unfolding dist_head_band
  all_banded enabled r e h =
      let g = uneven-IsGranted true enabled (pos vocab) weight_bytes (pos tp_size) (pos 0) e in
      rw (g.on, load_head-on r)
        (uneven-some vocab weight_bytes tp_size r (ground (arith, g.many)) h
          (ground (arith, g.enough)) g.some_bytes g.whole)

  allreduce_ext :
      (f g : ℕ → ℕ → lane.Carrier) (m i : ℕ)
      → ((r : ℕ) → r < m → f r i ≡ g r i)
      → allreduce lane proj f m i ≡ allreduce lane proj g m i
  unfolding allreduce
  allreduce_ext f g zero i h = refl
  allreduce_ext f g (suc m) i h =
      ap₂ lane.plus (allreduce_ext f g m i (λ r hr. h r (omega arith))) (h m (omega arith))

-- Banding does not change the logits: for any addition of which 0 is a unit, any projection kernel,
-- any weight smaller than 2^64 bytes and any toggle, vocabulary and rank count, each row of the
-- logits on rank 0 is the projection of that row of the weight.
pub dist_logits-eq-proj :
    (lane : Lane) (proj : ℕ → lane.Carrier) (enabled : Bool) (vocab weight_bytes tp_size i : ℕ)
    → weight_bytes < 2 ^ 64
    → i < vocab
    → dist_logits lane proj enabled vocab weight_bytes tp_size i ≡ proj (i * (weight_bytes / vocab))
unfolding dist_logits
dist_logits-eq-proj lane proj enabled vocab weight_bytes tp_size i small h =
    let rank_0 = k3_head_band_uneven true enabled (pos vocab) weight_bytes (pos tp_size) (pos 0) in
    elim (Option-cases rank_0) [
      | inl whole ↦
          rw (dist_logits, dist_head_band-zero enabled vocab weight_bytes tp_size, whole) refl
      | inr (b, banded) ↦
          let g =
            uneven-IsGranted true enabled (pos vocab) weight_bytes (pos tp_size) (pos 0) banded in
          let positive : 0 < tp_size = ground (arith, g.many) in
          rw (dist_logits, dist_head_band-zero enabled vocab weight_bytes tp_size, banded)
            (allreduce_ext lane proj vocab weight_bytes tp_size _
                (λ r. slice lane proj (band vocab weight_bytes tp_size r) (weight_bytes / vocab))
                tp_size i
                (λ r hr.
                  unfold rank_buffer in
                  rw (all_banded lane proj vocab weight_bytes tp_size enabled r banded hr) refl)
              ∙ bands_below lane proj vocab weight_bytes tp_size i tp_size (omega arith) small
              ∙ rw (band_offset-all vocab tp_size positive) (rw (lt→ltb i vocab h) refl))
    ]
