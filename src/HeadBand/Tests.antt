-- ===== src/HeadBand/Tests.antt =====
-- Concrete inputs for the theorems on the head bands: three ranks over a vocabulary of 163840 rows of
-- 14336 bytes, which three does not divide.
use kimi_k3_neuron_tp3_dgxsp.Prelude.{
  ℕ, ◌+◌, ◌*◌, ◌/◌, ◌≤◌, ◌<◌, ◌≡◌, refl, true, some, [], ◌∷◌, arith,
}
use kimi_k3_neuron_tp3_dgxsp.Prelude.Int.{pos}
use kimi_k3_neuron_tp3_dgxsp.HeadBand.Band.{K3HeadBand, band, k3_head_band_uneven}
use kimi_k3_neuron_tp3_dgxsp.HeadBand.Gather.{Lane, dist_logits}
use kimi_k3_neuron_tp3_dgxsp.HeadBand.Gate.{test_tiling}
use kimi_k3_neuron_tp3_dgxsp.HeadBand.Cases.{test_shipped, test_declines}
use kimi_k3_neuron_tp3_dgxsp.HeadBand.Inside.{uneven-inside}
use kimi_k3_neuron_tp3_dgxsp.HeadBand.Combine.{dist_logits-eq-proj}
use kimi_k3_neuron_tp3_dgxsp.HeadBand.Owner.{Holds, row_owner}
use kimi_k3_neuron_tp3_dgxsp.HeadBand.Passes.{Good, test_tiling-Good}

-- Addition of whole numbers.
abbrev whole_numbers : Lane
whole_numbers = record {
  Carrier = ℕ;
  nought = 0;
  plus = λ a b. a + b;
  nought_plus = λ x. omega arith;
  plus_nought = λ x. omega arith;
}

granted :
    k3_head_band_uneven true true (pos 163840) (163840 * 14336) (pos 3) (pos 1)
    ≡ some (band 163840 (163840 * 14336) 3 1)
unfolding k3_head_band_uneven
granted = refl

uneven-inside_example :
    (1 ≤ 54613)
    × (163840 / 3 ≤ 54613)
    × (54613 ≤ 163840 / 3 + 1)
    × (54614 + 54613 ≤ 163840)
    × (54614 * 14336 + 54613 * (163840 * 14336 / 163840) ≤ 163840 * 14336)
unfolding band
uneven-inside_example =
    uneven-inside true true (pos 163840) (163840 * 14336) (pos 3) (pos 1) (omega arith) granted

dist_logits-eq-proj_example :
    dist_logits whole_numbers (λ a. a + 7) true 163840 (163840 * 14336) 3 100000
    ≡ 100000 * (163840 * 14336 / 163840) + 7
dist_logits-eq-proj_example =
    dist_logits-eq-proj whole_numbers (λ a. a + 7) true 163840 (163840 * 14336) 3 100000
      (omega arith) (omega arith)

row_owner_example :
    (r : ℕ) × (b : K3HeadBand) × (r < 3)
    × (k3_head_band_uneven true true (pos 163840) (163840 * 14336) (pos 3) (pos r) ≡ some b)
    × Holds b 100000
    × (b.byte_off ≡ b.offset * (163840 * 14336 / 163840))
    × ((s : ℕ) (c : K3HeadBand)
        → s < 3
        → k3_head_band_uneven true true (pos 163840) (163840 * 14336) (pos 3) (pos s) ≡ some c
        → Holds c 100000
        → s ≡ r)
row_owner_example =
    row_owner 163840 (163840 * 14336) 3 100000 (omega arith) (omega arith) (omega arith)
      (omega arith) refl (omega arith)

test_tiling-Good_example : Good (test_tiling (7 ∷ 163840 ∷ []) (2 ∷ 3 ∷ 8 ∷ []))
test_tiling-Good_example =
    test_tiling-Good (7 ∷ 163840 ∷ []) (2 ∷ 3 ∷ 8 ∷ []) (omega arith, (omega arith, tt))
      (omega arith, (omega arith, (omega arith, tt)))

shipped_bands : test_shipped 0 ≡ 0
unfolding test_shipped
shipped_bands = refl

declined_requests : test_declines 0 ≡ 0
unfolding test_declines
declined_requests = refl
