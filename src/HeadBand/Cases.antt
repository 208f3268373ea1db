-- ===== src/HeadBand/Cases.antt =====
-- F4 to F14 of test_head_band in new-tests/kimi_k3_tune_check.cpp: the number of checks that fail.
use kimi_k3_neuron_tp3_dgxsp.Prelude.{
  ℕ, ◌+◌, ◌*◌, Bool, true, false, ◌&&◌, Option, none, some, List, [], ◌∷◌, ◌==◌,
}
use kimi_k3_neuron_tp3_dgxsp.Prelude.Int.{pos, negsuc}
use kimi_k3_neuron_tp3_dgxsp.Prelude.Report.{checks}
use kimi_k3_neuron_tp3_dgxsp.HeadBand.Band.{K3HeadBand, k3_head_band_uneven}
use kimi_k3_neuron_tp3_dgxsp.HeadBand.Gate.{row_bytes}

abbrev pub wb : ℕ
wb = 163840 * row_bytes

-- The three bands as they ship, F4 to F7; a declined call fails them all.
unfoldable pub shipped : Option K3HeadBand → Option K3HeadBand → Option K3HeadBand → List Bool
shipped (some a) (some b) (some c) =
    true
    ∷ (a.rows == 54614 && ((b.rows == 54613) && (c.rows == 54613)))
    ∷ (a.offset == 0 && ((b.offset == 54614) && (c.offset == 109227)))
    ∷ (a.rows + b.rows + c.rows == 163840)
    ∷ []
shipped _ _ _ = false ∷ false ∷ false ∷ false ∷ []

unfoldable pub test_shipped : ℕ → ℕ
unfolding shipped k3_head_band_uneven checks
test_shipped = checks (
    shipped (k3_head_band_uneven true true (pos 163840) wb (pos 3) (pos 0))
      (k3_head_band_uneven true true (pos 163840) wb (pos 3) (pos 1))
      (k3_head_band_uneven true true (pos 163840) wb (pos 3) (pos 2)))

unfoldable pub declines : Option K3HeadBand → Bool
declines none = true
declines (some b) = false

unfoldable pub test_declines : ℕ → ℕ
unfolding declines k3_head_band_uneven checks
test_declines = checks (
    declines (k3_head_band_uneven true true (pos 163840) wb (pos 1) (pos 0))
    ∷ declines (k3_head_band_uneven true true (pos 163840) wb (pos 3) (pos 3))
    ∷ declines (k3_head_band_uneven true true (pos 163840) wb (pos 3) (negsuc 0))
    ∷ declines (k3_head_band_uneven true true (pos 163840) (wb + 1) (pos 3) (pos 0))
    ∷ declines (k3_head_band_uneven true true (pos 163840) 0 (pos 3) (pos 0))
    ∷ declines (k3_head_band_uneven true true (pos 2) wb (pos 3) (pos 0))
    ∷ declines (k3_head_band_uneven false true (pos 163840) wb (pos 3) (pos 0))
    ∷ [])
