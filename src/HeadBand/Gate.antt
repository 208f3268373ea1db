-- ===== src/HeadBand/Gate.antt =====
-- Gate F of new-tests/kimi_k3_tune_check.cpp: the exhaustive tiling sweep of test_head_band.
use kimi_k3_neuron_tp3_dgxsp.Prelude.{
  ℕ, ◌+◌, ◌-◌, ◌*◌, ◌%◌, ◌^◌, Bool, true, false, not, ◌&&◌, Option, none, some, List, ltb, ◌==◌,
  if◌then◌else◌,
}
use kimi_k3_neuron_tp3_dgxsp.Prelude.Int.{pos}
use kimi_k3_neuron_tp3_dgxsp.Prelude.Loop.{for_rounds, for_each}
use kimi_k3_neuron_tp3_dgxsp.HeadBand.Band.{K3HeadBand, k3_head_band_uneven}

abbrev pub row_bytes : ℕ
row_bytes = 14336

-- The locals of the loop over the ranks; `stopped` is its `break`.
pub record Sweep : Type 0 where
  pub next : ℕ
  pub min_rows : ℕ
  pub max_rows : ℕ
  pub tiling_ok : Bool
  pub bytes_ok : Bool
  pub stopped : Bool

unfoldable pub check_band : Option K3HeadBand → Sweep → Sweep
check_band none s = record s { tiling_ok = false; stopped = true }
check_band (some hb) s = record s {
  next = hb.offset + hb.rows;
  min_rows = if ltb hb.rows s.min_rows then hb.rows else s.min_rows;
  max_rows = if ltb s.max_rows hb.rows then hb.rows else s.max_rows;
  tiling_ok = s.tiling_ok && (hb.offset == s.next);
  bytes_ok = s.bytes_ok && (hb.byte_off == hb.offset * row_bytes % 2 ^ 64);
}

unfoldable pub band_round : ℕ → ℕ → ℕ → Sweep → Sweep
unfolding check_band k3_head_band_uneven
band_round vocab tp r s =
    if s.stopped
    then s
    else check_band
        (k3_head_band_uneven true true (pos vocab) (vocab * row_bytes % 2 ^ 64) (pos tp) (pos r)) s

pub record Flags : Type 0 where
  pub tiling_ok : Bool
  pub bytes_ok : Bool
  pub spread_ok : Bool
  pub cases : ℕ

-- The loop over the ranks.
unfoldable pub ranks_swept : ℕ → ℕ → Flags → Sweep
unfolding band_round for_rounds
ranks_swept vocab tp f = for_rounds tp 0 (band_round vocab tp) (record {
  next = 0;
  min_rows = vocab;
  max_rows = 0;
  tiling_ok = f.tiling_ok;
  bytes_ok = f.bytes_ok;
  stopped = false;
})

-- The checks after it: the end, and the spread of the sizes.
unfoldable pub conclude : ℕ → Sweep → Flags → Flags
conclude vocab s f = record {
  tiling_ok = s.tiling_ok && (s.next == vocab);
  bytes_ok = s.bytes_ok;
  spread_ok = f.spread_ok && not (ltb 1 (s.max_rows - s.min_rows));
  cases = f.cases + 1;
}

-- One vocabulary over one number of ranks; `continue` where there are more ranks than rows.
unfoldable pub tile_case : ℕ → ℕ → Flags → Flags
unfolding ranks_swept conclude
tile_case vocab tp f = if ltb vocab tp then f else conclude vocab (ranks_swept vocab tp f) f

unfoldable pub over_tps : List ℕ → ℕ → Flags → Flags
unfolding tile_case for_each
over_tps tps vocab = for_each tps (tile_case vocab)

-- The two nested loops of the gate.
unfoldable pub test_tiling : List ℕ → List ℕ → Flags
unfolding over_tps for_each
test_tiling vocabs tps =
    for_each vocabs (over_tps tps)
      (record { tiling_ok = true; bytes_ok = true; spread_ok = true; cases = 0 })
