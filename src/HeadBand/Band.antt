-- ===== src/HeadBand/Band.antt =====
-- k3_head_band_uneven. Its ints are integers until the guards have passed; a size_t product wraps.
use kimi_k3_neuron_tp3_dgxsp.Prelude.{
  ℕ, ◌+◌, ◌*◌, ◌/◌, ◌%◌, ◌^◌, Bool, not, ◌||◌, Option, none, some, ltb, ◌==◌, if◌then◌else◌,
}
use kimi_k3_neuron_tp3_dgxsp.Prelude.Int.{ℤ, pos, pos_part, ltb_ℤ, leb_ℤ}

pub record K3HeadBand : Type 0 where
  pub offset : ℕ
  pub rows : ℕ
  pub byte_off : ℕ

-- The two closed forms, and the byte offset.
unfoldable pub band_rows : ℕ → ℕ → ℕ → ℕ
band_rows vocab tp_size rank = vocab / tp_size + (if ltb rank (vocab % tp_size) then 1 else 0)

unfoldable pub band_offset : ℕ → ℕ → ℕ → ℕ
band_offset vocab tp_size rank =
    rank * (vocab / tp_size) + (if ltb rank (vocab % tp_size) then rank else vocab % tp_size)

unfoldable pub band : ℕ → ℕ → ℕ → ℕ → K3HeadBand
unfolding band_rows band_offset
band vocab weight_bytes tp_size rank = record {
  offset = band_offset vocab tp_size rank;
  rows = band_rows vocab tp_size rank;
  byte_off = band_offset vocab tp_size rank * (weight_bytes / vocab) % 2 ^ 64;
}

-- `sink` says that `out` is not null, `enabled` is k3_dist_head_band_enabled(). `none` is `false`.
unfoldable pub k3_head_band_uneven : Bool → Bool → ℤ → ℕ → ℤ → ℤ → Option K3HeadBand
unfolding band
k3_head_band_uneven sink enabled vocab weight_bytes tp_size rank =
    let out = band (pos_part vocab) weight_bytes (pos_part tp_size) (pos_part rank) in
    if not sink
    then none
    else (if not enabled
        then none
        else (if leb_ℤ tp_size (pos 1) || (ltb_ℤ rank (pos 0) || leb_ℤ tp_size rank)
            then none
            else (if ltb_ℤ vocab tp_size
                then none
                else (if weight_bytes == 0 || not (weight_bytes % pos_part vocab == 0)
                    then none
                    else (if ltb 0 out.rows then some out else none)))))
