-- ===== src/HeadBand/Inside.antt =====
-- Where the bands that are answered lie: the rows in the vocabulary, the bytes in the weight.
use native.Mathlib.Nat.{div-add-mod}
use kimi_k3_neuron_tp3_dgxsp.Prelude.{
  ℕ, ◌+◌, ◌-◌, ◌*◌, ◌/◌, ◌%◌, ◌^◌, ◌≤◌, ◌<◌, ◌≡◌, ap, Bool, some, arith,
}
use kimi_k3_neuron_tp3_dgxsp.Prelude.Int.{ℤ, pos_part}
use kimi_k3_neuron_tp3_dgxsp.HeadBand.Band.{
  K3HeadBand, band_offset, band_rows, band, k3_head_band_uneven,
}
use kimi_k3_neuron_tp3_dgxsp.HeadBand.Tiling.{
  band-le-vocab, band_rows_balanced, div_pos, uneven-IsGranted,
}
use kimi_k3_neuron_tp3_dgxsp.HeadBand.Combine.{byte_off-exact}

-- Rows o to o + r of a weight of v rows of q bytes.
rows-inside : (o r v q m w : ℕ) → v * q + m ≡ w → o + r ≤ v → o * q + r * q ≤ w
rows-inside o r v q m w e h =
    let gap : o + r + (v - (o + r)) ≡ v = omega (arith, h) in omega (arith, e, ap (λ k. k * q) gap)

-- Whatever the call is asked, for a weight of fewer than 2^64 bytes: a band that it answers with has a
-- row at least, and the even share of the rows or one more; it ends inside the vocabulary; and the bytes
-- of its rows, from its byte offset on, end inside the weight.
pub uneven-inside :
    (sink enabled : Bool) (vocab : ℤ) (weight_bytes : ℕ) (tp_size rank : ℤ) {b : K3HeadBand}
    → weight_bytes < 2 ^ 64
    → k3_head_band_uneven sink enabled vocab weight_bytes tp_size rank ≡ some b
    → (1 ≤ b.rows)
      × (pos_part vocab / pos_part tp_size ≤ b.rows)
      × (b.rows ≤ pos_part vocab / pos_part tp_size + 1)
      × (b.offset + b.rows ≤ pos_part vocab)
      × (b.byte_off + b.rows * (weight_bytes / pos_part vocab) ≤ weight_bytes)
unfolding band
uneven-inside sink enabled vocab weight_bytes tp_size rank {b} small e =
    let g = uneven-IsGranted sink enabled vocab weight_bytes tp_size rank e in
    let v = pos_part vocab in
    let t = pos_part tp_size in
    let r = pos_part rank in
    let within : r < t = ground (arith, g.many, g.within, g.nonneg) in
    let enough : t ≤ v = ground (arith, g.enough, g.many) in
    let full = div_pos v t (omega arith) enough in
    let (lo, hi) = band_rows_balanced v t r in
    let ends = band-le-vocab v t r within in
    let bytes =
      rows-inside (band_offset v t r) (band_rows v t r) v (weight_bytes / v) (weight_bytes % v)
        weight_bytes (div-add-mod weight_bytes v) ends in
    let start = byte_off-exact v weight_bytes t r within small in
    rw g.closed_form (omega (arith, full, lo), lo, hi, ends, omega (arith, start, bytes))
