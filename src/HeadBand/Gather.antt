-- ===== src/HeadBand/Gather.antt =====
-- How the distributed forward pass puts the logits of one token together: every rank projects its
-- rows into a zero-filled buffer of full width, and one all-reduce sums the buffers. A buffer is a
-- function of the row. The projection kernel and the sum are parameters: `proj a` is the dot product
-- of the activation with the weight row that starts at byte a.
use kimi_k3_neuron_tp3_dgxsp.Prelude.{
  ℕ, zero, suc, ◌+◌, ◌-◌, ◌*◌, ◌/◌, ◌≡◌, Bool, true, not, ◌&&◌, ◌||◌, ◌==◌, Option, none, some, leb,
  ltb, if◌then◌else◌,
}
use kimi_k3_neuron_tp3_dgxsp.Prelude.Int.{pos}
use kimi_k3_neuron_tp3_dgxsp.HeadBand.Band.{K3HeadBand, k3_head_band_uneven}

-- The element type of the collective. The laws are those of adding the 0 that cudaMemset leaves.
pub record Lane : Type 1 where
  pub Carrier : Type 0
  pub nought : Carrier
  pub plus : Carrier → Carrier → Carrier
  pub nought_plus : (x : Carrier) → plus nought x ≡ x
  pub plus_nought : (x : Carrier) → plus x nought ≡ x

-- `load_head` of the loader: whether a rank holds the weight of the head, `weights.output.ok()`.
unfoldable pub load_head : Bool → ℕ → Bool
load_head enabled rank = (rank == 0) || enabled

-- The band of a rank, in a world of tp_size ranks.
unfoldable pub dist_head_band : Bool → ℕ → ℕ → ℕ → ℕ → Option K3HeadBand
unfolding load_head k3_head_band_uneven
dist_head_band enabled vocab weight_bytes tp_size rank =
    if not (load_head enabled rank)
    then none
    else k3_head_band_uneven true enabled (pos vocab) weight_bytes (pos tp_size) (pos rank)

module _ (lane : Lane) (proj : ℕ → lane.Carrier) where
  -- `k3_proj_f32(logits + offset, …, data + byte_off, …, rows, …)` over a zeroed buffer.
  unfoldable pub slice : K3HeadBand → ℕ → ℕ → lane.Carrier
  slice b row_bytes i =
      if leb b.offset i && ltb i (b.offset + b.rows)
      then proj (b.byte_off + (i - b.offset) * row_bytes)
      else lane.nought

  -- What one rank brings to the all-reduce.
  unfoldable pub rank_buffer : Option K3HeadBand → ℕ → ℕ → lane.Carrier
  unfolding slice
  rank_buffer none row_bytes i = lane.nought
  rank_buffer (some b) row_bytes i = slice b row_bytes i

  -- The sum over the first ranks.
  unfoldable pub allreduce : (ℕ → ℕ → lane.Carrier) → ℕ → ℕ → lane.Carrier
  allreduce buffers zero i = lane.nought
  allreduce buffers (suc m) i = lane.plus (allreduce buffers m i) (buffers m i)

  -- The logits on rank 0: its own full projection, or the sum of the bands.
  unfoldable pub dist_logits : Bool → ℕ → ℕ → ℕ → ℕ → lane.Carrier
  unfolding rank_buffer allreduce dist_head_band
  dist_logits enabled vocab weight_bytes tp_size i =
      let row_bytes = weight_bytes / vocab in
      let band_of = λ (r : ℕ). dist_head_band enabled vocab weight_bytes tp_size r in
      elim (band_of 0) [
        | none ↦ proj (i * row_bytes)
        | some b ↦ allreduce (λ r. rank_buffer (band_of r) row_bytes) tp_size i
      ]
