-- ===== src/HeadBand/Passes.antt =====
-- Gate F passes for every list of vocabularies and rank counts.
use native.Mathlib.Nat.{mod-eq_of_lt, mul-mod_right, mul-div_right, zero-add}
use mathlib.Core.Path.{subst}
use kimi_k3_neuron_tp3_dgxsp.Prelude.{
  ℕ, suc, ◌+◌, ◌*◌, ◌/◌, ◌%◌, ◌^◌, ◌≤◌, ◌<◌, ◌≡◌, refl, sym, ◌∙◌, true, false, some, List, All, ltb,
  arith, inl, inr, Bool-cases,
}
use kimi_k3_neuron_tp3_dgxsp.Prelude.Int.{pos}
use kimi_k3_neuron_tp3_dgxsp.Prelude.Loop.{for_rounds_inv, for_each_keeps_all}
use kimi_k3_neuron_tp3_dgxsp.HeadBand.Band.{
  K3HeadBand, band_rows, band_offset, band, k3_head_band_uneven,
}
use kimi_k3_neuron_tp3_dgxsp.HeadBand.Tiling.{
  band_offset-zero, band_offset-suc, band_offset-all, band_rows_balanced, uneven-some, div-le,
  band-le-vocab,
}
use kimi_k3_neuron_tp3_dgxsp.HeadBand.Combine.{byte_off-exact}
use kimi_k3_neuron_tp3_dgxsp.HeadBand.Gate.{
  row_bytes, Sweep, check_band, band_round, ranks_swept, Flags, conclude, tile_case, over_tps,
  test_tiling,
}

-- What holds after r rounds.
record Inv (vocab tp : ℕ) (r : ℕ) (s : Sweep) : Type 0 where
  at : s.next ≡ band_offset vocab tp r
  least : vocab / tp ≤ s.min_rows
  most : s.max_rows ≤ vocab / tp + 1
  tiled : s.tiling_ok ≡ true
  exact : s.bytes_ok ≡ true
  running : s.stopped ≡ false

module _ (vocab tp : ℕ) (many : 2 ≤ tp) (enough : tp ≤ vocab) (small : vocab < 2 ^ 31) where
  band_answer :
      (r : ℕ)
      → r < tp
      → k3_head_band_uneven true true (pos vocab) (vocab * row_bytes % 2 ^ 64) (pos tp) (pos r)
        ≡ some (band vocab (vocab * row_bytes) tp r)
  band_answer r h =
      let fits : vocab * row_bytes % 2 ^ 64 ≡ vocab * row_bytes = omega arith in
      rw fits (
        uneven-some vocab (vocab * row_bytes) tp r many h enough (omega arith)
          (mul-mod_right vocab row_bytes))

  byte_off-eq :
      (r : ℕ)
      → r < tp
      → (band vocab (vocab * row_bytes) tp r).byte_off ≡ band_offset vocab tp r * row_bytes % 2 ^ 64
  byte_off-eq r h =
      let exact = byte_off-exact vocab (vocab * row_bytes) tp r h (omega arith) in
      let stride : vocab * row_bytes / vocab ≡ row_bytes = mul-div_right row_bytes (omega arith) in
      let plain : (band vocab (vocab * row_bytes) tp r).byte_off
          ≡ band_offset vocab tp r * row_bytes =
        rw stride at exact in
      let fits : band_offset vocab tp r * row_bytes < 2 ^ 64 =
        omega (arith, band-le-vocab vocab tp r h) in
      plain ∙ sym (mod-eq_of_lt fits)

  check-Inv :
      (r : ℕ) (hb : K3HeadBand) (s : Sweep)
      → hb.offset ≡ band_offset vocab tp r
      → hb.rows ≡ band_rows vocab tp r
      → hb.byte_off ≡ band_offset vocab tp r * row_bytes % 2 ^ 64
      → Inv vocab tp r s
      → Inv vocab tp (suc r) (check_band (some hb) s)
  unfolding check_band
  check-Inv r hb s at rows bytes v = record {
    at = rw (at, rows) (band_offset-suc vocab tp r);
    least = ground (arith, v.least, band_rows_balanced vocab tp r);
    most = ground (arith, v.most, band_rows_balanced vocab tp r);
    tiled = ground (arith, v.tiled, v.at);
    exact = rw (at, bytes, v.exact) (ground arith);
    running = v.running;
  }

  round_step :
      (r : ℕ) (s : Sweep)
      → r < tp
      → s.stopped ≡ false
      → band_round vocab tp r s ≡ check_band (some (band vocab (vocab * row_bytes) tp r)) s
  unfolding band_round
  round_step r s h on = rw (on, band_answer r h) refl

  round-Inv :
      (r : ℕ) (s : Sweep)
      → r < tp
      → Inv vocab tp r s
      → Inv vocab tp (suc r) (band_round vocab tp r s)
  round-Inv r s h v =
      let checked =
        check-Inv r (band vocab (vocab * row_bytes) tp r) s (unfold band in refl)
          (unfold band in refl) (byte_off-eq r h) v in
      subst (Inv vocab tp (suc r)) (sym (round_step r s h v.running)) checked

  start-Inv :
      (s : Sweep)
      → s.next ≡ 0
      → s.min_rows ≡ vocab
      → s.max_rows ≡ 0
      → s.tiling_ok ≡ true
      → s.bytes_ok ≡ true
      → s.stopped ≡ false
      → Inv vocab tp 0 s
  start-Inv s at least most tiled exact running = record {
    at = at ∙ sym (band_offset-zero vocab tp);
    least = omega (arith, div-le vocab tp (omega arith));
    most = omega arith;
    tiled = tiled;
    exact = exact;
    running = running;
  }

-- The flags that the gate checks.
pub record Good (f : Flags) : Type 0 where
  pub tiling : f.tiling_ok ≡ true
  pub bytes : f.bytes_ok ≡ true
  pub spread : f.spread_ok ≡ true

conclude-Good :
    (vocab tp : ℕ) (s : Sweep) (f : Flags)
    → 0 < tp
    → Inv vocab tp tp s
    → Good f
    → Good (conclude vocab s f)
unfolding conclude
conclude-Good vocab tp s f h v good = record {
  tiling = ground (arith, v.tiled, v.at, band_offset-all vocab tp h);
  bytes = v.exact;
  spread = ground (arith, good.spread, v.least, v.most);
}

ranks_swept-Inv :
    (vocab tp : ℕ) (f : Flags)
    → vocab < 2 ^ 31
    → 2 ≤ tp
    → tp ≤ vocab
    → Good f
    → Inv vocab tp tp (ranks_swept vocab tp f)
unfolding ranks_swept
ranks_swept-Inv vocab tp f small many enough good =
    for_rounds_inv (Inv vocab tp) (band_round vocab tp) tp
      (λ r s h. round-Inv vocab tp many enough small r s h) tp 0 _ (zero-add tp)
      (start-Inv vocab tp many enough small _ refl refl refl good.tiling good.bytes refl)

tile_case-Good :
    (vocab tp : ℕ) (f : Flags) → vocab < 2 ^ 31 → 2 ≤ tp → Good f → Good (tile_case vocab tp f)
unfolding tile_case
tile_case-Good vocab tp f small many good = elim (Bool-cases (ltb vocab tp)) [
  | inl few ↦ rw (few, tile_case) good
  | inr enough ↦
      rw (enough, tile_case)
        (conclude-Good vocab tp (ranks_swept vocab tp f) f (omega arith)
          (ranks_swept-Inv vocab tp f small many (ground arith) good) good)
]

over_tps-Good :
    (tps : List ℕ) (vocab : ℕ) (f : Flags)
    → vocab < 2 ^ 31
    → All (λ tp. 2 ≤ tp) tps
    → Good f
    → Good (over_tps tps vocab f)
unfolding over_tps
over_tps-Good tps vocab f small many =
    for_each_keeps_all Good (λ tp. 2 ≤ tp) (tile_case vocab)
      (λ tp f. tile_case-Good vocab tp f small) tps f many

-- The tiling sweep of gate F finds nothing wrong, for any vocabularies below 2^31 and any rank counts
-- of at least 2: the bands tile the rows with no gap or overlap, each byte offset is the row offset
-- times the row size, and the sizes differ by at most one row.
pub test_tiling-Good :
    (vocabs tps : List ℕ)
    → All (λ v. v < 2 ^ 31) vocabs
    → All (λ tp. 2 ≤ tp) tps
    → Good (test_tiling vocabs tps)
unfolding test_tiling
test_tiling-Good vocabs tps small many =
    for_each_keeps_all Good (λ v. v < 2 ^ 31) (over_tps tps) (λ v f h. over_tps-Good tps v f h many)
      vocabs _ small (record { tiling = refl; bytes = refl; spread = refl })
