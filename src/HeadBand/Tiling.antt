-- ===== src/HeadBand/Tiling.antt =====
-- The bands of the ranks tile the vocabulary.
use native.Mathlib.Nat.{div-add-mod, mod-lt}
use kimi_k3_neuron_tp3_dgxsp.Prelude.{
  ℕ, zero, suc, ◌+◌, ◌-◌, ◌/◌, ◌%◌, ◌≤◌, ◌<◌, ◌≡◌, Bool, true, false, some, arith,
}
use kimi_k3_neuron_tp3_dgxsp.Prelude.Int.{ℤ, pos, pos_part, ltb_ℤ, leb_ℤ}
use kimi_k3_neuron_tp3_dgxsp.HeadBand.Band.{
  K3HeadBand, band_rows, band_offset, band, k3_head_band_uneven,
}

pub band_offset-zero : (vocab tp_size : ℕ) → band_offset vocab tp_size 0 ≡ 0
unfolding band_offset
band_offset-zero vocab tp_size = ground arith

-- A band ends where the next one starts.
pub band_offset-suc :
    (vocab tp_size rank : ℕ)
    → band_offset vocab tp_size rank + band_rows vocab tp_size rank
      ≡ band_offset vocab tp_size (suc rank)
unfolding band_offset band_rows
band_offset-suc vocab tp_size rank = ground arith

-- The last band ends at the end of the vocabulary.
pub band_offset-all : (vocab tp_size : ℕ) → 0 < tp_size → band_offset vocab tp_size tp_size ≡ vocab
unfolding band_offset
band_offset-all vocab tp_size h = ground (arith, div-add-mod vocab tp_size, mod-lt vocab h)

pub band_offset_mono_suc :
    (vocab tp_size rank : ℕ) → band_offset vocab tp_size rank ≤ band_offset vocab tp_size (suc rank)
band_offset_mono_suc vocab tp_size rank = omega (arith, band_offset-suc vocab tp_size rank)

pub band_offset_mono :
    (vocab tp_size rank d : ℕ)
    → band_offset vocab tp_size rank ≤ band_offset vocab tp_size (rank + d)
band_offset_mono vocab tp_size rank zero =
    let e : rank + 0 ≡ rank = omega arith in rw e (omega arith)
band_offset_mono vocab tp_size rank (suc d) =
    let e : rank + suc d ≡ suc (rank + d) = omega arith in
    rw e (
      omega (
        arith,
        band_offset_mono vocab tp_size rank d,
        band_offset_mono_suc vocab tp_size (rank + d),
      ))

pub band-le-vocab :
    (vocab tp_size rank : ℕ)
    → rank < tp_size
    → band_offset vocab tp_size rank + band_rows vocab tp_size rank ≤ vocab
band-le-vocab vocab tp_size rank h =
    let e : suc rank + (tp_size - suc rank) ≡ tp_size = omega arith in
    omega (
      arith,
      band_offset-suc vocab tp_size rank,
      rw e at (band_offset_mono vocab tp_size (suc rank) (tp_size - suc rank)),
      band_offset-all vocab tp_size (omega arith),
    )

pub band_rows_balanced :
    (vocab tp_size rank : ℕ)
    → (vocab / tp_size ≤ band_rows vocab tp_size rank)
      × (band_rows vocab tp_size rank ≤ vocab / tp_size + 1)
unfolding band_rows
band_rows_balanced vocab tp_size rank = ground arith

pub div_pos : (n d : ℕ) → 0 < d → d ≤ n → 0 < n / d
div_pos n d h le = grind (arith, div-add-mod n d, mod-lt n h)

pub div-le : (n d : ℕ) → 0 < d → n / d ≤ n
div-le n d h = grind (arith, div-add-mod n d)

-- What an answer says of the request: every guard has passed, and the answer is the closed form.
pub record IsGranted (sink enabled : Bool) (vocab : ℤ) (weight_bytes : ℕ) (tp_size rank : ℤ)
    (b : K3HeadBand) : Type 0 where
  pub sunk : sink ≡ true
  pub on : enabled ≡ true
  pub many : leb_ℤ tp_size (pos 1) ≡ false
  pub nonneg : ltb_ℤ rank (pos 0) ≡ false
  pub within : ltb_ℤ rank tp_size ≡ true
  pub enough : leb_ℤ tp_size vocab ≡ true
  pub some_bytes : 0 < weight_bytes
  pub whole : weight_bytes % pos_part vocab ≡ 0
  pub closed_form : b ≡ band (pos_part vocab) weight_bytes (pos_part tp_size) (pos_part rank)

-- An answer has passed every guard.
pub uneven-IsGranted :
    (sink enabled : Bool) (vocab : ℤ) (weight_bytes : ℕ) (tp_size rank : ℤ) {b : K3HeadBand}
    → k3_head_band_uneven sink enabled vocab weight_bytes tp_size rank ≡ some b
    → IsGranted sink enabled vocab weight_bytes tp_size rank b
unfolding k3_head_band_uneven
uneven-IsGranted sink enabled vocab weight_bytes tp_size rank e = ground arith

-- With the toggle on and a legal request the call answers.
pub uneven-some :
    (vocab weight_bytes tp_size rank : ℕ)
    → 2 ≤ tp_size
    → rank < tp_size
    → tp_size ≤ vocab
    → 0 < weight_bytes
    → weight_bytes % vocab ≡ 0
    → k3_head_band_uneven true true (pos vocab) weight_bytes (pos tp_size) (pos rank)
      ≡ some (band vocab weight_bytes tp_size rank)
unfolding k3_head_band_uneven
uneven-some vocab weight_bytes tp_size rank many within enough some_bytes whole =
    let full : 0 < vocab / tp_size = div_pos vocab tp_size (omega arith) enough in
    ground (arith, full)
