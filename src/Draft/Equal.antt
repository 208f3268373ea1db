-- ===== src/Draft/Equal.antt =====
-- Comparing a vector with itself.
use kimi_k3_neuron_tp3_dgxsp.Prelude.{◌≡◌, refl, true, List, [], ◌∷◌}
use kimi_k3_neuron_tp3_dgxsp.Prelude.Int.{==ℤ-refl}
use kimi_k3_neuron_tp3_dgxsp.Draft.Config.{Token}
use kimi_k3_neuron_tp3_dgxsp.Draft.Window.{memcmp_eq}

pub memcmp_eq_refl : (xs : List Token) → memcmp_eq xs xs ≡ true
unfolding memcmp_eq
memcmp_eq_refl [] = refl
memcmp_eq_refl (x ∷ xs) = rw (==ℤ-refl x) (memcmp_eq_refl xs)
