-- ===== src/Protocol/Text.antt =====
-- Texts and arrays of bytes: literals, and `==` on std::array.
use Prim.Native.Char.{code}
use Prim.Native.String.{String}
use kimi_k3_neuron_tp3_dgxsp.Prelude.{
  zero, suc, Bool, true, false, ◌&&◌, ◌≡◌, refl, arith, List, [], ◌∷◌, ◌==◌,
}
use kimi_k3_neuron_tp3_dgxsp.Protocol.Message.{Byte, Text}

-- The bytes of a literal, which is ASCII.
unfoldable pub text : String → Text
text String.[] = []
text (String.◌∷◌ c s) = code c ∷ text s

unfoldable pub same_bytes : List Byte → List Byte → Bool
same_bytes [] [] = true
same_bytes (x ∷ xs) (y ∷ ys) = x == y && same_bytes xs ys
same_bytes _ _ = false

pub same_bytes_refl : (xs : List Byte) → same_bytes xs xs ≡ true
unfolding same_bytes
same_bytes_refl [] = refl
same_bytes_refl (x ∷ xs) = ground (arith, same_bytes_refl xs)

-- `for (v : bytes) if (v != 0) return true;`.
unfoldable pub any_nonzero : List Byte → Bool
any_nonzero [] = false
any_nonzero (zero ∷ bs) = any_nonzero bs
any_nonzero (suc b ∷ bs) = true
