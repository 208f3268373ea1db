-- ===== src/Draft/Window.antt =====
-- Where the tail of the history occurred before, and the tokens that followed it.
use kimi_k3_neuron_tp3_dgxsp.Prelude.{
  ℕ, suc, ◌+◌, ◌-◌, Bool, true, false, ◌&&◌, List, [], ◌∷◌, length, take, drop, get_or, ltb,
  if◌then◌else◌,
}
use kimi_k3_neuron_tp3_dgxsp.Prelude.Int.{pos, ◌==ℤ◌}
use kimi_k3_neuron_tp3_dgxsp.Draft.Config.{Token}

-- `std::memcmp(a, b, n * sizeof(int)) == 0` on two windows of the same size.
unfoldable pub memcmp_eq : List Token → List Token → Bool
memcmp_eq [] [] = true
memcmp_eq (x ∷ xs) (y ∷ ys) = (x ==ℤ y) && memcmp_eq xs ys
memcmp_eq _ _ = false

-- The tail of length n occurs at s: ctx + s against pat = ctx + (len - n).
unfoldable pub hit : List Token → ℕ → ℕ → Bool
unfolding memcmp_eq ◌==ℤ◌
hit ctx n s = memcmp_eq (take n (drop s ctx)) (take n (drop (length ctx - n) ctx))

-- `emit`: at most `cap` tokens from position s + n on.
unfoldable pub emit : List Token → ℕ → ℕ → ℕ → List Token
emit ctx s n cap = take cap (drop (s + n) ctx)

-- `d` of `emit`, which it returns: counted up once for each token that is left from position s + n on,
-- until the loop stops.
unfoldable pub emitted_from : ℕ → List Token → ℕ → ℕ
emitted_from cap [] d = d
emitted_from cap (x ∷ rest) d =
    let more = emitted_from cap rest (suc d) in if ltb d cap then more else d

unfoldable pub emitted : List Token → ℕ → ℕ → ℕ → ℕ
unfolding emitted_from
emitted ctx s n cap = emitted_from cap (drop (s + n) ctx) 0

-- `ctx[s + n]`, read for s + n < len only.
unfoldable pub successor : List Token → ℕ → ℕ → Token
successor ctx n s = get_or ctx (s + n) (pos 0)
