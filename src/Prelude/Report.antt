-- ===== src/Prelude/Report.antt =====
-- `check` of the gates: the number of checks that fail.
use Prim.Native.Nat.{ℕ, suc}
use mathlib.Core.Bool.{Bool, true, false}
use mathlib.Core.List.{List, [], ◌∷◌}

-- `if (ok) ++g_pass; else ++g_fail;`, the second of the two.
unfoldable pub check : Bool → ℕ → ℕ
check true g_fail = g_fail
check false g_fail = suc g_fail

unfoldable pub checks : List Bool → ℕ → ℕ
unfolding check
checks [] g_fail = g_fail
checks (ok ∷ oks) g_fail = checks oks (check ok g_fail)
