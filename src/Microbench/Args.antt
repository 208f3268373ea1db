-- ===== src/Microbench/Args.antt =====
-- The option loop of the benchmark's main, and the test of what it has read. atoi is a parameter.
use Prim.Native.Nat.{Ordering}
use Prim.Native.String.{String, compare}
use kimi_k3_neuron_tp3_dgxsp.Prelude.{ℕ, Bool, true, false, ◌||◌, List, [], ◌∷◌, if◌then◌else◌}
use kimi_k3_neuron_tp3_dgxsp.Prelude.Int.{ℤ, pos, negsuc, ltb_ℤ, leb_ℤ}

-- `a == b` on std::string.
unfoldable pub same_text : String → String → Bool
same_text a b = elim (compare a b) [ Ordering.eq ↦ true | _ ↦ false ]

pub record Options : Type 0 where
  pub rank : ℤ
  pub world : ℤ
  pub port : ℤ
  pub iters : ℤ
  pub host : String

abbrev pub defaults : Options
defaults = record {
  rank = negsuc 0;
  world = pos 3;
  port = pos 29500;
  iters = pos 200;
  host = "127.0.0.1";
}

-- The loop ends the process with a status, or leaves the options.
pub data Parsed : Type 0 where
  exits : ℕ → Parsed
  parsed : Options → Parsed

-- Whether the word makes the loop call `need`.
unfoldable pub takes_value : String → Bool
unfolding same_text
takes_value a =
    same_text a "--rank"
    || same_text a "--world"
    || same_text a "--port"
    || same_text a "--host"
    || same_text a "--iters"

-- The branch that a word with a value takes.
unfoldable pub assign : (String → ℤ) → String → String → Options → Options
unfolding same_text
assign atoi a value o =
    if same_text a "--rank"
    then record o { rank = atoi value }
    else (if same_text a "--world"
        then record o { world = atoi value }
        else (if same_text a "--port"
            then record o { port = atoi value }
            else (if same_text a "--host"
                then record o { host = value }
                else record o { iters = atoi value })))

-- `for (int i = 1; i < argc; ++i)`, from the words that are left; `need` takes the next of them.
unfoldable pub parse : (String → ℤ) → List String → Options → Parsed
unfolding takes_value assign same_text
parse atoi [] o = parsed o
parse atoi (a ∷ []) o =
    if takes_value a then exits 2 else (if same_text a "--help" then exits 0 else parsed o)
parse atoi (a ∷ value ∷ argv) o =
    let after = parse atoi argv (assign atoi a value o) in
    let skipped = parse atoi (value ∷ argv) o in
    if takes_value a then after else (if same_text a "--help" then exits 0 else skipped)

-- `if (rank < 0 || rank >= world || world < 2) die(...)`.
unfoldable pub refused : Options → Bool
refused o = ltb_ℤ o.rank (pos 0) || leb_ℤ o.world o.rank || ltb_ℤ o.world (pos 2)

-- main as far as the exchange of the id.
unfoldable pub read_args : (String → ℤ) → List String → Parsed
unfolding parse refused
read_args atoi argv = elim (parse atoi argv defaults) [
  | exits status ↦ exits status
  | parsed o ↦ if refused o then exits 2 else parsed o
]
