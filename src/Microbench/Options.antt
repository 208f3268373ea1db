-- ===== src/Microbench/Options.antt =====
-- What the option loop lets through.
use Prim.Native.String.{String}
use kimi_k3_neuron_tp3_dgxsp.Prelude.{
  ℕ, ◌≤◌, ◌<◌, ◌≡◌, refl, false, ◌||◌, List, [], ◌∷◌, arith, inl, inr, Bool-cases,
}
use kimi_k3_neuron_tp3_dgxsp.Prelude.Int.{ℤ, pos, negsuc, ltb_ℤ, leb_ℤ}
use kimi_k3_neuron_tp3_dgxsp.Microbench.Args.{
  Options, defaults, Parsed, exits, parsed, parse, refused, read_args,
}

-- The five options with a value.
pub data Given : Type 0 where
  rank world port host iters : String → Given

-- How an option is spelled on the command line.
abbrev pub spelled : List Given → List String
spelled [] = []
spelled (rank v ∷ gs) = "--rank" ∷ v ∷ spelled gs
spelled (world v ∷ gs) = "--world" ∷ v ∷ spelled gs
spelled (port v ∷ gs) = "--port" ∷ v ∷ spelled gs
spelled (host v ∷ gs) = "--host" ∷ v ∷ spelled gs
spelled (iters v ∷ gs) = "--iters" ∷ v ∷ spelled gs

abbrev pub set : (String → ℤ) → List Given → Options → Options
set atoi [] o = o
set atoi (rank v ∷ gs) o = set atoi gs (record o { rank = atoi v })
set atoi (world v ∷ gs) o = set atoi gs (record o { world = atoi v })
set atoi (port v ∷ gs) o = set atoi gs (record o { port = atoi v })
set atoi (host v ∷ gs) o = set atoi gs (record o { host = v })
set atoi (iters v ∷ gs) o = set atoi gs (record o { iters = atoi v })

-- Options in any order, repeated or left out, each with a value of any text (one that looks like an
-- option too): the loop reads them all, and the last value of each option counts.
pub parse-spelled :
    (atoi : String → ℤ) (gs : List Given) (o : Options)
    → parse atoi (spelled gs) o ≡ parsed (set atoi gs o)
unfolding parse
parse-spelled atoi [] o = refl
parse-spelled atoi (rank v ∷ gs) o = parse-spelled atoi gs (record o { rank = atoi v })
parse-spelled atoi (world v ∷ gs) o = parse-spelled atoi gs (record o { world = atoi v })
parse-spelled atoi (port v ∷ gs) o = parse-spelled atoi gs (record o { port = atoi v })
parse-spelled atoi (host v ∷ gs) o = parse-spelled atoi gs (record o { host = v })
parse-spelled atoi (iters v ∷ gs) o = parse-spelled atoi gs (record o { iters = atoi v })

accepted_range :
    (r w : ℤ)
    → (ltb_ℤ r (pos 0) || leb_ℤ w r || ltb_ℤ w (pos 2)) ≡ false
    → (m n : ℕ) × (r ≡ pos m) × (w ≡ pos n) × (m < n) × (2 ≤ n)
accepted_range (pos m) (pos n) e = (m, n, refl, refl, ground arith, ground arith)
accepted_range (pos m) (negsuc n) e = absurd (ground arith)
accepted_range (negsuc m) w e = absurd (ground arith)

-- Whatever the command line and atoi are, main goes on only with a rank below the world's size and
-- a world of two at least.
pub read_args-InWorld :
    (atoi : String → ℤ) (argv : List String) (o : Options)
    → read_args atoi argv ≡ parsed o
    → (r w : ℕ) × (o.rank ≡ pos r) × (o.world ≡ pos w) × (r < w) × (2 ≤ w)
unfolding read_args refused
read_args-InWorld atoi argv o e = go (parse atoi argv defaults) refl
  where
    go :
        (p : Parsed)
        → parse atoi argv defaults ≡ p
        → (r w : ℕ) × (o.rank ≡ pos r) × (o.world ≡ pos w) × (r < w) × (2 ≤ w)
    go (exits status) q = absurd (cc (rw (q, read_args) at e))
    go (parsed o') q = elim (Bool-cases (refused o')) [
      | inl bad ↦ absurd (cc (rw (q, read_args, bad) at e))
      | inr good ↦
          let same : o' ≡ o = cc (rw (q, read_args, good) at e) in
          accepted_range o.rank o.world (rw same at good)
    ]
