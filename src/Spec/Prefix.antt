-- ===== src/Spec/Prefix.antt =====
-- What the accepted-prefix rule returns, and the stream that a greedy decoder continues with.
use kimi_k3_neuron_tp3_dgxsp.Prelude.{
  ℕ, zero, suc, ◌+◌, ◌≤◌, ◌<◌, ◌≡◌, ◌≢◌, refl, sym, ap, ◌∙◌, some, List, [], ◌∷◌, ◌++◌, length,
  take, get_or, get_elem?, arith, inl, inr, Bool-cases, append_assoc, append-nil,
}
use kimi_k3_neuron_tp3_dgxsp.Prelude.Int.{◌==ℤ◌, ==ℤ_iff, ne_of_==ℤ}
use kimi_k3_neuron_tp3_dgxsp.Draft.Config.{Token}
use kimi_k3_neuron_tp3_dgxsp.Spec.Accept.{Accepted, accept_from, kimi_k3_spec_accept_prefix}
use kimi_k3_neuron_tp3_dgxsp.Spec.Loop.{Oracle, verify_rows}
use mathlib.Core.Option.{some-injective}
use native.Mathlib.Nat.{zero-add}

-- The tokens that greedy decoding appends to a consumed prefix.
abbrev pub continuation : Oracle → List Token → ℕ → List Token
continuation oracle consumed zero = []
continuation oracle consumed (suc n) =
    oracle consumed ∷ continuation oracle (consumed ++ oracle consumed ∷ []) n

pub length-continuation :
    (oracle : Oracle) (consumed : List Token) (n : ℕ) → length (continuation oracle consumed n) ≡ n
length-continuation oracle consumed zero = refl
length-continuation oracle consumed (suc n) =
    ap suc (length-continuation oracle (consumed ++ oracle consumed ∷ []) n)

-- A stream in two stretches.
pub continuation-add :
    (oracle : Oracle) (consumed : List Token) (m n : ℕ)
    → continuation oracle consumed (m + n)
      ≡ continuation oracle consumed m
        ++ continuation oracle (consumed ++ continuation oracle consumed m) n
continuation-add oracle consumed zero n =
    rw (append-nil) (let e : 0 + n ≡ n = omega arith in rw e refl)
continuation-add oracle consumed (suc m) n =
    let e : suc m + n ≡ suc (m + n) = omega arith in
    rw (e, continuation-add oracle (consumed ++ oracle consumed ∷ []) m n, append_assoc) refl

-- The rule as four facts about drafts and rows: the accepted drafts are the rows before j, the bonus
-- is row j, row j differs from draft j where there is one, and j + 1 rows are evaluated.
pub record IsLongestPrefix (row : ℕ → Token) (draft : List Token) (a : Accepted) : Type 0 where
  pub within : a.accepted ≤ length draft
  pub agrees : (i : ℕ) → i < a.accepted → get_elem? draft i ≡ some (row i)
  pub bonus_row : a.bonus ≡ row a.accepted
  pub rejected : get_elem? draft a.accepted ≢ some (row a.accepted)
  pub evaluated : a.calls ≡ a.accepted + 1

-- The loop from draft position j on, with k the drafts that it accepts there.
abbrev From : (ℕ → Token) → List Token → ℕ → ℕ → Accepted → ℕ → Type 0
From row draft j calls a k =
    (a.accepted ≡ j + k)
    × (k ≤ length draft)
    × ((i : ℕ) → i < k → get_elem? draft i ≡ some (row (j + i)))
    × (a.bonus ≡ row (j + k))
    × (get_elem? draft k ≢ some (row (j + k)))
    × (a.calls ≡ calls + k + 1)

From-suc :
    (row : ℕ → Token) (x : Token) (draft : List Token) (j calls : ℕ) (a : Accepted) (k : ℕ)
    → row j ≡ x
    → From row draft (suc j) (suc calls) a k
    → From row (x ∷ draft) j calls a (suc k)
From-suc row x draft j calls a k e (at, le, same, bonus, other, count) =
    let shift = λ (i : ℕ). let e : suc j + i ≡ j + suc i = omega arith in e in
    (
      omega arith,
      omega arith,
      λ i hi. first_or_later i hi,
      rw (← shift k) bonus,
      rw (← shift k) other,
      omega arith,
    )
  where
    first_or_later : (i : ℕ) → i < suc k → get_elem? (x ∷ draft) i ≡ some (row (j + i))
    first_or_later zero hi = let z : j + 0 ≡ j = omega arith in rw (z, e) refl
    first_or_later (suc i) hi =
        let z : suc j + i ≡ j + suc i = omega arith in rw (← z) (same i (omega arith))

accept_from-From :
    (row : ℕ → Token) (draft : List Token) (j calls : ℕ)
    → (k : ℕ) × From row draft j calls (accept_from row draft j calls) k
unfolding accept_from
accept_from-From row [] j calls =
    let z : j + 0 ≡ j = omega arith in
    (0, (omega arith, omega arith, λ i hi. absurd (omega arith), rw z refl, λ p. cc, omega arith))
accept_from-From row (x ∷ draft) j calls = elim (Bool-cases (row j ==ℤ x)) [
  | inl same ↦
      let (k, rest) = accept_from-From row draft (suc j) (suc calls) in
      (suc k, rw (same) (From-suc row x draft j calls _ k ((==ℤ_iff (row j) x).0 same) rest))
  | inr differ ↦
      let z : j + 0 ≡ j = omega arith in
      (
        0,
        rw (differ, z)
            (
              refl,
              omega arith,
              λ i hi. absurd (omega arith),
              refl,
              λ p. ne_of_==ℤ (row j) x differ (cc p),
              omega arith,
            ),
      )
]

-- The rule accepts the longest prefix of the drafts that the rows confirm, reports the row after it
-- as the bonus, and evaluates exactly one row more than it accepts, whatever the rows are.
pub accept_prefix-IsLongestPrefix :
    (draft : List Token) (row : ℕ → Token)
    → IsLongestPrefix row draft (kimi_k3_spec_accept_prefix draft row)
unfolding kimi_k3_spec_accept_prefix
accept_prefix-IsLongestPrefix draft row =
    let (k, facts) = accept_from-From row draft 0 0 in
    let (at, le, same, bonus, other, count) = facts in
    let e : k ≡ (accept_from row draft 0 0).accepted = omega arith in
    record {
      within = omega arith;
      agrees = λ i hi. same i (omega arith) ∙ ap (λ n. some (row n)) (zero-add i);
      bonus_row = bonus ∙ ap row (sym at);
      rejected = λ p. other (ap (get_elem? draft) e ∙ p ∙ ap (λ n. some (row n)) at);
      evaluated = omega arith;
    }

-- Drafts that are each the oracle's token after the drafts before them are the oracle's stream.
take-eq-continuation :
    (oracle : Oracle) (walk draft : List Token) (k : ℕ)
    → ((i : ℕ) → i < k → get_elem? draft i ≡ some (oracle (walk ++ take i draft)))
    → take k draft ≡ continuation oracle walk k
take-eq-continuation oracle walk draft zero h = refl
take-eq-continuation oracle walk [] (suc k) h = absurd (cc (h 0 (omega arith)))
take-eq-continuation oracle walk (x ∷ draft) (suc k) h =
    let first : x ≡ oracle walk = some-injective _ _ (rw append-nil at (h 0 (omega arith))) in
    let later =
      take-eq-continuation oracle (walk ++ x ∷ []) draft k
        (λ i hi. rw append_assoc (h (suc i) (omega arith))) in
    rw later (rw first refl)

-- Row i of the pass over a pending token and its drafts, for every row that there is.
verify_rows-row :
    (oracle : Oracle) (walk : List Token) (x : Token) (draft : List Token) (i : ℕ) (d : Token)
    → i ≤ length draft
    → get_or (verify_rows oracle walk (x ∷ draft)) i d ≡ oracle ((walk ++ x ∷ []) ++ take i draft)
unfolding verify_rows
verify_rows-row oracle walk x draft zero d h = rw append-nil refl
verify_rows-row oracle walk x [] (suc i) d h = absurd (omega arith)
verify_rows-row oracle walk x (y ∷ draft) (suc i) d h =
    verify_rows-row oracle (walk ++ x ∷ []) y draft i d (omega arith)
    ∙ ap oracle (append_assoc (walk ++ x ∷ []) (y ∷ []) (take i draft))

-- A verify pass emits what greedy decoding emits: the accepted drafts and the bonus are the next
-- j + 1 tokens of the stream, for any drafts at all.
pub accept_prefix-eq-continuation :
    (oracle : Oracle) (walk : List Token) (x : Token) (draft : List Token) (d : Token)
    → let a =
        kimi_k3_spec_accept_prefix draft (λ r. get_or (verify_rows oracle walk (x ∷ draft)) r d) in
      take a.accepted draft ++ a.bonus ∷ [] ≡ continuation oracle (walk ++ x ∷ []) (a.accepted + 1)
accept_prefix-eq-continuation oracle walk x draft d =
    let row = λ (r : ℕ). get_or (verify_rows oracle walk (x ∷ draft)) r d in
    let a = kimi_k3_spec_accept_prefix draft row in
    let longest = accept_prefix-IsLongestPrefix draft row in
    let kept = take-eq-continuation oracle (walk ++ x ∷ []) draft a.accepted (λ i hi.
      longest.agrees i hi
      ∙ ap (λ (t : Token). some t)
          (verify_rows-row oracle walk x draft i d (omega (arith, longest.within)))) in
    let bonus =
      longest.bonus_row ∙ verify_rows-row oracle walk x draft a.accepted d longest.within in
    rw (continuation-add oracle (walk ++ x ∷ []) a.accepted 1, ← kept) (rw bonus refl)
