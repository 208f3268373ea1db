-- ===== src/Protocol/Gathering.antt =====
-- A vector of flags, one for each rank, that is filled in any order: what all five rounds of replies to
-- the coordinator have in common.
use kimi_k3_neuron_tp3_dgxsp.Prelude.{
  ℕ, zero, suc, ◌<◌, ◌≡◌, ◌≢◌, refl, sym, ap, ◌∙◌, arith, Bool, true, false, List, [], ◌∷◌,
  if◌then◌else◌, length, get_or, replicate, All, length-replicate,
}
use kimi_k3_neuron_tp3_dgxsp.Prelude.Loop.{for_each}
use kimi_k3_neuron_tp3_dgxsp.Protocol.Coordinator.{all_true, all_seen, set_at}

-- The ranks of a list are below w, and none stands in it twice.
abbrev pub IsDistinct : List ℕ → Type 0
IsDistinct [] = Unit {0}
IsDistinct (r ∷ rs) = All (λ q. q ≢ r) rs × IsDistinct rs

-- An order in which w ranks come once each.
abbrev pub IsOrder : ℕ → List ℕ → Type 0
IsOrder w order = All (λ r. r < w) order × IsDistinct order × (length order ≡ w)

unseen : List Bool → ℕ
unseen [] = 0
unseen (true ∷ bs) = unseen bs
unseen (false ∷ bs) = suc (unseen bs)

-- A flag that is there and not set.
abbrev IsUnseen : List Bool → ℕ → Type 0
IsUnseen flags r = get_or flags r true ≡ false

pub length-set_at {ℓ} :
    {A : Type ℓ} (i : ℕ) (a : A) (xs : List A) → length (set_at i a xs) ≡ length xs
length-set_at i a [] = refl
length-set_at zero a (x ∷ xs) = refl
length-set_at (suc i) a (x ∷ xs) = ap suc (length-set_at i a xs)

pub get_or-set_at {ℓ} :
    {A : Type ℓ} (i : ℕ) (a : A) (xs : List A) (d : A)
    → i < length xs
    → get_or (set_at i a xs) i d ≡ a
get_or-set_at i a [] d h = absurd (omega arith)
get_or-set_at zero a (x ∷ xs) d h = refl
get_or-set_at (suc i) a (x ∷ xs) d h = get_or-set_at i a xs d (omega arith)

pub get_or-set_at_other {ℓ} :
    {A : Type ℓ} (i j : ℕ) (a : A) (xs : List A) (d : A)
    → j ≢ i
    → get_or (set_at i a xs) j d ≡ get_or xs j d
get_or-set_at_other i j a [] d h = refl
get_or-set_at_other zero zero a (x ∷ xs) d h = absurd (h refl)
get_or-set_at_other zero (suc j) a (x ∷ xs) d h = refl
get_or-set_at_other (suc i) zero a (x ∷ xs) d h = refl
get_or-set_at_other (suc i) (suc j) a (x ∷ xs) d h =
    get_or-set_at_other i j a xs d (λ e. h (ap suc e))

unseen-set_at :
    (r : ℕ) (flags : List Bool)
    → IsUnseen flags r
    → unseen flags ≡ suc (unseen (set_at r true flags))
unfolding unseen
unseen-set_at r [] h = cc
unseen-set_at zero (true ∷ bs) h = cc
unseen-set_at zero (false ∷ bs) h = refl
unseen-set_at (suc r) (true ∷ bs) h = unseen-set_at r bs h
unseen-set_at (suc r) (false ∷ bs) h = ap suc (unseen-set_at r bs h)

all_true-unseen : (bs : List Bool) {n : ℕ} → unseen bs ≡ suc n → all_true bs ≡ false
unfolding unseen
all_true-unseen [] e = absurd (omega arith)
all_true-unseen (true ∷ bs) e = all_true-unseen bs e
all_true-unseen (false ∷ bs) e = refl

all_true-none_unseen : (bs : List Bool) → unseen bs ≡ 0 → all_true bs ≡ true
unfolding unseen
all_true-none_unseen [] e = refl
all_true-none_unseen (true ∷ bs) e = all_true-none_unseen bs e
all_true-none_unseen (false ∷ bs) e = absurd (omega arith)

-- While flags are missing the vector is not full; with none missing, and at least one entry, it is.
all_seen_missing : (flags : List Bool) {n : ℕ} → unseen flags ≡ suc n → all_seen flags ≡ false
unfolding all_seen
all_seen_missing [] e = refl
all_seen_missing (b ∷ bs) e = all_true-unseen (b ∷ bs) e

all_seen_full : (flags : List Bool) → 0 < length flags → unseen flags ≡ 0 → all_seen flags ≡ true
unfolding all_seen
all_seen_full [] h e = absurd (omega arith)
all_seen_full (b ∷ bs) h e = all_true-none_unseen (b ∷ bs) e

unseen-replicate : (n : ℕ) → unseen (replicate n false) ≡ n
unfolding unseen
unseen-replicate zero = refl
unseen-replicate (suc n) = ap suc (unseen-replicate n)

IsUnseen-replicate : (n r : ℕ) → r < n → IsUnseen (replicate n false) r
IsUnseen-replicate zero r h = absurd (omega arith)
IsUnseen-replicate (suc n) zero h = refl
IsUnseen-replicate (suc n) (suc r) h = IsUnseen-replicate n r (omega arith)

All-map : {P Q : ℕ → Type 0} → ((r : ℕ) → P r → Q r) → (rs : List ℕ) → All P rs → All Q rs
All-map f [] h = tt
All-map f (r ∷ rs) h = (f r h.0, All-map f rs h.1)

All-zip :
    {P Q R : ℕ → Type 0}
    → ((r : ℕ) → P r → Q r → R r)
    → (rs : List ℕ) → All P rs
    → All Q rs
    → All R rs
All-zip f [] h k = tt
All-zip f (r ∷ rs) h k = (f r h.0 k.0, All-zip f rs h.1 k.1)

-- A machine that waits for flags, and takes one that is missing.
module _ {S : Type 0} (pending : List Bool → S) (complete : S) (receive : ℕ → S → S) (w : ℕ)
    (takes : (r : ℕ) (flags : List Bool)
      → length flags ≡ w
      → r < w
      → get_or flags r true ≡ false
      → receive r (pending flags) ≡ (
          if all_seen (set_at r true flags) then complete else pending (set_at r true flags))) where
  gather_from :
      (r : ℕ) (rest : List ℕ) (flags : List Bool)
      → length flags ≡ w
      → All (λ q. q < w) (r ∷ rest)
      → All (IsUnseen flags) (r ∷ rest)
      → IsDistinct (r ∷ rest)
      → unseen flags ≡ suc (length rest)
      → for_each (r ∷ rest) receive (pending flags) ≡ complete
  unfolding for_each
  gather_from r [] flags size lt missing distinct count =
      let none_left : unseen (set_at r true flags) ≡ 0 =
        omega (arith, unseen-set_at r flags missing.0, count) in
      let full =
        all_seen_full (set_at r true flags) (omega (arith, length-set_at r true flags, size, lt.0))
          none_left in
      takes r flags size lt.0 missing.0 ∙ rw full refl
  gather_from r (q ∷ rest) flags size lt missing distinct count =
      let flags' = set_at r true flags in
      let left : unseen flags' ≡ suc (length rest) =
        omega (arith, unseen-set_at r flags missing.0, count) in
      let part = all_seen_missing flags' left in
      let still : All (IsUnseen flags') (q ∷ rest) =
        All-zip (λ p ne m. get_or-set_at_other r p true flags true ne ∙ m) (q ∷ rest) distinct.0
          missing.1 in
      ap (for_each (q ∷ rest) receive) (takes r flags size lt.0 missing.0 ∙ rw part refl)
      ∙ gather_from q rest flags' (length-set_at r true flags ∙ size) lt.1 still distinct.1 left

  -- Whatever the order in which the w ranks come, the machine ends complete.
  pub gather :
      (order : List ℕ)
      → 0 < w
      → IsOrder w order
      → for_each order receive (pending (replicate w false)) ≡ complete
  gather [] some (lt, distinct, size) = absurd (omega arith)
  gather (r ∷ rest) some (lt, distinct, size) =
      gather_from r rest (replicate w false) (length-replicate w false) lt
        (All-map (λ q h. IsUnseen-replicate w q h) (r ∷ rest) lt) distinct
        (unseen-replicate w ∙ sym size)
