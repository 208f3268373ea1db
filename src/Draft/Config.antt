-- ===== src/Draft/Config.antt =====
-- K3NgramDraftConfig, K3NgramDraftInfo and what a scan for one tail length may end in.
-- The `int` fields are naturals: a negative value takes the same branches as 0 everywhere in the
-- drafter, and the command line refuses it.
use kimi_k3_neuron_tp3_dgxsp.Prelude.{ℕ, zero, suc, Bool, false, List, leb, if◌then◌else◌}
use kimi_k3_neuron_tp3_dgxsp.Prelude.Int.{ℤ}

-- A token id is an `int`.
abbrev pub Token : Type 0
Token = ℤ

pub record K3NgramDraftConfig : Type 0 where
  pub n_max : ℕ
  pub n_min : ℕ
  pub min_occurrences : ℕ
  pub require_agreement : Bool
  pub weak_max_draft : ℕ
  pub majority_num : ℕ
  pub majority_den : ℕ

abbrev pub default_config : K3NgramDraftConfig
default_config = record {
  n_max = 3;
  n_min = 2;
  min_occurrences = 1;
  require_agreement = false;
  weak_max_draft = 0;
  majority_num = 0;
  majority_den = 1;
}

pub record K3NgramDraftInfo : Type 0 where
  pub n : ℕ
  pub occurrences : ℕ
  pub agreed : Bool
  pub weak : Bool

abbrev pub no_info : K3NgramDraftInfo
no_info = record { n = 0; occurrences = 0; agreed = false; weak = false }

-- The tokens that a span match pushes, the count that it returns, and what is logged about it.
pub record Match : Type 0 where
  pub tokens : List Token
  pub drafted : ℕ
  pub info : K3NgramDraftInfo

-- One tail length: an element of an empty vector was read, `continue`, or a result.
pub data Outcome (A : Type 0) : Type 0 where
  fault : Outcome A
  decline : Outcome A
  found : A → Outcome A

-- `for (int n = n_hi; n >= n_lo; --n)`, left by the first result.
unfoldable pub first_down : {A : Type 0} → (ℕ → Outcome A) → ℕ → ℕ → Outcome A
first_down body n_lo zero = if leb n_lo 0 then body 0 else decline
first_down body n_lo (suc n) =
    if leb n_lo (suc n)
    then (elim (body (suc n)) [
      | fault ↦ fault
      | decline ↦ first_down body n_lo n
      | found a ↦ found a
    ])
    else decline
