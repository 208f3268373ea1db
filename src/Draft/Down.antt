-- ===== src/Draft/Down.antt =====
-- Rules for the loop over the tail lengths.
use kimi_k3_neuron_tp3_dgxsp.Prelude.{ℕ, zero, suc, ◌≤◌, ◌≡◌, ◌≢◌, ◌⊎◌, inl, inr, refl, arith}
use kimi_k3_neuron_tp3_dgxsp.Draft.Config.{Outcome, fault, decline, found, first_down}

pub Outcome-cases :
    {A : Type 0} (o : Outcome A) → (o ≡ fault) ⊎ ((o ≡ decline) ⊎ ((a : A) × (o ≡ found a)))
Outcome-cases fault = inl refl
Outcome-cases decline = inr (inl refl)
Outcome-cases (found a) = inr (inr (a, refl))

module _ {A : Type 0} (body : ℕ → Outcome A) where
  -- The loop faults only where its body does.
  pub first_down-ne-fault :
      (lo n : ℕ) → ((k : ℕ) → lo ≤ k → k ≤ n → body k ≢ fault) → first_down body lo n ≢ fault
  unfolding first_down
  first_down-ne-fault lo zero h = ground (arith, h 0)
  first_down-ne-fault lo (suc n) h =
      ground (arith, h (suc n), first_down-ne-fault lo n (λ k hl hk. h k hl (omega arith)))

  -- A result of the loop is a result of its body at a length of the range.
  pub first_down_result :
      (lo n : ℕ) {a : A}
      → first_down body lo n ≡ found a
      → (k : ℕ) × (lo ≤ k) × (k ≤ n) × (body k ≡ found a)
  unfolding first_down
  first_down_result lo zero e = (0, ground arith, ground arith, ground arith)
  first_down_result lo (suc n) {a} e = elim (Outcome-cases (body (suc n))) [
    | inl faulty ↦ absurd (ground (arith, faulty, e))
    | inr (inl declined) ↦
        let ih : first_down body lo n ≡ found a = ground (arith, declined, e) in
        let (k, hl, hk, at_k) = first_down_result lo n ih in (k, hl, omega arith, at_k)
    | inr (inr (b, got)) ↦ (suc n, ground (arith, got, e), omega arith, ground (arith, got, e))
  ]
