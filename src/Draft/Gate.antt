-- ===== src/Draft/Gate.antt =====
-- Case A11 of gate A, test_drafter of new-tests/kimi_k3_spec_draft_check.cpp: the drafter against
-- reference_draft on random histories and configurations.
use kimi_k3_neuron_tp3_dgxsp.Prelude.{
  ℕ, zero, suc, ◌+◌, ◌*◌, ◌/◌, ◌%◌, ◌^◌, Option, none, some, List, [], ◌∷◌, if◌then◌else◌,
}
use kimi_k3_neuron_tp3_dgxsp.Prelude.Int.{pos}
use kimi_k3_neuron_tp3_dgxsp.Draft.Config.{Token, K3NgramDraftConfig, default_config}
use kimi_k3_neuron_tp3_dgxsp.Draft.Window.{memcmp_eq}
use kimi_k3_neuron_tp3_dgxsp.Draft.Drafter.{draft_of}
use kimi_k3_neuron_tp3_dgxsp.Draft.Reference.{reference_draft}

-- The generator: its next state, and the number that a state gives.
abbrev pub next_state : ℕ → ℕ
next_state s = (s * 1664525 + 1013904223) % 2 ^ 32

abbrev pub drawn : ℕ → ℕ
drawn s = s / 2 ^ 16 % 2 ^ 15

-- `ctx[i] = rnd() % alpha`, and the state after it.
unfoldable pub random_tokens : ℕ → ℕ → ℕ → List Token × ℕ
random_tokens zero alpha s = ([], s)
random_tokens (suc n) alpha s =
    let (rest, s') = random_tokens n alpha (next_state s) in
    (pos (drawn (next_state s) % alpha) ∷ rest, s')

pub record Trial : Type 0 where
  pub ctx : List Token
  pub cfg : K3NgramDraftConfig
  pub md : ℕ
  pub seed : ℕ

unfoldable pub trial : ℕ → Trial
unfolding random_tokens
trial s =
    let s₁ = next_state s in
    let s₂ = next_state s₁ in
    let (ctx, s₃) = random_tokens (1 + drawn s₁ % 40) (2 + drawn s₂ % 5) s₂ in
    let s₄ = next_state s₃ in
    let s₅ = next_state s₄ in
    let s₆ = next_state s₅ in
    let n_max = 1 + drawn s₄ % 4 in
    record {
      ctx = ctx;
      cfg = record default_config { n_max = n_max; n_min = 1 + drawn s₅ % n_max };
      md = drawn s₆ % 6;
      seed = s₆;
    }

-- `if (draft_of(ctx, md, cfg) != reference_draft(ctx, md, cfg)) ++mismatch;`
unfoldable pub compared : Option (List Token) → List Token → ℕ → ℕ
unfolding memcmp_eq
compared none reference mismatch = suc mismatch
compared (some d) reference mismatch = if memcmp_eq d reference then mismatch else suc mismatch

-- The loop, with the trials left.
unfoldable pub mismatches : ℕ → ℕ → ℕ → ℕ
unfolding trial compared draft_of reference_draft
mismatches zero s mismatch = mismatch
mismatches (suc trials) s mismatch =
    let t = trial s in
    mismatches trials t.seed
      (compared (draft_of t.ctx t.md t.cfg) (reference_draft t.ctx t.md t.cfg) mismatch)
