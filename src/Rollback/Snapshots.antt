-- ===== src/Rollback/Snapshots.antt =====
-- Engines that keep a snapshot of the state after each row of a pass: the interface that the gate's
-- clients rely on, and what the arms of the gate do on such an engine.
use kimi_k3_neuron_tp3_dgxsp.Prelude.{
  ℕ, zero, suc, ◌≤◌, ◌≡◌, refl, ap, ◌∙◌, Bool, true, some, List, [], ◌∷◌, length, get_elem?,
}
use kimi_k3_neuron_tp3_dgxsp.Draft.Config.{Token}
use kimi_k3_neuron_tp3_dgxsp.Rollback.Engine.{Engine}
use kimi_k3_neuron_tp3_dgxsp.Rollback.Gate.{
  cont_tok, forward_all, replay, capture_from, continue_and_capture, pass_arm, rollback_arm,
  sequential_arm,
}

-- `core` is what later passes read of a state, `ring` the snapshots of the last pass. A token alone and
-- a row of a pass of some width are functions of the core before it, and may differ from each other.
pub record Snapshots (engine : Engine) : Type 1 where
  pub Core : Type 0
  pub core : engine.State → Core
  pub ring : engine.State → List Core
  pub enabled : engine.State → Bool
  pub max_width : ℕ
  pub start : Core
  pub step : Core → Token → Core × List engine.Float
  pub row : ℕ → Core → Token → Core × List engine.Float

-- The cores after each row of a pass of width k, and the rows.
abbrev pub cores : {C R : Type 0} → (C → Token → C × R) → C → List Token → List C
cores row c [] = []
cores row c (t ∷ ts) = (row c t).0 ∷ cores row (row c t).0 ts

abbrev pub rows : {C R : Type 0} → (C → Token → C × R) → C → List Token → List R
rows row c [] = []
rows row c (t ∷ ts) = (row c t).1 ∷ rows row (row c t).0 ts

abbrev pub last_core : {C R : Type 0} → (C → Token → C × R) → C → List Token → C
last_core row c [] = c
last_core row c (t ∷ ts) = last_core row (row c t).0 ts

-- The laws: a reset forgets, a pass reads the core alone and runs its rows in order, the switch changes
-- no core, and a rollback restores the snapshot of its row.
pub record IsSnapshots {engine : Engine} (s : Snapshots engine) : Type 0 where
  pub synchronize : (st : engine.State) → engine.synchronize st ≡ some st
  pub reset_core : (st : engine.State) → s.core (engine.reset_state st) ≡ s.start
  pub reset_enabled : (st : engine.State) → s.enabled (engine.reset_state st) ≡ s.enabled st
  pub switch_core : (st : engine.State) (on : Bool) → s.core (engine.set_rollback st on) ≡ s.core st
  pub switch_enabled : (st : engine.State) (on : Bool) → s.enabled (engine.set_rollback st on) ≡ on
  pub token :
      (st : engine.State) (t : Token)
      → (st' : engine.State) × (engine.forward_token st t ≡ some (st', (s.step (s.core st) t).1))
        × (s.core st' ≡ (s.step (s.core st) t).0)
        × (s.enabled st' ≡ s.enabled st)
  pub batch :
      (st : engine.State) (ids : List Token)
      → 1 ≤ length ids
      → length ids ≤ s.max_width
      → (st' : engine.State) × (engine.forward_batch st ids
          ≡ some (st', rows (s.row (length ids)) (s.core st) ids))
        × (s.enabled st ≡ true → s.ring st' ≡ cores (s.row (length ids)) (s.core st) ids)
        × (s.enabled st' ≡ s.enabled st)
  pub rollback :
      (st : engine.State) (j : ℕ) (c : s.Core)
      → s.enabled st ≡ true
      → get_elem? (s.ring st) j ≡ some c
      → (st' : engine.State) × (engine.forward_rollback st j ≡ some st')
        × (s.core st' ≡ c)
        × (s.enabled st' ≡ s.enabled st)
  pub same_bits-refl : (x : engine.Float) → engine.same_bits x x ≡ true

-- The rows of the forced continuation from step i on.
abbrev pub continued : {C R : Type 0} → (C → Token → C × R) → C → ℕ → ℕ → List R
continued step c zero i = []
continued step c (suc n) i =
    (step c (cont_tok i)).1 ∷ continued step (step c (cont_tok i)).0 n (suc i)

module _ {engine : Engine} (s : Snapshots engine) (laws : IsSnapshots s) where
  forward_all-core :
      (ts : List Token) (st : engine.State)
      → (st' : engine.State) × (forward_all engine ts st ≡ some st')
        × (s.core st' ≡ last_core s.step (s.core st) ts)
        × (s.enabled st' ≡ s.enabled st)
  unfolding forward_all
  forward_all-core [] st = (st, refl, refl, refl)
  forward_all-core (t ∷ ts) st =
      let (st₁, runs, at, on) = laws.token st t in
      let (st₂, more, at', on') = forward_all-core ts st₁ in
      (st₂, rw runs more, at' ∙ ap (λ c. last_core s.step c ts) at, on' ∙ on)

  -- Whatever the state was, a replay leaves the core of the prompt.
  abbrev pub prompt_core : List Token → s.Core
  prompt_core prompt = last_core s.step s.start prompt

  replay-core :
      (prompt : List Token) (st : engine.State)
      → (st' : engine.State) × (replay engine prompt st ≡ some st')
        × (s.core st' ≡ prompt_core prompt)
        × (s.enabled st' ≡ s.enabled st)
  unfolding replay
  replay-core prompt st =
      let (st', runs, at, on) = forward_all-core prompt (engine.reset_state st) in
      (
        st',
        rw (laws.synchronize (engine.reset_state st)) runs,
        at ∙ ap (λ c. last_core s.step c prompt) (laws.reset_core st),
        on ∙ laws.reset_enabled st,
      )

  capture_from-rows :
      (n i : ℕ) (st : engine.State)
      → (st' : engine.State) × (capture_from engine n i st
          ≡ some (st', continued s.step (s.core st) n i))
        × (s.enabled st' ≡ s.enabled st)
  unfolding capture_from
  capture_from-rows zero i st = (st, refl, refl)
  capture_from-rows (suc n) i st =
      let (st₁, runs, at, on) = laws.token st (cont_tok i) in
      let (st₂, more, on') = capture_from-rows n (suc i) st₁ in
      (st₂, rw (runs, more, at) refl, on' ∙ on)

  -- Every arm succeeds, and its rows are a function of the prompt and the ids.
  pub pass_arm-rows :
      (on : Bool) (prompt ids : List Token) (st : engine.State)
      → 1 ≤ length ids
      → length ids ≤ s.max_width
      → (st' : engine.State) × (pass_arm engine on prompt ids st
          ≡ some (st', rows (s.row (length ids)) (prompt_core prompt) ids))
  unfolding pass_arm
  pass_arm-rows on prompt ids st lo hi =
      let (st₁, runs, at, _) = replay-core prompt (engine.set_rollback st on) in
      let (st₂, more, _, _) = laws.batch st₁ ids lo hi in (st₂, rw runs (rw more (rw at refl)))

  pub rollback_arm-rows :
      (prompt ids : List Token) (j n_cont : ℕ) (c : s.Core) (st : engine.State)
      → 1 ≤ length ids
      → length ids ≤ s.max_width
      → s.enabled st ≡ true
      → get_elem? (cores (s.row (length ids)) (prompt_core prompt) ids) j ≡ some c
      → (st' : engine.State) × (rollback_arm engine prompt ids j n_cont st
          ≡ some (st', continued s.step c n_cont 0))
        × (s.enabled st' ≡ true)
  unfolding rollback_arm continue_and_capture
  rollback_arm-rows prompt ids j n_cont c st lo hi on snap =
      let (st₁, runs, at, on₁) = replay-core prompt st in
      let (st₂, passes, ring, on₂) = laws.batch st₁ ids lo hi in
      let stored = ring (on₁ ∙ on) ∙ ap (λ c. cores (s.row (length ids)) c ids) at in
      let (st₃, back, at₃, on₃) =
        laws.rollback st₂ j c (on₂ ∙ on₁ ∙ on) (ap (λ r. get_elem? r j) stored ∙ snap) in
      let (st₄, more, on₄) = capture_from-rows n_cont 0 st₃ in
      (st₄, rw runs (rw passes (rw back (rw more (rw at₃ refl)))), on₄ ∙ on₃ ∙ on₂ ∙ on₁ ∙ on)

  pub sequential_arm-runs :
      (prompt ids : List Token) (n_cont : ℕ) (st : engine.State)
      → (st' : engine.State) × (r : List (List engine.Float)) × (sequential_arm engine prompt ids
            n_cont st
          ≡ some (st', r))
        × (s.enabled st' ≡ s.enabled st)
  unfolding sequential_arm continue_and_capture
  sequential_arm-runs prompt ids n_cont st =
      let (st₁, runs, _, on₁) = replay-core prompt st in
      let (st₂, more, _, on₂) = forward_all-core ids st₁ in
      let (st₃, last, on₃) = capture_from-rows n_cont 0 st₂ in
      (
        st₃,
        continued s.step (s.core st₂) n_cont 0,
        rw runs (rw more (rw last refl)),
        on₃ ∙ on₂ ∙ on₁,
      )
