-- ===== src/Rollback/Tests.antt =====
-- A small engine that keeps snapshots, and the theorems on it. Its core is a number; a token alone and a
-- row of a wide pass mix differently.
use kimi_k3_neuron_tp3_dgxsp.Prelude.{
  ℕ, ◌+◌, ◌*◌, ◌<◌, ◌≡◌, refl, ap, Bool, true, false, Option, none, some, List, [], ◌∷◌, length,
  get_elem?, ltb, ◌==◌, ==_iff, if◌then◌else◌, arith,
}
use kimi_k3_neuron_tp3_dgxsp.Prelude.Int.{pos, pos_part}
use kimi_k3_neuron_tp3_dgxsp.Draft.Config.{Token}
use kimi_k3_neuron_tp3_dgxsp.Rollback.Engine.{Engine}
use kimi_k3_neuron_tp3_dgxsp.Rollback.Gate.{run_spec_rollback_check}
use kimi_k3_neuron_tp3_dgxsp.Rollback.Snapshots.{Snapshots, cores, rows, last_core, IsSnapshots}
use kimi_k3_neuron_tp3_dgxsp.Rollback.Sound.{RingInert, SuffixIndependent, gate_sound}
use kimi_k3_neuron_tp3_dgxsp.Rollback.Passes.{gate_passes}

record Live : Type 0 where
  core : ℕ
  ring : List ℕ
  on : Bool

abbrev mixed : ℕ → ℕ → Token → ℕ × List ℕ
mixed k c t = (c * 2 + pos_part t + k, (c + pos_part t) ∷ k ∷ [])

abbrev restored : Live → Option ℕ → Option Live
restored st none = none
restored st (some c) = some (record st { core = c })

abbrev toy : Engine
toy = record {
  Float = ℕ;
  same_bits = λ a b. a == b;
  greater = λ a b. ltb b a;
  State = Live;
  reset_state = λ st. record st { core = 0; ring = [] };
  synchronize = λ st. some st;
  forward_token = λ st t. some (record st { core = (mixed 0 st.core t).0 }, (mixed 0 st.core t).1);
  forward_batch = λ st ids. some (
    record st {
      core = last_core (mixed (length ids)) st.core ids;
      ring = if st.on then cores (mixed (length ids)) st.core ids else [];
    },
    rows (mixed (length ids)) st.core ids,
  );
  set_rollback = λ st on. record st { on = on };
  forward_rollback = λ st j. restored st (get_elem? st.ring j);
}

abbrev kept : Snapshots toy
kept = record {
  Core = ℕ;
  core = λ st. st.core;
  ring = λ st. st.ring;
  enabled = λ st. st.on;
  max_width = 8;
  start = 0;
  step = mixed 0;
  row = mixed;
}

kept-IsSnapshots : IsSnapshots kept
kept-IsSnapshots = record {
  synchronize = λ st. refl;
  reset_core = λ st. refl;
  reset_enabled = λ st. refl;
  switch_core = λ st on. refl;
  switch_enabled = λ st on. refl;
  token = λ st t. (record st { core = (mixed 0 st.core t).0 }, refl, refl, refl);
  batch = λ st ids lo hi. (
    record st {
      core = last_core (mixed (length ids)) st.core ids;
      ring = if st.on then cores (mixed (length ids)) st.core ids else [];
    },
    refl,
    λ on. ap (λ b. if b then cores (mixed (length ids)) st.core ids else []) on,
    refl,
  );
  rollback = λ st j c on snap. (record st { core = c }, ap (restored st) snap, refl, refl);
  same_bits-refl = λ x. (==_iff x x).1 refl;
}

abbrev idle : Live
idle = record { core = 5; ring = []; on = false }

abbrev prompt : List Token
prompt = pos 3 ∷ pos 1 ∷ pos 4 ∷ []

gate_passes_example : run_spec_rollback_check toy true prompt 4 2 idle ≡ some 0
gate_passes_example =
    gate_passes kept kept-IsSnapshots true prompt 4 2 idle (omega arith) (omega arith)

passed : run_spec_rollback_check toy true prompt 4 2 idle ≡ some 0
unfolding run_spec_rollback_check
passed = refl

gate_sound_example : RingInert toy prompt 3 × ((j : ℕ) → j < 3 → SuffixIndependent toy prompt 2 3 j)
gate_sound_example = gate_sound toy prompt 4 2 idle passed 3 (omega arith) (omega arith)

-- An engine whose rollback restores nothing fails the gate.
abbrev broken : Engine
broken = record toy { forward_rollback = λ st j. some st }

caught : run_spec_rollback_check broken true prompt 4 2 idle ≡ some 1
unfolding run_spec_rollback_check
caught = refl
