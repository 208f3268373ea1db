-- ===== src/Protocol/Stages.antt =====
-- What has been acknowledged in each state of a coordinator.
use mathlib.Core.Path.{subst}
use kimi_k3_neuron_tp3_dgxsp.Prelude.{
  ℕ, ◌≡◌, refl, sym, ap, ◌∙◌, Bool, true, false, not, ◌||◌, ◌⊎◌, inl, inr, if◌then◌else◌, ◌==◌,
  ==_iff, Bool-cases, get_or,
}
use kimi_k3_neuron_tp3_dgxsp.Prelude.Int.{ℤ, pos, ◌==ℤ◌}
use kimi_k3_neuron_tp3_dgxsp.Protocol.Message.{Text, Phase, Message, same_phase}
use kimi_k3_neuron_tp3_dgxsp.Protocol.Coordinator.{
  AuthenticatedPeer, Coordinator, CoordinatorState, state_code, same_state, all_seen, set_at,
  Verdict, abort, goes,
}
use kimi_k3_neuron_tp3_dgxsp.Protocol.Accept.{
  index, on_hello, on_nccl_ready, on_load_ready, on_step_done, on_finish_ack,
}

state_of : ℕ → CoordinatorState
state_of n =
    if n == 0
    then CoordinatorState.collecting_hello
    else (if n == 1
        then CoordinatorState.awaiting_nccl_unique_id
        else (if n == 2
            then CoordinatorState.waiting_nccl_ready
            else (if n == 3
                then CoordinatorState.waiting_load_ready
                else (if n == 4
                    then CoordinatorState.ready
                    else (if n == 5
                        then CoordinatorState.step_in_flight
                        else (if n == 6
                            then CoordinatorState.waiting_finish_ack
                            else (if n == 7
                                then CoordinatorState.finished
                                else CoordinatorState.failed)))))))

state_of-state_code : (s : CoordinatorState) → state_of (state_code s) ≡ s
unfolding state_of state_code
state_of-state_code CoordinatorState.collecting_hello = refl
state_of-state_code CoordinatorState.awaiting_nccl_unique_id = refl
state_of-state_code CoordinatorState.waiting_nccl_ready = refl
state_of-state_code CoordinatorState.waiting_load_ready = refl
state_of-state_code CoordinatorState.ready = refl
state_of-state_code CoordinatorState.step_in_flight = refl
state_of-state_code CoordinatorState.waiting_finish_ack = refl
state_of-state_code CoordinatorState.finished = refl
state_of-state_code CoordinatorState.failed = refl

pub eq_of_same_state : (a b : CoordinatorState) → same_state a b ≡ true → a ≡ b
unfolding same_state
eq_of_same_state a b h =
    sym (state_of-state_code a)
    ∙ ap state_of ((==_iff (state_code a) (state_code b)).0 h)
    ∙ state_of-state_code b

-- Every rank has said Hello, has its communicator, and has loaded.
abbrev pub IsLoaded : Coordinator → Type 0
IsLoaded c =
    (all_seen c.hello ≡ true) × (all_seen c.nccl_ready ≡ true) × (all_seen c.load_ready ≡ true)

-- No step has been made, or every rank has acknowledged the last one.
abbrev pub IsAcknowledged : Coordinator → Type 0
IsAcknowledged c = (c.next_sequence ≡ 0) ⊎ (all_seen c.step_done ≡ true)

abbrev pub Stage : CoordinatorState → Coordinator → Type 0
Stage CoordinatorState.collecting_hello c = c.next_sequence ≡ 0
Stage CoordinatorState.awaiting_nccl_unique_id c = (all_seen c.hello ≡ true) × (c.next_sequence ≡ 0)
Stage CoordinatorState.waiting_nccl_ready c = (all_seen c.hello ≡ true) × (c.next_sequence ≡ 0)
Stage CoordinatorState.waiting_load_ready c =
    (all_seen c.hello ≡ true) × (all_seen c.nccl_ready ≡ true) × (c.next_sequence ≡ 0)
Stage CoordinatorState.ready c = IsLoaded c × IsAcknowledged c
Stage CoordinatorState.step_in_flight c = IsLoaded c
Stage CoordinatorState.waiting_finish_ack c = IsLoaded c × IsAcknowledged c
Stage CoordinatorState.finished c = IsLoaded c × IsAcknowledged c × (all_seen c.finish_ack ≡ true)
Stage CoordinatorState.failed c = Unit {0}

abbrev pub IsStaged : Coordinator → Type 0
IsStaged c = Stage c.state c

-- A verdict that goes on does so in a stage that holds.
abbrev pub Staged : Verdict → Type 0
Staged (abort phase status detail) = Unit {0}
Staged (goes c out) = IsStaged c

-- A check that aborts, and what is behind it.
pub Staged-if :
    (t : Bool) (v : Verdict) (phase : Phase) (status : ℤ) (detail : Text)
    → (t ≡ false → Staged v)
    → Staged (if t then abort phase status detail else v)
Staged-if true v phase status detail h = tt
Staged-if false v phase status detail h = h refl

pub Staged-both :
    (t : Bool) (v w : Verdict)
    → (t ≡ true → Staged v)
    → (t ≡ false → Staged w)
    → Staged (if t then v else w)
Staged-both true v w h k = h refl
Staged-both false v w h k = k refl

Stage-if :
    (t : Bool) (a b : CoordinatorState) (c : Coordinator)
    → (t ≡ true → Stage a c)
    → (t ≡ false → Stage b c)
    → Stage (if t then a else b) c
Stage-if true a b c h k = h refl
Stage-if false a b c h k = k refl

or_left : (a b : Bool) → (a || b) ≡ false → a ≡ false
or_left true b e = cc
or_left false b e = refl

-- The state that a check asks for, from the check.
at_state :
    (c : Coordinator) (s : CoordinatorState) (b : Bool)
    → (not (same_state c.state s) || b) ≡ false
    → c.state ≡ s
at_state c s b e = elim (Bool-cases (same_state c.state s)) [
  | inl there ↦ eq_of_same_state c.state s there
  | inr elsewhere ↦ absurd (cc (rw elsewhere at e))
]

-- A stage that stays where it is.
stays : (c d : Coordinator) (s : CoordinatorState) → c.state ≡ s → Stage s d → Stage c.state d
stays c d s e h = subst (λ t. Stage t d) (sym e) h

pub on_hello-Staged :
    (p : AuthenticatedPeer) (m : Message) (c : Coordinator) → IsStaged c → Staged (on_hello p m c)
unfolding on_hello
on_hello-Staged p m c h =
    let hello = set_at (index m.rank) true c.hello in
    Staged-if
      (not (same_state c.state CoordinatorState.collecting_hello)
        || not (m.sequence == 0)
        || not (same_phase m.phase Phase.bootstrap))
      _ _ _ _
      (λ e.
        let here = at_state c CoordinatorState.collecting_hello _ (or_left _ _ e) in
        let zero_yet = subst (λ s. Stage s c) here h in
        Staged-if (get_or c.hello (index m.rank) false) _ _ _ _ (λ _.
          Stage-if (all_seen hello) _ _ _ (λ full. (full, zero_yet))
            (λ _. stays c _ CoordinatorState.collecting_hello here zero_yet)))

pub on_nccl_ready-Staged : (m : Message) (c : Coordinator) → IsStaged c → Staged (on_nccl_ready m c)
unfolding on_nccl_ready
on_nccl_ready-Staged m c h =
    Staged-if
      (not (same_state c.state CoordinatorState.waiting_nccl_ready)
        || not (m.sequence == 0)
        || not (m.status ==ℤ pos 0)
        || not (same_phase m.phase Phase.nccl_init))
      _ _ _ _
      (λ e.
        let here = at_state c CoordinatorState.waiting_nccl_ready _ (or_left _ _ (or_left _ _ e)) in
        let (greeted, zero_yet) = subst (λ s. Stage s c) here h in
        Staged-if (get_or c.nccl_ready (index m.rank) false) _ _ _ _ (λ _.
          Staged-both (all_seen (set_at (index m.rank) true c.nccl_ready)) _ _
            (λ full. (greeted, full, zero_yet))
            (λ _. stays c _ CoordinatorState.waiting_nccl_ready here (greeted, zero_yet))))

pub on_load_ready-Staged : (m : Message) (c : Coordinator) → IsStaged c → Staged (on_load_ready m c)
unfolding on_load_ready
on_load_ready-Staged m c h =
    Staged-if
      (not (same_state c.state CoordinatorState.waiting_load_ready)
        || not (m.sequence == 0)
        || not (m.status ==ℤ pos 0)
        || not (same_phase m.phase Phase.load))
      _ _ _ _
      (λ e.
        let here = at_state c CoordinatorState.waiting_load_ready _ (or_left _ _ (or_left _ _ e)) in
        let (greeted, connected, zero_yet) = subst (λ s. Stage s c) here h in
        Staged-if (get_or c.load_ready (index m.rank) false) _ _ _ _ (λ _.
          Stage-if (all_seen (set_at (index m.rank) true c.load_ready)) _ _ _
            (λ full. ((greeted, connected, full), inl zero_yet))
            (λ _.
              stays c _ CoordinatorState.waiting_load_ready here (greeted, connected, zero_yet))))

pub on_step_done-Staged : (m : Message) (c : Coordinator) → IsStaged c → Staged (on_step_done m c)
unfolding on_step_done
on_step_done-Staged m c h =
    Staged-if
      (not (same_state c.state CoordinatorState.step_in_flight)
        || not (m.sequence == c.next_sequence)
        || not (m.status ==ℤ pos 0)
        || not (same_phase m.phase Phase.step))
      _ _ _ _
      (λ e.
        let here = at_state c CoordinatorState.step_in_flight _ (or_left _ _ (or_left _ _ e)) in
        let loaded = subst (λ s. Stage s c) here h in
        Staged-if (get_or c.step_done (index m.rank) false) _ _ _ _ (λ _.
          Staged-both (all_seen (set_at (index m.rank) true c.step_done)) _ _
            (λ full. (loaded, inr full))
            (λ _. stays c _ CoordinatorState.step_in_flight here loaded)))

pub on_finish_ack-Staged : (m : Message) (c : Coordinator) → IsStaged c → Staged (on_finish_ack m c)
unfolding on_finish_ack
on_finish_ack-Staged m c h =
    Staged-if
      (not (same_state c.state CoordinatorState.waiting_finish_ack)
        || not (m.sequence == c.next_sequence)
        || not (m.status ==ℤ pos 0)
        || not (same_phase m.phase Phase.shutdown))
      _ _ _ _
      (λ e.
        let here = at_state c CoordinatorState.waiting_finish_ack _ (or_left _ _ (or_left _ _ e)) in
        let (loaded, acknowledged) = subst (λ s. Stage s c) here h in
        Staged-if (get_or c.finish_ack (index m.rank) false) _ _ _ _ (λ _.
          Stage-if (all_seen (set_at (index m.rank) true c.finish_ack)) _ _ _
            (λ full. (loaded, acknowledged, full))
            (λ _. stays c _ CoordinatorState.waiting_finish_ack here (loaded, acknowledged))))
