-- ===== src/Protocol/Aborts.antt =====
-- The phase that an abort of Coordinator::accept names.
use kimi_k3_neuron_tp3_dgxsp.Prelude.{
  ◌≡◌, refl, Bool, true, false, not, inl, inr, if◌then◌else◌, Bool-cases, Option-cases,
}
use kimi_k3_neuron_tp3_dgxsp.Prelude.Int.{pos, ◌==ℤ◌}
use kimi_k3_neuron_tp3_dgxsp.Protocol.Message.{Phase, Message, MessageType, same_phase}
use kimi_k3_neuron_tp3_dgxsp.Protocol.Coordinator.{
  AuthenticatedPeer, Coordinator, CoordinatorState, Verdict, abort, goes, matches_cluster,
  coordinator_phase,
}
use kimi_k3_neuron_tp3_dgxsp.Protocol.Accept.{
  judge, bound, dispatch, on_hello, on_nccl_ready, on_load_ready, on_step_done, on_finish_ack,
  on_failure,
}

-- An abort names the phase in which it happens.
abbrev pub IsNamed : Phase → Type 0
IsNamed phase = same_phase phase Phase.none ≡ false

abbrev pub proper : Verdict → Bool
proper (abort phase status detail) = not (same_phase phase Phase.none)
proper (goes c out) = true

pub proper_if :
    (t : Bool) (a b : Verdict) → proper (if t then a else b) ≡ (if t then proper a else proper b)
proper_if true a b = refl
proper_if false a b = refl

pub if_same : (t : Bool) → (if t then true else true) ≡ true
if_same true = refl
if_same false = refl

pub coordinator_phase-IsNamed : (s : CoordinatorState) → IsNamed (coordinator_phase s)
unfolding coordinator_phase same_phase
coordinator_phase-IsNamed CoordinatorState.collecting_hello = refl
coordinator_phase-IsNamed CoordinatorState.awaiting_nccl_unique_id = refl
coordinator_phase-IsNamed CoordinatorState.waiting_nccl_ready = refl
coordinator_phase-IsNamed CoordinatorState.waiting_load_ready = refl
coordinator_phase-IsNamed CoordinatorState.ready = refl
coordinator_phase-IsNamed CoordinatorState.step_in_flight = refl
coordinator_phase-IsNamed CoordinatorState.waiting_finish_ack = refl
coordinator_phase-IsNamed CoordinatorState.finished = refl
coordinator_phase-IsNamed CoordinatorState.failed = refl

pub ruleset proper_rules = (proper_if, if_same)

on_failure-proper : (m : Message) (c : Coordinator) → proper (on_failure m c) ≡ true
unfolding on_failure
on_failure-proper m c = elim (Bool-cases (same_phase m.phase Phase.none)) [
  | inl unnamed ↦ elim (Bool-cases (m.status ==ℤ pos 0)) [
    | inl nothing ↦ rw (on_failure, nothing, coordinator_phase-IsNamed c.state) refl
    | inr given ↦ rw (on_failure, given, unnamed, coordinator_phase-IsNamed c.state) refl
  ]
  | inr named ↦ simp (on_failure, named, proper_rules, coordinator_phase-IsNamed c.state)
]

dispatch-proper :
    (p : AuthenticatedPeer) (m : Message) (c : Coordinator) (t : MessageType)
    → m.type ≡ t
    → proper (dispatch p m c) ≡ true
unfolding dispatch on_hello on_nccl_ready on_load_ready on_step_done on_finish_ack same_phase
dispatch-proper p m c MessageType.hello e = rw (dispatch, e) (simp (on_hello, proper_rules))
dispatch-proper p m c MessageType.nccl_ready e =
    rw (dispatch, e) (simp (on_nccl_ready, proper_rules))
dispatch-proper p m c MessageType.load_ready e =
    rw (dispatch, e) (simp (on_load_ready, proper_rules))
dispatch-proper p m c MessageType.step_done e = rw (dispatch, e) (simp (on_step_done, proper_rules))
dispatch-proper p m c MessageType.failure e = rw (dispatch, e) (on_failure-proper m c)
dispatch-proper p m c MessageType.finish_ack e =
    rw (dispatch, e) (simp (on_finish_ack, proper_rules))
dispatch-proper p m c MessageType.nccl_unique_id e =
    rw (dispatch, e, coordinator_phase-IsNamed c.state) refl
dispatch-proper p m c MessageType.begin_load e =
    rw (dispatch, e, coordinator_phase-IsNamed c.state) refl
dispatch-proper p m c MessageType.token e = rw (dispatch, e, coordinator_phase-IsNamed c.state) refl
dispatch-proper p m c MessageType.abort e = rw (dispatch, e, coordinator_phase-IsNamed c.state) refl
dispatch-proper p m c MessageType.finish e =
    rw (dispatch, e, coordinator_phase-IsNamed c.state) refl

pub judge-proper :
    (p : AuthenticatedPeer) (m : Message) (c : Coordinator) → proper (judge p m c) ≡ true
unfolding judge bound
judge-proper p m c =
    let named = coordinator_phase-IsNamed c.state in
    let behind = dispatch-proper p m c m.type refl in
    elim (Option-cases (matches_cluster c.cluster m)) [
      | inl ours ↦ simp (judge, bound, ours, proper_rules, named, behind)
      | inr (why, other) ↦ simp (judge, other, proper_rules, named)
    ]
