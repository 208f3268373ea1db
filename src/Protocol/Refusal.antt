-- ===== src/Protocol/Refusal.antt =====
-- Calls that are refused while the cluster runs, and the Abort of abort_cluster at each rank.
use mathlib.Core.Path.{subst}
use kimi_k3_neuron_tp3_dgxsp.Prelude.{
  ℕ, ◌<◌, ◌≡◌, refl, sym, ap, ◌∙◌, Bool, true, false, not, ◌⊎◌, inl, inr, if◌then◌else◌, Bool-cases,
  get_or,
}
use kimi_k3_neuron_tp3_dgxsp.Prelude.Int.{ℤ, pos, negsuc, ◌==ℤ◌}
use kimi_k3_neuron_tp3_dgxsp.Protocol.Message.{
  Text, Phase, Message, MessageType, same_type, same_phase, default_message,
}
use kimi_k3_neuron_tp3_dgxsp.Protocol.Text.{text}
use kimi_k3_neuron_tp3_dgxsp.Protocol.Coordinator.{
  Coordinator, CoordinatorState, Reply, same_state, abort_cluster, settle, Verdict, abort, goes,
  abort_message, control, from_spec, broadcast, or_else,
}
use kimi_k3_neuron_tp3_dgxsp.Protocol.Accept.{accept, judge}
use kimi_k3_neuron_tp3_dgxsp.Protocol.Drive.{
  install_nccl_unique_id, begin_step, begin_step_multi, finish, fail, when_ready, id_verdict,
  step_verdict, batch_verdict, finish_verdict,
}
use kimi_k3_neuron_tp3_dgxsp.Protocol.Calls.{
  Call, accepting, installing, beginning, beginning_multi, finishing, failing, call,
}
use kimi_k3_neuron_tp3_dgxsp.Protocol.Session.{
  RankSession, RankState, Sinks, accept_control, on_abort, same_identity,
}
use kimi_k3_neuron_tp3_dgxsp.Protocol.Identity.{IsCluster, IsOf, spec_of, same_identity-IsOf}
use kimi_k3_neuron_tp3_dgxsp.Protocol.Stepping.{get_or-broadcast}
use kimi_k3_neuron_tp3_dgxsp.Protocol.Aborts.{IsNamed, proper, proper_rules, judge-proper}

-- Before the end.
abbrev pub IsLive : Coordinator → Type 0
IsLive c =
    (same_state c.state CoordinatorState.failed ≡ false)
    × (same_state c.state CoordinatorState.finished ≡ false)

-- A call is accepted, or aborts the cluster in a phase that it names.
Fate : Coordinator → Reply → Type 0
Fate c reply =
    (reply.accepted ≡ true)
    ⊎ ((phase : Phase) × (status : ℤ) × (detail : Text) × IsNamed phase
        × (reply ≡ abort_cluster phase status detail true c))

not-false : (b : Bool) → not b ≡ true → b ≡ false
not-false true e = cc
not-false false e = refl

settle-Fate : (c : Coordinator) (v : Verdict) → proper v ≡ true → Fate c (settle true c v)
unfolding settle Fate
settle-Fate c (abort phase status detail) e =
    inr (phase, status, detail, not-false (same_phase phase Phase.none) e, refl)
settle-Fate c (goes c' out) e = inl refl

when_ready-Fate :
    (phase : Phase) (status : ℤ) (early : Text) (c : Coordinator) (v : Verdict)
    → IsLive c
    → IsNamed phase
    → proper v ≡ true
    → Fate c (when_ready phase status early true c v)
unfolding when_ready
when_ready-Fate phase status early c v (live, unfinished) named e =
    elim (Bool-cases (same_state c.state CoordinatorState.ready)) [
      | inl ready ↦ rw (when_ready, ready) (settle-Fate c v e)
      | inr early_call ↦
          let e₁ : when_ready phase status early true c v
              ≡ settle true c (abort phase status early) =
            rw (when_ready, early_call, live, unfinished) refl in
          subst (Fate c) (sym e₁) (settle-Fate c (abort phase status early) (ap not named))
    ]

-- A call to fail names its phase.
abbrev pub IsNamedCall : Call → Type 0
IsNamedCall (failing phase status detail) = IsNamed phase
IsNamedCall _ = Unit {0}

call-Fate : (k : Call) (c : Coordinator) → IsLive c → IsNamedCall k → Fate c (call k true c)
unfolding call accept install_nccl_unique_id begin_step begin_step_multi finish fail same_phase Fate
call-Fate (accepting p m) c (live, unfinished) named =
    let e : accept p m true c ≡ settle true c (judge p m c) = rw (accept, live, unfinished) refl in
    subst (Fate c) (sym e) (settle-Fate c (judge p m c) (judge-proper p m c))
call-Fate (installing id) c (live, unfinished) named =
    elim (Bool-cases (same_state c.state CoordinatorState.awaiting_nccl_unique_id)) [
      | inl now ↦
          rw (install_nccl_unique_id, now)
            (settle-Fate c (id_verdict id true c) (simp (id_verdict, proper_rules)))
      | inr early ↦
          let v = abort Phase.bootstrap (negsuc 11) (text "NCCL id installed out of order") in
          let e : install_nccl_unique_id id true c ≡ settle true c v =
            rw (install_nccl_unique_id, early, live) refl in
          subst (Fate c) (sym e) (settle-Fate c v refl)
    ]
call-Fate (beginning token_id) c h named =
    when_ready-Fate Phase.step (negsuc 13) (text "token started before cluster Ready") c
      (step_verdict token_id true c) h refl (simp (step_verdict, proper_rules))
call-Fate (beginning_multi ids j) c h named =
    when_ready-Fate Phase.step (negsuc 13) (text "batch started before cluster Ready") c
      (batch_verdict ids j true c) h refl (simp (batch_verdict, proper_rules))
call-Fate finishing c h named =
    when_ready-Fate Phase.shutdown (negsuc 20) (text "Finish sent before cluster Ready") c
      (finish_verdict true c) h refl (simp (finish_verdict, proper_rules))
call-Fate (failing phase status detail) c (live, unfinished) named =
    inr (phase, status, detail, named, rw (fail, unfinished) refl)

-- A status that says that something went wrong.
failing_status : (status : ℤ) → ((if status ==ℤ pos 0 then negsuc 0 else status) ==ℤ pos 0) ≡ false
unfolding ◌==ℤ◌
failing_status status = elim (Bool-cases (status ==ℤ pos 0)) [
  | inl nothing ↦ rw nothing refl
  | inr given ↦ rw (given, given) refl
]

abort_abort : same_type MessageType.abort MessageType.abort ≡ true
unfolding same_type
abort_abort = refl

-- A well-formed Abort of its cluster fails a session, whatever it was doing.
on_abort-session :
    (sinks : Sinks) (m : Message) (s : RankSession)
    → same_identity s.spec m ≡ true
    → m.type ≡ MessageType.abort
    → (m.status ==ℤ pos 0) ≡ false
    → IsNamed m.phase
    → ((accept_control sinks m s).accepted ≡ true)
      × ((accept_control sinks m s).session.state ≡ RankState.failed)
unfolding accept_control on_abort
on_abort-session sinks m s ident type status named =
    let is_abort : same_type m.type MessageType.abort ≡ true =
      ap (λ t. same_type t MessageType.abort) type ∙ abort_abort in
    (
      rw (accept_control, ident, is_abort, on_abort, status, named) refl,
      rw (accept_control, ident, is_abort, on_abort, status, named) refl,
    )

abort_message-IsOf :
    (c : Coordinator) (phase : Phase) (status : ℤ) (r : ℕ)
    → IsOf c.cluster r (abort_message c phase status (pos r))
unfolding abort_message control from_spec
abort_message-IsOf c phase status r = (refl, refl, refl, refl, refl, refl, refl, refl, refl, refl)

-- What an abort leaves: the coordinator has failed, and each rank that gets its message fails too.
abbrev pub AllFail : ℕ → Coordinator → Reply → Type 0
AllFail w c reply =
    (reply.coordinator.state ≡ CoordinatorState.failed)
    × ((r : ℕ) (s : RankSession) (sinks : Sinks)
        → r < w
        → s.spec ≡ spec_of c.cluster r
        → ((accept_control sinks (get_or reply.outbound r default_message) s).accepted ≡ true)
          × ((accept_control sinks (get_or reply.outbound r default_message) s).session.state
              ≡ RankState.failed))

aborted : Coordinator → Text → Coordinator
aborted c detail = record c {
  failure = or_else detail (text "cluster aborted");
  state = CoordinatorState.failed;
}

abort_message-session :
    (c : Coordinator) (phase : Phase) (status : ℤ) (r : ℕ) (s : RankSession) (sinks : Sinks)
    → same_identity s.spec (abort_message c phase status (pos r)) ≡ true
    → IsNamed phase
    → ((accept_control sinks (abort_message c phase status (pos r)) s).accepted ≡ true)
      × ((accept_control sinks (abort_message c phase status (pos r)) s).session.state
          ≡ RankState.failed)
unfolding abort_message control from_spec
abort_message-session c phase status r s sinks ident named =
    on_abort-session sinks (abort_message c phase status (pos r)) s ident refl
      (failing_status status) named

abort_cluster-AllFail :
    (w : ℕ) (c : Coordinator) (phase : Phase) (status : ℤ) (detail : Text)
    → IsCluster w c.cluster
    → IsLive c
    → IsNamed phase
    → AllFail w c (abort_cluster phase status detail true c)
unfolding abort_cluster aborted
abort_cluster-AllFail w c phase status detail cluster (live, unfinished) named =
    let c' = aborted c detail in
    let sent : (abort_cluster phase status detail true c).outbound
        ≡ broadcast c' (abort_message c' phase status) =
      rw (abort_cluster, live, unfinished) refl in
    (
      rw (abort_cluster, live, unfinished) refl,
      λ r s sinks lt spec.
          let m = abort_message c' phase status (pos r) in
          let own : get_or (abort_cluster phase status detail true c).outbound r default_message
              ≡ m =
            ap (λ out. get_or out r default_message) sent
            ∙ get_or-broadcast w c' r (abort_message c' phase status) cluster.0 lt in
          let ident : same_identity s.spec m ≡ true =
            ap (λ p. same_identity p m) spec
            ∙ same_identity-IsOf c.cluster r m (abort_message-IsOf c' phase status r) in
          subst
            (λ n.
              ((accept_control sinks n s).accepted ≡ true)
              × ((accept_control sinks n s).session.state ≡ RankState.failed))
            (sym own) (abort_message-session c' phase status r s sinks ident named),
    )

-- While the cluster runs, every call with a sink is accepted, or fails the coordinator and, by the Abort
-- that it sends to each of the w ranks, the session of every rank, whatever that was doing. A call to
-- fail names a phase.
pub refused_call-AllFail :
    (w : ℕ) (k : Call) (c : Coordinator)
    → IsCluster w c.cluster
    → IsLive c
    → IsNamedCall k
    → ((call k true c).accepted ≡ true) ⊎ AllFail w c (call k true c)
unfolding Fate
refused_call-AllFail w k c cluster live named = elim (call-Fate k c live named) [
  | inl taken ↦ inl taken
  | inr (phase, status, detail, name, e) ↦ inr (
      subst (AllFail w c) (sym e) (abort_cluster-AllFail w c phase status detail cluster live name))
]
