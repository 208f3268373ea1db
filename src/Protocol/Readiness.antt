-- ===== src/Protocol/Readiness.antt =====
-- The acknowledgements behind the state of a coordinator, through every call.
use mathlib.Core.Path.{subst}
use kimi_k3_neuron_tp3_dgxsp.Prelude.{
  ◌≡◌, refl, Bool, true, false, not, ◌&&◌, ◌||◌, List, inl, inr, if◌then◌else◌, ◌==◌, Bool-cases,
  Option-cases, get_or, length, ltb,
}
use kimi_k3_neuron_tp3_dgxsp.Prelude.Int.{ℤ, pos, negsuc, ltb_ℤ, leb_ℤ, ◌==ℤ◌}
use kimi_k3_neuron_tp3_dgxsp.Protocol.Message.{
  Byte, Text, Phase, Message, MessageType, RankSpec, same_type, same_phase, max_step_tokens,
}
use kimi_k3_neuron_tp3_dgxsp.Protocol.Text.{text, any_nonzero}
use kimi_k3_neuron_tp3_dgxsp.Protocol.Shard.{Planner, planned, refused, validate_rank_spec}
use kimi_k3_neuron_tp3_dgxsp.Protocol.Coordinator.{
  AuthenticatedPeer, Coordinator, CoordinatorState, Reply, coordinator, failed_with, fresh,
  same_state, Verdict, abort, goes, abort_cluster, settle, matches_cluster,
}
use kimi_k3_neuron_tp3_dgxsp.Protocol.Accept.{index, accept, judge, bound, dispatch, on_failure}
use kimi_k3_neuron_tp3_dgxsp.Protocol.Drive.{
  install_nccl_unique_id, begin_step, begin_step_multi, finish, fail, when_ready, id_verdict,
  step_verdict, batch_verdict, finish_verdict, in_flight, outside_vocabulary, any_outside,
  bad_rollback,
}
use kimi_k3_neuron_tp3_dgxsp.Protocol.Calls.{
  Call, accepting, installing, beginning, beginning_multi, finishing, failing, call, Reach, here,
  next,
}
use kimi_k3_neuron_tp3_dgxsp.Protocol.Stages.{
  Stage, IsStaged, Staged, Staged-if, Staged-both, eq_of_same_state, on_hello-Staged,
  on_nccl_ready-Staged, on_load_ready-Staged, on_step_done-Staged, on_finish_ack-Staged,
}

on_failure-Staged : (m : Message) (c : Coordinator) → Staged (on_failure m c)
unfolding on_failure
on_failure-Staged m c =
    Staged-both ((m.status ==ℤ pos 0) || same_phase m.phase Phase.none) _ _ (λ _. tt) (λ _. tt)

dispatch-Staged :
    (p : AuthenticatedPeer) (m : Message) (c : Coordinator) (t : MessageType)
    → m.type ≡ t
    → IsStaged c
    → Staged (dispatch p m c)
unfolding dispatch
dispatch-Staged p m c MessageType.hello e h = rw (dispatch, e) (on_hello-Staged p m c h)
dispatch-Staged p m c MessageType.nccl_ready e h = rw (dispatch, e) (on_nccl_ready-Staged m c h)
dispatch-Staged p m c MessageType.load_ready e h = rw (dispatch, e) (on_load_ready-Staged m c h)
dispatch-Staged p m c MessageType.step_done e h = rw (dispatch, e) (on_step_done-Staged m c h)
dispatch-Staged p m c MessageType.failure e h = rw (dispatch, e) (on_failure-Staged m c)
dispatch-Staged p m c MessageType.finish_ack e h = rw (dispatch, e) (on_finish_ack-Staged m c h)
dispatch-Staged p m c MessageType.nccl_unique_id e h = rw (dispatch, e) tt
dispatch-Staged p m c MessageType.begin_load e h = rw (dispatch, e) tt
dispatch-Staged p m c MessageType.token e h = rw (dispatch, e) tt
dispatch-Staged p m c MessageType.abort e h = rw (dispatch, e) tt
dispatch-Staged p m c MessageType.finish e h = rw (dispatch, e) tt

bound-Staged :
    (p : AuthenticatedPeer) (m : Message) (c : Coordinator) → IsStaged c → Staged (bound p m c)
unfolding bound
bound-Staged p m c h =
    let known = get_or c.peer_connection (index p.rank) 0 in
    Staged-if (not (known == 0) && not (known == p.connection_id)) _ _ _ _ (λ _.
      Staged-if (not (same_type m.type MessageType.hello) && (known == 0)) _ _ _ _
        (λ _. dispatch-Staged p m c m.type refl h))

judge-Staged :
    (p : AuthenticatedPeer) (m : Message) (c : Coordinator) → IsStaged c → Staged (judge p m c)
unfolding judge
judge-Staged p m c h =
    Staged-if (ltb_ℤ p.rank (pos 0) || leb_ℤ c.cluster.world_size p.rank) _ _ _ _ (λ _.
      Staged-if (p.connection_id == 0) _ _ _ _ (λ _.
        Staged-if (not (m.rank ==ℤ p.rank)) _ _ _ _ (λ _.
          elim (Option-cases (matches_cluster c.cluster m)) [
            | inl ours ↦ rw ours (bound-Staged p m c h)
            | inr (why, other) ↦ rw other tt
          ])))

abort_cluster-Staged :
    (phase : Phase) (status : ℤ) (detail : Text) (c : Coordinator)
    → IsStaged c
    → IsStaged (abort_cluster phase status detail true c).coordinator
unfolding abort_cluster
abort_cluster-Staged phase status detail c h =
    elim (Bool-cases (same_state c.state CoordinatorState.failed)) [
      | inl gone ↦ rw (abort_cluster, gone) h
      | inr live ↦ elim (Bool-cases (same_state c.state CoordinatorState.finished)) [
        | inl done ↦ rw (abort_cluster, live, done) h
        | inr unfinished ↦ rw (abort_cluster, live, unfinished) tt
      ]
    ]

settle-Staged :
    (c : Coordinator) (v : Verdict) → IsStaged c → Staged v → IsStaged (settle true c v).coordinator
unfolding settle
settle-Staged c (abort phase status detail) h hv = abort_cluster-Staged phase status detail c h
settle-Staged c (goes c' out) h hv = hv

-- A reply whose coordinator is in a stage that holds.
abbrev IsStagedReply : Reply → Type 0
IsStagedReply reply = IsStaged reply.coordinator

if-Staged :
    (t : Bool) (a b : Reply)
    → (t ≡ true → IsStagedReply a)
    → (t ≡ false → IsStagedReply b)
    → IsStagedReply (if t then a else b)
if-Staged true a b h k = h refl
if-Staged false a b h k = k refl

not-not : (b : Bool) → not b ≡ false → b ≡ true
not-not true e = refl
not-not false e = cc

when_ready-Staged :
    (phase : Phase) (status : ℤ) (early : Text) (c : Coordinator) (v : Verdict)
    → IsStaged c
    → (Stage CoordinatorState.ready c → Staged v)
    → IsStagedReply (when_ready phase status early true c v)
unfolding when_ready
when_ready-Staged phase status early c v h k =
    if-Staged (not (same_state c.state CoordinatorState.ready)) _ _
      (λ _.
        if-Staged (same_state c.state CoordinatorState.failed) _ _ (λ _. h)
          (λ _.
            if-Staged (same_state c.state CoordinatorState.finished) _ _ (λ _. h)
              (λ _. settle-Staged c (abort phase status early) h tt)))
      (λ e.
        let now = eq_of_same_state c.state CoordinatorState.ready (not-not _ e) in
        settle-Staged c v h (k (subst (λ s. Stage s c) now h)))

id_verdict-Staged :
    (id : List Byte) (c : Coordinator)
    → Stage CoordinatorState.awaiting_nccl_unique_id c
    → Staged (id_verdict id true c)
unfolding id_verdict
id_verdict-Staged id c h = Staged-if (not (any_nonzero id)) _ _ _ _ (λ _. h)

step_verdict-Staged :
    (token_id : ℤ) (c : Coordinator)
    → Stage CoordinatorState.ready c
    → Staged (step_verdict token_id true c)
unfolding step_verdict in_flight
step_verdict-Staged token_id c h =
    Staged-if (not (token_id ==ℤ negsuc 1) && outside_vocabulary c.cluster.vocab token_id) _ _ _ _
      (λ _. h.0)

batch_verdict-Staged :
    (ids : List ℤ) (j : ℤ) (c : Coordinator)
    → Stage CoordinatorState.ready c
    → Staged (batch_verdict ids j true c)
unfolding batch_verdict in_flight
batch_verdict-Staged ids j c h =
    Staged-if (ltb (length ids) 1 || ltb max_step_tokens (length ids)) _ _ _ _ (λ _.
      Staged-if (any_outside c.cluster.vocab ids) _ _ _ _
        (λ _. Staged-if (bad_rollback j) _ _ _ _ (λ _. h.0)))

call-Staged : (k : Call) (c : Coordinator) → IsStaged c → IsStaged (call k true c).coordinator
unfolding call accept install_nccl_unique_id begin_step begin_step_multi finish fail finish_verdict
call-Staged (accepting p m) c h =
    if-Staged (same_state c.state CoordinatorState.failed) _ _ (λ _. h)
      (λ _.
        if-Staged (same_state c.state CoordinatorState.finished) _ _ (λ _. h)
          (λ _. settle-Staged c (judge p m c) h (judge-Staged p m c h)))
call-Staged (installing id) c h =
    if-Staged (not (same_state c.state CoordinatorState.awaiting_nccl_unique_id)) _ _
      (λ _.
        if-Staged (same_state c.state CoordinatorState.failed) _ _ (λ _. h)
          (λ _.
            settle-Staged c
              (abort Phase.bootstrap (negsuc 11) (text "NCCL id installed out of order")) h tt))
      (λ e.
        let now = eq_of_same_state c.state CoordinatorState.awaiting_nccl_unique_id (not-not _ e) in
        settle-Staged c (id_verdict id true c) h
          (id_verdict-Staged id c (subst (λ s. Stage s c) now h)))
call-Staged (beginning token_id) c h =
    when_ready-Staged Phase.step (negsuc 13) (text "token started before cluster Ready") c
      (step_verdict token_id true c) h (step_verdict-Staged token_id c)
call-Staged (beginning_multi ids j) c h =
    when_ready-Staged Phase.step (negsuc 13) (text "batch started before cluster Ready") c
      (batch_verdict ids j true c) h (batch_verdict-Staged ids j c)
call-Staged finishing c h =
    when_ready-Staged Phase.shutdown (negsuc 20) (text "Finish sent before cluster Ready") c
      (finish_verdict true c) h (λ ready. ready)
call-Staged (failing phase status detail) c h =
    if-Staged (same_state c.state CoordinatorState.finished) _ _ (λ _. h)
      (λ _. abort_cluster-Staged phase status detail c h)

start-Staged : (planner : Planner) (cluster : RankSpec) → IsStaged (coordinator planner cluster)
unfolding coordinator failed_with fresh
start-Staged planner cluster =
    elim (validate_rank_spec planner cluster)
      as (λ v. IsStaged (elim v [
        | refused message ↦ failed_with cluster message
        | planned d ↦
            if not (cluster.rank ==ℤ pos 0)
            then failed_with cluster (text "coordinator must use global rank 0")
            else fresh cluster
      ])) [
        | refused message ↦ tt
        | planned d ↦ elim (Bool-cases (not (cluster.rank ==ℤ pos 0))) [
          | inl other ↦ rw other tt
          | inr rank_0 ↦ rw rank_0 refl
        ]
      ]

-- In every state that calls with a sink bring a new coordinator to, the acknowledgements are those that
-- IsStaged asks for: all Hellos before the NCCL id, all communicators before the load, all of these and
-- all loads from Ready on, all StepDones where it is ready or ends after a step, and all FinishAcks
-- where it has finished.
pub Reach-IsStaged :
    (planner : Planner) (cluster : RankSpec) {c : Coordinator}
    → Reach (coordinator planner cluster) c
    → IsStaged c
Reach-IsStaged planner cluster here = start-Staged planner cluster
Reach-IsStaged planner cluster (next k r) = call-Staged k _ (Reach-IsStaged planner cluster r)
