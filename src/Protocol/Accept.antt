-- ===== src/Protocol/Accept.antt =====
-- Coordinator::accept of runtime/src/tp/rank_protocol.cpp.
use kimi_k3_neuron_tp3_dgxsp.Prelude.{
  ℕ, suc, ◌%◌, ◌^◌, Bool, true, false, not, ◌&&◌, ◌||◌, none, some, [], if◌then◌else◌, ◌==◌, get_or,
}
use kimi_k3_neuron_tp3_dgxsp.Prelude.Int.{ℤ, pos, negsuc, pos_part, ltb_ℤ, leb_ℤ, ◌==ℤ◌}
use kimi_k3_neuron_tp3_dgxsp.Protocol.Message.{MessageType, Phase, Message, same_type, same_phase}
use kimi_k3_neuron_tp3_dgxsp.Protocol.Text.{text}
use kimi_k3_neuron_tp3_dgxsp.Protocol.Coordinator.{
  AuthenticatedPeer, CoordinatorState, same_state, Coordinator, all_seen, set_at, coordinator_phase,
  Reply, declines, matches_cluster, control, broadcast, Verdict, abort, goes, settle,
}

-- The index of a rank that is known to be in range.
abbrev pub index : ℤ → ℕ
index rank = pos_part rank

unfoldable pub on_hello : AuthenticatedPeer → Message → Coordinator → Verdict
unfolding same_state same_phase all_seen text
on_hello peer m c =
    let hello = set_at (index m.rank) true c.hello in
    if not (same_state c.state CoordinatorState.collecting_hello)
      || not (m.sequence == 0)
      || not (same_phase m.phase Phase.bootstrap)
    then abort Phase.bootstrap (negsuc 2) (text "unexpected Hello")
    else (if get_or c.hello (index m.rank) false
        then abort Phase.bootstrap (negsuc 3) (text "duplicate Hello")
        else goes
            (record c {
              peer_connection = set_at (index peer.rank) peer.connection_id c.peer_connection;
              hello = hello;
              state = if all_seen hello then CoordinatorState.awaiting_nccl_unique_id else c.state;
            })
            [])

unfoldable pub begin_load : Coordinator → ℤ → Message
unfolding control
begin_load c rank = record (control c MessageType.begin_load rank) { phase = Phase.load }

unfoldable pub on_nccl_ready : Message → Coordinator → Verdict
unfolding same_state same_phase all_seen text begin_load ◌==ℤ◌
on_nccl_ready m c =
    let nccl_ready = set_at (index m.rank) true c.nccl_ready in
    let waiting = record c { nccl_ready = nccl_ready } in
    let loading = record waiting { state = CoordinatorState.waiting_load_ready } in
    if not (same_state c.state CoordinatorState.waiting_nccl_ready)
      || not (m.sequence == 0)
      || not (m.status ==ℤ pos 0)
      || not (same_phase m.phase Phase.nccl_init)
    then abort Phase.nccl_init (negsuc 4) (text "unexpected NcclReady")
    else (if get_or c.nccl_ready (index m.rank) false
        then abort Phase.nccl_init (negsuc 5) (text "duplicate NcclReady")
        else (if all_seen nccl_ready
            then goes loading (broadcast loading (begin_load loading))
            else goes waiting []))

unfoldable pub on_load_ready : Message → Coordinator → Verdict
unfolding same_state same_phase all_seen text ◌==ℤ◌
on_load_ready m c =
    let load_ready = set_at (index m.rank) true c.load_ready in
    if not (same_state c.state CoordinatorState.waiting_load_ready)
      || not (m.sequence == 0)
      || not (m.status ==ℤ pos 0)
      || not (same_phase m.phase Phase.load)
    then abort Phase.load (negsuc 6) (text "unexpected LoadReady")
    else (if get_or c.load_ready (index m.rank) false
        then abort Phase.load (negsuc 7) (text "duplicate LoadReady")
        else goes
            (record c {
              load_ready = load_ready;
              state = if all_seen load_ready then CoordinatorState.ready else c.state;
            })
            [])

unfoldable pub on_step_done : Message → Coordinator → Verdict
unfolding same_state same_phase all_seen text ◌==ℤ◌
on_step_done m c =
    let step_done = set_at (index m.rank) true c.step_done in
    let waiting = record c { step_done = step_done } in
    if not (same_state c.state CoordinatorState.step_in_flight)
      || not (m.sequence == c.next_sequence)
      || not (m.status ==ℤ pos 0)
      || not (same_phase m.phase Phase.step)
    then abort Phase.step (negsuc 8) (text "unexpected StepDone")
    else (if get_or c.step_done (index m.rank) false
        then abort Phase.step (negsuc 9) (text "duplicate StepDone")
        else (if all_seen step_done
            then goes
                (record waiting {
                  next_sequence = suc c.next_sequence % 2 ^ 64;
                  state = CoordinatorState.ready;
                })
                []
            else goes waiting []))

unfoldable pub on_finish_ack : Message → Coordinator → Verdict
unfolding same_state same_phase all_seen text ◌==ℤ◌
on_finish_ack m c =
    let finish_ack = set_at (index m.rank) true c.finish_ack in
    if not (same_state c.state CoordinatorState.waiting_finish_ack)
      || not (m.sequence == c.next_sequence)
      || not (m.status ==ℤ pos 0)
      || not (same_phase m.phase Phase.shutdown)
    then abort Phase.shutdown (negsuc 18) (text "unexpected FinishAck")
    else (if get_or c.finish_ack (index m.rank) false
        then abort Phase.shutdown (negsuc 19) (text "duplicate FinishAck")
        else goes
            (record c {
              finish_ack = finish_ack;
              state = if all_seen finish_ack then CoordinatorState.finished else c.state;
            })
            [])

unfoldable pub on_failure : Message → Coordinator → Verdict
unfolding same_phase coordinator_phase text ◌==ℤ◌
on_failure m c =
    if (m.status ==ℤ pos 0) || same_phase m.phase Phase.none
    then abort (coordinator_phase c.state) (negsuc 25) (text "invalid Failure report")
    else abort m.phase m.status m.detail

-- `switch (m.type)`, with the test for a Failure before it.
unfoldable pub dispatch : AuthenticatedPeer → Message → Coordinator → Verdict
unfolding on_hello on_nccl_ready on_load_ready on_step_done on_finish_ack on_failure
    coordinator_phase text
dispatch peer m c = elim m.type [
  | MessageType.hello ↦ on_hello peer m c
  | MessageType.nccl_ready ↦ on_nccl_ready m c
  | MessageType.load_ready ↦ on_load_ready m c
  | MessageType.step_done ↦ on_step_done m c
  | MessageType.failure ↦ on_failure m c
  | MessageType.finish_ack ↦ on_finish_ack m c
  | _ ↦ abort (coordinator_phase c.state) (negsuc 10) (text "unexpected rank message type")
]

-- What binds a message to its connection, then what it does.
unfoldable pub bound : AuthenticatedPeer → Message → Coordinator → Verdict
unfolding same_type coordinator_phase text dispatch
bound peer m c =
    let bound_connection = get_or c.peer_connection (index peer.rank) 0 in
    if not (bound_connection == 0) && not (bound_connection == peer.connection_id)
    then abort (coordinator_phase c.state) (negsuc 23)
        (text "duplicate connection for authenticated rank")
    else (if not (same_type m.type MessageType.hello) && (bound_connection == 0)
        then abort (coordinator_phase c.state) (negsuc 24)
            (text "rank message received before bound Hello")
        else dispatch peer m c)

unfoldable pub judge : AuthenticatedPeer → Message → Coordinator → Verdict
unfolding matches_cluster coordinator_phase text bound ◌==ℤ◌
judge peer m c =
    if ltb_ℤ peer.rank (pos 0) || leb_ℤ c.cluster.world_size peer.rank
    then abort (coordinator_phase c.state) (negsuc 16) (text "authenticated peer rank out of range")
    else (if peer.connection_id == 0
        then abort (coordinator_phase c.state) (negsuc 22)
            (text "authenticated connection id is unset")
        else (if not (m.rank ==ℤ peer.rank)
            then abort (coordinator_phase c.state) (negsuc 17)
                (text "transport peer rank does not match Message::rank")
            else elim (matches_cluster c.cluster m) [
              | some why ↦ abort (coordinator_phase c.state) (negsuc 1) why
              | none ↦ bound peer m c
            ]))

unfoldable pub accept : AuthenticatedPeer → Message → Bool → Coordinator → Reply
unfolding same_state text judge settle
accept peer m sink c =
    if same_state c.state CoordinatorState.failed
    then declines c c.failure
    else (if same_state c.state CoordinatorState.finished
        then declines c (text "cluster already finished")
        else (if not sink
            then declines c (text "Coordinator::accept requires an outbound sink")
            else settle sink c (judge peer m c)))
