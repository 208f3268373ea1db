-- ===== src/Protocol/Drive.antt =====
-- The calls by which rank 0 drives its cluster: install_nccl_unique_id, begin_step, begin_step_multi,
-- finish and fail of class Coordinator.
use kimi_k3_neuron_tp3_dgxsp.Prelude.{
  Bool, false, not, ◌&&◌, ◌||◌, List, [], ◌∷◌, if◌then◌else◌, ltb, length, replicate,
}
use kimi_k3_neuron_tp3_dgxsp.Prelude.Int.{ℤ, pos, negsuc, ltb_ℤ, leb_ℤ, ◌==ℤ◌}
use kimi_k3_neuron_tp3_dgxsp.Protocol.Message.{
  Byte, Text, MessageType, Phase, Message, max_step_tokens,
}
use kimi_k3_neuron_tp3_dgxsp.Protocol.Text.{text, any_nonzero}
use kimi_k3_neuron_tp3_dgxsp.Protocol.Coordinator.{
  CoordinatorState, same_state, Coordinator, Reply, declines, control, broadcast, abort_cluster,
  Verdict, abort, goes, settle,
}

unfoldable pub id_message : Coordinator → List Byte → ℤ → Message
unfolding control
id_message c id rank = record (control c MessageType.nccl_unique_id rank) {
  phase = Phase.nccl_init;
  nccl_id = id;
}

-- What the call comes to in its state.
unfoldable pub id_verdict : List Byte → Bool → Coordinator → Verdict
unfolding any_nonzero text id_message
id_verdict id sink c =
    if not sink
    then abort Phase.bootstrap (negsuc 12) (text "NCCL id has no outbound sink")
    else (if not (any_nonzero id)
        then abort Phase.bootstrap (negsuc 26) (text "NCCL unique id is unset")
        else goes (record c { state = CoordinatorState.waiting_nccl_ready })
            (broadcast c (id_message c id)))

unfoldable pub install_nccl_unique_id : List Byte → Bool → Coordinator → Reply
unfolding same_state text settle id_verdict
install_nccl_unique_id id sink c =
    if not (same_state c.state CoordinatorState.awaiting_nccl_unique_id)
    then (if same_state c.state CoordinatorState.failed
        then declines c c.failure
        else settle sink c
            (abort Phase.bootstrap (negsuc 11) (text "NCCL id installed out of order")))
    else settle sink c (id_verdict id sink c)

-- A call that the cluster takes when it is ready, with what it comes to then.
unfoldable pub when_ready : Phase → ℤ → Text → Bool → Coordinator → Verdict → Reply
unfolding same_state text settle
when_ready phase status early sink c verdict =
    if not (same_state c.state CoordinatorState.ready)
    then (if same_state c.state CoordinatorState.failed
        then declines c c.failure
        else (if same_state c.state CoordinatorState.finished
            then declines c (text "cluster already finished")
            else settle sink c (abort phase status early)))
    else settle sink c verdict

abbrev pub outside_vocabulary : ℤ → ℤ → Bool
outside_vocabulary vocab token_id = ltb_ℤ token_id (pos 0) || leb_ℤ vocab token_id

-- The coordinator with no StepDone seen: `std::fill(step_done_)`, and the state after the broadcast.
unfoldable pub in_flight : Coordinator → Coordinator
in_flight c = record c {
  step_done = replicate (length c.step_done) false;
  state = CoordinatorState.step_in_flight;
}

unfoldable pub token_message : Coordinator → ℤ → ℤ → Message
unfolding control
token_message c token_id rank = record (control c MessageType.token rank) {
  phase = Phase.step;
  token_id = token_id;
}

-- A token for a ready cluster.
unfoldable pub step_verdict : ℤ → Bool → Coordinator → Verdict
unfolding in_flight token_message text ◌==ℤ◌
step_verdict token_id sink c =
    if not sink
    then abort Phase.step (negsuc 14) (text "token broadcast has no outbound sink")
    else (if not (token_id ==ℤ negsuc 1) && outside_vocabulary c.cluster.vocab token_id
        then abort Phase.step (negsuc 15) (text "token id outside vocabulary")
        else goes (in_flight c) (broadcast c (token_message c token_id)))

-- -2 is the sentinel that resets the caches.
unfoldable pub begin_step : ℤ → Bool → Coordinator → Reply
unfolding when_ready step_verdict text
begin_step token_id sink c =
    when_ready Phase.step (negsuc 13) (text "token started before cluster Ready") sink c
      (step_verdict token_id sink c)

unfoldable pub any_outside : ℤ → List ℤ → Bool
any_outside vocab [] = false
any_outside vocab (id ∷ ids) = outside_vocabulary vocab id || any_outside vocab ids

-- A vector of tokens; the first of them where there is one.
abbrev pub head_or : ℤ → List ℤ → ℤ
head_or none_there [] = none_there
head_or none_there (id ∷ ids) = id

unfoldable pub batch_message : Coordinator → List ℤ → ℤ → ℤ → Message
unfolding control
batch_message c token_ids prev_rollback_j rank = record (control c MessageType.token rank) {
  phase = Phase.step;
  token_id = head_or (negsuc 0) token_ids;
  rollback_j = prev_rollback_j;
  token_ids = token_ids;
}

-- `prev_rollback_j < -1 || prev_rollback_j >= kMaxStepTokens`.
abbrev pub bad_rollback : ℤ → Bool
bad_rollback j = ltb_ℤ j (negsuc 0) || leb_ℤ (pos max_step_tokens) j

-- A batch for a ready cluster.
unfoldable pub batch_verdict : List ℤ → ℤ → Bool → Coordinator → Verdict
unfolding in_flight batch_message any_outside text
batch_verdict token_ids prev_rollback_j sink c =
    if not sink
    then abort Phase.step (negsuc 14) (text "batch broadcast has no outbound sink")
    else (if ltb (length token_ids) 1 || ltb max_step_tokens (length token_ids)
        then abort Phase.step (negsuc 22) (text "batch token count outside protocol bounds")
        else (if any_outside c.cluster.vocab token_ids
            then abort Phase.step (negsuc 15) (text "batch token id outside vocabulary")
            else (if bad_rollback prev_rollback_j
                then abort Phase.step (negsuc 23) (text "rollback index outside protocol bounds")
                else goes (in_flight c) (broadcast c (batch_message c token_ids prev_rollback_j)))))

-- The tokens are `token_ids[0]` to `token_ids[n_tok - 1]`. A null pointer, and an n_tok below 1, take
-- the branch of the empty list.
unfoldable pub begin_step_multi : List ℤ → ℤ → Bool → Coordinator → Reply
unfolding when_ready batch_verdict text
begin_step_multi token_ids prev_rollback_j sink c =
    when_ready Phase.step (negsuc 13) (text "batch started before cluster Ready") sink c
      (batch_verdict token_ids prev_rollback_j sink c)

unfoldable pub finish_message : Coordinator → ℤ → Message
unfolding control
finish_message c rank = record (control c MessageType.finish rank) { phase = Phase.shutdown }

-- The end of a ready cluster.
unfoldable pub finish_verdict : Bool → Coordinator → Verdict
unfolding finish_message text
finish_verdict sink c =
    if not sink
    then abort Phase.shutdown (negsuc 21) (text "Finish has no outbound sink")
    else goes
        (record c {
          finish_ack = replicate (length c.finish_ack) false;
          state = CoordinatorState.waiting_finish_ack;
        })
        (broadcast c (finish_message c))

unfoldable pub finish : Bool → Coordinator → Reply
unfolding when_ready finish_verdict text
finish sink c =
    when_ready Phase.shutdown (negsuc 20) (text "Finish sent before cluster Ready") sink c
      (finish_verdict sink c)

unfoldable pub fail : Phase → ℤ → Text → Bool → Coordinator → Reply
unfolding same_state text abort_cluster
fail phase status detail sink c =
    if same_state c.state CoordinatorState.finished
    then declines c (text "cluster already finished")
    else abort_cluster phase status detail sink c
