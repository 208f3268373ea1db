-- ===== src/Protocol/Session/Control.antt =====
-- RankSession::accept_control: what a rank does with a message of the coordinator.
use kimi_k3_neuron_tp3_dgxsp.Prelude.{
  Bool, true, false, not, ◌&&◌, ◌||◌, Option, none, some, if◌then◌else◌, ltb, ◌==◌, length,
}
use kimi_k3_neuron_tp3_dgxsp.Prelude.Int.{pos, negsuc, leb_ℤ, ◌==ℤ◌}
use kimi_k3_neuron_tp3_dgxsp.Protocol.Message.{
  Text, MessageType, Phase, RankSpec, Message, same_type, same_phase, max_step_tokens,
}
use kimi_k3_neuron_tp3_dgxsp.Protocol.Text.{text, same_bytes, any_nonzero}
use kimi_k3_neuron_tp3_dgxsp.Protocol.Coordinator.{or_else}
use kimi_k3_neuron_tp3_dgxsp.Protocol.Drive.{outside_vocabulary, any_outside, bad_rollback}
use kimi_k3_neuron_tp3_dgxsp.Protocol.Session.State.{
  RankState, same_rank_state, RankSession, Answer, answer, reject, takes,
}

unfoldable pub same_identity : RankSpec → Message → Bool
unfolding same_bytes ◌==ℤ◌
same_identity spec m =
    m.session_id == spec.session_id
    && (m.world_size ==ℤ spec.world_size)
    && (m.rank ==ℤ spec.rank)
    && (m.local_device ==ℤ spec.local_device)
    && (m.n_experts ==ℤ spec.n_experts)
    && (m.moe_ffn ==ℤ spec.moe_ffn)
    && (m.expert_block_elems ==ℤ spec.expert_block_elems)
    && (m.vocab ==ℤ spec.vocab)
    && same_bytes m.model_digest spec.model_digest
    && same_bytes m.plan_digest spec.plan_digest

unfoldable pub on_abort : Message → RankSession → Answer
unfolding reject text or_else same_phase ◌==ℤ◌
on_abort m s =
    if (m.status ==ℤ pos 0) || same_phase m.phase Phase.none
    then reject (text "malformed coordinator Abort") s
    else takes
        (record s {
          failure = or_else s.failure (or_else m.detail (text "coordinator aborted cluster"));
          state = RankState.failed;
        })
        none

unfoldable pub on_nccl_unique_id : Message → RankSession → Answer
unfolding reject text same_rank_state same_phase any_nonzero ◌==ℤ◌
on_nccl_unique_id m s =
    if not (same_rank_state s.state RankState.hello_sent)
      || not (m.sequence == 0)
      || not (same_phase m.phase Phase.nccl_init)
      || not (m.status ==ℤ pos 0)
    then reject (text "NCCL id received out of order") s
    else (if not (any_nonzero m.nccl_id)
        then reject (text "NCCL unique id is unset") s
        else takes (record s { nccl_id = m.nccl_id; state = RankState.need_nccl_init }) none)

unfoldable pub on_begin_load : Message → RankSession → Answer
unfolding reject text same_rank_state same_phase ◌==ℤ◌
on_begin_load m s =
    if not (same_rank_state s.state RankState.nccl_ready_sent)
      || not (m.sequence == 0)
      || not (same_phase m.phase Phase.load)
      || not (m.status ==ℤ pos 0)
    then reject (text "BeginLoad received before NCCL ready") s
    else takes (record s { state = RankState.loading }) none

-- Which of the output pointers of accept_control are set.
pub record Sinks : Type 0 where
  pub token_id : Bool
  pub token_ids : Bool
  pub rollback_j : Bool

abbrev pub written : {A : Type 0} → Bool → A → Option A
written true a = some a
written false a = none

-- Why a Token is refused, in the order of the tests.
unfoldable pub token_refusal : Sinks → Message → RankSession → Option Text
unfolding text same_rank_state same_phase any_outside ◌==ℤ◌
token_refusal sinks m s =
    if not (same_rank_state s.state RankState.waiting_token)
    then some (text "Token received before rank ready or while step running")
    else (if not (m.sequence == s.next_sequence)
        then some (text "Token sequence gap/replay")
        else (if not (same_phase m.phase Phase.step)
            then some (text "Token carries the wrong protocol phase")
            else (if not (m.status ==ℤ pos 0)
                then some (text "Token carries a nonzero status")
                else (if not (m.token_id ==ℤ negsuc 1) && outside_vocabulary s.spec.vocab m.token_id
                    then some (text "Token id outside vocabulary")
                    else (if not sinks.token_id
                        then some (text "Token has no output sink")
                        else (if ltb max_step_tokens (length m.token_ids)
                            then some (text "Token batch exceeds protocol bound")
                            else (if ltb 1 (length m.token_ids) && not sinks.token_ids
                                then some (text "Token batch has no batch output sink")
                                else (if any_outside s.spec.vocab m.token_ids
                                    then some (text "Token batch id outside vocabulary")
                                    else (if bad_rollback m.rollback_j
                                        then some
                                            (text "Token rollback index outside protocol bounds")
                                        else (if leb_ℤ (pos 0) m.rollback_j && not sinks.rollback_j
                                            then some (text "Token rollback has no output sink")
                                            else none))))))))))

unfoldable pub on_token : Sinks → Message → RankSession → Answer
unfolding token_refusal reject
on_token sinks m s = elim (token_refusal sinks m s) [
  | some why ↦ reject why s
  | none ↦ record (takes (record s { state = RankState.step_running }) none) {
    token_id = some m.token_id;
    token_ids = written sinks.token_ids m.token_ids;
    rollback_j = written sinks.rollback_j m.rollback_j;
  }
]

unfoldable pub on_finish : Message → RankSession → Answer
unfolding reject text same_rank_state same_phase ◌==ℤ◌
on_finish m s =
    if not (same_rank_state s.state RankState.waiting_token)
      || not (m.sequence == s.next_sequence)
      || not (same_phase m.phase Phase.shutdown)
      || not (m.status ==ℤ pos 0)
    then reject (text "Finish received out of order") s
    else takes (record s { state = RankState.finish_pending }) none

unfoldable pub accept_control : Sinks → Message → RankSession → Answer
unfolding reject text same_identity same_type on_abort same_rank_state on_nccl_unique_id
    on_begin_load on_token on_finish
accept_control sinks m s =
    if not (same_identity s.spec m)
    then reject (text "control message cluster identity mismatch") s
    else (if same_type m.type MessageType.abort
        then on_abort m s
        else (if same_rank_state s.state RankState.failed
            then answer s false (some s.failure) none
            else (if same_rank_state s.state RankState.finished
                then answer s false (some (text "rank already finished")) none
                else elim m.type [
                  | MessageType.nccl_unique_id ↦ on_nccl_unique_id m s
                  | MessageType.begin_load ↦ on_begin_load m s
                  | MessageType.token ↦ on_token sinks m s
                  | MessageType.finish ↦ on_finish m s
                  | _ ↦ reject (text "unexpected coordinator message type") s
                ])))
