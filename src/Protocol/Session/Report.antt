-- ===== src/Protocol/Session/Report.antt =====
-- What a rank reports to the coordinator: the report_ calls and failure_message of RankSession.
use kimi_k3_neuron_tp3_dgxsp.Prelude.{
  suc, ◌%◌, ◌^◌, Bool, true, false, not, ◌||◌, none, some, [], ◌∷◌, if◌then◌else◌, take,
}
use kimi_k3_neuron_tp3_dgxsp.Prelude.Int.{ℤ, pos, negsuc, ◌==ℤ◌}
use kimi_k3_neuron_tp3_dgxsp.Protocol.Message.{Text, MessageType, Phase, Message, max_detail_bytes}
use kimi_k3_neuron_tp3_dgxsp.Protocol.Text.{text}
use kimi_k3_neuron_tp3_dgxsp.Protocol.Coordinator.{or_else}
use kimi_k3_neuron_tp3_dgxsp.Protocol.Session.State.{
  RankState, same_rank_state, RankSession, Answer, answer, reply, reject, takes,
}

-- A report's status and detail: as given for a success, never empty for a failure.
unfoldable pub report_message : Message → Bool → ℤ → Text → Text → Message
unfolding or_else ◌==ℤ◌
report_message m success status detail fallback = record m {
  status = if success then pos 0 else (if status ==ℤ pos 0 then negsuc 0 else status);
  detail = take max_detail_bytes (if success then detail else or_else detail fallback);
}

-- The end of a report: the session goes on, or fails with the text that it has sent.
unfoldable pub reported : RankSession → RankSession → Bool → Message → Answer
reported s s' success m =
    if success
    then takes s' (some m)
    else takes (record s { state = RankState.failed; failure = m.detail }) (some m)

abbrev pub outcome : Bool → MessageType → MessageType
outcome success type = if success then type else MessageType.failure

unfoldable pub report_nccl_ready : Bool → ℤ → Text → Bool → RankSession → Answer
unfolding reject text same_rank_state reply report_message reported
report_nccl_ready success status detail sink s =
    let m = record (reply s (outcome success MessageType.nccl_ready) Phase.nccl_init) {
      sequence = 0;
    } in
    let sent = report_message m success status detail (text "NCCL initialization failed") in
    if not sink
    then reject (text "NCCL result has no outbound sink") s
    else (if not (same_rank_state s.state RankState.need_nccl_init)
        then reject (text "NCCL result reported out of order") s
        else reported s (record s { state = RankState.nccl_ready_sent }) success sent)

unfoldable pub report_load_ready : Bool → ℤ → Text → Bool → RankSession → Answer
unfolding reject text same_rank_state reply report_message reported
report_load_ready success status detail sink s =
    let m = record (reply s (outcome success MessageType.load_ready) Phase.load) { sequence = 0 } in
    let sent = report_message m success status detail (text "rank-local model load failed") in
    if not sink
    then reject (text "load result has no outbound sink") s
    else (if not (same_rank_state s.state RankState.loading)
        then reject (text "load result reported out of order") s
        else reported s (record s { state = RankState.waiting_token }) success sent)

unfoldable pub report_step_done : Bool → ℤ → Text → Bool → RankSession → Answer
unfolding reject text same_rank_state reply report_message reported
report_step_done success status detail sink s =
    let m = reply s (outcome success MessageType.step_done) Phase.step in
    let sent = report_message m success status detail (text "rank-local forward step failed") in
    let next = record s {
      next_sequence = suc s.next_sequence % 2 ^ 64;
      state = RankState.waiting_token;
    } in
    if not sink
    then reject (text "step result has no outbound sink") s
    else (if not (same_rank_state s.state RankState.step_running)
        then reject (text "step result reported out of order") s
        else reported s next success sent)

unfoldable pub report_finish_ack : Bool → RankSession → Answer
unfolding reject text same_rank_state reply
report_finish_ack sink s =
    if not sink
    then reject (text "FinishAck has no outbound sink") s
    else (if not (same_rank_state s.state RankState.finish_pending)
        then reject (text "FinishAck reported out of order") s
        else takes (record s { state = RankState.finished })
            (some (record (reply s MessageType.finish_ack Phase.shutdown) { status = pos 0 })))

abbrev pub is_empty : Text → Bool
is_empty [] = true
is_empty (b ∷ bs) = false

unfoldable pub failure_message : Phase → ℤ → Bool → RankSession → Answer
unfolding text same_rank_state reply ◌==ℤ◌
failure_message phase status sink s =
    if not sink
    then answer s false (some (text "failure message has no outbound sink")) none
    else (if not (same_rank_state s.state RankState.failed) || is_empty s.failure
        then answer s false (some (text "rank has no sticky failure to report")) none
        else takes s (
            some (record (reply s MessageType.failure phase) {
              status = if status ==ℤ pos 0 then negsuc 0 else status;
              detail = take max_detail_bytes s.failure;
            })))
