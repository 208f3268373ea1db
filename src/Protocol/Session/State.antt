-- ===== src/Protocol/Session/State.antt =====
-- The state of class RankSession, its replies and its Hello.
use kimi_k3_neuron_tp3_dgxsp.Prelude.{
  ℕ, Bool, true, false, not, Option, none, some, List, [], if◌then◌else◌, ◌==◌,
}
use kimi_k3_neuron_tp3_dgxsp.Prelude.Int.{ℤ}
use kimi_k3_neuron_tp3_dgxsp.Protocol.Message.{
  Byte, Text, MessageType, Phase, RankSpec, Message, unset_nccl_id,
}
use kimi_k3_neuron_tp3_dgxsp.Protocol.Text.{text}
use kimi_k3_neuron_tp3_dgxsp.Protocol.Shard.{Planner, planned, refused, validate_rank_spec}
use kimi_k3_neuron_tp3_dgxsp.Protocol.Coordinator.{from_spec, or_else}

pub data RankState : Type 0 where
  created hello_sent need_nccl_init nccl_ready_sent loading waiting_token step_running
        finish_pending finished failed :
      RankState

unfoldable pub rank_state_code : RankState → ℕ
rank_state_code RankState.created = 0
rank_state_code RankState.hello_sent = 1
rank_state_code RankState.need_nccl_init = 2
rank_state_code RankState.nccl_ready_sent = 3
rank_state_code RankState.loading = 4
rank_state_code RankState.waiting_token = 5
rank_state_code RankState.step_running = 6
rank_state_code RankState.finish_pending = 7
rank_state_code RankState.finished = 8
rank_state_code RankState.failed = 9

unfoldable pub same_rank_state : RankState → RankState → Bool
unfolding rank_state_code
same_rank_state a b = rank_state_code a == rank_state_code b

pub record RankSession : Type 0 where
  pub spec : RankSpec
  pub state : RankState
  pub next_sequence : ℕ
  pub nccl_id : List Byte
  pub failure : Text

-- The constructor.
unfoldable pub rank_session : Planner → RankSpec → RankSession
unfolding validate_rank_spec
rank_session planner spec =
    let fresh : RankSession = record {
      spec = spec;
      state = RankState.created;
      next_sequence = 0;
      nccl_id = unset_nccl_id;
      failure = [];
    } in
    elim (validate_rank_spec planner spec) [
      | planned d ↦ fresh
      | refused message ↦ record fresh { state = RankState.failed; failure = message }
    ]

-- What a call leaves: the session, its result, the error text, the message for the coordinator, and
-- the token, the batch and the rollback index that it hands over.
pub record Answer : Type 0 where
  pub session : RankSession
  pub accepted : Bool
  pub error : Option Text
  pub outbound : Option Message
  pub token_id : Option ℤ
  pub token_ids : Option (List ℤ)
  pub rollback_j : Option ℤ

abbrev pub answer : RankSession → Bool → Option Text → Option Message → Answer
answer s accepted error outbound = record {
  session = s;
  accepted = accepted;
  error = error;
  outbound = outbound;
  token_id = none;
  token_ids = none;
  rollback_j = none;
}

unfoldable pub reply : RankSession → MessageType → Phase → Message
unfolding from_spec
reply s type phase = record (from_spec s.spec type s.spec.rank) {
  sequence = s.next_sequence;
  phase = phase;
}

unfoldable pub reject : Text → RankSession → Answer
unfolding or_else
reject detail s =
    let failure = or_else s.failure detail in
    answer (record s { failure = failure; state = RankState.failed }) false (some failure) none

abbrev pub takes : RankSession → Option Message → Answer
takes s outbound = answer s true none outbound

unfoldable pub hello : Bool → RankSession → Answer
unfolding text reject same_rank_state reply
hello sink s =
    if not sink
    then reject (text "Hello has no outbound sink") s
    else (if not (same_rank_state s.state RankState.created)
        then reject (text "Hello sent out of order") s
        else takes (record s { state = RankState.hello_sent })
            (some (record (reply s MessageType.hello Phase.bootstrap) { sequence = 0 })))
