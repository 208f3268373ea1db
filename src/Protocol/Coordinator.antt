-- ===== src/Protocol/Coordinator.antt =====
-- The coordinator of rank 0: class Coordinator of runtime/src/tp/rank_protocol.cpp (patches 0003, 0015
-- and 0024). A call takes whether it has an outbound sink, and gives the coordinator after it, the
-- messages that it appends to the sink, its result, and the error text that it sets.
use kimi_k3_neuron_tp3_dgxsp.Prelude.{
  ℕ, zero, suc, Bool, true, false, not, ◌&&◌, ◌||◌, Option, none, some, List, [], ◌∷◌,
  if◌then◌else◌, ◌==◌, take, replicate,
}
use kimi_k3_neuron_tp3_dgxsp.Prelude.Int.{ℤ, pos, negsuc, pos_part, ltb_ℤ, leb_ℤ, ◌==ℤ◌}
use kimi_k3_neuron_tp3_dgxsp.Protocol.Message.{
  Text, MessageType, Phase, RankSpec, Message, default_message, max_detail_bytes,
}
use kimi_k3_neuron_tp3_dgxsp.Protocol.Text.{text, same_bytes}
use kimi_k3_neuron_tp3_dgxsp.Protocol.Shard.{Planner, planned, refused, validate_rank_spec}

pub record AuthenticatedPeer : Type 0 where
  pub rank : ℤ
  pub connection_id : ℕ

pub data CoordinatorState : Type 0 where
  collecting_hello awaiting_nccl_unique_id waiting_nccl_ready waiting_load_ready ready
        step_in_flight waiting_finish_ack finished failed :
      CoordinatorState

unfoldable pub state_code : CoordinatorState → ℕ
state_code CoordinatorState.collecting_hello = 0
state_code CoordinatorState.awaiting_nccl_unique_id = 1
state_code CoordinatorState.waiting_nccl_ready = 2
state_code CoordinatorState.waiting_load_ready = 3
state_code CoordinatorState.ready = 4
state_code CoordinatorState.step_in_flight = 5
state_code CoordinatorState.waiting_finish_ack = 6
state_code CoordinatorState.finished = 7
state_code CoordinatorState.failed = 8

-- `==` on the states.
unfoldable pub same_state : CoordinatorState → CoordinatorState → Bool
unfolding state_code
same_state a b = state_code a == state_code b

pub record Coordinator : Type 0 where
  pub cluster : RankSpec
  pub state : CoordinatorState
  pub hello : List Bool
  pub nccl_ready : List Bool
  pub load_ready : List Bool
  pub step_done : List Bool
  pub finish_ack : List Bool
  pub peer_connection : List ℕ
  pub next_sequence : ℕ
  pub failure : Text

-- `std::all_of` over a vector that is not empty.
abbrev pub all_true : List Bool → Bool
all_true [] = true
all_true (b ∷ bs) = b && all_true bs

unfoldable pub all_seen : List Bool → Bool
all_seen [] = false
all_seen (b ∷ bs) = b && all_true bs

-- `values[i] = value`.
abbrev pub set_at {ℓ} : {A : Type ℓ} → ℕ → A → List A → List A
set_at i value [] = []
set_at zero value (x ∷ xs) = value ∷ xs
set_at (suc i) value (x ∷ xs) = x ∷ set_at i value xs

unfoldable pub coordinator_phase : CoordinatorState → Phase
coordinator_phase CoordinatorState.collecting_hello = Phase.bootstrap
coordinator_phase CoordinatorState.awaiting_nccl_unique_id = Phase.bootstrap
coordinator_phase CoordinatorState.waiting_nccl_ready = Phase.nccl_init
coordinator_phase CoordinatorState.waiting_load_ready = Phase.load
coordinator_phase CoordinatorState.ready = Phase.step
coordinator_phase CoordinatorState.step_in_flight = Phase.step
coordinator_phase CoordinatorState.waiting_finish_ack = Phase.shutdown
coordinator_phase CoordinatorState.finished = Phase.shutdown
coordinator_phase CoordinatorState.failed = Phase.shutdown

unfoldable pub from_spec : RankSpec → MessageType → ℤ → Message
from_spec spec type rank = record default_message {
  type = type;
  session_id = spec.session_id;
  rank = rank;
  world_size = spec.world_size;
  local_device = spec.local_device;
  n_experts = spec.n_experts;
  moe_ffn = spec.moe_ffn;
  expert_block_elems = spec.expert_block_elems;
  vocab = spec.vocab;
  model_digest = spec.model_digest;
  plan_digest = spec.plan_digest;
}

-- A vector with one entry for each rank.
abbrev pub world : RankSpec → ℕ
world spec = pos_part spec.world_size

unfoldable pub failed_with : RankSpec → Text → Coordinator
failed_with cluster failure = record {
  cluster = cluster;
  state = CoordinatorState.failed;
  hello = [];
  nccl_ready = [];
  load_ready = [];
  step_done = [];
  finish_ack = [];
  peer_connection = [];
  next_sequence = 0;
  failure = failure;
}

unfoldable pub fresh : RankSpec → Coordinator
fresh cluster = record {
  cluster = cluster;
  state = CoordinatorState.collecting_hello;
  hello = replicate (world cluster) false;
  nccl_ready = replicate (world cluster) false;
  load_ready = replicate (world cluster) false;
  step_done = replicate (world cluster) false;
  finish_ack = replicate (world cluster) false;
  peer_connection = replicate (world cluster) 0;
  next_sequence = 0;
  failure = [];
}

-- The constructor.
unfoldable pub coordinator : Planner → RankSpec → Coordinator
unfolding validate_rank_spec failed_with fresh text ◌==ℤ◌
coordinator planner cluster = elim (validate_rank_spec planner cluster) [
  | refused message ↦ failed_with cluster message
  | planned d ↦
      if not (cluster.rank ==ℤ pos 0)
      then failed_with cluster (text "coordinator must use global rank 0")
      else fresh cluster
]

pub record Reply : Type 0 where
  pub coordinator : Coordinator
  pub outbound : List Message
  pub accepted : Bool
  pub error : Option Text

-- `set_error(error, text); return false;` and `return true;`.
abbrev pub declines : Coordinator → Text → Reply
declines c message = record {
  coordinator = c;
  outbound = [];
  accepted = false;
  error = some message;
}

abbrev pub accepts : Coordinator → List Message → Reply
accepts c outbound = record { coordinator = c; outbound = outbound; accepted = true; error = none }

-- Why a message does not belong to the cluster, if it does not.
unfoldable pub matches_cluster : RankSpec → Message → Option Text
unfolding text same_bytes ◌==ℤ◌
matches_cluster cluster m =
    if not (m.session_id == cluster.session_id)
    then some (text "session mismatch")
    else (if not (m.world_size ==ℤ cluster.world_size)
        then some (text "world-size mismatch")
        else (if ltb_ℤ m.rank (pos 0) || leb_ℤ cluster.world_size m.rank
            then some (text "rank out of range")
            else (if not (m.local_device ==ℤ pos 0)
                then some (text "rank-local device must be 0")
                else (if not (m.n_experts ==ℤ cluster.n_experts)
                      || not (m.moe_ffn ==ℤ cluster.moe_ffn)
                      || not (m.expert_block_elems ==ℤ cluster.expert_block_elems)
                      || not (m.vocab ==ℤ cluster.vocab)
                    then some (text "model/plan shape mismatch")
                    else (if not (same_bytes m.model_digest cluster.model_digest)
                        then some (text "model digest mismatch")
                        else (if not (same_bytes m.plan_digest cluster.plan_digest)
                            then some (text "plan digest mismatch")
                            else none))))))

unfoldable pub control : Coordinator → MessageType → ℤ → Message
unfolding from_spec
control c type target = record (from_spec c.cluster type target) { sequence = c.next_sequence }

-- `for (rank = 0; rank < world_size; ++rank) outbound->push_back(m)`, with the ranks left.
abbrev pub for_ranks : ℕ → ℕ → (ℤ → Message) → List Message
for_ranks zero rank m = []
for_ranks (suc left) rank m = m (pos rank) ∷ for_ranks left (suc rank) m

abbrev pub broadcast : Coordinator → (ℤ → Message) → List Message
broadcast c m = for_ranks (world c.cluster) 0 m

unfoldable pub or_else : Text → Text → Text
or_else [] other = other
or_else (b ∷ bs) other = b ∷ bs

unfoldable pub abort_message : Coordinator → Phase → ℤ → ℤ → Message
unfolding control ◌==ℤ◌
abort_message c phase status rank = record (control c MessageType.abort rank) {
  phase = phase;
  status = if status ==ℤ pos 0 then negsuc 0 else status;
  detail = take max_detail_bytes c.failure;
}

unfoldable pub abort_cluster : Phase → ℤ → Text → Bool → Coordinator → Reply
unfolding same_state text or_else abort_message
abort_cluster phase status detail sink c =
    let failure = or_else detail (text "cluster aborted") in
    let c' = record c { failure = failure; state = CoordinatorState.failed } in
    if same_state c.state CoordinatorState.failed
    then declines c c.failure
    else (if same_state c.state CoordinatorState.finished
        then declines c (text "cluster already finished")
        else (if not sink
            then declines c (text "cluster abort requires an outbound sink")
            else record {
              coordinator = c';
              outbound = broadcast c' (abort_message c' phase status);
              accepted = false;
              error = some failure;
            }))

-- What a call comes to: an abort with these arguments, or an accepted call.
pub data Verdict : Type 0 where
  abort : Phase → ℤ → Text → Verdict
  goes : Coordinator → List Message → Verdict

unfoldable pub settle : Bool → Coordinator → Verdict → Reply
unfolding abort_cluster
settle sink c (abort phase status detail) = abort_cluster phase status detail sink c
settle sink c (goes c' outbound) = accepts c' outbound
