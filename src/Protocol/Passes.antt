-- ===== src/Protocol/Passes.antt =====
-- Gate C on a coordinator and three sessions.
use kimi_k3_neuron_tp3_dgxsp.Prelude.{ℕ, true, ◌≡◌, refl, ◌∙◌, []}
use kimi_k3_neuron_tp3_dgxsp.Prelude.Int.{pos}
use kimi_k3_neuron_tp3_dgxsp.Protocol.Message.{unset_nccl_id}
use kimi_k3_neuron_tp3_dgxsp.Protocol.Shard.{Planner, moe_all_expert_width_dims, validate_rank_spec}
use kimi_k3_neuron_tp3_dgxsp.Protocol.Coordinator.{coordinator, fresh}
use kimi_k3_neuron_tp3_dgxsp.Protocol.Session.{RankSession, rank_session, RankState}
use kimi_k3_neuron_tp3_dgxsp.Protocol.Gate.{make_spec, protocol_cases, test_protocol}

abbrev new_session : ℕ → RankSession
new_session r = record {
  spec = make_spec r;
  state = RankState.created;
  next_sequence = 0;
  nccl_id = unset_nccl_id;
  failure = [];
}

module _ (planner : Planner) (divides : planner.divisible (pos 1536) (pos 3) ≡ true) where
  coordinator_lem : coordinator planner (make_spec 0) ≡ fresh (make_spec 0)
  unfolding coordinator make_spec
  coordinator_lem = rw (coordinator, validate_rank_spec, moe_all_expert_width_dims, divides) refl

  session_0 : rank_session planner (make_spec 0) ≡ new_session 0
  unfolding rank_session make_spec
  session_0 = rw (rank_session, validate_rank_spec, moe_all_expert_width_dims, divides) refl

  session_1 : rank_session planner (make_spec 1) ≡ new_session 1
  unfolding rank_session make_spec
  session_1 = rw (rank_session, validate_rank_spec, moe_all_expert_width_dims, divides) refl

  session_2 : rank_session planner (make_spec 2) ≡ new_session 2
  unfolding rank_session make_spec
  session_2 = rw (rank_session, validate_rank_spec, moe_all_expert_width_dims, divides) refl

cases_pass :
    protocol_cases (fresh (make_spec 0)) (new_session 0) (new_session 1) (new_session 2) ≡ 0
unfolding protocol_cases make_spec fresh
cases_pass = refl

-- No check of gate C fails, where the planner finds that 1536 divides by 3.
pub test_protocol_passes :
    (planner : Planner) → planner.divisible (pos 1536) (pos 3) ≡ true → test_protocol planner ≡ 0
test_protocol_passes planner divides =
    (λ i.
      protocol_cases (coordinator_lem planner divides i) (session_0 planner divides i)
        (session_1 planner divides i) (session_2 planner divides i))
    ∙ cases_pass
