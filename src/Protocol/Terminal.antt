-- ===== src/Protocol/Terminal.antt =====
-- The calls on a coordinator that has failed or finished.
use kimi_k3_neuron_tp3_dgxsp.Prelude.{◌≡◌, refl, Bool, false, [], inl, inr}
use kimi_k3_neuron_tp3_dgxsp.Protocol.Coordinator.{
  Coordinator, Reply, same_state, abort_cluster, settle,
}
use kimi_k3_neuron_tp3_dgxsp.Protocol.Accept.{accept}
use kimi_k3_neuron_tp3_dgxsp.Protocol.Drive.{
  install_nccl_unique_id, begin_step, begin_step_multi, finish, fail, when_ready,
}
use kimi_k3_neuron_tp3_dgxsp.Protocol.Calls.{
  Call, accepting, installing, beginning, beginning_multi, finishing, failing, call, IsTerminal,
}

-- A reply that changes nothing and sends nothing.
abbrev pub Stays : Coordinator → Reply → Type 0
Stays c reply = (reply.coordinator ≡ c) × (reply.outbound ≡ []) × (reply.accepted ≡ false)

-- Once the cluster has failed or finished, every call, with or without a sink, is refused, sends nothing
-- and changes nothing.
pub call-Stays : (k : Call) (sink : Bool) (c : Coordinator) → IsTerminal c → Stays c (call k sink c)
unfolding call accept install_nccl_unique_id begin_step begin_step_multi finish fail when_ready
    settle abort_cluster same_state
call-Stays (accepting peer m) sink c (inl e) = rw (accept, e) (refl, refl, refl)
call-Stays (accepting peer m) sink c (inr e) = rw (accept, e) (refl, refl, refl)
call-Stays (installing id) sink c (inl e) = rw (install_nccl_unique_id, e) (refl, refl, refl)
call-Stays (installing id) sink c (inr e) = rw (install_nccl_unique_id, e) (refl, refl, refl)
call-Stays (beginning token_id) sink c (inl e) = rw (begin_step, when_ready, e) (refl, refl, refl)
call-Stays (beginning token_id) sink c (inr e) = rw (begin_step, when_ready, e) (refl, refl, refl)
call-Stays (beginning_multi ids j) sink c (inl e) =
    rw (begin_step_multi, when_ready, e) (refl, refl, refl)
call-Stays (beginning_multi ids j) sink c (inr e) =
    rw (begin_step_multi, when_ready, e) (refl, refl, refl)
call-Stays finishing sink c (inl e) = rw (finish, when_ready, e) (refl, refl, refl)
call-Stays finishing sink c (inr e) = rw (finish, when_ready, e) (refl, refl, refl)
call-Stays (failing phase status detail) sink c (inl e) = rw (fail, e) (refl, refl, refl)
call-Stays (failing phase status detail) sink c (inr e) = rw (fail, e) (refl, refl, refl)
