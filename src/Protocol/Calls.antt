-- ===== src/Protocol/Calls.antt =====
-- The calls that a coordinator gets, one after another: messages from its ranks, and the calls of the
-- process that drives it.
use kimi_k3_neuron_tp3_dgxsp.Prelude.{Bool, true, List, ◌≡◌, ◌⊎◌}
use kimi_k3_neuron_tp3_dgxsp.Prelude.Int.{ℤ}
use kimi_k3_neuron_tp3_dgxsp.Protocol.Message.{Byte, Text, Phase, Message}
use kimi_k3_neuron_tp3_dgxsp.Protocol.Coordinator.{
  AuthenticatedPeer, Coordinator, CoordinatorState, Reply,
}
use kimi_k3_neuron_tp3_dgxsp.Protocol.Accept.{accept}
use kimi_k3_neuron_tp3_dgxsp.Protocol.Drive.{
  install_nccl_unique_id, begin_step, begin_step_multi, finish, fail,
}

pub data Call : Type 0 where
  accepting : AuthenticatedPeer → Message → Call
  installing : List Byte → Call
  beginning : ℤ → Call
  beginning_multi : List ℤ → ℤ → Call
  finishing : Call
  failing : Phase → ℤ → Text → Call

-- A call, with or without an outbound sink.
unfoldable pub call : Call → Bool → Coordinator → Reply
unfolding accept install_nccl_unique_id begin_step begin_step_multi finish fail
call (accepting peer m) sink c = accept peer m sink c
call (installing id) sink c = install_nccl_unique_id id sink c
call (beginning token_id) sink c = begin_step token_id sink c
call (beginning_multi ids j) sink c = begin_step_multi ids j sink c
call finishing sink c = finish sink c
call (failing phase status detail) sink c = fail phase status detail sink c

-- Calls that have a sink, one after another.
pub data Reach (start : Coordinator) : Coordinator → Type 0 where
  here : Reach start start
  next : {c : Coordinator} (k : Call) → Reach start c → Reach start (call k true c).coordinator

-- The two states that no call leaves.
abbrev pub IsTerminal : Coordinator → Type 0
IsTerminal c = (c.state ≡ CoordinatorState.failed) ⊎ (c.state ≡ CoordinatorState.finished)
