-- ===== src/Protocol/System.antt =====
-- A coordinator and the sessions of its ranks, joined by connections that lose nothing: one speculative
-- step from the batch to the last StepDone. The transport, runtime/src/tp/rank_transport_tcp.cpp, is not
-- modelled; replies may come in any order.
use kimi_k3_neuron_tp3_dgxsp.Prelude.{
  ℕ, ◌<◌, ◌≡◌, true, false, Option, none, some, List, [], ◌∷◌, ◌==◌, length, get_or,
}
use kimi_k3_neuron_tp3_dgxsp.Prelude.Int.{ℤ, pos}
use kimi_k3_neuron_tp3_dgxsp.Prelude.Loop.{for_each}
use kimi_k3_neuron_tp3_dgxsp.Protocol.Message.{Message, default_message}
use kimi_k3_neuron_tp3_dgxsp.Protocol.Coordinator.{Coordinator, CoordinatorState}
use kimi_k3_neuron_tp3_dgxsp.Protocol.Accept.{accept}
use kimi_k3_neuron_tp3_dgxsp.Protocol.Drive.{begin_step_multi}
use kimi_k3_neuron_tp3_dgxsp.Protocol.Session.{
  RankSession, RankState, Answer, Sinks, accept_control, report_step_done,
}
use kimi_k3_neuron_tp3_dgxsp.Protocol.Identity.{IsCluster, spec_of, peer}

pub record System : Type 0 where
  pub coord : Coordinator
  pub rank : ℕ → RankSession

abbrev pub all_sinks : Sinks
all_sinks = record { token_id = true; token_ids = true; rollback_j = true }

abbrev pub sent : Option Message → Message
sent none = default_message
sent (some m) = m

-- What rank r makes of the messages that the coordinator has sent: the one that is its own.
unfoldable pub receives : List Message → RankSession → ℕ → Answer
unfolding accept_control
receives out s r = accept_control all_sinks (get_or out r default_message) s

-- Rank r reports that its step has been done.
unfoldable pub reports : RankSession → Answer
unfolding report_step_done
reports s = report_step_done true (pos 0) [] true s

-- One StepDone arrives over the connection of rank r.
unfoldable pub arrives : (ℕ → ℕ) → (ℕ → RankSession) → ℕ → Coordinator → Coordinator
unfolding accept reports
arrives connection running r c =
    (accept (peer r (connection r)) (sent (reports (running r)).outbound) true c).coordinator

-- One step of the cluster: the batch goes out, every rank takes it and runs it, and the replies come
-- back in an order.
unfoldable pub step : (ℕ → ℕ) → List ℕ → List ℤ → ℤ → System → System
unfolding begin_step_multi receives reports arrives for_each
step connection order ids rollback_j sys =
    let begun = begin_step_multi ids rollback_j true sys.coord in
    let running : ℕ → RankSession = λ r. (receives begun.outbound (sys.rank r) r).session in
    record {
      coord = for_each order (arrives connection running) begun.coordinator;
      rank = λ r. (reports (running r)).session;
    }

-- The coordinator of w ranks is ready, and every rank waits for the token of the same sequence number
-- over a connection of its own.
abbrev pub InStep : ℕ → (ℕ → ℕ) → System → Type 0
InStep w connection sys =
    IsCluster w sys.coord.cluster
    × (sys.coord.state ≡ CoordinatorState.ready)
    × (length sys.coord.step_done ≡ w)
    × ((r : ℕ)
        → r < w
        → ((connection r == 0) ≡ false)
          × (get_or sys.coord.peer_connection r 0 ≡ connection r)
          × ((sys.rank r).spec ≡ spec_of sys.coord.cluster r)
          × ((sys.rank r).state ≡ RankState.waiting_token)
          × ((sys.rank r).next_sequence ≡ sys.coord.next_sequence))

-- A step: its tokens, the rollback of the step before, and the order in which the ranks reply.
pub record Round : Type 0 where
  pub ids : List ℤ
  pub rollback_j : ℤ
  pub order : List ℕ

unfoldable pub run : (ℕ → ℕ) → List Round → System → System
unfolding step
run connection [] sys = sys
run connection (b ∷ bs) sys = run connection bs (step connection b.order b.ids b.rollback_j sys)
