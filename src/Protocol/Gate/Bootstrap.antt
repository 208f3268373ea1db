-- ===== src/Protocol/Gate/Bootstrap.antt =====
-- The bootstrap of case 6 of gate C: three sessions and a coordinator, to Ready.
use kimi_k3_neuron_tp3_dgxsp.Prelude.{
  ℕ, suc, Bool, true, false, Option, none, some, List, [], ◌∷◌, ◌++◌, replicate, get_elem?,
}
use kimi_k3_neuron_tp3_dgxsp.Prelude.Int.{pos, pos_part}
use kimi_k3_neuron_tp3_dgxsp.Prelude.Loop.{for_each}
use kimi_k3_neuron_tp3_dgxsp.Protocol.Message.{Message, default_message}
use kimi_k3_neuron_tp3_dgxsp.Protocol.Coordinator.{
  AuthenticatedPeer, CoordinatorState, same_state, Coordinator, set_at,
}
use kimi_k3_neuron_tp3_dgxsp.Protocol.Accept.{accept}
use kimi_k3_neuron_tp3_dgxsp.Protocol.Drive.{install_nccl_unique_id}
use kimi_k3_neuron_tp3_dgxsp.Protocol.Session.{
  RankSession, Answer, hello, accept_control, report_nccl_ready, report_load_ready,
}

-- The locals of case 6: the coordinator, the three sessions, `out`, and the checks in order.
pub record Cluster : Type 0 where
  pub coord : Coordinator
  pub ranks : List RankSession
  pub out : List Message
  pub oks : List Bool

unfoldable pub peer_of : ℕ → AuthenticatedPeer
peer_of r = record { rank = pos r; connection_id = suc r }

abbrev pub sent_or : Option Message → Message
sent_or none = default_message
sent_or (some m) = m

-- `check(coord.accept(peer_of(r), m, &out, &e))`.
unfoldable pub receives : ℕ → Message → Cluster → Cluster
unfolding accept peer_of
receives r m cl =
    let reply = accept (peer_of r) m true cl.coord in
    record cl {
      coord = reply.coordinator;
      out = cl.out ++ reply.outbound;
      oks = cl.oks ++ reply.accepted ∷ [];
    }

-- One rank's call: its check, its session, and what it sends to the coordinator.
unfoldable pub reports : (RankSession → Answer) → ℕ → List RankSession → Cluster → Cluster
unfolding receives
reports call r [] cl = cl
reports call r (s ∷ rest) cl =
    let a = call s in
    let cl' = record cl { ranks = cl.ranks ++ a.session ∷ []; oks = cl.oks ++ a.accepted ∷ [] } in
    reports call (suc r) rest (receives r (sent_or a.outbound) cl')

-- `for (r = 0; r < 3; ++r)` over the sessions, with `out.clear()` before it.
unfoldable pub all_report : (RankSession → Answer) → Cluster → Cluster
unfolding reports
all_report call cl = reports call 0 cl.ranks (record cl { ranks = []; out = [] })

-- `ranks[m.rank].accept_control(m, nullptr, &e)`; no rank is missing in the gate.
unfoldable pub delivers : Message → Cluster → Cluster
unfolding accept_control
delivers m cl = elim (get_elem? cl.ranks (pos_part m.rank)) [
  | none ↦ record cl { oks = cl.oks ++ false ∷ [] }
  | some s ↦
      let a =
        accept_control (record { token_id = false; token_ids = false; rollback_j = false }) m s in
      record cl {
        ranks = set_at (pos_part m.rank) a.session cl.ranks;
        oks = cl.oks ++ a.accepted ∷ [];
      }
]

-- `for (const Message& m : out)`.
unfoldable pub all_receive : Cluster → Cluster
unfolding for_each delivers
all_receive cl = for_each cl.out delivers cl

-- `check(ranks[r].hello(&hello, &e))` on sessions that are new.
unfoldable pub new_ranks : List RankSession → Cluster → Cluster
unfolding hello
new_ranks [] cl = cl
new_ranks (s ∷ rest) cl =
    let a = hello true s in
    new_ranks rest
      (record cl { ranks = cl.ranks ++ a.session ∷ []; oks = cl.oks ++ a.accepted ∷ [] })

-- The bootstrap of case 6, to Ready. The sessions that greet the coordinator are not those that go on.
unfoldable pub bootstrap : Coordinator → List RankSession → Cluster
unfolding hello all_report install_nccl_unique_id new_ranks all_receive report_nccl_ready
    report_load_ready same_state
bootstrap coord sessions =
    let greeted =
      all_report (λ s. hello true s)
        (record { coord = coord; ranks = sessions; out = []; oks = [] }) in
    let installed = install_nccl_unique_id (9 ∷ replicate 127 0) true greeted.coord in
    let with_id = record greeted {
      coord = installed.coordinator;
      ranks = [];
      out = installed.outbound;
      oks = greeted.oks ++ installed.accepted ∷ [];
    } in
    let connected =
      all_report (λ s. report_nccl_ready true (pos 0) [] true s)
        (all_receive (new_ranks sessions with_id)) in
    let loaded =
      all_report (λ s. report_load_ready true (pos 0) [] true s) (all_receive connected) in
    record loaded { oks = loaded.oks ++ same_state loaded.coord.state CoordinatorState.ready ∷ [] }
