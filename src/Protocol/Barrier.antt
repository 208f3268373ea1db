-- ===== src/Protocol/Barrier.antt =====
-- The StepDone messages of a step, and what the coordinator does with them one after another.
use kimi_k3_neuron_tp3_dgxsp.Prelude.{
  ℕ, zero, suc, ◌%◌, ◌^◌, ◌<◌, ◌≡◌, refl, ap, ◌∙◌, Bool, true, false, some, List, [], ◌∷◌,
  if◌then◌else◌, ◌==◌, ==_iff, length, get_or, replicate, inl, inr, Bool-cases,
}
use kimi_k3_neuron_tp3_dgxsp.Prelude.Int.{pos, ◌==ℤ◌}
use kimi_k3_neuron_tp3_dgxsp.Prelude.Loop.{for_each}
use kimi_k3_neuron_tp3_dgxsp.Protocol.Message.{same_phase, Message, MessageType, Phase, RankSpec}
use kimi_k3_neuron_tp3_dgxsp.Protocol.Text.{text}
use kimi_k3_neuron_tp3_dgxsp.Protocol.Coordinator.{
  AuthenticatedPeer, Coordinator, CoordinatorState, settle, goes, same_state, from_spec, all_seen,
  all_true, set_at,
}
use kimi_k3_neuron_tp3_dgxsp.Protocol.Accept.{index, accept, dispatch, on_step_done}
use kimi_k3_neuron_tp3_dgxsp.Protocol.Session.{
  same_rank_state, RankSession, RankState, report_step_done, takes, reply, report_message, reported,
}
use kimi_k3_neuron_tp3_dgxsp.Protocol.Identity.{
  IsCluster, IsOf, spec_of, peer, bound_own, accept-IsOf,
}
use kimi_k3_neuron_tp3_dgxsp.Protocol.Gathering.{IsOrder, gather, length-set_at}
use kimi_k3_neuron_tp3_dgxsp.Protocol.System.{sent, reports, arrives}

-- The StepDone that rank r sends at the end of its step.
abbrev pub running : RankSpec → ℕ → ℕ → RankSession → RankSession
running cluster n r s = record s {
  spec = spec_of cluster r;
  state = RankState.step_running;
  next_sequence = n;
}

unfoldable pub done_message : RankSession → Message
unfolding reply report_message
done_message s =
    report_message (reply s MessageType.step_done Phase.step) true (pos 0) []
      (text "rank-local forward step failed")

running_running : same_rank_state RankState.step_running RankState.step_running ≡ true
unfolding same_rank_state
running_running = refl

pub reports_running :
    (s : RankSession)
    → s.state ≡ RankState.step_running
    → reports s
      ≡ takes
          (record s {
            next_sequence = suc s.next_sequence % 2 ^ 64;
            state = RankState.waiting_token;
          })
          (some (done_message s))
unfolding reports report_step_done done_message
reports_running s state =
    let here : same_rank_state s.state RankState.step_running ≡ true =
      ap (λ t. same_rank_state t RankState.step_running) state ∙ running_running in
    rw (report_step_done, here, reported) refl

done_message-IsOf :
    (cluster : RankSpec) (r : ℕ) (s : RankSession)
    → s.spec ≡ spec_of cluster r
    → IsOf cluster r (done_message s)
unfolding done_message reply report_message from_spec
done_message-IsOf cluster r s e = (
  ap (λ p. p.session_id) e,
  ap (λ p. p.world_size) e,
  ap (λ p. p.rank) e,
  ap (λ p. p.local_device) e,
  ap (λ p. p.n_experts) e,
  ap (λ p. p.moe_ffn) e,
  ap (λ p. p.expert_block_elems) e,
  ap (λ p. p.vocab) e,
  ap (λ p. p.model_digest) e,
  ap (λ p. p.plan_digest) e,
)

-- The coordinator while StepDone messages are missing, and with all of them.
abbrev pub waiting : Coordinator → List Bool → Coordinator
waiting c flags = record c { step_done = flags; state = CoordinatorState.step_in_flight }

abbrev pub stepped : ℕ → Coordinator → Coordinator
stepped w c = record c {
  step_done = replicate w true;
  next_sequence = suc c.next_sequence % 2 ^ 64;
  state = CoordinatorState.ready;
}

all_true-replicate : (bs : List Bool) → all_true bs ≡ true → bs ≡ replicate (length bs) true
all_true-replicate [] e = refl
all_true-replicate (true ∷ bs) e = ap (λ cs. true ∷ cs) (all_true-replicate bs e)
all_true-replicate (false ∷ bs) e = cc

all_seen-replicate :
    (w : ℕ) (bs : List Bool) → length bs ≡ w → all_seen bs ≡ true → bs ≡ replicate w true
unfolding all_seen
all_seen-replicate w [] size e = cc
all_seen-replicate w (b ∷ bs) size e =
    all_true-replicate (b ∷ bs) e ∙ ap (λ n. replicate n true) size

-- A StepDone of the right sequence from a rank that has not sent one.
on_step_done_lem :
    (w : ℕ) (c : Coordinator) (flags : List Bool) (m : Message)
    → length flags ≡ w
    → (m.sequence == c.next_sequence) ≡ true
    → (m.status ==ℤ pos 0) ≡ true
    → same_phase m.phase Phase.step ≡ true
    → get_or flags (index m.rank) false ≡ false
    → on_step_done m (waiting c flags)
      ≡ goes
          (if all_seen (set_at (index m.rank) true flags)
            then stepped w c
            else waiting c (set_at (index m.rank) true flags))
          []
unfolding on_step_done same_state
on_step_done_lem w c flags m size sequence status phase missing =
    let flags' = set_at (index m.rank) true flags in
    elim (Bool-cases (all_seen flags')) [
      | inl full ↦
          let e =
            all_seen-replicate w flags' (length-set_at (index m.rank) true flags ∙ size) full in
          rw (on_step_done, sequence, status, phase, missing, full)
            (ap
              (λ fs.
                goes
                  (record c {
                    step_done = fs;
                    next_sequence = suc c.next_sequence % 2 ^ 64;
                    state = CoordinatorState.ready;
                  })
                  [])
              e)
      | inr part ↦ rw (on_step_done, sequence, status, phase, missing, part) refl
    ]

missing_false :
    (flags : List Bool) (r : ℕ) → get_or flags r true ≡ false → get_or flags r false ≡ false
missing_false [] r h = cc
missing_false (b ∷ bs) zero h = h
missing_false (b ∷ bs) (suc r) h = missing_false bs r h

dispatch-step_done :
    (p : AuthenticatedPeer) (m : Message) (c : Coordinator)
    → m.type ≡ MessageType.step_done
    → dispatch p m c ≡ on_step_done m c
unfolding dispatch
dispatch-step_done p m c e = rw (dispatch, e) refl

in_flight_live : same_state CoordinatorState.step_in_flight CoordinatorState.failed ≡ false
unfolding same_state
in_flight_live = refl

in_flight_unfinished : same_state CoordinatorState.step_in_flight CoordinatorState.finished ≡ false
unfolding same_state
in_flight_unfinished = refl

-- It arrives while others are missing, or as the last of them.
done_arrives :
    (w : ℕ) (c : Coordinator) (k r : ℕ) (s : RankSession) (flags : List Bool)
    → IsCluster w c.cluster
    → (k == 0) ≡ false
    → get_or c.peer_connection r 0 ≡ k
    → s.spec ≡ spec_of c.cluster r
    → s.next_sequence ≡ c.next_sequence
    → length flags ≡ w
    → r < w
    → get_or flags r true ≡ false
    → (accept (peer r k) (done_message s) true (waiting c flags)).coordinator
      ≡ (if all_seen (set_at r true flags) then stepped w c else waiting c (set_at r true flags))
unfolding done_message reply report_message from_spec same_phase ◌==ℤ◌ settle
done_arrives w c k r s flags cluster set own spec sequence size lt missing =
    let m = done_message s in
    let is = done_message-IsOf c.cluster r s spec in
    let who : index m.rank ≡ r = ap index is.2 in
    let through =
      accept-IsOf w r k m (waiting c flags) cluster lt is in_flight_live in_flight_unfinished set
        (bound_own r k m (waiting c flags) set own) in
    let verdict =
      on_step_done_lem w c flags m size ((==_iff s.next_sequence c.next_sequence).1 sequence) refl
        refl (missing_false flags (index m.rank) (ap (λ i. get_or flags i true) who ∙ missing)) in
    let onto : List Bool → Coordinator = λ fs. if all_seen fs then stepped w c else waiting c fs in
    ap (λ a. a.coordinator) through
    ∙ ap (λ v. (settle true (waiting c flags) v).coordinator)
        (dispatch-step_done (peer r k) m (waiting c flags) refl
          ∙ verdict
          ∙ ap (λ i. goes (onto (set_at i true flags)) []) who)

-- The StepDone messages of w ranks, in any order, complete the step.
pub all_arrive :
    (w : ℕ) (c : Coordinator) (connection : ℕ → ℕ) (rank : ℕ → RankSession) (order : List ℕ)
    → IsCluster w c.cluster
    → ((r : ℕ)
        → r < w
        → ((connection r == 0) ≡ false)
          × (get_or c.peer_connection r 0 ≡ connection r)
          × ((rank r).spec ≡ spec_of c.cluster r)
          × ((rank r).state ≡ RankState.step_running)
          × ((rank r).next_sequence ≡ c.next_sequence))
    → IsOrder w order
    → for_each order (arrives connection rank) (waiting c (replicate w false)) ≡ stepped w c
unfolding arrives
all_arrive w c connection rank order cluster here is =
    gather (waiting c) (stepped w c) (arrives connection rank) w
      (λ r flags size lt missing.
        let (set, own, spec, state, sequence) = here r lt in
        ap
          (λ a.
            (accept (peer r (connection r)) (sent a.outbound) true (waiting c flags)).coordinator)
          (reports_running (rank r) state)
        ∙ done_arrives w c (connection r) r (rank r) flags cluster set own spec sequence size lt
            missing)
      order cluster.2 is
