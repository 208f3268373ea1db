-- ===== src/Protocol/Progress.antt =====
-- Steps of the cluster, one after another.
use mathlib.Core.Path.{subst}
use kimi_k3_neuron_tp3_dgxsp.Prelude.{
  ℕ, suc, ◌+◌, ◌%◌, ◌^◌, ◌<◌, ◌≡◌, refl, sym, ap, ◌∙◌, arith, true, false, List, [], ◌∷◌, length,
  get_or, replicate, length-replicate, All, All,
}
use kimi_k3_neuron_tp3_dgxsp.Prelude.Int.{ℤ}
use kimi_k3_neuron_tp3_dgxsp.Prelude.Loop.{for_each}
use kimi_k3_neuron_tp3_dgxsp.Protocol.Drive.{begin_step_multi, in_flight}
use kimi_k3_neuron_tp3_dgxsp.Protocol.Session.{RankSession, RankState}
use kimi_k3_neuron_tp3_dgxsp.Protocol.Identity.{IsCluster, spec_of}
use kimi_k3_neuron_tp3_dgxsp.Protocol.Gathering.{IsOrder}
use kimi_k3_neuron_tp3_dgxsp.Protocol.System.{
  Round, run, System, receives, reports, arrives, step, InStep,
}
use kimi_k3_neuron_tp3_dgxsp.Protocol.Stepping.{
  IsBatch, begin_step_multi_lem, taken, receives_batch,
}
use kimi_k3_neuron_tp3_dgxsp.Protocol.Barrier.{waiting, stepped, reports_running, all_arrive}

-- Every rank takes the batch that the coordinator sends.
taken_lem :
    (w : ℕ) (connection : ℕ → ℕ) (sys : System) (ids : List ℤ) (j : ℤ)
    → InStep w connection sys
    → IsBatch sys.coord.cluster.vocab ids j
    → (r : ℕ) → r < w
    → receives (begin_step_multi ids j true sys.coord).outbound (sys.rank r) r
      ≡ taken (sys.rank r) ids j
taken_lem w connection sys ids j (cluster, ready, size, here) batch r lt =
    let (set, own, spec, state, sequence) = here r lt in
    ap (λ a. receives a.outbound (sys.rank r) r) (begin_step_multi_lem sys.coord ids j ready batch)
    ∙ receives_batch w sys.coord ids j r (sys.rank r) cluster lt batch spec state sequence

running_lem :
    (w : ℕ) (connection : ℕ → ℕ) (sys : System) (ids : List ℤ) (j : ℤ)
    → InStep w connection sys
    → IsBatch sys.coord.cluster.vocab ids j
    → (r : ℕ) → r < w
    → (receives (begin_step_multi ids j true sys.coord).outbound (sys.rank r) r).session
      ≡ record (sys.rank r) { state = RankState.step_running }
running_lem w connection sys ids j inv batch r lt =
    ap (λ a. a.session) (taken_lem w connection sys ids j inv batch r lt)

-- The coordinator after one step.
coord_lem :
    (w : ℕ) (connection : ℕ → ℕ) (order : List ℕ) (sys : System) (ids : List ℤ) (j : ℤ)
    → InStep w connection sys
    → IsBatch sys.coord.cluster.vocab ids j
    → IsOrder w order
    → (step connection order ids j sys).coord ≡ stepped w sys.coord
unfolding step in_flight
coord_lem w connection order sys ids j inv batch is =
    let (cluster, ready, size, here) = inv in
    let begun = begin_step_multi ids j true sys.coord in
    let rank : ℕ → RankSession = λ r. (receives begun.outbound (sys.rank r) r).session in
    let start : begun.coordinator ≡ waiting sys.coord (replicate w false) =
      ap (λ a. a.coordinator) (begin_step_multi_lem sys.coord ids j ready batch)
      ∙ ap (λ n. waiting sys.coord (replicate n false)) size in
    ap (λ c. for_each order (arrives connection rank) c) start
    ∙ all_arrive w sys.coord connection rank order cluster
        (λ r lt.
          let (set, own, spec, state, sequence) = here r lt in
          let e = running_lem w connection sys ids j inv batch r lt in
          (
            set,
            own,
            ap (λ s. s.spec) e ∙ spec,
            ap (λ s. s.state) e,
            ap (λ s. s.next_sequence) e ∙ sequence,
          ))
        is

-- A rank after one step.
rank_lem :
    (w : ℕ) (connection : ℕ → ℕ) (order : List ℕ) (sys : System) (ids : List ℤ) (j : ℤ)
    → InStep w connection sys
    → IsBatch sys.coord.cluster.vocab ids j
    → (r : ℕ) → r < w
    → (step connection order ids j sys).rank r ≡ record (sys.rank r) {
      next_sequence = suc (sys.rank r).next_sequence % 2 ^ 64;
      state = RankState.waiting_token;
    }
unfolding step
rank_lem w connection order sys ids j inv batch r lt =
    let e = running_lem w connection sys ids j inv batch r lt in
    ap (λ s. (reports s).session) e
    ∙ ap (λ a. a.session)
        (reports_running (record (sys.rank r) { state = RankState.step_running }) refl)

-- One step keeps the cluster in step.
step-InStep :
    (w : ℕ) (connection : ℕ → ℕ) (order : List ℕ) (sys : System) (ids : List ℤ) (j : ℤ)
    → InStep w connection sys
    → IsBatch sys.coord.cluster.vocab ids j
    → IsOrder w order
    → InStep w connection (step connection order ids j sys)
step-InStep w connection order sys ids j inv batch is =
    let (cluster, ready, size, here) = inv in
    let e = coord_lem w connection order sys ids j inv batch is in
    (
      subst (IsCluster w) (ap (λ c. c.cluster) (sym e)) cluster,
      ap (λ c. c.state) e,
      ap (λ c. length c.step_done) e ∙ length-replicate w true,
      λ r lt.
          let (set, own, spec, state, sequence) = here r lt in
          let s = rank_lem w connection order sys ids j inv batch r lt in
          (
            set,
            ap (λ c. get_or c.peer_connection r 0) e ∙ own,
            ap (λ t. t.spec) s ∙ spec ∙ ap (λ c. spec_of c.cluster r) (sym e),
            ap (λ t. t.state) s,
            ap (λ t. t.next_sequence) s
                ∙ ap (λ n. suc n % 2 ^ 64) sequence
                ∙ ap (λ c. c.next_sequence) (sym e),
          ),
    )

-- In a cluster that is in step, a batch of one to sixteen tokens of the vocabulary, with a rollback index
-- from -1 to 15, reaches every rank whole, whatever the order in which the ranks reply, and the cluster
-- is in step again at the next sequence number.
pub step_completes :
    (w : ℕ) (connection : ℕ → ℕ) (order : List ℕ) (sys : System) (ids : List ℤ) (j : ℤ)
    → InStep w connection sys
    → IsBatch sys.coord.cluster.vocab ids j
    → IsOrder w order
    → ((r : ℕ)
        → r < w
        → receives (begin_step_multi ids j true sys.coord).outbound (sys.rank r) r
          ≡ taken (sys.rank r) ids j)
      × InStep w connection (step connection order ids j sys)
      × ((step connection order ids j sys).coord.next_sequence
          ≡ suc sys.coord.next_sequence % 2 ^ 64)
step_completes w connection order sys ids j inv batch is = (
  taken_lem w connection sys ids j inv batch,
  step-InStep w connection order sys ids j inv batch is,
  ap (λ c. c.next_sequence) (coord_lem w connection order sys ids j inv batch is),
)

-- A round whose batch the coordinator takes and in which every rank replies.
abbrev pub IsRound : ℕ → ℤ → Round → Type 0
IsRound w vocab b = IsBatch vocab b.ids b.rollback_j × IsOrder w b.order

-- A cluster that is in step, at a sequence number below 2 ^ 64, completes any number of rounds that each
-- have a legal batch and a reply of every rank in any order: it is in step again, and the sequence number
-- counts the rounds, modulo 2 ^ 64.
pub run_completes :
    (w : ℕ) (connection : ℕ → ℕ) (rounds : List Round) (sys : System)
    → InStep w connection sys
    → All (IsRound w sys.coord.cluster.vocab) rounds
    → sys.coord.next_sequence < 2 ^ 64
    → InStep w connection (run connection rounds sys)
      × ((run connection rounds sys).coord.next_sequence
          ≡ (sys.coord.next_sequence + length rounds) % 2 ^ 64)
unfolding run
run_completes w connection [] sys inv all small = (inv, omega (arith, small))
run_completes w connection (b ∷ bs) sys inv ((batch, is), all) small =
    let e = coord_lem w connection b.order sys b.ids b.rollback_j inv batch is in
    let next = step connection b.order b.ids b.rollback_j sys in
    let number : next.coord.next_sequence ≡ suc sys.coord.next_sequence % 2 ^ 64 =
      ap (λ c. c.next_sequence) e in
    let (inv', later) =
      run_completes w connection bs next
        (step-InStep w connection b.order sys b.ids b.rollback_j inv batch is)
        (subst (λ v. All (IsRound w v) bs) (ap (λ c. c.cluster.vocab) (sym e)) all)
        (omega (arith, number)) in
    (inv', omega (arith, later, number))
