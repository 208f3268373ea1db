-- ===== src/Microbench/Agreement.antt =====
-- Every rank ends up with the id that rank 0 created.
use kimi_k3_neuron_tp3_dgxsp.Prelude.{
  ℕ, zero, suc, ◌+◌, ◌-◌, ◌≤◌, ◌<◌, ◌≡◌, ◌≢◌, refl, sym, ap, ◌∙◌, false, not, Option, none, some,
  List, ◌++◌, length, replicate, arith, inl, inr, Bool-cases, Option-cases, append-nil, get_elem?,
  get_elem?-replicate,
}
use kimi_k3_neuron_tp3_dgxsp.Prelude.Int.{ℤ, pos, negsuc, ltb_ℤ, ◌==ℤ◌, ==ℤ_iff}
use native.Mathlib.Nat.{zero-add}
use kimi_k3_neuron_tp3_dgxsp.Microbench.Socket.{Byte, send_all, Splits, moved}
use kimi_k3_neuron_tp3_dgxsp.Microbench.Transport.{send_all-wire, recv_all-Splits}
use kimi_k3_neuron_tp3_dgxsp.Microbench.Exchange.{
  Run, runs, died, waits, undefined, no_connect, no_accept, no_socket, no_bind, no_listen, ◌>>=◌,
  die_if, Server, sent_or_die, serve, exchange_server, id_of, Worker, attempts, received_or_die,
  exchange_worker,
}

-- A send that does not end the process has put the whole id on the wire.
sent-whole :
    (results : List ℤ) (id wire : List Byte)
    → sent_or_die (send_all results id) ≡ runs wire
    → wire ≡ id
unfolding sent_or_die
sent-whole results id wire e = elim (Option-cases (send_all results id)) [
  | inl never ↦ absurd (cc (rw never at e))
  | inr (s, sent) ↦
      let (rest, whole, all) = send_all-wire results id s sent in
      elim (Bool-cases s.done) [
        | inl done ↦
            let out : s.wire ≡ wire = cc (rw (sent, sent_or_die, done) at e) in
            sym out ∙ sym (append-nil s.wire) ∙ ap (◌++◌ s.wire) (sym (all.0 done)) ∙ whole
        | inr failed ↦ absurd (cc (rw (sent, sent_or_die, failed) at e))
      ]
]

id_of-runs : (o : Option (List Byte)) {id : List Byte} → id_of o ≡ runs id → o ≡ some id
id_of-runs none e = cc
id_of-runs (some id) e = cc

-- Inversion of a bind that runs.
pub bind-runs :
    {A B : Type 0} (m : Run A) (f : A → Run B) {b : B}
    → (m >>= f) ≡ runs b
    → (a : A) × (m ≡ runs a) × (f a ≡ runs b)
bind-runs (runs a) f e = (a, refl, e)
bind-runs (died m) f e = cc
bind-runs waits f e = cc
bind-runs undefined f e = cc

serve-replicate :
    (server : Server) (id : List Byte) (rounds i : ℕ) {wires : List (List Byte)}
    → serve server id rounds i ≡ runs wires
    → wires ≡ replicate rounds id
unfolding serve
serve-replicate server id zero i e = cc
serve-replicate server id (suc rounds) i {wires} e =
    let (_, open_ok, e₁) = bind-runs (die_if (ltb_ℤ (server.accept i) (pos 0)) no_accept) _ e in
    let (wire, sent, e₂) = bind-runs (sent_or_die (send_all (server.sends i) id)) _ e₁ in
    let (rest, served, e₃) = bind-runs (serve server id rounds (suc i)) _ e₂ in
    let ih = serve-replicate server id rounds (suc i) served in
    let whole = sent-whole (server.sends i) id wire sent in cc

-- If rank 0 gets through the exchange, the id is the one that NCCL created, and each of its
-- world - 1 connections was sent exactly that id, whatever the kernel did with the bytes.
pub exchange_server-wires :
    (server : Server) (world : ℕ) (id : List Byte) (wires : List (List Byte))
    → exchange_server server world ≡ runs (id, wires)
    → (server.unique_id ≡ some id) × (wires ≡ replicate (world - 1) id)
unfolding exchange_server
exchange_server-wires server world id wires e =
    let (id', made, e₁) = bind-runs (id_of server.unique_id) _ e in
    let (_, s, e₂) = bind-runs (die_if (ltb_ℤ server.socket (pos 0)) no_socket) _ e₁ in
    let (_, b, e₃) = bind-runs (die_if (not (server.bind ==ℤ pos 0)) no_bind) _ e₂ in
    let (_, l, e₄) = bind-runs (die_if (not (server.listen ==ℤ pos 0)) no_listen) _ e₃ in
    let (wires', served, e₅) = bind-runs (serve server id' (world - 1) 0) _ e₄ in
    let all = serve-replicate server id' (world - 1) 0 served in
    let created = id_of-runs server.unique_id made in (cc, cc)

-- An address that reads, at an attempt that fails: the loop goes on.
attempts-failed :
    (worker : Worker) (rounds attempt : ℕ)
    → worker.inet_pton attempt ≡ pos 1
    → worker.connect attempt ≢ pos 0
    → attempts worker (suc rounds) attempt ≡ attempts worker rounds (suc attempt)
unfolding attempts
attempts-failed worker rounds attempt address failed =
    elim (Bool-cases (worker.connect attempt ==ℤ pos 0)) [
      | inl same ↦ absurd (failed ((==ℤ_iff _ _).0 same))
      | inr differ ↦ rw (address, differ, attempts) refl
    ]

-- The attempts go on past failures, and end at the first connection.
attempts-first :
    (worker : Worker) (d rounds attempt : ℕ)
    → d < rounds
    → ((i : ℕ) → i ≤ d → worker.inet_pton (attempt + i) ≡ pos 1)
    → ((i : ℕ) → i < d → worker.connect (attempt + i) ≢ pos 0)
    → worker.connect (attempt + d) ≡ pos 0
    → attempts worker rounds attempt ≡ runs (worker.socket (attempt + d))
unfolding attempts
attempts-first worker d zero attempt h address failed success = absurd (omega arith)
attempts-first worker zero (suc rounds) attempt h address failed success =
    let z : attempt + 0 ≡ attempt = omega arith in
    let read : worker.inet_pton attempt ≡ pos 1 = rw z at (address 0 (omega arith)) in
    let connects : worker.connect attempt ≡ pos 0 = rw z at success in
    rw (z, read, connects, attempts) refl
attempts-first worker (suc d) (suc rounds) attempt h address failed success =
    let z : attempt + 0 ≡ attempt = omega arith in
    let shift = λ (i : ℕ). let e : attempt + suc i ≡ suc attempt + i = omega arith in e in
    attempts-failed worker rounds attempt (rw z at (address 0 (omega arith)))
      (rw z at (failed 0 (omega arith)))
    ∙ attempts-first worker d rounds (suc attempt) (omega arith)
        (λ i hi. rw (← shift i) (address (suc i) (omega arith)))
        (λ i hi. rw (← shift i) (failed (suc i) (omega arith))) (rw (← shift d) success)
    ∙ rw (shift d) refl

-- Where every attempt fails there is no descriptor.
attempts-none :
    (worker : Worker) (rounds attempt : ℕ)
    → ((i : ℕ) → i < rounds → worker.inet_pton (attempt + i) ≡ pos 1)
    → ((i : ℕ) → i < rounds → worker.connect (attempt + i) ≢ pos 0)
    → attempts worker rounds attempt ≡ runs (negsuc 0)
unfolding attempts
attempts-none worker zero attempt address failed = refl
attempts-none worker (suc rounds) attempt address failed =
    let z : attempt + 0 ≡ attempt = omega arith in
    let shift = λ (i : ℕ). let e : attempt + suc i ≡ suc attempt + i = omega arith in e in
    attempts-failed worker rounds attempt (rw z at (address 0 (omega arith)))
      (rw z at (failed 0 (omega arith)))
    ∙ attempts-none worker rounds (suc attempt)
        (λ i hi. rw (← shift i) (address (suc i) (omega arith)))
        (λ i hi. rw (← shift i) (failed (suc i) (omega arith)))

-- A worker whose address reads and whose hundred connections all fail dies of that, and receives
-- nothing.
pub exchange_worker-no_connect :
    (worker : Worker) (size : ℕ) (incoming : List Byte)
    → ((i : ℕ) → i < 100 → worker.inet_pton i ≡ pos 1)
    → ((i : ℕ) → i < 100 → worker.connect i ≢ pos 0)
    → exchange_worker worker size incoming ≡ died no_connect
unfolding exchange_worker
exchange_worker-no_connect worker size incoming address failed =
    rw (attempts-none worker 100 0 (λ i. rw zero-add (address i)) (λ i. rw zero-add (failed i)))
      refl

-- A worker that connects at attempt d ends up with rank 0's id, where the exchange on rank 0 went
-- through, the address reads, the attempts before d < 100 failed and attempt d connected on a
-- descriptor that is not negative, the connection carries what rank 0 sent over one of its own, each
-- receive moves at least a byte and no more than are missing, and the receives together move it all.
pub exchange_worker-server :
    (server : Server) (world : ℕ) (id : List Byte) (wires : List (List Byte)) (i : ℕ)
    (wire : List Byte) (worker : Worker) (d n : ℕ)
    → exchange_server server world ≡ runs (id, wires)
    → get_elem? wires i ≡ some wire
    → d < 100
    → ((a : ℕ) → a ≤ d → worker.inet_pton a ≡ pos 1)
    → ((a : ℕ) → a < d → worker.connect a ≢ pos 0)
    → worker.connect d ≡ pos 0
    → worker.socket d ≡ pos n
    → Splits (length wire) worker.recvs
    → length wire ≤ moved worker.recvs
    → (server.unique_id ≡ some id) × (exchange_worker worker (length id) wire ≡ runs id)
unfolding exchange_worker received_or_die
exchange_worker-server server world id wires i wire worker d n served at hd address failed success
      opened splits all =
    let (made, sent) = exchange_server-wires server world id wires served in
    let same : wire ≡ id = get_elem?-replicate (world - 1) id i (rw sent at at) in
    let first =
      attempts-first worker d 100 0 hd (λ a. rw zero-add (address a)) (λ a. rw zero-add (failed a))
        (rw zero-add success) in
    let got = recv_all-Splits worker.recvs wire splits all in
    (
      made,
      rw (← same) (
          rw
            (
              first ∙ ap (λ (fd : ℤ). runs fd) (ap worker.socket (zero-add d) ∙ opened),
              got,
              open_fd n,
              received_or_die,
            )
            refl),
    )
  where
    open_fd : (n : ℕ) → ltb_ℤ (pos n) (pos 0) ≡ false
    open_fd n = ground arith
