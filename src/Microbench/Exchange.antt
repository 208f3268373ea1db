-- ===== src/Microbench/Exchange.antt =====
-- exchange_id: rank 0 serves the NCCL unique id once to each of world - 1 connections, a worker
-- retries its connection a hundred times. The results of the socket calls are parameters; `die` and
-- the check macros end the process.
use kimi_k3_neuron_tp3_dgxsp.Prelude.{
  ℕ, zero, suc, ◌-◌, Bool, true, false, not, Option, none, some, List, [], ◌∷◌, if◌then◌else◌,
}
use kimi_k3_neuron_tp3_dgxsp.Prelude.Int.{ℤ, pos, negsuc, ltb_ℤ, ◌==ℤ◌}
use kimi_k3_neuron_tp3_dgxsp.Microbench.Socket.{Byte, Sent, send_all, Received, recv_all}

pub data Fatal : Type 0 where
  nccl_failed cuda_failed no_socket no_bind no_listen no_accept send_failed bad_address no_connect
        recv_failed :
      Fatal

-- A process that goes on, one that has exited, one that waits in a call for ever, and one whose
-- behaviour is undefined.
pub data Run (A : Type 0) : Type 0 where
  runs : A → Run A
  died : Fatal → Run A
  waits : Run A
  undefined : Run A

infixl 5 ◌>>=◌ ◌>>◌
abbrev pub ◌>>=◌ : {A B : Type 0} → Run A → (A → Run B) → Run B
runs a >>= f = f a
died m >>= f = died m
waits >>= f = waits
undefined >>= f = undefined

abbrev pub ◌>>◌ : {B : Type 0} → Run (Unit {0}) → Run B → Run B
m >> k = m >>= λ _. k

abbrev pub die_if : Bool → Fatal → Run (Unit {0})
die_if true m = died m
die_if false m = runs tt

-- What the calls on rank 0 return: the id, `socket`, `bind`, `listen`, and for connection i
-- `accept` and the results of the sends.
pub record Server : Type 0 where
  pub unique_id : Option (List Byte)
  pub socket : ℤ
  pub bind : ℤ
  pub listen : ℤ
  pub accept : ℕ → ℤ
  pub sends : ℕ → List ℤ

abbrev pub id_of : Option (List Byte) → Run (List Byte)
id_of none = died nccl_failed
id_of (some id) = runs id

-- `if (!send_all(c, id, sizeof(*id))) die("send id")`.
unfoldable pub sent_or_die : Option Sent → Run (List Byte)
sent_or_die none = waits
sent_or_die (some s) = if s.done then runs s.wire else died send_failed

-- `for (i = 0; i < world - 1; ++i)`, with the rounds left; the result is what each connection got.
unfoldable pub serve : Server → List Byte → ℕ → ℕ → Run (List (List Byte))
unfolding sent_or_die send_all
serve server id zero i = runs []
serve server id (suc rounds) i = do
  die_if (ltb_ℤ (server.accept i) (pos 0)) no_accept
  wire ← sent_or_die (send_all (server.sends i) id)
  rest ← serve server id rounds (suc i)
  runs (wire ∷ rest)

-- The id on rank 0, and what the connections got.
unfoldable pub exchange_server : Server → ℕ → Run (List Byte × List (List Byte))
unfolding serve ◌==ℤ◌
exchange_server server world = do
  id ← id_of server.unique_id
  die_if (ltb_ℤ server.socket (pos 0)) no_socket
  die_if (not (server.bind ==ℤ pos 0)) no_bind
  die_if (not (server.listen ==ℤ pos 0)) no_listen
  wires ← serve server id (world - 1) 0
  runs (id, wires)

-- What the calls on a worker return at each attempt, and the results of the receives.
pub record Worker : Type 0 where
  pub socket : ℕ → ℤ
  pub inet_pton : ℕ → ℤ
  pub connect : ℕ → ℤ
  pub recvs : List ℤ

-- `for (attempt = 0; attempt < 100; ++attempt)`, with the rounds left; -1 where all have failed.
unfoldable pub attempts : Worker → ℕ → ℕ → Run ℤ
unfolding ◌==ℤ◌
attempts worker zero attempt = runs (negsuc 0)
attempts worker (suc rounds) attempt =
    let more = attempts worker rounds (suc attempt) in
    if not (worker.inet_pton attempt ==ℤ pos 1)
    then died bad_address
    else (if worker.connect attempt ==ℤ pos 0 then runs (worker.socket attempt) else more)

unfoldable pub received_or_die : Option Received → Run (List Byte)
received_or_die none = waits
received_or_die (some r) = if r.done then runs r.buffer else died recv_failed

-- A worker that is sent `incoming` over its connection, with `size` for sizeof(*id).
unfoldable pub exchange_worker : Worker → ℕ → List Byte → Run (List Byte)
unfolding attempts received_or_die recv_all
exchange_worker worker size incoming = do
  fd ← attempts worker 100 0
  die_if (ltb_ℤ fd (pos 0)) no_connect
  received_or_die (recv_all worker.recvs size incoming)
