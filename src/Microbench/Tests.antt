-- ===== src/Microbench/Tests.antt =====
-- Concrete inputs for the theorems on the benchmark.
use Prim.Native.String.{String}
use kimi_k3_neuron_tp3_dgxsp.Prelude.{
  ℕ, zero, suc, ◌+◌, ◌-◌, ◌*◌, ◌^◌, ◌≤◌, ◌<◌, ◌≡◌, ◌≢◌, ◌↔◌, refl, ap, true, false, ◌==◌, ==_iff,
  some, List, [], ◌∷◌, ◌++◌, replicate, if◌then◌else◌, ltb, arith,
}
use kimi_k3_neuron_tp3_dgxsp.Prelude.Int.{ℤ, pos, negsuc}
use kimi_k3_neuron_tp3_dgxsp.Microbench.Socket.{Byte, send_all, recv_all}
use kimi_k3_neuron_tp3_dgxsp.Microbench.Transport.{send_all-wire, recv_all-send_all}
use kimi_k3_neuron_tp3_dgxsp.Microbench.Exchange.{
  runs, died, no_connect, Server, exchange_server, Worker, exchange_worker,
}
use kimi_k3_neuron_tp3_dgxsp.Microbench.Agreement.{
  exchange_server-wires, exchange_worker-no_connect, exchange_worker-server,
}
use kimi_k3_neuron_tp3_dgxsp.Microbench.Args.{
  defaults, parsed, parse, read_args, same_text, Options,
}
use kimi_k3_neuron_tp3_dgxsp.Microbench.Options.{
  Given, rank, world, host, spelled, set, parse-spelled, read_args-InWorld,
}
use kimi_k3_neuron_tp3_dgxsp.Microbench.Check.{Calls, Device, check_counts}
use kimi_k3_neuron_tp3_dgxsp.Microbench.Verdict.{Correct, check_counts-Correct}
use kimi_k3_neuron_tp3_dgxsp.Microbench.Sums.{sum, constant, Adds, Succeeds, check_counts-pass}

abbrev id_bytes : List Byte
id_bytes = 7 ∷ 8 ∷ 9 ∷ []

-- The first call moves two of the three bytes.
abbrev in_pieces : List ℤ
in_pieces = pos 2 ∷ pos 1 ∷ pos 1 ∷ []

cut_off :
    send_all (pos 2 ∷ negsuc 0 ∷ []) id_bytes ≡ some (record { done = false; wire = 7 ∷ 8 ∷ [] })
unfolding send_all
cut_off = refl

send_all-wire_example :
    (rest : List Byte) × ((7 ∷ 8 ∷ []) ++ rest ≡ id_bytes) × ((false ≡ true) ↔ (rest ≡ []))
send_all-wire_example =
    send_all-wire (pos 2 ∷ negsuc 0 ∷ []) id_bytes (record { done = false; wire = 7 ∷ 8 ∷ [] })
      cut_off

recv_all-send_all_example :
    (send_all in_pieces id_bytes ≡ some (record { done = true; wire = id_bytes }))
    × (recv_all (pos 1 ∷ pos 2 ∷ negsuc 0 ∷ []) 3 id_bytes
        ≡ some (record { done = true; buffer = id_bytes; incoming = [] }))
recv_all-send_all_example =
    recv_all-send_all in_pieces (pos 1 ∷ pos 2 ∷ negsuc 0 ∷ []) id_bytes
      (refl, omega arith, (refl, omega arith, tt)) (omega arith)
      (refl, omega arith, (refl, omega arith, tt)) (omega arith)

-- Three ranks; the worker's third attempt connects.
abbrev serving : Server
serving = record {
  unique_id = some id_bytes;
  socket = pos 3;
  bind = pos 0;
  listen = pos 0;
  accept = λ i. pos (4 + i);
  sends = λ i. in_pieces;
}

abbrev connecting : Worker
connecting = record {
  socket = λ a. pos (3 + a);
  inet_pton = λ a. pos 1;
  connect = λ a. if ltb a 2 then negsuc 0 else pos 0;
  recvs = pos 3 ∷ [];
}

served : exchange_server serving 3 ≡ runs (id_bytes, id_bytes ∷ id_bytes ∷ [])
unfolding exchange_server
served = refl

exchange_server-wires_example :
    (some id_bytes ≡ some id_bytes) × (id_bytes ∷ id_bytes ∷ [] ≡ replicate (3 - 1) id_bytes)
exchange_server-wires_example =
    exchange_server-wires serving 3 id_bytes (id_bytes ∷ id_bytes ∷ []) served

refusing : (a : ℕ) → a < 2 → connecting.connect a ≢ pos 0
refusing a h e = ground (arith, e)

never : (a : ℕ) → a < 100 → negsuc 0 ≢ pos 0
never a h e = cc e

exchange_worker-server_example :
    (some id_bytes ≡ some id_bytes) × (exchange_worker connecting 3 id_bytes ≡ runs id_bytes)
exchange_worker-server_example =
    exchange_worker-server serving 3 id_bytes (id_bytes ∷ id_bytes ∷ []) 1 id_bytes connecting 2 5
      served refl (omega arith) (λ a h. refl) refusing refl refl (refl, omega arith, tt)
      (omega arith)

abbrev unreachable : Worker
unreachable = record connecting { connect = λ a. negsuc 0 }

exchange_worker-no_connect_example : exchange_worker unreachable 3 id_bytes ≡ died no_connect
exchange_worker-no_connect_example =
    exchange_worker-no_connect unreachable 3 id_bytes (λ a h. refl) never

-- atoi on the numbers that stand below.
abbrev atoi : String → ℤ
unfolding same_text
atoi v = if same_text v "1" then pos 1 else (if same_text v "3" then pos 3 else pos 0)

abbrev given : List Given
given = rank "2" ∷ host "--world" ∷ world "3" ∷ rank "1" ∷ []

parse-spelled_example : parse atoi (spelled given) defaults ≡ parsed (set atoi given defaults)
parse-spelled_example = parse-spelled atoi given defaults

abbrev accepted : Options
accepted = record defaults { rank = pos 1; host = "--world" }

reads : read_args atoi (spelled given) ≡ parsed accepted
unfolding read_args same_text
reads = refl

read_args-InWorld_example : (r w : ℕ) × (pos 1 ≡ pos r) × (pos 3 ≡ pos w) × (r < w) × (2 ≤ w)
read_args-InWorld_example = read_args-InWorld atoi (spelled given) accepted reads

-- An all-reduce on whole numbers: the sum of the first elements, in each place.
abbrev heads : List (List ℕ) → List ℕ
heads [] = []
heads ([] ∷ ls) = heads ls
heads ((x ∷ l) ∷ ls) = x ∷ heads ls

abbrev adder : Device
adder = record {
  Float = ℕ;
  of_nat = λ n. n;
  same = λ a b. a == b;
  all_reduce = λ count ls. replicate count (sum (heads ls));
}

constant-heads :
    (count : ℕ) (ns : List ℕ)
    → replicate count (sum (heads (constant adder count ns))) ≡ replicate count (sum ns)
constant-heads zero ns = refl
constant-heads (suc count) ns = ap (λ xs. replicate (suc count) (sum xs)) (go ns)
  where
    go : (ns : List ℕ) → heads (constant adder (suc count) ns) ≡ ns
    go [] = refl
    go (n ∷ ns) = ap (◌∷◌ n) (go ns)

adder-Adds : Adds adder
adder-Adds = record {
  same-refl = λ n h. (==_iff n n).1 refl;
  exact = λ count ns h. constant-heads count ns;
}

abbrev fine : Calls
fine = record {
  malloc = true;
  h2d = true;
  correctness_ar = true;
  sync_corr = true;
  d2h = true;
  warmup = λ i. true;
  sync_warmup = true;
  bench = λ i. true;
  sync_bench = true;
}

fine-Succeeds : ℕ → Succeeds fine
fine-Succeeds i = record {
  malloc = refl;
  h2d = refl;
  correctness_ar = refl;
  sync_corr = refl;
  d2h = refl;
  warmup = λ i. refl;
  sync_warmup = refl;
  bench = λ i. refl;
  sync_bench = refl;
}

check_counts-pass_example : check_counts adder (λ i. fine) 3 200 ≡ runs 0
check_counts-pass_example =
    check_counts-pass adder (λ i. fine) 3 200 adder-Adds fine-Succeeds (omega arith)

three_pass : check_counts adder (λ i. fine) 3 200 ≡ runs 0
three_pass = check_counts-pass adder (λ i. fine) 3 200 adder-Adds fine-Succeeds (omega arith)

check_counts-Correct_example : (3 * (3 + 1) < 2 ^ 31) × Correct adder 3 7168 × Correct adder 3 10752
check_counts-Correct_example = check_counts-Correct adder (λ i. fine) 3 200 three_pass
