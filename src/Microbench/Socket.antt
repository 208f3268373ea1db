-- ===== src/Microbench/Socket.antt =====
-- send_all and recv_all. The kernel chooses what each call of ::send or ::recv returns: a list of
-- results, one for each call. `none` is a call that never returns.
use kimi_k3_neuron_tp3_dgxsp.Prelude.{
  ℕ, zero, suc, ◌+◌, ◌-◌, ◌≤◌, ◌≡◌, Bool, true, false, Option, none, some, List, [], ◌∷◌, ◌++◌,
  take, drop, if◌then◌else◌,
}
use kimi_k3_neuron_tp3_dgxsp.Prelude.Int.{ℤ, pos, pos_part, leb_ℤ}

abbrev pub Byte : Type 0
Byte = ℕ

-- The result of the call, and the bytes that have gone out.
pub record Sent : Type 0 where
  pub done : Bool
  pub wire : List Byte

-- `left` is what stands from c + off on.
unfoldable pub send_loop : List ℤ → List Byte → List Byte → Option Sent
send_loop results [] wire = some (record { done = true; wire = wire })
send_loop [] (b ∷ left) wire = none
send_loop (w ∷ results) (b ∷ left) wire =
    if leb_ℤ w (pos 0)
    then some (record { done = false; wire = wire })
    else send_loop results (drop (pos_part w) (b ∷ left)) (wire ++ take (pos_part w) (b ∷ left))

unfoldable pub send_all : List ℤ → List Byte → Option Sent
unfolding send_loop
send_all results p = send_loop results p []

-- The result of the call, the buffer up to off, and what is left in the connection.
pub record Received : Type 0 where
  pub done : Bool
  pub buffer : List Byte
  pub incoming : List Byte

-- `need` is n - off.
unfoldable pub recv_loop : List ℤ → ℕ → List Byte → List Byte → Option Received
recv_loop results zero incoming buffer =
    some (record { done = true; buffer = buffer; incoming = incoming })
recv_loop [] (suc need) incoming buffer = none
recv_loop (r ∷ results) (suc need) incoming buffer =
    if leb_ℤ r (pos 0)
    then some (record { done = false; buffer = buffer; incoming = incoming })
    else recv_loop results (suc need - pos_part r) (drop (pos_part r) incoming)
        (buffer ++ take (pos_part r) incoming)

unfoldable pub recv_all : List ℤ → ℕ → List Byte → Option Received
unfolding recv_loop
recv_all results n incoming = recv_loop results n incoming []

-- What the kernel promises of the calls that move n bytes: while bytes are missing, each call moves at
-- least one and no more than it was asked for. What it would return after that is left open.
abbrev pub Splits : ℕ → List ℤ → Type 0
Splits zero results = Unit
Splits (suc n) [] = Unit
Splits (suc n) (r ∷ results) =
    (leb_ℤ r (pos 0) ≡ false) × (pos_part r ≤ suc n) × Splits (suc n - pos_part r) results

-- The bytes that the calls move together.
abbrev pub moved : List ℤ → ℕ
moved [] = 0
moved (r ∷ results) = pos_part r + moved results
