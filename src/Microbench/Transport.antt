-- ===== src/Microbench/Transport.antt =====
-- However the kernel splits the bytes, they arrive whole and in order.
use kimi_k3_neuron_tp3_dgxsp.Prelude.{
  ℕ, zero, suc, ◌+◌, ◌-◌, ◌≤◌, ◌≡◌, ◌↔◌, refl, sym, ap, ap₂, ◌∙◌, true, some, List, [], ◌∷◌, ◌++◌,
  length, take, drop, arith, inl, inr, Bool-cases, append_assoc, append-nil, length-drop, take-all,
  take-append-drop,
}
use mathlib.Core.Path.{subst}
use kimi_k3_neuron_tp3_dgxsp.Prelude.Int.{ℤ, pos, pos_part, leb_ℤ}
use kimi_k3_neuron_tp3_dgxsp.Microbench.Socket.{
  Byte, Sent, send_loop, send_all, recv_loop, recv_all, Splits, moved,
}

-- What has gone out is a first part of the data, all of it where the call succeeds.
send_loop-wire :
    (results : List ℤ) (left wire : List Byte) (s : Sent)
    → send_loop results left wire ≡ some s
    → (rest : List Byte) × (s.wire ++ rest ≡ wire ++ left) × ((s.done ≡ true) ↔ (rest ≡ []))
unfolding send_loop
send_loop-wire results [] wire s e = ([], ground arith, (λ d. refl, λ d. ground arith))
send_loop-wire [] (b ∷ left) wire s e = absurd (cc e)
send_loop-wire (w ∷ results) (b ∷ left) wire s e = elim (Bool-cases (leb_ℤ w (pos 0))) [
  | inl stop ↦ ((b ∷ left), ground arith, (λ d. ground arith, λ d. absurd (cc d)))
  | inr go ↦
      let k = pos_part w in
      let (rest, whole, all) =
        send_loop-wire results (drop k (b ∷ left)) (wire ++ take k (b ∷ left)) s
          (rw (go, send_loop) at e) in
      (
        rest,
        whole
            ∙ append_assoc wire (take k (b ∷ left)) (drop k (b ∷ left))
            ∙ ap (◌++◌ wire) (take-append-drop k (b ∷ left)),
        all,
      )
]

-- Whatever the calls return, what has gone out is a first part of the data, and all of it exactly
-- when the call reports success.
pub send_all-wire :
    (results : List ℤ) (p : List Byte) (s : Sent)
    → send_all results p ≡ some s
    → (rest : List Byte) × (s.wire ++ rest ≡ p) × ((s.done ≡ true) ↔ (rest ≡ []))
unfolding send_all
send_all-wire results p s e = send_loop-wire results p [] s e

send_loop_total :
    (results : List ℤ) (left wire : List Byte)
    → Splits (length left) results
    → length left ≤ moved results
    → send_loop results left wire ≡ some (record { done = true; wire = wire ++ left })
unfolding send_loop
send_loop_total results [] wire a h = rw append-nil refl
send_loop_total [] (b ∷ left) wire a h = absurd (omega arith)
send_loop_total (w ∷ results) (b ∷ left) wire a h =
    let k = pos_part w in
    let e = length-drop k (b ∷ left) in
    let step =
      send_loop_total results (drop k (b ∷ left)) (wire ++ take k (b ∷ left))
        (subst (λ n. Splits n results) (sym e) a.2) (omega (arith, e)) in
    rw (a.0, send_loop)
      (step
        ∙ ap (λ l. some (record { done = true; wire = l }))
            (append_assoc wire (take k (b ∷ left)) (drop k (b ∷ left))
              ∙ ap (◌++◌ wire) (take-append-drop k (b ∷ left))))

take_more :
    (k m : ℕ) (xs : List Byte) → k ≤ length xs → take k xs ++ take m (drop k xs) ≡ take (k + m) xs
take_more zero m xs h = let e : 0 + m ≡ m = omega arith in rw e refl
take_more (suc k) m [] h = absurd (omega arith)
take_more (suc k) m (x ∷ xs) h =
    let e : suc k + m ≡ suc (k + m) = omega arith in
    rw e (ap (◌∷◌ x) (take_more k m xs (omega arith)))

drop_more : (k m : ℕ) (xs : List Byte) → k ≤ length xs → drop m (drop k xs) ≡ drop (k + m) xs
drop_more zero m xs h = let e : 0 + m ≡ m = omega arith in rw e refl
drop_more (suc k) m [] h = absurd (omega arith)
drop_more (suc k) m (x ∷ xs) h =
    let e : suc k + m ≡ suc (k + m) = omega arith in rw e (drop_more k m xs (omega arith))

recv_loop_total :
    (results : List ℤ) (need : ℕ) (incoming buffer : List Byte)
    → Splits need results
    → need ≤ moved results
    → need ≤ length incoming
    → recv_loop results need incoming buffer
      ≡ some (record {
        done = true;
        buffer = buffer ++ take need incoming;
        incoming = drop need incoming;
      })
unfolding recv_loop
recv_loop_total results zero incoming buffer a h enough = rw append-nil refl
recv_loop_total [] (suc need) incoming buffer a h enough = absurd (omega arith)
recv_loop_total (r ∷ results) (suc need) incoming buffer a h enough =
    let k = pos_part r in
    let there : k ≤ length incoming = omega (arith, a.1) in
    let e : k + (suc need - k) ≡ suc need = omega (arith, a.1) in
    let step =
      recv_loop_total results (suc need - k) (drop k incoming) (buffer ++ take k incoming) a.2
        (omega arith) (omega (arith, length-drop k incoming)) in
    let left = drop_more k (suc need - k) incoming there ∙ ap (λ n. drop n incoming) e in
    let read =
      append_assoc buffer (take k incoming) (take (suc need - k) (drop k incoming))
      ∙ ap (◌++◌ buffer)
          (take_more k (suc need - k) incoming there ∙ ap (λ n. take n incoming) e) in
    rw (a.0, recv_loop)
      (step ∙ ap₂ (λ b l. some (record { done = true; buffer = b; incoming = l })) read left)

-- Where the kernel splits the bytes and moves all of them, the buffer gets all.
pub recv_all-Splits :
    (recvs : List ℤ) (p : List Byte)
    → Splits (length p) recvs
    → length p ≤ moved recvs
    → recv_all recvs (length p) p ≡ some (record { done = true; buffer = p; incoming = [] })
unfolding recv_all
recv_all-Splits recvs p a long =
    recv_loop_total recvs (length p) p [] a long (omega arith)
    ∙ ap₂ (λ b l. some (record { done = true; buffer = b; incoming = l }))
        (take-all (length p) p (omega arith)) (drop-all p)
  where
    drop-all : (xs : List Byte) → drop (length xs) xs ≡ []
    drop-all [] = refl
    drop-all (x ∷ xs) = drop-all xs

-- However the kernels of the two hosts split the bytes, each on its own, as long as each call moves at
-- least one and no more than are missing, and the calls together move them all: both functions succeed,
-- and the receiver's buffer is the sender's data.
pub recv_all-send_all :
    (sends recvs : List ℤ) (p : List Byte)
    → Splits (length p) sends
    → length p ≤ moved sends
    → Splits (length p) recvs
    → length p ≤ moved recvs
    → (send_all sends p ≡ some (record { done = true; wire = p }))
      × (recv_all recvs (length p) p ≡ some (record { done = true; buffer = p; incoming = [] }))
unfolding send_all
recv_all-send_all sends recvs p splits_s all_s splits_r all_r =
    (send_loop_total sends p [] splits_s all_s, recv_all-Splits recvs p splits_r all_r)
