-- ===== src/Protocol/Stepping.antt =====
-- The parts of a step of the cluster: the batch that goes out, what a rank makes of it, and the replies.
use kimi_k3_neuron_tp3_dgxsp.Prelude.{
  ℕ, zero, suc, ◌+◌, ◌<◌, ◌≤◌, ◌≡◌, refl, sym, ap, ◌∙◌, arith, Bool, true, false, ◌&&◌, ◌||◌, none,
  some, List, [], ◌∷◌, ltb, ◌==◌, ==_iff, length, get_or,
}
use kimi_k3_neuron_tp3_dgxsp.Prelude.Int.{ℤ, pos, negsuc, pos_part, ◌==ℤ◌}
use kimi_k3_neuron_tp3_dgxsp.Protocol.Message.{
  same_phase, same_type, Message, MessageType, Phase, default_message,
}
use kimi_k3_neuron_tp3_dgxsp.Protocol.Coordinator.{
  Coordinator, CoordinatorState, accepts, settle, same_state, broadcast, for_ranks, control,
  from_spec,
}
use kimi_k3_neuron_tp3_dgxsp.Protocol.Drive.{
  begin_step_multi, batch_verdict, when_ready, in_flight, batch_message, any_outside, bad_rollback,
  head_or, outside_vocabulary,
}
use kimi_k3_neuron_tp3_dgxsp.Protocol.Session.{
  same_rank_state, same_identity, RankSession, RankState, Answer, accept_control, on_token,
  token_refusal, takes,
}
use kimi_k3_neuron_tp3_dgxsp.Protocol.Identity.{IsCluster, IsOf, spec_of, same_identity-IsOf}
use kimi_k3_neuron_tp3_dgxsp.Protocol.System.{all_sinks, receives}

-- A batch that the coordinator takes.
abbrev pub IsBatch : ℤ → List ℤ → ℤ → Type 0
IsBatch vocab ids j =
    (1 ≤ length ids)
    × (length ids ≤ 16)
    × (any_outside vocab ids ≡ false)
    × (bad_rollback j ≡ false)

same_ready : same_state CoordinatorState.ready CoordinatorState.ready ≡ true
unfolding same_state
same_ready = refl

pub begin_step_multi_lem :
    (c : Coordinator) (ids : List ℤ) (j : ℤ)
    → c.state ≡ CoordinatorState.ready
    → IsBatch c.cluster.vocab ids j
    → begin_step_multi ids j true c ≡ accepts (in_flight c) (broadcast c (batch_message c ids j))
unfolding begin_step_multi when_ready settle
begin_step_multi_lem c ids j ready (some_ids, few, within, back) =
    let here : same_state c.state CoordinatorState.ready ≡ true =
      ap (λ s. same_state s CoordinatorState.ready) ready ∙ same_ready in
    let count : (ltb (length ids) 1 || ltb 16 (length ids)) ≡ false = ground arith in
    rw (begin_step_multi, when_ready, here, batch_verdict, count, within, back, settle) refl

and_false : (b : Bool) → (b && false) ≡ false
and_false true = refl
and_false false = refl

token_no_abort : same_type MessageType.token MessageType.abort ≡ false
unfolding same_type
token_no_abort = refl

waiting_no_failed : same_rank_state RankState.waiting_token RankState.failed ≡ false
unfolding same_rank_state
waiting_no_failed = refl

waiting_no_finished : same_rank_state RankState.waiting_token RankState.finished ≡ false
unfolding same_rank_state
waiting_no_finished = refl

pub get_or-for_ranks :
    (w i r : ℕ) (m : ℤ → Message)
    → r < w
    → get_or (for_ranks w i m) r default_message ≡ m (pos (i + r))
get_or-for_ranks zero i r m h = absurd (omega arith)
get_or-for_ranks (suc w) i zero m h = ap (λ k. m (pos k)) (omega arith)
get_or-for_ranks (suc w) i (suc r) m h =
    get_or-for_ranks w (suc i) r m (omega arith) ∙ ap (λ k. m (pos k)) (omega arith)

pub get_or-broadcast :
    (w : ℕ) (c : Coordinator) (r : ℕ) (m : ℤ → Message)
    → c.cluster.world_size ≡ pos w
    → r < w
    → get_or (broadcast c m) r default_message ≡ m (pos r)
get_or-broadcast w c r m size lt =
    let lower : 0 + r ≡ r = omega arith in
    ap (λ n. get_or (for_ranks (pos_part n) 0 m) r default_message) size
    ∙ get_or-for_ranks w 0 r m lt
    ∙ ap (λ k. m (pos k)) lower

-- What a rank that takes a batch hands over.
abbrev pub taken : RankSession → List ℤ → ℤ → Answer
taken s ids j = record (takes (record s { state = RankState.step_running }) none) {
  token_id = some (head_or (negsuc 0) ids);
  token_ids = some ids;
  rollback_j = some j;
}

head_within :
    (vocab : ℤ) (ids : List ℤ)
    → 1 ≤ length ids
    → any_outside vocab ids ≡ false
    → outside_vocabulary vocab (head_or (negsuc 0) ids) ≡ false
unfolding any_outside
head_within vocab [] few h = absurd (omega arith)
head_within vocab (id ∷ ids) few h = ground arith

token_refusal_none :
    (m : Message) (s : RankSession)
    → same_rank_state s.state RankState.waiting_token ≡ true
    → (m.sequence == s.next_sequence) ≡ true
    → same_phase m.phase Phase.step ≡ true
    → (m.status ==ℤ pos 0) ≡ true
    → outside_vocabulary s.spec.vocab m.token_id ≡ false
    → ltb 16 (length m.token_ids) ≡ false
    → any_outside s.spec.vocab m.token_ids ≡ false
    → bad_rollback m.rollback_j ≡ false
    → token_refusal all_sinks m s ≡ none
unfolding token_refusal
token_refusal_none m s waiting sequence phase status token few within back =
    rw
      (
        token_refusal, waiting, sequence, phase, status, token, few, within, back, and_false,
        and_false, and_false,
      )
      refl

accept_control_token :
    (m : Message) (s : RankSession)
    → same_identity s.spec m ≡ true
    → m.type ≡ MessageType.token
    → s.state ≡ RankState.waiting_token
    → token_refusal all_sinks m s ≡ none
    → accept_control all_sinks m s
      ≡ record (takes (record s { state = RankState.step_running }) none) {
        token_id = some m.token_id;
        token_ids = some m.token_ids;
        rollback_j = some m.rollback_j;
      }
unfolding accept_control on_token
accept_control_token m s ident type waiting goes =
    let other : same_type m.type MessageType.abort ≡ false =
      ap (λ t. same_type t MessageType.abort) type ∙ token_no_abort in
    let live : same_rank_state s.state RankState.failed ≡ false =
      ap (λ t. same_rank_state t RankState.failed) waiting ∙ waiting_no_failed in
    let unfinished : same_rank_state s.state RankState.finished ≡ false =
      ap (λ t. same_rank_state t RankState.finished) waiting ∙ waiting_no_finished in
    rw (accept_control, ident, other, live, unfinished, type, on_token, goes) refl

batch_message-IsOf :
    (c : Coordinator) (ids : List ℤ) (j : ℤ) (r : ℕ)
    → IsOf c.cluster r (batch_message c ids j (pos r))
unfolding batch_message control from_spec
batch_message-IsOf c ids j r = (refl, refl, refl, refl, refl, refl, refl, refl, refl, refl)

batch_refusal :
    (c : Coordinator) (ids : List ℤ) (j : ℤ) (r : ℕ) (s : RankSession)
    → IsBatch c.cluster.vocab ids j
    → s.spec ≡ spec_of c.cluster r
    → s.state ≡ RankState.waiting_token
    → s.next_sequence ≡ c.next_sequence
    → token_refusal all_sinks (batch_message c ids j (pos r)) s ≡ none
unfolding batch_message control from_spec same_rank_state same_phase ◌==ℤ◌
batch_refusal c ids j r s (some_ids, few, within, back) spec state sequence =
    let vocab : s.spec.vocab ≡ c.cluster.vocab = ap (λ p. p.vocab) spec in
    token_refusal_none (batch_message c ids j (pos r)) s
      (ap (λ t. same_rank_state t RankState.waiting_token) state)
      ((==_iff c.next_sequence s.next_sequence).1 (sym sequence)) refl refl
      (ap (λ v. outside_vocabulary v (head_or (negsuc 0) ids)) vocab
        ∙ head_within c.cluster.vocab ids some_ids within)
      (ground arith) (ap (λ v. any_outside v ids) vocab ∙ within) back

accept_batch :
    (c : Coordinator) (ids : List ℤ) (j : ℤ) (r : ℕ) (s : RankSession)
    → same_identity s.spec (batch_message c ids j (pos r)) ≡ true
    → s.state ≡ RankState.waiting_token
    → token_refusal all_sinks (batch_message c ids j (pos r)) s ≡ none
    → accept_control all_sinks (batch_message c ids j (pos r)) s ≡ taken s ids j
unfolding batch_message control from_spec
accept_batch c ids j r s ident state goes =
    accept_control_token (batch_message c ids j (pos r)) s ident refl state goes

-- Every rank that waits for this token takes the whole batch.
pub receives_batch :
    (w : ℕ) (c : Coordinator) (ids : List ℤ) (j : ℤ) (r : ℕ) (s : RankSession)
    → IsCluster w c.cluster
    → r < w
    → IsBatch c.cluster.vocab ids j
    → s.spec ≡ spec_of c.cluster r
    → s.state ≡ RankState.waiting_token
    → s.next_sequence ≡ c.next_sequence
    → receives (broadcast c (batch_message c ids j)) s r ≡ taken s ids j
unfolding receives
receives_batch w c ids j r s cluster lt valid spec state sequence =
    let own : get_or (broadcast c (batch_message c ids j)) r default_message
        ≡ batch_message c ids j (pos r) =
      get_or-broadcast w c r (batch_message c ids j) cluster.0 lt in
    let ident : same_identity s.spec (batch_message c ids j (pos r)) ≡ true =
      ap (λ p. same_identity p (batch_message c ids j (pos r))) spec
      ∙ same_identity-IsOf c.cluster r (batch_message c ids j (pos r))
          (batch_message-IsOf c ids j r) in
    ap (λ m. accept_control all_sinks m s) own
    ∙ accept_batch c ids j r s ident state (batch_refusal c ids j r s valid spec state sequence)
