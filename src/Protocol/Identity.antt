-- ===== src/Protocol/Identity.antt =====
-- Messages that carry the identity of a cluster and of one of its ranks, and what both sides of the
-- protocol make of them.
use kimi_k3_neuron_tp3_dgxsp.Prelude.{
  ℕ, ◌<◌, ◌≡◌, refl, ap, ◌∙◌, arith, true, false, not, ◌&&◌, ◌||◌, none, ◌==◌, ==_iff, get_or,
}
use kimi_k3_neuron_tp3_dgxsp.Prelude.Int.{pos, ltb_ℤ, leb_ℤ, ◌==ℤ◌, ==ℤ_iff, ==ℤ-refl}
use kimi_k3_neuron_tp3_dgxsp.Protocol.Message.{RankSpec, Message, MessageType, same_type}
use kimi_k3_neuron_tp3_dgxsp.Protocol.Text.{same_bytes_refl}
use kimi_k3_neuron_tp3_dgxsp.Protocol.Coordinator.{
  AuthenticatedPeer, Coordinator, CoordinatorState, same_state, matches_cluster, settle,
}
use kimi_k3_neuron_tp3_dgxsp.Protocol.Accept.{judge, accept, dispatch, bound}
use kimi_k3_neuron_tp3_dgxsp.Protocol.Session.{same_identity}

-- The spec of one rank of a cluster.
abbrev pub spec_of : RankSpec → ℕ → RankSpec
spec_of cluster r = record cluster { rank = pos r }

-- A cluster of w ranks with one device each.
abbrev pub IsCluster : ℕ → RankSpec → Type 0
IsCluster w cluster = (cluster.world_size ≡ pos w) × (cluster.local_device ≡ pos 0) × (0 < w)

-- The identity fields of a message are those of rank r of the cluster.
abbrev pub IsOf : RankSpec → ℕ → Message → Type 0
IsOf cluster r m =
    (m.session_id ≡ cluster.session_id)
    × (m.world_size ≡ cluster.world_size)
    × (m.rank ≡ pos r)
    × (m.local_device ≡ cluster.local_device)
    × (m.n_experts ≡ cluster.n_experts)
    × (m.moe_ffn ≡ cluster.moe_ffn)
    × (m.expert_block_elems ≡ cluster.expert_block_elems)
    × (m.vocab ≡ cluster.vocab)
    × (m.model_digest ≡ cluster.model_digest)
    × (m.plan_digest ≡ cluster.plan_digest)

in_range : (w r : ℕ) → r < w → (ltb_ℤ (pos r) (pos 0) || leb_ℤ (pos w) (pos r)) ≡ false
in_range w r h = ground arith

pub matches_cluster-IsOf :
    (w : ℕ) (cluster : RankSpec) (r : ℕ) (m : Message)
    → IsCluster w cluster
    → r < w
    → IsOf cluster r m
    → matches_cluster cluster m ≡ none
unfolding matches_cluster
matches_cluster-IsOf w cluster r m (ew, el, _) lt
      (session, size, rank, device, experts, ffn, block, vocab, model, plan) =
    rw
      (
        matches_cluster,
        session,
        size,
        rank,
        device,
        experts,
        ffn,
        block,
        vocab,
        model,
        plan,
        el,
        ew,
        (==_iff cluster.session_id cluster.session_id).1 refl,
        ==ℤ-refl (pos w),
        ==ℤ-refl cluster.n_experts,
        ==ℤ-refl cluster.moe_ffn,
        ==ℤ-refl cluster.expert_block_elems,
        ==ℤ-refl cluster.vocab,
        same_bytes_refl cluster.model_digest,
        same_bytes_refl cluster.plan_digest,
        in_range w r lt,
      )
      refl

pub same_identity-IsOf :
    (cluster : RankSpec) (r : ℕ) (m : Message)
    → IsOf cluster r m
    → same_identity (spec_of cluster r) m ≡ true
unfolding same_identity
same_identity-IsOf cluster r m
      (session, size, rank, device, experts, ffn, block, vocab, model, plan) =
    rw
      (
        same_identity,
        session,
        size,
        rank,
        device,
        experts,
        ffn,
        block,
        vocab,
        model,
        plan,
        (==_iff cluster.session_id cluster.session_id).1 refl,
        ==ℤ-refl cluster.world_size,
        ==ℤ-refl (pos r),
        ==ℤ-refl cluster.local_device,
        ==ℤ-refl cluster.n_experts,
        ==ℤ-refl cluster.moe_ffn,
        ==ℤ-refl cluster.expert_block_elems,
        ==ℤ-refl cluster.vocab,
        same_bytes_refl cluster.model_digest,
        same_bytes_refl cluster.plan_digest,
      )
      refl

abbrev pub peer : ℕ → ℕ → AuthenticatedPeer
peer r k = record { rank = pos r; connection_id = k }

-- A message over the connection that its rank has bound.
pub bound_own :
    (r k : ℕ) (m : Message) (c : Coordinator)
    → (k == 0) ≡ false
    → get_or c.peer_connection r 0 ≡ k
    → bound (peer r k) m c ≡ dispatch (peer r k) m c
unfolding bound
bound_own r k m c set own =
    let same : (k == k) ≡ true = (==_iff k k).1 refl in
    let apart : (not (same_type m.type MessageType.hello) && false) ≡ false = ground arith in
    rw (bound, own, set, same, apart) refl

-- The Hello that binds its connection.
pub bound_first :
    (r k : ℕ) (m : Message) (c : Coordinator)
    → m.type ≡ MessageType.hello
    → get_or c.peer_connection r 0 ≡ 0
    → bound (peer r k) m c ≡ dispatch (peer r k) m c
unfolding bound same_type
bound_first r k m c type unset = rw (bound, unset, type) refl

-- A message of rank r over such a connection gets as far as the switch on its type.
pub accept-IsOf :
    (w r k : ℕ) (m : Message) (c : Coordinator)
    → IsCluster w c.cluster
    → r < w
    → IsOf c.cluster r m
    → same_state c.state CoordinatorState.failed ≡ false
    → same_state c.state CoordinatorState.finished ≡ false
    → (k == 0) ≡ false
    → bound (peer r k) m c ≡ dispatch (peer r k) m c
    → accept (peer r k) m true c ≡ settle true c (dispatch (peer r k) m c)
unfolding accept judge
accept-IsOf w r k m c (ew, el, ranks) lt is live unfinished set reaches =
    let ours = matches_cluster-IsOf w c.cluster r m (ew, el, ranks) lt is in
    let low : (ltb_ℤ (pos r) (pos 0) || leb_ℤ c.cluster.world_size (pos r)) ≡ false =
      ap (λ v. ltb_ℤ (pos r) (pos 0) || leb_ℤ v (pos r)) ew ∙ in_range w r lt in
    let sender : (m.rank ==ℤ pos r) ≡ true = (==ℤ_iff m.rank (pos r)).1 is.2 in
    rw (accept, live, unfinished, judge, low, set, sender, ours, reaches) refl
