-- ===== src/Protocol/Gate/Batch.antt =====
-- Cases 6 and 7 of gate C: a batch for three ranks, and one that has no sink.
use kimi_k3_neuron_tp3_dgxsp.Prelude.{
  ℕ, Bool, true, false, not, ◌&&◌, none, some, List, [], ◌∷◌, ◌++◌, ◌==◌, length, get_elem?,
}
use kimi_k3_neuron_tp3_dgxsp.Prelude.Int.{ℤ, pos, negsuc, pos_part, ◌==ℤ◌}
use kimi_k3_neuron_tp3_dgxsp.Prelude.Report.{check, checks}
use kimi_k3_neuron_tp3_dgxsp.Protocol.Message.{Message, default_message}
use kimi_k3_neuron_tp3_dgxsp.Protocol.Wire.{put_u64, put_u32, put_u16}
use kimi_k3_neuron_tp3_dgxsp.Protocol.Frame.{encode_message, decode_message}
use kimi_k3_neuron_tp3_dgxsp.Protocol.Shard.{Planner}
use kimi_k3_neuron_tp3_dgxsp.Protocol.Coordinator.{Coordinator, coordinator}
use kimi_k3_neuron_tp3_dgxsp.Protocol.Drive.{begin_step_multi}
use kimi_k3_neuron_tp3_dgxsp.Protocol.Session.{
  RankSession, rank_session, Answer, Sinks, hello, accept_control,
}
use kimi_k3_neuron_tp3_dgxsp.Protocol.Gate.Frames.{
  make_spec, same_ids, token_frame, succeeds, value_or, round_trip, scalar_token, refused_frames,
  corrupted,
}
use kimi_k3_neuron_tp3_dgxsp.Protocol.Gate.Bootstrap.{bootstrap}

abbrev pub batch : List ℤ
batch = pos 10 ∷ pos 20 ∷ pos 30 ∷ pos 40 ∷ []

-- What a rank hands over is the whole batch.
unfoldable pub whole_batch : Answer → Bool
unfolding same_ids ◌==ℤ◌
whole_batch a =
    elim a.token_id [ none ↦ false | some t ↦ t ==ℤ pos 10 ]
    && elim a.rollback_j [ none ↦ false | some j ↦ j ==ℤ pos 2 ]
    && elim a.token_ids [ none ↦ false | some ids ↦ same_ids ids batch ]

-- The checks of one Token: over the wire, then into its rank.
unfoldable pub token_checks : List RankSession → Message → List Bool
unfolding encode_message put_u64 put_u32 put_u16 decode_message accept_control whole_batch
token_checks ranks m =
    let decoded = decode_message (value_or [] (encode_message m)) in
    let wire_m = value_or default_message decoded in
    let sinks : Sinks = record { token_id = true; token_ids = true; rollback_j = true } in
    elim (get_elem? ranks (pos_part wire_m.rank)) [
      | none ↦ succeeds decoded ∷ false ∷ []
      | some s ↦
          let a = accept_control sinks wire_m s in
          succeeds decoded ∷ a.accepted ∷ whole_batch a ∷ []
    ]

unfoldable pub all_tokens : List Message → List RankSession → List Bool
unfolding token_checks
all_tokens [] ranks = []
all_tokens (m ∷ ms) ranks = token_checks ranks m ++ all_tokens ms ranks

-- Case 6, on a coordinator and the sessions of the three ranks.
unfoldable pub end_to_end : Coordinator → List RankSession → List Bool
unfolding bootstrap begin_step_multi all_tokens
end_to_end coord sessions =
    let cl = bootstrap coord sessions in
    let begun = begin_step_multi batch (pos 2) true cl.coord in
    let again = begin_step_multi batch (negsuc 0) true begun.coordinator in
    cl.oks
    ++ (begun.accepted ∷ (length begun.outbound == 3) ∷ all_tokens begun.outbound cl.ranks)
    ++ not again.accepted ∷ []

-- Case 7: a batch for a caller with no vector to receive it.
unfoldable pub no_batch_sink : RankSession → List Bool
unfolding make_spec hello accept_control token_frame
no_batch_sink new =
    let s = (hello true new).session in
    let spec = make_spec 1 in
    let m = record (token_frame (pos 3) (pos 3 ∷ pos 4 ∷ [])) {
      rank = pos 1;
      world_size = pos 3;
      n_experts = pos 896;
      moe_ffn = pos 1536;
      expert_block_elems = pos 256;
      model_digest = spec.model_digest;
      plan_digest = spec.plan_digest;
    } in
    let sinks : Sinks = record { token_id = true; token_ids = false; rollback_j = false } in
    not (accept_control sinks m s).accepted ∷ []

-- All cases, on the objects that the last two begin from.
unfoldable pub protocol_cases : Coordinator → RankSession → RankSession → RankSession → ℕ
unfolding round_trip scalar_token refused_frames corrupted end_to_end no_batch_sink checks check
protocol_cases coord s₀ s₁ s₂ =
    checks
      (round_trip
        ++ scalar_token
        ++ refused_frames
        ++ corrupted
        ++ end_to_end coord (s₀ ∷ s₁ ∷ s₂ ∷ [])
        ++ no_batch_sink s₁)
      0

abbrev pub test_protocol : Planner → ℕ
test_protocol planner =
    protocol_cases (coordinator planner (make_spec 0)) (rank_session planner (make_spec 0))
      (rank_session planner (make_spec 1)) (rank_session planner (make_spec 2))
