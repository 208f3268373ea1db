-- ===== src/Protocol/Shard.antt =====
-- moe_all_expert_width_dims of runtime/src/tp/shard.cpp (patch 0001) and validate_rank_spec of
-- runtime/src/tp/rank_protocol.cpp (patches 0003 and 0004). divisible, even_band, moe_2d_dims and the
-- printing of a number are parameters.
use kimi_k3_neuron_tp3_dgxsp.Prelude.{
  ◌/◌, ◌%◌, Bool, true, false, not, ◌||◌, ◌++◌, if◌then◌else◌, ◌==◌,
}
use kimi_k3_neuron_tp3_dgxsp.Prelude.Int.{ℤ, pos, pos_part, ltb_ℤ, leb_ℤ, ◌==ℤ◌}
use kimi_k3_neuron_tp3_dgxsp.Protocol.Message.{Text, RankSpec}
use kimi_k3_neuron_tp3_dgxsp.Protocol.Text.{text, any_nonzero}

pub record Band : Type 0 where
  pub offset : ℤ
  pub extent : ℤ

pub data MoeShardMode : Type 0 where
  none whole_experts expert_ffn_2d all_experts_ffn_width : MoeShardMode

pub record ShardDims : Type 0 where
  pub tp_size : ℤ
  pub rank : ℤ
  pub hidden : ℤ
  pub n_experts_total : ℤ
  pub n_experts : ℤ
  pub expert_band : Band
  pub experts_sharded : Bool
  pub moe_shard_mode : MoeShardMode
  pub moe_2d : Bool
  pub moe_expert_groups : ℤ
  pub moe_ffn_shards : ℤ
  pub moe_ffn_total : ℤ
  pub moe_ffn_band : Band
  pub moe_ffn : ℤ

-- A call that plans a shard: the dimensions, or the message of its ShardError.
pub data Planned : Type 0 where
  planned : ShardDims → Planned
  refused : Text → Planned

-- The functions that are not in the repository.
pub record Planner : Type 0 where
  pub divisible : ℤ → ℤ → Bool
  pub even_band : ℤ → ℤ → ℤ → Band
  pub moe_2d_dims : RankSpec → ShardDims → Planned
  pub decimal : ℤ → Text
  pub no_dims : ShardDims

-- `a / b` and `a % b` of an int that is not negative by one that is positive.
abbrev pub quotient : ℤ → ℤ → ℤ
quotient a b = pos (pos_part a / pos_part b)

abbrev pub remainder : ℤ → ℤ → ℤ
remainder a b = pos (pos_part a % pos_part b)

unfoldable pub moe_all_expert_width_dims : Planner → ℤ → ℤ → ℤ → ℤ → ℤ → ShardDims → Planned
unfolding text ◌==ℤ◌
moe_all_expert_width_dims planner n_experts moe_ffn tp_size rank block_elems d =
    let rank_ffn = quotient moe_ffn tp_size in
    let band = planner.even_band moe_ffn tp_size rank in
    if leb_ℤ tp_size (pos 1)
    then refused (text "moe_all_expert_width_dims: tp_size must be >= 2")
    else (if ltb_ℤ rank (pos 0) || leb_ℤ tp_size rank
        then refused (text "moe_all_expert_width_dims: rank out of range")
        else (if leb_ℤ n_experts (pos 0)
            then refused (text "moe_all_expert_width_dims: n_experts must be > 0")
            else (if leb_ℤ moe_ffn (pos 0)
                then refused (text "moe_all_expert_width_dims: moe_ffn must be > 0")
                else (if leb_ℤ block_elems (pos 0)
                    then refused (text "moe_all_expert_width_dims: block_elems must be > 0")
                    else (if not (planner.divisible moe_ffn tp_size)
                        then refused (
                            text "moe_ffn="
                            ++ planner.decimal moe_ffn
                            ++ text " not divisible by tp_size="
                            ++ planner.decimal tp_size)
                        else (if not (remainder rank_ffn block_elems ==ℤ pos 0)
                            then refused (
                                text "ffn shard width "
                                ++ planner.decimal rank_ffn
                                ++ text " is not a multiple of the "
                                ++ planner.decimal block_elems
                                ++ text "-element quant block")
                            else planned (record d {
                              tp_size = tp_size;
                              rank = rank;
                              n_experts_total = n_experts;
                              n_experts = n_experts;
                              expert_band = record { offset = pos 0; extent = n_experts };
                              experts_sharded = false;
                              moe_shard_mode = MoeShardMode.all_experts_ffn_width;
                              moe_2d = false;
                              moe_expert_groups = pos 1;
                              moe_ffn_shards = tp_size;
                              moe_ffn_total = moe_ffn;
                              moe_ffn_band = band;
                              moe_ffn = band.extent;
                            })))))))

abbrev pub supported_k3_dist_world_size : ℤ → Bool
supported_k3_dist_world_size world_size = world_size ==ℤ pos 3 || world_size ==ℤ pos 4

-- `!d.moe_2d || d.moe_shard_mode != MoeShardMode::ExpertFfn2D`.
unfoldable pub not_2d : ShardDims → Bool
not_2d d = elim d.moe_shard_mode [ MoeShardMode.expert_ffn_2d ↦ not d.moe_2d | _ ↦ true ]

unfoldable pub plan_2d : Planned → Planned
unfolding text not_2d
plan_2d (refused message) = refused message
plan_2d (planned d) =
    if not_2d d then refused (text "TP4 validate expected ExpertFfn2D geometry") else planned d

-- The dimensions of a rank, or the message of the error.
unfoldable pub validate_rank_spec : Planner → RankSpec → Planned
unfolding text any_nonzero moe_all_expert_width_dims plan_2d ◌==ℤ◌
validate_rank_spec planner spec =
    let d = record (planner.no_dims) {
      hidden = pos 7168;
      tp_size = spec.world_size;
      rank = spec.rank;
    } in
    if spec.session_id == 0
    then refused (text "session_id must be nonzero")
    else (if not (supported_k3_dist_world_size spec.world_size)
        then refused (text "supported world_size values are 3 (TP3 width) and 4 (TP4 2-D)")
        else (if ltb_ℤ spec.rank (pos 0) || leb_ℤ spec.world_size spec.rank
            then refused (text "rank outside [0, world_size)")
            else (if not (spec.local_device ==ℤ pos 0)
                then refused (text "one-process-per-Spark milestone requires local_device=0")
                else (if not (spec.n_experts ==ℤ pos 896)
                    then refused (text "this K3 plan requires exactly 896 routed experts")
                    else (if not (spec.moe_ffn ==ℤ pos 1536)
                        then refused (text "this pruned K3 plan requires moe_ffn=1536")
                        else (if not (spec.expert_block_elems ==ℤ pos 256)
                            then refused
                                (text "this IQ1_S K3 plan requires 256-element expert blocks")
                            else (if leb_ℤ spec.vocab (pos 0)
                                then refused (text "vocab must be > 0")
                                else (if not (any_nonzero spec.model_digest)
                                    then refused (text "model_digest is unset")
                                    else (if not (any_nonzero spec.plan_digest)
                                        then refused (text "plan_digest is unset")
                                        else (if spec.world_size ==ℤ pos 3
                                            then moe_all_expert_width_dims planner spec.n_experts
                                                spec.moe_ffn spec.world_size spec.rank
                                                spec.expert_block_elems d
                                            else plan_2d (planner.moe_2d_dims spec d)))))))))))
