-- ===== src/Protocol/Message.antt =====
-- The data of the rank protocol: runtime/include/sparkinfer/tp/rank_protocol.h.
use kimi_k3_neuron_tp3_dgxsp.Prelude.{
  ℕ, ◌+◌, ◌*◌, Bool, List, [], if◌then◌else◌, ◌==◌, ◌&&◌, leb, replicate,
}
use kimi_k3_neuron_tp3_dgxsp.Prelude.Int.{ℤ, pos, negsuc}

abbrev pub protocol_version : ℕ
protocol_version = 2

abbrev pub max_step_tokens : ℕ
max_step_tokens = 16

abbrev pub digest_bytes : ℕ
digest_bytes = 32

abbrev pub nccl_unique_id_bytes : ℕ
nccl_unique_id_bytes = 128

abbrev pub max_detail_bytes : ℕ
max_detail_bytes = 256

abbrev pub wire_header_bytes : ℕ
wire_header_bytes = 16

abbrev pub wire_fixed_payload_bytes : ℕ
wire_fixed_payload_bytes = 258

abbrev pub max_payload_bytes : ℕ
max_payload_bytes = wire_fixed_payload_bytes + max_detail_bytes + max_step_tokens * 4

-- A byte is a number below 256, a text the list of its bytes.
abbrev pub Byte : Type 0
Byte = ℕ

abbrev pub Text : Type 0
Text = List Byte

pub data MessageType : Type 0 where
  hello nccl_unique_id nccl_ready begin_load load_ready token step_done failure abort finish
        finish_ack :
      MessageType

pub data Phase : Type 0 where
  none bootstrap nccl_init load step shutdown : Phase

-- The numbers of the enumerators.
unfoldable pub type_code : MessageType → ℕ
type_code MessageType.hello = 1
type_code MessageType.nccl_unique_id = 2
type_code MessageType.nccl_ready = 3
type_code MessageType.begin_load = 4
type_code MessageType.load_ready = 5
type_code MessageType.token = 6
type_code MessageType.step_done = 7
type_code MessageType.failure = 8
type_code MessageType.abort = 9
type_code MessageType.finish = 10
type_code MessageType.finish_ack = 11

unfoldable pub phase_code : Phase → ℕ
phase_code Phase.none = 0
phase_code Phase.bootstrap = 1
phase_code Phase.nccl_init = 2
phase_code Phase.load = 3
phase_code Phase.step = 4
phase_code Phase.shutdown = 5

abbrev pub valid_type : ℕ → Bool
valid_type v = leb 1 v && leb v 11

abbrev pub valid_phase : ℕ → Bool
valid_phase v = leb v 5

-- The casts from a number, which the code applies to valid ones alone.
unfoldable pub type_of : ℕ → MessageType
type_of v =
    if v == 1
    then MessageType.hello
    else (if v == 2
        then MessageType.nccl_unique_id
        else (if v == 3
            then MessageType.nccl_ready
            else (if v == 4
                then MessageType.begin_load
                else (if v == 5
                    then MessageType.load_ready
                    else (if v == 6
                        then MessageType.token
                        else (if v == 7
                            then MessageType.step_done
                            else (if v == 8
                                then MessageType.failure
                                else (if v == 9
                                    then MessageType.abort
                                    else (if v == 10
                                        then MessageType.finish
                                        else MessageType.finish_ack)))))))))

unfoldable pub phase_of : ℕ → Phase
phase_of v =
    if v == 0
    then Phase.none
    else (if v == 1
        then Phase.bootstrap
        else (if v == 2
            then Phase.nccl_init
            else (if v == 3 then Phase.load else (if v == 4 then Phase.step else Phase.shutdown))))

-- `==` on the enumerations.
unfoldable pub same_type : MessageType → MessageType → Bool
unfolding type_code
same_type a b = type_code a == type_code b

unfoldable pub same_phase : Phase → Phase → Bool
unfolding phase_code
same_phase a b = phase_code a == phase_code b

pub record RankSpec : Type 0 where
  pub session_id : ℕ
  pub world_size : ℤ
  pub rank : ℤ
  pub local_device : ℤ
  pub n_experts : ℤ
  pub moe_ffn : ℤ
  pub expert_block_elems : ℤ
  pub vocab : ℤ
  pub model_digest : List Byte
  pub plan_digest : List Byte

pub record Message : Type 0 where
  pub type : MessageType
  pub session_id : ℕ
  pub sequence : ℕ
  pub rank : ℤ
  pub world_size : ℤ
  pub local_device : ℤ
  pub n_experts : ℤ
  pub moe_ffn : ℤ
  pub expert_block_elems : ℤ
  pub vocab : ℤ
  pub token_id : ℤ
  pub status : ℤ
  pub rollback_j : ℤ
  pub phase : Phase
  pub model_digest : List Byte
  pub plan_digest : List Byte
  pub nccl_id : List Byte
  pub detail : Text
  pub token_ids : List ℤ

abbrev pub unset_digest : List Byte
unset_digest = replicate digest_bytes 0

abbrev pub unset_nccl_id : List Byte
unset_nccl_id = replicate nccl_unique_id_bytes 0

-- `Message m;`.
abbrev pub default_message : Message
default_message = record {
  type = MessageType.hello;
  session_id = 0;
  sequence = 0;
  rank = negsuc 0;
  world_size = pos 0;
  local_device = pos 0;
  n_experts = pos 0;
  moe_ffn = pos 0;
  expert_block_elems = pos 0;
  vocab = pos 0;
  token_id = negsuc 0;
  status = pos 0;
  rollback_j = negsuc 0;
  phase = Phase.none;
  model_digest = unset_digest;
  plan_digest = unset_digest;
  nccl_id = unset_nccl_id;
  detail = [];
  token_ids = [];
}
