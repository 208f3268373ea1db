-- ===== src/Protocol/Fixed.antt =====
-- The fixed parts of a frame: a read gives back what has been put, and one that succeeds
-- has taken the bytes of what it gives.
use kimi_k3_neuron_tp3_dgxsp.Prelude.{◌<◌, ◌^◌, refl}
use kimi_k3_neuron_tp3_dgxsp.Protocol.Message.{digest_bytes, nccl_unique_id_bytes}
use kimi_k3_neuron_tp3_dgxsp.Protocol.Wire.{
  u16, u32, u64, i32, bytes, put_u16, put_u32, put_u64, put_i32,
}
use kimi_k3_neuron_tp3_dgxsp.Protocol.Frame.{
  Header, Numbers, Blobs, read_header, read_numbers, read_blobs, put_header, put_numbers, put_blobs,
}
use kimi_k3_neuron_tp3_dgxsp.Protocol.Inverting.{
  Inverts, bind-Inverts, returns-Inverts, u16-Inverts, u32-Inverts, u64-Inverts, i32-Inverts,
  bytes-Inverts,
}
use kimi_k3_neuron_tp3_dgxsp.Protocol.Reading.{
  Reads, bind-Reads, returns-Reads, u16-Reads, u32-Reads, u64-Reads, i32-Reads, bytes-Reads,
}
use kimi_k3_neuron_tp3_dgxsp.Protocol.Valid.{IsNumbers, IsBlobs}

abbrev pub IsHeader : Header → Type 0
IsHeader h =
    (h.magic < 2 ^ 32)
    × ((h.version < 2 ^ 16)
        × ((h.type < 2 ^ 16) × ((h.payload_size < 2 ^ 32) × ((h.checksum < 2 ^ 32) × Unit {0}))))

pub read_header-Inverts : Inverts read_header put_header (λ h. Unit {0} × IsHeader h)
unfolding read_header
read_header-Inverts =
    bind-Inverts put_u32 _ u32 _ (λ (h : Header). h.magic) u32-Inverts
      (λ a0.
        bind-Inverts put_u16 _ u16 _ (λ (h : Header). h.version) u16-Inverts
          (λ a1.
            bind-Inverts put_u16 _ u16 _ (λ (h : Header). h.type) u16-Inverts
              (λ a2.
                bind-Inverts put_u32 _ u32 _ (λ (h : Header). h.payload_size) u32-Inverts
                  (λ a3.
                    bind-Inverts put_u32 _ u32 _ (λ (h : Header). h.checksum) u32-Inverts
                      (λ a4. returns-Inverts _ _ (refl, (refl, (refl, (refl, (refl, tt))))))))))

pub read_numbers-Inverts : Inverts read_numbers put_numbers (λ n. Unit {0} × IsNumbers n)
unfolding read_numbers
read_numbers-Inverts =
    bind-Inverts put_u64 _ u64 _ (λ (n : Numbers). n.session_id) u64-Inverts
      (λ a0.
        bind-Inverts put_u64 _ u64 _ (λ (n : Numbers). n.sequence) u64-Inverts
          (λ a1.
            bind-Inverts put_i32 _ i32 _ (λ (n : Numbers). n.rank) i32-Inverts
              (λ a2.
                bind-Inverts put_i32 _ i32 _ (λ (n : Numbers). n.world_size) i32-Inverts
                  (λ a3.
                    bind-Inverts put_i32 _ i32 _ (λ (n : Numbers). n.local_device) i32-Inverts
                      (λ a4.
                        bind-Inverts put_i32 _ i32 _ (λ (n : Numbers). n.n_experts) i32-Inverts
                          (λ a5.
                            bind-Inverts put_i32 _ i32 _ (λ (n : Numbers). n.moe_ffn) i32-Inverts
                              (λ a6.
                                bind-Inverts put_i32 _ i32 _ (λ (n : Numbers). n.expert_block_elems)
                                  i32-Inverts
                                  (λ a7.
                                    bind-Inverts put_i32 _ i32 _ (λ (n : Numbers). n.vocab)
                                      i32-Inverts
                                      (λ a8.
                                        bind-Inverts put_i32 _ i32 _ (λ (n : Numbers). n.token_id)
                                          i32-Inverts
                                          (λ a9.
                                            bind-Inverts put_i32 _ i32 _ (λ (n : Numbers). n.status)
                                              i32-Inverts
                                              (λ a10.
                                                bind-Inverts put_i32 _ i32 _
                                                  (λ (n : Numbers). n.rollback_j) i32-Inverts
                                                  (λ a11. returns-Inverts _ _ (
                                                    refl,
                                                    (
                                                      refl,
                                                      (
                                                        refl,
                                                        (
                                                          refl,
                                                          (
                                                            refl,
                                                            (
                                                            refl,
                                                            (
                                                            refl,
                                                            (
                                                            refl,
                                                            (refl, (refl, (refl, (refl, tt)))),
                                                            ),
                                                            ),
                                                            ),
                                                          ),
                                                        ),
                                                      ),
                                                    ),
                                                  )))))))))))))

pub read_blobs-Inverts : Inverts read_blobs put_blobs (λ b. Unit {0} × IsBlobs b)
unfolding read_blobs
read_blobs-Inverts =
    bind-Inverts put_u16 _ u16 _ (λ (b : Blobs). b.phase) u16-Inverts
      (λ a0.
        bind-Inverts put_u16 _ u16 _ (λ (b : Blobs). b.reserved) u16-Inverts
          (λ a1.
            bind-Inverts put_u16 _ u16 _ (λ (b : Blobs). b.n_ids) u16-Inverts
              (λ a2.
                bind-Inverts put_u16 _ u16 _ (λ (b : Blobs). b.reserved2) u16-Inverts
                  (λ a3.
                    bind-Inverts (λ xs. xs) _ (bytes digest_bytes) _ (λ (b : Blobs). b.model_digest)
                      (bytes-Inverts digest_bytes)
                      (λ a4.
                        bind-Inverts (λ xs. xs) _ (bytes digest_bytes) _
                          (λ (b : Blobs). b.plan_digest) (bytes-Inverts digest_bytes)
                          (λ a5.
                            bind-Inverts (λ xs. xs) _ (bytes nccl_unique_id_bytes) _
                              (λ (b : Blobs). b.nccl_id) (bytes-Inverts nccl_unique_id_bytes)
                              (λ a6.
                                bind-Inverts put_u16 _ u16 _ (λ (b : Blobs). b.detail_size)
                                  u16-Inverts
                                  (λ a7. returns-Inverts _ _ (
                                    refl,
                                    (refl, (refl, (refl, (refl, (refl, (refl, (refl, tt))))))),
                                  )))))))))

pub read_header-Reads : (h : Header) → IsHeader h → Reads read_header h (put_header h)
unfolding read_header
read_header-Reads h (h0, (h1, (h2, (h3, (h4, _))))) =
    bind-Reads u32 _ (put_u32 h.magic) _ (u32-Reads h.magic h0) (
      bind-Reads u16 _ (put_u16 h.version) _ (u16-Reads h.version h1) (
        bind-Reads u16 _ (put_u16 h.type) _ (u16-Reads h.type h2) (
          bind-Reads u32 _ (put_u32 h.payload_size) _ (u32-Reads h.payload_size h3)
            (bind-Reads u32 _ (put_u32 h.checksum) _ (u32-Reads h.checksum h4) (returns-Reads _)))))

pub read_numbers-Reads : (n : Numbers) → IsNumbers n → Reads read_numbers n (put_numbers n)
unfolding read_numbers
read_numbers-Reads n (h0, (h1, (h2, (h3, (h4, (h5, (h6, (h7, (h8, (h9, (h10, (h11, _)))))))))))) =
    bind-Reads u64 _ (put_u64 n.session_id) _ (u64-Reads n.session_id h0) (
      bind-Reads u64 _ (put_u64 n.sequence) _ (u64-Reads n.sequence h1) (
        bind-Reads i32 _ (put_i32 n.rank) _ (i32-Reads n.rank h2) (
          bind-Reads i32 _ (put_i32 n.world_size) _ (i32-Reads n.world_size h3) (
            bind-Reads i32 _ (put_i32 n.local_device) _ (i32-Reads n.local_device h4) (
              bind-Reads i32 _ (put_i32 n.n_experts) _ (i32-Reads n.n_experts h5) (
                bind-Reads i32 _ (put_i32 n.moe_ffn) _ (i32-Reads n.moe_ffn h6) (
                  bind-Reads i32 _ (put_i32 n.expert_block_elems) _
                    (i32-Reads n.expert_block_elems h7)
                    (bind-Reads i32 _ (put_i32 n.vocab) _ (i32-Reads n.vocab h8) (
                      bind-Reads i32 _ (put_i32 n.token_id) _ (i32-Reads n.token_id h9) (
                        bind-Reads i32 _ (put_i32 n.status) _ (i32-Reads n.status h10) (
                          bind-Reads i32 _ (put_i32 n.rollback_j) _ (i32-Reads n.rollback_j h11)
                            (returns-Reads _))))))))))))

pub read_blobs-Reads : (b : Blobs) → IsBlobs b → Reads read_blobs b (put_blobs b)
unfolding read_blobs
read_blobs-Reads b (h0, (h1, (h2, (h3, (h4, (h5, (h6, (h7, _)))))))) =
    bind-Reads u16 _ (put_u16 b.phase) _ (u16-Reads b.phase h0) (
      bind-Reads u16 _ (put_u16 b.reserved) _ (u16-Reads b.reserved h1) (
        bind-Reads u16 _ (put_u16 b.n_ids) _ (u16-Reads b.n_ids h2) (
          bind-Reads u16 _ (put_u16 b.reserved2) _ (u16-Reads b.reserved2 h3) (
            bind-Reads (bytes digest_bytes) _ b.model_digest _
              (bytes-Reads digest_bytes b.model_digest h4.0)
              (bind-Reads (bytes digest_bytes) _ b.plan_digest _
                (bytes-Reads digest_bytes b.plan_digest h5.0)
                (bind-Reads (bytes nccl_unique_id_bytes) _ b.nccl_id _
                  (bytes-Reads nccl_unique_id_bytes b.nccl_id h6.0)
                  (bind-Reads u16 _ (put_u16 b.detail_size) _ (u16-Reads b.detail_size h7)
                    (returns-Reads _))))))))
