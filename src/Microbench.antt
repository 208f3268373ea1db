-- ===== src/Microbench.antt =====
-- scripts/k3_dist_nccl_microbench.cpp: byte transport, exchange of the NCCL id, arguments, and the
-- correctness check of the all-reduce.
pub mod Socket
pub mod Exchange
pub mod Args
pub mod Check
mod Transport
mod Agreement
mod Options
mod Sums
mod Verdict
mod Tests
