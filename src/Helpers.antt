-- ===== src/Helpers.antt =====
-- The interface of the BPF helpers: the declarations of include/bpf/bpf_helper_defs.h and the numbers
-- of `enum bpf_func_id` in include/bpf/bpf.h. The kernel's code behind them is not in the repository.
pub mod Types
pub mod Table
pub mod Mapper
pub mod Laws
pub mod Results
