-- ===== src/Helpers/Table/From39.antt =====
-- bpf_helper_defs.h: the helpers numbered 39 to 70.
use defrizer.Common.{List, [], ◌∷◌}
use defrizer.Helpers.Types.{
  Helper, helper, void, int, u32, u64, s32, s64, wsum, long, pointer, nothing, value, zero_or_error,
  value_or_error,
}

abbrev pub helpers_from_39 : List Helper
helpers_from_39 =
    helper "skb_pull_data" long ((pointer "struct __sk_buff") ∷ u32 ∷ []) zero_or_error 39
    ∷ helper "csum_update" s64 ((pointer "struct __sk_buff") ∷ wsum ∷ []) value_or_error 40
    ∷ helper "set_hash_invalid" void ((pointer "struct __sk_buff") ∷ []) nothing 41
    ∷ helper "get_numa_node_id" long [] value 42
    ∷ helper "skb_change_head" long ((pointer "struct __sk_buff") ∷ u32 ∷ u64 ∷ []) zero_or_error 43
    ∷ helper "xdp_adjust_head" long ((pointer "struct xdp_md") ∷ int ∷ []) zero_or_error 44
    ∷ helper "probe_read_str" long ((pointer "void") ∷ u32 ∷ (pointer "const void") ∷ [])
        value_or_error 45
    ∷ []

abbrev pub helpers_from_46 : List Helper
helpers_from_46 =
    helper "get_socket_cookie" u64 ((pointer "void") ∷ []) value 46
    ∷ helper "get_socket_uid" u32 ((pointer "struct __sk_buff") ∷ []) value 47
    ∷ helper "set_hash" long ((pointer "struct __sk_buff") ∷ u32 ∷ []) value 48
    ∷ helper "setsockopt" long ((pointer "void") ∷ int ∷ int ∷ (pointer "void") ∷ int ∷ [])
        zero_or_error 49
    ∷ helper "skb_adjust_room" long ((pointer "struct __sk_buff") ∷ s32 ∷ u32 ∷ u64 ∷ [])
        zero_or_error 50
    ∷ helper "redirect_map" long ((pointer "void") ∷ u32 ∷ u64 ∷ []) value 51
    ∷ []

abbrev pub helpers_from_52 : List Helper
helpers_from_52 =
    helper "sk_redirect_map" long ((pointer "struct __sk_buff") ∷ (pointer "void") ∷ u32 ∷ u64 ∷ [])
      value 52
    ∷ helper "sock_map_update" long
        ((pointer "struct bpf_sock_ops") ∷ (pointer "void") ∷ (pointer "void") ∷ u64 ∷ [])
        zero_or_error 53
    ∷ helper "xdp_adjust_meta" long ((pointer "struct xdp_md") ∷ int ∷ []) zero_or_error 54
    ∷ helper "perf_event_read_value" long
        ((pointer "void") ∷ u64 ∷ (pointer "struct bpf_perf_event_value") ∷ u32 ∷ []) zero_or_error
        55
    ∷ helper "perf_prog_read_value" long
        ((pointer "struct bpf_perf_event_data")
          ∷ (pointer "struct bpf_perf_event_value")
          ∷ u32
          ∷ [])
        zero_or_error 56
    ∷ []

abbrev pub helpers_from_57 : List Helper
helpers_from_57 =
    helper "getsockopt" long ((pointer "void") ∷ int ∷ int ∷ (pointer "void") ∷ int ∷ [])
      zero_or_error 57
    ∷ helper "override_return" long ((pointer "struct pt_regs") ∷ u64 ∷ []) value 58
    ∷ helper "sock_ops_cb_flags_set" long ((pointer "struct bpf_sock_ops") ∷ int ∷ [])
        value_or_error 59
    ∷ helper "msg_redirect_map" long
        ((pointer "struct sk_msg_md") ∷ (pointer "void") ∷ u32 ∷ u64 ∷ []) value 60
    ∷ []

abbrev pub helpers_from_61 : List Helper
helpers_from_61 =
    helper "msg_apply_bytes" long ((pointer "struct sk_msg_md") ∷ u32 ∷ []) value 61
    ∷ helper "msg_cork_bytes" long ((pointer "struct sk_msg_md") ∷ u32 ∷ []) value 62
    ∷ helper "msg_pull_data" long ((pointer "struct sk_msg_md") ∷ u32 ∷ u32 ∷ u64 ∷ [])
        zero_or_error 63
    ∷ helper "bind" long ((pointer "struct bpf_sock_addr") ∷ (pointer "struct sockaddr") ∷ int ∷ [])
        zero_or_error 64
    ∷ helper "xdp_adjust_tail" long ((pointer "struct xdp_md") ∷ int ∷ []) zero_or_error 65
    ∷ []

abbrev pub helpers_from_66 : List Helper
helpers_from_66 =
    helper "skb_get_xfrm_state" long
      ((pointer "struct __sk_buff") ∷ u32 ∷ (pointer "struct bpf_xfrm_state") ∷ u32 ∷ u64 ∷ [])
      zero_or_error 66
    ∷ helper "get_stack" long ((pointer "void") ∷ (pointer "void") ∷ u32 ∷ u64 ∷ []) value_or_error
        67
    ∷ helper "skb_load_bytes_relative" long
        ((pointer "const void") ∷ u32 ∷ (pointer "void") ∷ u32 ∷ u32 ∷ []) zero_or_error 68
    ∷ helper "fib_lookup" long
        ((pointer "void") ∷ (pointer "struct bpf_fib_lookup") ∷ int ∷ u32 ∷ []) value_or_error 69
    ∷ helper "sock_hash_update" long
        ((pointer "struct bpf_sock_ops") ∷ (pointer "void") ∷ (pointer "void") ∷ u64 ∷ [])
        zero_or_error 70
    ∷ []
