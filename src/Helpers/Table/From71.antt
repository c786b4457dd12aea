-- ===== src/Helpers/Table/From71.antt =====
-- bpf_helper_defs.h: the helpers numbered 71 to 110.
use defrizer.Common.{List, [], ◌∷◌}
use defrizer.Helpers.Types.{
  Helper, helper, int, u32, u64, s32, s64, long, unsigned_long, pointer, value, zero_or_error,
  value_or_error, pointer_or_null, valid_pointer,
}

abbrev pub helpers_from_71 : List Helper
helpers_from_71 =
    helper "msg_redirect_hash" long
      ((pointer "struct sk_msg_md") ∷ (pointer "void") ∷ (pointer "void") ∷ u64 ∷ []) value 71
    ∷ helper "sk_redirect_hash" long
        ((pointer "struct __sk_buff") ∷ (pointer "void") ∷ (pointer "void") ∷ u64 ∷ []) value 72
    ∷ helper "lwt_push_encap" long
        ((pointer "struct __sk_buff") ∷ u32 ∷ (pointer "void") ∷ u32 ∷ []) zero_or_error 73
    ∷ helper "lwt_seg6_store_bytes" long
        ((pointer "struct __sk_buff") ∷ u32 ∷ (pointer "const void") ∷ u32 ∷ []) zero_or_error 74
    ∷ helper "lwt_seg6_adjust_srh" long ((pointer "struct __sk_buff") ∷ u32 ∷ s32 ∷ [])
        zero_or_error 75
    ∷ helper "lwt_seg6_action" long
        ((pointer "struct __sk_buff") ∷ u32 ∷ (pointer "void") ∷ u32 ∷ []) zero_or_error 76
    ∷ []

abbrev pub helpers_from_77 : List Helper
helpers_from_77 =
    helper "rc_repeat" long ((pointer "void") ∷ []) value 77
    ∷ helper "rc_keydown" long ((pointer "void") ∷ u32 ∷ u64 ∷ u32 ∷ []) value 78
    ∷ helper "skb_cgroup_id" u64 ((pointer "struct __sk_buff") ∷ []) value 79
    ∷ helper "get_current_cgroup_id" u64 [] value 80
    ∷ helper "get_local_storage" (pointer "void") ((pointer "void") ∷ u64 ∷ []) valid_pointer 81
    ∷ helper "sk_select_reuseport" long
        ((pointer "struct sk_reuseport_md") ∷ (pointer "void") ∷ (pointer "void") ∷ u64 ∷ [])
        zero_or_error 82
    ∷ helper "skb_ancestor_cgroup_id" u64 ((pointer "struct __sk_buff") ∷ int ∷ []) value 83
    ∷ []

abbrev pub helpers_from_84 : List Helper
helpers_from_84 =
    helper "sk_lookup_tcp" (pointer "struct bpf_sock")
      ((pointer "void") ∷ (pointer "struct bpf_sock_tuple") ∷ u32 ∷ u64 ∷ u64 ∷ []) pointer_or_null
      84
    ∷ helper "sk_lookup_udp" (pointer "struct bpf_sock")
        ((pointer "void") ∷ (pointer "struct bpf_sock_tuple") ∷ u32 ∷ u64 ∷ u64 ∷ [])
        pointer_or_null 85
    ∷ helper "sk_release" long ((pointer "struct bpf_sock") ∷ []) zero_or_error 86
    ∷ helper "map_push_elem" long ((pointer "void") ∷ (pointer "const void") ∷ u64 ∷ [])
        zero_or_error 87
    ∷ helper "map_pop_elem" long ((pointer "void") ∷ (pointer "void") ∷ []) zero_or_error 88
    ∷ helper "map_peek_elem" long ((pointer "void") ∷ (pointer "void") ∷ []) zero_or_error 89
    ∷ helper "msg_push_data" long ((pointer "struct sk_msg_md") ∷ u32 ∷ u32 ∷ u64 ∷ [])
        zero_or_error 90
    ∷ []

abbrev pub helpers_from_91 : List Helper
helpers_from_91 =
    helper "msg_pop_data" long ((pointer "struct sk_msg_md") ∷ u32 ∷ u32 ∷ u64 ∷ []) zero_or_error
      91
    ∷ helper "rc_pointer_rel" long ((pointer "void") ∷ s32 ∷ s32 ∷ []) value 92
    ∷ helper "spin_lock" long ((pointer "struct bpf_spin_lock") ∷ []) value 93
    ∷ helper "spin_unlock" long ((pointer "struct bpf_spin_lock") ∷ []) value 94
    ∷ helper "sk_fullsock" (pointer "struct bpf_sock") ((pointer "struct bpf_sock") ∷ [])
        pointer_or_null 95
    ∷ helper "tcp_sock" (pointer "struct bpf_tcp_sock") ((pointer "struct bpf_sock") ∷ [])
        pointer_or_null 96
    ∷ helper "skb_ecn_set_ce" long ((pointer "struct __sk_buff") ∷ []) value 97
    ∷ helper "get_listener_sock" (pointer "struct bpf_sock") ((pointer "struct bpf_sock") ∷ [])
        pointer_or_null 98
    ∷ []

abbrev pub helpers_from_99 : List Helper
helpers_from_99 =
    helper "skc_lookup_tcp" (pointer "struct bpf_sock")
      ((pointer "void") ∷ (pointer "struct bpf_sock_tuple") ∷ u32 ∷ u64 ∷ u64 ∷ []) pointer_or_null
      99
    ∷ helper "tcp_check_syncookie" long
        ((pointer "struct bpf_sock")
          ∷ (pointer "void")
          ∷ u32
          ∷ (pointer "struct tcphdr")
          ∷ u32
          ∷ [])
        zero_or_error 100
    ∷ helper "sysctl_get_name" long
        ((pointer "struct bpf_sysctl") ∷ (pointer "char") ∷ unsigned_long ∷ u64 ∷ []) value_or_error
        101
    ∷ helper "sysctl_get_current_value" long
        ((pointer "struct bpf_sysctl") ∷ (pointer "char") ∷ unsigned_long ∷ []) value_or_error 102
    ∷ helper "sysctl_get_new_value" long
        ((pointer "struct bpf_sysctl") ∷ (pointer "char") ∷ unsigned_long ∷ []) value_or_error 103
    ∷ helper "sysctl_set_new_value" long
        ((pointer "struct bpf_sysctl") ∷ (pointer "const char") ∷ unsigned_long ∷ []) zero_or_error
        104
    ∷ []

abbrev pub helpers_from_105 : List Helper
helpers_from_105 =
    helper "strtol" long ((pointer "const char") ∷ unsigned_long ∷ u64 ∷ (pointer "long") ∷ [])
      value_or_error 105
    ∷ helper "strtoul" long
        ((pointer "const char") ∷ unsigned_long ∷ u64 ∷ (pointer "unsigned long") ∷ [])
        value_or_error 106
    ∷ helper "sk_storage_get" (pointer "void")
        ((pointer "void") ∷ (pointer "struct bpf_sock") ∷ (pointer "void") ∷ u64 ∷ [])
        pointer_or_null 107
    ∷ helper "sk_storage_delete" long ((pointer "void") ∷ (pointer "struct bpf_sock") ∷ [])
        zero_or_error 108
    ∷ helper "send_signal" long (u32 ∷ []) zero_or_error 109
    ∷ helper "tcp_gen_syncookie" s64
        ((pointer "struct bpf_sock")
          ∷ (pointer "void")
          ∷ u32
          ∷ (pointer "struct tcphdr")
          ∷ u32
          ∷ [])
        value_or_error 110
    ∷ []
