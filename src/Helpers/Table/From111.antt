-- ===== src/Helpers/Table/From111.antt =====
-- bpf_helper_defs.h: the helpers numbered 111 to 141.
use defrizer.Common.{List, [], ◌∷◌}
use defrizer.Helpers.Types.{
  Helper, helper, void, int, u32, u64, long, pointer, nothing, value, zero_or_error, value_or_error,
  pointer_or_null,
}

abbrev pub helpers_from_111 : List Helper
helpers_from_111 =
    helper "skb_output" long
      ((pointer "void") ∷ (pointer "void") ∷ u64 ∷ (pointer "void") ∷ u64 ∷ []) zero_or_error 111
    ∷ helper "probe_read_user" long ((pointer "void") ∷ u32 ∷ (pointer "const void") ∷ [])
        zero_or_error 112
    ∷ helper "probe_read_kernel" long ((pointer "void") ∷ u32 ∷ (pointer "const void") ∷ [])
        zero_or_error 113
    ∷ helper "probe_read_user_str" long ((pointer "void") ∷ u32 ∷ (pointer "const void") ∷ [])
        value_or_error 114
    ∷ helper "probe_read_kernel_str" long ((pointer "void") ∷ u32 ∷ (pointer "const void") ∷ [])
        value_or_error 115
    ∷ helper "tcp_send_ack" long ((pointer "void") ∷ u32 ∷ []) zero_or_error 116
    ∷ helper "send_signal_thread" long (u32 ∷ []) zero_or_error 117
    ∷ helper "jiffies64" u64 [] value 118
    ∷ []

abbrev pub helpers_from_119 : List Helper
helpers_from_119 =
    helper "read_branch_records" long
      ((pointer "struct bpf_perf_event_data") ∷ (pointer "void") ∷ u32 ∷ u64 ∷ []) value_or_error
      119
    ∷ helper "get_ns_current_pid_tgid" long
        (u64 ∷ u64 ∷ (pointer "struct bpf_pidns_info") ∷ u32 ∷ []) zero_or_error 120
    ∷ helper "xdp_output" long
        ((pointer "void") ∷ (pointer "void") ∷ u64 ∷ (pointer "void") ∷ u64 ∷ []) zero_or_error 121
    ∷ helper "get_netns_cookie" u64 ((pointer "void") ∷ []) value 122
    ∷ helper "get_current_ancestor_cgroup_id" u64 (int ∷ []) value 123
    ∷ helper "sk_assign" long ((pointer "void") ∷ (pointer "struct bpf_sock") ∷ u64 ∷ [])
        zero_or_error 124
    ∷ []

abbrev pub helpers_from_125 : List Helper
helpers_from_125 =
    helper "ktime_get_boot_ns" u64 [] value 125
    ∷ helper "seq_printf" long
        ((pointer "struct seq_file")
          ∷ (pointer "const char")
          ∷ u32
          ∷ (pointer "const void")
          ∷ u32
          ∷ [])
        zero_or_error 126
    ∷ helper "seq_write" long ((pointer "struct seq_file") ∷ (pointer "const void") ∷ u32 ∷ [])
        zero_or_error 127
    ∷ helper "sk_cgroup_id" u64 ((pointer "struct bpf_sock") ∷ []) value 128
    ∷ helper "sk_ancestor_cgroup_id" u64 ((pointer "struct bpf_sock") ∷ int ∷ []) value 129
    ∷ helper "ringbuf_output" long ((pointer "void") ∷ (pointer "void") ∷ u64 ∷ u64 ∷ [])
        zero_or_error 130
    ∷ helper "ringbuf_reserve" (pointer "void") ((pointer "void") ∷ u64 ∷ u64 ∷ []) pointer_or_null
        131
    ∷ helper "ringbuf_submit" void ((pointer "void") ∷ u64 ∷ []) nothing 132
    ∷ []

abbrev pub helpers_from_133 : List Helper
helpers_from_133 =
    helper "ringbuf_discard" void ((pointer "void") ∷ u64 ∷ []) nothing 133
    ∷ helper "ringbuf_query" u64 ((pointer "void") ∷ u64 ∷ []) value 134
    ∷ helper "csum_level" long ((pointer "struct __sk_buff") ∷ u64 ∷ []) value_or_error 135
    ∷ helper "skc_to_tcp6_sock" (pointer "struct tcp6_sock") ((pointer "void") ∷ []) pointer_or_null
        136
    ∷ helper "skc_to_tcp_sock" (pointer "struct tcp_sock") ((pointer "void") ∷ []) pointer_or_null
        137
    ∷ helper "skc_to_tcp_timewait_sock" (pointer "struct tcp_timewait_sock") ((pointer "void") ∷ [])
        pointer_or_null 138
    ∷ helper "skc_to_tcp_request_sock" (pointer "struct tcp_request_sock") ((pointer "void") ∷ [])
        pointer_or_null 139
    ∷ helper "skc_to_udp6_sock" (pointer "struct udp6_sock") ((pointer "void") ∷ []) pointer_or_null
        140
    ∷ []

abbrev pub helpers_from_141 : List Helper
helpers_from_141 =
    helper "get_task_stack" long
      ((pointer "struct task_struct") ∷ (pointer "void") ∷ u32 ∷ u64 ∷ []) value_or_error 141
    ∷ []
