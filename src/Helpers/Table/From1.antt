-- ===== src/Helpers/Table/From1.antt =====
-- bpf_helper_defs.h: the helpers numbered 1 to 38.
use defrizer.Common.{List, [], ◌∷◌}
use defrizer.Helpers.Types.{
  Helper, helper, u16, u32, u64, s64, be16, wsum, long, variadic, pointer, value, zero_or_error,
  value_or_error, pointer_or_null,
}

abbrev pub helpers_from_1 : List Helper
helpers_from_1 =
    helper "map_lookup_elem" (pointer "void") ((pointer "void") ∷ (pointer "const void") ∷ [])
      pointer_or_null 1
    ∷ helper "map_update_elem" long
        ((pointer "void") ∷ (pointer "const void") ∷ (pointer "const void") ∷ u64 ∷ [])
        zero_or_error 2
    ∷ helper "map_delete_elem" long ((pointer "void") ∷ (pointer "const void") ∷ []) zero_or_error 3
    ∷ helper "probe_read" long ((pointer "void") ∷ u32 ∷ (pointer "const void") ∷ []) zero_or_error
        4
    ∷ helper "ktime_get_ns" u64 [] value 5
    ∷ helper "trace_printk" long ((pointer "const char") ∷ u32 ∷ variadic ∷ []) value_or_error 6
    ∷ helper "get_prandom_u32" u32 [] value 7
    ∷ []

abbrev pub helpers_from_8 : List Helper
helpers_from_8 =
    helper "get_smp_processor_id" u32 [] value 8
    ∷ helper "skb_store_bytes" long
        ((pointer "struct __sk_buff") ∷ u32 ∷ (pointer "const void") ∷ u32 ∷ u64 ∷ []) zero_or_error
        9
    ∷ helper "l3_csum_replace" long ((pointer "struct __sk_buff") ∷ u32 ∷ u64 ∷ u64 ∷ u64 ∷ [])
        zero_or_error 10
    ∷ helper "l4_csum_replace" long ((pointer "struct __sk_buff") ∷ u32 ∷ u64 ∷ u64 ∷ u64 ∷ [])
        zero_or_error 11
    ∷ helper "tail_call" long ((pointer "void") ∷ (pointer "void") ∷ u32 ∷ []) zero_or_error 12
    ∷ []

abbrev pub helpers_from_13 : List Helper
helpers_from_13 =
    helper "clone_redirect" long ((pointer "struct __sk_buff") ∷ u32 ∷ u64 ∷ []) zero_or_error 13
    ∷ helper "get_current_pid_tgid" u64 [] value 14
    ∷ helper "get_current_uid_gid" u64 [] value 15
    ∷ helper "get_current_comm" long ((pointer "void") ∷ u32 ∷ []) zero_or_error 16
    ∷ helper "get_cgroup_classid" u32 ((pointer "struct __sk_buff") ∷ []) value 17
    ∷ helper "skb_vlan_push" long ((pointer "struct __sk_buff") ∷ be16 ∷ u16 ∷ []) zero_or_error 18
    ∷ helper "skb_vlan_pop" long ((pointer "struct __sk_buff") ∷ []) zero_or_error 19
    ∷ []

abbrev pub helpers_from_20 : List Helper
helpers_from_20 =
    helper "skb_get_tunnel_key" long
      ((pointer "struct __sk_buff") ∷ (pointer "struct bpf_tunnel_key") ∷ u32 ∷ u64 ∷ [])
      zero_or_error 20
    ∷ helper "skb_set_tunnel_key" long
        ((pointer "struct __sk_buff") ∷ (pointer "struct bpf_tunnel_key") ∷ u32 ∷ u64 ∷ [])
        zero_or_error 21
    ∷ helper "perf_event_read" u64 ((pointer "void") ∷ u64 ∷ []) value_or_error 22
    ∷ []

abbrev pub helpers_from_23 : List Helper
helpers_from_23 =
    helper "redirect" long (u32 ∷ u64 ∷ []) value 23
    ∷ helper "get_route_realm" u32 ((pointer "struct __sk_buff") ∷ []) value 24
    ∷ helper "perf_event_output" long
        ((pointer "void") ∷ (pointer "void") ∷ u64 ∷ (pointer "void") ∷ u64 ∷ []) zero_or_error 25
    ∷ helper "skb_load_bytes" long ((pointer "const void") ∷ u32 ∷ (pointer "void") ∷ u32 ∷ [])
        zero_or_error 26
    ∷ []

abbrev pub helpers_from_27 : List Helper
helpers_from_27 =
    helper "get_stackid" long ((pointer "void") ∷ (pointer "void") ∷ u64 ∷ []) value_or_error 27
    ∷ helper "csum_diff" s64 ((pointer "__be32") ∷ u32 ∷ (pointer "__be32") ∷ u32 ∷ wsum ∷ [])
        value_or_error 28
    ∷ helper "skb_get_tunnel_opt" long ((pointer "struct __sk_buff") ∷ (pointer "void") ∷ u32 ∷ [])
        value 29
    ∷ helper "skb_set_tunnel_opt" long ((pointer "struct __sk_buff") ∷ (pointer "void") ∷ u32 ∷ [])
        zero_or_error 30
    ∷ helper "skb_change_proto" long ((pointer "struct __sk_buff") ∷ be16 ∷ u64 ∷ []) zero_or_error
        31
    ∷ []

abbrev pub helpers_from_32 : List Helper
helpers_from_32 =
    helper "skb_change_type" long ((pointer "struct __sk_buff") ∷ u32 ∷ []) zero_or_error 32
    ∷ helper "skb_under_cgroup" long ((pointer "struct __sk_buff") ∷ (pointer "void") ∷ u32 ∷ [])
        value_or_error 33
    ∷ helper "get_hash_recalc" u32 ((pointer "struct __sk_buff") ∷ []) value 34
    ∷ helper "get_current_task" u64 [] value 35
    ∷ helper "probe_write_user" long ((pointer "void") ∷ (pointer "const void") ∷ u32 ∷ [])
        zero_or_error 36
    ∷ helper "current_task_under_cgroup" long ((pointer "void") ∷ u32 ∷ []) value_or_error 37
    ∷ helper "skb_change_tail" long ((pointer "struct __sk_buff") ∷ u32 ∷ u64 ∷ []) zero_or_error 38
    ∷ []
