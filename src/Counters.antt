-- ===== src/Counters.antt =====
-- `CRT_counter_grp` of rt_debug_cpp/src/rt_debug_types.h: the event counters of one group.
-- A pointer to a counter is its index in `rt_counters_`.
pub mod Laws
use rt_debug_lib.Base.{
  ℕ, suc, ◌+◌, ◌-◌, ◌^◌, ◌≤◌, ◌<◌, ◌≡◌, Bool, List, [], map, length, set, ltb, leb, if◌then◌else◌,
  Result, ok, err, Fault, assert, at, ◌>>=◌, ◌>>◌,
}
use rt_debug_lib.CString.{CStr, strcpy}
use rt_debug_lib.Registry.{Search, found, missing, past_end, scan, names}

-- NUM_COUNTERS of api/rt_debug_defs.h, TRACE_STRING_SIZE of rt_debug_cpp/api/rt_debug_api.h
abbrev pub num_counters : ℕ
num_counters = 20

abbrev pub trace_string_size : ℕ
trace_string_size = 128

-- `RT_counter`; `val` is the bit pattern of an int64_t.
pub record RtCounter : Type 0 where
  pub val : ℕ
  pub cnt_name : CStr

pub record RtCounterGrp : Type 0 where
  pub rt_counters : List RtCounter
  pub num_alloc_counters : ℕ
  pub group_name : CStr

-- The loop of Reset goes over the whole array.
unfoldable pub reset : Bool → RtCounterGrp → RtCounterGrp
reset attach c = if attach then c else record {
  rt_counters = map (λ _. record { val = 2 ^ 64 - 1; cnt_name = [] }) c.rt_counters;
  num_alloc_counters = 0;
  group_name = [];
}

unfoldable pub set_group_name : CStr → RtCounterGrp → Result RtCounterGrp
set_group_name name c = do
  name' ← strcpy trace_string_size name
  ok (record c { group_name = name' })

unfoldable pub alloc_cnt : CStr → RtCounterGrp → Result (ℕ × RtCounterGrp)
alloc_cnt cnt_name c =
    elim (scan (λ (r : RtCounter). r.cnt_name) cnt_name c.num_alloc_counters c.rt_counters 0) [
      | found i ↦ ok (i, c)
      | past_end ↦ err Fault.out_of_bounds
      | missing ↦
          let i = c.num_alloc_counters in
          if ltb i (num_counters - 1)
          then (do
            assert (leb (length cnt_name) (trace_string_size - 1))
            name' ← strcpy trace_string_size cnt_name
            entry ← at c.rt_counters i
            ok (
              i,
              record c {
                rt_counters = set c.rt_counters i (record entry { cnt_name = name' });
                num_alloc_counters = i + 1;
              },
            ))
          else err Fault.assert_failed
    ]

abbrev pub get_cnt_num : RtCounterGrp → ℕ
get_cnt_num c = c.num_alloc_counters

unfoldable pub get_counter : ℕ → RtCounterGrp → Result ℕ
get_counter cnt_num c = do assert (leb cnt_num c.num_alloc_counters); ok cnt_num

-- The names in use, in the order of their indices.
abbrev pub cnt_names : RtCounterGrp → List CStr
cnt_names c = names (λ (r : RtCounter). r.cnt_name) c.num_alloc_counters c.rt_counters
