-- ===== src/Handler.antt =====
-- `CDebugHandler` of rt_debug_cpp/src/rt_debug_main.h: what a process keeps, and its calls on the
-- shared memory. `shared` is what `rt_debugp_` points to, and enters each call with the handler.
-- `none` and `ok` without a change are the early returns of a process that is not attached.
pub mod Gate
pub mod Merge
pub mod Queues
pub mod Updates
pub mod Scan
pub mod LogMerge
pub mod Drain
pub mod Measure
pub mod Point
pub mod Mask
pub mod Attach
pub mod Extract
pub mod Traces
pub mod Api
pub mod Memory
pub mod Exhausted
use rt_debug_lib.Base.{
  ℕ, suc, ◌+◌, ◌-◌, ◌^◌, Bool, true, false, not, ◌&&◌, Option, none, some, List, [], ◌∷◌, map,
  length, set, ltb, leb, if◌then◌else◌, Result, ok, err, Fault, assert, at, ◌>>=◌, ◌>>◌,
}
use rt_debug_lib.CString.{CStr, codes}
use rt_debug_lib.Clock.{Timespec}
use rt_debug_lib.Counters
use rt_debug_lib.Counters.{RtCounterGrp}
use rt_debug_lib.Tracer
use rt_debug_lib.Tracer.{TraceGroup}
use rt_debug_lib.Logger
use rt_debug_lib.Logger.{LogGroup}
use rt_debug_lib.Profile.{ProfileData}
use rt_debug_lib.ProfilerGroup
use rt_debug_lib.ProfilerGroup.{ProfilerGroup}
use rt_debug_lib.DebugRt
use rt_debug_lib.DebugRt.{
  DebugRt, GroupDebugRt, get_debug_grp, set_data_collection, is_data_collected,
}

-- `RTDBG_STATUS_T` of rt_debug_cpp/api/rt_debug_api.h
pub data Status : Type 0 where
  rtdbg_init rtdbg_running_consumer rtdbg_running_producer rtdbg_stopped : Status

-- `LogSort_Data`: the log of a group that RTDBG_GetLog has taken out and not yet returned.
pub record LogSortData : Type 0 where
  pub linux_time : Timespec
  pub log_str : CStr
  pub valid : Bool

-- `TraceInfo`: the same for the trace lines of RTDBG_GetTraceEntry.
pub record TraceInfo : Type 0 where
  pub trace_str : CStr
  pub lin_time : Timespec
  pub status : ℕ

pub record Handler : Type 0 where
  pub status : Status
  pub shared_file_name : CStr
  pub mmap_fd : ℕ
  pub mem_attached : Bool
  pub grp_trace_res : List TraceInfo
  pub grp_logs_last : List LogSortData
  pub shared : DebugRt

-- A uint32_t that is -1 where a call finds the process not attached.
abbrev pub handle : Option ℕ → ℕ
handle none = 2 ^ 32 - 1
handle (some i) = i

-- InitExtractTables goes over the whole array.
unfoldable pub init_extract_tables : Handler → Handler
init_extract_tables h = record h {
  grp_logs_last = map (λ (l : LogSortData). record l { valid = false }) h.grp_logs_last;
}

-- GetDebugGrp(debug_grp)-> …: a call on a group, which is written back.
unfoldable pub with_group {ℓ} :
    {B : Type ℓ} → ℕ → (GroupDebugRt → Result (B × GroupDebugRt)) → Handler → Result (B × Handler)
with_group debug_grp f h = do
  g ← get_debug_grp debug_grp h.shared
  (b, g') ← f g
  let d = h.shared
  ok (b, record h { shared = record d { debug_groups = set d.debug_groups debug_grp g' } })

-- RTDBG_GetCounter and RTDBG_AllocCounter: the index of the counter.
unfoldable pub rtdbg_get_counter : ℕ → ℕ → Handler → Result (Option ℕ)
rtdbg_get_counter debug_grp num h =
    if h.mem_attached
    then (do
      g ← get_debug_grp debug_grp h.shared
      i ← Counters.get_counter num g.event_counters
      ok (some i))
    else ok none

unfoldable pub rtdbg_alloc_counter : ℕ → CStr → Handler → Result (Option ℕ × Handler)
unfolding with_group
rtdbg_alloc_counter debug_grp cnt_name h =
    if h.mem_attached
    then with_group debug_grp
        (λ g. do
          (cnt_num, c) ← Counters.alloc_cnt cnt_name g.event_counters
          i ← Counters.get_counter cnt_num c
          ok (some i, record g { event_counters = c }))
        h
    else ok (none, h)

unfoldable pub rtdbg_get_counters_num : ℕ → Handler → Result (Option ℕ)
rtdbg_get_counters_num debug_grp h =
    if h.mem_attached
    then (do
      g ← get_debug_grp debug_grp h.shared
      ok (some (Counters.get_cnt_num g.event_counters)))
    else ok none

-- RTDBG_AddTrace
unfoldable pub rtdbg_add_trace :
    Timespec → ℕ → ℕ → ℕ → ℕ → ℕ → ℕ → ℕ → ℕ → Handler → Result (Unit {0} × Handler)
unfolding with_group
rtdbg_add_trace now thread debug_grp trace_id line_num var0 var1 var2 var3 h =
    if h.mem_attached && is_data_collected h.shared
    then with_group debug_grp
        (λ g. do
          t ← Tracer.add_trace now thread trace_id line_num var0 var1 var2 var3 g.tracer
          ok (tt, record g { tracer = t }))
        h
    else ok (tt, h)

-- RTDBG_AddTraceEntry
unfoldable pub rtdbg_add_trace_entry : ℕ → CStr → Handler → Result (Option ℕ × Handler)
unfolding with_group
rtdbg_add_trace_entry grp format h =
    if h.mem_attached
    then with_group grp
        (λ g. do
          (i, t) ← Tracer.add_trace_format format g.tracer
          ok (some i, record g { tracer = t }))
        h
    else ok (none, h)

-- RTDBG_Init
unfoldable pub rtdbg_init_all : (ℕ → ℕ) → Handler → Result Handler
unfolding init_extract_tables
rtdbg_init_all trace_buf h =
    if h.mem_attached
    then (do
      d ← DebugRt.init trace_buf h.shared
      ok (let h' = init_extract_tables h in record h' { shared = d }))
    else ok h

-- RTDBG_AllocRTDebugGroup
unfoldable pub rtdbg_alloc_rt_debug_group : (ℕ → ℕ) → CStr → Handler → Result (Option ℕ × Handler)
rtdbg_alloc_rt_debug_group trace_buf group_name h =
    if h.mem_attached
    then (do
      (i, d) ← DebugRt.alloc_dbg_grp trace_buf group_name h.shared
      ok (some i, record h { shared = d }))
    else ok (none, h)

-- RTDBG_GetGrpName into a buffer of `size` bytes, and RTDBG_GetGrpNum
unfoldable pub rtdbg_get_grp_name : ℕ → ℕ → Handler → Result (Option CStr)
rtdbg_get_grp_name size debug_grp h =
    if h.mem_attached
    then (do
      g ← get_debug_grp debug_grp h.shared
      name ← DebugRt.get_grp_name size g
      ok (some name))
    else ok none

unfoldable pub rtdbg_get_grp_num : Handler → Option ℕ
rtdbg_get_grp_num h = if h.mem_attached then some (DebugRt.get_num_grps h.shared) else none

-- RTDBG_Stop and RTDBG_Start
unfoldable pub rtdbg_stop : Handler → Handler
unfolding init_extract_tables set_data_collection
rtdbg_stop h =
    if h.mem_attached
    then (let h' = init_extract_tables h in
        record h' { shared = set_data_collection false h.shared; status = rtdbg_stopped })
    else h

unfoldable pub rtdbg_start : Handler → Handler
unfolding set_data_collection
rtdbg_start h =
    if h.mem_attached then record h { shared = set_data_collection true h.shared } else h

abbrev pub is_data_collection_active : Handler → Bool
is_data_collection_active h = h.mem_attached && is_data_collected h.shared

abbrev pub rtdbg_get_status : Handler → Status
rtdbg_get_status h = if h.mem_attached then h.status else rtdbg_stopped

-- RTDBG_GetVersion
abbrev pub rtdbg_get_version : Handler → Option CStr
rtdbg_get_version h = if h.mem_attached then some (codes "v0.1") else none

-- RTDBG_AddLog
unfoldable pub rtdbg_add_log : Timespec → ℕ → CStr → Handler → Result (Unit {0} × Handler)
unfolding with_group
rtdbg_add_log now debug_grp log_str h =
    if h.mem_attached && is_data_collected h.shared
    then with_group debug_grp
        (λ g. do l ← Logger.add_log now log_str g.logger; ok (tt, record g { logger = l })) h
    else ok (tt, h)

-- RTDBG_AddProfiler, RTDBG_AllocProfCntrNum and RTDBG_GetProfInfo
unfoldable pub rtdbg_add_profiler : (ℕ → ℕ) → ℕ → CStr → Handler → Result (Option ℕ × Handler)
unfolding with_group
rtdbg_add_profiler buf_address debug_grp prof_name h =
    if h.mem_attached
    then with_group debug_grp
        (λ g. do
          (i, p) ← ProfilerGroup.registry_profile_entry buf_address prof_name g.profiler
          ok (some i, record g { profiler = p }))
        h
    else ok (none, h)

unfoldable pub rtdbg_alloc_prof_cntr_num : ℕ → Handler → Result (Option ℕ)
rtdbg_alloc_prof_cntr_num debug_grp h =
    if h.mem_attached
    then (do
      g ← get_debug_grp debug_grp h.shared
      ok (some (ProfilerGroup.get_grp_prof_num g.profiler)))
    else ok none

unfoldable pub rtdbg_get_prof_info :
    ℕ → ℕ → ℕ → ℕ → Handler → Result (Option (ProfileData × CStr × CStr) × Handler)
unfolding with_group
rtdbg_get_prof_info grp_size size debug_grp prof_id h =
    if h.mem_attached
    then with_group debug_grp
        (λ g. do
          grp_name ← DebugRt.get_grp_name grp_size g
          (r, p) ← ProfilerGroup.get_prof_info size prof_id g.profiler
          ok (
            elim r [ none ↦ none | some (d, name) ↦ some (d, grp_name, name) ],
            record g { profiler = p },
          ))
        h
    else ok (none, h)
