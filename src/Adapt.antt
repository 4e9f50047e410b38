-- ===== src/Adapt.antt =====
-- rt_debug_c/rt_adapt.c: the C adapter over the lists of groups, events, traces and profiles that an
-- application writes into its .inc files. A list gives its enum too: a name stands for its place. The
-- adapter's tables are filled in the order of the lists, each entry once.
pub mod Groups
pub mod Logs
pub mod Macros
use rt_debug_lib.Base.{
  ℕ, ◌+◌, ◌-◌, ◌^◌, Bool, true, false, Option, none, some, List, [], ◌∷◌, ltb, if◌then◌else◌,
  Result, ok, at, ◌>>=◌,
}
use rt_debug_lib.CString.{CStr, strncpy}
use rt_debug_lib.Clock.{Timespec}
use rt_debug_lib.Counters.{trace_string_size}
use rt_debug_lib.MemArea.{MemArea}
use rt_debug_lib.Tracer.{Printf}
use rt_debug_lib.Profile.{ProfilePoint, ProfileData}
use rt_debug_lib.DebugRt.{max_group_num}
use rt_debug_lib.Handler.{
  Handler, handle, rtdbg_alloc_rt_debug_group, rtdbg_alloc_counter, rtdbg_add_trace_entry,
  rtdbg_add_profiler, rtdbg_add_trace, rtdbg_add_log, rtdbg_get_prof_info, rtdbg_start, rtdbg_stop,
}
use rt_debug_lib.Handler.Merge.{rtdbg_get_log}
use rt_debug_lib.Handler.Measure.{
  rtdbg_prof_init, rtdbg_prof_flush_meas, rtdbg_start_prof_meas, rtdbg_stop_prof_meas,
}
use rt_debug_lib.Handler.Attach.{
  Os, rtdbg_set_shared_mem_file, rtdbg_activate_debug_data_collection, rtdbg_attach_debug_data,
}
use rt_debug_lib.Handler.Extract.{rtdbg_extract_debug_data}

-- `SGroupEvent`; the counter that event_cnt points to is its group and its index, and NULL is `none`.
pub record GroupEvent : Type 0 where
  pub group_id : ℕ
  pub event_cnt : Option (ℕ × ℕ)
  pub event_name : CStr

-- `SGroupTrace`
pub record GroupTrace : Type 0 where
  pub group_id : ℕ
  pub trace_id : ℕ

-- `SGroupProfiler`
pub record GroupProfiler : Type 0 where
  pub group_id : ℕ
  pub profile_id : ℕ

pub record Adapter : Type 0 where
  pub group_indexes : List ℕ
  pub group_events : List GroupEvent
  pub traces : List GroupTrace
  pub prof_points : List GroupProfiler

-- What groups.inc, events.inc, traces.inc and profiles.inc list.
pub record Lists : Type 0 where
  pub groups : List CStr
  pub events : List (ℕ × CStr)
  pub trace_formats : List (ℕ × CStr)
  pub profiles : List (ℕ × CStr)

-- Where buffers stand in this process: those of the traces, and those of the profilers by group and index.
pub record Buffers : Type 0 where
  pub trace_buf : ℕ → ℕ
  pub prof_buf : ℕ → ℕ → ℕ

module _ (buffers : Buffers) where
  -- DEF_GROUP over groups.inc
  unfoldable pub alloc_groups : List CStr → Handler → Result (List ℕ × Handler)
  alloc_groups [] h = ok ([], h)
  alloc_groups (a ∷ rest) h = do
    (i, h1) ← rtdbg_alloc_rt_debug_group buffers.trace_buf a h
    (indexes, h2) ← alloc_groups rest h1
    ok (handle i ∷ indexes, h2)

  -- DEF_EVENT over events.inc
  unfoldable pub alloc_events :
      List ℕ → List (ℕ × CStr) → Handler → Result (List GroupEvent × Handler)
  alloc_events group_indexes [] h = ok ([], h)
  alloc_events group_indexes ((a, b) ∷ rest) h = do
    group_id ← at group_indexes a
    (i, h1) ← rtdbg_alloc_counter group_id b h
    (events, h2) ← alloc_events group_indexes rest h1
    let event : GroupEvent = record {
      group_id = group_id;
      event_cnt = elim i [ none ↦ none | some cnt ↦ some (group_id, cnt) ];
      event_name = strncpy (trace_string_size - 1) b;
    }
    ok (event ∷ events, h2)

  -- DEF_TRACE over traces.inc
  unfoldable pub add_traces :
      List ℕ → List (ℕ × CStr) → Handler → Result (List GroupTrace × Handler)
  add_traces group_indexes [] h = ok ([], h)
  add_traces group_indexes ((a, c) ∷ rest) h = do
    group_id ← at group_indexes a
    (i, h1) ← rtdbg_add_trace_entry group_id c h
    (traces, h2) ← add_traces group_indexes rest h1
    ok (record { group_id = group_id; trace_id = handle i } ∷ traces, h2)

  -- DEF_PROFILE over profiles.inc
  unfoldable pub add_profiles :
      List ℕ → List (ℕ × CStr) → Handler → Result (List GroupProfiler × Handler)
  add_profiles group_indexes [] h = ok ([], h)
  add_profiles group_indexes ((a, b) ∷ rest) h = do
    group_id ← at group_indexes a
    (i, h1) ← rtdbg_add_profiler (buffers.prof_buf group_id) group_id b h
    (points, h2) ← add_profiles group_indexes rest h1
    ok (record { group_id = group_id; profile_id = handle i } ∷ points, h2)

  -- The four lists one after another, and RTDBG_Start.
  unfoldable pub fill_tables : Lists → Handler → Result (Adapter × Handler)
  unfolding alloc_groups alloc_events add_traces add_profiles
  fill_tables lists h = do
    (group_indexes, h1) ← alloc_groups lists.groups h
    (group_events, h2) ← alloc_events group_indexes lists.events h1
    (traces, h3) ← add_traces group_indexes lists.trace_formats h2
    (prof_points, h4) ← add_profiles group_indexes lists.profiles h3
    ok (
      record {
        group_indexes = group_indexes;
        group_events = group_events;
        traces = traces;
        prof_points = prof_points;
      },
      rtdbg_start h4,
    )

  -- RT_debug_init: `exists` is what stat says of the file, and `none` stands for the result 0.
  unfoldable pub rt_debug_init :
      {S : Type 0}
      → Os S
      → ℕ
      → Bool
      → Lists
      → CStr
      → Handler
      → S
      → Result (Option Adapter × Handler × S)
  unfolding fill_tables
  rt_debug_init os size exists lists mem_map_file h s = do
    h1 ← rtdbg_set_shared_mem_file mem_map_file h
    if exists
        then (do
          (attached, h2, s1) ← rtdbg_attach_debug_data os h1 s
          if attached
              then (do (a, h3) ← fill_tables lists h2; ok (some a, h3, s1))
              else ok (none, h2, s1))
        else (do
          (attached, h2, s1) ← rtdbg_activate_debug_data_collection os size buffers.trace_buf h1 s
          (a, h3) ← fill_tables lists (rtdbg_start h2)
          ok (some a, h3, s1))

-- RT_debug_save_trace
unfoldable pub rt_debug_save_trace :
    Timespec → ℕ → Adapter → ℕ → ℕ → ℕ → ℕ → ℕ → ℕ → Handler → Result (Unit {0} × Handler)
rt_debug_save_trace now thread a id line val0 val1 val2 val3 h = do
  t ← at a.traces id
  rtdbg_add_trace now thread t.group_id t.trace_id line val0 val1 val2 val3 h

-- RT_debug_save_log, which passes the enum's value on.
unfoldable pub rt_debug_save_log : Timespec → ℕ → CStr → Handler → Result (Unit {0} × Handler)
rt_debug_save_log now id log_str h = rtdbg_add_log now id log_str h

unfoldable pub rt_debug_get_event_cnt : Adapter → ℕ → Result (Option (ℕ × ℕ))
rt_debug_get_event_cnt a group_name = do e ← at a.group_events group_name; ok e.event_cnt

unfoldable pub rt_debug_prof_init :
    (ℕ → ℕ → ℕ)
    → Adapter
    → ℕ
    → ℕ
    → List (Timespec × Timespec)
    → ProfilePoint
    → Handler
    → Result ProfilePoint
rt_debug_prof_init fifo_address a group_prof meas_cnt rounds prof h = do
  p ← at a.prof_points group_prof
  rtdbg_prof_init fifo_address p.group_id p.profile_id meas_cnt rounds prof h

unfoldable pub rt_debug_prof_flush :
    Adapter
    → ℕ
    → ℕ
    → ℕ
    → ProfilePoint
    → MemArea ProfileData
    → Result (ProfilePoint × MemArea ProfileData)
rt_debug_prof_flush a group_prof fifo_address buf_address prof m = do
  _ ← at a.prof_points group_prof
  rtdbg_prof_flush_meas fifo_address buf_address prof m

unfoldable pub rt_debug_prof_start : Adapter → ℕ → Timespec → ℕ → ProfilePoint → Result ProfilePoint
rt_debug_prof_start a group_prof now tsc prof = do
  _ ← at a.prof_points group_prof
  rtdbg_start_prof_meas now tsc prof

unfoldable pub rt_debug_prof_stop :
    Adapter
    → ℕ
    → ℕ
    → ℕ
    → Timespec
    → ℕ
    → ProfilePoint
    → MemArea ProfileData
    → Result (ProfilePoint × MemArea ProfileData)
rt_debug_prof_stop a group_prof fifo_address buf_address now tsc prof m = do
  _ ← at a.prof_points group_prof
  rtdbg_stop_prof_meas fifo_address buf_address now tsc prof m

-- RT_debug_get_prof_data, with the names into buffers of 80 bytes.
unfoldable pub rt_debug_get_prof_data :
    Adapter → ℕ → Handler → Result (Option ProfileData × Handler)
rt_debug_get_prof_data a id h = do
  p ← at a.prof_points id
  (r, h') ← rtdbg_get_prof_info 80 80 p.group_id p.profile_id h
  ok (elim r [ none ↦ none | some (d, gr_name, prof_name) ↦ some d ], h')

abbrev pub rt_debug_start : Handler → Handler
rt_debug_start h = rtdbg_start h

abbrev pub rt_debug_stop : Handler → Handler
rt_debug_stop h = rtdbg_stop h

-- RT_debug_ExtractDebugData
unfoldable pub rt_debug_extract_debug_data :
    Bool
    → ℕ
    → Printf
    → (ℕ → Timespec)
    → (ℕ → ℕ → Timespec)
    → (ℕ → Timespec)
    → Handler
    → Result (Option (List CStr) × Handler)
rt_debug_extract_debug_data opened fuel printf min_time now log_time h =
    rtdbg_extract_debug_data opened fuel printf min_time now log_time (rtdbg_stop h)

-- RT_debug_get_grp_log into a buffer of `size` bytes, for a group that is not negative; `log_given` says
-- that log_str is not NULL, and `none` stands for the result false.
unfoldable pub rt_debug_get_grp_log :
    ℕ → Bool → Timespec → ℕ → Handler → Result (Option (CStr × Timespec) × Handler)
rt_debug_get_grp_log size log_given now group_id h =
    if log_given
    then (if ltb (max_group_num - 1) group_id
        then ok (none, h)
        else rtdbg_get_log size false now (2 ^ group_id) h)
    else ok (none, h)
