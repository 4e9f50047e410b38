-- ===== src/Handler/Memory/Calls.antt =====
-- The calls that an application makes on the shared memory, and the memories that they lead to.
use rt_debug_lib.Base.{ℕ, ◌-◌, ◌<◌, ◌≡◌, true, some, length, get_elem?, set, at, Result, ok, ◌>>=◌}
use rt_debug_lib.CString.{CStr}
use rt_debug_lib.Clock.{Timespec}
use rt_debug_lib.Counters.{num_counters, trace_string_size}
use rt_debug_lib.Tracer.{max_trace_formats}
use rt_debug_lib.Tracer.Entries.{TraceCall}
use rt_debug_lib.MemArea.{mdo_name_size}
use rt_debug_lib.ProfilerGroup.{prof_group_max}
use rt_debug_lib.MemArea.{MemArea}
use rt_debug_lib.Profile.{ProfilePoint, ProfileData}
use rt_debug_lib.Handler.Measure.{rtdbg_stop_prof_meas, rtdbg_put_prof_val, rtdbg_prof_flush_meas}
use rt_debug_lib.DebugRt.{get_debug_grp, GroupDebugRt, max_group_num}
use rt_debug_lib.DebugRt.New.{HasArrays}
use rt_debug_lib.Handler.{
  Handler, rtdbg_add_log, rtdbg_add_trace, rtdbg_start, rtdbg_stop, rtdbg_init_all,
  rtdbg_alloc_rt_debug_group, rtdbg_alloc_counter, rtdbg_add_trace_entry, rtdbg_add_profiler,
}

-- A call, with what it reads of the clock, of the cycle counter and of the thread. The calls on a point
-- name the group and the profiler that the point is linked to.
pub data Call : Type 0 where
  alloc_group : CStr → Call
  alloc_counter add_format add_profiler : ℕ → CStr → Call
  log : Timespec → ℕ → CStr → Call
  trace : ℕ → TraceCall → Call
  stop_meas : ℕ → ℕ → Timespec → ℕ → ProfilePoint → Call
  put_val : ℕ → ℕ → ℕ → ProfilePoint → Call
  flush_meas : ℕ → ℕ → ProfilePoint → Call
  start stop init_all : Call

-- Group `grp` is in use, is `g`, and `P g` holds.
abbrev pub At : Handler → ℕ → (GroupDebugRt → Type 0) → Type 0
At h grp P =
    (g : GroupDebugRt) × (grp < h.shared.num_alloc_groups)
    × (get_elem? h.shared.debug_groups grp ≡ some g)
    × P g

-- What an application keeps to: the groups and formats that it names are in use, a new name fits
-- into its array and the table has room for one more.
abbrev pub Allowed : Handler → Call → Type 0
Allowed h (alloc_group s) =
    (length s < trace_string_size) × (h.shared.num_alloc_groups < max_group_num)
Allowed h (alloc_counter grp s) =
    (length s < trace_string_size)
    × At h grp λ g. g.event_counters.num_alloc_counters < num_counters - 1
Allowed h (add_format grp s) =
    (length s < trace_string_size) × At h grp λ g. g.tracer.num_alloc_formats < max_trace_formats
Allowed h (add_profiler grp s) =
    (length s < mdo_name_size) × At h grp λ g. g.profiler.num_alloc_prof < prof_group_max
Allowed h (log now grp s) = grp < h.shared.num_alloc_groups
Allowed h (trace grp c) = At h grp λ g. c.trace_id < g.tracer.num_alloc_formats
Allowed h (stop_meas grp j now tsc p) = At h grp λ g. j < g.profiler.num_alloc_prof
Allowed h (put_val grp j v p) = At h grp λ g. j < g.profiler.num_alloc_prof
Allowed h (flush_meas grp j p) = At h grp λ g. j < g.profiler.num_alloc_prof
Allowed h start = Unit {0}
Allowed h stop = Unit {0}
Allowed h init_all = Unit {0}

-- A call on a point that stands outside the shared memory and points to FIFO `j` of group `grp`.
unfoldable pub on_fifo :
    ℕ
    → ℕ
    → (MemArea ProfileData → Result (ProfilePoint × MemArea ProfileData))
    → Handler
    → Result Handler
on_fifo grp j f h = do
  g ← get_debug_grp grp h.shared
  m ← at g.profiler.prof_fifo j
  (_, m') ← f m
  let p = g.profiler
  let g' = record g { profiler = record p { prof_fifo = set p.prof_fifo j m' } }
  let d = h.shared
  ok (record h { shared = record d { debug_groups = set d.debug_groups grp g' } })

module _ (trace_buf : ℕ → ℕ) (prof_buf : ℕ → ℕ → ℕ) where
  unfoldable pub perform : Call → Handler → Result Handler
  unfolding on_fifo
  perform (alloc_group s) h = do (_, h') ← rtdbg_alloc_rt_debug_group trace_buf s h; ok h'
  perform (alloc_counter grp s) h = do (_, h') ← rtdbg_alloc_counter grp s h; ok h'
  perform (add_format grp s) h = do (_, h') ← rtdbg_add_trace_entry grp s h; ok h'
  perform (add_profiler grp s) h = do (_, h') ← rtdbg_add_profiler (prof_buf grp) grp s h; ok h'
  perform (log now grp s) h = do (_, h') ← rtdbg_add_log now grp s h; ok h'
  perform (trace grp c) h = do
    (_, h') ← rtdbg_add_trace c.now c.thread grp c.trace_id c.line_num c.var0 c.var1 c.var2 c.var3 h
    ok h'
  perform (stop_meas grp j now tsc p) h =
      on_fifo grp j (rtdbg_stop_prof_meas p.mem_ptr (prof_buf grp j) now tsc p) h
  perform (put_val grp j v p) h =
      on_fifo grp j (rtdbg_put_prof_val p.mem_ptr (prof_buf grp j) v p) h
  perform (flush_meas grp j p) h =
      on_fifo grp j (rtdbg_prof_flush_meas p.mem_ptr (prof_buf grp j) p) h
  perform start h = ok (rtdbg_start h)
  perform stop h = ok (rtdbg_stop h)
  perform init_all h = rtdbg_init_all trace_buf h

  -- What calls lead to after RTDBG_Init of an attached process, whatever its arrays held.
  pub data Reached : Handler → Type 0 where
    initialised :
        (h h' : Handler)
        → h.mem_attached ≡ true
        → length h.shared.debug_groups ≡ max_group_num
        → ((i : ℕ) (g : GroupDebugRt) → get_elem? h.shared.debug_groups i ≡ some g → HasArrays g)
        → rtdbg_init_all trace_buf h ≡ ok h'
        → Reached h'
    called :
        (h h' : Handler) (c : Call) → Reached h → Allowed h c → perform c h ≡ ok h' → Reached h'
