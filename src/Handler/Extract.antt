-- ===== src/Handler/Extract.antt =====
-- RTDBG_ExtractDebugData of rt_debug_cpp/src/rt_debug_main.h: the texts that it prints into the file, in
-- their order. Whether fopen opens the file is an argument, and so is the time that each call reads.
pub mod Counts
pub mod Profilers
pub mod Frames
pub mod Report
use rt_debug_lib.Base.{
  ℕ, zero, suc, ◌+◌, ◌^◌, Bool, true, false, not, Option, none, some, List, [], ◌∷◌, ◌++◌, map,
  if◌then◌else◌, Result, ok, err, Fault, assert, at, ◌>>=◌, ◌>>◌,
}
use rt_debug_lib.CString.{CStr, c_str, codes, signed_decimal}
use rt_debug_lib.Clock.{Timespec}
use rt_debug_lib.Counters.{RtCounter, RtCounterGrp, trace_string_size, get_counter, get_cnt_num}
use rt_debug_lib.Tracer.{Printf}
use rt_debug_lib.Profile.{ProfileData}
use rt_debug_lib.ProfilerGroup
use rt_debug_lib.ProfilerGroup.{get_grp_prof_num}
use rt_debug_lib.DebugRt.{DebugRt, get_debug_grp, get_grp_name}
use rt_debug_lib.Handler.{
  Handler, Status, rtdbg_init, rtdbg_running_consumer, rtdbg_running_producer, rtdbg_stopped,
  with_group,
}
use rt_debug_lib.Handler.Merge.{rtdbg_get_trace_entry}
use rt_debug_lib.Handler.Queues.{Line}
use rt_debug_lib.Handler.Drain.{drain_logs, buf_size}

-- char grp_name[100] and prof_name[1000]
abbrev pub grp_name_size : ℕ
grp_name_size = 100

abbrev pub prof_name_size : ℕ
prof_name_size = 1000

-- "%ld" of an int64_t
abbrev pub long : ℕ → CStr
long n = signed_decimal (2 ^ 63) n

-- "%s, %s, %ld\n"
abbrev pub counter_line : CStr → RtCounter → CStr
counter_line grp_name c =
    grp_name ++ codes ", " ++ c.cnt_name ++ codes ", " ++ long c.val ++ codes "\n"

-- The counters of a group from `j` on.
unfoldable pub counter_lines : CStr → RtCounterGrp → ℕ → ℕ → Result (List CStr)
counter_lines grp_name grp_cntrs zero j = ok []
counter_lines grp_name grp_cntrs (suc n) j = do
  i ← get_counter j grp_cntrs
  c ← at grp_cntrs.rt_counters i
  cnt_name ← c_str trace_string_size c.cnt_name
  rest ← counter_lines grp_name grp_cntrs n (j + 1)
  ok (counter_line grp_name c ∷ rest)

-- The groups from `i` on.
unfoldable pub event_counters : DebugRt → ℕ → ℕ → Result (List CStr)
unfolding counter_lines
event_counters d zero i = ok []
event_counters d (suc n) i = do
  g ← get_debug_grp i d
  grp_name ← get_grp_name grp_name_size g
  lines ← counter_lines grp_name g.event_counters (get_cnt_num g.event_counters) 0
  rest ← event_counters d n (i + 1)
  ok (lines ++ rest)

-- "%s, %s, avg=, %ld, max=, %ld, last=, %ld, max time=, %ld, measurements=, %ld\n"
abbrev pub prof_line : CStr → CStr → ProfileData → CStr
prof_line grp_name prof_name p =
    grp_name
    ++ codes ", "
    ++ prof_name
    ++ codes ", avg=, "
    ++ long p.average_cnt
    ++ codes ", max=, "
    ++ long p.max_cnt
    ++ codes ", last=, "
    ++ long p.last_cnt
    ++ codes ", max time=, "
    ++ long p.max_cnt_time
    ++ codes ", measurements=, "
    ++ long p.meas_num
    ++ codes "\n"

-- The profilers of group `i` from `j` on.
unfoldable pub prof_lines : CStr → ℕ → ℕ → ℕ → Handler → Result (List CStr × Handler)
prof_lines grp_name i zero j h = ok ([], h)
prof_lines grp_name i (suc n) j h = do
  (r, h') ←
      with_group i
        (λ g. do
          (r, p) ← ProfilerGroup.get_prof_info prof_name_size j g.profiler
          ok (r, record g { profiler = p }))
        h
  (rest, h'') ← prof_lines grp_name i n (j + 1) h'
  ok (elim r [ none ↦ rest | some (d, name) ↦ prof_line grp_name name d ∷ rest ], h'')

unfoldable pub profilers : ℕ → ℕ → Handler → Result (List CStr × Handler)
unfolding prof_lines
profilers zero i h = ok ([], h)
profilers (suc n) i h = do
  g ← get_debug_grp i h.shared
  grp_name ← get_grp_name grp_name_size g
  (lines, h') ← prof_lines grp_name i (get_grp_prof_num g.profiler) 0 h
  (rest, h'') ← profilers n (i + 1) h'
  ok (lines ++ rest, h'')

-- The loop of RTDBG_GetTraceEntry. A call with fuel `f` left reads `min_time f` and, in the call for
-- group `i`, `now f i`.
unfoldable pub drain_traces :
    ℕ → Printf → (ℕ → Timespec) → (ℕ → ℕ → Timespec) → Handler → Result (List Line × Handler)
drain_traces zero printf min_time now h = err Fault.out_of_fuel
drain_traces (suc f) printf min_time now h = do
  (r, h') ← rtdbg_get_trace_entry printf buf_size (min_time f) (now f) h
  elim r [
    | none ↦ ok ([], h')
    | some line ↦ do (lines, h'') ← drain_traces f printf min_time now h'; ok (line ∷ lines, h'')
  ]

-- "%s\n"
abbrev pub text_line : Line → CStr
text_line line = line.0 ++ codes "\n"

abbrev pub is_running_producer : Status → Bool
is_running_producer rtdbg_running_producer = true
is_running_producer rtdbg_init = false
is_running_producer rtdbg_running_consumer = false
is_running_producer rtdbg_stopped = false

-- The texts of all fprintf calls: the sections with their titles.
abbrev pub report_text : List CStr → List CStr → List Line → List Line → List CStr
report_text counters profs traces logs =
    codes "Event Counters\n" ∷ codes "**************\n" ∷ counters
    ++ codes "*************\n" ∷ codes "\n\nProfilers\n" ∷ codes "*************\n" ∷ profs
    ++ codes "**************\n"
      ∷ codes "\n\nTraces\n"
      ∷ codes "**************\n"
      ∷ map text_line traces
    ++ codes "********\n" ∷ codes "\n\nLogs\n" ∷ codes "********\n" ∷ map text_line logs

-- `fuel` bounds the rounds of either loop. A call with fuel `f` left reads `min_time f` and `now f` in the
-- loop of the traces, and `log_time f` in that of the logs; `none` where the call returns false.
unfoldable pub rtdbg_extract_debug_data :
    Bool
    → ℕ
    → Printf
    → (ℕ → Timespec)
    → (ℕ → ℕ → Timespec)
    → (ℕ → Timespec)
    → Handler
    → Result (Option (List CStr) × Handler)
unfolding event_counters profilers drain_traces
rtdbg_extract_debug_data opened fuel printf min_time now log_time h =
    if h.mem_attached
    then (do
      let num_grp = h.shared.num_alloc_groups
      assert opened
      assert (not (is_running_producer h.status))
      counters ← event_counters h.shared num_grp 0
      (profs, h1) ← profilers num_grp 0 h
      (traces, h2) ← drain_traces fuel printf min_time now h1
      (logs, h3) ← drain_logs fuel log_time h2
      ok (some (report_text counters profs traces logs), h3))
    else ok (none, h)
