-- ===== src/Tests/Process.antt =====
-- Runs of the shared memory and of a process on small states.
use rt_debug_lib.Base.{
  false, ◌∷◌, ℕ, ◌≡◌, refl, true, some, [], arith, ok, Fault, map_ok, Returns, length-replicate,
}
use rt_debug_lib.CString.{CStr, codes}
use rt_debug_lib.Clock.{Timespec}
use rt_debug_lib.Registry.{register_within}
use rt_debug_lib.Logger.Laws.{IsLogGroup}
use rt_debug_lib.DebugRt.{DebugRt, alloc_dbg_grp, group_names}
use rt_debug_lib.DebugRt.New.{HasArrays}
use rt_debug_lib.DebugRt.Laws.{IsDebugRt, alloc_dbg_grp_refines}
use rt_debug_lib.Handler.Merge.{rtdbg_get_log}
use rt_debug_lib.Handler.Mask.{rtdbg_get_log-masked}
use rt_debug_lib.Handler.{
  Handler, LogSortData, rtdbg_stopped, rtdbg_start, rtdbg_stop, rtdbg_add_log, rtdbg_add_trace,
  rtdbg_get_status, is_data_collection_active,
}
use rt_debug_lib.Handler.Gate.{stop_gate, IsLogged, rtdbg_add_log-IsLogged}
use rt_debug_lib.Tests.{
  raw_prof_fifo, raw_group, shared_of, process, blank_entry, log_of, seconds, address,
  get_elem?-replicate,
}

pub raw_group-HasArrays : HasArrays raw_group
raw_group-HasArrays = record {
  log_entries = omega (arith, length-replicate 128 (log_of []));
  traces = record { formats = refl; entries = length-replicate 1000 blank_entry };
  counters = refl;
  profilers = length-replicate 50 raw_prof_fifo;
  buffers = λ i m at. rw (get_elem?-replicate 50 i raw_prof_fifo m at) (omega arith);
}

abbrev pub unused : DebugRt
unused = shared_of 0 raw_group

pub unused-IsDebugRt : IsDebugRt unused
unused-IsDebugRt = record {
  array = refl;
  few = omega arith;
  arrays = λ i g at. rw (get_elem?-replicate 10 i raw_group g at) raw_group-HasArrays;
  named = λ i g lt at. absurd (omega (arith, lt));
}

abbrev trace_buf : ℕ → ℕ
trace_buf i = address

alloc_dbg_grp_refines_example :
    map_ok
      (λ (out : ℕ × DebugRt). (out.0, group_names out.1))
      (alloc_dbg_grp trace_buf (codes "mac") unused)
    ≡ register_within Fault.assert_failed 10 (codes "mac") []
alloc_dbg_grp_refines_example =
    alloc_dbg_grp_refines trace_buf unused-IsDebugRt (codes "mac") (omega arith) (omega arith)
      (omega arith)

stop_gate_example :
    let stopped = rtdbg_stop process in
    ((now : Timespec) (i : ℕ) (s : CStr) → rtdbg_add_log now i s stopped ≡ ok (tt, stopped))
    × ((now : Timespec) (thread i id line a b c d : ℕ)
        → rtdbg_add_trace now thread i id line a b c d stopped ≡ ok (tt, stopped))
    × (rtdbg_get_status stopped ≡ rtdbg_stopped)
    × (is_data_collection_active (rtdbg_start process) ≡ true)
stop_gate_example = stop_gate process

raw_group-IsLogGroup : IsLogGroup raw_group.logger
raw_group-IsLogGroup = record {
  enough = omega arith;
  few = omega arith;
  room = omega (arith, length-replicate 128 (log_of []));
  sized = refl;
  nonempty = omega arith;
  narrow = omega arith;
  wr_in = omega arith;
  rd_in = omega arith;
  apart = omega arith;
  in_free = refl;
  out_free = refl;
}

rtdbg_add_log_example : Returns (rtdbg_add_log (seconds 4) 0 (codes "up") process) λ out.
    IsLogged
      (seconds 4)
      0
      (codes "up")
      process
      raw_group
      refl
      refl
      (omega arith)
      refl
      raw_group-IsLogGroup
      out.1
rtdbg_add_log_example =
    rtdbg_add_log-IsLogged (seconds 4) 0 (codes "up") process raw_group refl refl (omega arith) refl
      raw_group-IsLogGroup

-- One group, and a log of it that was returned before.
abbrev stale : LogSortData
stale = record { linux_time = seconds 1; log_str = codes "old"; valid = false }

abbrev stale_process : Handler
stale_process = record process { grp_logs_last = stale ∷ [] }

rtdbg_get_log-masked_example :
    (rtdbg_get_log 1000 true (seconds 2) 0 stale_process
      ≡ ok (some (codes "old", seconds 1), stale_process))
    × (rtdbg_get_log 1000 true (seconds 2) 0 stale_process
        ≡ ok (some (codes "old", seconds 1), stale_process))
rtdbg_get_log-masked_example =
    rtdbg_get_log-masked 1000 (seconds 2) stale_process stale [] refl refl refl (omega arith)
      (omega arith) (omega arith) (omega arith)
