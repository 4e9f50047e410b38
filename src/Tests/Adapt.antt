-- ===== src/Tests/Adapt.antt =====
-- Runs of the C adapter and of RTDBG_ExtractDebugData on small states.
use rt_debug_lib.Base.{◌≡◌, refl, true, [], ◌∷◌, replicate, arith, ok, err, Fault, Returns}
use rt_debug_lib.CString.{codes}
use rt_debug_lib.DebugRt.{GroupDebugRt}
use rt_debug_lib.Handler.{Handler, rtdbg_stop}
use rt_debug_lib.Handler.Merge.{rtdbg_get_log}
use rt_debug_lib.Handler.Extract.{event_counters, rtdbg_extract_debug_data}
use rt_debug_lib.Handler.Extract.Counts.{
  IsPrintable, all_lines, event_counters_lem, extract_overflows,
}
use rt_debug_lib.Adapt.{Buffers, alloc_groups, rt_debug_get_grp_log}
use rt_debug_lib.Adapt.Groups.{IsFilled, alloc_groups-IsFilled}
use rt_debug_lib.Adapt.Logs.{without_time, get_grp_log_never_returns_line}
use rt_debug_lib.Tests.{
  process, raw_group, counter, address, seconds, shared_of, get_elem?-replicate,
}
use rt_debug_lib.Tests.Process.{unused, unused-IsDebugRt}
use rt_debug_lib.Tests.Merge.{two_groups, printf}

abbrev buffers : Buffers
buffers = record { trace_buf = λ i. address; prof_buf = λ i j. address }

abbrev fresh : Handler
fresh = record process { shared = unused }

alloc_groups_example :
    Returns
      (alloc_groups buffers (codes "mac" ∷ codes "phy" ∷ []) fresh)
      (IsFilled buffers (λ i. (omega arith, omega arith)) (codes "mac" ∷ codes "phy" ∷ []) fresh)
alloc_groups_example =
    alloc_groups-IsFilled buffers (λ i. (omega arith, omega arith)) (codes "mac" ∷ codes "phy" ∷ [])
      fresh refl unused-IsDebugRt (omega arith, (omega arith, tt)) (omega arith)

get_grp_log_example :
    rt_debug_get_grp_log 1000 true (seconds 9) 1 two_groups
    ≡ without_time (rtdbg_get_log 1000 true (seconds 9) 2 two_groups)
get_grp_log_example = get_grp_log_never_returns_line 1000 1 (seconds 9) two_groups (omega arith)

pub raw_group-IsPrintable : IsPrintable raw_group
raw_group-IsPrintable = record {
  room = omega arith;
  named = λ i c at. rw (get_elem?-replicate 20 i counter c at) (omega arith);
  short = omega arith;
}

event_counters_example :
    event_counters (shared_of 1 raw_group) 1 0 ≡ ok (all_lines (raw_group ∷ []))
event_counters_example =
    event_counters_lem (shared_of 1 raw_group) (omega arith)
      (λ i g below at. rw (get_elem?-replicate 10 i raw_group g at) raw_group-IsPrintable)

-- A stopped process whose first group has a name of 100 bytes.
abbrev wide_group : GroupDebugRt
wide_group = record raw_group { group_name = replicate 100 97 }

abbrev stopped : Handler
stopped = rtdbg_stop (record process { shared = shared_of 1 wide_group })

extract_overflows_example :
    rtdbg_extract_debug_data true 3 printf seconds (λ i j. seconds 9) seconds stopped
    ≡ err Fault.out_of_bounds
unfolding rtdbg_stop
extract_overflows_example =
    extract_overflows 3 printf seconds (λ i j. seconds 9) seconds stopped wide_group refl refl
      (omega arith) refl (omega arith) (omega arith)
