-- ===== src/Tests/Merge.antt =====
-- Runs of RTDBG_GetLog and of the log loop of RTDBG_ExtractDebugData on two groups.
use rt_debug_lib.Base.{
  ap, sym, ok, none, some, get_elem?, ℕ, zero, suc, ◌<◌, ◌≡◌, refl, true, false, [], ◌∷◌, arith,
  Returns,
}
use mathlib.Core.Option.{some-injective}
use rt_debug_lib.CString.{CStr, codes, decimal}
use rt_debug_lib.Clock.{nanos}
use rt_debug_lib.Logger.{LogEntry, LogGroup, log_line}
use rt_debug_lib.Logger.Laws.{IsLogGroup}
use rt_debug_lib.DebugRt.{GroupDebugRt}
use rt_debug_lib.Handler.{Handler, LogSortData, TraceInfo, rtdbg_stop}
use rt_debug_lib.Handler.Merge.{in_mask, rtdbg_get_log, rtdbg_get_trace_entry}
use rt_debug_lib.Handler.Queues.{queue}
use rt_debug_lib.Handler.Updates.{AreReady}
use rt_debug_lib.Handler.LogMerge.{IsMerged, rtdbg_get_log-IsMerged}
use rt_debug_lib.Tracer.{Printf, trace_empty_data}
use rt_debug_lib.Handler.Exhausted.{IsExhausted, stop_keeps_exhausted}
use rt_debug_lib.Handler.Drain.{drain_logs, IsSorted, AllFrom, AllBefore}
use rt_debug_lib.Handler.Drain.Ends.{IsDrainable, IsDrained, drain_logs-IsDrained}
use rt_debug_lib.Tests.{seconds, raw_group, process, area}

-- A logger with two logs, of the seconds `a` and `b`.
abbrev log_at : ℕ → LogEntry
log_at t = record { linux_time = seconds t; log_str = codes "up" }

abbrev pub two_logs : CStr → ℕ → ℕ → LogGroup
two_logs name a b = record {
  logs_fifo =
      (let m = area 5 3 0 (log_at a ∷ log_at a ∷ log_at b ∷ log_at b ∷ log_at b ∷ []) in
        record m { single_chunk_size = 128 });
  group_name = name;
}

abbrev pub group_of : CStr → ℕ → ℕ → GroupDebugRt
group_of name a b = record raw_group { logger = two_logs name a b }

abbrev pub no_last : LogSortData
no_last = record { linux_time = seconds 0; log_str = []; valid = false }

-- The logs of group `mac` lie between those of group `phy`.
abbrev pub two_groups : Handler
two_groups =
    let d = process.shared in
    record process {
      grp_logs_last = no_last ∷ no_last ∷ [];
      shared = record d {
        num_alloc_groups = 2;
        debug_groups = group_of (codes "phy") 1 4 ∷ group_of (codes "mac") 2 3 ∷ [];
      };
    }

pub two_logs-IsLogGroup : (name : CStr) (a b : ℕ) → IsLogGroup (two_logs name a b)
two_logs-IsLogGroup name a b = record {
  enough = omega arith;
  few = omega arith;
  room = omega arith;
  sized = refl;
  nonempty = omega arith;
  narrow = omega arith;
  wr_in = omega arith;
  rd_in = omega arith;
  apart = omega arith;
  in_free = refl;
  out_free = refl;
}

two_groups-AreReady : AreReady two_groups
unfolding log_line decimal nanos
two_groups-AreReady zero lt = record {
  last = no_last;
  group = group_of (codes "phy") 1 4;
  has_last = refl;
  has_group = refl;
  ready = record {
    logger = two_logs-IsLogGroup (codes "phy") 1 4;
    named = omega arith;
    fit = (omega arith, omega arith, (omega arith, omega arith, tt));
  };
}
two_groups-AreReady (suc zero) lt = record {
  last = no_last;
  group = group_of (codes "mac") 2 3;
  has_last = refl;
  has_group = refl;
  ready = record {
    logger = two_logs-IsLogGroup (codes "mac") 2 3;
    named = omega arith;
    fit = (omega arith, omega arith, (omega arith, omega arith, tt));
  };
}
two_groups-AreReady (suc (suc j)) lt = absurd (omega arith)

-- What holds of both groups.
pub both : (P : ℕ → Type 0) → P 0 → P 1 → (j : ℕ) → j < 2 → P j
both P a b zero lt = a
both P a b (suc zero) lt = b
both P a b (suc (suc j)) lt = absurd (omega arith)

rtdbg_get_log-IsMerged_example :
    Returns (rtdbg_get_log 1000 true (seconds 9) 3 two_groups) (IsMerged two_groups (seconds 9))
rtdbg_get_log-IsMerged_example =
    rtdbg_get_log-IsMerged 3 1000 two_groups (seconds 9) refl (omega arith)
      (both (λ j. in_mask 3 j ≡ true) refl refl) (omega arith) two_groups-AreReady

two_groups-IsDrainable : IsDrainable (λ f. seconds 9) two_groups 1_000_000_000
two_groups-IsDrainable = record {
  attached = refl;
  few = omega arith;
  ready = two_groups-AreReady;
  sorted =
      both (λ j. IsSorted (queue two_groups j)) ((omega arith, tt), (tt, tt))
        ((omega arith, tt), (tt, tt));
  floored =
      both (λ j. AllFrom 1_000_000_000 (queue two_groups j)) (omega arith, (omega arith, tt))
        (omega arith, (omega arith, tt));
  past = λ f.
      both (λ j. AllBefore 9_000_000_000 (queue two_groups j)) (omega arith, (omega arith, tt))
        (omega arith, (omega arith, tt));
}

drain_logs_example :
    Returns (drain_logs 5 (λ f. seconds 9) two_groups) (IsDrained two_groups 1_000_000_000)
drain_logs_example =
    drain_logs-IsDrained 5 1_000_000_000 (λ f. seconds 9) two_groups (λ f. omega arith)
      two_groups-IsDrainable (omega arith)

abbrev pub printf : Printf
printf = record { format_values = λ s a b c d. s }

-- A process that found no more traces in its only group, and collects again.
abbrev exhausted : Handler
exhausted = record process {
  grp_trace_res = record { trace_str = []; lin_time = seconds 0; status = trace_empty_data } ∷ [];
}

exhausted-IsExhausted : IsExhausted exhausted
exhausted-IsExhausted = record { array = omega arith; infos = omega arith; empty = found }
  where
    found :
        (i : ℕ) (info : TraceInfo)
        → i < 1
        → get_elem? exhausted.grp_trace_res i ≡ some info
        → info.status ≡ trace_empty_data
    found zero info lt e = ap (λ (t : TraceInfo). t.status) (sym (some-injective _ info e))
    found (suc i) info lt e = absurd (omega arith)

stop_keeps_exhausted_example :
    rtdbg_get_trace_entry printf 1000 (seconds 9) (λ i. seconds 9) (rtdbg_stop exhausted)
    ≡ ok (none, rtdbg_stop exhausted)
stop_keeps_exhausted_example =
    stop_keeps_exhausted printf 1000 (seconds 9) (λ i. seconds 9) exhausted refl
      exhausted-IsExhausted
