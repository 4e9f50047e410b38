-- ===== src/Tests/Extract.antt =====
-- Runs of the sections of RTDBG_ExtractDebugData, and of the whole, on two groups with two traces, two
-- logs and a profiler each.
use native.Mathlib.Bridge.{le_prop}
use mathlib.Core.Logic.Or
use mathlib.Core.List.{mem-cons, not-mem-nil}
use rt_debug_lib.Base.{
  ℕ, zero, suc, ◌+◌, ◌%◌, ◌<◌, ◌≡◌, refl, subst, sym, true, false, some, List, [], ◌∷◌, get_elem?,
  arith, Returns,
}
use mathlib.Core.Option.{some-injective}
use rt_debug_lib.CString.{CStr, codes, decimal, signed_decimal}
use rt_debug_lib.Clock.{Timespec, nanos}
use rt_debug_lib.Registry.{index_from}
use rt_debug_lib.Logger.{log_line}
use rt_debug_lib.Tracer.{TraceEntry, TraceGroup, Printf, trace_line, data_ind, no_data_ind}
use rt_debug_lib.Tracer.Formats
use rt_debug_lib.Tracer.Earliest.{AllPrintable, at_time}
use rt_debug_lib.DebugRt.{GroupDebugRt}
use rt_debug_lib.Handler.{Handler, TraceInfo, rtdbg_stopped}
use rt_debug_lib.Handler.Merge.{rtdbg_get_trace_entry}
use rt_debug_lib.Handler.Queues
use rt_debug_lib.Handler.Queues.{Line}
use rt_debug_lib.Handler.Drain.{IsSorted, AllFrom, AllBefore}
use rt_debug_lib.Handler.Drain.Ends
use rt_debug_lib.Handler.Extract.{drain_traces, profilers, rtdbg_extract_debug_data}
use rt_debug_lib.Handler.Extract.Counts.{IsPrintable}
use rt_debug_lib.Handler.Extract.Profilers.{IsReportable, IsGroupReportable}
use rt_debug_lib.Handler.Extract.Profilers.Groups.{ArePrinted, profilers-ArePrinted}
use rt_debug_lib.Handler.Extract.Report.{IsExtractable, IsReport, rtdbg_extract_debug_data-IsReport}
use rt_debug_lib.Handler.Traces
use rt_debug_lib.Handler.Traces.{Before}
use rt_debug_lib.Handler.Traces.Scan.{AreReady, ArePast}
use rt_debug_lib.Handler.Traces.Merge.{IsMerged, rtdbg_get_trace_entry-IsMerged}
use rt_debug_lib.Handler.Traces.Drain
use rt_debug_lib.Tests.{
  seconds, process, blank_entry, traces_of, counter, full_prof_fifo, get_elem?-replicate,
  profilers as profilers_of,
}
use rt_debug_lib.Tests.Points.{full_fifo}
use rt_debug_lib.Tests.Merge.{both, group_of, no_last, two_logs-IsLogGroup}

-- A printf that writes the first value as one byte.
abbrev print_first : Printf
print_first = record { format_values = λ format a b c d. a ∷ [] }

abbrev trace_at : ℕ → TraceEntry
trace_at t = record blank_entry { linux_time = seconds t; status = data_ind }

-- Two traces, the later one first in the ring.
abbrev tracer_at : ℕ → ℕ → TraceGroup
tracer_at a b = traces_of (trace_at b ∷ blank_entry ∷ trace_at a ∷ blank_entry ∷ [])

abbrev group_at : CStr → ℕ → ℕ → GroupDebugRt
group_at name a b = record (group_of name a b) {
  tracer = tracer_at a b;
  profiler = profilers_of full_prof_fifo 1;
}

abbrev phy : GroupDebugRt
phy = group_at (codes "phy") 1 4

abbrev mac : GroupDebugRt
mac = group_at (codes "mac") 2 3

abbrev no_info : TraceInfo
no_info = record { trace_str = []; lin_time = seconds 0; status = no_data_ind }

abbrev stopped : Handler
stopped =
    let d = process.shared in
    record process {
      status = rtdbg_stopped;
      grp_logs_last = no_last ∷ no_last ∷ [];
      grp_trace_res = no_info ∷ no_info ∷ [];
      shared = record d { num_alloc_groups = 2; active = false; debug_groups = phy ∷ mac ∷ [] };
    }

tracer_at-IsValid : (a b : ℕ) → Formats.IsValid (tracer_at a b)
unfolding index_from
tracer_at-IsValid a b = record {
  array = refl;
  few = omega arith;
  distinct = (refl, tt);
  entries = omega arith;
  pool = record {
    some_chunk = omega arith;
    few = omega arith;
    room = omega arith;
    sized = refl;
    nonempty = omega arith;
    narrow = omega arith;
    wr_in = omega arith;
    out_free = refl;
  };
}

phy-AllPrintable : AllPrintable print_first 256 phy.tracer phy.tracer.trace_fifo.buf
unfolding trace_line decimal signed_decimal nanos
phy-AllPrintable = (
  λ has. (omega arith, λ f at. omega arith),
  (
    λ has. absurd (has refl),
    (λ has. (omega arith, λ f at. omega arith), (λ has. absurd (has refl), tt)),
  ),
)

mac-AllPrintable : AllPrintable print_first 256 mac.tracer mac.tracer.trace_fifo.buf
unfolding trace_line decimal signed_decimal nanos
mac-AllPrintable = (
  λ has. (omega arith, λ f at. omega arith),
  (
    λ has. absurd (has refl),
    (λ has. (omega arith, λ f at. omega arith), (λ has. absurd (has refl), tt)),
  ),
)

traces-AreReady : AreReady print_first stopped
traces-AreReady zero lt = record {
  info = no_info;
  group = phy;
  has_info = refl;
  has_group = refl;
  ready = record {
    tracer = tracer_at-IsValid 1 4;
    named = omega arith;
    ranged = (omega arith, (omega arith, (omega arith, (omega arith, tt))));
    printable = phy-AllPrintable;
    noted = Traces.Held.nothing refl;
  };
}
traces-AreReady (suc zero) lt = record {
  info = no_info;
  group = mac;
  has_info = refl;
  has_group = refl;
  ready = record {
    tracer = tracer_at-IsValid 2 3;
    named = omega arith;
    ranged = (omega arith, (omega arith, (omega arith, (omega arith, tt))));
    printable = mac-AllPrintable;
    noted = Traces.Held.nothing refl;
  };
}
traces-AreReady (suc (suc j)) lt = absurd (omega arith)

Before-of_AllBefore : (b : ℕ) (ls : List Line) → AllBefore b ls → Before b ls
Before-of_AllBefore b [] h = λ x m. absurd (not-mem-nil m)
Before-of_AllBefore b (l ∷ ls) h = λ x m.
    Or.elim le_prop (mem-cons.0 m) (λ e. subst (λ (y : Line). at_time y.1 < b) (sym e) h.0)
      (Before-of_AllBefore b ls h.1 x)

abbrev late : ℕ → Timespec
late f = seconds 9

all_traces_early : (j : ℕ) → j < 2 → Before 9_000_000_000 (Traces.queue print_first stopped j)
all_traces_early =
    both (λ j. Before 9_000_000_000 (Traces.queue print_first stopped j))
      (Before-of_AllBefore 9_000_000_000 (Traces.queue print_first stopped 0)
        (omega arith, (omega arith, tt)))
      (Before-of_AllBefore 9_000_000_000 (Traces.queue print_first stopped 1)
        (omega arith, (omega arith, tt)))

traces-ArePast : ArePast print_first late stopped
traces-ArePast j below = (omega arith, all_traces_early j below)

rtdbg_get_trace_entry-IsMerged_example :
    Returns
      (rtdbg_get_trace_entry print_first 1000 (seconds 9) late stopped)
      (IsMerged print_first stopped)
rtdbg_get_trace_entry-IsMerged_example =
    rtdbg_get_trace_entry-IsMerged print_first 1000 (seconds 9) late stopped refl refl (omega arith)
      (omega arith) all_traces_early traces-ArePast traces-AreReady

traces-IsDrainable : Drain.IsDrainable print_first late (λ f. late) stopped
traces-IsDrainable = record {
  attached = refl;
  stopped = refl;
  ready = traces-AreReady;
  before = λ f. all_traces_early;
  past = λ f. traces-ArePast;
}

drain_traces-IsDrained_example :
    Returns
      (drain_traces 5 print_first late (λ f. late) stopped)
      (Drain.IsDrained print_first stopped)
drain_traces-IsDrained_example =
    Drain.drain_traces-IsDrained print_first 5 late (λ f. late) stopped (λ f. omega arith)
      traces-IsDrainable (omega arith)

groups_are :
    (P : GroupDebugRt → Type 0)
    → P phy
    → P mac
    → (i : ℕ) (g : GroupDebugRt) → i < 2
    → get_elem? stopped.shared.debug_groups i ≡ some g
    → P g
groups_are P p m zero g lt at = subst P (some-injective phy g at) p
groups_are P p m (suc zero) g lt at = subst P (some-injective mac g at) m
groups_are P p m (suc (suc i)) g lt at = absurd (omega arith)

full_fifo-IsReportable : IsReportable full_prof_fifo
full_fifo-IsReportable = record {
  valid = full_fifo.valid;
  named = omega arith;
  measured = (omega arith, tt);
  few = omega arith;
  small = omega arith;
}

group-IsGroupReportable : (name : CStr) (a b : ℕ) → IsGroupReportable (group_at name a b)
group-IsGroupReportable name a b = record {
  room = omega arith;
  short = omega arith;
  reportable = λ j m lt at.
      subst IsReportable (sym (get_elem?-replicate 50 j full_prof_fifo m at))
        full_fifo-IsReportable;
}

group-IsPrintable : (name : CStr) (a b : ℕ) → IsPrintable (group_at name a b)
group-IsPrintable name a b = record {
  room = omega arith;
  named = λ i c at. rw (get_elem?-replicate 20 i counter c at) (omega arith);
  short = omega arith;
}

profilers-ArePrinted_example : Returns (profilers 2 0 stopped) (ArePrinted 2 0 stopped)
profilers-ArePrinted_example = profilers-ArePrinted stopped (omega arith) (λ i g lt at.
    groups_are IsGroupReportable (group-IsGroupReportable (codes "phy") 1 4)
      (group-IsGroupReportable (codes "mac") 2 3) i g lt at)

logs-AreReady : (j : ℕ) → j < 2 → Queues.IsReadyAt stopped j
unfolding log_line decimal nanos
logs-AreReady zero lt = record {
  last = no_last;
  group = phy;
  has_last = refl;
  has_group = refl;
  ready = record {
    logger = two_logs-IsLogGroup (codes "phy") 1 4;
    named = omega arith;
    fit = (omega arith, omega arith, (omega arith, omega arith, tt));
  };
}
logs-AreReady (suc zero) lt = record {
  last = no_last;
  group = mac;
  has_last = refl;
  has_group = refl;
  ready = record {
    logger = two_logs-IsLogGroup (codes "mac") 2 3;
    named = omega arith;
    fit = (omega arith, omega arith, (omega arith, omega arith, tt));
  };
}
logs-AreReady (suc (suc j)) lt = absurd (omega arith)

abbrev later : ℕ → Timespec
later f = seconds (10 + f % 5)

logs-IsDrainable : Ends.IsDrainable later stopped 0
logs-IsDrainable = record {
  attached = refl;
  few = omega arith;
  ready = logs-AreReady;
  sorted =
      both (λ j. IsSorted (Queues.queue stopped j)) ((omega arith, tt), (tt, tt))
        ((omega arith, tt), (tt, tt));
  floored =
      both (λ j. AllFrom 0 (Queues.queue stopped j)) (omega arith, (omega arith, tt))
        (omega arith, (omega arith, tt));
  past = λ f.
      both (λ j. AllBefore (at_time (later f)) (Queues.queue stopped j))
        (omega arith, (omega arith, tt)) (omega arith, (omega arith, tt));
}

stopped-IsExtractable : IsExtractable print_first late (λ f. late) later stopped
stopped-IsExtractable = record {
  status = refl;
  room = omega arith;
  counted = λ i g lt at.
      groups_are IsPrintable (group-IsPrintable (codes "phy") 1 4)
        (group-IsPrintable (codes "mac") 2 3) i g lt at;
  profiled = λ i g lt at.
      groups_are IsGroupReportable (group-IsGroupReportable (codes "phy") 1 4)
        (group-IsGroupReportable (codes "mac") 2 3) i g lt at;
  ranged = λ f. omega arith;
  log_ranged = λ f. omega arith;
  traces = traces-IsDrainable;
  logs = logs-IsDrainable;
}

rtdbg_extract_debug_data-IsReport_example :
    Returns
      (rtdbg_extract_debug_data true 5 print_first late (λ f. late) later stopped)
      (IsReport print_first stopped)
rtdbg_extract_debug_data-IsReport_example =
    rtdbg_extract_debug_data-IsReport 5 print_first late (λ f. late) later stopped
      stopped-IsExtractable (omega arith) (omega arith)
