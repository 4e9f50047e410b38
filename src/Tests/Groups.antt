-- ===== src/Tests/Groups.antt =====
-- Runs of the logger and the tracer on small states.
use rt_debug_lib.Base.{◌≡◌, refl, List, [], ◌∷◌, map, replicate, arith, Returns}
use rt_debug_lib.CString.{CStr, codes, decimal, signed_decimal}
use rt_debug_lib.Clock.{Timespec, nanos}
use rt_debug_lib.Queue.{keep_last}
use rt_debug_lib.MemArea.Invariant.{capacity}
use rt_debug_lib.Registry.{index_from}
use rt_debug_lib.Logger.{LogGroup, log_line, get_log_entry}
use rt_debug_lib.Logger.Laws.{IsLogGroup, logs, add_logs, entry_of, add_logs-keep_last}
use rt_debug_lib.Logger.Extract.{take_log, get_log_entry_lem}
use rt_debug_lib.Tracer.{TraceEntry, TraceGroup, Printf, get_trace_entry, trace_line}
use rt_debug_lib.Tracer.Formats
use rt_debug_lib.Tracer.Formats.{format_names}
use rt_debug_lib.Tracer.Entries.{TraceCall, add_traces, add_traces_keep, Stored}
use rt_debug_lib.Tracer.Earliest.{GetsEarliest, get_trace_entry_lem, AllPrintable}
use rt_debug_lib.Tests.{one_log, log_of, traces_of, blank_entry, seconds}

one_log-IsLogGroup : (name s : CStr) → IsLogGroup (one_log name s)
one_log-IsLogGroup name s = record {
  enough = omega arith;
  few = omega arith;
  room = omega arith;
  sized = refl;
  nonempty = omega arith;
  narrow = omega arith;
  wr_in = omega arith;
  rd_in = omega arith;
  apart = omega arith;
  in_free = refl;
  out_free = refl;
}

abbrev phy_log : LogGroup
phy_log = one_log (codes "phy") (codes "up")

abbrev calls : List (Timespec × CStr)
calls = (seconds 2, codes "a") ∷ (seconds 3, codes "b") ∷ []

add_logs_example : Returns (add_logs calls phy_log) λ g'.
    IsLogGroup g'
    × (capacity g'.logs_fifo ≡ 2)
    × (g'.group_name ≡ codes "phy")
    × (logs g' ≡ keep_last 2 (log_of (codes "up") ∷ map entry_of calls))
add_logs_example = add_logs-keep_last calls phy_log (one_log-IsLogGroup (codes "phy") (codes "up"))

get_log_entry_example : Returns (get_log_entry 112 phy_log) λ out.
    IsLogGroup out.1
    × (out.1.group_name ≡ codes "phy")
    × ((out.0, logs out.1) ≡ take_log (codes "phy") (log_of (codes "up") ∷ []))
unfolding log_line decimal nanos
get_log_entry_example =
    get_log_entry_lem 112 phy_log (one_log-IsLogGroup (codes "phy") (codes "up")) (omega arith)
      (omega arith, omega arith)

-- A name of ten bytes and a log of a hundred.
abbrev wide_log : LogGroup
wide_log = one_log (replicate 10 97) (replicate 100 97)

abbrev trace : TraceEntry
trace = record blank_entry { linux_time = seconds 1; status = 0; line_num = 12 }

abbrev traced : TraceGroup
traced = traces_of (blank_entry ∷ trace ∷ blank_entry ∷ blank_entry ∷ [])

traced-IsValid : Formats.IsValid traced
unfolding index_from
traced-IsValid = record {
  array = refl;
  few = omega arith;
  distinct = (refl, tt);
  entries = omega arith;
  pool = record {
    some_chunk = omega arith;
    few = omega arith;
    room = omega arith;
    sized = refl;
    nonempty = omega arith;
    narrow = omega arith;
    wr_in = omega arith;
    out_free = refl;
  };
}

abbrev one_call : TraceCall
one_call = record {
  now = seconds 2;
  thread = 3;
  trace_id = 0;
  line_num = 14;
  var0 = 1;
  var1 = 2;
  var2 = 3;
  var3 = 4;
}

add_traces_example : Returns (add_traces (one_call ∷ []) traced) λ t'.
    Formats.IsValid t'
    × Stored t' 2 (one_call ∷ [])
    × (t'.trace_formats ≡ traced.trace_formats)
    × (t'.num_alloc_formats ≡ 1)
    × (t'.group_name ≡ codes "phy")
add_traces_example = add_traces_keep (one_call ∷ []) traced-IsValid (omega arith, tt) (omega arith)

-- A printf that writes the first value as one byte.
abbrev print_first : Printf
print_first = record { format_values = λ format a b c d. a ∷ [] }

traced-AllPrintable : AllPrintable print_first 256 traced traced.trace_fifo.buf
unfolding trace_line decimal signed_decimal nanos
traced-AllPrintable = (
  λ has. absurd (has refl),
  (
    λ has. (omega arith, λ f at. omega arith),
    (λ has. absurd (has refl), (λ has. absurd (has refl), tt)),
  ),
)

get_trace_entry_example :
    Returns
      (get_trace_entry print_first 256 (seconds 5) traced)
      (GetsEarliest print_first (seconds 5) traced)
get_trace_entry_example =
    get_trace_entry_lem print_first 256 (seconds 5) traced-IsValid (omega arith)
      (omega arith, (omega arith, (omega arith, (omega arith, tt)))) (omega arith)
      traced-AllPrintable

abbrev raw_traces : TraceGroup
raw_traces = traces_of (replicate 1000 trace)
