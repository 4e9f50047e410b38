-- ===== src/Handler/Extract/Report.antt =====
-- RTDBG_ExtractDebugData as a whole: what the file holds at its end.
use mathlib.Core.List.{Perm}
use rt_debug_lib.Base.{
  ℕ, ◌≤◌, ◌<◌, ◌≡◌, refl, ap, sym, ◌∙◌, subst, false, true, Option, some, List, [], map, map-map,
  take, length, get_elem?, arith, ok, Returns, Returns-result,
}
use rt_debug_lib.CString.{CStr}
use rt_debug_lib.Clock.{Timespec, InRange}
use rt_debug_lib.Tracer.{Printf}
use rt_debug_lib.Tracer.Earliest.{at_time}
use rt_debug_lib.DebugRt.{GroupDebugRt}
use rt_debug_lib.Handler.{Handler}
use rt_debug_lib.Handler.Queues
use rt_debug_lib.Handler.Queues.{Line}
use rt_debug_lib.Handler.Drain.{AllFrom, AllBefore, IsSorted, IsInterleaving, total, drain_logs}
use rt_debug_lib.Handler.Drain.Ends
use rt_debug_lib.Handler.Extract.{
  is_running_producer, event_counters, profilers, drain_traces, report_text,
  rtdbg_extract_debug_data,
}
use rt_debug_lib.Handler.Extract.Counts.{IsPrintable, all_lines, event_counters_lem}
use rt_debug_lib.Handler.Extract.Profilers.{PrintsAll, IsGroupReportable}
use rt_debug_lib.Handler.Extract.Profilers.Groups.{SameParts, parts_of, profilers-ArePrinted}
use rt_debug_lib.Handler.Extract.Frames.{
  SameTraces, traces-same, traces-ready, logs-same, logs-ready,
}
use rt_debug_lib.Handler.Traces
use rt_debug_lib.Handler.Traces.{SameLogs, logger_of}
use rt_debug_lib.Handler.Traces.Drain
use rt_debug_lib.Handler.Traces.Drain.{lines_left}

-- What the extraction may rely on.
pub record IsExtractable (printf : Printf) (min_time : ℕ → Timespec) (now : ℕ → ℕ → Timespec)
    (log_time : ℕ → Timespec) (h : Handler) : Type 0 where
  pub status : is_running_producer h.status ≡ false
  pub room : h.shared.num_alloc_groups ≤ length h.shared.debug_groups
  pub counted :
      (i : ℕ) (g : GroupDebugRt)
      → i < h.shared.num_alloc_groups
      → get_elem? h.shared.debug_groups i ≡ some g
      → IsPrintable g
  pub profiled :
      (i : ℕ) (g : GroupDebugRt)
      → i < h.shared.num_alloc_groups
      → get_elem? h.shared.debug_groups i ≡ some g
      → IsGroupReportable g
  pub ranged : (f : ℕ) → InRange (min_time f)
  pub log_ranged : (f : ℕ) → InRange (log_time f)
  pub traces : Drain.IsDrainable printf min_time now h
  pub logs : Ends.IsDrainable log_time h 0

-- The groups in use.
abbrev pub in_use : Handler → List GroupDebugRt
in_use h = take h.shared.num_alloc_groups h.shared.debug_groups

-- The file's text: the counters and the profilers in the order of the groups, the traces and the logs
-- of all groups sorted by time.
pub record IsReport (printf : Printf) (h : Handler) (out : Option (List CStr) × Handler)
    : Type 0 where
  pub profs : List CStr
  pub traces : List Line
  pub logs : List Line
  pub text : out.0 ≡ some (report_text (all_lines (in_use h)) profs traces logs)
  pub profiled : PrintsAll (in_use h) profs
  pub traced : Perm (lines_left printf h) traces
  pub traces_ordered : IsSorted traces
  pub logged : IsInterleaving h.shared.num_alloc_groups (Queues.queue h) logs
  pub logs_ordered : IsSorted logs
  pub logs_gone : (j : ℕ) → j < h.shared.num_alloc_groups → Queues.queue out.1 j ≡ []

SameTraces-of_parts : (h h' : Handler) → SameParts h h' → SameTraces h h'
SameTraces-of_parts h h' s = record {
  infos = s.infos;
  tracers =
      sym (map-map (λ p. p.0) parts_of h'.shared.debug_groups)
      ∙ ap (map (λ p. p.0)) s.parts
      ∙ map-map (λ p. p.0) parts_of h.shared.debug_groups;
}

SameLogs-of_parts : (h h' : Handler) → SameParts h h' → SameLogs h h'
SameLogs-of_parts h h' s = record {
  last = s.lasts;
  loggers =
      sym (map-map (λ p. p.1) parts_of h'.shared.debug_groups)
      ∙ ap (map (λ p. p.1)) s.parts
      ∙ map-map (λ p. p.1) parts_of h.shared.debug_groups;
}

-- The traces and the logs as the profilers have left them.
module _ (printf : Printf) (min_time : ℕ → Timespec) (now : ℕ → ℕ → Timespec)
    (log_time : ℕ → Timespec) (h h' : Handler) where
  traces-IsDrainable :
      SameParts h h'
      → Drain.IsDrainable printf min_time now h
      → Drain.IsDrainable printf min_time now h'
  traces-IsDrainable s d =
      let t = SameTraces-of_parts h h' s in
      let same = traces-same printf h h' t in
      let below : (j : ℕ) → j < h'.shared.num_alloc_groups → j < h.shared.num_alloc_groups =
        λ j lt. omega (arith, s.groups) in
      record {
        attached = s.attached ∙ d.attached;
        stopped = s.active ∙ d.stopped;
        ready = λ j lt. traces-ready printf h h' t j (d.ready j (below j lt));
        before = λ f j lt.
            subst (λ q. Traces.Before (at_time (min_time f)) (q j)) (sym same)
              (d.before f j (below j lt));
        past = λ f j lt.
            let p = d.past f j (below j lt) in
            (p.0, subst (λ q. Traces.Before (at_time (now f j)) (q j)) (sym same) p.1);
      }

  lines_left-same : SameParts h h' → lines_left printf h' ≡ lines_left printf h
  lines_left-same s =
      let same = traces-same printf h h' (SameTraces-of_parts h h' s) in
      λ i. Drain.all_lines (s.groups i) (same i)

  logs-IsDrainable :
      SameLogs h h'
      → h'.shared.num_alloc_groups ≡ h.shared.num_alloc_groups
      → h'.mem_attached ≡ true
      → Ends.IsDrainable log_time h 0
      → Ends.IsDrainable log_time h' 0
  logs-IsDrainable s groups attached d =
      let same = logs-same h h' s in
      let below : (j : ℕ) → j < h'.shared.num_alloc_groups → j < h.shared.num_alloc_groups =
        λ j lt. omega (arith, groups) in
      record {
        attached = attached;
        few = omega (arith, groups, d.few);
        ready = λ j lt. logs-ready h h' s j (d.ready j (below j lt));
        sorted = λ j lt. subst (λ q. IsSorted (q j)) (sym same) (d.sorted j (below j lt));
        floored = λ j lt. subst (λ q. AllFrom 0 (q j)) (sym same) (d.floored j (below j lt));
        past = λ f j lt.
            subst (λ q. AllBefore (at_time (log_time f)) (q j)) (sym same)
              (d.past f j (below j lt));
      }

whole_run :
    (fuel : ℕ) (printf : Printf) (min_time : ℕ → Timespec) (now : ℕ → ℕ → Timespec)
    (log_time : ℕ → Timespec) (h h1 h2 h3 : Handler) (counters profs : List CStr)
    (traces logs : List Line)
    → h.mem_attached ≡ true
    → is_running_producer h.status ≡ false
    → event_counters h.shared h.shared.num_alloc_groups 0 ≡ ok counters
    → profilers h.shared.num_alloc_groups 0 h ≡ ok (profs, h1)
    → drain_traces fuel printf min_time now h1 ≡ ok (traces, h2)
    → drain_logs fuel log_time h2 ≡ ok (logs, h3)
    → rtdbg_extract_debug_data true fuel printf min_time now log_time h
      ≡ ok (some (report_text counters profs traces logs), h3)
unfolding rtdbg_extract_debug_data
whole_run fuel printf min_time now log_time h h1 h2 h3 counters profs traces logs attached status a
      b c d =
    ground arith

-- RTDBG_ExtractDebugData in an attached process that is not a running producer and does not collect
-- data, whose file opens, with at most ten groups that meet the conditions of the four sections
-- (counters under names that are C strings; FIFOs that can be summed up; for the traces and for the
-- logs those of their loops, each with times of its own that it reads), and more fuel than the
-- traces and than the logs have lines: it never faults, ends and returns true. The file holds,
-- under their titles, a line for each counter in use and the summary of each profiler's FIFO that
-- is not empty, in the order of the groups; every trace line just once, sorted by time, where a
-- group has the line that the process holds for it (an empty one in a slot of zeros) and those of
-- its entries with data, or none once the process has noted it as read to its end; and every log
-- line just once, an interleaving of the groups' lines that is sorted by time. No log line is left.
pub rtdbg_extract_debug_data-IsReport :
    (fuel : ℕ) (printf : Printf) (min_time : ℕ → Timespec) (now : ℕ → ℕ → Timespec)
    (log_time : ℕ → Timespec) (h : Handler)
    → IsExtractable printf min_time now log_time h
    → length (lines_left printf h) < fuel
    → total h.shared.num_alloc_groups (Queues.queue h) < fuel
    → Returns
        (rtdbg_extract_debug_data true fuel printf min_time now log_time h)
        (IsReport printf h)
rtdbg_extract_debug_data-IsReport fuel printf min_time now log_time h x enough_traces enough_logs =
    let n = h.shared.num_alloc_groups in
    let ((profs, h1), run1, c1) =
      Returns-result (profilers n 0 h) _ (profilers-ArePrinted h x.room x.profiled) in
    let same_lines = lines_left-same printf min_time now log_time h h1 c1.same in
    let ((traces, h2), run2, c2) = Returns-result (drain_traces fuel printf min_time now h1) _ (
      Drain.drain_traces-IsDrained printf fuel min_time now h1 x.ranged
        (traces-IsDrainable printf min_time now log_time h h1 c1.same x.traces)
        (rw same_lines enough_traces)) in
    let s1 = SameLogs-of_parts h h1 c1.same in
    let s2 : SameLogs h h2 = record {
      last = c2.logs.last ∙ s1.last;
      loggers = c2.logs.loggers ∙ s1.loggers;
    } in
    let groups : h2.shared.num_alloc_groups ≡ n = c2.groups ∙ c1.same.groups in
    let queues = logs-same h h2 s2 in
    let ((logs, h3), run3, c3) = Returns-result (drain_logs fuel log_time h2) _ (
      Ends.drain_logs-IsDrained fuel 0 log_time h2 x.log_ranged
        (logs-IsDrainable printf min_time now log_time h h2 s2 groups c2.attached x.logs)
        (rw (groups, queues) enough_logs)) in
    rw
      (whole_run fuel printf min_time now log_time h h1 h2 h3 (all_lines (in_use h)) profs traces
        logs x.logs.attached x.status (event_counters_lem h.shared x.room x.counted) run1 run2 run3)
      (record {
        profs = profs;
        traces = traces;
        logs = logs;
        text = refl;
        profiled = c1.prints;
        traced = subst (λ ls. Perm ls traces) same_lines c2.lines;
        traces_ordered = c2.ordered;
        logged =
            subst (λ q. IsInterleaving n q logs) queues
              (subst (λ k. IsInterleaving k (Queues.queue h2) logs) groups c3.lines);
        logs_ordered = c3.ordered;
        logs_gone = λ j lt. c3.empty j (omega (arith, groups));
      })
