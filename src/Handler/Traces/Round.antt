-- ===== src/Handler/Traces/Round.antt =====
-- A round of the loop of RTDBG_GetTraceEntry: what it does to its group.
use mathlib.Core.List.{Perm}
use mathlib.Core.List.Perm
use rt_debug_lib.Base.{
  ℕ, ◌<◌, ◌≡◌, ◌≢◌, refl, ap, sym, ◌∙◌, subst, not, ◌&&◌, ◌==◌, if◌then◌else◌, Option, none, some,
  [], ◌∷◌, length, get_elem?, set, arith, ok, Returns-result, set-get_elem?,
}
use rt_debug_lib.CString.{CStr}
use rt_debug_lib.Clock.{Timespec, InRange, is_negative, diff_between_timespec}
use rt_debug_lib.Tracer.{
  Printf, TraceGroup, TraceEntry, no_data_ind, data_ind, trace_empty_data, trace_line,
  get_trace_entry,
}
use rt_debug_lib.Tracer.Earliest.{
  at_time, HasData, NoneBefore, GetsEarliest, AllPrintable-get, cleared, get_trace_entry_lem,
}
use rt_debug_lib.DebugRt.{GroupDebugRt, get_debug_grp}
use rt_debug_lib.Handler.{Handler, TraceInfo, with_group}
use rt_debug_lib.Handler.Merge.{trace_str_size, trace_step}
use rt_debug_lib.Handler.Queues.{Line}
use rt_debug_lib.Handler.Traces.{
  From, Before, Perm-of_eq, none_left, entry_line, found_format, traced, pending, Held, nothing,
  held, finished, IsGroupReady, IsReadyAt, traced-From, traced-cleared, From-cons, AllInRange-get,
  cleared-IsValid, cleared-AllInRange, cleared-NoneBefore, cleared-AllPrintable,
}

abbrev pub updated : Handler → ℕ → TraceInfo → GroupDebugRt → Handler
updated h i info g =
    let d = h.shared in
    record h {
      grp_trace_res = set h.grp_trace_res i info;
      shared = record d { debug_groups = set d.debug_groups i g };
    }

-- The test and the choice that end a round.
abbrev pub choose : Timespec → Option ℕ → ℕ → TraceInfo → Timespec × Option ℕ
choose min_time min_index i info =
    let better =
      not (info.status == trace_empty_data)
      && is_negative (diff_between_timespec info.lin_time min_time) in
    (if better then info.lin_time else min_time, if better then some i else min_index)

-- What a round leaves for its group: the same lines, the earliest of them noted, if there is one.
pub data Noted (printf : Printf) (info : TraceInfo) (g : GroupDebugRt) : Type 0 where
  empty : info.status ≡ trace_empty_data → pending printf info g ≡ [] → Noted printf info g
  earliest :
      info.status ≡ data_ind
      → length info.trace_str < trace_str_size
      → InRange info.lin_time
      → From (at_time info.lin_time) (pending printf info g)
      → Noted printf info g

pub record IsFetched (printf : Printf) (info : TraceInfo) (g : GroupDebugRt) (info' : TraceInfo)
    (g' : GroupDebugRt) : Type 0 where
  pub same : Perm (pending printf info' g') (pending printf info g)
  pub noted : Noted printf info' g'
  pub ready : IsGroupReady printf info' g'
  pub logger : g'.logger ≡ g.logger

module _ (printf : Printf) (now : Timespec) (i : ℕ) (h : Handler) (min_time : Timespec)
    (min_index : Option ℕ) (below : i < h.shared.num_alloc_groups) (r : IsReadyAt printf h i) where
  open r use {info, group, has_info, has_group, ready}

  abbrev Round : Type 0
  Round =
      (info' : TraceInfo) × (g' : GroupDebugRt) × IsFetched printf info group info' g'
      × (trace_step printf now i (min_time, min_index, h)
          ≡ ok (
            (choose min_time min_index i info').0,
            (choose min_time min_index i info').1,
            updated h i info' g',
          ))

  -- A group for which a line, or the end of its lines, is noted is left alone.
  keep : info.status ≢ no_data_ind → Noted printf info group → Round
  unfolding trace_step get_debug_grp
  keep known noted =
      let gs : set h.shared.debug_groups i group ≡ h.shared.debug_groups =
        set-get_elem? h.shared.debug_groups i group has_group in
      (
        info,
        group,
        record { same = Perm.rfl; noted = noted; ready = ready; logger = refl },
        ground (arith, known, below, has_info, has_group, gs),
      )

  -- The step, given what GetTraceEntry does.
  module _ (fresh : info.status ≡ no_data_ind) (t : TraceGroup) where
    abbrev with_tracer : GroupDebugRt
    with_tracer = record group { tracer = t }

    none_run :
        get_trace_entry printf trace_str_size now group.tracer ≡ ok (none, t)
        → let info' : TraceInfo = record info { status = trace_empty_data } in
          trace_step printf now i (min_time, min_index, h)
          ≡ ok (min_time, min_index, updated h i info' with_tracer)
    unfolding trace_step with_group get_debug_grp
    none_run run = ground (arith, fresh, below, has_info, has_group, run)

    some_run :
        (text : CStr) (time : Timespec)
        → get_trace_entry printf trace_str_size now group.tracer ≡ ok (some (text, time), t)
        → let info' : TraceInfo = record { trace_str = text; lin_time = time; status = data_ind } in
          trace_step printf now i (min_time, min_index, h)
          ≡ ok (
            (choose min_time min_index i info').0,
            (choose min_time min_index i info').1,
            updated h i info' with_tracer,
          )
    unfolding trace_step with_group get_debug_grp
    some_run text time run = ground (arith, fresh, below, has_info, has_group, run)

  nothing_left :
      info.status ≡ no_data_ind
      → Before (at_time now) (pending printf info group)
      → NoneBefore (at_time now) group.tracer.trace_fifo.buf
      → get_trace_entry printf trace_str_size now group.tracer ≡ ok (none, group.tracer)
      → Round
  nothing_left fresh past none_before run =
      let open_end : pending printf info group ≡ traced printf group.tracer = rw fresh refl in
      let gone : traced printf group.tracer ≡ [] =
        none_left (at_time now) (traced printf group.tracer)
          (subst (Before (at_time now)) open_end past)
          (traced-From printf (at_time now) group.tracer none_before) in
      (
        record info { status = trace_empty_data },
        group,
        record {
          same = Perm-of_eq (sym (open_end ∙ gone));
          noted = empty refl refl;
          ready = record {
            tracer = ready.tracer;
            named = ready.named;
            ranged = ready.ranged;
            printable = ready.printable;
            noted = finished refl;
          };
          logger = refl;
        },
        none_run fresh group.tracer run,
      )

  taken :
      (k : ℕ) (e : TraceEntry)
      → info.status ≡ no_data_ind
      → get_elem? group.tracer.trace_fifo.buf k ≡ some e
      → HasData e
      → NoneBefore (at_time e.linux_time) group.tracer.trace_fifo.buf
      → (text : CStr)
      → (entry_line printf group.tracer.trace_formats group.tracer.group_name e
          ≡ (text, e.linux_time))
      → length text < trace_str_size
      → get_trace_entry printf trace_str_size now group.tracer
        ≡ ok (some (text, e.linux_time), cleared k e group.tracer)
      → Round
  taken k e fresh at has none_before text line fits run =
      let t = group.tracer in
      let time = e.linux_time in
      let open_end : traced printf t ≡ pending printf info group = rw fresh refl in
      let ranged = AllInRange-get t.trace_fifo.buf k e at ready.ranged in
      let later = cleared-NoneBefore printf k e t (at_time time) none_before in
      let lines : Perm ((text, time) ∷ traced printf (cleared k e t)) (traced printf t) =
        subst (λ l. Perm (l ∷ traced printf (cleared k e t)) (traced printf t)) line
          (traced-cleared printf k e t at has) in
      (
        record { trace_str = text; lin_time = time; status = data_ind },
        record group { tracer = cleared k e t },
        record {
          same = subst (Perm ((text, time) ∷ traced printf (cleared k e t))) open_end lines;
          noted = earliest refl fits ranged (
              From-cons (at_time time) (text, time) (traced printf (cleared k e t)) (omega arith)
                (traced-From printf (at_time time) (cleared k e t) later));
          ready = record {
            tracer = cleared-IsValid printf k e t ready.tracer;
            named = ready.named;
            ranged = cleared-AllInRange printf k e t at ready.ranged;
            printable = cleared-AllPrintable printf k e t trace_str_size ready.printable;
            noted = held refl fits ranged later;
          };
          logger = refl;
        },
        some_run fresh (cleared k e t) text time run,
      )

  fetch :
      info.status ≡ no_data_ind
      → InRange now
      → Before (at_time now) (pending printf info group)
      → Round
  fetch fresh ranged past =
      let ((r, t), run, got) =
        Returns-result (get_trace_entry printf trace_str_size now group.tracer) _ (
          get_trace_entry_lem printf trace_str_size now ready.tracer ranged ready.ranged ready.named
            ready.printable) in
      by_result r t run got
    where
      by_result :
          (r : Option Line) (t : TraceGroup)
          → get_trace_entry printf trace_str_size now group.tracer ≡ ok (r, t)
          → GetsEarliest printf now group.tracer (r, t)
          → Round
      by_result none t run (same, none_before) =
          nothing_left fresh past none_before (run ∙ ap (λ u. ok (none, u)) same)
      by_result (some (text, time)) t run
            (k, e, f, at, has, before, none_before, has_format, printed, timed, same) =
          let fits =
            (AllPrintable-get printf trace_str_size group.tracer group.tracer.trace_fifo.buf k e
                ready.printable at has).1
              f has_format in
          taken k e fresh at has none_before (trace_line printf group.tracer.group_name f e)
            (ap (λ o. (trace_line printf group.tracer.group_name (found_format o) e, e.linux_time))
              has_format)
            fits (run ∙ λ j. ok (some (printed j, timed j), same j))

  pub round : InRange now → Before (at_time now) (pending printf info group) → Round
  round ranged past = by_note ready.noted
    where
      by_note : Held printf info group.tracer → Round
      by_note (nothing e) = fetch e ranged past
      by_note (held e fits timed none_before) =
          let lines : (info.trace_str, info.lin_time) ∷ traced printf group.tracer
              ≡ pending printf info group =
            rw e refl in
          keep (λ q. absurd (omega (arith, e, q)))
            (earliest e fits timed (
              subst (From (at_time info.lin_time)) lines (
                From-cons (at_time info.lin_time) (info.trace_str, info.lin_time)
                  (traced printf group.tracer) (omega arith)
                  (traced-From printf (at_time info.lin_time) group.tracer none_before))))
      by_note (finished e) = keep (λ q. absurd (omega (arith, e, q))) (empty e (rw e refl))
