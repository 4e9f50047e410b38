-- ===== src/Handler/Traces/Merge.antt =====
-- RTDBG_GetTraceEntry over all groups: a merge of their trace lines by time.
use mathlib.Core.List.{Perm}
use mathlib.Core.List.Perm
use mathlib.Core.Option.{some-injective}
use rt_debug_lib.Base.{
  ℕ, ◌≤◌, ◌<◌, ◌≡◌, ◌≢◌, refl, ap, ap₂, sym, ◌∙◌, subst, true, false, Option, none, some, List, [],
  ◌∷◌, length, get_elem?, set, arith, ok, Returns, Returns-result, set-get_elem?, map-set_same,
}
use rt_debug_lib.CString.{CStr}
use rt_debug_lib.Clock.{Timespec, InRange}
use rt_debug_lib.Tracer.{Printf, no_data_ind, data_ind}
use rt_debug_lib.Tracer.Earliest.{at_time}
use rt_debug_lib.DebugRt.{GroupDebugRt}
use rt_debug_lib.Handler.{Handler, TraceInfo}
use rt_debug_lib.Handler.Merge.{trace_str_size, trace_loop, rtdbg_get_trace_entry}
use rt_debug_lib.Handler.Queues.{Line}
use rt_debug_lib.Handler.Traces.{
  SameLogs, logger_of, From, Before, Perm-of_eq, none_left, pending, queue, nothing, IsGroupReady,
  IsReadyAt,
}
use rt_debug_lib.Handler.Traces.Round.{updated}
use rt_debug_lib.Handler.Traces.Scan.{
  AreReady, ArePast, IsKept, Chosen, unchanged, improved, IsScanned, queue-updated_self,
  queue-updated_ne, queue_of_ready, AreReady-updated, loop-IsScanned,
}

module _ (printf : Printf) where
  -- No group has a line left.
  pub record IsEmpty (h h' : Handler) : Type 0 where
    pub before : (j : ℕ) → j < h.shared.num_alloc_groups → queue printf h j ≡ []
    pub after : (j : ℕ) → j < h.shared.num_alloc_groups → queue printf h' j ≡ []

  -- One line of one group is taken; no line of any group is earlier.
  pub record IsTaken (h h' : Handler) (text : CStr) (time : Timespec) : Type 0 where
    pub group : ℕ
    pub in_use : group < h.shared.num_alloc_groups
    pub taken : Perm (queue printf h group) ((text, time) ∷ queue printf h' group)
    pub others : (j : ℕ) → group ≢ j → Perm (queue printf h j) (queue printf h' j)
    pub bound : (j : ℕ) → j < h.shared.num_alloc_groups → From (at_time time) (queue printf h j)

  abbrev pub Takes : Handler → Option Line → Handler → Type 0
  Takes h none h' = IsEmpty h h'
  Takes h (some (text, time)) h' = IsTaken h h' text time

  pub record IsMerged (h : Handler) (out : Option Line × Handler) : Type 0 where
    pub takes : Takes h out.0 out.1
    pub ready : AreReady printf out.1
    pub groups : out.1.shared.num_alloc_groups ≡ h.shared.num_alloc_groups
    pub attached : out.1.mem_attached ≡ true
    pub stopped : out.1.shared.active ≡ false
    pub logs : SameLogs h out.1

  -- Every line is earlier than `bound`.
  abbrev pub AllBefore : Timespec → Handler → Type 0
  AllBefore bound h =
      (j : ℕ) → j < h.shared.num_alloc_groups → Before (at_time bound) (queue printf h j)

  front_of_kept :
      (info : TraceInfo) (g : GroupDebugRt) (time : Timespec)
      → info.status ≡ data_ind
      → info.lin_time ≡ time
      → pending printf info g
        ≡ (info.trace_str, time) ∷ pending printf (record info { status = no_data_ind }) g
  front_of_kept info g time status timed =
      rw status (ap₂ (λ t ls. (info.trace_str, t) ∷ ls) timed refl)

  module _ (size : ℕ) (start : Timespec) (now : ℕ → Timespec) (h : Handler)
      (attached : h.mem_attached ≡ true) (stopped : h.shared.active ≡ false)
      (s : Timespec × Option ℕ × Handler)
      (c : IsScanned printf h start h.shared.num_alloc_groups s) where
    -- The end of the call, for the line noted for group `k`.
    module _ (k : ℕ) (below : k < h.shared.num_alloc_groups) (kept : IsKept printf s.2 k s.0) where
      abbrev r : IsReadyAt printf s.2 k
      r = c.ready k (omega (arith, c.groups))

      same_info : r.info ≡ kept.info
      same_info = some-injective r.info kept.info (sym r.has_info ∙ kept.has_info)

      abbrev given : TraceInfo
      given = record kept.info { status = no_data_ind }

      abbrev after : Handler
      after = updated s.2 k given r.group

      front : Perm (queue printf h k) ((kept.info.trace_str, s.0) ∷ queue printf after k)
      front = Perm.trans (Perm.symm (c.same k)) (
          Perm-of_eq (
            queue_of_ready printf s.2 k r given r.group
            ∙ ap (λ x. pending printf x r.group) same_info
            ∙ front_of_kept kept.info r.group s.0 kept.status kept.timed
            ∙ ap (◌∷◌ (kept.info.trace_str, s.0))
                (sym (queue-updated_self printf s.2 k r given r.group))))

      given-ready : IsGroupReady printf given r.group
      given-ready =
          let p = r.ready in
          record {
            tracer = p.tracer;
            named = p.named;
            ranged = p.ranged;
            printable = p.printable;
            noted = nothing refl;
          }

      pub merged : IsMerged h (some (kept.info.trace_str, s.0), after)
      merged = record {
        takes = record {
          group = k;
          in_use = below;
          taken = front;
          others = λ j ne.
              Perm.trans (Perm.symm (c.same j))
                (Perm-of_eq (sym (queue-updated_ne printf s.2 k r given r.group j ne)));
          bound = c.bound;
        };
        ready = AreReady-updated printf s.2 k r given r.group c.ready given-ready;
        groups = c.groups;
        attached = c.attached ∙ attached;
        stopped = c.active ∙ stopped;
        logs = record {
          last = c.logs.last;
          loggers =
              map-set_same logger_of s.2.shared.debug_groups k r.group r.group r.has_group refl
              ∙ c.logs.loggers;
        };
      }

    none_run :
        s.1 ≡ none
        → trace_loop printf now h.shared.num_alloc_groups 0 (start, none, h) ≡ ok s
        → rtdbg_get_trace_entry printf size start now h ≡ ok (none, s.2)
    unfolding rtdbg_get_trace_entry
    none_run e run = ground (arith, attached, stopped, run, e)

    some_run :
        (k : ℕ) (info : TraceInfo)
        → s.1 ≡ some k
        → get_elem? s.2.grp_trace_res k ≡ some info
        → length info.trace_str < size
        → trace_loop printf now h.shared.num_alloc_groups 0 (start, none, h) ≡ ok s
        → rtdbg_get_trace_entry printf size start now h
          ≡ ok (
            some (info.trace_str, info.lin_time),
            (let h' = s.2 in
                record h' {
                  grp_trace_res = set h'.grp_trace_res k (record info { status = no_data_ind });
                }),
          )
    unfolding rtdbg_get_trace_entry
    some_run k info e at fits run = ground (arith, attached, stopped, run, e, at, fits)

    ending :
        trace_str_size ≤ size
        → AllBefore start h
        → trace_loop printf now h.shared.num_alloc_groups 0 (start, none, h) ≡ ok s
        → (m : Option ℕ) → s.1 ≡ m
        → Chosen printf s.2 start h.shared.num_alloc_groups s.0 m
        → Returns (rtdbg_get_trace_entry printf size start now h) (IsMerged h)
    ending roomy past run m e (unchanged t) =
        let gone : (j : ℕ) → j < h.shared.num_alloc_groups → queue printf h j ≡ [] = λ j below.
          none_left (at_time start) (queue printf h j) (past j below)
            (subst (λ t. From (at_time t) (queue printf h j)) t (c.bound j below)) in
        rw (none_run (e) run) (record {
          takes = record {
            before = gone;
            after = λ j below.
                Perm.eq-nil (subst (Perm (queue printf s.2 j)) (gone j below) (c.same j));
          };
          ready = c.ready;
          groups = c.groups;
          attached = c.attached ∙ attached;
          stopped = c.active ∙ stopped;
          logs = c.logs;
        })
    ending roomy past run m e (improved k below kept before) =
        let r = c.ready k (omega (arith, c.groups)) in
        let gs = set-get_elem? s.2.shared.debug_groups k r.group r.has_group in
        rw (some_run k kept.info e kept.has_info (omega (arith, roomy, kept.fits)) run) (
          subst
            (λ (p : Timespec × List GroupDebugRt). IsMerged h (
              some (kept.info.trace_str, p.0),
              record s.2 {
                grp_trace_res = set s.2.grp_trace_res k (record kept.info { status = no_data_ind });
                shared = record s.2.shared { debug_groups = p.1 };
              },
            ))
            (ap₂ (λ x y. (x, y)) (sym kept.timed) gs) (merged k below kept))

-- RTDBG_GetTraceEntry in an attached process that does not collect data, into a buffer for a whole
-- line, where every group's tracer is valid, its entries print into the handler's buffer, the times
-- are in range, the line that the process holds for a group, if any, fits and is no later than the
-- group's entries, and every line is from before each time that the call reads. The lines of a
-- group are the one held (an empty one in a slot of zeros) and those of its entries with data, or
-- none once the process has noted it as read to its end, whatever was added since. The call never
-- faults and is a merge of the groups' lines by time: it returns false exactly where no group has a
-- line; or else it returns one line of one group than which no line of any group is earlier, takes
-- just that line from its group, and leaves the lines of the other groups. Every group stays ready
-- for the next call.
pub rtdbg_get_trace_entry-IsMerged :
    (printf : Printf) (size : ℕ) (start : Timespec) (now : ℕ → Timespec) (h : Handler)
    → h.mem_attached ≡ true
    → h.shared.active ≡ false
    → InRange start
    → trace_str_size ≤ size
    → AllBefore printf start h
    → ArePast printf now h
    → AreReady printf h
    → Returns (rtdbg_get_trace_entry printf size start now h) (IsMerged printf h)
rtdbg_get_trace_entry-IsMerged printf size start now h attached stopped ranged roomy before past
      all =
    let n = h.shared.num_alloc_groups in
    let begun : IsScanned printf h start 0 (start, none, h) = record {
      same = λ j. Perm.rfl;
      ready = all;
      groups = refl;
      attached = refl;
      active = refl;
      logs = record { last = refl; loggers = refl };
      ranged = ranged;
      chosen = unchanged refl;
      bound = λ j below. elim below [ ];
    } in
    let (s, run, c) =
      Returns-result (trace_loop printf now n 0 (start, none, h)) _
        (loop-IsScanned printf now h start past n 0 (start, none, h) (omega arith) begun) in
    ending printf size start now h attached stopped s c roomy before run s.1 refl c.chosen
