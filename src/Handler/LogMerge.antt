-- ===== src/Handler/LogMerge.antt =====
-- RTDBG_GetLog over all groups: a merge of their queues of lines by time.
use rt_debug_lib.Base.{
  ℕ, ◌≤◌, ◌<◌, ◌≡◌, ◌≢◌, refl, ap, ap₂, sym, ◌∙◌, subst, true, false, Option, none, some, List, ◌∷◌,
  length, get_elem?, set, arith, ok, Returns, Returns-result, set-get_elem?,
}
use mathlib.Core.Option.{some-injective}
use rt_debug_lib.CString.{CStr}
use rt_debug_lib.Clock.{Timespec, InRange}
use rt_debug_lib.Tracer.Earliest.{at_time}
use rt_debug_lib.Logger.{log_string_size}
use rt_debug_lib.DebugRt.{GroupDebugRt}
use rt_debug_lib.Handler.{Handler, LogSortData}
use rt_debug_lib.Handler.Merge.{in_mask, log_loop, rtdbg_get_log}
use rt_debug_lib.Handler.Queues.{Line, pending, queue, IsGroupReady, IsReadyAt, updated}
use rt_debug_lib.Handler.Updates.{
  FrontFrom, AreReady, queue-updated_self, queue-updated_ne, queue_of_ready, AreReady-updated,
}
use rt_debug_lib.Handler.Scan.{
  IsKept, Chosen, unchanged, improved, IsScanned, front_of_kept, ready_without_front,
  loop-IsScanned,
}

-- What RTDBG_GetLog promises at time `now`: nothing where no queue has a line from before `now` at its
-- front, or else the front line of a queue than which no other front is earlier, which leaves its
-- queue; every other line stays.
pub record IsUnchanged (h h' : Handler) (now : Timespec) : Type 0 where
  pub bound : (j : ℕ) → j < h.shared.num_alloc_groups → FrontFrom (at_time now) (queue h j)
  pub same : (j : ℕ) → queue h' j ≡ queue h j

pub record IsTaken (h h' : Handler) (now : Timespec) (text : CStr) (time : Timespec) : Type 0 where
  pub group : ℕ
  pub in_use : group < h.shared.num_alloc_groups
  pub front : queue h group ≡ (text, time) ∷ queue h' group
  pub others : (j : ℕ) → group ≢ j → queue h' j ≡ queue h j
  pub before : at_time time < at_time now
  pub bound : (j : ℕ) → j < h.shared.num_alloc_groups → FrontFrom (at_time time) (queue h j)

abbrev pub Takes : Handler → Timespec → Option Line → Handler → Type 0
Takes h now none h' = IsUnchanged h h' now
Takes h now (some (text, time)) h' = IsTaken h h' now text time

pub record IsMerged (h : Handler) (now : Timespec) (out : Option Line × Handler) : Type 0 where
  pub takes : Takes h now out.0 out.1
  pub ready : AreReady out.1
  pub groups : out.1.shared.num_alloc_groups ≡ h.shared.num_alloc_groups
  pub attached : out.1.mem_attached ≡ true

module _ (mask size : ℕ) (h : Handler) (now : Timespec) (attached : h.mem_attached ≡ true)
    (s : Timespec × Option ℕ × Handler) (c : IsScanned h now h.shared.num_alloc_groups s) where
  -- The end of the call, for the line kept for group `k`.
  module _ (k : ℕ) (below : k < h.shared.num_alloc_groups) (kept : IsKept s.2 k s.0)
      (before : at_time s.0 < at_time now) (roomy : log_string_size ≤ size) where
    abbrev l : LogSortData
    l = kept.last

    abbrev r : IsReadyAt s.2 k
    r = c.ready k (omega (arith, c.groups))

    same_last : r.last ≡ l
    same_last = some-injective r.last l (sym r.has_last ∙ kept.has_last)

    abbrev given : LogSortData
    given = record l { valid = false }

    abbrev after : Handler
    after = updated s.2 k given r.group

    front : queue h k ≡ (l.log_str, s.0) ∷ queue after k
    front =
        sym (c.same k)
        ∙ queue_of_ready s.2 k r given r.group
        ∙ ap (λ x. pending x r.group) same_last
        ∙ front_of_kept l r.group s.0 (queue after k) kept.valid kept.timed
            (queue-updated_self s.2 k r given r.group)

    given-ready : (length l.log_str < log_string_size) × IsGroupReady given r.group
    given-ready =
        ready_without_front l r.group kept.valid
          (subst (λ x. IsGroupReady x r.group) same_last r.ready)

    pub merged : IsMerged h now (some (l.log_str, s.0), after)
    merged = record {
      takes = record {
        group = k;
        in_use = below;
        front = front;
        others = λ j ne. queue-updated_ne s.2 k r given r.group j ne ∙ c.same j;
        before = before;
        bound = c.bound;
      };
      ready = AreReady-updated s.2 k r given r.group c.ready given-ready.1;
      groups = c.groups;
      attached = c.attached ∙ attached;
    }

  none_run :
      s.1 ≡ none
      → log_loop mask h.shared.num_alloc_groups 0 (now, none, h) ≡ ok s
      → rtdbg_get_log size true now mask h ≡ ok (none, s.2)
  unfolding rtdbg_get_log
  none_run e run = ground (arith, attached, run, e)

  some_run :
      (k : ℕ) (l : LogSortData)
      → s.1 ≡ some k
      → get_elem? s.2.grp_logs_last k ≡ some l
      → length l.log_str < size
      → log_loop mask h.shared.num_alloc_groups 0 (now, none, h) ≡ ok s
      → rtdbg_get_log size true now mask h
        ≡ ok (
          some (l.log_str, l.linux_time),
          (let h' = s.2 in
              record h' { grp_logs_last = set h'.grp_logs_last k (record l { valid = false }) }),
        )
  unfolding rtdbg_get_log
  some_run k l e at fits run = ground (arith, attached, run, e, at, fits)

  ending :
      log_string_size ≤ size
      → log_loop mask h.shared.num_alloc_groups 0 (now, none, h) ≡ ok s
      → (m : Option ℕ) → s.1 ≡ m
      → Chosen s.2 now h.shared.num_alloc_groups s.0 m
      → Returns (rtdbg_get_log size true now mask h) (IsMerged h now)
  ending roomy run m e (unchanged t) = rw (none_run (e) run) (record {
    takes = record { bound = λ j below. rw⁻¹ t (c.bound j below); same = c.same };
    ready = c.ready;
    groups = c.groups;
    attached = c.attached ∙ attached;
  })
  ending roomy run m e (improved k below kept before) =
      let r = c.ready k (omega (arith, c.groups)) in
      let gs = set-get_elem? s.2.shared.debug_groups k r.group r.has_group in
      let fits : length kept.last.log_str < size =
        omega (arith, roomy, (given-ready k below kept before roomy).0) in
      rw (some_run k kept.last e kept.has_last fits run) (
        subst
          (λ (p : Timespec × List GroupDebugRt). IsMerged h now (
            some (kept.last.log_str, p.0),
            record s.2 {
              grp_logs_last = set s.2.grp_logs_last k (record kept.last { valid = false });
              shared = record s.2.shared { debug_groups = p.1 };
            },
          ))
          (ap₂ (λ x y. (x, y)) (sym kept.timed) gs) (merged k below kept before roomy))

-- RTDBG_GetLog in an attached process, with a mask that holds every group in use, a time in range
-- and a buffer for a whole line, where every group's logger is valid and every line fits into the
-- handler's buffer: it never faults and is a merge of the groups' lines by time. It returns false
-- and drops no line where no group's next line is from before now; or else it returns the next line
-- of a group than which no group's next line is earlier, takes it from that group's lines, and leaves
-- the lines of all others. Every group stays ready for the next call.
pub rtdbg_get_log-IsMerged :
    (mask size : ℕ) (h : Handler) (now : Timespec)
    → h.mem_attached ≡ true
    → InRange now
    → ((j : ℕ) → j < h.shared.num_alloc_groups → in_mask mask j ≡ true)
    → log_string_size ≤ size
    → AreReady h
    → Returns (rtdbg_get_log size true now mask h) (IsMerged h now)
rtdbg_get_log-IsMerged mask size h now attached hn masked roomy all =
    let start : IsScanned h now 0 (now, none, h) = record {
      same = λ j. refl;
      ready = all;
      groups = refl;
      attached = refl;
      ranged = hn;
      chosen = unchanged refl;
      bound = λ j below. elim below [ ];
    } in
    let (s, run, c) = Returns-result (log_loop mask h.shared.num_alloc_groups 0 (now, none, h)) _ (
      loop-IsScanned mask h now h.shared.num_alloc_groups 0 (now, none, h) masked (omega arith)
        start) in
    ending mask size h now attached s c roomy run s.1 refl c.chosen
