-- ===== src/Handler/Queues.antt =====
-- What RTDBG_GetLog reads: for every group a queue of lines, the line kept from the last call and
-- then the lines of the group's logger. Taking a line out of the logger leaves the queue as it is.
use rt_debug_lib.Base.{
  ℕ, ◌<◌, ◌≡◌, inl, inr, refl, ap, sym, ◌∙◌, subst, true, false, ◌&&◌, Bool-cases, if◌then◌else◌,
  Option, none, some, List, [], ◌∷◌, ◌++◌, map, length, get_elem?, set, arith, ok, Returns-result,
  set-get_elem?,
}
use rt_debug_lib.CString.{CStr}
use rt_debug_lib.Clock.{Timespec, InRange, is_positive, diff_between_timespec}
use rt_debug_lib.Counters.{trace_string_size}
use rt_debug_lib.Logger.{LogEntry, LogGroup, log_string_size, log_line, get_log_entry}
use rt_debug_lib.Logger.Laws.{IsLogGroup, logs}
use rt_debug_lib.Logger.Extract.{HeadFits, take_log, length-log_line, get_log_entry_lem}
use rt_debug_lib.DebugRt.{GroupDebugRt, get_debug_grp}
use rt_debug_lib.Handler.{Handler, LogSortData, with_group}
use rt_debug_lib.Handler.Merge.{in_mask, log_step}

abbrev pub Line : Type 0
Line = CStr × Timespec

abbrev pub line_of : CStr → LogEntry → Line
line_of group_name e = (log_line group_name e, e.linux_time)

abbrev kept : LogSortData → List Line
kept l = if l.valid then (l.log_str, l.linux_time) ∷ [] else []

abbrev pub pending : LogSortData → GroupDebugRt → List Line
pending l g = kept l ++ map (line_of g.logger.group_name) (logs g.logger)

abbrev pub pending_at : Option LogSortData → Option GroupDebugRt → List Line
pending_at (some l) (some g) = pending l g
pending_at _ _ = []

-- The lines of group `i` that RTDBG_GetLog has still to return.
abbrev pub queue : Handler → ℕ → List Line
queue h i = pending_at (get_elem? h.grp_logs_last i) (get_elem? h.shared.debug_groups i)

-- Every line fits into the handler's buffer, and its time is in range.
abbrev pub AllFit : List Line → Type 0
AllFit [] = Unit {0}
AllFit ((text, time) ∷ ls) = (length text < log_string_size) × InRange time × AllFit ls

pub record IsGroupReady (l : LogSortData) (g : GroupDebugRt) : Type 0 where
  pub logger : IsLogGroup g.logger
  pub named : length g.logger.group_name < trace_string_size
  pub fit : AllFit (pending l g)

-- Group `i` of the handler, with what is kept for it.
pub record IsReadyAt (h : Handler) (i : ℕ) : Type 0 where
  pub last : LogSortData
  pub group : GroupDebugRt
  pub has_last : get_elem? h.grp_logs_last i ≡ some last
  pub has_group : get_elem? h.shared.debug_groups i ≡ some group
  pub ready : IsGroupReady last group

abbrev pub updated : Handler → ℕ → LogSortData → GroupDebugRt → Handler
updated h i l g =
    let d = h.shared in
    record h {
      grp_logs_last = set h.grp_logs_last i l;
      shared = record d { debug_groups = set d.debug_groups i g };
    }

-- What one round of the loop leaves for its group: the same lines, the first of them in the handler.
pub record IsFetched (l : LogSortData) (g : GroupDebugRt) (l' : LogSortData) (g' : GroupDebugRt)
    : Type 0 where
  pub same : pending l' g' ≡ pending l g
  pub front : l'.valid ≡ false → pending l g ≡ []
  pub ready : IsGroupReady l' g'

HeadFits-of_AllFit :
    (name : CStr) (es : List LogEntry)
    → AllFit (map (line_of name) es)
    → HeadFits log_string_size name es
HeadFits-of_AllFit name [] h = tt
HeadFits-of_AllFit name (e ∷ es) h = (omega (arith, length-log_line name e, h.0), h.0)

-- The test and the choice that end a round.
abbrev pub choose : Timespec → Option ℕ → ℕ → LogSortData → Timespec × Option ℕ
choose min_time min_index i l =
    let better = l.valid && is_positive (diff_between_timespec min_time l.linux_time) in
    (if better then l.linux_time else min_time, if better then some i else min_index)

module _ (mask i : ℕ) (h : Handler) (min_time : Timespec) (min_index : Option ℕ)
    (masked : in_mask mask i ≡ true) (below : i < h.shared.num_alloc_groups)
    (r : IsReadyAt h i) where
  open r use {last, group, has_last, has_group, ready}

  abbrev Round : Type 0
  Round =
      (l' : LogSortData) × (g' : GroupDebugRt) × IsFetched last group l' g'
      × (log_step mask i (min_time, min_index, h)
          ≡ ok (
            (choose min_time min_index i l').0,
            (choose min_time min_index i l').1,
            updated h i l' g',
          ))

  keep : last.valid ≡ true → Round
  unfolding log_step
  keep e =
      let gs : set h.shared.debug_groups i group ≡ h.shared.debug_groups =
        set-get_elem? h.shared.debug_groups i group has_group in
      (
        last,
        group,
        record { same = refl; front = λ f. cc; ready = ready },
        ground (arith, e, masked, has_last, gs),
      )

  logger_fit :
      last.valid ≡ false → AllFit (map (line_of group.logger.group_name) (logs group.logger))
  logger_fit e =
      subst
        (λ b. AllFit (
          (if b then (last.log_str, last.linux_time) ∷ [] else [])
          ++ map (line_of group.logger.group_name) (logs group.logger)))
        e ready.fit

  -- The step, given what GetLogEntry does.
  module _ (e : last.valid ≡ false) (l : LogGroup) where
    abbrev logged : GroupDebugRt
    logged = record group { logger = l }

    none_run :
        get_log_entry log_string_size group.logger ≡ ok (none, l)
        → log_step mask i (min_time, min_index, h)
          ≡ ok (min_time, min_index, updated h i (record last { valid = false }) logged)
    unfolding log_step with_group get_debug_grp
    none_run run = ground (arith, e, masked, below, has_last, has_group, run)

    some_run :
        (text : CStr) (time : Timespec)
        → get_log_entry log_string_size group.logger ≡ ok (some (text, time), l)
        → let l' : LogSortData = record { linux_time = time; log_str = text; valid = true } in
          log_step mask i (min_time, min_index, h)
          ≡ ok (
            (choose min_time min_index i l').0,
            (choose min_time min_index i l').1,
            updated h i l' logged,
          )
    unfolding log_step with_group get_debug_grp
    some_run text time run = ground (arith, e, masked, below, has_last, has_group, run)

    fetched :
        (l' : LogSortData)
        → IsLogGroup l
        → l.group_name ≡ group.logger.group_name
        → kept l' ++ map (line_of group.logger.group_name) (logs l)
          ≡ map (line_of group.logger.group_name) (logs group.logger)
        → (l'.valid ≡ false → logs group.logger ≡ [])
        → IsFetched last group l' logged
    fetched l' v same_name lines front =
        let same : pending l' logged ≡ pending last group = rw (same_name, e) lines in
        record {
          same = same;
          front = λ f. rw (e, front f);
          ready = record {
            logger = v;
            named = rw same_name ready.named;
            fit = subst AllFit (sym same) ready.fit;
          };
        }

  take : last.valid ≡ false → Round
  take e =
      let ((r, l), run, (v, same_name, taken)) =
        Returns-result (get_log_entry log_string_size group.logger) _ (
          get_log_entry_lem log_string_size group.logger ready.logger ready.named
            (HeadFits-of_AllFit group.logger.group_name (logs group.logger) (logger_fit e))) in
      by_logs (logs group.logger) refl r l run v same_name taken
    where
      by_logs :
          (es : List LogEntry)
          → logs group.logger ≡ es
          → (r : Option Line) (l : LogGroup)
          → get_log_entry log_string_size group.logger ≡ ok (r, l)
          → IsLogGroup l
          → l.group_name ≡ group.logger.group_name
          → (r, logs l) ≡ take_log group.logger.group_name (logs group.logger)
          → Round
      by_logs [] empty r l run v same_name taken = (
        record last { valid = false },
        logged e l,
        fetched e l (record last { valid = false }) v same_name
            (ap (map (line_of group.logger.group_name))
              (ap (λ p. p.1) (taken ∙ ap (take_log group.logger.group_name) empty) ∙ sym empty))
            (λ _. empty),
        none_run e l (
            run
            ∙ ap (λ x. ok (x, l))
                (ap (λ p. p.0) (taken ∙ ap (take_log group.logger.group_name) empty))),
      )
      by_logs (x ∷ es) head r l run v same_name taken =
          let l' : LogSortData = record {
            linux_time = x.linux_time;
            log_str = log_line group.logger.group_name x;
            valid = true;
          } in
          let q = taken ∙ ap (take_log group.logger.group_name) head in
          (
            l',
            logged e l,
            fetched e l l' v same_name
                (ap
                    (λ k.
                      line_of group.logger.group_name x ∷ map (line_of group.logger.group_name) k)
                    (ap (λ p. p.1) q)
                  ∙ ap (map (line_of group.logger.group_name)) (sym head))
                (λ f. cc),
            some_run e l (log_line group.logger.group_name x) x.linux_time
                (run ∙ ap (λ y. ok (y, l)) (ap (λ p. p.0) q)),
          )

  pub round : Round
  round = elim (Bool-cases last.valid) [ inl e ↦ keep e | inr e ↦ take e ]
