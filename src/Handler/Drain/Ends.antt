-- ===== src/Handler/Drain/Ends.antt =====
-- The log loop of RTDBG_ExtractDebugData comes to its end with every line in order.
use rt_debug_lib.Base.{
  ℕ, zero, suc, ◌≤◌, ◌<◌, ◌≡◌, ◌∙◌, subst, true, Option, none, some, List, [], ◌∷◌, arith, ok,
  Returns, Returns-result,
}
use rt_debug_lib.CString.{CStr}
use rt_debug_lib.Clock.{Timespec, InRange}
use rt_debug_lib.Tracer.Earliest.{at_time}
use rt_debug_lib.Handler.{Handler}
use rt_debug_lib.Handler.Merge.{rtdbg_get_log}
use rt_debug_lib.Handler.Queues.{Line, queue}
use rt_debug_lib.Handler.Updates.{AreReady}
use rt_debug_lib.Handler.LogMerge.{IsMerged, rtdbg_get_log-IsMerged}
use rt_debug_lib.Handler.Drain.{
  all_logs, buf_size, drain_logs, total, total-take, AllBefore, AllFrom, AllFrom-le, IsSorted,
  IsInterleaving, done, take, front-AllFrom, none_before, rest_of, all_in_mask,
}

-- What the loop may rely on before a call, for lines that are all from `floor` on.
pub record IsDrainable (now : ℕ → Timespec) (h : Handler) (floor : ℕ) : Type 0 where
  pub attached : h.mem_attached ≡ true
  pub few : h.shared.num_alloc_groups ≤ 10
  pub ready : AreReady h
  pub sorted : (j : ℕ) → j < h.shared.num_alloc_groups → IsSorted (queue h j)
  pub floored : (j : ℕ) → j < h.shared.num_alloc_groups → AllFrom floor (queue h j)
  pub past : (f j : ℕ) → j < h.shared.num_alloc_groups → AllBefore (at_time (now f)) (queue h j)

pub record IsDrained (h : Handler) (floor : ℕ) (out : List Line × Handler) : Type 0 where
  pub lines : IsInterleaving h.shared.num_alloc_groups (queue h) out.0
  pub ordered : IsSorted out.0
  pub floored : AllFrom floor out.0
  pub empty : (j : ℕ) → j < h.shared.num_alloc_groups → queue out.1 j ≡ []

module _ (now : ℕ → Timespec) (ranged : (f : ℕ) → InRange (now f)) where
  taken-IsDrainable :
      (f floor : ℕ) (h h' : Handler) (text : CStr) (time : Timespec)
      → IsDrainable now h floor
      → IsMerged h (now f) (some (text, time), h')
      → IsDrainable now h' (at_time time)
  taken-IsDrainable f floor h h' text time d m =
      let t = m.takes in
      let n = h.shared.num_alloc_groups in
      let sorted : (j : ℕ) → j < n → IsSorted (queue h' j) =
        rest_of IsSorted (λ x ls p. p.1) n t.group (queue h) (queue h') (text, time) t.in_use
          t.front t.others d.sorted in
      let floored : (j : ℕ) → j < n → AllFrom (at_time time) (queue h' j) =
        rest_of (AllFrom (at_time time)) (λ x ls p. p.1) n t.group (queue h) (queue h') (text, time)
          t.in_use t.front t.others
          (λ j lt. front-AllFrom (at_time time) (queue h j) (d.sorted j lt) (t.bound j lt)) in
      record {
        attached = m.attached;
        few = rw m.groups d.few;
        ready = m.ready;
        sorted = λ j lt. sorted j (rw⁻¹ m.groups lt);
        floored = λ j lt. floored j (rw⁻¹ m.groups lt);
        past = λ g j lt.
            rest_of (AllBefore (at_time (now g))) (λ x ls p. p.1) n t.group (queue h) (queue h')
              (text, time) t.in_use t.front t.others (d.past g) j (rw⁻¹ m.groups lt);
      }

  -- A call that finds no line: every queue is empty.
  nothing-IsDrained :
      (f floor : ℕ) (h h' : Handler)
      → IsDrainable now h floor
      → IsMerged h (now f) (none, h')
      → IsDrained h floor ([], h')
  nothing-IsDrained f floor h h' d m =
      let empty : (j : ℕ) → j < h.shared.num_alloc_groups → queue h j ≡ [] =
        λ j lt. none_before (at_time (now f)) (queue h j) (d.past f j lt) (m.takes.bound j lt) in
      record {
        lines = done empty;
        ordered = tt;
        floored = tt;
        empty = λ j lt. m.takes.same j ∙ empty j lt;
      }

  -- A call that returns a line, before the rest of the loop.
  line-IsDrained :
      (f floor : ℕ) (h h' h'' : Handler) (text : CStr) (time : Timespec) (ls : List Line)
      → IsDrainable now h floor
      → IsMerged h (now f) (some (text, time), h')
      → IsDrained h' (at_time time) (ls, h'')
      → IsDrained h floor ((text, time) ∷ ls, h'')
  line-IsDrained f floor h h' h'' text time ls d m rest =
      let t = m.takes in
      let low : floor ≤ at_time time =
        (subst (AllFrom floor) t.front (d.floored t.group t.in_use)).0 in
      record {
        lines =
            take (queue h') t.group t.in_use t.front t.others
              (subst (λ n. IsInterleaving n (queue h') ls) m.groups rest.lines);
        ordered = (rest.floored, rest.ordered);
        floored = (low, AllFrom-le floor (at_time time) ls low rest.floored);
        empty = λ j lt. rest.empty j (rw m.groups lt);
      }

  -- What the loop promises of handler `h` with `fuel`.
  abbrev Drains : ℕ → ℕ → Handler → Type 0
  Drains fuel floor h =
      IsDrainable now h floor
      → total h.shared.num_alloc_groups (queue h) < fuel
      → Returns (drain_logs fuel now h) (IsDrained h floor)

  drain_more :
      (f floor : ℕ) (h : Handler) (r : Option Line) (h' : Handler)
      → ((low : ℕ) → Drains f low h')
      → IsDrainable now h floor
      → total h.shared.num_alloc_groups (queue h) < suc f
      → rtdbg_get_log buf_size true (now f) all_logs h ≡ ok (r, h')
      → IsMerged h (now f) (r, h')
      → Returns (drain_logs (suc f) now h) (IsDrained h floor)
  unfolding drain_logs
  drain_more f floor h none h' again d lt run m = rw run (nothing-IsDrained f floor h h' d m)
  drain_more f floor h (some (text, time)) h' again d lt run m =
      let t = m.takes in
      let n = h.shared.num_alloc_groups in
      let less : total n (queue h) ≡ suc (total n (queue h')) =
        total-take n t.group (queue h) (queue h') (text, time) t.in_use t.front t.others in
      let (rest, run', c) = Returns-result (drain_logs f now h') _ (
        again (at_time time) (taken-IsDrainable f floor h h' text time d m)
          (rw m.groups (omega arith))) in
      rw (run, run') (line-IsDrained f floor h h' rest.1 text time rest.0 d m c)

  run_drain_logs : (fuel floor : ℕ) (h : Handler) → Drains fuel floor h
  run_drain_logs zero floor h d lt = absurd (omega arith)
  run_drain_logs (suc f) floor h d lt =
      let (out, run, m) = Returns-result (rtdbg_get_log buf_size true (now f) all_logs h) _ (
        rtdbg_get_log-IsMerged all_logs buf_size h (now f) d.attached (ranged f)
          (λ j below. all_in_mask j (omega (arith, d.few))) (omega arith) d.ready) in
      drain_more f floor h out.0 out.1 (λ low. run_drain_logs f low out.1) d lt run m

-- The log loop of RTDBG_ExtractDebugData, in an attached process with at most ten groups whose loggers
-- are valid, whose lines fit into the buffers and are sorted by time within each group, lie from `floor`
-- on and before every time that a call reads: with more fuel than there are lines the loop ends
-- without a fault. It writes every line of every group just once, in an interleaving of the groups'
-- lines that is sorted by time, none of it before `floor`, and leaves every group's lines empty.
pub drain_logs-IsDrained :
    (fuel floor : ℕ) (now : ℕ → Timespec) (h : Handler)
    → ((f : ℕ) → InRange (now f))
    → IsDrainable now h floor
    → total h.shared.num_alloc_groups (queue h) < fuel
    → Returns (drain_logs fuel now h) (IsDrained h floor)
drain_logs-IsDrained fuel floor now h ranged d lt = run_drain_logs now ranged fuel floor h d lt
