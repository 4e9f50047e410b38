-- ===== src/Handler/Traces/Drain.antt =====
-- The trace loop of RTDBG_ExtractDebugData: while (RTDBG_GetTraceEntry(…) == true).
use native.Mathlib.Bridge.{le_prop}
use native.Mathlib.Nat.{ℕ_set}
use mathlib.Core.Logic.{∥∥₁_elim}
use mathlib.Core.Logic.Or
use mathlib.Core.List.{Perm, Permᴰ, mem-append, mem-cons_self, mem-cons_of_mem, perm_middle}
use mathlib.Core.List.Perm
use rt_debug_lib.Base.{
  ℕ, zero, suc, ◌<◌, ◌≡◌, ◌≢◌, refl, ap, sym, ◌∙◌, subst, true, false, Option, none, some, List, [],
  ◌∷◌, ◌++◌, length, arith, ok, Returns, Returns-result, ℕ_discrete,
}
use rt_debug_lib.CString.{CStr}
use rt_debug_lib.Clock.{Timespec, InRange}
use rt_debug_lib.Tracer.{Printf}
use rt_debug_lib.Tracer.Earliest.{at_time}
use rt_debug_lib.Handler.{Handler}
use rt_debug_lib.Handler.Merge.{rtdbg_get_trace_entry}
use rt_debug_lib.Handler.Queues.{Line}
use rt_debug_lib.Handler.Drain.{buf_size, AllFrom, IsSorted}
use rt_debug_lib.Handler.Extract.{drain_traces}
use rt_debug_lib.Handler.Traces.{
  SameLogs, From, Before, From-perm, From-tail, Before-perm, none_From, queue,
}
use rt_debug_lib.Handler.Traces.Scan.{AreReady, ArePast}
use rt_debug_lib.Handler.Traces.Merge.{IsMerged, IsTaken, AllBefore, rtdbg_get_trace_entry-IsMerged}

-- The lines of the groups below `n`.
abbrev pub all_lines : ℕ → (ℕ → List Line) → List Line
all_lines zero q = []
all_lines (suc n) q = all_lines n q ++ q n

all_lines-same :
    (n : ℕ) (q r : ℕ → List Line)
    → ((j : ℕ) → j < n → Perm (q j) (r j))
    → Perm (all_lines n q) (all_lines n r)
all_lines-same zero q r h = Perm.nil
all_lines-same (suc n) q r h =
    Perm.append (all_lines-same n q r (λ j below. h j (omega arith))) (h n (omega arith))

all_lines-take :
    (n k : ℕ) (q r : ℕ → List Line) (x : Line)
    → k < n
    → Perm (q k) (x ∷ r k)
    → ((j : ℕ) → k ≢ j → Perm (q j) (r j))
    → Perm (all_lines n q) (x ∷ all_lines n r)
all_lines-take zero k q r x below taken others = elim below [ ]
all_lines-take (suc n) k q r x below taken others = elim (ℕ_discrete k n) [
  | no ne ↦ Perm.append (all_lines-take n k q r x (omega arith) taken others) (others n ne)
  | yes e ↦
      let same : Perm (all_lines n q) (all_lines n r) =
        all_lines-same n q r (λ j lt. others j (λ f. omega arith)) in
      let here : Perm (q n) (x ∷ r n) = subst (λ i. Perm (q i) (x ∷ r i)) e taken in
      Perm.trans (Perm.append same here) (perm_middle (all_lines n r) (r n))
]

all_lines-From :
    (b n : ℕ) (q : ℕ → List Line) → ((j : ℕ) → j < n → From b (q j)) → From b (all_lines n q)
all_lines-From b zero q h = none_From b
all_lines-From b (suc n) q h = λ x m.
    Or.elim le_prop (mem-append.0 m) (all_lines-From b n q (λ j below. h j (omega arith)) x)
      (h n (omega arith) x)

all_lines-empty : (n : ℕ) (q : ℕ → List Line) → ((j : ℕ) → j < n → q j ≡ []) → all_lines n q ≡ []
all_lines-empty zero q h = refl
all_lines-empty (suc n) q h =
    rw (all_lines-empty n q (λ j below. h j (omega arith)), h n (omega arith)) refl

AllFrom-of_From : (b : ℕ) (ls : List Line) → From b ls → AllFrom b ls
AllFrom-of_From b [] h = tt
AllFrom-of_From b (x ∷ ls) h = (h x mem-cons_self, AllFrom-of_From b ls (From-tail h))

Permᴰ-length : {ls ks : List Line} → Permᴰ ls ks → length ls ≡ length ks
Permᴰ-length Permᴰ.nil = refl
Permᴰ-length (Permᴰ.cons _ p) = ap suc (Permᴰ-length p)
Permᴰ-length (Permᴰ.swap _ _) = refl
Permᴰ-length (Permᴰ.trans p q) = Permᴰ-length p ∙ Permᴰ-length q

length-perm : {ls ks : List Line} → Perm ls ks → length ls ≡ length ks
length-perm p = ∥∥₁_elim p (ℕ_set _ _) Permᴰ-length

module _ (printf : Printf) where
  abbrev pub lines_left : Handler → List Line
  lines_left h = all_lines h.shared.num_alloc_groups (queue printf h)

  -- What the loop may rely on before a call.
  pub record IsDrainable (min_time : ℕ → Timespec) (now : ℕ → ℕ → Timespec) (h : Handler)
      : Type 0 where
    pub attached : h.mem_attached ≡ true
    pub stopped : h.shared.active ≡ false
    pub ready : AreReady printf h
    pub before : (f : ℕ) → AllBefore printf (min_time f) h
    pub past : (f : ℕ) → ArePast printf (now f) h

  pub record IsDrained (h : Handler) (out : List Line × Handler) : Type 0 where
    pub lines : Perm (lines_left h) out.0
    pub ordered : IsSorted out.0
    pub empty : (j : ℕ) → j < out.1.shared.num_alloc_groups → queue printf out.1 j ≡ []
    pub groups : out.1.shared.num_alloc_groups ≡ h.shared.num_alloc_groups
    pub attached : out.1.mem_attached ≡ true
    pub logs : SameLogs h out.1

  -- A call leaves no line that was not there.
  less-Before :
      (bound : ℕ) (h h' : Handler) (text : CStr) (time : Timespec)
      → IsTaken printf h h' text time
      → (j : ℕ) → j < h.shared.num_alloc_groups
      → Before bound (queue printf h j)
      → Before bound (queue printf h' j)
  less-Before bound h h' text time t j below before = elim (ℕ_discrete t.group j) [
    | no ne ↦ Before-perm (t.others j ne) before
    | yes e ↦
        let taken : Perm (queue printf h j) ((text, time) ∷ queue printf h' j) =
          subst (λ k. Perm (queue printf h k) ((text, time) ∷ queue printf h' k)) e t.taken in
        λ x m. Before-perm taken before x (mem-cons_of_mem (text, time) m)
  ]

  module _ (min_time : ℕ → Timespec) (now : ℕ → ℕ → Timespec)
      (ranged : (f : ℕ) → InRange (min_time f)) where
    taken-IsDrainable :
        (h h' : Handler) (text : CStr) (time : Timespec)
        → IsDrainable min_time now h
        → IsMerged printf h (some (text, time), h')
        → IsDrainable min_time now h'
    taken-IsDrainable h h' text time d m = record {
      attached = m.attached;
      stopped = m.stopped;
      ready = m.ready;
      before = λ f j below.
          let lt : j < h.shared.num_alloc_groups = rw⁻¹ m.groups below in
          less-Before (at_time (min_time f)) h h' text time m.takes j lt (d.before f j lt);
      past = λ f j below.
          let lt : j < h.shared.num_alloc_groups = rw⁻¹ m.groups below in
          let p = d.past f j lt in
          (p.0, less-Before (at_time (now f j)) h h' text time m.takes j lt p.1);
    }

    nothing-IsDrained : (h h' : Handler) → IsMerged printf h (none, h') → IsDrained h ([], h')
    nothing-IsDrained h h' m = record {
      lines =
          rw (all_lines-empty h.shared.num_alloc_groups (queue printf h) m.takes.before) Perm.nil;
      ordered = tt;
      empty = λ j below. m.takes.after j (rw⁻¹ m.groups below);
      groups = m.groups;
      attached = m.attached;
      logs = m.logs;
    }

    lines-taken :
        (h h' : Handler) (text : CStr) (time : Timespec)
        → IsMerged printf h (some (text, time), h')
        → Perm (lines_left h) ((text, time) ∷ lines_left h')
    lines-taken h h' text time m =
        let t = m.takes in
        subst (λ n. Perm (lines_left h) ((text, time) ∷ all_lines n (queue printf h')))
          (sym m.groups)
          (all_lines-take h.shared.num_alloc_groups t.group (queue printf h) (queue printf h')
            (text, time) t.in_use t.taken t.others)

    line-IsDrained :
        (h h' h'' : Handler) (text : CStr) (time : Timespec) (ls : List Line)
        → IsMerged printf h (some (text, time), h')
        → IsDrained h' (ls, h'')
        → IsDrained h ((text, time) ∷ ls, h'')
    line-IsDrained h h' h'' text time ls m rest =
        let whole : Perm (lines_left h) ((text, time) ∷ ls) =
          Perm.trans (lines-taken h h' text time m) (Perm.cons (text, time) rest.lines) in
        let low : From (at_time time) (lines_left h) =
          all_lines-From (at_time time) h.shared.num_alloc_groups (queue printf h) m.takes.bound in
        record {
          lines = whole;
          ordered =
              (AllFrom-of_From (at_time time) ls (From-tail (From-perm whole low)), rest.ordered);
          empty = rest.empty;
          groups = rest.groups ∙ m.groups;
          attached = rest.attached;
          logs = record {
            last = rest.logs.last ∙ m.logs.last;
            loggers = rest.logs.loggers ∙ m.logs.loggers;
          };
        }

    abbrev Drains : ℕ → Handler → Type 0
    Drains fuel h =
        IsDrainable min_time now h
        → length (lines_left h) < fuel
        → Returns (drain_traces fuel printf min_time now h) (IsDrained h)

    drain_more :
        (f : ℕ) (h : Handler) (r : Option Line) (h' : Handler)
        → Drains f h'
        → IsDrainable min_time now h
        → length (lines_left h) < suc f
        → rtdbg_get_trace_entry printf buf_size (min_time f) (now f) h ≡ ok (r, h')
        → IsMerged printf h (r, h')
        → Returns (drain_traces (suc f) printf min_time now h) (IsDrained h)
    unfolding drain_traces
    drain_more f h none h' again d lt run m = rw run (nothing-IsDrained h h' m)
    drain_more f h (some (text, time)) h' again d lt run m =
        let less : length (lines_left h) ≡ suc (length (lines_left h')) =
          length-perm (lines-taken h h' text time m) in
        let (rest, run', c) =
          Returns-result (drain_traces f printf min_time now h') _
            (again (taken-IsDrainable h h' text time d m) (omega arith)) in
        rw (run, run') (line-IsDrained h h' rest.1 text time rest.0 m c)

    run_drain_traces : (fuel : ℕ) (h : Handler) → Drains fuel h
    run_drain_traces zero h d lt = absurd (omega arith)
    run_drain_traces (suc f) h d lt =
        let (out, run, m) =
          Returns-result (rtdbg_get_trace_entry printf buf_size (min_time f) (now f) h) _ (
            rtdbg_get_trace_entry-IsMerged printf buf_size (min_time f) (now f) h d.attached
              d.stopped (ranged f) (omega arith) (d.before f) (d.past f) d.ready) in
        drain_more f h out.0 out.1 (run_drain_traces f out.1) d lt run m

-- The trace loop of RTDBG_ExtractDebugData, in an attached process that does not collect data,
-- where every group's tracer is valid, its entries print into the handler's buffer, the line that
-- the process holds for a group, if any, fits and is no later than the group's entries, and all
-- lines are from before every time that a call reads. The lines of a group are the one held (an
-- empty one in a slot of zeros) and those of its entries with data, or none once the process has
-- noted it as read to its end, whatever was added since. With more fuel than there are lines the
-- loop ends without a fault, writes the lines of all groups, each just once, sorted by time, and
-- leaves no line in any group.
pub drain_traces-IsDrained :
    (printf : Printf) (fuel : ℕ) (min_time : ℕ → Timespec) (now : ℕ → ℕ → Timespec) (h : Handler)
    → ((f : ℕ) → InRange (min_time f))
    → IsDrainable printf min_time now h
    → length (lines_left printf h) < fuel
    → Returns (drain_traces fuel printf min_time now h) (IsDrained printf h)
drain_traces-IsDrained printf fuel min_time now h ranged d lt =
    run_drain_traces printf min_time now ranged fuel h d lt
