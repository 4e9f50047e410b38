-- ===== src/Handler/Scan.antt =====
-- The loop of RTDBG_GetLog over the groups, on their queues of lines.
use rt_debug_lib.Base.{
  ℕ, zero, suc, ◌+◌, ◌≤◌, ◌<◌, ◌≡◌, inl, inr, refl, ap₂, sym, ◌∙◌, subst, true, false, Bool-cases,
  Option, none, some, List, [], ◌∷◌, length, get_elem?, arith, Returns, Returns-result,
  get_elem?-set_ne, dec_lt,
}
use rt_debug_lib.Clock.{
  Timespec, InRange, is_positive, diff_between_timespec, diff_between_timespec-order,
}
use rt_debug_lib.Tracer.Earliest.{at_time}
use rt_debug_lib.Logger.{log_string_size}
use rt_debug_lib.DebugRt.{GroupDebugRt}
use rt_debug_lib.Handler.{Handler, LogSortData}
use rt_debug_lib.Handler.Merge.{in_mask, log_step, log_loop}
use rt_debug_lib.Handler.Queues.{
  Line, pending, queue, AllFit, IsGroupReady, IsReadyAt, updated, IsFetched, choose, round,
}
use rt_debug_lib.Handler.Updates.{
  last-updated, FrontFrom, AreReady, queue_of_ready, queue-updated, AreReady-updated,
}

-- The handler keeps the front line of group `j`.
pub record IsKept (h : Handler) (j : ℕ) (time : Timespec) : Type 0 where
  pub last : LogSortData
  pub has_last : get_elem? h.grp_logs_last j ≡ some last
  pub valid : last.valid ≡ true
  pub timed : last.linux_time ≡ time

-- The outcome of the rounds before `i`, begun at time `now` in `h`.
pub data Chosen (h : Handler) (now : Timespec) (i : ℕ) (min_time : Timespec)
    : Option ℕ → Type 0 where
  unchanged : min_time ≡ now → Chosen h now i min_time none
  improved :
      (k : ℕ)
      → k < i
      → IsKept h k min_time
      → at_time min_time < at_time now
      → Chosen h now i min_time (some k)

pub record IsScanned (h : Handler) (now : Timespec) (i : ℕ) (s : Timespec × Option ℕ × Handler)
    : Type 0 where
  pub same : (j : ℕ) → queue s.2 j ≡ queue h j
  pub ready : AreReady s.2
  pub groups : s.2.shared.num_alloc_groups ≡ h.shared.num_alloc_groups
  pub attached : s.2.mem_attached ≡ h.mem_attached
  pub ranged : InRange s.0
  pub chosen : Chosen s.2 now i s.0 s.1
  pub bound : (j : ℕ) → j < i → FrontFrom (at_time s.0) (queue h j)

FrontFrom-le : (a b : ℕ) (ls : List Line) → a ≤ b → FrontFrom b ls → FrontFrom a ls
FrontFrom-le a b [] le front = tt
FrontFrom-le a b ((text, time) ∷ ls) le front = omega arith

-- The lines of a group whose front line is kept, and those of one for which nothing is.
front_of_valid :
    (l : LogSortData) (g : GroupDebugRt)
    → l.valid ≡ true
    → pending l g ≡ (l.log_str, l.linux_time) ∷ pending (record l { valid = false }) g
front_of_valid l g e = rw e refl

pub front_of_kept :
    (l : LogSortData) (g : GroupDebugRt) (time : Timespec) (tail : List Line)
    → l.valid ≡ true
    → l.linux_time ≡ time
    → tail ≡ pending (record l { valid = false }) g
    → pending l g ≡ (l.log_str, time) ∷ tail
front_of_kept l g time tail valid timed q =
    front_of_valid l g valid ∙ ap₂ (λ t ls. (l.log_str, t) ∷ ls) timed (sym q)

pub ready_without_front :
    (l : LogSortData) (g : GroupDebugRt)
    → l.valid ≡ true
    → IsGroupReady l g
    → (length l.log_str < log_string_size) × IsGroupReady (record l { valid = false }) g
ready_without_front l g valid r =
    let fit = subst AllFit (front_of_valid l g valid) r.fit in
    (fit.0, record { logger = r.logger; named = r.named; fit = fit.2 })

module _ (h : Handler) (now : Timespec) (i : ℕ) (s : Timespec × Option ℕ × Handler)
    (c : IsScanned h now i s) (r : IsReadyAt s.2 i) (l' : LogSortData) (g' : GroupDebugRt)
    (f : IsFetched r.last r.group l' g') where
  abbrev h' : Handler
  h' = updated s.2 i l' g'

  Chosen-later : (t : Timespec) (m : Option ℕ) → Chosen s.2 now i t m → Chosen h' now (i + 1) t m
  Chosen-later t m (unchanged e) = unchanged e
  Chosen-later t m (improved k below kept before) =
      improved k (omega arith)
        (record {
          last = kept.last;
          has_last = get_elem?-set_ne s.2.grp_logs_last i k l' (λ e. omega arith) ∙ kept.has_last;
          valid = kept.valid;
          timed = kept.timed;
        })
        before

  Chosen-le : (t : Timespec) (m : Option ℕ) → Chosen s.2 now i t m → at_time t ≤ at_time now
  Chosen-le t m (unchanged e) = rw e (omega arith)
  Chosen-le t m (improved k below kept before) = omega arith

  queue_here : queue h i ≡ pending l' g'
  queue_here = sym (c.same i) ∙ queue_of_ready s.2 i r l' g' ∙ sym f.same

  finish :
      (t : Timespec) (m : Option ℕ)
      → InRange t
      → Chosen h' now (i + 1) t m
      → at_time t ≤ at_time s.0
      → FrontFrom (at_time t) (queue h i)
      → IsScanned h now (i + 1) (t, m, h')
  finish t m ranged chosen le front = record {
    same = λ j. queue-updated s.2 i r l' g' f j ∙ c.same j;
    ready = AreReady-updated s.2 i r l' g' c.ready f.ready;
    groups = c.groups;
    attached = c.attached;
    ranged = ranged;
    chosen = chosen;
    bound = λ j below. elim (dec_lt j i) [
      | yes before ↦ FrontFrom-le (at_time t) (at_time s.0) (queue h j) le (c.bound j before)
      | no after ↦
          let e : i ≡ j = omega arith in subst (λ k. FrontFrom (at_time t) (queue h k)) e front
    ];
  }

  -- Nothing is kept, the kept line is not earlier, or it is the new choice.
  skip_empty : l'.valid ≡ false → IsScanned h now (i + 1) (s.0, s.1, h')
  skip_empty e =
      let none_left : queue h i ≡ [] = queue_here ∙ f.same ∙ f.front e in
      finish s.0 s.1 c.ranged (Chosen-later s.0 s.1 c.chosen) (omega arith) (rw none_left tt)

  line_time : l'.valid ≡ true → InRange l'.linux_time
  line_time e = let q = front_of_valid l' g' e in (subst AllFit q f.ready.fit).1

  skip_later :
      l'.valid ≡ true → at_time s.0 ≤ at_time l'.linux_time → IsScanned h now (i + 1) (s.0, s.1, h')
  skip_later e late =
      let q = front_of_valid l' g' e in
      finish s.0 s.1 c.ranged (Chosen-later s.0 s.1 c.chosen) (omega arith)
        (rw (queue_here ∙ q) late)

  take_earlier :
      l'.valid ≡ true
      → at_time l'.linux_time < at_time s.0
      → IsScanned h now (i + 1) (l'.linux_time, some i, h')
  take_earlier e early =
      let q = front_of_valid l' g' e in
      finish l'.linux_time (some i) (line_time e)
        (improved i (omega arith)
          (record { last = l'; has_last = last-updated s.2 i r l' g'; valid = e; timed = refl })
          (omega (arith, Chosen-le s.0 s.1 c.chosen)))
        (omega arith) (rw (queue_here ∙ q) (omega arith))

  by_choice :
      (t : Timespec) (m : Option ℕ)
      → choose s.0 s.1 i l' ≡ (t, m)
      → IsScanned h now (i + 1) (t, m, h')
      → IsScanned h now (i + 1) ((choose s.0 s.1 i l').0, (choose s.0 s.1 i l').1, h')
  by_choice t m e done = subst (λ p. IsScanned h now (i + 1) (p.0, p.1, h')) (sym e) done

  IsScanned-next : IsScanned h now (i + 1) ((choose s.0 s.1 i l').0, (choose s.0 s.1 i l').1, h')
  IsScanned-next = elim (Bool-cases l'.valid) [
    | inr e ↦ by_choice s.0 s.1 (rw e refl) (skip_empty e)
    | inl e ↦
        let order = diff_between_timespec-order s.0 l'.linux_time c.ranged (line_time e) in
        elim (Bool-cases (is_positive (diff_between_timespec s.0 l'.linux_time))) [
          | inl b ↦ by_choice l'.linux_time (some i) (rw (e, b) refl) (take_earlier e (order.0.0 b))
          | inr b ↦ by_choice s.0 s.1 (rw (e, b) refl) (skip_later e (ground (arith, order.0.1)))
        ]
  ]

module _ (mask : ℕ) (h : Handler) (now : Timespec) where
  step-IsScanned :
      (i : ℕ) (s : Timespec × Option ℕ × Handler)
      → in_mask mask i ≡ true
      → i < h.shared.num_alloc_groups
      → IsScanned h now i s
      → Returns (log_step mask i s) (IsScanned h now (i + 1))
  step-IsScanned i s masked below c =
      let r = c.ready i (omega (arith, c.groups)) in
      let (l', g', f, run) = round mask i s.2 s.0 s.1 masked (omega (arith, c.groups)) r in
      rw run (IsScanned-next h now i s c r l' g' f)

  pub loop-IsScanned :
      (n i : ℕ) (s : Timespec × Option ℕ × Handler)
      → ((j : ℕ) → j < h.shared.num_alloc_groups → in_mask mask j ≡ true)
      → i + n ≡ h.shared.num_alloc_groups
      → IsScanned h now i s
      → Returns (log_loop mask n i s) (IsScanned h now h.shared.num_alloc_groups)
  unfolding log_loop
  loop-IsScanned zero i s masked all c = subst (λ k. IsScanned h now k s) (omega arith) c
  loop-IsScanned (suc n) i s masked all c =
      let (s', run, c') =
        Returns-result (log_step mask i s) _
          (step-IsScanned i s (masked i (omega arith)) (omega arith) c) in
      rw run (loop-IsScanned n (i + 1) s' masked (omega arith) c')
