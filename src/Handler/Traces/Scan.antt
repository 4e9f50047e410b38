-- ===== src/Handler/Traces/Scan.antt =====
-- The loop of RTDBG_GetTraceEntry over the groups, on their lines still to be returned.
use mathlib.Core.List.{Perm}
use mathlib.Core.List.Perm
use rt_debug_lib.Base.{
  ℕ, zero, suc, ◌+◌, ◌≤◌, ◌<◌, ◌≡◌, ◌≢◌, inl, inr, refl, sym, ◌∙◌, subst, Bool-cases, Option, none,
  some, List, length, get_elem?, arith, Returns, Returns-result, get_elem?-set_self,
  get_elem?-set_ne, get_elem?-lt, map-set_same, dec_lt, ℕ_discrete,
}
use rt_debug_lib.Clock.{
  Timespec, InRange, is_negative, diff_between_timespec, diff_between_timespec-order,
}
use rt_debug_lib.Tracer.{Printf, data_ind}
use rt_debug_lib.Tracer.Earliest.{at_time}
use rt_debug_lib.DebugRt.{GroupDebugRt}
use rt_debug_lib.Handler.{Handler, TraceInfo}
use rt_debug_lib.Handler.Merge.{trace_str_size, trace_step, trace_loop}
use rt_debug_lib.Handler.Queues.{Line}
use rt_debug_lib.Handler.Traces.{
  SameLogs, logger_of, From, Before, none_From, Perm-of_eq, From-perm, Before-perm, pending, queue,
  IsGroupReady, IsReadyAt,
}
use rt_debug_lib.Handler.Traces.Round.{updated, choose, Noted, empty, earliest, IsFetched, round}

module _ (printf : Printf) where
  -- Every group in use is ready.
  abbrev pub AreReady : Handler → Type 0
  AreReady h = (i : ℕ) → i < h.shared.num_alloc_groups → IsReadyAt printf h i

  module _ (h : Handler) (i : ℕ) (r : IsReadyAt printf h i) (info : TraceInfo)
      (g : GroupDebugRt) where
    pub info-updated : get_elem? (updated h i info g).grp_trace_res i ≡ some info
    info-updated =
        get_elem?-set_self h.grp_trace_res i info (get_elem?-lt h.grp_trace_res i r.info r.has_info)

    group-updated : get_elem? (updated h i info g).shared.debug_groups i ≡ some g
    group-updated =
        get_elem?-set_self h.shared.debug_groups i g
          (get_elem?-lt h.shared.debug_groups i r.group r.has_group)

    pub queue-updated_self : queue printf (updated h i info g) i ≡ pending printf info g
    queue-updated_self = rw (info-updated, group-updated)

    pub queue-updated_ne : (j : ℕ) → i ≢ j → queue printf (updated h i info g) j ≡ queue printf h j
    queue-updated_ne j ne = rw (
      get_elem?-set_ne h.grp_trace_res i j info ne,
      get_elem?-set_ne h.shared.debug_groups i j g ne,
    )

    pub queue_of_ready : queue printf h i ≡ pending printf r.info r.group
    queue_of_ready = rw (r.has_info, r.has_group)

    queue-perm :
        Perm (pending printf info g) (pending printf r.info r.group)
        → (j : ℕ) → Perm (queue printf (updated h i info g) j) (queue printf h j)
    queue-perm same j = elim (ℕ_discrete i j) [
      | no ne ↦ Perm-of_eq (queue-updated_ne j ne)
      | yes e ↦
          subst (λ k. Perm (queue printf (updated h i info g) k) (queue printf h k)) e
            (Perm.trans (Perm-of_eq queue-updated_self)
              (Perm.trans same (Perm-of_eq (sym queue_of_ready))))
    ]

    ready-updated_ne :
        (j : ℕ) → i ≢ j → IsReadyAt printf h j → IsReadyAt printf (updated h i info g) j
    ready-updated_ne j ne s = record {
      info = s.info;
      group = s.group;
      has_info = get_elem?-set_ne h.grp_trace_res i j info ne ∙ s.has_info;
      has_group = get_elem?-set_ne h.shared.debug_groups i j g ne ∙ s.has_group;
      ready = s.ready;
    }

    pub AreReady-updated : AreReady h → IsGroupReady printf info g → AreReady (updated h i info g)
    AreReady-updated all s j below = elim (ℕ_discrete i j) [
      | no ne ↦ ready-updated_ne j ne (all j below)
      | yes e ↦
          subst (λ k. IsReadyAt printf (updated h i info g) k) e
            (record {
              info = info;
              group = g;
              has_info = info-updated;
              has_group = group-updated;
              ready = s;
            })
    ]

  -- The handler notes group `j` with a line of `time`, the earliest one of that group.
  pub record IsKept (h : Handler) (j : ℕ) (time : Timespec) : Type 0 where
    pub info : TraceInfo
    pub has_info : get_elem? h.grp_trace_res j ≡ some info
    pub status : info.status ≡ data_ind
    pub fits : length info.trace_str < trace_str_size
    pub timed : info.lin_time ≡ time

  -- The outcome of the rounds before `i`, begun at `now` in `h`.
  pub data Chosen (h : Handler) (now : Timespec) (i : ℕ) (min_time : Timespec)
      : Option ℕ → Type 0 where
    unchanged : min_time ≡ now → Chosen h now i min_time none
    improved :
        (k : ℕ)
        → k < i
        → IsKept h k min_time
        → at_time min_time < at_time now
        → Chosen h now i min_time (some k)

  pub record IsScanned (h : Handler) (now : Timespec) (i : ℕ) (s : Timespec × Option ℕ × Handler)
      : Type 0 where
    pub same : (j : ℕ) → Perm (queue printf s.2 j) (queue printf h j)
    pub ready : AreReady s.2
    pub groups : s.2.shared.num_alloc_groups ≡ h.shared.num_alloc_groups
    pub attached : s.2.mem_attached ≡ h.mem_attached
    pub active : s.2.shared.active ≡ h.shared.active
    pub logs : SameLogs h s.2
    pub ranged : InRange s.0
    pub chosen : Chosen s.2 now i s.0 s.1
    pub bound : (j : ℕ) → j < i → From (at_time s.0) (queue printf h j)

  From-le : (a b : ℕ) (ls : List Line) → a ≤ b → From b ls → From a ls
  From-le a b ls le h x m = omega (arith, h x m)

  module _ (h : Handler) (now : Timespec) (i : ℕ) (s : Timespec × Option ℕ × Handler)
      (c : IsScanned h now i s) (r : IsReadyAt printf s.2 i) (info' : TraceInfo) (g' : GroupDebugRt)
      (f : IsFetched printf r.info r.group info' g') where
    abbrev h' : Handler
    h' = updated s.2 i info' g'

    Chosen-later : (t : Timespec) (m : Option ℕ) → Chosen s.2 now i t m → Chosen h' now (i + 1) t m
    Chosen-later t m (unchanged e) = unchanged e
    Chosen-later t m (improved k below kept before) =
        improved k (omega arith)
          (record {
            info = kept.info;
            has_info =
                get_elem?-set_ne s.2.grp_trace_res i k info' (λ e. omega arith) ∙ kept.has_info;
            status = kept.status;
            fits = kept.fits;
            timed = kept.timed;
          })
          before

    Chosen-le : (t : Timespec) (m : Option ℕ) → Chosen s.2 now i t m → at_time t ≤ at_time now
    Chosen-le t m (unchanged e) = rw e (omega arith)
    Chosen-le t m (improved k below kept before) = omega arith

    queue_here : Perm (pending printf info' g') (queue printf h i)
    queue_here =
        Perm.trans f.same
          (Perm.trans (Perm-of_eq (sym (queue_of_ready s.2 i r info' g'))) (c.same i))

    finish :
        (t : Timespec) (m : Option ℕ)
        → InRange t
        → Chosen h' now (i + 1) t m
        → at_time t ≤ at_time s.0
        → From (at_time t) (pending printf info' g')
        → IsScanned h now (i + 1) (t, m, h')
    finish t m ranged chosen le front = record {
      same = λ j. Perm.trans (queue-perm s.2 i r info' g' f.same j) (c.same j);
      ready = AreReady-updated s.2 i r info' g' c.ready f.ready;
      groups = c.groups;
      attached = c.attached;
      active = c.active;
      logs = record {
        last = c.logs.last;
        loggers =
            map-set_same logger_of s.2.shared.debug_groups i r.group g' r.has_group f.logger
            ∙ c.logs.loggers;
      };
      ranged = ranged;
      chosen = chosen;
      bound = λ j below. elim (dec_lt j i) [
        | yes before ↦ From-le (at_time t) (at_time s.0) (queue printf h j) le (c.bound j before)
        | no after ↦
            let e : i ≡ j = omega arith in
            subst (λ k. From (at_time t) (queue printf h k)) e (From-perm queue_here front)
      ];
    }

    by_choice :
        (t : Timespec) (m : Option ℕ)
        → choose s.0 s.1 i info' ≡ (t, m)
        → IsScanned h now (i + 1) (t, m, h')
        → IsScanned h now (i + 1) ((choose s.0 s.1 i info').0, (choose s.0 s.1 i info').1, h')
    by_choice t m e done = subst (λ p. IsScanned h now (i + 1) (p.0, p.1, h')) (sym e) done

    -- Nothing is left, the noted line is not earlier, or it is the new choice.
    by_note :
        Noted printf info' g'
        → IsScanned h now (i + 1) ((choose s.0 s.1 i info').0, (choose s.0 s.1 i info').1, h')
    by_note (empty e gone) = by_choice s.0 s.1 (rw e refl) (
        finish s.0 s.1 c.ranged (Chosen-later s.0 s.1 c.chosen) (omega arith)
          (rw gone (none_From (at_time s.0))))
    by_note (earliest e fits ranged front) =
        let order = diff_between_timespec-order info'.lin_time s.0 ranged c.ranged in
        elim (Bool-cases (is_negative (diff_between_timespec info'.lin_time s.0))) [
          | inl b ↦
              let early = order.1.0 b in
              by_choice info'.lin_time (some i) (rw (e, b) refl) (
                finish info'.lin_time (some i) ranged
                  (improved i (omega arith)
                    (record {
                      info = info';
                      has_info = info-updated s.2 i r info' g';
                      status = e;
                      fits = fits;
                      timed = refl;
                    })
                    (omega (arith, Chosen-le s.0 s.1 c.chosen)))
                  (omega arith) front)
          | inr b ↦ by_choice s.0 s.1 (rw (e, b) refl) (
              finish s.0 s.1 c.ranged (Chosen-later s.0 s.1 c.chosen) (omega arith) (
                From-le (at_time s.0) (at_time info'.lin_time) (pending printf info' g')
                  (ground (arith, order.1.1)) front))
        ]

  -- The time `now j` that the call for group `j` reads is later than the lines of that group.
  abbrev pub ArePast : (ℕ → Timespec) → Handler → Type 0
  ArePast now h =
      (j : ℕ)
      → j < h.shared.num_alloc_groups
      → InRange (now j) × Before (at_time (now j)) (queue printf h j)

  module _ (now : ℕ → Timespec) (h : Handler) (start : Timespec) (past : ArePast now h) where
    step-IsScanned :
        (i : ℕ) (s : Timespec × Option ℕ × Handler)
        → i < h.shared.num_alloc_groups
        → IsScanned h start i s
        → Returns (trace_step printf (now i) i s) (IsScanned h start (i + 1))
    step-IsScanned i s below c =
        let r = c.ready i (omega (arith, c.groups)) in
        let here : Perm (queue printf h i) (pending printf r.info r.group) =
          Perm.trans (Perm.symm (c.same i)) (Perm-of_eq (queue_of_ready s.2 i r r.info r.group)) in
        let (info', g', f, run) =
          round printf (now i) i s.2 s.0 s.1 (omega (arith, c.groups)) r (past i below).0
            (Before-perm here (past i below).1) in
        rw run (by_note h start i s c r info' g' f f.noted)

    pub loop-IsScanned :
        (n i : ℕ) (s : Timespec × Option ℕ × Handler)
        → i + n ≡ h.shared.num_alloc_groups
        → IsScanned h start i s
        → Returns (trace_loop printf now n i s) (IsScanned h start h.shared.num_alloc_groups)
    unfolding trace_loop
    loop-IsScanned zero i s all c = subst (λ k. IsScanned h start k s) (omega arith) c
    loop-IsScanned (suc n) i s all c =
        let (s', run, c') =
          Returns-result (trace_step printf (now i) i s) _ (step-IsScanned i s (omega arith) c) in
        rw run (loop-IsScanned n (i + 1) s' (omega arith) c')
