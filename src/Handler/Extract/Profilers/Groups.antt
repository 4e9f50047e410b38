-- ===== src/Handler/Extract/Profilers/Groups.antt =====
-- The loop of RTDBG_ExtractDebugData over the groups that prints their profilers.
use rt_debug_lib.Base.{
  ℕ, zero, suc, ◌+◌, ◌≤◌, ◌<◌, ◌≡◌, refl, ap, sym, ◌∙◌, subst, some, List, ◌++◌, map, length,
  get_elem?, take, drop, length-set, arith, ok, Returns, Returns-result, get_elem?-some,
  get_elem?-set_self, get_elem?-set_ne, get_elem?-lt, map-set_same, ℕ_discrete,
}
use rt_debug_lib.CString.{CStr}
use rt_debug_lib.MemArea.{MemArea}
use rt_debug_lib.Tracer.{TraceGroup}
use rt_debug_lib.Logger.{LogGroup}
use rt_debug_lib.Profile.{ProfileData}
use rt_debug_lib.DebugRt.{GroupDebugRt, get_debug_grp, get_grp_name}
use rt_debug_lib.Handler.{Handler}
use rt_debug_lib.Handler.Extract.{prof_lines, profilers}
use rt_debug_lib.Handler.Extract.Counts.{drop-front}
use rt_debug_lib.Handler.Extract.Profilers.{
  Prints, fifos, PrintsAll, IsGroupReportable, with_fifos, with_group_at, drop-set, EmptyAt,
  prof_lines_lem,
}

-- What printing the profilers leaves: all but the FIFOs of profilers.
abbrev pub parts_of : GroupDebugRt → TraceGroup × LogGroup
parts_of g = (g.tracer, g.logger)

pub record SameParts (h h' : Handler) : Type 0 where
  pub infos : h'.grp_trace_res ≡ h.grp_trace_res
  pub lasts : h'.grp_logs_last ≡ h.grp_logs_last
  pub parts : map parts_of h'.shared.debug_groups ≡ map parts_of h.shared.debug_groups
  pub groups : h'.shared.num_alloc_groups ≡ h.shared.num_alloc_groups
  pub active : h'.shared.active ≡ h.shared.active
  pub attached : h'.mem_attached ≡ h.mem_attached

SameParts-trans : {h h' h'' : Handler} → SameParts h h' → SameParts h' h'' → SameParts h h''
SameParts-trans a b = record {
  infos = b.infos ∙ a.infos;
  lasts = b.lasts ∙ a.lasts;
  parts = b.parts ∙ a.parts;
  groups = b.groups ∙ a.groups;
  active = b.active ∙ a.active;
  attached = b.attached ∙ a.attached;
}

-- The FIFOs in use of a group are empty.
abbrev pub AreEmpty : GroupDebugRt → Type 0
AreEmpty g = (j : ℕ) → j < g.profiler.num_alloc_prof → EmptyAt g.profiler.prof_fifo j

-- The end of the loop over the groups from `i` on, for `n` rounds.
pub record ArePrinted (n i : ℕ) (h : Handler) (out : List CStr × Handler) : Type 0 where
  pub prints : PrintsAll (take n (drop i h.shared.debug_groups)) out.0
  pub same : SameParts h out.1
  pub before :
      (k : ℕ) → k < i → get_elem? out.1.shared.debug_groups k ≡ get_elem? h.shared.debug_groups k
  pub empty :
      (k : ℕ)
      → i ≤ k
      → k < i + n
      → (g : GroupDebugRt) × (get_elem? out.1.shared.debug_groups k ≡ some g) × AreEmpty g

-- The groups from `i` on can be printed.
abbrev ReportableFrom : ℕ → Handler → Type 0
ReportableFrom i h =
    (k : ℕ) (g : GroupDebugRt)
    → i ≤ k
    → k < h.shared.num_alloc_groups
    → get_elem? h.shared.debug_groups k ≡ some g
    → IsGroupReportable g

module _ (i n : ℕ) (h : Handler) (g : GroupDebugRt) (below : i < h.shared.num_alloc_groups)
    (here : get_elem? h.shared.debug_groups i ≡ some g) (ready : IsGroupReportable g) where
  step_run :
      (ls rest : List CStr) (h' h'' : Handler)
      → prof_lines g.group_name i g.profiler.num_alloc_prof 0 h ≡ ok (ls, h')
      → profilers n (i + 1) h' ≡ ok (rest, h'')
      → profilers (suc n) i h ≡ ok (ls ++ rest, h'')
  unfolding profilers get_debug_grp get_grp_name
  step_run ls rest h' h'' run again = ground (arith, below, here, ready.short, run, again)

  prepend :
      (left : List (MemArea ProfileData)) (ls rest : List CStr) (h'' : Handler)
      → Prints g.group_name (fifos g) ls
      → ((k : ℕ) → k < g.profiler.num_alloc_prof → EmptyAt left k)
      → ArePrinted n (i + 1) (with_group_at i (with_fifos left g) h) (rest, h'')
      → ArePrinted (suc n) i h (ls ++ rest, h'')
  prepend left ls rest h'' prints gone c =
      let gs = h.shared.debug_groups in
      let g' = with_fifos left g in
      record {
        prints =
            subst (λ ks. PrintsAll (take (suc n) ks) (ls ++ rest)) (sym (drop-front gs i g here))
              (
                ls,
                rest,
                prints,
                refl,
                subst (λ ks. PrintsAll (take n ks) rest) (drop-set gs i g') c.prints,
              );
        same =
            SameParts-trans {h' = with_group_at i g' h}
              (record {
                infos = refl;
                lasts = refl;
                parts = map-set_same parts_of gs i g g' here refl;
                groups = refl;
                active = refl;
                attached = refl;
              })
              c.same;
        before = λ k lt. c.before k (omega arith) ∙ get_elem?-set_ne gs i k g' (λ e. omega arith);
        empty = λ k le lt. elim (ℕ_discrete i k) [
          | no ne ↦ c.empty k (omega arith) (omega arith)
          | yes e ↦ (
            g',
            subst (λ l. get_elem? h''.shared.debug_groups l ≡ some g') e
                (c.before i (omega arith) ∙ get_elem?-set_self gs i g' (get_elem?-lt gs i g here)),
            gone,
          )
        ];
      }

profilers_from :
    (n i : ℕ) (h : Handler)
    → i + n ≡ h.shared.num_alloc_groups
    → h.shared.num_alloc_groups ≤ length h.shared.debug_groups
    → ReportableFrom i h
    → Returns (profilers n i h) (ArePrinted n i h)
unfolding profilers
profilers_from zero i h all room ready = record {
  prints = refl;
  same = record {
    infos = refl;
    lasts = refl;
    parts = refl;
    groups = refl;
    active = refl;
    attached = refl;
  };
  before = λ k lt. refl;
  empty = λ k lo hi. absurd (omega arith);
}
profilers_from (suc n) i h all room ready =
    let gs = h.shared.debug_groups in
    let (g, here) = get_elem?-some gs i (omega arith) in
    let g_ready = ready i g (omega arith) (omega arith) here in
    let num = g.profiler.num_alloc_prof in
    let ((ls, h'), run, c) = Returns-result (prof_lines g.group_name i num 0 h) _ (
      prof_lines_lem i num 0 h g (omega arith) here (omega arith) g_ready.room
        (λ k m lo hi e. g_ready.reportable k m hi e)) in
    let g' = with_fifos c.left g in
    let h1 = with_group_at i g' h in
    let ((rest, h''), again, d) = Returns-result (profilers n (i + 1) h1) _ (
      profilers_from n (i + 1) h1 (omega arith) (omega (arith, length-set gs i g')) (λ k x lo hi e.
        ready k x (omega arith) hi (sym (get_elem?-set_ne gs i k g' (λ q. omega arith)) ∙ e))) in
    let whole =
      step_run i n h g (omega arith) here g_ready ls rest h1 h''
        (run ∙ ap (λ x. ok (ls, x)) c.state) again in
    rw whole (
      prepend i n h g (omega arith) here g_ready c.left ls rest h'' c.prints
        (λ k lt. c.empty k (omega arith) (omega arith)) d)

-- What RTDBG_ExtractDebugData prints of the profilers, where the groups in use stand in the array, with
-- names below the 100 bytes of its buffer, and every FIFO of a profiler in use is valid, holds entries
-- that all stand for measurements, and has sums below 2^64: it never faults and ends; it prints the
-- summary of each FIFO that is not empty, in the order of the groups and then of the profilers, and
-- nothing else; it empties all these FIFOs, and leaves the traces and the logs of every group and what
-- the process keeps of them.
pub profilers-ArePrinted :
    (h : Handler)
    → h.shared.num_alloc_groups ≤ length h.shared.debug_groups
    → ((k : ℕ) (g : GroupDebugRt)
        → k < h.shared.num_alloc_groups
        → get_elem? h.shared.debug_groups k ≡ some g
        → IsGroupReportable g)
    → Returns (profilers h.shared.num_alloc_groups 0 h) (ArePrinted h.shared.num_alloc_groups 0 h)
profilers-ArePrinted h room ready =
    profilers_from h.shared.num_alloc_groups 0 h (omega arith) room (λ k g lo hi e. ready k g hi e)
