-- ===== src/Handler/Extract/Profilers.antt =====
-- The profilers that RTDBG_ExtractDebugData prints: one GetProfInfo for every profiler of every group.
pub mod Groups
use mathlib.Core.Option.{some-injective, none-ne-some}
use rt_debug_lib.Base.{
  ℕ, zero, suc, ◌+◌, ◌≤◌, ◌<◌, ◌≡◌, ◌≢◌, refl, ap, sym, ◌∙◌, subst, Option, none, some, List, [],
  ◌∷◌, ◌++◌, map, length, get_elem?, set, take, drop, arith, ok, Returns, Returns-result, u64_mod,
  get_elem?-some, get_elem?-set_self, get_elem?-set_ne, get_elem?-lt, map-set_same, ℕ_discrete,
  set-get_elem?, length-set,
}
use rt_debug_lib.CString.{CStr}
use rt_debug_lib.MemArea.{MemArea, mdo_name_size}
use rt_debug_lib.MemArea.Invariant.{IsValid}
use rt_debug_lib.MemArea.Refine.{contents}
use rt_debug_lib.Tracer.{TraceGroup}
use rt_debug_lib.Logger.{LogGroup}
use rt_debug_lib.Profile.{ProfileData, profile_data_size}
use rt_debug_lib.ProfilerGroup.{ProfilerGroup, get_prof_info}
use rt_debug_lib.ProfilerGroup.Drain.{
  AllMeasured, count_all, total, Reports, IsDrained, get_prof_info_lem,
}
use rt_debug_lib.DebugRt.{GroupDebugRt, get_debug_grp, get_grp_name}
use rt_debug_lib.Handler.{Handler, with_group}
use rt_debug_lib.Handler.Extract.{grp_name_size, prof_name_size, prof_line, prof_lines, profilers}
use rt_debug_lib.Handler.Extract.Counts.{drop-front}

-- A line for what GetProfInfo returned, before the others.
abbrev pub printed : CStr → Option (ProfileData × CStr) → List CStr → List CStr
printed grp_name none rest = rest
printed grp_name (some (d, name)) rest = prof_line grp_name name d ∷ rest

-- The lines are those of the FIFOs' summaries, in the order of the FIFOs.
abbrev pub Prints : CStr → List (MemArea ProfileData) → List CStr → Type 0
Prints grp_name [] lines = lines ≡ []
Prints grp_name (m ∷ ms) lines =
    (r : Option (ProfileData × CStr)) × (rest : List CStr) × Reports (contents m) m.name r
    × (lines ≡ printed grp_name r rest)
    × Prints grp_name ms rest

-- The FIFOs in use of a group.
abbrev pub fifos : GroupDebugRt → List (MemArea ProfileData)
fifos g = take g.profiler.num_alloc_prof g.profiler.prof_fifo

abbrev pub PrintsAll : List GroupDebugRt → List CStr → Type 0
PrintsAll [] lines = lines ≡ []
PrintsAll (g ∷ gs) lines =
    (ls : List CStr) × (rest : List CStr) × Prints g.group_name (fifos g) ls
    × (lines ≡ ls ++ rest)
    × PrintsAll gs rest

-- What GetProfInfo relies on for a FIFO.
pub record IsReportable (m : MemArea ProfileData) : Type 0 where
  pub valid : IsValid profile_data_size m
  pub named : length m.name < mdo_name_size
  pub measured : AllMeasured (contents m)
  pub few : count_all (contents m) < u64_mod
  pub small : total (contents m) < u64_mod

pub record IsGroupReportable (g : GroupDebugRt) : Type 0 where
  pub room : g.profiler.num_alloc_prof ≤ length g.profiler.prof_fifo
  pub short : length g.group_name < grp_name_size
  pub reportable :
      (j : ℕ) (m : MemArea ProfileData)
      → j < g.profiler.num_alloc_prof
      → get_elem? g.profiler.prof_fifo j ≡ some m
      → IsReportable m

abbrev pub with_fifos : List (MemArea ProfileData) → GroupDebugRt → GroupDebugRt
with_fifos ms g = let p = g.profiler in record g { profiler = record p { prof_fifo = ms } }

abbrev pub with_group_at : ℕ → GroupDebugRt → Handler → Handler
with_group_at i g h =
    let d = h.shared in record h { shared = record d { debug_groups = set d.debug_groups i g } }

set-set {ℓ} : {A : Type ℓ} (xs : List A) (i : ℕ) (a b : A) → set (set xs i a) i b ≡ set xs i b
set-set [] i a b = refl
set-set (x ∷ xs) zero a b = refl
set-set (x ∷ xs) (suc i) a b = ap (◌∷◌ x) (set-set xs i a b)

pub drop-set {ℓ} :
    {A : Type ℓ} (xs : List A) (i : ℕ) (a : A) → drop (i + 1) (set xs i a) ≡ drop (i + 1) xs
drop-set [] i a = refl
drop-set (x ∷ xs) zero a = refl
drop-set (x ∷ xs) (suc i) a =
    let next : suc i + 1 ≡ suc (i + 1) = omega arith in rw next (drop-set xs i a)

-- FIFO `k` is empty.
abbrev pub EmptyAt : List (MemArea ProfileData) → ℕ → Type 0
EmptyAt ms k = (m : MemArea ProfileData) × (get_elem? ms k ≡ some m) × (contents m ≡ [])

-- The end of the loop over the profilers of group `i`, which is `g`, from `j` on for `n` rounds.
pub record IsPrinted (h : Handler) (i : ℕ) (g : GroupDebugRt) (n j : ℕ) (out : List CStr × Handler)
    : Type 0 where
  pub left : List (MemArea ProfileData)
  pub state : out.1 ≡ with_group_at i (with_fifos left g) h
  pub prints : Prints g.group_name (take n (drop j g.profiler.prof_fifo)) out.0
  pub before : (k : ℕ) → k < j → get_elem? left k ≡ get_elem? g.profiler.prof_fifo k
  pub empty : (k : ℕ) → j ≤ k → k < j + n → EmptyAt left k

module _ (i : ℕ) (h : Handler) (g : GroupDebugRt) (below : i < h.shared.num_alloc_groups)
    (here : get_elem? h.shared.debug_groups i ≡ some g) where
  step_run :
      (j n : ℕ) (r : Option (ProfileData × CStr)) (p : ProfilerGroup) (rest : List CStr)
      (h'' : Handler)
      → get_prof_info prof_name_size j g.profiler ≡ ok (r, p)
      → prof_lines g.group_name i n (j + 1) (with_group_at i (record g { profiler = p }) h)
        ≡ ok (rest, h'')
      → prof_lines g.group_name i (suc n) j h ≡ ok (printed g.group_name r rest, h'')
  unfolding prof_lines with_group get_debug_grp
  step_run j n none p rest h'' run again = ground (arith, below, here, run, again)
  step_run j n (some (d, name)) p rest h'' run again = ground (arith, below, here, run, again)

with_group_at-twice :
    (i : ℕ) (a b : GroupDebugRt) (h : Handler)
    → with_group_at i b (with_group_at i a h) ≡ with_group_at i b h
with_group_at-twice i a b h =
    ap (λ gs. let d = h.shared in record h { shared = record d { debug_groups = gs } })
      (set-set h.shared.debug_groups i a b)

-- The FIFOs from `j` on are reportable.
abbrev pub AreReportable : ℕ → ProfilerGroup → Type 0
AreReportable j p =
    (k : ℕ) (m : MemArea ProfileData)
    → j ≤ k
    → k < p.num_alloc_prof
    → get_elem? p.prof_fifo k ≡ some m
    → IsReportable m

module _ (i : ℕ) where
  -- One profiler, before those behind it.
  prepend :
      (h : Handler) (g : GroupDebugRt) (n j : ℕ) (m left : MemArea ProfileData)
      (r : Option (ProfileData × CStr)) (lines : List CStr) (h'' : Handler)
      → get_elem? g.profiler.prof_fifo j ≡ some m
      → Reports (contents m) m.name r
      → contents left ≡ []
      → (let g' = with_fifos (set g.profiler.prof_fifo j left) g in
          IsPrinted (with_group_at i g' h) i g' n (j + 1) (lines, h''))
      → IsPrinted h i g (suc n) j (printed g.group_name r lines, h'')
  prepend h g n j m left r lines h'' at reports gone c =
      let ms = g.profiler.prof_fifo in
      let g' = with_fifos (set ms j left) g in
      record {
        left = c.left;
        state = c.state ∙ with_group_at-twice i g' (with_fifos c.left g) h;
        prints =
            subst (λ ks. Prints g.group_name (take (suc n) ks) (printed g.group_name r lines))
              (sym (drop-front ms j m at))
              (
                r,
                lines,
                reports,
                refl,
                subst (λ ks. Prints g.group_name (take n ks) lines) (drop-set ms j left) c.prints,
              );
        before = λ k lt. c.before k (omega arith) ∙ get_elem?-set_ne ms j k left (λ e. omega arith);
        empty = λ k le lt. elim (ℕ_discrete j k) [
          | no ne ↦ c.empty k (omega arith) (omega arith)
          | yes e ↦ (
            left,
            subst (λ l. get_elem? c.left l ≡ some left) e
                (c.before j (omega arith) ∙ get_elem?-set_self ms j left (get_elem?-lt ms j m at)),
            gone,
          )
        ];
      }

  pub prof_lines_lem :
      (n j : ℕ) (h : Handler) (g : GroupDebugRt)
      → i < h.shared.num_alloc_groups
      → get_elem? h.shared.debug_groups i ≡ some g
      → j + n ≤ g.profiler.num_alloc_prof
      → g.profiler.num_alloc_prof ≤ length g.profiler.prof_fifo
      → AreReportable j g.profiler
      → Returns (prof_lines g.group_name i n j h) (IsPrinted h i g n j)
  unfolding prof_lines
  prof_lines_lem zero j h g below here le room all = record {
    left = g.profiler.prof_fifo;
    state =
        ap (λ gs. let d = h.shared in record h { shared = record d { debug_groups = gs } })
          (sym (set-get_elem? h.shared.debug_groups i g here));
    prints = refl;
    before = λ k lt. refl;
    empty = λ k lo hi. absurd (omega arith);
  }
  prof_lines_lem (suc n) j h g below here le room all =
      let ms = g.profiler.prof_fifo in
      let (m, at) = get_elem?-some ms j (omega arith) in
      let ok_m = all j m (omega arith) (omega arith) at in
      let ((r, p), run, (reports, drained)) =
        Returns-result (get_prof_info prof_name_size j g.profiler) _ (
          get_prof_info_lem prof_name_size j g.profiler m (omega arith) at ok_m.valid ok_m.named
            (omega (arith, ok_m.named)) ok_m.measured ok_m.few ok_m.small) in
      let g' = with_fifos (set ms j drained.left) g in
      let same : p ≡ g'.profiler = drained.group in
      let h' = with_group_at i g' h in
      let ((lines, h''), again, c) = Returns-result (prof_lines g'.group_name i n (j + 1) h') _ (
        prof_lines_lem n (j + 1) h' g' below
          (get_elem?-set_self h.shared.debug_groups i g'
            (get_elem?-lt h.shared.debug_groups i g here))
          (omega arith) (omega (arith, length-set ms j drained.left, room))
          (λ k x lo hi e.
            all k x (omega arith) hi
              (sym (get_elem?-set_ne ms j k drained.left (λ q. omega arith)) ∙ e))) in
      let whole =
        step_run i h g below here j n r g'.profiler lines h'' (run ∙ ap (λ q. ok (r, q)) same)
          again in
      rw whole (prepend h g n j m drained.left r lines h'' at reports drained.empty c)
