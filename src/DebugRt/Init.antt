-- ===== src/DebugRt/Init.antt =====
-- CDebugRT::Init over the groups of the shared memory.
use rt_debug_lib.Base.{
  ℕ, zero, suc, ◌+◌, ◌%◌, ◌<◌, ◌≡◌, ◌≢◌, refl, ap, ◌∙◌, subst, false, some, List, [], ◌∷◌, length,
  get_elem?, arith, ok, err, Fault, Returns, Returns-result,
}
use mathlib.Core.Option.{some-injective, none-ne-some}
use rt_debug_lib.CString.{codes}
use rt_debug_lib.MemArea.Setup.{set_up, setup_run}
use rt_debug_lib.Counters
use rt_debug_lib.Tracer.Reset.{after_reset, reset_run}
use rt_debug_lib.Logger
use rt_debug_lib.Logger.{LogGroup, log_entry_size, log_group_bufsize}
use rt_debug_lib.ProfilerGroup
use rt_debug_lib.DebugRt.{
  GroupDebugRt, DebugRt, max_group_num, group_names, reset_group, reset_groups, init,
}
use rt_debug_lib.DebugRt.New.{HasArrays, IsNew, reset_group-IsNew}
use rt_debug_lib.DebugRt.Laws.{IsDebugRt}

-- Where the buffers of the traces stand in this process.
abbrev pub IsAligned : (ℕ → ℕ) → Type 0
IsAligned trace_buf = (i : ℕ) → (trace_buf i ≢ 0) × (trace_buf i % 8 ≡ 0)

abbrev pub log_reset : LogGroup → LogGroup
log_reset l = record l {
  logs_fifo = set_up log_entry_size log_group_bufsize (codes "Log_data") l.logs_fifo;
}

abbrev pub group_reset : ℕ → GroupDebugRt → GroupDebugRt
group_reset trace_buf g = record g {
  logger = log_reset g.logger;
  profiler = ProfilerGroup.reset false g.profiler;
  tracer = after_reset trace_buf g.tracer;
  event_counters = Counters.reset false g.event_counters;
}

module _ (trace_buf : ℕ) (g : GroupDebugRt) (h : HasArrays g) where
  log_reset_run : Logger.reset false g.logger ≡ ok (log_reset g.logger)
  unfolding Logger.reset
  log_reset_run = rw (
      setup_run log_entry_size log_group_bufsize (codes "Log_data") g.logger.logs_fifo (omega arith)
        (omega arith) (omega arith))

  pub reset_group_run :
      trace_buf ≢ 0
      → trace_buf % 8 ≡ 0
      → reset_group trace_buf false g ≡ ok (group_reset trace_buf g)
  unfolding reset_group
  reset_group_run some_address aligned =
      rw (log_reset_run, reset_run g.tracer h.traces trace_buf some_address aligned)

-- Every group is one of before under its name, with nothing in it.
abbrev pub AreReset : List GroupDebugRt → List GroupDebugRt → Type 0
AreReset gs gs' =
    (i : ℕ) (g' : GroupDebugRt)
    → get_elem? gs' i ≡ some g'
    → (g : GroupDebugRt) × (get_elem? gs i ≡ some g) × IsNew g.group_name g'

abbrev AllHaveArrays : List GroupDebugRt → Type 0
AllHaveArrays gs = (i : ℕ) (g : GroupDebugRt) → get_elem? gs i ≡ some g → HasArrays g

AreReset-cons :
    (g g' : GroupDebugRt) (gs gs' : List GroupDebugRt)
    → IsNew g.group_name g'
    → AreReset gs gs'
    → AreReset (g ∷ gs) (g' ∷ gs')
AreReset-cons g g' gs gs' new rest zero b e =
    (g, refl, subst (IsNew g.group_name) (some-injective g' b e) new)
AreReset-cons g g' gs gs' new rest (suc i) b e = rest i b e

-- What Init leaves of a memory.
pub record IsInitialised (d d' : DebugRt) : Type 0 where
  pub valid : IsDebugRt d'
  pub no_groups : group_names d' ≡ []
  pub inactive : d'.active ≡ false
  pub not_collected : d'.trace_collected ≡ false
  pub reset : AreReset d.debug_groups d'.debug_groups

module _ (trace_buf : ℕ → ℕ) (aligned : IsAligned trace_buf) where
  reset_groups-AreReset :
      (n i : ℕ) (gs : List GroupDebugRt)
      → length gs ≡ n
      → AllHaveArrays gs
      → Returns
          (reset_groups trace_buf false n i gs)
          λ gs'. (length gs' ≡ length gs) × AreReset gs gs'
  unfolding reset_groups
  reset_groups-AreReset zero i [] e hs = (refl, λ j g' at. absurd (none-ne-some g' at))
  reset_groups-AreReset zero i (g ∷ gs) e hs = absurd (omega arith)
  reset_groups-AreReset (suc n) i [] e hs = absurd (omega arith)
  reset_groups-AreReset (suc n) i (g ∷ gs) e hs =
      let (g', run, new) =
        Returns-result (reset_group (trace_buf i) false g) _
          (reset_group-IsNew (trace_buf i) [] g (hs 0 g refl) (aligned i).0 (aligned i).1) in
      let (gs', run', (same, rest)) =
        Returns-result (reset_groups trace_buf false n (i + 1) gs) _
          (reset_groups-AreReset n (i + 1) gs (omega arith) (λ j b at. hs (suc j) b at)) in
      rw (run, run') (ap suc same, AreReset-cons g g' gs gs' new rest)

  reset_groups_short :
      (n i : ℕ) (gs : List GroupDebugRt)
      → length gs < n
      → AllHaveArrays gs
      → reset_groups trace_buf false n i gs ≡ err Fault.out_of_bounds
  unfolding reset_groups
  reset_groups_short zero i gs lt hs = absurd (omega arith)
  reset_groups_short (suc n) i [] lt hs = refl
  reset_groups_short (suc n) i (g ∷ gs) lt hs =
      let h = hs 0 g refl in
      rw
        (
          reset_group_run (trace_buf i) g h (aligned i).0 (aligned i).1,
          reset_groups_short n (i + 1) gs (omega arith) (λ j b at. hs (suc j) b at),
        )
        refl

  -- CDebugRT::Init on a memory with its ten groups and their arrays, whatever is in them, for
  -- buffers of the traces at addresses other than 0 that are multiples of 8: it never faults, and
  -- leaves a valid memory with no group in use, in which data collection is off and no traces count
  -- as collected. Each of its groups keeps its name and holds no log, no profiler, no counter and
  -- only the default trace format, and its log FIFO, ring and tables are valid.
  pub init-IsInitialised :
      (d : DebugRt)
      → length d.debug_groups ≡ max_group_num
      → ((i : ℕ) (g : GroupDebugRt) → get_elem? d.debug_groups i ≡ some g → HasArrays g)
      → Returns (init trace_buf d) (IsInitialised d)
  unfolding init
  init-IsInitialised d array hs =
      let (gs, run, (same, all)) =
        Returns-result (reset_groups trace_buf false max_group_num 0 d.debug_groups) _
          (reset_groups-AreReset max_group_num 0 d.debug_groups array hs) in
      rw run (record {
        valid = record {
          array = same ∙ array;
          few = omega arith;
          arrays = λ i g' at. (all i g' at).2.arrays;
          named = λ i g lt at. absurd (omega (arith, lt));
        };
        no_groups = refl;
        inactive = refl;
        not_collected = refl;
        reset = all;
      })

  -- Init of a mapping that ends before the last group.
  pub init_short :
      (d : DebugRt)
      → length d.debug_groups < max_group_num
      → ((i : ℕ) (g : GroupDebugRt) → get_elem? d.debug_groups i ≡ some g → HasArrays g)
      → init trace_buf d ≡ err Fault.out_of_bounds
  unfolding init
  init_short d short hs = rw (reset_groups_short max_group_num 0 d.debug_groups short hs)
