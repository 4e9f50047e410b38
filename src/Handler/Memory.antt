-- ===== src/Handler/Memory.antt =====
-- The shared memory as a whole: what holds of every group in use, whatever calls an application makes.
pub mod Parts
pub mod Grown
pub mod Calls
pub mod Steps
pub mod Safety
use rt_debug_lib.Base.{
  ℕ, ◌-◌, ◌+◌, ◌≤◌, ◌<◌, ◌≡◌, ◌≢◌, refl, sym, ◌∙◌, subst, true, some, length, get_elem?, set, arith,
  length-set, get_elem?-set_self, get_elem?-set_ne, get_elem?-lt, ℕ_discrete, get_elem?-some,
}
use mathlib.Core.Option.{some-injective}
use rt_debug_lib.CString.{CStr}
use rt_debug_lib.MemArea.Invariant.{capacity}
use rt_debug_lib.Counters.{trace_string_size}
use rt_debug_lib.Counters.Laws as CounterLaws
use rt_debug_lib.Tracer.{trace_entries_num}
use rt_debug_lib.Tracer.Formats
use rt_debug_lib.Tracer.Reset
use rt_debug_lib.Logger.{log_group_bufsize}
use rt_debug_lib.Logger.Laws.{IsLogGroup}
use rt_debug_lib.ProfilerGroup.Names.{IsProfGroup}
use rt_debug_lib.DebugRt.{GroupDebugRt}
use rt_debug_lib.DebugRt.New.{HasArrays, IsNew}
use rt_debug_lib.DebugRt.Laws.{IsDebugRt}
use rt_debug_lib.Handler.{Handler}

-- A group in use: the invariant of each of its parts. `prof_buf j` is where the buffer of its FIFO `j` stands.
pub record IsGroupSound (prof_buf : ℕ → ℕ) (g : GroupDebugRt) : Type 0 where
  pub counters : CounterLaws.IsValid g.event_counters
  pub tracer : Formats.IsValid g.tracer
  pub entries : length g.tracer.trace_fifo.buf ≡ trace_entries_num
  pub logger : IsLogGroup g.logger
  pub log_room : capacity g.logger.logs_fifo ≡ log_group_bufsize - 2
  pub profiler : IsProfGroup prof_buf g.profiler
  pub named : length g.group_name < trace_string_size

pub sound-HasArrays : (prof_buf : ℕ → ℕ) (g : GroupDebugRt) → IsGroupSound prof_buf g → HasArrays g
sound-HasArrays prof_buf g v = record {
  log_entries = omega (arith, v.log_room, v.logger.room, v.logger.enough);
  traces = record { formats = v.tracer.array; entries = v.entries };
  counters = v.counters.array;
  profilers = v.profiler.array;
  buffers = v.profiler.buffers;
}

pub new-IsGroupSound :
    (prof_buf : ℕ → ℕ) (s : CStr) (g : GroupDebugRt)
    → length s < trace_string_size
    → IsNew s g
    → IsGroupSound prof_buf g
new-IsGroupSound prof_buf s g fits new =
    let a = new.arrays in
    record {
      counters = new.counter_group;
      tracer = new.trace_group;
      entries = a.traces.entries;
      logger = new.log_group;
      log_room = new.log_room;
      profiler = record {
        array = a.profilers;
        few = omega (arith, new.none_in_use);
        distinct = rw new.no_profilers tt;
        buffers = a.buffers;
        fifos = λ i m at below. absurd (omega (arith, new.none_in_use));
      };
      named = rw new.named fits;
    }

module _ (prof_buf : ℕ → ℕ → ℕ) where
  -- An attached process and its memory.
  pub record IsSound (h : Handler) : Type 0 where
    pub attached : h.mem_attached ≡ true
    pub memory : IsDebugRt h.shared
    pub groups :
        (i : ℕ) (g : GroupDebugRt)
        → i < h.shared.num_alloc_groups
        → get_elem? h.shared.debug_groups i ≡ some g
        → IsGroupSound (prof_buf i) g

  -- The process with another group `i`.
  abbrev pub written : Handler → ℕ → GroupDebugRt → Handler
  written h i g =
      let d = h.shared in record h { shared = record d { debug_groups = set d.debug_groups i g } }

  -- Group `i` of a sound process.
  pub group_of :
      (h : Handler) (i : ℕ)
      → IsSound h
      → i < h.shared.num_alloc_groups
      → (g : GroupDebugRt) × (get_elem? h.shared.debug_groups i ≡ some g)
        × IsGroupSound (prof_buf i) g
  group_of h i v below =
      let (g, at) = get_elem?-some h.shared.debug_groups i (omega (arith, v.memory)) in
      (g, at, v.groups i g below at)

  pub written-IsSound :
      (h : Handler) (i : ℕ) (g g' : GroupDebugRt)
      → IsSound h
      → i < h.shared.num_alloc_groups
      → get_elem? h.shared.debug_groups i ≡ some g
      → IsGroupSound (prof_buf i) g'
      → IsSound (written h i g')
  written-IsSound h i g g' v below at sound =
      let gs = h.shared.debug_groups in
      let here = get_elem?-set_self gs i g' (get_elem?-lt gs i g at) in
      record {
        attached = v.attached;
        memory = record {
          array = length-set gs i g' ∙ v.memory.array;
          few = v.memory.few;
          arrays = λ j b there. elim (ℕ_discrete i j) [
            | no ne ↦ v.memory.arrays j b (sym (get_elem?-set_ne gs i j g' ne) ∙ there)
            | yes e ↦
                let b_is =
                  some-injective g' b
                    (sym (subst (λ k. get_elem? (set gs i g') k ≡ some g') e here) ∙ there) in
                subst HasArrays b_is (sound-HasArrays (prof_buf i) g' sound)
          ];
          named = λ j b lt there. elim (ℕ_discrete i j) [
            | no ne ↦ v.memory.named j b lt (sym (get_elem?-set_ne gs i j g' ne) ∙ there)
            | yes e ↦
                let b_is =
                  some-injective g' b
                    (sym (subst (λ k. get_elem? (set gs i g') k ≡ some g') e here) ∙ there) in
                subst (λ (x : GroupDebugRt). length x.group_name < trace_string_size) b_is
                  sound.named
          ];
        };
        groups = λ j b lt there. elim (ℕ_discrete i j) [
          | no ne ↦ v.groups j b lt (sym (get_elem?-set_ne gs i j g' ne) ∙ there)
          | yes e ↦
              let b_is =
                some-injective g' b
                  (sym (subst (λ k. get_elem? (set gs i g') k ≡ some g') e here) ∙ there) in
              subst (λ k. IsGroupSound (prof_buf k) b) e
                (subst (IsGroupSound (prof_buf i)) b_is sound)
        ];
      }
