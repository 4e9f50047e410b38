-- ===== src/Handler/Memory/Steps.antt =====
-- One call on a sound memory, for each kind of call.
use rt_debug_lib.Base.{
  ℕ, ◌-◌, ◌<◌, ◌≡◌, refl, ◌∙◌, ap, true, false, Bool-cases, inl, inr, some, none, set,
  get_elem?-some, length, get_elem?, arith, Result, ok, Returns, Returns-result,
}
use rt_debug_lib.CString.{CStr}
use rt_debug_lib.Clock.{Timespec}
use rt_debug_lib.Counters
use rt_debug_lib.Counters.{num_counters, trace_string_size}
use rt_debug_lib.Counters.Laws.{alloc_cnt_returns}
use rt_debug_lib.Tracer
use rt_debug_lib.Tracer.{max_trace_formats}
use rt_debug_lib.Tracer.Formats.{add_trace_format_returns}
use rt_debug_lib.Tracer.Entries.{TraceCall, traced, add_trace_lem}
use rt_debug_lib.Logger.Laws.{add_log-Adds}
use rt_debug_lib.MemArea.{mdo_name_size}
use rt_debug_lib.ProfilerGroup
use rt_debug_lib.ProfilerGroup.{ProfilerGroup}
use rt_debug_lib.ProfilerGroup.{prof_group_max}
use rt_debug_lib.ProfilerGroup.Names.{registry_returns}
use rt_debug_lib.MemArea.{MemArea}
use rt_debug_lib.Profile.{ProfilePoint, ProfileData}
use rt_debug_lib.Profile.Update.{IsProfFifo}
use rt_debug_lib.Profile.Update.Total.{IsKept, update_total, stop_total}
use rt_debug_lib.ProfilerGroup.Names.Fed.{fed-IsProfGroup}
use rt_debug_lib.Handler.Measure.{rtdbg_stop_prof_meas, rtdbg_put_prof_val, rtdbg_prof_flush_meas}
use rt_debug_lib.DebugRt.{GroupDebugRt, get_debug_grp, set_data_collection}
use rt_debug_lib.DebugRt.Init.{IsAligned}
use rt_debug_lib.Handler.{
  Handler, rtdbg_stopped, with_group, rtdbg_add_log, rtdbg_add_trace, rtdbg_start, rtdbg_stop,
  init_extract_tables, rtdbg_alloc_rt_debug_group, rtdbg_alloc_counter, rtdbg_add_trace_entry,
  rtdbg_add_profiler,
}
use rt_debug_lib.Handler.Memory.{IsGroupSound, IsSound, written, group_of, written-IsSound}
use rt_debug_lib.Handler.Memory.Parts.{
  logged-IsGroupSound, traced-IsGroupSound, formatted-IsGroupSound, counted-IsGroupSound,
  profiled-IsGroupSound,
}
use rt_debug_lib.Handler.Memory.Grown.{alloc-IsSound, init-IsSound}
use rt_debug_lib.Handler.Memory.Calls.{
  Call, alloc_group, alloc_counter, add_format, add_profiler, log, trace, start, stop, init_all,
  stop_meas, put_val, flush_meas, on_fifo, Allowed, perform,
}

module _ (trace_buf : ℕ → ℕ) (trace_aligned : IsAligned trace_buf) (prof_buf : ℕ → ℕ → ℕ)
    (prof_aligned : (i : ℕ) → IsAligned (prof_buf i)) where
  abbrev pub run_of : Call → Handler → Result Handler
  run_of c h = perform trace_buf prof_buf c h

  module _ (h : Handler) (v : IsSound prof_buf h) where
    ends :
        (c : Call) (h' : Handler)
        → IsSound prof_buf h'
        → run_of c h ≡ ok h'
        → Returns (run_of c h) (IsSound prof_buf)
    ends c h' sound ran = rw ran sound

    -- Another mark of whether data are collected, and what is not of the memory.
    marked-IsSound :
        (h' : Handler)
        → h'.mem_attached ≡ h.mem_attached
        → h'.shared.debug_groups ≡ h.shared.debug_groups
        → h'.shared.num_alloc_groups ≡ h.shared.num_alloc_groups
        → IsSound prof_buf h'
    marked-IsSound h' attached groups num = record {
      attached = attached ∙ v.attached;
      memory = record {
        array = ap length groups ∙ v.memory.array;
        few = omega (arith, v.memory, num);
        arrays = λ i g at. v.memory.arrays i g (rw⁻¹ groups at);
        named = λ i g lt at. v.memory.named i g (omega (arith, lt, num)) (rw⁻¹ groups at);
      };
      groups = λ i g lt at. v.groups i g (omega (arith, lt, num)) (rw⁻¹ groups at);
    }

    alloc_group_lem :
        (s : CStr)
        → Allowed h (alloc_group s)
        → Returns (run_of (alloc_group s) h) (IsSound prof_buf)
    unfolding perform
    alloc_group_lem s (fits, room) =
        let (out, run, sound) =
          Returns-result (rtdbg_alloc_rt_debug_group trace_buf s h) _
            (alloc-IsSound trace_buf trace_aligned prof_buf h s v fits room) in
        rw run sound

    log_lem :
        (now : Timespec) (i : ℕ) (s : CStr)
        → i < h.shared.num_alloc_groups
        → Returns (run_of (log now i s) h) (IsSound prof_buf)
    unfolding perform rtdbg_add_log with_group get_debug_grp
    log_lem now i s below = elim (Bool-cases h.shared.active) [
      | inr off ↦ ends (log now i s) h v (ground (arith, v.attached, off))
      | inl on ↦
          let (g, here, sound) = group_of prof_buf h i v below in
          let (l, run, added) = add_log-Adds g.logger now s sound.logger in
          let ran : run_of (log now i s) h ≡ ok (written prof_buf h i (record g { logger = l })) =
            ground (arith, v.attached, on, below, here, run) in
          rw ran (
            written-IsSound prof_buf h i g (record g { logger = l }) v below here
              (logged-IsGroupSound (prof_buf i) g sound l now s added))
    ]

    module _ (i : ℕ) (g : GroupDebugRt) (below : i < h.shared.num_alloc_groups)
        (here : get_elem? h.shared.debug_groups i ≡ some g) where
      sound_at : IsGroupSound (prof_buf i) g
      sound_at = v.groups i g below here

      store :
          (c : Call) (g' : GroupDebugRt)
          → IsGroupSound (prof_buf i) g'
          → run_of c h ≡ ok (written prof_buf h i g')
          → Returns (run_of c h) (IsSound prof_buf)
      store c g' sound ran = rw ran (written-IsSound prof_buf h i g g' v below here sound)

      trace_lem :
          (c : TraceCall)
          → c.trace_id < g.tracer.num_alloc_formats
          → Returns (run_of (trace i c) h) (IsSound prof_buf)
      unfolding perform rtdbg_add_trace with_group get_debug_grp
      trace_lem c known = elim (Bool-cases h.shared.active) [
        | inr off ↦ ends (trace i c) h v (ground (arith, v.attached, off))
        | inl on ↦
            let run = add_trace_lem sound_at.tracer c known in
            store (trace i c) (record g { tracer = traced c g.tracer })
              (traced-IsGroupSound (prof_buf i) g sound_at c known)
              (ground (arith, v.attached, on, below, here, run))
      ]

      add_format_lem :
          (s : CStr)
          → length s < trace_string_size
          → g.tracer.num_alloc_formats < max_trace_formats
          → Returns (run_of (add_format i s) h) (IsSound prof_buf)
      unfolding perform rtdbg_add_trace_entry with_group get_debug_grp
      add_format_lem s fits room =
          let ((k, t), run, (valid, same)) =
            Returns-result (Tracer.add_trace_format s g.tracer) _
              (add_trace_format_returns sound_at.tracer s fits room) in
          store (add_format i s) (record g { tracer = t })
            (formatted-IsGroupSound (prof_buf i) g sound_at t valid same)
            (ground (arith, v.attached, below, here, run))

      alloc_counter_lem :
          (s : CStr)
          → length s < trace_string_size
          → g.event_counters.num_alloc_counters < num_counters - 1
          → Returns (run_of (alloc_counter i s) h) (IsSound prof_buf)
      unfolding perform rtdbg_alloc_counter with_group get_debug_grp
      alloc_counter_lem s fits room =
          let ((k, c), run, done) =
            Returns-result (Counters.alloc_cnt s g.event_counters) _
              (alloc_cnt_returns sound_at.counters s fits room) in
          store (alloc_counter i s) (record g { event_counters = c })
            (counted-IsGroupSound (prof_buf i) g sound_at c done.valid)
            (ground (arith, v.attached, below, here, run, done.reachable))

      add_profiler_lem :
          (s : CStr)
          → length s < mdo_name_size
          → g.profiler.num_alloc_prof < prof_group_max
          → Returns (run_of (add_profiler i s) h) (IsSound prof_buf)
      unfolding perform rtdbg_add_profiler with_group get_debug_grp
      add_profiler_lem s fits room =
          let n = g.profiler.num_alloc_prof in
          let ((k, p), run, valid) =
            Returns-result (ProfilerGroup.registry_profile_entry (prof_buf i) s g.profiler) _ (
              registry_returns (prof_buf i) sound_at.profiler s fits (prof_aligned i n).0
                (prof_aligned i n).1 room) in
          store (add_profiler i s) (record g { profiler = p })
            (profiled-IsGroupSound (prof_buf i) g sound_at p valid)
            (ground (arith, v.attached, below, here, run))

      point_lem :
          (c : Call) (j : ℕ) (f : MemArea ProfileData → Result (ProfilePoint × MemArea ProfileData))
          → j < g.profiler.num_alloc_prof
          → ((m : MemArea ProfileData)
              → IsProfFifo (prof_buf i j) m
              → Returns (f m) λ out. IsKept (prof_buf i j) m out.1)
          → run_of c h ≡ on_fifo i j f h
          → Returns (run_of c h) (IsSound prof_buf)
      unfolding on_fifo get_debug_grp
      point_lem c j f in_use kept same =
          let p = g.profiler in
          let (m, found) =
            get_elem?-some p.prof_fifo j (omega (arith, in_use, sound_at.profiler)) in
          let ((q, m'), run, keep) =
            Returns-result (f m) _ (kept m (sound_at.profiler.fifos j m found in_use)) in
          let p' : ProfilerGroup = record p { prof_fifo = set p.prof_fifo j m' } in
          let g' : GroupDebugRt = record g { profiler = p' } in
          let fed : on_fifo i j f h ≡ ok (written prof_buf h i g') =
            ground (arith, below, here, found, run) in
          store c g'
            (profiled-IsGroupSound (prof_buf i) g sound_at p'
              (fed-IsProfGroup (prof_buf i) p j m m' sound_at.profiler found keep))
            (same ∙ fed)

    start_lem : Returns (run_of start h) (IsSound prof_buf)
    unfolding perform rtdbg_start set_data_collection
    start_lem =
        let h' : Handler = (let d = h.shared in record h { shared = record d { active = true } }) in
        ends start h' (marked-IsSound h' refl refl refl) (ground (arith, v.attached))

    stop_lem : Returns (run_of stop h) (IsSound prof_buf)
    unfolding perform rtdbg_stop set_data_collection init_extract_tables
    stop_lem =
        let h' : Handler =
          (let d = h.shared in
            record (init_extract_tables h) {
              status = rtdbg_stopped;
              shared = record d { active = false };
            }) in
        ends stop h' (marked-IsSound h' refl refl refl) (ground (arith, v.attached))

    init_all_lem : Returns (run_of init_all h) (IsSound prof_buf)
    unfolding perform
    init_all_lem =
        init-IsSound trace_buf trace_aligned prof_buf h v.attached v.memory.array v.memory.arrays

    pub call_lem : (c : Call) → Allowed h c → Returns (run_of c h) (IsSound prof_buf)
    unfolding perform
    call_lem (alloc_group s) allowed = alloc_group_lem s allowed
    call_lem (alloc_counter i s) (fits, (g, below, here, room)) =
        alloc_counter_lem i g below here s fits room
    call_lem (add_format i s) (fits, (g, below, here, room)) =
        add_format_lem i g below here s fits room
    call_lem (add_profiler i s) (fits, (g, below, here, room)) =
        add_profiler_lem i g below here s fits room
    call_lem (log now i s) below = log_lem now i s below
    call_lem (trace i c) (g, below, here, known) = trace_lem i g below here c known
    call_lem (stop_meas i j now tsc p) (g, below, here, in_use) =
        point_lem i g below here (stop_meas i j now tsc p) j
          (rtdbg_stop_prof_meas p.mem_ptr (prof_buf i j) now tsc p) in_use
          (λ m v. stop_total p.mem_ptr (prof_buf i j) m v now tsc none p refl) refl
    call_lem (put_val i j x p) (g, below, here, in_use) =
        point_lem i g below here (put_val i j x p) j
          (rtdbg_put_prof_val p.mem_ptr (prof_buf i j) x p) in_use
          (λ m v.
            stop_total p.mem_ptr (prof_buf i j) m v (record { tv_sec = 0; tv_nsec = 0 }) 0 (some x)
              p refl)
          refl
    call_lem (flush_meas i j p) (g, below, here, in_use) =
        point_lem i g below here (flush_meas i j p) j
          (rtdbg_prof_flush_meas p.mem_ptr (prof_buf i j) p) in_use
          (λ m v. update_total p.mem_ptr (prof_buf i j) m v p refl) refl
    call_lem start allowed = start_lem
    call_lem stop allowed = stop_lem
    call_lem init_all allowed = init_all_lem
