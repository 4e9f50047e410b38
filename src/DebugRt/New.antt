-- ===== src/DebugRt/New.antt =====
-- CGroupDebugRT: what a group is after Reset and after Init.
use rt_debug_lib.Base.{
  ℕ, zero, suc, ◌-◌, ltb, ◌%◌, ◌≤◌, ◌<◌, ◌≡◌, ◌≢◌, refl, ap, sym, ◌∙◌, length-map, true, false,
  some, [], ◌∷◌, length, get_elem?, arith, Returns, Returns-result, take,
}
use rt_debug_lib.CString.{CStr, codes}
use rt_debug_lib.MemArea.Invariant.{capacity}
use rt_debug_lib.MemArea.Setup.{setup-IsValid}
use rt_debug_lib.MemArea.{MemArea, setup, e_read}
use rt_debug_lib.Counters
use rt_debug_lib.Counters.{num_counters, cnt_names, trace_string_size}
use rt_debug_lib.Counters.Laws
use rt_debug_lib.Tracer
use rt_debug_lib.Tracer.{TraceEntry, TraceGroup, def_format, no_data_ind}
use rt_debug_lib.Tracer.Formats
use rt_debug_lib.Tracer.Reset
use rt_debug_lib.Logger
use rt_debug_lib.Logger.{LogGroup, log_entry_size, log_group_bufsize}
use rt_debug_lib.Logger.Laws.{IsLogGroup, logs}
use rt_debug_lib.ProfilerGroup
use rt_debug_lib.Profile.{ProfileData}
use rt_debug_lib.ProfilerGroup.{prof_names, prof_group_max, prof_fifo_size}
use rt_debug_lib.DebugRt.{GroupDebugRt, reset_group, init_group}

-- The arrays of a group, whatever is in them.
pub record HasArrays (g : GroupDebugRt) : Type 0 where
  pub log_entries : log_group_bufsize ≤ length g.logger.logs_fifo.buf
  pub traces : Tracer.Reset.HasArrays g.tracer
  pub counters : length g.event_counters.rt_counters ≡ num_counters
  pub profilers : length g.profiler.prof_fifo ≡ prof_group_max
  pub buffers :
      (i : ℕ) (m : MemArea ProfileData)
      → get_elem? g.profiler.prof_fifo i ≡ some m
      → prof_fifo_size ≤ length m.buf

-- A group with its arrays, of that name, that holds no log, no profiler, no counter and only the default format.
pub record IsNew (name : CStr) (g : GroupDebugRt) : Type 0 where
  pub arrays : HasArrays g
  pub log_group : IsLogGroup g.logger
  pub no_logs : logs g.logger ≡ []
  pub log_room : capacity g.logger.logs_fifo ≡ log_group_bufsize - 2
  pub trace_group : Tracer.Formats.IsValid g.tracer
  pub one_format : Tracer.Formats.format_names g.tracer ≡ def_format ∷ []
  pub counter_group : Counters.Laws.IsValid g.event_counters
  pub no_counters : cnt_names g.event_counters ≡ []
  pub no_profilers : prof_names g.profiler ≡ []
  pub none_in_use : g.profiler.num_alloc_prof ≡ 0
  pub named : g.group_name ≡ name

strncpy_short : (n : ℕ) (s : CStr) → length s < n → take n s ≡ s
strncpy_short zero s h = elim h [ ]
strncpy_short (suc n) [] h = refl
strncpy_short (suc n) (x ∷ s) h = ap (◌∷◌ x) (strncpy_short n s (omega arith))

module _ (trace_buf : ℕ) (name : CStr) (g : GroupDebugRt) (h : HasArrays g) where
  log_reset :
      Returns
        (Logger.reset false g.logger)
        λ l. IsLogGroup l × (logs l ≡ []) × (capacity l.logs_fifo ≡ log_group_bufsize - 2)
  unfolding Logger.reset
  log_reset =
      let (m, run, s) =
        Returns-result
          (setup log_entry_size log_group_bufsize (codes "Log_data") e_read 0 g.logger.logs_fifo) _
          (setup-IsValid log_entry_size log_group_bufsize (codes "Log_data") g.logger.logs_fifo
            e_read 0 (omega arith) (omega arith) h.log_entries (omega arith) (omega arith)
            (omega arith) (omega arith)) in
      rw run (s.0, s.1, s.2)

  -- Reset(false) with a trace buffer at an address other than 0 that is a multiple of 8 never faults, and empties
  -- any group with its arrays: no log, profiler or counter, and only the default trace format.
  pub reset_group-IsNew :
      trace_buf ≢ 0
      → trace_buf % 8 ≡ 0
      → Returns (reset_group trace_buf false g) (IsNew g.group_name)
  unfolding reset_group ProfilerGroup.reset
  reset_group-IsNew some_address aligned =
      let (l, run, lg) = Returns-result (Logger.reset false g.logger) _ log_reset in
      let (t, run', tr) =
        Returns-result (Tracer.reset false trace_buf g.tracer) _
          (Tracer.Reset.reset-format_names g.tracer h.traces trace_buf some_address aligned) in
      let c = Counters.Laws.reset-IsValid g.event_counters h.counters in
      rw (run, run')
        (record {
          arrays = record {
            log_entries = omega (arith, lg);
            traces = record {
              formats = tr.0.array;
              entries =
                  sym (length-map (λ (e : TraceEntry). e.status) t.trace_fifo.buf)
                  ∙ ap length tr.2
                  ∙ length-map (λ _. no_data_ind) g.tracer.trace_fifo.buf
                  ∙ h.traces.entries;
            };
            counters = c.0.array;
            profilers = h.profilers;
            buffers = h.buffers;
          };
          log_group = lg.0;
          no_logs = lg.1;
          log_room = lg.2;
          trace_group = tr.0;
          one_format = tr.1;
          counter_group = c.0;
          no_counters = c.1;
          no_profilers = refl;
          none_in_use = refl;
          named = refl;
        })

  -- Init, for a name below TRACE_STRING_SIZE and a trace buffer at an address other than 0 that is
  -- a multiple of 8, never faults and makes a new group of that name, with no log, profiler or
  -- counter and only the default trace format, out of any group with its arrays.
  pub init_group-IsNew :
      length name < trace_string_size
      → trace_buf ≢ 0
      → trace_buf % 8 ≡ 0
      → Returns (init_group trace_buf name g) (IsNew name)
  unfolding init_group Logger.set_group_name Tracer.set_group_name ProfilerGroup.set_group_name
      Counters.set_group_name
  init_group-IsNew fits some_address aligned =
      let (g', run, new) =
        Returns-result (reset_group trace_buf false g) _ (reset_group-IsNew some_address aligned) in
      let short : ltb (length name) trace_string_size ≡ true = ground arith in
      let a = new.arrays in
      rw (run, short)
        (record {
          arrays = record {
            log_entries = a.log_entries;
            traces = record { formats = a.traces.formats; entries = a.traces.entries };
            counters = a.counters;
            profilers = a.profilers;
            buffers = a.buffers;
          };
          log_group = new.log_group;
          no_logs = new.no_logs;
          log_room = new.log_room;
          trace_group =
              (let v = new.trace_group in
                record {
                  array = v.array;
                  few = v.few;
                  distinct = v.distinct;
                  entries = v.entries;
                  pool = v.pool;
                });
          one_format = new.one_format;
          counter_group =
              (let v = new.counter_group in
                record { array = v.array; few = v.few; distinct = v.distinct });
          no_counters = new.no_counters;
          no_profilers = new.no_profilers;
          none_in_use = new.none_in_use;
          named = strncpy_short trace_string_size name fits;
        })
