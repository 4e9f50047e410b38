-- ===== src/Handler/Memory/Parts.antt =====
-- What each call changes of a group: its logger, its tracer, its counters or its profiler.
use rt_debug_lib.Base.{ℕ, ◌≡◌, ◌<◌, ◌∙◌, ap, length, length-set, [], ◌∷◌}
use rt_debug_lib.CString.{CStr}
use rt_debug_lib.Clock.{Timespec}
use rt_debug_lib.Counters.{RtCounterGrp}
use rt_debug_lib.Counters.Laws as CounterLaws
use rt_debug_lib.Tracer.{TraceGroup}
use rt_debug_lib.Tracer.Formats
use rt_debug_lib.Tracer.Entries.{TraceCall, next_entry, traced, traced-IsValid}
use rt_debug_lib.Logger.{LogGroup}
use rt_debug_lib.Logger.Laws.{Adds}
use rt_debug_lib.ProfilerGroup.{ProfilerGroup}
use rt_debug_lib.ProfilerGroup.Names.{IsProfGroup}
use rt_debug_lib.DebugRt.{GroupDebugRt}
use rt_debug_lib.Handler.Memory.{IsGroupSound}

module _ (buf : ℕ → ℕ) (g : GroupDebugRt) (v : IsGroupSound buf g) where
  pub logged-IsGroupSound :
      (l : LogGroup) (now : Timespec) (s : CStr)
      → Adds g.logger ((now, s) ∷ []) l
      → IsGroupSound buf (record g { logger = l })
  logged-IsGroupSound l now s added = record {
    counters = v.counters;
    tracer = v.tracer;
    entries = v.entries;
    logger = added.0;
    log_room = added.1 ∙ v.log_room;
    profiler = v.profiler;
    named = v.named;
  }

  pub traced-IsGroupSound :
      (c : TraceCall)
      → c.trace_id < g.tracer.num_alloc_formats
      → IsGroupSound buf (record g { tracer = traced c g.tracer })
  traced-IsGroupSound c known = record {
    counters = v.counters;
    tracer = traced-IsValid v.tracer c known;
    entries = length-set g.tracer.trace_fifo.buf (next_entry g.tracer) _ ∙ v.entries;
    logger = v.logger;
    log_room = v.log_room;
    profiler = v.profiler;
    named = v.named;
  }

  pub formatted-IsGroupSound :
      (t : TraceGroup)
      → Formats.IsValid t
      → t.trace_fifo ≡ g.tracer.trace_fifo
      → IsGroupSound buf (record g { tracer = t })
  formatted-IsGroupSound t valid same = record {
    counters = v.counters;
    tracer = valid;
    entries = ap (λ m. length m.buf) same ∙ v.entries;
    logger = v.logger;
    log_room = v.log_room;
    profiler = v.profiler;
    named = v.named;
  }

  pub counted-IsGroupSound :
      (c : RtCounterGrp)
      → CounterLaws.IsValid c
      → IsGroupSound buf (record g { event_counters = c })
  counted-IsGroupSound c valid = record {
    counters = valid;
    tracer = v.tracer;
    entries = v.entries;
    logger = v.logger;
    log_room = v.log_room;
    profiler = v.profiler;
    named = v.named;
  }

  pub profiled-IsGroupSound :
      (p : ProfilerGroup) → IsProfGroup buf p → IsGroupSound buf (record g { profiler = p })
  profiled-IsGroupSound p valid = record {
    counters = v.counters;
    tracer = v.tracer;
    entries = v.entries;
    logger = v.logger;
    log_room = v.log_room;
    profiler = valid;
    named = v.named;
  }
