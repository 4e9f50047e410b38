-- ===== src/Handler/Memory/Safety.antt =====
-- No call that an application is allowed to make faults.
use rt_debug_lib.Base.{ℕ, Returns, Returns-result, Returns_of_ok}
use rt_debug_lib.DebugRt.Init.{IsAligned}
use rt_debug_lib.Handler.{Handler, rtdbg_init_all}
use rt_debug_lib.Handler.Memory.{IsSound}
use rt_debug_lib.Handler.Memory.Grown.{init-IsSound}
use rt_debug_lib.Handler.Memory.Calls.{Call, Allowed, perform, Reached, initialised, called}
use rt_debug_lib.Handler.Memory.Steps.{call_lem}

module _ (trace_buf : ℕ → ℕ) (trace_aligned : IsAligned trace_buf) (prof_buf : ℕ → ℕ → ℕ)
    (prof_aligned : (i : ℕ) → IsAligned (prof_buf i)) where
  Reached-IsSound : (h : Handler) → Reached trace_buf prof_buf h → IsSound prof_buf h
  Reached-IsSound h (initialised raw _ attached array arrays run) =
      let (h', run', sound) =
        Returns-result (rtdbg_init_all trace_buf raw) _
          (init-IsSound trace_buf trace_aligned prof_buf raw attached array arrays) in
      Returns_of_ok (IsSound prof_buf) run' run sound
  Reached-IsSound h (called before _ c reached allowed run) =
      let (h', run', sound) = Returns-result (perform trace_buf prof_buf c before) _ (
        call_lem trace_buf trace_aligned prof_buf prof_aligned before
          (Reached-IsSound before reached) c allowed) in
      Returns_of_ok (IsSound prof_buf) run' run sound

  -- After RTDBG_Init of an attached process, whatever its arrays held, and any sequence of calls in range
  -- (AllocRTDebugGroup, AllocCounter, AddTraceEntry, AddProfiler, AddLog, AddTrace, StopProfMeas, PutProfVal
  -- and ProfFlushMeas of points linked to its profilers, Start, Stop and Init): one more such call returns
  -- without a fault, and every group in use again has a valid counter table, format table and trace ring,
  -- log FIFO and profiler FIFOs. In range is a call whose group and profiler are in use, a name that fits
  -- while its table has room for one more, and a trace of one of its group's formats. The buffers are at
  -- addresses other than 0 that are multiples of 8.
  pub Reached-never_faults :
      (h : Handler) (c : Call)
      → Reached trace_buf prof_buf h
      → Allowed h c
      → Returns
          (perform trace_buf prof_buf c h)
          λ h'. Reached trace_buf prof_buf h' × IsSound prof_buf h'
  Reached-never_faults h c reached allowed =
      let (h', run, sound) = Returns-result (perform trace_buf prof_buf c h) _ (
        call_lem trace_buf trace_aligned prof_buf prof_aligned h (Reached-IsSound h reached) c
          allowed) in
      rw run (called h h' c reached allowed run, sound)
