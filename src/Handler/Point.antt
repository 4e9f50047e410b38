-- ===== src/Handler/Point.antt =====
-- `CProfilePoint` of rt_debug_cpp/api/rt_debug_cpp_defs.h: the C++ wrapper of a profiler point, which passes
-- its calls on to the handler.
use rt_debug_lib.Base.{ℕ, ◌-◌, ◌^◌, ◌≡◌, refl, Option, List, Result, ok, ◌>>=◌}
use rt_debug_lib.CString.{CStr}
use rt_debug_lib.Clock.{Timespec}
use rt_debug_lib.MemArea.{MemArea}
use rt_debug_lib.Profile
use rt_debug_lib.Profile.{ProfilePoint, ProfileData, time_eval, reset_data, reset, set_max_calls}
use rt_debug_lib.Handler.{Handler, handle, rtdbg_alloc_rt_debug_group, rtdbg_add_profiler}
use rt_debug_lib.Handler.Measure.{
  rtdbg_prof_init, rtdbg_prof_flush_meas, rtdbg_start_prof_meas, rtdbg_stop_prof_meas,
  rtdbg_stop_start_prof_meas,
}

pub record CppPoint : Type 0 where
  pub base : ProfilePoint
  pub group_id : ℕ

-- The constructor, which leaves mem_ptr_ as it is.
abbrev pub new_point : ProfilePoint → CppPoint
new_point p = record {
  base = record p {
    cnt_id = 0;
    max_calls = 500;
    acc_cnt = 0;
    prof_id = 2 ^ 32 - 1;
    start_val = 0;
    delta = 0;
    eval_type = time_eval;
  };
  group_id = 2 ^ 32 - 1;
}

abbrev pub point_set_max_calls : ℕ → CppPoint → CppPoint
point_set_max_calls val c = record c { base = set_max_calls val c.base }

-- CProfilePoint::Init; `trace_buf`, `prof_buf` and `fifo_address` say where buffers and FIFOs stand in the
-- process, and `rounds` is what the clock shows to the calibration.
unfoldable pub point_init :
    (ℕ → ℕ)
    → (ℕ → ℕ → ℕ)
    → (ℕ → ℕ → ℕ)
    → List (Timespec × Timespec)
    → CStr
    → CStr
    → CppPoint
    → Handler
    → Result (CppPoint × Handler)
point_init trace_buf prof_buf fifo_address rounds name group_name c h = do
  (g, h1) ← rtdbg_alloc_rt_debug_group trace_buf group_name h
  let group_id = handle g
  (i, h2) ← rtdbg_add_profiler (prof_buf group_id) group_id name h1
  let p = c.base
  let p' = reset (record p { prof_id = handle i; prof_data = reset_data })
  base ← rtdbg_prof_init fifo_address group_id p'.prof_id p'.max_calls rounds p' h2
  ok (record { base = base; group_id = group_id }, h2)

-- Update, Start, StopContinue
unfoldable pub point_update :
    ℕ → ℕ → CppPoint → MemArea ProfileData → Result (CppPoint × MemArea ProfileData)
point_update fifo_address buf_address c m = do
  (p, m') ← rtdbg_prof_flush_meas fifo_address buf_address c.base m
  ok (record c { base = p }, m')

unfoldable pub point_start : Timespec → ℕ → CppPoint → Result CppPoint
point_start now tsc c = do p ← rtdbg_start_prof_meas now tsc c.base; ok (record c { base = p })

abbrev pub point_stop_continue : Timespec → ℕ → CppPoint → CppPoint
point_stop_continue now tsc c = record c { base = rtdbg_stop_start_prof_meas now tsc c.base }

-- CProfilePoint::Reset and ForceStop
abbrev pub point_reset : CppPoint → CppPoint
point_reset c = record c { base = reset c.base }

unfoldable pub point_force_stop :
    ℕ → ℕ → CppPoint → MemArea ProfileData → Result (CppPoint × MemArea ProfileData)
unfolding point_update
point_force_stop fifo_address buf_address c m = do
  (c', m') ← point_update fifo_address buf_address c m
  ok (point_reset c', m')

-- CProfilePoint::Stop, whose value is not passed on.
unfoldable pub point_stop :
    ℕ
    → ℕ
    → Timespec
    → ℕ
    → Option ℕ
    → CppPoint
    → MemArea ProfileData
    → Result (CppPoint × MemArea ProfileData)
point_stop fifo_address buf_address now tsc prof_valp c m = do
  (p, m') ← rtdbg_stop_prof_meas fifo_address buf_address now tsc c.base m
  ok (record c { base = p }, m')

-- CProfilePoint::Init after CProfilePoint::SetMaxCalls, in any process and for any limit, does just what it
-- does without that call, errors included: the limit is lost.
pub point_init-point_set_max_calls :
    (trace_buf : ℕ → ℕ) (prof_buf fifo_address : ℕ → ℕ → ℕ) (rounds : List (Timespec × Timespec))
    (name group_name : CStr) (val : ℕ) (c : CppPoint) (h : Handler)
    → point_init trace_buf prof_buf fifo_address rounds name group_name
        (point_set_max_calls val c)
        h
      ≡ point_init trace_buf prof_buf fifo_address rounds name group_name c h
unfolding point_init rtdbg_prof_init Profile.init set_max_calls reset Profile.reset_init
point_init-point_set_max_calls trace_buf prof_buf fifo_address rounds name group_name val c h = refl
