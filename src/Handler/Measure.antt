-- ===== src/Handler/Measure.antt =====
-- The profiler calls of CDebugHandler on a point that an application holds (RTDBG_ProfInit to
-- RTDBG_StopStartProfMeas of rt_debug_cpp/src/rt_debug_main.h). `fifo_address i j` is where the FIFO
-- of profiler `j` of group `i` stands in this process, and `buf_address` where its buffer does.
use rt_debug_lib.Base.{ℕ, none, some, List, Result, ok, Fault, require, ◌>>=◌, ◌>>◌}
use rt_debug_lib.Clock.{Timespec}
use rt_debug_lib.MemArea.{MemArea}
use rt_debug_lib.Profile
use rt_debug_lib.Profile.{ProfilePoint, ProfileData}
use rt_debug_lib.DebugRt.{get_debug_grp}
use rt_debug_lib.Handler.{Handler}

-- RTDBG_ProfInit, which does not test that the process is attached.
unfoldable pub rtdbg_prof_init :
    (ℕ → ℕ → ℕ)
    → ℕ
    → ℕ
    → ℕ
    → List (Timespec × Timespec)
    → ProfilePoint
    → Handler
    → Result ProfilePoint
rtdbg_prof_init fifo_address debug_grp prof_id meas_cnt rounds prof_point h = do
  require h.mem_attached Fault.null_deref
  _ ← get_debug_grp debug_grp h.shared
  ok (Profile.init (fifo_address debug_grp prof_id) meas_cnt rounds prof_point)

-- RTDBG_ProfFlushMeas
abbrev pub rtdbg_prof_flush_meas :
    ℕ → ℕ → ProfilePoint → MemArea ProfileData → Result (ProfilePoint × MemArea ProfileData)
rtdbg_prof_flush_meas fifo_address buf_address p m = Profile.update fifo_address buf_address p m

-- RTDBG_StartProfMeas
abbrev pub rtdbg_start_prof_meas : Timespec → ℕ → ProfilePoint → Result ProfilePoint
rtdbg_start_prof_meas now tsc p = Profile.start now tsc p

-- RTDBG_StopProfMeas
abbrev pub rtdbg_stop_prof_meas :
    ℕ
    → ℕ
    → Timespec
    → ℕ
    → ProfilePoint
    → MemArea ProfileData
    → Result (ProfilePoint × MemArea ProfileData)
rtdbg_stop_prof_meas fifo_address buf_address now tsc p m =
    Profile.stop fifo_address buf_address now tsc none p m

-- RTDBG_PutProfVal
abbrev pub rtdbg_put_prof_val :
    ℕ → ℕ → ℕ → ProfilePoint → MemArea ProfileData → Result (ProfilePoint × MemArea ProfileData)
rtdbg_put_prof_val fifo_address buf_address val p m =
    Profile.stop fifo_address buf_address (record { tv_sec = 0; tv_nsec = 0 }) 0 (some val) p m

-- RTDBG_StopStartProfMeas
abbrev pub rtdbg_stop_start_prof_meas : Timespec → ℕ → ProfilePoint → ProfilePoint
rtdbg_stop_start_prof_meas now tsc p = Profile.stop_continue now tsc p
