-- ===== src/Adapt/Macros.antt =====
-- The macros of rt_debug/api/rt_debug_adap_api.h. Group and name are pasted into the enumerator of a
-- list's entry, which is its place in the list; __LINE__ is the argument `line`.
use rt_debug_lib.Base.{ℕ, Option, List, Result, ◌>>=◌}
use rt_debug_lib.CString.{CStr, strcpy}
use rt_debug_lib.Clock.{Timespec}
use rt_debug_lib.MemArea.{MemArea}
use rt_debug_lib.Profile.{ProfilePoint, ProfileData}
use rt_debug_lib.Handler.{Handler}
use rt_debug_lib.Adapt.{
  Adapter, rt_debug_save_trace, rt_debug_save_log, rt_debug_prof_init, rt_debug_prof_start,
  rt_debug_prof_stop, rt_debug_prof_flush, rt_debug_get_event_cnt,
}

abbrev pub rtdbg_save_trace :
    Timespec → ℕ → Adapter → ℕ → ℕ → ℕ → ℕ → ℕ → ℕ → Handler → Result (Unit {0} × Handler)
rtdbg_save_trace now thread a id line v0 v1 v2 v3 h =
    rt_debug_save_trace now thread a id line v0 v1 v2 v3 h

-- `buf` of RTDBG_SAVE_LOG
abbrev pub buf_size : ℕ
buf_size = 100

-- `text` is what sprintf makes of the arguments.
unfoldable pub rtdbg_save_log : Timespec → ℕ → CStr → Handler → Result (Unit {0} × Handler)
rtdbg_save_log now grp_name text h = do
  buf ← strcpy buf_size text
  rt_debug_save_log now grp_name buf h

abbrev pub rtdbg_init_prof :
    (ℕ → ℕ → ℕ)
    → Adapter
    → ℕ
    → ℕ
    → List (Timespec × Timespec)
    → ProfilePoint
    → Handler
    → Result ProfilePoint
rtdbg_init_prof fifo_address a id meas_cnt rounds prof h =
    rt_debug_prof_init fifo_address a id meas_cnt rounds prof h

abbrev pub rtdbg_start_prof : Adapter → ℕ → Timespec → ℕ → ProfilePoint → Result ProfilePoint
rtdbg_start_prof a id now tsc prof = rt_debug_prof_start a id now tsc prof

abbrev pub rtdbg_stop_prof :
    Adapter
    → ℕ
    → ℕ
    → ℕ
    → Timespec
    → ℕ
    → ProfilePoint
    → MemArea ProfileData
    → Result (ProfilePoint × MemArea ProfileData)
rtdbg_stop_prof a id fifo_address buf_address now tsc prof fifo =
    rt_debug_prof_stop a id fifo_address buf_address now tsc prof fifo

abbrev pub rtdbg_flush_data_prof :
    Adapter
    → ℕ
    → ℕ
    → ℕ
    → ProfilePoint
    → MemArea ProfileData
    → Result (ProfilePoint × MemArea ProfileData)
rtdbg_flush_data_prof a id fifo_address buf_address prof fifo =
    rt_debug_prof_flush a id fifo_address buf_address prof fifo

abbrev pub rtdbg_get_event_cntr_ptr : Adapter → ℕ → Result (Option (ℕ × ℕ))
rtdbg_get_event_cntr_ptr a id = rt_debug_get_event_cnt a id
