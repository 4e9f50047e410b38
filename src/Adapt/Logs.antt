-- ===== src/Adapt/Logs.antt =====
-- RT_debug_get_grp_log of the C adapter against RTDBG_GetLog.
use rt_debug_lib.Base.{ℕ, ◌^◌, ◌<◌, ◌≡◌, true, Option, none, some, arith, Result, ok, err, Fault}
use rt_debug_lib.CString.{CStr}
use rt_debug_lib.Clock.{Timespec}
use rt_debug_lib.DebugRt.{max_group_num}
use rt_debug_lib.Handler.{Handler}
use rt_debug_lib.Handler.Merge.{rtdbg_get_log}
use rt_debug_lib.Adapt.{rt_debug_get_grp_log}

-- A call that finds a line and writes its time through NULL.
abbrev pub without_time :
    Result (Option (CStr × Timespec) × Handler) → Result (Option (CStr × Timespec) × Handler)
without_time (ok (none, h)) = ok (none, h)
without_time (ok (some line, h)) = err Fault.null_deref
without_time (err e) = err e

-- RT_debug_get_grp_log for a group below MAX_GROUP_NUM and a buffer that is not NULL: wherever
-- RTDBG_GetLog with a place for the time would return a line, it writes to NULL instead; it can only return
-- false, and does so where RTDBG_GetLog does.
pub get_grp_log_never_returns_line :
    (size group_id : ℕ) (now : Timespec) (h : Handler)
    → group_id < max_group_num
    → rt_debug_get_grp_log size true now group_id h
      ≡ without_time (rtdbg_get_log size true now (2 ^ group_id) h)
unfolding rt_debug_get_grp_log rtdbg_get_log
get_grp_log_never_returns_line size group_id now h below = ground arith
