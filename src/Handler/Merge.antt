-- ===== src/Handler/Merge.antt =====
-- RTDBG_GetTraceEntry (rt_debug_cpp/src/rt_debug_main.cc) and RTDBG_GetLog (rt_debug_main.h beside
-- it): the earliest line among those of all groups, one of each group at a time.
use rt_debug_lib.Base.{
  ℕ, zero, suc, ◌+◌, ◌/◌, ◌%◌, ◌^◌, Bool, true, false, not, ◌&&◌, Option, none, some, set, ◌==◌,
  if◌then◌else◌, Result, ok, Fault, require, at, ◌>>=◌, ◌>>◌,
}
use rt_debug_lib.CString.{CStr, strcpy}
use rt_debug_lib.Clock.{Timespec, diff_between_timespec, is_positive, is_negative}
use rt_debug_lib.Tracer.{Printf, no_data_ind, data_ind, trace_empty_data, get_trace_entry}
use rt_debug_lib.Logger.{log_string_size, get_log_entry}
use rt_debug_lib.DebugRt.{get_debug_grp, is_data_collected}
use rt_debug_lib.Handler.{Handler, with_group}

-- sizeof(TraceInfo::trace_str)
abbrev pub trace_str_size : ℕ
trace_str_size = 256

-- What the loops carry: `min_time`, `min_index` and the process.
abbrev pub Search : Type 0
Search = Timespec × Option ℕ × Handler

-- Group `i` in the loop of RTDBG_GetTraceEntry; its own GetTraceEntry reads the time `now`.
unfoldable pub trace_step : Printf → Timespec → ℕ → Search → Result Search
trace_step printf now i (min_time, min_index, h) = do
  _ ← get_debug_grp i h.shared
  info ← at h.grp_trace_res i
  (info', h') ←
      (if info.status == no_data_ind
        then (do
          (r, h') ←
              with_group i
                (λ g. do
                  (r, t) ← get_trace_entry printf trace_str_size now g.tracer
                  ok (r, record g { tracer = t }))
                h
          ok (elim r [
            | none ↦ (record info { status = trace_empty_data }, h')
            | some (text, time) ↦
                (record { trace_str = text; lin_time = time; status = data_ind }, h')
          ]))
        else ok (info, h))
  let better =
      not (info'.status == trace_empty_data)
      && is_negative (diff_between_timespec info'.lin_time min_time)
  ok (
    (if better then info'.lin_time else min_time),
    (if better then some i else min_index),
    record h' { grp_trace_res = set h'.grp_trace_res i info' },
  )

-- The loop over the groups from `i` on, with the time that each group's call reads.
unfoldable pub trace_loop : Printf → (ℕ → Timespec) → ℕ → ℕ → Search → Result Search
unfolding trace_step
trace_loop printf now zero i s = ok s
trace_loop printf now (suc n) i s = do
  s' ← trace_step printf (now i) i s
  trace_loop printf now n (i + 1) s'

-- RTDBG_GetTraceEntry into a buffer of `size` bytes; `none` where it returns false. The number of
-- groups is read before the test of `mem_attached_`, which faults where nothing is attached.
unfoldable pub rtdbg_get_trace_entry :
    Printf → ℕ → Timespec → (ℕ → Timespec) → Handler → Result (Option (CStr × Timespec) × Handler)
unfolding trace_loop
rtdbg_get_trace_entry printf size min_time now h = do
  require h.mem_attached Fault.null_deref
  if is_data_collected h.shared then ok (none, h) else (do
    (_, min_index, h') ← trace_loop printf now h.shared.num_alloc_groups 0 (min_time, none, h)
    elim min_index [
      | none ↦ ok (none, h')
      | some i ↦ do
        info ← at h'.grp_trace_res i
        text ← strcpy size info.trace_str
        ok (
          some (text, info.lin_time),
          record h' {
            grp_trace_res = set h'.grp_trace_res i (record info { status = no_data_ind });
          },
        )
    ])

-- mask_logs & 1 << i
abbrev pub in_mask : ℕ → ℕ → Bool
in_mask mask_logs i = mask_logs / 2 ^ i % 2 == 1

-- Group `i` in the loop of RTDBG_GetLog. A group outside the mask is compared by whatever log is kept.
unfoldable pub log_step : ℕ → ℕ → Search → Result Search
log_step mask_logs i (min_time, min_index, h) = do
  last ← at h.grp_logs_last i
  (considered, last', h') ←
      (if in_mask mask_logs i && not last.valid
        then (do
          (r, h') ←
              with_group i
                (λ g. do
                  (r, l) ← get_log_entry log_string_size g.logger
                  ok (r, record g { logger = l }))
                h
          ok (elim r [
            | none ↦ (false, record last { valid = false }, h')
            | some (text, time) ↦
                (true, record { linux_time = time; log_str = text; valid = true }, h')
          ]))
        else ok (true, last, h))
  let better = considered && is_positive (diff_between_timespec min_time last'.linux_time)
  ok (
    (if better then last'.linux_time else min_time),
    (if better then some i else min_index),
    record h' { grp_logs_last = set h'.grp_logs_last i last' },
  )

unfoldable pub log_loop : ℕ → ℕ → ℕ → Search → Result Search
unfolding log_step
log_loop mask_logs zero i s = ok s
log_loop mask_logs (suc n) i s = do s' ← log_step mask_logs i s; log_loop mask_logs n (i + 1) s'

-- RTDBG_GetLog into a buffer of `size` bytes; `time_given` says that `linux_time` is not NULL.
unfoldable pub rtdbg_get_log :
    ℕ → Bool → Timespec → ℕ → Handler → Result (Option (CStr × Timespec) × Handler)
unfolding log_loop
rtdbg_get_log size time_given min_time mask_logs h =
    if h.mem_attached
    then (do
      (_, min_index, h') ← log_loop mask_logs h.shared.num_alloc_groups 0 (min_time, none, h)
      elim min_index [
        | none ↦ ok (none, h')
        | some i ↦ do
          last ← at h'.grp_logs_last i
          text ← strcpy size last.log_str
          require time_given Fault.null_deref
          ok (
            some (text, last.linux_time),
            record h' { grp_logs_last = set h'.grp_logs_last i (record last { valid = false }) },
          )
      ])
    else ok (none, h)
