-- ===== src/Handler/Mask.antt =====
-- RTDBG_GetLog with a mask that leaves a group out.
use rt_debug_lib.Base.{ℕ, ◌+◌, ◌*◌, ◌<◌, ◌≡◌, true, false, some, List, ◌∷◌, length, arith, ok}
use rt_debug_lib.Clock.{
  Timespec, InRange, billion, diff_between_timespec, is_positive, diff_between_timespec-order,
}
use rt_debug_lib.Handler.{Handler, LogSortData}
use rt_debug_lib.Handler.Merge.{log_step, log_loop, rtdbg_get_log}

module _ (size : ℕ) (now : Timespec) (h : Handler) (last : LogSortData) (rest : List LogSortData)
    (attached : h.mem_attached ≡ true) (single : h.shared.num_alloc_groups ≡ 1)
    (kept : h.grp_logs_last ≡ last ∷ rest) (fits : length last.log_str < size) where
  abbrev returned : Handler
  returned = record h { grp_logs_last = record last { valid = false } ∷ rest }

  later :
      InRange now
      → InRange last.linux_time
      → last.linux_time.tv_sec * billion + last.linux_time.tv_nsec
        < now.tv_sec * billion + now.tv_nsec
      → is_positive (diff_between_timespec now last.linux_time) ≡ true
  later hn hl before = (diff_between_timespec-order now last.linux_time hn hl).0.1 before

  -- The mask is not respected: with one group, which the mask 0 leaves out, RTDBG_GetLog returns the
  -- log kept for that group, valid or not, where it is earlier than now and fits into the buffer, for
  -- times in range; it only marks it as not valid, so that the next call returns it again and changes
  -- nothing more.
  pub rtdbg_get_log-masked :
      InRange now
      → InRange last.linux_time
      → last.linux_time.tv_sec * billion + last.linux_time.tv_nsec
        < now.tv_sec * billion + now.tv_nsec
      → (rtdbg_get_log size true now 0 h ≡ ok (some (last.log_str, last.linux_time), returned))
        × (rtdbg_get_log size true now 0 returned
            ≡ ok (some (last.log_str, last.linux_time), returned))
  unfolding rtdbg_get_log log_loop log_step
  rtdbg_get_log-masked hn hl before =
      let p = later hn hl before in
      (ground (arith, attached, single, kept, fits, p), ground (arith, attached, single, fits, p))
