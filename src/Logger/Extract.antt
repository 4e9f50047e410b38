-- ===== src/Logger/Extract.antt =====
-- GetLogEntry of CLog_group: the oldest log, printed into the caller's buffer.
use rt_debug_lib.Base.{
  ℕ, ◌+◌, ◌≤◌, ◌<◌, ◌≡◌, refl, ap, ◌∙◌, subst, inl, inr, Option, none, some, List, [], ◌∷◌, ◌++◌,
  length, arith, ok, err, Fault, Returns, length-append,
}
use rt_debug_lib.CString.{CStr, decimal, decimal-pos, codes}
use rt_debug_lib.Clock.{Timespec, nanos}
use rt_debug_lib.MemArea.{pop_fifo_mt}
use rt_debug_lib.MemArea.Refine.{popped, pop_cases}
use rt_debug_lib.Counters.{trace_string_size}
use rt_debug_lib.Logger.{
  LogEntry, LogGroup, log_entry_size, log_string_size, log_line, get_log_entry,
}
use rt_debug_lib.Logger.Laws.{IsLogGroup, logs}

-- The oldest log ends in a NUL, and its line and a NUL fit into `size` bytes.
abbrev pub HeadFits : ℕ → CStr → List LogEntry → Type 0
HeadFits size group_name [] = Unit {0}
HeadFits size group_name (e ∷ rest) =
    (length e.log_str < log_string_size) × (length (log_line group_name e) < size)

-- What GetLogEntry promises: the line and the time of the oldest log, which leaves the queue.
abbrev pub take_log : CStr → List LogEntry → Option (CStr × Timespec) × List LogEntry
take_log group_name [] = (none, [])
take_log group_name (e ∷ rest) = (some (log_line group_name e, e.linux_time), rest)

pub length-log_line :
    (group_name : CStr) (e : LogEntry)
    → length group_name + length e.log_str + 6 ≤ length (log_line group_name e)
unfolding log_line
length-log_line group_name e =
    let start = decimal (nanos e.linux_time) ++ codes ", " in
    omega (
      arith,
      decimal-pos (nanos e.linux_time),
      length-append (start ++ group_name ++ codes ",  ") e.log_str,
      length-append (start ++ group_name) (codes ",  "),
      length-append start group_name,
      length-append (decimal (nanos e.linux_time)) (codes ", "),
    )

module _ (size : ℕ) (g : LogGroup) (v : IsLogGroup g)
    (named : length g.group_name < trace_string_size) where
  abbrev Taken : Option (CStr × Timespec) × LogGroup → Type 0
  Taken out =
      IsLogGroup out.1
      × (out.1.group_name ≡ g.group_name)
      × ((out.0, logs out.1) ≡ take_log g.group_name (logs g))

  none_left :
      logs g ≡ []
      → pop_fifo_mt log_entry_size g.logs_fifo ≡ ok (none, g.logs_fifo)
      → Returns (get_log_entry size g) Taken
  unfolding get_log_entry
  none_left empty run = rw (run, get_log_entry) (v, refl, rw empty)

  abbrev without_first : LogGroup
  without_first = record g { logs_fifo = popped g.logs_fifo }

  module _ (e : LogEntry)
      (run : pop_fifo_mt log_entry_size g.logs_fifo ≡ ok (some e, popped g.logs_fifo)) where
    one_taken :
        length e.log_str < log_string_size
        → length (log_line g.group_name e) < size
        → get_log_entry size g ≡ ok (some (log_line g.group_name e, e.linux_time), without_first)
    unfolding get_log_entry
    one_taken ended fits = ground (arith, run, named, ended, fits)

    one_overflows :
        length e.log_str < log_string_size
        → size ≤ length (log_line g.group_name e)
        → get_log_entry size g ≡ err Fault.out_of_bounds
    unfolding get_log_entry
    one_overflows ended long = ground (arith, run, named, ended, long)

  -- GetLogEntry on a valid group with a name below TRACE_STRING_SIZE, whose oldest log ends in a NUL
  -- and whose line for it fits into the caller's buffer, never faults, keeps the group valid and its
  -- name, and returns the line and the time of the oldest log, which it takes out, or nothing where
  -- there is no log.
  pub get_log_entry_lem : HeadFits size g.group_name (logs g) → Returns (get_log_entry size g) Taken
  get_log_entry_lem fits = elim (pop_cases log_entry_size v) [
    | inl (empty, run) ↦ none_left empty run
    | inr (e, head, run, valid, count) ↦
        let head_fits = subst (HeadFits size g.group_name) head fits in
        rw (one_taken e run head_fits.0 head_fits.1) (valid, refl, rw head)
  ]

-- The program reads logs into `log_info.log_str` of LOG_STRING_SIZE bytes, but the line also holds
-- the time and the group's name: where the name and the oldest log together have at least
-- LOG_STRING_SIZE - 6 bytes, on a valid group with a name below TRACE_STRING_SIZE and a log that
-- ends in a NUL, GetLogEntry writes behind the end of that buffer.
pub get_log_entry_overflows :
    (g : LogGroup) (e : LogEntry) (rest : List LogEntry)
    → IsLogGroup g
    → length g.group_name < trace_string_size
    → logs g ≡ e ∷ rest
    → length e.log_str < log_string_size
    → log_string_size ≤ length g.group_name + length e.log_str + 6
    → get_log_entry log_string_size g ≡ err Fault.out_of_bounds
get_log_entry_overflows g e rest v named first ended long = elim (pop_cases log_entry_size v) [
  | inl (empty, run) ↦ absurd (cc)
  | inr (e', head, run, valid, count) ↦
      let same_log : e' ≡ e = ground (arith) in
      one_overflows log_string_size g v named e
        (run ∙ ap (λ x. ok (some x, popped g.logs_fifo)) same_log) ended
        (omega (arith, length-log_line g.group_name e))
]
