-- ===== src/Logger.antt =====
-- `CLog_group` of rt_debug_cpp/src/rt_debug_types.h: the logs of one group in a FIFO that drops the
-- oldest log where it is full. The clock is read by the environment: `now` is the time read.
pub mod Laws
pub mod Extract
use rt_debug_lib.Base.{ℕ, Bool, true, false, ◌++◌, length, Option, none, some, Result, ok, ◌>>=◌}
use rt_debug_lib.CString.{CStr, c_str, strcpy, strncpy, codes, decimal}
use rt_debug_lib.Clock.{Timespec, nanos}
use rt_debug_lib.MemArea.{MemArea, e_read, setup, c_setup, pop_fifo_mt, pop_mt, push_over_rounds}
use rt_debug_lib.Counters.{trace_string_size}

-- LOG_GROUP_BUFSIZE, LOG_STRING_SIZE = TRACE_STRING_SIZE - sizeof(timespec), sizeof(LogEntry)
abbrev pub log_group_bufsize : ℕ
log_group_bufsize = 128

abbrev pub log_string_size : ℕ
log_string_size = 112

abbrev pub log_entry_size : ℕ
log_entry_size = 128

-- `LogEntry`
pub record LogEntry : Type 0 where
  pub linux_time : Timespec
  pub log_str : CStr

pub record LogGroup : Type 0 where
  pub logs_fifo : MemArea LogEntry
  pub group_name : CStr

unfoldable pub set_group_name : CStr → LogGroup → Result LogGroup
set_group_name name g = do
  name' ← strcpy trace_string_size name
  ok (record g { group_name = name' })

unfoldable pub reset : Bool → LogGroup → Result LogGroup
reset true g = ok g
reset false g = do
  fifo ← setup log_entry_size log_group_bufsize (codes "Log_data") e_read 0 g.logs_fifo
  ok (record g { logs_fifo = fifo })

-- The entry that AddLog stores: strncpy cuts the text, with no NUL where it fills the array.
abbrev pub new_entry : Timespec → CStr → LogEntry
new_entry now log_str = record { linux_time = now; log_str = strncpy log_string_size log_str }

-- AddLog; its loop gets two rounds.
unfoldable pub add_log : Timespec → CStr → LogGroup → Result LogGroup
add_log now log_str g = do
  fifo ← push_over_rounds log_entry_size 2 (new_entry now log_str) g.logs_fifo
  ok (record g { logs_fifo = fifo })

-- "%lu, %s,  %s"
unfoldable pub log_line : CStr → LogEntry → CStr
log_line group_name e =
    decimal (nanos e.linux_time) ++ codes ", " ++ group_name ++ codes ",  " ++ e.log_str

-- GetLogEntry into a buffer of `size` bytes; `none` where it returns false.
unfoldable pub get_log_entry : ℕ → LogGroup → Result (Option (CStr × Timespec) × LogGroup)
get_log_entry size g = do
  (popped, fifo) ← pop_fifo_mt log_entry_size g.logs_fifo
  let g' = record g { logs_fifo = fifo }
  elim popped [
    | none ↦ ok (none, g')
    | some e ↦ do
      _ ← c_str log_string_size e.log_str
      _ ← c_str trace_string_size g.group_name
      text ← strcpy size (log_line g.group_name e)
      ok (some (text, e.linux_time), g')
  ]
