-- ===== src/Tracer.antt =====
-- `CTraceGroup` of rt_debug_cpp/src/rt_debug_types.h and rt_debug_types.cc: the traces of one group,
-- in a ring of entries that the newest trace overwrites, with the printf formats that they name.
-- The clock and pthread_self are the environment's and enter as arguments; `Printf` is sprintf at
-- an application's own format. `future_use` is never read, and is left out.
pub mod Formats
pub mod Entries
pub mod Earliest
pub mod Reset
use rt_debug_lib.Base.{
  ℕ, ◌+◌, ◌-◌, ◌^◌, ◌%◌, Bool, true, false, not, ◌&&◌, List, [], ◌∷◌, ◌++◌, map, length, set, ltb,
  ◌==◌, if◌then◌else◌, Option, none, some, Result, ok, err, Fault, assert, require, at, ◌>>=◌, ◌>>◌,
}
use rt_debug_lib.CString.{CStr, c_str, strcpy, codes, decimal, signed_decimal}
use rt_debug_lib.Registry.{found, missing, past_end, scan}
use rt_debug_lib.Clock.{Timespec, nanos, diff_between_timespec, is_positive}
use rt_debug_lib.MemArea.{
  MemArea, e_read, setup, mem_alloc, alloc_pool_chunk, write_chunk, get_entry, c_setup, c_mem_alloc,
}
use rt_debug_lib.Counters.{trace_string_size}

-- MAX_TRACE_FORMATS, TRACE_ENTRIES_NUM and sizeof(Trace_entry)
abbrev pub max_trace_formats : ℕ
max_trace_formats = 50

abbrev pub trace_entries_num : ℕ
trace_entries_num = 1000

abbrev pub trace_entry_size : ℕ
trace_entry_size = 64

-- NO_DATA_IND, DATA_IND and TRACE_EMPTY_DATA
abbrev pub no_data_ind : ℕ
no_data_ind = 2 ^ 16 - 1

abbrev pub data_ind : ℕ
data_ind = 0

abbrev pub trace_empty_data : ℕ
trace_empty_data = 1

-- `Trace_entry`
pub record TraceEntry : Type 0 where
  pub linux_time : Timespec
  pub trace_id : ℕ
  pub thread_id : ℕ
  pub line_num : ℕ
  pub status : ℕ
  pub val0 : ℕ
  pub val1 : ℕ
  pub val2 : ℕ
  pub val3 : ℕ

pub record TraceGroup : Type 0 where
  pub trace_formats : List CStr
  pub trace_fifo : MemArea TraceEntry
  pub num_alloc_formats : ℕ
  pub group_name : CStr

-- sprintf(dst, format, v0, v1, v2, v3)
pub record Printf : Type 0 where
  pub format_values : CStr → ℕ → ℕ → ℕ → ℕ → CStr

unfoldable pub add_trace_format : CStr → TraceGroup → Result (ℕ × TraceGroup)
add_trace_format format_str t = do
  assert (ltb (length format_str) trace_string_size)
  elim (scan (λ (s : CStr). s) format_str t.num_alloc_formats t.trace_formats 0) [
    | found i ↦ ok (i, t)
    | past_end ↦ err Fault.out_of_bounds
    | missing ↦ do
      assert (ltb t.num_alloc_formats max_trace_formats)
      format' ← strcpy trace_string_size format_str
      require (ltb t.num_alloc_formats (length t.trace_formats)) Fault.out_of_bounds
      ok (
        t.num_alloc_formats,
        record t {
          trace_formats = set t.trace_formats t.num_alloc_formats format';
          num_alloc_formats = t.num_alloc_formats + 1;
        },
      )
  ]

abbrev pub def_format : CStr
def_format = codes "val0= %llu, val1=%llu, val2= %llu, val3= %llu"

-- The loops of Reset go over the whole arrays.
unfoldable pub reset : Bool → ℕ → TraceGroup → Result TraceGroup
unfolding add_trace_format
reset true buf_address t = do
  fifo ← mem_alloc trace_entry_size trace_entries_num buf_address t.trace_fifo
  ok (record t { trace_fifo = fifo })
reset false buf_address t = do
  (_, t') ← add_trace_format def_format (record t {
    group_name = [];
    num_alloc_formats = 0;
    trace_formats = map (λ _. []) t.trace_formats;
  })
  let blank = map (λ (e : TraceEntry). record e { status = no_data_ind }) t'.trace_fifo.buf
  fifo ←
      setup trace_entry_size trace_entries_num (codes "Trace data") e_read 0
        (let m = t'.trace_fifo in record m { buf = blank })
  fifo' ← mem_alloc trace_entry_size trace_entries_num buf_address fifo
  ok (record t' { trace_fifo = fifo' })

unfoldable pub set_group_name : CStr → TraceGroup → Result TraceGroup
set_group_name name t = do
  name' ← strcpy trace_string_size name
  ok (record t { group_name = name' })

-- AddTrace at time `now`; `thread` is pthread_self().
unfoldable pub add_trace : Timespec → ℕ → ℕ → ℕ → ℕ → ℕ → ℕ → ℕ → TraceGroup → Result TraceGroup
add_trace now thread trace_id line_num var0 var1 var2 var3 t = do
  (p, fifo) ← alloc_pool_chunk trace_entry_size t.trace_fifo
  assert (ltb trace_id t.num_alloc_formats)
  let tmp_entry : TraceEntry = record {
    linux_time = now;
    trace_id = trace_id % 2 ^ 16;
    thread_id = thread % 2 ^ 16;
    line_num = line_num;
    status = data_ind;
    val0 = var0;
    val1 = var1;
    val2 = var2;
    val3 = var3;
  }
  buf' ← write_chunk trace_entry_size p tmp_entry fifo.buf
  ok (record t { trace_fifo = record fifo { buf = buf' } })

-- The loop of GetTraceEntry from entry `i` on: the index of the earliest entry with data that is
-- earlier than `min_time`, or else `min_index`.
unfoldable pub earliest : List TraceEntry → ℕ → Timespec → Option ℕ → Option ℕ
earliest [] i min_time min_index = min_index
earliest (e ∷ es) i min_time min_index =
    let better =
      not (e.status == no_data_ind) && is_positive (diff_between_timespec min_time e.linux_time) in
    earliest es (i + 1) (if better then e.linux_time else min_time)
      (if better then some i else min_index)

abbrev pub separator : CStr
separator = codes ", "

-- The line that the two sprintf calls write.
unfoldable pub trace_line : Printf → CStr → CStr → TraceEntry → CStr
trace_line printf group_name format e =
    decimal (nanos e.linux_time)
    ++ separator
    ++ group_name
    ++ separator
    ++ decimal e.thread_id
    ++ separator
    ++ signed_decimal (2 ^ 31) e.line_num
    ++ separator
    ++ printf.format_values format e.val0 e.val1 e.val2 e.val3

-- GetTraceEntry at time `now`, into a buffer of `size` bytes; `none` where it returns false.
unfoldable pub get_trace_entry :
    Printf → ℕ → Timespec → TraceGroup → Result (Option (CStr × Timespec) × TraceGroup)
get_trace_entry printf size now t = elim (earliest t.trace_fifo.buf 0 now none) [
  | none ↦ ok (none, t)
  | some i ↦ do
    e ← get_entry trace_entry_size trace_entries_num i t.trace_fifo
    assert (ltb e.trace_id t.num_alloc_formats)
    format ← at t.trace_formats e.trace_id
    group_name ← c_str trace_string_size t.group_name
    text ← strcpy size (trace_line printf group_name format e)
    ok (
      some (text, e.linux_time),
      record t {
        trace_fifo =
            (let m = t.trace_fifo in
              record m { buf = set m.buf i (record e { status = no_data_ind }) });
      },
    )
]
