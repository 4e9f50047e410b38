-- ===== src/Tests.antt =====
-- Small states for the tests: areas, groups, points and a handler on which the theorems are run.
mod Fifo
mod Tables
mod Groups
mod Points
mod Process
mod Merge
mod Attach
mod Adapt
mod Extract
mod Memory
mod System
mod Threads
use rt_debug_lib.Base.{
  ℕ, zero, suc, ◌+◌, ◌^◌, ◌≤◌, ◌<◌, ◌≡◌, ◌≢◌, refl, sym, true, false, Option, none, some, List, [],
  ◌∷◌, length, get_elem?, replicate, arith,
}
use mathlib.Core.Option.{some-injective, none-ne-some}
use rt_debug_lib.CString.{CStr, codes}
use rt_debug_lib.Clock.{Timespec}
use rt_debug_lib.MemArea.{MemArea, e_read}
use rt_debug_lib.MemArea.Invariant.{IsValid}
use rt_debug_lib.Counters.{RtCounter, RtCounterGrp}
use rt_debug_lib.Tracer.{TraceEntry, TraceGroup, def_format, no_data_ind}
use rt_debug_lib.Logger.{LogEntry, LogGroup}
use rt_debug_lib.Profile.{ProfileData, ProfilePoint, reset_data, time_eval}
use rt_debug_lib.ProfilerGroup.{ProfilerGroup}
use rt_debug_lib.DebugRt.{DebugRt, GroupDebugRt}
use rt_debug_lib.Handler.{Handler, rtdbg_running_producer}

abbrev pub seconds : ℕ → Timespec
seconds s = record { tv_sec = s; tv_nsec = 0 }

-- Where the buffer of every sample area stands.
abbrev pub address : ℕ
address = 4096

-- An area of `n` chunks of 64 bytes.
abbrev pub area : {A : Type 0} → ℕ → ℕ → ℕ → List A → MemArea A
area n wr rd buf = record {
  ptr_producer = address;
  ptr_consumer = address;
  number_chunks = n;
  single_chunk_size = 64;
  wr_ind = wr;
  rd_ind = rd;
  access = e_read;
  attrib = 0;
  in_lock = false;
  out_lock = false;
  name = codes "sample";
  buf = buf;
}

pub area-IsValid :
    {A : Type 0} (n wr rd : ℕ) (buf : List A)
    → 3 ≤ n
    → n < 2 ^ 16
    → n ≤ length buf
    → wr < n
    → rd < n
    → wr ≢ rd
    → IsValid 64 (area n wr rd buf)
area-IsValid n wr rd buf n3 few room wr_in rd_in apart = record {
  enough = n3;
  few = few;
  room = room;
  sized = refl;
  nonempty = omega arith;
  narrow = omega arith;
  wr_in = wr_in;
  rd_in = rd_in;
  apart = apart;
  in_free = refl;
  out_free = refl;
}

-- No item and one item in an area that holds one.
abbrev pub empty_area : MemArea ℕ
empty_area = area 3 1 0 (0 ∷ 0 ∷ 0 ∷ [])

abbrev pub full_area : MemArea ℕ
full_area = area 3 2 0 (0 ∷ 5 ∷ 0 ∷ [])

abbrev pub counter : RtCounter
counter = record { val = 0; cnt_name = codes "rx" }

-- One counter in use.
abbrev pub counters : RtCounterGrp
counters = record {
  rt_counters = replicate 20 counter;
  num_alloc_counters = 1;
  group_name = codes "phy";
}

abbrev pub blank_entry : TraceEntry
blank_entry = record {
  linux_time = seconds 0;
  trace_id = 0;
  thread_id = 0;
  line_num = 0;
  status = no_data_ind;
  val0 = 0;
  val1 = 0;
  val2 = 0;
  val3 = 0;
}

abbrev pub traces_of : List TraceEntry → TraceGroup
traces_of entries = record {
  trace_formats = def_format ∷ replicate 49 [];
  trace_fifo = area 4 1 0 entries;
  num_alloc_formats = 1;
  group_name = codes "phy";
}

abbrev pub log_of : CStr → LogEntry
log_of s = record { linux_time = seconds 1; log_str = s }

-- A logger with one log, in an FIFO that holds two.
abbrev pub one_log : CStr → CStr → LogGroup
one_log name s = record {
  logs_fifo =
      (let e = log_of s in record (area 4 2 0 (e ∷ e ∷ e ∷ e ∷ [])) { single_chunk_size = 128 });
  group_name = name;
}

abbrev pub data_of : ℕ → ProfileData
data_of v = record { max_cnt = v; max_cnt_time = 0; last_cnt = v; average_cnt = v; meas_num = 1 }

-- A FIFO of no entry and one of a single entry, in room for one.
abbrev pub empty_prof_fifo : MemArea ProfileData
empty_prof_fifo = area 3 1 0 (reset_data ∷ reset_data ∷ reset_data ∷ [])

abbrev pub full_prof_fifo : MemArea ProfileData
full_prof_fifo = area 3 2 0 (reset_data ∷ data_of 5 ∷ reset_data ∷ [])

-- A point that reports after two measurements.
abbrev pub point : ProfileData → ProfilePoint
point d = record {
  prof_data = d;
  acc_cnt = 0;
  cnt_id = 0;
  max_calls = 2;
  start_val = 0;
  delta = 0;
  prof_id = 0;
  eval_type = time_eval;
  mem_ptr = 8192;
}

abbrev pub profilers : MemArea ProfileData → ℕ → ProfilerGroup
profilers m num = record {
  prof_fifo = replicate 50 m;
  num_alloc_prof = num;
  group_name = codes "phy";
}

pub get_elem?-replicate :
    {A : Type 0} (n i : ℕ) (a b : A) → get_elem? (replicate n a) i ≡ some b → b ≡ a
get_elem?-replicate zero i a b h = absurd (none-ne-some b h)
get_elem?-replicate (suc n) zero a b h = sym (some-injective a b h)
get_elem?-replicate (suc n) (suc i) a b h = get_elem?-replicate n i a b h

-- A FIFO with its whole buffer.
abbrev pub raw_prof_fifo : MemArea ProfileData
raw_prof_fifo = record empty_prof_fifo { buf = replicate 10 reset_data }

-- A group with its arrays, and the shared memory of ten such groups, none of them in use.
abbrev pub raw_group : GroupDebugRt
raw_group = record {
  logger =
      (let l = one_log [] [] in
        record l {
          logs_fifo = (let m = l.logs_fifo in record m { buf = replicate 128 (log_of []) });
        });
  profiler = profilers raw_prof_fifo 0;
  tracer = traces_of (replicate 1000 blank_entry);
  event_counters = counters;
  group_name = codes "raw";
}

abbrev pub shared_of : ℕ → GroupDebugRt → DebugRt
shared_of num g = record {
  num_alloc_groups = num;
  active = true;
  trace_collected = false;
  debug_groups = replicate 10 g;
}

abbrev pub process : Handler
process = record {
  status = rtdbg_running_producer;
  shared_file_name = codes "rt.bin";
  mmap_fd = 3;
  mem_attached = true;
  grp_trace_res = [];
  grp_logs_last = [];
  shared = shared_of 1 raw_group;
}
