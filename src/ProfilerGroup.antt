-- ===== src/ProfilerGroup.antt =====
-- `CProfilerGroup` of rt_debug_cpp/src/rt_debug_types.h: the FIFOs through which the profiler points
-- of one group hand on their data. `buf_address i` is where the buffer of FIFO `i` stands in the
-- process that makes the call.
pub mod Names
pub mod Drain
use rt_debug_lib.Base.{
  ℕ, zero, suc, ◌+◌, ◌*◌, ◌/◌, ◌%◌, ◌^◌, Bool, true, false, not, ◌||◌, Option, none, some, List, [],
  ◌∷◌, length, set, ltb, leb, ◌==◌, if◌then◌else◌, add32, add64, mul64, Result, ok, err, Fault,
  assert, at, ◌>>=◌, ◌>>◌,
}
use rt_debug_lib.CString.{CStr, c_str, strcpy}
use rt_debug_lib.Registry.{found, missing, past_end, scan, names}
use rt_debug_lib.MemArea.{
  MemArea, e_read, mdo_name_size, setup, c_setup, mem_alloc, c_mem_alloc, pop_fifo_mt, pop_mt,
  push_over_rounds,
}
use rt_debug_lib.Counters.{trace_string_size}
use rt_debug_lib.Profile.{ProfileData, ProfilePoint, profile_data_size, reset_data, init}
use rt_debug_lib.Clock.{Timespec}

-- PROF_GROUP_MAX and PROF_FIFO_SIZE of api/rt_debug_defs.h
abbrev pub prof_group_max : ℕ
prof_group_max = 50

abbrev pub prof_fifo_size : ℕ
prof_fifo_size = 10

pub record ProfilerGroup : Type 0 where
  pub prof_fifo : List (MemArea ProfileData)
  pub num_alloc_prof : ℕ
  pub group_name : CStr

unfoldable pub reset : Bool → ProfilerGroup → ProfilerGroup
reset attach g = if attach then g else record g { num_alloc_prof = 0; group_name = [] }

unfoldable pub set_group_name : CStr → ProfilerGroup → Result ProfilerGroup
set_group_name name g = do
  name' ← strcpy trace_string_size name
  ok (record g { group_name = name' })

abbrev pub fifo_name : MemArea ProfileData → CStr
fifo_name m = m.name

-- RegistryProfileEntry
unfoldable pub registry_profile_entry : (ℕ → ℕ) → CStr → ProfilerGroup → Result (ℕ × ProfilerGroup)
registry_profile_entry buf_address prof_name g = do
  assert (leb g.num_alloc_prof prof_group_max)
  elim (scan fifo_name prof_name g.num_alloc_prof g.prof_fifo 0) [
    | found i ↦ ok (i, g)
    | past_end ↦ err Fault.out_of_bounds
    | missing ↦
        let i = g.num_alloc_prof in
        do
          m ← at g.prof_fifo i
          m' ← setup profile_data_size prof_fifo_size prof_name e_read 0 m
          m'' ← mem_alloc profile_data_size prof_fifo_size (buf_address i) m'
          ok (i, record g { prof_fifo = set g.prof_fifo i m''; num_alloc_prof = add32 i 1 })
  ]

-- AddProfileEntry: `fifo_address` is &prof_fifo_[prof_entry_num].
abbrev pub add_profile_entry : ℕ → List (Timespec × Timespec) → ProfilePoint → ProfilePoint
add_profile_entry fifo_address rounds p = init fifo_address 0 rounds p

abbrev pub get_grp_prof_num : ProfilerGroup → ℕ
get_grp_prof_num g = g.num_alloc_prof

-- One entry goes into the summary of GetProfInfo.
unfoldable pub merge : ProfileData → ProfileData → ProfileData
merge cnt_val tmp_cnt =
    let larger = ltb cnt_val.max_cnt tmp_cnt.max_cnt in
    record {
      max_cnt = if larger then tmp_cnt.max_cnt else cnt_val.max_cnt;
      max_cnt_time = if larger then tmp_cnt.max_cnt_time else cnt_val.max_cnt_time;
      last_cnt = tmp_cnt.last_cnt;
      average_cnt = add64 cnt_val.average_cnt (mul64 tmp_cnt.average_cnt tmp_cnt.meas_num);
      meas_num = add64 cnt_val.meas_num tmp_cnt.meas_num;
    }

-- The loop of GetProfInfo, which passes over entries of no measurement.
unfoldable pub drain :
    ℕ
    → Bool
    → ProfileData
    → MemArea ProfileData
    → Result ((Bool × ProfileData) × MemArea ProfileData)
drain zero res cnt_val m = err Fault.out_of_fuel
drain (suc f) res cnt_val m = do
  (popped, m') ← pop_fifo_mt profile_data_size m
  elim popped [
    | none ↦ ok ((res, cnt_val), m')
    | some tmp_cnt ↦
        let empty = tmp_cnt.meas_num == 0 in
        drain f (res || not empty) (if empty then cnt_val else merge cnt_val tmp_cnt) m'
  ]

-- GetProfInfo, with the name into a buffer of `size` bytes; `none` where it returns false. The
-- loop gets as many rounds as the FIFO has chunks.
unfoldable pub get_prof_info :
    ℕ → ℕ → ProfilerGroup → Result (Option (ProfileData × CStr) × ProfilerGroup)
get_prof_info size i g = do
  assert (ltb i g.num_alloc_prof)
  m ← at g.prof_fifo i
  ((res, cnt_val), m') ← drain m.number_chunks false reset_data m
  let g' = record g { prof_fifo = set g.prof_fifo i m' }
  if res
      then (if cnt_val.meas_num == 0 then err Fault.div_by_zero else (do
        name ← c_str mdo_name_size m.name
        prof_name ← strcpy size name
        ok (
          some (record cnt_val { average_cnt = cnt_val.average_cnt / cnt_val.meas_num }, prof_name),
          g',
        )))
      else ok (none, g')

-- AddProfData; its loop gets two rounds.
unfoldable pub add_prof_data : ℕ → ProfileData → ProfilerGroup → Result ProfilerGroup
add_prof_data prof_id d g = do
  assert (ltb prof_id g.num_alloc_prof)
  m ← at g.prof_fifo prof_id
  m' ← push_over_rounds profile_data_size 2 d m
  ok (record g { prof_fifo = set g.prof_fifo prof_id m' })

abbrev pub prof_names : ProfilerGroup → List CStr
prof_names g = names fifo_name g.num_alloc_prof g.prof_fifo
