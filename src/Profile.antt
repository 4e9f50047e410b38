-- ===== src/Profile.antt =====
-- `CProfileCnt` of rt_debug_cpp/src/rt_debug_types.h over `ProfilePoint` and `ProfileData` of
-- api/rt_debug_defs.h: one profiler point in the memory of the thread that measures. The FIFO that
-- `mem_ptr_` points to stands in the shared memory; Update takes it and gives it back. The clock and
-- the cycle counter are the environment's: each operation takes the readings that it makes.
pub mod Measure
pub mod Update
pub mod Statistics
use rt_debug_lib.Base.{
  ℕ, zero, suc, ◌+◌, ◌-◌, ◌/◌, ◌%◌, ◌^◌, Bool, true, false, not, ◌&&◌, Option, none, some, List, [],
  ◌∷◌, ltb, leb, ◌==◌, if◌then◌else◌, add64, sub64, Result, ok, err, Fault, assert, require, ◌>>=◌,
  ◌>>◌,
}
use rt_debug_lib.Clock.{Timespec, nanos, is_negative}
use rt_debug_lib.Queue.{e_ok, e_fail}
use rt_debug_lib.MemArea.{MemArea, c_push_fifo_mt, c_pop_fifo_mt, push_mt, pop_mt}

-- `EProfileEval_type`
pub data EProfileEvalType : Type 0 where
  time_eval cycle_eval : EProfileEvalType

-- `ProfileData`, of 64 bytes
pub record ProfileData : Type 0 where
  pub max_cnt : ℕ
  pub max_cnt_time : ℕ
  pub last_cnt : ℕ
  pub average_cnt : ℕ
  pub meas_num : ℕ

abbrev pub profile_data_size : ℕ
profile_data_size = 64

-- ProfileData::Reset, and CProfileCnt::ResetProfData
abbrev pub reset_data : ProfileData
reset_data = record { max_cnt = 0; max_cnt_time = 0; last_cnt = 0; average_cnt = 0; meas_num = 0 }

-- `ProfilePoint`; `mem_ptr` is the address of the FIFO, 0 for NULL.
pub record ProfilePoint : Type 0 where
  pub prof_data : ProfileData
  pub acc_cnt : ℕ
  pub cnt_id : ℕ
  pub max_calls : ℕ
  pub start_val : ℕ
  pub delta : ℕ
  pub prof_id : ℕ
  pub eval_type : EProfileEvalType
  pub mem_ptr : ℕ

-- What a measurement reads: the monotonic clock, or the cycle counter.
abbrev pub reading : EProfileEvalType → Timespec → ℕ → ℕ
reading time_eval now tsc = nanos now
reading cycle_eval now tsc = tsc

unfoldable pub reset_prof_data : ProfilePoint → ProfilePoint
reset_prof_data p = record p { prof_data = reset_data }

unfoldable pub reset_init : ProfilePoint → ProfilePoint
unfolding reset_prof_data
reset_init p = record p {
  prof_data = reset_data;
  acc_cnt = 0;
  cnt_id = 0;
  max_calls = 500;
  start_val = 0;
  delta = 0;
  prof_id = 2 ^ 32 - 1;
  eval_type = time_eval;
  mem_ptr = 0;
}

unfoldable pub set_max_calls : ℕ → ProfilePoint → ProfilePoint
set_max_calls val p = record p { max_calls = val }

-- The calibration loop of Init: the sum over the rounds of the time between two readings.
unfoldable pub calibrate : ℕ → List (Timespec × Timespec) → ℕ
unfolding nanos
calibrate acc [] = acc
calibrate acc ((t0, t1) ∷ rounds) = calibrate (add64 acc (sub64 (nanos t1) (nanos t0))) rounds

-- Init. ResetInit makes the point a TIME_EVAL one, so that the branch on the cycle counter is never
-- taken. `rounds` are the readings of the ten rounds; `max_count` is not used by the code.
unfoldable pub init : ℕ → ℕ → List (Timespec × Timespec) → ProfilePoint → ProfilePoint
unfolding reset_init calibrate
init mem_ptr max_count rounds p =
    let p' = reset_init p in record p' { mem_ptr = mem_ptr; delta = calibrate 0 rounds / 10 }

-- The loop of Update: while (PushFIFO_MT(&prof_data_) == E_FAIL) PopFIFO_MT(&prof_data_). The pop
-- writes into the data that is to be pushed. The calls are CMemArea's, through the stored pointers.
unfoldable pub update_rounds :
    ℕ → ℕ → ProfileData → MemArea ProfileData → Result (ProfileData × MemArea ProfileData)
update_rounds zero buf_address d m = err Fault.out_of_fuel
update_rounds (suc f) buf_address d m = do
  (r, m') ← c_push_fifo_mt profile_data_size buf_address d m
  elim r [
    | e_ok ↦ ok (d, m')
    | e_fail ↦ do
      (popped, m'') ← c_pop_fifo_mt profile_data_size buf_address m'
      update_rounds f buf_address (elim popped [ none ↦ d | some d' ↦ d' ]) m''
  ]

-- Update, with the FIFO at `fifo_address` and its buffer at `buf_address` in this process.
unfoldable pub update :
    ℕ → ℕ → ProfilePoint → MemArea ProfileData → Result (ProfilePoint × MemArea ProfileData)
unfolding reset_prof_data
update fifo_address buf_address p m = if p.prof_data.meas_num == 0 then ok (p, m) else (do
  require (p.mem_ptr == fifo_address)
      (if p.mem_ptr == 0 then Fault.null_deref else Fault.wild_pointer)
  let d = p.prof_data
  let averaged = record d { average_cnt = d.average_cnt / d.meas_num }
  (_, m') ← update_rounds 2 buf_address averaged m
  ok (reset_prof_data p, m'))

-- Start
unfoldable pub start : Timespec → ℕ → ProfilePoint → Result ProfilePoint
unfolding nanos
start now tsc p = do
  assert (p.start_val == 0)
  ok (
      let d = p.prof_data in
      record p { prof_data = record d { last_cnt = 1 }; start_val = reading p.eval_type now tsc })

-- StopContinue
unfoldable pub stop_continue : Timespec → ℕ → ProfilePoint → ProfilePoint
unfolding nanos
stop_continue now tsc p = record p {
  acc_cnt = add64 p.acc_cnt (sub64 (reading p.eval_type now tsc) p.start_val);
  start_val = 0;
}

-- The time that Stop takes for the measurement: 20 where the signed result is negative.
unfoldable pub measured : Timespec → ℕ → ProfilePoint → ℕ
unfolding nanos
measured now tsc p =
    let tmp_val =
      sub64 (add64 (sub64 (reading p.eval_type now tsc) p.start_val) p.acc_cnt) p.delta in
    if is_negative tmp_val then 20 else tmp_val

-- Stop up to its call of Update: the value, given by the caller or measured, goes into the sums.
unfoldable pub record_value : ℕ → ProfilePoint → ProfilePoint
record_value last p =
    let d = p.prof_data in
    let larger = ltb d.max_cnt last in
    record p {
      prof_data = record {
        max_cnt = if larger then last else d.max_cnt;
        max_cnt_time = if larger then p.start_val else d.max_cnt_time;
        last_cnt = last;
        average_cnt = add64 d.average_cnt last;
        meas_num = add64 d.meas_num 1;
      };
      acc_cnt = 0;
      start_val = 0;
    }

-- Stop(prof_valp): `none` for NULL.
unfoldable pub stop :
    ℕ
    → ℕ
    → Timespec
    → ℕ
    → Option ℕ
    → ProfilePoint
    → MemArea ProfileData
    → Result (ProfilePoint × MemArea ProfileData)
unfolding measured record_value update
stop fifo_address buf_address now tsc prof_val p m =
    let last : ℕ = elim prof_val [ none ↦ measured now tsc p | some v ↦ v ] in
    let p' = record_value last p in
    if not (p'.max_calls == 0) && leb p'.max_calls p'.prof_data.meas_num
    then update fifo_address buf_address p' m
    else ok (p', m)

-- Reset
unfoldable pub reset : ProfilePoint → ProfilePoint
reset p = record p { prof_data = reset_data; start_val = 0; acc_cnt = 0 }

-- ForceStop
unfoldable pub force_stop :
    ℕ → ℕ → ProfilePoint → MemArea ProfileData → Result (ProfilePoint × MemArea ProfileData)
unfolding update reset
force_stop fifo_address buf_address p m = do
  (p', m') ← update fifo_address buf_address p m
  ok (reset p', m')
