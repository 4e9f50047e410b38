-- ===== src/Profile/Measure.antt =====
-- One measurement of a profiler point: Init, Start, StopContinue, Stop and PutProfVal.
use rt_debug_lib.Base.{
  ℕ, ◌+◌, ◌-◌, ◌/◌, ◌^◌, ◌≤◌, ◌<◌, ◌≡◌, refl, ap, ◌∙◌, List, [], ◌∷◌, arith, Result, ok, Returns,
  Returns-result, add64, sub64, u64_mod, ◌>>=◌, if◌then◌else◌, ltb,
}
use rt_debug_lib.Clock.{Timespec, InRange, nanos, nanos-lt}
use rt_debug_lib.Profile.{
  ProfilePoint, time_eval, reset_data, init, calibrate, start, stop_continue, measured,
}

-- Init does not use the number of measurements that it is given: whatever the caller asks for, and
-- whatever the point held, the point reports after every 500 of them, by the clock, from a cleared
-- state, into the FIFO that was passed.
pub init_ignores_max_count :
    (mem_ptr max_count : ℕ) (rounds : List (Timespec × Timespec)) (p : ProfilePoint)
    → let q = init mem_ptr max_count rounds p in
      (q.max_calls ≡ 500)
      × (q.eval_type ≡ time_eval)
      × (q.mem_ptr ≡ mem_ptr)
      × (q.prof_data ≡ reset_data)
      × (q.start_val ≡ 0)
      × (q.acc_cnt ≡ 0)
      × ((other : ℕ) → init mem_ptr other rounds p ≡ q)
unfolding init
init_ignores_max_count mem_ptr max_count rounds p =
    (refl, refl, refl, refl, refl, refl, λ other. refl)

-- The calibration adds up the times between the two readings of each round.
abbrev pub gaps : List (Timespec × Timespec) → ℕ
gaps [] = 0
gaps ((t0, t1) ∷ rounds) = (nanos t1 - nanos t0) + gaps rounds

abbrev pub InOrder : List (Timespec × Timespec) → Type 0
InOrder [] = Unit {0}
InOrder ((t0, t1) ∷ rounds) = InRange t0 × InRange t1 × (nanos t0 ≤ nanos t1) × InOrder rounds

calibrate_lem :
    (acc : ℕ) (rounds : List (Timespec × Timespec))
    → InOrder rounds
    → acc + gaps rounds < u64_mod
    → calibrate acc rounds ≡ acc + gaps rounds
unfolding calibrate
calibrate_lem acc [] h small = omega arith
calibrate_lem acc ((t0, t1) ∷ rounds) h small =
    let here : add64 acc (sub64 (nanos t1) (nanos t0)) ≡ acc + (nanos t1 - nanos t0) =
      omega (arith, nanos-lt t0 h.0, nanos-lt t1 h.1, h.2) in
    rw here (calibrate_lem (acc + (nanos t1 - nanos t0)) rounds h.3 (omega arith) ∙ omega arith)

-- For readings in order and a sum below 2^64, the correction that Init computes is a tenth of the
-- sum of the times between the two readings of each round.
pub delta-init :
    (mem_ptr max_count : ℕ) (rounds : List (Timespec × Timespec)) (p : ProfilePoint)
    → InOrder rounds
    → gaps rounds < u64_mod
    → (init mem_ptr max_count rounds p).delta ≡ gaps rounds / 10
unfolding init
delta-init mem_ptr max_count rounds p h small =
    ap (λ (t : ℕ). t / 10) (calibrate_lem 0 rounds h (omega arith) ∙ omega arith)

-- Segments of one measurement: Start and StopContinue at the times of each pair.
pub run_segments : List (Timespec × Timespec) → ProfilePoint → Result ProfilePoint
run_segments [] p = ok p
run_segments ((t0, t1) ∷ rest) p = do p' ← start t0 0 p; run_segments rest (stop_continue t1 0 p')

-- One segment of a waiting TIME_EVAL point: it waits again, with the time added.
segment_lem :
    (t0 t1 : Timespec) (p : ProfilePoint)
    → p.eval_type ≡ time_eval
    → p.start_val ≡ 0
    → InRange t0
    → InRange t1
    → nanos t0 ≤ nanos t1
    → p.acc_cnt + (nanos t1 - nanos t0) < u64_mod
    → Returns (start t0 0 p) λ p'.
      let q = stop_continue t1 0 p' in
      (q.acc_cnt ≡ p.acc_cnt + (nanos t1 - nanos t0))
      × (q.eval_type ≡ time_eval)
      × (q.start_val ≡ 0)
      × (q.delta ≡ p.delta)
unfolding start stop_continue
segment_lem t0 t1 p timed idle h0 h1 order small =
    ground (arith, timed, idle, nanos-lt t0 h0, nanos-lt t1 h1, order, small)

-- Start and StopContinue of a waiting TIME_EVAL point over any number of segments never abort, and leave a waiting point whose
-- accumulated time is the sum of their lengths, for clock readings in order and a sum below 2^64.
pub run_segments_accumulate :
    (segments : List (Timespec × Timespec)) (p : ProfilePoint)
    → p.eval_type ≡ time_eval
    → p.start_val ≡ 0
    → InOrder segments
    → p.acc_cnt + gaps segments < u64_mod
    → Returns
        (run_segments segments p)
        λ q. (q.acc_cnt ≡ p.acc_cnt + gaps segments) × (q.start_val ≡ 0) × (q.delta ≡ p.delta)
unfolding run_segments
run_segments_accumulate [] p timed idle h small = (omega arith, idle, refl)
run_segments_accumulate ((t0, t1) ∷ rest) p timed idle h small =
    let (p', run, post) =
      Returns-result (start t0 0 p) _ (segment_lem t0 t1 p timed idle h.0 h.1 h.2 (omega arith)) in
    let (q, run', post') =
      Returns-result (run_segments rest (stop_continue t1 0 p')) _
        (run_segments_accumulate rest (stop_continue t1 0 p') post.1 post.2 h.3 (omega arith)) in
    rw (run, run') (omega (arith, post, post'), post'.1, post'.2 ∙ post.3)

-- What Stop measures by the clock, for a reading not before Start and sums that fit in 63 bits: the time since Start and the time accumulated before,
-- less the calibrated cost of a reading, or 20 where that cost is larger.
pub measured_lem :
    (now : Timespec) (tsc : ℕ) (p : ProfilePoint)
    → p.eval_type ≡ time_eval
    → InRange now
    → p.start_val ≤ nanos now
    → p.acc_cnt + (nanos now - p.start_val) < 2 ^ 63
    → p.delta < 2 ^ 63
    → let total = p.acc_cnt + (nanos now - p.start_val) in
      measured now tsc p ≡ (if ltb total p.delta then 20 else total - p.delta)
unfolding measured
measured_lem now tsc p timed h order small cost =
    ground (arith, timed, nanos-lt now h, order, small, cost)
