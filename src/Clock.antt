-- ===== src/Clock.antt =====
-- `timespec` and DiffBetweenTimespec (rt_debug_cpp/src/rt_debug_types.h). A `timespec` holds the bit
-- patterns of its two fields; clock_gettime is the environment's, so each call that reads the clock
-- takes the time read as an argument.
use rt_debug_lib.Base.{
  ℕ, ◌+◌, ◌*◌, ◌^◌, ◌<◌, ◌≡◌, ◌↔◌, Bool, true, ◌&&◌, ltb, leb, arith, add64, sub64, mul64,
}

pub record Timespec : Type 0 where
  pub tv_sec : ℕ
  pub tv_nsec : ℕ

-- BILLION of api/rt_debug_defs.h
abbrev pub billion : ℕ
billion = 1_000_000_000

-- (uint64_t)t.tv_sec * BILLION + (uint64_t)t.tv_nsec
unfoldable pub nanos : Timespec → ℕ
nanos t = add64 (mul64 t.tv_sec billion) t.tv_nsec

-- DiffBetweenTimespec: the bit pattern of a signed 64-bit number.
unfoldable pub diff_between_timespec : Timespec → Timespec → ℕ
unfolding nanos
diff_between_timespec t1 t2 = sub64 (nanos t1) (nanos t2)

-- The comparisons of an int64_t with 0, on its bit pattern.
abbrev pub is_positive : ℕ → Bool
is_positive w = ltb 0 w && ltb w (2 ^ 63)

abbrev pub is_negative : ℕ → Bool
is_negative w = leb (2 ^ 63) w

-- A time whose nanoseconds are a positive int64_t, as the monotonic clock gives for 292 years.
abbrev pub InRange : Timespec → Type 0
InRange t = t.tv_sec * billion + t.tv_nsec < 2 ^ 63

pub nanos_lem : (t : Timespec) → InRange t → nanos t ≡ t.tv_sec * billion + t.tv_nsec
unfolding nanos
nanos_lem t h = omega arith

pub nanos-lt : (t : Timespec) → InRange t → nanos t < 2 ^ 63
nanos-lt t h = omega (arith, nanos_lem t h)

-- DiffBetweenTimespec(a, b) > 0 exactly when `a` is later than `b`, and < 0 exactly when it is
-- earlier, for times in range.
pub diff_between_timespec-order :
    (a b : Timespec)
    → InRange a
    → InRange b
    → ((is_positive (diff_between_timespec a b) ≡ true)
        ↔ (b.tv_sec * billion + b.tv_nsec < a.tv_sec * billion + a.tv_nsec))
      × ((is_negative (diff_between_timespec a b) ≡ true)
          ↔ (a.tv_sec * billion + a.tv_nsec < b.tv_sec * billion + b.tv_nsec))
unfolding diff_between_timespec
diff_between_timespec-order a b ha hb =
    ((λ h. ground (arith), λ h. ground (arith)), (λ h. ground (arith), λ h. ground (arith)))
