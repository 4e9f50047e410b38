-- ===== src/MemArea/Index.antt =====
-- Index arithmetic of the ring: steps modulo the number of chunks, and byte offsets of chunks.
use native.Mathlib.Nat.{
  mod-eq_of_lt, mod-eq-sub-mod, mod-add-mod, add-mod_right, mul-mod_right, mul-div_right,
  mul-le-mul,
}
use rt_debug_lib.Base.{
  ℕ, suc, ◌+◌, ◌-◌, ◌*◌, ◌/◌, ◌%◌, ◌^◌, ◌≤◌, ◌<◌, ◌≡◌, ◌≢◌, ◌↔◌, ◌⊎◌, inl, inr, ap, arith, dec_lt,
  mul32,
}

-- Fewer than `n` steps round the ring do not come back to the start.
pub add-mod-ne : (n h k : ℕ) → h < n → suc k < n → (h + suc k) % n ≢ h
add-mod-ne n h k hh hk = elim (dec_lt (h + suc k) n) [
  | yes p ↦ omega (arith, mod-eq_of_lt p)
  | no p ↦ omega (
    arith,
    mod-eq-sub-mod {n = h + suc k} {m = n} (omega arith),
    mod-eq_of_lt {n = h + suc k - n} {m = n} (omega arith),
  )
]

pub mod-step : (n h k : ℕ) → (h + suc k) % n ≡ ((h + 1) % n + k) % n
mod-step n h k = rw mod-add-mod (ap (λ (t : ℕ). t % n) (omega arith))

offset-lt : (size i : ℕ) → size < 2 ^ 16 → i < 2 ^ 16 → size * i < 2 ^ 32
offset-lt size i s h =
    let bound : size * i ≤ 0xffff * 0xffff =
      mul-le-mul {n₂ = 0xffff} {m₂ = 0xffff} (omega arith) (omega arith) in
    omega arith

-- The offset of chunk `i` is a multiple of the chunk size, and gives `i` back.
pub offset_index :
    (size i : ℕ)
    → 0 < size
    → size < 2 ^ 16
    → i < 2 ^ 16
    → (mul32 size i % size ≡ 0) × (mul32 size i / size ≡ i)
offset_index size i p s h =
    rw (mod-eq_of_lt (offset-lt size i s h)) (mul-mod_right size i, mul-div_right i p)

-- The chunks behind the read index and before the write index.
abbrev pub distance : ℕ → ℕ → ℕ → ℕ
distance n wr rd = (wr + n - rd - 1) % n

pub step_cases :
    (n i : ℕ) → i < n → ((i + 1 < n) × ((i + 1) % n ≡ i + 1)) ⊎ ((i + 1 ≡ n) × ((i + 1) % n ≡ 0))
step_cases n i h = elim (dec_lt (i + 1) n) [
  | yes p ↦ inl (p, mod-eq_of_lt p)
  | no p ↦ inr (
    omega arith,
    omega (
      arith,
      mod-eq-sub-mod {n = i + 1} {m = n} (omega arith),
      mod-eq_of_lt {n = i + 1 - n} {m = n} (omega arith),
    ),
  )
]

distance_cases :
    (n wr rd : ℕ)
    → wr < n
    → rd < n
    → wr ≢ rd
    → ((rd < wr) × (distance n wr rd + rd + 1 ≡ wr))
      ⊎ ((wr < rd) × (distance n wr rd + rd + 1 ≡ wr + n))
distance_cases n wr rd w r ne = elim (dec_lt rd wr) [
  | yes p ↦ inl (
    p,
    omega (
      arith,
      mod-eq-sub-mod {n = wr + n - rd - 1} {m = n} (omega arith),
      mod-eq_of_lt {n = wr + n - rd - 1 - n} {m = n} (omega arith),
    ),
  )
  | no p ↦
      inr (omega arith, omega (arith, mod-eq_of_lt {n = wr + n - rd - 1} {m = n} (omega arith)))
]

-- What the next step of either index does to the distance.
module _ (n wr rd : ℕ) (w : wr < n) (r : rd < n) (ne : wr ≢ rd) where
  pub distance-le : distance n wr rd + 2 ≤ n
  distance-le = ground (arith, distance_cases n wr rd w r ne)

  pub full_iff : ((wr + 1) % n ≡ rd) ↔ (distance n wr rd + 2 ≡ n)
  full_iff = (
    λ h. ground (arith, distance_cases n wr rd w r ne, step_cases n wr w),
    λ h. ground (arith, distance_cases n wr rd w r ne, step_cases n wr w),
  )

  pub empty_iff : ((rd + 1) % n ≡ wr) ↔ (distance n wr rd ≡ 0)
  empty_iff = (
    λ h. ground (arith, distance_cases n wr rd w r ne, step_cases n rd r),
    λ h. ground (arith, distance_cases n wr rd w r ne, step_cases n rd r),
  )

  pub end_of_window : wr ≡ ((rd + 1) % n + distance n wr rd) % n
  end_of_window =
      rw (mod-add-mod (rd + 1) n (distance n wr rd)) (elim (distance_cases n wr rd w r ne) [
        | inl h ↦ let e : rd + 1 + distance n wr rd ≡ wr = omega arith in rw (e, mod-eq_of_lt w)
        | inr h ↦
            let e : rd + 1 + distance n wr rd ≡ wr + n = omega arith in
            rw (e, add-mod_right wr n, mod-eq_of_lt w)
      ])

  pub distance_wr : (wr + 1) % n ≢ rd → distance n ((wr + 1) % n) rd ≡ distance n wr rd + 1
  distance_wr h =
      ground (
        arith,
        distance_cases n wr rd w r ne,
        step_cases n wr w,
        distance_cases n ((wr + 1) % n) rd,
      )

  pub distance_rd : (rd + 1) % n ≢ wr → distance n wr ((rd + 1) % n) + 1 ≡ distance n wr rd
  distance_rd h =
      ground (
        arith,
        distance_cases n wr rd w r ne,
        step_cases n rd r,
        distance_cases n wr ((rd + 1) % n),
      )
