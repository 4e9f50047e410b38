-- ===== src/Profile/Update/Total.antt =====
-- Update and Stop on any FIFO of this process, whatever is in it.
use rt_debug_lib.Base.{
  ℕ, ◌<◌, ◌≡◌, ◌≢◌, refl, ◌∙◌, Option, none, some, length, length-set, arith, ok, Bool, Bool-cases,
  inl, inr, ℕ_discrete, dec_lt, not, ◌&&◌, leb, ◌==◌, Returns,
}
use rt_debug_lib.Clock.{Timespec}
use rt_debug_lib.MemArea.{MemArea}
use rt_debug_lib.MemArea.Invariant.{used, capacity}
use rt_debug_lib.MemArea.Refine.{used-le, pushed, popped, pop_some, used-popped, contents-popped}
use rt_debug_lib.Profile.{
  ProfilePoint, ProfileData, profile_data_size, update, stop, measured, record_value,
}
use rt_debug_lib.Profile.Update.{
  IsProfFifo, averaged, pushed-IsProfFifo, popped-IsProfFifo, update_run, rounds_room, rounds_full,
  c_pop_eq,
}

-- A FIFO of this process, with the name and the room of `m`.
pub record IsKept (buf_address : ℕ) (m m' : MemArea ProfileData) : Type 0 where
  pub fifo : IsProfFifo buf_address m'
  pub name : m'.name ≡ m.name
  pub room : length m'.buf ≡ length m.buf

module _ (fifo_address buf_address : ℕ) (m : MemArea ProfileData)
    (v : IsProfFifo buf_address m) where
  abbrev Keeps : ProfilePoint × MemArea ProfileData → Type 0
  Keeps out = IsKept buf_address m out.1

  -- The point after Stop took its reading, and whether Stop hands its data on.
  abbrev recorded : Timespec → ℕ → Option ℕ → ProfilePoint → ProfilePoint
  recorded now tsc prof_val p =
      record_value (elim prof_val [ none ↦ measured now tsc p | some x ↦ x ]) p

  abbrev due : ProfilePoint → Bool
  due p = not (p.max_calls == 0) && leb p.max_calls p.prof_data.meas_num

  pushed-IsKept : (d : ProfileData) → used m < capacity m → IsKept buf_address m (pushed m d)
  pushed-IsKept d room = record {
    fifo = pushed-IsProfFifo buf_address m v d room;
    name = refl;
    room = length-set m.buf m.wr_ind d;
  }

  -- The oldest entry goes round to the end.
  rotated-IsKept :
      (d : ProfileData) → used m ≡ capacity m → IsKept buf_address m (pushed (popped m) d)
  rotated-IsKept d full =
      let some_used : 0 < used m = omega (arith, v.valid) in
      record {
        fifo =
            pushed-IsProfFifo buf_address (popped m) (popped-IsProfFifo buf_address m v d some_used)
              d (omega (arith, used-popped profile_data_size v.valid some_used));
        name = refl;
        room = length-set m.buf m.wr_ind d;
      }

  module _ (p : ProfilePoint) (linked : p.mem_ptr ≡ fifo_address) where
    update_measured : p.prof_data.meas_num ≢ 0 → Returns (update fifo_address buf_address p m) Keeps
    update_measured some_data =
        let d = averaged p.prof_data in
        elim (dec_lt (used m) (capacity m)) [
          | yes room ↦
              rw
                (update_run fifo_address buf_address p m v linked some_data d (pushed m d)
                  (rounds_room buf_address m v d 1 room))
                (pushed-IsKept d room)
          | no full_up ↦
              let full : used m ≡ capacity m = omega (arith, used-le profile_data_size v.valid) in
              let some_used : 0 < used m = omega (arith, v.valid) in
              let (oldest, found, split) = contents-popped profile_data_size v.valid some_used in
              let run =
                c_pop_eq buf_address m v d
                ∙ pop_some profile_data_size v.valid oldest some_used found in
              rw
                (update_run fifo_address buf_address p m v linked some_data oldest
                  (pushed (popped m) oldest) (rounds_full buf_address m v d full oldest run))
                (rotated-IsKept oldest full)
        ]

    update_unmeasured : p.prof_data.meas_num ≡ 0 → update fifo_address buf_address p m ≡ ok (p, m)
    unfolding update
    update_unmeasured none_yet = ground (arith, none_yet)

    pub update_total : Returns (update fifo_address buf_address p m) Keeps
    update_total = elim (ℕ_discrete p.prof_data.meas_num 0) [
      | yes none_yet ↦
          rw (update_unmeasured none_yet) (record { fifo = v; name = refl; room = refl })
      | no some_data ↦ update_measured some_data
    ]

  pub stop_total :
      (now : Timespec) (tsc : ℕ) (prof_val : Option ℕ) (p : ProfilePoint)
      → p.mem_ptr ≡ fifo_address
      → Returns (stop fifo_address buf_address now tsc prof_val p m) Keeps
  unfolding stop
  stop_total now tsc prof_val p linked = elim (Bool-cases (due (recorded now tsc prof_val p))) [
    | inl yes_due ↦ rw yes_due (update_total (recorded now tsc prof_val p) linked)
    | inr not_due ↦ rw not_due (record { fifo = v; name = refl; room = refl })
  ]
