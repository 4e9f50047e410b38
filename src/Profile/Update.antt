-- ===== src/Profile/Update.antt =====
-- Update and Stop: what a profiler point hands on to its FIFO.
pub mod Total
use rt_debug_lib.Base.{
  ℕ, suc, ◌/◌, ◌<◌, ◌≡◌, ◌≢◌, refl, ◌∙◌, some, List, [], ◌∷◌, ◌++◌, arith, ok, err, Fault, ◌+◌, ◌%◌,
  Returns,
}
use rt_debug_lib.MemArea.Index.{full_iff}
use rt_debug_lib.MemArea.{
  push_mt, MemArea, resolve, c_push_fifo_mt, c_pop_fifo_mt, push_fifo_mt, pop_fifo_mt,
}
use rt_debug_lib.MemArea.Invariant.{IsValid, used, capacity}
use rt_debug_lib.MemArea.Refine.{
  contents, pushed, popped, push_full, push_room, pop_some, pushed-IsValid, popped-IsValid,
  used-popped, contents-pushed, contents-popped,
}
use rt_debug_lib.Profile.{
  ProfilePoint, ProfileData, profile_data_size, reset_data, update_rounds, update,
}

-- A FIFO that MemAlloc of this process pointed at its own buffer.
pub record IsProfFifo (buf_address : ℕ) (m : MemArea ProfileData) : Type 0 where
  pub valid : IsValid profile_data_size m
  pub producer : m.ptr_producer ≡ buf_address
  pub consumer : m.ptr_consumer ≡ buf_address

-- The data with the sum replaced by the average.
abbrev pub averaged : ProfileData → ProfileData
averaged d = record d { average_cnt = d.average_cnt / d.meas_num }

resolve_self : (a : ℕ) → resolve a a ≡ ok tt
resolve_self a = ground arith

module _ (buf_address : ℕ) (m : MemArea ProfileData) (v : IsProfFifo buf_address m)
    (d : ProfileData) where
  c_push_eq : c_push_fifo_mt profile_data_size buf_address d m ≡ push_fifo_mt profile_data_size d m
  c_push_eq = rw (v.producer, resolve_self buf_address)

  c_pop_eq : c_pop_fifo_mt profile_data_size buf_address m ≡ pop_fifo_mt profile_data_size m
  c_pop_eq = rw (v.consumer, resolve_self buf_address)

  pub pushed-IsProfFifo : used m < capacity m → IsProfFifo buf_address (pushed m d)
  pushed-IsProfFifo room = record {
    valid = pushed-IsValid profile_data_size v.valid d room;
    producer = v.producer;
    consumer = v.consumer;
  }

  pub popped-IsProfFifo : 0 < used m → IsProfFifo buf_address (popped m)
  popped-IsProfFifo some_used = record {
    valid = popped-IsValid profile_data_size v.valid some_used;
    producer = v.producer;
    consumer = v.consumer;
  }

  rounds_room :
      (f : ℕ) → used m < capacity m → update_rounds (suc f) buf_address d m ≡ ok (d, pushed m d)
  unfolding update_rounds
  rounds_room f room = rw (c_push_eq ∙ push_room profile_data_size v.valid d room)

module _ (buf_address : ℕ) (m : MemArea ProfileData) (v : IsProfFifo buf_address m)
    (d : ProfileData) (full : used m ≡ capacity m) where
  some_used : 0 < used m
  some_used = omega (arith, v.valid)

  rounds_full :
      (oldest : ProfileData)
      → c_pop_fifo_mt profile_data_size buf_address m ≡ ok (some oldest, popped m)
      → update_rounds 2 buf_address d m ≡ ok (oldest, pushed (popped m) oldest)
  unfolding update_rounds
  rounds_full oldest run =
      rw (c_push_eq buf_address m v d ∙ push_full profile_data_size v.valid d full, run)
        (rounds_room buf_address (popped m) (popped-IsProfFifo buf_address m v d some_used) oldest 0
          (omega (arith, used-popped profile_data_size v.valid some_used)))

module _ (fifo_address buf_address : ℕ) (p : ProfilePoint) (m : MemArea ProfileData)
    (v : IsProfFifo buf_address m) (linked : p.mem_ptr ≡ fifo_address)
    (measured : p.prof_data.meas_num ≢ 0) where
  update_run :
      (d : ProfileData) (m' : MemArea ProfileData)
      → update_rounds 2 buf_address (averaged p.prof_data) m ≡ ok (d, m')
      → update fifo_address buf_address p m ≡ ok (record p { prof_data = reset_data }, m')
  unfolding update
  update_run d m' run = ground (arith, linked, measured, run)

  -- With measurements in a point that is linked to a FIFO of this process with room in it, Update
  -- never faults, appends the averaged data to the FIFO and clears the point's data.
  pub update_room :
      used m < capacity m
      → Returns (update fifo_address buf_address p m) λ out.
        IsProfFifo buf_address out.1
        × (contents out.1 ≡ contents m ++ averaged p.prof_data ∷ [])
        × (out.0 ≡ record p { prof_data = reset_data })
  update_room room =
      let d = averaged p.prof_data in
      rw (update_run d (pushed m d) (rounds_room buf_address m v d 1 room)) (
        pushed-IsProfFifo buf_address m v d room,
        contents-pushed profile_data_size v.valid d room,
        refl,
      )

  -- Where the FIFO that the point is linked to is full, new measurements are lost, with no fault: Update pops into the very data that it is to push,
  -- so that the oldest entry goes round to the end, nothing of the point's data is stored, and the
  -- point is cleared.
  pub update_full_loses :
      used m ≡ capacity m
      → Returns (update fifo_address buf_address p m) λ out.
        IsProfFifo buf_address out.1
        × ((oldest : ProfileData) × (rest : List ProfileData) × (contents m ≡ oldest ∷ rest)
            × (contents out.1 ≡ rest ++ oldest ∷ []))
        × (out.0 ≡ record p { prof_data = reset_data })
  update_full_loses full =
      let d = averaged p.prof_data in
      let some_used : 0 < used m = omega (arith, v.valid) in
      let (oldest, found, split) = contents-popped profile_data_size v.valid some_used in
      let run =
        c_pop_eq buf_address m v d ∙ pop_some profile_data_size v.valid oldest some_used found in
      let v' = popped-IsProfFifo buf_address m v d some_used in
      let room : used (popped m) < capacity (popped m) =
        omega (arith, used-popped profile_data_size v.valid some_used) in
      rw
        (update_run oldest (pushed (popped m) oldest)
          (rounds_full buf_address m v d full oldest run))
        (
          pushed-IsProfFifo buf_address (popped m) v' oldest room,
          (
            oldest,
            contents (popped m),
            split,
            contents-pushed profile_data_size v'.valid oldest room,
          ),
          refl,
        )
