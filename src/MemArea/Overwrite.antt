-- ===== src/MemArea/Overwrite.antt =====
-- The loop that makes room for a new item: `while (PushFIFO_MT(x) == E_FAIL) PopFIFO_MT(dummy)`, in
-- CLog_group::AddLog and CProfilerGroup::AddProfData of rt_debug_types.h.
use rt_debug_lib.Base.{ℕ, suc, ◌<◌, ◌≡◌, refl, arith, dec_lt, ok, Returns}
use rt_debug_lib.Queue
use rt_debug_lib.MemArea.{MemArea, push_over_rounds}
use rt_debug_lib.MemArea.Invariant.{IsValid, used, capacity}
use rt_debug_lib.MemArea.Refine.{
  contents, pushed, popped, length-contents, used-le, push_full, push_room, pop_some,
  pushed-IsValid, popped-IsValid, used-popped, contents-pushed, contents-popped,
}

module _ {A : Type 0} (size_of : ℕ) {m : MemArea A} (v : IsValid size_of m) (f : ℕ) (x : A) where
  pub push_over_room :
      used m < capacity m → push_over_rounds size_of (suc (suc f)) x m ≡ ok (pushed m x)
  unfolding push_over_rounds
  push_over_room room = rw (push_room size_of v x room)

  pub push_over_full :
      used m ≡ capacity m → push_over_rounds size_of (suc (suc f)) x m ≡ ok (pushed (popped m) x)
  unfolding push_over_rounds
  push_over_full full =
      let some_used : 0 < used m = omega (arith, v) in
      let (a, found, e) = contents-popped size_of v some_used in
      let room : used (popped m) < capacity (popped m) =
        omega (arith, used-popped size_of v some_used) in
      rw (
        push_full size_of v x full,
        pop_some size_of v a some_used found,
        push_room size_of (popped-IsValid size_of v some_used) x room,
      )

  -- For the loop that pops until its push succeeds two rounds are always enough: it ends with no
  -- fault on a valid area, keeps it valid and of the same capacity, and leaves the contents followed by the new item, without the oldest one
  -- where they filled the area.
  pub push_over_refines : Returns (push_over_rounds size_of (suc (suc f)) x m) λ m'.
      IsValid size_of m'
      × (capacity m' ≡ capacity m)
      × (contents m' ≡ Queue.push_over (capacity m) (contents m) x)
  push_over_refines = elim (dec_lt (used m) (capacity m)) [
    | yes room ↦ rw (push_over_room room) (
      pushed-IsValid size_of v x room,
      refl,
      ground (arith, contents-pushed size_of v x room, length-contents size_of v),
    )
    | no full ↦
        let e : used m ≡ capacity m = omega (arith, used-le size_of v) in
        let some_used : 0 < used m = omega (arith, v) in
        let (a, found, split) = contents-popped size_of v some_used in
        let v' = popped-IsValid size_of v some_used in
        let room : used (popped m) < capacity (popped m) =
          omega (arith, used-popped size_of v some_used) in
        rw (push_over_full e) (
          pushed-IsValid size_of v' x room,
          refl,
          ground (arith, contents-pushed size_of v' x room, length-contents size_of v, split),
        )
  ]
