-- ===== src/MemArea/Threads/Alone.antt =====
-- A thread that runs PushFIFO_MT or PopFIFO_MT with no other inside: its accesses end where the method of
-- the area does.
use rt_debug_lib.Base.{
  dec_lt, ◌↔◌, Option, none, Returns, ℕ, ◌+◌, ◌<◌, ◌≡◌, ◌≢◌, ap, ap₂, sym, ◌∙◌, subst, Bool, true,
  some, List, [], ◌∷◌, ◌++◌, get_elem?, set, arith,
}
use rt_debug_lib.MemArea.{MemArea, push_fifo_mt, pop_fifo_mt}
use rt_debug_lib.MemArea.Index.{full_iff, empty_iff}
use rt_debug_lib.MemArea.Invariant.{IsValid, used, capacity}
use rt_debug_lib.MemArea.Refine.{
  push_full, push_room, pop_some, pop_none, contents, pushed, popped, used-le, contents-pushed,
  contents-popped,
}
use rt_debug_lib.MemArea.Threads.{
  System, Writer, Reader, Step, Reaches, no_writer, testing_room, no_reader, testing_items, next_wr,
  next_rd, at_rest, lock_push, find_full, find_room, write, advance, unlock_push, lock_pop,
  find_empty, find_item, take, copy, unlock_pop, stay, and_then,
}
use rt_debug_lib.MemArea.Threads.Access.{unlocked, wr_next, rd_next}

-- The items that a call of PopFIFO_MT returns.
abbrev pub returned : {A : Type 0} → Option A → List A
returned none = []
returned (some x) = x ∷ []

module _ {A : Type 0} (size_of : ℕ) {m : MemArea A} (v : IsValid size_of m) where
  abbrev with_lock : Bool → MemArea A → MemArea A
  with_lock b a = record a { in_lock = b }

  abbrev with_out : Bool → MemArea A → MemArea A
  with_out b a = record a { out_lock = b }

  -- Writer `w` inside, and the area and the pushed items as given.
  abbrev pushing : MemArea A → Writer A → List A → System A
  pushing a w ps = record { area = a; writer = w; reader = no_reader; pushed = ps; popped = [] }

  abbrev pub popping : MemArea A → Reader → List A → System A
  popping a r qs = record {
    area = a;
    writer = no_writer;
    reader = r;
    pushed = contents m;
    popped = qs;
  }

  locked-IsValid : IsValid size_of (unlocked m)
  locked-IsValid = ground (arith, v)

  abbrev pub inside_push : A → System A
  inside_push x = pushing (with_lock true m) (testing_room x) (contents m)

  abbrev pub inside_pop : System A
  inside_pop = popping (with_out true m) testing_items []

  wr_full : (next_wr m ≡ m.rd_ind) ↔ (used m + 2 ≡ m.number_chunks)
  wr_full =
      let f = full_iff m.number_chunks m.wr_ind m.rd_ind v.wr_in v.rd_in v.apart in
      let next = wr_next size_of m locked-IsValid in (λ e. f.0 (sym next ∙ e), λ e. next ∙ f.1 e)

  rd_empty : (next_rd m ≡ m.wr_ind) ↔ (used m ≡ 0)
  rd_empty =
      let f = empty_iff m.number_chunks m.wr_ind m.rd_ind v.wr_in v.rd_in v.apart in
      let next = rd_next size_of m locked-IsValid in (λ e. f.0 (sym next ∙ e), λ e. next ∙ f.1 e)

  full_run : (x : A) → next_wr m ≡ m.rd_ind → Reaches (inside_push x) (at_rest m)
  full_run x full =
      subst (λ b. Reaches (inside_push x) (pushing (with_lock b m) no_writer (contents m)))
        (sym v.in_free)
        (and_then (and_then stay (find_full (with_lock true m) no_reader (contents m) [] x full))
          (unlock_push (with_lock true m) no_reader (contents m) []))

  room_run :
      (x : A)
      → used m < capacity m
      → next_wr m ≢ m.rd_ind
      → Reaches (inside_push x) (at_rest (pushed m x))
  room_run x room found =
      let a : MemArea A = with_lock true m in
      let b : MemArea A = record a { buf = set m.buf m.wr_ind x } in
      let c : MemArea A = record b { wr_ind = next_wr m } in
      subst
        (λ (p : Bool × ℕ × List A). Reaches (inside_push x) (
          pushing (record m { buf = set m.buf m.wr_ind x; in_lock = p.0; wr_ind = p.1 }) no_writer
            p.2))
        (ap₂ (λ (i : Bool) (q : ℕ × List A). (i, q.0, q.1)) (sym v.in_free)
          (ap₂ (λ (i : ℕ) (l : List A). (i, l)) (wr_next size_of m locked-IsValid)
            (sym (contents-pushed size_of v x room))))
        (and_then
          (and_then
            (and_then (and_then stay (find_room a no_reader (contents m) [] x found))
              (write a no_reader (contents m) [] x))
            (advance b no_reader (contents m) [] x))
          (unlock_push c no_reader (contents m ++ x ∷ []) []))

  push_alone :
      (x : A)
      → Returns
          (push_fifo_mt size_of x m)
          λ out. Step (at_rest m) (inside_push x) × Reaches (inside_push x) (at_rest out.1)
  push_alone x =
      let enter = lock_push m no_writer no_reader (contents m) [] x v.in_free in
      elim (dec_lt (used m) (capacity m)) [
        | yes room ↦
            rw (push_room size_of v x room)
              (enter, room_run x room (λ e. omega (arith, wr_full.0 e, room)))
        | no full ↦
            let most : used m ≡ capacity m = omega (arith, used-le size_of v) in
            rw (push_full size_of v x most) (enter, full_run x (wr_full.1 (omega (arith, v))))
      ]

  empty_run : next_rd m ≡ m.wr_ind → Reaches inside_pop (at_rest m)
  empty_run empty =
      subst (λ b. Reaches inside_pop (popping (with_out b m) no_reader [])) (sym v.out_free)
        (and_then (and_then stay (find_empty (with_out true m) no_writer (contents m) [] empty))
          (unlock_pop (with_out true m) no_writer (contents m) []))

  item_run :
      (x : A)
      → next_rd m ≢ m.wr_ind
      → get_elem? m.buf (next_rd m) ≡ some x
      → Reaches inside_pop (popping (popped m) no_reader (x ∷ []))
  item_run x found here =
      let a : MemArea A = with_out true m in
      let b : MemArea A = record a { rd_ind = next_rd m } in
      subst
        (λ (p : Bool × ℕ).
          Reaches inside_pop
            (popping (record m { out_lock = p.0; rd_ind = p.1 }) no_reader (x ∷ [])))
        (ap₂ (λ (i : Bool) (k : ℕ). (i, k)) (sym v.out_free) (rd_next size_of m locked-IsValid))
        (and_then
          (and_then
            (and_then (and_then stay (find_item a no_writer (contents m) [] found))
              (take a no_writer (contents m) []))
            (copy b no_writer (contents m) [] x here))
          (unlock_pop b no_writer (contents m) (x ∷ [])))

  pop_alone : Returns (pop_fifo_mt size_of m) λ out.
      Step (at_rest m) inside_pop × Reaches inside_pop (popping out.1 no_reader (returned out.0))
  pop_alone =
      let enter = lock_pop m no_writer no_reader (contents m) [] v.out_free in
      elim (dec_lt 0 (used m)) [
        | yes some_used ↦
            let (x, here, _) = contents-popped size_of v some_used in
            rw (pop_some size_of v x some_used here) (
              enter,
              item_run x (λ e. omega (arith, rd_empty.0 e, some_used))
                  (ap (get_elem? m.buf) (rd_next size_of m locked-IsValid) ∙ here),
            )
        | no empty ↦
            let e : used m ≡ 0 = omega arith in
            rw (pop_none size_of v e) (enter, empty_run (rd_empty.1 e))
      ]

  -- A thread that enters PushFIFO_MT or PopFIFO_MT of a valid area with no other thread inside: its accesses,
  -- one after another, take the lock and lead out of it again, to the area that push_fifo_mt or
  -- pop_fifo_mt returns. After a push, what stands in the FIFO is what was pushed; a pop copies out just
  -- the item that it returns.
  pub calls_alone :
      (x : A)
      → Returns
          (push_fifo_mt size_of x m)
          (λ out. Step (at_rest m) (inside_push x) × Reaches (inside_push x) (at_rest out.1))
        × Returns (pop_fifo_mt size_of m) (λ out.
          Step (at_rest m) inside_pop
          × Reaches inside_pop (popping out.1 no_reader (returned out.0)))
  calls_alone x = (push_alone x, pop_alone)
