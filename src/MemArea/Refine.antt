-- ===== src/MemArea/Refine.antt =====
-- PushFIFO_MT and PopFIFO_MT against the bounded queue of the area's contents.
use rt_debug_lib.Base.{
  ℕ, suc, ◌+◌, ◌-◌, ◌%◌, ◌≤◌, ◌<◌, ◌≡◌, ◌≢◌, ◌⊎◌, inl, inr, refl, ap, ◌∙◌, List, [], ◌∷◌, ◌++◌,
  none, some, length, set, get_elem?, arith, dec_lt, ok, Returns, length-set,
}
use rt_debug_lib.Queue
use rt_debug_lib.Queue.{EResultT, e_ok, e_fail}
use rt_debug_lib.MemArea.{MemArea, push_mt, pop_mt, push_fifo_mt, pop_fifo_mt}
use rt_debug_lib.MemArea.Index.{
  offset_index, distance-le, full_iff, empty_iff, end_of_window, distance_wr, distance_rd,
}
use rt_debug_lib.MemArea.Invariant.{IsValid, used, capacity}
use rt_debug_lib.MemArea.Slots.{slots, length-slots, slots-set, slots-head}

module _ {ℓ} {A : Type ℓ} where
  -- The items in use, oldest first.
  abbrev pub contents : MemArea A → List A
  contents m = slots m.buf m.number_chunks ((m.rd_ind + 1) % m.number_chunks) (used m)

  -- The area after a push that finds room, and after a pop that finds an item.
  abbrev pub pushed : MemArea A → A → MemArea A
  pushed m x = record m { buf = set m.buf m.wr_ind x; wr_ind = (m.wr_ind + 1) % m.number_chunks }

  abbrev pub popped : MemArea A → MemArea A
  popped m = record m { rd_ind = (m.rd_ind + 1) % m.number_chunks }

-- The program's items all stand in `Type 0`.
module _ {A : Type 0} (size_of : ℕ) {m : MemArea A} (v : IsValid size_of m) where
  open m use {buf, number_chunks, wr_ind, rd_ind}

  abbrev first : ℕ
  first = (rd_ind + 1) % number_chunks

  pub length-contents : length (contents m) ≡ used m
  length-contents = length-slots buf number_chunks _ (used m) v.room (omega arith)

  pub used-le : used m ≤ capacity m
  used-le = omega (arith, distance-le number_chunks wr_ind rd_ind v.wr_in v.rd_in v.apart)

  not_full : used m < capacity m → (wr_ind + 1) % number_chunks ≢ rd_ind
  not_full room e =
      omega (arith, (full_iff number_chunks wr_ind rd_ind v.wr_in v.rd_in v.apart).0 e)

  not_empty : 0 < used m → first ≢ wr_ind
  not_empty some_used e =
      omega (arith, (empty_iff number_chunks wr_ind rd_ind v.wr_in v.rd_in v.apart).0 e)

  -- The four branches of the two methods.
  pub push_full : (x : A) → used m ≡ capacity m → push_fifo_mt size_of x m ≡ ok (e_fail, m)
  unfolding push_mt
  push_full x full =
      let e = (full_iff number_chunks wr_ind rd_ind v.wr_in v.rd_in v.apart).1 (omega arith) in
      ground (arith, v, e)

  pub push_room : (x : A) → used m < capacity m → push_fifo_mt size_of x m ≡ ok (e_ok, pushed m x)
  unfolding push_mt
  push_room x room = ground (arith, v, not_full room, offset_index size_of wr_ind)

  pub pop_none : used m ≡ 0 → pop_fifo_mt size_of m ≡ ok (none, m)
  unfolding pop_mt
  pop_none empty =
      let e = (empty_iff number_chunks wr_ind rd_ind v.wr_in v.rd_in v.apart).1 empty in
      ground (arith, v, e)

  pub pop_some :
      (x : A)
      → 0 < used m
      → get_elem? buf first ≡ some x
      → pop_fifo_mt size_of m ≡ ok (some x, popped m)
  unfolding pop_mt
  pop_some x some_used e = ground (arith, v, not_empty some_used, offset_index size_of first)

  pub pushed-IsValid : (x : A) → used m < capacity m → IsValid size_of (pushed m x)
  pushed-IsValid x room = ground (arith, v, length-set buf wr_ind x, not_full room)

  pub popped-IsValid : 0 < used m → IsValid size_of (popped m)
  popped-IsValid some_used = ground (arith, v, not_empty some_used)

  pub used-pushed : (x : A) → used m < capacity m → used (pushed m x) ≡ used m + 1
  used-pushed x room =
      distance_wr number_chunks wr_ind rd_ind v.wr_in v.rd_in v.apart (not_full room)

  pub used-popped : 0 < used m → used (popped m) + 1 ≡ used m
  used-popped some_used =
      distance_rd number_chunks wr_ind rd_ind v.wr_in v.rd_in v.apart (not_empty some_used)

  pub contents-pushed : (x : A) → used m < capacity m → contents (pushed m x) ≡ contents m ++ x ∷ []
  contents-pushed x room =
      let more : used (pushed m x) ≡ suc (used m) = omega (arith, used-pushed x room) in
      ap (slots (set buf wr_ind x) number_chunks first) more
      ∙ slots-set buf number_chunks x (used m) first wr_ind v.room (omega arith) (omega arith)
          (end_of_window number_chunks wr_ind rd_ind v.wr_in v.rd_in v.apart)

  pub contents_of_empty : used m ≡ 0 → contents m ≡ []
  contents_of_empty empty = rw empty

  -- A pop that finds an item takes the oldest one.
  pub contents-popped :
      0 < used m → (x : A) × (get_elem? buf first ≡ some x) × (contents m ≡ x ∷ contents (popped m))
  contents-popped some_used =
      let (x, found, e) = slots-head buf number_chunks first (used m) (omega arith) some_used in
      let rest : used m - 1 ≡ used (popped m) = omega (arith, used-popped some_used) in
      (x, found, e ∙ ap (λ k. x ∷ slots buf number_chunks ((first + 1) % number_chunks) k) rest)

  -- PushFIFO_MT on a valid area never faults, keeps it valid and of the same capacity, releases its
  -- lock, and returns and stores what the bounded queue of the contents does.
  pub push_refines :
      (x : A)
      → Returns (push_fifo_mt size_of x m) λ out.
        IsValid size_of out.1
        × (capacity out.1 ≡ capacity m)
        × ((out.0, contents out.1) ≡ Queue.push (capacity m) (contents m) x)
  push_refines x = elim (dec_lt (used m) (capacity m)) [
    | yes room ↦
        rw (push_room x room)
          (pushed-IsValid x room, refl, ground (arith, contents-pushed x room, length-contents))
    | no full ↦
        let e : used m ≡ capacity m = omega (arith, used-le) in
        rw (push_full x e) (v, refl, ground (arith, length-contents))
  ]

  -- PopFIFO_MT on a valid area never faults, keeps it valid and of the same capacity, releases its
  -- lock, and returns the oldest item and leaves the others, or returns NULL where there is none.
  pub pop_refines : Returns (pop_fifo_mt size_of m) λ out.
      IsValid size_of out.1
      × (capacity out.1 ≡ capacity m)
      × ((out.0, contents out.1) ≡ Queue.pop (contents m))
  pop_refines = elim (dec_lt 0 (used m)) [
    | yes some_used ↦
        let (x, found, e) = contents-popped some_used in
        rw (pop_some x some_used found, e) (popped-IsValid some_used, refl, refl)
    | no empty ↦
        let e : used m ≡ 0 = omega arith in rw (pop_none e) (v, refl, rw (contents_of_empty e))
  ]

  -- The two ways in which a pop ends.
  abbrev pub PopCases : Type 0
  PopCases =
      ((contents m ≡ []) × (pop_fifo_mt size_of m ≡ ok (none, m)))
      ⊎ ((x : A) × (contents m ≡ x ∷ contents (popped m))
          × (pop_fifo_mt size_of m ≡ ok (some x, popped m))
          × IsValid size_of (popped m)
          × (used (popped m) + 1 ≡ used m))

  pub pop_cases : PopCases
  pop_cases = elim (dec_lt 0 (used m)) [
    | yes some_used ↦
        let (x, found, e) = contents-popped some_used in
        inr (x, e, pop_some x some_used found, popped-IsValid some_used, used-popped some_used)
    | no empty ↦ let e : used m ≡ 0 = omega arith in inl (contents_of_empty e, pop_none e)
  ]
