-- ===== src/MemArea/Threads/Access.antt =====
-- What the single accesses of PushFIFO_MT and PopFIFO_MT do to an area whose locks may be taken.
use native.Mathlib.Nat.{mod-eq_of_lt}
use rt_debug_lib.Base.{
  ℕ, ◌+◌, ◌-◌, ◌%◌, ◌^◌, ◌≤◌, ◌<◌, ◌≡◌, ◌≢◌, refl, ap, ap₂, sym, ◌∙◌, subst, Bool, true, false,
  some, List, [], ◌∷◌, ◌++◌, get_elem?, set, arith, add32, set-get_elem?, get_elem?-set_ne,
  length-set,
}
use rt_debug_lib.MemArea.{MemArea}
use rt_debug_lib.MemArea.Index.{step_cases, full_iff, empty_iff, end_of_window}
use rt_debug_lib.MemArea.Invariant.{IsValid, used, capacity}
use rt_debug_lib.MemArea.Slots.{cons_some, slots-set_outside}
use rt_debug_lib.MemArea.Refine.{
  contents, used-le, pushed-IsValid, popped-IsValid, contents-pushed, contents-popped,
}
use rt_debug_lib.MemArea.Threads.{
  System, Writer, Reader, no_writer, testing_room, writing, advancing, leaving_push, no_reader,
  testing_items, taking, reading, leaving_pop, next_wr, next_rd,
}

abbrev pub reader_inside : Reader → Bool
reader_inside no_reader = false
reader_inside testing_items = true
reader_inside taking = true
reader_inside reading = true
reader_inside leaving_pop = true

-- What a test found and still holds while the thread relies on it.
abbrev pub IsReaderReady : Type 0 → Reader → Type 0
IsReaderReady P taking = P
IsReaderReady P _ = Unit {0}

pub IsReaderReady-map :
    {P Q : Type 0} → (P → Q) → (r : Reader) → IsReaderReady P r → IsReaderReady Q r
IsReaderReady-map f no_reader h = tt
IsReaderReady-map f testing_items h = tt
IsReaderReady-map f taking h = f h
IsReaderReady-map f reading h = tt
IsReaderReady-map f leaving_pop h = tt

-- Different indices stay different after a step round the ring.
next-ne : (n i j : ℕ) → i < n → j < n → i ≢ j → (i + 1) % n ≢ (j + 1) % n
next-ne n i j hi hj ne e = ground (arith, ne, step_cases n i hi, step_cases n j hj, e)

add32_small : (i n : ℕ) → i < n → n < 2 ^ 16 → add32 i 1 % n ≡ (i + 1) % n
add32_small i n below few = ap (λ k. k % n) (mod-eq_of_lt (omega arith))

module _ {A : Type 0} where
  abbrev pub writer_inside : Writer A → Bool
  writer_inside no_writer = false
  writer_inside (testing_room x) = true
  writer_inside (writing x) = true
  writer_inside (advancing x) = true
  writer_inside leaving_push = true

  abbrev pub IsWriterReady : Type 0 → List A → ℕ → Writer A → Type 0
  IsWriterReady P buf wr (writing x) = P
  IsWriterReady P buf wr (advancing x) = P × (get_elem? buf wr ≡ some x)
  IsWriterReady P buf wr _ = Unit {0}

  pub IsWriterReady-map :
      {P Q : Type 0} (buf : List A) (wr : ℕ)
      → (P → Q)
      → (w : Writer A) → IsWriterReady P buf wr w
      → IsWriterReady Q buf wr w
  IsWriterReady-map buf wr f no_writer h = tt
  IsWriterReady-map buf wr f (testing_room x) h = tt
  IsWriterReady-map buf wr f (writing x) h = f h
  IsWriterReady-map buf wr f (advancing x) h = (f h.0, h.1)
  IsWriterReady-map buf wr f leaving_push h = tt

  -- The item that has left the ring and is not copied yet.
  abbrev pub in_flight : List A → ℕ → Reader → List A
  in_flight buf rd reading = cons_some (get_elem? buf rd) []
  in_flight buf rd _ = []

  pub no_flight :
      (buf : List A) (rd : ℕ) (r : Reader) → reader_inside r ≡ false → in_flight buf rd r ≡ []
  no_flight buf rd no_reader h = refl
  no_flight buf rd testing_items h = refl
  no_flight buf rd taking h = refl
  no_flight buf rd reading h = cc
  no_flight buf rd leaving_pop h = refl

  pub in_flight-set :
      (buf : List A) (wr rd : ℕ) (x : A) (r : Reader)
      → wr ≢ rd
      → in_flight (set buf wr x) rd r ≡ in_flight buf rd r
  in_flight-set buf wr rd x no_reader ne = refl
  in_flight-set buf wr rd x testing_items ne = refl
  in_flight-set buf wr rd x taking ne = refl
  in_flight-set buf wr rd x reading ne = rw (get_elem?-set_ne buf wr rd x ne) refl
  in_flight-set buf wr rd x leaving_pop ne = refl

  -- The area as it is when its locks are free.
  abbrev pub unlocked : MemArea A → MemArea A
  unlocked m = record m { in_lock = false; out_lock = false }

  -- The locks say who is inside, and every item pushed was popped, is about to be copied, or is in the
  -- ring, in this order.
  pub record IsConsistent (size_of : ℕ) (s : System A) : Type 0 where
    pub valid : IsValid size_of (unlocked s.area)
    pub in_held : s.area.in_lock ≡ writer_inside s.writer
    pub out_held : s.area.out_lock ≡ reader_inside s.reader
    pub writes : IsWriterReady (next_wr s.area ≢ s.area.rd_ind) s.area.buf s.area.wr_ind s.writer
    pub reads : IsReaderReady (next_rd s.area ≢ s.area.wr_ind) s.reader
    pub order :
        s.pushed ≡ s.popped ++ in_flight s.area.buf s.area.rd_ind s.reader ++ contents s.area

module _ {A : Type 0} (size_of : ℕ) (m : MemArea A) (v : IsValid size_of (unlocked m)) where
  pub wr_next : next_wr m ≡ (m.wr_ind + 1) % m.number_chunks
  wr_next = add32_small m.wr_ind m.number_chunks v.wr_in v.few

  pub rd_next : next_rd m ≡ (m.rd_ind + 1) % m.number_chunks
  rd_next = add32_small m.rd_ind m.number_chunks v.rd_in v.few

  pub apart_next : next_wr m ≢ next_rd m
  apart_next e =
      next-ne m.number_chunks m.wr_ind m.rd_ind v.wr_in v.rd_in v.apart (sym wr_next ∙ e ∙ rd_next)

  -- Writing the chunk at the write index.
  pub written-IsValid :
      (x : A) → IsValid size_of (record (unlocked m) { buf = set m.buf m.wr_ind x })
  written-IsValid x = ground (arith, v, length-set m.buf m.wr_ind x)

  pub contents-written : (x : A) → contents (record m { buf = set m.buf m.wr_ind x }) ≡ contents m
  contents-written x =
      slots-set_outside m.buf m.number_chunks x (used m) ((m.rd_ind + 1) % m.number_chunks) m.wr_ind
        (omega (arith, v)) (omega (arith, used-le size_of v, v))
        (end_of_window m.number_chunks m.wr_ind m.rd_ind v.wr_in v.rd_in v.apart)

  -- Writing the write index, where the chunk holds the item.
  module _ (x : A) (here : get_elem? m.buf m.wr_ind ≡ some x) (found : next_wr m ≢ m.rd_ind) where
    room : used (unlocked m) < capacity m
    room =
        let full = full_iff m.number_chunks m.wr_ind m.rd_ind v.wr_in v.rd_in v.apart in
        let not_full : used (unlocked m) + 2 ≢ m.number_chunks = λ e. found (wr_next ∙ full.1 e) in
        let most : used (unlocked m) ≤ m.number_chunks - 2 = used-le size_of v in
        let enough : 3 ≤ m.number_chunks = v.enough in omega (arith, most, not_full, enough)

    same_place :
        ◌≡◌ {A = List A × ℕ}
          (set m.buf m.wr_ind x, (m.wr_ind + 1) % m.number_chunks)
          (m.buf, next_wr m)
    same_place =
        ap₂ (λ (a : List A) (b : ℕ). (a, b)) (set-get_elem? m.buf m.wr_ind x here) (sym wr_next)

    pub advanced-IsValid : IsValid size_of (record (unlocked m) { wr_ind = next_wr m })
    advanced-IsValid =
        subst
          (λ (p : List A × ℕ). IsValid size_of (record (unlocked m) { buf = p.0; wr_ind = p.1 }))
          same_place (pushed-IsValid size_of v x room)

    pub contents-advanced : contents (record m { wr_ind = next_wr m }) ≡ contents m ++ x ∷ []
    contents-advanced =
        subst
          (λ (p : List A × ℕ).
            contents (record m { buf = p.0; wr_ind = p.1 }) ≡ contents m ++ x ∷ [])
          same_place (contents-pushed size_of v x room)

  -- Writing the read index, where there is an item.
  module _ (found : next_rd m ≢ m.wr_ind) where
    some_used : 0 < used (unlocked m)
    some_used =
        let empty = empty_iff m.number_chunks m.wr_ind m.rd_ind v.wr_in v.rd_in v.apart in
        let not_empty : used (unlocked m) ≢ 0 = λ e. found (rd_next ∙ empty.1 e) in
        omega (arith, not_empty)

    pub taken-IsValid : IsValid size_of (record (unlocked m) { rd_ind = next_rd m })
    taken-IsValid =
        subst (λ (k : ℕ). IsValid size_of (record (unlocked m) { rd_ind = k })) (sym rd_next)
          (popped-IsValid size_of v some_used)

    pub contents-taken :
        contents m
        ≡ cons_some (get_elem? m.buf (next_rd m)) [] ++ contents (record m { rd_ind = next_rd m })
    contents-taken =
        let (y, here, e) = contents-popped size_of v some_used in
        subst
          (λ (k : ℕ).
            contents m ≡ cons_some (get_elem? m.buf k) [] ++ contents (record m { rd_ind = k }))
          (sym rd_next) (rw here e)
