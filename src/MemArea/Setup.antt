-- ===== src/MemArea/Setup.antt =====
-- Setup and MemAlloc: what an area is before its first use.
use native.Mathlib.Nat.{add-mod_right, zero-mod}
use rt_debug_lib.Base.{
  ℕ, ◌+◌, ◌-◌, ◌%◌, ◌^◌, ◌≤◌, ◌<◌, ◌≡◌, refl, ap, ◌∙◌, [], length, arith, Returns, Returns-result,
  Returns_of_ok, lt→ltb, ok, ◌*◌, ◌≢◌, false,
}
use rt_debug_lib.CString.{CStr}
use rt_debug_lib.MemArea.{
  MemArea, EAccessT, e_read, mdo_name_size, setup, c_setup, mem_alloc, c_mem_alloc, align_size,
}
use rt_debug_lib.MemArea.Invariant.{IsValid, capacity}
use rt_debug_lib.MemArea.Slots.{slots}
use rt_debug_lib.MemArea.Refine.{contents}

-- A size that is a multiple of the cache line is kept, so that chunk `i` is element `i` of `buf_`.
pub align_size_of_multiple : (s : ℕ) → s % 64 ≡ 0 → s < 2 ^ 16 → align_size s ≡ s
unfolding align_size
align_size_of_multiple s h k = omega arith

module _ {A : Type 0} (size_of chunks_num : ℕ) (name : CStr) (m : MemArea A) where
  -- StaticMemArea::Setup with a name below MDO_NAME_SIZE never faults, and makes an empty FIFO of that
  -- name for `chunks_num - 2` items out of any area with a buffer for `chunks_num` items, from 3 to
  -- less than 2^16, whose T is a whole number of cache lines below 2^16 bytes.
  pub setup-IsValid :
      (access : EAccessT) (attrib : ℕ)
      → 3 ≤ chunks_num
      → chunks_num < 2 ^ 16
      → chunks_num ≤ length m.buf
      → 0 < size_of
      → size_of < 2 ^ 16
      → size_of % 64 ≡ 0
      → length name < mdo_name_size
      → Returns (setup size_of chunks_num name access attrib m) λ m'.
        IsValid size_of m' × (contents m' ≡ []) × (capacity m' ≡ chunks_num - 2) × (m'.name ≡ name)
  unfolding c_setup
  setup-IsValid access attrib n3 few room pos narrow whole fits =
      let aligned : align_size size_of ≡ size_of = align_size_of_multiple size_of whole narrow in
      let cancel : 1 + chunks_num - 0 - 1 ≡ 0 + chunks_num = omega arith in
      let none_used : (1 + chunks_num - 0 - 1) % chunks_num ≡ 0 =
        rw cancel (add-mod_right 0 chunks_num ∙ zero-mod chunks_num) in
      rw (lt→ltb _ _ fits) (
        record {
          enough = n3;
          few = few;
          room = room;
          sized = aligned;
          nonempty = pos;
          narrow = narrow;
          wr_in = omega arith;
          rd_in = omega arith;
          apart = omega arith;
          in_free = refl;
          out_free = refl;
        },
        ap (slots m.buf chunks_num _) none_used,
        refl,
        refl,
      )

-- What Setup makes of an area, and what MemAlloc makes of that for a buffer at `address`.
abbrev pub set_up : {A : Type 0} → ℕ → ℕ → CStr → MemArea A → MemArea A
set_up size_of chunks_num s m = record m {
  rd_ind = 0;
  wr_ind = 1;
  number_chunks = chunks_num;
  single_chunk_size = size_of;
  access = e_read;
  attrib = 0;
  name = s;
  in_lock = false;
  out_lock = false;
}

abbrev pub set_up_at : {A : Type 0} → ℕ → ℕ → CStr → ℕ → MemArea A → MemArea A
set_up_at size_of chunks_num s address m = record (set_up size_of chunks_num s m) {
  ptr_producer = address;
  ptr_consumer = address;
}

module _ {A : Type 0} (size_of chunks_num : ℕ) (s : CStr) where
  pub setup_run :
      (m : MemArea A)
      → length s < mdo_name_size
      → size_of % 64 ≡ 0
      → size_of < 2 ^ 16
      → setup size_of chunks_num s e_read 0 m ≡ ok (set_up size_of chunks_num s m)
  unfolding c_setup
  setup_run m fits whole narrow = ground (arith, fits, align_size_of_multiple size_of whole narrow)

  module _ (address : ℕ) (m : MemArea A) where
    pub mem_alloc_run :
        address ≢ 0
        → address % 8 ≡ 0
        → size_of * chunks_num < 2 ^ 31
        → mem_alloc size_of chunks_num address (set_up size_of chunks_num s m)
          ≡ ok (set_up_at size_of chunks_num s address m)
    unfolding c_mem_alloc
    mem_alloc_run some_address aligned small = ground (arith, some_address, aligned, small)

    pub set_up_at-IsValid :
        length s < mdo_name_size
        → 3 ≤ chunks_num
        → chunks_num < 2 ^ 16
        → 0 < size_of
        → size_of < 2 ^ 16
        → size_of % 64 ≡ 0
        → chunks_num ≤ length m.buf
        → IsValid size_of (set_up_at size_of chunks_num s address m)
          × (contents (set_up_at size_of chunks_num s address m) ≡ [])
    set_up_at-IsValid fits n3 few pos narrow whole room =
        let (m', run, (v, empty, cap, named)) =
          Returns-result (setup size_of chunks_num s e_read 0 m) _
            (setup-IsValid size_of chunks_num s m e_read 0 n3 few room pos narrow whole fits) in
        let e = setup_run m fits whole narrow in
        let v' = Returns_of_ok (IsValid size_of) run e v in
        (
          record {
            enough = v'.enough;
            few = v'.few;
            room = v'.room;
            sized = v'.sized;
            nonempty = v'.nonempty;
            narrow = v'.narrow;
            wr_in = v'.wr_in;
            rd_in = v'.rd_in;
            apart = v'.apart;
            in_free = refl;
            out_free = refl;
          },
          Returns_of_ok (λ (k : MemArea A). contents k ≡ []) run e empty,
        )
