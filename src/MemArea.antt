-- ===== src/MemArea.antt =====
-- rt_debug_cpp/src/i_cpp_sys_api.h: `CMemArea` and `StaticMemArea<T, CHUNKS_NUM>`, a buffer of
-- equal chunks with a read and a write index, used as a FIFO (PushFIFO_MT, PopFIFO_MT), as a pool
-- (AllocPoolChunk) and as a double buffer. `A` is T; `size_of` is sizeof(T), and every call in the
-- program passes it as `data_size`. Calls are atomic here: a lock is held during a call only.
-- `allocated_ptr_` is not read by any method, and the cache macros are empty on the targets.
pub mod Index
pub mod Invariant
pub mod Slots
pub mod Refine
pub mod Overwrite
pub mod Threads
pub mod Pool
pub mod Setup
use rt_debug_lib.Base.{
  ℕ, zero, suc, ◌+◌, ◌-◌, ◌*◌, ◌/◌, ◌%◌, ◌^◌, Bool, true, false, not, ◌&&◌, ◌||◌, Option, none,
  some, List, length, set, ltb, leb, ◌==◌, if◌then◌else◌, add32, mul32, u32_mod, Result, ok, err,
  Fault, assert, require, at, ◌>>=◌, ◌>>◌,
}
use rt_debug_lib.CString.{CStr, strcpy}
use rt_debug_lib.Queue.{EResultT, e_ok, e_fail}

-- CACHE_ALIGNMENT of api/rt_debug_defs.h
abbrev pub cache_alignment : ℕ
cache_alignment = 64

-- MDO_NAME_SIZE
abbrev pub mdo_name_size : ℕ
mdo_name_size = 80

pub data EAccessT : Type 0 where
  e_read e_write : EAccessT

-- The data members. `buf` is StaticMemArea's `buf_`; the pointers are addresses, 0 for NULL.
pub record MemArea {ℓ} (A : Type ℓ) : Type ℓ where
  pub ptr_producer : ℕ
  pub ptr_consumer : ℕ
  pub number_chunks : ℕ
  pub single_chunk_size : ℕ
  pub wr_ind : ℕ
  pub rd_ind : ℕ
  pub access : EAccessT
  pub attrib : ℕ
  pub in_lock : Bool
  pub out_lock : Bool
  pub name : CStr
  pub buf : List A

-- ALIGN_SIZE(x, CACHE_ALIGNMENT) on uint32_t
unfoldable pub align_size : ℕ → ℕ
align_size x = add32 x (cache_alignment - 1) / cache_alignment * cache_alignment

-- OSA_spinlock_lock: it waits for ever on a lock that nobody will release.
abbrev pub spinlock_lock : Bool → Result Bool
spinlock_lock l = if l then err Fault.spins else ok true

abbrev pub spinlock_unlock : Bool → Bool
spinlock_unlock l = false

-- a % b, which traps at b = 0
abbrev pub rem32 : ℕ → ℕ → Result ℕ
rem32 a b = if b == 0 then err Fault.div_by_zero else ok (a % b)

-- An address kept in the area, used where `buf_` of this process stands at `buf_address`.
abbrev pub resolve : ℕ → ℕ → Result (Unit {0})
resolve buf_address p =
    if p == buf_address
    then ok tt
    else if p == 0
    then err Fault.null_deref
    else err Fault.wild_pointer

module _ {ℓ} {A : Type ℓ} where
  -- CMemArea::Setup
  unfoldable pub c_setup : ℕ → ℕ → CStr → EAccessT → ℕ → MemArea A → Result (MemArea A)
  unfolding align_size
  c_setup size inc_size name access attrib m = do
    name' ← strcpy mdo_name_size name
    ok (record m {
      rd_ind = 0;
      wr_ind = 1;
      number_chunks = size;
      single_chunk_size = align_size inc_size;
      access = access;
      attrib = attrib;
      name = name';
      in_lock = false;
      out_lock = false;
    })

  -- CMemArea::MemAlloc. `fresh` is what `new char[]` returns; the address is rounded up to a line.
  unfoldable pub c_mem_alloc : ℕ → ℕ → MemArea A → Result (MemArea A)
  c_mem_alloc fresh mem_buf m =
      let consumer = not (m.attrib / 2 == 0) in
      let producer = not (m.attrib / 4 == 0) in
      let either = producer || consumer in
      let aligned = (fresh + cache_alignment - 1) / cache_alignment * cache_alignment in
      do
        assert (ltb 0 (add32 (mul32 m.single_chunk_size m.number_chunks) (cache_alignment - 1)))
        if mem_buf == 0
            then (if m.attrib == 0
                then (do
                  assert (ltb 0 fresh)
                  ok (record m { ptr_producer = aligned; ptr_consumer = aligned }))
                else ok m)
            else (do
              assert (mem_buf % 8 == 0)
              ok (record m {
                ptr_producer = if producer || not either then mem_buf else m.ptr_producer;
                ptr_consumer = if consumer || not either then mem_buf else m.ptr_consumer;
              }))

  -- CMemArea::Init
  unfoldable pub init : MemArea A → MemArea A
  init m = record m { ptr_producer = 0; ptr_consumer = 0 }

  -- The accessors of CMemArea, and ReleaseChunk, which does nothing.
  abbrev pub get_attrib : MemArea A → ℕ
  get_attrib m = m.attrib

  abbrev pub get_name : MemArea A → CStr
  get_name m = m.name

  abbrev pub set_access : EAccessT → MemArea A → MemArea A
  set_access access m = record m { access = access }

  abbrev pub get_access : MemArea A → EAccessT
  get_access m = m.access

  abbrev pub get_data_size : MemArea A → ℕ
  get_data_size m = m.single_chunk_size

  abbrev pub get_total_data_size : MemArea A → ℕ
  get_total_data_size m = mul32 m.single_chunk_size m.number_chunks

  abbrev pub release_chunk : ℕ → MemArea A → MemArea A
  release_chunk p m = m

  -- The byte offsets of GetReadBufP and GetWriteBufP from the start of the buffer.
  abbrev pub get_read_buf_p : MemArea A → ℕ
  get_read_buf_p m = mul32 m.single_chunk_size m.rd_ind

  abbrev pub get_write_buf_p : MemArea A → ℕ
  get_write_buf_p m = mul32 m.single_chunk_size m.wr_ind

  -- CMemArea::PushFIFO: the result is the offset of the next chunk to fill, `none` for NULL.
  unfoldable pub push_fifo : MemArea A → Result (Option ℕ × MemArea A)
  push_fifo m = do
    tmp ← rem32 (add32 m.wr_ind 1) m.number_chunks
    if tmp == m.rd_ind
        then ok (none, m)
        else let m' = record m { wr_ind = tmp } in ok (some (get_write_buf_p m'), m')

  -- CMemArea::PopFIFO
  unfoldable pub pop_fifo : MemArea A → Result (Option ℕ × MemArea A)
  pop_fifo m = do
    tmp ← rem32 (add32 m.rd_ind 1) m.number_chunks
    if tmp == m.wr_ind
        then ok (none, m)
        else let m' = record m { rd_ind = tmp } in ok (some (get_read_buf_p m'), m')

  -- CMemArea::DualBufSwap
  unfoldable pub dual_buf_swap : MemArea A → Result (MemArea A)
  unfolding push_fifo pop_fifo
  dual_buf_swap m = do (_, m') ← push_fifo m; (_, m'') ← pop_fifo m'; ok m''

  -- CMemArea::GetPrevChunk: the offset from the producer's or the consumer's pointer.
  unfoldable pub get_prev_chunk : ℕ → MemArea A → Result ℕ
  get_prev_chunk prev_idx m = do
    assert (ltb prev_idx m.number_chunks)
    abs_idx ←
        rem32 ((m.number_chunks + m.wr_ind + u32_mod - prev_idx) % u32_mod) m.single_chunk_size
    ok (mul32 m.single_chunk_size abs_idx)

module _ {ℓ} {A : Type ℓ} (size_of : ℕ) where
  -- memcpy of one T to and from a byte offset of `buf_`. An offset inside a T is no place for one.
  abbrev pub write_chunk : ℕ → A → List A → Result (List A)
  write_chunk p x xs = do
    require ((p % size_of == 0) && ltb (p / size_of) (length xs)) Fault.out_of_bounds
    ok (set xs (p / size_of) x)

  abbrev pub read_chunk : ℕ → List A → Result A
  read_chunk p xs = do require (p % size_of == 0) Fault.out_of_bounds; at xs (p / size_of)

  -- PushFIFO_MT. The two classes differ in the pointer that they start from: `through` is the run
  -- that follows it, `ok tt` for `buf_` itself.
  unfoldable pub push_mt : Result (Unit {0}) → A → MemArea A → Result (EResultT × MemArea A)
  push_mt through x m = do
    l ← spinlock_lock m.in_lock
    tmp ← rem32 (add32 m.wr_ind 1) m.number_chunks
    if tmp == m.rd_ind then ok (e_fail, record m { in_lock = spinlock_unlock l }) else (do
      assert (leb size_of m.single_chunk_size)
      through
      buf' ← write_chunk (get_write_buf_p m) x m.buf
      ok (e_ok, record m { buf = buf'; wr_ind = tmp; in_lock = spinlock_unlock l }))

  -- PopFIFO_MT: the item copied to `data_p`, `none` where it returns NULL.
  unfoldable pub pop_mt : Result (Unit {0}) → MemArea A → Result (Option A × MemArea A)
  pop_mt through m = do
    l ← spinlock_lock m.out_lock
    tmp ← rem32 (add32 m.rd_ind 1) m.number_chunks
    if tmp == m.wr_ind
        then ok (none, record m { out_lock = spinlock_unlock l })
        else (let m' = record m { rd_ind = tmp } in
            do
              through
              assert (leb size_of m.single_chunk_size)
              x ← read_chunk (get_read_buf_p m') m.buf
              ok (some x, record m' { out_lock = spinlock_unlock l }))

  -- The methods of StaticMemArea, on `buf_`.
  abbrev pub push_fifo_mt : A → MemArea A → Result (EResultT × MemArea A)
  push_fifo_mt = push_mt (ok tt)

  abbrev pub pop_fifo_mt : MemArea A → Result (Option A × MemArea A)
  pop_fifo_mt = pop_mt (ok tt)

  -- The methods of CMemArea, through the pointers that MemAlloc stored in the area.
  abbrev pub c_push_fifo_mt : ℕ → A → MemArea A → Result (EResultT × MemArea A)
  c_push_fifo_mt buf_address x m = push_mt (resolve buf_address m.ptr_producer) x m

  abbrev pub c_pop_fifo_mt : ℕ → MemArea A → Result (Option A × MemArea A)
  c_pop_fifo_mt buf_address m = pop_mt (resolve buf_address m.ptr_consumer) m

  -- StaticMemArea::AllocPoolChunk: the offset of the chunk, and the area.
  unfoldable pub alloc_pool_chunk : MemArea A → Result (ℕ × MemArea A)
  alloc_pool_chunk m = do
    l ← spinlock_lock m.out_lock
    next ← rem32 (add32 m.wr_ind 1) m.number_chunks
    let m' = record m { wr_ind = next; out_lock = spinlock_unlock l }
    ok (get_write_buf_p m', m')

  -- CMemArea::AllocPoolChunk: the offset is from the producer's pointer.
  abbrev pub c_alloc_pool_chunk : MemArea A → Result (ℕ × MemArea A)
  c_alloc_pool_chunk = alloc_pool_chunk

  module _ (chunks_num : ℕ) where
    -- StaticMemArea::Setup ignores the sizes that it is given.
    abbrev pub setup : CStr → EAccessT → ℕ → MemArea A → Result (MemArea A)
    setup = c_setup chunks_num size_of

    -- StaticMemArea::MemAlloc passes the address of `buf_`, whatever it is given.
    abbrev pub mem_alloc : ℕ → MemArea A → Result (MemArea A)
    mem_alloc buf_address = c_mem_alloc 0 buf_address

    -- StaticMemArea::GetEntry
    abbrev pub get_entry : ℕ → MemArea A → Result A
    get_entry num m = do assert (ltb num chunks_num); at m.buf num

  -- while (PushFIFO_MT(x) == E_FAIL) PopFIFO_MT(dummy); `f` rounds at most
  unfoldable pub push_over_rounds : ℕ → A → MemArea A → Result (MemArea A)
  push_over_rounds zero x m = err Fault.out_of_fuel
  push_over_rounds (suc f) x m = do
    (r, m') ← push_fifo_mt x m
    elim r [ e_ok ↦ ok m' | e_fail ↦ do (_, m'') ← pop_fifo_mt m'; push_over_rounds f x m'' ]
