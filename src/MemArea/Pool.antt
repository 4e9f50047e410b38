-- ===== src/MemArea/Pool.antt =====
-- AllocPoolChunk and GetPrevChunk: the area as a pool of chunks that are handed out in turn.
use native.Mathlib.Nat.{mod-eq_of_lt}
use rt_debug_lib.Base.{ℕ, ◌+◌, ◌*◌, ◌/◌, ◌%◌, ◌^◌, ◌≤◌, ◌<◌, ◌≡◌, false, length, arith, Returns}
use rt_debug_lib.MemArea.{MemArea, alloc_pool_chunk, get_prev_chunk}
use rt_debug_lib.MemArea.Index.{offset_index}

pub record IsPool {A : Type 0} (size_of : ℕ) (m : MemArea A) : Type 0 where
  pub some_chunk : 0 < m.number_chunks
  pub few : m.number_chunks < 2 ^ 16
  pub room : m.number_chunks ≤ length m.buf
  pub sized : m.single_chunk_size ≡ size_of
  pub nonempty : 0 < size_of
  pub narrow : size_of < 2 ^ 16
  pub wr_in : m.wr_ind < m.number_chunks
  pub out_free : m.out_lock ≡ false

module _ {A : Type 0} (size_of : ℕ) {m : MemArea A} (v : IsPool size_of m) where
  abbrev pub next_chunk : ℕ
  next_chunk = (m.wr_ind + 1) % m.number_chunks

  -- AllocPoolChunk on a valid pool never faults: the chunk handed out is the next one round the ring,
  -- inside the buffer, the pool stays valid, and nothing but the write index changes.
  pub alloc_pool_chunk_lem : Returns (alloc_pool_chunk size_of m) λ out.
      (out.1 ≡ record m { wr_ind = next_chunk })
      × (out.0 % size_of ≡ 0)
      × (out.0 / size_of ≡ next_chunk)
      × (next_chunk < length m.buf)
      × IsPool size_of out.1
  unfolding alloc_pool_chunk
  alloc_pool_chunk_lem = ground (arith, v, offset_index size_of next_chunk)

  -- GetPrevChunk(0) on a valid pool reduces the index by the chunk size, not by the number of chunks: where a chunk
  -- has at least twice as many bytes as there are chunks, the chunk written last is looked for
  -- behind the end of the buffer.
  pub get_prev_chunk_out_of_range :
      2 * m.number_chunks ≤ size_of
      → Returns (get_prev_chunk 0 m) λ p. m.number_chunks ≤ p / size_of
  unfolding get_prev_chunk
  get_prev_chunk_out_of_range big =
      let index = m.number_chunks + m.wr_ind in
      ground (arith, v, big, offset_index size_of index, mod-eq_of_lt {n = index} {m = size_of})
