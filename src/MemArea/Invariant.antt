-- ===== src/MemArea/Invariant.antt =====
-- The representation invariant of an area that is used as a FIFO.
use rt_debug_lib.Base.{ℕ, ◌-◌, ◌^◌, ◌≤◌, ◌<◌, ◌≡◌, ◌≢◌, false, length}
use rt_debug_lib.MemArea.{MemArea}
use rt_debug_lib.MemArea.Index.{distance}

pub record IsValid {ℓ} {A : Type ℓ} (size_of : ℕ) (m : MemArea A) : Type 0 where
  pub enough : 3 ≤ m.number_chunks
  pub few : m.number_chunks < 2 ^ 16
  pub room : m.number_chunks ≤ length m.buf
  pub sized : m.single_chunk_size ≡ size_of
  pub nonempty : 0 < size_of
  pub narrow : size_of < 2 ^ 16
  pub wr_in : m.wr_ind < m.number_chunks
  pub rd_in : m.rd_ind < m.number_chunks
  pub apart : m.wr_ind ≢ m.rd_ind
  pub in_free : m.in_lock ≡ false
  pub out_free : m.out_lock ≡ false

-- The chunks in use: those after `rd_ind` and before `wr_ind`.
abbrev pub used {ℓ} : {A : Type ℓ} → MemArea A → ℕ
used m = distance m.number_chunks m.wr_ind m.rd_ind

-- Two chunks are never in use: the one read last and the one to be written next.
abbrev pub capacity {ℓ} : {A : Type ℓ} → MemArea A → ℕ
capacity m = m.number_chunks - 2
