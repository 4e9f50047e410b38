-- ===== src/Tracer/Entries.antt =====
-- AddTrace: what a run of traces leaves in the ring of entries.
use native.Mathlib.Nat.{mod-eq_of_lt, mod-add-mod, mod-lt, add-zero}
use rt_debug_lib.Base.{
  ℕ, suc, ◌+◌, ◌%◌, ◌^◌, ◌≤◌, ◌<◌, ◌≡◌, refl, ap, ◌∙◌, sym, some, List, [], ◌∷◌, length, get_elem?,
  set, arith, Result, ok, Returns, ◌>>=◌, length-set, get_elem?-set_self, get_elem?-set_ne,
}
use rt_debug_lib.CString.{CStr}
use rt_debug_lib.Clock.{Timespec}
use rt_debug_lib.MemArea.{alloc_pool_chunk}
use rt_debug_lib.MemArea.Index.{add-mod-ne, offset_index}
use rt_debug_lib.Tracer.{TraceEntry, TraceGroup, trace_entry_size, data_ind, add_trace}
use rt_debug_lib.Tracer.Formats.{IsValid}

-- The arguments of one call of AddTrace, with the time and the thread that it reads.
pub record TraceCall : Type 0 where
  pub now : Timespec
  pub thread : ℕ
  pub trace_id : ℕ
  pub line_num : ℕ
  pub var0 : ℕ
  pub var1 : ℕ
  pub var2 : ℕ
  pub var3 : ℕ

-- The entry that the call stores.
abbrev pub entry_of : TraceCall → TraceEntry
entry_of c = record {
  linux_time = c.now;
  trace_id = c.trace_id % 2 ^ 16;
  thread_id = c.thread % 2 ^ 16;
  line_num = c.line_num;
  status = data_ind;
  val0 = c.var0;
  val1 = c.var1;
  val2 = c.var2;
  val3 = c.var3;
}

abbrev pub call : TraceCall → TraceGroup → Result TraceGroup
call c = add_trace c.now c.thread c.trace_id c.line_num c.var0 c.var1 c.var2 c.var3

-- The calls one after another.
pub add_traces : List TraceCall → TraceGroup → Result TraceGroup
add_traces [] t = ok t
add_traces (c ∷ cs) t = do t' ← call c t; add_traces cs t'

abbrev pub next_entry : TraceGroup → ℕ
next_entry t = (t.trace_fifo.wr_ind + 1) % t.trace_fifo.number_chunks

abbrev pub traced : TraceCall → TraceGroup → TraceGroup
traced c t = record t {
  trace_fifo =
      (let m = t.trace_fifo in
        record m { wr_ind = next_entry t; buf = set m.buf (next_entry t) (entry_of c) });
}

-- Every call names a format of the group.
abbrev pub KnownFormats : ℕ → List TraceCall → Type 0
KnownFormats num [] = Unit {0}
KnownFormats num (c ∷ cs) = (c.trace_id < num) × KnownFormats num cs

-- The entries of `cs` stand in the ring one after another, from index `start` on.
abbrev pub Stored : TraceGroup → ℕ → List TraceCall → Type 0
Stored t start [] = Unit {0}
Stored t start (c ∷ cs) =
    (get_elem? t.trace_fifo.buf start ≡ some (entry_of c))
    × Stored t ((start + 1) % t.trace_fifo.number_chunks) cs

module _ {t : TraceGroup} (v : IsValid t) (c : TraceCall)
    (h : c.trace_id < t.num_alloc_formats) where
  pub add_trace_lem : call c t ≡ ok (traced c t)
  unfolding add_trace alloc_pool_chunk
  add_trace_lem = ground (arith, v.pool, h, offset_index trace_entry_size (next_entry t))

  pub traced-IsValid : IsValid (traced c t)
  traced-IsValid = record {
    array = v.array;
    few = v.few;
    distinct = v.distinct;
    entries = rw (length-set t.trace_fifo.buf (next_entry t) (entry_of c)) v.entries;
    pool = ground (arith, v.pool, length-set t.trace_fifo.buf (next_entry t) (entry_of c));
  }

abbrev traced_all : List TraceCall → TraceGroup → TraceGroup
traced_all [] t = t
traced_all (c ∷ cs) t = traced_all cs (traced c t)

add_traces_lem :
    (cs : List TraceCall) {t : TraceGroup}
    → IsValid t
    → KnownFormats t.num_alloc_formats cs
    → (add_traces cs t ≡ ok (traced_all cs t)) × IsValid (traced_all cs t)
unfolding add_traces
add_traces_lem [] v h = (refl, v)
add_traces_lem (c ∷ cs) {t} v h =
    let (run, valid) = add_traces_lem cs (traced-IsValid v c h.0) h.1 in
    (rw (add_trace_lem v c h.0) run, valid)

-- An entry is not overwritten before the ring has gone round.
traced_all-keeps :
    (cs : List TraceCall) (t : TraceGroup) (n k d : ℕ)
    → t.trace_fifo.number_chunks ≡ n
    → t.trace_fifo.wr_ind ≡ (k + d) % n
    → k < n
    → d + length cs < n
    → get_elem? (traced_all cs t).trace_fifo.buf k ≡ get_elem? t.trace_fifo.buf k
traced_all-keeps [] t n k d en ew hk hd = refl
traced_all-keeps (c ∷ cs) t n k d en ew hk hd =
    traced_all-keeps cs (traced c t) n k (suc d) en step hk (omega arith)
    ∙ get_elem?-set_ne t.trace_fifo.buf (next_entry t) k (entry_of c)
        (rw (step) (add-mod-ne n k d hk (omega arith)))
  where
    step : next_entry t ≡ (k + suc d) % n
    step = rw (en, ew, mod-add-mod) (ap (λ (x : ℕ). x % n) (omega arith))

traced_all-number_chunks :
    (cs : List TraceCall) (t : TraceGroup)
    → (traced_all cs t).trace_fifo.number_chunks ≡ t.trace_fifo.number_chunks
traced_all-number_chunks [] t = refl
traced_all-number_chunks (c ∷ cs) t = traced_all-number_chunks cs (traced c t)

abbrev rest_of : TraceGroup → List CStr × ℕ × CStr
rest_of t = (t.trace_formats, t.num_alloc_formats, t.group_name)

traced_all-rest : (cs : List TraceCall) (t : TraceGroup) → rest_of (traced_all cs t) ≡ rest_of t
traced_all-rest [] t = refl
traced_all-rest (c ∷ cs) t = traced_all-rest cs (traced c t)

traced_all-Stored :
    (cs : List TraceCall) {t : TraceGroup}
    → IsValid t
    → KnownFormats t.num_alloc_formats cs
    → length cs ≤ t.trace_fifo.number_chunks
    → Stored (traced_all cs t) (next_entry t) cs
traced_all-Stored [] v h room = tt
traced_all-Stored (c ∷ cs) {t} v h room = (
  traced_all-keeps cs (traced c t) n (next_entry t) 0 refl same_place inside (omega arith)
      ∙ get_elem?-set_self t.trace_fifo.buf (next_entry t) (entry_of c) (omega (arith, v.pool)),
  rw (traced_all-number_chunks cs (traced c t))
      (traced_all-Stored cs (traced-IsValid v c h.0) h.1 (omega arith)),
)
  where
    n : ℕ
    n = t.trace_fifo.number_chunks

    inside : next_entry t < n
    inside = mod-lt (t.trace_fifo.wr_ind + 1) v.pool.some_chunk

    same_place : next_entry t ≡ (next_entry t + 0) % n
    same_place = rw add-zero (sym (mod-eq_of_lt inside))

-- On a valid group, a run of AddTrace calls that name its formats, no longer than the ring, never
-- faults and keeps it valid; the formats and the group's name stay as they were; and every trace of
-- the run is kept, in order, from the entry behind the last one on.
pub add_traces_keep :
    (cs : List TraceCall) {t : TraceGroup}
    → IsValid t
    → KnownFormats t.num_alloc_formats cs
    → length cs ≤ t.trace_fifo.number_chunks
    → Returns (add_traces cs t) λ t'.
      IsValid t'
      × Stored t' (next_entry t) cs
      × (t'.trace_formats ≡ t.trace_formats)
      × (t'.num_alloc_formats ≡ t.num_alloc_formats)
      × (t'.group_name ≡ t.group_name)
add_traces_keep cs {t} v h room =
    let (run, valid) = add_traces_lem cs v h in
    rw run (
      valid,
      traced_all-Stored cs v h room,
      ap (λ r. r.0) (traced_all-rest cs t),
      ap (λ r. r.1) (traced_all-rest cs t),
      ap (λ r. r.2) (traced_all-rest cs t),
    )
