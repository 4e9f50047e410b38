-- ===== src/Tracer/Earliest.antt =====
-- GetTraceEntry: the entry that it takes is the earliest one with data.
use mathlib.Core.Option.{some-injective}
use rt_debug_lib.Base.{
  ℕ, zero, suc, ◌+◌, ◌*◌, ◌≤◌, ◌<◌, ◌≡◌, ◌≢◌, ◌↔◌, refl, ap, sym, subst, ◌∙◌, Option, none, some,
  List, [], ◌∷◌, length, get_elem?, set, arith, ok, Returns, Bool, Bool-cases, true, inl, inr, not,
  ◌&&◌, ◌==◌, get_elem?-some, get_elem?-lt,
}
use rt_debug_lib.CString.{CStr}
use rt_debug_lib.Clock.{
  Timespec, InRange, diff_between_timespec, diff_between_timespec-order, is_positive, billion,
}
use rt_debug_lib.Counters.{trace_string_size}
use rt_debug_lib.Tracer.{
  TraceEntry, TraceGroup, Printf, no_data_ind, trace_entries_num, earliest, trace_line,
  get_trace_entry,
}
use rt_debug_lib.Tracer.Formats.{IsValid}

-- The time in nanoseconds.
abbrev pub at_time : Timespec → ℕ
at_time t = t.tv_sec * billion + t.tv_nsec

abbrev pub HasData : TraceEntry → Type 0
HasData e = e.status ≢ no_data_ind

abbrev pub AllInRange : List TraceEntry → Type 0
AllInRange [] = Unit {0}
AllInRange (e ∷ es) = InRange e.linux_time × AllInRange es

-- No entry with data is earlier than `bound`.
abbrev pub NoneBefore : ℕ → List TraceEntry → Type 0
NoneBefore bound [] = Unit {0}
NoneBefore bound (e ∷ es) = (HasData e → bound ≤ at_time e.linux_time) × NoneBefore bound es

-- What the loop ends with, started at index `i` with the bound `min_time` and the result `best`.
data Outcome (es : List TraceEntry) (i : ℕ) (min_time : Timespec) (best r : Option ℕ) : Type 0 where
  unchanged : r ≡ best → NoneBefore (at_time min_time) es → Outcome es i min_time best r
  improved :
      (k : ℕ) (e : TraceEntry)
      → r ≡ some (i + k)
      → get_elem? es k ≡ some e
      → HasData e
      → at_time e.linux_time < at_time min_time
      → NoneBefore (at_time e.linux_time) es
      → Outcome es i min_time best r

-- The loop's test.
abbrev better : TraceEntry → Timespec → Bool
better e min_time =
    not (e.status == no_data_ind) && is_positive (diff_between_timespec min_time e.linux_time)

better_iff :
    (e : TraceEntry) (min_time : Timespec)
    → InRange e.linux_time
    → InRange min_time
    → (better e min_time ≡ true) ↔ (HasData e × (at_time e.linux_time < at_time min_time))
better_iff e min_time he hm =
    let order = diff_between_timespec-order min_time e.linux_time hm he in
    (λ h. ground (arith, order.0), λ h. ground (arith, order.0))

step_better :
    (e : TraceEntry) (es : List TraceEntry) (i : ℕ) (min_time : Timespec) (best r : Option ℕ)
    → HasData e
    → at_time e.linux_time < at_time min_time
    → Outcome es (i + 1) e.linux_time (some i) r
    → Outcome (e ∷ es) i min_time best r
step_better e es i min_time best r has lt (unchanged q none_before) =
    improved 0 e (q ∙ ap some (omega arith)) refl has lt (λ _. omega arith, none_before)
step_better e es i min_time best r has lt (improved k e' q at has' lt' none_before) =
    improved (suc k) e' (q ∙ ap some (omega arith)) at has' (omega arith)
      (λ _. omega arith, none_before)

step_worse :
    (e : TraceEntry) (es : List TraceEntry) (i : ℕ) (min_time : Timespec) (best r : Option ℕ)
    → (HasData e → at_time min_time ≤ at_time e.linux_time)
    → Outcome es (i + 1) min_time best r
    → Outcome (e ∷ es) i min_time best r
step_worse e es i min_time best r late (unchanged q none_before) = unchanged q (late, none_before)
step_worse e es i min_time best r late (improved k e' q at has' lt none_before) =
    improved (suc k) e' (q ∙ ap some (omega arith)) at has' lt
      (λ has. omega (arith, late has), none_before)

earliest-Outcome :
    (es : List TraceEntry) (i : ℕ) (min_time : Timespec) (best : Option ℕ)
    → InRange min_time
    → AllInRange es
    → Outcome es i min_time best (earliest es i min_time best)
unfolding earliest
earliest-Outcome [] i min_time best hm h = unchanged refl tt
earliest-Outcome (e ∷ es) i min_time best hm h = elim (Bool-cases (better e min_time)) [
  | inl b ↦
      let facts = (better_iff e min_time h.0 hm).0 b in
      rw b (
        step_better e es i min_time best _ facts.0 facts.1
          (earliest-Outcome es (i + 1) e.linux_time (some i) h.0 h.1))
  | inr b ↦ rw b (
      step_worse e es i min_time best _ (λ has. ground (arith, (better_iff e min_time h.0 hm).1))
        (earliest-Outcome es (i + 1) min_time best hm h.1))
]

-- What GetTraceEntry may rely on for an entry with data: its format exists, and the line that it
-- prints and its NUL fit into the caller's buffer of `size` bytes.
abbrev pub Printable : Printf → ℕ → TraceGroup → TraceEntry → Type 0
Printable printf size t e =
    (e.trace_id < t.num_alloc_formats)
    × ((f : CStr)
        → get_elem? t.trace_formats e.trace_id ≡ some f
        → length (trace_line printf t.group_name f e) < size)

abbrev pub AllPrintable : Printf → ℕ → TraceGroup → List TraceEntry → Type 0
AllPrintable printf size t [] = Unit {0}
AllPrintable printf size t (e ∷ es) =
    (HasData e → Printable printf size t e) × AllPrintable printf size t es

pub AllPrintable-get :
    (printf : Printf) (size : ℕ) (t : TraceGroup) (es : List TraceEntry) (k : ℕ) (e : TraceEntry)
    → AllPrintable printf size t es
    → get_elem? es k ≡ some e
    → HasData e
    → Printable printf size t e
AllPrintable-get printf size t [] k e h at has = cc
AllPrintable-get printf size t (x ∷ es) zero e h at has =
    let q : x ≡ e = some-injective x e at in
    subst (Printable printf size t) q (h.0 (subst HasData (sym q) has))
AllPrintable-get printf size t (x ∷ es) (suc k) e h at has =
    AllPrintable-get printf size t es k e h.1 at has

abbrev pub cleared : ℕ → TraceEntry → TraceGroup → TraceGroup
cleared k e t = record t {
  trace_fifo =
      (let m = t.trace_fifo in record m { buf = set m.buf k (record e { status = no_data_ind }) });
}

-- The result of a call at time `now`: no entry with data is earlier, or the line and the time of
-- one than which no other is earlier, and that one entry is marked as empty.
abbrev pub GetsEarliest :
    Printf → Timespec → TraceGroup → Option (CStr × Timespec) × TraceGroup → Type 0
GetsEarliest printf now t (none, t') = (t' ≡ t) × NoneBefore (at_time now) t.trace_fifo.buf
GetsEarliest printf now t (some (text, time), t') =
    (k : ℕ) × (e : TraceEntry) × (f : CStr) × (get_elem? t.trace_fifo.buf k ≡ some e)
    × HasData e
    × (at_time e.linux_time < at_time now)
    × NoneBefore (at_time e.linux_time) t.trace_fifo.buf
    × (get_elem? t.trace_formats e.trace_id ≡ some f)
    × (text ≡ trace_line printf t.group_name f e)
    × (time ≡ e.linux_time)
    × (t' ≡ cleared k e t)

module _ (printf : Printf) (size : ℕ) (now : Timespec) {t : TraceGroup} (v : IsValid t) where
  no_entry :
      earliest t.trace_fifo.buf 0 now none ≡ none → get_trace_entry printf size now t ≡ ok (none, t)
  unfolding get_trace_entry
  no_entry q = rw (q, get_trace_entry)

  take_entry :
      (k : ℕ) (e : TraceEntry)
      → length t.group_name < trace_string_size
      → Printable printf size t e
      → earliest t.trace_fifo.buf 0 now none ≡ some (0 + k)
      → get_elem? t.trace_fifo.buf k ≡ some e
      → (f : CStr) × (get_elem? t.trace_formats e.trace_id ≡ some f)
        × (get_trace_entry printf size now t
            ≡ ok (some (trace_line printf t.group_name f e, e.linux_time), cleared k e t))
  unfolding get_trace_entry
  take_entry k e named p q at =
      let (f, has_format) = get_elem?-some t.trace_formats e.trace_id (omega (arith, v, p.0)) in
      let inside : k < trace_entries_num =
        omega (arith, v.entries, get_elem?-lt t.trace_fifo.buf k e at) in
      (f, has_format, ground (arith, q, at, inside, p.0, has_format, named, p.1 f has_format))

  -- GetTraceEntry on a valid group with a name below TRACE_STRING_SIZE, whose times are in range and
  -- whose entries with data print into the caller's buffer: it never faults; it returns false and
  -- changes nothing where no entry with data is earlier than `now`, or else prints one than which no
  -- other is earlier, returns its time, and marks just that entry as empty.
  pub get_trace_entry_lem :
      InRange now
      → AllInRange t.trace_fifo.buf
      → length t.group_name < trace_string_size
      → AllPrintable printf size t t.trace_fifo.buf
      → Returns (get_trace_entry printf size now t) (GetsEarliest printf now t)
  get_trace_entry_lem hm h named printable = go (earliest-Outcome t.trace_fifo.buf 0 now none hm h)
    where
      go :
          Outcome t.trace_fifo.buf 0 now none (earliest t.trace_fifo.buf 0 now none)
          → Returns (get_trace_entry printf size now t) (GetsEarliest printf now t)
      go (unchanged q none_before) = rw (no_entry q) (refl, none_before)
      go (improved k e q at has lt none_before) =
          let p = AllPrintable-get printf size t t.trace_fifo.buf k e printable at has in
          let (f, has_format, run) = take_entry k e named p q at in
          rw run (k, e, f, at, has, lt, none_before, has_format, refl, refl, refl)
