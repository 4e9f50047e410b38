-- ===== src/Tracer/Formats.antt =====
-- The trace formats as a table of names: AddTraceFormat and Reset of CTraceGroup.
use native.Mathlib.Numerals.{add-one}
use rt_debug_lib.Base.{
  ℕ, ◌+◌, ◌≤◌, ◌<◌, ◌≡◌, refl, ap, ◌∙◌, inl, inr, none, some, List, [], ◌∷◌, ◌++◌, length, set,
  arith, ok, err, Fault, map_ok, Returns, Returns_of_ok, ok-ne-err, Option-cases, dec_lt,
  length-set,
}
use rt_debug_lib.CString.{CStr}
use rt_debug_lib.Registry.{
  index_from, to_search, register_within, scan_refines, scan, names, names-set_next, length-names,
}
use rt_debug_lib.Registry.Laws.{Distinct, Distinct-append, index_from-lt}
use rt_debug_lib.Counters.{trace_string_size}
use rt_debug_lib.MemArea.Pool.{IsPool}
use rt_debug_lib.Tracer.{
  TraceGroup, max_trace_formats, trace_entries_num, trace_entry_size, add_trace_format,
}

abbrev pub format_names : TraceGroup → List CStr
format_names t = names (λ (s : CStr). s) t.num_alloc_formats t.trace_formats

pub record IsValid (t : TraceGroup) : Type 0 where
  pub array : length t.trace_formats ≡ max_trace_formats
  pub few : t.num_alloc_formats ≤ max_trace_formats
  pub distinct : Distinct (format_names t)
  pub entries : length t.trace_fifo.buf ≤ trace_entries_num
  pub pool : IsPool trace_entry_size t.trace_fifo

abbrev pub extended : CStr → TraceGroup → TraceGroup
extended s t = record t {
  trace_formats = set t.trace_formats t.num_alloc_formats s;
  num_alloc_formats = t.num_alloc_formats + 1;
}

module _ {t : TraceGroup} (v : IsValid t) (s : CStr) (fits : length s < trace_string_size) where
  scan_names :
      scan (λ (s : CStr). s) s t.num_alloc_formats t.trace_formats 0
      ≡ to_search (index_from s (format_names t) 0)
  scan_names =
      scan_refines (λ (s : CStr). s) s t.num_alloc_formats t.trace_formats 0 (omega (arith, v))

  pub length-format_names : length (format_names t) ≡ t.num_alloc_formats
  length-format_names =
      length-names (λ (s : CStr). s) t.num_alloc_formats t.trace_formats (omega (arith, v))

  -- The three ways in which a call ends.
  pub data Addition : Type 0 where
    known :
        (i : ℕ)
        → index_from s (format_names t) 0 ≡ some i
        → add_trace_format s t ≡ ok (i, t)
        → Addition
    added :
        index_from s (format_names t) 0 ≡ none
        → t.num_alloc_formats < max_trace_formats
        → add_trace_format s t ≡ ok (t.num_alloc_formats, extended s t)
        → Addition
    refused :
        index_from s (format_names t) 0 ≡ none
        → t.num_alloc_formats ≡ max_trace_formats
        → add_trace_format s t ≡ err Fault.assert_failed
        → Addition

  pub addition : Addition
  unfolding add_trace_format
  addition = elim (Option-cases (index_from s (format_names t) 0)) [
    | inr (i, e) ↦ known i e (ground (arith, fits, scan_names, e))
    | inl e ↦ elim (dec_lt t.num_alloc_formats max_trace_formats) [
      | no full ↦ refused e (omega (arith, v)) (ground (arith, fits, scan_names, e))
      | yes room ↦ added e room (ground (arith, fits, v, scan_names, e))
    ]
  ]

  pub format_names-extended :
      t.num_alloc_formats < max_trace_formats
      → format_names (extended s t) ≡ format_names t ++ s ∷ []
  format_names-extended room =
      ap (λ k. names (λ (s : CStr). s) k (extended s t).trace_formats) (add-one _)
      ∙ names-set_next (λ (s : CStr). s) t.num_alloc_formats t.trace_formats s (omega (arith, v))

  refines_on :
      Addition
      → map_ok (λ (out : ℕ × TraceGroup). (out.0, format_names out.1)) (add_trace_format s t)
        ≡ register_within Fault.assert_failed max_trace_formats s (format_names t)
  unfolding register_within
  refines_on (known i e run) = rw (run, e, register_within)
  refines_on (added e room run) =
      rw (run, e, register_within) (ground (arith, length-format_names, format_names-extended room))
  refines_on (refused e full run) =
      rw (run, e, register_within) (ground (arith, length-format_names))

  -- AddTraceFormat on a valid group, for a format below TRACE_STRING_SIZE: the index of an equal
  -- format, or else a new one at the end, and an abort where MAX_TRACE_FORMATS are in use.
  pub add_trace_format_refines :
      map_ok (λ (out : ℕ × TraceGroup). (out.0, format_names out.1)) (add_trace_format s t)
      ≡ register_within Fault.assert_failed max_trace_formats s (format_names t)
  add_trace_format_refines = refines_on addition

  -- Whatever AddTraceFormat returns on a valid group, for a format below TRACE_STRING_SIZE, is a
  -- valid group with the index among its formats, and the traces and the group's name are as before.
  pub add_trace_format-IsValid :
      (out : ℕ × TraceGroup)
      → add_trace_format s t ≡ ok out
      → IsValid out.1
        × (out.0 < out.1.num_alloc_formats)
        × (out.1.trace_fifo ≡ t.trace_fifo)
        × (out.1.group_name ≡ t.group_name)
  add_trace_format-IsValid out e = elim addition [
    | known i found run ↦ Returns_of_ok Kept run e (
      v,
      omega (arith, index_from-lt s (format_names t) i found, length-format_names),
      refl,
      refl,
    )
    | added new room run ↦ Returns_of_ok Kept run e (
      record {
        array = length-set t.trace_formats t.num_alloc_formats s ∙ v.array;
        few = omega arith;
        distinct =
            rw (format_names-extended room) (Distinct-append s (format_names t) new v.distinct);
        entries = v.entries;
        pool = v.pool;
      },
      omega arith,
      refl,
      refl,
    )
    | refused new full run ↦ absurd (ok-ne-err run e)
  ]
    where
      Kept : ℕ × TraceGroup → Type 0
      Kept out =
          IsValid out.1
          × (out.0 < out.1.num_alloc_formats)
          × (out.1.trace_fifo ≡ t.trace_fifo)
          × (out.1.group_name ≡ t.group_name)

  pub add_trace_format_returns :
      t.num_alloc_formats < max_trace_formats
      → Returns (add_trace_format s t) λ out. IsValid out.1 × (out.1.trace_fifo ≡ t.trace_fifo)
  add_trace_format_returns room = elim addition [
    | known i found run ↦ rw run (v, refl)
    | added new room' run ↦
        let kept = add_trace_format-IsValid (t.num_alloc_formats, extended s t) run in
        rw run (kept.0, refl)
    | refused new full run ↦ absurd (omega arith)
  ]
