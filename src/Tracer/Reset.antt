-- ===== src/Tracer/Reset.antt =====
-- Reset and SetGroupName of CTraceGroup: what a group of traces is before its first use.
use rt_debug_lib.Base.{
  ℕ, ◌%◌, ◌≡◌, ◌≢◌, refl, ◌∙◌, List, [], ◌∷◌, map, length, set, arith, ok, Returns, length-map,
  length-set, map-map, false,
}
use rt_debug_lib.CString.{CStr, codes}
use rt_debug_lib.Registry.{scan, index_from, names-set_next}
use rt_debug_lib.MemArea.Setup.{set_up_at, setup_run, mem_alloc_run}
use rt_debug_lib.Tracer.{
  TraceEntry, TraceGroup, trace_entry_size, trace_entries_num, max_trace_formats, no_data_ind,
  def_format, add_trace_format, reset,
}
use rt_debug_lib.Tracer.Formats.{IsValid, format_names}

-- The arrays of a group, whatever is in them.
pub record HasArrays (t : TraceGroup) : Type 0 where
  pub formats : length t.trace_formats ≡ max_trace_formats
  pub entries : length t.trace_fifo.buf ≡ trace_entries_num

abbrev blank : TraceEntry → TraceEntry
blank e = record e { status = no_data_ind }

-- The group with no format, and with the default one.
abbrev no_formats : TraceGroup → TraceGroup
no_formats t = record t {
  group_name = [];
  num_alloc_formats = 0;
  trace_formats = map (λ _. []) t.trace_formats;
}

abbrev default_only : TraceGroup → TraceGroup
default_only t = record (no_formats t) {
  trace_formats = set (map (λ _. []) t.trace_formats) 0 def_format;
  num_alloc_formats = 1;
}

abbrev pub after_reset : ℕ → TraceGroup → TraceGroup
after_reset address t = record (default_only t) {
  trace_fifo =
      set_up_at trace_entry_size trace_entries_num (codes "Trace data") address
        (let m = t.trace_fifo in record m { buf = map blank m.buf });
}

module _ (t : TraceGroup) (h : HasArrays t) where
  abbrev blank_formats : List CStr
  blank_formats = map (λ _. []) t.trace_formats

  same_length : length blank_formats ≡ max_trace_formats
  same_length = length-map _ t.trace_formats ∙ h.formats

  first_format : add_trace_format def_format (no_formats t) ≡ ok (0, default_only t)
  unfolding add_trace_format scan
  first_format = ground (arith, h, same_length)

  module _ (address : ℕ) where
    pub reset_run :
        address ≢ 0 → address % 8 ≡ 0 → reset false address t ≡ ok (after_reset address t)
    unfolding reset
    reset_run some_address aligned =
        let m = (let m = t.trace_fifo in record m { buf = map blank m.buf }) in
        rw (
          first_format,
          setup_run trace_entry_size trace_entries_num (codes "Trace data") m (omega arith)
              (omega arith) (omega arith),
          mem_alloc_run trace_entry_size trace_entries_num (codes "Trace data") address m
              some_address aligned (omega arith),
        )

    after_reset-IsValid :
        IsValid (after_reset address t) × (format_names (after_reset address t) ≡ def_format ∷ [])
    unfolding index_from
    after_reset-IsValid = (
      record {
        array = length-set blank_formats 0 def_format ∙ same_length;
        few = omega arith;
        distinct = rw one_name (refl, tt);
        entries = omega (arith, length-map blank t.trace_fifo.buf, h.entries);
        pool = record {
          some_chunk = omega arith;
          few = omega arith;
          room = omega (arith, length-map blank t.trace_fifo.buf, h.entries);
          sized = refl;
          nonempty = omega arith;
          narrow = omega arith;
          wr_in = omega arith;
          out_free = refl;
        };
      },
      one_name,
    )
      where
        one_name : format_names (after_reset address t) ≡ def_format ∷ []
        one_name =
            names-set_next (λ (s : CStr). s) 0 blank_formats def_format (omega (arith, same_length))

    -- Reset(false) on a group with its arrays, whose buffer stands at a non-zero address that is a
    -- multiple of 8, never faults and leaves a valid group whose only format is the default one and
    -- none of whose entries has data.
    pub reset-format_names :
        address ≢ 0
        → address % 8 ≡ 0
        → Returns (reset false address t) λ t'.
          IsValid t'
          × (format_names t' ≡ def_format ∷ [])
          × (map (λ (e : TraceEntry). e.status) t'.trace_fifo.buf
              ≡ map (λ _. no_data_ind) t.trace_fifo.buf)
    reset-format_names some_address aligned =
        rw (reset_run some_address aligned)
          (after_reset-IsValid.0, after_reset-IsValid.1, map-map _ _ t.trace_fifo.buf)
