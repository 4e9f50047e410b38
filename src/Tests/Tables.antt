-- ===== src/Tests/Tables.antt =====
-- Runs of the tables of names on small states.
use rt_debug_lib.Base.{
  ℕ, ◌+◌, ◌≡◌, refl, List, [], ◌∷◌, replicate, arith, ok, Fault, map_ok, Returns,
}
use rt_debug_lib.CString.{CStr, codes, same}
use rt_debug_lib.Registry.{index_from, register, register_within, scan}
use rt_debug_lib.Registry.Laws.{register-register}
use rt_debug_lib.Counters
use rt_debug_lib.Counters.{RtCounter, RtCounterGrp, alloc_cnt, get_counter, cnt_names}
use rt_debug_lib.Counters.Laws
use rt_debug_lib.Counters.Laws.{
  alloc_cnt_refines, alloc_cnt-IsAllocated, IsAllocated, get_counter_accepts, reset-IsValid,
}
use rt_debug_lib.Tracer.{TraceGroup, def_format, add_trace_format}
use rt_debug_lib.Tracer.Formats
use rt_debug_lib.Tracer.Formats.{format_names, add_trace_format_refines, add_trace_format-IsValid}
use rt_debug_lib.MemArea.{MemArea, c_setup, c_mem_alloc, align_size}
use rt_debug_lib.Profile.{ProfileData}
use rt_debug_lib.ProfilerGroup.{ProfilerGroup, prof_names, registry_profile_entry}
use rt_debug_lib.ProfilerGroup.Names.{IsProfGroup, extended, registry_refines}
use rt_debug_lib.ProfilerGroup.Names.Elsewhere.{IsFixed, registered_here_lost_there}
use rt_debug_lib.Tests.{
  point, data_of, counter, counters, traces_of, blank_entry, profilers, empty_prof_fifo, address,
  get_elem?-replicate,
}

abbrev two_names : List CStr
two_names = codes "rx" ∷ codes "tx" ∷ []

register-register_example :
    let l' = (register (codes "tx") (register (codes "rx") []).1).1 in
    register (codes "rx") l' ≡ ((register (codes "rx") []).0, l')
register-register_example = register-register (codes "rx") (codes "tx") []

counters-IsValid : Counters.Laws.IsValid counters
unfolding index_from
counters-IsValid = record { array = refl; few = omega arith; distinct = (refl, tt) }

alloc_cnt_refines_example :
    map_ok (λ (out : ℕ × RtCounterGrp). (out.0, cnt_names out.1)) (alloc_cnt (codes "tx") counters)
    ≡ register_within Fault.assert_failed 19 (codes "tx") (codes "rx" ∷ [])
alloc_cnt_refines_example = alloc_cnt_refines counters-IsValid (codes "tx") (omega arith)

alloc_tx :
    alloc_cnt (codes "tx") counters
    ≡ ok (
      1,
      record counters {
        rt_counters = counter ∷ record counter { cnt_name = codes "tx" } ∷ replicate 18 counter;
        num_alloc_counters = 2;
      },
    )
unfolding alloc_cnt scan same
alloc_tx = refl

abbrev traces : TraceGroup
traces = traces_of (blank_entry ∷ blank_entry ∷ blank_entry ∷ blank_entry ∷ [])

traces-IsValid : Formats.IsValid traces
unfolding index_from
traces-IsValid = record {
  array = refl;
  few = omega arith;
  distinct = (refl, tt);
  entries = omega arith;
  pool = record {
    some_chunk = omega arith;
    few = omega arith;
    room = omega arith;
    sized = refl;
    nonempty = omega arith;
    narrow = omega arith;
    wr_in = omega arith;
    out_free = refl;
  };
}

add_trace_format_refines_example :
    map_ok
      (λ (out : ℕ × TraceGroup). (out.0, format_names out.1))
      (add_trace_format (codes "a=%d") traces)
    ≡ register_within Fault.assert_failed 50 (codes "a=%d") (def_format ∷ [])
add_trace_format_refines_example =
    add_trace_format_refines traces-IsValid (codes "a=%d") (omega arith)

add_default : add_trace_format def_format traces ≡ ok (0, traces)
unfolding add_trace_format scan same
add_default = refl

abbrev buffers_at : ℕ → ℕ
buffers_at i = address

-- A profiler array of 50 elements, none in use.
abbrev wide_fifo : MemArea ProfileData
wide_fifo =
    let m = empty_prof_fifo in
    record m {
      buf =
          replicate 10
            (record { max_cnt = 0; max_cnt_time = 0; last_cnt = 0; average_cnt = 0; meas_num = 0 });
    }

abbrev no_profilers : ProfilerGroup
no_profilers = profilers wide_fifo 0

no_profilers-IsProfGroup : IsProfGroup buffers_at no_profilers
no_profilers-IsProfGroup = record {
  array = refl;
  few = omega arith;
  distinct = tt;
  buffers = λ i m at. rw (get_elem?-replicate 50 i wide_fifo m at) (omega arith);
  fifos = λ i m at below. elim below [ ];
}

registry_refines_example :
    map_ok
      (λ (out : ℕ × ProfilerGroup). (out.0, prof_names out.1))
      (registry_profile_entry buffers_at (codes "slot") no_profilers)
    ≡ register_within Fault.out_of_bounds 50 (codes "slot") []
registry_refines_example =
    registry_refines buffers_at no_profilers-IsProfGroup (codes "slot") (omega arith) (omega arith)
      (omega arith)

add_slot :
    registry_profile_entry buffers_at (codes "slot") no_profilers
    ≡ ok (0, extended buffers_at (codes "slot") no_profilers wide_fifo)
unfolding registry_profile_entry scan c_setup c_mem_alloc align_size
add_slot = refl

-- Another process has the buffers 64 bytes further on.
abbrev buffers_elsewhere : ℕ → ℕ
buffers_elsewhere i = address + 64

registered_here_lost_there_example :
    Returns
      (registry_profile_entry buffers_at (codes "slot") no_profilers)
      (IsFixed buffers_at buffers_elsewhere (codes "slot") 8192 (point (data_of 9)))
unfolding index_from
registered_here_lost_there_example =
    registered_here_lost_there buffers_at buffers_elsewhere no_profilers-IsProfGroup (codes "slot")
      (omega arith) (omega arith) (omega arith) refl (omega arith) 8192 (point (data_of 9)) refl
      (omega arith) (omega arith)
