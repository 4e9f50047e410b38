-- ===== src/Handler/Exhausted.antt =====
-- RTDBG_GetTraceEntry in a process that has read every group to its end once.
use rt_debug_lib.Base.{
  ℕ, zero, suc, ◌+◌, ◌≤◌, ◌<◌, ◌≡◌, refl, sym, subst, map, true, false, Option, none, some, length,
  get_elem?, arith, ok, get_elem?-some, set-get_elem?,
}
use rt_debug_lib.Clock.{Timespec}
use rt_debug_lib.Tracer.{Printf, trace_empty_data}
use rt_debug_lib.DebugRt.{get_debug_grp, set_data_collection}
use rt_debug_lib.Handler.{
  Handler, TraceInfo, LogSortData, rtdbg_stopped, init_extract_tables, rtdbg_stop,
}
use rt_debug_lib.Handler.Merge.{trace_step, trace_loop, rtdbg_get_trace_entry}

-- The process noted for every group in use that it found no more traces.
pub record IsExhausted (h : Handler) : Type 0 where
  pub array : h.shared.num_alloc_groups ≤ length h.shared.debug_groups
  pub infos : h.shared.num_alloc_groups ≤ length h.grp_trace_res
  pub empty :
      (i : ℕ) (info : TraceInfo)
      → i < h.shared.num_alloc_groups
      → get_elem? h.grp_trace_res i ≡ some info
      → info.status ≡ trace_empty_data

module _ (printf : Printf) (h : Handler) (x : IsExhausted h) where
  skips :
      (now : Timespec) (i : ℕ) (min_time : Timespec) (min_index : Option ℕ)
      → i < h.shared.num_alloc_groups
      → trace_step printf now i (min_time, min_index, h) ≡ ok (min_time, min_index, h)
  unfolding trace_step get_debug_grp
  skips now i min_time min_index below =
      let (g, here) = get_elem?-some h.shared.debug_groups i (omega (arith, x.array)) in
      let (info, there) = get_elem?-some h.grp_trace_res i (omega (arith, x.infos)) in
      let same = set-get_elem? h.grp_trace_res i info there in
      ground (arith, below, here, there, x.empty i info below there, same)

  skips_all :
      (now : ℕ → Timespec) (n i : ℕ) (min_time : Timespec) (min_index : Option ℕ)
      → i + n ≤ h.shared.num_alloc_groups
      → trace_loop printf now n i (min_time, min_index, h) ≡ ok (min_time, min_index, h)
  unfolding trace_loop
  skips_all now zero i min_time min_index le = refl
  skips_all now (suc n) i min_time min_index le =
      rw (skips (now i) i min_time min_index (omega arith))
        (skips_all now n (i + 1) min_time min_index (omega arith))

-- What RTDBG_Stop makes of an attached process.
abbrev halted : Handler → Handler
halted h =
    let d = h.shared in
    record h {
      grp_logs_last = map (λ (l : LogSortData). record l { valid = false }) h.grp_logs_last;
      shared = record d { active = false };
      status = rtdbg_stopped;
    }

rtdbg_stop-halted : (h : Handler) → h.mem_attached ≡ true → rtdbg_stop h ≡ halted h
unfolding rtdbg_stop init_extract_tables set_data_collection
rtdbg_stop-halted h attached = rw attached refl

halted-IsExhausted : (h : Handler) → IsExhausted h → IsExhausted (halted h)
halted-IsExhausted h x = record { array = x.array; infos = x.infos; empty = x.empty }

exhausted_run :
    (printf : Printf) (size : ℕ) (min_time : Timespec) (now : ℕ → Timespec) (h : Handler)
    → h.mem_attached ≡ true
    → h.shared.active ≡ false
    → IsExhausted h
    → rtdbg_get_trace_entry printf size min_time now h ≡ ok (none, h)
unfolding rtdbg_get_trace_entry
exhausted_run printf size min_time now h attached inactive x =
    let loop : trace_loop printf now h.shared.num_alloc_groups 0 (min_time, none, h)
        ≡ ok (min_time, none, h) =
      skips_all printf h x now h.shared.num_alloc_groups 0 min_time none (omega arith) in
    ground (arith, attached, inactive, loop)

-- RTDBG_GetTraceEntry after RTDBG_Stop in an attached process that noted once for every group in use that
-- it found no more traces, for any buffer and times: it returns false and changes nothing, whatever
-- traces the groups have got since.
pub stop_keeps_exhausted :
    (printf : Printf) (size : ℕ) (min_time : Timespec) (now : ℕ → Timespec) (h : Handler)
    → h.mem_attached ≡ true
    → IsExhausted h
    → rtdbg_get_trace_entry printf size min_time now (rtdbg_stop h) ≡ ok (none, rtdbg_stop h)
stop_keeps_exhausted printf size min_time now h attached x =
    subst (λ (k : Handler). rtdbg_get_trace_entry printf size min_time now k ≡ ok (none, k))
      (sym (rtdbg_stop-halted h attached))
      (exhausted_run printf size min_time now (halted h) attached refl (halted-IsExhausted h x))
