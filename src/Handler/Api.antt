-- ===== src/Handler/Api.antt =====
-- The C interface of rt_debug_cpp/src/rt_debug_main.cc: each function is a call of the method of the same
-- name on the process's one CDebugHandler, `debug_handler`, which is the last argument here.
use rt_debug_lib.Base.{ℕ, Bool, Option, List, Result}
use rt_debug_lib.CString.{CStr}
use rt_debug_lib.Clock.{Timespec}
use rt_debug_lib.MemArea.{MemArea}
use rt_debug_lib.Tracer.{Printf}
use rt_debug_lib.Profile.{ProfilePoint, ProfileData}
use rt_debug_lib.Handler
use rt_debug_lib.Handler.{Handler, Status}
use rt_debug_lib.Handler.Merge
use rt_debug_lib.Handler.Measure
use rt_debug_lib.Handler.Attach
use rt_debug_lib.Handler.Attach.{Os}
use rt_debug_lib.Handler.Extract

abbrev pub rtdbg_get_counter : ℕ → ℕ → Handler → Result (Option ℕ)
rtdbg_get_counter debug_grp num debug_handler =
    Handler.rtdbg_get_counter debug_grp num debug_handler

abbrev pub rtdbg_alloc_counter : ℕ → CStr → Handler → Result (Option ℕ × Handler)
rtdbg_alloc_counter debug_grp cnt_name debug_handler =
    Handler.rtdbg_alloc_counter debug_grp cnt_name debug_handler

abbrev pub rtdbg_get_counters_num : ℕ → Handler → Result (Option ℕ)
rtdbg_get_counters_num debug_grp debug_handler =
    Handler.rtdbg_get_counters_num debug_grp debug_handler

abbrev pub rtdbg_add_trace :
    Timespec → ℕ → ℕ → ℕ → ℕ → ℕ → ℕ → ℕ → ℕ → Handler → Result (Unit {0} × Handler)
rtdbg_add_trace now thread debug_grp trace_id line_num var0 var1 var2 var3 debug_handler =
    Handler.rtdbg_add_trace now thread debug_grp trace_id line_num var0 var1 var2 var3 debug_handler

abbrev pub rtdbg_get_trace_entry :
    Printf → ℕ → Timespec → (ℕ → Timespec) → Handler → Result (Option (CStr × Timespec) × Handler)
rtdbg_get_trace_entry printf size min_time now debug_handler =
    Merge.rtdbg_get_trace_entry printf size min_time now debug_handler

abbrev pub rtdbg_add_trace_entry : ℕ → CStr → Handler → Result (Option ℕ × Handler)
rtdbg_add_trace_entry grp format debug_handler =
    Handler.rtdbg_add_trace_entry grp format debug_handler

abbrev pub rtdbg_add_log : Timespec → ℕ → CStr → Handler → Result (Unit {0} × Handler)
rtdbg_add_log now debug_grp log_str debug_handler =
    Handler.rtdbg_add_log now debug_grp log_str debug_handler

abbrev pub rtdbg_get_log :
    ℕ → Bool → Timespec → ℕ → Handler → Result (Option (CStr × Timespec) × Handler)
rtdbg_get_log size time_given min_time grp_mask debug_handler =
    Merge.rtdbg_get_log size time_given min_time grp_mask debug_handler

abbrev pub rtdbg_add_profiler : (ℕ → ℕ) → ℕ → CStr → Handler → Result (Option ℕ × Handler)
rtdbg_add_profiler buf_address debug_grp prof_name debug_handler =
    Handler.rtdbg_add_profiler buf_address debug_grp prof_name debug_handler

abbrev pub rtdbg_prof_init :
    (ℕ → ℕ → ℕ)
    → ℕ
    → ℕ
    → ℕ
    → List (Timespec × Timespec)
    → ProfilePoint
    → Handler
    → Result ProfilePoint
rtdbg_prof_init fifo_address debug_grp prof_id meas_cnt rounds prof_point debug_handler =
    Measure.rtdbg_prof_init fifo_address debug_grp prof_id meas_cnt rounds prof_point debug_handler

-- The calls below on a point do not read the handler.
abbrev pub rtdbg_prof_flush_meas :
    ℕ → ℕ → ProfilePoint → MemArea ProfileData → Result (ProfilePoint × MemArea ProfileData)
rtdbg_prof_flush_meas fifo_address buf_address prof_point fifo =
    Measure.rtdbg_prof_flush_meas fifo_address buf_address prof_point fifo

abbrev pub rtdbg_start_prof_meas : Timespec → ℕ → ProfilePoint → Result ProfilePoint
rtdbg_start_prof_meas now tsc prof_point = Measure.rtdbg_start_prof_meas now tsc prof_point

abbrev pub rtdbg_stop_prof_meas :
    ℕ
    → ℕ
    → Timespec
    → ℕ
    → ProfilePoint
    → MemArea ProfileData
    → Result (ProfilePoint × MemArea ProfileData)
rtdbg_stop_prof_meas fifo_address buf_address now tsc prof_point fifo =
    Measure.rtdbg_stop_prof_meas fifo_address buf_address now tsc prof_point fifo

abbrev pub rtdbg_stop_start_prof_meas : Timespec → ℕ → ProfilePoint → ProfilePoint
rtdbg_stop_start_prof_meas now tsc prof_point =
    Measure.rtdbg_stop_start_prof_meas now tsc prof_point

abbrev pub rtdbg_put_prof_val :
    ℕ → ℕ → ℕ → ProfilePoint → MemArea ProfileData → Result (ProfilePoint × MemArea ProfileData)
rtdbg_put_prof_val fifo_address buf_address val prof_point fifo =
    Measure.rtdbg_put_prof_val fifo_address buf_address val prof_point fifo

abbrev pub rtdbg_get_prof_info :
    ℕ → ℕ → ℕ → ℕ → Handler → Result (Option (ProfileData × CStr × CStr) × Handler)
rtdbg_get_prof_info grp_size size debug_grp prof_id debug_handler =
    Handler.rtdbg_get_prof_info grp_size size debug_grp prof_id debug_handler

abbrev pub rtdbg_init : (ℕ → ℕ) → Handler → Result Handler
rtdbg_init trace_buf debug_handler = Handler.rtdbg_init_all trace_buf debug_handler

abbrev pub rtdbg_alloc_rt_debug_group : (ℕ → ℕ) → CStr → Handler → Result (Option ℕ × Handler)
rtdbg_alloc_rt_debug_group trace_buf group_name debug_handler =
    Handler.rtdbg_alloc_rt_debug_group trace_buf group_name debug_handler

abbrev pub rtdbg_alloc_prof_cntr_num : ℕ → Handler → Result (Option ℕ)
rtdbg_alloc_prof_cntr_num debug_grp debug_handler =
    Handler.rtdbg_alloc_prof_cntr_num debug_grp debug_handler

abbrev pub rtdbg_get_grp_name : ℕ → ℕ → Handler → Result (Option CStr)
rtdbg_get_grp_name size debug_grp debug_handler =
    Handler.rtdbg_get_grp_name size debug_grp debug_handler

abbrev pub rtdbg_get_grp_num : Handler → Option ℕ
rtdbg_get_grp_num debug_handler = Handler.rtdbg_get_grp_num debug_handler

abbrev pub rtdbg_stop : Handler → Handler
rtdbg_stop debug_handler = Handler.rtdbg_stop debug_handler

abbrev pub rtdbg_start : Handler → Handler
rtdbg_start debug_handler = Handler.rtdbg_start debug_handler

abbrev pub rtdbg_set_shared_mem_file : CStr → Handler → Result Handler
rtdbg_set_shared_mem_file mem_mapped_file debug_handler =
    Attach.rtdbg_set_shared_mem_file mem_mapped_file debug_handler

abbrev pub rtdbg_extract_debug_data :
    Bool
    → ℕ
    → Printf
    → (ℕ → Timespec)
    → (ℕ → ℕ → Timespec)
    → (ℕ → Timespec)
    → Handler
    → Result (Option (List CStr) × Handler)
rtdbg_extract_debug_data opened fuel printf min_time now log_time debug_handler =
    Extract.rtdbg_extract_debug_data opened fuel printf min_time now log_time debug_handler

abbrev pub rtdbg_get_version : Handler → Option CStr
rtdbg_get_version debug_handler = Handler.rtdbg_get_version debug_handler

abbrev pub rtdbg_get_status : Handler → Status
rtdbg_get_status debug_handler = Handler.rtdbg_get_status debug_handler

module _ {S : Type 0} (os : Os S) where
  abbrev pub rtdbg_activate_debug_data_collection :
      ℕ → (ℕ → ℕ) → Handler → S → Result (Bool × Handler × S)
  rtdbg_activate_debug_data_collection size trace_buf debug_handler s =
      Attach.rtdbg_activate_debug_data_collection os size trace_buf debug_handler s

  abbrev pub rtdbg_attach_debug_data : Handler → S → Result (Bool × Handler × S)
  rtdbg_attach_debug_data debug_handler s = Attach.rtdbg_attach_debug_data os debug_handler s

  abbrev pub rtdbg_close : Handler → S → Handler × S
  rtdbg_close debug_handler s = Attach.rtdbg_close os debug_handler s
