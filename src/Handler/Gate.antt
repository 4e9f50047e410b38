-- ===== src/Handler/Gate.antt =====
-- RTDBG_Start, RTDBG_Stop and the calls that they gate: RTDBG_AddLog and RTDBG_AddTrace.
use rt_debug_lib.Base.{
  ℕ, ◌<◌, ◌≡◌, ◌≢◌, refl, true, Bool-cases, inl, inr, some, get_elem?, set, arith, ok, Returns,
  Returns-result, get_elem?-set_self, get_elem?-set_ne, get_elem?-lt,
}
use rt_debug_lib.CString.{CStr}
use rt_debug_lib.Clock.{Timespec}
use rt_debug_lib.Queue.{push_over}
use rt_debug_lib.MemArea.{push_over_rounds}
use rt_debug_lib.MemArea.Invariant.{capacity}
use rt_debug_lib.MemArea.Overwrite.{push_over_refines}
use rt_debug_lib.Logger.{LogGroup, add_log, new_entry, log_entry_size}
use rt_debug_lib.Logger.Laws.{IsLogGroup, logs}
use rt_debug_lib.DebugRt.{GroupDebugRt, get_debug_grp, set_data_collection}
use rt_debug_lib.Handler.{
  Handler, rtdbg_stopped, rtdbg_start, rtdbg_stop, rtdbg_add_log, rtdbg_add_trace, rtdbg_get_status,
  is_data_collection_active, with_group,
}

-- After RTDBG_Stop, in any process, RTDBG_AddLog and RTDBG_AddTrace change nothing whatever they are
-- given, and RTDBG_GetStatus returns RTDBG_STOPPED; after RTDBG_Start collection is active just where the
-- process is attached.
pub stop_gate :
    (h : Handler)
    → let stopped = rtdbg_stop h in
      ((now : Timespec) (i : ℕ) (s : CStr) → rtdbg_add_log now i s stopped ≡ ok (tt, stopped))
      × ((now : Timespec) (thread i id line a b c d : ℕ)
          → rtdbg_add_trace now thread i id line a b c d stopped ≡ ok (tt, stopped))
      × (rtdbg_get_status stopped ≡ rtdbg_stopped)
      × (is_data_collection_active (rtdbg_start h) ≡ h.mem_attached)
unfolding rtdbg_stop rtdbg_start rtdbg_add_log rtdbg_add_trace set_data_collection
stop_gate h = elim (Bool-cases h.mem_attached) [
  | inl e ↦ (λ now i s. rw e, λ now thread i id line a b c d. rw e, rw e, rw e)
  | inr e ↦ (λ now i s. rw e, λ now thread i id line a b c d. rw e, rw e, rw e)
]

module _ (now : Timespec) (i : ℕ) (s : CStr) (h : Handler) (g : GroupDebugRt)
    (attached : h.mem_attached ≡ true) (active : h.shared.active ≡ true)
    (below : i < h.shared.num_alloc_groups) (here : get_elem? h.shared.debug_groups i ≡ some g)
    (v : IsLogGroup g.logger) where
  -- The group with another logger, and every other group as it was.
  pub record IsLogged (h' : Handler) : Type 0 where
    pub logger : LogGroup
    pub valid : IsLogGroup logger
    pub stored :
        logs logger ≡ push_over (capacity g.logger.logs_fifo) (logs g.logger) (new_entry now s)
    pub group : get_elem? h'.shared.debug_groups i ≡ some (record g { logger = logger })
    pub others :
        (j : ℕ) → i ≢ j → get_elem? h'.shared.debug_groups j ≡ get_elem? h.shared.debug_groups j
    pub process : record h { shared = h'.shared } ≡ h'

  abbrev logged : LogGroup → Handler
  logged l =
      let d = h.shared in
      record h {
        shared = record d { debug_groups = set d.debug_groups i (record g { logger = l }) };
      }

  add_log_run :
      (l : LogGroup) → add_log now s g.logger ≡ ok l → rtdbg_add_log now i s h ≡ ok (tt, logged l)
  unfolding rtdbg_add_log with_group get_debug_grp
  add_log_run l run = ground (arith, attached, active, below, here, run)

  -- RTDBG_AddLog in an attached process while data are collected, for a group in use with a valid
  -- logger: it returns, the group's newest log is the new one, at the cost of the oldest where the
  -- FIFO was full, and neither the group's other parts nor any other group change.
  pub rtdbg_add_log-IsLogged : Returns (rtdbg_add_log now i s h) λ out. IsLogged out.1
  unfolding add_log
  rtdbg_add_log-IsLogged =
      let (fifo, run, (v', cap, stored)) =
        Returns-result (push_over_rounds log_entry_size 2 (new_entry now s) g.logger.logs_fifo) _
          (push_over_refines log_entry_size v 0 (new_entry now s)) in
      let l : LogGroup = (let l = g.logger in record l { logs_fifo = fifo }) in
      rw (add_log_run l (rw run)) (record {
        logger = l;
        valid = v';
        stored = stored;
        group =
            get_elem?-set_self h.shared.debug_groups i _
              (get_elem?-lt h.shared.debug_groups i g here);
        others = λ j ne. get_elem?-set_ne h.shared.debug_groups i j _ ne;
        process = refl;
      })
