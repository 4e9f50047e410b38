-- ===== src/Handler/Attach/Activate.antt =====
-- RTDBG_ActivateDebugDataCollection: what it leaves of the process and of its open descriptors.
use rt_debug_lib.Base.{
  ℕ, ◌<◌, ◌≡◌, Bool, true, false, some, List, [], map, length, get_elem?, arith, ok, err, Fault,
}
use rt_debug_lib.CString.{CStr}
use rt_debug_lib.DebugRt
use rt_debug_lib.DebugRt.{DebugRt, GroupDebugRt, max_group_num, group_names}
use rt_debug_lib.DebugRt.New.{HasArrays, IsNew}
use rt_debug_lib.DebugRt.Laws.{IsDebugRt}
use rt_debug_lib.DebugRt.Init.{IsAligned, init_short}
use rt_debug_lib.Handler.{Handler, LogSortData, rtdbg_running_producer, rtdbg_init_all}
use rt_debug_lib.Handler.Attach.{Os, stretch_file, map_file, rtdbg_activate_debug_data_collection}
use rt_debug_lib.Handler.Attach.Posix.{SameOpen, Opens, IsPosix}

-- No group holds anything.
abbrev pub AllNew : List GroupDebugRt → Type 0
AllNew gs = (i : ℕ) (g : GroupDebugRt) → get_elem? gs i ≡ some g → (name : CStr) × IsNew name g

module _ {S : Type 0} (is_open : S → ℕ → Bool) where
  abbrev pub Activated : Handler → S → Bool × Handler × S → Type 0
  Activated h s (false, h', s') = (record h { mmap_fd = h'.mmap_fd } ≡ h') × SameOpen is_open s s'
  Activated h s (true, h', s') =
      (h'.mem_attached ≡ true)
      × (h'.status ≡ rtdbg_running_producer)
      × IsDebugRt h'.shared
      × (group_names h'.shared ≡ [])
      × AllNew h'.shared.debug_groups
      × (h'.shared.active ≡ false)
      × (h'.grp_logs_last ≡ map (λ (l : LogSortData). record l { valid = false }) h.grp_logs_last)
      × Opens is_open h'.mmap_fd s s'

  module _ (file_size : S → ℕ → ℕ) (size : ℕ) (os : Os S)
      (posix : IsPosix is_open file_size size os) where
    module _ (h : Handler) (s : S) (unattached : h.mem_attached ≡ false)
        (named : 0 < length h.shared_file_name) where
      abbrev with_fd : ℕ → Handler
      with_fd fd = record h { mmap_fd = fd }

      module _ (trace_buf : ℕ → ℕ) (aligned : IsAligned trace_buf) where
        abbrev s1 : S
        s1 = (os.open_file true h.shared_file_name s).1

        abbrev pub producer : ℕ → DebugRt → Handler
        producer fd d = record h {
          mmap_fd = fd;
          grp_logs_last = map (λ (l : LogSortData). record l { valid = false }) h.grp_logs_last;
          status = rtdbg_running_producer;
          shared = d;
          mem_attached = true;
        }

        module _ (fd : ℕ) (e : (os.open_file true h.shared_file_name s).0 ≡ some fd) where
          abbrev s2 : S
          s2 = (stretch_file os size fd s1).1

          pub all_done :
              (d d' : DebugRt) (s3 : S)
              → (stretch_file os size fd s1).0 ≡ true
              → map_file os fd s2 ≡ (some d, s3)
              → DebugRt.init trace_buf d ≡ ok d'
              → rtdbg_activate_debug_data_collection os size trace_buf h s
                ≡ ok (true, producer fd d', s3)
          unfolding rtdbg_activate_debug_data_collection rtdbg_init_all
          all_done d d' s3 f m run = ground (arith, unattached, named, e, f, m, run)

          -- A mapping that ends before the last group, where ftruncate has failed.
          short_run :
              (d : DebugRt)
              → (os.truncate fd size s1).0 ≡ false
              → (os.map_shared fd (os.truncate fd size s1).1).0 ≡ some d
              → DebugRt.init trace_buf d ≡ err Fault.out_of_bounds
              → rtdbg_activate_debug_data_collection os size trace_buf h s ≡ err Fault.out_of_bounds
          unfolding rtdbg_activate_debug_data_collection rtdbg_init_all stretch_file map_file
          short_run d kept m run = ground (arith, unattached, named, e, kept, m, run)

        -- RTDBG_ActivateDebugDataCollection in a process that is not attached and has a file's
        -- name, over POSIX calls and with buffers of the traces at aligned addresses, where open
        -- succeeds, ftruncate fails, and the mapping holds fewer than MAX_GROUP_NUM groups, each
        -- with its arrays: the call does not return false; it maps the file and runs past its end.
        pub activate_runs_past_end :
            (fd : ℕ) (d : DebugRt)
            → (os.open_file true h.shared_file_name s).0 ≡ some fd
            → (os.truncate fd size (os.open_file true h.shared_file_name s).1).0 ≡ false
            → (os.map_shared fd
                (os.truncate fd size (os.open_file true h.shared_file_name s).1).1).0
              ≡ some d
            → length d.debug_groups < max_group_num
            → ((i : ℕ) (g : GroupDebugRt) → get_elem? d.debug_groups i ≡ some g → HasArrays g)
            → rtdbg_activate_debug_data_collection os size trace_buf h s ≡ err Fault.out_of_bounds
        activate_runs_past_end fd d e kept m short arrays =
            short_run fd e d kept m (init_short trace_buf aligned d short arrays)
