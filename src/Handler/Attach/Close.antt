-- ===== src/Handler/Attach/Close.antt =====
-- RTDBG_Close after RTDBG_ActivateDebugDataCollection or RTDBG_AttachDebugData.
use rt_debug_lib.Base.{
  ℕ, ◌-◌, ◌^◌, ◌<◌, ◌≡◌, refl, Bool, true, false, length, arith, Result, ok, Returns,
  Returns-result, ◌>>=◌,
}
use rt_debug_lib.DebugRt
use rt_debug_lib.DebugRt.{DebugRt, GroupDebugRt, max_group_num, group_names}
use rt_debug_lib.DebugRt.Init.{IsAligned, init-IsInitialised}
use rt_debug_lib.Handler.{Handler}
use rt_debug_lib.Handler.Attach.{
  Os, stretch_file, rtdbg_activate_debug_data_collection, rtdbg_attach_debug_data, rtdbg_close,
}
use rt_debug_lib.Handler.Attach.Posix.{
  SameOpen, Opens, IsPosix, IsGranting, Opens-same, SameOpen-close_file, stretch_file-SameOpen,
  stretch_file-file_size, map_some,
}
use rt_debug_lib.Handler.Attach.Activate.{all_done, producer}
use rt_debug_lib.Handler.Attach.Existing

-- A call that attaches the process, and RTDBG_Close behind it.
abbrev pub and_close :
    {S : Type 0} → Os S → Result (Bool × Handler × S) → Result (Bool × Handler × S)
and_close os r = do (attached, h, s) ← r; let (h', s') = rtdbg_close os h s; ok (attached, h', s')

-- The call attached the process, which is detached again, and the descriptors of before are open.
abbrev pub IsUndone : {S : Type 0} → (S → ℕ → Bool) → S → Bool × Handler × S → Type 0
IsUndone is_open s (attached, h, s') =
    (attached ≡ true) × (h.mem_attached ≡ false) × SameOpen is_open s s'

module _ {S : Type 0} (is_open : S → ℕ → Bool) (file_size : S → ℕ → ℕ) (size : ℕ) (os : Os S)
    (posix : IsPosix is_open file_size size os) (granting : IsGranting is_open size os) where
  stretched : (fd : ℕ) (s : S) → size < 2 ^ 31 → (stretch_file os size fd s).0 ≡ true
  unfolding stretch_file
  stretched fd s small =
      let s1 = (os.truncate fd size s).1 in
      ground (
        arith,
        granting.grants_seek fd (size - 1) s1 (omega arith),
        granting.grants_write fd (os.seek_set fd (size - 1) s1).1,
      )

  close-SameOpen :
      (h : Handler) (s s' : S)
      → Opens is_open h.mmap_fd s s'
      → SameOpen is_open s (rtdbg_close os h s').1
  unfolding rtdbg_close
  close-SameOpen h s s' o =
      SameOpen-close_file is_open file_size size os posix h.mmap_fd s (os.unmap h.shared s') (
        Opens-same is_open file_size size os posix h.mmap_fd s s' (os.unmap h.shared s') o
          (posix.unmaps h.shared s'))

  undone :
      (r : Result (Bool × Handler × S)) (h : Handler) (s s' : S)
      → r ≡ ok (true, h, s')
      → Opens is_open h.mmap_fd s s'
      → Returns (and_close os r) (IsUndone is_open s)
  unfolding rtdbg_close
  undone r h s s' run o = rw run (refl, refl, close-SameOpen h s s' o)

  module _ (h : Handler) (s : S) (unattached : h.mem_attached ≡ false)
      (named : 0 < length h.shared_file_name) where
    activated :
        (trace_buf : ℕ → ℕ)
        → IsAligned trace_buf
        → size < 2 ^ 31
        → Returns
            (and_close os (rtdbg_activate_debug_data_collection os size trace_buf h s))
            (IsUndone is_open s)
    activated trace_buf aligned small =
        let (fd, e) = granting.grants_open true h.shared_file_name s in
        let s1 = (os.open_file true h.shared_file_name s).1 in
        let s2 = (stretch_file os size fd s1).1 in
        let (d, m) = granting.grants_map fd s2 in
        let whole =
          posix.mapped fd s2 d
            (stretch_file-file_size is_open file_size size os posix fd s1
              (granting.grants_truncate fd s1))
            m in
        let (d', run, _) =
          Returns-result (DebugRt.init trace_buf d) _
            (init-IsInitialised trace_buf aligned d whole.array whole.arrays) in
        let s3 = (os.map_shared fd s2).1 in
        let o =
          Opens-same is_open file_size size os posix fd s s1 s2
            (posix.opens true h.shared_file_name s fd e)
            (stretch_file-SameOpen is_open file_size size os posix fd s1) in
        undone _
          (producer is_open file_size size os posix h s unattached named trace_buf aligned fd d') s
          s3
          (all_done is_open file_size size os posix h s unattached named trace_buf aligned fd e d d'
            s3 (stretched fd s1 small) (map_some is_open file_size size os posix fd s2 d m) run)
          (Opens-same is_open file_size size os posix fd s s2 s3 o (posix.maps fd s2))

    attached : Returns (and_close os (rtdbg_attach_debug_data os h s)) (IsUndone is_open s)
    attached =
        let (fd, e) = granting.grants_open false h.shared_file_name s in
        let s1 = (os.open_file false h.shared_file_name s).1 in
        let s2 = (os.seek_end fd s1).1 in
        let (d, m) = granting.grants_map fd s2 in
        let s3 = (os.map_shared fd s2).1 in
        let ends = granting.grants_end fd s1 in
        let o =
          Opens-same is_open file_size size os posix fd s s1 s2
            (posix.opens false h.shared_file_name s fd e) (posix.seeks_end fd s1) in
        undone _ (Existing.consumer is_open file_size os size posix h s unattached named fd d) s s3
          (Existing.all_done is_open file_size os size posix h s unattached named fd e d s3 ends.0
            ends.1 (map_some is_open file_size size os posix fd s2 d m))
          (Opens-same is_open file_size size os posix fd s s2 s3 o (posix.maps fd s2))

    -- Where every call of the operating system succeeds and no file is empty,
    -- RTDBG_ActivateDebugDataCollection (for a size below 2^31 and buffers of the traces at aligned
    -- addresses) and RTDBG_AttachDebugData in a process that is not attached and has a file's name
    -- return true, and RTDBG_Close behind either undoes it: the process is not attached, and just
    -- the descriptors of before the call are open.
    pub close-undoes_attach :
        (trace_buf : ℕ → ℕ)
        → IsAligned trace_buf
        → size < 2 ^ 31
        → Returns
            (and_close os (rtdbg_activate_debug_data_collection os size trace_buf h s))
            (IsUndone is_open s)
          × Returns (and_close os (rtdbg_attach_debug_data os h s)) (IsUndone is_open s)
    close-undoes_attach trace_buf aligned small = (activated trace_buf aligned small, attached)
