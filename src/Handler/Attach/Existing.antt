-- ===== src/Handler/Attach/Existing.antt =====
-- RTDBG_AttachDebugData: what it leaves of the process and of its open descriptors.
use rt_debug_lib.Base.{
  ℕ, ◌⊎◌, ◌%◌, ◌^◌, ◌<◌, ◌≡◌, ◌≢◌, inl, inr, refl, Bool, true, false, Option, none, some,
  Option-cases, length, arith, ok, Returns, ℕ_discrete,
}
use rt_debug_lib.DebugRt.{DebugRt}
use rt_debug_lib.Handler.{Handler, rtdbg_running_consumer}
use rt_debug_lib.Handler.Attach.{Os, minus_one, map_file, rtdbg_attach_debug_data}
use rt_debug_lib.Handler.Attach.Posix.{
  SameOpen, Opens, IsPosix, Mapped, Opens-same, SameOpen-close_file, map_file-Mapped,
}

module _ {S : Type 0} (is_open : S → ℕ → Bool) (file_size : S → ℕ → ℕ) (os : Os S) where
  abbrev pub Attached : Handler → S → Bool × Handler × S → Type 0
  Attached h s (false, h', s') = (record h { mmap_fd = h'.mmap_fd } ≡ h') × SameOpen is_open s s'
  Attached h s (true, h', s') =
      (record h {
        mmap_fd = h'.mmap_fd;
        status = rtdbg_running_consumer;
        shared = h'.shared;
        mem_attached = true;
      }
        ≡ h')
      × Opens is_open h'.mmap_fd s s'
      × ((s1 : S) × ((os.map_shared h'.mmap_fd s1).0 ≡ some h'.shared)
          × ((os.map_shared h'.mmap_fd s1).1 ≡ s')
          × (file_size s1 h'.mmap_fd % 2 ^ 32 ≢ 0))

  module _ (size : ℕ) (posix : IsPosix is_open file_size size os) (h : Handler) (s : S)
      (unattached : h.mem_attached ≡ false) (named : 0 < length h.shared_file_name) where
    abbrev with_fd : ℕ → Handler
    with_fd fd = record h { mmap_fd = fd }

    abbrev pub consumer : ℕ → DebugRt → Handler
    consumer fd d = record h {
      mmap_fd = fd;
      status = rtdbg_running_consumer;
      shared = d;
      mem_attached = true;
    }

    abbrev s1 : S
    s1 = (os.open_file false h.shared_file_name s).1

    not_opened :
        (os.open_file false h.shared_file_name s).0 ≡ none
        → rtdbg_attach_debug_data os h s ≡ ok (false, with_fd minus_one, s1)
    unfolding rtdbg_attach_debug_data
    not_opened e = ground (arith, unattached, named, e)

    module _ (fd : ℕ) (e : (os.open_file false h.shared_file_name s).0 ≡ some fd) where
      abbrev s2 : S
      s2 = (os.seek_end fd s1).1

      abbrev result : ℕ
      result = (os.seek_end fd s1).0 % 2 ^ 32

      no_size :
          (result ≡ minus_one) ⊎ (result ≡ 0)
          → rtdbg_attach_debug_data os h s ≡ ok (false, with_fd fd, os.close_file fd s2)
      unfolding rtdbg_attach_debug_data
      no_size (inl f) = ground (arith, unattached, named, e, f)
      no_size (inr f) = ground (arith, unattached, named, e, f)

      not_mapped :
          (s3 : S)
          → result ≢ minus_one
          → result ≢ 0
          → map_file os fd s2 ≡ (none, s3)
          → rtdbg_attach_debug_data os h s ≡ ok (false, with_fd fd, s3)
      unfolding rtdbg_attach_debug_data
      not_mapped s3 f g m = ground (arith, unattached, named, e, f, g, m)

      pub all_done :
          (d : DebugRt) (s3 : S)
          → result ≢ minus_one
          → result ≢ 0
          → map_file os fd s2 ≡ (some d, s3)
          → rtdbg_attach_debug_data os h s ≡ ok (true, consumer fd d, s3)
      unfolding rtdbg_attach_debug_data
      all_done d s3 f g m = ground (arith, unattached, named, e, f, g, m)

      -- lseek has returned the size of the file.
      not_empty : result ≢ minus_one → result ≢ 0 → file_size s2 fd % 2 ^ 32 ≢ 0
      not_empty f g = elim (posix.ends fd s1) [
        | inl failed ↦ absurd (f (omega (arith, failed)))
        | inr found ↦ λ z. g (omega (arith, found, posix.sought_end fd s1, z))
      ]

      ending :
          (m : Option DebugRt) (s3 : S)
          → result ≢ minus_one
          → result ≢ 0
          → map_file os fd s2 ≡ (m, s3)
          → Mapped is_open file_size size os posix fd s s2 (m, s3)
          → Returns (rtdbg_attach_debug_data os h s) (Attached h s)
      ending none s3 f g m same = rw (not_mapped s3 f g m) (refl, same)
      ending (some d) s3 f g m (gives, left, o) =
          rw (all_done d s3 f g m) (refl, o, (s2, gives, left, not_empty f g))

    -- RTDBG_AttachDebugData in a process that is not attached and has a file's name, over POSIX
    -- calls: it never faults. Where it returns false it has changed nothing but the descriptor that
    -- it keeps, and no other descriptor is open than before. Where it returns true the process is
    -- attached as the consumer to what mmap gave for the descriptor that it keeps, whose file has a
    -- size that is not 0 modulo 2^32, with its own logs as they were, and holds just one descriptor
    -- more.
    pub rtdbg_attach_debug_data-Attached : Returns (rtdbg_attach_debug_data os h s) (Attached h s)
    rtdbg_attach_debug_data-Attached =
        elim (Option-cases (os.open_file false h.shared_file_name s).0) [
          | inl e ↦ rw (not_opened e) (refl, posix.refuses false h.shared_file_name s e)
          | inr (fd, e) ↦
              let o =
                Opens-same is_open file_size size os posix fd s s1 (s2 fd e)
                  (posix.opens false h.shared_file_name s fd e) (posix.seeks_end fd s1) in
              let m = map_file os fd (s2 fd e) in
              let back = SameOpen-close_file is_open file_size size os posix fd s (s2 fd e) o in
              elim (ℕ_discrete (result fd e) minus_one) [
                | yes f ↦ rw (no_size fd e (inl f)) (refl, back)
                | no f ↦ elim (ℕ_discrete (result fd e) 0) [
                  | yes g ↦ rw (no_size fd e (inr g)) (refl, back)
                  | no g ↦
                      ending fd e m.0 m.1 f g refl
                        (map_file-Mapped is_open file_size size os posix fd s (s2 fd e) o)
                ]
              ]
        ]
