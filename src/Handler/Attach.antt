-- ===== src/Handler/Attach.antt =====
-- RTDBG_ActivateDebugDataCollection and RTDBG_AttachDebugData (rt_debug_cpp/src/rt_debug_main.cc),
-- RTDBG_SetSharedMemFile and RTDBG_Close (rt_debug_main.h beside it). The operating system's calls are
-- the fields of `Os`, over whatever state it keeps; umask and perror are left out.
pub mod Posix
pub mod Activate
pub mod Existing
pub mod Close
use rt_debug_lib.Base.{
  ℕ, ◌-◌, ◌%◌, ◌^◌, Bool, true, false, not, Option, none, some, length, ltb, ◌==◌, if◌then◌else◌,
  Result, ok, assert, ◌>>=◌, ◌>>◌,
}
use rt_debug_lib.CString.{CStr, strcpy}
use rt_debug_lib.Counters.{trace_string_size}
use rt_debug_lib.DebugRt.{DebugRt}
use rt_debug_lib.Handler.{Handler, rtdbg_running_producer, rtdbg_running_consumer, rtdbg_init_all}

-- open with O_RDWR, and with O_CREAT where the first argument is true: a descriptor, or `none` for -1;
-- ftruncate: whether it returns 0; lseek with SEEK_SET and with SEEK_END, and write of one NUL: the bit
-- patterns of their 64-bit results; mmap of a CDebugRT: what stands there, or `none` for MAP_FAILED
-- and NULL, where the mapping of a shorter file holds only the groups that the file has; munmap and close.
pub record Os (S : Type 0) : Type 0 where
  pub open_file : Bool → CStr → S → Option ℕ × S
  pub truncate : ℕ → ℕ → S → Bool × S
  pub seek_set : ℕ → ℕ → S → ℕ × S
  pub seek_end : ℕ → S → ℕ × S
  pub write_nul : ℕ → S → ℕ × S
  pub map_shared : ℕ → S → Option DebugRt × S
  pub unmap : DebugRt → S → S
  pub close_file : ℕ → S → S

-- -1 as an int32_t.
abbrev pub minus_one : ℕ
minus_one = 2 ^ 32 - 1

unfoldable pub rtdbg_set_shared_mem_file : CStr → Handler → Result Handler
rtdbg_set_shared_mem_file mem_mapped_file h = do
  name ← strcpy trace_string_size mem_mapped_file
  ok (record h { shared_file_name = name })

module _ {S : Type 0} (os : Os S) where
  -- The growth of the file to `size` bytes; false where lseek or write fails.
  unfoldable pub stretch_file : ℕ → ℕ → S → Bool × S
  stretch_file size fd s =
      let (done, s1) = os.truncate fd size s in
      if done
      then (let (result, s2) = os.seek_set fd (size - 1) s1 in
          if result % 2 ^ 32 == minus_one
          then (false, s2)
          else (let (written, s3) = os.write_nul fd s2 in (written % 2 ^ 32 == 1, s3)))
      else (true, s1)

  -- The mapping of the file, whole or with the groups that the file has; the file is closed where mmap fails.
  unfoldable pub map_file : ℕ → S → Option DebugRt × S
  map_file fd s =
      let (mapped, s1) = os.map_shared fd s in
      elim mapped [ none ↦ (none, os.close_file fd s1) | some d ↦ (some d, s1) ]

  -- `size` is sizeof(CDebugRT), and `trace_buf` says where the traces' buffers stand in the process.
  unfoldable pub rtdbg_activate_debug_data_collection :
      ℕ → (ℕ → ℕ) → Handler → S → Result (Bool × Handler × S)
  unfolding stretch_file map_file
  rtdbg_activate_debug_data_collection size trace_buf h s = do
    assert (not h.mem_attached)
    assert (ltb 0 (length h.shared_file_name))
    let (opened, s1) = os.open_file true h.shared_file_name s
    elim opened [
      | none ↦ ok (false, record h { mmap_fd = minus_one }, s1)
      | some fd ↦
          let h1 = record h { mmap_fd = fd } in
          let (stretched, s2) = stretch_file size fd s1 in
          if stretched
          then (let (mapped, s3) = map_file fd s2 in
              elim mapped [
                | none ↦ ok (false, h1, s3)
                | some d ↦ do
                  h2 ← rtdbg_init_all trace_buf (record h1 {
                    status = rtdbg_running_producer;
                    shared = d;
                    mem_attached = true;
                  })
                  ok (true, h2, s3)
              ])
          else ok (false, h1, os.close_file fd s2)
    ]

  unfoldable pub rtdbg_attach_debug_data : Handler → S → Result (Bool × Handler × S)
  unfolding map_file
  rtdbg_attach_debug_data h s = do
    assert (not h.mem_attached)
    assert (ltb 0 (length h.shared_file_name))
    let (opened, s1) = os.open_file false h.shared_file_name s
    elim opened [
      | none ↦ ok (false, record h { mmap_fd = minus_one }, s1)
      | some fd ↦
          let h1 = record h { mmap_fd = fd } in
          let (result, s2) = os.seek_end fd s1 in
          if result % 2 ^ 32 == minus_one
          then ok (false, h1, os.close_file fd s2)
          else if result % 2 ^ 32 == 0
          then ok (false, h1, os.close_file fd s2)
          else (let (mapped, s3) = map_file fd s2 in
              elim mapped [
                | none ↦ ok (false, h1, s3)
                | some d ↦ ok (
                  true,
                  record h1 { status = rtdbg_running_consumer; shared = d; mem_attached = true },
                  s3,
                )
              ])
    ]

  unfoldable pub rtdbg_close : Handler → S → Handler × S
  rtdbg_close h s =
      (record h { mem_attached = false }, os.close_file h.mmap_fd (os.unmap h.shared s))
