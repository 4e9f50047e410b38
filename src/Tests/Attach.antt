-- ===== src/Tests/Attach.antt =====
-- Runs of RTDBG_ActivateDebugDataCollection, RTDBG_AttachDebugData and RTDBG_Close over a small operating system.
use rt_debug_lib.Base.{
  ℕ, ◌+◌, ◌-◌, ◌%◌, ◌^◌, ◌≤◌, ◌≡◌, refl, Bool, true, false, ◌&&◌, ◌==◌, ltb, leb, if◌then◌else◌,
  some, arith, Returns, err, Fault, sym, ◌∙◌, subst, inr, replicate,
}
use mathlib.Core.Option.{some-injective, none-ne-some}
use rt_debug_lib.CString.{CStr}
use rt_debug_lib.DebugRt
use rt_debug_lib.DebugRt.{DebugRt}
use rt_debug_lib.DebugRt.Init.{IsAligned, IsInitialised, init-IsInitialised}
use rt_debug_lib.Handler.{Handler}
use rt_debug_lib.Handler.Attach.{Os, rtdbg_activate_debug_data_collection, rtdbg_attach_debug_data}
use rt_debug_lib.Handler.Attach.Posix.{IsMapping, Opens, IsPosix, IsGranting}
use rt_debug_lib.Handler.Attach.Activate.{activate_runs_past_end}
use rt_debug_lib.Handler.Attach.Existing.{Attached, rtdbg_attach_debug_data-Attached}
use rt_debug_lib.Handler.Attach.Close.{and_close, IsUndone, close-undoes_attach}
use rt_debug_lib.Tests.{process, address, raw_group, get_elem?-replicate}
use rt_debug_lib.Tests.Process.{raw_group-HasArrays, unused, unused-IsDebugRt}

-- The descriptors below `next` that are not closed are open, and `next` is the one that open returns.
-- `last` is the place of the last byte of a descriptor's file, below 2^31.
record Files : Type 0 where
  next : ℕ
  kept : ℕ → Bool
  last : ℕ → ℕ

abbrev is_open : Files → ℕ → Bool
is_open s k = s.kept k && ltb k s.next

abbrev file_size : Files → ℕ → ℕ
file_size s k = s.last k % 2 ^ 31 + 1

-- The memory in a file of 4096 bytes, and in a shorter one.
abbrev short_memory : DebugRt
short_memory = record unused { debug_groups = replicate 3 raw_group }

abbrev memory_of : ℕ → DebugRt
memory_of n = if leb 4096 n then unused else short_memory

-- ftruncate fails where the disk is full.
abbrev files : Bool → Os Files
files room = record {
  open_file = λ create name s. (
    some s.next,
    record s { next = s.next + 1; kept = λ k. if k == s.next then true else is_open s k },
  );
  truncate = λ fd n s.
      if room && (ltb 0 n && leb n (2 ^ 31))
      then (true, record s { last = λ k. if k == fd then n - 1 else s.last k })
      else (false, s);
  seek_set = λ fd place s. (place, s);
  seek_end = λ fd s. (file_size s fd, s);
  write_nul = λ fd s. (1, s);
  map_shared = λ fd s. (some (memory_of (file_size s fd)), s);
  unmap = λ d s. s;
  close_file = λ fd s. record s { kept = λ k. if k == fd then false else s.kept k };
}

next-Opens :
    (room create : Bool) (name : CStr) (s : Files)
    → Opens is_open s.next s ((files room).open_file create name s).1
next-Opens room create name s = record {
  fresh = ground arith;
  held = ground arith;
  others = λ k ne. ground arith;
}

unused-IsMapping : IsMapping unused
unused-IsMapping = record { array = unused-IsDebugRt.array; arrays = unused-IsDebugRt.arrays }

memory_of-IsMapping : (n : ℕ) (d : DebugRt) → 4096 ≤ n → some (memory_of n) ≡ some d → IsMapping d
memory_of-IsMapping n d enough e =
    let whole : memory_of n ≡ unused = ground arith in
    subst IsMapping (sym whole ∙ some-injective (memory_of n) d e) unused-IsMapping

files-IsPosix : (room : Bool) → IsPosix is_open file_size 4096 (files room)
files-IsPosix room = record {
  opens = λ create name s fd e.
      subst (λ k. Opens is_open k s ((files room).open_file create name s).1)
        (some-injective s.next fd e) (next-Opens room create name s);
  refuses = λ create name s e. absurd (none-ne-some s.next (sym e));
  truncates = λ fd n s k. ground arith;
  truncated = λ fd n s done. ground arith;
  seeks_set = λ fd place s k. refl;
  sought_set = λ fd place s. refl;
  seeks_end = λ fd s k. refl;
  sought_end = λ fd s. refl;
  ends = λ fd s. inr refl;
  writes = λ fd s k. refl;
  written = λ fd s. omega arith;
  maps = λ fd s k. refl;
  mapped = λ fd s d enough e. memory_of-IsMapping (file_size s fd) d enough e;
  unmaps = λ d s k. refl;
  closed = λ fd s. ground arith;
  closes_only = λ fd s k ne. ground arith;
}

files-IsGranting : IsGranting is_open 4096 (files true)
files-IsGranting = record {
  grants_open = λ create name s. (s.next, refl);
  grants_truncate = λ fd s. ground arith;
  grants_seek = λ fd place s small. omega arith;
  grants_end = λ fd s. (omega arith, omega arith);
  grants_write = λ fd s. refl;
  grants_map = λ fd s. (memory_of (file_size s fd), refl);
}

-- A process that has no mapping yet, and the three descriptors that every process starts with.
abbrev detached : Handler
detached = record process { mem_attached = false }

-- Every file has 100 bytes.
abbrev start : Files
start = record { next = 3; kept = λ k. true; last = λ k. 99 }

aligned : IsAligned (λ i. address)
aligned i = (omega arith, omega arith)

init-IsInitialised_example : Returns (DebugRt.init (λ i. address) unused) (IsInitialised unused)
init-IsInitialised_example =
    init-IsInitialised (λ i. address) aligned unused unused-IsDebugRt.array unused-IsDebugRt.arrays

activate_runs_past_end_example :
    rtdbg_activate_debug_data_collection (files false) 4096 (λ i. address) detached start
    ≡ err Fault.out_of_bounds
activate_runs_past_end_example =
    activate_runs_past_end is_open file_size 4096 (files false) (files-IsPosix false) detached start
      refl (omega arith) (λ i. address) aligned 3 short_memory refl refl refl (omega arith)
      (λ i g at. rw (get_elem?-replicate 3 i raw_group g at) raw_group-HasArrays)

rtdbg_attach_debug_data_example :
    Returns
      (rtdbg_attach_debug_data (files true) detached start)
      (Attached is_open file_size (files true) detached start)
rtdbg_attach_debug_data_example =
    rtdbg_attach_debug_data-Attached is_open file_size (files true) 4096 (files-IsPosix true)
      detached start refl (omega arith)

close-undoes_attach_example :
    Returns
      (and_close
        (files true)
        (rtdbg_activate_debug_data_collection (files true) 4096 (λ i. address) detached start))
      (IsUndone is_open start)
    × Returns
        (and_close (files true) (rtdbg_attach_debug_data (files true) detached start))
        (IsUndone is_open start)
close-undoes_attach_example =
    close-undoes_attach is_open file_size 4096 (files true) (files-IsPosix true) files-IsGranting
      detached start refl (omega arith) (λ i. address) aligned (omega arith)
