-- ===== src/Tests/Memory.antt =====
-- The first call on a memory after RTDBG_Init.
use rt_debug_lib.Base.{ℕ, zero, suc, ◌+◌, ◌≡◌, refl, false, replicate, arith, ok, Returns}
use rt_debug_lib.CString.{codes}
use rt_debug_lib.DebugRt
use rt_debug_lib.DebugRt.{GroupDebugRt, DebugRt, reset_groups}
use rt_debug_lib.DebugRt.Init.{IsAligned, group_reset, reset_group_run}
use rt_debug_lib.Handler.{Handler, rtdbg_init_all, init_extract_tables}
use rt_debug_lib.Handler.Memory.{IsSound}
use rt_debug_lib.Handler.Memory.Calls.{alloc_group, perform, Reached, initialised}
use rt_debug_lib.Handler.Memory.Safety.{Reached-never_faults}
use rt_debug_lib.Tests.{process, raw_group, address}
use rt_debug_lib.Tests.Process.{raw_group-HasArrays, unused-IsDebugRt}

abbrev trace_buf : ℕ → ℕ
trace_buf i = address

abbrev prof_buf : ℕ → ℕ → ℕ
prof_buf i j = address

aligned : IsAligned trace_buf
aligned i = (omega arith, omega arith)

reset_all :
    (n i : ℕ)
    → reset_groups trace_buf false n i (replicate n raw_group)
      ≡ ok (replicate n (group_reset address raw_group))
unfolding reset_groups
reset_all zero i = refl
reset_all (suc n) i =
    rw
      (
        reset_group_run address raw_group raw_group-HasArrays (omega arith) (omega arith),
        reset_all n (i + 1),
      )
      refl

-- The process after RTDBG_Init.
abbrev fresh : Handler
fresh =
    let d = process.shared in
    record process {
      shared = record d {
        num_alloc_groups = 0;
        active = false;
        debug_groups = replicate 10 (group_reset address raw_group);
      };
    }

fresh_run : rtdbg_init_all trace_buf process ≡ ok fresh
unfolding rtdbg_init_all DebugRt.init init_extract_tables
fresh_run = rw (reset_all 10 0) refl

fresh-Reached : Reached trace_buf prof_buf fresh
fresh-Reached =
    initialised process fresh refl unused-IsDebugRt.array unused-IsDebugRt.arrays fresh_run

Reached-never_faults_example :
    Returns
      (perform trace_buf prof_buf (alloc_group (codes "mac")) fresh)
      λ h'. Reached trace_buf prof_buf h' × IsSound prof_buf h'
Reached-never_faults_example =
    Reached-never_faults trace_buf aligned prof_buf (λ i. aligned) fresh (alloc_group (codes "mac"))
      fresh-Reached (omega arith, omega arith)
