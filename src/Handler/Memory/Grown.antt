-- ===== src/Handler/Memory/Grown.antt =====
-- RTDBG_Init and AllocDbgGrp on a sound memory.
use rt_debug_lib.Base.{
  ℕ, ◌<◌, ◌≡◌, sym, ap, ◌∙◌, subst, true, some, length, get_elem?, set, arith, get_elem?-set_self,
  get_elem?-set_ne, ℕ_discrete, Returns, Returns-result, ok,
}
use mathlib.Core.Option.{some-injective}
use rt_debug_lib.Registry.{length-names}
use rt_debug_lib.CString.{CStr}
use rt_debug_lib.Counters.{trace_string_size}
use rt_debug_lib.DebugRt.{GroupDebugRt, max_group_num, grp_name, init}
use rt_debug_lib.DebugRt.New.{HasArrays, IsNew}
use rt_debug_lib.DebugRt.Laws.{extended, known, added, refused, allocation}
use rt_debug_lib.DebugRt.Init.{IsAligned, init-IsInitialised}
use rt_debug_lib.DebugRt.Groups.{extended-IsDebugRt}
use rt_debug_lib.Handler.{Handler, rtdbg_init_all, init_extract_tables, rtdbg_alloc_rt_debug_group}
use rt_debug_lib.Handler.Memory.{IsGroupSound, IsSound, new-IsGroupSound}

module _ (trace_buf : ℕ → ℕ) (aligned : IsAligned trace_buf) (prof_buf : ℕ → ℕ → ℕ) where
  extended-IsSound :
      (h : Handler) (s : CStr) (g : GroupDebugRt)
      → IsSound prof_buf h
      → h.shared.num_alloc_groups < max_group_num
      → length s < trace_string_size
      → IsNew s g
      → IsSound prof_buf (record h { shared = extended h.shared g })
  extended-IsSound h s g v room fits new =
      let d = h.shared in
      let n = d.num_alloc_groups in
      let here = get_elem?-set_self d.debug_groups n g (omega (arith, v.memory)) in
      let is_new : (j : ℕ) (b : GroupDebugRt)
          → n ≡ j
          → get_elem? (set d.debug_groups n g) j ≡ some b
          → g ≡ b =
        λ j b e there.
          some-injective g b
            (sym (subst (λ k. get_elem? (set d.debug_groups n g) k ≡ some g) e here) ∙ there) in
      record {
        attached = v.attached;
        memory = extended-IsDebugRt d s g v.memory new fits room;
        groups = λ j b lt there. elim (ℕ_discrete n j) [
          | no ne ↦
              v.groups j b (omega (arith, lt, ne))
                (sym (get_elem?-set_ne d.debug_groups n j g ne) ∙ there)
          | yes e ↦
              subst (IsGroupSound (prof_buf j)) (is_new j b e there)
                (new-IsGroupSound (prof_buf j) s g fits new)
        ];
      }

  pub alloc-IsSound :
      (h : Handler) (s : CStr)
      → IsSound prof_buf h
      → length s < trace_string_size
      → h.shared.num_alloc_groups < max_group_num
      → Returns (rtdbg_alloc_rt_debug_group trace_buf s h) λ out. IsSound prof_buf out.1
  unfolding rtdbg_alloc_rt_debug_group
  alloc-IsSound h s v fits room =
      let n = h.shared.num_alloc_groups in
      elim (allocation trace_buf v.memory s fits (aligned n).0 (aligned n).1) [
        | known i found run ↦
            let ran : rtdbg_alloc_rt_debug_group trace_buf s h ≡ ok (some i, h) =
              ground (arith, v.attached, run) in
            rw ran v
        | added g new fresh below run ↦
            let ran : rtdbg_alloc_rt_debug_group trace_buf s h
                ≡ ok (some n, record h { shared = extended h.shared g }) =
              ground (arith, v.attached, run) in
            rw ran (extended-IsSound h s g v room fits new)
        | refused fresh full run ↦ absurd (omega arith)
      ]

  -- RTDBG_Init of an attached process.
  pub init-IsSound :
      (h : Handler)
      → h.mem_attached ≡ true
      → length h.shared.debug_groups ≡ max_group_num
      → ((i : ℕ) (g : GroupDebugRt) → get_elem? h.shared.debug_groups i ≡ some g → HasArrays g)
      → Returns (rtdbg_init_all trace_buf h) (IsSound prof_buf)
  unfolding rtdbg_init_all init_extract_tables
  init-IsSound h attached array arrays =
      let (d, run, new) =
        Returns-result (init trace_buf h.shared) _
          (init-IsInitialised trace_buf aligned h.shared array arrays) in
      let none_yet : d.num_alloc_groups ≡ 0 =
        sym (length-names grp_name d.num_alloc_groups d.debug_groups (omega (arith, new.valid)))
        ∙ ap length new.no_groups in
      let h' : Handler = record (init_extract_tables h) { shared = d } in
      let ran : rtdbg_init_all trace_buf h ≡ ok h' = ground (arith, attached, run) in
      rw ran (record {
        attached = attached;
        memory = new.valid;
        groups = λ i g lt at. absurd (omega (arith, lt, none_yet));
      })
