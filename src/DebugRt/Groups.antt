-- ===== src/DebugRt/Groups.antt =====
-- AllocDbgGrp again and again on one memory: what it keeps, and that a known name changes nothing.
use rt_debug_lib.Base.{
  ℕ, ◌+◌, ◌≤◌, ◌<◌, ◌≡◌, refl, ap₂, sym, ◌∙◌, subst, some, length, get_elem?, set, arith, ok,
  Returns, get_elem?-set_self, get_elem?-set_ne, length-set, ℕ_discrete,
}
use mathlib.Core.Option.{some-injective}
use rt_debug_lib.CString.{CStr}
use rt_debug_lib.Counters.{trace_string_size}
use rt_debug_lib.Registry.{index_from, register, length-names}
use rt_debug_lib.DebugRt.{
  DebugRt, GroupDebugRt, max_group_num, grp_name, group_names, alloc_dbg_grp,
}
use rt_debug_lib.DebugRt.New.{HasArrays, IsNew}
use rt_debug_lib.DebugRt.Laws.{
  IsDebugRt, extended, known, added, refused, allocation, find_names, group_names-extended,
}
use rt_debug_lib.DebugRt.Init.{IsAligned}

pub extended-IsDebugRt :
    (d : DebugRt) (s : CStr) (g : GroupDebugRt)
    → IsDebugRt d
    → IsNew s g
    → length s < trace_string_size
    → d.num_alloc_groups < max_group_num
    → IsDebugRt (extended d g)
extended-IsDebugRt d s g v new fits room = record {
  array = length-set d.debug_groups d.num_alloc_groups g ∙ v.array;
  few = omega arith;
  arrays = λ i b at. elim (ℕ_discrete d.num_alloc_groups i) [
    | no ne ↦ v.arrays i b (sym (get_elem?-set_ne d.debug_groups d.num_alloc_groups i g ne) ∙ at)
    | yes e ↦
        let here = get_elem?-set_self d.debug_groups d.num_alloc_groups g (omega (arith, v)) in
        let there =
          subst (λ k. get_elem? (set d.debug_groups d.num_alloc_groups g) k ≡ some b) (sym e) at in
        subst HasArrays (some-injective g b (sym here ∙ there)) new.arrays
  ];
  named = λ i b lt at. elim (ℕ_discrete d.num_alloc_groups i) [
    | no ne ↦
        v.named i b (omega arith)
          (sym (get_elem?-set_ne d.debug_groups d.num_alloc_groups i g ne) ∙ at)
    | yes e ↦
        let here = get_elem?-set_self d.debug_groups d.num_alloc_groups g (omega (arith, v)) in
        let there =
          subst (λ k. get_elem? (set d.debug_groups d.num_alloc_groups g) k ≡ some b) (sym e) at in
        subst (λ (x : GroupDebugRt). length x.group_name < trace_string_size)
          (some-injective g b (sym here ∙ there)) (rw new.named fits)
  ];
}

-- What one call of AllocDbgGrp leaves: the index of the name and the names with it.
pub record IsRegistered (s : CStr) (d : DebugRt) (out : ℕ × DebugRt) : Type 0 where
  pub valid : IsDebugRt out.1
  pub table : (out.0, group_names out.1) ≡ register s (group_names d)
  pub grows : out.1.num_alloc_groups ≤ d.num_alloc_groups + 1

module _ (trace_buf : ℕ → ℕ) (aligned : IsAligned trace_buf) {d : DebugRt} (v : IsDebugRt d)
    (s : CStr) (fits : length s < trace_string_size) where
  -- A known name changes nothing.
  pub alloc_dbg_grp_known :
      (i : ℕ) → index_from s (group_names d) 0 ≡ some i → alloc_dbg_grp trace_buf s d ≡ ok (i, d)
  unfolding alloc_dbg_grp
  alloc_dbg_grp_known i e =
      let a = aligned d.num_alloc_groups in ground (arith, find_names trace_buf v s fits a.0 a.1, e)

  pub alloc_dbg_grp-IsRegistered :
      d.num_alloc_groups < max_group_num → Returns (alloc_dbg_grp trace_buf s d) (IsRegistered s d)
  unfolding register
  alloc_dbg_grp-IsRegistered room =
      let a = aligned d.num_alloc_groups in
      elim (allocation trace_buf v s fits a.0 a.1) [
        | known i e run ↦
            rw run (record { valid = v; table = rw (e, register) refl; grows = omega arith })
        | refused e full run ↦ absurd (omega arith)
        | added g new e _ run ↦ rw run (record {
          valid = extended-IsDebugRt d s g v new fits room;
          table =
              rw (e, register)
                (ap₂ (λ x y. (x, y))
                  (sym (length-names grp_name d.num_alloc_groups d.debug_groups (omega (arith, v))))
                  (group_names-extended trace_buf v s fits a.0 a.1 g new room));
          grows = omega arith;
        })
      ]
