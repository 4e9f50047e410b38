-- ===== src/DebugRt/Laws.antt =====
-- AllocDbgGrp: the groups as a table of names, and what a new group is.
use rt_debug_lib.DebugRt.New.{HasArrays, IsNew, init_group-IsNew}
use native.Mathlib.Numerals.{add-one}
use rt_debug_lib.Base.{
  ℕ, zero, suc, ◌+◌, ◌%◌, ◌≤◌, ◌<◌, ◌≡◌, ◌≢◌, refl, ap, ◌∙◌, none, some, List, [], ◌∷◌, ◌++◌,
  length, get_elem?, set, arith, dec_lt, ok, err, Fault, map_ok, Returns, Returns-result, inl, inr,
  Option-cases, get_elem?-some, get_elem?-set_self,
}
use rt_debug_lib.CString.{CStr}
use rt_debug_lib.Registry.{index_from, register_within, names, names-set_next, length-names}
use rt_debug_lib.Counters.{trace_string_size}
use rt_debug_lib.DebugRt.{
  GroupDebugRt, DebugRt, max_group_num, grp_name, group_names, init_group, get_grp_name, find_group,
  alloc_dbg_grp,
}

-- The first `n` groups have names that end within their arrays.
abbrev pub AreNamed : ℕ → List GroupDebugRt → Type 0
AreNamed n gs =
    (i : ℕ) (g : GroupDebugRt)
    → i < n
    → get_elem? gs i ≡ some g
    → length g.group_name < trace_string_size

-- The memory has its groups with their arrays, and the names of those in use are C strings.
pub record IsDebugRt (d : DebugRt) : Type 0 where
  pub array : length d.debug_groups ≡ max_group_num
  pub few : d.num_alloc_groups ≤ max_group_num
  pub arrays : (i : ℕ) (g : GroupDebugRt) → get_elem? d.debug_groups i ≡ some g → HasArrays g
  pub named : AreNamed d.num_alloc_groups d.debug_groups

-- The loop of AllocDbgGrp ends at the first group of that name.
find_group_refines :
    (s : CStr) (n : ℕ) (gs : List GroupDebugRt) (i : ℕ)
    → n ≤ length gs
    → AreNamed n gs
    → find_group s n gs i ≡ ok (index_from s (names grp_name n gs) i)
unfolding find_group get_grp_name index_from
find_group_refines s zero gs i h named = refl
find_group_refines s (suc n) [] i h named = elim h [ ]
find_group_refines s (suc n) (g ∷ gs) i h named =
    let short = named 0 g (omega arith) refl in
    let rest =
      find_group_refines s n gs (i + 1) (omega arith)
        (λ j b lt at. named (suc j) b (omega arith) at) in
    ground (arith, short, rest)

abbrev pub extended : DebugRt → GroupDebugRt → DebugRt
extended d g = record d {
  num_alloc_groups = d.num_alloc_groups + 1;
  debug_groups = set d.debug_groups d.num_alloc_groups g;
}

module _ (trace_buf : ℕ → ℕ) {d : DebugRt} (v : IsDebugRt d) (s : CStr)
    (fits : length s < trace_string_size) (some_address : trace_buf d.num_alloc_groups ≢ 0)
    (aligned : trace_buf d.num_alloc_groups % 8 ≡ 0) where
  pub find_names :
      find_group s d.num_alloc_groups d.debug_groups 0 ≡ ok (index_from s (group_names d) 0)
  find_names = find_group_refines s d.num_alloc_groups d.debug_groups 0 (omega (arith, v)) v.named

  length-group_names : length (group_names d) ≡ d.num_alloc_groups
  length-group_names = length-names grp_name d.num_alloc_groups d.debug_groups (omega (arith, v))

  -- The three ways in which a call ends.
  pub data Allocation : Type 0 where
    known :
        (i : ℕ)
        → index_from s (group_names d) 0 ≡ some i
        → alloc_dbg_grp trace_buf s d ≡ ok (i, d)
        → Allocation
    added :
        (g : GroupDebugRt)
        → IsNew s g
        → index_from s (group_names d) 0 ≡ none
        → d.num_alloc_groups < max_group_num
        → alloc_dbg_grp trace_buf s d ≡ ok (d.num_alloc_groups, extended d g)
        → Allocation
    refused :
        index_from s (group_names d) 0 ≡ none
        → d.num_alloc_groups ≡ max_group_num
        → alloc_dbg_grp trace_buf s d ≡ err Fault.assert_failed
        → Allocation

  pub allocation : Allocation
  unfolding alloc_dbg_grp
  allocation = elim (Option-cases (index_from s (group_names d) 0)) [
    | inr (i, e) ↦ known i e (ground (arith, find_names, e))
    | inl e ↦ elim (dec_lt d.num_alloc_groups max_group_num) [
      | no full ↦ refused e (omega (arith, v)) (ground (arith, v, find_names, e))
      | yes room ↦
          let (g, here) = get_elem?-some d.debug_groups d.num_alloc_groups (omega (arith, v)) in
          let (g', run, new) = Returns-result (init_group (trace_buf d.num_alloc_groups) s g) _ (
            init_group-IsNew (trace_buf d.num_alloc_groups) s g (v.arrays d.num_alloc_groups g here)
              fits some_address aligned) in
          added g' new e room (ground (arith, find_names, e, here, run))
    ]
  ]

  pub group_names-extended :
      (g : GroupDebugRt)
      → IsNew s g
      → d.num_alloc_groups < max_group_num
      → group_names (extended d g) ≡ group_names d ++ s ∷ []
  group_names-extended g new room =
      ap (λ k. names grp_name k (extended d g).debug_groups) (add-one _)
      ∙ names-set_next grp_name d.num_alloc_groups d.debug_groups g (omega (arith, v))
      ∙ ap (λ n. group_names d ++ n ∷ []) new.named

  refines_on :
      Allocation
      → map_ok (λ (out : ℕ × DebugRt). (out.0, group_names out.1)) (alloc_dbg_grp trace_buf s d)
        ≡ register_within Fault.assert_failed max_group_num s (group_names d)
  unfolding register_within
  refines_on (known i e run) = rw (run, e, register_within)
  refines_on (added g new e room run) =
      rw (run, e, register_within)
        (ground (arith, length-group_names, group_names-extended g new room))
  refines_on (refused e full run) =
      rw (run, e, register_within) (ground (arith, length-group_names))

  -- AllocDbgGrp on the shared memory with its arrays, whose groups in use have names below
  -- TRACE_STRING_SIZE, for a name below TRACE_STRING_SIZE and a trace buffer of the next group at
  -- an address other than 0 that is a multiple of 8: the index of an equal name, or else a new
  -- group at the end, and an abort where MAX_GROUP_NUM groups are in use.
  pub alloc_dbg_grp_refines :
      map_ok (λ (out : ℕ × DebugRt). (out.0, group_names out.1)) (alloc_dbg_grp trace_buf s d)
      ≡ register_within Fault.assert_failed max_group_num s (group_names d)
  alloc_dbg_grp_refines = refines_on allocation

  -- AllocDbgGrp on the shared memory with its arrays, for a name below TRACE_STRING_SIZE that no
  -- group has, while fewer than MAX_GROUP_NUM are in use, and for a trace buffer of the next group at
  -- an address other than 0 that is a multiple of 8: it returns, and the name gets a new group at the index returned, and every other group stays as it was.
  pub alloc_dbg_grp-IsNew :
      index_from s (group_names d) 0 ≡ none
      → d.num_alloc_groups < max_group_num
      → Returns (alloc_dbg_grp trace_buf s d) λ (i, d').
        (i ≡ d.num_alloc_groups)
        × (d'.num_alloc_groups ≡ d.num_alloc_groups + 1)
        × ((g : GroupDebugRt) × IsNew s g
            × (d'.debug_groups ≡ set d.debug_groups i g)
            × (get_elem? d'.debug_groups i ≡ some g))
  alloc_dbg_grp-IsNew none_so_far room = elim allocation [
    | known i e run ↦ cc
    | refused e full run ↦ absurd (omega arith)
    | added g new e _ run ↦ rw run (
      refl,
      refl,
      (g, new, refl, get_elem?-set_self d.debug_groups d.num_alloc_groups g (omega (arith, v))),
    )
  ]
