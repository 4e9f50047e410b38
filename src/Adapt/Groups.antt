-- ===== src/Adapt/Groups.antt =====
-- The groups of the C adapter: what RT_debug_init makes of its list of groups, in the process that creates
-- the memory and in those that attach to it.
use rt_debug_lib.Base.{
  ℕ, ◌+◌, ◌≤◌, ◌<◌, ◌≡◌, refl, ap, ap₂, sym, ◌∙◌, subst, true, some, List, [], ◌∷◌, length, arith,
  ok, Returns, Returns-result,
}
use rt_debug_lib.CString.{CStr}
use rt_debug_lib.Counters.{trace_string_size}
use rt_debug_lib.Registry.{register}
use rt_debug_lib.Registry.Sequence.{register_all, AreFound, register_all-AreFound}
use rt_debug_lib.DebugRt.{DebugRt, max_group_num, group_names, alloc_dbg_grp}
use rt_debug_lib.DebugRt.Laws.{IsDebugRt}
use rt_debug_lib.DebugRt.Init.{IsAligned}
use rt_debug_lib.DebugRt.Groups.{alloc_dbg_grp_known, alloc_dbg_grp-IsRegistered}
use rt_debug_lib.Handler.{Handler, rtdbg_alloc_rt_debug_group}
use rt_debug_lib.Adapt.{Buffers, alloc_groups}

-- Every name fits into its array.
abbrev pub AllShort : List CStr → Type 0
AllShort [] = Unit {0}
AllShort (s ∷ ss) = (length s < trace_string_size) × AllShort ss

abbrev with_shared : Handler → DebugRt → Handler
with_shared h d = record h { shared = d }

table_step :
    (s : CStr) (ss l : List CStr) {i : ℕ} {l1 : List CStr} {indexes : List ℕ} {l2 : List CStr}
    → (i, l1) ≡ register s l
    → (indexes, l2) ≡ register_all ss l1
    → (i ∷ indexes, l2) ≡ register_all (s ∷ ss) l
unfolding register_all
table_step s ss l e f =
    ap₂ (λ (x : ℕ) (y : List ℕ × List CStr). (x ∷ y.0, y.1)) (ap (λ p. p.0) e)
      (f ∙ ap (register_all ss) (ap (λ p. p.1) e))

module _ (buffers : Buffers) (aligned : IsAligned buffers.trace_buf) where
  -- What the list leaves of a process.
  pub record IsFilled (ss : List CStr) (h : Handler) (out : List ℕ × Handler) : Type 0 where
    pub valid : IsDebugRt out.1.shared
    pub table : (out.0, group_names out.1.shared) ≡ register_all ss (group_names h.shared)
    pub process : with_shared h out.1.shared ≡ out.1
    pub again : alloc_groups buffers ss out.1 ≡ ok out

  alloc_step :
      (s : CStr) (h : Handler) (i : ℕ) (d : DebugRt)
      → h.mem_attached ≡ true
      → alloc_dbg_grp buffers.trace_buf s h.shared ≡ ok (i, d)
      → rtdbg_alloc_rt_debug_group buffers.trace_buf s h ≡ ok (some i, with_shared h d)
  unfolding rtdbg_alloc_rt_debug_group
  alloc_step s h i d attached run = ground (arith, attached, run)

  -- Names that are found leave everything as it is.
  alloc_found :
      (ss : List CStr) (indexes : List ℕ) (h : Handler)
      → h.mem_attached ≡ true
      → IsDebugRt h.shared
      → AllShort ss
      → AreFound ss indexes (group_names h.shared)
      → alloc_groups buffers ss h ≡ ok (indexes, h)
  unfolding alloc_groups
  alloc_found [] [] h attached v short found = refl
  alloc_found [] (i ∷ indexes) h attached v short found = absurd found
  alloc_found (s ∷ ss) [] h attached v short found = absurd found
  alloc_found (s ∷ ss) (i ∷ indexes) h attached v short found =
      let first =
        alloc_step s h i h.shared attached
          (alloc_dbg_grp_known buffers.trace_buf aligned v s short.0 i found.0) in
      rw (first, alloc_found ss indexes h attached v short.1 found.1) refl

  fill :
      (ss : List CStr) (h : Handler)
      → h.mem_attached ≡ true
      → IsDebugRt h.shared
      → AllShort ss
      → h.shared.num_alloc_groups + length ss ≤ max_group_num
      → Returns (alloc_groups buffers ss h) λ out.
        IsDebugRt out.1.shared
        × ((out.0, group_names out.1.shared) ≡ register_all ss (group_names h.shared))
        × (with_shared h out.1.shared ≡ out.1)
  unfolding alloc_groups register_all
  fill [] h attached v short room = (v, refl, refl)
  fill (s ∷ ss) h attached v short room =
      let ((i, d), run, r) =
        Returns-result (alloc_dbg_grp buffers.trace_buf s h.shared) _
          (alloc_dbg_grp-IsRegistered buffers.trace_buf aligned v s short.0 (omega arith)) in
      let h1 = with_shared h d in
      let (out, run', (v', table, process)) =
        Returns-result (alloc_groups buffers ss h1) _
          (fill ss h1 attached r.valid short.1 (omega (arith, r.grows))) in
      rw (alloc_step s h i d attached run, run')
        (v', table_step s ss (group_names h.shared) r.table table, process)

  -- DEF_GROUP over the list of groups, in an attached process with a valid memory, whose groups in
  -- use have names below TRACE_STRING_SIZE, for names below TRACE_STRING_SIZE and buffers of the
  -- traces at aligned addresses, where the groups in use and the list are at most MAX_GROUP_NUM
  -- together: it never faults. The indices and the names in use are those that a table of names
  -- gives to the list, one name after another, the memory stays valid with such names, and nothing
  -- else of the process changes. The same list again, as in a process that attaches to the memory,
  -- gives the same indices and changes nothing.
  pub alloc_groups-IsFilled :
      (ss : List CStr) (h : Handler)
      → h.mem_attached ≡ true
      → IsDebugRt h.shared
      → AllShort ss
      → h.shared.num_alloc_groups + length ss ≤ max_group_num
      → Returns (alloc_groups buffers ss h) (IsFilled ss h)
  alloc_groups-IsFilled ss h attached v short room =
      let (out, run, (v', table, process)) =
        Returns-result (alloc_groups buffers ss h) _ (fill ss h attached v short room) in
      let l = group_names h.shared in
      let found : AreFound ss out.0 (group_names out.1.shared) =
        subst (λ (p : List ℕ × List CStr). AreFound ss p.0 p.1) (sym table)
          (register_all-AreFound ss l) in
      rw run (record {
        valid = v';
        table = table;
        process = process;
        again =
            alloc_found ss out.0 out.1
              (ap (λ (p : Handler). p.mem_attached) (sym process) ∙ attached) v' short found;
      })
