-- ===== src/Handler/Extract/Counts.antt =====
-- The event counters that RTDBG_ExtractDebugData prints, and when it prints nothing.
use rt_debug_lib.Base.{
  ℕ, zero, suc, ◌+◌, ◌≤◌, ◌<◌, ◌≡◌, ◌⊎◌, inl, inr, refl, ap, ◌∙◌, Bool, if◌then◌else◌, true, false,
  none, some, List, [], ◌∷◌, ◌++◌, map, length, get_elem?, take, drop, arith, ok, err, Fault,
  get_elem?-some,
}
use mathlib.Core.Option.{some-injective, none-ne-some}
use rt_debug_lib.CString.{CStr}
use rt_debug_lib.Clock.{Timespec}
use rt_debug_lib.Counters.{RtCounter, RtCounterGrp, trace_string_size, get_counter}
use rt_debug_lib.Tracer.{Printf}
use rt_debug_lib.DebugRt.{DebugRt, GroupDebugRt, get_debug_grp, get_grp_name}
use rt_debug_lib.Handler.{Handler}
use rt_debug_lib.Handler.Extract.{
  grp_name_size, counter_line, counter_lines, event_counters, is_running_producer,
  rtdbg_extract_debug_data,
}

-- The lines of a group, and of several groups.
abbrev pub group_lines : GroupDebugRt → List CStr
group_lines g =
    let c = g.event_counters in
    map (counter_line g.group_name) (take c.num_alloc_counters c.rt_counters)

abbrev pub all_lines : List GroupDebugRt → List CStr
all_lines [] = []
all_lines (g ∷ gs) = group_lines g ++ all_lines gs

-- The counters in use stand in the array, and their names are C strings in their arrays.
pub record IsPrintable (g : GroupDebugRt) : Type 0 where
  pub room : g.event_counters.num_alloc_counters ≤ length g.event_counters.rt_counters
  pub named :
      (i : ℕ) (c : RtCounter)
      → get_elem? g.event_counters.rt_counters i ≡ some c
      → length c.cnt_name < trace_string_size
  pub short : length g.group_name < grp_name_size

pub drop-front {ℓ} :
    {A : Type ℓ} (xs : List A) (i : ℕ) (x : A)
    → get_elem? xs i ≡ some x
    → drop i xs ≡ x ∷ drop (i + 1) xs
drop-front [] i x e = absurd (none-ne-some x e)
drop-front (y ∷ ys) zero x e = ap (λ z. z ∷ ys) (some-injective y x e)
drop-front (y ∷ ys) (suc i) x e =
    let next : suc (i + 1) ≡ suc i + 1 = omega arith in
    drop-front ys i x e ∙ ap (λ k. x ∷ drop k (y ∷ ys)) next

module _ (grp_name : CStr) (c : RtCounterGrp)
    (named : (i : ℕ) (x : RtCounter)
      → get_elem? c.rt_counters i ≡ some x
      → length x.cnt_name < trace_string_size)
    (room : c.num_alloc_counters ≤ length c.rt_counters) where
  counter_lines_lem :
      (n j : ℕ)
      → j + n ≤ c.num_alloc_counters
      → counter_lines grp_name c n j
        ≡ ok (map (counter_line grp_name) (take n (drop j c.rt_counters)))
  unfolding counter_lines get_counter
  counter_lines_lem zero j h = refl
  counter_lines_lem (suc n) j h =
      let (x, here) = get_elem?-some c.rt_counters j (omega (arith, room)) in
      let rest = counter_lines_lem n (j + 1) (omega arith) in
      ground (arith, here, rest, named j x here, drop-front c.rt_counters j x here)

module _ (d : DebugRt) (array : d.num_alloc_groups ≤ length d.debug_groups)
    (printable : (i : ℕ) (g : GroupDebugRt)
      → i < d.num_alloc_groups
      → get_elem? d.debug_groups i ≡ some g
      → IsPrintable g) where
  event_counters_from :
      (n i : ℕ)
      → i + n ≤ d.num_alloc_groups
      → event_counters d n i ≡ ok (all_lines (take n (drop i d.debug_groups)))
  unfolding event_counters get_debug_grp get_grp_name
  event_counters_from zero i h = refl
  event_counters_from (suc n) i h =
      let (g, here) = get_elem?-some d.debug_groups i (omega (arith, array)) in
      let p = printable i g (omega arith) here in
      let c = g.event_counters in
      let lines =
        counter_lines_lem g.group_name c p.named p.room c.num_alloc_counters 0 (omega arith) in
      let rest = event_counters_from n (i + 1) (omega arith) in
      ground (arith, here, rest, lines, p.short, drop-front d.debug_groups i g here)

  -- The event counters that RTDBG_ExtractDebugData prints, for a memory whose groups in use stand in
  -- the array, with names below the 100 bytes of its buffer and with their counters in their arrays
  -- under names that are C strings: it never faults, and prints a line for every counter in use of
  -- every group in use and no other, in the order of the groups and then of the counters.
  pub event_counters_lem :
      event_counters d d.num_alloc_groups 0
      ≡ ok (all_lines (take d.num_alloc_groups d.debug_groups))
  event_counters_lem = event_counters_from d.num_alloc_groups 0 (omega arith)

first_overflows :
    (d : DebugRt) (n : ℕ) (g : GroupDebugRt)
    → 0 < n
    → 0 < d.num_alloc_groups
    → get_elem? d.debug_groups 0 ≡ some g
    → grp_name_size ≤ length g.group_name
    → length g.group_name < trace_string_size
    → event_counters d n 0 ≡ err Fault.out_of_bounds
unfolding event_counters get_debug_grp get_grp_name
first_overflows d zero g some_round some_group here long ends = absurd (omega arith)
first_overflows d (suc n) g some_round some_group here long ends =
    ground (arith, some_group, here, long, ends)

module _ (fuel : ℕ) (printf : Printf) (min_time : ℕ → Timespec) (now : ℕ → ℕ → Timespec)
    (log_time : ℕ → Timespec) (h : Handler) where
  -- RTDBG_ExtractDebugData where the file does not open, or in a process whose status is that of a
  -- producer that runs: an attached process aborts, and any other returns false and changes nothing.
  pub extract_refuses :
      (opened : Bool)
      → (opened ≡ false) ⊎ (is_running_producer h.status ≡ true)
      → rtdbg_extract_debug_data opened fuel printf min_time now log_time h
        ≡ (if h.mem_attached then err Fault.assert_failed else ok (none, h))
  unfolding rtdbg_extract_debug_data
  extract_refuses opened (inl g) = ground (arith, g)
  extract_refuses opened (inr g) = ground (arith, g)

  -- RTDBG_ExtractDebugData in an attached process that is not a running producer, where the file opens
  -- and the first group has a name of 100 bytes or more, which is a C string in its own array of 128 bytes: it
  -- copies the name behind the end of grp_name.
  pub extract_overflows :
      (g : GroupDebugRt)
      → h.mem_attached ≡ true
      → is_running_producer h.status ≡ false
      → 0 < h.shared.num_alloc_groups
      → get_elem? h.shared.debug_groups 0 ≡ some g
      → grp_name_size ≤ length g.group_name
      → length g.group_name < trace_string_size
      → rtdbg_extract_debug_data true fuel printf min_time now log_time h ≡ err Fault.out_of_bounds
  unfolding rtdbg_extract_debug_data
  extract_overflows g attached stopped some_group here long ends =
      let first =
        first_overflows h.shared h.shared.num_alloc_groups g some_group some_group here long ends in
      ground (arith, attached, stopped, first)
