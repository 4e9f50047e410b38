-- ===== src/Counters/Laws.antt =====
-- The event counters as a table of names: AllocCnt, Get_counter and Reset of CRT_counter_grp.
use native.Mathlib.Numerals.{add-one}
use rt_debug_lib.Base.{
  ℕ, ◌+◌, ◌-◌, ◌^◌, ◌≤◌, ◌<◌, ◌≡◌, refl, true, false, ◌↔◌, ◌⊎◌, inl, inr, none, some, [], ◌∷◌, ◌++◌,
  map, map-map, ap, ◌∙◌, length, get_elem?, set, arith, ok, err, Fault, map_ok, map-set_same,
  Returns, Returns_of_ok, ok-ne-err, Option-cases, length-map, length-set, dec_lt, get_elem?-some,
}
use rt_debug_lib.CString.{CStr}
use rt_debug_lib.Registry.{
  index_from, to_search, register_within, scan_refines, scan, names, names-set_next, length-names,
}
use rt_debug_lib.Registry.Laws.{Distinct, Distinct-append, index_from-lt}
use rt_debug_lib.Counters.{
  RtCounter, RtCounterGrp, num_counters, trace_string_size, reset, alloc_cnt, get_counter,
  cnt_names,
}

pub record IsValid (c : RtCounterGrp) : Type 0 where
  pub array : length c.rt_counters ≡ num_counters
  pub few : c.num_alloc_counters < num_counters
  pub distinct : Distinct (cnt_names c)

-- The entry that a new name takes.
abbrev pub extended : CStr → RtCounterGrp → RtCounter → RtCounterGrp
extended s c entry = record c {
  rt_counters = set c.rt_counters c.num_alloc_counters (record entry { cnt_name = s });
  num_alloc_counters = c.num_alloc_counters + 1;
}

module _ {c : RtCounterGrp} (v : IsValid c) (s : CStr) where
  scan_names :
      scan (λ (r : RtCounter). r.cnt_name) s c.num_alloc_counters c.rt_counters 0
      ≡ to_search (index_from s (cnt_names c) 0)
  scan_names =
      scan_refines (λ (r : RtCounter). r.cnt_name) s c.num_alloc_counters c.rt_counters 0
        (omega (arith, v))

  cnt_names-extended : (entry : RtCounter) → cnt_names (extended s c entry) ≡ cnt_names c ++ s ∷ []
  cnt_names-extended entry =
      ap (λ k. names (λ (r : RtCounter). r.cnt_name) k (extended s c entry).rt_counters) (add-one _)
      ∙ names-set_next (λ (r : RtCounter). r.cnt_name) c.num_alloc_counters c.rt_counters _
          (omega (arith, v))

  length-cnt_names : length (cnt_names c) ≡ c.num_alloc_counters
  length-cnt_names =
      length-names (λ (r : RtCounter). r.cnt_name) c.num_alloc_counters c.rt_counters
        (omega (arith, v))

  -- The three ways in which a call ends.
  data Allocation : Type 0 where
    known : (i : ℕ) → index_from s (cnt_names c) 0 ≡ some i → alloc_cnt s c ≡ ok (i, c) → Allocation
    added :
        (entry : RtCounter)
        → get_elem? c.rt_counters c.num_alloc_counters ≡ some entry
        → index_from s (cnt_names c) 0 ≡ none
        → c.num_alloc_counters < num_counters - 1
        → alloc_cnt s c ≡ ok (c.num_alloc_counters, extended s c entry)
        → Allocation
    refused :
        index_from s (cnt_names c) 0 ≡ none
        → (trace_string_size ≤ length s) ⊎ (num_counters - 1 ≤ c.num_alloc_counters)
        → alloc_cnt s c ≡ err Fault.assert_failed
        → Allocation

  allocation : Allocation
  unfolding alloc_cnt
  allocation = elim (Option-cases (index_from s (cnt_names c) 0)) [
    | inr (i, e) ↦ known i e (ground (arith, scan_names, e))
    | inl e ↦ elim (dec_lt c.num_alloc_counters (num_counters - 1)) [
      | no full ↦ refused e (inr (omega arith)) (ground (arith, scan_names, e))
      | yes room ↦ elim (dec_lt (length s) trace_string_size) [
        | no long ↦ refused e (inl (omega arith)) (ground (arith, scan_names, e))
        | yes fits ↦
            let (entry, here) =
              get_elem?-some c.rt_counters c.num_alloc_counters (omega (arith, v)) in
            added entry here e room (ground (arith, scan_names, e, here))
      ]
    ]
  ]

  refines_on :
      length s < trace_string_size
      → Allocation
      → map_ok (λ (out : ℕ × RtCounterGrp). (out.0, cnt_names out.1)) (alloc_cnt s c)
        ≡ register_within Fault.assert_failed (num_counters - 1) s (cnt_names c)
  unfolding register_within
  refines_on fits (known i e run) = rw (run, e, register_within)
  refines_on fits (added entry here e room run) =
      rw (run, e, register_within) (ground (arith, length-cnt_names, cnt_names-extended entry))
  refines_on fits (refused e why run) =
      rw (run, e, register_within) (ground (arith, length-cnt_names))

  -- AllocCnt on a valid group, for a name that fits: the index of an equal name, or else a new entry
  -- at the end while fewer than NUM_COUNTERS - 1 are in use, and an abort after that.
  pub alloc_cnt_refines :
      length s < trace_string_size
      → map_ok (λ (out : ℕ × RtCounterGrp). (out.0, cnt_names out.1)) (alloc_cnt s c)
        ≡ register_within Fault.assert_failed (num_counters - 1) s (cnt_names c)
  alloc_cnt_refines fits = refines_on fits allocation

  -- A valid group, a handle that Get_counter accepts, and the values as they were.
  pub record IsAllocated (out : ℕ × RtCounterGrp) : Type 0 where
    pub valid : IsValid out.1
    pub handle : out.0 < out.1.num_alloc_counters
    pub reachable : get_counter out.0 out.1 ≡ ok out.0
    pub values :
        map (λ (r : RtCounter). r.val) out.1.rt_counters
        ≡ map (λ (r : RtCounter). r.val) c.rt_counters

  get_counter_below : (i : ℕ) (d : RtCounterGrp) → i < d.num_alloc_counters → get_counter i d ≡ ok i
  unfolding get_counter
  get_counter_below i d h = ground arith

  known-IsAllocated : (i : ℕ) → index_from s (cnt_names c) 0 ≡ some i → IsAllocated (i, c)
  known-IsAllocated i e = record {
    valid = v;
    handle = omega (arith, index_from-lt s (cnt_names c) i e, length-cnt_names);
    reachable = get_counter_below i c handle;
    values = refl;
  }
    where
      handle : i < c.num_alloc_counters
      handle = omega (arith, index_from-lt s (cnt_names c) i e, length-cnt_names)

  added-IsAllocated :
      (entry : RtCounter)
      → get_elem? c.rt_counters c.num_alloc_counters ≡ some entry
      → index_from s (cnt_names c) 0 ≡ none
      → c.num_alloc_counters < num_counters - 1
      → IsAllocated (c.num_alloc_counters, extended s c entry)
  added-IsAllocated entry here e room = record {
    valid = record {
      array = length-set c.rt_counters c.num_alloc_counters _ ∙ v.array;
      few = omega arith;
      distinct = rw (cnt_names-extended entry) (Distinct-append s (cnt_names c) e v.distinct);
    };
    handle = omega arith;
    reachable = get_counter_below c.num_alloc_counters (extended s c entry) (omega arith);
    values =
        map-set_same (λ (r : RtCounter). r.val) c.rt_counters c.num_alloc_counters entry _ here
          refl;
  }

  -- Whatever AllocCnt returns on a valid group is a valid group again, with a handle that Get_counter
  -- accepts and that lies among the counters in use, and no counter's value has changed.
  pub alloc_cnt-IsAllocated : (out : ℕ × RtCounterGrp) → alloc_cnt s c ≡ ok out → IsAllocated out
  alloc_cnt-IsAllocated out e = elim allocation [
    | known i found run ↦ Returns_of_ok IsAllocated run e (known-IsAllocated i found)
    | added entry here new room run ↦
        Returns_of_ok IsAllocated run e (added-IsAllocated entry here new room)
    | refused new why run ↦ absurd (ok-ne-err run e)
  ]

  -- AllocCnt returns for a name that fits while fewer than NUM_COUNTERS - 1 are in use.
  pub alloc_cnt_returns :
      length s < trace_string_size
      → c.num_alloc_counters < num_counters - 1
      → Returns (alloc_cnt s c) IsAllocated
  alloc_cnt_returns fits room = elim allocation [
    | known i found run ↦ rw run (known-IsAllocated i found)
    | added entry here new room run ↦ rw run (added-IsAllocated entry here new room)
    | refused new why run ↦ elim why [
      | inl long ↦ absurd (omega arith)
      | inr full ↦ absurd (omega arith)
    ]
  ]

-- Get_counter's test lets exactly one index pass that no counter has: the first one not in use.
pub get_counter_accepts :
    (c : RtCounterGrp) (i : ℕ)
    → (get_counter i c ≡ ok i) ↔ ((i < c.num_alloc_counters) ⊎ (i ≡ c.num_alloc_counters))
unfolding get_counter
get_counter_accepts c i = (λ h. ground arith, λ h. ground arith)

-- Reset(false) leaves a valid group with no counter, all values at -1 and no name; Reset(true)
-- leaves the group as it is.
pub reset-IsValid :
    (c : RtCounterGrp)
    → length c.rt_counters ≡ num_counters
    → IsValid (reset false c)
      × (cnt_names (reset false c) ≡ [])
      × (map (λ (r : RtCounter). r.val) (reset false c).rt_counters
          ≡ map (λ _. 2 ^ 64 - 1) c.rt_counters)
      × ((reset false c).group_name ≡ [])
      × (reset true c ≡ c)
unfolding reset
reset-IsValid c array = (
  record { array = length-map _ c.rt_counters ∙ array; few = omega arith; distinct = tt },
  refl,
  map-map _ _ c.rt_counters,
  refl,
  refl,
)
