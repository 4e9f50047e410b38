-- ===== src/ProfilerGroup/Names.antt =====
-- RegistryProfileEntry: the profilers of a group as a table of names, and their new FIFOs.
pub mod Fed
pub mod Elsewhere
use native.Mathlib.Numerals.{add-one}
use rt_debug_lib.Base.{
  ℕ, ◌+◌, ◌%◌, ◌≤◌, ◌<◌, ◌≡◌, ◌≢◌, refl, ap, ◌∙◌, sym, ◌⊎◌, inl, inr, none, some, [], ◌∷◌, ◌++◌,
  length, get_elem?, set, arith, dec_lt, ok, err, Fault, map_ok, Returns, Returns_of_ok, ok-ne-err,
  Option-cases, length-set, get_elem?-some, get_elem?-set_cases, get_elem?-none,
}
use rt_debug_lib.CString.{CStr}
use rt_debug_lib.Registry.{
  index_from, to_search, register_within, scan_refines, scan, names, names-set_next, length-names,
}
use rt_debug_lib.Registry.Laws.{Distinct, Distinct-append, index_from-lt}
use rt_debug_lib.MemArea.{MemArea, mdo_name_size}
use rt_debug_lib.MemArea.Setup.{set_up_at, setup_run, mem_alloc_run, set_up_at-IsValid}
use rt_debug_lib.Profile.{ProfileData, profile_data_size}
use rt_debug_lib.Profile.Update.{IsProfFifo}
use rt_debug_lib.ProfilerGroup.{
  ProfilerGroup, prof_group_max, prof_fifo_size, fifo_name, prof_names, registry_profile_entry,
}

-- Every array element has its buffer; those in use are FIFOs of this process.
pub record IsProfGroup (buf_address : ℕ → ℕ) (g : ProfilerGroup) : Type 0 where
  pub array : length g.prof_fifo ≡ prof_group_max
  pub few : g.num_alloc_prof ≤ prof_group_max
  pub distinct : Distinct (prof_names g)
  pub buffers :
      (i : ℕ) (m : MemArea ProfileData)
      → get_elem? g.prof_fifo i ≡ some m
      → prof_fifo_size ≤ length m.buf
  pub fifos :
      (i : ℕ) (m : MemArea ProfileData)
      → get_elem? g.prof_fifo i ≡ some m
      → i < g.num_alloc_prof
      → IsProfFifo (buf_address i) m

-- The FIFO that Setup and MemAlloc make of an element.
abbrev pub fresh : CStr → ℕ → MemArea ProfileData → MemArea ProfileData
fresh = set_up_at profile_data_size prof_fifo_size

pub fresh-IsProfFifo :
    (s : CStr) (address : ℕ) (m : MemArea ProfileData)
    → length s < mdo_name_size
    → prof_fifo_size ≤ length m.buf
    → IsProfFifo address (fresh s address m)
fresh-IsProfFifo s address m fits room = record {
  valid =
      (set_up_at-IsValid profile_data_size prof_fifo_size s address m fits (omega arith)
        (omega arith) (omega arith) (omega arith) (omega arith) room).0;
  producer = refl;
  consumer = refl;
}

abbrev pub extended : (ℕ → ℕ) → CStr → ProfilerGroup → MemArea ProfileData → ProfilerGroup
extended buf_address s g m =
    let i = g.num_alloc_prof in
    record g { prof_fifo = set g.prof_fifo i (fresh s (buf_address i) m); num_alloc_prof = i + 1 }

module _ (buf_address : ℕ → ℕ) {g : ProfilerGroup} (v : IsProfGroup buf_address g) (s : CStr) where
  scan_names :
      scan fifo_name s g.num_alloc_prof g.prof_fifo 0 ≡ to_search (index_from s (prof_names g) 0)
  scan_names = scan_refines fifo_name s g.num_alloc_prof g.prof_fifo 0 (omega (arith, v))

  length-prof_names : length (prof_names g) ≡ g.num_alloc_prof
  length-prof_names = length-names fifo_name g.num_alloc_prof g.prof_fifo (omega (arith, v))

  pub prof_names-extended :
      (m : MemArea ProfileData)
      → g.num_alloc_prof < prof_group_max
      → prof_names (extended buf_address s g m) ≡ prof_names g ++ s ∷ []
  prof_names-extended m room =
      ap (λ k. names fifo_name k (extended buf_address s g m).prof_fifo) (add-one _)
      ∙ names-set_next fifo_name g.num_alloc_prof g.prof_fifo _ (omega (arith, v))

  module _ (fits : length s < mdo_name_size) (some_address : buf_address g.num_alloc_prof ≢ 0)
      (aligned : buf_address g.num_alloc_prof % 8 ≡ 0) where
    -- The three ways in which a call ends.
    data Registration : Type 0 where
      known :
          (i : ℕ)
          → index_from s (prof_names g) 0 ≡ some i
          → registry_profile_entry buf_address s g ≡ ok (i, g)
          → Registration
      added :
          (m : MemArea ProfileData)
          → get_elem? g.prof_fifo g.num_alloc_prof ≡ some m
          → index_from s (prof_names g) 0 ≡ none
          → g.num_alloc_prof < prof_group_max
          → registry_profile_entry buf_address s g
            ≡ ok (g.num_alloc_prof, extended buf_address s g m)
          → Registration
      overrun :
          index_from s (prof_names g) 0 ≡ none
          → g.num_alloc_prof ≡ prof_group_max
          → registry_profile_entry buf_address s g ≡ err Fault.out_of_bounds
          → Registration

    pub added_run :
        (m : MemArea ProfileData)
        → get_elem? g.prof_fifo g.num_alloc_prof ≡ some m
        → index_from s (prof_names g) 0 ≡ none
        → g.num_alloc_prof < prof_group_max
        → registry_profile_entry buf_address s g ≡ ok (g.num_alloc_prof, extended buf_address s g m)
    unfolding registry_profile_entry
    added_run m here e room = ground (
      arith,
      scan_names,
      e,
      here,
      setup_run profile_data_size prof_fifo_size s m fits,
      mem_alloc_run profile_data_size prof_fifo_size s (buf_address g.num_alloc_prof) m some_address
          aligned,
    )

    registration : Registration
    unfolding registry_profile_entry
    registration = elim (Option-cases (index_from s (prof_names g) 0)) [
      | inr (i, e) ↦ known i e (ground (arith, v, scan_names, e))
      | inl e ↦ elim (dec_lt g.num_alloc_prof prof_group_max) [
        | no full ↦
            overrun e (omega (arith, v))
              (ground (arith, v, scan_names, e, get_elem?-none g.prof_fifo g.num_alloc_prof))
        | yes room ↦
            let (m, here) = get_elem?-some g.prof_fifo g.num_alloc_prof (omega (arith, v)) in
            added m here e room (added_run m here e room)
      ]
    ]

    refines_on :
        Registration
        → map_ok
            (λ (out : ℕ × ProfilerGroup). (out.0, prof_names out.1))
            (registry_profile_entry buf_address s g)
          ≡ register_within Fault.out_of_bounds prof_group_max s (prof_names g)
    unfolding register_within
    refines_on (known i e run) = rw (run, e, register_within)
    refines_on (added m here e room run) =
        rw (run, e, register_within) (ground (arith, length-prof_names, prof_names-extended m room))
    refines_on (overrun e full run) =
        rw (run, e, register_within) (ground (arith, length-prof_names))

    -- RegistryProfileEntry on a valid group, for a name below MDO_NAME_SIZE and a next buffer at a non-zero address
    -- that is a multiple of 8: the index of an equal name, or else a new entry at the end. Where all
    -- PROF_GROUP_MAX entries are in use the ASSERT lets the call pass, and it writes behind the array.
    pub registry_refines :
        map_ok
          (λ (out : ℕ × ProfilerGroup). (out.0, prof_names out.1))
          (registry_profile_entry buf_address s g)
        ≡ register_within Fault.out_of_bounds prof_group_max s (prof_names g)
    registry_refines = refines_on registration

    extended-fifo :
        (m : MemArea ProfileData)
        → get_elem? g.prof_fifo g.num_alloc_prof ≡ some m
        → g.num_alloc_prof < prof_group_max
        → (i : ℕ) (n : MemArea ProfileData)
        → get_elem? (extended buf_address s g m).prof_fifo i ≡ some n
        → ((i ≡ g.num_alloc_prof) × (n ≡ fresh s (buf_address i) m))
          ⊎ ((i ≢ g.num_alloc_prof) × (get_elem? g.prof_fifo i ≡ some n))
    extended-fifo m here room i n at =
        elim (get_elem?-set_cases g.prof_fifo g.num_alloc_prof i _ n at) [
          | inl (q, r) ↦ inl (q, r ∙ ap (λ k. fresh s (buf_address k) m) (sym q))
          | inr old ↦ inr old
        ]

    pub added-IsProfGroup :
        (m : MemArea ProfileData)
        → get_elem? g.prof_fifo g.num_alloc_prof ≡ some m
        → index_from s (prof_names g) 0 ≡ none
        → g.num_alloc_prof < prof_group_max
        → IsProfGroup buf_address (extended buf_address s g m)
    added-IsProfGroup m here e room = record {
      array = length-set g.prof_fifo g.num_alloc_prof _ ∙ v.array;
      few = omega arith;
      distinct = rw (prof_names-extended m room) (Distinct-append s (prof_names g) e v.distinct);
      buffers = λ i n at. elim (extended-fifo m here room i n at) [
        | inl (q, r) ↦ rw r (v.buffers g.num_alloc_prof m here)
        | inr (q, old) ↦ v.buffers i n old
      ];
      fifos = λ i n at below. elim (extended-fifo m here room i n at) [
        | inl (q, r) ↦
            rw r (fresh-IsProfFifo s (buf_address i) m fits (v.buffers g.num_alloc_prof m here))
        | inr (q, old) ↦ v.fifos i n old (omega (arith, q))
      ];
    }

    -- Whatever RegistryProfileEntry returns on a valid group, for a name below MDO_NAME_SIZE and a next
    -- buffer at an address other than 0 that is a multiple of 8, is a valid group with the index among
    -- its entries.
    pub registry-IsProfGroup :
        (out : ℕ × ProfilerGroup)
        → registry_profile_entry buf_address s g ≡ ok out
        → IsProfGroup buf_address out.1 × (out.0 < out.1.num_alloc_prof)
    registry-IsProfGroup out e = elim registration [
      | known i found run ↦
          Returns_of_ok Kept run e
            (v, omega (arith, index_from-lt s (prof_names g) i found, length-prof_names))
      | added m here new room run ↦
          Returns_of_ok Kept run e (added-IsProfGroup m here new room, omega arith)
      | overrun new full run ↦ absurd (ok-ne-err run e)
    ]
      where
        Kept : ℕ × ProfilerGroup → Type 0
        Kept out = IsProfGroup buf_address out.1 × (out.0 < out.1.num_alloc_prof)

    pub registry_returns :
        g.num_alloc_prof < prof_group_max
        → Returns (registry_profile_entry buf_address s g) λ out. IsProfGroup buf_address out.1
    registry_returns room = elim registration [
      | known i found run ↦ rw run v
      | added m here new room' run ↦ rw run (added-IsProfGroup m here new room')
      | overrun new full run ↦ absurd (omega arith)
    ]
