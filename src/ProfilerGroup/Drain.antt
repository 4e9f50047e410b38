-- ===== src/ProfilerGroup/Drain.antt =====
-- GetProfInfo: the summary of all that the points of one profiler have handed on.
use rt_debug_lib.Base.{
  ℕ, suc, ◌+◌, ◌*◌, ◌/◌, ◌<◌, ◌≡◌, zero, refl, ap, ap₂, ◌∙◌, inl, inr, Bool, true, false, ◌||◌,
  Option, none, some, List, [], ◌∷◌, length, set, get_elem?, ltb, ◌==◌, if◌then◌else◌, arith, ok,
  Returns, Returns-result, u64_mod,
}
use rt_debug_lib.CString.{CStr}
use rt_debug_lib.MemArea.{MemArea, mdo_name_size}
use rt_debug_lib.MemArea.Invariant.{IsValid}
use rt_debug_lib.MemArea.Refine.{contents, popped, pop_cases, used-le, length-contents}
use rt_debug_lib.Profile.{ProfileData, profile_data_size, reset_data}
use rt_debug_lib.ProfilerGroup.{ProfilerGroup, merge, drain, get_prof_info}

-- What the entries say together: the measurements, their sum (by the averages), the last value.
abbrev pub count_all : List ProfileData → ℕ
count_all [] = 0
count_all (d ∷ ds) = d.meas_num + count_all ds

abbrev pub total : List ProfileData → ℕ
total [] = 0
total (d ∷ ds) = d.average_cnt * d.meas_num + total ds

abbrev pub greatest : List ProfileData → ℕ
greatest [] = 0
greatest (d ∷ ds) = if ltb d.max_cnt (greatest ds) then greatest ds else d.max_cnt

-- Every entry stands for some measurement, as those of Update do.
abbrev pub AllMeasured : List ProfileData → Type 0
AllMeasured [] = Unit {0}
AllMeasured (d ∷ ds) = (0 < d.meas_num) × AllMeasured ds

abbrev last_of : ℕ → List ProfileData → ℕ
last_of l [] = l
last_of l (d ∷ ds) = last_of d.last_cnt ds

-- What the loop adds to `cnt`.
pub record IsSummary (cnt : ProfileData) (ds : List ProfileData) (out : ProfileData) : Type 0 where
  pub count : out.meas_num ≡ cnt.meas_num + count_all ds
  pub sum : out.average_cnt ≡ cnt.average_cnt + total ds
  pub most : out.max_cnt ≡ (if ltb cnt.max_cnt (greatest ds) then greatest ds else cnt.max_cnt)
  pub last : out.last_cnt ≡ last_of cnt.last_cnt ds

abbrev non_empty : List ProfileData → Bool
non_empty [] = false
non_empty (d ∷ ds) = true

merge-IsSummary :
    (cnt d out : ProfileData) (ds : List ProfileData)
    → cnt.meas_num + count_all (d ∷ ds) < u64_mod
    → cnt.average_cnt + total (d ∷ ds) < u64_mod
    → IsSummary (merge cnt d) ds out
    → IsSummary cnt (d ∷ ds) out
unfolding merge
merge-IsSummary cnt d out ds few small s = record {
  count = omega (arith, s.count);
  sum = ground (arith, s.sum, few, small);
  most = ground (arith, s.most);
  last = s.last;
}

merge-count :
    (cnt d : ProfileData)
    → cnt.meas_num + d.meas_num < u64_mod
    → (merge cnt d).meas_num ≡ cnt.meas_num + d.meas_num
unfolding merge
merge-count cnt d h = ground (arith, h)

merge-total :
    (cnt d : ProfileData)
    → cnt.average_cnt + d.average_cnt * d.meas_num < u64_mod
    → (merge cnt d).average_cnt ≡ cnt.average_cnt + d.average_cnt * d.meas_num
unfolding merge
merge-total cnt d h = ground (arith, h)

or_true : (a r b : Bool) → r ≡ ((a || true) || b) → r ≡ (a || true)
or_true true r b h = h
or_true false r b h = h

or_false : (a : Bool) → a ≡ (a || false)
or_false true = refl
or_false false = refl

IsSummary-of_none : (cnt : ProfileData) → IsSummary cnt [] cnt
IsSummary-of_none cnt = record {
  count = omega arith;
  sum = omega arith;
  most = ground arith;
  last = refl;
}

drain_lem :
    (f : ℕ) (ds : List ProfileData) (res : Bool) (cnt : ProfileData) (m : MemArea ProfileData)
    → IsValid profile_data_size m
    → contents m ≡ ds
    → length ds < f
    → AllMeasured ds
    → cnt.meas_num + count_all ds < u64_mod
    → cnt.average_cnt + total ds < u64_mod
    → Returns (drain f res cnt m) λ ((res', cnt'), m').
      IsSummary cnt ds cnt'
      × (res' ≡ (res || non_empty ds))
      × IsValid profile_data_size m'
      × (contents m' ≡ [])
      × (m'.name ≡ m.name)
unfolding drain
drain_lem zero ds res cnt m v is enough all few small = elim enough [ ]
drain_lem (suc f) [] res cnt m v is enough all few small = elim (pop_cases profile_data_size v) [
  | inl (empty, run) ↦ rw run (IsSummary-of_none cnt, or_false res, v, empty, refl)
  | inr (d, split, run, v', fewer) ↦ cc
]
drain_lem (suc f) (d ∷ ds) res cnt m v is enough all few small =
    elim (pop_cases profile_data_size v) [
      | inl (empty, run) ↦ cc
      | inr (d', split, run, v', fewer) ↦
          let same : d' ≡ d = cc in
          let rest : contents (popped m) ≡ ds = cc in
          let nonzero : (d.meas_num == 0) ≡ false = ground (arith, all) in
          let ((out, m'), run', s) =
            Returns-result (drain f (res || true) (merge cnt d) (popped m)) _ (
              drain_lem f ds (res || true) (merge cnt d) (popped m) v' rest (omega arith) all.1
                (omega (arith, merge-count cnt d (omega arith)))
                (omega (arith, merge-total cnt d (omega arith)))) in
          rw (run, same, nonzero, run')
            (
              merge-IsSummary cnt d out.1 ds few small s.0,
              or_true res out.0 (non_empty ds) s.1,
              s.2,
              s.3,
              s.4,
            )
    ]

most_of_zero : (n : ℕ) → (if ltb 0 n then n else 0) ≡ n
most_of_zero n = ground arith

-- What GetProfInfo reports on the entries `ds` of the profiler `name`.
abbrev pub Reports : List ProfileData → CStr → Option (ProfileData × CStr) → Type 0
Reports [] name r = r ≡ none
Reports (d ∷ ds) name r =
    (out : ProfileData) × (r ≡ some (out, name))
    × (out.meas_num ≡ count_all (d ∷ ds))
    × (out.average_cnt ≡ total (d ∷ ds) / count_all (d ∷ ds))
    × (out.max_cnt ≡ greatest (d ∷ ds))
    × (out.last_cnt ≡ last_of 0 (d ∷ ds))

module _ (size i : ℕ) (g : ProfilerGroup) (m : MemArea ProfileData) where
  -- The group afterwards: the FIFO is empty, and nothing else has changed.
  pub record IsDrained (g' : ProfilerGroup) : Type 0 where
    pub left : MemArea ProfileData
    pub valid : IsValid profile_data_size left
    pub empty : contents left ≡ []
    pub group : g' ≡ record g { prof_fifo = set g.prof_fifo i left }

  reports :
      (ds : List ProfileData) (cnt : ProfileData) (m' : MemArea ProfileData)
      → i < g.num_alloc_prof
      → get_elem? g.prof_fifo i ≡ some m
      → length m.name < mdo_name_size
      → length m.name < size
      → AllMeasured ds
      → drain m.number_chunks false reset_data m ≡ ok ((non_empty ds, cnt), m')
      → IsSummary reset_data ds cnt
      → IsValid profile_data_size m'
      → contents m' ≡ []
      → Returns (get_prof_info size i g) λ (r, g'). Reports ds m.name r × IsDrained g'
  unfolding get_prof_info
  reports [] cnt m' used_entry here named fits all run s v' empty =
      let holds : ltb i g.num_alloc_prof ≡ true = ground arith in
      rw (holds, here, run) (refl, record { left = m'; valid = v'; empty = empty; group = refl })
  reports (d ∷ ds) cnt m' used_entry here named fits all run s v' empty =
      let holds : ltb i g.num_alloc_prof ≡ true = ground arith in
      let some_counted : (cnt.meas_num == 0) ≡ false = ground (arith, s, all) in
      let named' : ltb (length m.name) mdo_name_size ≡ true = ground arith in
      let fits' : ltb (length m.name) size ≡ true = ground arith in
      let counted : cnt.meas_num ≡ count_all (d ∷ ds) = omega (arith, s.count) in
      let added : cnt.average_cnt ≡ total (d ∷ ds) = omega (arith, s.sum) in
      rw (holds, here, run, some_counted, named', fits')
        (
          (
            _,
            refl,
            counted,
            ap₂ ◌/◌ added counted,
            s.most ∙ most_of_zero (greatest (d ∷ ds)),
            s.last,
          ),
          record { left = m'; valid = v'; empty = empty; group = refl },
        )

  -- GetProfInfo on a profiler in use whose FIFO is valid, whose entries all stand for measurements
  -- and whose sums stay below 2^64, with a name that fits into the caller's buffer: it never faults
  -- and its loop ends, it empties that FIFO and changes nothing else, and it returns false where the
  -- FIFO was empty, or else the number of all measurements, their average (the entries' averages
  -- weighted by their numbers), the greatest value and the last entry's last value.
  pub get_prof_info_lem :
      i < g.num_alloc_prof
      → get_elem? g.prof_fifo i ≡ some m
      → IsValid profile_data_size m
      → length m.name < mdo_name_size
      → length m.name < size
      → AllMeasured (contents m)
      → count_all (contents m) < u64_mod
      → total (contents m) < u64_mod
      → Returns (get_prof_info size i g) λ (r, g'). Reports (contents m) m.name r × IsDrained g'
  get_prof_info_lem used_entry here v named fits all few small =
      let enough : length (contents m) < m.number_chunks =
        omega (arith, length-contents profile_data_size v, used-le profile_data_size v, v) in
      let (((res, cnt), m'), run, (s, found_any, v', empty, same_name)) =
        Returns-result (drain m.number_chunks false reset_data m) _ (
          drain_lem m.number_chunks (contents m) false reset_data m v refl enough all (omega arith)
            (omega arith)) in
      reports (contents m) cnt m' used_entry here named fits all
        (run ∙ ap (λ b. ok ((b, cnt), m')) found_any) s v' empty
