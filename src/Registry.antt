-- ===== src/Registry.antt =====
-- The tables of names in rt_debug_types.h and rt_debug_types.cc: event counters, trace formats,
-- profiler points and groups are all looked up by a linear search for an equal name among the
-- entries in use, and take the next entry where there is none. `scan` is that loop; `register` is
-- what such a table promises, on the list of its names.
pub mod Laws
pub mod Sequence
use mathlib.Core.Option.{some-injective}
use rt_debug_lib.Base.{
  get_elem?, ap, sym, ℕ, zero, suc, ◌+◌, ◌≤◌, ◌≡◌, refl, Option, none, some, List, [], ◌∷◌, ◌++◌,
  map, length, take, if◌then◌else◌, arith, ◌<◌, ◌∙◌, set, ltb, Result, ok, err, Fault,
  take-set_next, length-take, length-map, map-append,
}
use rt_debug_lib.CString.{CStr, same}

-- What the loop finds: an index, nothing, or the end of the array before the end of the loop.
pub data Search : Type 0 where
  found : ℕ → Search
  missing past_end : Search

-- for (; i < i + num; i++) if (strcmp(name(xs[i]), s) == 0) return i;
unfoldable pub scan {ℓ} : {A : Type ℓ} → (A → CStr) → CStr → ℕ → List A → ℕ → Search
scan name s zero xs i = missing
scan name s (suc n) [] i = past_end
scan name s (suc n) (x ∷ xs) i = if same (name x) s then found i else scan name s n xs (i + 1)

-- The names in use.
abbrev pub names {ℓ} : {A : Type ℓ} → (A → CStr) → ℕ → List A → List CStr
names name num xs = map name (take num xs)

unfoldable pub index_from : CStr → List CStr → ℕ → Option ℕ
index_from s [] i = none
index_from s (x ∷ l) i = if same x s then some i else index_from s l (i + 1)

-- The index of a name, and the names after it was looked up.
unfoldable pub register : CStr → List CStr → ℕ × List CStr
register s l = elim (index_from s l 0) [ none ↦ (length l, l ++ s ∷ []) | some i ↦ (i, l) ]

abbrev pub to_search : Option ℕ → Search
to_search none = missing
to_search (some i) = found i

-- With the loop's bound inside the array the search ends at the first entry of that name.
pub scan_refines :
    {A : Type 0} (name : A → CStr) (s : CStr) (num : ℕ) (xs : List A) (i : ℕ)
    → num ≤ length xs
    → scan name s num xs i ≡ to_search (index_from s (names name num xs) i)
unfolding scan index_from
scan_refines name s zero xs i h = refl
scan_refines name s (suc n) [] i h = elim h [ ]
scan_refines name s (suc n) (x ∷ xs) i h = ground (arith, scan_refines name s n xs (i + 1))

-- A table with room for `limit` names, which ends in `fault` where a further one is asked for.
unfoldable pub register_within : Fault → ℕ → CStr → List CStr → Result (ℕ × List CStr)
register_within fault limit s l = elim (index_from s l 0) [
  | none ↦ if ltb (length l) limit then ok (length l, l ++ s ∷ []) else err fault
  | some i ↦ ok (i, l)
]

-- The names in use after the entry behind them is filled.
pub names-set_next :
    {A : Type 0} (name : A → CStr) (num : ℕ) (xs : List A) (y : A)
    → num < length xs
    → names name (suc num) (set xs num y) ≡ names name num xs ++ name y ∷ []
names-set_next name num xs y h = rw (take-set_next num xs y h, map-append)

-- An entry in place of one of the same name.
pub names-set_same :
    {A : Type 0} (name : A → CStr) (num : ℕ) (xs : List A) (i : ℕ) (x y : A)
    → get_elem? xs i ≡ some x
    → name y ≡ name x
    → names name num (set xs i y) ≡ names name num xs
names-set_same name zero xs i x y at e = refl
names-set_same name (suc n) [] i x y at e = refl
names-set_same name (suc n) (z ∷ xs) zero x y at e =
    ap (λ w. w ∷ names name n xs) (e ∙ ap name (some-injective x z (sym at)))
names-set_same name (suc n) (z ∷ xs) (suc i) x y at e =
    ap (◌∷◌ (name z)) (names-set_same name n xs i x y at e)

pub length-names :
    {A : Type 0} (name : A → CStr) (num : ℕ) (xs : List A)
    → num ≤ length xs
    → length (names name num xs) ≡ num
length-names name num xs h = length-map name (take num xs) ∙ length-take num xs h
