-- ===== src/Registry/Laws.antt =====
-- What a client of a table of names relies on: an index stays the index of its name.
use rt_debug_lib.Base.{
  ℕ, suc, ◌+◌, ◌<◌, ◌≡◌, refl, ap, ◌∙◌, inl, inr, false, none, some, List, [], ◌∷◌, ◌++◌, length,
  get_elem?, arith, Option-cases, Bool-cases, get_elem?-append_end,
}
use rt_debug_lib.CString.{CStr, same, same_iff, same_refl}
use rt_debug_lib.Registry.{index_from, register}

index_from-shift :
    (s : CStr) (l : List CStr) (i k : ℕ) → index_from s l i ≡ none → index_from s l k ≡ none
unfolding index_from
index_from-shift s [] i k h = refl
index_from-shift s (x ∷ l) i k h = ground (arith, index_from-shift s l (i + 1) (k + 1))

-- A hit is an entry of that name.
index_from-get :
    (s : CStr) (l : List CStr) (i k : ℕ)
    → index_from s l i ≡ some k
    → (d : ℕ) × (k ≡ i + d) × (d < length l) × (get_elem? l d ≡ some s)
unfolding index_from
index_from-get s [] i k h = cc
index_from-get s (x ∷ l) i k h = elim (Bool-cases (same x s)) [
  | inl e ↦ (0, ground arith, omega arith, ap some ((same_iff x s).0 e))
  | inr e ↦
      let (d, at, inside, here) = index_from-get s l (i + 1) k (ground arith) in
      (suc d, omega arith, omega arith, here)
]

pub index_from-append_self :
    (s : CStr) (l : List CStr) (i : ℕ)
    → index_from s l i ≡ none
    → index_from s (l ++ s ∷ []) i ≡ some (i + length l)
unfolding index_from
index_from-append_self s [] i h = ground (arith, same_refl s)
index_from-append_self s (x ∷ l) i h = ground (arith, index_from-append_self s l (i + 1))

index_from-append_ne :
    (s t : CStr) (l : List CStr) (i : ℕ)
    → index_from s l i ≡ none
    → same t s ≡ false
    → index_from s (l ++ t ∷ []) i ≡ none
unfolding index_from
index_from-append_ne s t [] i h ne = ground arith
index_from-append_ne s t (x ∷ l) i h ne = ground (arith, index_from-append_ne s t l (i + 1))

index_from-append_found :
    (s t : CStr) (l : List CStr) (i k : ℕ)
    → index_from s l i ≡ some k
    → index_from s (l ++ t ∷ []) i ≡ some k
unfolding index_from
index_from-append_found s t [] i k h = cc
index_from-append_found s t (x ∷ l) i k h = ground (arith, index_from-append_found s t l (i + 1) k)

-- The index that is handed out is that of the name.
pub register-get : (s : CStr) (l : List CStr) → get_elem? (register s l).1 (register s l).0 ≡ some s
unfolding register
register-get s l = elim (Option-cases (index_from s l 0)) [
  | inl e ↦ rw (e, register) (get_elem?-append_end l s)
  | inr (k, e) ↦
      let (d, at, inside, here) = index_from-get s l 0 k e in
      let same_place : k ≡ d = omega arith in rw (e, register) (rw same_place here)
]

pub register-index :
    (s : CStr) (l : List CStr) → index_from s (register s l).1 0 ≡ some (register s l).0
unfolding register
register-index s l = elim (Option-cases (index_from s l 0)) [
  | inl e ↦ rw (e, register) (index_from-append_self s l 0 e ∙ ap some (omega arith))
  | inr (k, e) ↦ rw (e, register) e
]

pub register-keeps :
    (s t : CStr) (l : List CStr) (k : ℕ)
    → index_from s l 0 ≡ some k
    → index_from s (register t l).1 0 ≡ some k
unfolding register
register-keeps s t l k e = ground (arith, index_from-append_found s t l 0 k e)

register_of_index :
    (s : CStr) (l : List CStr) (k : ℕ) → index_from s l 0 ≡ some k → register s l ≡ (k, l)
unfolding register
register_of_index s l k e = rw (e, register)

-- The index stays the same whatever name is registered next, and the next name changes nothing if
-- it is the same one.
pub register-register :
    (s t : CStr) (l : List CStr)
    → let l' = (register t (register s l).1).1 in register s l' ≡ ((register s l).0, l')
register-register s t l =
    register_of_index s _ (register s l).0
      (register-keeps s t (register s l).1 (register s l).0 (register-index s l))

-- No name stands in two entries.
abbrev pub Distinct : List CStr → Type 0
Distinct [] = Unit {0}
Distinct (x ∷ l) = (index_from x l 0 ≡ none) × Distinct l

same_swap : (a b : CStr) → same a b ≡ false → same b a ≡ false
same_swap a b h = ground (arith, same_iff a b, same_iff b a)

pub Distinct-append :
    (s : CStr) (l : List CStr) → index_from s l 0 ≡ none → Distinct l → Distinct (l ++ s ∷ [])
unfolding index_from
Distinct-append s [] h d = (refl, tt)
Distinct-append s (x ∷ l) h d = ground (
  arith,
  same_swap x s,
  index_from-append_ne x s l 0,
  index_from-shift s l 1 0,
  Distinct-append s l,
)

pub register-Distinct : (s : CStr) (l : List CStr) → Distinct l → Distinct (register s l).1
unfolding register
register-Distinct s l d = elim (Option-cases (index_from s l 0)) [
  | inl e ↦ rw (e, register) (Distinct-append s l e d)
  | inr (k, e) ↦ rw (e, register) d
]

-- A hit lies among the names in use.
pub index_from-lt : (s : CStr) (l : List CStr) (k : ℕ) → index_from s l 0 ≡ some k → k < length l
index_from-lt s l k e = let (d, at, inside, here) = index_from-get s l 0 k e in omega arith
