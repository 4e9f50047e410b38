-- ===== src/MemArea/Slots.antt =====
-- The items that stand in the chunks of a ring, from a start index on.
use native.Mathlib.Nat.{mod-eq_of_lt, add-zero}
use rt_debug_lib.Base.{
  ℕ, zero, suc, ◌+◌, ◌-◌, ◌%◌, ◌≤◌, ◌<◌, ◌≡◌, refl, ap, ◌∙◌, List, [], ◌∷◌, ◌++◌, Option, none,
  some, length, get_elem?, set, arith, get_elem?-set_self, get_elem?-set_ne, get_elem?-some,
}
use rt_debug_lib.MemArea.Index.{add-mod-ne, mod-step}

module _ {ℓ} {A : Type ℓ} where
  abbrev pub cons_some : Option A → List A → List A
  cons_some none l = l
  cons_some (some a) l = a ∷ l

  -- `count` chunks of `n`, going round, the first of them at `start`
  abbrev pub slots : List A → ℕ → ℕ → ℕ → List A
  slots buf n start zero = []
  slots buf n start (suc count) =
      cons_some (get_elem? buf start) (slots buf n ((start + 1) % n) count)

  -- The first chunk of a window that is not empty.
  pub slots-head :
      (buf : List A) (n start count : ℕ)
      → start < length buf
      → 0 < count
      → (a : A) × (get_elem? buf start ≡ some a)
        × (slots buf n start count ≡ a ∷ slots buf n ((start + 1) % n) (count - 1))
  slots-head buf n start zero h p = elim p [ ]
  slots-head buf n start (suc count) h p =
      let (a, e) = get_elem?-some buf start h in
      (a, e, rw e (ap (λ k. a ∷ slots buf n ((start + 1) % n) k) (omega arith)))

  pub length-slots :
      (buf : List A) (n start count : ℕ)
      → n ≤ length buf
      → start < n
      → length (slots buf n start count) ≡ count
  length-slots buf n start zero room s = refl
  length-slots buf n start (suc count) room s =
      let (a, e) = get_elem?-some buf start (omega arith) in
      rw e (ap suc (length-slots buf n ((start + 1) % n) count room (omega arith)))

  -- Writing the chunk behind a window extends it by the item.
  pub slots-set :
      (buf : List A) (n : ℕ) (x : A) (count start i : ℕ)
      → n ≤ length buf
      → start < n
      → count < n
      → i ≡ (start + count) % n
      → slots (set buf i x) n start (suc count) ≡ slots buf n start count ++ x ∷ []
  slots-set buf n x zero start i room s c e =
      rw (e, add-zero, mod-eq_of_lt s, get_elem?-set_self buf start x (omega arith))
  slots-set buf n x (suc count) start i room s c e =
      let (a, found) = get_elem?-some buf start (omega arith) in
      let kept : get_elem? (set buf i x) start ≡ some a =
        get_elem?-set_ne buf i start x (rw e (add-mod-ne n start count s c)) ∙ found in
      rw (kept, found)
        (ap (◌∷◌ a) (
          slots-set buf n x count ((start + 1) % n) i room (omega arith) (omega arith)
            (e ∙ mod-step n start count)))

  -- Writing the chunk behind a window leaves the window.
  pub slots-set_outside :
      (buf : List A) (n : ℕ) (x : A) (count start i : ℕ)
      → start < n
      → count < n
      → i ≡ (start + count) % n
      → slots (set buf i x) n start count ≡ slots buf n start count
  slots-set_outside buf n x zero start i s c e = refl
  slots-set_outside buf n x (suc count) start i s c e =
      let kept : get_elem? (set buf i x) start ≡ get_elem? buf start =
        get_elem?-set_ne buf i start x (rw e (add-mod-ne n start count s c)) in
      rw kept (
        ap (cons_some (get_elem? buf start)) (
          slots-set_outside buf n x count ((start + 1) % n) i (omega arith) (omega arith)
            (e ∙ mod-step n start count)))
