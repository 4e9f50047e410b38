-- ===== src/Registry/Sequence.antt =====
-- A table of names that is asked for one name after another.
use rt_debug_lib.Base.{ℕ, ◌≡◌, some, List, [], ◌∷◌}
use rt_debug_lib.CString.{CStr}
use rt_debug_lib.Registry.{index_from, register}
use rt_debug_lib.Registry.Laws.{register-index, register-keeps}

-- The indices that the names get, and the names in use afterwards.
unfoldable pub register_all : List CStr → List CStr → List ℕ × List CStr
register_all [] l = ([], l)
register_all (s ∷ ss) l =
    let (i, l1) = register s l in let (indexes, l2) = register_all ss l1 in (i ∷ indexes, l2)

-- Every name is found at its index.
abbrev pub AreFound : List CStr → List ℕ → List CStr → Type 0
AreFound [] [] l = Unit {0}
AreFound (s ∷ ss) (i ∷ indexes) l = (index_from s l 0 ≡ some i) × AreFound ss indexes l
AreFound _ _ l = ⊥

register_all-keeps :
    (s : CStr) (ss l : List CStr) (k : ℕ)
    → index_from s l 0 ≡ some k
    → index_from s (register_all ss l).1 0 ≡ some k
unfolding register_all
register_all-keeps s [] l k e = e
register_all-keeps s (t ∷ ss) l k e =
    register_all-keeps s ss (register t l).1 k (register-keeps s t l k e)

-- The indices that were handed out still hold after the last name.
pub register_all-AreFound :
    (ss l : List CStr) → AreFound ss (register_all ss l).0 (register_all ss l).1
unfolding register_all
register_all-AreFound [] l = tt
register_all-AreFound (s ∷ ss) l = (
  register_all-keeps s ss (register s l).1 (register s l).0 (register-index s l),
  register_all-AreFound ss (register s l).1,
)
