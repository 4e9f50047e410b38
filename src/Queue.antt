-- ===== src/Queue.antt =====
-- What a FIFO of i_cpp_sys_api.h promises: a queue of at most `cap` items, oldest first.
use rt_debug_lib.Base.{
  ℕ, ◌-◌, ◌<◌, ◌≡◌, ap, sym, suc, append-nil, List, [], ◌∷◌, ◌++◌, Option, none, some, length, drop,
  drop_head, ◌==◌, if◌then◌else◌, arith, dec_lt, length-append, length-drop, drop-append,
  drop_head-drop, append_assoc,
}

-- `EResultT` of rt_debug_cpp/src/i_cpp_sys_api.h
pub data EResultT : Type 0 where
  e_ok e_fail : EResultT

module _ {ℓ} {A : Type ℓ} where
  abbrev pub push : ℕ → List A → A → EResultT × List A
  push cap q x = if length q == cap then (e_fail, q) else (e_ok, q ++ x ∷ [])

  abbrev pub pop : List A → Option A × List A
  pop [] = (none, [])
  pop (x ∷ q) = (some x, q)

  -- The newest item always goes in, at the cost of the oldest one.
  abbrev pub push_over : ℕ → List A → A → List A
  push_over cap q x = if length q == cap then drop_head q ++ x ∷ [] else q ++ x ∷ []

  abbrev pub push_over_all : ℕ → List A → List A → List A
  push_over_all cap q [] = q
  push_over_all cap q (x ∷ xs) = push_over_all cap (push_over cap q x) xs

  -- The last `n` items.
  abbrev pub keep_last : ℕ → List A → List A
  keep_last n l = drop (length l - n) l

module _ {A : Type 0} (cap : ℕ) (pos : 0 < cap) where
  push_over-keep_last :
      (l : List A) (x : A) → push_over cap (keep_last cap l) x ≡ keep_last cap (l ++ x ∷ [])
  push_over-keep_last l x = elim (dec_lt (length l) cap) [
    | yes short ↦
        let none_dropped : length l - cap ≡ 0 = omega arith in
        let none_dropped' : length (l ++ x ∷ []) - cap ≡ 0 =
          omega (arith, length-append l (x ∷ [])) in
        rw (none_dropped, none_dropped') (ground arith)
    | no long ↦
        let more : length (l ++ x ∷ []) - cap ≡ suc (length l - cap) =
          omega (arith, length-append l (x ∷ [])) in
        rw (more) (
          ground (
            arith,
            length-drop (length l - cap) l,
            drop_head-drop (length l - cap) l,
            drop-append (suc (length l - cap)) l (x ∷ []),
          ))
  ]

  -- Pushing over and over keeps the newest `cap` items, in order.
  pub push_over_all-keep_last :
      (l xs : List A) → push_over_all cap (keep_last cap l) xs ≡ keep_last cap (l ++ xs)
  push_over_all-keep_last l [] = ap (keep_last cap) (sym (append-nil l))
  push_over_all-keep_last l (x ∷ xs) =
      rw (push_over-keep_last l x, push_over_all-keep_last (l ++ x ∷ []) xs, append_assoc)
