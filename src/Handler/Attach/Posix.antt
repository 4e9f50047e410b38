-- ===== src/Handler/Attach/Posix.antt =====
-- The operating system's calls by what POSIX says of the open descriptors, and the steps that
-- RTDBG_ActivateDebugDataCollection and RTDBG_AttachDebugData share.
use rt_debug_lib.Base.{
  ℕ, ◌-◌, ◌%◌, ◌^◌, ◌≤◌, ◌<◌, ◌≡◌, ◌≢◌, ◌⊎◌, inl, inr, refl, sym, ◌∙◌, subst, Bool, true, false,
  Option, none, some, Option-cases, length, get_elem?, arith, ℕ_discrete,
}
use rt_debug_lib.CString.{CStr}
use rt_debug_lib.DebugRt.{DebugRt, GroupDebugRt, max_group_num}
use rt_debug_lib.DebugRt.New.{HasArrays}
use rt_debug_lib.Handler.Attach.{Os, minus_one, stretch_file, map_file}

-- The memory of a mapping has its groups and their arrays, whatever is in them.
pub record IsMapping (d : DebugRt) : Type 0 where
  pub array : length d.debug_groups ≡ max_group_num
  pub arrays : (i : ℕ) (g : GroupDebugRt) → get_elem? d.debug_groups i ≡ some g → HasArrays g

module _ {S : Type 0} (is_open : S → ℕ → Bool) where
  abbrev pub SameOpen : S → S → Type 0
  SameOpen s s' = (k : ℕ) → is_open s' k ≡ is_open s k

  -- Descriptor `fd` is open in `s'` and was not in `s`; every other is as it was.
  pub record Opens (fd : ℕ) (s s' : S) : Type 0 where
    pub fresh : is_open s fd ≡ false
    pub held : is_open s' fd ≡ true
    pub others : (k : ℕ) → fd ≢ k → is_open s' k ≡ is_open s k

  module _ (size : ℕ) where
    -- Every call does what it is asked for, at places below 2^31, and no file is empty.
    pub record IsGranting (os : Os S) : Type 0 where
      pub grants_open :
          (create : Bool) (name : CStr) (s : S)
          → (fd : ℕ) × ((os.open_file create name s).0 ≡ some fd)
      pub grants_truncate : (fd : ℕ) (s : S) → (os.truncate fd size s).0 ≡ true
      pub grants_seek :
          (fd place : ℕ) (s : S) → place < 2 ^ 31 → (os.seek_set fd place s).0 % 2 ^ 32 ≢ minus_one
      pub grants_end :
          (fd : ℕ) (s : S)
          → ((os.seek_end fd s).0 % 2 ^ 32 ≢ minus_one) × ((os.seek_end fd s).0 % 2 ^ 32 ≢ 0)
      pub grants_write : (fd : ℕ) (s : S) → (os.write_nul fd s).0 % 2 ^ 32 ≡ 1
      pub grants_map : (fd : ℕ) (s : S) → (d : DebugRt) × ((os.map_shared fd s).0 ≡ some d)

  module _ (file_size : S → ℕ → ℕ) (size : ℕ) where
    -- What POSIX says of the calls: which descriptors they open and close, what they do to the size of
    -- a descriptor's file, which lseek to its end returns, and that the mapping of a file of at least `size` bytes, the
    -- size of a CDebugRT, holds a whole one.
    pub record IsPosix (os : Os S) : Type 0 where
      pub opens :
          (create : Bool) (name : CStr) (s : S) (fd : ℕ)
          → (os.open_file create name s).0 ≡ some fd
          → Opens fd s (os.open_file create name s).1
      pub refuses :
          (create : Bool) (name : CStr) (s : S)
          → (os.open_file create name s).0 ≡ none
          → SameOpen s (os.open_file create name s).1
      pub truncates : (fd n : ℕ) (s : S) → SameOpen s (os.truncate fd n s).1
      pub truncated :
          (fd n : ℕ) (s : S)
          → (os.truncate fd n s).0 ≡ true
          → file_size (os.truncate fd n s).1 fd ≡ n
      pub seeks_set : (fd place : ℕ) (s : S) → SameOpen s (os.seek_set fd place s).1
      pub sought_set :
          (fd place : ℕ) (s : S) → file_size (os.seek_set fd place s).1 fd ≡ file_size s fd
      pub seeks_end : (fd : ℕ) (s : S) → SameOpen s (os.seek_end fd s).1
      pub sought_end : (fd : ℕ) (s : S) → file_size (os.seek_end fd s).1 fd ≡ file_size s fd
      pub ends :
          (fd : ℕ) (s : S)
          → ((os.seek_end fd s).0 ≡ 2 ^ 64 - 1) ⊎ ((os.seek_end fd s).0 ≡ file_size s fd)
      pub writes : (fd : ℕ) (s : S) → SameOpen s (os.write_nul fd s).1
      pub written : (fd : ℕ) (s : S) → file_size s fd ≤ file_size (os.write_nul fd s).1 fd
      pub maps : (fd : ℕ) (s : S) → SameOpen s (os.map_shared fd s).1
      pub mapped :
          (fd : ℕ) (s : S) (d : DebugRt)
          → size ≤ file_size s fd
          → (os.map_shared fd s).0 ≡ some d
          → IsMapping d
      pub unmaps : (d : DebugRt) (s : S) → SameOpen s (os.unmap d s)
      pub closed : (fd : ℕ) (s : S) → is_open (os.close_file fd s) fd ≡ false
      pub closes_only :
          (fd : ℕ) (s : S) (k : ℕ) → fd ≢ k → is_open (os.close_file fd s) k ≡ is_open s k

    module _ (os : Os S) (posix : IsPosix os) where
      pub Opens-same : (fd : ℕ) (s s1 s2 : S) → Opens fd s s1 → SameOpen s1 s2 → Opens fd s s2
      Opens-same fd s s1 s2 o same = record {
        fresh = o.fresh;
        held = same fd ∙ o.held;
        others = λ k ne. same k ∙ o.others k ne;
      }

      -- Closing the descriptor gives back what was open before it.
      pub SameOpen-close_file :
          (fd : ℕ) (s s' : S) → Opens fd s s' → SameOpen s (os.close_file fd s')
      SameOpen-close_file fd s s' o k = elim (ℕ_discrete fd k) [
        | yes e ↦
            subst (λ j. is_open (os.close_file fd s') j ≡ is_open s j) e
              (posix.closed fd s' ∙ sym o.fresh)
        | no ne ↦ posix.closes_only fd s' k ne ∙ o.others k ne
      ]

      pub stretch_file-SameOpen : (fd : ℕ) (s : S) → SameOpen s (stretch_file os size fd s).1
      unfolding stretch_file
      stretch_file-SameOpen fd s k =
          let s1 = (os.truncate fd size s).1 in
          let s2 = (os.seek_set fd (size - 1) s1).1 in
          ground (
            arith,
            posix.truncates fd size s k,
            posix.seeks_set fd (size - 1) s1 k,
            posix.writes fd s2 k,
          )

      -- Behind a successful ftruncate the file is as long as a CDebugRT.
      pub stretch_file-file_size :
          (fd : ℕ) (s : S)
          → (os.truncate fd size s).0 ≡ true
          → size ≤ file_size (stretch_file os size fd s).1 fd
      unfolding stretch_file
      stretch_file-file_size fd s done =
          let s1 = (os.truncate fd size s).1 in
          let s2 = (os.seek_set fd (size - 1) s1).1 in
          ground (
            arith,
            done,
            posix.truncated fd size s done,
            posix.sought_set fd (size - 1) s1,
            posix.written fd s2,
          )

      -- What the last calls leave, made in `s1`, for a descriptor that was opened since `s`.
      abbrev pub Mapped : ℕ → S → S → Option DebugRt × S → Type 0
      Mapped fd s s1 (none, s') = SameOpen s s'
      Mapped fd s s1 (some d, s') =
          ((os.map_shared fd s1).0 ≡ some d) × ((os.map_shared fd s1).1 ≡ s') × Opens fd s s'

      map_none :
          (fd : ℕ) (s : S)
          → (os.map_shared fd s).0 ≡ none
          → map_file os fd s ≡ (none, os.close_file fd (os.map_shared fd s).1)
      unfolding map_file
      map_none fd s e = ground (arith, e)

      pub map_some :
          (fd : ℕ) (s : S) (d : DebugRt)
          → (os.map_shared fd s).0 ≡ some d
          → map_file os fd s ≡ (some d, (os.map_shared fd s).1)
      unfolding map_file
      map_some fd s d e = ground (arith, e)

      pub map_file-Mapped : (fd : ℕ) (s s' : S) → Opens fd s s' → Mapped fd s s' (map_file os fd s')
      map_file-Mapped fd s s' o =
          let s1 = (os.map_shared fd s').1 in
          let o1 = Opens-same fd s s' s1 o (posix.maps fd s') in
          elim (Option-cases (os.map_shared fd s').0) [
            | inl e ↦
                subst (Mapped fd s s') (sym (map_none fd s' e)) (SameOpen-close_file fd s s1 o1)
            | inr (d, e) ↦ subst (Mapped fd s s') (sym (map_some fd s' d e)) (e, refl, o1)
          ]
