-- ===== src/ProfilerGroup/Names/Elsewhere.antt =====
-- A profiler that one process registers, looked up and fed by another process that has mapped the memory at
-- another place: nothing calls CDebugRT::Attach, so that the pointers of the first process stay in its FIFO.
use rt_debug_lib.Base.{
  ℕ, ◌+◌, ◌%◌, ◌<◌, ◌≡◌, ◌≢◌, ◌∙◌, ap, none, some, [], ◌∷◌, ◌++◌, length, get_elem?, arith, ok, err,
  Fault, Returns, Returns-result, get_elem?-some, get_elem?-set_self,
}
use rt_debug_lib.CString.{CStr}
use rt_debug_lib.Registry.{index_from, to_search, scan, scan_refines, length-names}
use rt_debug_lib.Registry.Laws.{index_from-append_self}
use rt_debug_lib.MemArea.{MemArea, mdo_name_size, push_mt, resolve}
use rt_debug_lib.MemArea.Setup.{set_up_at-IsValid}
use rt_debug_lib.MemArea.Refine.{contents}
use rt_debug_lib.Profile.{ProfilePoint, ProfileData, profile_data_size, update_rounds, update}
use rt_debug_lib.Profile.Update.{averaged, update_room}
use rt_debug_lib.ProfilerGroup.{
  ProfilerGroup, prof_group_max, prof_fifo_size, fifo_name, prof_names, registry_profile_entry,
}
use rt_debug_lib.ProfilerGroup.Names.{
  IsProfGroup, fresh, fresh-IsProfFifo, extended, added_run, prof_names-extended, added-IsProfGroup,
}

-- Update of a point that is linked to a new FIFO, in a process that has the FIFO's buffer elsewhere.
fresh_elsewhere :
    (s : CStr) (address : ℕ) (m : MemArea ProfileData) (fifo_address buf_address : ℕ)
    (p : ProfilePoint)
    → address ≢ 0
    → address ≢ buf_address
    → p.mem_ptr ≡ fifo_address
    → p.prof_data.meas_num ≢ 0
    → update fifo_address buf_address p (fresh s address m) ≡ err Fault.wild_pointer
unfolding update update_rounds push_mt
fresh_elsewhere s address m fifo_address buf_address p some_address elsewhere linked measured =
    let far : resolve buf_address address ≡ err Fault.wild_pointer = ground arith in
    ground (arith, far)

-- What the first process's call leaves, for a point `p` that a process links to the new FIFO.
pub record IsFixed (buf buf' : ℕ → ℕ) (s : CStr) (fifo_address : ℕ) (p : ProfilePoint)
    (out : ℕ × ProfilerGroup) : Type 0 where
  pub valid : IsProfGroup buf out.1
  pub again : registry_profile_entry buf' s out.1 ≡ ok out
  pub fifo : MemArea ProfileData
  pub at : get_elem? out.1.prof_fifo out.0 ≡ some fifo
  pub here :
      Returns
        (update fifo_address (buf out.0) p fifo)
        λ left. contents left.1 ≡ averaged p.prof_data ∷ []
  pub there : update fifo_address (buf' out.0) p fifo ≡ err Fault.wild_pointer

module _ (buf buf' : ℕ → ℕ) {g : ProfilerGroup} (v : IsProfGroup buf g) (s : CStr)
    (fits : length s < mdo_name_size) (some_address : buf g.num_alloc_prof ≢ 0)
    (aligned : buf g.num_alloc_prof % 8 ≡ 0) (unknown : index_from s (prof_names g) 0 ≡ none)
    (room : g.num_alloc_prof < prof_group_max) where
  -- Whichever process looks the name up afterwards finds the entry and leaves it alone.
  found_again :
      (m : MemArea ProfileData)
      → IsProfGroup buf (extended buf s g m)
      → registry_profile_entry buf' s (extended buf s g m)
        ≡ ok (g.num_alloc_prof, extended buf s g m)
  unfolding registry_profile_entry
  found_again m v' =
      let g' = extended buf s g m in
      let searched : scan fifo_name s g'.num_alloc_prof g'.prof_fifo 0
          ≡ to_search (index_from s (prof_names g') 0) =
        scan_refines fifo_name s g'.num_alloc_prof g'.prof_fifo 0 (omega (arith, v'.array)) in
      let num : 0 + length (prof_names g) ≡ g.num_alloc_prof =
        omega (arith, length-names fifo_name g.num_alloc_prof g.prof_fifo (omega (arith, v))) in
      let index : index_from s (prof_names g') 0 ≡ some g.num_alloc_prof =
        ap (λ l. index_from s l 0) (prof_names-extended buf v s m room)
        ∙ index_from-append_self s (prof_names g) 0 unknown
        ∙ ap some num in
      ground (arith, searched, index)

  -- One process registers a profiler under a new name below MDO_NAME_SIZE, in a valid group with
  -- room for it and a next buffer at an address other than 0 that is a multiple of 8; another
  -- process has that buffer elsewhere, and a point with measurements is linked to the new FIFO. The
  -- call returns and leaves a valid group; the other process's call for the same name returns the
  -- same index and changes nothing. Update of the point in the first process returns, with the
  -- averaged data alone in the FIFO; in the other process it writes through the first one's
  -- pointer.
  pub registered_here_lost_there :
      (fifo_address : ℕ) (p : ProfilePoint)
      → p.mem_ptr ≡ fifo_address
      → p.prof_data.meas_num ≢ 0
      → buf g.num_alloc_prof ≢ buf' g.num_alloc_prof
      → Returns (registry_profile_entry buf s g) (IsFixed buf buf' s fifo_address p)
  registered_here_lost_there fifo_address p linked measured elsewhere =
      let n = g.num_alloc_prof in
      let (m, at) = get_elem?-some g.prof_fifo n (omega (arith, v)) in
      let f = fresh s (buf n) m in
      let enough = v.buffers n m at in
      let v' = added-IsProfGroup buf v s fits some_address aligned m at unknown room in
      let empty =
        (set_up_at-IsValid profile_data_size prof_fifo_size s (buf n) m fits (omega arith)
          (omega arith) (omega arith) (omega arith) (omega arith) enough).1 in
      let (out, run, (_, stored, _)) = Returns-result (update fifo_address (buf n) p f) _ (
        update_room fifo_address (buf n) p f (fresh-IsProfFifo s (buf n) m fits enough) linked
          measured (omega arith)) in
      rw (added_run buf v s fits some_address aligned m at unknown room) (record {
        valid = v';
        again = found_again m v';
        fifo = f;
        at = get_elem?-set_self g.prof_fifo n f (omega (arith, v));
        here = rw run (stored ∙ ap (λ l. l ++ averaged p.prof_data ∷ []) empty);
        there =
            fresh_elsewhere s (buf n) m fifo_address (buf' n) p some_address elsewhere linked
              measured;
      })
