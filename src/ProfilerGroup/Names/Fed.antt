-- ===== src/ProfilerGroup/Names/Fed.antt =====
-- A group of profilers after a point handed its data to one of them.
use rt_debug_lib.Base.{ℕ, ◌≡◌, ◌∙◌, inl, inr, some, set, get_elem?, length-set, get_elem?-set_cases}
use rt_debug_lib.Registry.{names-set_same}
use rt_debug_lib.MemArea.{MemArea}
use rt_debug_lib.Profile.{ProfileData}
use rt_debug_lib.Profile.Update.Total.{IsKept}
use rt_debug_lib.ProfilerGroup.{ProfilerGroup, fifo_name}
use rt_debug_lib.ProfilerGroup.Names.{IsProfGroup}

pub fed-IsProfGroup :
    (address : ℕ → ℕ) (g : ProfilerGroup) (j : ℕ) (m m' : MemArea ProfileData)
    → IsProfGroup address g
    → get_elem? g.prof_fifo j ≡ some m
    → IsKept (address j) m m'
    → IsProfGroup address (record g { prof_fifo = set g.prof_fifo j m' })
fed-IsProfGroup address g j m m' v here kept = record {
  array = length-set g.prof_fifo j m' ∙ v.array;
  few = v.few;
  distinct =
      rw (names-set_same fifo_name g.num_alloc_prof g.prof_fifo j m m' here kept.name) v.distinct;
  buffers = λ i n at. elim (get_elem?-set_cases g.prof_fifo j i m' n at) [
    | inl (q, r) ↦ rw (r, kept.room) (v.buffers j m here)
    | inr (q, old) ↦ v.buffers i n old
  ];
  fifos = λ i n at below. elim (get_elem?-set_cases g.prof_fifo j i m' n at) [
    | inl (q, r) ↦ rw (q, r) kept.fifo
    | inr (q, old) ↦ v.fifos i n old below
  ];
}
