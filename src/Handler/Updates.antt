-- ===== src/Handler/Updates.antt =====
-- The queues of a process whose group `i` and kept line were exchanged.
use rt_debug_lib.Base.{
  ℕ, ◌≤◌, ◌<◌, ◌≡◌, ◌≢◌, sym, ◌∙◌, subst, some, List, [], ◌∷◌, get_elem?, get_elem?-set_self,
  get_elem?-set_ne, get_elem?-lt, ℕ_discrete,
}
use rt_debug_lib.Tracer.Earliest.{at_time}
use rt_debug_lib.DebugRt.{GroupDebugRt}
use rt_debug_lib.Handler.{Handler, LogSortData}
use rt_debug_lib.Handler.Queues.{Line, pending, queue, IsGroupReady, IsReadyAt, updated, IsFetched}

-- No line of the queue's front is earlier than `bound`.
abbrev pub FrontFrom : ℕ → List Line → Type 0
FrontFrom bound [] = Unit {0}
FrontFrom bound ((text, time) ∷ ls) = bound ≤ at_time time

-- Every group in use is ready.
abbrev pub AreReady : Handler → Type 0
AreReady h = (i : ℕ) → i < h.shared.num_alloc_groups → IsReadyAt h i

module _ (h : Handler) (i : ℕ) (r : IsReadyAt h i) (l' : LogSortData) (g' : GroupDebugRt) where
  pub last-updated : get_elem? (updated h i l' g').grp_logs_last i ≡ some l'
  last-updated =
      get_elem?-set_self h.grp_logs_last i l' (get_elem?-lt h.grp_logs_last i r.last r.has_last)

  group-updated : get_elem? (updated h i l' g').shared.debug_groups i ≡ some g'
  group-updated =
      get_elem?-set_self h.shared.debug_groups i g'
        (get_elem?-lt h.shared.debug_groups i r.group r.has_group)

  pub queue-updated_self : queue (updated h i l' g') i ≡ pending l' g'
  queue-updated_self = rw (last-updated, group-updated)

  pub queue-updated_ne : (j : ℕ) → i ≢ j → queue (updated h i l' g') j ≡ queue h j
  queue-updated_ne j ne =
      rw (
        get_elem?-set_ne h.grp_logs_last i j l' ne,
        get_elem?-set_ne h.shared.debug_groups i j g' ne,
      )

  pub queue_of_ready : queue h i ≡ pending r.last r.group
  queue_of_ready = rw (r.has_last, r.has_group)

  ready-updated_ne : (j : ℕ) → i ≢ j → IsReadyAt h j → IsReadyAt (updated h i l' g') j
  ready-updated_ne j ne s = record {
    last = s.last;
    group = s.group;
    has_last = get_elem?-set_ne h.grp_logs_last i j l' ne ∙ s.has_last;
    has_group = get_elem?-set_ne h.shared.debug_groups i j g' ne ∙ s.has_group;
    ready = s.ready;
  }

  ready-updated_self : IsGroupReady l' g' → IsReadyAt (updated h i l' g') i
  ready-updated_self s = record {
    last = l';
    group = g';
    has_last = last-updated;
    has_group = group-updated;
    ready = s;
  }

  pub queue-updated :
      IsFetched r.last r.group l' g' → (j : ℕ) → queue (updated h i l' g') j ≡ queue h j
  queue-updated f j = elim (ℕ_discrete i j) [
    | no ne ↦ queue-updated_ne j ne
    | yes e ↦
        subst (λ k. queue (updated h i l' g') k ≡ queue h k) e
          (queue-updated_self ∙ f.same ∙ sym queue_of_ready)
  ]

  pub AreReady-updated : AreReady h → IsGroupReady l' g' → AreReady (updated h i l' g')
  AreReady-updated all s j below = elim (ℕ_discrete i j) [
    | no ne ↦ ready-updated_ne j ne (all j below)
    | yes e ↦ subst (λ k. IsReadyAt (updated h i l' g') k) e (ready-updated_self s)
  ]
