-- ===== src/Tests/System.antt =====
-- Runs of the thread wrappers over a small Linux.
use rt_debug_lib.Base.{ℕ, ◌≤◌, ◌<◌, ◌≡◌, ◌≢◌, refl, if◌then◌else◌, leb, arith, ok, map_ok}
use rt_debug_lib.Osa.{Policy, sched_other, sched_fifo, Pthread, osa_thread_attr_set_priority}
use rt_debug_lib.Osa.Priority.{IsSched, highest, set_priority-eq-meaning}

-- One attributes object; a call that is not about it does nothing.
abbrev Attributes : Type 0
Attributes = Policy × ℕ

abbrev done : ℕ → Attributes → ℕ × Attributes
done object s = (0, s)

abbrev set_param : ℕ → ℕ → Attributes → ℕ × Attributes
set_param a v (pol, old) = if leb v (highest pol) then (0, (pol, v)) else (22, (pol, old))

abbrev linux : Pthread Attributes
linux = record {
  attr_init = done;
  attr_destroy = done;
  attr_setstacksize = λ a size s. (0, s);
  attr_setschedpolicy = λ a pol s. (0, (pol, s.1));
  attr_setschedparam = set_param;
  sched_get_priority_max = highest;
  create = λ thread attr start arg s. (0, s);
  mutex_init = done;
  mutex_destroy = done;
  mutex_trylock = done;
  mutex_lock = done;
  mutex_unlock = done;
  spin_init = done;
  spin_destroy = done;
  spin_trylock = done;
  spin_lock = done;
  spin_unlock = done;
  usleep = λ ticks s. s;
}

set_param_ok :
    (a v : ℕ) (s : Attributes)
    → v ≤ highest s.0
    → let out = set_param a v s in (out.0 ≡ 0) × (out.1.0 ≡ s.0) × (out.1.1 ≡ v)
set_param_ok a v (pol, old) h = ground arith

set_param_refuses : (a v : ℕ) (s : Attributes) → highest s.0 < v → (set_param a v s).0 ≢ 0
set_param_refuses a v (pol, old) h = ground arith

linux-IsSched : IsSched linux
linux-IsSched = record {
  policy = λ a s. s.0;
  priority = λ a s. s.1;
  max = refl;
  set_policy_ok = λ a p s. refl;
  set_policy = λ a p s. refl;
  set_priority = λ a v s lo hi. set_param_ok a v s hi;
  refuse_priority = set_param_refuses;
}

set_priority-eq-meaning_example :
    map_ok {B = Policy × ℕ}
      (λ (t : Attributes). (t.0, t.1))
      (osa_thread_attr_set_priority linux 5 9 (sched_other, 0))
    ≡ ok (sched_fifo, 95)
unfolding linux-IsSched
set_priority-eq-meaning_example = set_priority-eq-meaning linux linux-IsSched 5 9 (sched_other, 0)
