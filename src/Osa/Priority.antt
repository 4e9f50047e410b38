-- ===== src/Osa/Priority.antt =====
-- OSA_thread_attr_set_priority over the scheduling calls as Linux documents them.
use rt_debug_lib.Base.{
  ℕ, ◌+◌, ◌≤◌, ◌<◌, ◌≡◌, ◌≢◌, ap, ap₂, ◌∙◌, arith, ok, err, Fault, map_ok, or_fault, if◌then◌else◌,
  leb, ltb, ◌==◌, Option, none, some, dec_lt, ℕ_discrete,
}
use rt_debug_lib.Osa.{
  Policy, sched_other, sched_fifo, Pthread, succeeded, osa_prio_low, osa_prio_max, fifo_priority,
  osa_thread_attr_set_priority,
}

-- The static priorities of a policy: 0 alone, or 1 to 99.
abbrev pub lowest : Policy → ℕ
lowest sched_other = 0
lowest sched_fifo = 1

abbrev pub highest : Policy → ℕ
highest sched_other = 0
highest sched_fifo = 99

-- pthread_attr_setschedpolicy sets either policy of a thread's attributes; pthread_attr_setschedparam
-- returns 0 and sets a priority of the attributes' policy, and returns another number for any other
-- one. `policy` and `priority` are what the attributes hold.
pub record IsSched {S : Type 0} (os : Pthread S) : Type 0 where
  pub policy : ℕ → S → Policy
  pub priority : ℕ → S → ℕ
  pub max : os.sched_get_priority_max sched_fifo ≡ 99
  pub set_policy_ok : (a : ℕ) (p : Policy) (s : S) → (os.attr_setschedpolicy a p s).0 ≡ 0
  pub set_policy : (a : ℕ) (p : Policy) (s : S) → policy a (os.attr_setschedpolicy a p s).1 ≡ p
  pub set_priority :
      (a v : ℕ) (s : S)
      → lowest (policy a s) ≤ v
      → v ≤ highest (policy a s)
      → let out = os.attr_setschedparam a v s in
        (out.0 ≡ 0) × (policy a out.1 ≡ policy a s) × (priority a out.1 ≡ v)
  pub refuse_priority :
      (a v : ℕ) (s : S) → highest (policy a s) < v → (os.attr_setschedparam a v s).0 ≢ 0

-- What a priority stands for: the lowest one is that of a thread without real time, those above
-- OSA_PRIO_LOW are real-time priorities below the highest, and those between have no place.
abbrev pub meaning : ℕ → Option (Policy × ℕ)
meaning p =
    if p == 0
    then some (sched_other, 0)
    else if leb p osa_prio_low
    then none
    else if ltb p osa_prio_max
    then some (sched_fifo, 86 + p)
    else none

module _ {S : Type 0} (os : Pthread S) (sched : IsSched os) (a p : ℕ) (s : S) where
  abbrev attributes : S → Policy × ℕ
  attributes t = (sched.policy a t, sched.priority a t)

  -- The state after the policy is set.
  abbrev with_policy : Policy → S
  with_policy pol = (os.attr_setschedpolicy a pol s).1

  param_set :
      (pol : Policy) (v : ℕ)
      → lowest pol ≤ v
      → v ≤ highest pol
      → map_ok attributes (succeeded (os.attr_setschedparam a v (with_policy pol))) ≡ ok (pol, v)
  param_set pol v lo hi =
      let is = sched.set_policy a pol s in
      let (zero_result, kept, stored) =
        sched.set_priority a v (with_policy pol) (rw is lo) (rw is hi) in
      rw zero_result (ap₂ (λ x y. ok (x, y)) (kept ∙ is) stored)

  param_refused :
      (pol : Policy) (v : ℕ)
      → highest pol < v
      → succeeded (os.attr_setschedparam a v (with_policy pol)) ≡ err Fault.assert_failed
  param_refused pol v above =
      let is = sched.set_policy a pol s in
      let failed = sched.refuse_priority a v (with_policy pol) (rw is above) in
      ground (arith, failed)

  low_run :
      p ≤ osa_prio_low
      → osa_thread_attr_set_priority os a p s
        ≡ succeeded (os.attr_setschedparam a p (with_policy sched_other))
  unfolding osa_thread_attr_set_priority
  low_run low = ground (arith, sched.set_policy_ok a sched_other s)

  high_run :
      osa_prio_low < p
      → p < osa_prio_max
      → osa_thread_attr_set_priority os a p s
        ≡ succeeded (os.attr_setschedparam a (86 + p) (with_policy sched_fifo))
  unfolding osa_thread_attr_set_priority
  high_run above below =
      let value : fifo_priority os p ≡ 86 + p = rw sched.max (omega arith) in
      ground (arith, sched.set_policy_ok a sched_fifo s, value)

  too_high_run : osa_prio_max ≤ p → osa_thread_attr_set_priority os a p s ≡ err Fault.assert_failed
  unfolding osa_thread_attr_set_priority
  too_high_run above = ground arith

  -- OSA_thread_attr_set_priority on Linux, where a thread without real time has the priority 0 only
  -- and SCHED_FIFO has 1 to 99: OSA_PRIO_LOWEST gives the attributes SCHED_OTHER and 0, a priority above
  -- OSA_PRIO_LOW and below OSA_PRIO_MAX gives SCHED_FIFO and that number plus 86; the call aborts for the four
  -- priorities from OSA_PRIO_ALMOST_LOWEST to OSA_PRIO_LOW, and from OSA_PRIO_MAX on.
  pub set_priority-eq-meaning :
      map_ok attributes (osa_thread_attr_set_priority os a p s)
      ≡ or_fault (meaning p) Fault.assert_failed
  set_priority-eq-meaning = elim (dec_lt osa_prio_low p) [
    | no low ↦ elim (ℕ_discrete p 0) [
      | yes e ↦
          ap (map_ok attributes) (low_run (omega arith))
          ∙ param_set sched_other p (omega arith) (omega arith)
          ∙ ground (arith, e)
      | no ne ↦
          ap (map_ok attributes) (low_run (omega arith) ∙ param_refused sched_other p (omega arith))
          ∙ ground arith
    ]
    | yes above ↦ elim (dec_lt p osa_prio_max) [
      | yes below ↦
          ap (map_ok attributes) (high_run above below)
          ∙ param_set sched_fifo (86 + p) (omega arith) (omega arith)
          ∙ ground arith
      | no out ↦ ap (map_ok attributes) (too_high_run (omega arith)) ∙ ground arith
    ]
  ]
