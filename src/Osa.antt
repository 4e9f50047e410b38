-- ===== src/Osa.antt =====
-- rt_debug_cpp/src/i_osa_api.h: the wrappers of pthread, with the priorities of i_os_common.h beside it.
-- The pthread calls are the fields of `Pthread`, over whatever state they keep; attributes, mutexes,
-- spinlocks and threads are numbers that name objects. ASSERT is on, as in every build of the repository.
pub mod Priority
use rt_debug_lib.Base.{
  ℕ, ◌+◌, ◌-◌, ◌%◌, ◌^◌, Bool, ltb, leb, ◌==◌, if◌then◌else◌, Result, ok, assert, ◌>>=◌, ◌>>◌,
}

-- SCHED_OTHER and SCHED_FIFO
pub data Policy : Type 0 where
  sched_other sched_fifo : Policy

-- Each call returns an int, as a bit pattern, and the new state; usleep's is never read.
pub record Pthread (S : Type 0) : Type 0 where
  pub attr_init : ℕ → S → ℕ × S
  pub attr_destroy : ℕ → S → ℕ × S
  pub attr_setstacksize : ℕ → ℕ → S → ℕ × S
  pub attr_setschedpolicy : ℕ → Policy → S → ℕ × S
  pub attr_setschedparam : ℕ → ℕ → S → ℕ × S
  pub sched_get_priority_max : Policy → ℕ
  pub create : ℕ → ℕ → ℕ → ℕ → S → ℕ × S
  pub mutex_init : ℕ → S → ℕ × S
  pub mutex_destroy : ℕ → S → ℕ × S
  pub mutex_trylock : ℕ → S → ℕ × S
  pub mutex_lock : ℕ → S → ℕ × S
  pub mutex_unlock : ℕ → S → ℕ × S
  pub spin_init : ℕ → S → ℕ × S
  pub spin_destroy : ℕ → S → ℕ × S
  pub spin_trylock : ℕ → S → ℕ × S
  pub spin_lock : ℕ → S → ℕ × S
  pub spin_unlock : ℕ → S → ℕ × S
  pub usleep : ℕ → S → S

-- `OSA_prio`: the last priority without real time, and the first number that is none.
abbrev pub osa_prio_low : ℕ
osa_prio_low = 4

abbrev pub osa_prio_max : ℕ
osa_prio_max = 13

-- ASSERT(call == 0)
abbrev pub succeeded : {S : Type 0} → ℕ × S → Result S
succeeded (res, s) = do assert (res == 0); ok s

module _ {S : Type 0} (os : Pthread S) where
  -- OSA_thread_attr_init does not look at the result.
  abbrev pub osa_thread_attr_init : ℕ → S → S
  osa_thread_attr_init attr_p s = (os.attr_init attr_p s).1

  abbrev pub osa_thread_attr_destroy : ℕ → S → Result S
  osa_thread_attr_destroy attr_p s = succeeded (os.attr_destroy attr_p s)

  abbrev pub osa_thread_attr_set_stack_size : ℕ → ℕ → S → Result S
  osa_thread_attr_set_stack_size attr stack_size s =
      succeeded (os.attr_setstacksize attr stack_size s)

  -- max_fifo - (OSA_PRIO_MAX - priority), as an int32_t
  abbrev pub fifo_priority : ℕ → ℕ
  fifo_priority priority =
      (os.sched_get_priority_max Policy.sched_fifo + 2 ^ 32 - (osa_prio_max - priority)) % 2 ^ 32

  unfoldable pub osa_thread_attr_set_priority : ℕ → ℕ → S → Result S
  osa_thread_attr_set_priority attr priority s = do
    assert (ltb priority osa_prio_max)
    if leb priority osa_prio_low
        then (do
          s1 ← succeeded (os.attr_setschedpolicy attr Policy.sched_other s)
          succeeded (os.attr_setschedparam attr priority s1))
        else (do
          s1 ← succeeded (os.attr_setschedpolicy attr Policy.sched_fifo s)
          succeeded (os.attr_setschedparam attr (fifo_priority priority) s1))

  abbrev pub osa_thread_create : ℕ → ℕ → ℕ → ℕ → S → Result S
  osa_thread_create thread thread_attr start_routine arg s =
      succeeded (os.create thread thread_attr start_routine arg s)

  abbrev pub osa_mutex_create : ℕ → S → Result S
  osa_mutex_create mutex s = succeeded (os.mutex_init mutex s)

  abbrev pub osa_mutex_destroy : ℕ → S → Result S
  osa_mutex_destroy mutex s = succeeded (os.mutex_destroy mutex s)

  abbrev pub osa_mutex_trylock : ℕ → S → ℕ × S
  osa_mutex_trylock mutex s = os.mutex_trylock mutex s

  abbrev pub osa_mutex_lock : ℕ → S → Result S
  osa_mutex_lock mutex s = succeeded (os.mutex_lock mutex s)

  abbrev pub osa_mutex_unlock : ℕ → S → Result S
  osa_mutex_unlock mutex s = succeeded (os.mutex_unlock mutex s)

  abbrev pub osa_spinlock_create : ℕ → S → Result S
  osa_spinlock_create lock s = succeeded (os.spin_init lock s)

  abbrev pub osa_spinlock_destroy : ℕ → S → Result S
  osa_spinlock_destroy lock s = succeeded (os.spin_destroy lock s)

  abbrev pub osa_spinlock_lock : ℕ → S → Result S
  osa_spinlock_lock lock s = succeeded (os.spin_lock lock s)

  abbrev pub osa_spinlock_trylock : ℕ → S → ℕ × S
  osa_spinlock_trylock lock s = os.spin_trylock lock s

  abbrev pub osa_spinlock_unlock : ℕ → S → Result S
  osa_spinlock_unlock lock s = succeeded (os.spin_unlock lock s)

  abbrev pub osa_sleep : ℕ → S → S
  osa_sleep ticks s = os.usleep ticks s
