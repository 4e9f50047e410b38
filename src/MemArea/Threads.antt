-- ===== src/MemArea/Threads.antt =====
-- PushFIFO_MT and PopFIFO_MT of StaticMemArea as their single accesses to the area, for any number of
-- threads: those that push exclude each other by in_lock_, those that pop by out_lock_, and a push and
-- a pop run side by side. Accesses take place one after another (sequential consistency).
pub mod Access
pub mod Order
pub mod Alone
use rt_debug_lib.Base.{
  ℕ, ◌%◌, ◌≡◌, ◌≢◌, Bool, true, false, some, List, [], ◌∷◌, ◌++◌, get_elem?, set, add32,
}
use rt_debug_lib.MemArea.{MemArea}
use rt_debug_lib.MemArea.Refine.{contents}

-- Where the thread inside PushFIFO_MT is: before the test, before memcpy, before the write of wr_ind_,
-- before the unlock.
pub data Writer (A : Type 0) : Type 0 where
  no_writer : Writer A
  testing_room writing advancing : A → Writer A
  leaving_push : Writer A

-- The same inside PopFIFO_MT, which writes rd_ind_ before memcpy.
pub data Reader : Type 0 where
  no_reader testing_items taking reading leaving_pop : Reader

-- `pushed` and `popped` list the items whose wr_ind_ was written and those that were copied out.
pub record System (A : Type 0) : Type 0 where
  pub area : MemArea A
  pub writer : Writer A
  pub reader : Reader
  pub pushed : List A
  pub popped : List A

module _ {A : Type 0} where
  abbrev pub next_wr : MemArea A → ℕ
  next_wr m = add32 m.wr_ind 1 % m.number_chunks

  abbrev pub next_rd : MemArea A → ℕ
  next_rd m = add32 m.rd_ind 1 % m.number_chunks

  -- One access. A lock is only taken where it is free, by any thread.
  pub data Step : System A → System A → Type 0 where
    lock_push :
        (m : MemArea A) (w : Writer A) (r : Reader) (ps qs : List A) (x : A)
        → m.in_lock ≡ false
        → Step
            (record { area = m; writer = w; reader = r; pushed = ps; popped = qs })
            (record {
              area = record m { in_lock = true };
              writer = testing_room x;
              reader = r;
              pushed = ps;
              popped = qs;
            })
    find_full :
        (m : MemArea A) (r : Reader) (ps qs : List A) (x : A)
        → next_wr m ≡ m.rd_ind
        → Step
            (record { area = m; writer = testing_room x; reader = r; pushed = ps; popped = qs })
            (record { area = m; writer = leaving_push; reader = r; pushed = ps; popped = qs })
    find_room :
        (m : MemArea A) (r : Reader) (ps qs : List A) (x : A)
        → next_wr m ≢ m.rd_ind
        → Step
            (record { area = m; writer = testing_room x; reader = r; pushed = ps; popped = qs })
            (record { area = m; writer = writing x; reader = r; pushed = ps; popped = qs })
    write :
        (m : MemArea A) (r : Reader) (ps qs : List A) (x : A)
        → Step
            (record { area = m; writer = writing x; reader = r; pushed = ps; popped = qs })
            (record {
              area = record m { buf = set m.buf m.wr_ind x };
              writer = advancing x;
              reader = r;
              pushed = ps;
              popped = qs;
            })
    advance :
        (m : MemArea A) (r : Reader) (ps qs : List A) (x : A)
        → Step
            (record { area = m; writer = advancing x; reader = r; pushed = ps; popped = qs })
            (record {
              area = record m { wr_ind = next_wr m };
              writer = leaving_push;
              reader = r;
              pushed = ps ++ x ∷ [];
              popped = qs;
            })
    unlock_push :
        (m : MemArea A) (r : Reader) (ps qs : List A)
        → Step
            (record { area = m; writer = leaving_push; reader = r; pushed = ps; popped = qs })
            (record {
              area = record m { in_lock = false };
              writer = no_writer;
              reader = r;
              pushed = ps;
              popped = qs;
            })
    lock_pop :
        (m : MemArea A) (w : Writer A) (r : Reader) (ps qs : List A)
        → m.out_lock ≡ false
        → Step
            (record { area = m; writer = w; reader = r; pushed = ps; popped = qs })
            (record {
              area = record m { out_lock = true };
              writer = w;
              reader = testing_items;
              pushed = ps;
              popped = qs;
            })
    find_empty :
        (m : MemArea A) (w : Writer A) (ps qs : List A)
        → next_rd m ≡ m.wr_ind
        → Step
            (record { area = m; writer = w; reader = testing_items; pushed = ps; popped = qs })
            (record { area = m; writer = w; reader = leaving_pop; pushed = ps; popped = qs })
    find_item :
        (m : MemArea A) (w : Writer A) (ps qs : List A)
        → next_rd m ≢ m.wr_ind
        → Step
            (record { area = m; writer = w; reader = testing_items; pushed = ps; popped = qs })
            (record { area = m; writer = w; reader = taking; pushed = ps; popped = qs })
    take :
        (m : MemArea A) (w : Writer A) (ps qs : List A)
        → Step
            (record { area = m; writer = w; reader = taking; pushed = ps; popped = qs })
            (record {
              area = record m { rd_ind = next_rd m };
              writer = w;
              reader = reading;
              pushed = ps;
              popped = qs;
            })
    copy :
        (m : MemArea A) (w : Writer A) (ps qs : List A) (x : A)
        → get_elem? m.buf m.rd_ind ≡ some x
        → Step
            (record { area = m; writer = w; reader = reading; pushed = ps; popped = qs })
            (record {
              area = m;
              writer = w;
              reader = leaving_pop;
              pushed = ps;
              popped = qs ++ x ∷ [];
            })
    unlock_pop :
        (m : MemArea A) (w : Writer A) (ps qs : List A)
        → Step
            (record { area = m; writer = w; reader = leaving_pop; pushed = ps; popped = qs })
            (record {
              area = record m { out_lock = false };
              writer = w;
              reader = no_reader;
              pushed = ps;
              popped = qs;
            })

  -- Any number of accesses.
  pub data Reaches : System A → System A → Type 0 where
    stay : {s : System A} → Reaches s s
    and_then : {s t u : System A} → Reaches s t → Step t u → Reaches s u

  -- No thread is inside, and the area's items count as pushed.
  abbrev pub at_rest : MemArea A → System A
  at_rest m = record {
    area = m;
    writer = no_writer;
    reader = no_reader;
    pushed = contents m;
    popped = [];
  }
