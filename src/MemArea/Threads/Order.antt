-- ===== src/MemArea/Threads/Order.antt =====
-- The order of items in every interleaving of the accesses of PushFIFO_MT and PopFIFO_MT.
use rt_debug_lib.Base.{
  ℕ, refl, ap, ap₂, sym, ◌∙◌, [], ◌∷◌, ◌++◌, get_elem?, arith, get_elem?-set_self, append_assoc,
  append-nil,
}
use rt_debug_lib.MemArea.{MemArea}
use rt_debug_lib.MemArea.Invariant.{IsValid}
use rt_debug_lib.MemArea.Slots.{cons_some}
use rt_debug_lib.MemArea.Refine.{contents}
use rt_debug_lib.MemArea.Threads.{
  System, Step, Reaches, next_rd, at_rest, lock_push, find_full, find_room, write, advance,
  unlock_push, lock_pop, find_empty, find_item, take, copy, unlock_pop, stay, and_then,
}
use rt_debug_lib.MemArea.Threads.Access.{
  IsConsistent, in_flight, IsReaderReady-map, no_flight, in_flight-set, IsWriterReady-map,
  apart_next, written-IsValid, contents-written, advanced-IsValid, contents-advanced, taken-IsValid,
  contents-taken,
}

module _ {A : Type 0} (size_of : ℕ) where
  step-IsConsistent : (s t : System A) → Step s t → IsConsistent size_of s → IsConsistent size_of t
  step-IsConsistent s t (lock_push m w r ps qs x free) c = record {
    valid = c.valid;
    in_held = refl;
    out_held = c.out_held;
    writes = tt;
    reads = c.reads;
    order = c.order;
  }
  step-IsConsistent s t (find_full m r ps qs x full) c = record {
    valid = c.valid;
    in_held = c.in_held;
    out_held = c.out_held;
    writes = tt;
    reads = c.reads;
    order = c.order;
  }
  step-IsConsistent s t (find_room m r ps qs x found) c = record {
    valid = c.valid;
    in_held = c.in_held;
    out_held = c.out_held;
    writes = found;
    reads = c.reads;
    order = c.order;
  }
  step-IsConsistent s t (write m r ps qs x) c =
      let v = c.valid in
      record {
        valid = written-IsValid size_of m v x;
        in_held = c.in_held;
        out_held = c.out_held;
        writes = (c.writes, get_elem?-set_self m.buf m.wr_ind x (omega (arith, v)));
        reads = c.reads;
        order =
            c.order
            ∙ ap₂ (λ a b. qs ++ a ++ b) (sym (in_flight-set m.buf m.wr_ind m.rd_ind x r v.apart))
                (sym (contents-written size_of m v x));
      }
  step-IsConsistent s t (advance m r ps qs x) c =
      let v = c.valid in
      let flight = in_flight m.buf m.rd_ind r in
      record {
        valid = advanced-IsValid size_of m v x c.writes.1 c.writes.0;
        in_held = c.in_held;
        out_held = c.out_held;
        writes = tt;
        reads = IsReaderReady-map (λ ne e. apart_next size_of m v (sym e)) r c.reads;
        order =
            ap (λ l. l ++ x ∷ []) c.order
            ∙ append_assoc (qs ++ flight) (contents m) (x ∷ [])
            ∙ ap (λ l. qs ++ flight ++ l)
                (sym (contents-advanced size_of m v x c.writes.1 c.writes.0));
      }
  step-IsConsistent s t (unlock_push m r ps qs) c = record {
    valid = c.valid;
    in_held = refl;
    out_held = c.out_held;
    writes = tt;
    reads = c.reads;
    order = c.order;
  }
  step-IsConsistent s t (lock_pop m w r ps qs free) c = record {
    valid = c.valid;
    in_held = c.in_held;
    out_held = refl;
    writes = c.writes;
    reads = tt;
    order =
        c.order
        ∙ ap (λ l. qs ++ l ++ contents m) (no_flight m.buf m.rd_ind r (sym c.out_held ∙ free));
  }
  step-IsConsistent s t (find_empty m w ps qs empty) c = record {
    valid = c.valid;
    in_held = c.in_held;
    out_held = c.out_held;
    writes = c.writes;
    reads = tt;
    order = c.order;
  }
  step-IsConsistent s t (find_item m w ps qs item) c = record {
    valid = c.valid;
    in_held = c.in_held;
    out_held = c.out_held;
    writes = c.writes;
    reads = item;
    order = c.order;
  }
  step-IsConsistent s t (take m w ps qs) c =
      let v = c.valid in
      record {
        valid = taken-IsValid size_of m v c.reads;
        in_held = c.in_held;
        out_held = c.out_held;
        writes = IsWriterReady-map m.buf m.wr_ind (λ ne. apart_next size_of m v) w c.writes;
        reads = tt;
        order =
            c.order
            ∙ append_assoc qs [] (contents m)
            ∙ ap (λ l. qs ++ l) (contents-taken size_of m v c.reads)
            ∙ sym (append_assoc qs (cons_some (get_elem? m.buf (next_rd m)) []) _);
      }
  step-IsConsistent s t (copy m w ps qs x here) c = record {
    valid = c.valid;
    in_held = c.in_held;
    out_held = c.out_held;
    writes = c.writes;
    reads = tt;
    order =
        c.order
        ∙ ap (λ o. qs ++ cons_some o [] ++ contents m) here
        ∙ ap (λ l. l ++ contents m) (sym (append-nil (qs ++ x ∷ [])));
  }
  step-IsConsistent s t (unlock_pop m w ps qs) c = record {
    valid = c.valid;
    in_held = c.in_held;
    out_held = refl;
    writes = c.writes;
    reads = tt;
    order = c.order;
  }

  run_from : (s t : System A) → Reaches s t → IsConsistent size_of s → IsConsistent size_of t
  run_from s t stay c = c
  run_from s u (and_then {t} run step) c = step-IsConsistent t u step (run_from s t run c)

  -- After any number of accesses of any threads that push into and pop from a valid FIFO, the area is
  -- valid but for its locks, which say whether a thread is inside, and the items pushed so far, with those
  -- that stood in the FIFO first, are those popped, then the one that is about to be copied, then those in
  -- the FIFO, in this order: no item is lost, doubled or out of order.
  pub run-IsConsistent :
      (m : MemArea A) (s : System A)
      → IsValid size_of m
      → Reaches (at_rest m) s
      → IsConsistent size_of s
  run-IsConsistent m s v run = run_from (at_rest m) s run (record {
    valid = ground (arith, v);
    in_held = v.in_free;
    out_held = v.out_free;
    writes = tt;
    reads = tt;
    order = refl;
  })
