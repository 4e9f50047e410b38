-- ===== src/Tests/Threads.antt =====
-- A push and a pop side by side on an area that holds one item.
use rt_debug_lib.Base.{ℕ, refl, true, [], ◌∷◌, arith, Returns}
use rt_debug_lib.MemArea.{MemArea, push_fifo_mt, pop_fifo_mt}
use rt_debug_lib.MemArea.Invariant.{IsValid}
use rt_debug_lib.MemArea.Threads.{
  System, Step, Reaches, no_writer, testing_room, leaving_push, no_reader, taking, leaving_pop,
  at_rest, lock_push, find_full, lock_pop, find_item, take, copy, stay, and_then,
}
use rt_debug_lib.MemArea.Threads.Access.{IsConsistent}
use rt_debug_lib.MemArea.Threads.Order.{run-IsConsistent}
use rt_debug_lib.MemArea.Threads.Alone.{calls_alone, inside_push, inside_pop, popping, returned}
use rt_debug_lib.Tests.{area, area-IsValid, full_area}

abbrev roomy_area : MemArea ℕ
roomy_area = area 4 2 0 (0 ∷ 5 ∷ 0 ∷ 0 ∷ [])

full_area-IsValid : IsValid 64 full_area
full_area-IsValid =
    area-IsValid 3 2 0 (0 ∷ 5 ∷ 0 ∷ []) (omega arith) (omega arith) (omega arith) (omega arith)
      (omega arith) (omega arith)

roomy_area-IsValid : IsValid 64 roomy_area
roomy_area-IsValid =
    area-IsValid 4 2 0 (0 ∷ 5 ∷ 0 ∷ 0 ∷ []) (omega arith) (omega arith) (omega arith) (omega arith)
      (omega arith) (omega arith)

-- A push finds the FIFO full while a pop is on its way.
abbrev both_inside : MemArea ℕ
both_inside = record full_area { in_lock = true; out_lock = true }

abbrev midway : System ℕ
midway = record {
  area = record both_inside { rd_ind = 1 };
  writer = leaving_push;
  reader = leaving_pop;
  pushed = 5 ∷ [];
  popped = 5 ∷ [];
}

interleaved : Reaches (at_rest full_area) midway
interleaved =
    and_then
      (and_then
        (and_then
          (and_then
            (and_then (and_then stay (lock_push full_area no_writer no_reader (5 ∷ []) [] 7 refl)) (
              lock_pop (record full_area { in_lock = true }) (testing_room 7) no_reader (5 ∷ []) []
                refl))
            (find_item both_inside (testing_room 7) (5 ∷ []) [] (omega arith)))
          (find_full both_inside taking (5 ∷ []) [] 7 refl))
        (take both_inside leaving_push (5 ∷ []) []))
      (copy (record both_inside { rd_ind = 1 }) leaving_push (5 ∷ []) [] 5 refl)

run-IsConsistent_example : IsConsistent 64 midway
run-IsConsistent_example = run-IsConsistent 64 full_area midway full_area-IsValid interleaved

calls_alone_example :
    Returns (push_fifo_mt 64 7 roomy_area) (λ out.
      Step (at_rest roomy_area) (inside_push 64 roomy_area-IsValid 7)
      × Reaches (inside_push 64 roomy_area-IsValid 7) (at_rest out.1))
    × Returns (pop_fifo_mt 64 roomy_area) (λ out.
      Step (at_rest roomy_area) (inside_pop 64 roomy_area-IsValid)
      × Reaches
          (inside_pop 64 roomy_area-IsValid)
          (popping 64 roomy_area-IsValid out.1 no_reader (returned out.0)))
calls_alone_example = calls_alone 64 roomy_area-IsValid 7
