-- ===== src/Tests/Fifo.antt =====
-- Runs of the areas and of the clock on small states.
use rt_debug_lib.Base.{◌≡◌, refl, [], ◌∷◌, arith, Returns}
use rt_debug_lib.Queue
use rt_debug_lib.MemArea.{push_fifo_mt, pop_fifo_mt, push_over_rounds}
use rt_debug_lib.MemArea.Invariant.{IsValid, capacity}
use rt_debug_lib.MemArea.Refine.{contents, push_refines, pop_refines}
use rt_debug_lib.MemArea.Overwrite.{push_over_refines}
use rt_debug_lib.MemArea.Pool.{IsPool}
use rt_debug_lib.Tests.{area-IsValid, empty_area, full_area}

empty_area-IsValid : IsValid 64 empty_area
empty_area-IsValid =
    area-IsValid 3 1 0 (0 ∷ 0 ∷ 0 ∷ []) (omega arith) (omega arith) (omega arith) (omega arith)
      (omega arith) (omega arith)

full_area-IsValid : IsValid 64 full_area
full_area-IsValid =
    area-IsValid 3 2 0 (0 ∷ 5 ∷ 0 ∷ []) (omega arith) (omega arith) (omega arith) (omega arith)
      (omega arith) (omega arith)

push_refines_example :
    Returns
      (push_fifo_mt 64 7 empty_area)
      λ out. IsValid 64 out.1 × (capacity out.1 ≡ 1) × ((out.0, contents out.1) ≡ Queue.push 1 [] 7)
push_refines_example = push_refines 64 empty_area-IsValid 7

pop_refines_example :
    Returns (pop_fifo_mt 64 full_area) λ out.
      IsValid 64 out.1 × (capacity out.1 ≡ 1) × ((out.0, contents out.1) ≡ Queue.pop (5 ∷ []))
pop_refines_example = pop_refines 64 full_area-IsValid

push_over_refines_example :
    Returns
      (push_over_rounds 64 2 7 full_area)
      λ m'. IsValid 64 m' × (capacity m' ≡ 1) × (contents m' ≡ 7 ∷ [])
push_over_refines_example = push_over_refines 64 full_area-IsValid 0 7

full_area-IsPool : IsPool 64 full_area
full_area-IsPool = record {
  some_chunk = omega arith;
  few = omega arith;
  room = omega arith;
  sized = refl;
  nonempty = omega arith;
  narrow = omega arith;
  wr_in = omega arith;
  out_free = refl;
}
