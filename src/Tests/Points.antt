-- ===== src/Tests/Points.antt =====
-- Runs of the profiler points and their FIFOs on small states.
use rt_debug_lib.Base.{◌+◌, ◌≡◌, refl, List, [], ◌∷◌, ◌++◌, arith, Returns}
use rt_debug_lib.CString.{codes}
use rt_debug_lib.Clock.{Timespec, nanos}
use rt_debug_lib.MemArea.Refine.{contents}
use rt_debug_lib.Profile.{ProfileData, reset_data, update}
use rt_debug_lib.Profile.Measure.{gaps, InOrder, run_segments, run_segments_accumulate}
use rt_debug_lib.Profile.Update.{IsProfFifo, averaged, update_room, update_full_loses}
use rt_debug_lib.Profile.Statistics.{put_values, IsFlushed, put_values_flush}
use rt_debug_lib.ProfilerGroup.{get_prof_info}
use rt_debug_lib.ProfilerGroup.Drain.{Reports, IsDrained, get_prof_info_lem}
use rt_debug_lib.Tests.{
  area-IsValid, address, seconds, point, data_of, empty_prof_fifo, full_prof_fifo, profilers,
}

empty_fifo : IsProfFifo address empty_prof_fifo
empty_fifo = record {
  valid =
      area-IsValid 3 1 0 (reset_data ∷ reset_data ∷ reset_data ∷ []) (omega arith) (omega arith)
        (omega arith) (omega arith) (omega arith) (omega arith);
  producer = refl;
  consumer = refl;
}

pub full_fifo : IsProfFifo address full_prof_fifo
full_fifo = record {
  valid =
      area-IsValid 3 2 0 (reset_data ∷ data_of 5 ∷ reset_data ∷ []) (omega arith) (omega arith)
        (omega arith) (omega arith) (omega arith) (omega arith);
  producer = refl;
  consumer = refl;
}

update_room_example : Returns (update 8192 address (point (data_of 9)) empty_prof_fifo) λ out.
    IsProfFifo address out.1
    × (contents out.1 ≡ averaged (data_of 9) ∷ [])
    × (out.0 ≡ point reset_data)
update_room_example =
    update_room 8192 address (point (data_of 9)) empty_prof_fifo empty_fifo refl (omega arith)
      (omega arith)

update_full_loses_example : Returns (update 8192 address (point (data_of 9)) full_prof_fifo) λ out.
    IsProfFifo address out.1
    × ((oldest : ProfileData) × (rest : List ProfileData) × (contents full_prof_fifo
          ≡ oldest ∷ rest)
        × (contents out.1 ≡ rest ++ oldest ∷ []))
    × (out.0 ≡ point reset_data)
update_full_loses_example =
    update_full_loses 8192 address (point (data_of 9)) full_prof_fifo full_fifo refl (omega arith)
      refl

put_values_flush_example :
    Returns
      (put_values 8192 address (7 ∷ 4 ∷ []) (point reset_data) empty_prof_fifo)
      (IsFlushed 8192 address empty_prof_fifo (point reset_data) (7 ∷ 4 ∷ []))
put_values_flush_example =
    put_values_flush 8192 address empty_prof_fifo empty_fifo (omega arith) (7 ∷ []) 4
      (point reset_data) refl (omega arith) (omega arith) (omega arith)

abbrev rounds : List (Timespec × Timespec)
rounds = (seconds 1, seconds 2) ∷ (seconds 4, seconds 7) ∷ []

rounds-InOrder : InOrder rounds
unfolding nanos
rounds-InOrder =
    (omega arith, omega arith, omega arith, (omega arith, omega arith, omega arith, tt))

run_segments_example :
    Returns
      (run_segments rounds (point reset_data))
      λ q. (q.acc_cnt ≡ 0 + gaps rounds) × (q.start_val ≡ 0) × (q.delta ≡ 0)
unfolding nanos
run_segments_example =
    run_segments_accumulate rounds (point reset_data) refl refl rounds-InOrder (omega arith)

get_prof_info_example : Returns (get_prof_info 80 0 (profilers full_prof_fifo 1)) λ (r, g').
    Reports (data_of 5 ∷ []) (codes "sample") r
    × IsDrained 80 0 (profilers full_prof_fifo 1) full_prof_fifo g'
get_prof_info_example =
    get_prof_info_lem 80 0 (profilers full_prof_fifo 1) full_prof_fifo (omega arith) refl
      full_fifo.valid (omega arith) (omega arith) (omega arith, tt) (omega arith) (omega arith)
