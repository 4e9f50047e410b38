-- ===== src/Profile/Statistics.antt =====
-- The statistics that a point gathers: runs of Stop with a value (RTDBG_PutProfVal).
use rt_debug_lib.Base.{
  ℕ, ◌+◌, ◌≤◌, ◌<◌, ◌≡◌, refl, ap, ◌∙◌, ◌⊎◌, inl, inr, some, List, [], ◌∷◌, ◌++◌, length, arith,
  Result, ok, Returns, Returns-result, u32_mod, u64_mod, ◌>>=◌, length-append,
}
use rt_debug_lib.Clock.{Timespec}
use rt_debug_lib.MemArea.{MemArea}
use rt_debug_lib.MemArea.Invariant.{used, capacity}
use rt_debug_lib.MemArea.Refine.{contents}
use rt_debug_lib.Profile.{ProfilePoint, ProfileData, reset_data, record_value, stop, update}
use rt_debug_lib.Profile.Update.{IsProfFifo, averaged, update_room}

-- The calls RTDBG_PutProfVal(&v) one after another; no reading is made for them.
abbrev epoch : Timespec
epoch = record { tv_sec = 0; tv_nsec = 0 }

pub put_values :
    ℕ
    → ℕ
    → List ℕ
    → ProfilePoint
    → MemArea ProfileData
    → Result (ProfilePoint × MemArea ProfileData)
put_values fifo_address buf_address [] p m = ok (p, m)
put_values fifo_address buf_address (v ∷ vs) p m = do
  (p', m') ← stop fifo_address buf_address epoch 0 (some v) p m
  put_values fifo_address buf_address vs p' m'

abbrev pub sum : List ℕ → ℕ
sum [] = 0
sum (v ∷ vs) = v + sum vs

abbrev pub AllLe : ℕ → List ℕ → Type 0
AllLe b [] = Unit {0}
AllLe b (v ∷ vs) = (v ≤ b) × AllLe b vs

abbrev pub Among : ℕ → List ℕ → Type 0
Among b [] = ⊥
Among b (v ∷ vs) = (b ≡ v) ⊎ Among b vs

-- `b` is the greatest of `a` and the values.
abbrev pub IsGreatest : ℕ → List ℕ → ℕ → Type 0
IsGreatest a vs b = (a ≤ b) × AllLe b vs × ((b ≡ a) ⊎ Among b vs)

-- What a run of values does to the data.
abbrev pub Gathered : ProfilePoint → List ℕ → ProfilePoint → Type 0
Gathered p vs q =
    (q.prof_data.meas_num ≡ p.prof_data.meas_num + length vs)
    × (q.prof_data.average_cnt ≡ p.prof_data.average_cnt + sum vs)
    × IsGreatest p.prof_data.max_cnt vs q.prof_data.max_cnt
    × (q.max_calls ≡ p.max_calls)
    × (q.mem_ptr ≡ p.mem_ptr)

AllLe-trans : (a b : ℕ) (vs : List ℕ) → a ≤ b → AllLe a vs → AllLe b vs
AllLe-trans a b [] h all = tt
AllLe-trans a b (v ∷ vs) h all = (omega arith, AllLe-trans a b vs h all.1)

module _ (fifo_address buf_address : ℕ) (m : MemArea ProfileData) where
  put_one :
      (v : ℕ) (p : ProfilePoint)
      → p.max_calls < u32_mod
      → p.prof_data.meas_num + 1 < p.max_calls
      → stop fifo_address buf_address epoch 0 (some v) p m ≡ ok (record_value v p, m)
  unfolding stop
  put_one v p small more = ground (arith, small, more)

  record_value-Gathered :
      (v : ℕ) (p : ProfilePoint)
      → p.prof_data.meas_num + 1 < u64_mod
      → p.prof_data.average_cnt + v < u64_mod
      → Gathered p (v ∷ []) (record_value v p)
  unfolding record_value
  record_value-Gathered v p small fits = ground (arith, small, fits)

  IsGreatest-trans :
      (a b c v : ℕ) (vs : List ℕ)
      → IsGreatest a (v ∷ []) b
      → IsGreatest b vs c
      → IsGreatest a (v ∷ vs) c
  IsGreatest-trans a b c v vs (le, all, which) (le', all', which') = (
    omega arith,
    (omega arith, all'),
    elim which' [
      | inr there ↦ inr (inr there)
      | inl same ↦ elim which [
        | inl e ↦ inl (same ∙ e)
        | inr (inl e) ↦ inr (inl (same ∙ e))
        | inr (inr none_left) ↦ absurd none_left
      ]
    ],
  )

  Gathered-trans :
      (p q r : ProfilePoint) (v : ℕ) (vs : List ℕ)
      → Gathered p (v ∷ []) q
      → Gathered q vs r
      → Gathered p (v ∷ vs) r
  Gathered-trans p q r v vs (num, total, most, calls, link) (num', total', most', calls', link') = (
    omega arith,
    omega arith,
    IsGreatest-trans p.prof_data.max_cnt q.prof_data.max_cnt r.prof_data.max_cnt v vs most most',
    calls' ∙ calls,
    link' ∙ link,
  )

  -- Fewer values than the update count, with a sum below 2^64, leave the FIFO alone: the point holds how many there were,
  -- their sum and the greatest of them, on top of what it held, and no call faults.
  pub put_values_gather :
      (vs : List ℕ) (p : ProfilePoint)
      → p.max_calls < u32_mod
      → p.prof_data.meas_num + length vs < p.max_calls
      → p.prof_data.average_cnt + sum vs < u64_mod
      → Returns
          (put_values fifo_address buf_address vs p m)
          λ out. Gathered p vs out.0 × (out.1 ≡ m)
  unfolding put_values
  put_values_gather [] p small more fits =
      ((omega arith, omega arith, (omega arith, tt, inl refl), refl, refl), refl)
  put_values_gather (v ∷ vs) p small more fits =
      let p' = record_value v p in
      let one : Gathered p (v ∷ []) p' = record_value-Gathered v p (omega arith) (omega arith) in
      let ((q, m'), run, (rest, same)) =
        Returns-result (put_values fifo_address buf_address vs p' m) _
          (put_values_gather vs p' (omega arith) (omega arith) (omega arith)) in
      rw (put_one v p small (omega arith), run) (Gathered-trans p p' q v vs one rest, same)

  -- What the value that fills the count hands on.
  pub record IsFlushed (p : ProfilePoint) (vs : List ℕ) (out : ProfilePoint × MemArea ProfileData)
      : Type 0 where
    pub full : ProfilePoint
    pub gathered : Gathered p vs full
    pub stored : contents out.1 ≡ contents m ++ averaged full.prof_data ∷ []
    pub fifo : IsProfFifo buf_address out.1
    pub cleared : out.0.prof_data ≡ reset_data

  put_last :
      (v : ℕ) (p : ProfilePoint)
      → p.max_calls < u32_mod
      → p.prof_data.meas_num + 1 ≡ p.max_calls
      → put_values fifo_address buf_address (v ∷ []) p m
        ≡ (update fifo_address buf_address (record_value v p) m >>= λ (p', m'). ok (p', m'))
  unfolding put_values stop record_value
  put_last v p small last = ground (arith, small, last)

  module _ (valid : IsProfFifo buf_address m) (room : used m < capacity m) where
    flush_last :
        (v : ℕ) (p : ProfilePoint)
        → p.mem_ptr ≡ fifo_address
        → p.max_calls < u32_mod
        → p.prof_data.meas_num + 1 ≡ p.max_calls
        → p.prof_data.average_cnt + v < u64_mod
        → Returns (put_values fifo_address buf_address (v ∷ []) p m) (IsFlushed p (v ∷ []))
    flush_last v p linked small last fits =
        let p' = record_value v p in
        let g : Gathered p (v ∷ []) p' = record_value-Gathered v p (omega arith) fits in
        let (num, total, most, calls, link) = g in
        let ((q, m'), run, (fifo, stored, cleared)) =
          Returns-result (update fifo_address buf_address p' m) _ (
            update_room fifo_address buf_address p' m valid (link ∙ linked) (λ e. omega arith)
              room) in
        rw (put_last v p small last, run)
          (record {
            full = p';
            gathered = g;
            stored = stored;
            fifo = fifo;
            cleared = ap (λ (r : ProfilePoint). r.prof_data) cleared;
          })

    -- The value that brings the number of measurements to the update count, in a point linked to the
    -- FIFO and for a sum below 2^64: every call returns, the
    -- FIFO, with room in it, gains one entry, for as many measurements as the count says, with the
    -- sum of their values divided by their number and the greatest value, on top of what the point
    -- held, and the point's data are cleared.
    pub put_values_flush :
        (vs : List ℕ) (v : ℕ) (p : ProfilePoint)
        → p.mem_ptr ≡ fifo_address
        → p.max_calls < u32_mod
        → p.prof_data.meas_num + length (vs ++ v ∷ []) ≡ p.max_calls
        → p.prof_data.average_cnt + sum (vs ++ v ∷ []) < u64_mod
        → Returns
            (put_values fifo_address buf_address (vs ++ v ∷ []) p m)
            (IsFlushed p (vs ++ v ∷ []))
    unfolding put_values
    put_values_flush [] v p linked small count fits =
        flush_last v p linked small count (omega arith)
    put_values_flush (w ∷ vs) v p linked small count fits =
        let p' = record_value w p in
        let some_left : length (vs ++ v ∷ []) ≡ length vs + 1 = length-append vs (v ∷ []) in
        let one : Gathered p (w ∷ []) p' = record_value-Gathered w p (omega arith) (omega arith) in
        let (num, total, most, calls, link) = one in
        let (out, run, flushed) =
          Returns-result (put_values fifo_address buf_address (vs ++ v ∷ []) p' m) _
            (put_values_flush vs v p' (link ∙ linked) (omega arith) (omega arith) (omega arith)) in
        rw (put_one w p small (omega arith), run)
          (record {
            full = flushed.full;
            gathered = Gathered-trans p p' flushed.full w (vs ++ v ∷ []) one flushed.gathered;
            stored = flushed.stored;
            fifo = flushed.fifo;
            cleared = flushed.cleared;
          })
