-- ===== src/Logger/Laws.antt =====
-- AddLog and GetLogEntry of CLog_group against the queue of the newest logs.
use rt_debug_lib.Base.{
  ℕ, ◌-◌, ◌<◌, ◌≡◌, refl, ap, ap₂, ◌∙◌, List, [], ◌∷◌, ◌++◌, map, length, arith, Result, ok,
  Returns, Returns-result, ◌>>=◌,
}
use rt_debug_lib.CString.{CStr}
use rt_debug_lib.Clock.{Timespec}
use rt_debug_lib.Queue.{push_over_all, keep_last, push_over_all-keep_last}
use rt_debug_lib.MemArea.{push_over_rounds}
use rt_debug_lib.MemArea.Invariant.{IsValid, capacity}
use rt_debug_lib.MemArea.Refine.{contents, length-contents, used-le}
use rt_debug_lib.MemArea.Overwrite.{push_over_refines}
use rt_debug_lib.Logger.{LogEntry, LogGroup, log_entry_size, new_entry, add_log}

abbrev pub logs : LogGroup → List LogEntry
logs g = contents g.logs_fifo

abbrev pub IsLogGroup : LogGroup → Type 0
IsLogGroup g = IsValid log_entry_size g.logs_fifo

-- The calls of AddLog one after another, each with the time that it reads.
pub add_logs : List (Timespec × CStr) → LogGroup → Result LogGroup
add_logs [] g = ok g
add_logs ((now, s) ∷ cs) g = do g' ← add_log now s g; add_logs cs g'

abbrev pub entry_of : Timespec × CStr → LogEntry
entry_of (now, s) = new_entry now s

-- What a run of AddLog calls establishes.
abbrev pub Adds : LogGroup → List (Timespec × CStr) → LogGroup → Type 0
Adds g cs g' =
    IsLogGroup g'
    × (capacity g'.logs_fifo ≡ capacity g.logs_fifo)
    × (g'.group_name ≡ g.group_name)
    × (logs g' ≡ push_over_all (capacity g.logs_fifo) (logs g) (map entry_of cs))

pub add_log-Adds :
    (g : LogGroup) (now : Timespec) (s : CStr)
    → IsLogGroup g
    → (g' : LogGroup) × (add_log now s g ≡ ok g') × Adds g ((now, s) ∷ []) g'
unfolding add_log
add_log-Adds g now s v =
    let (fifo, run, stored) =
      Returns-result (push_over_rounds log_entry_size 2 (new_entry now s) g.logs_fifo) _
        (push_over_refines log_entry_size v 0 (new_entry now s)) in
    (record g { logs_fifo = fifo }, rw run, (stored.0, stored.1, refl, stored.2))

add_logs-Adds :
    (cs : List (Timespec × CStr)) (g : LogGroup)
    → IsLogGroup g
    → Returns (add_logs cs g) (Adds g cs)
unfolding add_logs
add_logs-Adds [] g v = (v, refl, refl, refl)
add_logs-Adds ((now, s) ∷ cs) g v =
    let (g', run, first) = add_log-Adds g now s v in
    let (g'', run', rest) =
      Returns-result (add_logs cs g') (Adds g' cs) (add_logs-Adds cs g' first.0) in
    rw (run, run') (rest.0, rest.1 ∙ first.1, rest.2 ∙ first.2, rest.3 ∙ restart first.1 first.3)
  where
    restart :
        {a b : ℕ} {l l' : List LogEntry}
        → a ≡ b
        → l ≡ l'
        → push_over_all a l (map entry_of cs) ≡ push_over_all b l' (map entry_of cs)
    restart p q = ap₂ (λ k l. push_over_all k l (map entry_of cs)) p q

-- A run of AddLog calls on a valid group never faults or loops, keeps the group valid and its name,
-- and leaves the newest logs: the last ones, at most the FIFO's capacity, of those that were there
-- followed by the new ones, in order.
pub add_logs-keep_last :
    (cs : List (Timespec × CStr)) (g : LogGroup)
    → IsLogGroup g
    → Returns (add_logs cs g) λ g'.
      IsLogGroup g'
      × (capacity g'.logs_fifo ≡ capacity g.logs_fifo)
      × (g'.group_name ≡ g.group_name)
      × (logs g' ≡ keep_last (capacity g.logs_fifo) (logs g ++ map entry_of cs))
add_logs-keep_last cs g v =
    let (g', run, adds) = Returns-result (add_logs cs g) (Adds g cs) (add_logs-Adds cs g v) in
    rw run (adds.0, adds.1, adds.2, adds.3 ∙ newest)
  where
    some_room : 0 < capacity g.logs_fifo
    some_room = omega (arith, v)

    all_kept : logs g ≡ keep_last (capacity g.logs_fifo) (logs g)
    all_kept =
        let none_dropped : length (logs g) - capacity g.logs_fifo ≡ 0 =
          omega (arith, length-contents log_entry_size v, used-le log_entry_size v) in
        rw none_dropped

    newest :
        push_over_all (capacity g.logs_fifo) (logs g) (map entry_of cs)
        ≡ keep_last (capacity g.logs_fifo) (logs g ++ map entry_of cs)
    newest =
        ap (λ l. push_over_all (capacity g.logs_fifo) l (map entry_of cs)) all_kept
        ∙ push_over_all-keep_last (capacity g.logs_fifo) some_room (logs g) (map entry_of cs)
