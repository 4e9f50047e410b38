-- ===== src/Handler/Drain.antt =====
-- The loop of RTDBG_ExtractDebugData that writes the logs out: while (RTDBG_GetLog(…) == true).
pub mod Ends
use rt_debug_lib.Base.{
  ℕ, zero, suc, ◌+◌, ◌-◌, ◌^◌, ◌≤◌, ◌<◌, ◌≡◌, ◌≢◌, refl, ap, ap₂, sym, ◌∙◌, subst, true, Option,
  none, some, List, [], ◌∷◌, length, arith, Result, ok, err, Fault, Returns, Returns-result, ◌>>=◌,
  ℕ_discrete,
}
use rt_debug_lib.CString.{CStr}
use rt_debug_lib.Clock.{Timespec, InRange}
use rt_debug_lib.Tracer.Earliest.{at_time}
use rt_debug_lib.Handler.{Handler}
use rt_debug_lib.Handler.Merge.{in_mask, rtdbg_get_log}
use rt_debug_lib.Handler.Queues.{Line, queue}
use rt_debug_lib.Handler.Updates.{AreReady, FrontFrom}
use rt_debug_lib.Handler.LogMerge.{IsMerged, rtdbg_get_log-IsMerged}

-- mask_logs = -1, the size of `buf`, and what each call reads as the time.
abbrev pub all_logs : ℕ
all_logs = 2 ^ 64 - 1

abbrev pub buf_size : ℕ
buf_size = 1000

-- The lines that the loop writes, in their order.
unfoldable pub drain_logs : ℕ → (ℕ → Timespec) → Handler → Result (List Line × Handler)
drain_logs zero now h = err Fault.out_of_fuel
drain_logs (suc f) now h = do
  (r, h') ← rtdbg_get_log buf_size true (now f) all_logs h
  elim r [
    | none ↦ ok ([], h')
    | some line ↦ do (lines, h'') ← drain_logs f now h'; ok (line ∷ lines, h'')
  ]

-- How many lines the groups below `n` have.
abbrev pub total : ℕ → (ℕ → List Line) → ℕ
total zero q = 0
total (suc n) q = total n q + length (q n)

-- Every line is earlier than `bound`.
abbrev pub AllBefore : ℕ → List Line → Type 0
AllBefore bound [] = Unit {0}
AllBefore bound ((text, time) ∷ ls) = (at_time time < bound) × AllBefore bound ls

total-same : (n : ℕ) (q r : ℕ → List Line) → ((j : ℕ) → j < n → q j ≡ r j) → total n q ≡ total n r
total-same zero q r h = refl
total-same (suc n) q r h =
    ap₂ ◌+◌ (total-same n q r (λ j below. h j (omega arith))) (ap length (h n (omega arith)))

pub total-take :
    (n k : ℕ) (q r : ℕ → List Line) (x : Line)
    → k < n
    → q k ≡ x ∷ r k
    → ((j : ℕ) → k ≢ j → r j ≡ q j)
    → total n q ≡ suc (total n r)
total-take (suc n) k q r x below front others = elim (ℕ_discrete k n) [
  | yes e ↦
      let same : total n q ≡ total n r =
        total-same n q r (λ j lt. sym (others j (λ f. omega arith))) in
      let here : length (q n) ≡ suc (length (r n)) =
        ap length (subst (λ i. q i ≡ x ∷ r i) e front) in
      omega arith
  | no ne ↦
      let rest : total n q ≡ suc (total n r) = total-take n k q r x (omega arith) front others in
      let here : length (r n) ≡ length (q n) = ap length (others n ne) in omega arith
]
total-take zero k q r x below front others = elim below [ ]

-- No line is earlier than `bound`; every line is at most as late as those behind it.
abbrev pub AllFrom : ℕ → List Line → Type 0
AllFrom bound [] = Unit {0}
AllFrom bound ((text, time) ∷ ls) = (bound ≤ at_time time) × AllFrom bound ls

abbrev pub IsSorted : List Line → Type 0
IsSorted [] = Unit {0}
IsSorted ((text, time) ∷ ls) = AllFrom (at_time time) ls × IsSorted ls

-- The list takes the lines of the queues below `n` one by one from the fronts, until all are empty.
pub data IsInterleaving (n : ℕ) : (ℕ → List Line) → List Line → Type 0 where
  done : {q : ℕ → List Line} → ((j : ℕ) → j < n → q j ≡ []) → IsInterleaving n q []
  take :
      {q : ℕ → List Line} (r : ℕ → List Line) (k : ℕ) {x : Line} {ls : List Line}
      → k < n
      → q k ≡ x ∷ r k
      → ((j : ℕ) → k ≢ j → r j ≡ q j)
      → IsInterleaving n r ls
      → IsInterleaving n q (x ∷ ls)

pub AllFrom-le : (a b : ℕ) (ls : List Line) → a ≤ b → AllFrom b ls → AllFrom a ls
AllFrom-le a b [] le h = tt
AllFrom-le a b (x ∷ ls) le h = (omega arith, AllFrom-le a b ls le h.1)

pub front-AllFrom : (b : ℕ) (ls : List Line) → IsSorted ls → FrontFrom b ls → AllFrom b ls
front-AllFrom b [] sorted front = tt
front-AllFrom b ((text, time) ∷ ls) sorted front =
    (front, AllFrom-le b (at_time time) ls front sorted.0)

pub none_before : (b : ℕ) (ls : List Line) → AllBefore b ls → FrontFrom b ls → ls ≡ []
none_before b [] early front = refl
none_before b (x ∷ ls) early front = absurd (omega arith)

-- What holds of every queue holds of what is left of it, if it holds of tails.
pub rest_of :
    (P : List Line → Type 0)
    → ((x : Line) (ls : List Line) → P (x ∷ ls) → P ls)
    → (n k : ℕ) (q r : ℕ → List Line) (x : Line) → k < n
    → q k ≡ x ∷ r k
    → ((j : ℕ) → k ≢ j → r j ≡ q j)
    → ((j : ℕ) → j < n → P (q j))
    → (j : ℕ) → j < n
    → P (r j)
rest_of P tail n k q r x below front others all j lt = elim (ℕ_discrete k j) [
  | yes e ↦ subst (λ i. P (r i)) e (tail x (r k) (subst P front (all k below)))
  | no ne ↦ subst P (sym (others j ne)) (all j lt)
]

pub all_in_mask : (j : ℕ) → j < 10 → in_mask all_logs j ≡ true
all_in_mask zero h = refl
all_in_mask (suc zero) h = refl
all_in_mask (suc (suc zero)) h = refl
all_in_mask (suc (suc (suc zero))) h = refl
all_in_mask (suc (suc (suc (suc zero)))) h = refl
all_in_mask (suc (suc (suc (suc (suc zero))))) h = refl
all_in_mask (suc (suc (suc (suc (suc (suc zero)))))) h = refl
all_in_mask (suc (suc (suc (suc (suc (suc (suc zero))))))) h = refl
all_in_mask (suc (suc (suc (suc (suc (suc (suc (suc zero)))))))) h = refl
all_in_mask (suc (suc (suc (suc (suc (suc (suc (suc (suc zero))))))))) h = refl
all_in_mask (suc (suc (suc (suc (suc (suc (suc (suc (suc (suc j)))))))))) h = absurd (omega arith)
