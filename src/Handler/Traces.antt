-- ===== src/Handler/Traces.antt =====
-- What RTDBG_GetTraceEntry reads: for every group the line kept from an earlier call and the entries
-- with data of the group's tracer, each as the line that it prints; or none, once it has noted that the group
-- was read to its end. Their order in the ring is no
-- order of time, so that two such lists are compared up to a permutation.
pub mod Round
pub mod Scan
pub mod Merge
pub mod Drain
use native.Mathlib.Bridge.{le_prop}
use mathlib.Core.Logic.Or
use mathlib.Core.List.{Mem, Perm, mem-cons, mem-cons_self, mem-cons_of_mem, not-mem-nil}
use mathlib.Core.List.Perm
use mathlib.Core.Option.{some-injective}
use rt_debug_lib.Base.{
  ℕ, zero, suc, ◌≤◌, ◌<◌, ◌≡◌, refl, ap, sym, ◌∙◌, subst, Option, none, some, List, [], ◌∷◌, ◌++◌,
  length, get_elem?, set, map, length-set, arith, Bool-cases, true, false, inl, inr, ◌==◌,
  if◌then◌else◌,
}
use rt_debug_lib.CString.{CStr}
use rt_debug_lib.Clock.{InRange}
use rt_debug_lib.Counters.{trace_string_size}
use rt_debug_lib.Tracer.{
  Printf, TraceEntry, TraceGroup, no_data_ind, data_ind, trace_empty_data, trace_line,
}
use rt_debug_lib.Tracer.Formats.{IsValid}
use rt_debug_lib.Tracer.Earliest.{
  at_time, HasData, AllInRange, AllPrintable, NoneBefore, Printable, cleared,
}
use rt_debug_lib.Logger.{LogGroup}
use rt_debug_lib.DebugRt.{GroupDebugRt}
use rt_debug_lib.Handler.{Handler, TraceInfo}
use rt_debug_lib.Handler.Merge.{trace_str_size}
use rt_debug_lib.Handler.Queues.{Line}

-- Taking traces leaves the lines that the handler keeps of the logs, and every group's logger.
abbrev pub logger_of : GroupDebugRt → LogGroup
logger_of g = g.logger

pub record SameLogs (h h' : Handler) : Type 0 where
  pub last : h'.grp_logs_last ≡ h.grp_logs_last
  pub loggers : map logger_of h'.shared.debug_groups ≡ map logger_of h.shared.debug_groups

-- No line is earlier than `bound`, or every line is.
abbrev pub From : ℕ → List Line → Type 0
From bound ls = (x : Line) → Mem x ls → bound ≤ at_time x.1

abbrev pub Before : ℕ → List Line → Type 0
Before bound ls = (x : Line) → Mem x ls → at_time x.1 < bound

pub From-perm : {b : ℕ} {ls ks : List Line} → Perm ls ks → From b ls → From b ks
From-perm p h x m = h x ((Perm.mem_iff p).1 m)

pub Before-perm : {b : ℕ} {ls ks : List Line} → Perm ls ks → Before b ls → Before b ks
Before-perm p h x m = h x ((Perm.mem_iff p).1 m)

pub From-cons : (b : ℕ) (l : Line) (ls : List Line) → b ≤ at_time l.1 → From b ls → From b (l ∷ ls)
From-cons b l ls le h x m =
    Or.elim le_prop (mem-cons.0 m) (λ e. subst (λ y. b ≤ at_time y.1) (sym e) le) (h x)

pub From-tail : {b : ℕ} {l : Line} {ls : List Line} → From b (l ∷ ls) → From b ls
From-tail {l} h x m = h x (mem-cons_of_mem l m)

pub none_left : (b : ℕ) (ls : List Line) → Before b ls → From b ls → ls ≡ []
none_left b [] before from = refl
none_left b (x ∷ ls) before from =
    absurd (omega (arith, before x mem-cons_self, from x mem-cons_self))

pub none_From : (b : ℕ) → From b []
none_From b x m = absurd (not-mem-nil m)

pub Perm-of_eq : {ls ks : List Line} → ls ≡ ks → Perm ls ks
Perm-of_eq {ls} e = subst (Perm ls) e Perm.rfl

-- The format that a lookup finds.
abbrev pub found_format : Option CStr → CStr
found_format none = []
found_format (some f) = f

module _ (printf : Printf) where
  abbrev pub entry_line : List CStr → CStr → TraceEntry → Line
  entry_line formats name e =
      (trace_line printf name (found_format (get_elem? formats e.trace_id)) e, e.linux_time)

  abbrev pub lines_of : List CStr → CStr → List TraceEntry → List Line
  lines_of formats name [] = []
  lines_of formats name (e ∷ es) =
      if e.status == no_data_ind
      then lines_of formats name es
      else entry_line formats name e ∷ lines_of formats name es

  -- The lines of a group's tracer.
  abbrev pub traced : TraceGroup → List Line
  traced t = lines_of t.trace_formats t.group_name t.trace_fifo.buf

  abbrev pub kept : TraceInfo → List Line
  kept info = if info.status == data_ind then (info.trace_str, info.lin_time) ∷ [] else []

  -- A group that is noted as read to its end has none, whatever its tracer holds by now.
  abbrev pub pending : TraceInfo → GroupDebugRt → List Line
  pending info g = if info.status == trace_empty_data then [] else kept info ++ traced g.tracer

  abbrev pub pending_at : Option TraceInfo → Option GroupDebugRt → List Line
  pending_at (some info) (some g) = pending info g
  pending_at _ _ = []

  -- The trace lines of group `i` that RTDBG_GetTraceEntry has still to return in this process.
  abbrev pub queue : Handler → ℕ → List Line
  queue h i = pending_at (get_elem? h.grp_trace_res i) (get_elem? h.shared.debug_groups i)

  -- What the handler notes for a group: nothing, a line than which none of the group is earlier (in a
  -- slot of zeros an empty one of time 0), or that it was read to its end.
  pub data Held (info : TraceInfo) (t : TraceGroup) : Type 0 where
    nothing : info.status ≡ no_data_ind → Held info t
    held :
        info.status ≡ data_ind
        → length info.trace_str < trace_str_size
        → InRange info.lin_time
        → NoneBefore (at_time info.lin_time) t.trace_fifo.buf
        → Held info t
    finished : info.status ≡ trace_empty_data → Held info t

  pub record IsGroupReady (info : TraceInfo) (g : GroupDebugRt) : Type 0 where
    pub tracer : IsValid g.tracer
    pub named : length g.tracer.group_name < trace_string_size
    pub ranged : AllInRange g.tracer.trace_fifo.buf
    pub printable : AllPrintable printf trace_str_size g.tracer g.tracer.trace_fifo.buf
    pub noted : Held info g.tracer

  pub record IsReadyAt (h : Handler) (i : ℕ) : Type 0 where
    pub info : TraceInfo
    pub group : GroupDebugRt
    pub has_info : get_elem? h.grp_trace_res i ≡ some info
    pub has_group : get_elem? h.shared.debug_groups i ≡ some group
    pub ready : IsGroupReady info group

  lines_of-From :
      (b : ℕ) (formats : List CStr) (name : CStr) (es : List TraceEntry)
      → NoneBefore b es
      → From b (lines_of formats name es)
  lines_of-From b formats name [] h = none_From b
  lines_of-From b formats name (e ∷ es) h = elim (Bool-cases (e.status == no_data_ind)) [
    | inl empty ↦ rw empty (lines_of-From b formats name es h.1)
    | inr has ↦ rw has (
        From-cons b (entry_line formats name e) (lines_of formats name es)
          (h.0 (λ q. ground (arith, has, q))) (lines_of-From b formats name es h.1))
  ]

  pub traced-From : (b : ℕ) (t : TraceGroup) → NoneBefore b t.trace_fifo.buf → From b (traced t)
  traced-From b t h = lines_of-From b t.trace_formats t.group_name t.trace_fifo.buf h

  -- Marking an entry as empty takes its line out.
  lines_of-set :
      (formats : List CStr) (name : CStr) (es : List TraceEntry) (k : ℕ) (e : TraceEntry)
      → get_elem? es k ≡ some e
      → HasData e
      → Perm
          (entry_line formats name e
            ∷ lines_of formats name (set es k (record e { status = no_data_ind })))
          (lines_of formats name es)
  lines_of-set formats name [] k e at has = cc
  lines_of-set formats name (x ∷ es) zero e at has =
      let q : x ≡ e = some-injective x e at in
      subst
        (λ y.
          Perm (entry_line formats name e ∷ lines_of formats name es)
            (lines_of formats name (y ∷ es)))
        (sym q) (Perm-of_eq (with_data e has))
    where
      with_data :
          (e : TraceEntry)
          → HasData e
          → entry_line formats name e ∷ lines_of formats name es ≡ lines_of formats name (e ∷ es)
      with_data e has = elim (Bool-cases (e.status == no_data_ind)) [
        | inl empty ↦ absurd (has (ground (arith, empty)))
        | inr full ↦ rw full refl
      ]
  lines_of-set formats name (x ∷ es) (suc k) e at has =
      let again = lines_of-set formats name es k e at has in
      elim (Bool-cases (x.status == no_data_ind)) [
        | inl empty ↦ rw empty again
        | inr full ↦ rw full (
            Perm.trans (Perm.swap (entry_line formats name x) (entry_line formats name e) _)
              (Perm.cons (entry_line formats name x) again))
      ]

  pub traced-cleared :
      (k : ℕ) (e : TraceEntry) (t : TraceGroup)
      → get_elem? t.trace_fifo.buf k ≡ some e
      → HasData e
      → Perm (entry_line t.trace_formats t.group_name e ∷ traced (cleared k e t)) (traced t)
  traced-cleared k e t at has =
      lines_of-set t.trace_formats t.group_name t.trace_fifo.buf k e at has

AllInRange-set :
    (es : List TraceEntry) (k : ℕ) (e : TraceEntry)
    → InRange e.linux_time
    → AllInRange es
    → AllInRange (set es k e)
AllInRange-set [] k e r h = tt
AllInRange-set (x ∷ es) zero e r h = (r, h.1)
AllInRange-set (x ∷ es) (suc k) e r h = (h.0, AllInRange-set es k e r h.1)

pub AllInRange-get :
    (es : List TraceEntry) (k : ℕ) (e : TraceEntry)
    → get_elem? es k ≡ some e
    → AllInRange es
    → InRange e.linux_time
AllInRange-get [] k e at h = cc
AllInRange-get (x ∷ es) zero e at h =
    subst (λ (y : TraceEntry). InRange y.linux_time) (some-injective x e at) h.0
AllInRange-get (x ∷ es) (suc k) e at h = AllInRange-get es k e at h.1

NoneBefore-set :
    (b : ℕ) (es : List TraceEntry) (k : ℕ) (e : TraceEntry)
    → e.status ≡ no_data_ind
    → NoneBefore b es
    → NoneBefore b (set es k e)
NoneBefore-set b [] k e empty h = tt
NoneBefore-set b (x ∷ es) zero e empty h = (λ has. absurd (has empty), h.1)
NoneBefore-set b (x ∷ es) (suc k) e empty h = (h.0, NoneBefore-set b es k e empty h.1)

AllPrintable-set :
    (printf : Printf) (size : ℕ) (t u : TraceGroup) (es : List TraceEntry) (k : ℕ) (e : TraceEntry)
    → e.status ≡ no_data_ind
    → ((x : TraceEntry)
        → (HasData x → Printable printf size t x)
        → HasData x
        → Printable printf size u x)
    → AllPrintable printf size t es
    → AllPrintable printf size u (set es k e)
AllPrintable-set printf size t u [] k e empty move h = tt
AllPrintable-set printf size t u (x ∷ es) zero e empty move h =
    (λ has. absurd (has empty), unset es h.1)
  where
    unset : (es : List TraceEntry) → AllPrintable printf size t es → AllPrintable printf size u es
    unset [] h = tt
    unset (x ∷ es) h = (move x h.0, unset es h.1)
AllPrintable-set printf size t u (x ∷ es) (suc k) e empty move h =
    (move x h.0, AllPrintable-set printf size t u es k e empty move h.1)

-- A group whose entry was taken out stays as it has to be.
module _ (printf : Printf) (k : ℕ) (e : TraceEntry) (t : TraceGroup) where
  abbrev gone : TraceEntry
  gone = record e { status = no_data_ind }

  pub cleared-IsValid : IsValid t → IsValid (cleared k e t)
  cleared-IsValid v =
      let same = length-set t.trace_fifo.buf k gone in
      let p = v.pool in
      record {
        array = v.array;
        few = v.few;
        distinct = v.distinct;
        entries = omega (arith, same, v.entries);
        pool = record {
          some_chunk = p.some_chunk;
          few = p.few;
          room = omega (arith, same, p.room);
          sized = p.sized;
          nonempty = p.nonempty;
          narrow = p.narrow;
          wr_in = p.wr_in;
          out_free = p.out_free;
        };
      }

  pub cleared-AllInRange :
      get_elem? t.trace_fifo.buf k ≡ some e
      → AllInRange t.trace_fifo.buf
      → AllInRange (cleared k e t).trace_fifo.buf
  cleared-AllInRange at h =
      AllInRange-set t.trace_fifo.buf k gone (AllInRange-get t.trace_fifo.buf k e at h) h

  pub cleared-NoneBefore :
      (b : ℕ) → NoneBefore b t.trace_fifo.buf → NoneBefore b (cleared k e t).trace_fifo.buf
  cleared-NoneBefore b h = NoneBefore-set b t.trace_fifo.buf k gone refl h

  pub cleared-AllPrintable :
      (size : ℕ)
      → AllPrintable printf size t t.trace_fifo.buf
      → AllPrintable printf size (cleared k e t) (cleared k e t).trace_fifo.buf
  cleared-AllPrintable size h =
      AllPrintable-set printf size t (cleared k e t) t.trace_fifo.buf k gone refl (λ x p. p) h
