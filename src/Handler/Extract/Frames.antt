-- ===== src/Handler/Extract/Frames.antt =====
-- The trace lines and the log lines of a process whose groups have kept their tracers, or their loggers.
use mathlib.Core.Path.{fun_ext}
use mathlib.Core.Option.{some-injective, none-ne-some}
use rt_debug_lib.Base.{
  ℕ, zero, suc, ◌≡◌, ◌⊎◌, inl, inr, refl, ap, sym, ◌∙◌, subst, Option, none, some, List, [], ◌∷◌,
  ◌++◌, map, get_elem?, head_option, drop_head, if◌then◌else◌, ◌==◌,
}
use rt_debug_lib.Tracer.{Printf, TraceGroup, trace_empty_data}
use rt_debug_lib.DebugRt.{GroupDebugRt}
use rt_debug_lib.Handler.{Handler, TraceInfo, LogSortData}
use rt_debug_lib.Handler.Queues.{Line}
use rt_debug_lib.Handler.Queues
use rt_debug_lib.Handler.Traces
use rt_debug_lib.Handler.Traces.{logger_of, SameLogs}

abbrev pub tracer_of : GroupDebugRt → TraceGroup
tracer_of g = g.tracer

-- Two lists with the same images agree at every index in what `f` shows.
module _ {ℓ κ} {A : Type ℓ} {B : Type κ} (f : A → B) where
  abbrev SameAt : List A → List A → ℕ → Type (ℓ ⊔ κ)
  SameAt xs ys j =
      ((get_elem? xs j ≡ none) × (get_elem? ys j ≡ none))
      ⊎ ((x : A) × (y : A) × (get_elem? xs j ≡ some x) × (get_elem? ys j ≡ some y) × (f y ≡ f x))

  same_at : (xs ys : List A) (j : ℕ) → map f ys ≡ map f xs → SameAt xs ys j
  same_at [] [] j e = inl (refl, refl)
  same_at [] (y ∷ ys) j e = absurd (none-ne-some (f y) (sym (ap head_option e)))
  same_at (x ∷ xs) [] j e = absurd (none-ne-some (f x) (ap head_option e))
  same_at (x ∷ xs) (y ∷ ys) zero e =
      inr (x, y, refl, refl, some-injective (f y) (f x) (ap head_option e))
  same_at (x ∷ xs) (y ∷ ys) (suc j) e = same_at xs ys j (ap drop_head e)

  at_same :
      (xs ys : List A) (j : ℕ) (x : A)
      → map f ys ≡ map f xs
      → get_elem? xs j ≡ some x
      → (y : A) × (get_elem? ys j ≡ some y) × (f y ≡ f x)
  at_same xs ys j x e at = elim (same_at xs ys j e) [
    | inl (here, there) ↦ absurd (none-ne-some x (sym here ∙ at))
    | inr (x', y, here, there, same) ↦ (y, there, same ∙ ap f (some-injective x' x (sym here ∙ at)))
  ]

-- The traces of `h'` are those of `h`.
pub record SameTraces (h h' : Handler) : Type 0 where
  pub infos : h'.grp_trace_res ≡ h.grp_trace_res
  pub tracers : map tracer_of h'.shared.debug_groups ≡ map tracer_of h.shared.debug_groups

module _ (printf : Printf) where
  traces-at_none : (o : Option TraceInfo) → Traces.pending_at printf o none ≡ []
  traces-at_none none = refl
  traces-at_none (some info) = refl

  traces-at_some :
      (o : Option TraceInfo) (g g' : GroupDebugRt)
      → g'.tracer ≡ g.tracer
      → Traces.pending_at printf o (some g') ≡ Traces.pending_at printf o (some g)
  traces-at_some none g g' e = refl
  traces-at_some (some info) g g' e =
      ap
        (λ t.
          if info.status == trace_empty_data
          then []
          else Traces.kept printf info ++ Traces.traced printf t)
        e

  module _ (h h' : Handler) (s : SameTraces h h') where
    pub traces-same : Traces.queue printf h' ≡ Traces.queue printf h
    traces-same = fun_ext at_index
      where
        at_index : (j : ℕ) → Traces.queue printf h' j ≡ Traces.queue printf h j
        at_index j =
            ap
              (λ is. Traces.pending_at printf (get_elem? is j) (get_elem? h'.shared.debug_groups j))
              s.infos
            ∙ elim (same_at tracer_of h.shared.debug_groups h'.shared.debug_groups j s.tracers) [
              | inl (here, there) ↦ rw (here, there) refl
              | inr (x, y, here, there, same) ↦
                  rw (here, there) (traces-at_some (get_elem? h.grp_trace_res j) x y same)
            ]

    pub traces-ready : (j : ℕ) → Traces.IsReadyAt printf h j → Traces.IsReadyAt printf h' j
    traces-ready j r =
        let (g', there, same) =
          at_same tracer_of h.shared.debug_groups h'.shared.debug_groups j r.group s.tracers
            r.has_group in
        let p = r.ready in
        let with_same : Traces.IsGroupReady printf r.info (record g' { tracer = r.group.tracer }) =
          record {
            tracer = p.tracer;
            named = p.named;
            ranged = p.ranged;
            printable = p.printable;
            noted = p.noted;
          } in
        record {
          info = r.info;
          group = g';
          has_info = ap (λ is. get_elem? is j) s.infos ∙ r.has_info;
          has_group = there;
          ready =
              subst (λ t. Traces.IsGroupReady printf r.info (record g' { tracer = t })) (sym same)
                with_same;
        }

logs-at_some :
    (o : Option LogSortData) (g g' : GroupDebugRt)
    → g'.logger ≡ g.logger
    → Queues.pending_at o (some g') ≡ Queues.pending_at o (some g)
logs-at_some none g g' e = refl
logs-at_some (some l) g g' e = ap (λ k. Queues.pending l (record g { logger = k })) e

module _ (h h' : Handler) (s : SameLogs h h') where
  pub logs-same : Queues.queue h' ≡ Queues.queue h
  logs-same = fun_ext at_index
    where
      at_index : (j : ℕ) → Queues.queue h' j ≡ Queues.queue h j
      at_index j =
          ap (λ ls. Queues.pending_at (get_elem? ls j) (get_elem? h'.shared.debug_groups j)) s.last
          ∙ elim (same_at logger_of h.shared.debug_groups h'.shared.debug_groups j s.loggers) [
            | inl (here, there) ↦ rw (here, there) refl
            | inr (x, y, here, there, same) ↦
                rw (here, there) (logs-at_some (get_elem? h.grp_logs_last j) x y same)
          ]

  pub logs-ready : (j : ℕ) → Queues.IsReadyAt h j → Queues.IsReadyAt h' j
  logs-ready j r =
      let (g', there, same) =
        at_same logger_of h.shared.debug_groups h'.shared.debug_groups j r.group s.loggers
          r.has_group in
      let p = r.ready in
      let with_same : Queues.IsGroupReady r.last (record g' { logger = r.group.logger }) = record {
        logger = p.logger;
        named = p.named;
        fit = p.fit;
      } in
      record {
        last = r.last;
        group = g';
        has_last = ap (λ ls. get_elem? ls j) s.last ∙ r.has_last;
        has_group = there;
        ready =
            subst (λ k. Queues.IsGroupReady r.last (record g' { logger = k })) (sym same) with_same;
      }
