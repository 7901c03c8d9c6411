-- ===== src/Metrics/Statistics/Late.antt =====
-- A stream that is registered while the updater runs.
use restreamer.Prelude.{
  ℕ, ◌≡◌, ◌≢◌, refl, sym, ap, ◌∙◌, inl, inr, [], ◌∷◌, none, some, Text, Map, lookup, assign,
  text_eq, lookup-assign_self, lookup-assign_ne, beq_ne, Eq-cases, Option-cases,
}
use restreamer.Prelude.Channel.{panic}
use restreamer.Metrics.Collector.{Collector, new_collector, clone, invsub}
use restreamer.Metrics.Statistics.{Statistics, register_stream, delta_all, delta, tick}

lookup-cons :
    (m name : Text) (c : Collector) (cs : Map Text Collector)
    → m ≢ name
    → lookup name ((m, c) ∷ cs) ≡ lookup name cs
unfolding lookup
lookup-cons m name c cs h = rw (beq_ne m name h) refl

delta_all_panics :
    (internal previous : Map Text Collector) (name : Text) {c : Collector}
    → lookup name internal ≡ some c
    → lookup name previous ≡ none
    → delta_all internal previous ≡ panic
unfolding delta_all lookup
delta_all_panics [] previous name e n = cc
delta_all_panics ((m, stream) ∷ internal) previous name e n =
    elim (Option-cases (lookup m previous)) [
      | inl missing ↦ rw (delta_all, missing) refl
      | inr (old, found) ↦ elim (Eq-cases m name) [
        | inl same ↦ rw (delta_all, ap (λ (t : Text). lookup t previous) same ∙ n) refl
        | inr other ↦
            let later : delta_all internal (assign m (invsub old (clone stream)) previous) ≡ panic =
              delta_all_panics internal (assign m (invsub old (clone stream)) previous) name
                (sym (lookup-cons m name stream internal other) ∙ e)
                (lookup-assign_ne m name (invsub old (clone stream)) previous other ∙ n) in
            rw (delta_all, found, later) refl
      ]
    ]

-- The updater has no previous state of a stream that is registered after it was started: the next
-- tick follows a nil pointer, whatever else is registered.
late_registration_panics :
    (rate : ℕ → ℕ) (previous : Map Text Collector) (s : Statistics) (name : Text)
    → lookup name previous ≡ none
    → tick rate (previous, register_stream name s) ≡ panic
unfolding tick delta register_stream
late_registration_panics rate previous s name n =
    let e =
      delta_all_panics (assign name new_collector s.internal) previous name
        (lookup-assign_self name new_collector s.internal) n in
    rw e refl
