-- ===== src/Store/Metrics/Bounds.antt =====
-- How long the metrics history of factory-store.ts gets, and what one more sample costs.
use ev_factory_twin.Prelude.{
  ℕ, ◌+◌, ◌*◌, ◌-◌, ◌≤◌, ◌≡◌, refl, true, false, some, List, [], ◌∷◌, ◌++◌, inl, inr, arith, All,
  All-filter, All-filter_test, filter, last?, length, length-append, length-drop, Bool-cases,
  leb→le,
}
use ev_factory_twin.Schema.Fleet.{FactoryMetrics}
use ev_factory_twin.Store.{
  FactoryStore, MetricsSample, in_window, sampled_recently, extend_history, set_metrics,
  metrics_history_sample_interval_ms, metrics_history_window_ms, metrics_history_limit,
}
use ev_factory_twin.Store.Metrics.{
  IsSpaced, filter-IsSpaced, extend_history-IsSpaced, length-extend_history, before_last,
}

-- Spaced samples before `t` fill the time from the first of them to `t`.
spaced_span :
    (t : ℕ) (x : MetricsSample) (xs : List MetricsSample)
    → IsSpaced (x ∷ xs)
    → All (λ y. y.timestamp + metrics_history_sample_interval_ms ≤ t) (x ∷ xs)
    → x.timestamp + metrics_history_sample_interval_ms * length (x ∷ xs) ≤ t
spaced_span t x [] h k = omega (arith, k.0)
spaced_span t x (y ∷ xs) h k = omega (arith, spaced_span t y xs h.1 k.1, h.0.0)

-- Of spaced samples at most a window's worth lies in the window.
spaced_in_window :
    (now : ℕ) (xs : List MetricsSample)
    → IsSpaced xs
    → All (λ y. y.timestamp + metrics_history_sample_interval_ms ≤ now) xs
    → All (λ y. in_window now y ≡ true) xs
    → length xs ≤ metrics_history_limit
spaced_in_window now [] h k w = omega arith
spaced_in_window now (x ∷ xs) h k w =
    omega
      (arith, spaced_span now x xs h k, leb→le now (x.timestamp + metrics_history_window_ms) w.0)

-- In a spaced history, a new sample pushes out at most one sample that is still in the window.
pub sample_drops_one :
    (now : ℕ) (m : FactoryMetrics) (xs : List MetricsSample)
    → IsSpaced xs
    → sampled_recently now (last? xs) ≡ false
    → length (filter (in_window now) xs) ≤ length (extend_history now m xs)
unfolding extend_history
sample_drops_one now m xs h e =
    let kept = filter (in_window now) xs in
    let sample : MetricsSample = record { metrics = m; timestamp = now } in
    omega (
      arith,
      spaced_in_window now kept (filter-IsSpaced (in_window now) xs h)
          (All-filter _ (in_window now) xs (before_last now xs h e))
          (All-filter_test (in_window now) xs),
      length-append kept (sample ∷ []),
      length-drop (length (kept ++ sample ∷ []) - metrics_history_limit) (kept ++ sample ∷ []),
    )

abbrev pub IsHistory : List MetricsSample → Type 0
IsHistory xs = IsSpaced xs × (length xs ≤ metrics_history_limit)

-- Storing metrics at any time, whatever the clock did, keeps the samples of the history an interval
-- apart and no more than the limit, and always makes the given metrics the current ones.
pub set_metrics-IsHistory :
    (now : ℕ) (m : FactoryMetrics) (s : FactoryStore)
    → IsHistory s.metrics_history
    → IsHistory (set_metrics now m s).metrics_history × ((set_metrics now m s).metrics ≡ some m)
unfolding set_metrics
set_metrics-IsHistory now m s h =
    elim (Bool-cases (sampled_recently now (last? s.metrics_history))) [
      | inl e ↦ rw e (h, refl)
      | inr e ↦ rw e (
        (
          extend_history-IsSpaced now m s.metrics_history h.0 e,
          length-extend_history now m s.metrics_history,
        ),
        refl,
      )
    ]
