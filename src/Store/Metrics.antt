-- ===== src/Store/Metrics.antt =====
-- The metrics history of factory-store.ts.
pub mod Bounds
use ev_factory_twin.Prelude.{
  ℕ, zero, suc, ◌+◌, ◌-◌, ◌≤◌, ◌<◌, ◌≡◌, refl, Bool, true, false, Option, none, some, List, [], ◌∷◌,
  ◌++◌, inl, inr, arith, All, All-append, All-drop, All-filter, All-filter_test, filter, drop,
  last?, length, length-slice_last, slice_last, Bool-cases, leb→le,
}
use ev_factory_twin.Schema.Fleet.{FactoryMetrics}
use ev_factory_twin.Store.{
  MetricsSample, in_window, sampled_recently, extend_history, metrics_history_sample_interval_ms,
  metrics_history_window_ms, metrics_history_limit,
}

-- Any two samples lie an interval or more apart, the older first.
abbrev pub IsSpaced : List MetricsSample → Type 0
IsSpaced [] = Unit
IsSpaced (x ∷ xs) =
    All (λ y. x.timestamp + metrics_history_sample_interval_ms ≤ y.timestamp) xs × IsSpaced xs

pub drop-IsSpaced : (n : ℕ) (xs : List MetricsSample) → IsSpaced xs → IsSpaced (drop n xs)
drop-IsSpaced zero xs h = h
drop-IsSpaced (suc n) [] h = tt
drop-IsSpaced (suc n) (x ∷ xs) h = drop-IsSpaced n xs h.1

pub filter-IsSpaced :
    (p : MetricsSample → Bool) (xs : List MetricsSample) → IsSpaced xs → IsSpaced (filter p xs)
filter-IsSpaced p [] h = tt
filter-IsSpaced p (x ∷ xs) h = elim (Bool-cases (p x)) [
  | inl e ↦ rw e (All-filter _ p xs h.0, filter-IsSpaced p xs h.1)
  | inr e ↦ rw e (filter-IsSpaced p xs h.1)
]

-- The last of spaced samples bounds the others.
pub before_last :
    (t : ℕ) (xs : List MetricsSample)
    → IsSpaced xs
    → sampled_recently t (last? xs) ≡ false
    → All (λ x. x.timestamp + metrics_history_sample_interval_ms ≤ t) xs
before_last t [] h e = tt
before_last t (x ∷ []) h e = (ground arith, tt)
before_last t (x ∷ y ∷ xs) h e =
    let rest = before_last t (y ∷ xs) h.1 e in (omega (arith, rest.0, h.0.0), rest)

append-IsSpaced :
    (xs : List MetricsSample) (y : MetricsSample)
    → IsSpaced xs
    → All (λ x. x.timestamp + metrics_history_sample_interval_ms ≤ y.timestamp) xs
    → IsSpaced (xs ++ y ∷ [])
append-IsSpaced [] y h k = (tt, tt)
append-IsSpaced (x ∷ xs) y h k =
    (All-append _ xs (y ∷ []) h.0 (k.0, tt), append-IsSpaced xs y h.1 k.1)

-- A history that is sampled anew stays spaced and within the limit.
pub extend_history-IsSpaced :
    (now : ℕ) (m : FactoryMetrics) (xs : List MetricsSample)
    → IsSpaced xs
    → sampled_recently now (last? xs) ≡ false
    → IsSpaced (extend_history now m xs)
unfolding extend_history
extend_history-IsSpaced now m xs h e =
    drop-IsSpaced _ (filter (in_window now) xs ++ record { metrics = m; timestamp = now } ∷ []) (
      append-IsSpaced (filter (in_window now) xs) (record { metrics = m; timestamp = now })
        (filter-IsSpaced (in_window now) xs h)
        (All-filter _ (in_window now) xs (before_last now xs h e)))

pub length-extend_history :
    (now : ℕ) (m : FactoryMetrics) (xs : List MetricsSample)
    → length (extend_history now m xs) ≤ metrics_history_limit
unfolding extend_history
length-extend_history now m xs =
    length-slice_last metrics_history_limit
      (filter (in_window now) xs ++ record { metrics = m; timestamp = now } ∷ [])
