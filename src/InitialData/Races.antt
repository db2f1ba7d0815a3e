-- ===== src/InitialData/Races.antt =====
-- Loads of hooks/use-initial-factory-data.ts that overtake each other.
use ev_factory_twin.Prelude.{ℕ, ◌+◌, ◌≡◌, ◌≤◌, arith}
use ev_factory_twin.Snapshot.{FactorySnapshot, commit_factory_snapshot}
use ev_factory_twin.InitialData.{InitialData, is_ready, load, load_arrives, load_fails, leave}

-- The page shows this store and says that it is ready.
abbrev pub Shows : ℕ → FactorySnapshot → InitialData → InitialData → Type 0
Shows now snapshot s t =
    (t.store ≡ commit_factory_snapshot now snapshot s.store) × (t.state ≡ is_ready)

-- A load is tried again before it has answered. Whichever snapshot arrives first, and also if the first
-- load fails late, the store is that of the second snapshot stored once, and the page is ready.
pub last_load_wins :
    (now later : ℕ) (old new : FactorySnapshot) (s : InitialData)
    → let again = load (load s) in
      Shows later new s (
        load_arrives later
          (s.generation + 1 + 1)
          new
          (load_arrives now (s.generation + 1) old again))
      × Shows later new s (
          load_arrives now
            (s.generation + 1)
            old
            (load_arrives later (s.generation + 1 + 1) new again))
      × Shows later new s
          (load_fails (s.generation + 1) (load_arrives later (s.generation + 1 + 1) new again))
unfolding load load_arrives load_fails
last_load_wins now later old new s = ground arith

-- Once the page is left, no answer to a load that was made before changes the store.
pub leave_is_final :
    (now generation : ℕ) (snapshot : FactorySnapshot) (s : InitialData)
    → generation ≤ s.generation
    → (load_arrives now generation snapshot (leave s)).store ≡ s.store
unfolding leave load_arrives
leave_is_final now generation snapshot s old = ground arith
