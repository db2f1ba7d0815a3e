-- ===== src/Sync/Replay.antt =====
-- The answers of the snapshot fetch in use-factory-socket.ts: which are used, and what follows them.
use ev_factory_twin.Prelude.{
  ℕ, ◌+◌, ◌≤◌, ◌≡◌, refl, sym, ap, ◌∙◌, String, true, false, Option, some, List, [], ◌∷◌, ◌++◌,
  append_assoc, append-nil, any, inl, inr, arith, leb, length, length-append, Bool-cases,
  if◌then◌else◌, if-true, if-false, subst,
}
use ev_factory_twin.Schema.Event.{
  FactoryEvent, robot_telemetry, task_updated, metrics_updated, alert_created, alert_updated,
  factory_reset, command_updated,
}
use ev_factory_twin.Snapshot.{FactorySnapshot, commit_factory_snapshot}
use ev_factory_twin.Store.{live, set_connection_status, clear_metrics_history}
use ev_factory_twin.Sync.{
  Sync, Waiter, authentication, recovery, fetches, is_current, is_reset, tell, settle, apply_events,
  receive_event, receive_events, socket_pending_event_limit,
}
use ev_factory_twin.Sync.Inputs.{
  after_last_reset, finish, fetch_done, store_snapshot, keep_snapshot, refetch, snapshot_arrives,
}

store-settle :
    (generation : ℕ) (waiters : List (ℕ × Waiter)) (s : Sync)
    → (settle generation true waiters s).store ≡ s.store
unfolding settle tell
store-settle generation [] s = refl
store-settle generation ((g, authentication) ∷ waiters) s = ground (
  arith,
  store-settle generation waiters (tell true authentication s),
  store-settle generation waiters (record s { waiters = s.waiters ++ (g, authentication) ∷ [] }),
)
store-settle generation ((g, recovery) ∷ waiters) s = ground (
  arith,
  store-settle generation waiters s,
  store-settle generation waiters (record s { waiters = s.waiters ++ (g, recovery) ∷ [] }),
)

-- What finishes with success changes the state of the store no more.
pub store-finish : (generation : ℕ) (s : Sync) → (finish generation true s).store ≡ s.store
store-finish generation s = store-settle generation s.waiters _ ∙ ground arith

module _ (date_parse : String → Option ℕ) (now generation : ℕ) (snapshot : FactorySnapshot)
    (s : Sync) where
  arrives_reset :
      is_current generation s ≡ true
      → any is_reset s.buffered_events ≡ true
      → snapshot_arrives date_parse now generation snapshot s
        ≡ refetch generation (fetch_done generation s)
  unfolding snapshot_arrives
  arrives_reset current resets = if-true _ _ current ∙ if-true _ _ resets

  pub arrives_live :
      is_current generation s ≡ true
      → any is_reset s.buffered_events ≡ false
      → s.store.paused ≡ false
      → snapshot_arrives date_parse now generation snapshot s
        ≡ finish generation true (store_snapshot date_parse now snapshot (fetch_done generation s))
  unfolding snapshot_arrives
  arrives_live current none_reset p = if-true _ _ current ∙ if-false _ _ none_reset ∙ if-false _ _ p

  pub arrives_paused :
      is_current generation s ≡ true
      → any is_reset s.buffered_events ≡ false
      → s.store.paused ≡ true
      → snapshot_arrives date_parse now generation snapshot s
        ≡ finish generation true (keep_snapshot snapshot (fetch_done generation s))
  unfolding snapshot_arrives
  arrives_paused current none_reset p =
      if-true _ _ current ∙ if-false _ _ none_reset ∙ if-true _ _ p

first_reset :
    (e : FactoryEvent) (es : List FactoryEvent)
    → any is_reset (e ∷ es) ≡ true
    → any is_reset es ≡ false
    → (before : List FactoryEvent) × (e ∷ es
        ≡ before ++ factory_reset ∷ (if is_reset e then es else e ∷ es))
      × (any is_reset (if is_reset e then es else e ∷ es) ≡ false)
first_reset factory_reset es h last = ([], refl, last)
first_reset (robot_telemetry t) es h last = cc
first_reset (task_updated t) es h last = cc
first_reset (metrics_updated t) es h last = cc
first_reset (alert_created t) es h last = cc
first_reset (alert_updated t) es h last = cc
first_reset (command_updated t) es h last = cc

-- The events behind the last reset are the end of the list, and hold no reset.
pub after_last_reset_split :
    (es : List FactoryEvent)
    → any is_reset es ≡ true
    → (before : List FactoryEvent) × (es ≡ before ++ factory_reset ∷ after_last_reset es)
      × (any is_reset (after_last_reset es) ≡ false)
unfolding after_last_reset
after_last_reset_split [] h = absurd (ground arith)
after_last_reset_split (e ∷ es) h = elim (Bool-cases (any is_reset es)) [
  | inl later ↦
      let (before, split, clean) = after_last_reset_split es later in
      rw later (e ∷ before, ap (◌∷◌ e) split, clean)
  | inr last ↦ rw last (first_reset e es h last)
]

-- `t` has dropped the snapshot of `s` and waits for another, with what came after the last reset.
abbrev pub DiscardsFor : ℕ → Sync → Sync → Type 0
DiscardsFor generation s t =
    (t.store ≡ clear_metrics_history s.store)
    × (t.effects ≡ s.effects ++ fetches generation ∷ [])
    × (t.fetching ≡ some generation)
    × (any is_reset t.buffered_events ≡ false)
    × ((before : List FactoryEvent) × (s.buffered_events
          ≡ before ++ factory_reset ∷ t.buffered_events))

-- The current snapshot is not used if the factory was reset while it was fetched: the store keeps
-- all but its metrics history, a new fetch is begun for the same generation, and of the events that
-- waited exactly those behind the last reset are kept.
pub reset_discards_snapshot :
    (date_parse : String → Option ℕ) (now generation : ℕ) (snapshot : FactorySnapshot) (s : Sync)
    → is_current generation s ≡ true
    → any is_reset s.buffered_events ≡ true
    → DiscardsFor generation s (snapshot_arrives date_parse now generation snapshot s)
reset_discards_snapshot date_parse now generation snapshot s current resets =
    let (before, split, clean) = after_last_reset_split s.buffered_events resets in
    subst (DiscardsFor generation s)
      (sym (arrives_reset date_parse now generation snapshot s current resets))
      (refl, refl, refl, clean, (before, split))

module _ (date_parse : String → Option ℕ) where
  -- While a synchronisation runs, events wait in the order of arrival.
  pub receive_events_waiting :
      (now : ℕ) (es : List FactoryEvent) (s : Sync)
      → s.store.paused ≡ false
      → s.synchronizing ≡ true
      → length s.buffered_events + length es ≤ socket_pending_event_limit
      → receive_events date_parse now es s ≡ record s { buffered_events = s.buffered_events ++ es }
  unfolding receive_events receive_event
  receive_events_waiting now [] s p y room =
      ap (λ b. record s { buffered_events = b }) (sym (append-nil s.buffered_events))
  receive_events_waiting now (e ∷ es) s p y room =
      let one : Sync = record s { buffered_events = s.buffered_events ++ e ∷ [] } in
      ap (receive_events date_parse now es) (
        if-false _ _ p
        ∙ if-true _ _ y
        ∙ if-false {b = leb socket_pending_event_limit (length s.buffered_events)} _ _
            (ground arith))
      ∙ receive_events_waiting now es one p y
          (omega (arith, length-append s.buffered_events (e ∷ [])))
      ∙ ap (λ b. record s { buffered_events = b }) (append_assoc s.buffered_events (e ∷ []) es)

  -- The events that arrive while the current snapshot is fetched are applied to it behind those that
  -- waited before, in the order of arrival and each once, and the connection is shown as live, if
  -- the user has not paused, no reset is among them and they are within the limit.
  pub recovery_in_order :
      (now later generation : ℕ) (snapshot : FactorySnapshot) (es : List FactoryEvent) (s : Sync)
      → is_current generation s ≡ true
      → s.store.paused ≡ false
      → s.synchronizing ≡ true
      → any is_reset (s.buffered_events ++ es) ≡ false
      → length s.buffered_events + length es ≤ socket_pending_event_limit
      → (snapshot_arrives date_parse later generation snapshot
          (receive_events date_parse now es s)).store
        ≡ set_connection_status live (
            apply_events date_parse later
              (s.buffered_events ++ es)
              (commit_factory_snapshot later snapshot s.store))
  recovery_in_order now later generation snapshot es s current p y none_reset room =
      let held : Sync = record s { buffered_events = s.buffered_events ++ es } in
      ap (λ t. (snapshot_arrives date_parse later generation snapshot t).store)
        (receive_events_waiting now es s p y room)
      ∙ ap (λ (t : Sync). t.store)
          (arrives_live date_parse later generation snapshot held current none_reset p)
      ∙ store-finish generation _
