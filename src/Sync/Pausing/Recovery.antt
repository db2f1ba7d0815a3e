-- ===== src/Sync/Pausing/Recovery.antt =====
-- A press of the pause button while the snapshot is fetched.
use ev_factory_twin.Prelude.{
  ℕ, ◌+◌, ◌≤◌, ◌≡◌, refl, sym, ap, ◌∙◌, String, true, false, Option, some, List, [], ◌∷◌, ◌++◌, any,
  any-append, arith, length, if◌then◌else◌,
}
use ev_factory_twin.Schema.Event.{FactoryEvent}
use ev_factory_twin.Snapshot.{FactorySnapshot, commit_factory_snapshot}
use ev_factory_twin.Store.{FactoryStore, live, set_paused, set_connection_status}
use ev_factory_twin.Sync.{
  Sync, on_store, is_current, is_reset, paused_factory_event_limit, apply_events, receive_events,
  recovery,
}
use ev_factory_twin.Sync.Inputs.{
  on_pause, changes_store, is_offline, snapshot_arrives, fetch_done, finish,
}
use ev_factory_twin.Sync.Pausing.{buffer_paused_events_kept, receive_events_paused, pauses, resumes}
use ev_factory_twin.Sync.Replay.{receive_events_waiting, arrives_paused}
use ev_factory_twin.Sync.Pausing.Resume.{kept, resume_replays}
use ev_factory_twin.Sync.{Waiter, authentication, tell, settle}

-- `t` differs from `s` in what was told to those who waited only.
abbrev pub SameButWaiters : Sync → Sync → Type 0
SameButWaiters s t =
    (t.store ≡ s.store)
    × (t.mounted ≡ s.mounted)
    × (t.synchronizing ≡ s.synchronizing)
    × (t.paused_events ≡ s.paused_events)
    × (t.paused_snapshot ≡ s.paused_snapshot)
    × (t.paused_buffer_incomplete ≡ s.paused_buffer_incomplete)

SameButWaiters-settle :
    (generation : ℕ) (waiters : List (ℕ × Waiter)) (s : Sync)
    → SameButWaiters s (settle generation true waiters s)
unfolding settle tell
SameButWaiters-settle generation [] s = (refl, refl, refl, refl, refl, refl)
SameButWaiters-settle generation ((g, authentication) ∷ waiters) s = ground (
  arith,
  SameButWaiters-settle generation waiters (tell true authentication s),
  SameButWaiters-settle generation waiters
      (record s { waiters = s.waiters ++ (g, authentication) ∷ [] }),
)
SameButWaiters-settle generation ((g, recovery) ∷ waiters) s = ground (
  arith,
  SameButWaiters-settle generation waiters s,
  SameButWaiters-settle generation waiters (record s { waiters = s.waiters ++ (g, recovery) ∷ [] }),
)

pub finish_kept :
    (generation : ℕ) (s : Sync)
    → s.synchronizing ≡ false
    → SameButWaiters s (finish generation true s)
finish_kept generation s y =
    let ended : Sync =
      if is_current generation s then record s { synchronizing = false; active = false } else s in
    let (a, b, c, d, e, f) =
      SameButWaiters-settle generation s.waiters (record ended { waiters = [] }) in
    (
      a ∙ ground arith,
      b ∙ ground arith,
      c ∙ ground arith,
      d ∙ ground arith,
      e ∙ ground arith,
      f ∙ ground arith,
    )

module _ (date_parse : String → Option ℕ) where
  -- What waited in the synchronisation is put behind what arrived during the pause.
  keeps_behind :
      (now generation : ℕ) (snapshot : FactorySnapshot) (s : Sync)
      → is_current generation s ≡ true
      → any is_reset s.buffered_events ≡ false
      → s.store.paused ≡ true
      → length s.paused_events + length s.buffered_events ≤ paused_factory_event_limit
      → snapshot_arrives date_parse now generation snapshot s
        ≡ finish generation true (
            on_store (set_connection_status live) (record (fetch_done generation s) {
              buffered_events = [];
              paused_snapshot = some snapshot;
              synchronizing = false;
              paused_events = s.paused_events ++ s.buffered_events;
            }))
  keeps_behind now generation snapshot s current none_reset p room =
      arrives_paused date_parse now generation snapshot s current none_reset p
      ∙ ap (λ t. finish generation true (on_store (set_connection_status live) t))
          (buffer_paused_events_kept s.buffered_events
            (record (fetch_done generation s) {
              buffered_events = [];
              paused_snapshot = some snapshot;
              synchronizing = false;
            })
            room)

  resume_finished :
      (later generation : ℕ) (s : Sync)
      → s.mounted ≡ true
      → s.store.paused ≡ true
      → s.synchronizing ≡ false
      → s.paused_buffer_incomplete ≡ false
      → is_offline s.store.connection_status ≡ false
      → any is_reset s.paused_events ≡ false
      → (changes_store date_parse later (set_paused false) (finish generation true s)).store
        ≡ apply_events date_parse later s.paused_events
            (kept later s.paused_snapshot (set_paused false s.store))
  unfolding set_paused
  resume_finished later generation s m p y i o none_reset =
      let (a, b, c, d, e, f) = finish_kept generation s y in
      let ended : Sync = finish generation true s in
      ap (λ (t : Sync). t.store)
        (resumes date_parse later ended (b ∙ m) (ap (λ (t : FactoryStore). t.paused) a ∙ p))
      ∙ resume_replays date_parse later (on_store (set_paused false) ended)
          (ap (λ (t : FactoryStore). is_offline t.connection_status) a ∙ o) (f ∙ i) refl (c ∙ y)
          (ap (any is_reset) d ∙ none_reset)
      ∙ ap
          (λ t.
            apply_events date_parse later t
              (kept later ended.paused_snapshot (set_paused false ended.store)))
          d
      ∙ ap
          (λ t.
            apply_events date_parse later s.paused_events
              (kept later t (set_paused false ended.store)))
          e
      ∙ ap
          (λ t.
            apply_events date_parse later s.paused_events
              (kept later s.paused_snapshot (set_paused false t)))
          a

  -- While the snapshot is fetched, `fs` arrive, the user pauses, `es` arrive, and the snapshot comes
  -- before the user resumes. Then `es` are applied to the snapshot before `fs`, although they came
  -- after them, if there was no reset among them and both are within the limit.
  pub pause_during_recovery_reorders :
      (now at during arrival later generation : ℕ) (snapshot : FactorySnapshot)
      (fs es : List FactoryEvent) (s : Sync)
      → is_current generation s ≡ true
      → s.store.paused ≡ false
      → s.synchronizing ≡ true
      → s.buffered_events ≡ []
      → s.paused_events ≡ []
      → any is_reset (es ++ fs) ≡ false
      → length es + length fs ≤ paused_factory_event_limit
      → (changes_store date_parse later (set_paused false) (
          snapshot_arrives date_parse arrival generation snapshot (
            receive_events date_parse during es (
              changes_store date_parse at
                (set_paused true)
                (receive_events date_parse now fs s))))).store
        ≡ apply_events date_parse later
            (es ++ fs)
            (commit_factory_snapshot later snapshot (set_connection_status live s.store))
  unfolding on_pause set_paused set_connection_status
  pause_during_recovery_reorders now at during arrival later generation snapshot fs es s current p y
        none_buffered none_kept none_reset room =
      let waiting : Sync = record s { buffered_events = fs } in
      let paused : Sync = on_pause (on_store (set_paused true) waiting) in
      let held : Sync = record paused { paused_events = es } in
      let m : s.mounted ≡ true = ground arith in
      let answer = snapshot_arrives date_parse arrival generation snapshot in
      let resume = λ (t : Sync). (changes_store date_parse later (set_paused false) t).store in
      ap
        (λ t. resume (
          answer (
            receive_events date_parse during es (changes_store date_parse at (set_paused true) t))))
        (receive_events_waiting date_parse now fs s p y (ground arith)
          ∙ ap (λ b. record s { buffered_events = b ++ fs }) none_buffered)
      ∙ ap (λ t. resume (answer (receive_events date_parse during es t)))
          (pauses date_parse at waiting m p)
      ∙ ap (λ t. resume (answer t))
          (receive_events_paused date_parse during es paused refl
            ∙ buffer_paused_events_kept es paused (ground arith)
            ∙ ap (λ b. record paused { paused_events = b ++ es }) none_kept)
      ∙ ap resume (
          keeps_behind arrival generation snapshot held current
            (ground (arith, any-append is_reset es fs)) refl room)
      ∙ resume_finished later generation _ m refl refl refl refl none_reset
      ∙ ap
          (λ q. apply_events date_parse later (es ++ fs) (
            commit_factory_snapshot later snapshot
              (record s.store { paused = q; connection_status = live })))
          (sym p)
