-- ===== src/Sync/Pausing/Resume.antt =====
-- Whole episodes of use-factory-socket.ts from the press of the pause button to the next.
use ev_factory_twin.Prelude.{
  ℕ, ◌≤◌, ◌≡◌, refl, ap, ◌∙◌, String, true, false, Option, none, some, List, [], ◌++◌, any, arith,
  length, if-true, if-false,
}
use ev_factory_twin.Schema.Event.{FactoryEvent}
use ev_factory_twin.Snapshot.{FactorySnapshot, commit_factory_snapshot}
use ev_factory_twin.Store.{FactoryStore, set_paused}
use ev_factory_twin.Sync.{
  Sync, on_store, is_reset, paused_factory_event_limit, apply_events, receive_events,
  synchronize_snapshot, recovery,
}
use ev_factory_twin.Sync.Inputs.{
  on_pause, on_resume, changes_store, is_offline, commit_kept, forget_pause,
}
use ev_factory_twin.Sync.Sound.Store.{paused-commit}
use ev_factory_twin.Sync.Pausing.{
  buffer_paused_events_kept, receive_events_paused, receive_events_live, pauses, resumes,
}

-- What the replay starts from.
abbrev pub kept : ℕ → Option FactorySnapshot → FactoryStore → FactoryStore
kept now none s = s
kept now (some snapshot) s = commit_factory_snapshot now snapshot s

-- The hook shows live data: it is mounted, nothing is paused or being fetched, nothing is kept.
abbrev pub IsListening : Sync → Type 0
IsListening s =
    (s.mounted ≡ true)
    × (s.store.paused ≡ false)
    × (s.synchronizing ≡ false)
    × (is_offline s.store.connection_status ≡ false)
    × (s.paused_events ≡ [])
    × (s.paused_snapshot ≡ none)

module _ (date_parse : String → Option ℕ) (now : ℕ) where
  replays :
      (es : List FactoryEvent) (kept_snapshot : Option FactorySnapshot) (s : Sync)
      → s.store.paused ≡ false
      → s.synchronizing ≡ false
      → any is_reset es ≡ false
      → (receive_events date_parse now es (commit_kept now kept_snapshot s)).store
        ≡ apply_events date_parse now es (kept now kept_snapshot s.store)
  replays es none s p y none_reset =
      ap (λ (t : Sync). t.store) (receive_events_live date_parse now es s p y none_reset)
  replays es (some snapshot) s p y none_reset =
      ap (λ (t : Sync). t.store)
        (receive_events_live date_parse now es (on_store (commit_factory_snapshot now snapshot) s)
          (paused-commit now snapshot s.store ∙ p) y none_reset)

  pub resume_replays :
      (s : Sync)
      → is_offline s.store.connection_status ≡ false
      → s.paused_buffer_incomplete ≡ false
      → s.store.paused ≡ false
      → s.synchronizing ≡ false
      → any is_reset s.paused_events ≡ false
      → (on_resume date_parse now s).store
        ≡ apply_events date_parse now s.paused_events (kept now s.paused_snapshot s.store)
  unfolding on_resume
  resume_replays s o i p y none_reset =
      ap (λ (t : Sync). t.store) (if-false _ _ o ∙ if-false _ _ i)
      ∙ replays s.paused_events s.paused_snapshot _ p y none_reset

  pub resume_refetches :
      (s : Sync)
      → is_offline s.store.connection_status ≡ false
      → s.paused_buffer_incomplete ≡ true
      → on_resume date_parse now s
        ≡ synchronize_snapshot recovery (forget_pause (record s { pause_overflow_warned = false }))
  unfolding on_resume
  resume_refetches s o i = if-false _ _ o ∙ if-true _ _ i

module _ (date_parse : String → Option ℕ) where
  -- A pause during which `es` arrived leaves the store that `es`, applied in order at the time of
  -- the resumption, would have left, if the hook was listening, no reset is among them and they are
  -- within the limit.
  pub pause_replays_in_order :
      (at during later : ℕ) (es : List FactoryEvent) (s : Sync)
      → IsListening s
      → any is_reset es ≡ false
      → length es ≤ paused_factory_event_limit
      → (changes_store date_parse later (set_paused false) (
          receive_events date_parse during es
            (changes_store date_parse at (set_paused true) s))).store
        ≡ apply_events date_parse later es s.store
  unfolding on_pause set_paused
  pause_replays_in_order at during later es s (m, p, y, o, none_kept, none_snapshot) none_reset
        room =
      let paused : Sync = on_pause (on_store (set_paused true) s) in
      let held : Sync = record paused { paused_events = s.paused_events ++ es } in
      ap
        (λ t.
          (changes_store date_parse later (set_paused false)
            (receive_events date_parse during es t)).store)
        (pauses date_parse at s m p)
      ∙ ap (λ t. (changes_store date_parse later (set_paused false) t).store)
          (receive_events_paused date_parse during es paused refl
            ∙ buffer_paused_events_kept es paused (ground arith))
      ∙ ap (λ (t : Sync). t.store) (resumes date_parse later held m refl)
      ∙ resume_replays date_parse later (on_store (set_paused false) held) o refl refl y
          (ground arith)
      ∙ ground arith
