-- ===== src/Sync/Pausing/Overflow.antt =====
-- More events than the buffer holds while the user has paused.
use ev_factory_twin.Prelude.{
  ℕ, ◌+◌, ◌≤◌, ◌<◌, ◌≡◌, refl, sym, ap, ◌∙◌, String, true, false, Option, some, List, [], ◌∷◌, ◌++◌,
  inl, inr, arith, leb, length, length-append, Bool-cases, if-false, subst,
}
use ev_factory_twin.Schema.Event.{FactoryEvent}
use ev_factory_twin.Store.{FactoryStore, connecting, set_paused, set_connection_status}
use ev_factory_twin.Sync.{
  Sync, on_store, buffer_paused_event, buffer_paused_events, paused_factory_event_limit,
  receive_events, synchronize_snapshot, recovery,
}
use ev_factory_twin.Sync.Inputs.{on_pause, changes_store, is_offline, forget_pause}
use ev_factory_twin.Sync.Pausing.{receive_events_paused, pauses, resumes}
use ev_factory_twin.Sync.Pausing.Resume.{IsListening, resume_refetches}

-- `t` differs from `s` in its buffer of paused events only.
abbrev SameButBuffer : Sync → Sync → Type 0
SameButBuffer s t =
    (t.store ≡ s.store)
    × (t.mounted ≡ s.mounted)
    × (t.active ≡ s.active)
    × (t.snapshot_generation ≡ s.snapshot_generation)

SameButBuffer-event : (e : FactoryEvent) (s : Sync) → SameButBuffer s (buffer_paused_event e s)
unfolding buffer_paused_event
SameButBuffer-event e s = ground arith

SameButBuffer-events :
    (es : List FactoryEvent) (s : Sync) → SameButBuffer s (buffer_paused_events es s)
unfolding buffer_paused_events
SameButBuffer-events [] s = (refl, refl, refl, refl)
SameButBuffer-events (e ∷ es) s =
    let (a, b, c, d) = SameButBuffer-event e s in
    let (a', b', c', d') = SameButBuffer-events es (buffer_paused_event e s) in
    (a' ∙ a, b' ∙ b, c' ∙ c, d' ∙ d)

incomplete_event :
    (e : FactoryEvent) (s : Sync)
    → s.paused_buffer_incomplete ≡ true
    → (buffer_paused_event e s).paused_buffer_incomplete ≡ true
unfolding buffer_paused_event
incomplete_event e s h = ground arith

incomplete_stays :
    (es : List FactoryEvent) (s : Sync)
    → s.paused_buffer_incomplete ≡ true
    → (buffer_paused_events es s).paused_buffer_incomplete ≡ true
unfolding buffer_paused_events
incomplete_stays [] s h = h
incomplete_stays (e ∷ es) s h =
    incomplete_stays es (buffer_paused_event e s) (incomplete_event e s h)

-- One event too many, and the buffer is known to be incomplete.
buffer_overflows :
    (es : List FactoryEvent) (s : Sync)
    → paused_factory_event_limit < length s.paused_events + length es
    → length s.paused_events ≤ paused_factory_event_limit
    → (buffer_paused_events es s).paused_buffer_incomplete ≡ true
unfolding buffer_paused_events buffer_paused_event
buffer_overflows [] s more room = absurd (omega arith)
buffer_overflows (e ∷ es) s more room =
    elim (Bool-cases (leb paused_factory_event_limit (length s.paused_events))) [
      | inl full ↦ incomplete_stays es (buffer_paused_event e s) (ground arith)
      | inr space ↦
          let one : Sync = record s { paused_events = s.paused_events ++ e ∷ [] } in
          ap (λ t. (buffer_paused_events es t).paused_buffer_incomplete) (if-false _ _ space)
          ∙ buffer_overflows es one (omega (arith, more, length-append s.paused_events (e ∷ [])))
              (ground (arith, length-append s.paused_events (e ∷ [])))
    ]

starts_fetch :
    (s : Sync)
    → s.mounted ≡ true
    → s.active ≡ false
    → ((synchronize_snapshot recovery s).store ≡ set_connection_status connecting s.store)
      × ((synchronize_snapshot recovery s).fetching ≡ some (s.snapshot_generation + 1))
      × ((synchronize_snapshot recovery s).synchronizing ≡ true)
      × ((synchronize_snapshot recovery s).paused_events ≡ s.paused_events)
unfolding synchronize_snapshot
starts_fetch s m a = ground arith

-- `t` has thrown what it kept away and waits for a new snapshot of `s`.
abbrev pub StartsOver : Sync → Sync → Type 0
StartsOver s t =
    (t.store ≡ set_connection_status connecting s.store)
    × (t.fetching ≡ some (s.snapshot_generation + 1))
    × (t.synchronizing ≡ true)
    × (t.paused_events ≡ [])

module _ (date_parse : String → Option ℕ) where
  -- After a pause in which more events arrived than are kept, none of them is applied: a new snapshot is
  -- fetched instead, if the hook was listening before and no fetch was under way.
  pub pause_overflow_refetches :
      (at during later : ℕ) (es : List FactoryEvent) (s : Sync)
      → IsListening s
      → s.active ≡ false
      → paused_factory_event_limit < length es
      → StartsOver s (
          changes_store date_parse later
            (set_paused false)
            (receive_events date_parse during es (changes_store date_parse at (set_paused true) s)))
  unfolding on_pause set_paused
  pause_overflow_refetches at during later es s (m, p, y, o, none_kept, none_snapshot) a more =
      let paused : Sync = on_pause (on_store (set_paused true) s) in
      let full : Sync = buffer_paused_events es paused in
      let (b, c, d, e) = SameButBuffer-events es paused in
      let resumed : Sync = on_store (set_paused false) full in
      let started : Sync = forget_pause (record resumed { pause_overflow_warned = false }) in
      let (f, g, h, i) = starts_fetch started (c ∙ m) (d ∙ a) in
      subst (StartsOver s)
        (sym (
          ap
            (λ t.
              (changes_store date_parse later (set_paused false)
                (receive_events date_parse during es t)))
            (pauses date_parse at s m p)
          ∙ ap (λ t. (changes_store date_parse later (set_paused false) t))
              (receive_events_paused date_parse during es paused refl)
          ∙ resumes date_parse later full (c ∙ m) (ap (λ (t : FactoryStore). t.paused) b)
          ∙ resume_refetches date_parse later resumed
              (ap (λ (t : FactoryStore). is_offline t.connection_status) b ∙ o)
              (buffer_overflows es paused (ground arith) (ground arith))))
        (
          f
              ∙ ap (λ t. set_connection_status connecting (set_paused false t)) b
              ∙ ap (λ q. set_connection_status connecting (record s.store { paused = q })) (sym p),
          g ∙ ap (λ n. some (n + 1)) e,
          h,
          i,
        )
