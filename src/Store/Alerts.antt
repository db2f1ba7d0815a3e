-- ===== src/Store/Alerts.antt =====
-- The alerts of factory-store.ts and the alerts that the user has acknowledged.
use ev_factory_twin.Prelude.{
  ℕ, zero, suc, String, ◌≡◌, refl, Bool, not, ◌&&◌, ◌||◌, Option, none, some, List, [], ◌∷◌, inl,
  inr, arith, ◌==◌, eq_iff, eq_refl, if◌then◌else◌, any, any-append, find, filter, take, All,
  All-filter_test, length-take, min, ap, ◌⊎◌, true, ◌+◌, ◌∙◌, length, head?, Bool-cases,
}
use ev_factory_twin.Schema.Fleet.{FactoryAlert}
use ev_factory_twin.Store.{
  FactoryStore, is_active, still_active, set_alerts, add_alert, acknowledge_alert,
}

-- The alert that is listed under a dedupe key.
abbrev pub listed : String → List FactoryAlert → Option FactoryAlert
listed k = find (λ c. c.dedupe_key == k)

find-filter_ne :
    (j k : String) (xs : List FactoryAlert)
    → listed k (filter (λ c. not (c.dedupe_key == j)) xs) ≡ (if j == k then none else listed k xs)
find-filter_ne j k [] = ground arith
find-filter_ne j k (x ∷ xs) =
    ground (arith, eq_iff x.dedupe_key j, eq_iff x.dedupe_key k, eq_iff j k, find-filter_ne j k xs)

abbrev same_key : String → FactoryAlert → Bool
same_key k c = c.dedupe_key == k

-- Of alerts with other keys, however many are taken, none has the key.
none_taken :
    (n : ℕ) (k : String) (xs : List FactoryAlert)
    → All (λ c. not (same_key k c) ≡ true) xs
    → filter (same_key k) (take n xs) ≡ []
none_taken zero k xs h = refl
none_taken (suc n) k [] h = refl
none_taken (suc n) k (x ∷ xs) h = ground (arith, none_taken n k xs, h.0, h.1)

-- A shorter list has the same alert of a key, or none.
listed-take :
    (n : ℕ) (k : String) (xs : List FactoryAlert)
    → (listed k (take n xs) ≡ none) ⊎ (listed k (take n xs) ≡ listed k xs)
listed-take zero k xs = inl refl
listed-take (suc n) k [] = inl refl
listed-take (suc n) k (x ∷ xs) = elim (Bool-cases (x.dedupe_key == k)) [
  | inl e ↦ inr (rw e)
  | inr e ↦ rw e (listed-take n k xs)
]

-- A new alert is listed first and is the only one of its dedupe key. Of the alerts with other keys as
-- many are kept as make fifty with it, and each key that is still listed has the alert that it had.
pub add_alert_lem :
    (a : FactoryAlert) (k : String) (s : FactoryStore)
    → (head? (add_alert a s).alerts ≡ some a)
      × (filter (λ c. c.dedupe_key == a.dedupe_key) (add_alert a s).alerts ≡ a ∷ [])
      × (length (add_alert a s).alerts
          ≡ min 50 (length (filter (λ c. not (c.dedupe_key == a.dedupe_key)) s.alerts) + 1))
      × ((listed k (add_alert a s).alerts ≡ none)
          ⊎ (listed k (add_alert a s).alerts
              ≡ (if a.dedupe_key == k then some a else listed k s.alerts)))
unfolding add_alert
add_alert_lem a k s =
    let others = filter (λ c. not (same_key a.dedupe_key c)) s.alerts in
    let kept = listed-take 49 k others in
    (
      refl,
      rw (eq_refl a.dedupe_key)
          (ap (◌∷◌ a) (none_taken 49 a.dedupe_key others (All-filter_test _ s.alerts))),
      omega (arith, length-take 49 others),
      elim (Bool-cases (a.dedupe_key == k)) [
        | inl e ↦ rw e (inr refl)
        | inr e ↦ rw e (elim kept [
          | inl gone ↦ inl gone
          | inr same ↦ inr (same ∙ (let p = find-filter_ne a.dedupe_key k s.alerts in rw e at p))
        ])
      ],
    )

-- Whether an identifier is acknowledged.
abbrev pub is_acknowledged : String → List String → Bool
is_acknowledged j ids = any (λ known. known == j) ids

is_acknowledged-filter :
    (p : String → Bool) (j : String) (ids : List String)
    → is_acknowledged j (filter p ids) ≡ (is_acknowledged j ids && p j)
is_acknowledged-filter p j [] = refl
is_acknowledged-filter p j (i ∷ ids) = ground (arith, eq_iff i j, is_acknowledged-filter p j ids)

-- After a fetch exactly the acknowledged alerts that are still active are acknowledged.
pub is_acknowledged-set_alerts :
    (alerts : List FactoryAlert) (j : String) (s : FactoryStore)
    → is_acknowledged j (set_alerts alerts s).acknowledged_alert_ids
      ≡ (is_acknowledged j s.acknowledged_alert_ids && still_active alerts j)
unfolding set_alerts
is_acknowledged-set_alerts alerts j s =
    is_acknowledged-filter (still_active alerts) j s.acknowledged_alert_ids

-- An alert that is cleared loses its acknowledgement; no other acknowledgement changes.
pub is_acknowledged-add_alert :
    (a : FactoryAlert) (j : String) (s : FactoryStore)
    → is_acknowledged j (add_alert a s).acknowledged_alert_ids
      ≡ (is_acknowledged j s.acknowledged_alert_ids && (is_active a.status || not (j == a.id)))
unfolding add_alert
is_acknowledged-add_alert a j s = elim (Bool-cases (is_active a.status)) [
  | inl e ↦ rw e (ground arith)
  | inr e ↦ rw e (is_acknowledged-filter (λ id. not (id == a.id)) j s.acknowledged_alert_ids)
]

-- Acknowledging adds the one identifier, and a second time changes nothing.
pub acknowledge_alert_lem :
    (id j : String) (s : FactoryStore)
    → (is_acknowledged j (acknowledge_alert id s).acknowledged_alert_ids
        ≡ (is_acknowledged j s.acknowledged_alert_ids || id == j))
      × (acknowledge_alert id (acknowledge_alert id s) ≡ acknowledge_alert id s)
unfolding acknowledge_alert
acknowledge_alert_lem id j s = elim (Bool-cases (is_acknowledged id s.acknowledged_alert_ids)) [
  | inl e ↦ (rw e (ground (arith, eq_iff id j)), rw (e, e))
  | inr e ↦ (
    rw (e, any-append (λ known. known == j) s.acknowledged_alert_ids (id ∷ [])) (ground arith),
    rw (e, any-append (λ known. known == id) s.acknowledged_alert_ids (id ∷ []), eq_refl id, e),
  )
]
