-- ===== src/Store/Commands.antt =====
-- The commands of factory-store.ts: updates that arrive late or twice.
use mathlib.Core.Logic.{◌≢◌}
use ev_factory_twin.Prelude.{
  ℕ, String, ◌≡◌, refl, sym, ap, ◌∙◌, subst, true, false, Option, none, some, List, [], ◌∷◌, map,
  inl, inr, ◌⊎◌, arith, ◌==◌, eq_iff, if◌then◌else◌, Bool-cases, Option-cases,
}
use ev_factory_twin.Prelude.Dict.{Dict, lookup, lookup-insert, last_entry}
use ev_factory_twin.Prelude.Dict.Keys.{lookup-merge-from_entries}
use ev_factory_twin.Prelude.Dates.{later}
use ev_factory_twin.Schema.Planning.{Command}
use ev_factory_twin.Store.{
  FactoryStore, latest_command, command_entry, set_commands, update_command,
}

module _ (date_parse : String → Option ℕ) where
  -- The stored command, if there is one, is not newer than `now`.
  abbrev pub IsNotNewer : Option Command → Option Command → Type 0
  IsNotNewer none now = Unit
  IsNotNewer (some c) none = ⊥
  IsNotNewer (some c) (some d) = later (date_parse c.updated_at) (date_parse d.updated_at) ≡ false

  later_self : (a : Option ℕ) → later a a ≡ false
  later_self none = refl
  later_self (some a) = ground arith

  IsNotNewer-self : (o : Option Command) → IsNotNewer o o
  IsNotNewer-self none = tt
  IsNotNewer-self (some c) = later_self (date_parse c.updated_at)

  latest_command-IsNotNewer :
      (o : Option Command) (c : Command) → IsNotNewer o (some (latest_command date_parse o c))
  latest_command-IsNotNewer none c = tt
  latest_command-IsNotNewer (some d) c =
      elim (Bool-cases (later (date_parse d.updated_at) (date_parse c.updated_at))) [
        | inl e ↦ rw e (later_self (date_parse d.updated_at))
        | inr e ↦ rw e e
      ]

  pub lookup-update_command :
      (k : String) (c : Command) (s : FactoryStore)
      → lookup k (update_command date_parse c s).commands ≡ (
          if c.operation_id == k
          then some (latest_command date_parse (lookup k s.commands) c)
          else lookup k s.commands)
  unfolding update_command
  lookup-update_command k c s = ground (
    arith,
    lookup-insert c.operation_id k (latest_command date_parse (lookup c.operation_id s.commands) c)
        s.commands,
    eq_iff c.operation_id k,
  )

  entry-IsNotNewer :
      (k : String) (old : Dict Command) (o : Option Command) (c : Command)
      → IsNotNewer (lookup k old) o
      → IsNotNewer (lookup k old) (
          if c.operation_id == k
          then some (latest_command date_parse (lookup c.operation_id old) c)
          else o)
  entry-IsNotNewer k old o c h = elim (Bool-cases (c.operation_id == k)) [
    | inl e ↦ rw e (
        subst (λ j. IsNotNewer (lookup k old) (some (latest_command date_parse (lookup j old) c)))
          (sym ((eq_iff c.operation_id k).0 e)) (latest_command-IsNotNewer (lookup k old) c))
    | inr e ↦ rw e h
  ]

  last_entry-IsNotNewer :
      (k : String) (old : Dict Command) (o : Option Command) (cs : List Command)
      → IsNotNewer (lookup k old) o
      → IsNotNewer (lookup k old) (last_entry k o (map (command_entry date_parse old) cs))
  last_entry-IsNotNewer k old o [] h = h
  last_entry-IsNotNewer k old o (c ∷ cs) h =
      last_entry-IsNotNewer k old
        (if c.operation_id == k
          then some (latest_command date_parse (lookup c.operation_id old) c)
          else o)
        cs (entry-IsNotNewer k old o c h)

  -- A fetched list of commands never replaces a stored command by an older one nor drops one,
  -- whatever the list holds.
  pub set_commands-IsNotNewer :
      (k : String) (cs : List Command) (s : FactoryStore)
      → IsNotNewer (lookup k s.commands) (lookup k (set_commands date_parse cs s).commands)
  unfolding set_commands
  set_commands-IsNotNewer k cs s =
      rw (lookup-merge-from_entries k s.commands (map (command_entry date_parse s.commands) cs)) (
        last_entry-IsNotNewer k s.commands (lookup k s.commands) cs
          (IsNotNewer-self (lookup k s.commands)))

  abbrev store_both : Option Command → Command → Command → Command
  store_both o c d = latest_command date_parse (some (latest_command date_parse o c)) d

  store_both_comm :
      (o : Option Command) (c d : Command) (a b : ℕ)
      → date_parse c.updated_at ≡ some a
      → date_parse d.updated_at ≡ some b
      → a ≢ b
      → store_both o c d ≡ store_both o d c
  store_both_comm none c d a b p q ne = rw (p, q) (ground arith)
  store_both_comm (some e) c d a b p q ne = elim (Option-cases (date_parse e.updated_at)) [
    | inl h ↦ ground arith
    | inr (t, h) ↦ ground arith
  ]

  -- Two updates leave the same commands in either order of arrival, if they are of different
  -- operations or were made at different times.
  pub update_command_comm :
      (c d : Command) (a b : ℕ) (k : String) (s : FactoryStore)
      → date_parse c.updated_at ≡ some a
      → date_parse d.updated_at ≡ some b
      → (c.operation_id ≢ d.operation_id) ⊎ (a ≢ b)
      → lookup k (update_command date_parse d (update_command date_parse c s)).commands
        ≡ lookup k (update_command date_parse c (update_command date_parse d s)).commands
  update_command_comm c d a b k s p q ne =
      rw
        (
          lookup-update_command k d (update_command date_parse c s),
          lookup-update_command k c (update_command date_parse d s),
          lookup-update_command k c s,
          lookup-update_command k d s,
        )
        (elim (Bool-cases (c.operation_id == k)) [
          | inl e ↦ elim (Bool-cases (d.operation_id == k)) [
            | inl f ↦
                rw (e, f)
                  (ap some (store_both_comm (lookup k s.commands) c d a b p q (differ e f ne)))
            | inr f ↦ rw (e, f)
          ]
          | inr e ↦ rw e
        ])
    where
      differ :
          (c.operation_id == k) ≡ true
          → (d.operation_id == k) ≡ true
          → (c.operation_id ≢ d.operation_id) ⊎ (a ≢ b)
          → a ≢ b
      differ e f (inl h) =
          absurd (h ((eq_iff c.operation_id k).0 e ∙ sym ((eq_iff d.operation_id k).0 f)))
      differ e f (inr h) = h
