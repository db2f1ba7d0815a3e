-- ===== src/Auth/Racing.antt =====
-- Hydrations of components/auth/auth-provider.tsx that overtake each other.
use ev_factory_twin.Prelude.{
  ℕ, ◌+◌, ◌≡◌, ◌≢◌, refl, ap, sym, subst, arith, true, some, ◌&&◌, beq, if◌then◌else◌, Bool-cases,
  inl, inr, if-false, beq_iff,
}
use ev_factory_twin.Schema.Fleet.{CurrentUser}
use ev_factory_twin.Auth.{
  Auth, Session, Caller, by_login, by_other, ProfileAnswer, loads, refuses, breaks, is_latest,
  login_throws, no_profile, hydrate_session, handle_unauthorized, hydration_ends, profile_arrives,
}

-- `t` shows what `s` shows, to the same session.
abbrev pub ShowsSame : Auth → Auth → Type 0
ShowsSame s t =
    (t.user ≡ s.user)
    × (t.session ≡ s.session)
    × (t.api_token ≡ s.api_token)
    × (t.error ≡ s.error)
    × (t.is_loading ≡ s.is_loading)

throws-ShowsSame : (caller : Caller) (s : Auth) → ShowsSame s (login_throws caller no_profile s)
throws-ShowsSame by_login s = (refl, refl, refl, refl, refl)
throws-ShowsSame by_other s = (refl, refl, refl, refl, refl)

handler_not_called :
    (answer : ProfileAnswer) (s : Auth) → answer ≢ refuses 401 → handle_unauthorized answer s ≡ s
unfolding handle_unauthorized
handler_not_called (loads u) s other = refl
handler_not_called breaks s other = refl
handler_not_called (refuses status) s other = elim (Bool-cases (beq status 401)) [
  | inl e ↦ absurd (other (ap refuses ((beq_iff status 401).0 e)))
  | inr e ↦ if-false _ _ (ap (λ b. b && s.handles_unauthorized) e)
]

-- The answer to the request for the profile of a session that another has replaced, unless it is a 401,
-- changes neither the user nor the session, the error or what is shown as loading.
pub stale_profile_ignored :
    (caller : Caller) (generation : ℕ) (answer : ProfileAnswer) (s : Auth)
    → generation ≢ s.generation
    → answer ≢ refuses 401
    → ShowsSame s (profile_arrives caller generation answer s)
unfolding profile_arrives
stale_profile_ignored caller generation answer s stale other =
    subst
      (λ told. ShowsSame s (
        if is_latest generation told
        then hydration_ends caller answer told
        else login_throws caller no_profile told))
      (sym (handler_not_called answer s other))
      (subst (ShowsSame s) (sym (if-false {b = is_latest generation s} _ _ (ground arith)))
        (throws-ShowsSame caller s))

-- While the component is mounted, two sessions are hydrated one after the other, and the profile of
-- the second arrives. Whether the profile of the first arrives before it or after it, the user and
-- the session are those of the second.
pub last_session_wins :
    (first second : Session) (a b : CurrentUser) (s : Auth)
    → s.mounted ≡ true
    → let begun =
        hydrate_session by_other (some second) (hydrate_session by_other (some first) s) in
      let early = profile_arrives by_other (s.generation + 1) (loads a) begun in
      let late =
        profile_arrives by_other
          (s.generation + 1)
          (loads a)
          (profile_arrives by_other (s.generation + 1 + 1) (loads b) begun) in
      ((profile_arrives by_other (s.generation + 1 + 1) (loads b) early).user ≡ some b)
      × ((profile_arrives by_other (s.generation + 1 + 1) (loads b) early).session ≡ some second)
      × (late.user ≡ some b)
      × (late.session ≡ some second)
unfolding hydrate_session profile_arrives handle_unauthorized hydration_ends
last_session_wins first second a b s m = ground arith
