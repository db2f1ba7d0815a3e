-- ===== src/Auth/Ending.antt =====
-- How components/auth/auth-provider.tsx ends a session.
use ev_factory_twin.Prelude.{
  ℕ, ◌<◌, ◌≤◌, ◌≡◌, refl, ap, sym, ◌∙◌, subst, arith, Bool, true, false, none, some, List, [], ◌∷◌,
  ◌++◌, ◌&&◌, ◌||◌, beq, All, if-elim, ◌==◌, if-true, if-false,
}
use ev_factory_twin.Store.{reset}
use ev_factory_twin.Auth.{
  Effect, perform, Auth, Session, Reason, session_expired, access_revoked, Caller, by_login,
  by_other, ProfileAnswer, loads, refuses, breaks, is_latest, is_public_path, login_throws,
  clear_auth, redirect_to_login, terminate_session, expire_session, revoke_access, no_profile,
  replaces_with_login, hydrate_session, handle_unauthorized, hydration_ends, hydration_fails,
  profile_arrives, refreshes_router, signs_out,
}
use ev_factory_twin.Auth.Inputs.{logout, logout_ends}

-- To end the session a second time, for whatever reason, as when several requests are refused at
-- once, changes nothing: the first end stands with its reason.
pub terminate_session_once :
    (first second : Reason) (s : Auth)
    → terminate_session second (terminate_session first s) ≡ terminate_session first s
unfolding terminate_session redirect_to_login clear_auth
terminate_session_once first second s = ground arith

-- Nobody is signed in, and the store is reset.
abbrev pub IsSignedOut : Auth → Type 0
IsSignedOut s =
    (s.user ≡ none) × (s.session ≡ none) × (s.api_token ≡ none) × (s.store ≡ reset s.store)

abbrev pub arrive : List (Caller × ℕ × ProfileAnswer) → Auth → Auth
arrive [] s = s
arrive ((caller, generation, answer) ∷ answers) s =
    arrive answers (profile_arrives caller generation answer s)

-- Signed out, and past the generation `n`.
abbrev IsPast : ℕ → Auth → Type 0
IsPast n s = IsSignedOut s × (n < s.generation)

redirect-IsPast :
    (n : ℕ) (reason : Reason) (s : Auth) → IsPast n s → IsPast n (redirect_to_login reason s)
unfolding redirect_to_login
redirect-IsPast n reason s h = if-elim (IsPast n) (is_public_path s.pathname) (λ _. h) (λ _. h)

expire-IsPast : (n : ℕ) (s : Auth) → IsPast n s → IsPast n (expire_session s)
unfolding expire_session terminate_session clear_auth reset
expire-IsPast n s h =
    let cleared : Auth =
      record (clear_auth (record s { expiration_in_progress = true; logout_in_progress = true })) {
        error = none;
      } in
    let k : IsPast n (redirect_to_login session_expired cleared) =
      redirect-IsPast n session_expired cleared ((refl, refl, refl, refl), omega (arith, h.1)) in
    if-elim (IsPast n) s.expiration_in_progress (λ _. h)
      (λ _. if-elim (IsPast n) s.has_client (λ _. k) (λ _. k))

handle_unauthorized-IsPast :
    (n : ℕ) (answer : ProfileAnswer) (s : Auth)
    → IsPast n s
    → IsPast n (handle_unauthorized answer s)
unfolding handle_unauthorized
handle_unauthorized-IsPast n (loads u) s h = h
handle_unauthorized-IsPast n breaks s h = h
handle_unauthorized-IsPast n (refuses status) s h =
    if-elim (IsPast n) (beq status 401 && s.handles_unauthorized) (λ _. expire-IsPast n s h)
      (λ _. h)

login_throws-IsPast :
    (n : ℕ) (caller : Caller) (s : Auth) → IsPast n s → IsPast n (login_throws caller no_profile s)
login_throws-IsPast n by_login s h = h
login_throws-IsPast n by_other s h = h

profile_arrives-IsPast :
    (n generation : ℕ) (caller : Caller) (answer : ProfileAnswer) (s : Auth)
    → generation ≤ n
    → IsPast n s
    → IsPast n (profile_arrives caller generation answer s)
unfolding profile_arrives
profile_arrives-IsPast n generation caller answer s old h =
    let told : Auth = handle_unauthorized answer s in
    let k = handle_unauthorized-IsPast n answer s h in
    if-elim (IsPast n) (is_latest generation told)
      (λ latest. absurd (ground (arith, old, k.1, latest)))
      (λ _. login_throws-IsPast n caller told k)

arrive-IsPast :
    (n : ℕ) (answers : List (Caller × ℕ × ProfileAnswer)) (s : Auth)
    → All (λ (a : Caller × ℕ × ProfileAnswer). a.1 ≤ n) answers
    → IsPast n s
    → IsPast n (arrive answers s)
arrive-IsPast n [] s old h = h
arrive-IsPast n ((caller, generation, answer) ∷ answers) s old h =
    arrive-IsPast n answers (profile_arrives caller generation answer s) old.1
      (profile_arrives-IsPast n generation caller answer s old.0 h)

-- After a logout, the answers to the profile requests that were made before it, in whatever order and
-- with whatever result, sign nobody in: no user, no session, no token, and the store stays reset.
pub logout_is_final :
    (answers : List (Caller × ℕ × ProfileAnswer)) (s : Auth)
    → All (λ (a : Caller × ℕ × ProfileAnswer). a.1 ≤ s.generation) answers
    → IsSignedOut (arrive answers (logout s))
unfolding logout logout_ends clear_auth reset
logout_is_final answers s old =
    (arrive-IsPast s.generation answers (logout s) old (
      if-elim (IsPast s.generation) s.has_client (λ _. ((refl, refl, refl, refl), omega arith))
        (λ _. ((refl, refl, refl, refl), omega arith)))).0

-- `t` is `s` signed out by force: its effects say what the user sees and what the client is told.
abbrev pub IsRevoked : Auth → Auth → Type 0
IsRevoked s t =
    IsSignedOut t
    × (t.effects
        ≡ s.effects
          ++ replaces_with_login (some (access_revoked, some s.pathname))
            ∷ refreshes_router
            ∷ signs_out
            ∷ [])

three :
    (es : List Effect) (a b c : Effect)
    → ((es ++ a ∷ []) ++ b ∷ []) ++ c ∷ [] ≡ es ++ a ∷ b ∷ c ∷ []
three [] a b c = refl
three (e ∷ es) a b c = ap (◌∷◌ e) (three es a b c)

no_second : (a b c : Bool) → (a || (b || c)) ≡ false → b ≡ false
no_second a b c h = ground arith

-- A profile that is refused with a 403 signs the user out, and the login page is opened with the
-- reason and the path to return to, if the request was the current one, no session was being ended,
-- the page is not public and the client is configured.
pub revocation_ends_session :
    (generation : ℕ) (s : Auth)
    → is_latest generation s ≡ true
    → s.expiration_in_progress ≡ false
    → is_public_path s.pathname ≡ false
    → s.has_client ≡ true
    → IsRevoked s (profile_arrives by_other generation (refuses 403) s)
unfolding profile_arrives handle_unauthorized hydration_ends hydration_fails revoke_access
    terminate_session redirect_to_login clear_auth reset
revocation_ends_session generation s latest e p c =
    subst (IsRevoked s)
      (sym (
        if-true _ _ latest
        ∙ if-false _ _ e
        ∙ if-true _ _ c
        ∙ ap (perform signs_out) (if-false _ _ p)))
      (
        (refl, refl, refl, refl),
        ap
              (λ r.
                ((s.effects ++ replaces_with_login (some (access_revoked, r)) ∷ [])
                  ++ refreshes_router ∷ [])
                ++ signs_out ∷ [])
              (if-false _ _ (
                no_second (s.pathname == "/homepage") (s.pathname == "/login")
                  (s.pathname == "/scene-probe") p))
            ∙ three s.effects _ _ _,
      )

-- While the component is mounted, after an expired session the session that comes next is kept
-- although its profile is refused with a 403: nothing changes at all, so the API client keeps its
-- token, no error is shown and no page is left.
pub revocation_after_expiry_ignored :
    (next : Session) (s : Auth)
    → s.mounted ≡ true
    → let expired = expire_session s in
      let begun = hydrate_session by_other (some next) expired in
      let t = profile_arrives by_other begun.generation (refuses 403) begun in t ≡ begun
unfolding profile_arrives handle_unauthorized hydration_ends hydration_fails revoke_access
    hydrate_session expire_session terminate_session redirect_to_login clear_auth
revocation_after_expiry_ignored next s m = ground arith
