-- ===== src/Auth/Tests.antt =====
-- Tests of the model of components/auth/auth-provider.tsx.
use ev_factory_twin.Prelude.{◌≡◌, refl, arith, true, false, none, some, [], ◌∷◌}
use ev_factory_twin.Samples.{live_store, user}
use ev_factory_twin.Auth.{
  Auth, Session, by_other, loads, refuses, expire_session, hydrate_session, profile_arrives,
}
use ev_factory_twin.Auth.Inputs.{
  answers, mounts, reads, gets_profile_answer, asks_logout, logout, run,
}
use ev_factory_twin.Auth.Coherent.{IsCoherent}
use ev_factory_twin.Auth.Coherent.Steps.{run-IsCoherent}
use ev_factory_twin.Auth.Ending.{
  IsSignedOut, arrive, logout_is_final, revocation_after_expiry_ignored,
}

abbrev session : Session
session = record { access_token = "T" }

-- Before anybody has signed in.
abbrev idle : Auth
idle = record {
  user = none;
  session = none;
  is_loading = true;
  error = none;
  generation = 0;
  mounted = true;
  pathname = "/fleet";
  logout_in_progress = false;
  expiration_in_progress = false;
  has_client = true;
  api_token = none;
  handles_unauthorized = true;
  store = live_store;
  effects = [];
}

abbrev signed_in_user : Auth
signed_in_user = record idle {
  user = some (user "U-1");
  session = some session;
  api_token = some "T";
  is_loading = false;
  generation = 3;
}

logout_is_final_example : IsSignedOut (
    arrive
      ((by_other, 3, loads (user "U-1")) ∷ (by_other, 2, refuses 401) ∷ [])
      (logout signed_in_user))
logout_is_final_example =
    logout_is_final ((by_other, 3, loads (user "U-1")) ∷ (by_other, 2, refuses 401) ∷ [])
      signed_in_user (omega arith, (omega arith, tt))

run-IsCoherent_example : IsCoherent (
    run
      (mounts
        ∷ reads (answers (some session))
        ∷ gets_profile_answer by_other 1 (loads (user "U-1"))
        ∷ asks_logout
        ∷ [])
      idle)
run-IsCoherent_example =
    run-IsCoherent
      (mounts
        ∷ reads (answers (some session))
        ∷ gets_profile_answer by_other 1 (loads (user "U-1"))
        ∷ asks_logout
        ∷ [])
      idle (refl, (λ _. refl), tt)

revocation_after_expiry_ignored_example :
    let begun = hydrate_session by_other (some session) (expire_session signed_in_user) in
    profile_arrives by_other begun.generation (refuses 403) begun ≡ begun
revocation_after_expiry_ignored_example =
    revocation_after_expiry_ignored session signed_in_user refl
