-- ===== src/Examples/Entry.antt =====
-- From a login to the next request at concrete inputs.
use geoplane.Base.{String, true, none, some, [], ◌∷◌, ok, ◌≡◌, refl, arith, Memᴰ, get_or}
use geoplane.Base.Text.{trim}
use geoplane.Base.Split.{split_on, break_at}
use geoplane.Tenancy.Entities.{client_owner}
use geoplane.Auth.Keys.{initial_key_state}
use geoplane.Auth.Signing.{sign_with}
use geoplane.Auth.Cookie.{payload_segment, session_cookie_name, decode_session_cookie_with_meta}
use geoplane.Auth.Login.{LoginResult, login}
use geoplane.Auth.Table.{SessionRow, repo_session_store}
use geoplane.Auth.Runtime.{build_auth_service_deps, read_cookie, resolve_session}
use geoplane.Auth.Runtime.Logins.{CanLogin, login_row, login_cookie, logged_in}
use geoplane.Auth.Runtime.Entry.{Behind, login-resolve_session}
use geoplane.Examples.Data.{marks, marks-ReadsDates}
use geoplane.Auth.Cookie.{DecodedSessionCookie}
use geoplane.Auth.Runtime.Resolution.{StandsBehind, resolve_session_sound}
use geoplane.Examples.Auth.{
  writer, reader, member, acme, repositories, ann, log_in, toy, after_signing, after_reading,
  written-ReadsBack, signs, verifies, second,
}

-- a session of the user from before, since revoked
abbrev older : SessionRow
older = record {
  id = "s0";
  user_id = "u1";
  membership_id = "m1";
  organization_id = "acme";
  role = client_owner;
  active_client_organization_id = some "acme";
  active_project_id = none;
  session_version = 1;
  created_at = 5;
  expires_at = 1000;
  revoked_at = some 7;
}

older-Behind : Behind 50 log_in member (older ∷ [])
older-Behind other (Memᴰ.head e) = rw e (λ _ _. omega arith, λ _. omega arith)
older-Behind other (Memᴰ.tail m) = elim m [ ]

can : CanLogin repositories log_in member [] acme
can = record { listed = refl; own = refl; home = refl; same_id = refl }

abbrev header : String
header = "theme=dark; geo_acceptance_session=payload.100.43200100.signed-by-key-1"

carried :
    read_cookie header session_cookie_name
    ≡ some (login_cookie toy repositories 100 log_in member acme "key-1")
unfolding read_cookie payload_segment sign_with build_auth_service_deps split_on break_at trim
carried = refl

login-resolve_session_example :
    (result : LoginResult) × ((login marks toy writer
          (repo_session_store marks "s1" 50)
          (build_auth_service_deps repositories)
          "uuid"
          100
          log_in
          (older ∷ [])
          initial_key_state
        ≡ (ok (ok result), login_row "s1" 50 log_in member acme ∷ older ∷ [], after_signing))
      × (result.session_cookie ≡ login_cookie toy repositories 100 log_in member acme "key-1")
      × ((resolve_session marks
            (λ _ _. true)
            repositories
            (login_row "s1" 50 log_in member acme ∷ older ∷ [])
            300
            toy
            reader
            200
            header
            initial_key_state).0
          ≡ ok (some (logged_in repositories "s1" ann member acme))))
login-resolve_session_example =
    login-resolve_session marks toy writer repositories "s1" 50 marks-ReadsDates reader
      (λ _ _. true) "uuid" header log_in member [] acme (older ∷ []) 100 200 300 initial_key_state
      after_signing initial_key_state after_reading "key-1" ("key-2" ∷ "key-1" ∷ []) can
      older-Behind signs verifies second written-ReadsBack carried (omega arith) (omega arith)
      (omega arith)

resolved :
    (resolve_session marks
      (λ _ _. true)
      repositories
      (login_row "s1" 50 log_in member acme ∷ older ∷ [])
      300
      toy
      reader
      200
      header
      initial_key_state).0
    ≡ ok (some (logged_in repositories "s1" ann member acme))
resolved =
    (login-resolve_session marks toy writer repositories "s1" 50 marks-ReadsDates reader
      (λ _ _. true) "uuid" header log_in member [] acme (older ∷ []) 100 200 300 initial_key_state
      after_signing initial_key_state after_reading "key-1" ("key-2" ∷ "key-1" ∷ []) can
      older-Behind signs verifies second written-ReadsBack carried (omega arith) (omega arith)
      (omega arith)).1.2

resolve_session_sound_example :
    (cookie : DecodedSessionCookie) × (((decode_session_cookie_with_meta toy reader 200
          (get_or (read_cookie header session_cookie_name) "")
          initial_key_state).0
        ≡ ok (some cookie))
      × StandsBehind repositories
          (login_row "s1" 50 log_in member acme ∷ older ∷ [])
          300
          cookie
          (logged_in repositories "s1" ann member acme))
resolve_session_sound_example =
    resolve_session_sound marks (λ _ _. true) repositories
      (login_row "s1" 50 log_in member acme ∷ older ∷ []) 300 toy reader 200 header
      initial_key_state (logged_in repositories "s1" ann member acme) marks-ReadsDates resolved
