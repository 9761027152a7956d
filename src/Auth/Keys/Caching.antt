-- ===== src/Auth/Keys/Caching.antt =====
-- The keys that a run of the process sees, against the keys that the environment configures.
use geoplane.Base.{
  String, Bool, true, false, Option, none, some, List, [], ◌∷◌, ◌==◌, Result, ok, err, ◌≡◌, refl,
  sym, ap, arith, if◌then◌else◌,
}
use geoplane.Base.Text.{trim, is_blank}
use geoplane.Auth.Keys.{
  Environment, KeyState, KeyError, key_required_in_production, KeyOverride, initial_key_state,
  current_key_env_var, previous_key_env_var, insecure_dev_key, is_production,
  read_var_from_env_file, resolve_configured_key, fall_back, current_signing_key,
  previous_signing_key, key_list, verification_keys,
}

-- what a variable of the process says, if it says something
unfoldable pub said : Option String → Option String
said none = none
said (some value) = if is_blank value then none else some (trim value)

-- A key is the one of the process, or else the one of the file.
unfoldable pub configured : Environment → (name : String) → Option String
configured env name = elim (said (env.process_env name)) [
  | some key ↦ some key
  | none ↦ read_var_from_env_file env name
]

resolve_configured_key_lem :
    (env : Environment) (name : String) → resolve_configured_key env name ≡ configured env name
unfolding resolve_configured_key configured said
resolve_configured_key_lem env name = ground arith

-- the keys of an environment, without any state
abbrev pub configured_current : Environment → Result KeyError String
configured_current env = elim (configured env current_key_env_var) [
  | some key ↦ ok key
  | none ↦ if is_production env then err key_required_in_production else ok insecure_dev_key
]

abbrev pub configured_keys : Environment → Result KeyError (List String)
configured_keys env = elim (configured_current env) [
  | err e ↦ err e
  | ok current ↦ elim (configured env previous_key_env_var) [
    | none ↦ ok (current ∷ [])
    | some previous ↦
        if previous == current then ok (current ∷ []) else ok (current ∷ previous ∷ [])
  ]
]

-- The states that the calls of a process reach.
pub data Reached (env : Environment) : KeyState → Type 0 where
  started : Reached env initial_key_state
  asked_current : (st : KeyState) → Reached env st → Reached env (current_signing_key env st).1
  asked_previous : (st : KeyState) → Reached env st → Reached env (previous_signing_key env st).1

-- what a cached key says of the environment
abbrev CacheAgrees : Environment → Option String → Type 0
CacheAgrees env none = Unit
CacheAgrees env (some key) = configured_current env ≡ ok key

abbrev PreviousAgrees : Environment → Bool → Option String → Type 0
PreviousAgrees env false key = Unit
PreviousAgrees env true key = key ≡ configured env previous_key_env_var

abbrev Agrees : Environment → KeyState → Type 0
Agrees env st =
    (st.key_override ≡ none)
    × CacheAgrees env st.cached_current_key
    × PreviousAgrees env st.previous_key_resolved st.cached_previous_key

abbrev state_of : Option String → Option String → Bool → Bool → Option KeyOverride → KeyState
state_of cached previous resolved warned keys = record {
  cached_current_key = cached;
  cached_previous_key = previous;
  previous_key_resolved = resolved;
  warned_about_insecure_key = warned;
  key_override = keys;
}

module _ (env : Environment) where
  current_lem :
      (cached previous : Option String) (resolved warned : Bool) (o : Option KeyOverride)
      → Agrees env (state_of cached previous resolved warned o)
      → Agrees env (current_signing_key env (state_of cached previous resolved warned o)).1
        × ((current_signing_key env (state_of cached previous resolved warned o)).0
            ≡ configured_current env)
  unfolding current_signing_key fall_back
  current_lem (some key) previous resolved warned none h = (h, sym h.1)
  current_lem none previous resolved warned none h =
      ground (arith, resolve_configured_key_lem env current_key_env_var)
  current_lem cached previous resolved warned (some keys) h = absurd (ground arith)

  previous_lem :
      (cached previous : Option String) (resolved warned : Bool) (o : Option KeyOverride)
      → Agrees env (state_of cached previous resolved warned o)
      → Agrees env (previous_signing_key env (state_of cached previous resolved warned o)).1
        × ((previous_signing_key env (state_of cached previous resolved warned o)).0
            ≡ ok (configured env previous_key_env_var))
  unfolding previous_signing_key
  previous_lem cached previous true warned none h = (h, ap ok h.2)
  previous_lem cached previous false warned none h =
      let e = resolve_configured_key_lem env previous_key_env_var in ((refl, h.1, e), ap ok e)
  previous_lem cached previous resolved warned (some keys) h = absurd (ground arith)

  current_at :
      (st : KeyState)
      → Agrees env st
      → Agrees env (current_signing_key env st).1
        × ((current_signing_key env st).0 ≡ configured_current env)
  current_at st h =
      current_lem st.cached_current_key st.cached_previous_key st.previous_key_resolved
        st.warned_about_insecure_key st.key_override h

  previous_at :
      (st : KeyState)
      → Agrees env st
      → Agrees env (previous_signing_key env st).1
        × ((previous_signing_key env st).0 ≡ ok (configured env previous_key_env_var))
  previous_at st h =
      previous_lem st.cached_current_key st.cached_previous_key st.previous_key_resolved
        st.warned_about_insecure_key st.key_override h

  Reached-Agrees : (st : KeyState) → Reached env st → Agrees env st
  Reached-Agrees _ started = (refl, tt, tt)
  Reached-Agrees _ (asked_current st r) = (current_at st (Reached-Agrees st r)).0
  Reached-Agrees _ (asked_previous st r) = (previous_at st (Reached-Agrees st r)).0

  -- In every state that a process reaches by asking for its keys, the signing key is the one that
  -- the environment configures; where none is configured it is an error in production and the
  -- insecure key elsewhere.
  pub current_signing_key-Reached :
      (st : KeyState) → Reached env st → (current_signing_key env st).0 ≡ configured_current env
  current_signing_key-Reached st r = (current_at st (Reached-Agrees st r)).1

  -- In every state that a process reaches by asking for its keys, the keys that verify are the ones
  -- that the environment configures, each in a variable of the process or else in the file, the
  -- current one and, where it is another, the previous one; where no current key is configured this
  -- is an error in production and the insecure key stands in elsewhere.
  pub verification_keys-Reached :
      (st : KeyState) → Reached env st → (verification_keys env none st).0 ≡ configured_keys env
  unfolding verification_keys key_list
  verification_keys-Reached st r =
      let now = (current_signing_key env st).1 in
      ground (
        arith,
        current_at st (Reached-Agrees st r),
        previous_at now (current_at st (Reached-Agrees st r)).0,
      )
