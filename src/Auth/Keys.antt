-- ===== src/Auth/Keys.antt =====
-- lib/session-signing.ts: which keys sign and verify a session cookie. The module's variables are
-- the state, `process.env` and the file .env.local the environment.
pub mod Caching
use geoplane.Base.{
  String, Bool, true, false, not, ◌&&◌, ◌||◌, ◌==◌, Option, none, some, List, [], ◌∷◌, Result, ok,
  err, is_text, if◌then◌else◌,
}
use geoplane.Base.Text.{trim, is_blank, is_empty_text}
use geoplane.Base.Split.{split_on, break_at, starts_with, ends_with, inner}

abbrev pub current_key_env_var : String
current_key_env_var = "SESSION_SIGNING_KEY_CURRENT"

abbrev pub previous_key_env_var : String
previous_key_env_var = "SESSION_SIGNING_KEY_PREVIOUS"

abbrev pub insecure_dev_key : String
insecure_dev_key = "geoplane-INSECURE-dev-session-signing-key-DO-NOT-USE-IN-PRODUCTION"

pub record Environment : Type 0 where
  pub process_env : String → Option String
  -- what .env.local holds, `none` where it does not exist
  pub env_file : Option String

pub record KeyOverride : Type 0 where
  pub current : String
  pub previous : Option String

pub record KeyState : Type 0 where
  pub cached_current_key : Option String
  pub cached_previous_key : Option String
  pub previous_key_resolved : Bool
  pub warned_about_insecure_key : Bool
  pub key_override : Option KeyOverride

abbrev pub initial_key_state : KeyState
initial_key_state = record {
  cached_current_key = none;
  cached_previous_key = none;
  previous_key_resolved = false;
  warned_about_insecure_key = false;
  key_override = none;
}

-- The error that `currentSigningKey` throws.
pub data KeyError : Type 0 where
  key_required_in_production : KeyError

-- A call that reads and writes the module's variables, and may throw.
abbrev pub Keyed : Type 0 → Type 0
Keyed A = KeyState → Result KeyError A × KeyState

abbrev pub and_then :
    {A B : Type 0} → Result KeyError A × KeyState → (A → Keyed B) → Result KeyError B × KeyState
and_then (ok a, st) k = k a st
and_then (err e, st) k = (err e, st)

unfoldable pub is_quoted : (quote value : String) → Bool
is_quoted quote value = starts_with quote value && ends_with quote value

-- the value of a line, without its quotes
unfoldable pub read_value : (after_eq : String) → Option String
unfolding is_quoted
read_value after_eq =
    let value = trim after_eq in
    let bare = if is_quoted "\"" value || is_quoted "'" value then inner value else value in
    if is_blank bare then none else some (trim bare)

-- The lines of the file, in turn. A line end of two characters is split at its second one, and
-- `trim` drops the first.
unfoldable pub read_var_from_lines : (name : String) → List String → Option String
unfolding read_value
read_var_from_lines name [] = none
read_var_from_lines name (raw_line ∷ lines) =
    let line = trim raw_line in
    let later = read_var_from_lines name lines in
    if is_empty_text line || starts_with "#" line then later else elim (break_at "=" line) [
      | none ↦ later
      | some (before, after) ↦ if trim before == name then read_value after else later
    ]

unfoldable pub read_var_from_env_file : Environment → (name : String) → Option String
unfolding read_var_from_lines
read_var_from_env_file env name = elim env.env_file [
  | none ↦ none
  | some content ↦ read_var_from_lines name (split_on "\n" content)
]

unfoldable pub resolve_configured_key : Environment → (name : String) → Option String
unfolding read_var_from_env_file
resolve_configured_key env name = elim (env.process_env name) [
  | none ↦ read_var_from_env_file env name
  | some from_env ↦
      if is_blank from_env then read_var_from_env_file env name else some (trim from_env)
]

abbrev pub is_production : Environment → Bool
is_production env = is_text (env.process_env "NODE_ENV") "production"

-- no key is configured
unfoldable pub fall_back : Environment → Keyed String
fall_back env st = if is_production env then (err key_required_in_production, st) else (
  ok insecure_dev_key,
  record st { cached_current_key = some insecure_dev_key; warned_about_insecure_key = true },
)

unfoldable pub current_signing_key : Environment → Keyed String
unfolding fall_back
current_signing_key env st = elim st.key_override [
  | some keys ↦ (ok keys.current, st)
  | none ↦ elim st.cached_current_key [
    | some key ↦ (ok key, st)
    | none ↦ elim (resolve_configured_key env current_key_env_var) [
      | some key ↦ (ok key, record st { cached_current_key = some key })
      | none ↦ fall_back env st
    ]
  ]
]

unfoldable pub previous_signing_key : Environment → Keyed (Option String)
previous_signing_key env st = elim st.key_override [
  | some keys ↦ (ok keys.previous, st)
  | none ↦
      if st.previous_key_resolved
      then (ok st.cached_previous_key, st)
      else let key = resolve_configured_key env previous_key_env_var in
        (ok key, record st { cached_previous_key = key; previous_key_resolved = true })
]

-- the current key, then the previous one where it is set and another
unfoldable pub key_list : (current : String) (previous : Option String) → List String
key_list current none = current ∷ []
key_list current (some previous) =
    if not (previous == current) then current ∷ previous ∷ [] else current ∷ []

unfoldable pub verification_keys : Environment → Option String → Keyed (List String)
verification_keys env (some key) st = (ok (key ∷ []), st)
verification_keys env none st = and_then (current_signing_key env st) (λ current now.
    and_then (previous_signing_key env now)
      (λ previous after. (ok (key_list current previous), after)))

unfoldable pub set_session_signing_keys_for_tests : Option KeyOverride → KeyState → KeyState
set_session_signing_keys_for_tests keys st = record st { key_override = keys }
