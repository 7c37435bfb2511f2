-- ===== src/Sessions/Service.antt =====
-- The operations of `SessionService`, on its Redis store and on the users of the database. The
-- random tokens, tickets and session identifiers that a call draws are its arguments.
use rubrica_back.Base.{
  ℕ, String, Bool, true, false, ◌&&◌, Option, none, some, List, [], ◌∷◌, str_eq, ltb, leb, ◌==◌,
  if◌then◌else◌, truthy,
}
use rubrica_back.Base.Actions.{ok, err}
use rubrica_back.Base.Dict.{TextDict, lookup_text, erase_text, erase}
use rubrica_back.Store.{Instant}
use rubrica_back.Mfa.Service.{User, Tables, Authenticator, verify_user_code, record_event}
use rubrica_back.Sessions.Store.{
  State, Store, get, put, count_attempt, members, add_member, remove_member,
}

pub record Settings : Type 0 where
  pub digest : String → String
  pub strip : String → String
  pub session_ttl : ℕ
  pub access_ttl : ℕ
  pub challenge_ttl : ℕ

-- The Redis store and the database.
pub record Auth : Type 0 where
  pub store : Store
  pub tables : Tables

-- The tokens that a new or a refreshed session returns (`LoginResponse`).
pub record Tokens : Type 0 where
  pub access_token : String
  pub refresh_token : String
  pub session_id : String

-- `LoginResponse | MfaChallengeResponse | None`
pub data LoginResult : Type 0 where
  opened : Tokens → LoginResult
  challenged : String → LoginResult
  refused : LoginResult

unfoldable pub find_by_id : ℕ → TextDict User → Option User
find_by_id i [] = none
find_by_id i ((email, u) ∷ users) =
    let later = find_by_id i users in if u.id == i then some u else later

-- `_user_is_active`
unfoldable pub user_is_active : State → Tables → Bool
user_is_active st db = elim (find_by_id st.user_id db.users) [
  | none ↦ false
  | some u ↦ u.is_active && u.token_version == st.token_version
]

-- `_load_state`
abbrev pub load_state : Instant → Option String → Store → Option State
load_state now id s = elim (truthy id) [ none ↦ none | some i ↦ get now i s.sessions ]

-- `_revoke_state`
unfoldable pub revoke_state : State → Store → Store
revoke_state st s = remove_member st.user_id st.session_id (record s {
  access_keys = erase_text st.access_key s.access_keys;
  refresh_keys = erase_text st.refresh_key s.refresh_keys;
  sessions = erase_text st.session_id s.sessions;
})

-- The script `_ROTATE_REFRESH_SCRIPT`: whether it rotated, and the store. `next` is the next state
-- of the session, `used` the key of the refresh token that is used up.
unfoldable pub rotate_refresh : Instant → ℕ → ℕ → State → State → String → Store → Bool × Store
rotate_refresh now session_ttl access_ttl st next used s =
    elim (get now st.refresh_key s.refresh_keys) [
      | none ↦ (false, s)
      | some id ↦ elim (str_eq id st.session_id) [
        | false ↦ (false, s)
        | true ↦ elim (get now st.session_id s.sessions) [
          | none ↦ (false, s)
          | some current ↦ elim (str_eq current.refresh_key st.refresh_key) [
            | false ↦ (false, s)
            | true ↦ (
              true,
              add_member now session_ttl st.user_id st.session_id (record s {
                sessions = put now session_ttl st.session_id next s.sessions;
                access_keys =
                    put now access_ttl next.access_key st.session_id
                      (erase_text current.access_key s.access_keys);
                refresh_keys =
                    put now session_ttl next.refresh_key st.session_id
                      (erase_text st.refresh_key s.refresh_keys);
                used_refresh = put now session_ttl used st.session_id s.used_refresh;
              }),
            )
          ]
        ]
      ]
    ]

module _ (settings : Settings) where
  open settings use {digest, strip, session_ttl, access_ttl, challenge_ttl}

  -- `_state_for_token("access", token)`
  unfoldable pub access_state : Instant → String → Store → Option State
  access_state now token s = elim (load_state now (get now (digest token) s.access_keys) s) [
    | none ↦ none
    | some st ↦ if str_eq st.access_key (digest token) then some st else none
  ]

  -- `_state_for_token("refresh", token)`
  unfoldable pub refresh_state : Instant → String → Store → Option State
  refresh_state now token s = elim (load_state now (get now (digest token) s.refresh_keys) s) [
    | none ↦ none
    | some st ↦ if str_eq st.refresh_key (digest token) then some st else none
  ]

  -- `_store_session`
  unfoldable pub store_session : Instant → User → Tokens → Store → Store
  store_session now u new s =
      let st : State = record {
        session_id = new.session_id;
        user_id = u.id;
        subject = u.email;
        token_version = u.token_version;
        access_key = digest new.access_token;
        refresh_key = digest new.refresh_token;
      } in
      add_member now session_ttl u.id new.session_id (record s {
        sessions = put now session_ttl new.session_id st s.sessions;
        access_keys = put now access_ttl (digest new.access_token) new.session_id s.access_keys;
        refresh_keys = put now session_ttl (digest new.refresh_token) new.session_id s.refresh_keys;
      })

  -- The next state of a session, with the keys of its new tokens.
  abbrev pub next_state : State → Tokens → State
  next_state st new = record st {
    access_key = digest new.access_token;
    refresh_key = digest new.refresh_token;
  }

  -- What `refresh` does with a token that it does not know: a used one ends its session.
  unfoldable pub refuse_refresh : Instant → String → Store → Store
  refuse_refresh now token s = elim (load_state now (get now (digest token) s.used_refresh) s) [
    | none ↦ s
    | some st ↦ revoke_state st s
  ]

  -- The result of `refresh` after the script.
  abbrev pub refreshed : Tokens → State → Auth → Bool × Store → Option Tokens × Auth
  refreshed new st w (false, s) = (none, record w { store = s })
  refreshed new st w (true, s) =
      (some (record new { session_id = st.session_id }), record w { store = s })

  -- `refresh` from the state of the session on.
  unfoldable pub refresh_from : Instant → Tokens → String → State → Auth → Option Tokens × Auth
  refresh_from now new token st w =
      if user_is_active st w.tables
      then refreshed new st w
          (rotate_refresh now session_ttl access_ttl st (next_state st new) (digest token) w.store)
      else (none, record w { store = revoke_state st w.store })

  -- `refresh`; of the new tokens, the session keeps its identifier.
  unfoldable pub refresh : Instant → Tokens → String → Auth → Option Tokens × Auth
  refresh now new token w = elim (refresh_state now token w.store) [
    | none ↦ (none, record w { store = refuse_refresh now token w.store })
    | some st ↦ refresh_from now new token st w
  ]

  -- `current_session`: the session and its subject.
  unfoldable pub current_session : Instant → String → Auth → Option (String × String)
  current_session now token w = elim (access_state now token w.store) [
    | none ↦ none
    | some st ↦ if user_is_active st w.tables then some (st.session_id, st.subject) else none
  ]

  -- `logout`
  unfoldable pub logout : Instant → String → Store → Bool × Store
  logout now token s = elim (access_state now token s) [
    | none ↦ (false, s)
    | some st ↦ (true, revoke_state st s)
  ]

  -- The loop of `logout_all`.
  unfoldable pub revoke_all : Instant → List String → Store → Store
  revoke_all now [] s = s
  revoke_all now (id ∷ ids) s = elim (load_state now (some id) s) [
    | none ↦ revoke_all now ids s
    | some st ↦ revoke_all now ids (revoke_state st s)
  ]

  -- `logout_all`
  unfoldable pub logout_all : Instant → String → Store → Bool × Store
  logout_all now token s = elim (access_state now token s) [
    | none ↦ (false, s)
    | some st ↦
        let t = revoke_all now (members now st.user_id s) s in
        (true, record t { user_sessions = erase st.user_id t.user_sessions })
  ]

  -- `allow_mfa_operation`, under the key of its operation and subject
  unfoldable pub allow_mfa_operation : Instant → ℕ → ℕ → String → Store → Bool × Store
  allow_mfa_operation now limit ttl key s =
      let (attempts, counters) = count_attempt now ttl key s.operation_attempts in
      (leb attempts limit, record s { operation_attempts = counters })

  module _ (env : Authenticator) where
    open env use {lower, verify_password}

    -- The password test of `login`, and what it opens.
    unfoldable pub check_login :
        Instant → String → String → Tokens → String → Auth → LoginResult × Auth
    check_login now email password new ticket w = elim (lookup_text email w.tables.users) [
      | none ↦ (refused, w)
      | some u ↦
          elim (u.is_active && u.email_verified && verify_password password u.password_hash) [
            | false ↦ (refused, w)
            | true ↦
                let s = record (w.store) {
                  login_attempts = erase_text (digest email) w.store.login_attempts;
                } in
                elim u.mfa_enabled [
                  | true ↦ (
                    challenged ticket,
                    record w {
                      store = record s {
                        challenges = put now challenge_ttl (digest ticket) u.id s.challenges;
                      };
                    },
                  )
                  | false ↦ (opened new, record w { store = store_session now u new s })
                ]
          ]
    ]

    -- `login`
    unfoldable pub login : Instant → String → String → Tokens → String → Auth → LoginResult × Auth
    login now text password new ticket w =
        let email : String = lower (strip text) in
        let (attempts, counters) = count_attempt now 300 (digest email) w.store.login_attempts in
        let v = record w { store = record (w.store) { login_attempts = counters } } in
        elim (ltb 10 attempts) [
          | true ↦ (refused, v)
          | false ↦ check_login now email password new ticket v
        ]

    abbrev pub drop_challenge : String → Store → Store
    drop_challenge ticket s = record s {
      challenges = erase_text (digest ticket) s.challenges;
      challenge_attempts = erase_text (digest ticket) s.challenge_attempts;
    }

    -- The second factor of `complete_mfa_challenge`. A code that the database part of the test
    -- raises on does not come about: `verify_user_code` never raises.
    unfoldable pub check_code :
        Instant → String → ℕ → User → String → Tokens → Auth → Option Tokens × Auth
    check_code now ticket attempts u code new w =
        let (r, db) = verify_user_code env now u code w.tables in
        elim r [
          | err e ↦ (none, w)
          | ok true ↦ (
            some new,
            record {
              store = store_session now u new (drop_challenge ticket w.store);
              tables = record_event u "mfa.challenge_succeeded" db;
            },
          )
          | ok false ↦ (
            none,
            record {
              store = if leb 5 attempts then drop_challenge ticket w.store else w.store;
              tables = record_event u "mfa.challenge_failed" db;
            },
          )
        ]

    -- `complete_mfa_challenge`
    unfoldable pub complete_mfa_challenge :
        Instant → String → String → Tokens → Auth → Option Tokens × Auth
    complete_mfa_challenge now ticket code new w =
        let (attempts, counters) =
          count_attempt now challenge_ttl (digest ticket) w.store.challenge_attempts in
        let s = record (w.store) { challenge_attempts = counters } in
        elim (ltb 5 attempts) [
          | true ↦ (none, record w { store = drop_challenge ticket s })
          | false ↦ elim (get now (digest ticket) s.challenges) [
            | none ↦ (none, record w { store = s })
            | some i ↦ elim (find_by_id i w.tables.users) [
              | none ↦ (none, record w { store = s })
              | some u ↦ elim (u.is_active && u.email_verified && u.mfa_enabled) [
                | false ↦ (none, record w { store = s })
                | true ↦ check_code now ticket attempts u code new (record w { store = s })
              ]
            ]
          ]
        ]
