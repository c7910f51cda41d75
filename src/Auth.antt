-- ===== src/Auth.antt =====
-- The sessions of the panel in main.py: create_session, is_valid_session, destroy_session, and the handlers of
-- login, logout and a change of the password. The hash of a password and the tokens are parameters; the
-- clock is an argument, in seconds.
pub mod Gone
pub mod Revocation
mod Tests
use rvg_sever.Prelude.{
  ℕ, ◌+◌, ◌*◌, List, [], ◌∷◌, Bool, true, false, not, ltb, if◌then◌else◌, Option, none, some, Key,
  Dict, get, put, remove, length,
}
use rvg_sever.Wire.Text.{Text}
use rvg_sever.Wire.Strings.{same_text}
use rvg_sever.Admin.Editing.{Reply, done, refused}

-- AUTH["password_hash"] and SESSIONS, which has the time of expiry of a token.
pub record Auth : Type 0 where
  pub password_hash : Text
  pub sessions : Dict Text ℕ

abbrev pub session_ttl : ℕ
session_ttl = 60 * 60 * 24 * 7

module _ ⦃by_text : Key Text⦄ where
  unfoldable pub create_session : ℕ → Text → Auth → Auth
  create_session now token s = record s { sessions = put token (now + session_ttl) s.sessions }

  -- By the time of expiry; a session that is over is removed.
  abbrev pub check_expiry : ℕ → Text → Option ℕ → Auth → Bool × Auth
  check_expiry now token none s = (false, s)
  check_expiry now token (some exp) s =
      if ltb exp now then (false, record s { sessions = remove token s.sessions }) else (true, s)

  -- The token of a cookie, which may be missing or empty.
  unfoldable pub is_valid_session : ℕ → Option Text → Auth → Bool × Auth
  is_valid_session now none s = (false, s)
  is_valid_session now (some []) s = (false, s)
  is_valid_session now (some (c ∷ t)) s = check_expiry now (c ∷ t) (get (c ∷ t) s.sessions) s

  unfoldable pub destroy_session : Option Text → Auth → Auth
  destroy_session none s = s
  destroy_session (some []) s = s
  destroy_session (some (c ∷ t)) s = record s { sessions = remove (c ∷ t) s.sessions }

  -- SESSIONS.clear(), and the token of the request, for a week
  abbrev pub only_session : ℕ → Option Text → Auth → Auth
  only_session now none s = record s { sessions = [] }
  only_session now (some token) s = record s { sessions = put token (now + session_ttl) [] }

  module _ (hash_password : Text → Text) where
    -- `token` is drawn for the new session.
    unfoldable pub api_login : ℕ → Text → Text → Auth → Reply × Auth
    unfolding create_session
    api_login now token password s =
        if not (same_text (hash_password password) s.password_hash)
        then (refused 401, s)
        else (done, create_session now token s)

    unfoldable pub api_logout : Option Text → Auth → Reply × Auth
    unfolding destroy_session
    api_logout token s = (done, destroy_session token s)

    -- Behind `require_auth`, with its answer.
    abbrev pub change_password : ℕ → Option Text → Text → Text → Bool × Auth → Reply × Auth
    change_password now token current new (false, s) = (refused 401, s)
    change_password now token current new (true, s) =
        if not (same_text (hash_password current) s.password_hash)
        then (refused 400, s)
        else if ltb (length new) 4
        then (refused 400, s)
        else (done, only_session now token (record s { password_hash = hash_password new }))

    unfoldable pub api_change_password : ℕ → Option Text → Text → Text → Auth → Reply × Auth
    unfolding is_valid_session
    api_change_password now token current new s =
        change_password now token current new (is_valid_session now token s)

-- What the panel is asked for.
pub data Request : Type 0 where
  login : ℕ → Text → Text → Request
  logout : Option Text → Request
  visit : ℕ → Option Text → Request
  changes_password : ℕ → Option Text → Text → Text → Request

module _ (hash_password : Text → Text) ⦃by_text : Key Text⦄ where
  -- `visit` is any request that only asks whether its session is valid.
  unfoldable pub answer : Request → Auth → Auth
  unfolding api_login api_logout is_valid_session api_change_password
  answer (login now token password) s = (api_login hash_password now token password s).1
  answer (logout token) s = (api_logout hash_password token s).1
  answer (visit now token) s = (is_valid_session now token s).1
  answer (changes_password now token current new) s =
      (api_change_password hash_password now token current new s).1

  unfoldable pub answer_all : List Request → Auth → Auth
  answer_all [] s = s
  answer_all (request ∷ requests) s = answer_all requests (answer request s)
