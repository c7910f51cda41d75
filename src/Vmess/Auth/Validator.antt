-- ===== src/Vmess/Auth/Validator.antt =====
-- `_AuthIDValidator` of protocol/vmess/vmess.py: the registered users by their key, and the replay
-- filter that they share.
use mathlib.Core.List.{List-discrete}
use rvg_sever.Prelude.{
  ℕ, ◌+◌, ◌-◌, [], ◌∷◌, Bool, true, false, ltb, if◌then◌else◌, Option, none, some, Result, ok, err,
  vmess_auth_error, ◌>>=◌, String, Key, Dict, put, remove, ℕ_discrete,
}
use rvg_sever.Wire.{Bytes}
use rvg_sever.Vmess.{auth_id_time_tolerance}
use rvg_sever.Vmess.Replay.{ReplayFilter, check_and_add}
use rvg_sever.Vmess.Auth.{ℤ, pos, negsuc, Primitives, cmd_key_for, decode_auth_id}

instance abbrev pub bytes_key : Key Bytes
bytes_key = record { dec = List-discrete ℕ_discrete }

pub record AuthIdValidator : Type 0 where
  pub keys : Dict Bytes String
  pub replay : ReplayFilter Bytes

abbrev pub new_validator : AuthIdValidator
new_validator = record { keys = []; replay = record { size = 120; seen = []; order = [] } }

-- t < 0 or abs(t - int(time.time())) > AUTH_ID_TIME_TOLERANCE
unfoldable pub is_out_of_time : ℕ → ℤ → Bool
is_out_of_time now (negsuc _) = true
is_out_of_time now (pos t) = ltb auth_id_time_tolerance ((t - now) + (now - t))

module _ (p : Primitives) where
  unfoldable pub add_user : String → AuthIdValidator → Result AuthIdValidator
  add_user uuid_str v = do
    key ← cmd_key_for p uuid_str
    ok (record v { keys = put key uuid_str v.keys })

  unfoldable pub remove_user : String → AuthIdValidator → Result AuthIdValidator
  remove_user uuid_str v = do
    key ← cmd_key_for p uuid_str
    ok (record v { keys = remove key v.keys })

  -- The test of one key: is the auth id this user's, in time?
  unfoldable pub is_own : ℕ → Bytes → Bytes → Bool
  is_own now auth_id key = elim (decode_auth_id p key auth_id) [
    | none ↦ false
    | some t ↦ if is_out_of_time now t then false else true
  ]

  -- The first registered user whose key fits.
  unfoldable pub find_user : ℕ → Bytes → Dict Bytes String → Option String
  find_user now auth_id [] = none
  find_user now auth_id ((key, uuid_str) ∷ keys) =
      let rest = find_user now auth_id keys in
      if is_own now auth_id key then some uuid_str else rest

  -- The user found is admitted if the auth id is not a replay.
  unfoldable pub admit :
      Bytes → Option String → AuthIdValidator → Result (Option String × AuthIdValidator)
  admit auth_id none v = ok (none, v)
  admit auth_id (some uuid_str) v =
      let (fresh, replay) = check_and_add auth_id v.replay in
      if fresh
      then ok (some uuid_str, record v { replay = replay })
      else err (vmess_auth_error "replayed request")

  -- `match` at the time `now`
  unfoldable pub match_ : ℕ → Bytes → AuthIdValidator → Result (Option String × AuthIdValidator)
  unfolding is_own find_user admit
  match_ now auth_id v = admit auth_id (find_user now auth_id v.keys) v
