-- ===== src/Auth/Tests.antt =====
-- The theorem on the sessions at a panel with two of them.
use rvg_sever.Prelude.{
  ◌≤◌, ◌≡◌, refl, arith, List, [], ◌∷◌, true, false, some, Key, get, length, ℕ_discrete,
}
use rvg_sever.Wire.Text.{Text, text_discrete}
use rvg_sever.Wire.Strings.{chars}
use rvg_sever.Auth.{Auth, is_valid_session, api_change_password, Request, login, visit, answer_all}
use rvg_sever.Auth.Revocation.{api_change_password-revokes}

instance abbrev text_key : Key Text
text_key = record { dec = text_discrete }

-- A hash that keeps the password.
abbrev hash : Text → Text
hash pw = 1 ∷ pw

abbrev auth : Auth
auth = record {
  password_hash = hash (chars "123456");
  sessions = (chars "mine", 500) ∷ (chars "stolen", 900) ∷ [];
}

abbrev requests : List Request
requests = visit 110 (some (chars "stolen")) ∷ login 120 (chars "fresh") (chars "better") ∷ []

api_change_password-revokes_example :
    let s' =
      (api_change_password hash 100
        (some (chars "mine"))
        (chars "123456")
        (chars "better")
        auth).1 in
    (hash (chars "123456") ≡ auth.password_hash)
    × (4 ≤ length (chars "better"))
    × (s'.password_hash ≡ hash (chars "better"))
    × ((is_valid_session 200 (some (chars "mine")) s').0 ≡ true)
    × ((is_valid_session 300 (some (chars "stolen")) (answer_all hash requests s')).0 ≡ false)
unfolding api_change_password is_valid_session get text_discrete ℕ_discrete
api_change_password-revokes_example =
    api_change_password-revokes hash 100 (some (chars "mine")) (chars "123456") (chars "better")
      auth (chars "stolen") requests 200 300 refl (λ same. cc (same)) ((λ same. cc (same)), tt)
      (omega arith)
