-- ===== src/Auth/Gone.antt =====
-- Tokens that have no session stay without one until a login draws them.
use mathlib.Core.Path.{subst}
use rvg_sever.Prelude.{
  ℕ, ◌+◌, ◌≡◌, ◌≢◌, refl, sym, ap, ◌∙◌, arith, List, [], ◌∷◌, Bool, true, false, if_neg, ltb,
  Bool-cases, inl, inr, Option, none, some, Key, get, put, get-put, get-remove, length,
}
use rvg_sever.Wire.Text.{Text}
use rvg_sever.Wire.Strings.{same_text}
use rvg_sever.Auth.{
  Auth, session_ttl, create_session, check_expiry, is_valid_session, destroy_session, only_session,
  api_login, api_logout, change_password, api_change_password, Request, login, logout, visit,
  changes_password, answer, answer_all,
}

-- No login of the requests draws the token.
abbrev pub NeverDrawn : Text → List Request → Type 0
NeverDrawn t [] = Unit {0}
NeverDrawn t (login now token password ∷ requests) = (token ≢ t) × NeverDrawn t requests
NeverDrawn t (_ ∷ requests) = NeverDrawn t requests

module _ ⦃by_text : Key Text⦄ where
  abbrev pub IsGone : Text → Auth → Type 0
  IsGone t s = get t s.sessions ≡ none

  check_expiry-IsGone :
      (t : Text) (now : ℕ) (token : Text) (found : Option ℕ) (s : Auth)
      → IsGone t s
      → IsGone t (check_expiry now token found s).1
  check_expiry-IsGone t now token none s gone = gone
  check_expiry-IsGone t now token (some exp) s gone =
      ground (arith, gone, get-remove token t s.sessions)

  is_valid_session-IsGone :
      (t : Text) (now : ℕ) (token : Option Text) (s : Auth)
      → IsGone t s
      → IsGone t (is_valid_session now token s).1
  unfolding is_valid_session
  is_valid_session-IsGone t now none s gone = gone
  is_valid_session-IsGone t now (some []) s gone = gone
  is_valid_session-IsGone t now (some (c ∷ u)) s gone =
      check_expiry-IsGone t now (c ∷ u) (get (c ∷ u) s.sessions) s gone

  destroy_session-IsGone :
      (t : Text) (token : Option Text) (s : Auth) → IsGone t s → IsGone t (destroy_session token s)
  unfolding destroy_session
  destroy_session-IsGone t none s gone = gone
  destroy_session-IsGone t (some []) s gone = gone
  destroy_session-IsGone t (some (c ∷ u)) s gone =
      ground (arith, gone, get-remove (c ∷ u) t s.sessions)

  -- A token that has no session is refused.
  pub is_valid_session-gone :
      (t : Text) (now : ℕ) (s : Auth) → IsGone t s → (is_valid_session now (some t) s).0 ≡ false
  unfolding is_valid_session
  is_valid_session-gone [] now s gone = refl
  is_valid_session-gone (c ∷ u) now s gone = rw gone

  -- A token without a session is not the one that is accepted.
  accepted-other :
      (t : Text) (now : ℕ) (token : Option Text) (s : Auth)
      → IsGone t s
      → (is_valid_session now token s).0 ≡ true
      → token ≢ some t
  accepted-other t now token s gone valid same = absurd (
      cc (
        valid,
        subst (λ k. (is_valid_session now k s).0 ≡ false) (sym same)
            (is_valid_session-gone t now s gone),
      ))

  pub only_session-IsGone :
      (t : Text) (now : ℕ) (token : Option Text) (s : Auth)
      → token ≢ some t
      → IsGone t (only_session now token s)
  unfolding get put
  only_session-IsGone t now none s other = refl
  only_session-IsGone t now (some u) s other =
      if_neg (by_text.dec u t) (λ same. other (ap some same)) _ _

module _ (hash_password : Text → Text) ⦃by_text : Key Text⦄ where
  change_password-IsGone :
      (t : Text) (now : ℕ) (token : Option Text) (current new : Text) (valid : Bool × Auth)
      → (valid.0 ≡ true → token ≢ some t)
      → IsGone t valid.1
      → IsGone t (change_password hash_password now token current new valid).1
  change_password-IsGone t now token current new (false, s) other gone = gone
  change_password-IsGone t now token current new (true, s) other gone =
      elim (Bool-cases (same_text (hash_password current) s.password_hash)) [
        | inr wrong ↦ rw wrong gone
        | inl right ↦ elim (Bool-cases (ltb (length new) 4)) [
          | inl short ↦ rw (right, short) gone
          | inr long ↦
              rw (right, long)
                (only_session-IsGone t now token (record s { password_hash = hash_password new })
                  (other refl))
        ]
      ]

  api_change_password-IsGone :
      (t : Text) (now : ℕ) (token : Option Text) (current new : Text) (s : Auth)
      → IsGone t s
      → IsGone t (api_change_password hash_password now token current new s).1
  unfolding api_change_password
  api_change_password-IsGone t now token current new s gone =
      change_password-IsGone t now token current new (is_valid_session now token s)
        (accepted-other t now token s gone) (is_valid_session-IsGone t now token s gone)

  api_login-IsGone :
      (t : Text) (now : ℕ) (token password : Text) (s : Auth)
      → token ≢ t
      → IsGone t s
      → IsGone t (api_login hash_password now token password s).1
  unfolding api_login create_session
  api_login-IsGone t now token password s other gone =
      elim (Bool-cases (same_text (hash_password password) s.password_hash)) [
        | inr wrong ↦ rw wrong gone
        | inl right ↦ rw right (
            get-put token t (now + session_ttl) s.sessions
            ∙ if_neg (by_text.dec token t) other _ _
            ∙ gone)
      ]

  pub answer_all-IsGone :
      (t : Text) (requests : List Request) (s : Auth)
      → NeverDrawn t requests
      → IsGone t s
      → IsGone t (answer_all hash_password requests s)
  unfolding answer_all answer api_logout
  answer_all-IsGone t [] s never gone = gone
  answer_all-IsGone t (login now token password ∷ requests) s never gone =
      answer_all-IsGone t requests _ never.1 (api_login-IsGone t now token password s never.0 gone)
  answer_all-IsGone t (logout token ∷ requests) s never gone =
      answer_all-IsGone t requests _ never (destroy_session-IsGone t token s gone)
  answer_all-IsGone t (visit now token ∷ requests) s never gone =
      answer_all-IsGone t requests _ never (is_valid_session-IsGone t now token s gone)
  answer_all-IsGone t (changes_password now token current new ∷ requests) s never gone =
      answer_all-IsGone t requests _ never
        (api_change_password-IsGone t now token current new s gone)
