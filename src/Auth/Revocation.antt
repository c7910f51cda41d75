-- ===== src/Auth/Revocation.antt =====
-- What a change of the password does to the sessions.
use mathlib.Core.Path.{subst}
use rvg_sever.Prelude.{
  ℕ, ◌+◌, ◌≤◌, ◌≡◌, ◌≢◌, refl, sym, ap, ◌∙◌, List, [], ◌∷◌, Bool, true, false, if_holds, if_pos,
  ltb→ge, le→ltb, ltb, Bool-cases, inl, inr, Option-cases, Option, none, some, Key, get, put,
  length,
}
use rvg_sever.Wire.Text.{Text}
use rvg_sever.Wire.Strings.{same_text, same_text_iff}
use rvg_sever.Admin.Editing.{done}
use rvg_sever.Auth.{
  Auth, session_ttl, check_expiry, is_valid_session, only_session, change_password,
  api_change_password, Request, answer_all,
}
use rvg_sever.Auth.Gone.{NeverDrawn, is_valid_session-gone, only_session-IsGone, answer_all-IsGone}

module _ (hash_password : Text → Text) ⦃by_text : Key Text⦄ where
  -- The panel after a change of the password that succeeds.
  change_password-done :
      (now : ℕ) (token : Option Text) (current new : Text) (valid : Bool × Auth)
      → (change_password hash_password now token current new valid).0 ≡ done
      → (valid.0 ≡ true)
        × ((change_password hash_password now token current new valid).1
            ≡ only_session now token (record valid.1 { password_hash = hash_password new }))
        × (4 ≤ length new)
        × (hash_password current ≡ valid.1.password_hash)
  change_password-done now token current new (false, s) e = absurd (cc (e))
  change_password-done now token current new (true, s) e =
      elim (Bool-cases (same_text (hash_password current) s.password_hash)) [
        | inr wrong ↦ absurd (cc (rw wrong at e))
        | inl right ↦ elim (Bool-cases (ltb (length new) 4)) [
          | inl short ↦ absurd (cc (rw (right, short) at e))
          | inr long ↦
              rw (right, long)
                (
                  refl,
                  refl,
                  ltb→ge (length new) 4 long,
                  (same_text_iff (hash_password current) s.password_hash).0 right,
                )
        ]
      ]

  accepted-week :
      (now soon : ℕ) (token : Option Text) (s s' : Auth)
      → (is_valid_session now token s).0 ≡ true
      → soon ≤ now + session_ttl
      → (is_valid_session soon token (only_session now token s')).0 ≡ true
  unfolding is_valid_session get put
  accepted-week now soon none s s' valid due = absurd (cc (valid))
  accepted-week now soon (some []) s s' valid due = absurd (cc (valid))
  accepted-week now soon (some (c ∷ u)) s s' valid due = rw (
    if_pos (by_text.dec (c ∷ u) (c ∷ u)) refl (some (now + session_ttl)) none,
    check_expiry,
    le→ltb (now + session_ttl) soon due,
  )

  hash-is_valid_session :
      (now : ℕ) (token : Option Text) (s : Auth)
      → (is_valid_session now token s).1.password_hash ≡ s.password_hash
  unfolding is_valid_session
  hash-is_valid_session now none s = refl
  hash-is_valid_session now (some []) s = refl
  hash-is_valid_session now (some (c ∷ u)) s = elim (Option-cases (get (c ∷ u) s.sessions)) [
    | inl missing ↦ rw (missing, check_expiry)
    | inr (exp, found) ↦
        rw (found, check_expiry)
          (if_holds (λ (r : Bool × Auth). r.1.password_hash ≡ s.password_hash) (ltb exp now) refl
            refl)
  ]

  hash-only_session :
      (now : ℕ) (token : Option Text) (s : Auth)
      → (only_session now token s).password_hash ≡ s.password_hash
  hash-only_session now none s = refl
  hash-only_session now (some u) s = refl

  -- A change of the password is done only by who knows the current one, and for a new one of at least four
  -- characters. After it the new password is the one that is asked for, the session that changed it is
  -- accepted for a week, and every other token is refused for ever, whatever requests come, as long as
  -- no login draws that token.
  pub api_change_password-revokes :
      (now : ℕ) (token : Option Text) (current new : Text) (s : Auth) (t : Text)
      (requests : List Request) (soon later : ℕ)
      → (api_change_password hash_password now token current new s).0 ≡ done
      → token ≢ some t
      → NeverDrawn t requests
      → soon ≤ now + session_ttl
      → let s' = (api_change_password hash_password now token current new s).1 in
        (hash_password current ≡ s.password_hash)
        × (4 ≤ length new)
        × (s'.password_hash ≡ hash_password new)
        × ((is_valid_session soon token s').0 ≡ true)
        × ((is_valid_session later (some t) (answer_all hash_password requests s')).0 ≡ false)
  unfolding api_change_password
  api_change_password-revokes now token current new s t requests soon later succeeds other never
        due =
      let checked = is_valid_session now token s in
      let (valid, after, long, right) =
        change_password-done now token current new checked succeeds in
      let before : Auth = record checked.1 { password_hash = hash_password new } in
      let gone =
        answer_all-IsGone hash_password t requests (only_session now token before) never
          (only_session-IsGone t now token before other) in
      (
        right ∙ hash-is_valid_session now token s,
        long,
        ap (λ k. k.password_hash) after ∙ hash-only_session now token before,
        subst (λ k. (is_valid_session soon token k).0 ≡ true) (sym after)
            (accepted-week now soon token s before valid due),
        subst
            (λ k. (is_valid_session later (some t) (answer_all hash_password requests k)).0 ≡ false)
            (sym after)
            (is_valid_session-gone t later
              (answer_all hash_password requests (only_session now token before)) gone),
      )
