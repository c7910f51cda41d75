-- ===== src/Vmess/Auth/Serving.antt =====
-- The validator over any sequence of registrations and requests, against an ideal that knows the
-- registered keys and the last accepted auth ids.
use rvg_sever.Prelude.{
  ℕ, ◌+◌, ◌++◌, ◌||◌, ◌&&◌, not, true, false, leb, ite, arith, ◌≡◌, refl, ap, sym, ◌∙◌, List, [],
  ◌∷◌, take, Bool, if◌then◌else◌, Option, none, some, Result, ok, err, vmess_auth_error, String,
  Dict, put, remove, Bool-cases, inl, inr, ◌>>=◌,
}
use mathlib.Core.Path.{ap₂, subst}
use rvg_sever.Wire.{Bytes}
use rvg_sever.Vmess.Replay.{contains, check_and_add}
use rvg_sever.Vmess.Replay.Window.{Tracks, Tracks-new, check_and_add-Tracks}
use rvg_sever.Vmess.Auth.{ℤ, pos, negsuc, Primitives, cmd_key_for, decode_auth_id}
use rvg_sever.Vmess.Auth.Validator.{
  is_out_of_time, is_own, bytes_key, AuthIdValidator, new_validator, add_user, remove_user,
  find_user, admit, match_,
}

-- What the validator is asked for: `register_user`, `unregister_user`, and `match` at a time.
pub data Event : Type 0 where
  register unregister : String → Event
  request : ℕ → Bytes → Event

-- An exception leaves the validator as it was.
abbrev pub settle : {A S : Type 0} → S → Result (A × S) → Result A × S
settle s (ok (a, s')) = (ok a, s')
settle s (err e) = (err e, s)

abbrev pub changed : {S : Type 0} → S → Result S → Result (Option String) × S
changed s (ok s') = (ok none, s')
changed s (err e) = (err e, s)

-- The ideal's list of users: one with the same key is replaced where it stands, a new one goes to the end.
abbrev same_key : Bytes → Bytes → Bool
same_key k key = ite (bytes_key.dec k key) true false

pub knows : Bytes → List (Bytes × String) → Bool
knows key [] = false
knows key ((k, _) ∷ users) = same_key k key || knows key users

pub replace_user : Bytes → String → List (Bytes × String) → List (Bytes × String)
replace_user key uuid_str [] = []
replace_user key uuid_str ((k, u) ∷ users) =
    let rest = replace_user key uuid_str users in
    if same_key k key then (k, uuid_str) ∷ users else (k, u) ∷ rest

pub enter : Bytes → String → List (Bytes × String) → List (Bytes × String)
enter key uuid_str users =
    if knows key users then replace_user key uuid_str users else users ++ ((key, uuid_str) ∷ [])

pub without : Bytes → List (Bytes × String) → List (Bytes × String)
without key [] = []
without key ((k, u) ∷ users) =
    let rest = without key users in if same_key k key then rest else (k, u) ∷ rest

put-enter :
    (key : Bytes) (uuid_str : String) (users : List (Bytes × String))
    → put key uuid_str users ≡ enter key uuid_str users
unfolding put enter knows replace_user
put-enter key uuid_str [] = refl
put-enter key uuid_str ((k, u) ∷ users) = ground (arith, put-enter key uuid_str users)

remove-without :
    (key : Bytes) (users : List (Bytes × String)) → remove key users ≡ without key users
unfolding remove without
remove-without key [] = refl
remove-without key ((k, u) ∷ users) = ground (arith, remove-without key users)

-- At most two minutes before or behind the clock.
pub in_time : ℕ → ℤ → Bool
in_time now (negsuc _) = false
in_time now (pos t) = leb t (now + 120) && leb now (t + 120)

not_out_of_time : (now : ℕ) (t : ℤ) → not (is_out_of_time now t) ≡ in_time now t
unfolding is_out_of_time in_time
not_out_of_time now (negsuc n) = refl
not_out_of_time now (pos t) = ground arith

abbrev pub first_of : List String → Option String
first_of [] = none
first_of (u ∷ us) = some u

module _ (p : Primitives) where
  unfoldable pub step : Event → AuthIdValidator → Result (Option String) × AuthIdValidator
  step (register uuid_str) v = changed v (add_user p uuid_str v)
  step (unregister uuid_str) v = changed v (remove_user p uuid_str v)
  step (request now auth_id) v = settle v (match_ p now auth_id v)

  unfoldable pub serve : List Event → AuthIdValidator → List (Result (Option String))
  serve [] v = []
  serve (event ∷ events) v = let (answer, v') = step event v in answer ∷ serve events v'

  -- All users whose key gives a time that is near the clock.
  abbrev pub is_near : ℕ → Option ℤ → Bool
  is_near now none = false
  is_near now (some t) = in_time now t

  pub fitting : ℕ → Bytes → List (Bytes × String) → List String
  fitting now auth_id [] = []
  fitting now auth_id ((key, uuid_str) ∷ users) =
      let rest = fitting now auth_id users in
      if is_near now (decode_auth_id p key auth_id) then uuid_str ∷ rest else rest

  own_is_near :
      (now : ℕ) (time : Option ℤ)
      → elim time [ none ↦ false | some t ↦ if is_out_of_time now t then false else true ]
        ≡ is_near now time
  own_is_near now none = refl
  own_is_near now (some t) = elim (Bool-cases (is_out_of_time now t)) [
    | inl late ↦ rw late (ap not (sym late) ∙ not_out_of_time now t)
    | inr fits ↦ rw fits (ap not (sym fits) ∙ not_out_of_time now t)
  ]

  is_own-is_near :
      (now : ℕ) (auth_id key : Bytes)
      → is_own p now auth_id key ≡ is_near now (decode_auth_id p key auth_id)
  unfolding is_own
  is_own-is_near now auth_id key = own_is_near now (decode_auth_id p key auth_id)

  find_user-fitting :
      (now : ℕ) (auth_id : Bytes) (users : List (Bytes × String))
      → find_user p now auth_id users ≡ first_of (fitting now auth_id users)
  unfolding find_user fitting
  find_user-fitting now auth_id [] = refl
  find_user-fitting now auth_id ((key, uuid_str) ∷ users) =
      elim (Bool-cases (is_near now (decode_auth_id p key auth_id))) [
        | inl near ↦ rw (is_own-is_near now auth_id key, near) refl
        | inr far ↦ rw (is_own-is_near now auth_id key, far) (find_user-fitting now auth_id users)
      ]

  -- The ideal: the keys, and the accepted auth ids from the newest.
  abbrev pub with_key :
      Dict Bytes String
      → Result Bytes
      → (Bytes → Dict Bytes String)
      → Result (Option String) × Dict Bytes String
  with_key keys (ok key) change = (ok none, change key)
  with_key keys (err e) change = (err e, keys)

  abbrev pub judge : Option String → Bool → Result (Option String)
  judge none old = ok none
  judge (some uuid_str) old =
      if old then err (vmess_auth_error "replayed request") else ok (some uuid_str)

  abbrev pub remember : Option String → Bool → Bytes → List Bytes → List Bytes
  remember none old auth_id h = h
  remember (some _) old auth_id h = if old then h else auth_id ∷ h

  unfoldable pub ideal_serve :
      List Event → Dict Bytes String → List Bytes → List (Result (Option String))
  ideal_serve [] keys h = []
  ideal_serve (register uuid_str ∷ events) keys h =
      let (answer, keys') =
        with_key keys (cmd_key_for p uuid_str) (λ key. enter key uuid_str keys) in
      answer ∷ ideal_serve events keys' h
  ideal_serve (unregister uuid_str ∷ events) keys h =
      let (answer, keys') = with_key keys (cmd_key_for p uuid_str) (λ key. without key keys) in
      answer ∷ ideal_serve events keys' h
  ideal_serve (request now auth_id ∷ events) keys h =
      let user = first_of (fitting now auth_id keys) in
      let old = contains (take 120 h) auth_id in
      judge user old ∷ ideal_serve events keys (remember user old auth_id h)

  -- What a step answers, and that it keeps the tracking of the history.
  record Follows (answer : Result (Option String)) (keys : Dict Bytes String) (h : List Bytes)
      (got : Result (Option String) × AuthIdValidator) : Type 0 where
    answer_eq : got.0 ≡ answer
    keys_eq : got.1.keys ≡ keys
    tracks : Tracks 120 h got.1.replay

  keys-Follows :
      (key : Result Bytes) (change ideal_change : Bytes → Dict Bytes String) (v : AuthIdValidator)
      (h : List Bytes)
      → ((k : Bytes) → change k ≡ ideal_change k)
      → Tracks 120 h v.replay
      → Follows
          (with_key v.keys key ideal_change).0
          (with_key v.keys key ideal_change).1
          h
          (changed v (key >>= λ k. ok (record v { keys = change k })))
  keys-Follows (ok key) change ideal_change v h same t = record {
    answer_eq = refl;
    keys_eq = same key;
    tracks = t;
  }
  keys-Follows (err e) change ideal_change v h same t = record {
    answer_eq = refl;
    keys_eq = refl;
    tracks = t;
  }

  admit-Follows :
      (auth_id : Bytes) (user : Option String) (v : AuthIdValidator) (h : List Bytes)
      → Tracks 120 h v.replay
      → let old = contains (take 120 h) auth_id in
        Follows
          (judge user old)
          v.keys
          (remember user old auth_id h)
          (settle v (admit p auth_id user v))
  unfolding admit
  admit-Follows auth_id none v h t = record { answer_eq = refl; keys_eq = refl; tracks = t }
  admit-Follows auth_id (some uuid_str) v h t =
      let (fresh, t') = check_and_add-Tracks 120 h v.replay auth_id t in
      elim (Bool-cases (contains (take 120 h) auth_id)) [
        | inl old ↦ rw (fresh, old) (record { answer_eq = refl; keys_eq = refl; tracks = t })
        | inr new ↦
            rw (fresh, new)
              (record {
                answer_eq = refl;
                keys_eq = refl;
                tracks =
                    subst
                      (λ b.
                        Tracks 120 (if b then h else auth_id ∷ h)
                          (check_and_add auth_id v.replay).1)
                      new t';
              })
      ]

  serve-ideal_from :
      (events : List Event) (v : AuthIdValidator) (h : List Bytes)
      → Tracks 120 h v.replay
      → serve events v ≡ ideal_serve events v.keys h
  unfolding serve ideal_serve step add_user remove_user match_
  serve-ideal_from [] v h t = refl
  serve-ideal_from (register uuid_str ∷ events) v h t =
      let f =
        keys-Follows (cmd_key_for p uuid_str) (λ key. put key uuid_str v.keys)
          (λ key. enter key uuid_str v.keys) v h (λ key. put-enter key uuid_str v.keys) t in
      let rest = serve-ideal_from events (step (register uuid_str) v).1 h f.tracks in
      ap₂ ◌∷◌ f.answer_eq (rest ∙ ap (λ keys. ideal_serve events keys h) f.keys_eq)
  serve-ideal_from (unregister uuid_str ∷ events) v h t =
      let f =
        keys-Follows (cmd_key_for p uuid_str) (λ key. remove key v.keys) (λ key. without key v.keys)
          v h (λ key. remove-without key v.keys) t in
      let rest = serve-ideal_from events (step (unregister uuid_str) v).1 h f.tracks in
      ap₂ ◌∷◌ f.answer_eq (rest ∙ ap (λ keys. ideal_serve events keys h) f.keys_eq)
  serve-ideal_from (request now auth_id ∷ events) v h t =
      let user = find_user p now auth_id v.keys in
      let old = contains (take 120 h) auth_id in
      let f = admit-Follows auth_id user v h t in
      let h' = remember user old auth_id h in
      let rest = serve-ideal_from events (step (request now auth_id) v).1 h' f.tracks in
      let served = ap₂ ◌∷◌ f.answer_eq (rest ∙ ap (λ keys. ideal_serve events keys h') f.keys_eq) in
      served
      ∙ ap (λ user. judge user old ∷ ideal_serve events v.keys (remember user old auth_id h))
          (find_user-fitting now auth_id v.keys)

  -- From a new validator, every sequence of registrations and requests is answered as by the ideal. It
  -- keeps the users in the order of their registration, where one with the same key takes the place of
  -- the old one. A request names the first user whose key gives a time of 120 seconds before or
  -- behind the clock at most, none without such a user, and raises if its auth id is one of the last 120
  -- accepted ones.
  pub serve-ideal : (events : List Event) → serve events new_validator ≡ ideal_serve events [] []
  serve-ideal events = serve-ideal_from events new_validator [] (Tracks-new 120)
