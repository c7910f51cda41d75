-- ===== src/Xhttp/Sessions/Reaping.antt =====
-- Which sessions a turn of `_reaper` ends.
use mathlib.Core.Path.{subst}
use rvg_sever.Prelude.{
  ℕ, ◌≡◌, ◌≢◌, refl, sym, ap, ◌∙◌, arith, List, [], ◌∷◌, Bool, true, false, ◌||◌, ◌&&◌,
  if◌then◌else◌, none, some, Option-cases, inl, inr, is_some, Key, Dict, get, put, remove, get-put,
  get-remove, ite,
}
use rvg_sever.Wire.Text.{Text}
use rvg_sever.Xhttp.{Session}
use rvg_sever.Xhttp.Sessions.{
  Server, shut, is_idle, is_idle_object, object_of, stale, teardown, teardown_all, reap,
}
use rvg_sever.Xhttp.Sessions.Live.{IsLive, some_inj}
use rvg_sever.Xhttp.Sessions.Steps.{teardown-IsLive}

module _ ⦃by_text : Key Text⦄ ⦃by_seq : Key ℕ⦄ where
  -- sid in sids
  abbrev has_sid : Text → List Text → Bool
  has_sid sid [] = false
  has_sid sid (x ∷ xs) = ite (by_text.dec x sid) true (has_sid sid xs)

  teardown-none : (x : Text) (v : Server) → get x v.sessions ≡ none → teardown x v ≡ v
  unfolding teardown
  teardown-none x v e = rw (e, teardown)

  teardown-some :
      (x ref : Text) (s : Session) (v : Server)
      → get x v.sessions ≡ some ref
      → get ref v.objects ≡ some s
      → teardown x v ≡ record {
        sessions = remove x v.sessions;
        objects = put ref (shut s) v.objects;
        connections = remove s.conn_id v.connections;
      }
  unfolding teardown
  teardown-some x ref s v e at = rw (e, teardown, at)

  -- A torn-down session is not found any more, and its object is shut.
  teardown_self :
      (sid ref : Text) (s : Session) (v : Server)
      → get sid v.sessions ≡ some ref
      → get ref v.objects ≡ some s
      → (get sid (teardown sid v).sessions ≡ none)
        × (get ref (teardown sid v).objects ≡ some (shut s))
  teardown_self sid ref s v e at = rw (teardown-some sid ref s v e at) (
    ground (arith, get-remove sid sid v.sessions),
    ground (arith, get-put ref ref (shut s) v.objects),
  )

  -- The teardown of a session leaves the other ids and the other objects alone.
  sessions-teardown :
      (x sid : Text) (v : Server)
      → IsLive v
      → x ≢ sid
      → get sid (teardown x v).sessions ≡ get sid v.sessions
  sessions-teardown x sid v live other = elim (Option-cases (get x v.sessions)) [
    | inl e ↦ rw (teardown-none x v e)
    | inr (ref, e) ↦
        let (s, at, _) = live.registered x ref e in
        rw (teardown-some x ref s v e at) (ground (arith, other, get-remove x sid v.sessions))
  ]

  objects-teardown :
      (x ref : Text) (v : Server)
      → IsLive v
      → get x v.sessions ≢ some ref
      → get ref (teardown x v).objects ≡ get ref v.objects
  objects-teardown x ref v live other = elim (Option-cases (get x v.sessions)) [
    | inl e ↦ rw (teardown-none x v e)
    | inr (ref', e) ↦
        let (s, at, _) = live.registered x ref' e in
        let apart : ref' ≢ ref = λ p. other (e ∙ ap some p) in
        rw (teardown-some x ref' s v e at)
          (ground (arith, apart, get-put ref' ref (shut s) v.objects))
  ]

  -- An object that is shut stays as it is.
  teardown_all_shut :
      (xs : List Text) (sid ref : Text) (s : Session) (v : Server)
      → IsLive v
      → get sid v.sessions ≡ none
      → get ref v.objects ≡ some s
      → s.closed ≡ true
      → (get sid (teardown_all xs v).sessions ≡ none)
        × (get ref (teardown_all xs v).objects ≡ some s)
  unfolding teardown_all
  teardown_all_shut [] sid ref s v live e at c = (e, at)
  teardown_all_shut (x ∷ xs) sid ref s v live e at c =
      let apart : get x v.sessions ≢ some ref = λ q.
        let (o, at', is_open) = live.registered x ref q in
        let same : s ≡ o = some_inj (sym at ∙ at') in cc (c, is_open, same) in
      let gone : get sid (teardown x v).sessions ≡ none = elim (by_text.dec x sid) [
        | yes p ↦
            ap (λ k. get sid k.sessions)
              (teardown-none x v (subst (λ k. get k v.sessions ≡ none) (sym p) e))
            ∙ e
        | no p ↦ sessions-teardown x sid v live p ∙ e
      ] in
      teardown_all_shut xs sid ref s (teardown x v) (teardown-IsLive x v live) gone
        (objects-teardown x ref v live apart ∙ at) c

  -- What a list of teardowns makes of a session that is there.
  abbrev After : Bool → Text → Text → Session → Server → Type 0
  After true sid ref s v = (get sid v.sessions ≡ none) × (get ref v.objects ≡ some (shut s))
  After false sid ref s v = (get sid v.sessions ≡ some ref) × (get ref v.objects ≡ some s)

  teardown_all-After :
      (xs : List Text) (sid ref : Text) (s : Session) (v : Server)
      → IsLive v
      → get sid v.sessions ≡ some ref
      → get ref v.objects ≡ some s
      → After (has_sid sid xs) sid ref s (teardown_all xs v)
  unfolding teardown_all shut
  teardown_all-After [] sid ref s v live e at = (e, at)
  teardown_all-After (x ∷ xs) sid ref s v live e at =
      elim (by_text.dec x sid)
        as (λ d. After (ite d true (has_sid sid xs)) sid ref s (teardown_all xs (teardown x v))) [
          | yes p ↦
              let (gone, is_shut) = teardown_self sid ref s v e at in
              subst (λ k. After true sid ref s (teardown_all xs (teardown k v))) (sym p)
                (teardown_all_shut xs sid ref (shut s) (teardown sid v) (teardown-IsLive sid v live)
                  gone is_shut refl)
          | no p ↦
              let apart : get x v.sessions ≢ some ref = λ q. p (live.single x sid ref q e) in
              teardown_all-After xs sid ref s (teardown x v) (teardown-IsLive x v live)
                (sessions-teardown x sid v live p ∙ e) (objects-teardown x ref v live apart ∙ at)
        ]

  After-if :
      (b : Bool) (sid ref : Text) (s : Session) (v : Server)
      → After b sid ref s v
      → (get sid v.sessions ≡ (if b then none else some ref))
        × (get ref v.objects ≡ some (if b then shut s else s))
  After-if true sid ref s v h = h
  After-if false sid ref s v h = h

  has_sid-if :
      (b : Bool) (x sid : Text) (xs : List Text)
      → has_sid sid (if b then x ∷ xs else xs)
        ≡ ite (by_text.dec x sid) (b || has_sid sid xs) (has_sid sid xs)
  has_sid-if true x sid xs = ground arith
  has_sid-if false x sid xs = ground arith

  abbrev idle_of : ℕ → Text → Server → Bool
  idle_of now sid v = is_idle_object now (object_of (get sid v.sessions) v)

  -- What is found stale is idle, and every idle session of the table is found.
  has_sid-stale :
      (now : ℕ) (sid : Text) (d : Dict Text Text) (v : Server)
      → has_sid sid (stale now d v) ≡ (is_some (get sid d) && idle_of now sid v)
  unfolding stale get
  has_sid-stale now sid [] v = refl
  has_sid-stale now sid ((x, ref) ∷ d) v = elim (by_text.dec x sid) [
    | yes p ↦
        let first = has_sid-if (idle_of now x v) x sid (stale now d v) in
        let same : idle_of now x v ≡ idle_of now sid v = ap (λ k. idle_of now k v) p in
        ground (arith, first, same, p, has_sid-stale now sid d v)
    | no p ↦
        let first = has_sid-if (idle_of now x v) x sid (stale now d v) in
        ground (arith, first, p, has_sid-stale now sid d v)
  ]

  -- A turn of the reaper takes just the idle sessions off the table and shuts their objects: those without
  -- a sign of life for 90 seconds once their destination is open, for 30 seconds before. Every other
  -- session stays, with its object unchanged.
  pub reap_lem :
      (now : ℕ) (sid ref : Text) (s : Session) (v : Server)
      → IsLive v
      → get sid v.sessions ≡ some ref
      → get ref v.objects ≡ some s
      → (get sid (reap now v).sessions ≡ (if is_idle now s then none else some ref))
        × (get ref (reap now v).objects ≡ some (if is_idle now s then shut s else s))
  unfolding reap
  reap_lem now sid ref s v live e at =
      let found : has_sid sid (stale now v.sessions v) ≡ is_idle now s =
        has_sid-stale now sid v.sessions v ∙ rw (e, at) in
      let after = teardown_all-After (stale now v.sessions v) sid ref s v live e at in
      After-if (is_idle now s) sid ref s (teardown_all (stale now v.sessions v) v)
        (subst (λ b. After b sid ref s (teardown_all (stale now v.sessions v) v)) found after)
