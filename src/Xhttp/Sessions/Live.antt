-- ===== src/Xhttp/Sessions/Live.antt =====
-- What holds of the sessions between any two steps of the handlers.
use mathlib.Core.Path.{subst}
use rvg_sever.Prelude.{
  ℕ, ◌≡◌, ◌≢◌, refl, sym, ap, ◌∙◌, arith, true, false, Option, none, some, Key, Dict, get, put,
  get-put,
}
use rvg_sever.Wire.Text.{Text}
use rvg_sever.Xhttp.{Session, new_session}
use rvg_sever.Xhttp.Sessions.{Connection, Server, set_object, create, new_connection}

module _ ⦃by_text : Key Text⦄ ⦃by_seq : Key ℕ⦄ where
  -- An object is known by its `conn_id`; `connections` has an entry, for its uuid, exactly as long as it
  -- is not closed.
  abbrev pub HasEntry : Text → Session → Option Connection → Type 0
  HasEntry ref s none = (s.conn_id ≡ ref) × (s.closed ≡ true)
  HasEntry ref s (some c) = (s.conn_id ≡ ref) × (s.closed ≡ false) × (c.uuid ≡ s.uuid)

  pub record IsLive (v : Server) : Type 0 where
    -- What is registered is an object that is not closed, under one session id.
    pub registered :
        (sid ref : Text)
        → get sid v.sessions ≡ some ref
        → (s : Session) × (get ref v.objects ≡ some s) × (s.closed ≡ false)
    pub single :
        (sid sid' ref : Text)
        → get sid v.sessions ≡ some ref
        → get sid' v.sessions ≡ some ref
        → sid ≡ sid'
    pub entry :
        (ref : Text) (s : Session)
        → get ref v.objects ≡ some s
        → HasEntry ref s (get ref v.connections)

  -- An object changes in other things than these.
  pub record SameSession (s s' : Session) : Type 0 where
    pub same_id : s'.conn_id ≡ s.conn_id
    pub same_uuid : s'.uuid ≡ s.uuid
    pub same_closed : s'.closed ≡ s.closed

  HasEntry-same :
      (ref : Text) (s s' : Session) (c : Option Connection)
      → SameSession s s'
      → HasEntry ref s c
      → HasEntry ref s' c
  HasEntry-same ref s s' none same h = ground arith
  HasEntry-same ref s s' (some c) same h = ground arith

  pub some_inj {ℓ} : {A : Type ℓ} {x y : A} → some x ≡ some y → x ≡ y
  some_inj e = cc

  -- The entries where one object was replaced by another.
  pub entry-put :
      (ref ref' : Text) (s' o : Session) (v : Server) (c : Option Connection)
      → (get ref' v.objects ≡ some o → HasEntry ref' o c)
      → (ref ≡ ref' → HasEntry ref' s' c)
      → get ref' (put ref s' v.objects) ≡ some o
      → HasEntry ref' o c
  entry-put ref ref' s' o v c other own e = elim (by_text.dec ref ref') [
    | yes p ↦
        let eq : s' ≡ o = some_inj (ground (arith, e, p, get-put ref ref' s' v.objects)) in
        subst (λ k. HasEntry ref' k c) eq (own p)
    | no p ↦ other (ground (arith, e, p, get-put ref ref' s' v.objects))
  ]

  pub set_object-IsLive :
      (ref : Text) (s s' : Session) (v : Server)
      → IsLive v
      → get ref v.objects ≡ some s
      → SameSession s s'
      → IsLive (set_object ref s' v)
  set_object-IsLive ref s s' v live found same = record {
    registered = λ sid ref' e.
        let (o, at, is_open) = live.registered sid ref' e in
        elim (by_text.dec ref ref') [
          | yes p ↦
              let found' : get ref' v.objects ≡ some s =
                subst (λ k. get k v.objects ≡ some s) p found in
              let eq : s ≡ o = some_inj (sym found' ∙ at) in
              (
                s',
                ground (arith, p, get-put ref ref' s' v.objects),
                same.same_closed ∙ ap (λ (k : Session). k.closed) eq ∙ is_open,
              )
          | no p ↦ (o, ground (arith, p, at, get-put ref ref' s' v.objects), is_open)
        ];
    single = live.single;
    entry = λ ref' o e.
        entry-put ref ref' s' o v (get ref' v.connections) (live.entry ref' o)
          (λ p.
            HasEntry-same ref' s s' (get ref' v.connections) same
              (live.entry ref' s (subst (λ k. get k v.objects ≡ some s) p found)))
          e;
  }

  registered-ne-fresh :
      (sid ref conn_id : Text) (v : Server)
      → IsLive v
      → get conn_id v.objects ≡ none
      → get sid v.sessions ≡ some ref
      → conn_id ≢ ref
  registered-ne-fresh sid ref conn_id v live fresh e p =
      let (o, at, is_open) = live.registered sid ref e in
      cc (fresh, subst (λ k. get k v.objects ≡ some o) (sym p) at)

  -- Where a session id was given a token, it is this one, and another id has what it had.
  data PutCases (sid sid' conn_id ref : Text) (old : Option Text) : Type 0 where
    given : sid ≡ sid' → conn_id ≡ ref → PutCases sid sid' conn_id ref old
    had : sid ≢ sid' → old ≡ some ref → PutCases sid sid' conn_id ref old

  put-cases :
      (sid sid' conn_id ref : Text) (d : Dict Text Text)
      → get sid' (put sid conn_id d) ≡ some ref
      → PutCases sid sid' conn_id ref (get sid' d)
  put-cases sid sid' conn_id ref d e = elim (by_text.dec sid sid') [
    | yes p ↦ given p (some_inj (ground (arith, e, p, get-put sid sid' conn_id d)))
    | no p ↦ had p (ground (arith, e, p, get-put sid sid' conn_id d))
  ]

  create-single :
      (sid sid1 sid2 conn_id ref : Text) (v : Server)
      → IsLive v
      → get conn_id v.objects ≡ none
      → PutCases sid sid1 conn_id ref (get sid1 v.sessions)
      → PutCases sid sid2 conn_id ref (get sid2 v.sessions)
      → sid1 ≡ sid2
  create-single sid sid1 sid2 conn_id ref v live fresh (given p _) (given q _) = sym p ∙ q
  create-single sid sid1 sid2 conn_id ref v live fresh (given _ p) (had _ e) =
      absurd (registered-ne-fresh sid2 ref conn_id v live fresh e p)
  create-single sid sid1 sid2 conn_id ref v live fresh (had _ e) (given _ p) =
      absurd (registered-ne-fresh sid1 ref conn_id v live fresh e p)
  create-single sid sid1 sid2 conn_id ref v live fresh (had _ e) (had _ e') =
      live.single sid1 sid2 ref e e'

  create-registered :
      (uuid mode sid sid' : Text) (now : ℕ) (conn_id ref : Text) (v : Server)
      → IsLive v
      → get conn_id v.objects ≡ none
      → PutCases sid sid' conn_id ref (get sid' v.sessions)
      → (s : Session) × (get ref (put conn_id (new_session uuid mode conn_id now) v.objects)
          ≡ some s)
        × (s.closed ≡ false)
  unfolding new_session
  create-registered uuid mode sid sid' now conn_id ref v live fresh (given _ p) =
      let s0 = new_session uuid mode conn_id now in
      (s0, ground (arith, p, get-put conn_id ref s0 v.objects), refl)
  create-registered uuid mode sid sid' now conn_id ref v live fresh (had _ e) =
      let (o, at, is_open) = live.registered sid' ref e in
      let other = registered-ne-fresh sid' ref conn_id v live fresh e in
      (
        o,
        ground
            (arith, other, at, get-put conn_id ref (new_session uuid mode conn_id now) v.objects),
        is_open,
      )

  HasEntry-new :
      (uuid mode ip conn_id ref : Text) (now : ℕ) (v : Server)
      → conn_id ≡ ref
      → let c0 = new_connection uuid mode ip in
        HasEntry ref (new_session uuid mode conn_id now) (get ref (put conn_id c0 v.connections))
  unfolding new_session
  HasEntry-new uuid mode ip conn_id ref now v p =
      let c0 = new_connection uuid mode ip in
      let found : get ref (put conn_id c0 v.connections) ≡ some c0 =
        ground (arith, p, get-put conn_id ref c0 v.connections) in
      rw found (p, refl, refl)

  HasEntry-other :
      (conn_id ref : Text) (o : Session) (c0 : Connection) (v : Server)
      → IsLive v
      → get conn_id v.objects ≡ none
      → get ref v.objects ≡ some o
      → HasEntry ref o (get ref (put conn_id c0 v.connections))
  HasEntry-other conn_id ref o c0 v live fresh old =
      let other : conn_id ≢ ref =
        λ p. cc (fresh, subst (λ k. get k v.objects ≡ some o) (sym p) old) in
      let same : get ref (put conn_id c0 v.connections) ≡ get ref v.connections =
        ground (arith, other, get-put conn_id ref c0 v.connections) in
      rw same (live.entry ref o old)

  -- A new session, under a token that no object has.
  pub create-IsLive :
      (uuid mode sid ip : Text) (now : ℕ) (conn_id : Text) (v : Server)
      → IsLive v
      → get conn_id v.objects ≡ none
      → IsLive (create uuid mode sid ip now conn_id v)
  create-IsLive uuid mode sid ip now conn_id v live fresh =
      let c0 = new_connection uuid mode ip in
      record {
        registered = λ sid' ref e.
            create-registered uuid mode sid sid' now conn_id ref v live fresh
              (put-cases sid sid' conn_id ref v.sessions e);
        single = λ sid1 sid2 ref e1 e2.
            create-single sid sid1 sid2 conn_id ref v live fresh
              (put-cases sid sid1 conn_id ref v.sessions e1)
              (put-cases sid sid2 conn_id ref v.sessions e2);
        entry = λ ref o e.
            entry-put conn_id ref (new_session uuid mode conn_id now) o v
              (get ref (put conn_id c0 v.connections))
              (λ old. HasEntry-other conn_id ref o c0 v live fresh old)
              (λ p. HasEntry-new uuid mode ip conn_id ref now v p) e;
      }
