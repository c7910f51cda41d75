-- ===== src/Xhttp/Sessions/Steps.antt =====
-- Every step of the handlers and of the reaper keeps the sessions as they have to be.
use mathlib.Core.Path.{subst}
use rvg_sever.Prelude.{
  ℕ, ◌≡◌, ◌≢◌, refl, ◌∙◌, arith, none, some, Option-cases, inl, inr, Key, Dict, get, put, remove,
  get-put, get-remove,
}
use rvg_sever.Wire.{Bytes}
use rvg_sever.Wire.Text.{Text}
use rvg_sever.Xhttp.{Writer, Session, Upload, stored, kept, connecting, broken, receive, connected}
use rvg_sever.Xhttp.Sessions.{Connection, Server, shut, set_object, teardown, count_bytes, settle}
use rvg_sever.Xhttp.Sessions.Live.{HasEntry, IsLive, SameSession, some_inj, set_object-IsLive}

module _ ⦃by_text : Key Text⦄ ⦃by_seq : Key ℕ⦄ where
  -- The tables when the object of a session was shut.
  shut_server : Text → Text → Session → Server → Server
  shut_server sid ref s v = record {
    sessions = remove sid v.sessions;
    objects = put ref (shut s) v.objects;
    connections = remove s.conn_id v.connections;
  }

  get-remove_eq_some :
      (sid sid' ref : Text) (d : Dict Text Text)
      → get sid' (remove sid d) ≡ some ref
      → (sid ≢ sid') × (get sid' d ≡ some ref)
  get-remove_eq_some sid sid' ref d e = elim (by_text.dec sid sid') [
    | yes p ↦ absurd (ground (arith, e, p, get-remove sid sid' d))
    | no p ↦ (p, ground (arith, e, p, get-remove sid sid' d))
  ]

  shut_server-IsLive :
      (sid ref : Text) (s : Session) (v : Server)
      → IsLive v
      → get sid v.sessions ≡ some ref
      → get ref v.objects ≡ some s
      → s.conn_id ≡ ref
      → IsLive (shut_server sid ref s v)
  unfolding shut_server shut
  shut_server-IsLive sid ref s v live named found own = record {
    registered = λ sid' ref' e.
        let (other, e') = get-remove_eq_some sid sid' ref' v.sessions e in
        let (o, at, is_open) = live.registered sid' ref' e' in
        let apart : ref ≢ ref' = λ p.
          other (live.single sid sid' ref' (subst (λ k. get sid v.sessions ≡ some k) p named) e') in
        (o, ground (arith, at, apart, get-put ref ref' (shut s) v.objects), is_open);
    single = λ sid1 sid2 ref' e1 e2.
        live.single sid1 sid2 ref' (get-remove_eq_some sid sid1 ref' v.sessions e1).1
          (get-remove_eq_some sid sid2 ref' v.sessions e2).1;
    entry = λ ref' o e. elim (by_text.dec ref ref') [
      | yes p ↦
          let gone : get ref' (remove s.conn_id v.connections) ≡ none =
            ground (arith, p, own, get-remove s.conn_id ref' v.connections) in
          let is_shut : shut s ≡ o =
            some_inj (ground (arith, e, p, get-put ref ref' (shut s) v.objects)) in
          rw gone (subst (λ k. HasEntry ref' k none) is_shut (own ∙ p, refl))
      | no p ↦
          let same : get ref' (remove s.conn_id v.connections) ≡ get ref' v.connections =
            ground (arith, p, own, get-remove s.conn_id ref' v.connections) in
          rw same (live.entry ref' o (ground (arith, e, p, get-put ref ref' (shut s) v.objects)))
    ];
  }

  pub own_id :
      (ref : Text) (s : Session) (v : Server)
      → IsLive v
      → get ref v.objects ≡ some s
      → s.conn_id ≡ ref
  own_id ref s v live e = elim (Option-cases (get ref v.connections)) [
    | inl q ↦ (subst (HasEntry ref s) q (live.entry ref s e)).0
    | inr (c, q) ↦ (subst (HasEntry ref s) q (live.entry ref s e)).0
  ]

  pub teardown-IsLive : (sid : Text) (v : Server) → IsLive v → IsLive (teardown sid v)
  unfolding teardown shut_server
  teardown-IsLive sid v live = elim (Option-cases (get sid v.sessions)) [
    | inl e ↦ rw (e, teardown) live
    | inr (ref, e) ↦
        let (s, at, _) = live.registered sid ref e in
        let own = own_id ref s v live at in
        rw (e, teardown, at) (shut_server-IsLive sid ref s v live e at own)
  ]

  -- The bytes of a connection are counted.
  pub count-IsLive :
      (conn_id : Text) (n : ℕ) (c : Connection) (v : Server)
      → IsLive v
      → get conn_id v.connections ≡ some c
      → IsLive (record v { connections = put conn_id (count_bytes n c) v.connections })
  count-IsLive conn_id n c v live found = record {
    registered = live.registered;
    single = live.single;
    entry = λ ref o e. elim (by_text.dec conn_id ref) [
      | yes p ↦
          let now : get ref (put conn_id (count_bytes n c) v.connections) ≡ some (count_bytes n c) =
            ground (arith, p, get-put conn_id ref (count_bytes n c) v.connections) in
          let before : get ref v.connections ≡ some c =
            subst (λ k. get k v.connections ≡ some c) p found in
          let old : HasEntry ref o (some c) = subst (HasEntry ref o) before (live.entry ref o e) in
          rw now old
      | no p ↦
          let same : get ref (put conn_id (count_bytes n c) v.connections) ≡ get ref v.connections =
            ground (arith, p, get-put conn_id ref (count_bytes n c) v.connections) in
          rw same (live.entry ref o e)
    ];
  }

  -- What an upload makes of a session is the same session.
  pub SameUpload : Session → Upload → Type 0
  SameUpload s (stored s') = SameSession s s'
  SameUpload s (kept s') = SameSession s s'
  SameUpload s (connecting s') = SameSession s s'
  SameUpload s (broken s') = SameSession s s'

  pub receive-SameUpload :
      (seq : ℕ) (body : Bytes) (s : Session) → SameUpload s (receive seq body s)
  unfolding receive SameUpload
  receive-SameUpload seq body s = ground arith

  pub connected-SameUpload : (w : Writer) (s : Session) → SameUpload s (connected w s)
  unfolding connected SameUpload
  connected-SameUpload w s = ground arith

  pub settle-IsLive :
      (sid ref : Text) (s : Session) (u : Upload) (v : Server)
      → IsLive v
      → get ref v.objects ≡ some s
      → SameUpload s u
      → IsLive (settle sid ref u v).1
  unfolding SameUpload
  settle-IsLive sid ref s (stored s') v live e same = set_object-IsLive ref s s' v live e same
  settle-IsLive sid ref s (kept s') v live e same = set_object-IsLive ref s s' v live e same
  settle-IsLive sid ref s (connecting s') v live e same = live
  settle-IsLive sid ref s (broken s') v live e same =
      teardown-IsLive sid (set_object ref s' v) (set_object-IsLive ref s s' v live e same)

  pub same_session : (s : Session) → SameSession s s
  same_session s = record { same_id = refl; same_uuid = refl; same_closed = refl }
