-- ===== src/Xhttp/Sessions/Runs.antt =====
-- The handlers and the reaper, in any order.
use mathlib.Core.Path.{subst}
use rvg_sever.Prelude.{
  ℕ, ◌≡◌, ◌≢◌, ◌↔◌, refl, sym, ◌∙◌, List, [], ◌∷◌, Bool, true, false, Option, none, some,
  Option-cases, inl, inr, if_holds, Key, get, put, length,
}
use rvg_sever.Wire.{Bytes}
use rvg_sever.Wire.Text.{Text}
use rvg_sever.Xhttp.{Writer, Session, Upload, stored, kept, connecting, broken, receive, connected}
use rvg_sever.Xhttp.Sessions.{
  Server, Reply, key_error, touch, get_or_create_session, teardown, stale, teardown_all, reap,
  packet_up, hold, begin_packet, count_bytes, settle, finish_packet, connect_packet,
}
use rvg_sever.Xhttp.Sessions.Live.{HasEntry, IsLive, set_object-IsLive, create-IsLive}
use rvg_sever.Xhttp.Sessions.Steps.{
  teardown-IsLive, own_id, count-IsLive, receive-SameUpload, connected-SameUpload, settle-IsLive,
}

-- A step: a request comes in, its body was counted, its destination is there, a session ends, the reaper.
pub data Event : Type 0 where
  begin : Text → Text → Text → ℕ → Text → Event
  finish : Text → Text → Bool → ℕ → Bytes → Event
  connect : Text → Text → Option Writer → Event
  end_of : Text → Event
  sweep : ℕ → Event

module _ ⦃by_text : Key Text⦄ ⦃by_seq : Key ℕ⦄ where
  unfoldable pub step : Event → Server → Server
  step (begin uuid sid ip now conn_id) v = (begin_packet uuid sid ip now conn_id v).2
  step (finish sid ref allowed seq body) v = (finish_packet sid ref allowed seq body v).1
  step (connect sid ref answer) v = (connect_packet sid ref answer v).1
  step (end_of sid) v = teardown sid v
  step (sweep now) v = reap now v

  unfoldable pub run : List Event → Server → Server
  run [] v = v
  run (event ∷ events) v = run events (step event v)

  -- The token that a request draws is that of no object.
  abbrev pub IsNew : Event → Server → Type 0
  IsNew (begin uuid sid ip now conn_id) v = get conn_id v.objects ≡ none
  IsNew _ v = Unit {0}

  abbrev pub AllNew : List Event → Server → Type 0
  AllNew [] v = Unit {0}
  AllNew (event ∷ events) v = IsNew event v × AllNew events (step event v)

  touch-IsLive :
      (now : ℕ) (ref : Text) (v : Server) → IsLive v → IsLive (touch now ref (get ref v.objects) v)
  touch-IsLive now ref v live = elim (Option-cases (get ref v.objects)) [
    | inl e ↦ rw e live
    | inr (s, e) ↦ rw e (
        set_object-IsLive ref s (record s { last_seen = now }) v live e
          (record { same_id = refl; same_uuid = refl; same_closed = refl }))
  ]

  get_or_create_session-IsLive :
      (uuid mode sid ip : Text) (now : ℕ) (conn_id : Text) (v : Server)
      → IsLive v
      → get conn_id v.objects ≡ none
      → IsLive (get_or_create_session uuid mode sid ip now conn_id v).1
  unfolding get_or_create_session
  get_or_create_session-IsLive uuid mode sid ip now conn_id v live fresh =
      elim (Option-cases (get sid v.sessions)) [
        | inl e ↦
            rw (e, get_or_create_session) (create-IsLive uuid mode sid ip now conn_id v live fresh)
        | inr (ref, e) ↦ rw (e, get_or_create_session) (touch-IsLive now ref v live)
      ]

  hold-IsLive : (now : ℕ) (ref : Text) (v : Server) → IsLive v → IsLive (hold now ref v).1
  hold-IsLive now ref v live = elim (Option-cases (get ref v.objects)) [
    | inl e ↦ rw e live
    | inr (s, e) ↦
        let touched =
          set_object-IsLive ref s (record s { last_seen = now }) v live e
            (record { same_id = refl; same_uuid = refl; same_closed = refl }) in
        rw e (if_holds (λ (r : Reply × Server). IsLive r.1) s.closed live touched)
  ]

  begin_packet-IsLive :
      (uuid sid ip : Text) (now : ℕ) (conn_id : Text) (v : Server)
      → IsLive v
      → get conn_id v.objects ≡ none
      → IsLive (begin_packet uuid sid ip now conn_id v).2
  unfolding begin_packet
  begin_packet-IsLive uuid sid ip now conn_id v live fresh =
      let opened = get_or_create_session uuid packet_up sid ip now conn_id v in
      let live' = get_or_create_session-IsLive uuid packet_up sid ip now conn_id v live fresh in
      hold-IsLive now opened.0 opened.1 live'

  finish_packet-IsLive :
      (sid ref : Text) (allowed : Bool) (seq : ℕ) (body : Bytes) (v : Server)
      → IsLive v
      → IsLive (finish_packet sid ref allowed seq body v).1
  unfolding finish_packet
  finish_packet-IsLive sid ref allowed seq [] v live = live
  finish_packet-IsLive sid ref false seq (b ∷ bs) v live = teardown-IsLive sid v live
  finish_packet-IsLive sid ref true seq (b ∷ bs) v live = elim (Option-cases (get ref v.objects)) [
    | inl e ↦ rw e live
    | inr (s, e) ↦ elim (Option-cases (get s.conn_id v.connections)) [
      | inl q ↦ rw (e, q) live
      | inr (c, q) ↦
          let n = length (b ∷ bs) in
          let v' = record v { connections = put s.conn_id (count_bytes n c) v.connections } in
          rw (e, q)
            (settle-IsLive sid ref s (receive seq (b ∷ bs) s) v'
              (count-IsLive s.conn_id n c v live q) e (receive-SameUpload seq (b ∷ bs) s))
    ]
  ]

  connect_packet-IsLive :
      (sid ref : Text) (answer : Option Writer) (v : Server)
      → IsLive v
      → IsLive (connect_packet sid ref answer v).1
  unfolding connect_packet
  connect_packet-IsLive sid ref none v live = teardown-IsLive sid v live
  connect_packet-IsLive sid ref (some w) v live = elim (Option-cases (get ref v.objects)) [
    | inl e ↦ rw e live
    | inr (s, e) ↦
        rw e (settle-IsLive sid ref s (connected w s) v live e (connected-SameUpload w s))
  ]

  teardown_all-IsLive : (sids : List Text) (v : Server) → IsLive v → IsLive (teardown_all sids v)
  unfolding teardown_all
  teardown_all-IsLive [] v live = live
  teardown_all-IsLive (sid ∷ sids) v live =
      teardown_all-IsLive sids (teardown sid v) (teardown-IsLive sid v live)

  step-IsLive : (event : Event) (v : Server) → IsLive v → IsNew event v → IsLive (step event v)
  unfolding step reap
  step-IsLive (begin uuid sid ip now conn_id) v live new =
      begin_packet-IsLive uuid sid ip now conn_id v live new
  step-IsLive (finish sid ref allowed seq body) v live new =
      finish_packet-IsLive sid ref allowed seq body v live
  step-IsLive (connect sid ref answer) v live new = connect_packet-IsLive sid ref answer v live
  step-IsLive (end_of sid) v live new = teardown-IsLive sid v live
  step-IsLive (sweep now) v live new = teardown_all-IsLive (stale now v.sessions v) v live

  -- Requests, counted bodies, connections, ends of sessions and sweeps of the reaper, in any order and on
  -- any object that a handler may still hold, keep the tables in step, as long as a request draws a token
  -- that no object has: each session id stands for one object, which is open and which no other id has,
  -- and `connections` has an entry, with the object's uuid, for just the objects that are not closed.
  pub run-IsLive :
      (events : List Event) (v : Server) → IsLive v → AllNew events v → IsLive (run events v)
  unfolding run
  run-IsLive [] v live new = live
  run-IsLive (event ∷ events) v live new =
      run-IsLive events (step event v) (step-IsLive event v live new.0) new.1

  true-ne-false : true ≢ false
  true-ne-false e = cc (e)

  settle-ne-key_error :
      (sid ref : Text) (u : Upload) (v : Server) → (settle sid ref u v).0 ≢ key_error
  settle-ne-key_error sid ref (stored s) v e = cc (e)
  settle-ne-key_error sid ref (kept s) v e = cc (e)
  settle-ne-key_error sid ref (connecting s) v e = cc (e)
  settle-ne-key_error sid ref (broken s) v e = cc (e)

  -- A POST whose gate said yes ends in a KeyError exactly when its session was torn down while it waited.
  pub finish_packet-eq-key_error_iff :
      (sid ref : Text) (seq b : ℕ) (bs : Bytes) (s : Session) (v : Server)
      → IsLive v
      → get ref v.objects ≡ some s
      → ((finish_packet sid ref true seq (b ∷ bs) v).0 ≡ key_error) ↔ (s.closed ≡ true)
  unfolding finish_packet
  finish_packet-eq-key_error_iff sid ref seq b bs s v live e =
      let entry = live.entry ref s e in
      let own = own_id ref s v live e in
      elim (Option-cases (get ref v.connections)) [
        | inl q ↦
            let gone : get s.conn_id v.connections ≡ none =
              subst (λ k. get k v.connections ≡ none) (sym own) q in
            let is_shut = (subst (HasEntry ref s) q entry).1 in
            rw (e, gone) ((λ _. is_shut), λ _. refl)
        | inr (c, q) ↦
            let there : get s.conn_id v.connections ≡ some c =
              subst (λ k. get k v.connections ≡ some c) (sym own) q in
            let is_open = (subst (HasEntry ref s) q entry).1 in
            rw (e, there)
              (
                (λ k. absurd (settle-ne-key_error sid ref _ _ k)),
                λ k. absurd (true-ne-false (sym k ∙ is_open)),
              )
      ]
