-- ===== src/Admin/Editing/Listeners.antt =====
-- What an update leaves listening.
use mathlib.Core.Path.{subst}
use rvg_sever.Prelude.{
  ℕ, ◌≡◌, ◌≢◌, refl, ◌∙◌, arith, true, not, ◌==◌, if_holds, Option, none, some, Option-cases, inl,
  inr, Key, get, put, get-put, get-remove, ok, err,
}
use rvg_sever.Wire.Text.{Text}
use rvg_sever.Ports.{
  Ports, System, PortLink, Kind, tcp_kind, is_port_listening, start_tcp_port, start_uvicorn_port,
  stop_tcp_port, sync_tcp_link, sync_http_link, sync_by_kind, sync_link, Listener, http, tcp,
}
use rvg_sever.Admin.{Config, Admin, Settings, Requested, port_link, is_mtproto as is_mtproto_text}
use rvg_sever.Admin.Creation.{Numbers, Started, runs, occupied, broken}
use rvg_sever.Admin.Editing.{
  Reply, Edit, port_of, check_port, check_read, requested_port, sync_changed, bool_eq,
  snapshot_port, start_action, restart_action, mtproto_action, move_group, edit_head, edit_tail,
  edit_on, edit_settled, update_link,
}

module _ ⦃by_port : Key ℕ⦄ where
  start_tcp_port-keeps :
      (w : System) (port p : ℕ) (server : Listener) (s : Ports)
      → is_port_listening p s ≡ true
      → is_port_listening p (start_tcp_port w port server s).1 ≡ true
  unfolding is_port_listening start_tcp_port
  start_tcp_port-keeps w port p server s h = ground (arith, h, get-put port p server s.tcp_servers)

  start_uvicorn_port-keeps :
      (w : System) (port p : ℕ) (s : Ports)
      → is_port_listening p s ≡ true
      → is_port_listening p (start_uvicorn_port w port s).1 ≡ true
  unfolding is_port_listening start_uvicorn_port
  start_uvicorn_port-keeps w port p s h = ground (arith, h, get-put port p http s.uvicorn_servers)

  stop_tcp_port-keeps :
      (port p : ℕ) (s : Ports)
      → p ≢ port
      → is_port_listening p s ≡ true
      → is_port_listening p (stop_tcp_port port s).1 ≡ true
  unfolding is_port_listening stop_tcp_port
  stop_tcp_port-keeps port p s other h = ground (arith, h, other, get-remove port p s.tcp_servers)

  sync_by_kind-keeps :
      (w : System) (kind : Option Kind) (link : PortLink) (uid : Text) (panel_port p : ℕ)
      (s : Ports)
      → p ≢ link.listen_port
      → is_port_listening p s ≡ true
      → is_port_listening p (sync_by_kind w kind link uid panel_port s) ≡ true
  unfolding sync_by_kind sync_tcp_link sync_http_link
  sync_by_kind-keeps w (some kind) link uid panel_port p s other h =
      if_holds (λ k. is_port_listening p k ≡ true) _
        (start_tcp_port-keeps w link.listen_port p (tcp kind uid) s h)
        (stop_tcp_port-keeps link.listen_port p s other h)
  sync_by_kind-keeps w none link uid panel_port p s other h =
      if_holds (λ k. is_port_listening p k ≡ true) _
        (start_uvicorn_port-keeps w link.listen_port p s h) h

  sync_link-keeps :
      (w : System) (link : PortLink) (uid : Text) (panel_port p : ℕ) (s : Ports)
      → p ≢ link.listen_port
      → is_port_listening p s ≡ true
      → is_port_listening p (sync_link w link uid panel_port s) ≡ true
  unfolding sync_link
  sync_link-keeps w link uid panel_port p s other h =
      if_holds (λ k. is_port_listening p k ≡ true) _ h
        (sync_by_kind-keeps w (tcp_kind link.protocol) link uid panel_port p s other h)

module _ ⦃by_text : Key Text⦄ ⦃by_port : Key ℕ⦄ where
  sync_changed-keeps :
      (w : System) (c : Settings) (uid : Text) (old p : ℕ) (d : Config) (v : Admin)
      → p ≢ d.listen_port
      → is_port_listening p v.ports ≡ true
      → is_port_listening p (sync_changed w c uid old d v).ports ≡ true
  unfolding sync_changed port_link
  sync_changed-keeps w c uid old p d v other h =
      if_holds (λ (k : Admin). is_port_listening p k.ports ≡ true) _ h
        (sync_link-keeps w (port_link d) uid c.port p v.ports other h)

  ports-start_action :
      (uid : Text) (d : Config) (s : Started) (v : Admin)
      → (start_action uid d s v).1.ports ≡ v.ports
  ports-start_action uid d (runs i) v = refl
  ports-start_action uid d occupied v = refl
  ports-start_action uid d broken v = refl

  ports-restart_action :
      (uid : Text) (d : Config) (s : Started) (v : Admin)
      → (restart_action uid d s v).1.ports ≡ v.ports
  ports-restart_action uid d (runs i) v = refl
  ports-restart_action uid d occupied v = refl
  ports-restart_action uid d broken v = refl

  ports-mtproto_action :
      (start_instance : ℕ → Started) (uid : Text) (before d : Config) (v : Admin)
      → (mtproto_action start_instance uid before d v).1.ports ≡ v.ports
  unfolding mtproto_action
  ports-mtproto_action start_instance uid before d v =
      let P = λ (r : Reply × Admin). r.1.ports ≡ v.ports in
      if_holds P (not (is_mtproto_text d.protocol)) refl (
        if_holds P (not (bool_eq before.active d.active))
          (if_holds P d.active (ports-start_action uid d (start_instance (snapshot_port before)) v)
            refl)
          (if_holds P (before.listen_port == d.listen_port) refl
            (ports-restart_action uid d (start_instance d.listen_port) v)))

  check_port-eq-ok :
      (c : Settings) (uid : Text) (old new port : ℕ) (v : Admin)
      → check_port c uid old new v ≡ ok port
      → port ≡ new
  unfolding check_port
  check_port-eq-ok c uid old new port v e = ground (arith, e)

module _ (n : Numbers) ⦃by_text : Key Text⦄ ⦃by_port : Key ℕ⦄ where
  edit_on-keeps :
      (w : System) (c : Settings) (start_instance : ℕ → Started) (uid : Text) (body : Edit n)
      (before head : Config) (port p : ℕ) (v : Admin)
      → p ≢ port
      → is_port_listening p v.ports ≡ true
      → is_port_listening p (edit_on n w c start_instance uid body before head port v).1.ports
        ≡ true
  unfolding edit_tail
  edit_on-keeps w c start_instance uid body before head port p v other h =
      let d = edit_tail n body (record head { listen_port = port }) in
      let v1 = record v {
        links = put uid d v.links;
        subs = move_group uid before.sub_id body.sub_id v.subs;
      } in
      let v2 = sync_changed w c uid before.listen_port d v1 in
      rw (ports-mtproto_action start_instance uid before d v2)
        (sync_changed-keeps w c uid before.listen_port p d v1 other h)

  -- An update that asks for a port `q` of its own ends no listener but that of `q`: in particular the
  -- listener of the port that the configuration had before is left running.
  pub update_link-keeps_listening :
      (w : System) (c : Settings) (now : ℕ) (start_instance : ℕ → Started) (uid : Text)
      (body : Edit n) (raw : Requested) (p q : ℕ) (v : Admin)
      → body.listen_port ≡ some raw
      → port_of raw ≡ ok q
      → p ≢ q
      → is_port_listening p v.ports ≡ true
      → is_port_listening p (update_link n w c now start_instance uid body v).1.ports ≡ true
  unfolding update_link
  update_link-keeps_listening w c now start_instance uid body raw p q v asks reads other h =
      elim (Option-cases (get uid v.links)) [
        | inl e ↦ rw (e, update_link) h
        | inr (before, e) ↦
            let head = edit_head n now body before in
            let answer = requested_port c uid before.listen_port body.listen_port v in
            rw (e, update_link)
              (elim answer
                  as (λ r.
                    answer ≡ r
                    → is_port_listening p
                        (edit_settled n w c start_instance uid body before head r v).1.ports
                      ≡ true) [
                        | err problem ↦ λ _. h
                        | ok port ↦ λ k.
                            let asked =
                              subst (λ o. requested_port c uid before.listen_port o v ≡ ok port)
                                asks k in
                            let checked =
                              subst (λ r. check_read c uid before.listen_port r v ≡ ok port) reads
                                asked in
                            let same = check_port-eq-ok c uid before.listen_port q port v checked in
                            edit_on-keeps w c start_instance uid body before head port p v
                              (λ z. other (z ∙ same)) h
                      ]
                refl)
      ]
