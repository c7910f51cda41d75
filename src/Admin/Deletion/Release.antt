-- ===== src/Admin/Deletion/Release.antt =====
-- What a deletion leaves listening.
use rvg_sever.Prelude.{
  ℕ, ◌≡◌, refl, sym, ap, ◌∙◌, arith, Bool, true, false, not, ◌==◌, ◌&&◌, ◌||◌, if◌then◌else◌, none,
  some, if_holds, Bool-cases, inl, inr, Key, get, get-remove,
}
use rvg_sever.Wire.Text.{Text}
use rvg_sever.Ports.{Ports, is_port_listening, stop_tcp_port, stop_uvicorn_port}
use rvg_sever.Admin.{Config, Admin, has_active_port}
use rvg_sever.Admin.Editing.{done}
use rvg_sever.Admin.Deletion.{release_port_if_unused, delete_link}

and_true : (a b : Bool) → a ≡ (a && (b || true))
and_true a b = ground arith

or_false : (b : Bool) → b ≡ (b || false)
or_false b = ground arith

module _ ⦃by_port : Key ℕ⦄ where
  is_port_listening-stop :
      (p q : ℕ) (s : Ports)
      → is_port_listening q (stop_uvicorn_port p (stop_tcp_port p s).1).1
        ≡ (is_port_listening q s && not (q == p))
  unfolding is_port_listening stop_uvicorn_port stop_tcp_port
  is_port_listening-stop p q s =
      ground (arith, get-remove p q s.tcp_servers, get-remove p q s.uvicorn_servers)

module _ ⦃by_text : Key Text⦄ ⦃by_port : Key ℕ⦄ where
  is_port_listening-release :
      (p q : ℕ) (v : Admin)
      → is_port_listening q (release_port_if_unused p v).ports
        ≡ (is_port_listening q v.ports && (not (q == p) || has_active_port p v.links))
  unfolding release_port_if_unused
  is_port_listening-release p q v = elim (Bool-cases (has_active_port p v.links)) [
    | inl e ↦ rw e (and_true (is_port_listening q v.ports) (not (q == p)))
    | inr e ↦ rw e (
        is_port_listening-stop p q v.ports
        ∙ ap (λ b. is_port_listening q v.ports && b) (or_false (not (q == p))))
  ]

  links-release : (p : ℕ) (v : Admin) → (release_port_if_unused p v).links ≡ v.links
  unfolding release_port_if_unused
  links-release p v =
      if_holds (λ (k : Admin). k.links ≡ v.links) (has_active_port p v.links) refl refl

  -- The release of a port, where it is one.
  abbrev released : ℕ → Admin → Admin
  released p v = if p == 0 then v else release_port_if_unused p v

  links-released : (p : ℕ) (v : Admin) → (released p v).links ≡ v.links
  links-released p v = if_holds (λ (k : Admin). k.links ≡ v.links) (p == 0) refl (links-release p v)

  is_port_listening-released :
      (p q : ℕ) (v : Admin)
      → is_port_listening q (released p v).ports
        ≡ (is_port_listening q v.ports && (not (q == p) || (p == 0 || has_active_port p v.links)))
  is_port_listening-released p q v = elim (Bool-cases (p == 0)) [
    | inl z ↦ rw z (and_true (is_port_listening q v.ports) (not (q == p)))
    | inr z ↦ rw z (is_port_listening-release p q v)
  ]

  -- The deletion of a configuration that exists takes it off LINKS, and ends the listener of its own port,
  -- if it has one, just when no other active configuration has that port; every other port is listened on
  -- as before.
  pub delete_link_lem :
      (uid : Text) (d : Config) (v : Admin)
      → get uid v.links ≡ some d
      → let (reply, v') = delete_link uid v in
        (reply ≡ done)
        × (get uid v'.links ≡ none)
        × ((q : ℕ)
            → is_port_listening q v'.ports ≡ (
                is_port_listening q v.ports
                && (not (q == d.listen_port)
                    || (d.listen_port == 0 || has_active_port d.listen_port v'.links))))
  unfolding delete_link
  delete_link_lem uid d v e =
      rw (e, delete_link)
        (
          refl,
          ap (get uid) (links-released d.listen_port _)
              ∙ ground (arith, get-remove uid uid v.links),
          λ q.
              is_port_listening-released d.listen_port q _
              ∙ ap
                  (λ k.
                    is_port_listening q v.ports
                    && (not (q == d.listen_port)
                        || (d.listen_port == 0 || has_active_port d.listen_port k)))
                  (sym (links-released d.listen_port _)),
        )
