-- ===== src/Admin/Creation/Success.antt =====
-- What a creation that succeeds has done.
use rvg_sever.Prelude.{ℕ, ◌≡◌, sym, Option, Key, ok, require, http_error, >>=-eq-ok, ◌>>=◌}
use rvg_sever.Wire.Text.{Text}
use rvg_sever.Wire.Strings.{chars, is_one_of, strip, lower, or_else}
use rvg_sever.Ports.{System}
use rvg_sever.Admin.{Core, core_named, core_protocols, is_mtproto, Instance, Admin, Settings}
use rvg_sever.Admin.Allocation.{allocate_listen_port}
use rvg_sever.Admin.Creation.{
  Numbers, Draws, NewLink, known_protocol, own_request, link_data, start, final_port, add_link,
  create_link,
}

module _ (n : Numbers) ⦃by_text : Key Text⦄ ⦃by_port : Key ℕ⦄ where
  -- The port and the instance of a new entry.
  pub record Created (w : System) (c : Settings) (now : ℕ) (r : Draws) (body : NewLink n)
      (v v' : Admin) : Type 0 where
    pub protocol : Text
    pub core : Core
    pub port : ℕ
    pub instance_ : Option Instance
    pub requested :
        allocate_listen_port w c protocol
          (own_request protocol body.listen_port body.mtproto_port)
          core
          v
        ≡ ok port
    pub started : start (is_mtproto protocol) (r.start_instance port) ≡ ok instance_
    pub stored :
        v'
        ≡ add_link w c r.uid
            (link_data n now r body protocol core (final_port port instance_) instance_)
            v

  ok_inj {ℓ} : {A : Type ℓ} {x y : A} → ok x ≡ ok y → x ≡ y
  ok_inj e = cc

  pub create_link-eq-ok :
      (w : System) (c : Settings) (now : ℕ) (r : Draws) (body : NewLink n) (v v' : Admin)
      → create_link n w c now r body v ≡ ok v'
      → Created w c now r body v v'
  unfolding create_link
  create_link-eq-ok w c now r body v v' e =
      let protocol = known_protocol body.protocol in
      let core = core_named (lower (strip (or_else (chars "unicorn") body.core))) in
      let request = own_request protocol body.listen_port body.mtproto_port in
      let store = λ (port : ℕ) (i : Option Instance).
        ok (add_link w c r.uid (link_data n now r body protocol core (final_port port i) i) v) in
      let begin =
        λ (port : ℕ). start (is_mtproto protocol) (r.start_instance port) >>= store port in
      let (_, _, e1) =
        >>=-eq-ok (require (is_one_of protocol (core_protocols core)) (http_error 400))
          (λ _. allocate_listen_port w c protocol request core v >>= begin) e in
      let (port, requested, e2) =
        >>=-eq-ok (allocate_listen_port w c protocol request core v) begin e1 in
      let (i, started, e3) =
        >>=-eq-ok (start (is_mtproto protocol) (r.start_instance port)) (store port) e2 in
      record {
        protocol = protocol;
        core = core;
        port = port;
        instance_ = i;
        requested = requested;
        started = started;
        stored = sym (ok_inj e3);
      }
