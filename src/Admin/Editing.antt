-- ===== src/Admin/Editing.antt =====
-- `update_link` of main.py: the entry is changed in place, so what stands in front of an error stays.
pub mod Listeners
pub mod Distinct
use rvg_sever.Prelude.{
  ℕ, ◌+◌, List, [], ◌∷◌, Bool, true, false, not, ◌==◌, ◌&&◌, ◌||◌, leb, if◌then◌else◌, Option, none,
  some, ite, Key, Dict, get, put, remove, Result, ok, err, Error, http_error,
}
use rvg_sever.Wire.Text.{Text}
use rvg_sever.Wire.Strings.{chars, same_text, strip, lower, or_else}
use rvg_sever.Links.{Expiry}
use rvg_sever.Ports.{System, sync_link, is_port_listening}
use rvg_sever.Admin.{
  is_unicorn, is_mtproto, Instance, Config, Group, Admin, Settings, Requested, absent, unreadable,
  negative, number, port_link, leave, join,
}
use rvg_sever.Admin.Creation.{
  Numbers, Started, runs, occupied, broken, cut, known_fingerprint, known_security, nonempty,
  expiry_in, limit_of, is_empty, final_port,
}

-- How a request is answered.
pub data Reply : Type 0 where
  done : Reply
  refused : ℕ → Reply

abbrev pub or_old {ℓ} : {A : Type ℓ} → Option A → A → A
or_old none old = old
or_old (some new) old = new

abbrev pub bool_eq : Bool → Bool → Bool
bool_eq true b = b
bool_eq false b = not b

-- if alpn_val: link["alpn"] = alpn_val
abbrev pub unless_empty : Text → Text → Text
unless_empty [] old = old
unless_empty (c ∷ t) old = c ∷ t

-- if body.get(key): link[key] = str(body[key]).strip()[:100]
abbrev pub replace_key : Option Text → Option Text → Option Text
replace_key none old = old
replace_key (some []) old = old
replace_key (some (c ∷ t)) old = some (cut 100 (strip (c ∷ t)))

-- int(raw) if raw not in (None, "", 0, "0") else 0
abbrev pub port_of : Requested → Result ℕ
port_of absent = ok 0
port_of unreadable = err (http_error 400)
port_of negative = err (http_error 400)
port_of (number p) = if leb 1 p && leb p 65535 then ok p else err (http_error 400)

abbrev pub code_of : Error → ℕ
code_of (http_error code) = code
code_of _ = 500

abbrev pub changed {ℓ κ} : {A : Type ℓ} {B : Type κ} → Option A → (A → B) → B → B
changed none f old = old
changed (some a) f old = f a

module _ ⦃by_text : Key Text⦄ where
  -- if new_sub != "UNCHANGED"
  abbrev pub move_group :
      Text → Option Text → Option (Option Text) → Dict Text Group → Dict Text Group
  move_group uid old none subs = subs
  move_group uid old (some new) subs = join uid (nonempty new) (leave uid old subs)

module _ ⦃by_text : Key Text⦄ ⦃by_port : Key ℕ⦄ where
  -- Whether another entry has the port.
  unfoldable pub other_has_port : Text → ℕ → Dict Text Config → Bool
  other_has_port uid p [] = false
  other_has_port uid p ((u, d) ∷ links) =
      ite (by_text.dec u uid) false (d.listen_port == p) || other_has_port uid p links

  -- The new port, and whether it changes; an error where it cannot be had.
  unfoldable pub check_port : Settings → Text → ℕ → ℕ → Admin → Result ℕ
  unfolding other_has_port is_port_listening
  check_port c uid old new v =
      if new == old
      then ok new
      else if new == 0
      then ok new
      else if other_has_port uid new v.links || new == c.port || is_port_listening new v.ports
      then err (http_error 409)
      else ok new

  abbrev pub check_read : Settings → Text → ℕ → Result ℕ → Admin → Result ℕ
  check_read c uid old (err e) v = err e
  check_read c uid old (ok new) v = check_port c uid old new v

  abbrev pub requested_port : Settings → Text → ℕ → Option Requested → Admin → Result ℕ
  requested_port c uid old none v = ok old
  requested_port c uid old (some raw) v = check_read c uid old (port_of raw) v

  -- A new port's listener; MTProto's own process has its port.
  unfoldable pub sync_changed : System → Settings → Text → ℕ → Config → Admin → Admin
  unfolding sync_link
  sync_changed w c uid old d v =
      if d.listen_port == old || is_mtproto d.protocol
      then v
      else record v { ports = sync_link w (port_link d) uid c.port v.ports }

  -- What a started instance writes into the entry; without a domain it has the default one.
  abbrev pub with_instance : Instance → Config → Config
  with_instance i d = record d {
    mtproto = elim d.mtproto [ none ↦ some i | some old ↦ some (record i { domain = old.domain }) ];
    listen_port = final_port d.listen_port (some i);
  }

  abbrev pub start_action : Text → Config → Started → Admin → Reply × Admin
  start_action uid d (runs i) v = (done, record v { links = put uid (with_instance i d) v.links })
  start_action uid d _ v =
      (refused 502, record v { links = put uid (record d { active = false }) v.links })

  abbrev pub restart_action : Text → Config → Started → Admin → Reply × Admin
  restart_action uid d (runs i) v = (done, record v { links = put uid (with_instance i d) v.links })
  restart_action uid d _ v = (refused 502, v)

  -- snap.get("listen_port") or snap.get("mtproto_port"), of the entry before its port was changed
  abbrev pub snapshot_port : Config → ℕ
  snapshot_port d =
      if d.listen_port == 0 then elim d.mtproto [ none ↦ 0 | some i ↦ i.port ] else d.listen_port

  -- MTProto is stopped, started, restarted on another port, or left alone.
  unfoldable pub mtproto_action : (ℕ → Started) → Text → Config → Config → Admin → Reply × Admin
  mtproto_action start_instance uid before d v =
      if not (is_mtproto d.protocol)
      then (done, v)
      else if not (bool_eq before.active d.active)
      then (if d.active
          then start_action uid d (start_instance (snapshot_port before)) v
          else (done, v))
      else if before.listen_port == d.listen_port
      then (done, v)
      else restart_action uid d (start_instance d.listen_port) v

module _ (n : Numbers) where
  open n use {Number}

  -- The body of an update: a missing key is `none`. A public port is missing, no number, or not negative.
  pub record Edit : Type 0 where
    pub active : Option Bool
    pub label : Option Text
    pub note : Option Text
    pub reset_usage : Bool
    pub limit_value : Option (Option Number)
    pub limit_unit : Option Text
    pub expires_days : Option ℕ
    pub alpn : Option Text
    pub fingerprint : Option Text
    pub listen_port : Option Requested
    pub security : Option Text
    pub sni : Option Text
    pub reality_priv : Option Text
    pub reality_pub : Option Text
    pub reality_sid : Option Text
    pub public_port : Option ℕ
    pub sub_id : Option (Option Text)

  abbrev pub new_limit : Option (Option Number) → Option Text → ℕ → ℕ
  new_limit none unit old = old
  new_limit (some value) unit old = limit_of n value unit

  abbrev pub new_expiry : ℕ → Option ℕ → Expiry → Expiry
  new_expiry now none old = old
  new_expiry now (some days) old = expiry_in now days

  -- The keys that are read in front of the port.
  unfoldable pub edit_head : ℕ → Edit → Config → Config
  edit_head now body d = record d {
    active = or_old body.active d.active;
    label = changed body.label (cut 60) d.label;
    note = changed body.note (cut 200) d.note;
    used_bytes = if body.reset_usage then 0 else d.used_bytes;
    limit_bytes = new_limit body.limit_value body.limit_unit d.limit_bytes;
    expires_at = new_expiry now body.expires_days d.expires_at;
    alpn = changed body.alpn (λ t. unless_empty (cut 60 (strip t)) d.alpn) d.alpn;
    fingerprint = changed body.fingerprint (λ t. known_fingerprint (strip t)) d.fingerprint;
  }

  -- The keys that are read behind it.
  unfoldable pub edit_tail : Edit → Config → Config
  edit_tail body d = record d {
    security = changed body.security (λ t. known_security (lower (strip t))) d.security;
    sni = changed body.sni (λ t. cut 253 (strip t)) d.sni;
    reality_priv = replace_key body.reality_priv d.reality_priv;
    reality_pub = replace_key body.reality_pub d.reality_pub;
    reality_sid = changed body.reality_sid (λ t. some (cut 16 (strip t))) d.reality_sid;
    public_port = or_old body.public_port d.public_port;
    sub_id = changed body.sub_id nonempty d.sub_id;
  }

  module _ ⦃by_text : Key Text⦄ ⦃by_port : Key ℕ⦄ where
    -- Where the port is settled.
    abbrev pub edit_on :
        System
        → Settings
        → (ℕ → Started)
        → Text
        → Edit
        → Config
        → Config
        → ℕ
        → Admin
        → Reply × Admin
    edit_on w c start_instance uid body before head port v =
        let d = edit_tail body (record head { listen_port = port }) in
        let v' = record v {
          links = put uid d v.links;
          subs = move_group uid before.sub_id body.sub_id v.subs;
        } in
        mtproto_action start_instance uid before d (sync_changed w c uid before.listen_port d v')

    -- Where the port cannot be had, what was read in front of it stays.
    abbrev pub edit_settled :
        System
        → Settings
        → (ℕ → Started)
        → Text
        → Edit
        → Config
        → Config
        → Result ℕ
        → Admin
        → Reply × Admin
    edit_settled w c start_instance uid body before head (err e) v =
        (refused (code_of e), record v { links = put uid head v.links })
    edit_settled w c start_instance uid body before head (ok port) v =
        edit_on w c start_instance uid body before head port v

    abbrev pub edit_found :
        System → Settings → ℕ → (ℕ → Started) → Text → Edit → Option Config → Admin → Reply × Admin
    edit_found w c now start_instance uid body none v = (refused 404, v)
    edit_found w c now start_instance uid body (some before) v =
        edit_settled w c start_instance uid body before (edit_head now body before)
          (requested_port c uid before.listen_port body.listen_port v) v

    unfoldable pub update_link :
        System → Settings → ℕ → (ℕ → Started) → Text → Edit → Admin → Reply × Admin
    unfolding edit_head edit_tail check_port sync_changed mtproto_action
    update_link w c now start_instance uid body v =
        edit_found w c now start_instance uid body (get uid v.links) v
