-- ===== src/Admin/Creation.antt =====
-- `_create_link_core` of main.py. The body of a request has the fields that the code reads, typed as it
-- uses them; numbers are JSON's, so their type is a parameter.
pub mod Success
use rvg_sever.Prelude.{
  ℕ, ◌+◌, ◌*◌, List, [], ◌∷◌, ◌++◌, Bool, true, false, not, ◌==◌, ◌&&◌, ◌||◌, if◌then◌else◌, Option,
  none, some, take, Key, Dict, get, put, remove, Result, ok, err, http_error, require, ◌>>=◌, ◌>>◌,
}
use rvg_sever.Wire.Text.{Text}
use rvg_sever.Wire.Strings.{chars, same_text, is_one_of, strip, lower, upper, or_else, starts_with}
use rvg_sever.Links.{Expiry, never, at}
use rvg_sever.Ports.{System, sync_link}
use rvg_sever.Admin.{
  Core, unicorn, core_named, is_unicorn, protocols, core_protocols, default_protocol, is_mtproto,
  Instance, Config, Admin, Settings, Requested, absent, port_link, append_new, join,
}
use rvg_sever.Admin.Allocation.{allocate_listen_port}

-- The numbers of a request: `value > 0`, and `int(value * factor)`.
pub record Numbers : Type 1 where
  pub Number : Type 0
  pub is_positive : Number → Bool
  pub scaled : Number → ℕ → ℕ

-- How `mtproto.start_instance` ends.
pub data Started : Type 0 where
  runs : Instance → Started
  occupied broken : Started

-- What a creation draws at random, and what it is answered: the uuid, a password, REALITY keys and a short
-- id, and the MTProto instance on a port.
pub record Draws : Type 0 where
  pub uid : Text
  pub ss_password : Text
  pub reality_priv : Text
  pub reality_pub : Text
  pub reality_sid : Text
  pub start_instance : ℕ → Started

abbrev pub cut : ℕ → Text → Text
cut = take

-- fp_val if fp_val in ("chrome", "firefox", "ios") else "chrome"
unfoldable pub known_fingerprint : Text → Text
known_fingerprint fp =
    if is_one_of fp (chars "chrome" ∷ chars "firefox" ∷ chars "ios" ∷ [])
    then fp
    else chars "chrome"

unfoldable pub known_security : Text → Text
known_security s = if is_one_of s (chars "none" ∷ chars "tls" ∷ chars "reality" ∷ []) then s else []

unfoldable pub known_protocol : Option Text → Text
known_protocol name =
    let protocol = or_else default_protocol name in
    if is_one_of protocol protocols then protocol else default_protocol

-- A group's id, where it is not empty.
abbrev pub nonempty : Option Text → Option Text
nonempty none = none
nonempty (some []) = none
nonempty (some (c ∷ t)) = some (c ∷ t)

abbrev pub map_text : (Text → Text) → Option Text → Option Text
map_text f none = none
map_text f (some t) = some (f t)

-- expires_days, where a negative number is as 0
unfoldable pub expiry_in : ℕ → ℕ → Expiry
expiry_in now days = if days == 0 then never else at (now + days * 86400)

abbrev pub own_request : Text → Requested → Requested → Requested
own_request protocol absent mtproto_port = if is_mtproto protocol then mtproto_port else absent
own_request protocol requested mtproto_port = requested

-- The port of the instance replaces one that was allocated.
abbrev pub final_port : ℕ → Option Instance → ℕ
final_port port none = port
final_port port (some i) = if port == 0 then port else i.port

abbrev pub trimmed : ℕ → Option Text → Text
trimmed length t = cut length (strip (or_else [] t))

abbrev pub is_shadowsocks : Text → Bool
is_shadowsocks protocol = is_one_of protocol (chars "shadowsocks" ∷ chars "shadowsocks-tcp" ∷ [])

abbrev pub default_cipher : Text
default_cipher = chars "chacha20-ietf-poly1305"

unfoldable pub known_cipher : Option Text → Text
known_cipher name =
    let cipher = or_else default_cipher name in
    if is_one_of cipher (default_cipher ∷ chars "aes-256-gcm" ∷ []) then cipher else default_cipher

abbrev pub is_empty : Text → Bool
is_empty [] = true
is_empty (c ∷ t) = false

abbrev pub new_label : Text
new_label = 1604 ∷ 1740 ∷ 1606 ∷ 1705 ∷ 32 ∷ 1580 ∷ 1583 ∷ 1740 ∷ 1583 ∷ []

-- What only a REALITY configuration has.
abbrev pub on_reality : Text → Text → Option Text
on_reality security t = if same_text security (chars "reality") then some t else none

abbrev pub or_true : Option Bool → Bool
or_true none = true
or_true (some b) = b

-- The instance of an MTProto configuration.
abbrev pub start : Bool → Started → Result (Option Instance)
start false _ = ok none
start true (runs i) = ok (some i)
start true occupied = err (http_error 409)
start true broken = err (http_error 502)

module _ ⦃by_text : Key Text⦄ ⦃by_port : Key ℕ⦄ where
  -- The entry is stored, its listener started, and its group told.
  unfoldable pub add_link : System → Settings → Text → Config → Admin → Admin
  unfolding sync_link append_new
  add_link w c uid d v = record {
    links = put uid d v.links;
    subs = join uid d.sub_id v.subs;
    ports = if is_unicorn d.core then sync_link w (port_link d) uid c.port v.ports else v.ports;
    vmess_users =
        if starts_with d.protocol (chars "vmess")
        then append_new uid v.vmess_users
        else v.vmess_users;
  }

module _ (n : Numbers) where
  open n use {Number, is_positive, scaled}

  unfoldable pub parse_size_to_bytes : Number → Text → ℕ
  parse_size_to_bytes value unit =
      let u = upper unit in
      if same_text u (chars "GB")
      then scaled value (1024 * 1024 * 1024)
      else if same_text u (chars "MB")
      then scaled value (1024 * 1024)
      else if same_text u (chars "KB")
      then scaled value 1024
      else scaled value 1

  unfoldable pub limit_of : Option Number → Option Text → ℕ
  unfolding parse_size_to_bytes
  limit_of none unit = 0
  limit_of (some value) unit =
      if is_positive value then parse_size_to_bytes value (or_else (chars "GB") unit) else 0

  -- The body of a creation.
  pub record NewLink : Type 0 where
    pub label : Option Text
    pub limit_value : Option Number
    pub limit_unit : Option Text
    pub expires_days : ℕ
    pub note : Option Text
    pub sub_id : Option Text
    pub protocol : Option Text
    pub alpn : Option Text
    pub fingerprint : Option Text
    pub listen_port : Requested
    pub mtproto_port : Requested
    pub core : Option Text
    pub ss_cipher : Option Text
    pub flow : Option Text
    pub sniffing : Option Bool
    pub tls_cert : Option Text
    pub tls_key : Option Text
    pub security : Option Text
    pub sni : Option Text
    pub reality_priv : Option Text
    pub reality_pub : Option Text
    pub reality_sid : Option Text
    pub reality_dest : Option Text

  -- Whether the request has both REALITY keys; otherwise both are new.
  unfoldable pub has_keys : NewLink → Bool
  has_keys body =
      not (is_empty (strip (or_else [] body.reality_priv)))
      && not (is_empty (strip (or_else [] body.reality_pub)))

  -- The entry, with the port that it was given and its MTProto instance.
  unfoldable pub link_data : ℕ → Draws → NewLink → Text → Core → ℕ → Option Instance → Config
  link_data now r body protocol core port instance_ =
      let security = known_security (lower (strip (or_else [] body.security))) in
      record {
        label = cut 60 (strip (or_else new_label body.label));
        limit_bytes = limit_of body.limit_value body.limit_unit;
        used_bytes = 0;
        alpn = cut 60 (strip (or_else (chars "h2,http/1.1") body.alpn));
        fingerprint =
            known_fingerprint (cut 20 (strip (or_else (chars "chrome") body.fingerprint)));
        active = true;
        expires_at = expiry_in now body.expires_days;
        note = trimmed 200 body.note;
        sub_id = nonempty body.sub_id;
        protocol = protocol;
        core = core;
        listen_port = port;
        public_port = 0;
        mtproto = instance_;
        ss_cipher = if is_shadowsocks protocol then some (known_cipher body.ss_cipher) else none;
        ss_password = if is_shadowsocks protocol then some r.ss_password else none;
        flow = trimmed 40 body.flow;
        sniffing = or_true body.sniffing;
        tls_cert = map_text (λ t. cut 300 (strip t)) (nonempty body.tls_cert);
        tls_key = map_text (λ t. cut 300 (strip t)) (nonempty body.tls_key);
        security = security;
        sni = trimmed 253 body.sni;
        reality_priv =
            on_reality security
              (if has_keys body then strip (or_else [] body.reality_priv) else r.reality_priv);
        reality_pub =
            on_reality security
              (if has_keys body then strip (or_else [] body.reality_pub) else r.reality_pub);
        reality_sid = on_reality security (cut 16 (strip (or_else r.reality_sid body.reality_sid)));
        reality_dest = on_reality security (trimmed 253 body.reality_dest);
      }

  module _ ⦃by_text : Key Text⦄ ⦃by_port : Key ℕ⦄ where
    unfoldable pub create_link : System → Settings → ℕ → Draws → NewLink → Admin → Result Admin
    unfolding allocate_listen_port link_data add_link
    create_link w c now r body v = do
      let protocol = known_protocol body.protocol
      let core = core_named (lower (strip (or_else (chars "unicorn") body.core)))
      require (is_one_of protocol (core_protocols core)) (http_error 400)
      port ←
          allocate_listen_port w c protocol
            (own_request protocol body.listen_port body.mtproto_port) core v
      instance_ ← start (is_mtproto protocol) (r.start_instance port)
      ok (
          add_link w c r.uid
            (link_data now r body protocol core (final_port port instance_) instance_) v)
