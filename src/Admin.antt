-- ===== src/Admin.antt =====
-- The panel of main.py: its configurations, their groups and the ports that they get. A handler runs to
-- its end before the next; what it spawns runs right behind it.
pub mod Allocation
pub mod Creation
pub mod Editing
pub mod Deletion
pub mod Groups
pub mod Serving
mod Tests
use rvg_sever.Prelude.{
  ℕ, ◌+◌, ◌*◌, List, [], ◌∷◌, Bool, true, false, not, ◌==◌, ◌&&◌, ◌||◌, leb, if◌then◌else◌, Option,
  none, some, Key, Dict, get, put, remove,
}
use rvg_sever.Wire.Text.{Text}
use rvg_sever.Wire.Strings.{chars, same_text, is_one_of, starts_with}
use rvg_sever.Links.{Expiry, never, at}
use rvg_sever.Ports
use rvg_sever.Ports.{Ports, PortLink}

-- Which core serves a configuration.
pub data Core : Type 0 where
  unicorn xray singbox : Core

abbrev pub is_unicorn : Core → Bool
is_unicorn unicorn = true
is_unicorn _ = false

unfoldable pub core_named : Text → Core
core_named name =
    if same_text name (chars "xray")
    then xray
    else if same_text name (chars "singbox")
    then singbox
    else unicorn

-- PROTOCOLS, CORE_PROTOCOL_SUPPORTED and OWN_PORT_PROTOCOLS
abbrev pub protocols : List Text
protocols =
    chars "vless-ws"
    ∷ chars "vless-httpupgrade"
    ∷ chars "xhttp-packet-up"
    ∷ chars "xhttp-stream-up"
    ∷ chars "trojan-ws"
    ∷ chars "trojan-httpupgrade"
    ∷ chars "trojan-xhttp-packet-up"
    ∷ chars "trojan-xhttp-stream-up"
    ∷ chars "vmess-ws"
    ∷ chars "vmess-httpupgrade"
    ∷ chars "vmess-tcp"
    ∷ chars "mtproto"
    ∷ chars "shadowsocks"
    ∷ chars "shadowsocks-tcp"
    ∷ chars "vless"
    ∷ chars "vmess"
    ∷ chars "trojan"
    ∷ chars "shadowsocks"
    ∷ chars "hysteria2"
    ∷ chars "hysteria"
    ∷ chars "tuic"
    ∷ chars "mixed"
    ∷ chars "http"
    ∷ chars "socks"
    ∷ []

abbrev pub core_protocols : Core → List Text
core_protocols unicorn =
    chars "vless-ws"
    ∷ chars "vless-httpupgrade"
    ∷ chars "xhttp-packet-up"
    ∷ chars "xhttp-stream-up"
    ∷ chars "trojan-ws"
    ∷ chars "trojan-httpupgrade"
    ∷ chars "trojan-xhttp-packet-up"
    ∷ chars "trojan-xhttp-stream-up"
    ∷ chars "vmess-ws"
    ∷ chars "vmess-httpupgrade"
    ∷ chars "vmess-tcp"
    ∷ chars "mtproto"
    ∷ chars "shadowsocks"
    ∷ chars "shadowsocks-tcp"
    ∷ []
core_protocols xray =
    chars "vless"
    ∷ chars "vmess"
    ∷ chars "trojan"
    ∷ chars "shadowsocks"
    ∷ chars "socks"
    ∷ chars "http"
    ∷ chars "vless-ws"
    ∷ chars "vless-httpupgrade"
    ∷ chars "vless-xhttp-packet-up"
    ∷ chars "vless-xhttp-stream-up"
    ∷ chars "vmess-ws"
    ∷ chars "vmess-httpupgrade"
    ∷ chars "trojan-ws"
    ∷ chars "trojan-httpupgrade"
    ∷ chars "trojan-xhttp-packet-up"
    ∷ chars "trojan-xhttp-stream-up"
    ∷ chars "shadowsocks"
    ∷ []
core_protocols singbox =
    chars "vless"
    ∷ chars "vmess"
    ∷ chars "trojan"
    ∷ chars "shadowsocks"
    ∷ chars "mixed"
    ∷ chars "http"
    ∷ chars "socks"
    ∷ chars "hysteria2"
    ∷ chars "hysteria"
    ∷ chars "tuic"
    ∷ chars "vless-ws"
    ∷ chars "vless-httpupgrade"
    ∷ chars "vmess-ws"
    ∷ chars "vmess-httpupgrade"
    ∷ chars "trojan-ws"
    ∷ chars "trojan-httpupgrade"
    ∷ chars "shadowsocks"
    ∷ []

abbrev pub own_port_protocols : List Text
own_port_protocols = chars "vmess-tcp" ∷ chars "shadowsocks-tcp" ∷ chars "mtproto" ∷ []

abbrev pub default_protocol : Text
default_protocol = chars "vless-ws"

abbrev pub is_mtproto : Text → Bool
is_mtproto protocol = same_text protocol (chars "mtproto")

-- A running MTProto instance, as `start_instance` describes it.
pub record Instance : Type 0 where
  pub port : ℕ
  pub secret : Text
  pub domain : Text

-- An entry of LINKS, without its creation time.
pub record Config : Type 0 where
  pub label : Text
  pub limit_bytes : ℕ
  pub used_bytes : ℕ
  pub alpn : Text
  pub fingerprint : Text
  pub active : Bool
  pub expires_at : Expiry
  pub note : Text
  pub sub_id : Option Text
  pub protocol : Text
  pub core : Core
  pub listen_port : ℕ
  pub public_port : ℕ
  pub mtproto : Option Instance
  pub ss_cipher : Option Text
  pub ss_password : Option Text
  pub flow : Text
  pub sniffing : Bool
  pub tls_cert : Option Text
  pub tls_key : Option Text
  pub security : Text
  pub sni : Text
  pub reality_priv : Option Text
  pub reality_pub : Option Text
  pub reality_sid : Option Text
  pub reality_dest : Option Text

-- An entry of SUBS.
pub record Group : Type 0 where
  pub name : Text
  pub desc : Text
  pub password_hash : Option Text
  pub uuid_key : Text
  pub link_ids : List Text
  pub node_link_ids : List Text

-- LINKS, SUBS, the listeners of port_manager.py, and the users of the VMess validator.
pub record Admin : Type 0 where
  pub links : Dict Text Config
  pub subs : Dict Text Group
  pub ports : Ports
  pub vmess_users : List Text

-- CONFIG["port"] and CONFIG["port_range"]
pub record Settings : Type 0 where
  pub port : ℕ
  pub low : ℕ
  pub high : ℕ

-- A port in a request: missing, empty or 0; not a number; negative; or a number.
pub data Requested : Type 0 where
  absent unreadable negative : Requested
  number : ℕ → Requested

-- The link as port_manager.py reads it.
unfoldable pub port_protocol : Text → Ports.Protocol
port_protocol protocol =
    if same_text protocol (chars "vmess-tcp")
    then Ports.vmess_tcp
    else if same_text protocol (chars "shadowsocks-tcp")
    then Ports.shadowsocks_tcp
    else if is_mtproto protocol
    then Ports.mtproto
    else Ports.other

unfoldable pub port_link : Config → PortLink
unfolding port_protocol
port_link d = record {
  core = if is_unicorn d.core then Ports.unicorn else Ports.external;
  protocol = port_protocol d.protocol;
  active = d.active;
  listen_port = d.listen_port;
}

-- Whether a configuration has the port, or an active one.
unfoldable pub has_port : ℕ → Dict Text Config → Bool
has_port p [] = false
has_port p ((_, d) ∷ links) = d.listen_port == p || has_port p links

unfoldable pub has_active_port : ℕ → Dict Text Config → Bool
has_active_port p [] = false
has_active_port p ((_, d) ∷ links) = (d.listen_port == p && d.active) || has_active_port p links

-- `uid not in ids` before it is appended; ids.remove(uid)
unfoldable pub append_new : Text → List Text → List Text
append_new uid [] = uid ∷ []
append_new uid (x ∷ xs) =
    let rest = append_new uid xs in if same_text uid x then x ∷ xs else x ∷ rest

unfoldable pub remove_first : Text → List Text → List Text
remove_first uid [] = []
remove_first uid (x ∷ xs) =
    let rest = remove_first uid xs in if same_text uid x then xs else x ∷ rest

module _ ⦃by_text : Key Text⦄ where
  -- A change of the ids of a group, if there is one.
  abbrev pub change_group :
      Text → (Group → Group) → Option Group → Dict Text Group → Dict Text Group
  change_group sid f none subs = subs
  change_group sid f (some g) subs = put sid (f g) subs

  unfoldable pub add_to_group : Text → Text → Dict Text Group → Dict Text Group
  unfolding append_new
  add_to_group sid uid subs =
      change_group sid (λ g. record g { link_ids = append_new uid g.link_ids }) (get sid subs) subs

  unfoldable pub remove_from_group : Text → Text → Dict Text Group → Dict Text Group
  unfolding remove_first
  remove_from_group sid uid subs =
      change_group sid (λ g. record g { link_ids = remove_first uid g.link_ids }) (get sid subs)
        subs

  -- The group that an entry leaves, and the one that it joins.
  abbrev pub leave : Text → Option Text → Dict Text Group → Dict Text Group
  leave uid none subs = subs
  leave uid (some sid) subs = remove_from_group sid uid subs

  abbrev pub join : Text → Option Text → Dict Text Group → Dict Text Group
  join uid none subs = subs
  join uid (some sid) subs = add_to_group sid uid subs
