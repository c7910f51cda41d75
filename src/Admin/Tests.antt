-- ===== src/Admin/Tests.antt =====
-- The theorems on the panel at a small one.
use rvg_sever.Prelude.{
  ℕ, ◌*◌, ◌≡◌, refl, arith, ltb, not, ◌==◌, ◌&&◌, ◌||◌, List, [], ◌∷◌, true, false, none, some, Key,
  get, ℕ_discrete,
}
use rvg_sever.Wire.Text.{Text, text_discrete}
use rvg_sever.Wire.Strings.{chars}
use rvg_sever.Links.{never}
use rvg_sever.Ports.{System, tcp, vmess, is_port_listening}
use rvg_sever.Admin.{Admin, Config, Settings, Instance, absent, number, unicorn, has_active_port}
use rvg_sever.Admin.Allocation.Distinct.{IsDistinct}
use rvg_sever.Admin.Creation.{Numbers, runs, Draws, NewLink}
use rvg_sever.Admin.Editing.{Edit, done, update_link}
use rvg_sever.Admin.Editing.Listeners.{update_link-keeps_listening}
use rvg_sever.Admin.Deletion.{delete_link}
use rvg_sever.Admin.Deletion.Release.{delete_link_lem}
use rvg_sever.Admin.Groups.{NewGroup}
use rvg_sever.Admin.Groups.Requests.{IsInStep}
use rvg_sever.Admin.Serving.{Request, creates, creates_group, serve_all}
use rvg_sever.Admin.Serving.Grouped.{serve_all-IsInStep}
use rvg_sever.Admin.Serving.Runs.{serve_all-IsDistinct}

instance abbrev number_key : Key ℕ
number_key = record { dec = ℕ_discrete }

instance abbrev text_key : Key Text
text_key = record { dec = text_discrete }

-- Whole numbers.
abbrev numbers : Numbers
numbers = record { Number = ℕ; is_positive = λ n. ltb 0 n; scaled = λ n factor. n * factor }

abbrev settings : Settings
settings = record { port = 8000; low = 20000; high = 20010 }

abbrev system : System
system = record { is_free = λ port. true; comes_up = λ port. true }

abbrev draws : Draws
draws = record {
  uid = chars "u1";
  ss_password = chars "secret";
  reality_priv = [];
  reality_pub = [];
  reality_sid = [];
  start_instance = λ port. runs (record { port = port; secret = []; domain = [] });
}

abbrev body : NewLink numbers
body = record {
  label = some (chars "first");
  limit_value = some 3;
  limit_unit = none;
  expires_days = 30;
  note = none;
  sub_id = some (chars "g1");
  protocol = some (chars "vmess-tcp");
  alpn = none;
  fingerprint = none;
  listen_port = absent;
  mtproto_port = absent;
  core = none;
  ss_cipher = none;
  flow = none;
  sniffing = none;
  tls_cert = none;
  tls_key = none;
  security = none;
  sni = none;
  reality_priv = none;
  reality_pub = none;
  reality_sid = none;
  reality_dest = none;
}

abbrev empty : Admin
empty = record {
  links = [];
  subs = [];
  ports = record { uvicorn_servers = []; tcp_servers = []; port_errors = [] };
  vmess_users = [];
}

abbrev group : NewGroup
group = record { name = some (chars "group"); desc = none; password = none }

abbrev requests : List (Request numbers)
requests = creates_group (chars "g1") (chars "key") group ∷ creates system 100 draws body ∷ []

abbrev hash : Text → Text
hash t = t

empty-IsDistinct : IsDistinct settings empty.links
unfolding get
empty-IsDistinct = record {
  distinct = λ u u' p. absurd (omega arith);
  in_range = λ u. omega arith;
  not_panel = λ u p. absurd (omega arith);
}

obedient : (p : ℕ) (i : Instance) → draws.start_instance p ≡ runs i → i.port ≡ p
obedient p i e = ground (arith, e)

serve_all-IsDistinct_example :
    IsDistinct settings (serve_all numbers settings hash requests empty).links
serve_all-IsDistinct_example =
    serve_all-IsDistinct numbers settings hash requests empty (omega arith) (omega arith)
      (tt, (obedient, tt)) empty-IsDistinct

empty-IsInStep : IsInStep empty
unfolding get
empty-IsInStep u sid e = absurd (cc (e))

serve_all-IsInStep_example : IsInStep (serve_all numbers settings hash requests empty)
unfolding get
serve_all-IsInStep_example =
    serve_all-IsInStep numbers settings hash requests empty empty-IsInStep
      ((λ u e. cc (e)), (tt, tt))

-- A configuration with a listener of its own.
abbrev config : Config
config = record {
  label = chars "first";
  limit_bytes = 0;
  used_bytes = 0;
  alpn = chars "h2";
  fingerprint = chars "chrome";
  active = true;
  expires_at = never;
  note = [];
  sub_id = none;
  protocol = chars "vmess-tcp";
  core = unicorn;
  listen_port = 20001;
  public_port = 0;
  mtproto = none;
  ss_cipher = none;
  ss_password = none;
  flow = [];
  sniffing = true;
  tls_cert = none;
  tls_key = none;
  security = [];
  sni = [];
  reality_priv = none;
  reality_pub = none;
  reality_sid = none;
  reality_dest = none;
}

abbrev panel : Admin
panel = record {
  links = (chars "u1", config) ∷ [];
  subs = [];
  ports = record {
    uvicorn_servers = [];
    tcp_servers = (20001, tcp vmess (chars "u1")) ∷ [];
    port_errors = [];
  };
  vmess_users = chars "u1" ∷ [];
}

abbrev edit : Edit numbers
edit = record {
  active = none;
  label = none;
  note = none;
  reset_usage = false;
  limit_value = none;
  limit_unit = none;
  expires_days = none;
  alpn = none;
  fingerprint = none;
  listen_port = some (number 20002);
  security = none;
  sni = none;
  reality_priv = none;
  reality_pub = none;
  reality_sid = none;
  public_port = none;
  sub_id = none;
}

delete_link_lem_example :
    let (reply, v') = delete_link (chars "u1") panel in
    (reply ≡ done)
    × (get (chars "u1") v'.links ≡ none)
    × ((q : ℕ)
        → is_port_listening q v'.ports ≡ (
            is_port_listening q panel.ports
            && (not (q == 20001) || (20001 == 0 || has_active_port 20001 v'.links))))
unfolding get text_discrete ℕ_discrete
delete_link_lem_example = delete_link_lem (chars "u1") config panel refl

update_link-keeps_listening_example :
    is_port_listening 20001
      (update_link numbers system settings 100 draws.start_instance (chars "u1") edit panel).1.ports
    ≡ true
unfolding get is_port_listening text_discrete ℕ_discrete
update_link-keeps_listening_example =
    update_link-keeps_listening numbers system settings 100 draws.start_instance (chars "u1") edit
      (number 20002) 20001 20002 panel refl refl (omega arith) refl
