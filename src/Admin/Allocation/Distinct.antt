-- ===== src/Admin/Allocation/Distinct.antt =====
-- Which port a configuration can have, and that `_allocate_listen_port` gives such a port.
use mathlib.Core.Path.{subst}
use rvg_sever.Prelude.{
  ℕ, ◌<◌, ◌≤◌, ◌≡◌, ◌≢◌, sym, ◌∙◌, arith, [], ◌∷◌, Bool, true, false, not, ◌||◌, if◌then◌else◌,
  Option, none, some, ◌⊎◌, inl, inr, Key, Dict, get, put, remove, get-put, get-remove, ite, ok,
  of_option, http_error,
}
use rvg_sever.Wire.Text.{Text}
use rvg_sever.Wire.Strings.{is_one_of}
use rvg_sever.Ports.{System, find_free_port}
use rvg_sever.Ports.Free.{Finds, is_usable, find_free_port-Finds}
use rvg_sever.Admin.{
  Core, Config, Admin, Settings, is_unicorn, own_port_protocols, Requested, absent, unreadable,
  negative, number, has_port,
}
use rvg_sever.Admin.Allocation.{is_used, pick, allocate_listen_port}

module _ ⦃by_text : Key Text⦄ where
  abbrev pub port_in : Option Config → ℕ
  port_in none = 0
  port_in (some d) = d.listen_port

  -- The port of its own that an entry has, or 0.
  abbrev pub port_at : Text → Dict Text Config → ℕ
  port_at uid links = port_in (get uid links)

  -- No two entries have the same port, and none has that of the panel.
  pub record IsDistinct (c : Settings) (links : Dict Text Config) : Type 0 where
    pub distinct : (u u' : Text) → 0 < port_at u links → port_at u links ≡ port_at u' links → u ≡ u'
    pub in_range : (u : Text) → port_at u links ≤ 65535
    pub not_panel : (u : Text) → 0 < port_at u links → port_at u links ≢ c.port

  -- A port that an entry can have beside the others.
  pub record CanHave (c : Settings) (uid : Text) (p : ℕ) (links : Dict Text Config) : Type 0 where
    pub fits : p ≤ 65535
    pub apart : 0 < p → p ≢ c.port
    pub others : (u : Text) → u ≢ uid → 0 < p → port_at u links ≢ p

  pub port_at-put :
      (uid u : Text) (d : Config) (links : Dict Text Config)
      → port_at u (put uid d links) ≡ ite (by_text.dec uid u) d.listen_port (port_at u links)
  port_at-put uid u d links = ground (arith, get-put uid u d links)

  pub put-IsDistinct :
      (c : Settings) (uid : Text) (d : Config) (links : Dict Text Config)
      → IsDistinct c links
      → CanHave c uid d.listen_port links
      → IsDistinct c (put uid d links)
  put-IsDistinct c uid d links all can = record {
    distinct = λ u u' p e. ground (
      arith,
      p,
      e,
      port_at-put uid u d links,
      port_at-put uid u' d links,
      all.distinct u u',
      can.others u,
      can.others u',
    );
    in_range = λ u. ground (arith, port_at-put uid u d links, all.in_range u, can.fits);
    not_panel = λ u p. ground (arith, p, port_at-put uid u d links, all.not_panel u, can.apart);
  }

  port_at-remove :
      (uid u : Text) (links : Dict Text Config)
      → port_at u (remove uid links) ≡ ite (by_text.dec uid u) 0 (port_at u links)
  port_at-remove uid u links = ground (arith, get-remove uid u links)

  pub remove-IsDistinct :
      (c : Settings) (uid : Text) (links : Dict Text Config)
      → IsDistinct c links
      → IsDistinct c (remove uid links)
  remove-IsDistinct c uid links all = record {
    distinct = λ u u' p e.
        ground
          (arith, p, e, port_at-remove uid u links, port_at-remove uid u' links, all.distinct u u');
    in_range = λ u. ground (arith, port_at-remove uid u links, all.in_range u);
    not_panel = λ u p. ground (arith, p, port_at-remove uid u links, all.not_panel u);
  }

  -- Where every port stays as it is.
  pub same-IsDistinct :
      (c : Settings) (links links' : Dict Text Config)
      → ((u : Text) → port_at u links' ≡ port_at u links)
      → IsDistinct c links
      → IsDistinct c links'
  same-IsDistinct c links links' same all = record {
    distinct = λ u u' p e. all.distinct u u' (rw (← same u) p) (sym (same u) ∙ e ∙ same u');
    in_range = λ u. rw (same u) (all.in_range u);
    not_panel = λ u p. rw (same u) (all.not_panel u (rw (← same u) p));
  }

  -- An entry can keep its port, and it can go without one.
  pub CanHave-own :
      (c : Settings) (uid : Text) (links : Dict Text Config)
      → IsDistinct c links
      → CanHave c uid (port_at uid links) links
  CanHave-own c uid links all = record {
    fits = all.in_range uid;
    apart = all.not_panel uid;
    others = λ u other p e. other (sym (all.distinct uid u p (sym e)));
  }

  pub CanHave-zero : (c : Settings) (uid : Text) (links : Dict Text Config) → CanHave c uid 0 links
  CanHave-zero c uid links = record {
    fits = omega arith;
    apart = λ p. absurd (omega arith);
    others = λ u other p. absurd (omega arith);
  }

  has_port-false :
      (p : ℕ) (u : Text) (links : Dict Text Config)
      → has_port p links ≡ false
      → 0 < p
      → port_at u links ≢ p
  unfolding has_port get
  has_port-false p u [] h pos e = absurd (omega arith)
  has_port-false p u ((x, d) ∷ links) h pos e = ground (arith, h, pos, e, has_port-false p u links)

module _ ⦃by_text : Key Text⦄ ⦃by_port : Key ℕ⦄ where
  is_used-CanHave :
      (c : Settings) (uid : Text) (p : ℕ) (v : Admin)
      → p ≤ 65535
      → is_used c v p ≡ false
      → CanHave c uid p v.links
  unfolding is_used
  is_used-CanHave c uid p v fits free = record {
    fits = fits;
    apart = λ pos e. ground (arith, free, e);
    others = λ u other pos. has_port-false p u v.links (ground (arith, free)) pos;
  }

  pick-CanHave :
      (c : Settings) (uid : Text) (p port : ℕ) (v : Admin)
      → pick c v p ≡ ok port
      → CanHave c uid port v.links
  unfolding pick
  pick-CanHave c uid p port v e =
      let same : p ≡ port = ground (arith, e) in
      let fits : port ≤ 65535 = ground (arith, e) in
      let free : is_used c v p ≡ false = ground (arith, e) in
      is_used-CanHave c uid port v fits (subst (λ k. is_used c v k ≡ false) same free)

  find-CanHave :
      (w : System) (c : Settings) (uid : Text) (port : ℕ) (v : Admin)
      → c.low ≤ c.high
      → c.high ≤ 65536
      → find_free_port w (is_used c v) c.low c.high v.ports ≡ some port
      → CanHave c uid port v.links
  find-CanHave w c uid port v order high e =
      let found =
        subst (Finds (is_usable w (is_used c v) v.ports) c.low c.high) e
          (find_free_port-Finds w (is_used c v) c.low c.high v.ports order) in
      let free : is_used c v port ≡ false = ground (arith, found.is_it) in
      is_used-CanHave c uid port v (omega (arith, found.below)) free

  found_or_zero :
      (test : Bool) (o : Option ℕ) (port : ℕ)
      → (if test then of_option o (http_error 503) else ok 0) ≡ ok port
      → (port ≡ 0) ⊎ (o ≡ some port)
  found_or_zero true none port e = absurd (cc (e))
  found_or_zero true (some p) port e = inr (cc)
  found_or_zero false o port e = inl (cc)

  -- Whatever port is requested, and whatever range is searched, the port given is one that the new entry
  -- can have.
  pub allocate_listen_port-CanHave :
      (w : System) (c : Settings) (protocol uid : Text) (requested : Requested) (core : Core)
      (port : ℕ) (v : Admin)
      → c.low ≤ c.high
      → c.high ≤ 65536
      → allocate_listen_port w c protocol requested core v ≡ ok port
      → CanHave c uid port v.links
  unfolding allocate_listen_port
  allocate_listen_port-CanHave w c protocol uid (number p) core port v order high e =
      pick-CanHave c uid p port v e
  allocate_listen_port-CanHave w c protocol uid unreadable core port v order high e =
      absurd (cc (e))
  allocate_listen_port-CanHave w c protocol uid negative core port v order high e = absurd (cc (e))
  allocate_listen_port-CanHave w c protocol uid absent core port v order high e =
      elim (found_or_zero (not (is_unicorn core) || is_one_of protocol own_port_protocols)
        (find_free_port w (is_used c v) c.low c.high v.ports) port e) [
          | inl none_ ↦ rw none_ (CanHave-zero c uid v.links)
          | inr found ↦ find-CanHave w c uid port v order high found
        ]
