-- ===== src/Admin/Editing/Distinct.antt =====
-- An update keeps the ports of the configurations apart.
use mathlib.Core.Path.{subst}
use rvg_sever.Prelude.{
  ℕ, ◌<◌, ◌≤◌, ◌≡◌, ◌≢◌, refl, sym, ◌∙◌, arith, [], ◌∷◌, true, false, not, ◌==◌, if_holds, if_cases,
  Option, none, some, inl, inr, Bool-cases, Key, Dict, get, put, Result, ok, err,
}
use rvg_sever.Wire.Text.{Text}
use rvg_sever.Admin.{Config, Admin, Settings, is_mtproto, Instance, Requested}
use rvg_sever.Admin.Allocation.Distinct.{
  port_at, port_at-put, IsDistinct, CanHave, CanHave-own, CanHave-zero, put-IsDistinct,
}
use rvg_sever.Admin.Creation.{Started, runs, occupied, broken}
use rvg_sever.Admin.Editing.{
  Reply, port_of, other_has_port, check_port, check_read, requested_port, bool_eq, with_instance,
  start_action, restart_action, snapshot_port, mtproto_action,
}

-- An instance runs on the port that it was asked for.
abbrev pub IsObedient : (ℕ → Started) → Type 0
IsObedient start_instance = (p : ℕ) (i : Instance) → start_instance p ≡ runs i → i.port ≡ p

module _ ⦃by_text : Key Text⦄ ⦃by_port : Key ℕ⦄ where
  other_has_port-false :
      (uid : Text) (p : ℕ) (u : Text) (links : Dict Text Config)
      → other_has_port uid p links ≡ false
      → u ≢ uid
      → 0 < p
      → port_at u links ≢ p
  unfolding other_has_port get
  other_has_port-false uid p u [] h other pos e = absurd (omega arith)
  other_has_port-false uid p u ((x, d) ∷ links) h other pos e = elim (by_text.dec x u) [
    | yes q ↦
        let apart : x ≢ uid = λ k. other (sym q ∙ k) in
        let own : d.listen_port ≡ p = ground (arith, e, q) in ground (arith, h, apart, own)
    | no q ↦ other_has_port-false uid p u links (ground (arith, h)) other pos (ground (arith, e, q))
  ]

  -- What the check of a new port says.
  data Checked (c : Settings) (uid : Text) (old new p : ℕ) (v : Admin) : Type 0 where
    kept : p ≡ old → Checked c uid old new p v
    without : p ≡ 0 → Checked c uid old new p v
    checked :
        p ≡ new → other_has_port uid p v.links ≡ false → p ≢ c.port → Checked c uid old new p v

  check_port-Checked :
      (c : Settings) (uid : Text) (old new p : ℕ) (v : Admin)
      → check_port c uid old new v ≡ ok p
      → Checked c uid old new p v
  unfolding check_port
  check_port-Checked c uid old new p v e = elim (Bool-cases (new == old)) [
    | inl q ↦ kept (ground (arith, e, q))
    | inr q ↦ elim (Bool-cases (new == 0)) [
      | inl z ↦ without (ground (arith, e, q, z))
      | inr z ↦
          let same : p ≡ new = ground (arith, e, q, z) in
          let free : other_has_port uid new v.links ≡ false = ground (arith, e, q, z) in
          checked same (subst (λ k. other_has_port uid k v.links ≡ false) (sym same) free)
            (λ k. ground (arith, e, q, z, k, same))
    ]
  ]

  Checked-CanHave :
      (c : Settings) (uid : Text) (new p : ℕ) (v : Admin)
      → IsDistinct c v.links
      → new ≤ 65535
      → Checked c uid (port_at uid v.links) new p v
      → CanHave c uid p v.links
  Checked-CanHave c uid new p v all fits (kept e) = rw e (CanHave-own c uid v.links all)
  Checked-CanHave c uid new p v all fits (without e) = rw e (CanHave-zero c uid v.links)
  Checked-CanHave c uid new p v all fits (checked e free apart) = record {
    fits = rw e fits;
    apart = λ _. apart;
    others = λ u other pos. other_has_port-false uid p u v.links free other pos;
  }

  port_of-fits : (raw : Requested) (new : ℕ) → port_of raw ≡ ok new → new ≤ 65535
  port_of-fits raw new e = ground (arith, e)

  check_read-CanHave :
      (c : Settings) (uid : Text) (r : Result ℕ) (p : ℕ) (v : Admin)
      → IsDistinct c v.links
      → ((new : ℕ) → r ≡ ok new → new ≤ 65535)
      → check_read c uid (port_at uid v.links) r v ≡ ok p
      → CanHave c uid p v.links
  check_read-CanHave c uid (err problem) p v all fits e = absurd (cc (e))
  check_read-CanHave c uid (ok new) p v all fits e =
      Checked-CanHave c uid new p v all (fits new refl)
        (check_port-Checked c uid (port_at uid v.links) new p v e)

  pub requested_port-CanHave :
      (c : Settings) (uid : Text) (raw : Option Requested) (p : ℕ) (v : Admin)
      → IsDistinct c v.links
      → requested_port c uid (port_at uid v.links) raw v ≡ ok p
      → CanHave c uid p v.links
  requested_port-CanHave c uid none p v all e =
      let same : port_at uid v.links ≡ p = cc (e) in
      subst (λ k. CanHave c uid k v.links) same (CanHave-own c uid v.links all)
  requested_port-CanHave c uid (some raw) p v all e =
      check_read-CanHave c uid (port_of raw) p v all (port_of-fits raw) e

  -- Other entries have the ports that they had.
  pub CanHave-put :
      (c : Settings) (uid : Text) (q : ℕ) (d : Config) (links : Dict Text Config)
      → CanHave c uid q links
      → CanHave c uid q (put uid d links)
  CanHave-put c uid q d links can = record {
    fits = can.fits;
    apart = can.apart;
    others = λ u other pos. ground (arith, other, pos, port_at-put uid u d links, can.others u);
  }

  with_instance-IsDistinct :
      (c : Settings) (uid : Text) (i : Instance) (d : Config) (v : Admin)
      → IsDistinct c v.links
      → CanHave c uid d.listen_port v.links
      → CanHave c uid i.port v.links
      → IsDistinct c (put uid (with_instance i d) v.links)
  with_instance-IsDistinct c uid i d v all own can =
      put-IsDistinct c uid (with_instance i d) v.links all
        (if_holds (λ p. CanHave c uid p v.links) (d.listen_port == 0) own can)

  start_action-IsDistinct :
      (c : Settings) (uid : Text) (d : Config) (started : Started) (v : Admin)
      → IsDistinct c v.links
      → CanHave c uid d.listen_port v.links
      → ((i : Instance) → started ≡ runs i → CanHave c uid i.port v.links)
      → IsDistinct c (start_action uid d started v).1.links
  start_action-IsDistinct c uid d (runs i) v all own can =
      with_instance-IsDistinct c uid i d v all own (can i refl)
  start_action-IsDistinct c uid d occupied v all own can =
      put-IsDistinct c uid (record d { active = false }) v.links all own
  start_action-IsDistinct c uid d broken v all own can =
      put-IsDistinct c uid (record d { active = false }) v.links all own

  restart_action-IsDistinct :
      (c : Settings) (uid : Text) (d : Config) (started : Started) (v : Admin)
      → IsDistinct c v.links
      → CanHave c uid d.listen_port v.links
      → ((i : Instance) → started ≡ runs i → CanHave c uid i.port v.links)
      → IsDistinct c (restart_action uid d started v).1.links
  restart_action-IsDistinct c uid d (runs i) v all own can =
      with_instance-IsDistinct c uid i d v all own (can i refl)
  restart_action-IsDistinct c uid d occupied v all own can = all
  restart_action-IsDistinct c uid d broken v all own can = all

  pub mtproto_action-IsDistinct :
      (c : Settings) (start_instance : ℕ → Started) (uid : Text) (before d : Config) (v : Admin)
      → IsObedient start_instance
      → IsDistinct c v.links
      → CanHave c uid d.listen_port v.links
      → CanHave c uid before.listen_port v.links
      → (before.listen_port ≡ 0 → bool_eq before.active d.active ≡ true)
      → IsDistinct c (mtproto_action start_instance uid before d v).1.links
  unfolding mtproto_action
  mtproto_action-IsDistinct c start_instance uid before d v obeys all own old asleep =
      let P = λ (r : Reply × Admin). IsDistinct c r.1.links in
      let restarted = λ (i : Instance) (e : start_instance d.listen_port ≡ runs i).
        subst (λ p. CanHave c uid p v.links) (sym (obeys d.listen_port i e)) own in
      let restart =
        restart_action-IsDistinct c uid d (start_instance d.listen_port) v all own restarted in
      if_holds P (not (is_mtproto d.protocol)) all (
        if_cases P (not (bool_eq before.active d.active))
          (λ wakes.
            let has_own : snapshot_port before ≡ before.listen_port =
              ground (arith, wakes, asleep) in
            let started = λ (i : Instance) (e : start_instance (snapshot_port before) ≡ runs i).
              subst (λ p. CanHave c uid p v.links)
                (sym (obeys (snapshot_port before) i e ∙ has_own)) old in
            if_holds P d.active
              (start_action-IsDistinct c uid d (start_instance (snapshot_port before)) v all own
                started)
              all)
          (λ _. if_holds P (before.listen_port == d.listen_port) all restart))
