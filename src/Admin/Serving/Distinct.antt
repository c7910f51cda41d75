-- ===== src/Admin/Serving/Distinct.antt =====
-- The ports of the configurations stay apart, whatever is requested.
use mathlib.Core.Path.{subst}
use rvg_sever.Prelude.{
  ℕ, ◌≤◌, ◌≡◌, refl, sym, ap, ◌∙◌, arith, Bool, true, false, Option, none, some, Option-cases, inl,
  inr, Key, Dict, get, put, ok, err,
}
use rvg_sever.Wire.Text.{Text}
use rvg_sever.Ports.{System}
use rvg_sever.Admin.{Config, Admin, Settings, Instance}
use rvg_sever.Admin.Allocation.Distinct.{
  port_in, port_at, IsDistinct, CanHave, CanHave-own, put-IsDistinct, allocate_listen_port-CanHave,
}
use rvg_sever.Admin.Creation.{
  Numbers, Started, runs, occupied, broken, Draws, NewLink, start, final_port, link_data, add_link,
  create_link,
}
use rvg_sever.Admin.Creation.Success.{create_link-eq-ok}
use rvg_sever.Admin.Editing.{
  Edit, bool_eq, or_old, requested_port, sync_changed, move_group, edit_head, edit_tail, edit_on,
  edit_settled, edit_found, update_link,
}
use rvg_sever.Admin.Editing.Distinct.{
  IsObedient, requested_port-CanHave, CanHave-put, mtproto_action-IsDistinct,
}
use rvg_sever.Admin.Groups.Requests.{links-sync_changed}
use rvg_sever.Admin.Serving.{after}

start-eq-some : (test : Bool) (s : Started) (i : Instance) → start test s ≡ ok (some i) → s ≡ runs i
start-eq-some false s i e = absurd (cc (e))
start-eq-some true (runs j) i e = cc (e)
start-eq-some true occupied i e = absurd (cc (e))
start-eq-some true broken i e = absurd (cc (e))

final_port-start :
    (test : Bool) (start_instance : ℕ → Started) (port : ℕ) (i : Option Instance)
    → IsObedient start_instance
    → start test (start_instance port) ≡ ok i
    → final_port port i ≡ port
final_port-start test start_instance port none obeys e = refl
final_port-start test start_instance port (some i) obeys e =
    let runs_on = obeys port i (start-eq-some test (start_instance port) i e) in
    ground (arith, runs_on)

module _ (n : Numbers) (c : Settings) ⦃by_text : Key Text⦄ ⦃by_port : Key ℕ⦄ where
  pub create_link-IsDistinct :
      (w : System) (now : ℕ) (r : Draws) (body : NewLink n) (v : Admin)
      → c.low ≤ c.high
      → c.high ≤ 65536
      → IsObedient r.start_instance
      → IsDistinct c v.links
      → IsDistinct c (after v (create_link n w c now r body v)).links
  unfolding add_link link_data
  create_link-IsDistinct w now r body v order high obeys all =
      elim (create_link n w c now r body v)
          as (λ k. create_link n w c now r body v ≡ k → IsDistinct c (after v k).links) [
            | err e ↦ λ _. all
            | ok v' ↦ λ e.
                let made = create_link-eq-ok n w c now r body v v' e in
                let can =
                  allocate_listen_port-CanHave w c made.protocol r.uid _ made.core made.port v order
                    high made.requested in
                let same =
                  final_port-start _ r.start_instance made.port made.instance_ obeys made.started in
                rw made.stored (
                  put-IsDistinct c r.uid _ v.links all
                    (subst (λ p. CanHave c r.uid p v.links) (sym same) can))
          ]
        refl

  -- A configuration without a port of its own is not switched on or off.
  abbrev pub KeepsAsleep : Edit n → Config → Type 0
  KeepsAsleep body before = before.listen_port ≡ 0 → body.active ≡ none

  edit_on-IsDistinct :
      (w : System) (start_instance : ℕ → Started) (uid : Text) (body : Edit n)
      (before head : Config) (port : ℕ) (v : Admin)
      → IsObedient start_instance
      → IsDistinct c v.links
      → CanHave c uid port v.links
      → CanHave c uid before.listen_port v.links
      → (before.listen_port ≡ 0 → bool_eq before.active head.active ≡ true)
      → IsDistinct c (edit_on n w c start_instance uid body before head port v).1.links
  unfolding edit_tail
  edit_on-IsDistinct w start_instance uid body before head port v obeys all can old asleep =
      let d = edit_tail n body (record head { listen_port = port }) in
      let v1 = record v {
        links = put uid d v.links;
        subs = move_group uid before.sub_id body.sub_id v.subs;
      } in
      let (links, _) = links-sync_changed w c uid before.listen_port d v1 in
      let v2 = sync_changed w c uid before.listen_port d v1 in
      let back = λ (P : Dict Text Config → Type 0) (p : P v1.links). subst P (sym links) p in
      mtproto_action-IsDistinct c start_instance uid before d v2 obeys
        (back (λ k. IsDistinct c k) (put-IsDistinct c uid d v.links all can))
        (back (λ k. CanHave c uid port k) (CanHave-put c uid port d v.links can))
        (back (λ k. CanHave c uid before.listen_port k)
          (CanHave-put c uid before.listen_port d v.links old))
        asleep

  bool_eq_refl : (b : Bool) → bool_eq b b ≡ true
  bool_eq_refl true = refl
  bool_eq_refl false = refl

  edit_found-IsDistinct :
      (w : System) (now : ℕ) (start_instance : ℕ → Started) (uid : Text) (body : Edit n)
      (before : Config) (v : Admin)
      → IsObedient start_instance
      → KeepsAsleep body before
      → IsDistinct c v.links
      → get uid v.links ≡ some before
      → IsDistinct c (edit_found n w c now start_instance uid body (some before) v).1.links
  unfolding edit_head
  edit_found-IsDistinct w now start_instance uid body before v obeys keeps all e =
      let head = edit_head n now body before in
      let had : port_at uid v.links ≡ before.listen_port = ap port_in e in
      let old = subst (λ p. CanHave c uid p v.links) had (CanHave-own c uid v.links all) in
      let asleep = λ (z : before.listen_port ≡ 0).
        ap (λ o. bool_eq before.active (or_old o before.active)) (keeps z)
        ∙ bool_eq_refl before.active in
      elim (requested_port c uid before.listen_port body.listen_port v)
          as (λ r.
            requested_port c uid before.listen_port body.listen_port v ≡ r
            → IsDistinct c (edit_settled n w c start_instance uid body before head r v).1.links) [
              | err problem ↦ λ _. put-IsDistinct c uid head v.links all old
              | ok port ↦ λ q.
                  edit_on-IsDistinct w start_instance uid body before head port v obeys all
                    (requested_port-CanHave c uid body.listen_port port v all (
                      subst (λ k. requested_port c uid k body.listen_port v ≡ ok port) (sym had) q))
                    old asleep
            ]
        refl

  pub update_link-IsDistinct :
      (w : System) (now : ℕ) (start_instance : ℕ → Started) (uid : Text) (body : Edit n) (v : Admin)
      → IsObedient start_instance
      → ((before : Config) → get uid v.links ≡ some before → KeepsAsleep body before)
      → IsDistinct c v.links
      → IsDistinct c (update_link n w c now start_instance uid body v).1.links
  unfolding update_link
  update_link-IsDistinct w now start_instance uid body v obeys keeps all =
      elim (Option-cases (get uid v.links)) [
        | inl e ↦ rw (e, update_link) all
        | inr (before, e) ↦
            rw (e, update_link)
              (edit_found-IsDistinct w now start_instance uid body before v obeys (keeps before e)
                all e)
      ]
