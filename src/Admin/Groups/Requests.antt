-- ===== src/Admin/Groups/Requests.antt =====
-- The requests that create, change and delete configurations and groups, in any order.
use mathlib.Core.Path.{subst}
use rvg_sever.Prelude.{
  ℕ, ◌≡◌, ◌≢◌, refl, sym, ap, ◌∙◌, arith, [], ◌∷◌, Bool, true, false, ◌||◌, ◌==◌, if◌then◌else◌,
  Option, none, some, Option-cases, inl, inr, if_holds, not, Key, Dict, get, put, remove, get-put,
  get-remove,
}
use rvg_sever.Wire.Text.{Text}
use rvg_sever.Wire.Strings.{is_one_of}
use rvg_sever.Ports.{System}
use rvg_sever.Admin.{
  is_mtproto, Config, Group, Admin, Settings, add_to_group, remove_from_group, leave, join,
}
use rvg_sever.Admin.Creation.{Started, runs, occupied, broken, add_link}
use rvg_sever.Admin.Editing.{
  Reply, sync_changed, with_instance, start_action, restart_action, mtproto_action, snapshot_port,
  bool_eq,
}
use rvg_sever.Admin.Deletion.{delete_link}
use rvg_sever.Admin.Groups.{
  NewGroup, GroupEdit, create_sub, update_sub, edit_group, is_sub, forget_group, delete_sub,
  set_sub, assign_link_to_sub, assign_found,
}
use rvg_sever.Admin.Groups.Members.{
  is_member, lists, add_to_group-keeps, remove_from_group-keeps, join-keeps, leave-keeps, join-adds,
}
use rvg_sever.Admin.Groups.Membership.{
  sub_of, sub_in, none-ne-some, IsGrouped, put-IsGrouped, put_same-IsGrouped, remove-IsGrouped,
}

module _ ⦃by_text : Key Text⦄ where
  abbrev pub IsInStep : Admin → Type 0
  IsInStep v = IsGrouped v.links v.subs

module _ ⦃by_text : Key Text⦄ ⦃by_port : Key ℕ⦄ where
  pub add_link-IsInStep :
      (w : System) (c : Settings) (uid : Text) (d : Config) (v : Admin)
      → IsInStep v
      → IsInStep (add_link w c uid d v)
  unfolding add_link
  add_link-IsInStep w c uid d v all =
      put-IsGrouped uid d v.links v.subs (join uid d.sub_id v.subs) all
        (λ q u _ h. join-keeps uid q u d.sub_id v.subs h)
        (λ sid e. join-adds uid sid d.sub_id v.subs e)

  pub links-sync_changed :
      (w : System) (c : Settings) (uid : Text) (old : ℕ) (d : Config) (v : Admin)
      → ((sync_changed w c uid old d v).links ≡ v.links)
        × ((sync_changed w c uid old d v).subs ≡ v.subs)
  unfolding sync_changed
  links-sync_changed w c uid old d v =
      if_holds (λ (k : Admin). (k.links ≡ v.links) × (k.subs ≡ v.subs))
        (d.listen_port == old || is_mtproto d.protocol) (refl, refl) (refl, refl)

  start_action-IsInStep :
      (uid : Text) (d : Config) (started : Started) (v : Admin)
      → IsInStep v
      → d.sub_id ≡ sub_of uid v.links
      → IsInStep (start_action uid d started v).1
  start_action-IsInStep uid d (runs i) v all e =
      put_same-IsGrouped uid (with_instance i d) v.links v.subs all e
  start_action-IsInStep uid d occupied v all e =
      put_same-IsGrouped uid (record d { active = false }) v.links v.subs all e
  start_action-IsInStep uid d broken v all e =
      put_same-IsGrouped uid (record d { active = false }) v.links v.subs all e

  restart_action-IsInStep :
      (uid : Text) (d : Config) (started : Started) (v : Admin)
      → IsInStep v
      → d.sub_id ≡ sub_of uid v.links
      → IsInStep (restart_action uid d started v).1
  restart_action-IsInStep uid d (runs i) v all e =
      put_same-IsGrouped uid (with_instance i d) v.links v.subs all e
  restart_action-IsInStep uid d occupied v all e = all
  restart_action-IsInStep uid d broken v all e = all

  pub mtproto_action-IsInStep :
      (start_instance : ℕ → Started) (uid : Text) (before d : Config) (v : Admin)
      → IsInStep v
      → d.sub_id ≡ sub_of uid v.links
      → IsInStep (mtproto_action start_instance uid before d v).1
  unfolding mtproto_action
  mtproto_action-IsInStep start_instance uid before d v all e =
      let P = λ (r : Reply × Admin). IsInStep r.1 in
      let start = start_action-IsInStep uid d (start_instance (snapshot_port before)) v all e in
      let restart = restart_action-IsInStep uid d (start_instance d.listen_port) v all e in
      if_holds P (not (is_mtproto d.protocol)) all (
        if_holds P (not (bool_eq before.active d.active)) (if_holds P d.active start all)
          (if_holds P (before.listen_port == d.listen_port) all restart))

  forget_group-sub :
      (sid uid : Text) (links : Dict Text Config)
      → sub_of uid (forget_group sid links)
        ≡ (if is_sub sid (sub_of uid links) then none else sub_of uid links)
  unfolding forget_group get
  forget_group-sub sid uid [] = refl
  forget_group-sub sid uid ((u, d) ∷ links) = ground (arith, forget_group-sub sid uid links)

  pub delete_link-IsInStep : (uid : Text) (v : Admin) → IsInStep v → IsInStep (delete_link uid v).1
  unfolding delete_link
  delete_link-IsInStep uid v all = elim (Option-cases (get uid v.links)) [
    | inl e ↦ rw (e, delete_link) all
    | inr (d, e) ↦
        let gone =
          remove-IsGrouped uid v.links v.subs (leave uid d.sub_id v.subs) all
            (λ q u other h. leave-keeps uid q u d.sub_id v.subs other h) in
        rw (e, delete_link)
          (if_holds (λ (k : Admin). IsInStep k) (d.listen_port == 0) gone
            (if_holds (λ (k : Admin). IsInStep k) _ gone gone))
  ]

  forget_group-IsGrouped :
      (sid u q : Text) (v : Admin)
      → IsInStep v
      → (if is_sub sid (sub_of u v.links) then none else sub_of u v.links) ≡ some q
      → is_member q u (remove sid v.subs) ≡ true
  forget_group-IsGrouped sid u q v all named =
      let named' : sub_of u v.links ≡ some q = ground (arith, named) in
      let apart : sid ≢ q = λ p. absurd (ground (arith, named, named', p)) in
      let same : get q (remove sid v.subs) ≡ get q v.subs =
        ground (arith, apart, get-remove sid q v.subs) in
      rw same (all u q named')

  pub delete_sub-IsInStep : (sid : Text) (v : Admin) → IsInStep v → IsInStep (delete_sub sid v).1
  unfolding delete_sub
  delete_sub-IsInStep sid v all = elim (Option-cases (get sid v.subs)) [
    | inl e ↦ rw (e, delete_sub) all
    | inr (g, e) ↦
        rw (e, delete_sub)
          (λ u q named.
            forget_group-IsGrouped sid u q v all (sym (forget_group-sub sid u v.links) ∙ named))
  ]

  set_sub-IsGrouped :
      (uid : Text) (new : Option Text) (v : Admin) (subs' : Dict Text Group)
      → IsInStep v
      → ((q u : Text) → u ≢ uid → is_member q u v.subs ≡ true → is_member q u subs' ≡ true)
      → ((sid : Text) → new ≡ some sid → is_member sid uid subs' ≡ true)
      → IsGrouped (set_sub uid new (get uid v.links) v.links) subs'
  set_sub-IsGrouped uid new v subs' all keeps own = elim (Option-cases (get uid v.links)) [
    | inl e ↦ rw e (λ u q named.
        keeps q u
          (λ p.
            none-ne-some (sym (ap sub_in (subst (λ k. get k v.links ≡ none) (sym p) e)) ∙ named))
          (all u q named))
    | inr (d, e) ↦
        rw e (put-IsGrouped uid (record d { sub_id = new }) v.links v.subs subs' all keeps own)
  ]

  assign_found-IsInStep :
      (sid uid : Text) (adds : Bool) (o : Option Group) (v : Admin)
      → IsInStep v
      → IsInStep (assign_found sid uid adds o v).1
  assign_found-IsInStep sid uid adds none v all = all
  assign_found-IsInStep sid uid true (some g) v all =
      set_sub-IsGrouped uid (some sid) v (add_to_group sid uid v.subs) all
        (λ q u other h. add_to_group-keeps sid uid q u v.subs h)
        (λ q e. join-adds uid q (some sid) v.subs e)
  assign_found-IsInStep sid uid false (some g) v all =
      set_sub-IsGrouped uid none v (remove_from_group sid uid v.subs) all
        (λ q u other h. remove_from_group-keeps sid uid q u v.subs other h)
        (λ q e. absurd (none-ne-some e))

  pub assign_link_to_sub-IsInStep :
      (sid uid : Text) (adds : Bool) (v : Admin)
      → IsInStep v
      → IsInStep (assign_link_to_sub sid uid adds v).1
  unfolding assign_link_to_sub
  assign_link_to_sub-IsInStep sid uid adds v all =
      assign_found-IsInStep sid uid adds (get sid v.subs) v all

  -- A group that no configuration names.
  abbrev pub IsUnnamed : Text → Dict Text Config → Type 0
  IsUnnamed sid links = (u : Text) → sub_of u links ≢ some sid

  put_group-IsInStep :
      (sid : Text) (g : Group) (v : Admin)
      → IsInStep v
      → ((u : Text) → sub_of u v.links ≡ some sid → is_one_of u g.link_ids ≡ true)
      → IsInStep (record v { subs = put sid g v.subs })
  put_group-IsInStep sid g v all own u q named = elim (by_text.dec sid q) [
    | yes p ↦
        let found : get q (put sid g v.subs) ≡ some g = ground (arith, p, get-put sid q g v.subs) in
        rw found (own u (named ∙ ap some (sym p)))
    | no p ↦
        let same : get q (put sid g v.subs) ≡ get q v.subs =
          ground (arith, p, get-put sid q g v.subs) in
        rw same (all u q named)
  ]

  pub create_sub-IsInStep :
      (hash : Text → Text) (sid uuid_key : Text) (body : NewGroup) (v : Admin)
      → IsInStep v
      → IsUnnamed sid v.links
      → IsInStep (create_sub hash sid uuid_key body v)
  unfolding create_sub
  create_sub-IsInStep hash sid uuid_key body v all new =
      put_group-IsInStep sid _ v all (λ u named. absurd (new u named))

  pub update_sub-IsInStep :
      (hash : Text → Text) (sid : Text) (body : GroupEdit) (v : Admin)
      → IsInStep v
      → body.link_ids ≡ none
      → IsInStep (update_sub hash sid body v).1
  unfolding update_sub
  update_sub-IsInStep hash sid body v all kept = elim (Option-cases (get sid v.subs)) [
    | inl e ↦ rw (e, update_sub) all
    | inr (g, e) ↦
        rw (e, update_sub)
          (put_group-IsInStep sid (edit_group hash body g) v all
            (λ u named. rw kept (subst (λ o. lists u o ≡ true) e (all u sid named))))
  ]
