-- ===== src/Admin/Groups/Runs.antt =====
-- Every sequence of the requests that concern configurations and groups.
use mathlib.Core.Path.{subst}
use rvg_sever.Prelude.{
  ℕ, ◌≡◌, refl, sym, ap, ◌∙◌, arith, some, Option-cases, inl, inr, Key, get, put, get-put, ok, err,
}
use rvg_sever.Wire.Text.{Text}
use rvg_sever.Ports.{System}
use rvg_sever.Admin.{Config, Admin, Settings, leave, join}
use rvg_sever.Admin.Creation.{Numbers, Started, nonempty}
use rvg_sever.Admin.Editing.{
  Edit, move_group, edit_head, edit_tail, requested_port, sync_changed, edit_on, edit_settled,
  edit_found, update_link,
}
use rvg_sever.Admin.Groups.Members.{join-keeps, leave-keeps, join-adds}
use rvg_sever.Admin.Groups.Membership.{sub_of, sub_in, IsGrouped, put-IsGrouped, put_same-IsGrouped}
use rvg_sever.Admin.Groups.Requests.{IsInStep, links-sync_changed, mtproto_action-IsInStep}

module _ (n : Numbers) ⦃by_text : Key Text⦄ ⦃by_port : Key ℕ⦄ where
  edit_stored-IsGrouped :
      (uid : Text) (body : Edit n) (before head : Config) (port : ℕ) (v : Admin)
      → IsInStep v
      → get uid v.links ≡ some before
      → head.sub_id ≡ before.sub_id
      → IsGrouped
          (put uid (edit_tail n body (record head { listen_port = port })) v.links)
          (move_group uid before.sub_id body.sub_id v.subs)
  unfolding edit_tail
  edit_stored-IsGrouped uid body before head port v all e same = elim (Option-cases body.sub_id) [
    | inl q ↦ rw q (put_same-IsGrouped uid _ v.links v.subs all (same ∙ sym (ap sub_in e)))
    | inr (new, q) ↦ rw q (
        put-IsGrouped uid _ v.links v.subs
          (join uid (nonempty new) (leave uid before.sub_id v.subs)) all
          (λ sid u other h.
            join-keeps uid sid u (nonempty new) _
              (leave-keeps uid sid u before.sub_id v.subs other h))
          (λ sid p. join-adds uid sid (nonempty new) _ p))
  ]

  edit_on-IsInStep :
      (w : System) (c : Settings) (start_instance : ℕ → Started) (uid : Text) (body : Edit n)
      (before head : Config) (port : ℕ) (v : Admin)
      → IsInStep v
      → get uid v.links ≡ some before
      → head.sub_id ≡ before.sub_id
      → IsInStep (edit_on n w c start_instance uid body before head port v).1
  edit_on-IsInStep w c start_instance uid body before head port v all e same =
      let d = edit_tail n body (record head { listen_port = port }) in
      let v1 = record v {
        links = put uid d v.links;
        subs = move_group uid before.sub_id body.sub_id v.subs;
      } in
      let (links, subs) = links-sync_changed w c uid before.listen_port d v1 in
      let v2 = sync_changed w c uid before.listen_port d v1 in
      let stored = edit_stored-IsGrouped uid body before head port v all e same in
      let found : get uid v1.links ≡ some d = ground (arith, get-put uid uid d v.links) in
      mtproto_action-IsInStep start_instance uid before d v2
        (subst (λ k. IsGrouped k v2.subs) (sym links)
          (subst (λ k. IsGrouped v1.links k) (sym subs) stored))
        (sym (ap (sub_of uid) links ∙ ap sub_in found))

  edit_found-IsInStep :
      (w : System) (c : Settings) (now : ℕ) (start_instance : ℕ → Started) (uid : Text)
      (body : Edit n) (before : Config) (v : Admin)
      → IsInStep v
      → get uid v.links ≡ some before
      → IsInStep (edit_found n w c now start_instance uid body (some before) v).1
  unfolding edit_head
  edit_found-IsInStep w c now start_instance uid body before v all e =
      let head = edit_head n now body before in
      elim (requested_port c uid before.listen_port body.listen_port v)
        as (λ r. IsInStep (edit_settled n w c start_instance uid body before head r v).1) [
          | err problem ↦ put_same-IsGrouped uid head v.links v.subs all (sym (ap sub_in e))
          | ok port ↦ edit_on-IsInStep w c start_instance uid body before head port v all e refl
        ]

  pub update_link-IsInStep :
      (w : System) (c : Settings) (now : ℕ) (start_instance : ℕ → Started) (uid : Text)
      (body : Edit n) (v : Admin)
      → IsInStep v
      → IsInStep (update_link n w c now start_instance uid body v).1
  unfolding update_link
  update_link-IsInStep w c now start_instance uid body v all =
      elim (Option-cases (get uid v.links)) [
        | inl e ↦ rw (e, update_link) all
        | inr (before, e) ↦
            rw (e, update_link) (edit_found-IsInStep w c now start_instance uid body before v all e)
      ]
