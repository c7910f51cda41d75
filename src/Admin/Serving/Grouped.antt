-- ===== src/Admin/Serving/Grouped.antt =====
-- Configurations and groups agree, whatever is requested.
use rvg_sever.Prelude.{ℕ, ◌≡◌, List, [], ◌∷◌, none, refl, Key, ok, err}
use rvg_sever.Wire.Text.{Text}
use rvg_sever.Ports.{System}
use rvg_sever.Admin.{Admin, Settings}
use rvg_sever.Admin.Creation.{Numbers, Draws, NewLink, create_link}
use rvg_sever.Admin.Creation.Success.{create_link-eq-ok}
use rvg_sever.Admin.Groups.Requests.{
  IsInStep, IsUnnamed, add_link-IsInStep, delete_link-IsInStep, delete_sub-IsInStep,
  assign_link_to_sub-IsInStep, create_sub-IsInStep, update_sub-IsInStep,
}
use rvg_sever.Admin.Groups.Runs.{update_link-IsInStep}
use rvg_sever.Admin.Serving.{
  Request, creates, edits, deletes, creates_group, edits_group, deletes_group, assigns, after,
  serve, serve_all,
}

module _ (n : Numbers) (c : Settings) (hash_password : Text → Text) ⦃by_text : Key Text⦄
    ⦃by_port : Key ℕ⦄ where
  create_link-IsInStep :
      (w : System) (now : ℕ) (r : Draws) (body : NewLink n) (v : Admin)
      → IsInStep v
      → IsInStep (after v (create_link n w c now r body v))
  create_link-IsInStep w now r body v all =
      elim (create_link n w c now r body v)
          as (λ k. create_link n w c now r body v ≡ k → IsInStep (after v k)) [
            | err e ↦ λ _. all
            | ok v' ↦ λ e.
                let made = create_link-eq-ok n w c now r body v v' e in
                rw made.stored (add_link-IsInStep w c r.uid _ v all)
          ]
        refl

  -- A new group's id is named by no entry, and a change of a group leaves its ids alone.
  abbrev pub KeepsIds : Request n → Admin → Type 0
  KeepsIds (creates_group sid uuid_key body) v = IsUnnamed sid v.links
  KeepsIds (edits_group sid body) v = body.link_ids ≡ none
  KeepsIds _ v = Unit {0}

  abbrev pub AllKeepIds : List (Request n) → Admin → Type 0
  AllKeepIds [] v = Unit {0}
  AllKeepIds (request ∷ requests) v =
      KeepsIds request v × AllKeepIds requests (serve n c hash_password request v)

  serve-IsInStep :
      (request : Request n) (v : Admin)
      → IsInStep v
      → KeepsIds request v
      → IsInStep (serve n c hash_password request v)
  unfolding serve
  serve-IsInStep (creates w now r body) v all keeps = create_link-IsInStep w now r body v all
  serve-IsInStep (edits w now start_instance uid body) v all keeps =
      update_link-IsInStep n w c now start_instance uid body v all
  serve-IsInStep (deletes uid) v all keeps = delete_link-IsInStep uid v all
  serve-IsInStep (creates_group sid uuid_key body) v all keeps =
      create_sub-IsInStep hash_password sid uuid_key body v all keeps
  serve-IsInStep (edits_group sid body) v all keeps =
      update_sub-IsInStep hash_password sid body v all keeps
  serve-IsInStep (deletes_group sid) v all keeps = delete_sub-IsInStep sid v all
  serve-IsInStep (assigns sid uid adds) v all keeps = assign_link_to_sub-IsInStep sid uid adds v all

  -- After any requests that create, change and delete configurations and groups, the failed ones included,
  -- and that move configurations between groups, a group that a configuration names has its id, if it had
  -- so before; except that `update_sub` must not set the ids of a group, and a new group must not have an
  -- id that some configuration names already.
  pub serve_all-IsInStep :
      (requests : List (Request n)) (v : Admin)
      → IsInStep v
      → AllKeepIds requests v
      → IsInStep (serve_all n c hash_password requests v)
  unfolding serve_all
  serve_all-IsInStep [] v all keeps = all
  serve_all-IsInStep (request ∷ requests) v all keeps =
      serve_all-IsInStep requests (serve n c hash_password request v)
        (serve-IsInStep request v all keeps.0) keeps.1
