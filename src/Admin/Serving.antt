-- ===== src/Admin/Serving.antt =====
-- The requests to the panel, one after the other.
pub mod Grouped
pub mod Distinct
pub mod Runs
use rvg_sever.Prelude.{ℕ, List, [], ◌∷◌, Bool, Key, Dict, Result, ok, err}
use rvg_sever.Wire.Text.{Text}
use rvg_sever.Ports.{System}
use rvg_sever.Admin.{Admin, Settings}
use rvg_sever.Admin.Creation.{Numbers, Started, Draws, NewLink, create_link}
use rvg_sever.Admin.Editing.{Edit, update_link}
use rvg_sever.Admin.Deletion.{delete_link}
use rvg_sever.Admin.Groups.{
  NewGroup, GroupEdit, create_sub, update_sub, delete_sub, assign_link_to_sub,
}

-- A request, with what it draws at random and what the system answers.
pub data Request (n : Numbers) : Type 0 where
  creates : System → ℕ → Draws → NewLink n → Request n
  edits : System → ℕ → (ℕ → Started) → Text → Edit n → Request n
  deletes : Text → Request n
  creates_group : Text → Text → NewGroup → Request n
  edits_group : Text → GroupEdit → Request n
  deletes_group : Text → Request n
  assigns : Text → Text → Bool → Request n

-- The panel after a request that may raise.
abbrev pub after : Admin → Result Admin → Admin
after v (ok v') = v'
after v (err _) = v

module _ (n : Numbers) (c : Settings) (hash_password : Text → Text) ⦃by_text : Key Text⦄
    ⦃by_port : Key ℕ⦄ where
  unfoldable pub serve : Request n → Admin → Admin
  serve (creates w now r body) v = after v (create_link n w c now r body v)
  serve (edits w now start_instance uid body) v =
      (update_link n w c now start_instance uid body v).1
  serve (deletes uid) v = (delete_link uid v).1
  serve (creates_group sid uuid_key body) v = create_sub hash_password sid uuid_key body v
  serve (edits_group sid body) v = (update_sub hash_password sid body v).1
  serve (deletes_group sid) v = (delete_sub sid v).1
  serve (assigns sid uid adds) v = (assign_link_to_sub sid uid adds v).1

  unfoldable pub serve_all : List (Request n) → Admin → Admin
  serve_all [] v = v
  serve_all (request ∷ requests) v = serve_all requests (serve request v)
