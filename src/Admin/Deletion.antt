-- ===== src/Admin/Deletion.antt =====
-- `delete_link`, `_release_port_if_unused` and `_migrate_invalid_core_links` of main.py.
pub mod Release
use rvg_sever.Prelude.{
  ℕ, List, [], ◌∷◌, Bool, true, false, not, ◌==◌, ◌&&◌, ◌||◌, if◌then◌else◌, Option, none, some,
  Key, Dict, get, put, remove,
}
use rvg_sever.Wire.Text.{Text}
use rvg_sever.Wire.Strings.{chars, is_one_of, starts_with}
use rvg_sever.Ports.{stop_tcp_port, stop_uvicorn_port}
use rvg_sever.Admin.{
  Core, unicorn, is_unicorn, core_protocols, Config, Group, Admin, has_active_port, remove_first,
  leave,
}
use rvg_sever.Admin.Editing.{Reply, done, refused}

module _ ⦃by_text : Key Text⦄ ⦃by_port : Key ℕ⦄ where
  unfoldable pub release_port_if_unused : ℕ → Admin → Admin
  unfolding has_active_port stop_tcp_port stop_uvicorn_port
  release_port_if_unused port v =
      let stopped = (stop_uvicorn_port port (stop_tcp_port port v.ports).1).1 in
      if has_active_port port v.links then v else record v { ports = stopped }

  unfoldable pub delete_found : Text → Option Config → Admin → Reply × Admin
  unfolding release_port_if_unused remove_first
  delete_found uid none v = (refused 404, v)
  delete_found uid (some d) v =
      let v1 = record v {
        links = remove uid v.links;
        vmess_users =
            if starts_with d.protocol (chars "vmess")
            then remove_first uid v.vmess_users
            else v.vmess_users;
        subs = leave uid d.sub_id v.subs;
      } in
      (done, if d.listen_port == 0 then v1 else release_port_if_unused d.listen_port v1)

  unfoldable pub delete_link : Text → Admin → Reply × Admin
  unfolding delete_found
  delete_link uid v = delete_found uid (get uid v.links) v

  -- An entry whose core does not serve its protocol goes to the panel's own, where that does.
  unfoldable pub migrate : Config → Config
  migrate d =
      if is_unicorn d.core
      then d
      else if is_one_of d.protocol (core_protocols d.core)
      then d
      else if is_one_of d.protocol (core_protocols unicorn)
      then record d { core = unicorn }
      else d

  unfoldable pub migrate_invalid_core_links : Dict Text Config → Dict Text Config
  unfolding migrate
  migrate_invalid_core_links [] = []
  migrate_invalid_core_links ((uid, d) ∷ links) =
      (uid, migrate d) ∷ migrate_invalid_core_links links
