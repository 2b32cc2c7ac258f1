-- ===== src/Server/Web/Admin.antt =====
-- The pages of scripts and machines of control_station_lite/server/web/admin.py, for the administrator
-- that `web_require_admin` lets in. They write no row of the audit log of their own.
use csl.Prelude.{
  nat_eq, not, filter, arith, Bool, Option, ℕ, ℤ, Text, Text_Eq, codes, [], ◌∷◌, ◌++◌, none, some,
  ok, err, ◌≡◌,
}
use csl.Server.Auth.Sessions.{User}
use csl.Server.Api.Scripts.{
  Registry, create_script_endpoint, update_script_endpoint, delete_script_endpoint,
}
use csl.Server.Core.Registry.Table.{
  ScriptTables, create_script, update_script, delete_script, get_script_or_raise,
}
use csl.Server.Core.MagicPacket.{strip}
use csl.Server.Api.Machines.Register.{register_machine_from_input, Moment, World, RegisterMachineIn}
use csl.Server.Web.Login.{moved, Response, page, redirect_with_flash}
use csl.Server.Api.Machines.{Machine, find_machine, MachineTables}
use csl.Shared.Registration.{Codec}
use csl.Server.Core.Crypto.{Aead}

-- `meta_yaml.strip() or None`
abbrev pub or_none : Text → Option Text
or_none [] = none
or_none (c ∷ s) = some (c ∷ s)

abbrev to_scripts : Text → Text → Response
to_scripts message category = redirect_with_flash (codes "/admin/scripts") message category 303

abbrev quoted : Text → Text → Text
quoted name rest = codes "Script '" ++ name ++ rest

module _ (md5 : Text → Text) (parse_persistent : Text → Option Bool) where
  -- `i` is the number that the table gives the row.
  unfoldable pub admin_script_new_submit :
      ℕ → ℕ → Text → Text → Text → User → ScriptTables → Response × ScriptTables
  admin_script_new_submit i now name content meta_yaml user t =
      elim (create_script md5 parse_persistent i name content (or_none (strip meta_yaml)) user.id
        now t) [
          | err e ↦ (page 422 (codes "admin/script_edit.html"), t)
          | ok t' ↦ (to_scripts (quoted name (codes "' created.")) (codes "success"), t')
        ]

  -- After an error the script is fetched again; without one, there is a redirect without a message.
  unfoldable pub edit_failed : Text → ScriptTables → Response
  edit_failed name t = elim (get_script_or_raise md5 parse_persistent name t) [
    | err e ↦ moved (codes "/admin/scripts")
    | ok r ↦ page 422 (codes "admin/script_edit.html")
  ]

  unfoldable pub admin_script_edit_submit :
      ℕ → Text → Text → Text → User → ScriptTables → Response × ScriptTables
  admin_script_edit_submit now name content meta_yaml user t =
      elim (update_script md5 parse_persistent name content (or_none (strip meta_yaml)) user.id now
        t) [
          | err e ↦ (edit_failed name t, t)
          | ok t' ↦ (to_scripts (quoted name (codes "' updated.")) (codes "success"), t')
        ]

  unfoldable pub admin_script_delete : Text → ScriptTables → Response × ScriptTables
  admin_script_delete name t = elim (delete_script md5 parse_persistent name t) [
    | err e ↦ (to_scripts (quoted name (codes "' not found.")) (codes "error"), t)
    | ok t' ↦ (to_scripts (quoted name (codes "' deleted.")) (codes "success"), t')
  ]

  -- The pages do to the scripts what the endpoints do with the metadata stripped, succeed and fail with
  -- them, and differ from them in the audit log.
  pub admin_scripts-endpoints :
      (i now : ℕ) (name content meta_yaml : Text) (admin : User) (s : Registry)
      → ((admin_script_new_submit i now name content meta_yaml admin s.tables).1
          ≡ (create_script_endpoint md5 parse_persistent i now
              (record { name = name; content = content; meta_yaml = or_none (strip meta_yaml) })
              admin
              s).1.tables)
        × ((admin_script_edit_submit now name content meta_yaml admin s.tables).1
            ≡ (update_script_endpoint md5 parse_persistent now name
                (record { content = content; meta_yaml = or_none (strip meta_yaml) })
                admin
                s).1.tables)
        × ((admin_script_delete name s.tables).1
            ≡ (delete_script_endpoint md5 parse_persistent now name admin s).1.tables)
  unfolding admin_script_new_submit admin_script_edit_submit admin_script_delete
      create_script_endpoint update_script_endpoint delete_script_endpoint
  admin_scripts-endpoints i now name content meta_yaml admin s =
      (ground arith, ground arith, ground arith)

-- The fields of the form, stripped.
abbrev pub registration_form : Text → Text → Text → ℤ → Text → Text → RegisterMachineIn
registration_form bundle name ssh_host ssh_port ssh_user mac_address = record {
  bundle = strip bundle;
  name = strip name;
  ssh_host = strip ssh_host;
  ssh_port = ssh_port;
  ssh_user = or_none (strip ssh_user);
  mac_address = or_none (strip mac_address);
}

abbrev to_machines : Text → Text → Response
to_machines message category = redirect_with_flash (codes "/admin/machines") message category 303

-- `fingerprint_of` computes the fingerprint of the host key of a row.
module _ (c : Codec) (w : World) (aead : Aead) (fingerprint_of : Machine → Text) where
  unfoldable pub admin_machine_new_submit :
      Moment → RegisterMachineIn → User → MachineTables → Response × MachineTables
  admin_machine_new_submit at reg user t =
      let (r, t') = register_machine_from_input c w aead at reg user.id t in
      elim r [
        | err e ↦ (page 422 (codes "admin/machine_new.html"), t')
        | ok machine ↦ (
          to_machines
              (codes "Machine '"
                ++ machine.name
                ++ codes
                    "' registered. Confirm this SSH host-key fingerprint with the target owner out-of-band: "
                ++ fingerprint_of machine)
              (codes "success"),
          t',
        )
      ]

unfoldable pub admin_machine_delete : ℕ → MachineTables → Response × MachineTables
admin_machine_delete machine_id t = elim (find_machine machine_id t.machines) [
  | none ↦ (to_machines (codes "Machine not found.") (codes "error"), t)
  | some machine ↦ (
    to_machines (codes "Machine '" ++ machine.name ++ codes "' deleted.") (codes "success"),
    record t {
      machines = filter (λ m. not (nat_eq m.id machine_id)) t.machines;
      user_machines = filter (λ p. not (nat_eq p.1 machine_id)) t.user_machines;
    },
  )
]
