-- ===== src/AdoptionSsh/Execute.antt =====
-- internal/adoptionssh/handler.go: `Execute` and `executeOne`. A command line may hold another one
-- behind `sh -c`, so `execute` runs on fuel; `AdoptionSsh.Execute.Total` shows how much is enough.
pub mod Total
pub mod Outcome
use unifi_stubd.Prelude.{
  ℕ, suc, zero, Bool, true, false, ◌&&◌, ◌||◌, Option, none, some, List, [], ◌∷◌, ◌++◌, length, leb,
  get_or, drop, ◌==◌, if◌then◌else◌,
}
use unifi_stubd.Prelude.Text.{Bytes, codes, same, is_empty, join, trim_space}
use unifi_stubd.Prelude.Text.Lines.{split_byte}
use unifi_stubd.AdoptionSsh.Parse.{split_commands, command_fields}
use unifi_stubd.AdoptionSsh.State.{Handler, World, Run}
use unifi_stubd.AdoptionSsh.Handler.{said, handle_command}

-- `auditCommandName`.
abbrev pub vocabulary : List Bytes
vocabulary =
    codes "syswrapper.sh"
    ∷ codes "mca-cli-op"
    ∷ codes "info"
    ∷ codes "set-inform"
    ∷ codes "mca-cli"
    ∷ codes "ubntbox"
    ∷ codes "reset2defaults"
    ∷ codes "restore-default"
    ∷ codes "hostname"
    ∷ codes "uname"
    ∷ codes "cat"
    ∷ codes "echo"
    ∷ codes "true"
    ∷ codes "exit"
    ∷ codes "quit"
    ∷ []

unfoldable pub one_of : List Bytes → Bytes → Bool
one_of [] s = false
one_of (w ∷ ws) s = same w s || one_of ws s

unfoldable pub audit_command_name : Bytes → Bytes
audit_command_name name = if one_of vocabulary name then name else codes "unsupported"

-- The last part that is not empty, as `path.Base` takes it.
unfoldable pub last_part : Bytes → List Bytes → Bytes
last_part found [] = found
last_part found (p ∷ ps) = last_part (if is_empty p then found else p) ps

unfoldable pub base : Bytes → Bytes
base path = if is_empty path then codes "." else last_part (codes "/") (split_byte b'/' path)

-- `executeOne` behind the splitting into fields and the `sudo`.
abbrev pub is_shell : List Bytes → Bool
is_shell args =
    (same (get_or args 0 []) (codes "sh") || same (get_or args 0 []) (codes "/bin/sh"))
    && leb 3 (length args)
    && same (get_or args 1 []) (codes "-c")

-- The rest of the commands after one, whose output comes first.
abbrev pub after_text : Bytes → Option Run → Option Run
after_text text none = none
after_text text (some r) = some (record r { text = text ++ r.text })

-- The next commands are run only after one that did not fail.
abbrev pub and_then : Option Run → (World → Option Run) → Option Run
and_then none next = none
and_then (some r) next = if r.code == 0 then after_text r.text (next r.world) else some r

module _ (h : Handler) where
  -- The command with its audit entry.
  unfoldable pub audited : List Bytes → World → Run
  audited args w =
      let name = base (get_or args 0 []) in
      handle_command h name args (record w { log = audit_command_name name ∷ w.log })

  -- `again` is `Execute` for the command line behind `sh -c`.
  unfoldable pub execute_args : (Bytes → World → Option Run) → List Bytes → World → Option Run
  execute_args again [] w = some (said (codes "OK\n") w)
  execute_args again (a ∷ args) w =
      if is_shell (a ∷ args)
      then again (join (codes " ") (drop 2 (a ∷ args))) w
      else some (audited (a ∷ args) w)

  -- `executeOne`, by the fields of the command.
  unfoldable pub execute_fields : (Bytes → World → Option Run) → List Bytes → World → Option Run
  execute_fields again [] w = some (said [] w)
  execute_fields again (a ∷ args) w =
      if same a (codes "sudo") then execute_args again args w else execute_args again (a ∷ args) w

  -- The loop of `Execute`, which ends at the first command that fails.
  unfoldable pub execute_parts : (Bytes → World → Option Run) → List Bytes → World → Option Run
  execute_parts again [] w = some (said [] w)
  execute_parts again (p ∷ ps) w =
      and_then (execute_fields again (command_fields (trim_space p)) w) (execute_parts again ps)

  -- `Execute`; `none` where the fuel is used up.
  unfoldable pub execute : ℕ → Bytes → World → Option Run
  execute zero command w = none
  execute (suc n) command w = execute_parts (execute n) (split_commands command) w
