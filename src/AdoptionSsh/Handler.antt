-- ===== src/AdoptionSsh/Handler.antt =====
-- internal/adoptionssh/commands.go and handler.go: the commands, by their names. Those of the Go
-- methods that only log have no counterpart.
pub mod Safe
use unifi_stubd.Prelude.{
  ℕ, Bool, true, false, not, ◌&&◌, ◌||◌, List, [], ◌∷◌, ◌++◌, length, ltb, get_or, drop,
  if◌then◌else◌,
}
use unifi_stubd.Prelude.Text.{Bytes, codes, same, is_empty, join}
use unifi_stubd.AdoptionSsh.Parse.{find_inform_url}
use unifi_stubd.AdoptionSsh.State.{
  Identity, Handler, World, Run, or_default, save_state, reset_state,
}

abbrev pub said : Bytes → World → Run
said text w = record { text = text; code = 0; world = w }

-- `stateCommandFailure`.
abbrev pub state_command_failure : World → Run
state_command_failure w = record {
  text = codes "Adoption state update failed\n";
  code = 1;
  world = w;
}

-- The answer to an access to the adoption file.
abbrev pub answered : Bytes → World × Bool → Run
answered text (w, true) = said text w
answered text (w, false) = state_command_failure w

-- `info`.
unfoldable pub info : Identity → Bytes
info id =
    codes "Model:       "
    ++ id.model
    ++ codes "\nVersion:     "
    ++ or_default id.version (codes "6.6.0")
    ++ codes "\nMAC Address: "
    ++ id.mac
    ++ codes "\nIP Address:  "
    ++ id.ip
    ++ codes "\nHostname:    "
    ++ or_default id.hostname (codes "unifi-stubd")
    ++ codes "\nUptime:      1 seconds\nStatus:      Not Adopted ("
    ++ or_default id.inform_url (codes "http://unifi:8080/inform")
    ++ codes ")\n"

module _ (h : Handler) where
  abbrev pub factory_reset : World → Run
  factory_reset w = answered (codes "Factory reset accepted\n") (reset_state h w)

  -- A command that is acknowledged, with a call of `saveState("", "")`.
  abbrev pub acknowledged : World → Run
  acknowledged w = answered (codes "OK\n") (save_state h [] [] w)

  -- `handleSetInform`.
  unfoldable pub handle_set_inform : List Bytes → World → Run
  handle_set_inform args w =
      let url = find_inform_url args in
      answered
        (if is_empty url
          then codes "Inform command accepted\n"
          else codes "Inform URL set: " ++ url ++ codes "\n")
        (save_state h url [] w)

  -- `handleSyswrapper`.
  unfoldable pub handle_syswrapper : List Bytes → World → Run
  handle_syswrapper args w =
      let sub = get_or args 1 [] in
      let url = get_or args 2 [] in
      if ltb (length args) 2
      then said (info h.identity) w
      else if same sub (codes "set-adopt")
      then answered
          (if is_empty url
            then codes "Adoption command accepted\n"
            else codes "Adoption request accepted: " ++ url ++ codes "\n")
          (save_state h url (get_or args 3 []) w)
      else if same sub (codes "set-inform")
      then handle_set_inform args w
      else if same sub (codes "info") || same sub (codes "status") || same sub (codes "get-info")
      then said (info h.identity) w
      else if same sub (codes "restore-default") || same sub (codes "reset2defaults")
      then factory_reset w
      else acknowledged w

  -- `handleMCA`.
  unfoldable pub handle_mca : List Bytes → World → Run
  handle_mca args w =
      let sub = get_or args 1 [] in
      if ltb (length args) 2
      then said (codes "UniFi CLI shim\n") w
      else if same sub (codes "op") && ltb 2 (length args)
      then handle_set_inform (drop 1 args) w
      else if same sub (codes "set-inform")
      then handle_set_inform args w
      else if same sub (codes "info") || same sub (codes "status")
      then said (info h.identity) w
      else acknowledged w

  -- `handleCat`.
  unfoldable pub handle_cat : List Bytes → Bytes
  handle_cat args =
      let file = get_or args 1 [] in
      if ltb (length args) 2
      then []
      else if same file (codes "/etc/version") || same file (codes "/usr/lib/version")
      then h.identity.version ++ codes "\n"
      else if same file (codes "/proc/ubnthal/system.info")
      then info h.identity
      else []

  -- The default case of the `switch` of `executeOne`.
  unfoldable pub handle_other : List Bytes → World → Run
  handle_other args w =
      let url = find_inform_url args in
      if is_empty url
      then acknowledged w
      else answered (codes "Adoption request accepted: " ++ url ++ codes "\n")
          (save_state h url [] w)

  -- The `switch` of `executeOne` over the name of the command.
  unfoldable pub handle_command : Bytes → List Bytes → World → Run
  handle_command name args w =
      if same name (codes "syswrapper.sh")
      then handle_syswrapper args w
      else if same name (codes "mca-cli-op")
      then (if ltb 1 (length args) && same (get_or args 1 []) (codes "info")
          then said (info h.identity) w
          else handle_set_inform args w)
      else if same name (codes "info")
      then said (info h.identity) w
      else if same name (codes "set-inform")
      then handle_set_inform args w
      else if same name (codes "mca-cli")
      then handle_mca args w
      else if same name (codes "ubntbox")
      then acknowledged w
      else if same name (codes "reset2defaults") || same name (codes "restore-default")
      then factory_reset w
      else if same name (codes "hostname")
      then said (h.identity.hostname ++ codes "\n") w
      else if same name (codes "uname")
      then said (codes "Linux unifi-stubd-lab 6.18.22-0-virt #1-Alpine SMP aarch64 GNU/Linux\n") w
      else if same name (codes "cat")
      then said (handle_cat args) w
      else if same name (codes "echo")
      then said (join (codes " ") (drop 1 args) ++ codes "\n") w
      else if same name (codes "true") || same name (codes "exit") || same name (codes "quit")
      then said [] w
      else handle_other args w
