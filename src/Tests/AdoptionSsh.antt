-- ===== src/Tests/AdoptionSsh.antt =====
-- Runs of the SSH commands.
use unifi_stubd.Prelude.{◌≡◌, refl, arith, false, none, some, [], ◌∷◌, inl}
use unifi_stubd.Prelude.Text.{Bytes, codes, same, join, trim_space}
use unifi_stubd.Prelude.Text.Lines.{split_byte}
use unifi_stubd.AdoptionSsh.Parse.{
  replace_separators, trimmed_parts, split_commands, act_of, fields_from, command_fields,
}
use unifi_stubd.AdoptionSsh.State.{Handler, World, Run}
use unifi_stubd.AdoptionSsh.Handler.{handle_command}
use unifi_stubd.AdoptionSsh.Execute.{
  one_of, audit_command_name, last_part, base, audited, execute_args, execute_fields, execute_parts,
  execute,
}
use unifi_stubd.AdoptionSsh.Execute.Outcome.{IsSafe, execute-IsSafe}
use unifi_stubd.AdoptionSsh.Execute.Total.{execute-Ends}

abbrev handler : Handler
handler = record {
  state_path = codes "/state";
  identity = record {
    mac = codes "00:11:22:33:44:55";
    ip = codes "10.0.0.2";
    hostname = codes "stub";
    model = codes "USF5P";
    version = codes "6.6.0";
    inform_url = [];
  };
  parse_url = λ s. none;
  faults = λ n. record { fails = λ c. false; written = 0 };
  unreadable = λ n. false;
}

abbrev world : World
world = record { disk = record { target = none; temp = none }; accesses = 0; log = [] }

abbrev line : Bytes
line = codes "sh -c 'hostname'"

abbrev finished : Run
finished = record {
  text = codes "stub\n";
  code = 0;
  world = record {
    disk = record { target = none; temp = none };
    accesses = 0;
    log = codes "hostname" ∷ [];
  };
}

quoted_line : command_fields line ≡ codes "sh" ∷ codes "-c" ∷ codes "hostname" ∷ []
unfolding command_fields fields_from act_of
quoted_line = refl

line_run : execute handler 3 line world ≡ some finished
unfolding execute execute_parts execute_fields execute_args audited audit_command_name one_of base
    last_part handle_command split_commands trimmed_parts replace_separators split_byte trim_space
    command_fields fields_from act_of same join
line_run = refl

execute-IsSafe_example : IsSafe handler finished.world
execute-IsSafe_example = execute-IsSafe handler 3 line world finished line_run (inl refl, tt)

execute-Ends_example : (r : Run) × (execute handler 20 line world ≡ some r)
execute-Ends_example = execute-Ends handler 20 line (omega arith) world
