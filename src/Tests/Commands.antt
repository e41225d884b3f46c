-- ===== src/Tests/Commands.antt =====
-- The command line on a small world: the files that are there, and what was printed.
use effect_probe.Prelude.{
  ◌≡◌, ◌≢◌, ◌↔◌, refl, sym, String, Bool, true, false, List, [], ◌∷◌, length, str_eq, if◌then◌else◌,
}
use effect_probe.Exception.{other, value, raised, M, pure, raise, ◌>>=◌, type_name}
use effect_probe.Exception.Bind.{value_eq, raised-ne-value}
use effect_probe.Exception.Catch.{catch}
use effect_probe.Store.{Mode}
use effect_probe.Artifact.Objects.{member}
use effect_probe.Cli.{
  ReportFormat, run_command, Services, Host, require_artifact_path, require_absent,
  preflight_destination, preflight_report_output,
}
use effect_probe.Cli.Output.{out_of_fuel, write_all, emit}
use effect_probe.Cli.Output.Writes.{Writes, write_all-ends}
use effect_probe.Cli.Execute.{render, build, report_on, execute}
use effect_probe.Cli.Execute.Runs.{Ran, run-Ran_iff}
use effect_probe.Cli.Main.{Values, Parsed, parsed, command_of, main}
use effect_probe.Cli.Main.Status.{main-zero_iff}

record Disk : Type 0 where
  files : List String
  printed : List String

abbrev found : Bool → M Disk Bool
found here =
    if here
    then pure false
    else raise (other (record { type_name = "FileNotFoundError"; text = "" }))

abbrev host : Host Disk
host = record {
  lstat = λ path w. (if str_eq path "." then pure true else found (member path w.files)) w;
  abspath = λ path. pure path;
  parent = λ path. ".";
  file_name = λ path. path;
  encode = λ text. value (7 ∷ []);
  mkstemp = λ prefix directory. pure (3, ".tmp");
  fchmod = λ descriptor. pure tt;
  write = λ descriptor bytes. pure (length bytes);
  fsync = λ descriptor. pure tt;
  close = λ descriptor. pure tt;
  link = λ source target w. pure tt (record w { files = target ∷ w.files });
  open_directory = λ path. pure 4;
  unlink = λ path. pure tt;
  write_stdout = λ text w. pure tt (record w { printed = text ∷ w.printed });
  flush_stdout = pure tt;
  write_stderr = λ text. pure tt;
  flush_stderr = pure tt;
}

abbrev services : Services Disk Unit
services = record {
  record_evidence = λ mode path w. pure tt (record w { files = path ∷ w.files });
  replay_evidence = λ source path w. pure tt (record w { files = path ∷ w.files });
  build_report = λ path. pure tt;
  render_terminal = λ r. pure "report";
  render_json = λ r. pure "{}";
  render_junit = λ r. pure "<testsuite/>";
}

abbrev values : Values
values = record {
  command = "run";
  mode = Mode.keyed;
  source = "";
  artifact = "evidence.json";
  report_format = ReportFormat.json;
  destination = "-";
}

abbrev parse_args : List String → M Disk Parsed
parse_args argv = pure (parsed values)

abbrev empty_disk : Disk
empty_disk = record { files = []; printed = [] }

abbrev full_disk : Disk
full_disk = record { files = "evidence.json" ∷ []; printed = "{}" ∷ [] }

-- A run on an empty disk ends well, with the artifact and the report.
run_runs : main host services parse_args [] empty_disk ≡ (value 0, full_disk)
unfolding main execute command_of preflight_destination preflight_report_output
    require_artifact_path require_absent build render report_on emit catch type_name ◌>>=◌
run_runs = refl

main-zero_iff_example :
    (main host services parse_args [] empty_disk ≡ (value 0, full_disk))
    ↔ (execute host services (command_of values) empty_disk ≡ (value tt, full_disk))
main-zero_iff_example =
    main-zero_iff host services parse_args [] values empty_disk empty_disk full_disk refl

run-Ran_iff_example :
    (execute host services
        (run_command Mode.unsafe "evidence.json" ReportFormat.terminal "-")
        empty_disk
      ≡ (value tt, full_disk))
    ↔ Ran host services Mode.unsafe "evidence.json" ReportFormat.terminal "-" empty_disk full_disk
run-Ran_iff_example =
    run-Ran_iff host services Mode.unsafe "evidence.json" ReportFormat.terminal "-" empty_disk
      full_disk

host-Writes : Writes host
host-Writes = record {
  progress = λ descriptor bytes w some_bytes e. rw (sym (value_eq e)) some_bytes;
  honest = λ descriptor bytes w e. raised-ne-value (sym e);
}

write_all-ends_example : write_all host 3 (1 ∷ 2 ∷ []) empty_disk ≢ (raised out_of_fuel, empty_disk)
write_all-ends_example = write_all-ends host 3 (1 ∷ 2 ∷ []) empty_disk empty_disk host-Writes
