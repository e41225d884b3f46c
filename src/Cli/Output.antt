-- ===== src/Cli/Output.antt =====
-- How the command line publishes a report (src/effectprobe/_cli.py, _write_report and _emit).
pub mod Writes
use effect_probe.Prelude.{
  ℕ, zero, suc, ◌+◌, String, Bool, ◌||◌, List, [], ◌∷◌, drop, length, ltb, str_eq, format,
  if◌then◌else◌,
}
use effect_probe.Exception.{
  Exc, interrupt, Outcome, value, raised, M, pure, raise, ◌>>=◌, ◌>>◌, type_name,
}
use effect_probe.Exception.Catch.{catch, finally}
use effect_probe.Artifact.Objects.{member}
use effect_probe.Cli.{
  FailureCategory, cli_failure, Host, unicode_errors, is_os_error, is_cli_failure,
  or_output_failure,
}

-- What the model raises where the fuel does not suffice.
abbrev pub out_of_fuel : Exc
out_of_fuel = interrupt (record { type_name = "OutOfFuel"; text = "" })

module _ {W : Type 0} (host : Host W) where
  -- The loop of writes, on fuel.
  unfoldable pub write_from : ℕ → ℕ → List ℕ → ℕ → M W Unit
  write_from zero descriptor data_bytes offset =
      if ltb offset (length data_bytes) then raise out_of_fuel else pure tt
  write_from (suc fuel) descriptor data_bytes offset =
      let step = host.write descriptor (drop offset data_bytes) >>= λ written.
      write_from fuel descriptor data_bytes (offset + written) in
      if ltb offset (length data_bytes) then step else pure tt

  -- Each write takes a byte at least, so there are no more writes than bytes.
  unfoldable pub write_all : ℕ → List ℕ → M W Unit
  write_all descriptor data_bytes = write_from (length data_bytes) descriptor data_bytes 0

  unfoldable pub write_temporary : ℕ → List ℕ → M W Unit
  write_temporary descriptor data_bytes =
      finally (host.close descriptor)
        (host.fchmod descriptor >> write_all descriptor data_bytes >> host.fsync descriptor)

  unfoldable pub sync_directory : String → M W Unit
  sync_directory path = do
    descriptor ← host.open_directory path
    finally (host.close descriptor) (host.fsync descriptor)

  -- `with suppress(OSError): temporary_path.unlink(missing_ok=True)`
  unfoldable pub discard : String → M W Unit
  discard temporary = catch is_os_error (λ e. pure tt) (host.unlink temporary)

  -- `text.encode("utf-8")`
  abbrev encoded : String → M W (List ℕ)
  encoded text w = (host.encode text, w)

  -- `_write_report`
  unfoldable pub write_report : String → String → M W Unit
  write_report path rendered = do
    data_bytes ← encoded rendered
    or_output_failure (do
      (descriptor, temporary) ←
          host.mkstemp (format ("." ∷ host.file_name path ∷ "." ∷ [])) (host.parent path)
      finally (discard temporary) (do
        write_temporary descriptor data_bytes
        or_output_failure (host.link temporary path)
        sync_directory (host.parent path)))

  abbrev output_error : Exc → Bool
  output_error e = is_os_error e || member (type_name e) unicode_errors

  -- `_emit`
  unfoldable pub emit : String → String → M W Unit
  emit rendered destination =
      catch output_error (λ e. raise (cli_failure FailureCategory.output))
        (if str_eq destination "-"
          then host.write_stdout rendered >> host.flush_stdout
          else write_report destination rendered)
