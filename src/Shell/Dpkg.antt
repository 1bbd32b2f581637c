-- ===== src/Shell/Dpkg.antt =====
-- src/shell-command/command-services/dpkg-command.service.ts: the list of installed packages. A
-- field of a package is `none` where the output has no such value.
use Prim.Native.String
use rpi_nest_api.Prelude.{String, Option, List, [], ◌∷◌, map, get_elem?, template}
use rpi_nest_api.Exec.{Result, ok, err}
use rpi_nest_api.Text.{split, join}
use rpi_nest_api.Shell.ChildProcess.{ChildProcess, Promise, pending, settled, spawn}
pub mod Listing

-- PackageInfo
pub record PackageInfo : Type 0 where
  pub package_name : Option String
  pub version : Option String
  pub architecture : Option String
  pub section : Option String
  pub summary : Option String
  pub homepage : Option String

abbrev pub dpkg_executable : String
dpkg_executable = "/usr/bin/dpkg-query"

abbrev pub dpkg_output_fields : List String
dpkg_output_fields =
    "Package" ∷ "Version" ∷ "Architecture" ∷ "Section" ∷ "binary:Summary" ∷ "Homepage" ∷ []

abbrev pub wrapped_field : String → String
wrapped_field field = template ("${" ∷ field ∷ "}" ∷ [])

unfoldable pub build_show_format_argument : String
build_show_format_argument =
    template ("--showformat='" ∷ join "|" (map wrapped_field dpkg_output_fields) ∷ "\\n'" ∷ [])

abbrev pub package_of : List String → PackageInfo
package_of values = record {
  package_name = get_elem? values 0;
  version = get_elem? values 1;
  architecture = get_elem? values 2;
  section = get_elem? values 3;
  summary = get_elem? values 4;
  homepage = get_elem? values 5;
}

unfoldable pub parse_dpkg_output_line : String → PackageInfo
parse_dpkg_output_line line = package_of (split b'|' line)

-- `const lines = output.split('\n'); return lines.map(...)` after an `await`
abbrev pub parsed : Promise String → Promise (List PackageInfo)
parsed pending = pending
parsed (settled (ok output)) = settled (ok (map parse_dpkg_output_line (split 10 output)))
parsed (settled (err e)) = settled (err e)

unfoldable pub get_installed_packages :
    (String → List String → ChildProcess) → Promise (List PackageInfo)
get_installed_packages os =
    parsed (spawn os dpkg_executable ("--show" ∷ build_show_format_argument ∷ []))
