-- ===== src/Shell/Dpkg/Listing.antt =====
-- What the service makes of the lines that dpkg-query prints.
use Prim.Native.String
use rpi_nest_api.Prelude.{
  ℕ, String, true, ◌≡◌, refl, ap, ◌∙◌, none, some, List, [], ◌∷◌, ◌++◌, map, All,
}
use rpi_nest_api.Exec.{ok}
use rpi_nest_api.Text.{split}
use rpi_nest_api.Text.Split.{Lacks, Lacks-append, split_whole, split-append}
use rpi_nest_api.Shell.ChildProcess.{ProcessEvent, ChildProcess, close, settled}
use rpi_nest_api.Shell.ChildProcess.Laws.{
  IsRunning, IsUnsplit, stdout_bytes, stdout_of-IsUnsplit, spawn_closed,
}
use rpi_nest_api.Shell.Dpkg.{
  PackageInfo, parse_dpkg_output_line, get_installed_packages, dpkg_executable,
  build_show_format_argument,
}

-- A package as dpkg knows it.
pub record Package : Type 0 where
  pub package_name : String
  pub version : String
  pub architecture : String
  pub section : String
  pub summary : String
  pub homepage : String

-- Neither the separator of the fields nor a line feed stands in the text.
abbrev pub IsPlain : String → Type 0
IsPlain s = Lacks b'|' s × Lacks 10 s

pub record HasPlainFields (p : Package) : Type 0 where
  pub package_name : IsPlain p.package_name
  pub version : IsPlain p.version
  pub architecture : IsPlain p.architecture
  pub section : IsPlain p.section
  pub summary : IsPlain p.summary
  pub homepage : IsPlain p.homepage

abbrev bar : String → String → String
bar s t = String.◌++◌ s (String.◌∷◌ "|" t)

-- The line of a package in the requested format, and the lines of some packages, each with its end.
abbrev pub line_of : Package → String
line_of p =
    bar p.package_name
      (bar p.version (bar p.architecture (bar p.section (bar p.summary p.homepage))))

abbrev pub printed : List Package → String
printed [] = ""
printed (p ∷ ps) = String.◌++◌ (line_of p) (String.◌∷◌ "\n" (printed ps))

abbrev pub info_of : Package → PackageInfo
info_of p = record {
  package_name = some p.package_name;
  version = some p.version;
  architecture = some p.architecture;
  section = some p.section;
  summary = some p.summary;
  homepage = some p.homepage;
}

-- The entry for the empty text that follows the last line feed.
abbrev pub nameless : PackageInfo
nameless = record {
  package_name = some "";
  version = none;
  architecture = none;
  section = none;
  summary = none;
  homepage = none;
}

Lacks-bar : (s t : String) → Lacks 10 s → Lacks 10 t → Lacks 10 (bar s t)
Lacks-bar s t h g = Lacks-append 10 s (String.◌∷◌ "|" t) h (refl, g)

Lacks-line_of : (p : Package) → HasPlainFields p → Lacks 10 (line_of p)
Lacks-line_of p h = Lacks-bar p.package_name _ h.package_name.1 (
    Lacks-bar p.version _ h.version.1 (
      Lacks-bar p.architecture _ h.architecture.1 (
        Lacks-bar p.section _ h.section.1
          (Lacks-bar p.summary p.homepage h.summary.1 h.homepage.1))))

split-bar : (s t : String) → Lacks b'|' s → split b'|' (bar s t) ≡ s ∷ split b'|' t
split-bar s t h = split-append b'|' s "|" t h refl

parse-line_of : (p : Package) → HasPlainFields p → parse_dpkg_output_line (line_of p) ≡ info_of p
unfolding parse_dpkg_output_line
parse-line_of p h = rw (
  split-bar p.package_name
      (bar p.version (bar p.architecture (bar p.section (bar p.summary p.homepage))))
      h.package_name.0,
  split-bar p.version (bar p.architecture (bar p.section (bar p.summary p.homepage))) h.version.0,
  split-bar p.architecture (bar p.section (bar p.summary p.homepage)) h.architecture.0,
  split-bar p.section (bar p.summary p.homepage) h.section.0,
  split-bar p.summary p.homepage h.summary.0,
  split_whole b'|' p.homepage h.homepage.0,
)

parse_nothing : parse_dpkg_output_line "" ≡ nameless
unfolding parse_dpkg_output_line split
parse_nothing = refl

parse-printed :
    (ps : List Package)
    → All HasPlainFields ps
    → map parse_dpkg_output_line (split 10 (printed ps)) ≡ map info_of ps ++ nameless ∷ []
parse-printed [] h =
    ap (λ lines. map parse_dpkg_output_line lines) (split_whole 10 "" tt)
    ∙ ap (λ i. i ∷ []) parse_nothing
parse-printed (p ∷ ps) (h, hs) = rw (
  split-append 10 (line_of p) "\n" (printed ps) (Lacks-line_of p h) refl,
  parse-line_of p h,
  parse-printed ps hs,
)

-- If dpkg-query succeeds and its whole output decodes to the lines of some packages, whose fields
-- hold neither the separator nor a line feed, and no character of it is split between two chunks,
-- the service lists these packages in order with all their fields, and after them one more entry
-- with an empty name and no other field.
pub get_installed_packages_lem :
    (os : String → List String → ChildProcess) (decode : List ℕ → String) (ps : List Package)
    (es rest : List ProcessEvent)
    → let child = os dpkg_executable ("--show" ∷ build_show_format_argument ∷ []) in
      child.has_stdout ≡ true
      → child.has_stderr ≡ true
      → child.events ≡ es ++ close (some 0) ∷ rest
      → IsRunning es
      → IsUnsplit decode es
      → decode (stdout_bytes es) ≡ printed ps
      → All HasPlainFields ps
      → get_installed_packages os ≡ settled (ok (map info_of ps ++ nameless ∷ []))
unfolding get_installed_packages
get_installed_packages_lem os decode ps es rest o e c r u s h = rw (
  spawn_closed os dpkg_executable ("--show" ∷ build_show_format_argument ∷ []) es rest (some 0) o e
      c r,
  stdout_of-IsUnsplit decode es u,
  s,
  parse-printed ps h,
)
