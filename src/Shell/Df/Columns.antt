-- ===== src/Shell/Df/Columns.antt =====
-- Which outputs of df are understood.
use Prim.Native.String
use rpi_nest_api.Prelude.{ℕ, ◌<◌, zero, suc, String, false, ◌≡◌, refl, ap, List, [], ◌∷◌, arith}
use rpi_nest_api.Exec.{Result, ok}
use rpi_nest_api.Text.{split, trim_start}
use rpi_nest_api.Text.Split.{Lacks, Lacks-append, split_whole, split-append}
use rpi_nest_api.Text.Number.{non_negative, parse_int, is_empty, exact_bound}
use rpi_nest_api.Text.Number.Digits.{AreDigits, value, parse_int-value, digits-Lacks}
use rpi_nest_api.Shell.ChildProcess.{ChildProcess, settled, spawn}
use rpi_nest_api.Shell.Df.{
  DiskSpaceInformation, df_executable, columns, unparsable, parse_df, get_disk_space_information,
}

-- A text with so many spaces before it
abbrev pub padded : ℕ → String → String
padded zero s = s
padded (suc n) s = String.◌∷◌ " " (padded n s)

-- A header, a line with the two columns, each with so many more spaces before it than the one that
-- stands between them, and what follows
abbrev pub line_of : ℕ → String → ℕ → String → String
line_of lead used gap available =
    padded lead (String.◌++◌ used (String.◌∷◌ " " (padded gap available)))

abbrev pub printed : String → String → String → String
printed header line rest =
    String.◌++◌ header (String.◌∷◌ "\n" (String.◌++◌ line (String.◌∷◌ "\n" rest)))

abbrev pub IsNumber : String → Type 0
IsNumber s = AreDigits s × (is_empty s ≡ false) × (value s < exact_bound)

Lacks-padded : (n : ℕ) (s : String) → Lacks 10 s → Lacks 10 (padded n s)
Lacks-padded zero s h = h
Lacks-padded (suc n) s h = (refl, Lacks-padded n s h)

columns_empty : (ts : List String) → columns ("" ∷ ts) ≡ unparsable
unfolding parse_int trim_start
columns_empty [] = refl
columns_empty (t ∷ ts) = refl

parse_df-columns :
    (header line rest : String)
    → Lacks 10 header
    → Lacks 10 line
    → parse_df (printed header line rest) ≡ columns (split b' ' line)
unfolding parse_df
parse_df-columns header line rest h l =
    rw (split-append 10 header "\n" _ h refl, split-append 10 line "\n" rest l refl)

abbrev pub understood : ℕ → String → ℕ → String → Result DiskSpaceInformation
understood zero used zero available =
    ok (record { available = non_negative (value available); used = non_negative (value used) })
understood _ used _ available = unparsable

columns-understood :
    (lead : ℕ) (used : String) (gap : ℕ) (available : String)
    → IsNumber used
    → IsNumber available
    → columns (split b' ' (line_of lead used gap available)) ≡ understood lead used gap available
unfolding split parse_int
columns-understood (suc lead) used gap available u a = columns_empty _
columns-understood zero used (suc gap) available u a =
    rw
      (
        split-append b' ' used " " _ (digits-Lacks b' ' used (omega arith) u.0) refl,
        parse_int-value used u.0 u.1 u.2,
      )
      refl
columns-understood zero used zero available u a = rw (
  split-append b' ' used " " available (digits-Lacks b' ' used (omega arith) u.0) refl,
  split_whole b' ' available (digits-Lacks b' ' available (omega arith) a.0),
  parse_int-value used u.0 u.1 u.2,
  parse_int-value available a.0 a.1 a.2,
)

Lacks-line_of :
    (lead : ℕ) (used : String) (gap : ℕ) (available : String)
    → IsNumber used
    → IsNumber available
    → Lacks 10 (line_of lead used gap available)
Lacks-line_of lead used gap available u a = Lacks-padded lead _ (
    Lacks-append 10 used _ (digits-Lacks 10 used (omega arith) u.0)
      (refl, Lacks-padded gap available (digits-Lacks 10 available (omega arith) a.0)))

-- Where df succeeds and prints a header and a line with two numbers below 2 ^ 53, and they stand at
-- the line's start and with one space between them, the disk space is their decimal values; where df
-- pads either of them with more spaces, the request fails.
pub get_disk_space_information_lem :
    (os : String → List String → ChildProcess) (header rest used available : String) (lead gap : ℕ)
    → spawn os df_executable ("/" ∷ "--output=used,avail" ∷ [])
      ≡ settled (ok (printed header (line_of lead used gap available) rest))
    → Lacks 10 header
    → IsNumber used
    → IsNumber available
    → get_disk_space_information os ≡ settled (understood lead used gap available)
unfolding get_disk_space_information
get_disk_space_information_lem os header rest used available lead gap p h u a =
    rw (p, parse_df-columns header _ rest h (Lacks-line_of lead used gap available u a))
      (ap settled (columns-understood lead used gap available u a))
