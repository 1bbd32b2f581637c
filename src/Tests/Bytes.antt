-- ===== src/Tests/Bytes.antt =====
-- Chunks of bytes and their decoding, for ASCII.
use Prim.Native.Char.{code}
use Prim.Native.String
use rpi_nest_api.Prelude.{ℕ, zero, suc, ◌-◌, String, List, [], ◌∷◌, true, eqb, if◌then◌else◌, some}
use rpi_nest_api.Shell.ChildProcess.{Buffer, ChildProcess, stdout_data, close}

abbrev codes : String → List ℕ
codes String.[] = []
codes (String.◌∷◌ c s) = code c ∷ codes s

abbrev pub buffer : String → Buffer
buffer text = record { bytes = codes text; to_string = text }

-- A process that prints a text in one chunk and succeeds
abbrev pub printing : String → ChildProcess
printing text = record {
  has_stdout = true;
  has_stderr = true;
  events = stdout_data (buffer text) ∷ close (some 0) ∷ [];
}

-- The characters from the space on
abbrev printable : String
printable =
    " !\"#$%&'()*+,-./0123456789:;<=>?@ABCDEFGHIJKLMNOPQRSTUVWXYZ[\\]^_`abcdefghijklmnopqrstuvwxyz{|}~"

abbrev letter : ℕ → String → String
letter n String.[] = ""
letter zero (String.◌∷◌ c s) = String.◌∷◌ c ""
letter (suc n) (String.◌∷◌ c s) = letter n s

abbrev pub ascii : List ℕ → String
ascii [] = ""
ascii (b ∷ bs) = String.◌++◌ (if eqb b 10 then "\n" else letter (b - 32) printable) (ascii bs)
