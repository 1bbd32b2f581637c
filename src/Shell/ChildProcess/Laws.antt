-- ===== src/Shell/ChildProcess/Laws.antt =====
-- What the promise of `spawn` comes to.
use Prim.Native.String
use text.Mathlib.TextLemmas.{append_assoc, append-nil, nil-append}
use rpi_nest_api.Prelude.{
  ℕ, zero, suc, String, true, ◌≡◌, refl, sym, Option, none, some, List, [], ◌∷◌, ◌++◌,
}
use rpi_nest_api.Exec.{Result, ok, err, rejection}
use rpi_nest_api.Shell.ChildProcess.{
  ProcessEvent, ChildProcess, stdout_data, stderr_data, close, failure, readable, settled, listen,
  spawn,
}

-- The process is still running after these events.
abbrev pub IsRunning : List ProcessEvent → Type 0
IsRunning [] = Unit
IsRunning (close _ ∷ es) = ⊥
IsRunning (failure _ ∷ es) = ⊥
IsRunning (_ ∷ es) = IsRunning es

-- The texts of the chunks, each decoded alone, one after the other
abbrev pub stdout_of : List ProcessEvent → String
stdout_of [] = ""
stdout_of (stdout_data chunk ∷ es) = String.◌++◌ chunk.to_string (stdout_of es)
stdout_of (_ ∷ es) = stdout_of es

abbrev pub stderr_of : List ProcessEvent → String
stderr_of [] = ""
stderr_of (stderr_data chunk ∷ es) = String.◌++◌ chunk.to_string (stderr_of es)
stderr_of (_ ∷ es) = stderr_of es

-- All the bytes that the process wrote to its standard output
abbrev pub stdout_bytes : List ProcessEvent → List ℕ
stdout_bytes [] = []
stdout_bytes (stdout_data chunk ∷ es) = chunk.bytes ++ stdout_bytes es
stdout_bytes (_ ∷ es) = stdout_bytes es

-- With this decoding, no character of the standard output is split between two chunks.
abbrev pub IsUnsplit : (List ℕ → String) → List ProcessEvent → Type 0
IsUnsplit decode [] = decode [] ≡ ""
IsUnsplit decode (stdout_data chunk ∷ es) =
    (chunk.to_string ≡ decode chunk.bytes)
    × (decode (chunk.bytes ++ stdout_bytes es)
        ≡ String.◌++◌ (decode chunk.bytes) (decode (stdout_bytes es)))
    × IsUnsplit decode es
IsUnsplit decode (_ ∷ es) = IsUnsplit decode es

-- Then the chunks, each decoded alone, give the text of the whole.
pub stdout_of-IsUnsplit :
    (decode : List ℕ → String) (es : List ProcessEvent)
    → IsUnsplit decode es
    → stdout_of es ≡ decode (stdout_bytes es)
stdout_of-IsUnsplit decode [] h = sym h
stdout_of-IsUnsplit decode (stdout_data chunk ∷ es) (e, apart, h) =
    rw (apart, e, stdout_of-IsUnsplit decode es h) refl
stdout_of-IsUnsplit decode (stderr_data chunk ∷ es) h = stdout_of-IsUnsplit decode es h
stdout_of-IsUnsplit decode (close code ∷ es) h = stdout_of-IsUnsplit decode es h
stdout_of-IsUnsplit decode (failure message ∷ es) h = stdout_of-IsUnsplit decode es h
stdout_of-IsUnsplit decode (readable ∷ es) h = stdout_of-IsUnsplit decode es h

-- The result at the end of a process.
abbrev pub result_of : String → String → Option ℕ → Result String
result_of out err_text (some zero) = ok out
result_of out err_text (some (suc _)) = err (rejection err_text)
result_of out err_text none = err (rejection err_text)

listen_closed :
    (out problem : String) (es rest : List ProcessEvent) (code : Option ℕ)
    → IsRunning es
    → listen out problem (es ++ close code ∷ rest)
      ≡ settled
          (result_of (String.◌++◌ out (stdout_of es)) (String.◌++◌ problem (stderr_of es)) code)
unfolding listen
listen_closed out problem [] rest none h = rw append-nil
listen_closed out problem [] rest (some zero) h = rw append-nil
listen_closed out problem [] rest (some (suc n)) h = rw append-nil
listen_closed out problem (stdout_data chunk ∷ es) rest code h =
    rw (← append_assoc out chunk.to_string (stdout_of es))
      (listen_closed (String.◌++◌ out chunk.to_string) problem es rest code h)
listen_closed out problem (stderr_data chunk ∷ es) rest code h =
    rw (← append_assoc problem chunk.to_string (stderr_of es))
      (listen_closed out (String.◌++◌ problem chunk.to_string) es rest code h)
listen_closed out problem (readable ∷ es) rest code h = listen_closed out problem es rest code h
listen_closed out problem (close _ ∷ es) rest code h = absurd h
listen_closed out problem (failure _ ∷ es) rest code h = absurd h

-- A process that has both pipes and closes, with no error before, settles `spawn` by the chunks of
-- data that came before and by nothing after: an exit code of 0 resolves it with the chunks of the
-- standard output, each decoded alone, one after the other; all else rejects it with those of the
-- standard error.
pub spawn_closed :
    (os : String → List String → ChildProcess) (command : String) (args : List String)
    (es rest : List ProcessEvent) (code : Option ℕ)
    → (os command args).has_stdout ≡ true
    → (os command args).has_stderr ≡ true
    → (os command args).events ≡ es ++ close code ∷ rest
    → IsRunning es
    → spawn os command args ≡ settled (result_of (stdout_of es) (stderr_of es) code)
unfolding spawn
spawn_closed os command args es rest code p q e h = rw (
  p,
  q,
  e,
  listen_closed "" "" es rest code h,
  nil-append (stdout_of es),
  nil-append (stderr_of es),
)
