-- ===== src/Shell/ChildProcess.antt =====
-- src/shell-command/child-process.service.ts: `spawn` and `spawnAuthorized`. What the operating
-- system does with a command is a parameter: the process that a call of Node's `spawn` returns,
-- with the events that it emits, in order.
use Prim.Native.String
use rpi_nest_api.Prelude.{
  ℕ, zero, suc, String, Bool, not, ◌||◌, Option, none, some, List, [], ◌∷◌, template, if◌then◌else◌,
}
use rpi_nest_api.Exec.{Result, ok, err, error, rejection}
pub mod Laws

-- A Buffer of Node: its bytes, and what its `toString` gives. A text that a Buffer is added to gets
-- the latter, so each chunk of data is decoded alone.
pub record Buffer : Type 0 where
  pub bytes : List ℕ
  pub to_string : String

-- The events of a child process; a process that a signal ended closes with no exit code.
pub data ProcessEvent : Type 0 where
  stdout_data : Buffer → ProcessEvent
  stderr_data : Buffer → ProcessEvent
  close : Option ℕ → ProcessEvent
  failure : String → ProcessEvent
  readable : ProcessEvent

pub record ChildProcess : Type 0 where
  pub has_stdout : Bool
  pub has_stderr : Bool
  pub events : List ProcessEvent

-- A promise that may be settled or not.
pub data Promise (A : Type 0) : Type 0 where
  pending : Promise A
  settled : Result A → Promise A

abbrev pub no_pipes : String
no_pipes = "Failed to get stdout/stderr of child process."

-- The listeners of `spawn`. The first `resolve` or `reject` settles the promise for good.
unfoldable pub listen : String → String → List ProcessEvent → Promise String
listen stdout stderr [] = pending
listen stdout stderr (stdout_data chunk ∷ es) =
    listen (String.◌++◌ stdout chunk.to_string) stderr es
listen stdout stderr (stderr_data chunk ∷ es) =
    listen stdout (String.◌++◌ stderr chunk.to_string) es
listen stdout stderr (close (some zero) ∷ es) = settled (ok stdout)
listen stdout stderr (close (some (suc _)) ∷ es) = settled (err (rejection stderr))
listen stdout stderr (close none ∷ es) = settled (err (rejection stderr))
listen stdout stderr (failure message ∷ es) = settled (err (error message))
listen stdout stderr (readable ∷ es) = listen stdout stderr es

-- The listeners of `spawnStreamable`: the stream stands for the standard output from here on.
unfoldable pub listen_stream : String → List ProcessEvent → Promise (List ProcessEvent)
listen_stream stderr [] = pending
listen_stream stderr (stdout_data chunk ∷ es) = listen_stream stderr es
listen_stream stderr (stderr_data chunk ∷ es) =
    listen_stream (String.◌++◌ stderr chunk.to_string) es
listen_stream stderr (close (some zero) ∷ es) = listen_stream stderr es
listen_stream stderr (close (some (suc _)) ∷ es) = settled (err (error stderr))
listen_stream stderr (close none ∷ es) = settled (err (error stderr))
listen_stream stderr (failure message ∷ es) = settled (err (error message))
listen_stream stderr (readable ∷ es) = settled (ok es)

abbrev pub pkexec : String
pkexec = "/usr/bin/pkexec --disable-internal-agent "

module _ (os : String → List String → ChildProcess) where
  unfoldable pub spawn : String → List String → Promise String
  unfolding listen
  spawn command args =
      let child = os command args in
      if not child.has_stdout || not child.has_stderr
      then settled (err (error no_pipes))
      else listen "" "" child.events

  unfoldable pub spawn_authorized : String → List String → Promise String
  unfolding spawn
  spawn_authorized command args = spawn (template (pkexec ∷ command ∷ [])) args

  unfoldable pub spawn_streamable : String → List String → Promise (List ProcessEvent)
  unfolding listen_stream
  spawn_streamable command args =
      let child = os command args in
      if not child.has_stdout || not child.has_stderr
      then settled (err (error no_pipes))
      else listen_stream "" child.events
