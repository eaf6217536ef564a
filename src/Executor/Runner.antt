-- ===== src/Executor/Runner.antt =====
-- crates/executor/src/runner.rs: one action as a child process. The command that crates/platform builds,
-- what the process and its pipes do and the decoding of the output come from outside.
pub mod Output
mod Examples
use Prim.Native.String.{String}
use easy_job.Prelude.{
  ℕ, zero, suc, ◌+◌, ◌-◌, ◌==◌, leb, Bool, true, false, if◌then◌else◌, Option, none, some, List, [],
  ◌∷◌, ◌++◌, length,
}
use easy_job.Prelude.Result.{Result, ok, err}
use easy_job.Domain.Task.{
  Action, ActionKind, ScriptEncoding, execute_program, execute_shell, execute_power_shell,
  execute_cmd,
}
use easy_job.Domain.Execution.{ExecutionStatus, succeeded, failed, timed_out, cancelled}
use easy_job.Common.Error.{Error, process, to_string, join}
use easy_job.Agent.Run.{RunResult, ActionResult, ran, failed_to_run}

abbrev pub Bytes : Type 0
Bytes = List ℕ

abbrev pub max_output_bytes : ℕ
max_output_bytes = 2097152

-- The bytes of "\n... [output truncated]".
abbrev pub truncation_suffix : Bytes
truncation_suffix =
    10 ∷ 46 ∷ 46 ∷ 46 ∷ 32 ∷ 91 ∷ 111 ∷ 117 ∷ 116 ∷ 112 ∷ 117 ∷ 116 ∷ 32 ∷ 116 ∷ 114 ∷ 117 ∷ 110
    ∷ 99 ∷ 97 ∷ 116 ∷ 101 ∷ 100 ∷ 93 ∷ []

abbrev pub take : {A : Type 0} → ℕ → List A → List A
take n [] = []
take zero (x ∷ xs) = []
take (suc n) (x ∷ xs) = x ∷ take n xs

-- The body of the loop on a chunk that is not empty, for any limit and suffix: the buffer, and whether
-- it was truncated.
abbrev pub absorb_within : ℕ → Bytes → Bytes → Bytes × Bool → Bytes × Bool
absorb_within limit suffix chunk (buf, truncated) =
    if truncated
    then (buf, truncated)
    else if leb (length buf + length chunk) limit
    then (buf ++ chunk, false)
    else (buf ++ (take (limit - length buf) chunk ++ suffix), true)

unfoldable pub absorb_chunk : Bytes → Bytes × Bool → Bytes × Bool
absorb_chunk chunk state = absorb_within max_output_bytes truncation_suffix chunk state

-- What the reads of the pipe answer; an error is absent. The loop ends at an error and at the end of the
-- file, which is a read of no bytes.
unfoldable pub read_chunks : List (Option Bytes) → Bytes × Bool → Bytes × Bool
read_chunks [] state = state
read_chunks (none ∷ reads) state = state
read_chunks (some [] ∷ reads) state = state
read_chunks (some (b ∷ chunk) ∷ reads) state = read_chunks reads (absorb_chunk (b ∷ chunk) state)

-- How the reader ended within the time to drain the pipe; after an error or that time the buffer as it is
-- then is decoded.
pub data Drained : Type 0 where
  joined : String → Drained
  join_failed drain_timed_out : Bytes → Drained

module _ (decode_output : Bytes → Option ScriptEncoding → String) where
  unfoldable pub read_stream_capped : Option (List (Option Bytes)) → Option ScriptEncoding → String
  read_stream_capped none encoding = decode_output [] encoding
  read_stream_capped (some reads) encoding =
      decode_output (read_chunks reads ([], false)).0 encoding

  unfoldable pub collect_pipe_output : Drained → Option ScriptEncoding → String
  collect_pipe_output (joined s) encoding = s
  collect_pipe_output (join_failed buffer) encoding = decode_output buffer encoding
  collect_pipe_output (drain_timed_out buffer) encoding = decode_output buffer encoding

unfoldable pub encoding_of : ActionKind → Option ScriptEncoding
encoding_of (execute_cmd _ encoding) = encoding
encoding_of (execute_power_shell _ _ encoding) = encoding
encoding_of _ = none

-- The builders of crates/platform.
pub record CommandBuilder (Command : Type 0) : Type 0 where
  pub new_program : String → List String → Command
  pub new_shell : String → Command
  pub new_cmd : String → Option ScriptEncoding → Command
  pub new_powershell : String → Bool → Option ScriptEncoding → Command

unfoldable pub command_of : {Command : Type 0} → CommandBuilder Command → ActionKind → Command
command_of builder (execute_program program args) = builder.new_program program args
command_of builder (execute_shell command) = builder.new_shell command
command_of builder (execute_cmd command encoding) = builder.new_cmd command encoding
command_of builder (execute_power_shell script no_profile encoding) =
    builder.new_powershell script no_profile encoding

-- Which branch of the `select!` is taken; an exit code is absent after a signal.
pub data Waited : Type 0 where
  was_cancelled ran_out_of_time : Waited
  exited : Result String (Option ℕ) → Waited

-- What the process does: the pid or the error of the spawn, and the two outputs.
pub record Process : Type 0 where
  pub spawned : Result String (Option ℕ)
  pub waited : Waited
  pub stdout : Drained
  pub stderr : Drained

unfoldable pub timeout_duration : Option ℕ → ℕ
timeout_duration none = 86400
timeout_duration (some secs) = secs

abbrev pub is_zero_code : Option ℕ → Bool
is_zero_code none = false
is_zero_code (some code) = code == 0

abbrev pub cancelled_result : String → String → RunResult
cancelled_result stdout stderr = record {
  status = cancelled;
  exit_code = none;
  stdout = stdout;
  stderr = stderr;
  error_message = some "Cancelled by user";
}

module _ (decode_output : Bytes → Option ScriptEncoding → String) (show : ℕ → String)
    (debug_code : Option ℕ → String) where
  -- The pid whose process tree is killed, and the result.
  unfoldable pub waited_result :
      Waited → Option ℕ → Option ℕ → String → String → Option ℕ × ActionResult
  waited_result was_cancelled pid timeout_secs stdout stderr =
      (pid, ran (cancelled_result stdout stderr))
  waited_result ran_out_of_time pid timeout_secs stdout stderr = (
    pid,
    ran (record {
      status = timed_out;
      exit_code = none;
      stdout = stdout;
      stderr = stderr;
      error_message =
          some (join "Timed out after " (join (show (timeout_duration timeout_secs)) " seconds"));
    }),
  )
  waited_result (exited (err e)) pid timeout_secs stdout stderr =
      (none, failed_to_run (to_string (process e)))
  waited_result (exited (ok code)) pid timeout_secs stdout stderr = (
    none,
    ran (record {
      status = if is_zero_code code then succeeded else failed;
      exit_code = code;
      stdout = stdout;
      stderr = stderr;
      error_message =
          if is_zero_code code then none else some (join "Exited with code " (debug_code code));
    }),
  )

  abbrev pub spawned_result :
      Result String (Option ℕ) → Action → Option ℕ → Process → Option ℕ × ActionResult
  spawned_result (err e) action timeout_secs p = (none, failed_to_run (to_string (process e)))
  spawned_result (ok pid) action timeout_secs p =
      waited_result p.waited pid timeout_secs
        (collect_pipe_output decode_output p.stdout (encoding_of action.kind))
        (collect_pipe_output decode_output p.stderr (encoding_of action.kind))

  unfoldable pub run_action : Bool → Action → Option ℕ → Process → Option ℕ × ActionResult
  run_action is_cancelled action timeout_secs p =
      if is_cancelled
      then (none, ran (cancelled_result "" ""))
      else spawned_result p.spawned action timeout_secs p
