-- ===== src/Executor/Runner/Examples.antt =====
-- Tests of the runner, and its theorem at a concrete output.
use Prim.Native.String.{String}
use easy_job.Prelude.{ℕ, ◌≡◌, refl, true, false, Option, none, some, List, [], ◌∷◌}
use easy_job.Prelude.Result.{ok}
use easy_job.Domain.Task.{Action, ScriptEncoding, execute_cmd, gbk}
use easy_job.Domain.Execution.{failed, timed_out}
use easy_job.Agent.Run.{ran}
use easy_job.Executor.Runner.{
  Bytes, Process, Waited, ran_out_of_time, exited, joined, drain_timed_out, read_chunks,
  absorb_chunk, max_output_bytes, truncation_suffix, run_action, waited_result, collect_pipe_output,
  encoding_of, timeout_duration,
}
use easy_job.Executor.Runner.Output.{input, capped, read_chunks-capped}

abbrev reads : List (Option Bytes)
reads = some (104 ∷ 101 ∷ []) ∷ some (106 ∷ []) ∷ some [] ∷ some (1 ∷ []) ∷ []

all_is_kept : (read_chunks reads ([], false)).0 ≡ 104 ∷ 101 ∷ 106 ∷ []
unfolding read_chunks absorb_chunk
all_is_kept = refl

read_chunks-capped_example :
    (read_chunks reads ([], false)).0 ≡ capped max_output_bytes truncation_suffix (input reads)
read_chunks-capped_example = read_chunks-capped reads

abbrev decode : Bytes → Option ScriptEncoding → String
decode bytes none = "utf-8"
decode bytes (some _) = "encoded"

abbrev show : ℕ → String
show n = "n"

abbrev debug_code : Option ℕ → String
debug_code none = "None"
debug_code (some n) = "Some"

abbrev action : Action
action = record {
  id = 1;
  task_id = 1;
  sequence = 1;
  enabled = true;
  kind = execute_cmd "dir" (some gbk);
}

abbrev process : Waited → Process
process waited = record {
  spawned = ok (some 42);
  waited = waited;
  stdout = joined "out";
  stderr = drain_timed_out [];
}

timeout_kills_the_process :
    run_action decode show debug_code false action (some 5) (process ran_out_of_time) ≡ (
      some 42,
      ran (record {
        status = timed_out;
        exit_code = none;
        stdout = "out";
        stderr = "encoded";
        error_message = some "Timed out after n seconds";
      }),
    )
unfolding run_action waited_result collect_pipe_output encoding_of timeout_duration
timeout_kills_the_process = refl

nonzero_code_fails :
    run_action decode show debug_code false action none (process (exited (ok (some 3)))) ≡ (
      none,
      ran (record {
        status = failed;
        exit_code = some 3;
        stdout = "out";
        stderr = "encoded";
        error_message = some "Exited with code Some";
      }),
    )
unfolding run_action waited_result collect_pipe_output encoding_of
nonzero_code_fails = refl
