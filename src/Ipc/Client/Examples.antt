-- ===== src/Ipc/Client/Examples.antt =====
-- Tests of the client, and its theorem at a concrete run.
use easy_job.Prelude.{ℕ, ◌≡◌, refl, true, none, some}
use easy_job.Prelude.Map
use easy_job.Prelude.Result.{ok}
use easy_job.Ipc.Client.{
  IpcClient, Response, response, register, send, read_frame, receive, end_reader, connected,
  result_of, answered, closed,
}
use easy_job.Ipc.Client.Steps.{Steps, registers, sends, reads, receives, ends, done, next}
use easy_job.Ipc.Client.Pairing.{IsPaired, Steps-IsPaired}

abbrev reply : Response ℕ
reply = record { id = 7; ok = true; data_value = some 5; error_text = none }

abbrev asked : IpcClient ℕ
asked = send 2 (register 2 9 (send 1 (register 1 7 connected)))

abbrev replied : IpcClient ℕ
replied = receive reply 1 (read_frame (response reply) asked)

run : Steps connected (end_reader replied)
unfolding register send read_frame Map.get Map.insert
run = next (registers 1 7 connected refl) (
    next (sends 1 (register 1 7 connected)) (
      next (registers 2 9 (send 1 (register 1 7 connected)) refl) (
        next (sends 2 (register 2 9 (send 1 (register 1 7 connected)))) (
          next (reads (response reply) asked) (
            next (receives 1 _ reply (read_frame (response reply) asked) refl refl)
              (next (ends replied) done))))))

connected-IsPaired : IsPaired (connected {Value = ℕ})
unfolding Map.get
connected-IsPaired = record { own = λ n c e. cc; awaited = λ id n e. cc }

Steps-IsPaired_example : IsPaired (end_reader replied)
Steps-IsPaired_example = Steps-IsPaired connected (end_reader replied) run connected-IsPaired

result_is_the_data : result_of 0 (answered reply) ≡ ok 5
unfolding result_of
result_is_the_data = refl

other_call_is_closed :
    Map.get 2 (end_reader replied).calls
    ≡ some (record { id = 9; is_sent = true; slot = closed; returned = none })
unfolding end_reader receive read_frame send register Map.get Map.insert Map.remove
other_call_is_closed = refl
