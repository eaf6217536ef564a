-- ===== src/Ipc/Client/Steps.antt =====
-- The steps of a client: its calls, the reader of the socket and the clock, in any order.
use easy_job.Prelude.{ℕ, ◌≡◌, false, none, some}
use easy_job.Prelude.Map
use easy_job.Ipc.Client.{
  IpcClient, Call, Response, Frame, closed, delivered, send_failed, channel_closed, timed_out,
  register, send, give_up, receive, read_frame, end_reader,
}

module _ {Value : Type 0} where
  -- A call that has not returned may time out at any point after its request was sent: a response may
  -- come in between the end of the time and the removal of the entry.
  pub data Step : IpcClient Value → IpcClient Value → Type 0 where
    registers :
        (n id : ℕ) (s : IpcClient Value) → Map.get n s.calls ≡ none → Step s (register n id s)
    sends : (n : ℕ) (s : IpcClient Value) → Step s (send n s)
    fails_to_send :
        (n : ℕ) (c : Call Value) (s : IpcClient Value)
        → Map.get n s.calls ≡ some c
        → c.is_sent ≡ false
        → Step s (give_up send_failed n c.id s)
    reads : (frame : Frame Value) (s : IpcClient Value) → Step s (read_frame frame s)
    ends : (s : IpcClient Value) → Step s (end_reader s)
    receives :
        (n : ℕ) (c : Call Value) (resp : Response Value) (s : IpcClient Value)
        → Map.get n s.calls ≡ some c
        → c.slot ≡ delivered resp
        → Step s (receive resp n s)
    finds_closed :
        (n : ℕ) (c : Call Value) (s : IpcClient Value)
        → Map.get n s.calls ≡ some c
        → c.slot ≡ closed
        → Step s (give_up channel_closed n c.id s)
    times_out :
        (n : ℕ) (c : Call Value) (s : IpcClient Value)
        → Map.get n s.calls ≡ some c
        → Step s (give_up timed_out n c.id s)

  pub data Steps : IpcClient Value → IpcClient Value → Type 0 where
    done : {s : IpcClient Value} → Steps s s
    next : {s t u : IpcClient Value} → Step s t → Steps t u → Steps s u
