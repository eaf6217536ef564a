-- ===== src/Ipc/Client.antt =====
-- crates/ipc/src/client.rs: the calls of a client that wait for their responses. A call is named by the
-- number of its oneshot channel. The ids of requests are UUIDs and stand as numbers; nothing rests on
-- their being different. The socket, the channel to the writer and the clock decide which step is taken.
pub mod Steps
pub mod Changes
pub mod Entries
pub mod Pairing
mod Examples
use Prim.Native.String.{String}
use easy_job.Prelude.{ℕ, Bool, true, false, if◌then◌else◌, Option, none, some, ◌≡◌, List, [], ◌∷◌}
use easy_job.Prelude.Map
use easy_job.Prelude.Map.{Map}
use easy_job.Prelude.Result.{Result, ok, err}
use easy_job.Common.Error.{Error, other, join}

module _ (Value : Type 0) where
  pub record Response : Type 0 where
    pub id : ℕ
    pub ok : Bool
    pub data_value : Option Value
    pub error_text : Option String

  -- A line that is read from the socket.
  pub data Frame : Type 0 where
    response : Response → Frame
    event : Value → Frame
    unrecognized : Frame

  -- What the receiver of a oneshot channel finds.
  pub data Slot : Type 0 where
    empty closed : Slot
    delivered : Response → Slot

  -- How `call_timeout` returns.
  pub data Return : Type 0 where
    answered : Response → Return
    send_failed channel_closed timed_out : Return

  pub record Call : Type 0 where
    pub id : ℕ
    pub is_sent : Bool
    pub slot : Slot
    pub returned : Option Return

  -- The map of pending responses holds the channel of the sender for each id.
  pub record IpcClient : Type 0 where
    pub pending_responses : Map ℕ
    pub calls : Map Call
    pub events : List Value
    pub is_cancelled : Bool

abbrev pub unwrap_or : {A : Type 0} → A → Option A → A
unwrap_or a none = a
unwrap_or a (some b) = b

module _ {Value : Type 0} where
  -- The result of a call; `null` is JSON's.
  unfoldable pub result_of : Value → Return Value → Result Error Value
  result_of null (answered resp) =
      if resp.ok
      then ok (unwrap_or null resp.data_value)
      else err (other (unwrap_or "IPC error" resp.error_text))
  result_of null send_failed = err (other "Failed to send IPC request: channel closed")
  result_of null channel_closed = err (other "IPC response channel closed: channel closed")
  result_of null timed_out = err (other "IPC request timed out")

  abbrev pub changed :
      (Call Value → Call Value) → Option (Call Value) → ℕ → Map (Call Value) → Map (Call Value)
  changed f none n calls = calls
  changed f (some c) n calls = Map.insert n (f c) calls

  abbrev pub change : (Call Value → Call Value) → ℕ → Map (Call Value) → Map (Call Value)
  change f n calls = changed f (Map.get n calls) n calls

  abbrev pub fill : Slot Value → Call Value → Call Value
  fill slot c = record c { slot = slot }

  abbrev pub finish : Return Value → Call Value → Call Value
  finish result c = record c { returned = some result }

  -- A sender that is dropped closes its channel.
  abbrev pub drop_sender : Option ℕ → Map (Call Value) → Map (Call Value)
  drop_sender none calls = calls
  drop_sender (some n) calls = change (fill closed) n calls

  -- `call_timeout` up to the registration, on the new channel `n`.
  unfoldable pub register : ℕ → ℕ → IpcClient Value → IpcClient Value
  register n id s = record s {
    pending_responses = Map.insert id n s.pending_responses;
    calls =
        Map.insert n (record { id = id; is_sent = false; slot = empty; returned = none })
          (drop_sender (Map.get id s.pending_responses) s.calls);
  }

  -- The request is in the channel of the writer.
  unfoldable pub send : ℕ → IpcClient Value → IpcClient Value
  send n s = record s { calls = change (λ c. record c { is_sent = true }) n s.calls }

  -- `map.remove(&id)`, with the sender that it drops.
  unfoldable pub forget : ℕ → IpcClient Value → IpcClient Value
  forget id s = record s {
    pending_responses = Map.remove id s.pending_responses;
    calls = drop_sender (Map.get id s.pending_responses) s.calls;
  }

  -- A call of the id returns with an error and forgets its entry.
  unfoldable pub give_up : Return Value → ℕ → ℕ → IpcClient Value → IpcClient Value
  give_up result n id s =
      let s' = forget id s in record s' { calls = change (finish result) n s'.calls }

  unfoldable pub receive : Response Value → ℕ → IpcClient Value → IpcClient Value
  receive resp n s = record s { calls = change (finish (answered resp)) n s.calls }

  abbrev pub deliver : Response Value → Option ℕ → IpcClient Value → IpcClient Value
  deliver resp none s = s
  deliver resp (some n) s = record s {
    pending_responses = Map.remove resp.id s.pending_responses;
    calls = change (fill (delivered resp)) n s.calls;
  }

  -- The reader's turn on a line.
  unfoldable pub read_frame : Frame Value → IpcClient Value → IpcClient Value
  read_frame (response resp) s = deliver resp (Map.get resp.id s.pending_responses) s
  read_frame (event e) s = record s { events = e ∷ s.events }
  read_frame unrecognized s = s

  -- The drop of every sender.
  abbrev pub drop_all : Map ℕ → Map (Call Value) → Map (Call Value)
  drop_all [] calls = calls
  drop_all ((_, n) ∷ pending) calls = drop_all pending (change (fill closed) n calls)

  -- The reader ends: the socket closed, a frame could not be read, or the client is cancelled.
  unfoldable pub end_reader : IpcClient Value → IpcClient Value
  end_reader s = record s {
    pending_responses = [];
    calls = drop_all s.pending_responses s.calls;
    is_cancelled = true;
  }

  abbrev pub connected : IpcClient Value
  connected = record { pending_responses = []; calls = []; events = []; is_cancelled = false }
