-- ===== src/Ipc/Server.antt =====
-- crates/ipc/src/server.rs: the connections of the server and the broadcast of events to them. Lines are
-- texts. The accepting loops, the pipes of Windows and the permissions of the socket are not modelled.
pub mod Broadcast
mod Examples
use Prim.Native.String.{String}
use easy_job.Prelude.{
  ℕ, ◌+◌, ◌%◌, ◌^◌, Bool, true, false, leb, ltb, if◌then◌else◌, Option, none, some, List, [], ◌∷◌,
  ◌++◌, length,
}
use easy_job.Prelude.Map
use easy_job.Prelude.Map.{Map}
use easy_job.Prelude.Result.{Result, ok, err}
use easy_job.Ipc.Protocol.{IpcRequest, IpcResponse}

abbrev pub ClientId : Type 0
ClientId = ℕ

-- `mpsc::channel::<String>(256)`
abbrev pub capacity : ℕ
capacity = 256

-- The channel to the writer of a connection; the writer drops its end when the socket fails.
pub record Channel : Type 0 where
  pub lines : List String
  pub is_open : Bool

-- `broadcasting` says whether the task that forwards the events still runs.
pub record IpcServerInner : Type 0 where
  pub clients : Map Channel
  pub next_client_id : ClientId
  pub broadcasting : Bool

unfoldable pub bind : IpcServerInner
bind = record { clients = []; next_client_id = 1; broadcasting = true }

-- `handle_connection` up to the loop: the id is an `AtomicU64`.
unfoldable pub connect : IpcServerInner → ClientId × IpcServerInner
connect s = (
  s.next_client_id,
  record s {
    clients = Map.insert s.next_client_id (record { lines = []; is_open = true }) s.clients;
    next_client_id = (s.next_client_id + 1) % 2 ^ 64;
  },
)

-- The end of `handle_connection`.
unfoldable pub disconnect : ClientId → IpcServerInner → IpcServerInner
disconnect id s = record s { clients = Map.remove id s.clients }

pub data Sent : Type 0 where
  sent full closed : Sent

unfoldable pub try_send : String → Channel → Sent × Channel
try_send line c =
    if c.is_open
    then (if ltb (length c.lines) capacity
        then (sent, record c { lines = c.lines ++ line ∷ [] })
        else (full, c))
    else (closed, c)

abbrev pub is_closed : Sent → Bool
is_closed closed = true
is_closed _ = false

-- The loop over the senders, with the `dead_clients`.
unfoldable pub offer_all : String → Map Channel → Map Channel × List ClientId
offer_all json [] = ([], [])
offer_all json ((id, c) ∷ clients) =
    let (r, c') = try_send json c in
    let (offered, dead_clients) = offer_all json clients in
    ((id, c') ∷ offered, (if is_closed r then id ∷ dead_clients else dead_clients))

unfoldable pub remove_all : List ClientId → Map Channel → Map Channel
remove_all [] clients = clients
remove_all (id ∷ ids) clients = remove_all ids (Map.remove id clients)

unfoldable pub broadcast : String → IpcServerInner → IpcServerInner
broadcast json s =
    let (offered, dead_clients) = offer_all json s.clients in
    record s { clients = remove_all dead_clients offered }

-- What `event_rx.recv()` answers: an event with its JSON, if it can be written, or an error. The receiver
-- has lagged where more than 1024 events came in before it looked.
pub data Received : Type 0 where
  received : Option String → Received
  lagged closed : Received

-- The `while let Ok(event)`.
unfoldable pub on_event : Received → IpcServerInner → IpcServerInner
on_event (received none) s = s
on_event (received (some json)) s = if s.broadcasting then broadcast json s else s
on_event _ s = record s { broadcasting = false }

-- A line of a client: a request is handled and its response goes into the client's channel.
abbrev pub reply_to : Option String → Channel → Channel
reply_to none c = c
reply_to (some line) c = if c.is_open then record c { lines = c.lines ++ line ∷ [] } else c

abbrev pub replied : ClientId → Option String → Option Channel → Map Channel → Map Channel
replied id line none clients = clients
replied id line (some c) clients = Map.insert id (reply_to line c) clients

module _ {Value S : Type 0} (from_str : String → Option (IpcRequest Value))
    (to_json : IpcResponse Value → Option String)
    (handle_request : IpcRequest Value → S → S × IpcResponse Value) where
  abbrev pub serve_request :
      ClientId → Option (IpcRequest Value) → S × IpcServerInner → S × IpcServerInner
  serve_request id none (state, s) = (state, s)
  serve_request id (some req) (state, s) =
      let (state', resp) = handle_request req state in
      (state', record s { clients = replied id (to_json resp) (Map.get id s.clients) s.clients })

  -- A line that is no request is passed over. The response waits for room in the channel.
  unfoldable pub serve_line : ClientId → String → S × IpcServerInner → S × IpcServerInner
  serve_line id line state = serve_request id (from_str line) state
