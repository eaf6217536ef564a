-- ===== src/Ipc/Server/Examples.antt =====
-- Tests of the server, and its theorems at a server with three clients: one with room, one whose writer
-- has ended, and one that has not been heard of.
use easy_job.Prelude.{◌≡◌, refl, true, false, some, [], ◌∷◌}
use easy_job.Prelude.Map
use easy_job.Ipc.Server.{
  IpcServerInner, Channel, bind, connect, broadcast, on_event, received, lagged, offer_all,
  remove_all, try_send,
}
use easy_job.Ipc.Server.Broadcast.{offered_to, broadcast-offered}

abbrev with_room : Channel
with_room = record { lines = "a" ∷ []; is_open = true }

abbrev ended : Channel
ended = record { lines = []; is_open = false }

abbrev server : IpcServerInner
server = record {
  clients = (1, with_room) ∷ (2, ended) ∷ [];
  next_client_id = 3;
  broadcasting = true;
}

two_connect : (connect (connect bind).1).0 ≡ 2
unfolding connect bind
two_connect = refl

ended_client_goes :
    (broadcast "b" server).clients ≡ (1, record { lines = "a" ∷ "b" ∷ []; is_open = true }) ∷ []
unfolding broadcast offer_all try_send remove_all Map.remove
ended_client_goes = refl

broadcast-offered_example :
    Map.get 1 (broadcast "b" server).clients ≡ offered_to "b" (Map.get 1 server.clients)
unfolding Map.get
broadcast-offered_example = broadcast-offered "b" 1 server (refl, (refl, tt))

no_event_after_a_lag :
    (on_event (received (some "b")) (on_event lagged server)).clients ≡ server.clients
unfolding on_event
no_event_after_a_lag = refl
