-- ===== src/Ipc/Client/Pairing.antt =====
-- Each call gets its own response, and no call that has returned is left in the map.
use easy_job.Prelude.{
  ℕ, ◌≡◌, ◌≢◌, ◌∙◌, ◌==◌, false, refl, ap, sym, subst, Option, none, some, [], ◌∷◌, if-both,
}
use easy_job.Prelude.Map
use easy_job.Prelude.Map.{Map, get-insert, get-remove}
use easy_job.Ipc.Client.{
  IpcClient, Call, Response, Frame, Return, empty, closed, delivered, answered, send_failed,
  channel_closed, timed_out, response, event, unrecognized, change, fill, finish, drop_sender,
  drop_all, register, send, forget, give_up, receive, deliver, read_frame, end_reader,
}
use easy_job.Ipc.Client.Steps.{
  Step, Steps, registers, sends, fails_to_send, reads, ends, receives, finds_closed, times_out,
  done, next,
}
use easy_job.Ipc.Client.Changes.{map_call, get-change}
use easy_job.Ipc.Client.Entries.{
  OwnSlot, OwnReturn, AllOwn, Awaited, AllOwn-change, Awaited-change, Awaited-apart, Awaited-remove,
  no_other_entry, AllOwn-insert, Awaited-insert,
}

module _ {Value : Type 0} where
  pub record IsPaired (s : IpcClient Value) : Type 0 where
    pub own : AllOwn s.calls
    pub awaited : Awaited s.pending_responses s.calls

  AllOwn-drop_sender :
      (o : Option ℕ) (calls : Map (Call Value)) → AllOwn calls → AllOwn (drop_sender o calls)
  AllOwn-drop_sender none calls h = h
  AllOwn-drop_sender (some n) calls h =
      AllOwn-change (fill closed) n calls (λ c e own. (tt, own.1)) h

  forget-IsPaired : (id : ℕ) (s : IpcClient Value) → IsPaired s → IsPaired (forget id s)
  unfolding forget
  forget-IsPaired id s h = record {
    own = AllOwn-drop_sender (Map.get id s.pending_responses) s.calls h.own;
    awaited = go (Map.get id s.pending_responses) refl;
  }
    where
      go :
          (o : Option ℕ)
          → Map.get id s.pending_responses ≡ o
          → Awaited (Map.remove id s.pending_responses) (drop_sender o s.calls)
      go none e = Awaited-remove id s.pending_responses s.calls h.awaited
      go (some n) e =
          let (c, there, ids, waits, open_slot) = h.awaited id n e in
          Awaited-apart (fill closed) n (Map.remove id s.pending_responses) s.calls
            (subst (λ i. (j : ℕ) → Map.get j (Map.remove i s.pending_responses) ≢ some n) ids
              (no_other_entry n c s.pending_responses s.calls h.awaited there))
            (Awaited-remove id s.pending_responses s.calls h.awaited)

  absent_after_drop :
      (o : Option ℕ) (n : ℕ) (calls : Map (Call Value))
      → Map.get n calls ≡ none
      → Map.get n (drop_sender o calls) ≡ none
  absent_after_drop none n calls h = h
  absent_after_drop (some m) n calls h =
      get-change (fill closed) m n calls
      ∙ if-both (λ x. x ≡ none) (m == n) (map_call (fill closed) (Map.get n calls))
          (Map.get n calls) (ap (map_call (fill closed)) h) h

  register-IsPaired :
      (n id : ℕ) (s : IpcClient Value)
      → Map.get n s.calls ≡ none
      → IsPaired s
      → IsPaired (register n id s)
  unfolding register forget
  register-IsPaired n id s fresh h =
      let left = forget-IsPaired id s h in
      let new : Call Value = record { id = id; is_sent = false; slot = empty; returned = none } in
      record {
        own = AllOwn-insert n new _ (tt, tt) left.own;
        awaited =
            Awaited-insert n new s.pending_responses _
              (absent_after_drop (Map.get id s.pending_responses) n s.calls fresh) refl refl
              left.awaited;
      }

  give_up-IsPaired :
      (result : Return Value) (n : ℕ) (c : Call Value) (s : IpcClient Value)
      → ((k : ℕ) → OwnReturn k (some result))
      → Map.get n s.calls ≡ some c
      → IsPaired s
      → IsPaired (give_up result n c.id s)
  unfolding give_up forget
  give_up-IsPaired result n c s bare there h =
      let left = forget-IsPaired c.id s h in
      record {
        own = AllOwn-change (finish result) n _ (λ d e own. (own.0, bare d.id)) left.own;
        awaited =
            Awaited-apart (finish result) n (Map.remove c.id s.pending_responses) _
              (no_other_entry n c s.pending_responses s.calls h.awaited there) left.awaited;
      }

  receive-IsPaired :
      (resp : Response Value) (n : ℕ) (c : Call Value) (s : IpcClient Value)
      → Map.get n s.calls ≡ some c
      → c.slot ≡ delivered resp
      → IsPaired s
      → IsPaired (receive resp n s)
  unfolding receive
  receive-IsPaired resp n c s there full h = record {
    own =
        AllOwn-change (finish (answered resp)) n s.calls
          (λ d e own. (
            own.0,
            subst (OwnSlot d.id)
                (let same : d ≡ c = (let both = sym e ∙ there in cc) in
                  ap (λ x. x.slot) same ∙ full)
                own.0,
          ))
          h.own;
    awaited =
        Awaited-apart (finish (answered resp)) n s.pending_responses s.calls
          (λ id e.
            let (d, there', ids, waits, open_slot) = h.awaited id n e in
            let same : d ≡ c = (let both = sym there' ∙ there in cc) in
            let clash = sym open_slot ∙ ap (λ x. x.slot) same ∙ full in
            absurd (let x : empty ≡ delivered resp = clash in cc))
          h.awaited;
  }

  deliver-IsPaired :
      (resp : Response Value) (o : Option ℕ) (s : IpcClient Value)
      → Map.get resp.id s.pending_responses ≡ o
      → IsPaired s
      → IsPaired (deliver resp o s)
  deliver-IsPaired resp none s e h = h
  deliver-IsPaired resp (some n) s e h =
      let (c, there, ids, waits, open_slot) = h.awaited resp.id n e in
      record {
        own =
            AllOwn-change (fill (delivered resp)) n s.calls
              (λ d found own. (
                let same : d ≡ c = (let both = sym found ∙ there in cc) in
                    sym (ap (λ x. x.id) same ∙ ids),
                own.1,
              ))
              h.own;
        awaited =
            Awaited-apart (fill (delivered resp)) n (Map.remove resp.id s.pending_responses) s.calls
              (subst (λ i. (j : ℕ) → Map.get j (Map.remove i s.pending_responses) ≢ some n) ids
                (no_other_entry n c s.pending_responses s.calls h.awaited there))
              (Awaited-remove resp.id s.pending_responses s.calls h.awaited);
      }

  AllOwn-drop_all :
      (pending : Map ℕ) (calls : Map (Call Value)) → AllOwn calls → AllOwn (drop_all pending calls)
  AllOwn-drop_all [] calls h = h
  AllOwn-drop_all ((_, n) ∷ pending) calls h =
      AllOwn-drop_all pending (change (fill closed) n calls)
        (AllOwn-change (fill closed) n calls (λ c e own. (tt, own.1)) h)

  read_frame-IsPaired :
      (frame : Frame Value) (s : IpcClient Value) → IsPaired s → IsPaired (read_frame frame s)
  unfolding read_frame
  read_frame-IsPaired (response resp) s h = deliver-IsPaired resp _ s refl h
  read_frame-IsPaired (event e) s h = record { own = h.own; awaited = h.awaited }
  read_frame-IsPaired unrecognized s h = h

  Step-IsPaired : (s t : IpcClient Value) → Step s t → IsPaired s → IsPaired t
  unfolding send end_reader Map.get
  Step-IsPaired s _ (registers n id _ fresh) h = register-IsPaired n id s fresh h
  Step-IsPaired s _ (sends n _) h = record {
    own = AllOwn-change _ n s.calls (λ c e own. own) h.own;
    awaited = Awaited-change _ n s.pending_responses s.calls (λ c. (refl, refl, refl)) h.awaited;
  }
  Step-IsPaired s _ (fails_to_send n c _ there unsent) h =
      give_up-IsPaired send_failed n c s (λ k. tt) there h
  Step-IsPaired s _ (reads frame _) h = read_frame-IsPaired frame s h
  Step-IsPaired s _ (ends _) h = record {
    own = AllOwn-drop_all s.pending_responses s.calls h.own;
    awaited = λ id n e. cc;
  }
  Step-IsPaired s _ (receives n c resp _ there full) h = receive-IsPaired resp n c s there full h
  Step-IsPaired s _ (finds_closed n c _ there shut) h =
      give_up-IsPaired channel_closed n c s (λ k. tt) there h
  Step-IsPaired s _ (times_out n c _ there) h = give_up-IsPaired timed_out n c s (λ k. tt) there h

  -- In every order of steps what reaches a call bears the id of its request, and each entry of the map
  -- is of a call of its id that has not returned, if that holds at the start.
  pub Steps-IsPaired : (s t : IpcClient Value) → Steps s t → IsPaired s → IsPaired t
  Steps-IsPaired s _ done h = h
  Steps-IsPaired s t (next {t = u} step rest) h = Steps-IsPaired u t rest (Step-IsPaired s u step h)
