-- ===== src/CollectorClient/Running.antt =====
-- The goroutines of the clients in the map, and of those that were taken out of it.
use gmos_k8s_operator.Prelude.{
  String, ◌≡◌, ◌≢◌, refl, Option, none, some, true, false, List, [], ◌∷◌, arith, ◌==◌,
  if◌then◌else◌, inl, inr, Bool-cases,
}
use mathlib.Core.Path.{subst}
use gmos_k8s_operator.Dict
use gmos_k8s_operator.Exec.{ok}
use gmos_k8s_operator.Types.{ObjectMeta}
use gmos_k8s_operator.ResourceName.{namespaced_name_for}
use gmos_k8s_operator.Poller.{ticking, stopped}
use gmos_k8s_operator.CollectorClient.{
  TokenLoop, TokenLoopStep, done, CollectorClient, CollectorClients, start_client, stop_client,
  stopped_client, receive_done, new_collector_client, add_collector_client, remove_collector_client,
}
use gmos_k8s_operator.CollectorClient.Clients.{
  HasGoroutine, added_client, left_by, remove_lem, lookup-add, lookup-remove, removed-add,
}

some_inj : {A : Type 0} {a b : A} → some a ≡ some b → a ≡ b
some_inj h = cc

module _ {H : Type 0} where
  -- A client whose goroutine runs, and which nobody has told to stop.
  pub record Polls (client : CollectorClient H) : Type 0 where
    pub ticks : client.loop.token_update_ticker ≡ ticking
    pub runs : client.loop.running ≡ true
    pub unasked : client.loop.senders ≡ 0

  -- A client whose goroutine runs, and which was told to stop once.
  record Asked (client : CollectorClient H) : Type 0 where
    pub running_yet : client.loop.running ≡ true
    pub asked : client.loop.senders ≡ 1

  -- A client whose ticker is stopped, whose goroutine ended, and for which no send waits.
  pub record Ended (client : CollectorClient H) : Type 0 where
    pub ticker_stopped : client.loop.token_update_ticker ≡ stopped
    pub ran : client.loop.running ≡ false
    pub received : client.loop.senders ≡ 0

  -- Nobody has told it to stop, so its goroutine does not end.
  pub Polls-TokenLoopStep :
      (client : CollectorClient H) (loop : TokenLoop)
      → Polls client
      → ¬ (TokenLoopStep client.loop loop)
  Polls-TokenLoopStep client loop p step = asked_for client.loop loop step p.unasked
    where
      asked_for : (l m : TokenLoop) → TokenLoopStep l m → l.senders ≢ 0
      asked_for l m (done _ n runs waits) q = omega arith

  abbrev pub AllEnded : List (CollectorClient H) → Type 0
  AllEnded [] = Unit
  AllEnded (client ∷ clients) = Ended client × AllEnded clients

  pub record IsPolled (clients : CollectorClients H) : Type 0 where
    pub all_poll :
        (n : String) (client : CollectorClient H)
        → Dict.lookup n clients.active ≡ some client
        → Polls client
    pub all_ended : AllEnded clients.removed

  Polls-added :
      (resource : ObjectMeta) (handler : H) (o : Option (CollectorClient H))
      → ((client : CollectorClient H) → o ≡ some client → Polls client)
      → Polls (added_client resource handler o)
  unfolding start_client new_collector_client
  Polls-added resource handler none h = record { ticks = refl; runs = refl; unasked = refl }
  Polls-added resource handler (some old) h =
      let p = h old refl in record { ticks = p.ticks; runs = p.runs; unasked = p.unasked }

  Ended-stopped_client : (client : CollectorClient H) → Polls client → Ended (stopped_client client)
  unfolding stop_client stopped_client receive_done
  Ended-stopped_client client p = record {
    ticker_stopped = rw p.ticks;
    ran = refl;
    received = rw p.unasked refl;
  }

  Asked-stop_client : (client : CollectorClient H) → Polls client → Asked (stop_client client)
  unfolding stop_client
  Asked-stop_client client p = record { running_yet = p.runs; asked = rw p.unasked }

  module _ (resource : ObjectMeta) (clients : CollectorClients H) (I : IsPolled clients) where
    held-Polls :
        (handler : H) (n : String) (client : CollectorClient H)
        → (if namespaced_name_for resource == n
            then some (
                added_client resource handler
                  (Dict.lookup (namespaced_name_for resource) clients.active))
            else Dict.lookup n clients.active)
          ≡ some client
        → Polls client
    held-Polls handler n client h = elim (Bool-cases (namespaced_name_for resource == n)) [
      | inl same ↦ subst Polls (some_inj (rw same at h)) (
          Polls-added resource handler (Dict.lookup (namespaced_name_for resource) clients.active)
            (I.all_poll (namespaced_name_for resource)))
      | inr other ↦ I.all_poll n client (rw other at h)
    ]

    pub add-IsPolled : (handler : H) → IsPolled (add_collector_client resource handler clients)
    add-IsPolled handler = record {
      all_poll = λ n client held.
          held-Polls handler n client (rw (lookup-add clients resource handler n) at held);
      all_ended = rw (removed-add clients resource handler) I.all_ended;
    }

    pub Polls-HasGoroutine : HasGoroutine clients resource
    Polls-HasGoroutine client held = (I.all_poll (namespaced_name_for resource) client held).runs

    AllEnded-left_by :
        (o : Option (CollectorClient H))
        → Dict.lookup (namespaced_name_for resource) clients.active ≡ o
        → AllEnded (left_by clients resource o).removed
    AllEnded-left_by none missing = I.all_ended
    AllEnded-left_by (some old) held =
        (Ended-stopped_client old (I.all_poll (namespaced_name_for resource) old held), I.all_ended)

    -- A removal returns, and keeps the invariant.
    pub remove-ok : (remove_collector_client resource clients).0 ≡ ok tt
    remove-ok = rw (remove_lem clients resource Polls-HasGoroutine) refl

    pub remove-IsPolled : IsPolled (remove_collector_client resource clients).1
    remove-IsPolled = record {
      all_poll = λ n client held.
          I.all_poll n client
            (kept_lem n client (rw (lookup-remove clients resource n Polls-HasGoroutine) at held));
      all_ended = rw (remove_lem clients resource Polls-HasGoroutine) (AllEnded-left_by _ refl);
    }
      where
        kept_lem :
            (n : String) (client : CollectorClient H)
            → (if namespaced_name_for resource == n then none else Dict.lookup n clients.active)
              ≡ some client
            → Dict.lookup n clients.active ≡ some client
        kept_lem n client h = ground arith

-- One call of addCollectorClient or removeCollectorClient.
pub data ClientCall (H : Type 0) : Type 0 where
  add : ObjectMeta → H → ClientCall H
  remove : ObjectMeta → ClientCall H

module _ {H : Type 0} where
  abbrev pub no_clients : CollectorClients H
  no_clients = record { active = []; removed = [] }

  pub no_clients-IsPolled : IsPolled no_clients
  unfolding Dict.lookup
  no_clients-IsPolled = record { all_poll = λ n client held. cc; all_ended = tt }

  unfoldable pub run_calls : List (ClientCall H) → CollectorClients H → CollectorClients H
  run_calls [] clients = clients
  run_calls (add resource handler ∷ calls) clients =
      run_calls calls (add_collector_client resource handler clients)
  run_calls (remove resource ∷ calls) clients =
      run_calls calls (remove_collector_client resource clients).1

  -- Whatever is added and removed: every client in the map has a ticker and a goroutine that runs, and
  -- was not told to stop; every client that was taken out has its ticker stopped, its goroutine has
  -- ended, and no send waits for it.
  run_calls-IsPolled :
      (calls : List (ClientCall H)) (clients : CollectorClients H)
      → IsPolled clients
      → IsPolled (run_calls calls clients)
  unfolding run_calls
  run_calls-IsPolled [] clients I = I
  run_calls-IsPolled (add resource handler ∷ calls) clients I =
      run_calls-IsPolled calls _ (add-IsPolled resource clients I handler)
  run_calls-IsPolled (remove resource ∷ calls) clients I =
      run_calls-IsPolled calls _ (remove-IsPolled resource clients I)

  -- Whatever was added and removed before: when a client in the map is told to stop, its goroutine can
  -- take the message, and by that it ends and no send waits, so that the removal goes on.
  pub stop_client-run_calls :
      (calls : List (ClientCall H)) (n : String) (client : CollectorClient H)
      → Dict.lookup n (run_calls calls no_clients).active ≡ some client
      → TokenLoopStep
          (stop_client client).loop
          (record (stop_client client).loop { running = false; senders = 0 })
  stop_client-run_calls calls n client held =
      let s =
        Asked-stop_client client
          ((run_calls-IsPolled calls no_clients no_clients-IsPolled).all_poll n client held) in
      done (stop_client client).loop 0 s.running_yet s.asked
