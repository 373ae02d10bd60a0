-- ===== src/Poller/Lifecycle.antt =====
-- startPolling, stopPolling and the two goroutines of a poller: one send on `doneChan` for two
-- receivers.
use gmos_k8s_operator.Prelude.{ℕ, zero, suc, ltb, ◌≡◌, refl, true, false, ◌||◌, arith}
use gmos_k8s_operator.Poller.{
  Loops, no_loops, start_polling, stop_polling, data_done, refresh_done, handshake_failed,
  LoopSteps, here, next,
}

-- Starting a poller that was started, or that was stopped after its start, changes nothing.
start-stop-start :
    (l : Loops)
    → (start_polling (start_polling l) ≡ start_polling l)
      × (start_polling (stop_polling (start_polling l)) ≡ stop_polling (start_polling l))
unfolding start_polling stop_polling
start-stop-start l = ground arith

-- How often the refresh loop ended by a failed handshake.
unfoldable pub failures : {l m : Loops} → LoopSteps l m → ℕ
failures here = 0
failures (next steps (data_done l n p q)) = failures steps
failures (next steps (refresh_done l n p q)) = failures steps
failures (next steps (handshake_failed l p)) = suc (failures steps)

-- What one send leaves: both goroutines and the send, or one goroutine and no send.
data Draining (l : Loops) : Type 0 where
  waiting : l.senders ≡ 1 → l.data_loop ≡ true → l.refresh_loop ≡ true → Draining l
  taken : l.senders ≡ 0 → l.data_loop || l.refresh_loop ≡ true → Draining l

Draining-data_done :
    (l : Loops) (n : ℕ)
    → l.senders ≡ suc n
    → Draining l
    → Draining (record l { data_loop = false; senders = n })
Draining-data_done l n q (waiting s d r) = taken (omega arith) r
Draining-data_done l n q (taken s d) = absurd (omega arith)

Draining-refresh_done :
    (l : Loops) (n : ℕ)
    → l.senders ≡ suc n
    → Draining l
    → Draining (record l { refresh_loop = false; senders = n })
Draining-refresh_done l n q (waiting s d r) = taken (omega arith) (ground arith)
Draining-refresh_done l n q (taken s d) = absurd (omega arith)

Draining-steps :
    {l m : Loops} (steps : LoopSteps l m) → Draining l → failures steps ≡ 0 → Draining m
unfolding failures
Draining-steps here d f = d
Draining-steps (next steps (data_done l n p q)) d f =
    Draining-data_done l n q (Draining-steps steps d f)
Draining-steps (next steps (refresh_done l n p q)) d f =
    Draining-refresh_done l n q (Draining-steps steps d f)
Draining-steps (next steps (handshake_failed l p)) d f = absurd (omega arith)

loops_left : {l : Loops} → Draining l → l.data_loop || l.refresh_loop ≡ true
loops_left (waiting s d r) = ground arith
loops_left (taken s d) = d

-- After a new poller was started and stopped, at least one of its goroutines runs in every state
-- that they reach without a failed handshake.
pub stop_leaves_loop :
    {m : Loops} (steps : LoopSteps (stop_polling (start_polling no_loops)) m)
    → failures steps ≡ 0
    → m.data_loop || m.refresh_loop ≡ true
unfolding start_polling stop_polling
stop_leaves_loop steps f = loops_left (Draining-steps steps (waiting refl refl refl) f)

-- A new poller that was told to stop so many times, as by removals before its handshake ended.
unfoldable pub stopped_early : ℕ → Loops
stopped_early zero = no_loops
stopped_early (suc n) = stop_polling (stopped_early n)

stopped_early_lem : (n : ℕ) → stopped_early n ≡ no_loops
unfolding stopped_early stop_polling
stopped_early_lem zero = refl
stopped_early_lem (suc n) = rw (stopped_early_lem n) refl

-- Nothing waits to end the data loop, and only a failed handshake ended the refresh loop.
record Unstopped (m : Loops) (failed : ℕ) : Type 0 where
  idle : m.senders ≡ 0
  data_runs : m.data_loop ≡ true
  refresh_runs : m.refresh_loop ≡ ltb failed 1

Unstopped-steps :
    {l m : Loops} (steps : LoopSteps l m) → Unstopped l 0 → Unstopped m (failures steps)
unfolding failures
Unstopped-steps here u = u
Unstopped-steps (next steps (data_done l n p q)) u =
    let v = Unstopped-steps steps u in absurd (cc (v.idle, q))
Unstopped-steps (next steps (refresh_done l n p q)) u =
    let v = Unstopped-steps steps u in absurd (cc (v.idle, q))
Unstopped-steps (next steps (handshake_failed l p)) u =
    let v = Unstopped-steps steps u in
    record { idle = v.idle; data_runs = v.data_runs; refresh_runs = ground arith }

-- However often a new poller was told to stop before it was started: in every state that its
-- goroutines reach after the start the data loop runs and no send waits to end it, and the refresh
-- loop runs unless a handshake failed.
pub stop_before_start :
    (stops : ℕ) {m : Loops} (steps : LoopSteps (start_polling (stopped_early stops)) m)
    → (m.data_loop ≡ true) × (m.senders ≡ 0) × (m.refresh_loop ≡ ltb (failures steps) 1)
stop_before_start stops steps =
    let u = Unstopped-steps steps (
      rw (stopped_early_lem stops)
        (unfold start_polling in record { idle = refl; data_runs = refl; refresh_runs = refl })) in
    (u.data_runs, u.idle, u.refresh_runs)
