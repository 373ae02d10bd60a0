-- ===== src/Poller/Progress.antt =====
-- startPolling, stopPolling and the two goroutines of a poller: who receives the send on `doneChan`.
use gmos_k8s_operator.Prelude.{ℕ, suc, ◌≡◌, refl, true, ◌||◌, ◌⊎◌, inl, inr, Bool-cases, arith}
use gmos_k8s_operator.Poller.{
  Loops, no_loops, is_set, start_polling, stop_polling, LoopStep, data_done, refresh_done,
  handshake_failed, LoopSteps, here, next,
}

-- Nothing waits to end the goroutines, and the data loop runs.
record Running (l : Loops) : Type 0 where
  idle : l.senders ≡ 0
  looping : l.data_loop ≡ true

Running-steps : {l m : Loops} → LoopSteps l m → Running l → Running m
Running-steps here r = r
Running-steps (next steps (data_done l n p q)) r =
    let s = Running-steps steps r in absurd (cc (s.idle, q))
Running-steps (next steps (refresh_done l n p q)) r =
    let s = Running-steps steps r in absurd (cc (s.idle, q))
Running-steps (next steps (handshake_failed l p)) r =
    let s = Running-steps steps r in record { idle = s.idle; looping = s.looping }

-- The one send waits and the data loop can take it, or it was taken.
data Receivable (l : Loops) : Type 0 where
  ready : l.senders ≡ 1 → l.data_loop ≡ true → Receivable l
  received : l.senders ≡ 0 → Receivable l

Receivable-stop : (l : Loops) → Running l → Receivable (stop_polling l)
unfolding stop_polling
Receivable-stop l r = elim (Bool-cases (is_set l.refresh_ticker || is_set l.data_update_ticker)) [
  | inl set ↦ ready (rw (set, r.idle) refl) r.looping
  | inr unset ↦ received (rw unset r.idle)
]

Receivable-done : (l : Loops) (n : ℕ) → l.senders ≡ suc n → Receivable l → n ≡ 0
Receivable-done l n q (ready s d) = omega arith
Receivable-done l n q (received s) = absurd (omega arith)

Receivable-steps : {l m : Loops} → LoopSteps l m → Receivable l → Receivable m
Receivable-steps here r = r
Receivable-steps (next steps (data_done l n p q)) r =
    received (Receivable-done l n q (Receivable-steps steps r))
Receivable-steps (next steps (refresh_done l n p q)) r =
    received (Receivable-done l n q (Receivable-steps steps r))
Receivable-steps (next steps (handshake_failed l p)) r = elim (Receivable-steps steps r) [
  | ready s d ↦ ready s d
  | received s ↦ received s
]

receive :
    (l : Loops) → Receivable l → (l.senders ≡ 0) ⊎ ((m : Loops) × LoopStep l m × (m.senders ≡ 0))
receive l (received s) = inl s
receive l (ready s d) = inr (_, data_done l 0 d s, refl)

-- Whatever the goroutines of a new poller did between its start and its stop, and whatever they did
-- since, failed handshakes included, the send of that stop was received, or one of them can
-- receive it now: stopPolling is never left waiting for ever.
pub stop_is_received :
    {l m : Loops}
    → LoopSteps (start_polling no_loops) l
    → LoopSteps (stop_polling l) m
    → (m.senders ≡ 0) ⊎ ((n : Loops) × LoopStep m n × (n.senders ≡ 0))
stop_is_received {l} {m} before after = receive m (
    Receivable-steps after (
      Receivable-stop l
        (Running-steps before (unfold start_polling in record { idle = refl; looping = refl }))))
