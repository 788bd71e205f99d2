-- ===== src/Operator/EventQueue/Tests.antt =====
-- Runs of the queue on a list.
use grafana_app_sdk.Base.{ℕ, [], ◌∷◌, ◌≡◌, refl}
use grafana_app_sdk.Operator.EventQueue.{
  BufferedQueue, new_buffered_queue, push, deliver, hand_out, deliver_times, stop, finish, receive,
  pushes, delivers, Reachable, start, step,
}
use grafana_app_sdk.Operator.EventQueue.Samples.{list_ring}
use grafana_app_sdk.Operator.EventQueue.Fifo.{IsFifo, Reachable-IsFifo}
use grafana_app_sdk.Operator.EventQueue.Drain.{delivered-deliver_times}

-- Three pushes, with one delivery between them.
abbrev run : BufferedQueue (list_ring ℕ)
run = push (list_ring ℕ) 3 (
    deliver (list_ring ℕ)
      (push (list_ring ℕ) 2 (push (list_ring ℕ) 1 (new_buffered_queue (list_ring ℕ)))))

run-Reachable : Reachable (list_ring ℕ) run
unfolding new_buffered_queue push deliver hand_out receive
run-Reachable =
    step (step (step (step start (pushes 1 refl)) (pushes 2 refl)) (delivers refl)) (pushes 3 refl)

Reachable-IsFifo_example : IsFifo (list_ring ℕ) run
Reachable-IsFifo_example = Reachable-IsFifo (list_ring ℕ) run run-Reachable

delivered-deliver_times_example : (deliver_times (list_ring ℕ) 2 run).delivered ≡ 1 ∷ 2 ∷ 3 ∷ []
unfolding new_buffered_queue push deliver hand_out receive
delivered-deliver_times_example = delivered-deliver_times (list_ring ℕ) run run-Reachable refl

-- A receipt after the return gives nothing.
closed : (deliver (list_ring ℕ) (finish (list_ring ℕ) (stop (list_ring ℕ) run))).delivered ≡ 1 ∷ []
unfolding new_buffered_queue push deliver hand_out receive finish stop
closed = refl
