-- ===== src/Operator/EventQueue.antt =====
-- operator/informer_processor.go: the queue between an informer and the handler of its events.
-- `buffer.RingGrowing` is a parameter with its documented behaviour, a growing FIFO buffer. The
-- two channels have no buffer: a push is one step with its receipt by the loop of `run`, and a
-- delivery is one step with its receipt by the handler. Events are not nil.
use grafana_app_sdk.Base.{
  ℕ, zero, suc, List, [], ◌∷◌, ◌++◌, ◌≡◌, Bool, true, false, Option, none, some, if◌then◌else◌,
  length,
}
pub mod Fifo
pub mod Drain
mod Tests
pub mod Samples

pub record RingGrowing (E : Type 0) : Type 1 where
  pub Ring : Type 0
  pub empty : Ring
  pub write_one : Ring → E → Ring
  pub read_one : Ring → Option E × Ring
  pub contents : Ring → List E
  pub contents-empty : contents empty ≡ []
  pub contents-write_one : (r : Ring) (e : E) → contents (write_one r e) ≡ contents r ++ e ∷ []
  pub read_one_empty :
      (r : Ring) → contents r ≡ [] → ((read_one r).0 ≡ none) × (contents (read_one r).1 ≡ [])
  pub read_one_full :
      (r : Ring) (e : E) (es : List E)
      → contents r ≡ e ∷ es
      → ((read_one r).0 ≡ some e) × (contents (read_one r).1 ≡ es)

module _ {E : Type 0} (ring : RingGrowing E) where
  open ring use {Ring, empty, write_one, read_one}

  -- `event` is the event that `run` offers to the handler; `nextCh` is nil just when there is none.
  -- `pushed` and `delivered` record what went through the channels, and `returned` that `run` ended.
  pub record BufferedQueue : Type 0 where
    pub event : Option E
    pub buf : Ring
    pub stopped : Bool
    pub returned : Bool
    pub pushed : List E
    pub delivered : List E

  unfoldable pub new_buffered_queue : BufferedQueue
  new_buffered_queue = record {
    event = none;
    buf = empty;
    stopped = false;
    returned = false;
    pushed = [];
    delivered = [];
  }

  -- The case of an event to add.
  receive : E → BufferedQueue → BufferedQueue
  receive e q = elim q.event [
    | none ↦ record q { event = some e; pushed = q.pushed ++ e ∷ [] }
    | some x ↦ record q { buf = write_one q.buf e; pushed = q.pushed ++ e ∷ [] }
  ]

  -- A queue that is stopped drops what is pushed.
  unfoldable pub push : E → BufferedQueue → BufferedQueue
  unfolding receive
  push e q = if q.stopped then q else receive e q

  -- The case of the handler's receipt, where an event is offered.
  unfoldable pub hand_out : BufferedQueue → BufferedQueue
  hand_out q = elim q.event [
    | none ↦ q
    | some e ↦ record q {
      event = (read_one q.buf).0;
      buf = (read_one q.buf).1;
      delivered = q.delivered ++ e ∷ [];
    }
  ]

  -- A receipt: once `run` has returned, the channel is closed and the handler gets no event.
  unfoldable pub deliver : BufferedQueue → BufferedQueue
  unfolding hand_out
  deliver q = if q.returned then q else hand_out q

  pub stop : BufferedQueue → BufferedQueue
  stop q = record q { stopped = true }

  -- The case of the closed channel.
  pub finish : BufferedQueue → BufferedQueue
  finish q = record q { returned = true }

  -- What the goroutines can do next.
  pub data Step : BufferedQueue → BufferedQueue → Type 0 where
    pushes : {q : BufferedQueue} (e : E) → q.returned ≡ false → Step q (push e q)
    delivers : {q : BufferedQueue} → q.returned ≡ false → Step q (deliver q)
    stops : {q : BufferedQueue} → Step q (stop q)
    finishes : {q : BufferedQueue} → q.stopped ≡ true → Step q (finish q)

  pub data Reachable : BufferedQueue → Type 0 where
    start : Reachable new_buffered_queue
    step : {q r : BufferedQueue} → Reachable q → Step q r → Reachable r

  -- As many receipts of the handler in a row.
  pub deliver_times : ℕ → BufferedQueue → BufferedQueue
  unfolding deliver
  deliver_times zero q = q
  deliver_times (suc n) q = deliver_times n (deliver q)
