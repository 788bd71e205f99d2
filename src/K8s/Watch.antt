-- ===== src/K8s/Watch.antt =====
-- k8s/gvclient.go: `WatchResponse`, which passes the events of a Kubernetes watch on to a channel, as
-- a state machine. Its goroutines and the callers of its methods take turns in any order that the
-- mutex and the channels allow. What the watch delivers is any sequence of events; logs and metrics
-- are left out.
use grafana_app_sdk.Base.{
  ℕ, zero, suc, ◌+◌, ◌<◌, String, List, [], ◌∷◌, ◌++◌, ◌≡◌, ◌⊎◌, inl, inr, Bool, true, false,
  Option, none, some, length, get_elem?, modify,
}
use grafana_app_sdk.Resource.Object.{Object}
use grafana_app_sdk.Resource.Client.{Failure}
pub mod Panics
pub mod Order
pub mod Blocked
mod Tests

-- The object of an event by what it is to `start`: nil, a `resource.Object`, one with `Into` and what
-- that gives, one with `ResourceObject`, or another.
pub data EventObject : Type 0 where
  nil_object : EventObject
  resource_object : Object → EventObject
  into_object : Failure ⊎ Object → EventObject
  wrapped_object : Object → EventObject
  other_object : EventObject

pub record RawEvent : Type 0 where
  pub event_type : String
  pub object : EventObject

pub record WatchEvent : Type 0 where
  pub event_type : String
  pub object : Object

pub translate_object : EventObject → Option Object
translate_object nil_object = none
translate_object (resource_object o) = some o
translate_object (into_object (inl e)) = none
translate_object (into_object (inr o)) = some o
translate_object (wrapped_object o) = some o
translate_object other_object = none

-- An event that cannot be translated is logged and left out.
pub translate : RawEvent → Option WatchEvent
unfolding translate_object
translate e = elim (translate_object e.object) [
  | none ↦ none
  | some o ↦ some (record { event_type = e.event_type; object = o })
]

-- A goroutine that runs `start`: at its `select`, at the send of an event, about to close `stopCh`,
-- and returned.
pub data Loop : Type 0 where
  selecting : Loop
  sending : WatchEvent → Loop
  closing_stop : Loop
  returned : Loop

-- Who has `startMux`: nobody, `Stop` at its send, `KubernetesWatch` at its send, and `Stop` after it.
pub data Holder : Type 0 where
  free : Holder
  stopping : Holder
  releasing : Holder
  closing : Holder

-- `received`, what the goroutines took from the watch, `delivered`, what was taken from the channel,
-- and `stops`, the calls that came to a send to `stopCh`, record the run.
pub record State : Type 0 where
  pub started : Bool
  pub holder : Holder
  pub loops : List Loop
  pub stop_closed : Bool
  pub channel_closed : Bool
  pub buffer : List WatchEvent
  pub capacity : ℕ
  pub panicked : Bool
  pub received : List RawEvent
  pub delivered : List WatchEvent
  pub stops : ℕ

abbrev pub channel_buffer_size : ℕ → ℕ
channel_buffer_size zero = 1
channel_buffer_size (suc n) = suc n

-- `groupVersionClient.watch`, by the option `EventBufferSize`.
abbrev pub new_watch : ℕ → State
new_watch event_buffer_size = record {
  started = false;
  holder = free;
  loops = [];
  stop_closed = false;
  channel_closed = false;
  buffer = [];
  capacity = channel_buffer_size event_buffer_size;
  panicked = false;
  received = [];
  delivered = [];
  stops = 0;
}

abbrev pub moved : State → ℕ → Loop → State
moved s i l = record s { loops = modify i (λ old. l) s.loops }

pub data Step : State → State → Type 0 where
  -- `WatchEvents`: the first call, and those after it.
  watch_events :
      {s : State}
      → s.holder ≡ free
      → s.started ≡ false
      → Step s (record s { loops = s.loops ++ selecting ∷ []; started = true })
  watch_events_again : {s : State} → s.holder ≡ free → s.started ≡ true → Step s s
  stop :
      {s : State} → s.holder ≡ free → Step s (record s { holder = stopping; stops = suc s.stops })
  -- `KubernetesWatch`, with a channel to stop or without.
  kubernetes_watch :
      {s : State}
      → s.holder ≡ free
      → s.started ≡ true
      → Step s (record s { holder = releasing; stops = suc s.stops })
  kubernetes_watch_idle : {s : State} → s.holder ≡ free → s.started ≡ false → Step s s
  -- The send to `stopCh`, which has no buffer, meets a goroutine at its `select`.
  stop_received :
      {s : State} (i : ℕ)
      → s.holder ≡ stopping
      → s.stop_closed ≡ false
      → get_elem? s.loops i ≡ some selecting
      → Step s (record (moved s i closing_stop) { holder = closing })
  release_received :
      {s : State} (i : ℕ)
      → s.holder ≡ releasing
      → s.stop_closed ≡ false
      → get_elem? s.loops i ≡ some selecting
      → Step s (record (moved s i closing_stop) { holder = free; started = false })
  -- A send to a channel that is closed.
  stop_panics :
      {s : State}
      → s.holder ≡ stopping
      → s.stop_closed ≡ true
      → Step s (record s { panicked = true })
  release_panics :
      {s : State}
      → s.holder ≡ releasing
      → s.stop_closed ≡ true
      → Step s (record s { panicked = true })
  -- `close(w.ch)` and the end of `Stop`.
  close_channel :
      {s : State}
      → s.holder ≡ closing
      → s.channel_closed ≡ false
      → Step s (record s { channel_closed = true; started = false; holder = free })
  close_panics :
      {s : State}
      → s.holder ≡ closing
      → s.channel_closed ≡ true
      → Step s (record s { panicked = true })
  -- A goroutine takes an event from the watch, to send it or to leave it out.
  takes :
      {s : State} (i : ℕ) (e : RawEvent) (w : WatchEvent)
      → get_elem? s.loops i ≡ some selecting
      → translate e ≡ some w
      → Step s (record (moved s i (sending w)) { received = s.received ++ e ∷ [] })
  leaves_out :
      {s : State} (i : ℕ) (e : RawEvent)
      → get_elem? s.loops i ≡ some selecting
      → translate e ≡ none
      → Step s (record s { received = s.received ++ e ∷ [] })
  sends :
      {s : State} (i : ℕ) (w : WatchEvent)
      → get_elem? s.loops i ≡ some (sending w)
      → s.channel_closed ≡ false
      → length s.buffer < s.capacity
      → Step s (record (moved s i selecting) { buffer = s.buffer ++ w ∷ [] })
  send_panics :
      {s : State} (i : ℕ) (w : WatchEvent)
      → get_elem? s.loops i ≡ some (sending w)
      → s.channel_closed ≡ true
      → Step s (record s { panicked = true })
  -- A receive from a closed channel is always ready.
  selects_closed :
      {s : State} (i : ℕ)
      → get_elem? s.loops i ≡ some selecting
      → s.stop_closed ≡ true
      → Step s (moved s i closing_stop)
  closes_stop :
      {s : State} (i : ℕ)
      → get_elem? s.loops i ≡ some closing_stop
      → s.stop_closed ≡ false
      → Step s (record (moved s i returned) { stop_closed = true })
  close_stop_panics :
      {s : State} (i : ℕ)
      → get_elem? s.loops i ≡ some closing_stop
      → s.stop_closed ≡ true
      → Step s (record s { panicked = true })
  -- The consumer of the channel.
  consumes :
      {s : State} (w : WatchEvent) (rest : List WatchEvent)
      → s.buffer ≡ w ∷ rest
      → Step s (record s { buffer = rest; delivered = s.delivered ++ w ∷ [] })

pub data Reachable (n : ℕ) : State → Type 0 where
  start : Reachable n (new_watch n)
  then_step : {s t : State} → Reachable n s → Step s t → Reachable n t
