-- ===== src/K8s/Watch/Tests.antt =====
-- Runs of a watch.
use grafana_app_sdk.Base.{◌+◌, ◌≤◌, [], ◌∷◌, ◌++◌, ◌≡◌, refl, true, false, none, some, sum, arith}
use grafana_app_sdk.Resource.Samples.{issue}
use grafana_app_sdk.K8s.Watch.{
  RawEvent, WatchEvent, resource_object, nil_object, translate, selecting, returned, stopping,
  State, new_watch, watch_events, stop, stop_received, close_channel, takes, leaves_out, sends,
  closes_stop, stop_panics, Reachable, start, then_step,
}
use grafana_app_sdk.K8s.Watch.Panics.{bit, staying, watch_never_panics}
use grafana_app_sdk.K8s.Watch.Order.{outgoing, translated, passed-translated}
use grafana_app_sdk.K8s.Watch.Blocked.{now, stop_blocks}

abbrev added : RawEvent
added = record { event_type = "ADDED"; object = resource_object (issue "one" "1" 0) }

abbrev bookmark : RawEvent
bookmark = record { event_type = "BOOKMARK"; object = nil_object }

abbrev out : WatchEvent
out = record { event_type = "ADDED"; object = issue "one" "1" 0 }

is_out : translate added ≡ some out
unfolding translate
is_out = refl

is_left_out : translate bookmark ≡ none
unfolding translate
is_left_out = refl

abbrev busy : State
busy = record (new_watch 0) {
  loops = selecting ∷ [];
  started = true;
  buffer = out ∷ [];
  received = bookmark ∷ added ∷ [];
}

-- One event is left out, and one is sent.
reach_busy : Reachable 0 busy
reach_busy =
    then_step
      (then_step
        (then_step (then_step start (watch_events refl refl))
          (leaves_out 0 bookmark refl is_left_out))
        (takes 0 added out refl is_out))
      (sends 0 out refl refl (omega arith))

abbrev stopped : State
stopped = record busy {
  loops = returned ∷ [];
  started = false;
  stop_closed = true;
  channel_closed = true;
  stops = 1;
}

reach_stopped : Reachable 0 stopped
reach_stopped =
    then_step
      (then_step (then_step (then_step reach_busy (stop refl)) (stop_received 0 refl refl refl))
        (close_channel refl refl))
      (closes_stop 0 refl refl)

-- A second call of `Stop` panics.
second_stop : Reachable 0 (record stopped { holder = stopping; stops = 2; panicked = true })
second_stop = then_step (then_step reach_stopped (stop refl)) (stop_panics refl refl)

watch_never_panics_example :
    (stopped.panicked ≡ false) × (bit stopped.channel_closed + sum staying stopped.loops ≤ 1)
watch_never_panics_example = watch_never_panics 0 stopped reach_stopped (omega arith) (omega arith)

passed-translated_example :
    busy.delivered ++ (busy.buffer ++ outgoing busy.loops) ≡ translated busy.received
passed-translated_example = passed-translated 0 busy reach_busy (omega arith)

abbrev waiting : State
waiting = record (new_watch 0) { holder = stopping; stops = 1 }

stop_blocks_example :
    (waiting.holder ≡ stopping)
    × (waiting.loops ≡ [])
    × (waiting.delivered ++ waiting.buffer ≡ (new_watch 0).delivered ++ (new_watch 0).buffer)
stop_blocks_example = stop_blocks (new_watch 0) waiting refl refl now
