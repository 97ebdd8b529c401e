-- ===== src/Mqtt/Serving/Tests.antt =====
-- Tests of the steps of Serve and Shutdown of mqtt-broker/subscriber.go.
use candi_plugin.Base.{◌≡◌, refl, arith}
use candi_plugin.Mqtt.Serving.{
  returned, State, begin, check, add, call, wait_over, cancel, stop, disconnect, Reach, here, next,
}
use candi_plugin.Mqtt.Serving.Shutdown.{has_cancelled, is_awaited, Ends, shutdown-Ends}

-- A message whose callback is in front of wg.Add(1) while Shutdown is at wg.Wait(): it is in hand when
-- Shutdown has returned.
abbrev in_hand : (s : State) × (s.phase ≡ returned) × (s.running ≡ 1) × Reach begin s
in_hand = (
  _,
  refl,
  refl,
  next
      (next
        (next
          (next (next (next (next here (check refl)) (call refl)) (wait_over refl refl))
            (cancel refl))
          (stop refl refl))
        (disconnect refl))
      (add (omega arith)),
)

shutdown-Ends_example :
    let s = in_hand.0 in
    (s.wg ≡ s.running)
    × (s.is_cancelled ≡ has_cancelled s.phase)
    × (s.is_serving ≡ is_awaited s.phase)
    × Ends s
shutdown-Ends_example = shutdown-Ends in_hand.0 in_hand.3
