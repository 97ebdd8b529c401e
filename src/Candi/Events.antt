-- ===== src/Candi/Events.antt =====
-- Counting the events of a log, and those that say what a message is.
use candi_plugin.Base.{ℕ, ◌+◌, Bool, true, false, List, [], ◌∷◌, if◌then◌else◌}
use candi_plugin.Candi.{
  Event, ack, handle, wg_add, wg_done, finish, unlock, acquire, release, start_trace, skip_trace,
  set_header, set_key, write,
}

abbrev pub count : (Event → Bool) → List Event → ℕ
count p [] = 0
count p (e ∷ log) = (if p e then 1 else 0) + count p log

abbrev pub is_ack : Event → Bool
is_ack ack = true
is_ack _ = false

abbrev pub is_wg_add : Event → Bool
is_wg_add wg_add = true
is_wg_add _ = false

abbrev pub is_wg_done : Event → Bool
is_wg_done wg_done = true
is_wg_done _ = false

abbrev pub is_finish : Event → Bool
is_finish (finish err) = true
is_finish _ = false

abbrev pub is_handle : Event → Bool
is_handle (handle i) = true
is_handle _ = false

-- The positions of the handler functions that were called, the last first.
abbrev pub positions : List Event → List ℕ
positions [] = []
positions (handle i ∷ log) = i ∷ positions log
positions (e ∷ log) = positions log

-- The start of a trace in a context that is marked as not to be traced.
abbrev pub is_marked : Event → Bool
is_marked (start_trace (skip_trace ctx) name header) = true
is_marked _ = false

abbrev pub is_unlock : Event → Bool
is_unlock (unlock key) = true
is_unlock _ = false

abbrev pub is_release : Event → Bool
is_release (release topic) = true
is_release _ = false

abbrev pub is_acquire : Event → Bool
is_acquire (acquire topic) = true
is_acquire _ = false

abbrev pub if_due : Bool → ℕ
if_due b = if b then 1 else 0

-- What a trace and an event context are told of a message: the header that the trace was started from,
-- and the header, the key and the body of the event context.
abbrev pub inputs : List Event → List Event
inputs [] = []
inputs (start_trace ctx name header ∷ log) = start_trace ctx name header ∷ inputs log
inputs (set_header header ∷ log) = set_header header ∷ inputs log
inputs (set_key key ∷ log) = set_key key ∷ inputs log
inputs (write body ∷ log) = write body ∷ inputs log
inputs (e ∷ log) = inputs log
