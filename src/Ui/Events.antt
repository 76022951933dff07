-- ===== src/Ui/Events.antt =====
-- src/ui/events.c: the ring of the latest seven events of the terminal interface. A `char` array is
-- the C string in it.
pub mod Queue
use tund.Base.{
  ℕ, zero, suc, ◌+◌, ◌-◌, ◌%◌, Bool, true, false, List, [], ◌∷◌, ◌++◌, ltb, ◌==◌, if◌then◌else◌,
  length, take, get_or, set,
}

abbrev pub max_events : ℕ
max_events = 7

abbrev message_len : ℕ
message_len = 128

-- `tui_event_t`.
pub record UiEvent : Type 0 where
  pub ts : ℕ
  pub level : ℕ
  pub message : List ℕ

-- `tui_events`, `tui_event_start`, `tui_event_count` and `tui_active`.
pub record EventLog : Type 0 where
  pub events : List UiEvent
  pub start : ℕ
  pub count : ℕ
  pub is_active : Bool

abbrev pub no_event : UiEvent
no_event = record { ts = 0; level = 0; message = [] }

unfoldable pub events_start : EventLog → EventLog
events_start log = record log { start = 0; count = 0; is_active = true }

unfoldable pub events_stop : EventLog → EventLog
events_stop log = record log { is_active = false }

-- The entry that `tui_add_event` writes.
unfoldable pub new_event : ℕ → ℕ → List ℕ → UiEvent
new_event now level message = record {
  ts = now;
  level = level;
  message = take (message_len - 1) message;
}

unfoldable pub put_event : EventLog → UiEvent → EventLog
put_event log e =
    if log.count == max_events
    then record log { events = set log.events log.start e; start = (log.start + 1) % max_events }
    else record log {
      events = set log.events ((log.start + log.count) % max_events) e;
      count = log.count + 1;
    }

unfoldable pub add_event : EventLog → ℕ → ℕ → List ℕ → EventLog
add_event log now level message = put_event log (new_event now level message)

-- The copy that `tui_render_events` makes under the lock: so many entries from the i-th on.
unfoldable pub copy_events : EventLog → ℕ → ℕ → List UiEvent
copy_events log zero i = []
copy_events log (suc left) i =
    get_or log.events ((log.start + i) % max_events) no_event ∷ copy_events log left (i + 1)

unfoldable pub shown_events : EventLog → List UiEvent
unfolding copy_events
shown_events log = copy_events log log.count 0

-- `tui_truncate_event` into an array of `len` bytes.
unfoldable pub truncate_event : List ℕ → ℕ → List ℕ
truncate_event message len =
    if ltb (length message) len
    then message
    else if ltb len 4
    then []
    else take (len - 4) message ++ b'.' ∷ b'.' ∷ b'.' ∷ []
