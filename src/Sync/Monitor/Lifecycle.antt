-- ===== src/Sync/Monitor/Lifecycle.antt =====
-- sync/monitor.go: the start and the end of a monitor. A send on the closed channel, which would
-- stop the program, is `none`.
use mydrive.Base.{
  ◌≡◌, refl, Option, none, some, List, [], ◌∷◌, Bool, true, false, not, Text, text_eq,
  if◌then◌else◌, Bool-cases, inl, inr,
}
use mydrive.Base.Dict
use mydrive.Base.Dict.{Dict}
use mydrive.Protocol.Message.{FileEntry, ChangeType}
use mydrive.Sync.Monitor.{Monitor, DebounceState, new_monitor, event_type, flush_debounce}

pub record Running : Type 0 where
  pub monitor : Monitor
  pub running : Bool
  -- whether `quit` and `ch` are closed
  pub quit_closed : Bool
  pub ch_closed : Bool

-- NewMonitor
unfoldable pub made : List Text → Running
made directories = record {
  monitor = new_monitor directories;
  running = false;
  quit_closed = false;
  ch_closed = false;
}

-- (*Monitor).Start
unfoldable pub start : Running → Running
start r = record r { running = true }

-- (*Monitor).Stop
unfoldable pub stop : Running → Running
stop r = if not r.running then r else record r { running = false; quit_closed = true }

-- The first deferred call of the loop
unfoldable pub close_ch : Running → Running
close_ch r = record r { ch_closed = true }

unfoldable pub without_timers : Dict Text DebounceState → Dict Text DebounceState
without_timers [] = []
without_timers ((path, s) ∷ pending) = (path, record s { timer = none }) ∷ without_timers pending

-- The loop over the timers behind it
unfoldable pub stop_timers : Running → Running
stop_timers r = record r {
  monitor = record r.monitor { debounce = without_timers r.monitor.debounce };
}

-- (*Monitor).flushDebounce, which runs beside the loop
unfoldable pub flush : Option FileEntry → Text → Running → Option Running
flush built path r =
    let flushed = record r { monitor = flush_debounce built path r.monitor } in
    let sent : Bool = elim (Dict.get r.monitor.debounce path) [
      | none ↦ false
      | some s ↦ elim (event_type s.last_op) [ none ↦ false | some t ↦ true ]
    ] in
    if sent then (if r.ch_closed then none else some flushed) else some flushed

-- A monitor is stopped once: its second end does nothing.
pub stop-stop : (r : Running) → stop (stop r) ≡ stop r
unfolding stop
stop-stop r = elim (Bool-cases r.running) [ inl e ↦ rw (stop, e) refl | inr e ↦ rw (stop, e) refl ]

-- A change that is still pending when the monitor has been stopped, and whose timer runs out after the
-- loop has closed the channel and before it stops the timers, is sent on the closed channel.
pub flush-close_ch :
    (built : Option FileEntry) (path : Text) (r : Running) (s : DebounceState) (t : ChangeType)
    → Dict.get r.monitor.debounce path ≡ some s
    → event_type s.last_op ≡ some t
    → flush built path (close_ch (stop r)) ≡ none
unfolding flush close_ch stop
flush-close_ch built path r s t e h = elim (Bool-cases r.running) [
  | inl k ↦ rw (flush, stop, k, e, h) refl
  | inr k ↦ rw (flush, stop, k, e, h) refl
]
