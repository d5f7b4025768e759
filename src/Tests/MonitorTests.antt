-- ===== src/Tests/MonitorTests.antt =====
-- Runs of the monitor, and its theorems at concrete inputs.
use mydrive.Base.{
  ◌+◌, ◌<◌, ◌≤◌, ◌≡◌, ◌≢◌, refl, [], ◌∷◌, none, some, true, false, arith, text_eq, text_beq,
}
use mydrive.Base.Dict
use mydrive.Protocol.Message.{ChangeType}
use mydrive.Sync.Engine.{tombstone_file}
use mydrive.Sync.Monitor.{
  Op, Monitor, new_monitor, ignore, on_event, debounced, event_type, change_event, flush_debounce,
  receive, is_ignored, debounce_delay,
}
use mydrive.Sync.Monitor.Burst.{
  Seen, on_events, flush_debounce-on_events, flush_debounce-removes, on_event-ignore,
}
use mydrive.Sync.Monitor.Invariant.{
  IsValid, happened, fired, received, start, then_step, new_monitor-IsValid, Run-IsValid,
}
use mydrive.Tests.SyncTests.{file, a}

abbrev no_op : Op
no_op = record { create = false; write = false; remove = false; rename = false; chmod = false }

abbrev created : Seen
created = (record no_op { create = true }, false, 5)

abbrev written : Seen
written = (record no_op { write = true }, false, 7)

abbrev removed : Seen
removed = (record no_op { remove = true }, false, 6)

abbrev fresh : Monitor
fresh = new_monitor ([] ∷ [])

a-ne-tombstone_file : a ≢ tombstone_file
a-ne-tombstone_file e = ground arith

flush_debounce-on_events_example :
    ((flush_debounce (some (file a 1 1)) a (on_events a (created ∷ written ∷ []) fresh)).ch
      ≡ change_event ChangeType.create (some (file a 1 1)) a ∷ [])
    × (Dict.get
          (flush_debounce
            (some (file a 1 1))
            a
            (on_events a (created ∷ written ∷ []) fresh)).debounce
          a
        ≡ none)
unfolding new_monitor event_type Dict.get
flush_debounce-on_events_example =
    flush_debounce-on_events a a-ne-tombstone_file created (written ∷ []) ChangeType.create
      (some (file a 1 1)) fresh refl refl (omega arith) refl

flush_debounce-removes_example :
    (flush_debounce (some (file a 1 1)) a (on_events a (removed ∷ created ∷ []) fresh)).ch
    ≡ change_event ChangeType.delete none a ∷ []
unfolding new_monitor Dict.get
flush_debounce-removes_example =
    flush_debounce-removes a a-ne-tombstone_file removed (created ∷ []) (some (file a 1 1)) fresh
      refl refl (omega arith) refl

on_event-ignore_example :
    (9 ≤ 5 + 10 → on_event a no_op false 9 (ignore a 10 5 fresh) ≡ ignore a 10 5 fresh)
    × (5 + 10 < 9
        → Dict.get (on_event a no_op false 9 (ignore a 10 5 fresh)).debounce a
          ≡ some (debounced (Dict.get fresh.debounce a) no_op 9))
on_event-ignore_example = on_event-ignore a a-ne-tombstone_file no_op false 5 9 10 fresh

abbrev pending : Monitor
pending = on_event a created.0 false 5 fresh

pending-a : Dict.get pending.debounce a ≡ some (debounced none created.0 5)
unfolding on_event is_ignored new_monitor Dict.get Dict.insert text_beq
pending-a = refl

Run-IsValid_example : IsValid (receive (flush_debounce none a pending)).1
Run-IsValid_example =
    Run-IsValid
      (then_step
        (then_step (then_step start (happened a created.0 false 5 fresh))
          (fired a (debounced none created.0 5) (5 + debounce_delay) none pending pending-a refl))
        (received (flush_debounce none a pending)))
      (new_monitor-IsValid ([] ∷ []))
