-- ===== src/Sync/Monitor/Invariant.antt =====
-- sync/monitor.go: what holds of the monitor over any run of events, timers and readers.
use mydrive.Base.{
  ℕ, ◌≤◌, ◌≡◌, ◌≢◌, refl, Option, none, some, List, [], ◌∷◌, Bool, Text, ltb, length, length-append,
  nat_eq, text_eq, arith, Bool-cases, Option-cases, ◌⊎◌, inl, inr, All, All-append,
}
use mydrive.Base.Dict
use mydrive.Base.Dict.{Dict, NodupKeys, insert-NodupKeys, erase-NodupKeys, get-insert, get-erase}
use mydrive.Protocol.Message.{FileEntry, ChangeEvent, ChangeType}
use mydrive.Sync.Engine.{tombstone_file}
use mydrive.Sync.Monitor.{
  Op, DebounceState, Monitor, capacity, new_monitor, ignore, is_ignored, debounced, on_event,
  event_type, change_event, send, flush_debounce, receive,
}

-- The channel is within its capacity, and the tombstone file is neither pending nor reported.
pub record IsValid (m : Monitor) : Type 0 where
  pub room : length m.ch ≤ capacity
  pub not_pending : Dict.get m.debounce tombstone_file ≡ none
  pub not_sent : All (λ c. c.path ≢ tombstone_file) m.ch

pub data Step : Monitor → Monitor → Type 0 where
  happened :
      (path : Text) (op : Op) (is_dir : Bool) (now : ℕ) (m : Monitor)
      → Step m (on_event path op is_dir now m)
  ignored : (path : Text) (duration now : ℕ) (m : Monitor) → Step m (ignore path duration now m)
  fired :
      (path : Text) (s : DebounceState) (due : ℕ) (built : Option FileEntry) (m : Monitor)
      → Dict.get m.debounce path ≡ some s
      → s.timer ≡ some due
      → Step m (flush_debounce built path m)
  received : (m : Monitor) → Step m (receive m).1

pub data Run (m : Monitor) : Monitor → Type 0 where
  start : Run m m
  then_step : {n o : Monitor} → Run m n → Step n o → Run m o

pub new_monitor-IsValid : (directories : List Text) → IsValid (new_monitor directories)
unfolding new_monitor Dict.get
new_monitor-IsValid directories = record { room = omega arith; not_pending = refl; not_sent = tt }

ch-on_event :
    (path : Text) (op : Op) (is_dir : Bool) (now : ℕ) (m : Monitor)
    → (on_event path op is_dir now m).ch ≡ m.ch
unfolding on_event is_ignored
ch-on_event path op is_dir now m = ground arith

on_event-IsValid :
    (path : Text) (op : Op) (is_dir : Bool) (now : ℕ) (m : Monitor)
    → IsValid m
    → IsValid (on_event path op is_dir now m)
unfolding on_event is_ignored
on_event-IsValid path op is_dir now m h = record {
  room = ground (arith, h.room);
  not_pending = ground (
    arith,
    h.not_pending,
    text_eq.beq_iff path tombstone_file,
    get-insert m.debounce path (debounced (Dict.get m.debounce path) op now) tombstone_file,
  );
  not_sent = rw (ch-on_event path op is_dir now m) h.not_sent;
}

send-IsValid :
    (c : ChangeEvent) (ch : List ChangeEvent)
    → c.path ≢ tombstone_file
    → length ch ≤ capacity
    → All (λ x. x.path ≢ tombstone_file) ch
    → (length (send c ch) ≤ capacity) × All (λ x. x.path ≢ tombstone_file) (send c ch)
unfolding send
send-IsValid c ch other room h = elim (Bool-cases (ltb (length ch) capacity)) [
  | inl e ↦
      let appended = length-append ch (c ∷ []) in
      rw e (
        ground (arith, appended),
        All-append (λ x. x.path ≢ tombstone_file) ch (c ∷ []) h (other, tt),
      )
  | inr e ↦ rw e (room, h)
]

-- What a timer leaves for an event of no type, and for any other.
abbrev stopped : Text → DebounceState → Monitor → Monitor
stopped path s m = record m { debounce = Dict.insert m.debounce path (record s { timer = none }) }

abbrev reported : ChangeEvent → Text → Monitor → Monitor
reported c path m = record m { debounce = Dict.erase m.debounce path; ch = send c m.ch }

module _ (path : Text) (s : DebounceState) (built : Option FileEntry) (m : Monitor) where
  flush_debounce-stopped :
      Dict.get m.debounce path ≡ some s
      → event_type s.last_op ≡ none
      → flush_debounce built path m ≡ stopped path s m
  unfolding flush_debounce
  flush_debounce-stopped found e = ground arith

  flush_debounce-reported :
      (t : ChangeType)
      → Dict.get m.debounce path ≡ some s
      → event_type s.last_op ≡ some t
      → flush_debounce built path m ≡ reported (change_event t built path) path m
  unfolding flush_debounce
  flush_debounce-reported t found e = ground arith

flush_debounce-IsValid :
    (path : Text) (s : DebounceState) (built : Option FileEntry) (m : Monitor)
    → Dict.get m.debounce path ≡ some s
    → IsValid m
    → IsValid (flush_debounce built path m)
flush_debounce-IsValid path s built m found h =
    let other : path ≢ tombstone_file =
      λ p. let gone : Dict.get m.debounce path ≡ none = rw p h.not_pending in ground arith in
    elim (Option-cases (event_type s.last_op)) [
      | inl e ↦ rw (flush_debounce-stopped path s built m found e) (record {
        room = h.room;
        not_pending = ground (
          arith,
          h.not_pending,
          text_eq.beq_iff path tombstone_file,
          get-insert m.debounce path (record s { timer = none }) tombstone_file,
        );
        not_sent = h.not_sent;
      })
      | inr (t, e) ↦
          let sent = send-IsValid (change_event t built path) m.ch other h.room h.not_sent in
          rw (flush_debounce-reported path s built m t found e) (record {
            room = sent.0;
            not_pending = ground (arith, h.not_pending, get-erase m.debounce path tombstone_file);
            not_sent = sent.1;
          })
    ]

List-cases :
    (l : List ChangeEvent)
    → (l ≡ []) ⊎ ((c : ChangeEvent) × (rest : List ChangeEvent) × (l ≡ c ∷ rest))
List-cases [] = inl refl
List-cases (c ∷ rest) = inr (c, rest, refl)

receive-IsValid : (m : Monitor) → IsValid m → IsValid (receive m).1
unfolding receive
receive-IsValid m h = elim (List-cases m.ch) [
  | inl e ↦ rw e (record { room = omega arith; not_pending = h.not_pending; not_sent = tt })
  | inr (c, rest, e) ↦ rw e (record {
    room = omega (arith, rw e at h.room);
    not_pending = h.not_pending;
    not_sent = (rw e at h.not_sent).1;
  })
]

Step-IsValid : {m n : Monitor} → Step m n → IsValid m → IsValid n
unfolding ignore
Step-IsValid (happened path op is_dir now m) h = on_event-IsValid path op is_dir now m h
Step-IsValid (ignored path duration now m) h = record {
  room = h.room;
  not_pending = h.not_pending;
  not_sent = h.not_sent;
}
Step-IsValid (fired path s due built m found armed) h =
    flush_debounce-IsValid path s built m found h
Step-IsValid (received m) h = receive-IsValid m h

-- Whatever happens on the disk, with the timers and with the readers, a monitor that is valid
-- stays so: the channel never holds more than its capacity, and the engine's own file is never
-- pending and never reported.
pub Run-IsValid : {m n : Monitor} → Run m n → IsValid m → IsValid n
Run-IsValid start h = h
Run-IsValid (then_step run step) h = Step-IsValid step (Run-IsValid run h)
