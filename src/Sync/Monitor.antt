-- ===== src/Sync/Monitor.antt =====
-- sync/monitor.go: the monitor as a state machine. What fsnotify, os.Stat, BuildEntry and the clock
-- answer are arguments. Times are in nanoseconds. A path is relative to the watched directory.
use mydrive.Base.{
  ℕ, ◌+◌, ◌*◌, Option, none, some, List, [], ◌∷◌, ◌++◌, Bool, true, false, ◌&&◌, ◌||◌, Text, ltb,
  length, ◌==◌, nat_eq, text_eq, if◌then◌else◌,
}
use mydrive.Base.Dict
use mydrive.Base.Dict.{Dict}
use mydrive.Protocol.Message.{FileEntry, ChangeEvent, ChangeType}
use mydrive.Sync.Engine.{tombstone_file}
pub mod Burst
pub mod Invariant
pub mod Lifecycle

-- fsnotify.Op, a set of bits
pub record Op : Type 0 where
  pub create : Bool
  pub write : Bool
  pub remove : Bool
  pub rename : Bool
  pub chmod : Bool

-- a | b
abbrev pub op_or : Op → Op → Op
op_or a b = record {
  create = a.create || b.create;
  write = a.write || b.write;
  remove = a.remove || b.remove;
  rename = a.rename || b.rename;
  chmod = a.chmod || b.chmod;
}

-- The timer is the time at which it fires, if it is running.
pub record DebounceState : Type 0 where
  pub timer : Option ℕ
  pub last_op : Op

pub record Monitor : Type 0 where
  pub watched : List Text
  pub ch : List ChangeEvent
  pub debounce : Dict Text DebounceState
  pub ignore_map : Dict Text ℕ

-- The capacity of the channel
abbrev pub capacity : ℕ
capacity = 256

-- debounceDelay
abbrev pub debounce_delay : ℕ
debounce_delay = 200 * 1000000

-- NewMonitor, with the directories that its walk finds. The map for the debouncing is made by the
-- loop.
unfoldable pub new_monitor : List Text → Monitor
new_monitor directories = record { watched = directories; ch = []; debounce = []; ignore_map = [] }

-- (*Monitor).Ignore
unfoldable pub ignore : Text → ℕ → ℕ → Monitor → Monitor
ignore path duration now m = record m {
  ignore_map = Dict.insert m.ignore_map path (now + duration);
}

-- (*Monitor).isIgnored
unfoldable pub is_ignored : Text → ℕ → Monitor → Bool × Monitor
is_ignored path now m = elim (Dict.get m.ignore_map path) [
  | none ↦ (false, m)
  | some until ↦
      if ltb until now
      then (false, record m { ignore_map = Dict.erase m.ignore_map path })
      else (true, m)
]

-- The state of a path after one more event.
abbrev pub debounced : Option DebounceState → Op → ℕ → DebounceState
debounced none op now = record { timer = some (now + debounce_delay); last_op = op }
debounced (some s) op now = record {
  timer = some (now + debounce_delay);
  last_op = op_or s.last_op op;
}

-- The case of the loop for an event; `is_dir` says whether os.Stat finds a directory.
unfoldable pub on_event : Text → Op → Bool → ℕ → Monitor → Monitor
on_event path op is_dir now m =
    let (ignored, m₁) = is_ignored path now m in
    let m₂ = if op.create && is_dir then record m₁ { watched = path ∷ m₁.watched } else m₁ in
    if path == tombstone_file then m else if ignored then m₁ else record m₂ {
      debounce = Dict.insert m₂.debounce path (debounced (Dict.get m₂.debounce path) op now);
    }

-- The dominant type of an event, if it has one.
unfoldable pub event_type : Op → Option ChangeType
event_type op =
    if op.remove || op.rename
    then some ChangeType.delete
    else if op.create
    then some ChangeType.create
    else if op.write
    then some ChangeType.modify
    else none

-- The event that is sent; `built` is what BuildEntry gives, which is asked for a creation or a
-- modification only.
abbrev pub change_event : ChangeType → Option FileEntry → Text → ChangeEvent
change_event t built path = record {
  change_type = t;
  entry = elim t [ ChangeType.create ↦ built | ChangeType.modify ↦ built | _ ↦ none ];
  path = path;
  old_path = [];
  new_path = [];
}

-- Sending on the channel, or dropping the event if it is full.
unfoldable pub send : ChangeEvent → List ChangeEvent → List ChangeEvent
send c ch = if ltb (length ch) capacity then ch ++ c ∷ [] else ch

-- (*Monitor).flushDebounce, when the timer of a path has run out. An event of no type stays, with
-- its timer stopped.
unfoldable pub flush_debounce : Option FileEntry → Text → Monitor → Monitor
flush_debounce built path m = elim (Dict.get m.debounce path) [
  | none ↦ m
  | some s ↦ elim (event_type s.last_op) [
    | none ↦ record m { debounce = Dict.insert m.debounce path (record s { timer = none }) }
    | some t ↦ record m {
      debounce = Dict.erase m.debounce path;
      ch = send (change_event t built path) m.ch;
    }
  ]
]

-- What a reader of Events takes from the channel.
unfoldable pub receive : Monitor → Option ChangeEvent × Monitor
receive m = elim m.ch [ [] ↦ (none, m) | c ∷ rest ↦ (some c, record m { ch = rest }) ]
