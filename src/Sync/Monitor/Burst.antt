-- ===== src/Sync/Monitor/Burst.antt =====
-- sync/monitor.go: what a burst of events on one path is reported as.
use mydrive.Base.{
  ℕ, ◌+◌, ◌≤◌, ◌<◌, ◌≡◌, ◌≢◌, refl, sym, ap, ◌∙◌, Option, none, some, List, [], ◌∷◌, ◌++◌, Bool,
  true, ◌||◌, Text, length, nat_eq, text_eq, arith,
}
use mydrive.Base.Dict
use mydrive.Base.Dict.{Dict, get-insert, get-erase}
use mydrive.Protocol.Message.{FileEntry, ChangeType}
use mydrive.Sync.Engine.{tombstone_file}
use mydrive.Sync.Monitor.{
  Op, op_or, DebounceState, Monitor, capacity, ignore, is_ignored, debounced, on_event, event_type,
  change_event, send, flush_debounce,
}

-- An event on a path, with what os.Stat says, and its time.
abbrev pub Seen : Type 0
Seen = Op × Bool × ℕ

-- The monitor after more events on a path.
unfoldable pub on_events : Text → List Seen → Monitor → Monitor
on_events path [] m = m
on_events path (e ∷ es) m = on_events path es (on_event path e.0 e.1 e.2 m)

-- All their bits.
abbrev pub union : Op → List Seen → Op
union op [] = op
union op (e ∷ es) = union (op_or op e.0) es

module _ (path : Text) (other : path ≢ tombstone_file) where
  on_event-plain :
      (op : Op) (is_dir : Bool) (now : ℕ) (m : Monitor)
      → Dict.get m.ignore_map path ≡ none
      → (Dict.get (on_event path op is_dir now m).debounce path
          ≡ some (debounced (Dict.get m.debounce path) op now))
        × ((on_event path op is_dir now m).ch ≡ m.ch)
        × (Dict.get (on_event path op is_dir now m).ignore_map path ≡ none)
  unfolding on_event is_ignored
  on_event-plain op is_dir now m h = ground (
    arith,
    text_eq.beq_iff path tombstone_file,
    text_eq.beq_iff path path,
    get-insert m.debounce path (debounced (Dict.get m.debounce path) op now) path,
  )

  on_events-plain :
      (es : List Seen) (s : DebounceState) (m : Monitor)
      → Dict.get m.ignore_map path ≡ none
      → Dict.get m.debounce path ≡ some s
      → (s' : DebounceState) × (Dict.get (on_events path es m).debounce path ≡ some s')
        × (s'.last_op ≡ union s.last_op es)
        × ((on_events path es m).ch ≡ m.ch)
  unfolding on_events
  on_events-plain [] s m h e = (s, e, refl, refl)
  on_events-plain (x ∷ es) s m h e =
      let (stored, same, plain) = on_event-plain x.0 x.1 x.2 m h in
      let (s', found, bits, kept) =
        on_events-plain es (debounced (some s) x.0 x.2) (on_event path x.0 x.1 x.2 m) plain
          (stored ∙ ap (λ o. some (debounced o x.0 x.2)) e) in
      (s', found, bits, kept ∙ same)

  -- A burst of events on a path, other than that of the tombstone file, that has nothing pending
  -- and is not ignored, with room in the channel, is reported by one event when the timer runs
  -- out: that of the dominant type of all their bits, if there is one; nothing is pending then.
  pub flush_debounce-on_events :
      (x : Seen) (es : List Seen) (t : ChangeType) (built : Option FileEntry) (m : Monitor)
      → Dict.get m.ignore_map path ≡ none
      → Dict.get m.debounce path ≡ none
      → length m.ch < capacity
      → event_type (union x.0 es) ≡ some t
      → ((flush_debounce built path (on_events path (x ∷ es) m)).ch
          ≡ m.ch ++ change_event t built path ∷ [])
        × (Dict.get (flush_debounce built path (on_events path (x ∷ es) m)).debounce path ≡ none)
  unfolding on_events flush_debounce send
  flush_debounce-on_events x es t built m h fresh room typed =
      let (stored, same, plain) = on_event-plain x.0 x.1 x.2 m h in
      let m' = on_event path x.0 x.1 x.2 m in
      let (s', found, bits, kept) =
        on_events-plain es (debounced none x.0 x.2) m' plain
          (stored ∙ ap (λ o. some (debounced o x.0 x.2)) fresh) in
      let dominant : event_type s'.last_op ≡ some t = ap event_type bits ∙ typed in
      let after = on_events path es m' in
      let ch_eq : after.ch ≡ m.ch = kept ∙ same in
      ground (arith, get-erase after.debounce path path, text_eq.beq_iff path path)

-- Whether some event of a burst takes the path away.
abbrev pub removes : Op → List Seen → Bool
removes op [] = op.remove || op.rename
removes op (e ∷ es) = op.remove || op.rename || removes e.0 es

removes-op_or :
    (a b : Op) (es : List Seen) → removes (op_or a b) es ≡ (a.remove || a.rename || removes b es)
removes-op_or a b [] = ground arith
removes-op_or a b (e ∷ es) = ground arith

removes-union :
    (op : Op) (es : List Seen) → removes op es ≡ ((union op es).remove || (union op es).rename)
removes-union op [] = refl
removes-union op (e ∷ es) = sym (removes-op_or op e.0 es) ∙ removes-union (op_or op e.0) es

module _ (path : Text) (other : path ≢ tombstone_file) where
  -- A burst in which a path is removed or renamed at any time is reported as a deletion, also
  -- where the last event creates the path again, if the path is not that of the tombstone file,
  -- has nothing pending and is not ignored, and the channel has room.
  pub flush_debounce-removes :
      (x : Seen) (es : List Seen) (built : Option FileEntry) (m : Monitor)
      → Dict.get m.ignore_map path ≡ none
      → Dict.get m.debounce path ≡ none
      → length m.ch < capacity
      → removes x.0 es ≡ true
      → (flush_debounce built path (on_events path (x ∷ es) m)).ch
        ≡ m.ch ++ change_event ChangeType.delete none path ∷ []
  flush_debounce-removes x es built m h fresh room gone =
      let typed : event_type (union x.0 es) ≡ some ChangeType.delete =
        unfold event_type in rw (sym (removes-union x.0 es) ∙ gone) in
      (flush_debounce-on_events path other x es ChangeType.delete built m h fresh room typed).0

  get-ignore :
      (now duration : ℕ) (m : Monitor)
      → Dict.get (ignore path duration now m).ignore_map path ≡ some (now + duration)
  unfolding ignore
  get-ignore now duration m =
      ground (arith, get-insert m.ignore_map path (now + duration) path, text_eq.beq_iff path path)

  on_event-ignored :
      (op : Op) (is_dir : Bool) (now until : ℕ) (m : Monitor)
      → Dict.get m.ignore_map path ≡ some until
      → now ≤ until
      → on_event path op is_dir now m ≡ m
  unfolding on_event is_ignored
  on_event-ignored op is_dir now until m h early = ground arith

  on_event-expired :
      (op : Op) (is_dir : Bool) (now until : ℕ) (m : Monitor)
      → Dict.get m.ignore_map path ≡ some until
      → until < now
      → Dict.get (on_event path op is_dir now m).debounce path
        ≡ some (debounced (Dict.get m.debounce path) op now)
  unfolding on_event is_ignored
  on_event-expired op is_dir now until m h late = ground (
    arith,
    text_eq.beq_iff path tombstone_file,
    text_eq.beq_iff path path,
    get-insert m.debounce path (debounced (Dict.get m.debounce path) op now) path,
  )

  -- Up to the end of the time for which a path is ignored no event on it changes the monitor, and
  -- the first one behind it is pending, if the path is not that of the tombstone file.
  pub on_event-ignore :
      (op : Op) (is_dir : Bool) (now later duration : ℕ) (m : Monitor)
      → (later ≤ now + duration
          → on_event path op is_dir later (ignore path duration now m) ≡ ignore path duration now m)
        × (now + duration < later
            → Dict.get (on_event path op is_dir later (ignore path duration now m)).debounce path
              ≡ some (debounced (Dict.get m.debounce path) op later))
  unfolding ignore
  on_event-ignore op is_dir now later duration m = (
    λ early.
        on_event-ignored op is_dir later (now + duration) (ignore path duration now m)
          (get-ignore now duration m) early,
    λ late.
        on_event-expired op is_dir later (now + duration) (ignore path duration now m)
          (get-ignore now duration m) late,
  )
