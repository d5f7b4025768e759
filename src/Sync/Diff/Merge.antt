-- ===== src/Sync/Diff/Merge.antt =====
-- What the changes of sync/diff.go amount to. Applied to the remote tree they give the merge.
use mydrive.Base.{
  ◌≡◌, refl, ◌∙◌, inl, inr, Option, none, some, List, [], ◌∷◌, true, false, Bool, not, ◌&&◌, ◌||◌,
  Text, ◌==◌, nat_eq, text_eq, if◌then◌else◌, arith, Option-cases,
}
use mathlib.Core.List.{foldl, foldl-append}
use mydrive.Base.Int.{int_eq, int_leb}
use mydrive.Protocol.FileType
use mydrive.Base.Dict
use mydrive.Base.Dict.{Dict, NodupKeys, get-insert, get-erase}
use mydrive.Protocol.Message.{FileEntry, ChangeEvent, create, modify, delete}
use mydrive.Sync.State.{FileTree, get, snapshot, IsKeyed, IsValid, path-get}
use mydrive.Sync.Diff.{
  entry_changed, pick_winner, created_or_modified, deleted, diff, diff_initial, modify_event,
}

-- What an event says of the entry at a path.
abbrev pub effect : Text → Option FileEntry → ChangeEvent → Option FileEntry
effect p old c = elim c.change_type [
  | create ↦ elim c.entry [ none ↦ old | some e ↦ if e.path == p then some e else old ]
  | modify ↦ elim c.entry [ none ↦ old | some e ↦ if e.path == p then some e else old ]
  | delete ↦ if c.path == p then none else old
  | _ ↦ old
]

-- The entry at a path after the events, from the entry before them.
abbrev pub after : Text → Option FileEntry → List ChangeEvent → Option FileEntry
after p = foldl (effect p)

-- Whether Diff has nothing to say of two entries: they agree on their type, their time and their mode,
-- and, for regular files, on their content.
abbrev pub agree : FileEntry → FileEntry → Bool
agree l r =
    (l.entry_type == r.entry_type)
    && (l.mtime == r.mtime)
    && (l.mode == r.mode)
    && (not (l.entry_type == FileType.regular_file) || (l.content_hash == r.content_hash))

-- The entry that was modified last, on a tie the remote one
abbrev pub newer : FileEntry → FileEntry → FileEntry
newer l r = if int_leb l.mtime r.mtime then r else l

-- The merge of a local and a remote entry: what one side has is kept, and of two entries that do not
-- agree the newer one.
abbrev pub merge : Option FileEntry → Option FileEntry → Option FileEntry
merge none r = r
merge (some l) none = some l
merge (some l) (some r) = if agree l r then some r else some (newer l r)

-- The merge in the words of the code
abbrev pub merged : Option FileEntry → Option FileEntry → Option FileEntry
merged none r = r
merged (some l) none = some l
merged (some l) (some r) = if entry_changed l r then some (pick_winner l r) else some r

pub entry_changed-eq-agree : (l r : FileEntry) → entry_changed l r ≡ not (agree l r)
unfolding entry_changed
entry_changed-eq-agree l r = ground arith

pub merged-eq-merge : (l r : Option FileEntry) → merged l r ≡ merge l r
unfolding pick_winner
merged-eq-merge none r = refl
merged-eq-merge (some l) none = refl
merged-eq-merge (some l) (some r) = ground (arith, entry_changed-eq-agree l r)

-- The path of the winner is that of both.
path-pick_winner :
    (l r : FileEntry) (p : Text) → l.path ≡ p → r.path ≡ p → (pick_winner l r).path ≡ p
unfolding pick_winner
path-pick_winner l r p hl hr = ground arith

-- An event of the first loop leaves every other path alone.
effect-modify :
    (p : Text) (l r : FileEntry) (k : Text) (old : Option FileEntry)
    → l.path ≡ k
    → r.path ≡ k
    → effect p old (modify_event (pick_winner l r))
      ≡ (if k == p then some (pick_winner l r) else old)
effect-modify p l r k old hl hr = rw (path-pick_winner l r k hl hr)

module _ (p : Text) (remote : Dict Text FileEntry) (keyed : IsKeyed remote) where
  after-created_of_absent :
      (local : Dict Text FileEntry) (old : Option FileEntry)
      → IsKeyed local
      → Dict.get local p ≡ none
      → after p old (created_or_modified local remote) ≡ old
  unfolding created_or_modified Dict.get
  after-created_of_absent [] old kl absent = refl
  after-created_of_absent ((k, l) ∷ local) old kl absent =
      let rest = after-created_of_absent local old kl.1 in
      elim (Option-cases (Dict.get remote k)) [
        | inl e ↦ ground (arith, rest)
        | inr (r, e) ↦
            ground (arith, rest, effect-modify p l r k old kl.0 (path-get remote k r keyed e))
      ]

  -- The first loop makes of the remote entry at each path the merged one.
  after-created :
      (local : Dict Text FileEntry)
      → NodupKeys local
      → IsKeyed local
      → after p (Dict.get remote p) (created_or_modified local remote)
        ≡ merged (Dict.get local p) (Dict.get remote p)
  unfolding created_or_modified Dict.get
  after-created [] u kl = refl
  after-created ((k, l) ∷ local) u kl =
      let rest = after-created local u.1 kl.1 in
      let gone = λ (v : Option FileEntry). after-created_of_absent local v kl.1 in
      elim (Option-cases (Dict.get remote k)) [
        | inl e ↦ ground (arith, rest, gone (some l), text_eq.beq_iff k p, text_eq.beq_iff l.path p)
        | inr (r, e) ↦ ground (
          arith,
          rest,
          gone (some r),
          gone (some (pick_winner l r)),
          text_eq.beq_iff k p,
          effect-modify p l r k (Dict.get remote p) kl.0 (path-get remote k r keyed e),
        )
      ]

-- The merge where what the local side lacks is removed.
abbrev pub mirror : Option FileEntry → Option FileEntry → Option FileEntry
mirror none r = none
mirror (some l) r = merge (some l) r

module _ (p : Text) (local : Dict Text FileEntry) where
  after-deleted_of_present :
      (remote : Dict Text FileEntry) (old : Option FileEntry)
      → Dict.has local p ≡ true
      → after p old (deleted local remote) ≡ old
  unfolding deleted
  after-deleted_of_present [] old h = refl
  after-deleted_of_present ((k, r) ∷ remote) old h =
      ground (arith, text_eq.beq_iff k p, after-deleted_of_present remote old h)

  after-deleted-none : (remote : Dict Text FileEntry) → after p none (deleted local remote) ≡ none
  unfolding deleted
  after-deleted-none [] = refl
  after-deleted-none ((k, r) ∷ remote) = ground (arith, after-deleted-none remote)

  -- The second loop removes each path that the local side lacks.
  after-deleted_of_absent :
      (remote : Dict Text FileEntry)
      → Dict.has local p ≡ false
      → after p (Dict.get remote p) (deleted local remote) ≡ none
  unfolding deleted Dict.get
  after-deleted_of_absent [] h = refl
  after-deleted_of_absent ((k, r) ∷ remote) h =
      ground
        (arith, text_eq.beq_iff k p, after-deleted_of_absent remote h, after-deleted-none remote)

module _ (p : Text) (local remote : FileTree) (valid : IsValid local) (keyed : IsValid remote) where
  -- Applied to the remote tree, the changes of DiffInitial give the merge of the two valid trees
  -- at every path: nothing is removed, what one side has is kept, and of two entries that differ in
  -- their type, time or mode, or as regular files in their content, the one that was modified last
  -- stays, on a tie the remote one.
  pub after-diff_initial :
      after p (get remote p) (diff_initial local remote) ≡ merge (get local p) (get remote p)
  unfolding diff_initial get snapshot
  after-diff_initial =
      after-created p remote.entries keyed.keyed local.entries valid.nodup valid.keyed
      ∙ merged-eq-merge (Dict.get local.entries p) (Dict.get remote.entries p)

  -- Applied to the remote tree, the changes of Diff make it mirror the local one at every path,
  -- for valid trees: what the local side lacks is removed, and a conflict goes to the winner.
  pub after-diff : after p (get remote p) (diff local remote) ≡ mirror (get local p) (get remote p)
  unfolding diff diff_initial get snapshot Dict.has
  after-diff = rw foldl-append (elim (Option-cases (Dict.get local.entries p)) [
    | inl e ↦
        rw
          (
            after-created_of_absent p remote.entries keyed.keyed local.entries
                (Dict.get remote.entries p) valid.keyed e,
            e,
          )
          (after-deleted_of_absent p local.entries remote.entries (rw (e, Dict.has)))
    | inr (l, e) ↦
        after-deleted_of_present p local.entries remote.entries _ (rw (e, Dict.has))
        ∙ after-diff_initial
        ∙ rw (e)
  ])
