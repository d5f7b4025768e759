-- ===== src/Cmd/Server/InitialSync.antt =====
-- cmd/server/main.go: the operations of the initial sync, path by path.
use mydrive.Base.{
  ◌≡◌, refl, sym, ap, ◌∙◌, Option, none, some, List, [], ◌∷◌, ◌++◌, append_assoc, append-nil, Bool,
  true, false, not, ◌&&◌, Text, ◌==◌, nat_eq, text_eq, if◌then◌else◌, arith, Option-cases,
  Bool-cases, inl, inr,
}
use mydrive.Base.Int.{int_eq}
use mydrive.Base.Dict
use mydrive.Base.Dict.{Dict, NodupKeys, get-insert_all, elem-keys}
use mydrive.Protocol.FileType
use mydrive.Protocol.Message.{FileEntry, ChangeEvent, OpType, SyncOp}
use mydrive.Sync.State.{
  FileTree, new_file_tree, get, snapshot, paths, contains, set_all, IsKeyed, IsValid, path-get,
  set_all-IsValid, new_file_tree-IsValid,
}
use mydrive.Sync.Diff.{
  entry_changed, pick_winner, created_or_modified, diff_initial, create_event, modify_event,
  delete_event,
}
use mydrive.Sync.Diff.Merge.{agree, newer, entry_changed-eq-agree}
use mydrive.Sync.Engine.{Engine, flag, set_remote_tree, add_to_previous_paths, is_tombstoned}
use mydrive.Cmd.SyncOps.{bare_op, ops_of, build_sync_ops}
use mydrive.Cmd.Server.{explicit_deletes, learn_tree, initial_changes, initial_sync}

-- Whether applyOp does an operation at a path: the path of the entry for a creation, else its own
abbrev pub is_at : Text → SyncOp → Bool
is_at p op =
    let of_entry : Bool = elim op.entry [ none ↦ false | some e ↦ e.path == p ] in
    elim op.op_type [
      | OpType.create_dir ↦ of_entry
      | OpType.create_file ↦ of_entry
      | _ ↦ op.path == p
    ]

-- The operations at a path, in their order
abbrev pub at_path : Text → List SyncOp → List SyncOp
at_path p [] = []
at_path p (op ∷ ops) = let rest = at_path p ops in if is_at p op then op ∷ rest else rest

-- What a peer is to do about a path, from the entry here and the entry that it has: a directory or a file
-- that it has not is created, and one that does not agree gets the attributes of the newer entry.
abbrev pub wanted : Option FileEntry → Option FileEntry → List SyncOp
wanted none r = []
wanted (some l) none =
    if l.entry_type == FileType.directory
    then record (bare_op OpType.create_dir) { entry = some l } ∷ []
    else record (bare_op OpType.create_file) { entry = some l } ∷ []
wanted (some l) (some r) =
    if agree l r
    then []
    else record (bare_op OpType.set_attrs) { path = (newer l r).path; entry = some (newer l r) }
      ∷ []

abbrev pub deletion_of : Text → SyncOp
deletion_of p = record (bare_op OpType.delete) { path = p }

at_path-append :
    (p : Text) (xs ys : List SyncOp) → at_path p (xs ++ ys) ≡ at_path p xs ++ at_path p ys
at_path-append p [] ys = refl
at_path-append p (x ∷ xs) ys = ground (arith, at_path-append p xs ys)

pub at_path-build_sync_ops_append :
    (p : Text) (xs ys : List ChangeEvent)
    → at_path p (build_sync_ops (xs ++ ys))
      ≡ at_path p (build_sync_ops xs) ++ at_path p (build_sync_ops ys)
unfolding build_sync_ops
at_path-build_sync_ops_append p [] ys = refl
at_path-build_sync_ops_append p (c ∷ xs) ys =
    at_path-append p (ops_of c) (build_sync_ops (xs ++ ys))
    ∙ ap (λ l. at_path p (ops_of c) ++ l) (at_path-build_sync_ops_append p xs ys)
    ∙ sym (
        append_assoc (at_path p (ops_of c)) (at_path p (build_sync_ops xs))
          (at_path p (build_sync_ops ys)))
    ∙ ap (λ l. l ++ at_path p (build_sync_ops ys))
        (sym (at_path-append p (ops_of c) (build_sync_ops xs)))

-- The first change, and the others
pub at_path-build_sync_ops_cons :
    (p : Text) (c : ChangeEvent) (cs : List ChangeEvent)
    → at_path p (build_sync_ops (c ∷ cs)) ≡ at_path p (ops_of c) ++ at_path p (build_sync_ops cs)
unfolding build_sync_ops
at_path-build_sync_ops_cons p c cs = at_path-append p (ops_of c) (build_sync_ops cs)

at_path-create :
    (p : Text) (l : FileEntry) (k : Text)
    → l.path ≡ k
    → at_path p (ops_of (create_event l)) ≡ (if k == p then wanted (some l) none else [])
unfolding ops_of
at_path-create p l k h = ground (arith, h)

at_path-modify :
    (p : Text) (l r : FileEntry) (k : Text)
    → l.path ≡ k
    → r.path ≡ k
    → entry_changed l r ≡ true
    → at_path p (ops_of (modify_event (pick_winner l r)))
      ≡ (if k == p then wanted (some l) (some r) else [])
unfolding ops_of pick_winner
at_path-modify p l r k hl hr h = ground (arith, hl, hr, h, entry_changed-eq-agree l r)

module _ (p : Text) (remote : Dict Text FileEntry) (keyed : IsKeyed remote) where
  -- The first entry of the loop, and the others
  created-step :
      (k : Text) (l : FileEntry) (local : Dict Text FileEntry)
      → l.path ≡ k
      → at_path p (build_sync_ops (created_or_modified ((k, l) ∷ local) remote))
        ≡ (if k == p then wanted (some l) (Dict.get remote k) else [])
          ++ at_path p (build_sync_ops (created_or_modified local remote))
  unfolding created_or_modified
  created-step k l local h =
      let rest = created_or_modified local remote in
      let first = λ (c : ChangeEvent) (x : List SyncOp) (same : at_path p (ops_of c) ≡ x).
        at_path-build_sync_ops_cons p c rest
        ∙ ap (λ y. y ++ at_path p (build_sync_ops rest)) same in
      elim (Option-cases (Dict.get remote k)) [
        | inl e ↦ rw (created_or_modified, e) (first (create_event l) _ (at_path-create p l k h))
        | inr (r, e) ↦ elim (Bool-cases (entry_changed l r)) [
          | inl c ↦
              rw (created_or_modified, e, c)
                (first (modify_event (pick_winner l r)) _
                  (at_path-modify p l r k h (path-get remote k r keyed e) c))
          | inr c ↦ rw (created_or_modified, e, c) (ground (arith, entry_changed-eq-agree l r, c))
        ]
      ]

  at_path-created_of_absent :
      (local : Dict Text FileEntry)
      → IsKeyed local
      → Dict.get local p ≡ none
      → at_path p (build_sync_ops (created_or_modified local remote)) ≡ []
  unfolding created_or_modified Dict.get build_sync_ops
  at_path-created_of_absent [] kl absent = refl
  at_path-created_of_absent ((k, l) ∷ local) kl absent = elim (Bool-cases (k == p)) [
    | inl hit ↦ absurd (ground arith)
    | inr miss ↦
        created-step k l local kl.0
        ∙ rw miss (at_path-created_of_absent local kl.1 (ground (arith, miss, absent)))
  ]

  -- The operations of the first loop at a path are what is wanted there.
  pub at_path-created :
      (local : Dict Text FileEntry)
      → NodupKeys local
      → IsKeyed local
      → at_path p (build_sync_ops (created_or_modified local remote))
        ≡ wanted (Dict.get local p) (Dict.get remote p)
  unfolding created_or_modified Dict.get build_sync_ops
  at_path-created [] u kl = refl
  at_path-created ((k, l) ∷ local) u kl = elim (Bool-cases (k == p)) [
    | inl hit ↦
        let same : k ≡ p = (text_eq.beq_iff k p).0 hit in
        let gone = at_path-created_of_absent local kl.1 (ap (Dict.get local) (sym same) ∙ u.0) in
        created-step k l local kl.0
        ∙ rw (hit, gone)
            (append-nil (wanted (some l) (Dict.get remote k))
              ∙ ap (λ x. wanted (some l) (Dict.get remote x)) same)
    | inr miss ↦ created-step k l local kl.0 ∙ rw miss (at_path-created local u.1 kl.1)
  ]

flag-paths : (t : FileTree) (p : Text) → flag (paths t) p ≡ contains t p
unfolding paths contains Dict.get
flag-paths t p =
    ground (arith, get-insert_all {V = Bool} [] (Dict.keys t.entries) true p, elem-keys t.entries p)

-- A deletion for each time that a path stands in a list of entries
abbrev pub deletions : Text → List FileEntry → List SyncOp
deletions p [] = []
deletions p (e ∷ l) = if e.path == p then deletion_of p ∷ deletions p l else deletions p l

pub at_path-delete :
    (p k : Text) → at_path p (ops_of (delete_event k)) ≡ (if k == p then deletion_of p ∷ [] else [])
unfolding ops_of
at_path-delete p k = ground (arith, text_eq.beq_iff k p)

at_path-explicit_deletes :
    (p : Text) (l : List FileEntry) (local tombstones : Dict Text Bool)
    → at_path p (build_sync_ops (explicit_deletes l local tombstones))
      ≡ (if not (flag local p) && flag tombstones p then deletions p l else [])
unfolding explicit_deletes build_sync_ops
at_path-explicit_deletes p [] local tombstones = ground arith
at_path-explicit_deletes p (entry ∷ l) local tombstones =
    let rest = at_path-explicit_deletes p l local tombstones in
    let first =
      at_path-build_sync_ops_cons p (delete_event entry.path)
        (explicit_deletes l local tombstones) in
    ground (arith, rest, first, at_path-delete p entry.path, text_eq.beq_iff entry.path p)

-- The tree that a client sends, as the server keeps it.
abbrev pub client_tree : List FileEntry → Engine → FileTree
client_tree tree e = set_all (new_file_tree e.base_dir) tree

-- For a valid tree of the server, and a tree of the client without nil entries: at every path the
-- operations of the initial sync are, in their order, the creation of the directory or the file that the
-- client has not, or, where both sides have an entry and they do not agree, a change of attributes to
-- those of the newer entry, on a tie those of the client; and where the server has nothing and the path is
-- tombstoned, a deletion for each time that it stands in the client's tree.
pub at_path-initial_sync :
    (p : Text) (tree : List FileEntry) (e : Engine)
    → IsValid e.local_tree
    → at_path p (initial_sync tree e).0
      ≡ wanted (get e.local_tree p) (get (client_tree tree e) p)
        ++ (if not (contains e.local_tree p) && is_tombstoned e p then deletions p tree else [])
unfolding initial_sync initial_changes learn_tree set_remote_tree add_to_previous_paths
    is_tombstoned diff_initial get snapshot
at_path-initial_sync p tree e valid =
    let client = client_tree tree e in
    let keyed =
      set_all-IsValid (new_file_tree e.base_dir) tree (new_file_tree-IsValid e.base_dir) in
    at_path-build_sync_ops_append p (created_or_modified e.local_tree.entries client.entries)
      (explicit_deletes tree (paths e.local_tree) e.tombstones)
    ∙ rw
        (
          at_path-created p client.entries keyed.keyed e.local_tree.entries valid.nodup valid.keyed,
          at_path-explicit_deletes p tree (paths e.local_tree) e.tombstones,
          flag-paths e.local_tree p,
        )
        refl
