-- ===== src/Cmd/Server/Rounds.antt =====
-- cmd/server/main.go: the ticks of monitorClientChanges, by themselves and behind an initial sync.
use mydrive.Base.{
  ◌≡◌, ◌↔◌, refl, sym, append-nil, ◌∙◌, ap, inl, inr, Option, none, some, List, [], ◌∷◌, ◌++◌, Bool,
  true, false, ◌||◌, Text, ltb, length, ◌==◌, nat_eq, text_eq, if◌then◌else◌, arith, Bool-cases,
  Option-cases,
}
use mydrive.Base.Dict
use mydrive.Base.Dict.{Dict, NodupKeys}
use mydrive.Protocol.FileType
use mydrive.Protocol.Message.{FileEntry, ChangeEvent, OpType, SyncOp}
use mydrive.Sync.State.{
  new_file_tree, get, paths, snapshot, set_all, IsKeyed, IsValid, set_all-IsValid,
  new_file_tree-IsValid,
}
use mydrive.Sync.Diff.{
  created_or_modified, deleted, diff, diff_initial, create_event, modify_event, delete_event,
  pick_winner,
}
use mydrive.Sync.Diff.Winner.{InSync}
use mydrive.Sync.Diff.Empty.{diff-eq-nil_iff}
use mydrive.Sync.Engine.{
  Engine, visible, scan_local, set_remote_tree, add_to_previous_paths, clear_tombstones,
}
use mydrive.Sync.Engine.Scan.{scan_local-IsValid}
use mydrive.Cmd.SyncOps.{ops_of, build_sync_ops}
use mydrive.Cmd.Server.{explicit_deletes, learn_tree, initial_changes, initial_sync, monitor_round}
use mydrive.Cmd.Server.InitialSync.{
  client_tree, at_path, wanted, deletion_of, at_path-build_sync_ops_append,
  at_path-build_sync_ops_cons, at_path-created, at_path-delete,
}

abbrev pub ops_or_none : Option (List SyncOp) → List SyncOp
ops_or_none none = []
ops_or_none (some ops) = ops

-- What a tick sends for some changes.
abbrev sent : List ChangeEvent → Option (List SyncOp)
sent changes = if ltb 0 (length changes) then some (build_sync_ops changes) else none

ops_or_none-sent :
    (changes : List ChangeEvent) → ops_or_none (sent changes) ≡ build_sync_ops changes
unfolding build_sync_ops
ops_or_none-sent [] = refl
ops_or_none-sent (c ∷ changes) = ground arith

sent-eq-none_iff : (changes : List ChangeEvent) → (sent changes ≡ none) ↔ (changes ≡ [])
sent-eq-none_iff [] = ground arith
sent-eq-none_iff (c ∷ changes) = ground arith

-- A tick sends nothing exactly when the scanned tree has the same paths as that of the client and
-- no entry differs.
pub monitor_round-eq-none_iff :
    (found : List FileEntry) (e : Engine)
    → ((monitor_round found e).0 ≡ none)
      ↔ ((p : Text) → InSync (get (scan_local found e).local_tree p) (get e.remote_tree p))
unfolding monitor_round scan_local
monitor_round-eq-none_iff found e =
    let e' = scan_local found e in
    let silent = sent-eq-none_iff (diff e'.local_tree e.remote_tree) in
    let same = diff-eq-nil_iff e'.local_tree e.remote_tree (scan_local-IsValid found e).0 in
    (λ h. same.0 (silent.0 h), λ h. silent.1 (same.1 h))

-- What a peer is to do about a path to mirror the tree here
abbrev pub mirrored : Text → Option FileEntry → Option FileEntry → List SyncOp
mirrored p none none = []
mirrored p none (some r) = deletion_of p ∷ []
mirrored p (some l) r = wanted (some l) r

module _ (p : Text) (local : Dict Text FileEntry) where
  at_path-deleted_of_present :
      (remote : Dict Text FileEntry)
      → Dict.has local p ≡ true
      → at_path p (build_sync_ops (deleted local remote)) ≡ []
  unfolding deleted build_sync_ops
  at_path-deleted_of_present [] h = refl
  at_path-deleted_of_present ((k, r) ∷ remote) h =
      let rest = at_path-deleted_of_present remote h in
      let first = at_path-build_sync_ops_cons p (delete_event k) (deleted local remote) in
      ground (arith, rest, first, at_path-delete p k, text_eq.beq_iff k p)

  -- A path that the second loop does not meet
  at_path-deleted-none :
      (remote : Dict Text FileEntry)
      → Dict.get remote p ≡ none
      → at_path p (build_sync_ops (deleted local remote)) ≡ []
  unfolding deleted build_sync_ops Dict.get
  at_path-deleted-none [] h = refl
  at_path-deleted-none ((k, r) ∷ remote) h = elim (Bool-cases (k == p)) [
    | inl hit ↦ absurd (ground arith)
    | inr miss ↦
        let rest = at_path-deleted-none remote (ground (arith, miss, h)) in
        let first = at_path-build_sync_ops_cons p (delete_event k) (deleted local remote) in
        ground (arith, rest, first, miss, at_path-delete p k)
  ]

  at_path-deleted_of_absent :
      (remote : Dict Text FileEntry)
      → NodupKeys remote
      → Dict.has local p ≡ false
      → at_path p (build_sync_ops (deleted local remote)) ≡ mirrored p none (Dict.get remote p)
  unfolding deleted build_sync_ops Dict.get
  at_path-deleted_of_absent [] u h = refl
  at_path-deleted_of_absent ((k, r) ∷ remote) u h =
      let first = at_path-build_sync_ops_cons p (delete_event k) (deleted local remote) in
      elim (Bool-cases (k == p)) [
        | inl hit ↦
            let same : k ≡ p = (text_eq.beq_iff k p).0 hit in
            let none_left = at_path-deleted-none remote (ap (Dict.get remote) (sym same) ∙ u.0) in
            let lacking : Dict.has local k ≡ false = ap (Dict.has local) same ∙ h in
            ground (arith, first, none_left, hit, lacking, at_path-delete p k)
        | inr miss ↦
            let rest = at_path-deleted_of_absent remote u.1 h in
            ground (arith, first, rest, miss, at_path-delete p k)
      ]

-- For a valid tree of the client, as the server keeps it: at every path, what a tick sends is the
-- creation of the directory or the file that the client has not; or, where both sides have an entry and
-- they do not agree, a change of attributes to those of the newer entry, on a tie those of the client; or
-- the deletion of what the server has not; and nothing else. The tree that the server keeps stays as
-- it was.
pub at_path-monitor_round :
    (p : Text) (found : List FileEntry) (e : Engine)
    → IsValid e.remote_tree
    → (at_path p (ops_or_none (monitor_round found e).0)
        ≡ mirrored p (get (scan_local found e).local_tree p) (get e.remote_tree p))
      × ((monitor_round found e).1.remote_tree ≡ e.remote_tree)
unfolding monitor_round scan_local get snapshot diff Dict.has
at_path-monitor_round p found e valid =
    let local = (scan_local found e).local_tree in
    let here = (scan_local-IsValid found e).0 in
    let remote = e.remote_tree.entries in
    let whole =
      ap (at_path p) (ops_or_none-sent (diff local e.remote_tree))
      ∙ at_path-build_sync_ops_append p (created_or_modified local.entries remote)
          (deleted local.entries remote)
      ∙ ap (λ l. l ++ at_path p (build_sync_ops (deleted local.entries remote)))
          (at_path-created p remote valid.keyed local.entries here.nodup here.keyed) in
    (
      whole ∙ elim (Option-cases (Dict.get local.entries p)) [
        | inl e ↦
            rw e
              (at_path-deleted_of_absent p local.entries remote valid.nodup (rw (e, Dict.has) refl))
        | inr (l, e) ↦
            rw (e, at_path-deleted_of_present p local.entries remote (rw (e, Dict.has) refl))
              (append-nil (wanted (some l) (Dict.get remote p)))
      ],
      refl,
    )

-- Whether an operation creates, and so empties, the file at a path.
abbrev op_creates : Text → SyncOp → Bool
op_creates p op = elim op.op_type [
  | OpType.create_file ↦ elim op.entry [ none ↦ false | some e ↦ e.path == p ]
  | _ ↦ false
]

abbrev pub creates : Text → List SyncOp → Bool
creates p [] = false
creates p (op ∷ ops) = op_creates p op || creates p ops

creates-append :
    (p : Text) (xs ys : List SyncOp) → creates p (xs ++ ys) ≡ (creates p xs || creates p ys)
creates-append p [] ys = refl
creates-append p (x ∷ xs) ys = ground (arith, creates-append p xs ys)

creates-build_sync_ops_append :
    (p : Text) (xs ys : List ChangeEvent)
    → creates p (build_sync_ops (xs ++ ys))
      ≡ (creates p (build_sync_ops xs) || creates p (build_sync_ops ys))
unfolding build_sync_ops
creates-build_sync_ops_append p [] ys = refl
creates-build_sync_ops_append p (c ∷ xs) ys = ground (
  arith,
  creates-append p (ops_of c) (build_sync_ops (xs ++ ys)),
  creates-append p (ops_of c) (build_sync_ops xs),
  creates-build_sync_ops_append p xs ys,
)

creates-build_sync_ops_cons :
    (p : Text) (c : ChangeEvent) (cs : List ChangeEvent)
    → creates p (build_sync_ops cs) ≡ true
    → creates p (build_sync_ops (c ∷ cs)) ≡ true
unfolding build_sync_ops
creates-build_sync_ops_cons p c cs h =
    ground (arith, creates-append p (ops_of c) (build_sync_ops cs))

creates-created_or_modified :
    (p : Text) (local remote : Dict Text FileEntry) (entry : FileEntry)
    → IsKeyed local
    → Dict.get local p ≡ some entry
    → entry.entry_type ≡ FileType.regular_file
    → Dict.get remote p ≡ none
    → creates p (build_sync_ops (created_or_modified local remote)) ≡ true
unfolding created_or_modified build_sync_ops ops_of Dict.get
creates-created_or_modified p [] remote entry keyed h t absent = absurd (ground arith)
creates-created_or_modified p ((k, l) ∷ local) remote entry keyed h t absent =
    let rest = creates-created_or_modified p local remote entry keyed.1 in
    elim (Bool-cases (k == p)) [
      | inl hit ↦
          let k_eq : k ≡ p = (text_eq.beq_iff k p).0 hit in
          let l_eq : l ≡ entry = ground arith in
          let path_eq : l.path ≡ p = keyed.0 ∙ k_eq in
          let gone : Dict.get remote k ≡ none = rw k_eq absent in
          let self = text_eq.beq_iff l.path p in
          let regular : l.entry_type ≡ FileType.regular_file = rw l_eq t in ground arith
      | inr miss ↦
          let later = rest (ground arith) t absent in
          let created =
            creates-build_sync_ops_cons p (create_event l) (created_or_modified local remote)
              later in
          elim (Option-cases (Dict.get remote k)) [
            | inl none_e ↦ ground (arith, created)
            | inr (r, e) ↦
                let winner = modify_event (pick_winner l r) in
                let modified =
                  creates-build_sync_ops_cons p winner (created_or_modified local remote) later in
                ground (arith, later, modified)
          ]
    ]

-- If no message of the client is handled between the initial sync and the first tick behind it, and the
-- disk is unchanged: a regular file that the server has, and that the client did not have when the session
-- began, is created by the operations of the initial sync and again by those of the tick. The client's
-- tree has no nil entry.
pub creates-monitor_round :
    (tree : List FileEntry) (found : List FileEntry) (e : Engine) (p : Text) (entry : FileEntry)
    → get (scan_local found e).local_tree p ≡ some entry
    → entry.entry_type ≡ FileType.regular_file
    → get (client_tree tree e) p ≡ none
    → (creates p (initial_sync tree (scan_local found e)).0 ≡ true)
      × (creates p (ops_or_none (monitor_round found (initial_sync tree (scan_local found e)).1).0)
          ≡ true)
unfolding initial_sync initial_changes monitor_round learn_tree scan_local set_remote_tree
    add_to_previous_paths clear_tombstones diff diff_initial get snapshot
creates-monitor_round tree found e p entry h t absent =
    let local = (set_all (new_file_tree e.base_dir) (visible found)) in
    let remote = client_tree tree e in
    let valid =
      set_all-IsValid (new_file_tree e.base_dir) (visible found)
        (new_file_tree-IsValid e.base_dir) in
    let created =
      creates-created_or_modified p local.entries remote.entries entry valid.keyed h t absent in
    (
      creates-build_sync_ops_append p (created_or_modified local.entries remote.entries)
            (explicit_deletes tree (paths local) (scan_local found e).tombstones)
          ∙ rw created refl,
      ap (creates p) (ops_or_none-sent (diff local remote))
          ∙ creates-build_sync_ops_append p (created_or_modified local.entries remote.entries)
              (deleted local.entries remote.entries)
          ∙ rw created refl,
    )
