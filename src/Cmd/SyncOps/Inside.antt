-- ===== src/Cmd/SyncOps/Inside.antt =====
-- ApplyChanges of sync/engine.go does nothing outside of the base directory, for the operations that
-- buildSyncOps makes of changes at clean paths.
use mydrive.Base.{
  ℕ, ◌≡◌, refl, sym, ap, ◌∙◌, Option, none, some, List, [], ◌∷◌, ◌++◌, map, true, Text, Result, ok,
  err, All, All-append, reverse, reverse-cons, ◌==◌, nat_eq, ◌%◌, Bool-cases, inl, inr,
}
use mathlib.Core.Path.{subst}
use mydrive.Protocol.FileType
use mydrive.Protocol.Message.{FileEntry, ChangeEvent, ChangeType, SyncOp}
use mydrive.Os.{
  FilePath, path_eq, Disk, OsError, not_exist, exist, not_dir, is_dir, not_permitted, invalid,
  unknown_op, nil_pointer, Io, ◌>>◌, node_at, is_dir_node,
}
use mydrive.Os.Paths.{join, with_slashes, IsName, join-with_slashes}
use mydrive.Os.Files.{create, mkdir_all, is_under, chmod, chtimes, remove_all}
use mydrive.Os.Laws.{is_under_refl, is_under-cons}
use mydrive.Os.Confined.{
  Within, Confined, Confined-bind, Confined-mkdir_all, Confined-create, Confined-change_attrs,
  Confined-remove_all,
}
use mydrive.Utils.Fs.{ensure_dir, delete_entry, permitted, apply_attrs}
use mydrive.Sync.OnDisk.Apply.{make_file, apply_op, apply_ops}
use mydrive.Cmd.SyncOps.{ops_of, build_sync_ops}

-- A relative path that is clean: names with slashes between them
abbrev pub IsRelPath : Text → Type 0
IsRelPath path =
    (n : Text) × (ns : List Text) × All IsName (n ∷ ns) × (path ≡ with_slashes (n ∷ ns))

-- A path below a directory
abbrev Inside : FilePath → FilePath → Type 0
Inside base p = (name : Text) × (q : FilePath) × (p ≡ name ∷ q) × (is_under base q ≡ true)

is_under-append : (base l : FilePath) → is_under base (l ++ base) ≡ true
is_under-append base [] = is_under_refl base
is_under-append base (name ∷ l) = is_under-cons base name (l ++ base) (is_under-append base l)

Inside-append : (base l : FilePath) (n : Text) → Inside base ((l ++ n ∷ []) ++ base)
Inside-append base [] n = (n, base, refl, is_under_refl base)
Inside-append base (m ∷ l) n = (m, (l ++ n ∷ []) ++ base, refl, is_under-append base (l ++ n ∷ []))

-- Joining the directory with a clean path leads below it.
Inside-join : (base : FilePath) (path : Text) → IsRelPath path → Inside base (join base path)
Inside-join base path (n, ns, clean, e) =
    subst (Inside base)
      (sym (
        ap (join base) e
        ∙ join-with_slashes base n ns clean
        ∙ ap (λ l. l ++ base) (reverse-cons n ns)))
      (Inside-append base (reverse ns) n)

-- The disk behind a call does not depend on how its error is taken.
permitted-disk : (r : Result OsError (Unit {0})) (d' d : Disk) → (permitted (λ _. (r, d')) d).1 ≡ d'
permitted-disk (ok u) d' d = refl
permitted-disk (err not_exist) d' d = refl
permitted-disk (err exist) d' d = refl
permitted-disk (err not_dir) d' d = refl
permitted-disk (err is_dir) d' d = refl
permitted-disk (err not_permitted) d' d = refl
permitted-disk (err invalid) d' d = refl
permitted-disk (err (unknown_op name)) d' d = refl
permitted-disk (err nil_pointer) d' d = refl

module _ (base : FilePath) (p : FilePath) (inside : Inside base p) where
  Confined-permitted : (call : Io (Unit {0})) → Confined base call → Confined base (permitted call)
  Confined-permitted call h d d' w =
      subst (Within base d) (sym (permitted-disk (call d').0 (call d').1 d')) (h d d' w)

  Confined-apply_attrs : (entry : FileEntry) → Confined base (apply_attrs p entry)
  unfolding apply_attrs chmod chtimes
  Confined-apply_attrs entry =
      let (name, q, e, below) = inside in
      subst (λ p. Confined base (apply_attrs p entry)) (sym e)
        (Confined-bind base (permitted (chmod (name ∷ q) entry.mode))
          (permitted (chtimes (name ∷ q) entry.mtime))
          (Confined-permitted (chmod (name ∷ q) entry.mode) (
            Confined-change_attrs base name q below (λ a. record a { mode = entry.mode % 0o1000 })))
          (Confined-permitted (chtimes (name ∷ q) entry.mtime)
            (Confined-change_attrs base name q below (λ a. record a { mtime = entry.mtime }))))

  Confined-ensure_dir : Confined base (ensure_dir p)
  unfolding ensure_dir
  Confined-ensure_dir =
      let (name, q, e, below) = inside in
      subst (λ p. Confined base (ensure_dir p)) (sym e) (Confined-mkdir_all base name q below 0o755)

  Confined-make_dir : (perm : ℕ) → Confined base (mkdir_all p perm)
  Confined-make_dir perm =
      let (name, q, e, below) = inside in
      subst (λ p. Confined base (mkdir_all p perm)) (sym e)
        (Confined-mkdir_all base name (name ∷ q) (is_under-cons base name q below) perm)

  Confined-make_file : (entry : FileEntry) → Confined base (make_file p entry)
  unfolding make_file
  Confined-make_file entry =
      let (name, q, e, below) = inside in
      let created : Confined base (create p) =
        subst (λ p. Confined base (create p)) (sym e) (Confined-create base name q below) in
      Confined-bind base (ensure_dir p) (create p >> apply_attrs p entry) Confined-ensure_dir
        (Confined-bind base (create p) (apply_attrs p entry) created (Confined-apply_attrs entry))

  Confined-delete_entry : Confined base (delete_entry p)
  unfolding delete_entry
  Confined-delete_entry =
      let (name, q, e, below) = inside in
      subst (λ p. Confined base (remove_all p)) (sym e) (Confined-remove_all base name q below)

abbrev HasCleanPath : Option FileEntry → Type 0
HasCleanPath none = Unit
HasCleanPath (some e) = IsRelPath e.path

-- Which path of a change has to be clean: that of the entry, or for a deletion its own
abbrev CleanAt : ChangeType → Option FileEntry → Text → Type 0
CleanAt ChangeType.create entry path = HasCleanPath entry
CleanAt ChangeType.modify entry path = HasCleanPath entry
CleanAt ChangeType.delete entry path = IsRelPath path
CleanAt ChangeType.move entry path = Unit
CleanAt (ChangeType.other name) entry path = Unit

abbrev pub IsClean : ChangeEvent → Type 0
IsClean c = CleanAt c.change_type c.entry c.path

Confined-apply_ops :
    (base : FilePath) (ops : List SyncOp)
    → All (λ op. Confined base (apply_op base op)) ops
    → Confined base (apply_ops base (map some ops))
unfolding apply_ops
Confined-apply_ops base [] h = λ d d' w. w
Confined-apply_ops base (op ∷ ops) h =
    Confined-bind base (apply_op base op) (apply_ops base (map some ops)) h.0
      (Confined-apply_ops base ops h.1)

-- The operations for a change, field by field
fields-Confined :
    (base : FilePath) (t : ChangeType) (entry : Option FileEntry) (path old new : Text)
    → CleanAt t entry path
    → All
        (λ op. Confined base (apply_op base op))
        (ops_of
          (record { change_type = t; entry = entry; path = path; old_path = old; new_path = new }))
unfolding ops_of apply_op
fields-Confined base ChangeType.create none path old new h = tt
fields-Confined base ChangeType.create (some e) path old new h =
    let inside = Inside-join base e.path h in
    elim (Bool-cases (e.entry_type == FileType.directory)) [
      | inl d ↦ rw (ops_of, d) (Confined-make_dir base (join base e.path) inside e.mode, tt)
      | inr d ↦ rw (ops_of, d) (Confined-make_file base (join base e.path) inside e, tt)
    ]
fields-Confined base ChangeType.modify none path old new h = tt
fields-Confined base ChangeType.modify (some e) path old new h =
    (Confined-apply_attrs base (join base e.path) (Inside-join base e.path h) e, tt)
fields-Confined base ChangeType.delete entry path old new h =
    (Confined-delete_entry base (join base path) (Inside-join base path h), tt)
fields-Confined base ChangeType.move entry path old new h = tt
fields-Confined base (ChangeType.other name) entry path old new h = tt

build_sync_ops-Confined :
    (base : FilePath) (changes : List ChangeEvent)
    → All IsClean changes
    → All (λ op. Confined base (apply_op base op)) (build_sync_ops changes)
unfolding build_sync_ops
build_sync_ops-Confined base [] clean = tt
build_sync_ops-Confined base (c ∷ changes) clean =
    All-append (λ op. Confined base (apply_op base op)) (ops_of c) (build_sync_ops changes)
      (fields-Confined base c.change_type c.entry c.path c.old_path c.new_path clean.0)
      (build_sync_ops-Confined base changes clean.1)

-- Whatever a server's changes are, if the entries that they create or modify, and the paths that they
-- delete, have clean relative paths, then applying the operations that it makes of them changes nothing outside of the base directory, which is there before and afterwards,
-- also if an operation fails.
pub apply_ops-build_sync_ops :
    (base : FilePath) (changes : List ChangeEvent) (d : Disk)
    → is_dir_node (node_at d base) ≡ true
    → All IsClean changes
    → Within base d (apply_ops base (map some (build_sync_ops changes)) d).1
apply_ops-build_sync_ops base changes d there clean =
    Confined-apply_ops base (build_sync_ops changes) (build_sync_ops-Confined base changes clean) d
      d (record { there = there; beside = λ x h. refl })
