-- ===== src/Os/Files.antt =====
-- The calls of package os that the program makes.
use mydrive.Base.{
  ℕ, ◌%◌, ◌^◌, Option, none, some, [], ◌∷◌, Bool, true, false, ◌&&◌, ◌||◌, not, Text, Result, ok,
  err, ltb, ◌==◌, text_eq, if◌then◌else◌,
}
use mydrive.Base.Int.{ℤ}
use mydrive.Base.Dict
use mydrive.Base.Dict.{Dict}
use mydrive.Utils.Content.{overwrite}
use mydrive.Os.{
  FilePath, path_eq, Attrs, Node, file, dir, Disk, OsError, exist, not_dir, is_dir, not_permitted,
  invalid, Io, pure, ◌>>◌, node_at, put, missing, touch, is_dir_node,
}

-- os.Lstat, without symbolic links
unfoldable pub lstat : FilePath → Io Node
lstat p d = elim (node_at d p) [ none ↦ (err (missing d p), d) | some n ↦ (ok n, d) ]

-- A new node in a directory that is there.
unfoldable pub add_node : FilePath → (Disk → Node) → Io (Unit {0})
add_node [] make d = (err exist, d)
add_node (name ∷ p) make d = elim (node_at d p) [
  | none ↦ (err (missing d (name ∷ p)), d)
  | some (file a c) ↦ (err not_dir, d)
  | some (dir a) ↦ (do put (name ∷ p) (make d); touch p) d
]

abbrev pub new_attrs : ℕ → Disk → Attrs
new_attrs perm d = record { mode = d.masked (perm % 0o1000); mtime = d.now; owned = true }

abbrev pub new_file : ℕ → Disk → Node
new_file perm d = file (new_attrs perm d) []

abbrev pub new_dir : ℕ → Disk → Node
new_dir perm d = dir (new_attrs perm d)

-- os.Create: a new file, or an old one that is emptied
unfoldable pub create : FilePath → Io (Unit {0})
create p d = elim (node_at d p) [
  | some (dir a) ↦ (err is_dir, d)
  | some (file a c) ↦ put p (file (record a { mtime = d.now }) []) d
  | none ↦ add_node p (new_file 0o666) d
]

-- os.OpenFile(path, os.O_WRONLY|os.O_CREATE, perm)
unfoldable pub open_write : FilePath → ℕ → Io (Unit {0})
open_write p perm d = elim (node_at d p) [
  | some (dir a) ↦ (err is_dir, d)
  | some (file a c) ↦ (ok tt, d)
  | none ↦ add_node p (new_file perm) d
]

-- (*os.File).WriteAt on an open file, with an int64 that is int64(offset) for a uint64: a negative
-- one is an error. No bytes are no write.
unfoldable pub write_at : FilePath → Text → ℕ → Io (Unit {0})
write_at p chunk offset d =
    if not (ltb offset (2 ^ 63))
    then (err invalid, d)
    else if chunk == []
    then (ok tt, d)
    else elim (node_at d p) [
      | some (file a c) ↦ put p (file (record a { mtime = d.now }) (overwrite c chunk offset)) d
      | _ ↦ (err invalid, d)
    ]

-- os.ReadFile, for a regular file
unfoldable pub read_file : FilePath → Io Text
read_file p d = elim (node_at d p) [
  | none ↦ (err (missing d p), d)
  | some (dir a) ↦ (err is_dir, d)
  | some (file a c) ↦ (ok c, d)
]

-- os.MkdirAll
unfoldable pub mkdir_all : FilePath → ℕ → Io (Unit {0})
mkdir_all [] perm d = (ok tt, d)
mkdir_all (name ∷ p) perm d =
    let (above, d') = mkdir_all p perm d in
    let made : Result OsError (Unit {0}) × Disk = elim above [
      | err e ↦ (err e, d')
      | ok _ ↦ add_node (name ∷ p) (new_dir perm) d'
    ] in
    elim (node_at d (name ∷ p)) [
      | some (dir a) ↦ (ok tt, d)
      | some (file a c) ↦ (err not_dir, d)
      | none ↦ made
    ]

-- Whether a path is another one or lies below it.
unfoldable pub is_under : FilePath → FilePath → Bool
is_under top [] = top == []
is_under top (name ∷ p) = top == name ∷ p || is_under top p

unfoldable pub erase_under : FilePath → Dict FilePath Node → Dict FilePath Node
erase_under top [] = []
erase_under top ((p, n) ∷ nodes) =
    let rest = erase_under top nodes in if is_under top p then rest else (p, n) ∷ rest

-- The time of the directory of a path that was removed
abbrev touch_above : FilePath → Io (Unit {0})
touch_above [] = pure tt
touch_above (name ∷ p) = touch p

-- os.RemoveAll: nothing to remove is no error
unfoldable pub remove_all : FilePath → Io (Unit {0})
remove_all p d = elim (node_at d p) [
  | none ↦ elim (missing d p) [ not_dir ↦ (err not_dir, d) | _ ↦ (ok tt, d) ]
  | some n ↦ touch_above p (record d { nodes = erase_under p d.nodes })
]

-- Whether a directory holds something.
unfoldable pub has_below : FilePath → Dict FilePath Node → Bool
has_below top [] = false
has_below top ((p, n) ∷ nodes) = (is_under top p && not (top == p)) || has_below top nodes

-- os.Remove
unfoldable pub remove_file : FilePath → Io (Unit {0})
remove_file p d = elim (node_at d p) [
  | none ↦ (err (missing d p), d)
  | some n ↦
      if has_below p d.nodes
      then (err exist, d)
      else touch_above p (record d { nodes = Dict.erase d.nodes p })
]

abbrev pub attrs_of : Node → Attrs
attrs_of (file a c) = a
attrs_of (dir a) = a

abbrev pub with_attrs : Attrs → Node → Node
with_attrs a (file _ c) = file a c
with_attrs a (dir _) = dir a

-- A change of the attributes, which only the owner may make
unfoldable pub change_attrs : FilePath → (Attrs → Attrs) → Io (Unit {0})
change_attrs p f d = elim (node_at d p) [
  | none ↦ (err (missing d p), d)
  | some n ↦
      if (attrs_of n).owned then put p (with_attrs (f (attrs_of n)) n) d else (err not_permitted, d)
]

-- os.Chmod; the permission bits of the mode
unfoldable pub chmod : FilePath → ℕ → Io (Unit {0})
chmod p mode = change_attrs p (λ a. record a { mode = mode % 0o1000 })

-- os.Chtimes; the access time is not kept
unfoldable pub chtimes : FilePath → ℤ → Io (Unit {0})
chtimes p mtime = change_attrs p (λ a. record a { mtime = mtime })

-- The path below `new` that stands for one below `old`.
unfoldable pub rebase : FilePath → FilePath → FilePath → Option FilePath
rebase old new [] = if old == [] then some new else none
rebase old new (name ∷ p) =
    let up : Option FilePath = elim (rebase old new p) [ none ↦ none | some q ↦ some (name ∷ q) ] in
    if old == name ∷ p then some new else up

unfoldable pub rebase_all : FilePath → FilePath → Dict FilePath Node → Dict FilePath Node
rebase_all old new [] = []
rebase_all old new ((p, n) ∷ nodes) =
    let p' : FilePath = elim (rebase old new p) [ none ↦ p | some q ↦ q ] in
    (p', n) ∷ rebase_all old new nodes

abbrev is_there : Option Node → Bool
is_there none = false
is_there (some n) = true

-- What stands at the new name is replaced, if it is a file; a directory stands in the way.
abbrev moved : FilePath → FilePath → Io (Unit {0})
moved old new d =
    let cleared = Dict.erase d.nodes new in
    (do touch_above old; touch_above new) (record d { nodes = rebase_all old new cleared })

-- os.Rename
unfoldable pub rename : FilePath → FilePath → Io (Unit {0})
rename old [] d = (err exist, d)
rename old (name ∷ p) d = elim (node_at d old) [
  | none ↦ (err (missing d old), d)
  | some n ↦
      if old == name ∷ p
      then (ok tt, d)
      else if is_dir_node (node_at d (name ∷ p))
      then (err exist, d)
      else if is_dir_node (some n) && is_under old (name ∷ p)
      then (err invalid, d)
      else if is_dir_node (some n) && is_there (node_at d (name ∷ p))
      then (err not_dir, d)
      else elim (node_at d p) [
        | none ↦ (err (missing d (name ∷ p)), d)
        | some (file a c) ↦ (err not_dir, d)
        | some (dir a) ↦ moved old (name ∷ p) d
      ]
]
