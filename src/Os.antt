-- ===== src/Os.antt =====
-- The disk, as far as the program uses packages os and path/filepath of Go's standard library: a
-- tree of directories and regular files. A path is the list of its names, the last one first, so
-- that the directory of a path is its tail. The process may create, read, write and remove
-- everywhere; it may change the attributes of what it owns. Times are in nanoseconds.
pub mod Paths
pub mod Files
pub mod Walk
pub mod Laws
pub mod Dirs
pub mod Writes
pub mod Confined
use mydrive.Base.{
  ℕ, ◌≡◌, ◌↔◌, Option, none, some, List, [], ◌∷◌, Bool, true, false, ◌&&◌, Text, Result, ok, err,
  Eq, text_eq, ◌==◌, arith,
}
use mydrive.Base.Int.{ℤ}
use mydrive.Base.Dict
use mydrive.Base.Dict.{Dict}

abbrev pub FilePath : Type 0
FilePath = List Text

unfoldable pub path_beq : FilePath → FilePath → Bool
path_beq [] [] = true
path_beq [] (b ∷ q) = false
path_beq (a ∷ p) [] = false
path_beq (a ∷ p) (b ∷ q) = a == b && path_beq p q

pub path_beq_iff : (p q : FilePath) → (path_beq p q ≡ true) ↔ (p ≡ q)
unfolding path_beq
path_beq_iff [] [] = ground arith
path_beq_iff [] (b ∷ q) = ground arith
path_beq_iff (a ∷ p) [] = ground arith
path_beq_iff (a ∷ p) (b ∷ q) = ground (arith, text_eq.beq_iff a b, path_beq_iff p q)

instance abbrev pub path_eq : Eq FilePath
path_eq = record { beq = path_beq; beq_iff = path_beq_iff }

-- The attributes of a file or a directory: its permission bits, its modification time, and whether
-- the process owns it.
pub record Attrs : Type 0 where
  pub mode : ℕ
  pub mtime : ℤ
  pub owned : Bool

pub data Node : Type 0 where
  file : Attrs → Text → Node
  dir : Attrs → Node

-- `now` is the time that an operation takes for a change; `masked` clears the bits of the umask; what
-- the system gives as the size of a directory is `dir_size`.
pub record Disk : Type 0 where
  pub nodes : Dict FilePath Node
  pub now : ℤ
  pub masked : ℕ → ℕ
  pub dir_size : FilePath → ℕ

-- The errors of the system that the program can meet, one that it makes itself, and a read through
-- a nil pointer, which would stop it.
pub data OsError : Type 0 where
  not_exist exist not_dir is_dir not_permitted invalid : OsError
  unknown_op : Text → OsError
  nil_pointer : OsError

-- A call: its result, and the disk afterwards, which an error leaves as far as it came.
abbrev pub Io : Type 0 → Type 0
Io A = Disk → Result OsError A × Disk

abbrev pub pure : {A : Type 0} → A → Io A
pure a d = (ok a, d)

abbrev pub fail : {A : Type 0} → OsError → Io A
fail e d = (err e, d)

infixl 5 ◌>>=◌ ◌>>◌
abbrev pub ◌>>=◌ : {A B : Type 0} → Io A → (A → Io B) → Io B
◌>>=◌ call next d = let (r, d') = call d in elim r [ err e ↦ (err e, d') | ok a ↦ next a d' ]

abbrev pub ◌>>◌ : {B : Type 0} → Io (Unit {0}) → Io B → Io B
call >> next = call >>= λ _. next

-- What stands at a path. The root is a directory that is there always.
abbrev pub node_at : Disk → FilePath → Option Node
node_at d p = Dict.get d.nodes p

abbrev pub put : FilePath → Node → Io (Unit {0})
put p n d = (ok tt, record d { nodes = Dict.insert d.nodes p n })

-- What can be read at a path.
abbrev pub readable : Option Node → Option Text
readable (some (file a c)) = some c
readable _ = none

abbrev pub is_dir_node : Option Node → Bool
is_dir_node (some (dir a)) = true
is_dir_node _ = false

-- Why a path is not there: a name above it is a file, or is missing too.
unfoldable pub missing : Disk → FilePath → OsError
missing d [] = not_exist
missing d (name ∷ p) = elim (node_at d p) [
  | none ↦ missing d p
  | some (dir a) ↦ not_exist
  | some (file a c) ↦ not_dir
]

-- A change among the entries of a directory sets the directory's time.
unfoldable pub touch : FilePath → Io (Unit {0})
touch p d = elim (node_at d p) [
  | some (dir a) ↦ put p (dir (record a { mtime = d.now })) d
  | _ ↦ (ok tt, d)
]
