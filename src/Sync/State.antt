-- ===== src/Sync/State.antt =====
-- sync/state.go: the file tree, a map from paths to entries with a counter for fresh sequence
-- numbers. Its lock only keeps the operations apart, so each is one step on the tree.
-- A nil entry would stop Set: who calls it with one is found out before, by `pointed` for a tree.
use mydrive.Base.{
  ℕ, ◌+◌, ◌%◌, ◌^◌, ◌≡◌, refl, Option, none, some, List, [], ◌∷◌, Bool, true, false, arith, Text,
  length, ◌==◌, nat_eq, text_eq, if◌then◌else◌, map, ◌||◌,
}
use mydrive.Base.Dict
use mydrive.Base.Dict.{Dict, NodupKeys, insert-NodupKeys, erase-NodupKeys, get-insert, get-erase}
use mydrive.Protocol.Message.{FileEntry}

pub record FileTree : Type 0 where
  pub entries : Dict Text FileEntry
  pub next_seq : ℕ
  pub base_dir : Text

-- NewFileTree
unfoldable pub new_file_tree : Text → FileTree
new_file_tree base_dir = record { entries = []; next_seq = 0; base_dir = base_dir }

-- (*FileTree).Get
unfoldable pub get : FileTree → Text → Option FileEntry
get t path = Dict.get t.entries path

-- The entry as Set leaves it: one without a sequence number is given the next.
unfoldable pub stamp : FileTree → FileEntry → FileEntry
stamp t entry = if entry.seq == 0 then record entry { seq = t.next_seq } else entry

-- (*FileTree).Set; nextSeq is a uint64.
unfoldable pub set : FileTree → FileEntry → FileTree
set t entry = record t {
  entries = Dict.insert t.entries entry.path (stamp t entry);
  next_seq = if entry.seq == 0 then (t.next_seq + 1) % 2 ^ 64 else t.next_seq;
}

-- (*FileTree).Remove
unfoldable pub remove : FileTree → Text → FileTree
remove t path = record t { entries = Dict.erase t.entries path }

-- (*FileTree).Entries
unfoldable pub entries : FileTree → List FileEntry
entries t = Dict.values t.entries

-- (*FileTree).Len
unfoldable pub len : FileTree → ℕ
len t = length t.entries

-- (*FileTree).Contains
unfoldable pub contains : FileTree → Text → Bool
contains t path = Dict.has t.entries path

-- (*FileTree).Snapshot
unfoldable pub snapshot : FileTree → Dict Text FileEntry
snapshot t = t.entries

-- (*FileTree).Paths
unfoldable pub paths : FileTree → Dict Text Bool
paths t = Dict.insert_all [] (Dict.keys t.entries) true

-- The loop `for _, entry := range entries { tree.Set(entry) }`.
unfoldable pub set_all : FileTree → List FileEntry → FileTree
set_all t [] = t
set_all t (entry ∷ rest) = set_all (set t entry) rest

-- Each entry stands once, under its own path.
abbrev pub IsKeyed : Dict Text FileEntry → Type 0
IsKeyed [] = Unit
IsKeyed ((k, entry) ∷ m) = (entry.path ≡ k) × IsKeyed m

pub record IsValid (t : FileTree) : Type 0 where
  pub nodup : NodupKeys t.entries
  pub keyed : IsKeyed t.entries

pub new_file_tree-IsValid : (base_dir : Text) → IsValid (new_file_tree base_dir)
unfolding new_file_tree
new_file_tree-IsValid base_dir = record { nodup = tt; keyed = tt }

pub contains-new_file_tree : (base_dir path : Text) → contains (new_file_tree base_dir) path ≡ false
unfolding contains new_file_tree Dict.has Dict.get
contains-new_file_tree base_dir path = refl

insert-IsKeyed :
    (m : Dict Text FileEntry) (entry : FileEntry)
    → IsKeyed m
    → IsKeyed (Dict.insert m entry.path entry)
unfolding Dict.insert
insert-IsKeyed [] entry h = (refl, tt)
insert-IsKeyed ((k, e) ∷ m) entry h = ground (arith, insert-IsKeyed m entry h.1)

erase-IsKeyed : (m : Dict Text FileEntry) (path : Text) → IsKeyed m → IsKeyed (Dict.erase m path)
unfolding Dict.erase
erase-IsKeyed [] path h = tt
erase-IsKeyed ((k, e) ∷ m) path h = ground (arith, erase-IsKeyed m path h.1)

-- Set gives the entry a number and leaves its path.
path-stamp : (t : FileTree) (entry : FileEntry) → (stamp t entry).path ≡ entry.path
unfolding stamp
path-stamp t entry = ground arith

pub set-IsValid : (t : FileTree) (entry : FileEntry) → IsValid t → IsValid (set t entry)
unfolding set stamp
set-IsValid t entry h = record {
  nodup = insert-NodupKeys t.entries entry.path (stamp t entry) h.nodup;
  keyed = rw (path-stamp t entry) at (insert-IsKeyed t.entries (stamp t entry) h.keyed);
}

pub remove-IsValid : (t : FileTree) (path : Text) → IsValid t → IsValid (remove t path)
unfolding remove
remove-IsValid t path h = record {
  nodup = erase-NodupKeys t.entries path h.nodup;
  keyed = erase-IsKeyed t.entries path h.keyed;
}

pub set_all-IsValid : (t : FileTree) (l : List FileEntry) → IsValid t → IsValid (set_all t l)
unfolding set_all
set_all-IsValid t [] h = h
set_all-IsValid t (entry ∷ l) h = set_all-IsValid (set t entry) l (set-IsValid t entry h)

-- A lookup in a tree whose entries stand under their paths finds an entry of that path.
pub path-get :
    (m : Dict Text FileEntry) (path : Text) (entry : FileEntry)
    → IsKeyed m
    → Dict.get m path ≡ some entry
    → entry.path ≡ path
unfolding Dict.get
path-get [] path entry h e = cc
path-get ((k, x) ∷ m) path entry h e =
    ground (arith, text_eq.beq_iff k path, path-get m path entry h.1)

-- What each operation does to a lookup.
pub get-set :
    (t : FileTree) (entry : FileEntry) (path : Text)
    → get (set t entry) path ≡ (if entry.path == path then some (stamp t entry) else get t path)
unfolding get set
get-set t entry path = get-insert t.entries entry.path (stamp t entry) path

pub get-remove :
    (t : FileTree) (removed path : Text)
    → get (remove t removed) path ≡ (if removed == path then none else get t path)
unfolding get remove
get-remove t removed path = get-erase t.entries removed path

pub contains-set_all :
    (t : FileTree) (l : List FileEntry) (path : Text)
    → contains (set_all t l) path ≡ (Dict.elem (map (λ e. e.path) l) path || contains t path)
unfolding contains get set_all Dict.has Dict.elem
contains-set_all t [] path = refl
contains-set_all t (entry ∷ l) path =
    ground (arith, contains-set_all (set t entry) l path, get-set t entry path)
