-- ===== src/Utils/Fs.antt =====
-- utils/fs.go: what the program does on the disk. The texts by which errors are wrapped are left
-- out.
pub mod Chunk
pub mod Attributes
pub mod Listing
pub mod Kept
use mydrive.Base.{
  ℕ, ◌+◌, Option, none, some, List, [], ◌∷◌, ◌++◌, Bool, true, false, Text, bytes, Result, ok, err,
  length, replicate, ◌==◌, nat_eq, text_eq, if◌then◌else◌,
}
use mydrive.Base.Int.{ℤ}
use mydrive.Protocol.FileType
use mydrive.Protocol.Message.{FileEntry}
use mydrive.Os.{
  FilePath, Attrs, Node, file, dir, Disk, OsError, not_permitted, Io, pure, fail, ◌>>=◌, ◌>>◌,
  node_at,
}
use mydrive.Os.Paths.{rel}
use mydrive.Os.Files.{
  lstat, add_node, new_file, create, open_write, write_at, read_file, mkdir_all, remove_all,
  remove_file, chmod, chtimes, rename, attrs_of,
}
use mydrive.Os.Walk.{Visit, visits}

-- The directory of a path
abbrev pub dir_of : FilePath → FilePath
dir_of [] = []
dir_of (name ∷ p) = p

-- EnsureDir
unfoldable pub ensure_dir : FilePath → Io (Unit {0})
ensure_dir p = mkdir_all (dir_of p) 0o755

-- DeleteEntry
unfoldable pub delete_entry : FilePath → Io (Unit {0})
delete_entry p = remove_all p

-- WriteChunkAt
unfoldable pub write_chunk : FilePath → Text → ℕ → Io (Unit {0})
write_chunk p chunk offset = do open_write p 0o644; write_at p chunk offset

-- An error of permission is only printed.
abbrev pub permitted : Io (Unit {0}) → Io (Unit {0})
permitted call d =
    let (r, d') = call d in
    elim r [ ok _ ↦ (ok tt, d') | err not_permitted ↦ (ok tt, d') | err e ↦ (err e, d') ]

-- ApplyAttrs
unfoldable pub apply_attrs : FilePath → FileEntry → Io (Unit {0})
apply_attrs p entry = do permitted (chmod p entry.mode); permitted (chtimes p entry.mtime)

-- os.CreateTemp in the directory of a path, under a name that it picks
abbrev create_temp : FilePath → Text → Io FilePath
create_temp p name = do add_node (name ∷ dir_of p) (new_file 0o600); pure (name ∷ dir_of p)

-- An error is returned once the temporary file is removed.
abbrev or_remove : FilePath → Io (Unit {0}) → Io (Unit {0})
or_remove temp call d =
    let (r, d') = call d in elim r [ ok _ ↦ (ok tt, d') | err e ↦ (err e, (remove_file temp d').1) ]

-- WriteFileAtomic; `name` is that of the temporary file.
unfoldable pub write_file_atomic : FilePath → Text → Text → Io (Unit {0})
write_file_atomic p content name = do
  temp ← create_temp p name
  or_remove temp (write_at temp content 0)
  or_remove temp (rename temp p)

-- What os.Lstat says of a file.
pub record FileInfo : Type 0 where
  pub is_dir : Bool
  pub is_symlink : Bool
  pub is_regular : Bool
  pub perm : ℕ
  pub mtime : ℤ
  pub size : ℕ

abbrev pub info_of : FilePath → Node → Disk → FileInfo
info_of p (file a c) d = record {
  is_dir = false;
  is_symlink = false;
  is_regular = true;
  perm = a.mode;
  mtime = a.mtime;
  size = length c;
}
info_of p (dir a) d = record {
  is_dir = true;
  is_symlink = false;
  is_regular = false;
  perm = a.mode;
  mtime = a.mtime;
  size = d.dir_size p;
}

-- The switch on the type in BuildEntry
unfoldable pub entry_type_of : FileInfo → ℕ
entry_type_of i =
    if i.is_dir
    then FileType.directory
    else if i.is_symlink
    then FileType.symlink
    else if i.is_regular
    then FileType.regular_file
    else FileType.other

-- [32]byte{}
abbrev pub no_hash : Text
no_hash = replicate 32 0

-- SyncTombstoneFile
abbrev pub sync_tombstone_file : Text
sync_tombstone_file = bytes ".sync-tombstones"

-- info.Name()
abbrev pub base_name : FilePath → Text
base_name [] = []
base_name (name ∷ p) = name

-- crypto/sha256
module _ (sha256 : Text → Text) where
  -- HashBytes
  unfoldable pub hash_bytes : Text → Text
  hash_bytes content = sha256 content

  -- HashFile
  unfoldable pub hash_file : FilePath → Io Text
  hash_file p = do content ← read_file p; pure (sha256 content)

  -- The entry that BuildEntry returns. The value that Go has for a file's status has no method UID,
  -- GID or Atime, so the owner is 0 and the time of access that of modification.
  abbrev pub entry_of : Text → FileInfo → Text → ℕ → FileEntry
  entry_of path i hash seq = record {
    path = path;
    entry_type = entry_type_of i;
    mode = i.perm;
    uid = 0;
    gid = 0;
    mtime = i.mtime;
    atime = i.mtime;
    size = i.size;
    content_hash = hash;
    seq = seq;
  }

  -- BuildEntry behind os.Lstat
  unfoldable pub entry_from : FilePath → FilePath → ℕ → Node → Io FileEntry
  entry_from base p seq n d =
      let i = info_of p n d in
      let path = rel base p in
      let hashed : Io FileEntry = do hash ← hash_file p; pure (entry_of path i hash seq)
      in if entry_type_of i == FileType.regular_file
        then hashed d
        else pure (entry_of path i no_hash seq) d

  -- BuildEntry
  unfoldable pub build_entry : FilePath → FilePath → ℕ → Io FileEntry
  build_entry base p seq = lstat p >>= entry_from base p seq

  -- The calls of the function that WalkDirectory gives to filepath.Walk, with the next number.
  unfoldable pub walk_entries : FilePath → List Visit → ℕ → Io (List FileEntry)
  walk_entries base [] seq = pure []
  walk_entries base (v ∷ vs) seq =
      let rest = walk_entries base vs in
      let kept : Io (List FileEntry) = do
        entry ← build_entry base v.path seq
        entries ← rest (seq + 1)
        pure (entry ∷ entries)
      in if base_name v.path == sync_tombstone_file then rest seq else kept

  -- WalkDirectory
  unfoldable pub walk_directory : FilePath → Io (List FileEntry)
  walk_directory base = lstat base >>= λ n d. walk_entries base (visits base d.nodes) 0 d
