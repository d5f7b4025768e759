-- ===== src/Utils/Fs/Kept.antt =====
-- WalkDirectory of utils/fs.go only reads.
use mydrive.Base.{
  ℕ, ◌+◌, ◌≡◌, refl, ap, ◌∙◌, List, [], ◌∷◌, Text, ok, err, ◌==◌, nat_eq, text_eq, Bool-cases,
  Result-cases, Option-cases, inl, inr,
}
use mydrive.Protocol.FileType
use mydrive.Os.{FilePath, path_eq, Node, Disk, Io, ◌>>=◌, pure, node_at}
use mydrive.Os.Paths.{rel}
use mydrive.Os.Files.{lstat, read_file}
use mydrive.Os.Walk.{Visit, visits}
use mydrive.Os.Laws.{Node-cases, bind_value, bind_error, with_result}
use mydrive.Utils.Fs.{
  hash_file, entry_from, entry_of, info_of, entry_type_of, build_entry, walk_entries,
  walk_directory, base_name, sync_tombstone_file,
}

-- A call that leaves the disk as it is, whatever its result
abbrev pub Reads : {A : Type 0} → Io A → Type 0
Reads call = (d : Disk) → (call d).1 ≡ d

Reads-bind :
    {A B : Type 0} (call : Io A) (next : A → Io B)
    → Reads call
    → ((a : A) → Reads (next a))
    → Reads (call >>= next)
Reads-bind call next h k d = elim (Result-cases (call d).0) [
  | inl (a, e) ↦
      ap (λ o. o.1) (bind_value call next d (call d).1 a (with_result (call d) (ok a) e))
      ∙ k a (call d).1
      ∙ h d
  | inr (x, e) ↦
      ap (λ o. o.1) (bind_error call next d (call d).1 x (with_result (call d) (err x) e)) ∙ h d
]

Reads-lstat : (p : FilePath) → Reads (lstat p)
unfolding lstat
Reads-lstat p d = elim (Option-cases (node_at d p)) [
  | inl e ↦ rw (lstat, e) refl
  | inr (n, e) ↦ rw (lstat, e) refl
]

Reads-read_file : (p : FilePath) → Reads (read_file p)
unfolding read_file
Reads-read_file p d = elim (Node-cases (node_at d p)) [
  | inl e ↦ rw (read_file, e) refl
  | inr (inl (a, e)) ↦ rw (read_file, e) refl
  | inr (inr (a, c, e)) ↦ rw (read_file, e) refl
]

module _ (sha256 : Text → Text) where
  Reads-entry_from :
      (base p : FilePath) (seq : ℕ) (n : Node) → Reads (entry_from sha256 base p seq n)
  unfolding entry_from hash_file
  Reads-entry_from base p seq n d =
      elim (Bool-cases (entry_type_of (info_of p n d) == FileType.regular_file)) [
        | inr e ↦ rw (entry_from, e) refl
        | inl e ↦
            rw (entry_from, e)
              (Reads-bind (hash_file sha256 p)
                (λ hash. pure (entry_of sha256 (rel base p) (info_of p n d) hash seq))
                (Reads-bind (read_file p) (λ content. pure (sha256 content)) (Reads-read_file p)
                  (λ content d. refl))
                (λ hash d. refl) d)
      ]

  Reads-build_entry : (base p : FilePath) (seq : ℕ) → Reads (build_entry sha256 base p seq)
  unfolding build_entry
  Reads-build_entry base p seq =
      Reads-bind (lstat p) (entry_from sha256 base p seq) (Reads-lstat p)
        (Reads-entry_from base p seq)

  Reads-walk_entries :
      (base : FilePath) (vs : List Visit) (seq : ℕ) → Reads (walk_entries sha256 base vs seq)
  unfolding walk_entries
  Reads-walk_entries base [] seq = λ d. refl
  Reads-walk_entries base (v ∷ vs) seq =
      elim (Bool-cases (base_name v.path == sync_tombstone_file)) [
        | inl e ↦ rw (walk_entries, e) (Reads-walk_entries base vs seq)
        | inr e ↦
            rw (walk_entries, e)
              (Reads-bind (build_entry sha256 base v.path seq)
                (λ entry.
                  walk_entries sha256 base vs (seq + 1) >>= (λ entries. pure (entry ∷ entries)))
                (Reads-build_entry base v.path seq)
                (λ entry.
                  Reads-bind (walk_entries sha256 base vs (seq + 1))
                    (λ entries. pure (entry ∷ entries)) (Reads-walk_entries base vs (seq + 1))
                    (λ entries d. refl)))
      ]

  pub Reads-walk_directory : (base : FilePath) → Reads (walk_directory sha256 base)
  unfolding walk_directory
  Reads-walk_directory base =
      Reads-bind (lstat base) (λ n d. walk_entries sha256 base (visits base d.nodes) 0 d)
        (Reads-lstat base) (λ n d. Reads-walk_entries base (visits base d.nodes) 0 d)
