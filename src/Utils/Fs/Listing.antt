-- ===== src/Utils/Fs/Listing.antt =====
-- WalkDirectory of utils/fs.go: which entries it gives.
use mydrive.Base.{
  ℕ, ◌+◌, ◌≡◌, refl, ◌∙◌, none, some, List, [], ◌∷◌, Bool, true, false, ◌&&◌, ◌||◌, not, Text, ok,
  map, All, ◌==◌, nat_eq, text_eq, if◌then◌else◌, arith, Bool-cases, Option-cases, inl, inr,
}
use mydrive.Base.Dict
use mydrive.Base.Dict.{Dict, NodupKeys}
use mydrive.Protocol.Message.{FileEntry}
use mydrive.Os.{FilePath, path_eq, Node, file, dir, Disk, ◌>>=◌, pure, node_at}
use mydrive.Os.Paths.{below, rel}
use mydrive.Os.Files.{lstat, read_file}
use mydrive.Os.Walk.{Visit, names_leb, all_names, insert_visit, visits}
use mydrive.Os.Laws.{bind_value, lstat-some, read_file-some}
use mydrive.Utils.Fs.{
  info_of, no_hash, entry_of, hash_file, entry_from, build_entry, walk_entries, walk_directory,
  base_name, sync_tombstone_file, entry_type_of,
}

module _ (sha256 : Text → Text) where
  -- The entry for a node: that of a file has the hash of its content.
  abbrev pub entry_for : FilePath → FilePath → Node → Disk → ℕ → FileEntry
  entry_for base p (file a c) d seq =
      entry_of sha256 (rel base p) (info_of p (file a c) d) (sha256 c) seq
  entry_for base p (dir a) d seq = entry_of sha256 (rel base p) (info_of p (dir a) d) no_hash seq

  -- BuildEntry gives the entry for what is there, and only reads.
  pub build_entry_lem :
      (base p : FilePath) (n : Node) (d : Disk) (seq : ℕ)
      → node_at d p ≡ some n
      → build_entry sha256 base p seq d ≡ (ok (entry_for base p n d seq), d)
  unfolding build_entry entry_from hash_file entry_type_of
  build_entry_lem base p (file a c) d seq e =
      bind_value (lstat p) (entry_from sha256 base p seq) d d (file a c)
        (lstat-some p d (file a c) e)
      ∙ bind_value (hash_file sha256 p)
          (λ hash. pure (entry_of sha256 (rel base p) (info_of p (file a c) d) hash seq)) d d
          (sha256 c)
          (bind_value (read_file p) (λ content. pure (sha256 content)) d d c
            (read_file-some p d a c e))
  build_entry_lem base p (dir a) d seq e =
      bind_value (lstat p) (entry_from sha256 base p seq) d d (dir a) (lstat-some p d (dir a) e)

  -- The entries of a list of visits, numbered
  unfoldable pub listing : FilePath → Disk → List Visit → ℕ → List FileEntry
  listing base d [] seq = []
  listing base d (v ∷ vs) seq =
      let rest = listing base d vs in
      if base_name v.path == sync_tombstone_file
      then rest seq
      else entry_for base v.path v.node d seq ∷ rest (seq + 1)

  -- Where each visit is what stands on the disk, the walk gives their entries.
  walk_entries_lem :
      (base : FilePath) (vs : List Visit) (d : Disk) (seq : ℕ)
      → All (λ v. node_at d v.path ≡ some v.node) vs
      → walk_entries sha256 base vs seq d ≡ (ok (listing base d vs seq), d)
  unfolding walk_entries listing
  walk_entries_lem base [] d seq h = refl
  walk_entries_lem base (v ∷ vs) d seq h =
      elim (Bool-cases (base_name v.path == sync_tombstone_file)) [
        | inl e ↦ rw e (walk_entries_lem base vs d seq h.1)
        | inr e ↦ rw e (
            bind_value (build_entry sha256 base v.path seq)
              (λ entry.
                walk_entries sha256 base vs (seq + 1) >>= (λ entries. pure (entry ∷ entries)))
              d d (entry_for base v.path v.node d seq)
              (build_entry_lem base v.path v.node d seq h.0)
            ∙ bind_value (walk_entries sha256 base vs (seq + 1))
                (λ entries. pure (entry_for base v.path v.node d seq ∷ entries)) d d
                (listing base d vs (seq + 1)) (walk_entries_lem base vs d (seq + 1) h.1))
      ]

All-insert_visit :
    (P : Visit → Type 0) (v : Visit) (vs : List Visit) → P v → All P vs → All P (insert_visit v vs)
unfolding insert_visit
All-insert_visit P v [] h k = (h, tt)
All-insert_visit P v (w ∷ ws) h k = elim (Bool-cases (names_leb (all_names v) (all_names w))) [
  | inl e ↦ rw e (h, k)
  | inr e ↦ rw e (k.0, All-insert_visit P v ws h k.1)
]

All-map : (P Q : Visit → Type 0) (vs : List Visit) → ((v : Visit) → P v → Q v) → All P vs → All Q vs
All-map P Q [] f h = tt
All-map P Q (v ∷ vs) f h = (f v h.0, All-map P Q vs f h.1)

-- A node behind another one keeps its place.
get-behind :
    (q : FilePath) (m : Node) (nodes : Dict FilePath Node) (p : FilePath) (n : Node)
    → Dict.get nodes q ≡ none
    → Dict.get nodes p ≡ some n
    → Dict.get ((q, m) ∷ nodes) p ≡ some n
unfolding Dict.get
get-behind q m nodes p n h k = elim (Bool-cases (q == p)) [
  | inr e ↦ rw e k
  | inl e ↦
      let none_there : Dict.get nodes p ≡ none = rw ((path_eq.beq_iff q p).0 e) at h in
      absurd (ground (arith, none_there, k))
]

-- The walk sees what stands on the disk.
visits_true :
    (base : FilePath) (nodes : Dict FilePath Node)
    → NodupKeys nodes
    → All (λ v. Dict.get nodes v.path ≡ some v.node) (visits base nodes)
unfolding visits Dict.get
visits_true base [] h = tt
visits_true base ((p, n) ∷ nodes) h =
    let rest : All (λ v. Dict.get ((p, n) ∷ nodes) v.path ≡ some v.node) (visits base nodes) =
      All-map (λ v. Dict.get nodes v.path ≡ some v.node)
        (λ v. Dict.get ((p, n) ∷ nodes) v.path ≡ some v.node) (visits base nodes)
        (λ v. get-behind p n nodes v.path v.node h.0) (visits_true base nodes h.1) in
    elim (Option-cases (below base p)) [
      | inl e ↦ rw (visits, e) rest
      | inr ([], e) ↦ rw (visits, e) rest
      | inr (f ∷ ns, e) ↦
          let here : Dict.get ((p, n) ∷ nodes) p ≡ some n = ground (arith, path_eq.beq_iff p p) in
          rw (visits, e)
            (All-insert_visit (λ v. Dict.get ((p, n) ∷ nodes) v.path ≡ some v.node)
              (record { first = f; names = ns; path = p; node = n }) (visits base nodes) here rest)
    ]

-- Whether the disk holds something below the directory whose relative path is the given one, and
-- whose name is not that of the tombstone file.
unfoldable pub holds : FilePath → Dict FilePath Node → Text → Bool
holds base [] path = false
holds base ((p, n) ∷ nodes) path =
    let inside : Bool = elim (below base p) [ some (f ∷ ns) ↦ true | _ ↦ false ] in
    (inside && not (base_name p == sync_tombstone_file) && rel base p == path)
    || holds base nodes path

abbrev shown : FilePath → Text → FilePath → Bool
shown base path p = not (base_name p == sync_tombstone_file) && rel base p == path

unfoldable shows : FilePath → Text → List Visit → Bool
shows base path [] = false
shows base path (v ∷ vs) = shown base path v.path || shows base path vs

shows-insert_visit :
    (base : FilePath) (path : Text) (v : Visit) (vs : List Visit)
    → shows base path (insert_visit v vs) ≡ (shown base path v.path || shows base path vs)
unfolding insert_visit shows
shows-insert_visit base path v [] = refl
shows-insert_visit base path v (w ∷ ws) = ground (arith, shows-insert_visit base path v ws)

shows-visits :
    (base : FilePath) (path : Text) (nodes : Dict FilePath Node)
    → shows base path (visits base nodes) ≡ holds base nodes path
unfolding visits shows holds
shows-visits base path [] = refl
shows-visits base path ((p, n) ∷ nodes) = elim (Option-cases (below base p)) [
  | inl e ↦ rw (visits, e) (shows-visits base path nodes)
  | inr ([], e) ↦ rw (visits, e) (shows-visits base path nodes)
  | inr (f ∷ ns, e) ↦
      let v : Visit = record { first = f; names = ns; path = p; node = n } in
      rw (visits, e)
        (shows-insert_visit base path v (visits base nodes)
          ∙ ground (arith, shows-visits base path nodes))
]

module _ (sha256 : Text → Text) where
  path-entry_for :
      (base p : FilePath) (n : Node) (d : Disk) (seq : ℕ)
      → (entry_for sha256 base p n d seq).path ≡ rel base p
  path-entry_for base p (file a c) d seq = refl
  path-entry_for base p (dir a) d seq = refl

  elem-listing :
      (base : FilePath) (d : Disk) (vs : List Visit) (seq : ℕ) (path : Text)
      → Dict.elem (map (λ entry. entry.path) (listing sha256 base d vs seq)) path
        ≡ shows base path vs
  unfolding listing shows Dict.elem
  elem-listing base d [] seq path = refl
  elem-listing base d (v ∷ vs) seq path =
      let one : (entry_for sha256 base v.path v.node d seq).path ≡ rel base v.path =
        path-entry_for base v.path v.node d seq in
      ground (arith, one, elem-listing base d vs seq path, elem-listing base d vs (seq + 1) path)

  -- The walk of a directory that is there never fails and changes nothing: its entries are numbered from
  -- 0, those of the nodes below the directory in the order of filepath.Walk, but for the tombstone
  -- file, and their paths are exactly those on the disk.
  pub walk_directory_lem :
      (base : FilePath) (n : Node) (d : Disk) (path : Text)
      → NodupKeys d.nodes
      → node_at d base ≡ some n
      → let found = listing sha256 base d (visits base d.nodes) 0 in
        (walk_directory sha256 base d ≡ (ok found, d))
        × (Dict.elem (map (λ entry. entry.path) found) path ≡ holds base d.nodes path)
  unfolding walk_directory
  walk_directory_lem base n d path nodup there = (
    bind_value (lstat base) (λ n d. walk_entries sha256 base (visits base d.nodes) 0 d) d d n
          (lstat-some base d n there)
        ∙ walk_entries_lem sha256 base (visits base d.nodes) d 0 (visits_true base d.nodes nodup),
    elem-listing base d (visits base d.nodes) 0 path ∙ shows-visits base path d.nodes,
  )
