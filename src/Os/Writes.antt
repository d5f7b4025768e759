-- ===== src/Os/Writes.antt =====
-- os.Create, os.OpenFile, WriteAt, os.Chmod, os.Chtimes and os.RemoveAll: what they leave.
use mydrive.Base.{
  not, ◌&&◌, ℕ, ◌^◌, ◌≡◌, refl, ap, ◌∙◌, Option, none, some, [], ◌∷◌, Bool, true, false, Text, ok,
  err, ltb, ◌==◌, nat_eq, text_eq, text_beq, if◌then◌else◌, arith, Bool-cases, Option-cases, inl,
  inr,
}
use mydrive.Base.Dict
use mydrive.Base.Dict.{Dict, get-insert, get-erase, is_some}
use mydrive.Utils.Content.{overwrite}
use mydrive.Os.{
  FilePath, path_eq, Attrs, Node, file, Disk, invalid, node_at, touch, readable, is_dir_node,
}
use mydrive.Os.Files.{
  add_node, new_file, new_attrs, create, open_write, write_at, is_under, erase_under, remove_all,
  remove_file, has_below,
}
use mydrive.Os.Laws.{
  Node-cases, is_dir_node-touch, readable-touch, is_some-touch, touch_ok, with_node,
  node_at-with_node, add_node-eq-touch,
}

-- What erasing leaves
pub get-erase_under :
    (top : FilePath) (nodes : Dict FilePath Node) (p : FilePath)
    → Dict.get (erase_under top nodes) p ≡ (if is_under top p then none else Dict.get nodes p)
unfolding erase_under Dict.get
get-erase_under top [] p = ground arith
get-erase_under top ((q, n) ∷ nodes) p = elim (Bool-cases (q == p)) [
  | inl e ↦
      let same : q ≡ p = (path_eq.beq_iff q p).0 e in
      ground (arith, get-erase_under top nodes p, e, ap (is_under top) same)
  | inr e ↦ ground (arith, get-erase_under top nodes p, e)
]

-- A file as it is read, of no bytes if there is none yet
abbrev pub text_of : Option Text → Text
text_of none = []
text_of (some c) = c

-- From one disk to the next a file has got some content; the contents of all other files, and what is
-- a directory, are as before.
pub record Wrote (p : FilePath) (c : Text) (d d' : Disk) : Type 0 where
  pub content : readable (node_at d' p) ≡ some c
  pub others : (q : FilePath) → (p == q) ≡ false → readable (node_at d' q) ≡ readable (node_at d q)
  pub dirs : (q : FilePath) → is_dir_node (node_at d' q) ≡ is_dir_node (node_at d q)

pub Wrote-trans :
    (p : FilePath) (c c' : Text) (d d' d'' : Disk)
    → Wrote p c d d'
    → Wrote p c' d' d''
    → Wrote p c' d d''
Wrote-trans p c c' d d' d'' h k = record {
  content = k.content;
  others = λ q e. k.others q e ∙ h.others q e;
  dirs = λ q. k.dirs q ∙ h.dirs q;
}

pub Wrote-refl :
    (p : FilePath) (c : Text) (d : Disk) → readable (node_at d p) ≡ some c → Wrote p c d d
Wrote-refl p c d h = record { content = h; others = λ q e. refl; dirs = λ q. refl }

pub Wrote-touch :
    (p : FilePath) (c : Text) (d d' : Disk) (q : FilePath)
    → Wrote p c d d'
    → Wrote p c d (touch q d').1
Wrote-touch p c d d' q h = record {
  content = readable-touch q d' p ∙ h.content;
  others = λ r e. readable-touch q d' r ∙ h.others r e;
  dirs = λ r. is_dir_node-touch q d' r ∙ h.dirs r;
}

Wrote-with_node :
    (p : FilePath) (a : Attrs) (c : Text) (d : Disk)
    → is_dir_node (node_at d p) ≡ false
    → Wrote p c d (with_node p (file a c) d)
Wrote-with_node p a c d h = record {
  content = ground (arith, node_at-with_node p (file a c) d p, path_eq.beq_iff p p);
  others = λ q e. ground (arith, node_at-with_node p (file a c) d q, e);
  dirs = λ q. elim (Bool-cases (p == q)) [
    | inr e ↦ ground (arith, node_at-with_node p (file a c) d q, e)
    | inl e ↦
        let there : is_dir_node (node_at d q) ≡ false = rw ((path_eq.beq_iff p q).0 e) at h in
        ground (arith, node_at-with_node p (file a c) d q, e, there)
  ];
}

-- A new file in a directory that is there
Wrote-add_node :
    (name : Text) (q : FilePath) (perm : ℕ) (d : Disk)
    → is_dir_node (node_at d q) ≡ true
    → is_dir_node (node_at d (name ∷ q)) ≡ false
    → ((add_node (name ∷ q) (new_file perm) d).0 ≡ ok tt)
      × Wrote (name ∷ q) [] d (add_node (name ∷ q) (new_file perm) d).1
Wrote-add_node name q perm d above free = elim (Node-cases (node_at d q)) [
  | inl e ↦ absurd (ground (arith, e, above))
  | inr (inl (a, e)) ↦ rw (add_node-eq-touch name q (new_file perm) d a e) (
    touch_ok q (with_node (name ∷ q) (new_file perm d) d),
    Wrote-touch (name ∷ q) [] d (with_node (name ∷ q) (new_file perm d) d) q
        (Wrote-with_node (name ∷ q) (new_attrs perm d) [] d free),
  )
  | inr (inr (a, c, e)) ↦ absurd (ground (arith, e, above))
]

-- A file is emptied, or made in a directory that is there.
pub create_lem :
    (name : Text) (q : FilePath) (d : Disk)
    → is_dir_node (node_at d q) ≡ true
    → is_dir_node (node_at d (name ∷ q)) ≡ false
    → ((create (name ∷ q) d).0 ≡ ok tt) × Wrote (name ∷ q) [] d (create (name ∷ q) d).1
unfolding create
create_lem name q d above free = elim (Node-cases (node_at d (name ∷ q))) [
  | inl e ↦ rw (create, e) (Wrote-add_node name q 0o666 d above free)
  | inr (inl (a, e)) ↦ absurd (ground (arith, e, free))
  | inr (inr (a, c, e)) ↦
      rw (create, e) (refl, Wrote-with_node (name ∷ q) (record a { mtime = d.now }) [] d free)
]

-- A file is opened as it is, or made in a directory that is there.
pub open_write_lem :
    (name : Text) (q : FilePath) (perm : ℕ) (d : Disk)
    → is_dir_node (node_at d q) ≡ true
    → is_dir_node (node_at d (name ∷ q)) ≡ false
    → ((open_write (name ∷ q) perm d).0 ≡ ok tt)
      × Wrote
          (name ∷ q)
          (text_of (readable (node_at d (name ∷ q))))
          d
          (open_write (name ∷ q) perm d).1
unfolding open_write
open_write_lem name q perm d above free = elim (Node-cases (node_at d (name ∷ q))) [
  | inl e ↦ rw (open_write, e) (Wrote-add_node name q perm d above free)
  | inr (inl (a, e)) ↦ absurd (ground (arith, e, free))
  | inr (inr (a, c, e)) ↦ rw (open_write, e) (refl, Wrote-refl (name ∷ q) c d (rw e refl))
]

-- An open file is written to, unless the offset is too large for an int64.
pub write_at_lem :
    (p : FilePath) (c chunk : Text) (offset : ℕ) (d : Disk)
    → readable (node_at d p) ≡ some c
    → Wrote p
        (if ltb offset (2 ^ 63) then overwrite c chunk offset else c)
        d
        (write_at p chunk offset d).1
      × ((write_at p chunk offset d).0 ≡ (if ltb offset (2 ^ 63) then ok tt else err invalid))
unfolding write_at overwrite text_beq
write_at_lem p c [] offset d h = elim (Bool-cases (ltb offset (2 ^ 63))) [
  | inr e ↦ rw (e, write_at) (Wrote-refl p c d h, refl)
  | inl e ↦ rw (e, write_at) (Wrote-refl p c d h, refl)
]
write_at_lem p c (x ∷ b) offset d h = elim (Bool-cases (ltb offset (2 ^ 63))) [
  | inr e ↦ rw (e, write_at) (Wrote-refl p c d h, refl)
  | inl e ↦ elim (Node-cases (node_at d p)) [
    | inl e' ↦ absurd (ground (arith, e', h))
    | inr (inl (a, e')) ↦ absurd (ground (arith, e', h))
    | inr (inr (a, c', e')) ↦
        let same : c' ≡ c = ground (arith, e', h) in
        let free : is_dir_node (node_at d p) ≡ false = ground (arith, e') in
        rw (e, write_at, e', same)
          (Wrote-with_node p (record a { mtime = d.now }) (overwrite c (x ∷ b) offset) d free, refl)
  ]
]

abbrev pub erased : FilePath → Disk → Disk
erased p d = record d { nodes = erase_under p d.nodes }

pub remove_all-eq-touch :
    (name : Text) (p : FilePath) (n : Node) (d : Disk)
    → node_at d (name ∷ p) ≡ some n
    → remove_all (name ∷ p) d ≡ touch p (erased (name ∷ p) d)
unfolding remove_all
remove_all-eq-touch name p n d e = rw (remove_all, e) refl

readable-if :
    (b : Bool) (n : Option Node)
    → readable (if b then none else n) ≡ (if b then none else readable n)
readable-if true n = refl
readable-if false n = refl

-- The contents that are left
pub readable-remove_all :
    (name : Text) (p : FilePath) (n : Node) (d : Disk) (q : FilePath)
    → node_at d (name ∷ p) ≡ some n
    → readable (node_at (remove_all (name ∷ p) d).1 q)
      ≡ (if is_under (name ∷ p) q then none else readable (node_at d q))
readable-remove_all name p n d q e =
    ap (λ o. readable (node_at o.1 q)) (remove_all-eq-touch name p n d e)
    ∙ readable-touch p (erased (name ∷ p) d) q
    ∙ ap readable (get-erase_under (name ∷ p) d.nodes q)
    ∙ readable-if (is_under (name ∷ p) q) (node_at d q)

is_some-if : (b : Bool) (n : Option Node) → is_some (if b then none else n) ≡ (not b && is_some n)
is_some-if true n = refl
is_some-if false n = refl

-- The files and directories that are left
pub is_some-remove_all :
    (name : Text) (p : FilePath) (n : Node) (d : Disk) (q : FilePath)
    → node_at d (name ∷ p) ≡ some n
    → is_some (node_at (remove_all (name ∷ p) d).1 q)
      ≡ (not (is_under (name ∷ p) q) && is_some (node_at d q))
is_some-remove_all name p n d q e =
    ap (λ o. is_some (node_at o.1 q)) (remove_all-eq-touch name p n d e)
    ∙ is_some-touch p (erased (name ∷ p) d) q
    ∙ ap is_some (get-erase_under (name ∷ p) d.nodes q)
    ∙ is_some-if (is_under (name ∷ p) q) (node_at d q)

-- A file below which nothing stands is not there behind os.Remove.
pub remove_file_lem :
    (name : Text) (q : FilePath) (d : Disk)
    → has_below (name ∷ q) d.nodes ≡ false
    → readable (node_at (remove_file (name ∷ q) d).1 (name ∷ q)) ≡ none
unfolding remove_file
remove_file_lem name q d h = elim (Option-cases (node_at d (name ∷ q))) [
  | inl e ↦ rw (remove_file, e) (rw e refl)
  | inr (n, e) ↦
      let d' : Disk = record d { nodes = Dict.erase d.nodes (name ∷ q) } in
      rw (remove_file, e, h)
        (readable-touch q d' (name ∷ q)
          ∙ ap readable (get-erase d.nodes (name ∷ q) (name ∷ q))
          ∙ ground (arith, path_eq.beq_iff (name ∷ q) (name ∷ q)))
]
