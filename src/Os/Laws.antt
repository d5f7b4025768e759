-- ===== src/Os/Laws.antt =====
-- What the calls of Os/Files do to the nodes of a disk.
use mydrive.Base.{
  ℕ, ◌≤◌, ◌≡◌, ◌⊎◌, refl, ap, ◌∙◌, Option, none, some, [], ◌∷◌, true, false, Text, Result, ok, err,
  length, ◌==◌, nat_eq, text_eq, if◌then◌else◌, arith, Bool-cases, Result-cases, inl, inr,
}
use mydrive.Base.Dict
use mydrive.Base.Dict.{Dict, get-insert, get-erase, is_some}
use mydrive.Os.{
  FilePath, path_eq, Attrs, Node, file, dir, Disk, OsError, not_exist, not_dir, missing, Io, ◌>>=◌,
  ◌>>◌, node_at, touch, readable, is_dir_node,
}
use mydrive.Os.Files.{lstat, read_file, add_node, new_dir, mkdir_all, is_under}

-- The time of a directory is touched.
abbrev pub touched : Disk → Option Node → Option Node
touched d (some (dir a)) = some (dir (record a { mtime = d.now }))
touched d n = n

-- A sequence of calls goes on behind one without an error, and ends with the first error.
pub bind_ok :
    {B : Type 0} (call : Io (Unit {0})) (next : Io B) (d d' : Disk)
    → call d ≡ (ok tt, d')
    → (call >> next) d ≡ next d'
bind_ok call next d d' h = ap (λ o. ((λ _. o) >> next) d) h

pub bind_err :
    {B : Type 0} (call : Io (Unit {0})) (next : Io B) (d d' : Disk) (e : OsError)
    → call d ≡ (err e, d')
    → (call >> next) d ≡ (err e, d')
bind_err call next d d' e h = ap (λ o. ((λ _. o) >> next) d) h

-- A call whose result is used
pub bind_value :
    {A B : Type 0} (call : Io A) (next : A → Io B) (d d' : Disk) (a : A)
    → call d ≡ (ok a, d')
    → (call >>= next) d ≡ next a d'
bind_value call next d d' a h = ap (λ o. ((λ _. o) >>= next) d) h

pub bind_error :
    {A B : Type 0} (call : Io A) (next : A → Io B) (d d' : Disk) (e : OsError)
    → call d ≡ (err e, d')
    → (call >>= next) d ≡ (err e, d')
bind_error call next d d' e h = ap (λ o. ((λ _. o) >>= next) d) h

-- A result whose first part is known
pub with_result :
    {A : Type 0} (o : Result OsError A × Disk) (r : Result OsError A) → o.0 ≡ r → o ≡ (r, o.1)
with_result o r h = ap (λ x. (x, o.1)) h

pub Node-cases :
    (n : Option Node)
    → (n ≡ none)
      ⊎ ((a : Attrs) × (n ≡ some (dir a)))
      ⊎ ((a : Attrs) × (c : Text) × (n ≡ some (file a c)))
Node-cases none = inl refl
Node-cases (some (dir a)) = inr (inl (a, refl))
Node-cases (some (file a c)) = inr (inr (a, c, refl))

-- The two errors of a path that is not there
pub missing_cases : (d : Disk) (p : FilePath) → (missing d p ≡ not_exist) ⊎ (missing d p ≡ not_dir)
unfolding missing
missing_cases d [] = inl refl
missing_cases d (name ∷ p) = elim (Node-cases (node_at d p)) [
  | inl e ↦ elim (missing_cases d p) [
    | inl k ↦ inl (rw (missing, e) k)
    | inr k ↦ inr (rw (missing, e) k)
  ]
  | inr (inl (a, e)) ↦ inl (rw (missing, e) refl)
  | inr (inr (a, c, e)) ↦ inr (rw (missing, e) refl)
]

pub node_at-touch :
    (q : FilePath) (d : Disk) (p : FilePath)
    → node_at (touch q d).1 p ≡ (if q == p then touched d (node_at d p) else node_at d p)
unfolding touch
node_at-touch q d p = elim (Node-cases (node_at d q)) [
  | inl e ↦ ground (arith, path_eq.beq_iff q p)
  | inr (inl (a, e)) ↦
      ground (arith, path_eq.beq_iff q p, get-insert d.nodes q (dir (record a { mtime = d.now })) p)
  | inr (inr (a, c, e)) ↦ ground (arith, path_eq.beq_iff q p)
]

pub readable-touch :
    (q : FilePath) (d : Disk) (p : FilePath)
    → readable (node_at (touch q d).1 p) ≡ readable (node_at d p)
readable-touch q d p = elim (Node-cases (node_at d p)) [
  | inl e ↦ ground (arith, node_at-touch q d p)
  | inr (inl (a, e)) ↦ ground (arith, node_at-touch q d p)
  | inr (inr (a, c, e)) ↦ ground (arith, node_at-touch q d p)
]

pub is_dir_node-touch :
    (q : FilePath) (d : Disk) (p : FilePath)
    → is_dir_node (node_at (touch q d).1 p) ≡ is_dir_node (node_at d p)
is_dir_node-touch q d p = elim (Node-cases (node_at d p)) [
  | inl e ↦ ground (arith, node_at-touch q d p)
  | inr (inl (a, e)) ↦ ground (arith, node_at-touch q d p)
  | inr (inr (a, c, e)) ↦ ground (arith, node_at-touch q d p)
]

pub is_some-touch :
    (q : FilePath) (d : Disk) (p : FilePath)
    → is_some (node_at (touch q d).1 p) ≡ is_some (node_at d p)
is_some-touch q d p = elim (Node-cases (node_at d p)) [
  | inl e ↦ ground (arith, node_at-touch q d p)
  | inr (inl (a, e)) ↦ ground (arith, node_at-touch q d p)
  | inr (inr (a, c, e)) ↦ ground (arith, node_at-touch q d p)
]

pub touch_ok : (q : FilePath) (d : Disk) → (touch q d).0 ≡ ok tt
unfolding touch
touch_ok q d = elim (Node-cases (node_at d q)) [
  | inl e ↦ ground arith
  | inr (inl (a, e)) ↦ ground arith
  | inr (inr (a, c, e)) ↦ ground arith
]

abbrev pub with_node : FilePath → Node → Disk → Disk
with_node p n d = record d { nodes = Dict.insert d.nodes p n }

pub node_at-with_node :
    (q : FilePath) (n : Node) (d : Disk) (p : FilePath)
    → node_at (with_node q n d) p ≡ (if q == p then some n else node_at d p)
node_at-with_node q n d p = get-insert d.nodes q n p

pub add_node-eq-touch :
    (name : Text) (q : FilePath) (make : Disk → Node) (d : Disk) (a : Attrs)
    → node_at d q ≡ some (dir a)
    → add_node (name ∷ q) make d ≡ touch q (with_node (name ∷ q) (make d) d)
unfolding add_node
add_node-eq-touch name q make d a e = rw (add_node, e) refl

-- A node is only added to a directory.
pub add_node_inv :
    (name : Text) (q : FilePath) (make : Disk → Node) (d : Disk)
    → (is_dir_node (node_at d q) ≡ true)
      ⊎ ((e : OsError) × (add_node (name ∷ q) make d ≡ (err e, d)))
unfolding add_node
add_node_inv name q make d = elim (Node-cases (node_at d q)) [
  | inl e ↦ inr (missing d (name ∷ q), rw (add_node, e) refl)
  | inr (inl (a, e)) ↦ inl (rw e refl)
  | inr (inr (a, c, e)) ↦ inr (not_dir, rw (add_node, e) refl)
]

pub is_under_refl : (p : FilePath) → is_under p p ≡ true
unfolding is_under
is_under_refl [] = ground (arith, path_eq.beq_iff [] [])
is_under_refl (name ∷ p) = ground (arith, path_eq.beq_iff (name ∷ p) (name ∷ p))

pub is_under-cons :
    (top : FilePath) (name : Text) (p : FilePath)
    → is_under top p ≡ true
    → is_under top (name ∷ p) ≡ true
unfolding is_under
is_under-cons top name p h = ground (arith, h)

-- Nothing is above the root but the root.
is_under-nil : (top : FilePath) → is_under top [] ≡ true → top ≡ []
unfolding is_under
is_under-nil top h = (path_eq.beq_iff top []).0 h

pub length-is_under : (top p : FilePath) → is_under top p ≡ true → length top ≤ length p
unfolding is_under
length-is_under top [] h = rw (is_under-nil top h) (omega arith)
length-is_under top (name ∷ p) h = elim (Bool-cases (top == name ∷ p)) [
  | inl e ↦ rw ((path_eq.beq_iff top (name ∷ p)).0 e) (omega arith)
  | inr e ↦
      let above : is_under top p ≡ true = ground arith in omega (arith, length-is_under top p above)
]

-- A path is not above its directory.
pub not-above : (name : Text) (q : FilePath) → is_under (name ∷ q) q ≡ false
not-above name q = elim (Bool-cases (is_under (name ∷ q) q)) [
  | inr e ↦ e
  | inl e ↦ absurd (omega (arith, length-is_under (name ∷ q) q e))
]

-- What adding a node to a directory, and touching it, keep.
pub add_node_keeps :
    (P : Disk → Type 0) (name : Text) (q : FilePath) (make : Disk → Node) (d : Disk)
    → P d
    → P (with_node (name ∷ q) (make d) d)
    → ((d : Disk) → P d → P (touch q d).1)
    → P (add_node (name ∷ q) make d).1
unfolding add_node
add_node_keeps P name q make d start made changed = elim (Node-cases (node_at d q)) [
  | inl e ↦ rw (add_node, e) start
  | inr (inl (a, e)) ↦
      rw (add_node-eq-touch name q make d a e) (changed (with_node (name ∷ q) (make d) d) made)
  | inr (inr (a, c, e)) ↦ rw (add_node, e) start
]

-- The ways that MkdirAll takes.
pub mkdir_all_cases :
    (P : Disk → Type 0) (name : Text) (q : FilePath) (perm : ℕ) (d : Disk)
    → P d
    → (node_at d (name ∷ q) ≡ none → P (mkdir_all q perm d).1)
    → (node_at d (name ∷ q) ≡ none
        → P (add_node (name ∷ q) (new_dir perm) (mkdir_all q perm d).1).1)
    → P (mkdir_all (name ∷ q) perm d).1
unfolding mkdir_all
mkdir_all_cases P name q perm d start above here = elim (Node-cases (node_at d (name ∷ q))) [
  | inl e ↦ elim (Result-cases (mkdir_all q perm d).0) [
    | inl (u, e') ↦ rw (mkdir_all, e, e') (here e)
    | inr (x, e') ↦ rw (mkdir_all, e, e') (above e)
  ]
  | inr (inl (a, e)) ↦ rw (mkdir_all, e) start
  | inr (inr (a, c, e)) ↦ rw (mkdir_all, e) start
]

pub is_under_ne :
    (top p q : FilePath) → is_under top q ≡ true → is_under p q ≡ false → (top == p) ≡ false
is_under_ne top p q h k = elim (Bool-cases (top == p)) [
  | inr e ↦ e
  | inl e ↦
      let same : is_under p q ≡ true = rw ((path_eq.beq_iff top p).0 e) at h in
      absurd (ground (arith, same, k))
]

-- MkdirAll leaves what is not on its way.
pub node_at-mkdir_all :
    (q : FilePath) (perm : ℕ) (d : Disk) (p : FilePath)
    → is_under p q ≡ false
    → node_at (mkdir_all q perm d).1 p ≡ node_at d p
unfolding mkdir_all is_under
node_at-mkdir_all [] perm d p h = refl
node_at-mkdir_all (name ∷ q) perm d p h =
    let d₁ = (mkdir_all q perm d).1 in
    let beside : is_under p q ≡ false = ground (arith, h) in
    let other : ((name ∷ q) == p) ≡ false =
      is_under_ne (name ∷ q) p (name ∷ q) (is_under_refl (name ∷ q)) h in
    let over : (q == p) ≡ false = is_under_ne q p q (is_under_refl q) beside in
    let above : node_at d₁ p ≡ node_at d p = node_at-mkdir_all q perm d p beside in
    mkdir_all_cases (λ d'. node_at d' p ≡ node_at d p) name q perm d refl (λ _. above)
      (λ _.
        add_node_keeps (λ d'. node_at d' p ≡ node_at d p) name q (new_dir perm) d₁ above
          (ground (arith, node_at-with_node (name ∷ q) (new_dir perm d₁) d₁ p, other, above))
          (λ d' k. ground (arith, node_at-touch q d' p, over, k)))

-- What every directory that MkdirAll may make, and every touched one, keeps is kept by it.
pub mkdir_all_keeps :
    (P : Disk → Type 0) (q : FilePath) (perm : ℕ) (d : Disk)
    → P d
    → ((top : FilePath) (d : Disk)
        → is_under top q ≡ true
        → node_at d top ≡ none
        → P d
        → P (with_node top (new_dir perm d) d))
    → ((top : FilePath) (d : Disk) → is_under top q ≡ true → P d → P (touch top d).1)
    → P (mkdir_all q perm d).1
unfolding mkdir_all
mkdir_all_keeps P [] perm d start made changed = start
mkdir_all_keeps P (name ∷ q) perm d start made changed =
    let d₁ = (mkdir_all q perm d).1 in
    let above : P d₁ =
      mkdir_all_keeps P q perm d start (λ top d h. made top d (is_under-cons top name q h))
        (λ top d h. changed top d (is_under-cons top name q h)) in
    mkdir_all_cases P name q perm d start (λ _. above)
      (λ free.
        add_node_keeps P name q (new_dir perm) d₁ above
          (made (name ∷ q) d₁ (is_under_refl (name ∷ q))
            (node_at-mkdir_all q perm d (name ∷ q) (not-above name q) ∙ free) above)
          (λ d. changed q d (is_under-cons q name q (is_under_refl q))))

pub lstat-some : (p : FilePath) (d : Disk) (n : Node) → node_at d p ≡ some n → lstat p d ≡ (ok n, d)
unfolding lstat
lstat-some p d n e = rw (lstat, e) refl

pub lstat-none : (p : FilePath) (d : Disk) → node_at d p ≡ none → lstat p d ≡ (err (missing d p), d)
unfolding lstat
lstat-none p d e = rw (lstat, e) refl

pub read_file-some :
    (p : FilePath) (d : Disk) (a : Attrs) (c : Text)
    → node_at d p ≡ some (file a c)
    → read_file p d ≡ (ok c, d)
unfolding read_file
read_file-some p d a c e = rw (read_file, e) refl
