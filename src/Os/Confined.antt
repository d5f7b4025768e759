-- ===== src/Os/Confined.antt =====
-- Calls that stay below a directory.
use mydrive.Base.{
  ℕ, ◌≡◌, sym, ◌∙◌, [], ◌∷◌, true, false, Text, ok, err, ltb, ◌^◌, ◌==◌, nat_eq, text_eq, arith,
  Bool-cases, Result-cases, Option-cases, inl, inr,
}
use mathlib.Core.Path.{subst}
use mydrive.Utils.Content.{overwrite}
use mydrive.Os.{FilePath, path_eq, Attrs, Node, file, Disk, Io, ◌>>◌, node_at, touch, is_dir_node}
use mydrive.Os.Files.{
  add_node, new_file, create, open_write, write_at, mkdir_all, is_under, remove_all, change_attrs,
  attrs_of, with_attrs,
}
use mydrive.Os.Laws.{
  Node-cases, missing_cases, bind_ok, bind_err, with_result, is_dir_node-touch, with_node,
  node_at-with_node, add_node_keeps, is_under-cons, not-above, node_at-touch,
}
use mydrive.Os.Dirs.{is_dir_node-mkdir_all, mkdir_all-beside, apart}
use mydrive.Os.Writes.{get-erase_under, erased, remove_all-eq-touch}

-- The directory is there, and outside of it all is as on an earlier disk.
pub record Within (base : FilePath) (d d' : Disk) : Type 0 where
  pub there : is_dir_node (node_at d' base) ≡ true
  pub beside : (x : FilePath) → is_under base x ≡ false → node_at d' x ≡ node_at d x

-- A call that leaves what is outside of a directory, if that is there.
abbrev pub Confined : FilePath → {A : Type 0} → Io A → Type 0
Confined base call = (d d' : Disk) → Within base d d' → Within base d (call d').1

pub Confined-bind :
    {B : Type 0} (base : FilePath) (call : Io (Unit {0})) (next : Io B)
    → Confined base call
    → Confined base next
    → Confined base (call >> next)
Confined-bind base call next h k d d' w =
    let d₁ = (call d').1 in
    elim (Result-cases (call d').0) [
      | inl (u, e) ↦
          subst (λ o. Within base d o.1)
            (sym (bind_ok call next d' d₁ (with_result (call d') (ok tt) e))) (k d d₁ (h d d' w))
      | inr (x, e) ↦
          subst (λ o. Within base d o.1)
            (sym (bind_err call next d' d₁ x (with_result (call d') (err x) e))) (h d d' w)
    ]

is_under_trans :
    (a b c : FilePath) → is_under a b ≡ true → is_under b c ≡ true → is_under a c ≡ true
unfolding is_under
is_under_trans a b [] h k = rw ((path_eq.beq_iff b []).0 k) at h
is_under_trans a b (name ∷ c) h k = elim (Bool-cases (b == name ∷ c)) [
  | inl e ↦ rw ((path_eq.beq_iff b (name ∷ c)).0 e) at h
  | inr e ↦
      let above : is_under b c ≡ true = ground (arith, k, e) in
      is_under-cons a name c (is_under_trans a b c h above)
]

module _ (base : FilePath) (name : Text) (q : FilePath) (inside : is_under base q ≡ true) where
  pub inside' : is_under base (name ∷ q) ≡ true
  inside' = is_under-cons base name q inside

  below-base : (name ∷ q == base) ≡ false
  below-base = elim (Bool-cases (name ∷ q == base)) [
    | inr e ↦ e
    | inl e ↦
        let up : is_under (name ∷ q) q ≡ true =
          rw (sym ((path_eq.beq_iff (name ∷ q) base).0 e)) at inside in
        absurd (ground (arith, up, not-above name q))
  ]

  Within-with_node :
      (n : Node) (d d' : Disk) → Within base d d' → Within base d (with_node (name ∷ q) n d')
  Within-with_node n d d' w = record {
    there = ground (arith, node_at-with_node (name ∷ q) n d' base, below-base, w.there);
    beside = λ x h. ground (
      arith,
      node_at-with_node (name ∷ q) n d' x,
      apart base (name ∷ q) x inside' h,
      w.beside x h,
    );
  }

  Within-touch : (d d' : Disk) → Within base d d' → Within base d (touch q d').1
  Within-touch d d' w = record {
    there = is_dir_node-touch q d' base ∙ w.there;
    beside = λ x h. ground (arith, node_at-touch q d' x, apart base q x inside h, w.beside x h);
  }

  pub Confined-mkdir_all : (perm : ℕ) → Confined base (mkdir_all q perm)
  Confined-mkdir_all perm d d' w = record {
    there = is_dir_node-mkdir_all q perm d' base w.there;
    beside = λ x h. mkdir_all-beside base q perm d' x w.there inside h ∙ w.beside x h;
  }

  Confined-add_node : (make : Disk → Node) → Confined base (add_node (name ∷ q) make)
  Confined-add_node make d d' w =
      add_node_keeps (Within base d) name q make d' w (Within-with_node (make d') d d' w)
        (Within-touch d)

  pub Confined-create : Confined base (create (name ∷ q))
  unfolding create
  Confined-create d d' w = elim (Node-cases (node_at d' (name ∷ q))) [
    | inl e ↦ rw (create, e) (Confined-add_node (new_file 0o666) d d' w)
    | inr (inl (a, e)) ↦ rw (create, e) w
    | inr (inr (a, c, e)) ↦
        rw (create, e) (Within-with_node (file (record a { mtime = d'.now }) []) d d' w)
  ]

  pub Confined-open_write : (perm : ℕ) → Confined base (open_write (name ∷ q) perm)
  unfolding open_write
  Confined-open_write perm d d' w = elim (Node-cases (node_at d' (name ∷ q))) [
    | inl e ↦ rw (open_write, e) (Confined-add_node (new_file perm) d d' w)
    | inr (inl (a, e)) ↦ rw (open_write, e) w
    | inr (inr (a, c, e)) ↦ rw (open_write, e) w
  ]

  pub Confined-write_at :
      (chunk : Text) (offset : ℕ) → Confined base (write_at (name ∷ q) chunk offset)
  unfolding write_at
  Confined-write_at chunk offset d d' w = elim (Bool-cases (ltb offset (2 ^ 63))) [
    | inr b ↦ rw (write_at, b) w
    | inl b ↦ elim (Bool-cases (chunk == [])) [
      | inl k ↦ rw (write_at, b, k) w
      | inr k ↦ elim (Node-cases (node_at d' (name ∷ q))) [
        | inl e ↦ rw (write_at, b, k, e) w
        | inr (inl (a, e)) ↦ rw (write_at, b, k, e) w
        | inr (inr (a, c, e)) ↦
            rw (write_at, b, k, e)
              (Within-with_node (file (record a { mtime = d'.now }) (overwrite c chunk offset)) d d'
                w)
      ]
    ]
  ]

  pub Confined-change_attrs : (f : Attrs → Attrs) → Confined base (change_attrs (name ∷ q) f)
  unfolding change_attrs
  Confined-change_attrs f d d' w = elim (Option-cases (node_at d' (name ∷ q))) [
    | inl e ↦ rw (change_attrs, e) w
    | inr (n, e) ↦ elim (Bool-cases (attrs_of n).owned) [
      | inr o ↦ rw (change_attrs, e, o) w
      | inl o ↦ rw (change_attrs, e, o) (Within-with_node (with_attrs (f (attrs_of n)) n) d d' w)
    ]
  ]

  Within-erased : (d d' : Disk) → Within base d d' → Within base d (erased (name ∷ q) d')
  Within-erased d d' w =
      let above : is_under (name ∷ q) base ≡ false = elim (Bool-cases (is_under (name ∷ q) base)) [
        | inr e ↦ e
        | inl e ↦
            absurd (ground (arith, is_under_trans (name ∷ q) base q e inside, not-above name q))
      ] in
      record {
        there = ground (arith, get-erase_under (name ∷ q) d'.nodes base, above, w.there);
        beside = λ x h. elim (Bool-cases (is_under (name ∷ q) x)) [
          | inr e ↦ ground (arith, get-erase_under (name ∷ q) d'.nodes x, e, w.beside x h)
          | inl e ↦ absurd (ground (arith, is_under_trans base (name ∷ q) x inside' e, h))
        ];
      }

  pub Confined-remove_all : Confined base (remove_all (name ∷ q))
  unfolding remove_all
  Confined-remove_all d d' w = elim (Option-cases (node_at d' (name ∷ q))) [
    | inl e ↦ elim (missing_cases d' (name ∷ q)) [
      | inl k ↦ rw (remove_all, e, k) w
      | inr k ↦ rw (remove_all, e, k) w
    ]
    | inr (n, e) ↦
        rw (remove_all-eq-touch name q n d' e)
          (Within-touch d (erased (name ∷ q) d') (Within-erased d d' w))
  ]
