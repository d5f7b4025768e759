-- ===== src/Os/Dirs.antt =====
-- os.MkdirAll: what stands on the disk behind it.
use mydrive.Base.{
  ℕ, ◌≡◌, refl, ap, ◌∙◌, none, [], ◌∷◌, true, false, Text, ok, ◌==◌, nat_eq, text_eq, arith,
  Bool-cases, Result-cases, inl, inr,
}
use mydrive.Os.{FilePath, path_eq, Disk, node_at, readable, is_dir_node}
use mydrive.Os.Files.{add_node, new_dir, mkdir_all, is_under}
use mydrive.Os.Laws.{
  Node-cases, is_dir_node-touch, readable-touch, with_node, node_at-with_node, add_node-eq-touch,
  mkdir_all_keeps, mkdir_all_cases, add_node_keeps, node_at-touch,
}

-- A directory that is there needs nothing.
pub mkdir_all_done :
    (q : FilePath) (perm : ℕ) (d : Disk)
    → is_dir_node (node_at d q) ≡ true
    → mkdir_all q perm d ≡ (ok tt, d)
unfolding mkdir_all
mkdir_all_done [] perm d h = refl
mkdir_all_done (name ∷ q) perm d h = elim (Node-cases (node_at d (name ∷ q))) [
  | inl e ↦ absurd (ground (arith, e, h))
  | inr (inl (a, e)) ↦ rw (mkdir_all, e) refl
  | inr (inr (a, c, e)) ↦ absurd (ground (arith, e, h))
]

-- No content of a file changes.
pub readable-mkdir_all :
    (q : FilePath) (perm : ℕ) (d : Disk) (p : FilePath)
    → readable (node_at (mkdir_all q perm d).1 p) ≡ readable (node_at d p)
readable-mkdir_all q perm d p =
    mkdir_all_keeps (λ d'. readable (node_at d' p) ≡ readable (node_at d p)) q perm d refl
      (λ top d' h free k.
        let made = node_at-with_node top (new_dir perm d') d' p in
        elim (Bool-cases (top == p)) [
          | inr e ↦ ground (arith, made, e, k)
          | inl e ↦
              let here : node_at d' p ≡ none = rw ((path_eq.beq_iff top p).0 e) at free in
              ground (arith, made, e, here, k)
        ])
      (λ top d' h k. readable-touch top d' p ∙ k)

-- No directory goes.
pub is_dir_node-mkdir_all :
    (q : FilePath) (perm : ℕ) (d : Disk) (p : FilePath)
    → is_dir_node (node_at d p) ≡ true
    → is_dir_node (node_at (mkdir_all q perm d).1 p) ≡ true
is_dir_node-mkdir_all q perm d p start =
    mkdir_all_keeps (λ d'. is_dir_node (node_at d' p) ≡ true) q perm d start
      (λ top d' h free k. ground (arith, node_at-with_node top (new_dir perm d') d' p, k))
      (λ top d' h k. is_dir_node-touch top d' p ∙ k)

add_node_dir :
    (name : Text) (q : FilePath) (perm : ℕ) (d : Disk)
    → is_dir_node (node_at d q) ≡ true
    → is_dir_node (node_at (add_node (name ∷ q) (new_dir perm) d).1 (name ∷ q)) ≡ true
add_node_dir name q perm d h = elim (Node-cases (node_at d q)) [
  | inl e ↦ absurd (ground (arith, e, h))
  | inr (inl (a, e)) ↦
      ap (λ o. is_dir_node (node_at o.1 (name ∷ q))) (add_node-eq-touch name q (new_dir perm) d a e)
      ∙ is_dir_node-touch q (with_node (name ∷ q) (new_dir perm d) d) (name ∷ q)
      ∙ ground (
        arith,
        node_at-with_node (name ∷ q) (new_dir perm d) d (name ∷ q),
        path_eq.beq_iff (name ∷ q) (name ∷ q),
      )
  | inr (inr (a, c, e)) ↦ absurd (ground (arith, e, h))
]

-- Without an error the directory is there, the root being one.
pub mkdir_all_makes :
    (q : FilePath) (perm : ℕ) (d : Disk)
    → is_dir_node (node_at d []) ≡ true
    → (mkdir_all q perm d).0 ≡ ok tt
    → is_dir_node (node_at (mkdir_all q perm d).1 q) ≡ true
unfolding mkdir_all
mkdir_all_makes [] perm d root h = root
mkdir_all_makes (name ∷ q) perm d root h =
    let d₁ = (mkdir_all q perm d).1 in
    let made : is_dir_node (node_at d₁ q) ≡ true
        → is_dir_node (node_at (add_node (name ∷ q) (new_dir perm) d₁).1 (name ∷ q)) ≡ true =
      add_node_dir name q perm d₁ in
    elim (Node-cases (node_at d (name ∷ q))) [
      | inl e ↦ elim (Result-cases (mkdir_all q perm d).0) [
        | inl (u, e') ↦ rw (mkdir_all, e, e') (made (mkdir_all_makes q perm d root e'))
        | inr (x, e') ↦ absurd (ground (arith, e, e', h))
      ]
      | inr (inl (a, e)) ↦ rw (mkdir_all, e) (ground (arith, e))
      | inr (inr (a, c, e)) ↦ absurd (ground (arith, e, h))
    ]

pub apart :
    (base q p : FilePath) → is_under base q ≡ true → is_under base p ≡ false → (q == p) ≡ false
apart base q p h k = elim (Bool-cases (q == p)) [
  | inr e ↦ e
  | inl e ↦
      let same : is_under base p ≡ true = rw ((path_eq.beq_iff q p).0 e) at h in
      absurd (ground (arith, same, k))
]

-- Below a directory that is there, nothing beside it is touched.
pub mkdir_all-beside :
    (base q : FilePath) (perm : ℕ) (d : Disk) (p : FilePath)
    → is_dir_node (node_at d base) ≡ true
    → is_under base q ≡ true
    → is_under base p ≡ false
    → node_at (mkdir_all q perm d).1 p ≡ node_at d p
unfolding mkdir_all is_under
mkdir_all-beside base [] perm d p there h k = refl
mkdir_all-beside base (name ∷ q) perm d p there h k =
    let d₁ = (mkdir_all q perm d).1 in
    elim (Bool-cases (base == name ∷ q)) [
      | inl e ↦
          let here : is_dir_node (node_at d (name ∷ q)) ≡ true =
            rw ((path_eq.beq_iff base (name ∷ q)).0 e) at there in
          ap (λ o. node_at o.1 p) (mkdir_all_done (name ∷ q) perm d here)
      | inr e ↦
          let below : is_under base q ≡ true = ground (arith, h, e) in
          let other : ((name ∷ q) == p) ≡ false = apart base (name ∷ q) p h k in
          let over : (q == p) ≡ false = apart base q p below k in
          let above : node_at d₁ p ≡ node_at d p = mkdir_all-beside base q perm d p there below k in
          mkdir_all_cases (λ d'. node_at d' p ≡ node_at d p) name q perm d refl (λ _. above)
            (λ _.
              add_node_keeps (λ d'. node_at d' p ≡ node_at d p) name q (new_dir perm) d₁ above
                (ground (arith, node_at-with_node (name ∷ q) (new_dir perm d₁) d₁ p, other, above))
                (λ d' k. ground (arith, node_at-touch q d' p, over, k)))
    ]
