-- ===== src/Utils/Fs/Attributes.antt =====
-- ApplyAttrs of utils/fs.go.
use mydrive.Base.{
  ◌%◌, ◌≡◌, refl, ap, ◌∙◌, none, some, true, false, ok, err, nat_eq, if◌then◌else◌, arith,
  Bool-cases, Option-cases, inl, inr,
}
use mydrive.Base.Dict.{insert-insert}
use mydrive.Protocol.Message.{FileEntry}
use mydrive.Os.{
  FilePath, path_eq, Attrs, Node, file, dir, Disk, not_permitted, Io, ◌>>◌, node_at, missing,
}
use mydrive.Os.Files.{attrs_of, with_attrs, change_attrs, chmod, chtimes}
use mydrive.Os.Laws.{with_node, node_at-with_node, bind_ok, bind_err, missing_cases}
use mydrive.Utils.Fs.{apply_attrs, permitted}

-- The attributes that an entry asks for.
abbrev pub asked : FileEntry → Attrs → Attrs
asked entry a = record a { mode = entry.mode % 0o1000; mtime = entry.mtime }

change_attrs_owned :
    (p : FilePath) (f : Attrs → Attrs) (d : Disk) (n : Node)
    → node_at d p ≡ some n
    → (attrs_of n).owned ≡ true
    → change_attrs p f d ≡ (ok tt, with_node p (with_attrs (f (attrs_of n)) n) d)
unfolding change_attrs
change_attrs_owned p f d n e h = rw (change_attrs, e, h) refl

change_attrs_foreign :
    (p : FilePath) (f : Attrs → Attrs) (d : Disk) (n : Node)
    → node_at d p ≡ some n
    → (attrs_of n).owned ≡ false
    → change_attrs p f d ≡ (err not_permitted, d)
unfolding change_attrs
change_attrs_foreign p f d n e h = rw (change_attrs, e, h) refl

change_attrs-none :
    (p : FilePath) (f : Attrs → Attrs) (d : Disk)
    → node_at d p ≡ none
    → change_attrs p f d ≡ (err (missing d p), d)
unfolding change_attrs
change_attrs-none p f d e = rw (change_attrs, e) refl

-- That nothing is there is not an error of permission.
permitted-missing :
    (call : Io (Unit {0})) (d : Disk) (p : FilePath)
    → call d ≡ (err (missing d p), d)
    → permitted call d ≡ (err (missing d p), d)
permitted-missing call d p h =
    ap (λ o. permitted (λ _. o) d) h
    ∙ (elim (missing_cases d p) [ inl e ↦ rw e refl | inr e ↦ rw e refl ])

attrs_of-with_attrs : (a : Attrs) (n : Node) → attrs_of (with_attrs a n) ≡ a
attrs_of-with_attrs a (file _ c) = refl
attrs_of-with_attrs a (dir _) = refl

with_attrs-with_attrs : (a b : Attrs) (n : Node) → with_attrs a (with_attrs b n) ≡ with_attrs a n
with_attrs-with_attrs a b (file _ c) = refl
with_attrs-with_attrs a b (dir _) = refl

-- Two changes of the attributes of what the process owns
change_twice :
    (p : FilePath) (n : Node) (f g : Attrs → Attrs) (d : Disk)
    → node_at d p ≡ some n
    → (attrs_of n).owned ≡ true
    → (f (attrs_of n)).owned ≡ true
    → (permitted (change_attrs p f) >> permitted (change_attrs p g)) d
      ≡ (ok tt, with_node p (with_attrs (g (f (attrs_of n))) n) d)
change_twice p n f g d e own kept =
    let n' = with_attrs (f (attrs_of n)) n in
    let d' = with_node p n' d in
    let attrs : attrs_of n' ≡ f (attrs_of n) = attrs_of-with_attrs (f (attrs_of n)) n in
    let found : node_at d' p ≡ some n' =
      ground (arith, node_at-with_node p n' d p, path_eq.beq_iff p p) in
    bind_ok (permitted (change_attrs p f)) (permitted (change_attrs p g)) d d'
      (ap (λ o. permitted (λ _. o) d) (change_attrs_owned p f d n e own))
    ∙ ap (λ o. permitted (λ _. o) d')
        (change_attrs_owned p g d' n' found (ap (λ a. a.owned) attrs ∙ kept))
    ∙ ap (λ a. (ok tt, with_node p (with_attrs (g a) n') d')) attrs
    ∙ ap (λ m. (ok tt, with_node p m d'))
        (with_attrs-with_attrs (g (f (attrs_of n))) (f (attrs_of n)) n)
    ∙ ap (λ nodes. (ok tt, record d { nodes = nodes }))
        (insert-insert d.nodes p n' (with_attrs (g (f (attrs_of n))) n))

-- Whatever stands at the path, ApplyAttrs succeeds: a file or directory that the process owns has the
-- mode and the time of the entry, with its content unchanged, and one that it does not own stays as
-- it is. Without anything there the error is that of the first call, and the disk is as before.
pub apply_attrs_lem :
    (p : FilePath) (entry : FileEntry) (d : Disk)
    → apply_attrs p entry d ≡ elim (node_at d p) [
      | none ↦ (err (missing d p), d)
      | some n ↦
          if (attrs_of n).owned
          then (ok tt, with_node p (with_attrs (asked entry (attrs_of n)) n) d)
          else (ok tt, d)
    ]
unfolding apply_attrs chmod chtimes
apply_attrs_lem p entry d =
    let first : Attrs → Attrs = λ a. record a { mode = entry.mode % 0o1000 } in
    let second : Attrs → Attrs = λ a. record a { mtime = entry.mtime } in
    elim (Option-cases (node_at d p)) [
      | inl e ↦ rw e (
          bind_err (permitted (change_attrs p first)) (permitted (change_attrs p second)) d d
            (missing d p)
            (permitted-missing (change_attrs p first) d p (change_attrs-none p first d e)))
      | inr (n, e) ↦ elim (Bool-cases (attrs_of n).owned) [
        | inl own ↦ rw (e, own) (rw own at (change_twice p n first second d e own own))
        | inr foreign ↦
            rw (e, foreign)
              (bind_ok (permitted (change_attrs p first)) (permitted (change_attrs p second)) d d
                  (ap (λ o. permitted (λ _. o) d) (change_attrs_foreign p first d n e foreign))
                ∙ ap (λ o. permitted (λ _. o) d) (change_attrs_foreign p second d n e foreign))
      ]
    ]
