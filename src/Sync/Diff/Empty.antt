-- ===== src/Sync/Diff/Empty.antt =====
-- When the Diff of sync/diff.go has nothing to report.
use mydrive.Base.{
  ◌≡◌, refl, inl, inr, ◌↔◌, Option, none, some, List, [], ◌∷◌, ◌++◌, true, Text, ◌==◌, nat_eq,
  text_eq, arith, Bool-cases, Option-cases,
}
use mydrive.Base.Dict
use mydrive.Base.Dict.{Dict, is_some, NodupKeys}
use mydrive.Protocol.Message.{FileEntry, ChangeEvent}
use mydrive.Sync.State.{FileTree, get, snapshot, IsValid}
use mydrive.Sync.Diff.{created_or_modified, deleted, diff}
use mydrive.Sync.Diff.Winner.{InSync}

has-cons_self :
    (k : Text) (r : FileEntry) (m : Dict Text FileEntry) → Dict.has ((k, r) ∷ m) k ≡ true
unfolding Dict.has Dict.get
has-cons_self k r m = ground (arith, text_eq.beq_iff k k)

deleted-eq-nil :
    (local remote : Dict Text FileEntry)
    → ((p : Text) → Dict.has remote p ≡ true → Dict.has local p ≡ true)
    → deleted local remote ≡ []
unfolding deleted
deleted-eq-nil local [] h = refl
deleted-eq-nil local ((k, r) ∷ remote) h =
    rw (deleted-eq-nil local remote (λ p x. h p (unfold Dict.has Dict.get in ground arith)))
      (ground (arith, h k, has-cons_self k r remote))

deleted-eq-nil_has :
    (local remote : Dict Text FileEntry) (p : Text)
    → deleted local remote ≡ []
    → Dict.has remote p ≡ true
    → Dict.has local p ≡ true
unfolding deleted Dict.has Dict.get
deleted-eq-nil_has local [] p e h = cc
deleted-eq-nil_has local ((k, r) ∷ remote) p e h =
    ground (arith, text_eq.beq_iff k p, deleted-eq-nil_has local remote p)

-- The remote side has every local entry, unchanged.
abbrev Covers : Dict Text FileEntry → Dict Text FileEntry → Type 0
Covers remote local =
    (p : Text) (l : FileEntry) → Dict.get local p ≡ some l → InSync (some l) (Dict.get remote p)

created-eq-nil :
    (local remote : Dict Text FileEntry)
    → NodupKeys local
    → Covers remote local
    → created_or_modified local remote ≡ []
unfolding created_or_modified Dict.get
created-eq-nil [] remote u h = refl
created-eq-nil ((k, l) ∷ local) remote u h =
    let here : InSync (some l) (Dict.get remote k) = h k l (ground (arith, text_eq.beq_iff k k)) in
    let rest =
      created-eq-nil local remote u.1 (λ p x e. h p x (ground (arith, text_eq.beq_iff k p))) in
    elim (Option-cases (Dict.get remote k)) [
      | inl e ↦ absurd (rw e at here)
      | inr (r, e) ↦ let same : InSync (some l) (some r) = rw e at here in ground (arith, rest)
    ]

created-eq-nil_Covers :
    (local remote : Dict Text FileEntry)
    → created_or_modified local remote ≡ []
    → Covers remote local
unfolding created_or_modified Dict.get
created-eq-nil_Covers [] remote e p x h = absurd (ground arith)
created-eq-nil_Covers ((k, l) ∷ local) remote e p x h = elim (Bool-cases (k == p)) [
  | inl hit ↦ elim (Option-cases (Dict.get remote k)) [
    | inl absent ↦ absurd (ground arith)
    | inr (r, found) ↦
        let k_eq : k ≡ p = (text_eq.beq_iff k p).0 hit in
        let x_eq : x ≡ l = ground arith in rw (x_eq, ← k_eq, found) (ground arith)
  ]
  | inr miss ↦ created-eq-nil_Covers local remote (ground arith) p x (ground arith)
]

nil_of_append-left : (xs ys : List ChangeEvent) → xs ++ ys ≡ [] → (xs ≡ []) × (ys ≡ [])
nil_of_append-left [] ys h = (refl, h)
nil_of_append-left (x ∷ xs) ys h = absurd (ground arith)

InSync-is_some : (a b : Option FileEntry) → InSync a b → is_some b ≡ true → is_some a ≡ true
InSync-is_some (some a) b s h = refl
InSync-is_some none none s h = h
InSync-is_some none (some b) s h = absurd s

InSync-of_parts :
    (a b : Option FileEntry)
    → ((l : FileEntry) → a ≡ some l → InSync (some l) b)
    → (is_some b ≡ true → is_some a ≡ true)
    → InSync a b
InSync-of_parts (some l) b f h = f l refl
InSync-of_parts none none f h = tt
InSync-of_parts none (some r) f h = absurd (ground arith)

-- For a valid local tree, Diff is empty exactly when the two trees have the same paths and no
-- entry of one differs from that of the other.
pub diff-eq-nil_iff :
    (local remote : FileTree)
    → IsValid local
    → (diff local remote ≡ []) ↔ ((p : Text) → InSync (get local p) (get remote p))
unfolding diff get snapshot Dict.has
diff-eq-nil_iff local remote valid = (
  λ e p.
      let (first, second) =
        nil_of_append-left (created_or_modified local.entries remote.entries)
          (deleted local.entries remote.entries) e in
      InSync-of_parts (Dict.get local.entries p) (Dict.get remote.entries p)
        (created-eq-nil_Covers local.entries remote.entries first p)
        (deleted-eq-nil_has local.entries remote.entries p second),
  λ same. rw (created-eq-nil local.entries remote.entries valid.nodup (λ p l e. rw e at (same p))) (
      deleted-eq-nil local.entries remote.entries
        (λ p. InSync-is_some (Dict.get local.entries p) (Dict.get remote.entries p) (same p))),
)
