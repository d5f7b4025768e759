-- ===== src/Sync/Diff/Winner.antt =====
-- pickWinner of sync/diff.go: what it decides, and when two sides that decide for themselves agree.
use mydrive.Base.{
  ◌≡◌, ◌≢◌, refl, sym, ◌∙◌, ◌⊎◌, inl, inr, Option, none, some, true, false, Text, nat_eq, text_eq,
  arith, Bool-cases,
}
use mydrive.Base.Int.{◌≤ℤ◌, int_leb, int_eq, int_le_refl, int_le_total, int_le_antisymm}
use mydrive.Protocol.Message.{FileEntry}
use mydrive.Sync.State.{FileTree, get, IsValid}
use mydrive.Sync.Diff.{entry_changed, pick_winner, diff_initial}
use mydrive.Sync.Diff.Merge.{after, merged, merged-eq-merge, after-diff_initial}

-- The winner is one of the two entries and no older than either; on a tie it is the remote one.
pub pick_winner_last :
    (l r : FileEntry)
    → ((pick_winner l r ≡ l) ⊎ (pick_winner l r ≡ r))
      × (l.mtime ≤ℤ (pick_winner l r).mtime)
      × (r.mtime ≤ℤ (pick_winner l r).mtime)
      × (l.mtime ≡ r.mtime → pick_winner l r ≡ r)
unfolding pick_winner
pick_winner_last l r = elim (Bool-cases (int_leb l.mtime r.mtime)) [
  | inl e ↦ rw e (inr refl, e, int_le_refl r.mtime, λ _. refl)
  | inr e ↦ rw e (
    inl refl,
    int_le_refl l.mtime,
    int_le_total l.mtime r.mtime e,
    λ h. absurd (ground (arith, int_le_refl r.mtime)),
  )
]

entry_changed_comm : (a b : FileEntry) → entry_changed a b ≡ entry_changed b a
unfolding entry_changed
entry_changed_comm a b = ground (
  arith,
  text_eq.beq_iff a.content_hash b.content_hash,
  text_eq.beq_iff b.content_hash a.content_hash,
)

-- Two entries of one path that were changed at the same time, in different ways.
abbrev pub IsTie : Option FileEntry → Option FileEntry → Type 0
IsTie (some a) (some b) = (a.mtime ≡ b.mtime) × (entry_changed a b ≡ true)
IsTie _ _ = ⊥

-- Both sides see the same content: the same presence, and no difference that Diff looks at.
abbrev pub InSync : Option FileEntry → Option FileEntry → Type 0
InSync none none = Unit
InSync (some a) (some b) = entry_changed a b ≡ false
InSync _ _ = ⊥

entry_changed_refl : (a : FileEntry) → entry_changed a a ≡ false
unfolding entry_changed
entry_changed_refl a = ground (arith, text_eq.beq_iff a.content_hash a.content_hash)

pick_winner_comm : (a b : FileEntry) → a.mtime ≢ b.mtime → pick_winner a b ≡ pick_winner b a
unfolding pick_winner
pick_winner_comm a b h =
    ground (arith, int_le_antisymm a.mtime b.mtime, int_le_total a.mtime b.mtime)

-- The merges that the two sides compute for themselves agree, but for a tie.
merged-InSync : (a b : Option FileEntry) → ¬ IsTie a b → InSync (merged a b) (merged b a)
merged-InSync none none h = tt
merged-InSync none (some b) h = entry_changed_refl b
merged-InSync (some a) none h = entry_changed_refl a
merged-InSync (some a) (some b) h = elim (Bool-cases (entry_changed a b)) [
  | inl e ↦
      rw (e, entry_changed_comm b a, e, pick_winner_comm a b (λ t. h (t, e)))
        (entry_changed_refl (pick_winner b a))
  | inr e ↦ rw (e, entry_changed_comm b a, e, entry_changed_comm b a) e
]

merged-IsTie : (a b : Option FileEntry) → IsTie a b → (merged a b ≡ b) × (merged b a ≡ a)
merged-IsTie (some a) (some b) h = ground (
  arith,
  entry_changed_comm a b,
  (pick_winner_last a b).3 h.0,
  (pick_winner_last b a).3 (sym h.0),
)
merged-IsTie none none h = absurd h
merged-IsTie none (some b) h = absurd h
merged-IsTie (some a) none h = absurd h

-- What each side makes of the other's tree, in the words of the code
after-merged :
    (p : Text) (a b : FileTree)
    → IsValid a
    → IsValid b
    → after p (get b p) (diff_initial a b) ≡ merged (get a p) (get b p)
after-merged p a b va vb =
    after-diff_initial p a b va vb ∙ sym (merged-eq-merge (get a p) (get b p))

module _ (p : Text) (a b : FileTree) (va : IsValid a) (vb : IsValid b) where
  -- When each side applies to the other's tree the changes of its own DiffInitial, both valid
  -- trees arrive at the same content at every path on which there is no tie.
  pub after-diff_initial-InSync :
      ¬ IsTie (get a p) (get b p)
      → InSync (after p (get b p) (diff_initial a b)) (after p (get a p) (diff_initial b a))
  after-diff_initial-InSync h =
      rw (after-merged p a b va vb, after-merged p b a vb va) (merged-InSync (get a p) (get b p) h)

  -- On a tie between valid trees, each side ends with the version that the other had.
  pub after-diff_initial-IsTie :
      IsTie (get a p) (get b p)
      → (after p (get b p) (diff_initial a b) ≡ get b p)
        × (after p (get a p) (diff_initial b a) ≡ get a p)
  after-diff_initial-IsTie h =
      rw (after-merged p a b va vb, after-merged p b a vb va) (merged-IsTie (get a p) (get b p) h)
