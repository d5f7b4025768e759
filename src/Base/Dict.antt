-- ===== src/Base/Dict.antt =====
-- Go maps as association lists with distinct keys. The order of the list is the order in which
-- a `range` loop meets the keys, which Go leaves open.
use mydrive.Base.{
  ◌≡◌, refl, Option, none, some, List, [], ◌∷◌, ◌++◌, arith, Eq, ◌==◌, if◌then◌else◌, Bool, true,
  false, ◌||◌,
}

abbrev pub Dict {ℓ κ} : Type ℓ → Type κ → Type (ℓ ⊔ κ)
Dict K V = List (K × V)

abbrev pub is_some {ℓ} : {A : Type ℓ} → Option A → Bool
is_some none = false
is_some (some a) = true

module _ {ℓ} {K : Type ℓ} ⦃e : Eq K⦄ where
  -- Whether a list has a key.
  unfoldable pub elem : List K → K → Bool
  elem [] j = false
  elem (k ∷ ks) j = k == j || elem ks j

  pub elem-append : (xs ys : List K) (j : K) → elem (xs ++ ys) j ≡ (elem xs j || elem ys j)
  unfolding elem
  elem-append [] ys j = refl
  elem-append (x ∷ xs) ys j = ground (arith, elem-append xs ys j)

module _ {ℓ κ} {K : Type ℓ} {V : Type κ} ⦃e : Eq K⦄ where
  -- m[k], with `none` for a missing key
  unfoldable pub get : Dict K V → K → Option V
  get [] k = none
  get ((j, v) ∷ m) k = if j == k then some v else get m k

  -- m[k] = v
  unfoldable pub insert : Dict K V → K → V → Dict K V
  insert [] k v = (k, v) ∷ []
  insert ((j, w) ∷ m) k v = if j == k then (k, v) ∷ m else (j, w) ∷ insert m k v

  -- delete(m, k)
  unfoldable pub erase : Dict K V → K → Dict K V
  erase [] k = []
  erase ((j, w) ∷ m) k = let rest = erase m k in if j == k then rest else (j, w) ∷ rest

  pub get-insert :
      (m : Dict K V) (k : K) (v : V) (j : K)
      → get (insert m k v) j ≡ (if k == j then some v else get m j)
  unfolding get insert
  get-insert [] k v j = refl
  get-insert ((i, w) ∷ m) k v j =
      ground (arith, e.beq_iff k j, e.beq_iff i k, e.beq_iff i j, get-insert m k v j)

  pub insert-insert : (m : Dict K V) (k : K) (v w : V) → insert (insert m k v) k w ≡ insert m k w
  unfolding insert
  insert-insert [] k v w = ground (arith, e.beq_iff k k)
  insert-insert ((i, x) ∷ m) k v w =
      ground (arith, e.beq_iff k k, e.beq_iff i k, insert-insert m k v w)

  pub get-erase : (m : Dict K V) (k j : K) → get (erase m k) j ≡ (if k == j then none else get m j)
  unfolding get erase
  get-erase [] k j = ground arith
  get-erase ((i, w) ∷ m) k j =
      ground (arith, e.beq_iff k j, e.beq_iff i k, e.beq_iff i j, get-erase m k j)

  -- No key stands twice.
  abbrev pub NodupKeys : Dict K V → Type κ
  NodupKeys [] = Unit
  NodupKeys ((k, v) ∷ m) = (get m k ≡ none) × NodupKeys m

  pub insert-NodupKeys : (m : Dict K V) (k : K) (v : V) → NodupKeys m → NodupKeys (insert m k v)
  unfolding get insert
  insert-NodupKeys [] k v h = (refl, tt)
  insert-NodupKeys ((j, w) ∷ m) k v h =
      ground (arith, e.beq_iff j k, e.beq_iff k j, get-insert m k v j, insert-NodupKeys m k v h.1)

  pub erase-NodupKeys : (m : Dict K V) (k : K) → NodupKeys m → NodupKeys (erase m k)
  unfolding get erase
  erase-NodupKeys [] k h = tt
  erase-NodupKeys ((j, w) ∷ m) k h = ground (arith, get-erase m k j, erase-NodupKeys m k h.1)

  -- _, ok := m[k]
  unfoldable pub has : Dict K V → K → Bool
  unfolding get
  has m k = is_some (get m k)

  -- The keys and the values in the order of a `range` loop.
  unfoldable pub keys : Dict K V → List K
  keys [] = []
  keys ((k, v) ∷ m) = k ∷ keys m

  unfoldable pub values : Dict K V → List V
  values [] = []
  values ((k, v) ∷ m) = v ∷ values m

  -- m[k] = v for each k of a list
  unfoldable pub insert_all : Dict K V → List K → V → Dict K V
  unfolding insert
  insert_all m [] v = m
  insert_all m (k ∷ ks) v = insert_all (insert m k v) ks v

  pub get-insert_all :
      (m : Dict K V) (ks : List K) (v : V) (j : K)
      → get (insert_all m ks v) j ≡ (if elem ks j then some v else get m j)
  unfolding insert_all elem
  get-insert_all m [] v j = refl
  get-insert_all m (k ∷ ks) v j =
      ground (arith, get-insert_all (insert m k v) ks v j, get-insert m k v j)

  pub insert_all-NodupKeys :
      (m : Dict K V) (ks : List K) (v : V) → NodupKeys m → NodupKeys (insert_all m ks v)
  unfolding insert_all
  insert_all-NodupKeys m [] v h = h
  insert_all-NodupKeys m (k ∷ ks) v h =
      insert_all-NodupKeys (insert m k v) ks v (insert-NodupKeys m k v h)

  pub elem-keys : (m : Dict K V) (j : K) → elem (keys m) j ≡ has m j
  unfolding elem keys has
  elem-keys [] j = refl
  elem-keys ((k, v) ∷ m) j = ground (arith, elem-keys m j)
