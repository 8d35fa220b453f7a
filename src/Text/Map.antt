-- ===== src/Text/Map.antt =====
-- Go's maps with string keys, as association lists. `range` visits the entries in an order that Go
-- leaves open: the list's.
use auctioneer.Base.{
  ◌≡◌, refl, Bool, true, false, ◌||◌, Option, none, some, List, [], ◌∷◌, arith, if◌then◌else◌,
  Bool-cases, inl, inr,
}
use auctioneer.Text.{Bytes, bytes_eq, bytes_eq_iff}

abbrev pub Map {ℓ} : Type ℓ → Type ℓ
Map V = List (Bytes × V)

abbrev pub is_some {ℓ} : {V : Type ℓ} → Option V → Bool
is_some none = false
is_some (some v) = true

abbrev pub contains : Bytes → List Bytes → Bool
contains k [] = false
contains k (j ∷ ks) = bytes_eq j k || contains k ks

module _ {ℓ} {V : Type ℓ} where
  unfoldable pub get : Bytes → Map V → Option V
  get k [] = none
  get k ((j, v) ∷ m) = if bytes_eq j k then some v else get k m

  -- delete(m, k)
  unfoldable pub delete : Bytes → Map V → Map V
  delete k [] = []
  delete k ((j, v) ∷ m) = let rest = delete k m in if bytes_eq j k then rest else (j, v) ∷ rest

  -- m[k] = v
  unfoldable pub put : Bytes → V → Map V → Map V
  unfolding delete
  put k v m = (k, v) ∷ delete k m

  unfoldable pub keys : Map V → List Bytes
  keys [] = []
  keys ((k, v) ∷ m) = k ∷ keys m

  pub get-delete :
      (k j : Bytes) (m : Map V) → get j (delete k m) ≡ (if bytes_eq k j then none else get j m)
  unfolding get delete
  get-delete k j [] = ground arith
  get-delete k j ((i, v) ∷ m) =
      ground (arith, get-delete k j m, bytes_eq_iff i k, bytes_eq_iff i j, bytes_eq_iff k j)

  pub get-put :
      (k j : Bytes) (v : V) (m : Map V)
      → get j (put k v m) ≡ (if bytes_eq k j then some v else get j m)
  unfolding get put
  get-put k j v m = ground (arith, get-delete k j m)

  -- The keys are those that have a value.
  pub contains-keys : (k : Bytes) (m : Map V) → contains k (keys m) ≡ is_some (get k m)
  unfolding get keys
  contains-keys k [] = refl
  contains-keys k ((j, v) ∷ m) = ground (arith, contains-keys k m)

  -- No key stands twice.
  abbrev pub IsMap : Map V → Type ℓ
  IsMap [] = Unit
  IsMap ((k, v) ∷ m) = (get k m ≡ none) × IsMap m

  pub IsMap-delete : (k : Bytes) (m : Map V) → IsMap m → IsMap (delete k m)
  unfolding delete get
  IsMap-delete k [] h = tt
  IsMap-delete k ((j, v) ∷ m) (fresh, h) = elim (Bool-cases (bytes_eq j k)) [
    | inl same ↦ rw same (IsMap-delete k m h)
    | inr other ↦ rw other (ground (arith, get-delete k j m, fresh), IsMap-delete k m h)
  ]

  pub IsMap-put : (k : Bytes) (v : V) (m : Map V) → IsMap m → IsMap (put k v m)
  unfolding put
  IsMap-put k v m h = (ground (arith, get-delete k k m, bytes_eq_iff k k), IsMap-delete k m h)
