-- ===== src/Prelude/Dict.antt =====
-- Go's `map[string]V` as an association list: a key that is set again keeps its place.
use mathlib.Core.Path.{◌≡◌, refl, ◌∙◌, sym, subst}
use mathlib.Core.Logic.{◌≢◌, inl, inr}
use mathlib.Core.List.{List, [], ◌∷◌}
use mathlib.Core.Option.{Option, none, some}
use native.Mathlib.Omega.{arith}
use quicframe.Prelude.Tests.{if◌then◌else◌, Bool-cases}
use quicframe.Prelude.Text.{Text, text_eq, text_eq_iff, text_eq_self, ne_of_text_eq}

module _ {ℓ} {V : Type ℓ} where
  unfoldable pub lookup : Text → List (Text × V) → Option V
  lookup k [] = none
  lookup k ((j, v) ∷ m) = if text_eq j k then some v else lookup k m

  unfoldable pub insert : Text → V → List (Text × V) → List (Text × V)
  insert k v [] = (k, v) ∷ []
  insert k v ((j, w) ∷ m) = if text_eq j k then (k, v) ∷ m else (j, w) ∷ insert k v m

  -- `delete(m, k)`
  unfoldable pub delete : Text → List (Text × V) → List (Text × V)
  delete k [] = []
  delete k ((j, v) ∷ m) = let rest = delete k m in if text_eq j k then rest else (j, v) ∷ rest

  pub lookup-insert :
      (k j : Text) (v : V) (m : List (Text × V))
      → lookup j (insert k v m) ≡ (if text_eq k j then some v else lookup j m)
  unfolding lookup insert
  lookup-insert k j v [] = refl
  lookup-insert k j v ((i, w) ∷ m) =
      ground (arith, text_eq_iff k j, text_eq_iff i k, text_eq_iff i j, lookup-insert k j v m)

  -- `for k, v := range src { dst[k] = v }`
  unfoldable pub merge : List (Text × V) → List (Text × V) → List (Text × V)
  merge dst [] = dst
  merge dst ((k, v) ∷ src) = merge (insert k v dst) src

  -- No binding of the list has the key.
  abbrev pub Misses : Text → List (Text × V) → Type 0
  Misses k [] = Unit
  Misses k ((j, _) ∷ m) = (j ≢ k) × Misses k m

  abbrev pub HasDistinctKeys : List (Text × V) → Type 0
  HasDistinctKeys [] = Unit
  HasDistinctKeys ((k, _) ∷ m) = Misses k m × HasDistinctKeys m

  -- The bindings of the list are the ones of the dictionary.
  abbrev pub Holds : List (Text × V) → List (Text × V) → Type ℓ
  Holds m [] = Unit
  Holds m ((k, v) ∷ bs) = (lookup k m ≡ some v) × Holds m bs

  pub lookup-merge_of_Misses :
      (k : Text) (dst src : List (Text × V))
      → Misses k src
      → lookup k (merge dst src) ≡ lookup k dst
  unfolding merge
  lookup-merge_of_Misses k dst [] h = refl
  lookup-merge_of_Misses k dst ((j, v) ∷ src) (ne, h) =
      lookup-merge_of_Misses k (insert j v dst) src h
      ∙ ground (arith, lookup-insert j k v dst, text_eq_iff j k)

  pub lookup-insert_self :
      (k : Text) (v : V) (m : List (Text × V)) → lookup k (insert k v m) ≡ some v
  lookup-insert_self k v m = rw (lookup-insert, text_eq_self k)

  pub merge-Holds : (dst src : List (Text × V)) → HasDistinctKeys src → Holds (merge dst src) src
  unfolding merge
  merge-Holds dst [] h = tt
  merge-Holds dst ((k, v) ∷ src) (misses, h) = (
    lookup-merge_of_Misses k (insert k v dst) src misses ∙ lookup-insert_self k v dst,
    merge-Holds (insert k v dst) src h,
  )

  insert-Misses :
      (k j : Text) (v : V) (m : List (Text × V)) → j ≢ k → Misses k m → Misses k (insert j v m)
  unfolding insert
  insert-Misses k j v [] ne h = (ne, tt)
  insert-Misses k j v ((i, w) ∷ m) ne (here, h) = elim (Bool-cases (text_eq i j)) [
    | inl same ↦ rw same (ne, h)
    | inr other ↦ rw other (here, insert-Misses k j v m ne h)
  ]

  pub insert-HasDistinctKeys :
      (j : Text) (v : V) (m : List (Text × V)) → HasDistinctKeys m → HasDistinctKeys (insert j v m)
  unfolding insert
  insert-HasDistinctKeys j v [] h = (tt, tt)
  insert-HasDistinctKeys j v ((i, w) ∷ m) (here, h) = elim (Bool-cases (text_eq i j)) [
    | inl same ↦ rw same (subst (λ x. Misses x m) ((text_eq_iff i j).0 same) here, h)
    | inr other ↦ rw other (
      insert-Misses i j v m (λ e. ne_of_text_eq other (sym e)) here,
      insert-HasDistinctKeys j v m h,
    )
  ]
