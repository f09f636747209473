-- ===== src/Base/Map.antt =====
-- `HashMap` as an association list that holds each key once: what iteration order a real map has
-- is of no concern to the operations below.
use mathlib.Core.Path.{◌≡◌, refl, subst}
use mathlib.Core.Logic.{◌≢◌, inl, inr}
use mathlib.Core.Bool.{true, false}
use mathlib.Core.List.{List, [], ◌∷◌}
use mathlib.Core.Option.{Option, none, some}
use native.Mathlib.Omega.{arith}
use dart_edge.Base.Tests.{if◌then◌else◌, Bool-cases, Option-cases}
use dart_edge.Base.Keys.{Eq, ◌=?◌}

abbrev pub Map {ℓ κ} : Type ℓ → Type κ → Type (ℓ ⊔ κ)
Map K V = List (K × V)

module _ {ℓ} {K : Type ℓ} ⦃e : Eq K⦄ where
  pub eq_refl : (k : K) → k =? k ≡ true
  eq_refl k = (e.beq_exact k k).1 refl

  pub eq_false : (j k : K) → j ≢ k → j =? k ≡ false
  eq_false j k h = elim (Bool-cases (j =? k)) [
    | inl t ↦ absurd (h ((e.beq_exact j k).0 t))
    | inr f ↦ f
  ]

module _ {ℓ κ} {K : Type ℓ} {V : Type κ} ⦃e : Eq K⦄ where
  unfoldable pub get : K → Map K V → Option V
  get k [] = none
  get k ((j, v) ∷ m) = if j =? k then some v else get k m

  unfoldable pub insert : K → V → Map K V → Map K V
  insert k v [] = (k, v) ∷ []
  insert k v ((j, w) ∷ m) = if j =? k then (k, v) ∷ m else (j, w) ∷ insert k v m

  -- The map without the key; a caller reads the old value by `get`.
  unfoldable pub remove : K → Map K V → Map K V
  remove k [] = []
  remove k ((j, w) ∷ m) = if j =? k then remove k m else (j, w) ∷ remove k m

  -- `get_mut` with a change of the value in place.
  abbrev pub modify : K → (V → V) → Map K V → Map K V
  modify k f m = elim (get k m) [ none ↦ m | some v ↦ insert k (f v) m ]

  pub get-insert :
      (k j : K) (v : V) (m : Map K V) → get j (insert k v m) ≡ (if k =? j then some v else get j m)
  unfolding get insert
  get-insert k j v [] = refl
  get-insert k j v ((i, w) ∷ m) =
      ground (arith, e.beq_exact k j, e.beq_exact i k, e.beq_exact i j, get-insert k j v m)

  pub get-remove : (k j : K) (m : Map K V) → get j (remove k m) ≡ (if k =? j then none else get j m)
  unfolding get remove
  get-remove k j [] = ground arith
  get-remove k j ((i, w) ∷ m) =
      ground (arith, e.beq_exact k j, e.beq_exact i k, e.beq_exact i j, get-remove k j m)

  pub get-insert_self : (k : K) (v : V) (m : Map K V) → get k (insert k v m) ≡ some v
  get-insert_self k v m = simp (get-insert, eq_refl)

  pub get-remove_self : (k : K) (m : Map K V) → get k (remove k m) ≡ none
  get-remove_self k m = simp (get-remove, eq_refl)

  pub get-insert_ne : (k j : K) (v : V) (m : Map K V) → k ≢ j → get j (insert k v m) ≡ get j m
  get-insert_ne k j v m h = rw (get-insert k j v m, eq_false k j h)

  pub get-remove_ne : (k j : K) (m : Map K V) → k ≢ j → get j (remove k m) ≡ get j m
  get-remove_ne k j m h = rw (get-remove k j m, eq_false k j h)

-- `P` holds of every value.
abbrev pub Every {ℓ κ ι} : {K : Type ℓ} {V : Type κ} → (V → Type ι) → Map K V → Type ι
Every P [] = Unit
Every P ((k, v) ∷ m) = P v × Every P m

module _ {ℓ κ ι} {K : Type ℓ} {V : Type κ} ⦃e : Eq K⦄ (P : V → Type ι) where
  pub get-Every : (k : K) (v : V) (m : Map K V) → Every P m → get k m ≡ some v → P v
  unfolding get
  get-Every k v [] h g = absurd (cc)
  get-Every k v ((j, w) ∷ m) h g = elim (Bool-cases (j =? k)) [
    | inl t ↦ subst P (ground arith) h.0
    | inr f ↦ get-Every k v m h.1 (rw f at g)
  ]

  pub insert-Every : (k : K) (v : V) (m : Map K V) → P v → Every P m → Every P (insert k v m)
  unfolding insert
  insert-Every k v [] p h = (p, tt)
  insert-Every k v ((j, w) ∷ m) p h = elim (Bool-cases (j =? k)) [
    | inl t ↦ rw t (p, h.1)
    | inr f ↦ rw f (h.0, insert-Every k v m p h.1)
  ]

  pub remove-Every : (k : K) (m : Map K V) → Every P m → Every P (remove k m)
  unfolding remove
  remove-Every k [] h = tt
  remove-Every k ((j, w) ∷ m) h = elim (Bool-cases (j =? k)) [
    | inl t ↦ rw t (remove-Every k m h.1)
    | inr f ↦ rw f (h.0, remove-Every k m h.1)
  ]

  -- The value that goes again need not have the property.
  pub remove-insert-Every :
      (k : K) (v : V) (m : Map K V) → Every P m → Every P (remove k (insert k v m))
  unfolding insert remove
  remove-insert-Every k v [] h = rw (eq_refl k) tt
  remove-insert-Every k v ((j, w) ∷ m) h = elim (Bool-cases (j =? k)) [
    | inl t ↦ rw (t, eq_refl k) (remove-Every k m h.1)
    | inr f ↦ rw (f, f) (h.0, remove-insert-Every k v m h.1)
  ]

  pub modify-Every :
      (k : K) (f : V → V) (m : Map K V)
      → ((v : V) → P v → P (f v))
      → Every P m
      → Every P (modify k f m)
  modify-Every k f m p h = elim (Option-cases (get k m)) [
    | inl e ↦ rw (e, modify) h
    | inr (v, e) ↦ rw (e, modify) (insert-Every k (f v) m (p v (get-Every k v m h e)) h)
  ]
