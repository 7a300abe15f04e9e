-- ===== src/Base/Sort.antt =====
-- `Array.prototype.sort`: a stable sort. `le a b` is the test that the comparator's result at
-- `(a, b)` is not positive.
use mathlib.Core.Path.{◌≡◌, refl, ◌∙◌}
use mathlib.Core.Logic.{◌⊎◌, inl, inr}
use mathlib.Core.Bool.{Bool, true, not}
use mathlib.Core.List.{List, [], ◌∷◌, ◌++◌, Perm, perm_middle}
use mathlib.Core.List.Perm
use native.Mathlib.Omega.{arith}
use omni_python_web_template.Base.Tests.{if◌then◌else◌, Bool-cases}
use omni_python_web_template.Base.Lists.{All, filter}
use omni_python_web_template.Base.Collections.{includes, IsNodup}
use omni_python_web_template.Base.Tests.{Eq, ◌==◌, beq_sym}
use mathlib.Core.Bool.{false, ◌||◌}

module _ {ℓ} {A : Type ℓ} (le : A → A → Bool) where
  abbrev pub insert_sorted : A → List A → List A
  insert_sorted x [] = x ∷ []
  insert_sorted x (y ∷ ys) = if le x y then x ∷ y ∷ ys else y ∷ insert_sorted x ys

  abbrev pub sort_by : List A → List A
  sort_by [] = []
  sort_by (x ∷ xs) = insert_sorted x (sort_by xs)

  -- Each element stands before those that it is not above.
  abbrev pub IsSorted : List A → Type 0
  IsSorted [] = Unit
  IsSorted (x ∷ xs) = All (λ y. le x y ≡ true) xs × IsSorted xs

  insert_sorted-All {κ} :
      (P : A → Type κ) (x : A) (ys : List A) → P x → All P ys → All P (insert_sorted x ys)
  insert_sorted-All P x [] p h = (p, tt)
  insert_sorted-All P x (y ∷ ys) p (q, h) = elim (Bool-cases (le x y)) [
    | inl up ↦ rw up (p, (q, h))
    | inr down ↦ rw down (q, insert_sorted-All P x ys p h)
  ]

  pub sort_by-All {κ} : (P : A → Type κ) (xs : List A) → All P xs → All P (sort_by xs)
  sort_by-All P [] h = tt
  sort_by-All P (x ∷ xs) (p, h) = insert_sorted-All P x (sort_by xs) p (sort_by-All P xs h)

  insert_sorted-perm : (x : A) (ys : List A) → Perm (insert_sorted x ys) (x ∷ ys)
  insert_sorted-perm x [] = Perm.rfl
  insert_sorted-perm x (y ∷ ys) = elim (Bool-cases (le x y)) [
    | inl up ↦ rw up Perm.rfl
    | inr down ↦ rw down (Perm.trans (Perm.cons y (insert_sorted-perm x ys)) (Perm.swap x y ys))
  ]

  pub sort_by-perm : (xs : List A) → Perm (sort_by xs) xs
  sort_by-perm [] = Perm.rfl
  sort_by-perm (x ∷ xs) =
      Perm.trans (insert_sorted-perm x (sort_by xs)) (Perm.cons x (sort_by-perm xs))

-- A comparator that is total and transitive.
pub record IsOrder {ℓ} {A : Type ℓ} (le : A → A → Bool) : Type ℓ where
  pub total : (a b : A) → (le a b ≡ true) ⊎ (le b a ≡ true)
  pub trans : (a b c : A) → le a b ≡ true → le b c ≡ true → le a c ≡ true

module _ {ℓ} {A : Type ℓ} (le : A → A → Bool) (o : IsOrder le) where
  below-All :
      (x y : A) (ys : List A)
      → le x y ≡ true
      → All (λ z. le y z ≡ true) ys
      → All (λ z. le x z ≡ true) ys
  below-All x y [] h k = tt
  below-All x y (z ∷ ys) h (p, k) = (o.trans x y z h p, below-All x y ys h k)

  insert_sorted-IsSorted :
      (x : A) (ys : List A) → IsSorted le ys → IsSorted le (insert_sorted le x ys)
  insert_sorted-IsSorted x [] h = (tt, tt)
  insert_sorted-IsSorted x (y ∷ ys) (p, h) = elim (Bool-cases (le x y)) [
    | inl up ↦ rw up ((up, below-All x y ys up p), (p, h))
    | inr down ↦ rw down (
      insert_sorted-All le (λ z. le y z ≡ true) x ys (ground (arith, o.total x y)) p,
      insert_sorted-IsSorted x ys h,
    )
  ]

  pub sort_by-IsSorted : (xs : List A) → IsSorted le (sort_by le xs)
  sort_by-IsSorted [] = tt
  sort_by-IsSorted (x ∷ xs) = insert_sorted-IsSorted x (sort_by le xs) (sort_by-IsSorted xs)

  -- The smallest element goes to the front.
  pub insert_sorted-head :
      (x : A) (ys : List A) → All (λ y. le x y ≡ true) ys → insert_sorted le x ys ≡ x ∷ ys
  insert_sorted-head x [] h = refl
  insert_sorted-head x (y ∷ ys) (p, h) = rw p

  -- Sorting what is sorted changes nothing.
  pub sort_by_of_IsSorted : (xs : List A) → IsSorted le xs → sort_by le xs ≡ xs
  sort_by_of_IsSorted [] h = refl
  sort_by_of_IsSorted (x ∷ xs) (p, h) = rw (sort_by_of_IsSorted xs h) (insert_sorted-head x xs p)

-- Sorting keeps the elements.
module _ {ℓ} {A : Type ℓ} ⦃e : Eq A⦄ (le : A → A → Bool) where
  includes-insert_sorted :
      (a x : A) (ys : List A) → includes a (insert_sorted le x ys) ≡ (a == x || includes a ys)
  includes-insert_sorted a x [] = refl
  includes-insert_sorted a x (y ∷ ys) = ground (arith, includes-insert_sorted a x ys)

  pub includes-sort_by : (a : A) (xs : List A) → includes a (sort_by le xs) ≡ includes a xs
  includes-sort_by a [] = refl
  includes-sort_by a (x ∷ xs) =
      ground (arith, includes-insert_sorted a x (sort_by le xs), includes-sort_by a xs)

  insert_sorted-IsNodup :
      (x : A) (ys : List A) → includes x ys ≡ false → IsNodup ys → IsNodup (insert_sorted le x ys)
  insert_sorted-IsNodup x [] h k = (refl, tt)
  insert_sorted-IsNodup x (y ∷ ys) h (p, k) =
      ground (arith, includes-insert_sorted y x ys, beq_sym x y, insert_sorted-IsNodup x ys)

  pub sort_by-IsNodup : (xs : List A) → IsNodup xs → IsNodup (sort_by le xs)
  sort_by-IsNodup [] h = tt
  sort_by-IsNodup (x ∷ xs) (p, h) =
      insert_sorted-IsNodup x (sort_by le xs) (includes-sort_by x xs ∙ p) (sort_by-IsNodup xs h)

module _ {ℓ} {A : Type ℓ} where
  -- Splitting by a test keeps the elements.
  pub partition-perm :
      (p : A → Bool) (xs : List A) → Perm (filter (λ x. not (p x)) xs ++ filter p xs) xs
  partition-perm p [] = Perm.rfl
  partition-perm p (x ∷ xs) = elim (Bool-cases (p x)) [
    | inl back ↦ rw back (
        Perm.trans (perm_middle (filter (λ y. not (p y)) xs) (filter p xs))
          (Perm.cons x (partition-perm p xs)))
    | inr front ↦ rw front (Perm.cons x (partition-perm p xs))
  ]

  pub filter-All : (P : A → Type 0) (p : A → Bool) (xs : List A) → All P xs → All P (filter p xs)
  filter-All P p [] h = tt
  filter-All P p (x ∷ xs) (q, h) = elim (Bool-cases (p x)) [
    | inl kept ↦ rw kept (q, filter-All P p xs h)
    | inr dropped ↦ rw dropped (filter-All P p xs h)
  ]

  pub filter-IsSorted :
      (le : A → A → Bool) (p : A → Bool) (xs : List A) → IsSorted le xs → IsSorted le (filter p xs)
  filter-IsSorted le p [] h = tt
  filter-IsSorted le p (x ∷ xs) (q, h) = elim (Bool-cases (p x)) [
    | inl kept ↦ rw kept (filter-All _ p xs q, filter-IsSorted le p xs h)
    | inr dropped ↦ rw dropped (filter-IsSorted le p xs h)
  ]
