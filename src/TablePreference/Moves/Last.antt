-- ===== src/TablePreference/Moves/Last.antt =====
-- Lists whose marked elements stand last (web/src/components/table/table-column-order-moves.ts).
use omni_python_web_template.Base.{
  ℕ, zero, suc, String, ◌≡◌, refl, ap, subst, inl, inr, Bool, true, false, not, some, List, [], ◌∷◌,
  ◌++◌, arith, nat_eq, string_eq, Bool-cases, take, get_elem?, filter, All, All-filter_self,
}
use omni_python_web_template.TablePreference.Moves.{remove_at, insert_at}

-- No column that is not one of the action columns stands behind one that is.
module _ (p : String → Bool) where
  abbrev pub IsLast : List String → Type 0
  IsLast [] = Unit
  IsLast (x ∷ xs) = (p x ≡ true → All (λ y. p y ≡ true) xs) × IsLast xs

  pub All-remove_at :
      (i : ℕ) (xs : List String) → All (λ y. p y ≡ true) xs → All (λ y. p y ≡ true) (remove_at i xs)
  unfolding remove_at
  All-remove_at i [] h = tt
  All-remove_at zero (x ∷ xs) (k, h) = h
  All-remove_at (suc i) (x ∷ xs) (k, h) = (k, All-remove_at i xs h)

  pub remove_at-IsLast : (i : ℕ) (xs : List String) → IsLast xs → IsLast (remove_at i xs)
  unfolding remove_at
  remove_at-IsLast i [] h = tt
  remove_at-IsLast zero (x ∷ xs) (k, h) = h
  remove_at-IsLast (suc i) (x ∷ xs) (k, h) =
      ((λ q. All-remove_at i xs (k q)), remove_at-IsLast i xs h)

  pub All-get_elem? :
      (xs : List String) (i : ℕ) (o : String)
      → All (λ y. p y ≡ true) xs
      → get_elem? xs i ≡ some o
      → p o ≡ true
  All-get_elem? [] i o h k = cc
  All-get_elem? (x ∷ xs) zero o (q, h) k = let same : x ≡ o = cc in subst (λ y. p y ≡ true) same q
  All-get_elem? (x ∷ xs) (suc i) o (q, h) k = All-get_elem? xs i o h k

  pub front-IsLast :
      (xs : List String) (i : ℕ) (o : String)
      → IsLast xs
      → get_elem? xs i ≡ some o
      → p o ≡ false
      → All (λ y. p y ≡ false) (take (suc i) xs)
  front-IsLast [] i o h k q = tt
  front-IsLast (x ∷ xs) zero o h k q =
      let same : o ≡ x = cc in (subst (λ y. p y ≡ false) same q, tt)
  front-IsLast (x ∷ xs) (suc i) o (l, h) k q = (
    elim (Bool-cases (p x)) [
      | inl action ↦ let wrong = All-get_elem? xs i o (l action) k in cc
      | inr other ↦ other
    ],
    front-IsLast xs i o h k q,
  )

  pub take-remove_at :
      (t f : ℕ) (xs : List String)
      → All (λ y. p y ≡ false) (take (suc t) xs)
      → All (λ y. p y ≡ false) (take t (remove_at f xs))
  unfolding remove_at
  take-remove_at zero f xs h = tt
  take-remove_at (suc t) f [] h = tt
  take-remove_at (suc t) zero (x ∷ xs) (q, h) = h
  take-remove_at (suc t) (suc f) (x ∷ xs) (q, h) = (q, take-remove_at t f xs h)

  pub insert_at-IsLast :
      (i : ℕ) (id : String) (ys : List String)
      → IsLast ys
      → p id ≡ false
      → All (λ y. p y ≡ false) (take i ys)
      → IsLast (insert_at i id ys)
  unfolding insert_at
  insert_at-IsLast zero id ys h q k = ((λ w. cc), h)
  insert_at-IsLast (suc i) id [] h q k = ((λ w. tt), tt)
  insert_at-IsLast (suc i) id (y ∷ ys) (l, h) q (r, k) = ((λ w. cc), insert_at-IsLast i id ys h q k)

  pub kept-All :
      (xs : List String)
      → All (λ y. p y ≡ true) xs
      → (filter (λ y. not (p y)) xs ≡ []) × (filter p xs ≡ xs)
  kept-All [] h = (refl, refl)
  kept-All (x ∷ xs) (q, h) =
      let (none_left, all_kept) = kept-All xs h in rw (q, none_left, all_kept) (refl, refl)

  pub parted_of_IsLast :
      (xs : List String) → IsLast xs → filter (λ y. not (p y)) xs ++ filter p xs ≡ xs
  parted_of_IsLast [] h = refl
  parted_of_IsLast (x ∷ xs) (l, h) = elim (Bool-cases (p x)) [
    | inl action ↦
        let (none_left, all_kept) = kept-All xs (l action) in rw (action, none_left, all_kept) refl
    | inr other ↦ rw other (ap (λ s. x ∷ s) (parted_of_IsLast xs h))
  ]

  pub All-IsLast : (ys : List String) → All (λ y. p y ≡ true) ys → IsLast ys
  All-IsLast [] h = tt
  All-IsLast (y ∷ ys) (q, h) = ((λ w. h), All-IsLast ys h)

  pub parted-IsLast :
      (xs ys : List String)
      → All (λ y. not (p y) ≡ true) xs
      → All (λ y. p y ≡ true) ys
      → IsLast (xs ++ ys)
  parted-IsLast [] ys h k = All-IsLast ys k
  parted-IsLast (x ∷ xs) ys (q, h) k = ((λ w. ground arith), parted-IsLast xs ys h k)

  pub IsLast-of_parted :
      (xs : List String) → filter (λ y. not (p y)) xs ++ filter p xs ≡ xs → IsLast xs
  IsLast-of_parted xs h =
      subst IsLast h
        (parted-IsLast _ _ (All-filter_self (λ y. not (p y)) xs) (All-filter_self p xs))

  pub insert_remove-parted :
      (ids : List String) (id o : String) (from to : ℕ)
      → get_elem? ids to ≡ some o
      → p o ≡ false
      → p id ≡ false
      → filter (λ y. not (p y)) ids ++ filter p ids ≡ ids
      → filter (λ y. not (p y)) (insert_at to id (remove_at from ids))
          ++ filter p (insert_at to id (remove_at from ids))
        ≡ insert_at to id (remove_at from ids)
  insert_remove-parted ids id o from to there plain own parted =
      let ordered = IsLast-of_parted ids parted in
      parted_of_IsLast _ (
        insert_at-IsLast to id (remove_at from ids) (remove_at-IsLast from ids ordered) own
          (take-remove_at to from ids (front-IsLast ids to o ordered there plain)))
