-- ===== src/Base/Collections.antt =====
-- The collections of the language that the program uses: `includes` on an array, `Set` as the list
-- of its elements and `Map` (or a plain object) as the list of its entries, in insertion order.
use mathlib.Core.Path.{◌≡◌, refl, ap, sym, ◌∙◌, subst}
use mathlib.Core.Logic.{◌⊎◌, inl, inr}
use mathlib.Core.Bool.{Bool, true, false, not, ◌&&◌, ◌||◌}
use mathlib.Core.List.{List, [], ◌∷◌, ◌++◌}
use mathlib.Core.Option.{Option, none, some}
use native.Mathlib.Omega.{arith}
use omni_python_web_template.Base.Tests.{Eq, ◌==◌, if◌then◌else◌, beq_sym, Bool-cases, beq_refl}
use omni_python_web_template.Base.Lists.{filter, All}

module _ {ℓ} {A : Type ℓ} ⦃e : Eq A⦄ where
  -- `xs.includes(a)`, also `set.has(a)`
  abbrev pub includes : A → List A → Bool
  includes a [] = false
  includes a (x ∷ xs) = a == x || includes a xs

  -- No element stands twice.
  abbrev pub IsNodup : List A → Type 0
  IsNodup [] = Unit
  IsNodup (x ∷ xs) = (includes x xs ≡ false) × IsNodup xs

  -- `set.add(a)`
  abbrev pub set_add : List A → A → List A
  set_add s a = if includes a s then s else s ++ (a ∷ [])

  -- `for (const x of xs) set.add(x)`, and `new Set(xs)` from the empty set
  abbrev pub set_add_all : List A → List A → List A
  set_add_all s [] = s
  set_add_all s (x ∷ xs) = set_add_all (set_add s x) xs

  abbrev pub set_of : List A → List A
  set_of xs = set_add_all [] xs

  -- `set.delete(a)`
  abbrev pub set_delete : List A → A → List A
  set_delete s a = filter (λ x. not (x == a)) s

  abbrev pub set_delete_all : List A → List A → List A
  set_delete_all s [] = s
  set_delete_all s (x ∷ xs) = set_delete_all (set_delete s x) xs

module _ {ℓ} {A : Type ℓ} ⦃e : Eq A⦄ where
  pub includes-append :
      (a : A) (xs ys : List A) → includes a (xs ++ ys) ≡ (includes a xs || includes a ys)
  includes-append a [] ys = refl
  includes-append a (x ∷ xs) ys = ground (arith, includes-append a xs ys)

  pub includes-filter :
      (p : A → Bool) (a : A) (xs : List A) → includes a (filter p xs) ≡ (includes a xs && p a)
  includes-filter p a [] = refl
  includes-filter p a (x ∷ xs) = elim (Bool-cases (a == x)) [
    | inl same ↦
        let here : a ≡ x = (e.beq_iff a x).0 same in
        ground (arith, includes-filter p a xs, ap p here)
    | inr other ↦ ground (arith, includes-filter p a xs)
  ]

  pub includes-set_add :
      (a : A) (s : List A) (b : A) → includes a (set_add s b) ≡ (a == b || includes a s)
  includes-set_add a s b =
      ground (arith, includes-append a s (b ∷ []), e.beq_iff a b, Bool-cases (includes b s))

  pub includes-set_add_all :
      (a : A) (s xs : List A) → includes a (set_add_all s xs) ≡ (includes a s || includes a xs)
  includes-set_add_all a s [] = ground arith
  includes-set_add_all a s (x ∷ xs) =
      ground (arith, includes-set_add_all a (set_add s x) xs, includes-set_add a s x)

  pub includes-set_delete :
      (a : A) (s : List A) (b : A) → includes a (set_delete s b) ≡ (includes a s && not (a == b))
  includes-set_delete a s b = includes-filter (λ x. not (x == b)) a s

  pub includes-set_delete_all :
      (a : A) (s xs : List A)
      → includes a (set_delete_all s xs) ≡ (includes a s && not (includes a xs))
  includes-set_delete_all a s [] = ground arith
  includes-set_delete_all a s (x ∷ xs) =
      ground (arith, includes-set_delete_all a (set_delete s x) xs, includes-set_delete a s x)

  pub IsNodup-append_one :
      (xs : List A) (a : A) → IsNodup xs → includes a xs ≡ false → IsNodup (xs ++ (a ∷ []))
  IsNodup-append_one [] a h k = (refl, tt)
  IsNodup-append_one (x ∷ xs) a (p, h) k =
      let (apart, rest) = split in
      (ground (arith, includes-append x xs (a ∷ []), beq_sym x a), IsNodup-append_one xs a h rest)
    where
      split : ((a == x) ≡ false) × (includes a xs ≡ false)
      split = ground arith

  pub set_add-IsNodup : (s : List A) (a : A) → IsNodup s → IsNodup (set_add s a)
  set_add-IsNodup s a h = elim (Bool-cases (includes a s)) [
    | inl old ↦ rw old h
    | inr new ↦ rw new (IsNodup-append_one s a h new)
  ]

  pub set_add_all-IsNodup : (s xs : List A) → IsNodup s → IsNodup (set_add_all s xs)
  set_add_all-IsNodup s [] h = h
  set_add_all-IsNodup s (x ∷ xs) h = set_add_all-IsNodup (set_add s x) xs (set_add-IsNodup s x h)

  pub filter-IsNodup : (p : A → Bool) (xs : List A) → IsNodup xs → IsNodup (filter p xs)
  filter-IsNodup p [] h = tt
  filter-IsNodup p (x ∷ xs) (k, h) = ground (arith, filter-IsNodup p xs h, includes-filter p x xs)

-- `Map` and plain objects; a key that is there keeps its place.
module _ {ℓ κ} {K : Type ℓ} ⦃e : Eq K⦄ {V : Type κ} where
  abbrev pub lookup : K → List (K × V) → Option V
  lookup k [] = none
  lookup k ((j, v) ∷ m) = if j == k then some v else lookup k m

  abbrev pub insert : K → V → List (K × V) → List (K × V)
  insert k v [] = (k, v) ∷ []
  insert k v ((j, w) ∷ m) = if j == k then (j, v) ∷ m else (j, w) ∷ insert k v m

  abbrev pub remove : K → List (K × V) → List (K × V)
  remove k [] = []
  remove k ((j, w) ∷ m) = if j == k then remove k m else (j, w) ∷ remove k m

  abbrev pub keys : List (K × V) → List K
  keys [] = []
  keys ((j, v) ∷ m) = j ∷ keys m

module _ {ℓ κ} {K : Type ℓ} ⦃e : Eq K⦄ {V : Type κ} where
  pub lookup-insert :
      (k j : K) (v : V) (m : List (K × V))
      → lookup j (insert k v m) ≡ (if k == j then some v else lookup j m)
  lookup-insert k j v [] = refl
  lookup-insert k j v ((i, w) ∷ m) =
      ground (arith, e.beq_iff k j, e.beq_iff i k, e.beq_iff i j, lookup-insert k j v m)

  pub lookup-remove :
      (k j : K) (m : List (K × V)) → lookup j (remove k m) ≡ (if k == j then none else lookup j m)
  lookup-remove k j [] = ground arith
  lookup-remove k j ((i, w) ∷ m) =
      ground (arith, e.beq_iff k j, e.beq_iff i k, e.beq_iff i j, lookup-remove k j m)

  pub includes-keys-insert :
      (a k : K) (v : V) (m : List (K × V))
      → includes a (keys (insert k v m)) ≡ (a == k || includes a (keys m))
  includes-keys-insert a k v [] = refl
  includes-keys-insert a k v ((j, w) ∷ m) =
      ground (arith, e.beq_iff j k, e.beq_iff a k, e.beq_iff a j, includes-keys-insert a k v m)

  pub keys-insert : (k : K) (v : V) (m : List (K × V)) → keys (insert k v m) ≡ set_add (keys m) k
  keys-insert k v [] = refl
  keys-insert k v ((j, w) ∷ m) = ground (arith, beq_sym k j, keys-insert k v m)

  -- Writing to a key that is there changes no key, nor their order.
  pub keys-insert_of_includes :
      (k : K) (v : V) (m : List (K × V)) → includes k (keys m) ≡ true → keys (insert k v m) ≡ keys m
  keys-insert_of_includes k v ((j, w) ∷ m) h = elim (Bool-cases (j == k)) [
    | inl same ↦ rw same
    | inr other ↦
        rw other (ap (λ r. j ∷ r) (keys-insert_of_includes k v m (ground (arith, beq_sym k j))))
  ]
  keys-insert_of_includes k v [] h = cc

  pub lookup_cases :
      (k : K) (m : List (K × V))
      → ((lookup k m ≡ none) × (includes k (keys m) ≡ false))
        ⊎ ((v : V) × (lookup k m ≡ some v) × (includes k (keys m) ≡ true))
  lookup_cases k [] = inl (refl, refl)
  lookup_cases k ((j, w) ∷ m) = elim (Bool-cases (j == k)) [
    | inl same ↦ inr (w, rw same, ground (arith, beq_sym k j))
    | inr other ↦ elim (lookup_cases k m) [
      | inl (p, q) ↦ inl (rw other p, ground (arith, beq_sym k j))
      | inr (v, p, q) ↦ inr (v, rw other p, ground arith)
    ]
  ]

module _ {ℓ κ} {K : Type ℓ} ⦃e : Eq K⦄ {V : Type κ} where
  pub lookup_absent : (k : K) (m : List (K × V)) → includes k (keys m) ≡ false → lookup k m ≡ none
  lookup_absent k [] h = refl
  lookup_absent k ((j, w) ∷ m) h = ground (arith, beq_sym k j, lookup_absent k m)

  lookup_tail :
      (j k : K) (v w : V) (m n : List (K × V))
      → includes j (keys m) ≡ false
      → includes j (keys n) ≡ false
      → lookup k ((j, v) ∷ m) ≡ lookup k ((j, w) ∷ n)
      → lookup k m ≡ lookup k n
  lookup_tail j k v w m n fresh fresh' h = elim (Bool-cases (j == k)) [
    | inl here ↦
        let same : j ≡ k = (e.beq_iff j k).0 here in
        rw (← same) (lookup_absent j m fresh ∙ sym (lookup_absent j n fresh'))
    | inr there ↦ rw there at h
  ]

  -- Two maps with the same keys in the same order and the same values are the same.
  pub map_ext :
      (m n : List (K × V))
      → keys m ≡ keys n
      → IsNodup (keys m)
      → ((k : K) → lookup k m ≡ lookup k n)
      → m ≡ n
  map_ext [] [] ks h values = refl
  map_ext [] ((i, w) ∷ n) ks h values = cc
  map_ext ((j, v) ∷ m) [] ks h values = cc
  map_ext ((j, v) ∷ m) ((i, w) ∷ n) ks (fresh, h) values =
      let same : j ≡ i = ground arith in
      let rest : keys m ≡ keys n = ground arith in
      let value : v ≡ w = ground (arith, values j, e.beq_iff j j, e.beq_iff i j) in
      let fresh' : includes j (keys n) ≡ false = rw (← rest) fresh in
      λ t.
        (same t, value t)
        ∷ map_ext m n rest h
            (λ k.
              lookup_tail j k v w m n fresh fresh'
                (values k ∙ ap (λ l. lookup k ((l, w) ∷ n)) (sym same)))
            t

-- Reading a property of all elements through `includes`.
module _ {ℓ κ} {A : Type ℓ} ⦃e : Eq A⦄ (P : A → Type κ) where
  pub All-of_includes : (xs : List A) → ((a : A) → includes a xs ≡ true → P a) → All P xs
  All-of_includes [] h = tt
  All-of_includes (x ∷ xs) h =
      (h x (rw (beq_refl x)), All-of_includes xs (λ a k. h a (ground (arith, Bool-cases (a == x)))))

  pub All-includes : (xs : List A) → All P xs → (a : A) → includes a xs ≡ true → P a
  All-includes [] h a k = cc
  All-includes (x ∷ xs) (p, h) a k = elim (Bool-cases (a == x)) [
    | inl same ↦ subst P (sym ((e.beq_iff a x).0 same)) p
    | inr other ↦ All-includes xs h a (rw other at k)
  ]

module _ {ℓ} {A : Type ℓ} ⦃e : Eq A⦄ where
  pub filter_of_All : (p : A → Bool) (xs : List A) → All (λ x. p x ≡ true) xs → filter p xs ≡ xs
  filter_of_All p [] h = refl
  filter_of_All p (x ∷ xs) (q, h) = rw q (ap (λ r. x ∷ r) (filter_of_All p xs h))

  pub set_add_all_of_All :
      (s xs : List A) → All (λ x. includes x s ≡ true) xs → set_add_all s xs ≡ s
  set_add_all_of_All s [] h = refl
  set_add_all_of_All s (x ∷ xs) (q, h) = rw q (set_add_all_of_All s xs h)
