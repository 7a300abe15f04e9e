-- ===== src/TablePreference/Moves/Places.antt =====
-- A column by its place: finding it, taking it out, putting it in (web/src/components/table/table-column-order-moves.ts).
use omni_python_web_template.Base.{
  ℕ, zero, suc, String, ◌≡◌, refl, sym, ap, subst, inl, inr, Option, none, some, List, [], ◌∷◌,
  arith, if◌then◌else◌, ◌==◌, nat_eq, string_eq, Bool-cases, beq_refl, get_elem?,
}
use omni_python_web_template.Base.Collections.{set_delete}
use mathlib.Core.Option
use mathlib.Core.List.{Perm}
use mathlib.Core.List.Perm
use omni_python_web_template.TablePreference.Moves.{index_of, put_at, remove_at, insert_at}

pub index_found :
    (o : Option ℕ) (i : ℕ) → Option.map suc o ≡ some i → (j : ℕ) × (i ≡ suc j) × (o ≡ some j)
index_found none i h = cc
index_found (some j) i h = (j, cc, refl)

pub get_elem?-index_of :
    (id : String) (ids : List String) (i : ℕ) → index_of id ids ≡ some i → get_elem? ids i ≡ some id
unfolding index_of
get_elem?-index_of id [] i h = cc
get_elem?-index_of id (x ∷ xs) i h = elim (Bool-cases (x == id)) [
  | inl same ↦
      let first : ◌≡◌ {A = Option ℕ} (some 0) (some i) =
        subst (λ b. (if b then some 0 else Option.map suc (index_of id xs)) ≡ some i) same h in
      let here : x ≡ id = (string_eq.beq_iff x id).0 same in
      let place : 0 ≡ i = cc in subst (λ j. get_elem? (x ∷ xs) j ≡ some id) place (ap some here)
  | inr other ↦
      let later : Option.map suc (index_of id xs) ≡ some i =
        subst (λ b. (if b then some 0 else Option.map suc (index_of id xs)) ≡ some i) other h in
      let (j, place, found) = index_found (index_of id xs) i later in
      subst (λ k. get_elem? (x ∷ xs) k ≡ some id) (sym place) (get_elem?-index_of id xs j found)
]

-- Swapping neighbours is taking one out and putting it in at the other's place.
pub swapped-backward :
    (i : ℕ) (ids : List String) (id other : String)
    → get_elem? ids i ≡ some other
    → get_elem? ids (suc i) ≡ some id
    → put_at i id (put_at (suc i) other ids) ≡ insert_at i id (remove_at (suc i) ids)
unfolding put_at remove_at insert_at
swapped-backward zero [] id other h k = cc
swapped-backward zero (x ∷ []) id other h k = cc
swapped-backward zero (x ∷ y ∷ r) id other h k = let same : other ≡ x = cc in rw same refl
swapped-backward (suc i) [] id other h k = cc
swapped-backward (suc i) (x ∷ r) id other h k = ap (λ s. x ∷ s) (swapped-backward i r id other h k)

pub swapped-forward :
    (i : ℕ) (ids : List String) (id other : String)
    → get_elem? ids i ≡ some id
    → get_elem? ids (suc i) ≡ some other
    → put_at (suc i) id (put_at i other ids) ≡ insert_at (suc i) id (remove_at i ids)
unfolding put_at remove_at insert_at
swapped-forward zero [] id other h k = cc
swapped-forward zero (x ∷ []) id other h k = cc
swapped-forward zero (x ∷ y ∷ r) id other h k = let same : other ≡ y = cc in rw same refl
swapped-forward (suc i) [] id other h k = cc
swapped-forward (suc i) (x ∷ r) id other h k = ap (λ s. x ∷ s) (swapped-forward i r id other h k)

pub insert_at-perm : (i : ℕ) (x : String) (ys : List String) → Perm (insert_at i x ys) (x ∷ ys)
unfolding insert_at
insert_at-perm zero x ys = Perm.rfl
insert_at-perm (suc i) x [] = Perm.rfl
insert_at-perm (suc i) x (y ∷ ys) =
    Perm.trans (Perm.cons y (insert_at-perm i x ys)) (Perm.swap x y ys)

pub remove_at-perm :
    (i : ℕ) (x : String) (ys : List String) → get_elem? ys i ≡ some x → Perm (x ∷ remove_at i ys) ys
unfolding remove_at
remove_at-perm i x [] h = cc
remove_at-perm zero x (y ∷ ys) h = let same : x ≡ y = cc in rw same Perm.rfl
remove_at-perm (suc i) x (y ∷ ys) h =
    Perm.trans (Perm.swap y x (remove_at i ys)) (Perm.cons y (remove_at-perm i x ys h))

pub set_delete-insert_at :
    (i : ℕ) (x : String) (ys : List String) → set_delete (insert_at i x ys) x ≡ set_delete ys x
unfolding insert_at
set_delete-insert_at zero x ys = rw (beq_refl x) refl
set_delete-insert_at (suc i) x [] = rw (beq_refl x) refl
set_delete-insert_at (suc i) x (y ∷ ys) = ground (arith, set_delete-insert_at i x ys)

pub set_delete-remove_at :
    (i : ℕ) (x : String) (ys : List String)
    → get_elem? ys i ≡ some x
    → set_delete (remove_at i ys) x ≡ set_delete ys x
unfolding remove_at
set_delete-remove_at i x [] h = cc
set_delete-remove_at zero x (y ∷ ys) h = let same : y ≡ x = cc in rw (same, beq_refl x) refl
set_delete-remove_at (suc i) x (y ∷ ys) h = ground (arith, set_delete-remove_at i x ys h)
