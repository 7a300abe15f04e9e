-- ===== src/TablePreference/Moves/Drag/Kept.antt =====
-- Moving an element keeps the elements, and normalizing an order again changes nothing
-- (web/src/components/table/use-table-column-drag-reorder.ts).
use omni_python_web_template.Base.{
  ℕ, zero, suc, String, ◌≡◌, refl, subst, inl, inr, true, false, not, ◌||◌, List, [], ◌∷◌, ◌++◌,
  arith, ◌==◌, nat_eq, string_eq, Bool-cases, beq_sym, filter, All-filter_self,
}
use omni_python_web_template.Base.Collections.{includes, IsNodup, set_delete}
use mathlib.Core.List.Perm
use mathlib.Core.List.{Perm}
use omni_python_web_template.Base.Sort.{partition-perm}
use omni_python_web_template.TablePreference.Columns.{normalize_column_order_ids}
use omni_python_web_template.TablePreference.Moves.{insert_at}
use omni_python_web_template.TablePreference.Moves.Last.{parted-IsLast, parted_of_IsLast}

-- Taking out the one element and putting it in front keeps the elements.
pub set_delete-perm :
    (x : String) (ys : List String)
    → IsNodup ys
    → includes x ys ≡ true
    → Perm (x ∷ set_delete ys x) ys
set_delete-perm x [] h k = cc
set_delete-perm x (y ∷ ys) (apart, h) k = elim (Bool-cases (y == x)) [
  | inl same ↦
      let here : y ≡ x = (string_eq.beq_iff y x).0 same in
      let rest : set_delete ys x ≡ ys =
        set_delete_absent x ys (subst (λ z. includes z ys ≡ false) here apart) in
      rw (same, rest, here) Perm.rfl
  | inr other ↦
      let later : includes x ys ≡ true = ground (arith, beq_sym x y) in
      rw other
        (Perm.trans (Perm.swap y x (set_delete ys x)) (Perm.cons y (set_delete-perm x ys h later)))
]
  where
    set_delete_absent :
        (z : String) (zs : List String) → includes z zs ≡ false → set_delete zs z ≡ zs
    set_delete_absent z [] e = refl
    set_delete_absent z (w ∷ zs) e = ground (arith, beq_sym z w, set_delete_absent z zs)

pub includes-insert_at :
    (a : String) (i : ℕ) (x : String) (ys : List String)
    → includes a (insert_at i x ys) ≡ (a == x || includes a ys)
unfolding insert_at
includes-insert_at a zero x ys = refl
includes-insert_at a (suc i) x [] = refl
includes-insert_at a (suc i) x (y ∷ ys) = ground (arith, includes-insert_at a i x ys)

pub insert_at-IsNodup :
    (i : ℕ) (x : String) (ys : List String)
    → includes x ys ≡ false
    → IsNodup ys
    → IsNodup (insert_at i x ys)
unfolding insert_at
insert_at-IsNodup zero x ys k h = (k, h)
insert_at-IsNodup (suc i) x [] k h = (refl, tt)
insert_at-IsNodup (suc i) x (y ∷ ys) k (apart, h) =
    ground (arith, includes-insert_at y i x ys, beq_sym x y, insert_at-IsNodup i x ys)

-- Normalizing keeps the columns and puts the action columns last.
pub normalize-perm :
    (ids action_ids : List String) → Perm (normalize_column_order_ids ids action_ids) ids
unfolding normalize_column_order_ids
normalize-perm ids [] = Perm.rfl
normalize-perm ids (a ∷ action_ids) = partition-perm (λ id. includes id (a ∷ action_ids)) ids

pub normalize_idempotent :
    (ids action_ids : List String)
    → normalize_column_order_ids (normalize_column_order_ids ids action_ids) action_ids
      ≡ normalize_column_order_ids ids action_ids
unfolding normalize_column_order_ids
normalize_idempotent ids [] = refl
normalize_idempotent ids (a ∷ action_ids) =
    let p = λ (id : String). includes id (a ∷ action_ids) in
    parted_of_IsLast p (filter (λ id. not (p id)) ids ++ filter p ids) (
      parted-IsLast p (filter (λ id. not (p id)) ids) (filter p ids)
        (All-filter_self (λ id. not (p id)) ids) (All-filter_self p ids))
