-- ===== src/DataScope/Cascade.antt =====
-- lib/data-scope.ts: what a toggle selects, and the round trip of the selected departments.
use omni_python_web_template.Base.{
  ℕ, ◌≡◌, refl, ap, ◌∙◌, inl, inr, Bool, true, false, some, List, [], ◌∷◌, map, arith, ◌||◌, none,
  Option, if◌then◌else◌, ◌==◌, nat_eq, string_eq, Bool-cases, beq_sym, filter,
}
use omni_python_web_template.Base.Collections.{
  includes, includes-append, set_of, includes-set_add_all, includes-set_delete_all, lookup, insert,
  lookup-insert,
}
use omni_python_web_template.DataScope.{
  DeptRecord, dept, Depts, no_depts, more, RoleDataScopeItem, scope_dept, is_dept_scope,
  collect_ids, dept_ids_from_scopes, custom_scopes_from_dept_ids, collect_subtree_ids, put_subtrees,
  put_subtree, build_dept_subtree_id_map, cascade_ids, toggle_dept_scope_cascade,
}
use omni_python_web_template.DataScope.{or_own_id}

-- Whether a department is, or has below it, one with the id.
mutual
  pub has_id : ℕ → DeptRecord → Bool
  has_id i (dept f children) = i == f.id || has_id_in i children

  pub has_id_in : ℕ → Depts → Bool
  has_id_in i no_depts = false
  has_id_in i (more d ds) = has_id i d || has_id_in i ds

abbrev pub or_before : Option DeptRecord → Option DeptRecord → Option DeptRecord
or_before (some later) before = some later
or_before none before = before

-- The department with the id, where several have it the last one from top to bottom.
mutual
  pub find_dept_in : ℕ → Depts → Option DeptRecord
  find_dept_in k no_depts = none
  find_dept_in k (more d ds) = or_before (find_dept_in k ds) (find_dept k d)

  pub find_dept : ℕ → DeptRecord → Option DeptRecord
  find_dept k (dept f children) =
      or_before (find_dept_in k children) (if f.id == k then some (dept f children) else none)

-- Whether the department `i` is the department `dept_id` or below it.
abbrev pub is_inside : ℕ → Option DeptRecord → Bool
is_inside i none = false
is_inside i (some d) = has_id i d

mutual
  unfolding collect_subtree_ids has_id

  includes-collect_subtree_ids :
      (i : ℕ) (d : DeptRecord) → includes i (collect_subtree_ids d) ≡ has_id i d
  includes-collect_subtree_ids i (dept f children) = ground (arith, includes-collect_ids i children)

  includes-collect_ids : (i : ℕ) (ds : Depts) → includes i (collect_ids ds) ≡ has_id_in i ds
  includes-collect_ids i no_depts = refl
  includes-collect_ids i (more d ds) =
      includes-append i (collect_subtree_ids d) (collect_ids ds)
      ∙ rw (includes-collect_subtree_ids i d, includes-collect_ids i ds) refl

-- An entry of the map after the departments, by the entry before
abbrev entry_after : Option DeptRecord → Option (List ℕ) → Option (List ℕ)
entry_after none before = before
entry_after (some d) before = some (collect_subtree_ids d)

entry_after-or_before :
    (later d : Option DeptRecord) (before : Option (List ℕ))
    → entry_after later (entry_after d before) ≡ entry_after (or_before later d) before
entry_after-or_before none d before = refl
entry_after-or_before (some l) d before = refl

entry_after-if :
    (b : Bool) (d : DeptRecord) (before : Option (List ℕ))
    → (if b then some (collect_subtree_ids d) else before)
      ≡ entry_after (if b then some d else none) before
entry_after-if true d before = refl
entry_after-if false d before = refl

mutual
  unfolding put_subtrees find_dept_in

  lookup-put_subtrees :
      (k : ℕ) (ds : Depts) (m : List (ℕ × List ℕ))
      → lookup k (put_subtrees ds m) ≡ entry_after (find_dept_in k ds) (lookup k m)
  lookup-put_subtrees k no_depts m = refl
  lookup-put_subtrees k (more d ds) m =
      lookup-put_subtrees k ds (put_subtree d m)
      ∙ ap (λ b. entry_after (find_dept_in k ds) b) (lookup-put_subtree k d m)
      ∙ entry_after-or_before (find_dept_in k ds) (find_dept k d) (lookup k m)

  lookup-put_subtree :
      (k : ℕ) (d : DeptRecord) (m : List (ℕ × List ℕ))
      → lookup k (put_subtree d m) ≡ entry_after (find_dept k d) (lookup k m)
  lookup-put_subtree k (dept f children) m =
      let own = if f.id == k then some (dept f children) else none in
      lookup-put_subtrees k children (insert f.id (collect_subtree_ids (dept f children)) m)
      ∙ ap (λ b. entry_after (find_dept_in k children) b)
          (lookup-insert f.id k (collect_subtree_ids (dept f children)) m
            ∙ entry_after-if (f.id == k) (dept f children) (lookup k m))
      ∙ entry_after-or_before (find_dept_in k children) own (lookup k m)

-- A department that is found has the id that was looked for.
abbrev is_found : Option DeptRecord → Bool
is_found none = false
is_found (some d) = true

own-or_before :
    (k : ℕ) (later before : Option DeptRecord)
    → is_inside k later ≡ is_found later
    → is_inside k before ≡ is_found before
    → is_inside k (or_before later before) ≡ is_found (or_before later before)
own-or_before k none before h l = l
own-or_before k (some d) before h l = h

mutual
  unfolding find_dept_in has_id

  own-find_dept_in :
      (k : ℕ) (ds : Depts) → is_inside k (find_dept_in k ds) ≡ is_found (find_dept_in k ds)
  own-find_dept_in k no_depts = refl
  own-find_dept_in k (more d ds) =
      own-or_before k (find_dept_in k ds) (find_dept k d) (own-find_dept_in k ds)
        (own-find_dept k d)

  own-find_dept : (k : ℕ) (d : DeptRecord) → is_inside k (find_dept k d) ≡ is_found (find_dept k d)
  own-find_dept k (dept f children) =
      own-or_before k (find_dept_in k children) (if f.id == k then some (dept f children) else none)
        (own-find_dept_in k children)
        (elim (Bool-cases (f.id == k)) [
          | inl same ↦ rw same (ground (arith, beq_sym f.id k))
          | inr other ↦ rw other refl
        ])

includes-entry :
    (i k : ℕ) (o : Option DeptRecord)
    → is_inside k o ≡ is_found o
    → includes i (or_own_id k (entry_after o none)) ≡ (i == k || is_inside i o)
includes-entry i k none h = ground arith
includes-entry i k (some d) h = elim (Bool-cases (i == k)) [
  | inl same ↦
      let here : i ≡ k = (nat_eq.beq_iff i k).0 same in
      rw (same) (includes-collect_subtree_ids i d ∙ rw here h)
  | inr other ↦ rw other (includes-collect_subtree_ids i d)
]

includes-cascade_ids :
    (i dept_id : ℕ) (tree : Depts)
    → includes i (cascade_ids dept_id tree)
      ≡ (i == dept_id || is_inside i (find_dept_in dept_id tree))
unfolding cascade_ids build_dept_subtree_id_map
includes-cascade_ids i dept_id tree =
    ap (λ e. includes i (or_own_id dept_id e)) (lookup-put_subtrees dept_id tree [])
    ∙ includes-entry i dept_id (find_dept_in dept_id tree) (own-find_dept_in dept_id tree)

toggle_cases :
    (selected : List ℕ) (dept_id : ℕ) (is_checked : Bool) (tree : Depts) (i : ℕ)
    → includes i (toggle_dept_scope_cascade selected dept_id is_checked tree)
      ≡ (if includes i (cascade_ids dept_id tree) then is_checked else includes i selected)
unfolding toggle_dept_scope_cascade
toggle_cases selected dept_id true tree i = ground (
  arith,
  includes-set_add_all i (set_of selected) (cascade_ids dept_id tree),
  includes-set_add_all i [] selected,
)
toggle_cases selected dept_id false tree i = ground (
  arith,
  includes-set_delete_all i (set_of selected) (cascade_ids dept_id tree),
  includes-set_add_all i [] selected,
)

-- Toggling a department sets its own check and that of every department below it in the tree, however
-- deep, and leaves every other department as it was. Where several departments have its id, those
-- below the last one of them count.
pub toggle_dept_scope_cascade_lem :
    (selected : List ℕ) (dept_id : ℕ) (is_checked : Bool) (tree : Depts) (i : ℕ)
    → includes i (toggle_dept_scope_cascade selected dept_id is_checked tree) ≡ (
        if i == dept_id || is_inside i (find_dept_in dept_id tree)
        then is_checked
        else includes i selected)
toggle_dept_scope_cascade_lem selected dept_id is_checked tree i =
    toggle_cases selected dept_id is_checked tree i ∙ rw (includes-cascade_ids i dept_id tree) refl

-- The departments saved for a selection are the departments read back, as a set.
pub dept_ids-custom_scopes :
    (ids : List ℕ) → dept_ids_from_scopes (custom_scopes_from_dept_ids ids) ≡ set_of ids
unfolding dept_ids_from_scopes custom_scopes_from_dept_ids
dept_ids-custom_scopes ids = ap set_of (read ids)
  where
    read :
        (xs : List ℕ)
        → map
            (λ (s : RoleDataScopeItem). s.scope_id)
            (filter
              (λ s. is_dept_scope s.scope_type)
              (map (λ id. record { scope_type = scope_dept; scope_id = id }) xs))
          ≡ xs
    read [] = refl
    read (x ∷ xs) = ap (λ r. x ∷ r) (read xs)
