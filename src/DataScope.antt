-- ===== src/DataScope.antt =====
-- lib/data-scope.ts: the departments of a role's own data scope, selected with all their
-- subordinates.
pub mod Cascade
use omni_python_web_template.Base.{
  ℕ, zero, suc, ◌+◌, ◌-◌, ◌*◌, ◌/◌, ◌%◌, ◌≤◌, ◌<◌, min, max, String, ◌≡◌, refl, sym, ap, ◌∙◌, subst,
  ◌≢◌, ◌↔◌, ◌⊎◌, inl, inr, Bool, true, false, not, ◌&&◌, ◌||◌, Option, none, some, List, [], ◌∷◌,
  ◌++◌, map, append-nil, append_assoc, map-append, arith, ltb, leb, if◌then◌else◌, Eq, ◌==◌, nat_eq,
  string_eq, Bool-cases, Option-cases, or_true_cases, and_true_parts, beq_refl, beq_sym, length,
  take, drop, get_elem?, filter, find?, any, all, All, length-append, take-append-drop, length-take,
  length-drop, take_of_length_le, length-map, filter-append, length-filter-le, filter-filter,
  All-append, All-filter_self, sum_of, sum_of-append, is_nil, sum_of-map, All-map,
}
use omni_python_web_template.Base.Collections.{
  includes, IsNodup, set_add, set_add_all, set_of, set_delete, set_delete_all, includes-append,
  includes-filter, includes-set_add, includes-set_add_all, includes-set_delete,
  includes-set_delete_all, IsNodup-append_one, set_add-IsNodup, set_add_all-IsNodup, filter-IsNodup,
  lookup, insert, remove, keys, lookup-insert, lookup-remove, includes-keys-insert,
  keys-insert_of_includes, lookup_cases, keys-insert, lookup_absent, map_ext, All-of_includes,
  All-includes, filter_of_All, set_add_all_of_All,
}

pub record DeptFields : Type 0 where
  pub id : ℕ
  pub parent_id : ℕ
  pub name : String
  pub sort_order : ℕ
  pub enabled : Bool

-- A department without `children` has none.
mutual
  pub data DeptRecord : Type 0 where
    dept : DeptFields → Depts → DeptRecord

  pub data Depts : Type 0 where
    no_depts : Depts
    more : DeptRecord → Depts → Depts

abbrev pub dept_id_of : DeptRecord → ℕ
dept_id_of (dept f children) = f.id

pub data ScopeType : Type 0 where
  scope_dept scope_user : ScopeType

pub record RoleDataScopeItem : Type 0 where
  pub scope_type : ScopeType
  pub scope_id : ℕ

abbrev pub is_dept_scope : ScopeType → Bool
is_dept_scope scope_dept = true
is_dept_scope scope_user = false

unfoldable pub dept_ids_from_scopes : List RoleDataScopeItem → List ℕ
dept_ids_from_scopes scopes =
    set_of (map (λ s. s.scope_id) (filter (λ s. is_dept_scope s.scope_type) scopes))

unfoldable pub custom_scopes_from_dept_ids : List ℕ → List RoleDataScopeItem
custom_scopes_from_dept_ids ids = map (λ id. record { scope_type = scope_dept; scope_id = id }) ids

-- Whether the selection is refused: an own scope (4) with no department.
unfoldable pub is_scope_refused : ℕ → List ℕ → Bool
is_scope_refused data_scope selected = data_scope == 4 && is_nil selected

unfoldable mutual
  pub collect_subtree_ids : DeptRecord → List ℕ
  collect_subtree_ids (dept f children) = f.id ∷ collect_ids children

  -- the loop over the children
  pub collect_ids : Depts → List ℕ
  collect_ids no_depts = []
  collect_ids (more d ds) = collect_subtree_ids d ++ collect_ids ds

-- `walk` of `buildDeptSubtreeIdMap`, from the map so far.
unfoldable mutual
  pub put_subtrees : Depts → List (ℕ × List ℕ) → List (ℕ × List ℕ)
  put_subtrees no_depts m = m
  put_subtrees (more d ds) m = put_subtrees ds (put_subtree d m)

  pub put_subtree : DeptRecord → List (ℕ × List ℕ) → List (ℕ × List ℕ)
  put_subtree (dept f children) m =
      put_subtrees children (insert f.id (collect_subtree_ids (dept f children)) m)

unfoldable pub build_dept_subtree_id_map : Depts → List (ℕ × List ℕ)
build_dept_subtree_id_map tree = put_subtrees tree []

abbrev pub or_own_id : ℕ → Option (List ℕ) → List ℕ
or_own_id id none = id ∷ []
or_own_id id (some ids) = ids

-- The departments that a toggle of one changes.
unfoldable pub cascade_ids : ℕ → Depts → List ℕ
cascade_ids dept_id tree = or_own_id dept_id (lookup dept_id (build_dept_subtree_id_map tree))

unfoldable pub toggle_dept_scope_cascade : List ℕ → ℕ → Bool → Depts → List ℕ
toggle_dept_scope_cascade selected dept_id is_checked tree =
    if is_checked
    then set_add_all (set_of selected) (cascade_ids dept_id tree)
    else set_delete_all (set_of selected) (cascade_ids dept_id tree)
