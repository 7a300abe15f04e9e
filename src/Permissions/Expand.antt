-- ===== src/Permissions/Expand.antt =====
-- lib/permissions.ts: the codes that a saved selection carries with it.
use omni_python_web_template.Base.{
  ℕ, String, Bool, not, Option, none, some, List, [], ◌∷◌, ◌++◌, map, ltb, if◌then◌else◌, ◌==◌,
  nat_eq, string_eq, filter,
}
use omni_python_web_template.Base.Collections.{set_add, set_add_all, lookup}
use omni_python_web_template.Base.Sort.{sort_by}
use omni_python_web_template.Permissions.{
  PermissionInfo, permission, Nodes, no_nodes, node, code_of, fields_of, flatten_permission_tree,
  flatten_node,
}
use omni_python_web_template.Permissions.Selection.{insert_all}

-- `walk` of `findAncestorCodes`: the chain above the first node with the code.
unfoldable mutual
  pub chain_in : String → Nodes → List String → Option (List String)
  chain_in target no_nodes chain = none
  chain_in target (node n ns) chain =
      let rest = chain_in target ns chain in
      let here = chain_of target n chain in elim here [ none ↦ rest | some found ↦ some found ]

  pub chain_of : String → PermissionInfo → List String → Option (List String)
  chain_of target (permission f children) chain =
      let below = chain_in target children (chain ++ (f.code ∷ [])) in
      if f.code == target then some chain else below

unfoldable pub find_ancestor_codes : String → Nodes → List String
find_ancestor_codes target tree = elim (chain_in target tree []) [ none ↦ [] | some chain ↦ chain ]

unfoldable pub node_map : Nodes → List (String × PermissionInfo)
node_map tree = insert_all [] (map (λ n. (code_of n, n)) (flatten_permission_tree tree))

-- What a node adds: the other codes of its subtree, then its interfaces.
unfoldable pub codes_of_node : String → Option PermissionInfo → List String
codes_of_node code none = []
codes_of_node code (some n) =
    filter (λ c. not (c == code)) (map code_of (flatten_node n)) ++ (fields_of n).api_codes

-- The loop of `expandPermissionCodes`, from the codes already in the result.
unfoldable pub add_expanded : Nodes → List String → List String → List String
add_expanded tree result [] = result
add_expanded tree result (code ∷ codes) =
    let with_ancestors = set_add_all (set_add result code) (find_ancestor_codes code tree) in
    add_expanded tree
      (set_add_all with_ancestors (codes_of_node code (lookup code (node_map tree)))) codes

-- `code_le` is the order of `sort()` on strings.
unfoldable pub expand_permission_codes :
    (code_le : String → String → Bool) → List String → Nodes → List String
expand_permission_codes code_le codes tree = sort_by code_le (add_expanded tree [] codes)

abbrev pub order_of : Option ℕ → ℕ
order_of none = 0
order_of (some n) = n

-- `sortByOrder`, on the order and the code of an item; a missing order counts as 0.
module _ (locale_le : String → String → Bool) where
  unfoldable pub order_le : PermissionInfo → PermissionInfo → Bool
  order_le a b =
      let x = order_of (fields_of a).sort_order in
      let y = order_of (fields_of b).sort_order in
      if x == y then locale_le (code_of a) (code_of b) else ltb x y

  unfoldable pub sort_by_order : List PermissionInfo → List PermissionInfo
  sort_by_order items = sort_by order_le items
