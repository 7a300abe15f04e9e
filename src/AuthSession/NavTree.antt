-- ===== src/AuthSession/NavTree.antt =====
-- lib/nav-tree-cache.ts: the navigation tree in display order, the comparison of two trees, and the
-- choice between the stored tree and the device's.
use omni_python_web_template.Base.{
  ℕ, String, Bool, true, false, not, ◌&&◌, ◌||◌, Option, none, some, List, [], ◌∷◌, if◌then◌else◌,
  ◌==◌, nat_eq, string_eq,
}
use omni_python_web_template.Permissions.{
  PermissionFields, PermissionInfo, permission, Nodes, no_nodes, node,
}
use omni_python_web_template.Permissions.Expand.{sort_by_order, order_of}
use omni_python_web_template.AuthSession.{CachedNavTree}

abbrev pub nodes_of : List PermissionInfo → Nodes
nodes_of [] = no_nodes
nodes_of (n ∷ ns) = node n (nodes_of ns)

abbrev pub is_empty_tree : Nodes → Bool
is_empty_tree no_nodes = true
is_empty_tree (node n ns) = false

-- `isPermissionInfo` and `isCachedNavTree` tell a stored value from another; a model's value has its
-- type already. The order of `readDeviceNavTree` is kept: the user, then the tenant.
abbrev pub same_tenant : Option ℕ → Option ℕ → Bool
same_tenant none none = true
same_tenant none (some n) = false
same_tenant (some m) none = false
same_tenant (some m) (some n) = m == n

unfoldable pub read_device_nav_tree : Option CachedNavTree → ℕ → Option ℕ → Option Nodes
read_device_nav_tree none user_id tenant_id = none
read_device_nav_tree (some cached) user_id tenant_id =
    if not (cached.user_id == user_id) || not (same_tenant cached.tenant_id tenant_id)
    then none
    else some cached.nav_tree

abbrev pub same_text : Option String → Option String → Bool
same_text none none = true
same_text none (some s) = false
same_text (some s) none = false
same_text (some s) (some t) = s == t

abbrev pub same_fields : PermissionFields → PermissionFields → Bool
same_fields f g =
    f.code == g.code
    && (f.name == g.name
        && (f.kind == g.kind
            && (order_of f.sort_order == order_of g.sort_order
                && (same_text f.route_path g.route_path
                    && same_text f.component_key g.component_key))))

-- The comparison of two trees in display order; two of their JSON texts agree exactly if these do.
unfoldable mutual
  pub same_nodes : Nodes → Nodes → Bool
  same_nodes no_nodes no_nodes = true
  same_nodes no_nodes (node m ms) = false
  same_nodes (node n ns) no_nodes = false
  same_nodes (node n ns) (node m ms) = same_node n m && same_nodes ns ms

  pub same_node : PermissionInfo → PermissionInfo → Bool
  same_node (permission f children) (permission g others) =
      same_fields f g && same_nodes children others

module _ (locale_le : String → String → Bool) where
  -- The order of a level does not depend on the children, which are ordered first here.
  unfoldable mutual
    pub with_sorted_children : Nodes → List PermissionInfo
    with_sorted_children no_nodes = []
    with_sorted_children (node n ns) = with_sorted_node n ∷ with_sorted_children ns

    pub with_sorted_node : PermissionInfo → PermissionInfo
    with_sorted_node (permission f children) =
        permission f (nodes_of (sort_by_order locale_le (with_sorted_children children)))

  unfoldable pub sort_nav_tree_by_order : Nodes → Nodes
  sort_nav_tree_by_order tree = nodes_of (sort_by_order locale_le (with_sorted_children tree))

  unfoldable pub normalize_nav_tree : Nodes → Nodes
  normalize_nav_tree tree = sort_nav_tree_by_order tree

  unfoldable pub nav_trees_equal : Nodes → Nodes → Bool
  nav_trees_equal a b = same_nodes (sort_nav_tree_by_order a) (sort_nav_tree_by_order b)

  abbrev pub normalize_found : Option Nodes → Nodes
  normalize_found none = no_nodes
  normalize_found (some tree) = if is_empty_tree tree then no_nodes else normalize_nav_tree tree

  unfoldable pub resolve_hydrated_nav_tree : Option CachedNavTree → ℕ → Option ℕ → Nodes → Nodes
  resolve_hydrated_nav_tree device user_id tenant_id idb_nav_tree =
      let from_idb = normalize_found (some idb_nav_tree) in
      let from_device = normalize_found (read_device_nav_tree device user_id tenant_id) in
      if is_empty_tree from_idb
      then from_device
      else if is_empty_tree from_device
      then from_idb
      else if nav_trees_equal from_idb from_device
      then from_idb
      else from_device
