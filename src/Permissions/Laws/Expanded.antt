-- ===== src/Permissions/Laws/Expanded.antt =====
-- lib/permissions.ts: what `expandPermissionCodes` saves for a selection, and what is read back.
use omni_python_web_template.Base.{
  String, ◌≡◌, refl, ◌∙◌, inl, inr, Bool, true, ◌||◌, List, [], ◌∷◌, map, arith, ◌==◌, nat_eq,
  string_eq, Bool-cases, any,
}
use omni_python_web_template.Base.Collections.{
  includes, set_add, set_add_all, set_of, includes-filter, includes-set_add, includes-set_add_all,
  lookup,
}
use omni_python_web_template.Base.Sort.{includes-sort_by}
use omni_python_web_template.Permissions.{Nodes, code_of, flatten_permission_tree}
use omni_python_web_template.Permissions.Selection.{to_assignable_selection}
use omni_python_web_template.Permissions.Expand.{
  find_ancestor_codes, node_map, codes_of_node, add_expanded, expand_permission_codes,
}
use omni_python_web_template.Permissions.Laws.Above.{carried, carried_by_code}

includes-add_expanded :
    (tree : Nodes) (c : String) (result codes : List String)
    → includes c (add_expanded tree result codes)
      ≡ (includes c result || any (λ code. carried tree code c) codes)
unfolding add_expanded
includes-add_expanded tree c result [] = ground arith
includes-add_expanded tree c result (code ∷ codes) =
    let one = set_add result code in
    let two = set_add_all one (find_ancestor_codes code tree) in
    let three = set_add_all two (codes_of_node code (lookup code (node_map tree))) in
    ground (
      arith,
      includes-add_expanded tree c three codes,
      includes-set_add_all c two (codes_of_node code (lookup code (node_map tree))),
      includes-set_add_all c one (find_ancestor_codes code tree),
      includes-set_add c result code,
      carried_by_code tree code c,
    )

-- A code is saved for a selection exactly if, for some selected code, it is that code, the code of a
-- node above the first node of that code, a code of that code's node or below it, or one of the
-- node's interfaces; where several nodes have the code, its node is the last one.
pub includes-expand_permission_codes :
    (code_le : String → String → Bool) (codes : List String) (tree : Nodes) (c : String)
    → includes c (expand_permission_codes code_le codes tree)
      ≡ any (λ code. carried tree code c) codes
unfolding expand_permission_codes
includes-expand_permission_codes code_le codes tree c =
    includes-sort_by code_le c (add_expanded tree [] codes) ∙ includes-add_expanded tree c [] codes

any-includes :
    (tree : Nodes) (codes : List String) (c : String)
    → includes c codes ≡ true
    → any (λ code. carried tree code c) codes ≡ true
any-includes tree [] c h = ground arith
any-includes tree (code ∷ codes) c h = elim (Bool-cases (c == code)) [
  | inl e ↦ rw e refl
  | inr e ↦ ground (arith, any-includes tree codes c)
]

-- Reading a saved selection back keeps each selected code that the tree has.
pub to_assignable-expand :
    (code_le : String → String → Bool) (codes : List String) (tree : Nodes) (c : String)
    → includes c codes ≡ true
    → includes c (map code_of (flatten_permission_tree tree)) ≡ true
    → includes c (to_assignable_selection (expand_permission_codes code_le codes tree) tree) ≡ true
unfolding to_assignable_selection
to_assignable-expand code_le codes tree c selected known =
    let codes_of_tree = map code_of (flatten_permission_tree tree) in
    includes-filter (λ x. includes x (set_of codes_of_tree)) c
      (expand_permission_codes code_le codes tree)
    ∙ ground (
      arith,
      includes-expand_permission_codes code_le codes tree c,
      any-includes tree codes c selected,
      includes-set_add_all c [] codes_of_tree,
    )
