-- ===== src/Permissions/Laws/Above.antt =====
-- lib/permissions.ts: the codes above a code and the codes that its node brings, told on the tree
-- itself, without the chains, the lists and the map that `expandPermissionCodes` builds.
use omni_python_web_template.Base.{
  String, ◌≡◌, refl, ap, ◌∙◌, inl, inr, Bool, true, false, not, ◌&&◌, ◌||◌, Option, none, some,
  List, [], ◌∷◌, ◌++◌, map, arith, if◌then◌else◌, ◌==◌, nat_eq, string_eq, Bool-cases, beq_sym,
  map-append, filter,
}
use omni_python_web_template.Base.Collections.{
  includes, includes-append, includes-filter, lookup, insert, lookup-insert,
}
use omni_python_web_template.Permissions.{
  PermissionInfo, permission, Nodes, no_nodes, node, code_of, fields_of, flatten_permission_tree,
  flatten_node,
}
use omni_python_web_template.Permissions.Selection.{insert_all}
use omni_python_web_template.Permissions.Expand.{
  chain_in, chain_of, find_ancestor_codes, node_map, codes_of_node,
}

-- Whether a node has the code, or one below it.
mutual
  pub has_code : String → PermissionInfo → Bool
  has_code c (permission f children) = c == f.code || has_code_in c children

  pub has_code_in : String → Nodes → Bool
  has_code_in c no_nodes = false
  has_code_in c (node n ns) = has_code c n || has_code_in c ns

-- Whether a node of code `c` is above the first node of code `target`, from top to bottom.
mutual
  pub is_above : String → String → PermissionInfo → Bool
  is_above c target (permission f children) =
      not (f.code == target) && (c == f.code || is_above_in c target children)

  pub is_above_in : String → String → Nodes → Bool
  is_above_in c target no_nodes = false
  is_above_in c target (node n ns) =
      let rest = is_above_in c target ns in if has_code target n then is_above c target n else rest

abbrev pub or_node : Option PermissionInfo → Option PermissionInfo → Option PermissionInfo
or_node (some later) before = some later
or_node none before = before

-- The node of a code, where several have it the last one from top to bottom.
mutual
  pub find_node_in : String → Nodes → Option PermissionInfo
  find_node_in k no_nodes = none
  find_node_in k (node n ns) = or_node (find_node_in k ns) (find_node k n)

  pub find_node : String → PermissionInfo → Option PermissionInfo
  find_node k (permission f children) =
      or_node (find_node_in k children) (if f.code == k then some (permission f children) else none)

-- Whether a node brings a code with it: it has the code in it, or among its own interfaces.
abbrev pub brings : String → Option PermissionInfo → Bool
brings c none = false
brings c (some n) = has_code c n || includes c (fields_of n).api_codes

-- Whether a selected code brings another one with it into what is saved: the code itself, a code above
-- its first node, or what its node brings.
abbrev pub carried : Nodes → String → String → Bool
carried tree code c =
    c == code
    || (has_code_in code tree && is_above_in c code tree || brings c (find_node_in code tree))

mutual
  unfolding flatten_permission_tree has_code

  includes-flatten_permission_tree :
      (c : String) (tree : Nodes)
      → includes c (map code_of (flatten_permission_tree tree)) ≡ has_code_in c tree
  includes-flatten_permission_tree c no_nodes = refl
  includes-flatten_permission_tree c (node n ns) =
      ap (λ xs. includes c xs) (map-append code_of (flatten_node n) (flatten_permission_tree ns))
      ∙ includes-append c (map code_of (flatten_node n)) (map code_of (flatten_permission_tree ns))
      ∙ rw (includes-flatten_node c n, includes-flatten_permission_tree c ns) refl

  includes-flatten_node :
      (c : String) (n : PermissionInfo) → includes c (map code_of (flatten_node n)) ≡ has_code c n
  includes-flatten_node c (permission f children) =
      ground (arith, includes-flatten_permission_tree c children)

-- An entry of the map of the nodes after some of them, by the entry before
after-insert_all :
    (k : String) (m : List (String × PermissionInfo)) (xs ys : List (String × PermissionInfo))
    → insert_all m (xs ++ ys) ≡ insert_all (insert_all m xs) ys
unfolding insert_all
after-insert_all k m [] ys = refl
after-insert_all k m ((c, n) ∷ xs) ys = after-insert_all k (insert c n m) xs ys

abbrev entries : List PermissionInfo → List (String × PermissionInfo)
entries ns = map (λ n. (code_of n, n)) ns

or_node_assoc : (a b c : Option PermissionInfo) → or_node a (or_node b c) ≡ or_node (or_node a b) c
or_node_assoc none b c = refl
or_node_assoc (some n) b c = refl

or_node-if :
    (b : Bool) (n : PermissionInfo) (before : Option PermissionInfo)
    → (if b then some n else before) ≡ or_node (if b then some n else none) before
or_node-if true n before = refl
or_node-if false n before = refl

mutual
  unfolding flatten_permission_tree find_node_in insert_all

  lookup-entries_in :
      (k : String) (tree : Nodes) (m : List (String × PermissionInfo))
      → lookup k (insert_all m (entries (flatten_permission_tree tree)))
        ≡ or_node (find_node_in k tree) (lookup k m)
  lookup-entries_in k no_nodes m = refl
  lookup-entries_in k (node n ns) m =
      let first = insert_all m (entries (flatten_node n)) in
      ap (λ xs. lookup k (insert_all m xs))
        (map-append (λ x. (code_of x, x)) (flatten_node n) (flatten_permission_tree ns))
      ∙ ap (λ x. lookup k x)
          (after-insert_all k m (entries (flatten_node n)) (entries (flatten_permission_tree ns)))
      ∙ lookup-entries_in k ns first
      ∙ ap (λ b. or_node (find_node_in k ns) b) (lookup-entries k n m)
      ∙ or_node_assoc (find_node_in k ns) (find_node k n) (lookup k m)

  lookup-entries :
      (k : String) (n : PermissionInfo) (m : List (String × PermissionInfo))
      → lookup k (insert_all m (entries (flatten_node n))) ≡ or_node (find_node k n) (lookup k m)
  lookup-entries k (permission f children) m =
      let own = if f.code == k then some (permission f children) else none in
      lookup-entries_in k children (insert f.code (permission f children) m)
      ∙ ap (λ b. or_node (find_node_in k children) b)
          (lookup-insert f.code k (permission f children) m
            ∙ or_node-if (f.code == k) (permission f children) (lookup k m))
      ∙ or_node_assoc (find_node_in k children) own (lookup k m)

or_node-none : (o : Option PermissionInfo) → or_node o none ≡ o
or_node-none none = refl
or_node-none (some n) = refl

lookup-node_map : (k : String) (tree : Nodes) → lookup k (node_map tree) ≡ find_node_in k tree
unfolding node_map
lookup-node_map k tree = lookup-entries_in k tree [] ∙ or_node-none (find_node_in k tree)

includes-codes_of_node :
    (c code : String) (o : Option PermissionInfo)
    → (c == code || includes c (codes_of_node code o)) ≡ (c == code || brings c o)
unfolding codes_of_node
includes-codes_of_node c code none = ground arith
includes-codes_of_node c code (some n) = ground (
  arith,
  includes-append c (filter (λ x. not (x == code)) (map code_of (flatten_node n)))
      (fields_of n).api_codes,
  includes-filter (λ x. not (x == code)) c (map code_of (flatten_node n)),
  includes-flatten_node c n,
)

-- What the walk finds, by the chain above it
abbrev chain_codes : String → Option (List String) → Bool
chain_codes c none = false
chain_codes c (some chain) = includes c chain

abbrev is_chain : Option (List String) → Bool
is_chain none = false
is_chain (some chain) = true

abbrev first_of : Option (List String) → Option (List String) → Option (List String)
first_of none rest = rest
first_of (some found) rest = some found

first_of-elim :
    (here rest : Option (List String))
    → (elim here [ none ↦ rest | some found ↦ some found ]) ≡ first_of here rest
first_of-elim none rest = refl
first_of-elim (some found) rest = refl

chain_in-node :
    (target : String) (n : PermissionInfo) (ns : Nodes) (chain : List String)
    → chain_in target (node n ns) chain
      ≡ first_of (chain_of target n chain) (chain_in target ns chain)
unfolding chain_in
chain_in-node target n ns chain = first_of-elim (chain_of target n chain) (chain_in target ns chain)

is_chain-first_of :
    (a b : Option (List String)) → is_chain (first_of a b) ≡ (is_chain a || is_chain b)
is_chain-first_of none b = refl
is_chain-first_of (some found) b = refl

chain_codes-first_of :
    (c : String) (a b : Option (List String))
    → chain_codes c (first_of a b) ≡ (if is_chain a then chain_codes c a else chain_codes c b)
chain_codes-first_of c none b = refl
chain_codes-first_of c (some found) b = refl

mutual
  unfolding chain_in has_code

  is_chain-chain_in :
      (target : String) (tree : Nodes) (chain : List String)
      → is_chain (chain_in target tree chain) ≡ has_code_in target tree
  is_chain-chain_in target no_nodes chain = refl
  is_chain-chain_in target (node n ns) chain =
      ap is_chain (chain_in-node target n ns chain)
      ∙ is_chain-first_of (chain_of target n chain) (chain_in target ns chain)
      ∙ rw (is_chain-chain_of target n chain, is_chain-chain_in target ns chain) refl

  is_chain-chain_of :
      (target : String) (n : PermissionInfo) (chain : List String)
      → is_chain (chain_of target n chain) ≡ has_code target n
  is_chain-chain_of target (permission f children) chain = elim (Bool-cases (f.code == target)) [
    | inl same ↦ rw same (ground (arith, beq_sym f.code target))
    | inr other ↦ rw other (
        is_chain-chain_in target children (chain ++ (f.code ∷ []))
        ∙ ground (arith, beq_sym f.code target))
  ]

mutual
  unfolding chain_in has_code is_above

  codes-chain_in :
      (c target : String) (tree : Nodes) (chain : List String)
      → chain_codes c (chain_in target tree chain)
        ≡ (has_code_in target tree && (includes c chain || is_above_in c target tree))
  codes-chain_in c target no_nodes chain = refl
  codes-chain_in c target (node n ns) chain =
      ap (chain_codes c) (chain_in-node target n ns chain)
      ∙ chain_codes-first_of c (chain_of target n chain) (chain_in target ns chain)
      ∙ rw
          (
            is_chain-chain_of target n chain,
            codes-chain_of c target n chain,
            codes-chain_in c target ns chain,
          )
          (elim (Bool-cases (has_code target n)) [
            | inl here ↦ rw here refl
            | inr other ↦ rw other refl
          ])

  codes-chain_of :
      (c target : String) (n : PermissionInfo) (chain : List String)
      → chain_codes c (chain_of target n chain)
        ≡ (has_code target n && (includes c chain || is_above c target n))
  codes-chain_of c target (permission f children) chain = elim (Bool-cases (f.code == target)) [
    | inl same ↦ rw same (ground (arith, beq_sym f.code target))
    | inr other ↦ rw other (
        codes-chain_in c target children (chain ++ (f.code ∷ []))
        ∙ ground (arith, beq_sym f.code target, includes-append c chain (f.code ∷ [])))
  ]

chain_codes-elim :
    (c : String) (o : Option (List String))
    → includes c (elim o [ none ↦ [] | some chain ↦ chain ]) ≡ chain_codes c o
chain_codes-elim c none = refl
chain_codes-elim c (some chain) = refl

includes-find_ancestor_codes :
    (c target : String) (tree : Nodes)
    → includes c (find_ancestor_codes target tree)
      ≡ (has_code_in target tree && is_above_in c target tree)
unfolding find_ancestor_codes
includes-find_ancestor_codes c target tree =
    chain_codes-elim c (chain_in target tree []) ∙ codes-chain_in c target tree []

pub carried_by_code :
    (tree : Nodes) (code c : String)
    → (c == code
        || (includes c (find_ancestor_codes code tree)
            || includes c (codes_of_node code (lookup code (node_map tree)))))
      ≡ carried tree code c
carried_by_code tree code c =
    rw (includes-find_ancestor_codes c code tree, lookup-node_map code tree)
      (ground (arith, includes-codes_of_node c code (find_node_in code tree)))
