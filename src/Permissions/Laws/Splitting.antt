-- ===== src/Permissions/Laws/Splitting.antt =====
-- lib/permissions.ts: splitting a saved selection into menus and buttons, and putting it together.
use omni_python_web_template.Base.{
  String, ◌≡◌, refl, ap, ◌∙◌, Bool, true, false, ◌&&◌, ◌||◌, Option, none, some, List, [], ◌++◌,
  arith, ◌==◌, nat_eq, string_eq,
}
use omni_python_web_template.Base.Collections.{
  includes, set_of, includes-append, includes-filter, includes-set_add_all, lookup,
}
use omni_python_web_template.Permissions.{Nodes}
use omni_python_web_template.Permissions.Selection.{
  is_kind, kind_by_code, split_menu_button_selection, merge_menu_button_selection,
}

abbrev pub has_kind : Nodes → String → String → Bool
has_kind tree kind c = is_kind kind (lookup c (kind_by_code tree))

kinds_apart : (k : Option String) → is_kind "menu" k ≡ true → is_kind "button" k ≡ false
kinds_apart none h = refl
kinds_apart (some k) h = ap (λ s. s == "button") ((string_eq.beq_iff k "menu").0 h)

chosen :
    (mine other kind other_kind merged : Bool)
    → merged ≡ (mine || other)
    → (mine ≡ true → kind ≡ true)
    → (other ≡ true → other_kind ≡ true)
    → (kind ≡ true → other_kind ≡ false)
    → (merged && kind) ≡ mine
chosen true other kind other_kind merged e f g h = ground arith
chosen false true kind other_kind merged e f g h = ground arith
chosen false false kind other_kind merged e f g h = ground arith

-- A selection that is put together and split again gives its menus and its buttons back, as sets,
-- if each selected menu is a menu of the tree and each selected button a button.
pub split-merge :
    (tree : Nodes) (menus buttons : List String)
    → ((c : String) → includes c menus ≡ true → has_kind tree "menu" c ≡ true)
    → ((c : String) → includes c buttons ≡ true → has_kind tree "button" c ≡ true)
    → (c : String)
    → (let (menus', buttons') =
          split_menu_button_selection (merge_menu_button_selection menus buttons) tree in
        (includes c menus' ≡ includes c menus) × (includes c buttons' ≡ includes c buttons))
unfolding split_menu_button_selection merge_menu_button_selection
split-merge tree menus buttons of_menus of_buttons c =
    let all_codes = menus ++ buttons in
    let merged = includes-set_add_all c [] all_codes ∙ includes-append c menus buttons in
    let kind = lookup c (kind_by_code tree) in
    (
      includes-filter (has_kind tree "menu") c (set_of all_codes)
          ∙ chosen (includes c menus) (includes c buttons) (is_kind "menu" kind)
              (is_kind "button" kind) (includes c (set_of all_codes)) merged (of_menus c)
              (of_buttons c) (kinds_apart kind),
      includes-filter (has_kind tree "button") c (set_of all_codes)
          ∙ chosen (includes c buttons) (includes c menus) (is_kind "button" kind)
              (is_kind "menu" kind) (includes c (set_of all_codes)) (merged ∙ ground arith)
              (of_buttons c) (of_menus c) (λ h. ground (arith, kinds_apart kind)),
    )
