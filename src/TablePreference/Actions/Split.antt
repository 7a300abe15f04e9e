-- ===== src/TablePreference/Actions/Split.antt =====
-- Which buttons are shown directly.
use omni_python_web_template.Base.{
  ◌+◌, ◌≤◌, ◌≡◌, refl, ◌⊎◌, inl, inr, Option, List, [], ◌++◌, append-nil, arith, leb, nat_eq,
  string_eq, Bool-cases, length, take-append-drop, length-take, length-drop,
}
use omni_python_web_template.Base.Num.{Fraction}
use omni_python_web_template.TablePreference.{TableActionItem, inline_max_min, inline_max_max}
use omni_python_web_template.TablePreference.Actions.{
  resolve_inline_visible_max, SplitItems, split_table_action_items,
}

-- The buttons are split in their order and none is lost; the menu is empty or holds at least two
-- buttons; and between one and ten buttons at most are shown directly.
pub record IsSplit (items : List TableActionItem) (s : SplitItems) : Type 0 where
  pub kept : s.inline ++ s.folded ≡ items
  pub menu : (s.folded ≡ []) ⊎ (2 ≤ length s.folded)
  pub short : length s.inline ≤ inline_max_max + 1

resolve_inline_visible_max_range :
    (v : Option Fraction)
    → (inline_max_min ≤ resolve_inline_visible_max v)
      × (resolve_inline_visible_max v ≤ inline_max_max)
unfolding resolve_inline_visible_max
resolve_inline_visible_max_range v = omega arith

-- Splitting the buttons keeps them all in their order; the menu is empty or holds at least two of
-- them; and at most ten are shown directly.
pub split_table_action_items_lem :
    (items : List TableActionItem) (v : Option Fraction)
    → IsSplit items (split_table_action_items items v)
unfolding split_table_action_items
split_table_action_items_lem items v =
    elim (Bool-cases (leb (length items) (resolve_inline_visible_max v + 1))) [
      | inl few ↦ rw few (record {
        kept = append-nil items;
        menu = inl refl;
        short = ground (arith, resolve_inline_visible_max_range v);
      })
      | inr many ↦ rw many (record {
        kept = take-append-drop (resolve_inline_visible_max v) items;
        menu = inr (ground (arith, length-drop (resolve_inline_visible_max v) items));
        short = omega (
          arith,
          length-take (resolve_inline_visible_max v) items,
          resolve_inline_visible_max_range v,
        );
      })
    ]
