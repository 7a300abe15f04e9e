-- ===== src/ListPaging/Mobile.antt =====
-- The list on a phone that grows page by page (web/src/hooks/use-server-mobile-infinite-scroll.ts), for
-- rows with a key. The pages come from the server; a page that is shown again with other rows is one
-- more arrival.
pub mod Rows
use omni_python_web_template.Base.{
  ℕ, zero, suc, ◌+◌, ◌-◌, ◌*◌, ◌/◌, ◌%◌, ◌≤◌, ◌<◌, min, max, String, ◌≡◌, refl, sym, ap, ◌∙◌, subst,
  ◌≢◌, ◌↔◌, ◌⊎◌, inl, inr, Bool, true, false, not, ◌&&◌, ◌||◌, Option, none, some, List, [], ◌∷◌,
  ◌++◌, map, append-nil, append_assoc, map-append, arith, ltb, leb, if◌then◌else◌, Eq, ◌==◌, nat_eq,
  string_eq, Bool-cases, Option-cases, or_true_cases, and_true_parts, beq_refl, beq_sym, length,
  take, drop, get_elem?, filter, find?, any, all, All, length-append, take-append-drop, length-take,
  length-drop, take_of_length_le, length-map, filter-append, length-filter-le, filter-filter,
  All-append, All-filter_self, sum_of, sum_of-append, is_nil, sum_of-map, All-map,
}
use omni_python_web_template.Base.Collections.{
  includes, IsNodup, set_add, set_add_all, set_of, set_delete, set_delete_all, includes-append,
  includes-filter, includes-set_add, includes-set_add_all, includes-set_delete,
  includes-set_delete_all, IsNodup-append_one, set_add-IsNodup, set_add_all-IsNodup, filter-IsNodup,
  lookup, insert, remove, keys, lookup-insert, lookup-remove, includes-keys-insert,
  keys-insert_of_includes, lookup_cases, keys-insert, lookup_absent, map_ext, All-of_includes,
  All-includes, filter_of_All, set_add_all_of_All,
}
use omni_python_web_template.ListPaging.{Expiry, guard_tenant_list_page}

module _ {ℓ κ} {A : Type ℓ} {K : Type κ} ⦃e : Eq K⦄ (row_key : A → K) where
  unfoldable pub merge_unique_rows : List A → List A → List A
  merge_unique_rows previous incoming =
      let appended = filter (λ row. not (includes (row_key row) (map row_key previous))) incoming in
      if is_nil incoming || is_nil appended then previous else previous ++ appended

  -- The effect of a page number and its rows
  unfoldable pub page_arrived : ℕ → List A → List A → List A
  page_arrived page page_rows mobile_rows =
      if leb page 1 then page_rows else merge_unique_rows mobile_rows page_rows

  -- Pages that arrive one after the other, from the page `page` on
  abbrev pub pages_arrived : ℕ → List (List A) → List A → List A
  pages_arrived page [] mobile_rows = mobile_rows
  pages_arrived page (rows ∷ more) mobile_rows =
      pages_arrived (suc page) more (page_arrived page rows mobile_rows)

-- `page * pageSize < total`
abbrev pub has_more : ℕ → ℕ → ℕ → Bool
has_more page page_size total = ltb (page * page_size) total

-- `loadMore`: the page asked for, if one is, and the notice of expiry
unfoldable pub load_more : Bool → ℕ → ℕ → ℕ → Expiry → Option ℕ × Expiry
load_more loading page page_size total e =
    if loading || not (has_more page page_size total)
    then (none, e)
    else let (allowed, told) = guard_tenant_list_page (page + 1) e in
      if allowed then (some (page + 1), told) else (none, told)
