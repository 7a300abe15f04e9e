-- ===== src/ListPaging.antt =====
-- hooks/useClientPagination.ts and lib/tenant-expiry.ts: the pages of a list in memory, and what an
-- expired tenant may not do.
-- The effect that goes back to one loaded page on a phone when the list or the page size changes, and
-- the notice's listeners themselves, are not modelled.
pub mod Settling
pub mod Mobile
use omni_python_web_template.Base.{
  ℕ, zero, suc, ◌+◌, ◌-◌, ◌*◌, ◌/◌, ◌%◌, ◌≤◌, ◌<◌, min, max, String, ◌≡◌, refl, sym, ap, ◌∙◌, subst,
  ◌≢◌, ◌↔◌, ◌⊎◌, inl, inr, Bool, true, false, not, ◌&&◌, ◌||◌, Option, none, some, List, [], ◌∷◌,
  ◌++◌, map, append-nil, append_assoc, map-append, arith, ltb, leb, if◌then◌else◌, Eq, ◌==◌, nat_eq,
  string_eq, Bool-cases, Option-cases, or_true_cases, and_true_parts, beq_refl, beq_sym, length,
  take, drop, get_elem?, filter, find?, any, all, All, length-append, take-append-drop, length-take,
  length-drop, take_of_length_le, length-map, filter-append, length-filter-le, filter-filter,
  All-append, All-filter_self, sum_of, sum_of-append, is_nil, sum_of-map, All-map,
}
use omni_python_web_template.Base.Collections.{
  includes, IsNodup, set_add, set_add_all, set_of, set_delete, set_delete_all, includes-append,
  includes-filter, includes-set_add, includes-set_add_all, includes-set_delete,
  includes-set_delete_all, IsNodup-append_one, set_add-IsNodup, set_add_all-IsNodup, filter-IsNodup,
  lookup, insert, remove, keys, lookup-insert, lookup-remove, includes-keys-insert,
  keys-insert_of_includes, lookup_cases, keys-insert, lookup_absent, map_ext, All-of_includes,
  All-includes, filter_of_All, set_add_all_of_All,
}
use omni_python_web_template.Base.Num.{ℤ, pos, negsuc}
use omni_python_web_template.Pagination.{total_pages, clamp_page, slice_page, slice_through_pages}

-- What the notice of expiry reads: whether the tenant has expired, when the notice was dismissed (0
-- if it was not) and the clock, in milliseconds. `shown` counts the calls of the listeners.
pub record Expiry : Type 0 where
  pub is_expired : Bool
  pub dismissed_at : ℕ
  pub now : ℕ
  pub shown : ℕ

abbrev pub dismiss_ttl_ms : ℕ
dismiss_ttl_ms = 14400000

unfoldable pub mark_tenant_expired_notice_dismissed : Expiry → Expiry
mark_tenant_expired_notice_dismissed e = record e { dismissed_at = e.now }

-- A dismissal in the future is never old enough: the difference is then below 0.
unfoldable pub should_auto_show_tenant_expired_notice : Expiry → Bool
should_auto_show_tenant_expired_notice e =
    if not e.is_expired
    then false
    else if e.dismissed_at == 0
    then true
    else leb (e.dismissed_at + dismiss_ttl_ms) e.now

unfoldable pub show_tenant_expired_notice : Bool → Expiry → Expiry
show_tenant_expired_notice force e =
    if not force && not (should_auto_show_tenant_expired_notice e)
    then e
    else record e { shown = e.shown + 1 }

-- Whether the write may go on, and the state after.
unfoldable pub guard_tenant_writable : Expiry → Bool × Expiry
guard_tenant_writable e =
    if not e.is_expired then (true, e) else (false, show_tenant_expired_notice true e)

unfoldable pub guard_tenant_list_page : ℕ → Expiry → Bool × Expiry
guard_tenant_list_page page e =
    if leb page 1 || not e.is_expired then (true, e) else (false, show_tenant_expired_notice true e)

abbrev pub expired_tenant_list_limit : ℕ
expired_tenant_list_limit = 500

-- The state of the hook: the page asked for, the pages loaded on a phone, and the page size that all
-- lists share.
pub record Paging : Type 0 where
  pub page : ℤ
  pub mobile_loaded_page_count : ℕ
  pub page_size : ℕ
  pub expiry : Expiry

abbrev pub go_if : Bool × Expiry → (Paging → Paging) → Paging → Paging
go_if (allowed, e) f s = let told = record s { expiry = e } in if allowed then f told else told

abbrev pub is_above_one : ℤ → Bool
is_above_one (pos n) = ltb 1 n
is_above_one (negsuc n) = false

abbrev pub is_page : ℤ → ℕ → Bool
is_page (pos n) safe = n == safe
is_page (negsuc n) safe = false

module _ {ℓ} {A : Type ℓ} (items : List A) where
  unfoldable pub source_items : Paging → List A
  source_items s = if s.expiry.is_expired then take expired_tenant_list_limit items else items

  abbrev pub total : Paging → ℕ
  total s = length (source_items s)

  abbrev pub pages : Paging → ℕ
  pages s = total_pages (total s) s.page_size

  abbrev pub safe_page : Paging → ℕ
  safe_page s = clamp_page s.page (total s) s.page_size

  -- The effects after a rendering: both read the rendered page, and the later write counts.
  unfoldable pub run_effects : Paging → Paging
  run_effects s =
      let first =
        if s.expiry.is_expired && is_above_one s.page
        then record s { page = pos 1; mobile_loaded_page_count = 1 }
        else s in
      if is_page s.page (safe_page s) then first else record first { page = pos (safe_page s) }

  unfoldable pub page_items : Paging → List A
  page_items s = slice_page (source_items s) (pos (safe_page s)) s.page_size

  unfoldable pub mobile_items : Paging → List A
  mobile_items s = slice_through_pages (source_items s) s.mobile_loaded_page_count s.page_size

  abbrev pub mobile_has_more : Paging → Bool
  mobile_has_more s = ltb s.mobile_loaded_page_count (pages s)

  unfoldable pub change_page : ℤ → Paging → Paging
  change_page next s =
      let target = clamp_page next (total s) s.page_size in
      go_if (guard_tenant_list_page target s.expiry) (λ t. record t { page = pos target }) s

  unfoldable pub change_page_size : ℕ → Paging → Paging
  change_page_size next s = record s { page_size = next; page = pos 1 }

  unfoldable pub mobile_load_more : Paging → Paging
  mobile_load_more s =
      let next_count = min (s.mobile_loaded_page_count + 1) (pages s) in
      go_if (guard_tenant_list_page next_count s.expiry)
        (λ t. record t { mobile_loaded_page_count = next_count }) s

  abbrev pub go_next : Paging → Paging
  go_next s = change_page (pos (safe_page s + 1)) s

  abbrev pub go_prev : Paging → Paging
  go_prev s = change_page (pos (safe_page s - 1)) s
