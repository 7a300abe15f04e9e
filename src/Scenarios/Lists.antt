-- ===== src/Scenarios/Lists.antt =====
-- Lists in pages, and departments.
use omni_python_web_template.Base.{
  ℕ, ◌+◌, ◌≤◌, min, max, ◌≡◌, ◌||◌, ◌==◌, true, List, [], ◌∷◌, arith, if◌then◌else◌, nat_eq,
  string_eq,
}
use omni_python_web_template.Base.Collections.{includes}
use omni_python_web_template.Base.Codes.{Codes, number}
use omni_python_web_template.Base.{Option, some}
use omni_python_web_template.Base.Num.{pos}
use omni_python_web_template.Pagination.{build_page_tokens, clamp_page}
use omni_python_web_template.Pagination.Tokens.{StartsAtOne, shows, build_page_tokens-window}
use omni_python_web_template.ListPaging.{Expiry, Paging, total, safe_page, run_effects, change_page}
use omni_python_web_template.ListPaging.Settling.{is_blocked, page-run_effects, page-change_page}
use omni_python_web_template.DataScope.{
  DeptRecord, dept, Depts, no_depts, more, toggle_dept_scope_cascade,
}
use omni_python_web_template.DataScope.Cascade.{
  find_dept_in, is_inside, toggle_dept_scope_cascade_lem,
}

build_page_tokens-window_example :
    StartsAtOne (build_page_tokens 5 9 1) 9
    × ((a : ℕ)
        → 1 ≤ a
        → a ≤ 9
        → min (max 1 5) 9 ≤ a + 1
        → a ≤ min (max 1 5) 9 + 1
        → shows a (build_page_tokens 5 9 1) ≡ true)
build_page_tokens-window_example = build_page_tokens-window 5 9 1 (omega arith)

abbrev expired : Expiry
expired = record { is_expired = true; dismissed_at = 0; now = 9; shown = 0 }

abbrev on_page_three : Paging
on_page_three = record {
  page = pos 3;
  mobile_loaded_page_count = 1;
  page_size = 2;
  expiry = expired;
}

abbrev five : List ℕ
five = 1 ∷ 2 ∷ 3 ∷ 4 ∷ 5 ∷ []

page-run_effects_example :
    (run_effects five (run_effects five on_page_three)).page
    ≡ pos (if on_page_three.expiry.is_expired then 1 else safe_page five on_page_three)
page-run_effects_example = page-run_effects five on_page_three (omega arith)

page-change_page_example :
    ((change_page five (pos 2) on_page_three).page ≡ (
      if is_blocked on_page_three.expiry (clamp_page (pos 2) (total five on_page_three) 2)
      then on_page_three.page
      else pos (clamp_page (pos 2) (total five on_page_three) 2)))
    × ((change_page five (pos 2) on_page_three).expiry.shown
        ≡ on_page_three.expiry.shown
          + (if is_blocked on_page_three.expiry (clamp_page (pos 2) (total five on_page_three) 2)
              then 1
              else 0))
page-change_page_example = page-change_page five (pos 2) on_page_three

abbrev department : ℕ → Depts → DeptRecord
department id children =
    dept (record { id = id; parent_id = 0; name = "D"; sort_order = 0; enabled = true }) children

abbrev departments : Depts
departments =
    more (department 1 (more (department 2 no_depts) (more (department 3 no_depts) no_depts)))
      no_depts

toggle_dept_scope_cascade_lem_example :
    includes {A = ℕ} 3 (toggle_dept_scope_cascade (4 ∷ []) 1 true departments) ≡ (
      if ◌==◌ {A = ℕ} 3 1 || is_inside 3 (find_dept_in 1 departments)
      then true
      else includes {A = ℕ} 3 (4 ∷ []))
toggle_dept_scope_cascade_lem_example = toggle_dept_scope_cascade_lem (4 ∷ []) 1 true departments 3

-- A reader of numbers as the platform's
abbrev read_number : Codes → Option ℕ
read_number s = some (number s)
