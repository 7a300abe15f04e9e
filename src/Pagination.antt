-- ===== src/Pagination.antt =====
-- lib/pagination.ts: clamping and slicing of pages, and the window of page numbers.
pub mod Slices
pub mod Tokens
pub mod Jump
use omni_python_web_template.Base.{
  ℕ, zero, suc, ◌+◌, ◌-◌, ◌*◌, ◌/◌, Bool, true, false, ◌&&◌, List, [], ◌∷◌, ◌++◌, Option, none,
  some, ltb, leb, if◌then◌else◌, length, take, drop, min, max, nat_eq,
}
use omni_python_web_template.Base.Collections.{set_add}
use omni_python_web_template.Base.Sort.{sort_by}
use omni_python_web_template.Base.Num.{ℤ, pos, negsuc}

abbrev pub page_size_options : List ℕ
page_size_options = 10 ∷ 20 ∷ 50 ∷ 100 ∷ []

-- `Math.ceil(total / pageSize)`, for a positive page size
unfoldable pub total_pages : ℕ → ℕ → ℕ
total_pages total page_size = if leb total 0 then 1 else (total + page_size - 1) / page_size

-- The page asked for may be below 1.
unfoldable pub clamp_page : ℤ → ℕ → ℕ → ℕ
clamp_page (negsuc n) total page_size = 1
clamp_page (pos page) total page_size =
    let last = total_pages total page_size in
    if ltb page 1 then 1 else if ltb last page then last else page

module _ {ℓ} {A : Type ℓ} where
  unfoldable pub slice_page : List A → ℤ → ℕ → List A
  slice_page [] page page_size = []
  slice_page (x ∷ xs) page page_size =
      let safe_page = clamp_page page (length (x ∷ xs)) page_size in
      let start = (safe_page - 1) * page_size in take page_size (drop start (x ∷ xs))

  unfoldable pub slice_through_pages : List A → ℕ → ℕ → List A
  slice_through_pages [] loaded page_size = []
  slice_through_pages (x ∷ xs) loaded page_size =
      if leb loaded 0
      then []
      else let end = loaded * page_size in take (min end (length (x ∷ xs))) (x ∷ xs)

pub data PageToken : Type 0 where
  page : ℕ → PageToken
  ellipsis : PageToken

-- `Array.from({ length: n }, (_, i) => i + 1)`, from `start + 1` on
unfoldable pub count_up : ℕ → ℕ → List PageToken
count_up zero start = []
count_up (suc n) start = page (start + 1) ∷ count_up n (start + 1)

-- The loop that adds the neighbours of `current`: round k is at i = current - siblings + k.
unfoldable pub add_siblings : (rounds k current siblings total : ℕ) → List ℕ → List ℕ
add_siblings zero k current siblings total pages = pages
add_siblings (suc rounds) k current siblings total pages =
    let i = current + k - siblings in
    add_siblings rounds (k + 1) current siblings total
      (if ltb siblings (current + k) && leb i total then set_add pages i else pages)

-- The loop over the sorted pages behind page `prev`.
unfoldable pub tokens_after : ℕ → List ℕ → List PageToken
tokens_after prev [] = []
tokens_after prev (p ∷ ps) =
    if ltb 1 (p - prev) then ellipsis ∷ page p ∷ tokens_after p ps else page p ∷ tokens_after p ps

unfoldable pub tokens_of : List ℕ → List PageToken
tokens_of [] = []
tokens_of (p ∷ ps) = page p ∷ tokens_after p ps

abbrev pub sorted_pages : ℕ → ℕ → ℕ → List ℕ
sorted_pages safe_current total siblings =
    sort_by leb (
      add_siblings (siblings + siblings + 1) 0 safe_current siblings total (set_add (1 ∷ []) total))

unfoldable pub build_page_tokens : ℕ → ℕ → ℕ → List PageToken
build_page_tokens current total siblings =
    if leb total 0
    then page 1 ∷ []
    else if leb total 7
    then count_up total 0
    else tokens_of (sorted_pages (min (max 1 current) total) total siblings)
