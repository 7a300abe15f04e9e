-- ===== src/ListPaging/Settling.antt =====
-- hooks/useClientPagination.ts: the effects come to rest, and an expired tenant stays on page 1.
use omni_python_web_template.Base.{
  ℕ, ◌+◌, ◌≤◌, ◌<◌, ◌≡◌, refl, ap, ◌∙◌, inl, inr, Bool, true, false, not, ◌&&◌, List, arith, ltb,
  leb, if◌then◌else◌, ◌==◌, nat_eq, string_eq, Bool-cases, beq_refl,
}
use omni_python_web_template.Base.Num.{ℤ, pos, negsuc}
use omni_python_web_template.Pagination.{total_pages, clamp_page}
use omni_python_web_template.Pagination.Slices.{clamp_page_range, clamp_page_self}
use omni_python_web_template.ListPaging.{
  Expiry, Paging, go_if, guard_tenant_list_page, show_tenant_expired_notice, source_items, total,
  safe_page, is_above_one, is_page, run_effects, change_page,
}

-- The page after the effects, from the rendered page, whether the tenant has expired, and the page
-- that exists.
abbrev next_page : ℤ → Bool → ℕ → ℤ
next_page page is_expired safe =
    if is_page page safe
    then (if is_expired && is_above_one page then pos 1 else page)
    else pos safe

next_page_live : (p : ℤ) (safe : ℕ) → next_page p false safe ≡ pos safe
next_page_live (negsuc k) safe = refl
next_page_live (pos n) safe = elim (Bool-cases (n == safe)) [
  | inl e ↦ rw e (ap pos ((nat_eq.beq_iff n safe).0 e))
  | inr e ↦ rw e refl
]

next_page_expired : (n : ℕ) → 1 ≤ n → next_page (pos n) true n ≡ pos 1
next_page_expired n h =
    rw (beq_refl n)
      (elim (Bool-cases (ltb 1 n)) [ inl e ↦ rw e refl | inr e ↦ rw e (ap pos (ground arith)) ])

-- The page after one round for an expired tenant is one that exists.
next_page_range :
    (p : ℤ) (total size : ℕ)
    → 0 < size
    → (n : ℕ) × (next_page p true (clamp_page p total size) ≡ pos n)
      × (1 ≤ n)
      × (n ≤ total_pages total size)
next_page_range p total size h =
    let (low, high) = clamp_page_range p total size h in
    elim (Bool-cases (is_page p (clamp_page p total size))) [
      | inl e ↦ elim (Bool-cases (is_above_one p)) [
        | inl f ↦ (1, rw (e, f) refl, omega arith, omega (arith, low, high))
        | inr f ↦
            (clamp_page p total size, rw (e, f) (here p (clamp_page p total size) e), low, high)
      ]
      | inr e ↦ (clamp_page p total size, rw e refl, low, high)
    ]
  where
    here : (p : ℤ) (safe : ℕ) → is_page p safe ≡ true → p ≡ pos safe
    here (negsuc k) safe e = ground arith
    here (pos n) safe e = ap pos ((nat_eq.beq_iff n safe).0 e)

two_rounds :
    (p : ℤ) (is_expired : Bool) (total size : ℕ)
    → 0 < size
    → (let q = next_page p is_expired (clamp_page p total size) in
        next_page q is_expired (clamp_page q total size))
      ≡ pos (if is_expired then 1 else clamp_page p total size)
two_rounds p false total size h =
    let (low, high) = clamp_page_range p total size h in
    rw (next_page_live p (clamp_page p total size), next_page_live (pos (clamp_page p total size)))
      (ap pos (clamp_page_self (clamp_page p total size) total size low high))
two_rounds p true total size h =
    let (n, e, low, high) = next_page_range p total size h in
    rw (e, clamp_page_self n total size low high) (next_page_expired n low)

abbrev pub is_blocked : Expiry → ℕ → Bool
is_blocked x target = x.is_expired && not (leb target 1)

guard_tenant_list_page_lem :
    (x : Expiry) (target : ℕ)
    → guard_tenant_list_page target x
      ≡ (if is_blocked x target then (false, record x { shown = x.shown + 1 }) else (true, x))
unfolding guard_tenant_list_page show_tenant_expired_notice
guard_tenant_list_page_lem x target = elim (Bool-cases (leb target 1)) [
  | inl e ↦ elim (Bool-cases x.is_expired) [ inl f ↦ rw (e, f) refl | inr f ↦ rw (e, f) refl ]
  | inr e ↦ elim (Bool-cases x.is_expired) [ inl f ↦ rw (e, f) refl | inr f ↦ rw (e, f) refl ]
]

go_if-parts :
    (blocked : Bool) (x : Expiry) (target : ℕ) (s : Paging)
    → (let t =
          go_if
            (if blocked then (false, record x { shown = x.shown + 1 }) else (true, x))
            (λ t. record t { page = pos target })
            s in
        (t.page ≡ (if blocked then s.page else pos target))
        × (t.expiry.shown ≡ x.shown + (if blocked then 1 else 0)))
go_if-parts true x target s = (refl, refl)
go_if-parts false x target s = (refl, omega arith)

module _ {ℓ} {A : Type ℓ} (items : List A) where
  run_effects-parts :
      (s : Paging)
      → ((run_effects items s).page ≡ next_page s.page s.expiry.is_expired (safe_page items s))
        × ((run_effects items s).expiry ≡ s.expiry)
        × ((run_effects items s).page_size ≡ s.page_size)
  unfolding run_effects
  run_effects-parts s = elim (Bool-cases (is_page s.page (safe_page items s))) [
    | inl e ↦ elim (Bool-cases (s.expiry.is_expired && is_above_one s.page)) [
      | inl f ↦ rw (e, f) (refl, refl, refl)
      | inr f ↦ rw (e, f) (refl, refl, refl)
    ]
    | inr e ↦ elim (Bool-cases (s.expiry.is_expired && is_above_one s.page)) [
      | inl f ↦ rw (e, f) (refl, refl, refl)
      | inr f ↦ rw (e, f) (refl, refl, refl)
    ]
  ]

  -- After two rounds of effects the page is the nearest one that exists, and page 1 for an expired
  -- tenant, whatever page was asked for, if the page size is positive.
  pub page-run_effects :
      (s : Paging)
      → 0 < s.page_size
      → (run_effects items (run_effects items s)).page
        ≡ pos (if s.expiry.is_expired then 1 else safe_page items s)
  unfolding source_items
  page-run_effects s h =
      let (page', expiry', size') = run_effects-parts s in
      let (page'', expiry'', size'') = run_effects-parts (run_effects items s) in
      page''
      ∙ rw (page', expiry', size')
          (two_rounds s.page s.expiry.is_expired (total items s) s.page_size h)

  -- A change of page leaves an expired tenant where it is and shows the notice once if a page after
  -- the first was meant; in every other case the page becomes the nearest one that exists.
  pub page-change_page :
      (next : ℤ) (s : Paging)
      → (let target = clamp_page next (total items s) s.page_size in
          ((change_page items next s).page
            ≡ (if is_blocked s.expiry target then s.page else pos target))
          × ((change_page items next s).expiry.shown
              ≡ s.expiry.shown + (if is_blocked s.expiry target then 1 else 0)))
  unfolding change_page
  page-change_page next s =
      let target = clamp_page next (total items s) s.page_size in
      rw (guard_tenant_list_page_lem s.expiry target)
        (go_if-parts (is_blocked s.expiry target) s.expiry target s)
