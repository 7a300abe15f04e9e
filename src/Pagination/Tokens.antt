-- ===== src/Pagination/Tokens.antt =====
-- The window of page numbers.
use omni_python_web_template.Base.{
  ℕ, zero, suc, ◌+◌, ◌-◌, ◌≤◌, ◌<◌, min, max, ◌≡◌, refl, ◌∙◌, subst, ◌⊎◌, inl, inr, Bool, true,
  false, ◌&&◌, ◌||◌, List, [], ◌∷◌, arith, ltb, leb, if◌then◌else◌, ◌==◌, nat_eq, string_eq,
  Bool-cases, beq_refl, All,
}
use omni_python_web_template.Base.Collections.{
  includes, IsNodup, set_add, includes-set_add, set_add-IsNodup,
}
use mathlib.Core.Bool.{false≢true}
use omni_python_web_template.Base.Sort.{
  IsSorted, IsOrder, sort_by-IsSorted, includes-sort_by, sort_by-IsNodup, sort_by-All,
}
use omni_python_web_template.Pagination.{
  PageToken, page, ellipsis, count_up, add_siblings, tokens_after, tokens_of, sorted_pages,
  build_page_tokens,
}

-- The tokens behind page `p` lead to page `last`: a page that follows directly is the next one, and
-- an ellipsis stands between two pages exactly where at least one page is left out.
abbrev pub Follows : ℕ → List PageToken → ℕ → Type 0
Follows p [] last = p ≡ last
Follows p (page q ∷ ts) last = (q ≡ p + 1) × Follows q ts last
Follows p (ellipsis ∷ []) last = ⊥
Follows p (ellipsis ∷ ellipsis ∷ ts) last = ⊥
Follows p (ellipsis ∷ page q ∷ ts) last = (p + 2 ≤ q) × Follows q ts last

abbrev pub StartsAtOne : List PageToken → ℕ → Type 0
StartsAtOne [] last = ⊥
StartsAtOne (ellipsis ∷ ts) last = ⊥
StartsAtOne (page q ∷ ts) last = (q ≡ 1) × Follows q ts last

abbrev pub shows : ℕ → List PageToken → Bool
shows n [] = false
shows n (page p ∷ ts) = n == p || shows n ts
shows n (ellipsis ∷ ts) = shows n ts

leb-IsOrder : IsOrder leb
leb-IsOrder = record { total = λ a b. ground arith; trans = λ a b c h k. ground arith }

add_siblings-IsNodup :
    (rounds k c s t : ℕ) (pages : List ℕ)
    → IsNodup pages
    → IsNodup (add_siblings rounds k c s t pages)
unfolding add_siblings
add_siblings-IsNodup zero k c s t pages h = h
add_siblings-IsNodup (suc rounds) k c s t pages h =
    elim (Bool-cases (ltb s (c + k) && leb (c + k - s) t)) [
      | inl inside ↦
          rw inside
            (add_siblings-IsNodup rounds (k + 1) c s t _ (set_add-IsNodup pages (c + k - s) h))
      | inr outside ↦ rw outside (add_siblings-IsNodup rounds (k + 1) c s t pages h)
    ]

-- Which pages the loop collects.
includes-add_siblings :
    (a rounds k c s t : ℕ) (pages : List ℕ)
    → (includes a (add_siblings rounds k c s t pages) ≡ true)
    → (includes a pages ≡ true) ⊎ ((1 ≤ a) × (a ≤ t))
unfolding add_siblings
includes-add_siblings a zero k c s t pages h = inl h
includes-add_siblings a (suc rounds) k c s t pages h = ground (
  arith,
  includes-add_siblings a rounds (k + 1) c s t
      (if ltb s (c + k) && leb (c + k - s) t then set_add pages (c + k - s) else pages),
  includes-set_add a pages (c + k - s),
)

add_siblings-keeps :
    (a rounds k c s t : ℕ) (pages : List ℕ)
    → includes a pages ≡ true
    → includes a (add_siblings rounds k c s t pages) ≡ true
unfolding add_siblings
add_siblings-keeps a zero k c s t pages h = h
add_siblings-keeps a (suc rounds) k c s t pages h =
    add_siblings-keeps a rounds (k + 1) c s t _
      (ground (arith, includes-set_add a pages (c + k - s)))

add_siblings-adds :
    (a rounds k c s t : ℕ) (pages : List ℕ)
    → 1 ≤ a
    → a ≤ t
    → c + k ≤ a + s
    → a + s < c + k + rounds
    → includes a (add_siblings rounds k c s t pages) ≡ true
unfolding add_siblings
add_siblings-adds a zero k c s t pages p q lo hi = absurd (omega arith)
add_siblings-adds a (suc rounds) k c s t pages p q lo hi = elim (here_or_later (c + k) (a + s)) [
  | inl e ↦
      let f : a ≡ c + k - s = omega arith in
      add_siblings-keeps a rounds (k + 1) c s t _
        (ground (arith, includes-set_add a pages (c + k - s)))
  | inr more ↦ add_siblings-adds a rounds (k + 1) c s t _ p q (omega arith) (omega arith)
]
  where
    here_or_later : (m n : ℕ) → (m ≡ n) ⊎ (m + 1 ≤ n ⊎ n < m)
    here_or_later m n = omega arith

tokens_after-Follows :
    (p t : ℕ) (ps : List ℕ)
    → All (λ q. leb p q ≡ true) ps
    → IsSorted leb ps
    → includes p ps ≡ false
    → IsNodup ps
    → All (λ q. q ≤ t) ps
    → (p ≡ t) ⊎ (includes t ps ≡ true)
    → Follows p (tokens_after p ps) t
unfolding tokens_after
tokens_after-Follows p t [] up sorted apart nodup bound (inl e) = e
tokens_after-Follows p t [] up sorted apart nodup bound (inr e) = cc
tokens_after-Follows p t (q ∷ ps) (pq, up) (qs, sorted) apart (fresh, nodup) (qt, bound) member =
    let above : p < q = ground arith in
    let member' : (q ≡ t) ⊎ (includes t ps ≡ true) = ground arith in
    let rest = tokens_after-Follows q t ps qs sorted fresh nodup bound member' in
    elim (Bool-cases (ltb 1 (q - p))) [
      | inl gap ↦ rw gap (ground arith, rest)
      | inr none_between ↦ rw none_between (ground arith, rest)
    ]

shows-tokens_after : (n p : ℕ) (ps : List ℕ) → shows n (tokens_after p ps) ≡ includes n ps
unfolding tokens_after
shows-tokens_after n p [] = refl
shows-tokens_after n p (q ∷ ps) = ground (arith, shows-tokens_after n q ps)

-- The same for the sorted list: it starts at 1 and ends at `t`.
tokens_of-StartsAtOne :
    (t : ℕ) (ps : List ℕ)
    → IsSorted leb ps
    → IsNodup ps
    → All (λ q. (1 ≤ q) × (q ≤ t)) ps
    → includes 1 ps ≡ true
    → includes t ps ≡ true
    → StartsAtOne (tokens_of ps) t
unfolding tokens_of
tokens_of-StartsAtOne t [] sorted nodup bound one last = cc
tokens_of-StartsAtOne t (q ∷ ps) (qs, sorted) (fresh, nodup) ((lo, hi), bound) one last =
    (first, tokens_after-Follows q t ps qs sorted fresh nodup (upper ps bound) (ground arith))
  where
    upper : (xs : List ℕ) → All (λ q. (1 ≤ q) × (q ≤ t)) xs → All (λ q. q ≤ t) xs
    upper [] h = tt
    upper (x ∷ xs) ((_, h), k) = (h, upper xs k)

    reach : (xs : List ℕ) → All (λ y. leb q y ≡ true) xs → includes 1 xs ≡ true → q ≤ 1
    reach [] h e = absurd (false≢true e)
    reach (x ∷ xs) (h, k) e = ground (arith, reach xs k)

    first : q ≡ 1
    first = ground (arith, reach ps qs)

shows-tokens_of : (n : ℕ) (ps : List ℕ) → shows n (tokens_of ps) ≡ includes n ps
unfolding tokens_of
shows-tokens_of n [] = refl
shows-tokens_of n (p ∷ ps) = ground (arith, shows-tokens_after n p ps)

All-of_includes : {P : ℕ → Type 0} (ps : List ℕ) → ((a : ℕ) → includes a ps ≡ true → P a) → All P ps
All-of_includes [] h = tt
All-of_includes (p ∷ ps) h = (h p (rw (beq_refl p)), All-of_includes ps (λ a e. h a (ground arith)))

-- The pages that the loop collects, for a current page that exists.
abbrev collected : ℕ → ℕ → ℕ → List ℕ
collected current t s = add_siblings (s + s + 1) 0 current s t (set_add (1 ∷ []) t)

collected_bound : (c t s a : ℕ) → 1 ≤ t → includes a (collected c t s) ≡ true → (1 ≤ a) × (a ≤ t)
collected_bound c t s a h e = ground (
  arith,
  includes-add_siblings a (s + s + 1) 0 c s t (set_add (1 ∷ []) t) e,
  includes-set_add a (1 ∷ []) t,
)

window-StartsAtOne : (c t s : ℕ) → 2 ≤ t → StartsAtOne (tokens_of (sorted_pages c t s)) t
window-StartsAtOne c t s h =
    tokens_of-StartsAtOne t (sorted_pages c t s) (sort_by-IsSorted leb leb-IsOrder found)
      (sort_by-IsNodup leb found
        (add_siblings-IsNodup (s + s + 1) 0 c s t _ (set_add-IsNodup (1 ∷ []) t (refl, tt))))
      (sort_by-All leb _ found (All-of_includes found (λ a. collected_bound c t s a (omega arith))))
      (includes-sort_by leb 1 found
        ∙ add_siblings-keeps 1 (s + s + 1) 0 c s t _ (includes-set_add 1 (1 ∷ []) t ∙ ground arith))
      (includes-sort_by leb t found
        ∙ add_siblings-keeps t (s + s + 1) 0 c s t _ (includes-set_add t (1 ∷ []) t ∙ ground arith))
  where
    found : List ℕ
    found = collected c t s

window-shows :
    (c t s a : ℕ)
    → 1 ≤ a
    → a ≤ t
    → c ≤ a + s
    → a ≤ c + s
    → shows a (tokens_of (sorted_pages c t s)) ≡ true
window-shows c t s a lo hi near near' =
    shows-tokens_of a (sorted_pages c t s)
    ∙ includes-sort_by leb a (collected c t s)
    ∙ add_siblings-adds a (s + s + 1) 0 c s t _ lo hi (omega arith) (omega arith)

count_up-Follows : (n p : ℕ) → Follows p (count_up n p) (p + n)
unfolding count_up
count_up-Follows zero p = omega arith
count_up-Follows (suc n) p =
    let e : p + suc n ≡ p + 1 + n = omega arith in rw e (refl, count_up-Follows n (p + 1))

count_up-shows : (a n p : ℕ) → p < a → a ≤ p + n → shows a (count_up n p) ≡ true
unfolding count_up
count_up-shows a zero p lo hi = absurd (omega arith)
count_up-shows a (suc n) p lo hi = ground (arith, count_up-shows a n (p + 1))

-- For every number of pages: the tokens start at page 1 and end at the last page, consecutive
-- pages differ by one, an ellipsis stands exactly for a run of at least one page left out, and the
-- current page and its neighbours up to `siblings` away are shown.
pub build_page_tokens-window :
    (current total siblings : ℕ)
    → 1 ≤ total
    → StartsAtOne (build_page_tokens current total siblings) total
      × ((a : ℕ)
          → 1 ≤ a
          → a ≤ total
          → min (max 1 current) total ≤ a + siblings
          → a ≤ min (max 1 current) total + siblings
          → shows a (build_page_tokens current total siblings) ≡ true)
unfolding build_page_tokens count_up
build_page_tokens-window current (suc n) siblings h = elim (Bool-cases (leb (suc n) 7)) [
  | inl few ↦
      rw (some_page n, few)
        (
          (refl, subst (λ k. Follows 1 (count_up n 1) k) (omega arith) (count_up-Follows n 1)),
          λ a lo hi _ _. count_up-shows a (suc n) 0 (omega arith) (omega arith),
        )
  | inr many ↦
      rw (some_page n, many)
        (
          window-StartsAtOne (min (max 1 current) (suc n)) (suc n) siblings (ground arith),
          window-shows (min (max 1 current) (suc n)) (suc n) siblings,
        )
]
  where
    some_page : (k : ℕ) → leb (suc k) 0 ≡ false
    some_page k = ground arith
build_page_tokens-window current zero siblings h = absurd (omega arith)
