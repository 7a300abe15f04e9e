-- ===== src/ListPaging/Mobile/Rows.antt =====
-- The rows of a phone's list (web/src/hooks/use-server-mobile-infinite-scroll.ts).
use omni_python_web_template.Base.{
  ℕ, zero, suc, ◌≡◌, refl, sym, ap, ◌∙◌, inl, inr, Bool, true, false, not, ◌||◌, List, [], ◌∷◌,
  ◌++◌, map, append-nil, map-append, arith, leb, if◌then◌else◌, Eq, nat_eq, string_eq, Bool-cases,
  beq_sym, filter, All, is_nil,
}
use omni_python_web_template.Base.Collections.{
  includes, IsNodup, set_add, set_add_all, set_of, includes-append,
}
use omni_python_web_template.ListPaging.Mobile.{merge_unique_rows, page_arrived, pages_arrived}

module _ {κ} {K : Type κ} ⦃e : Eq K⦄ where
  not_added :
      (s : List K) (x : K) (xs : List K)
      → includes x xs ≡ false
      → filter (λ y. not (includes y (s ++ (x ∷ [])))) xs ≡ filter (λ y. not (includes y s)) xs
  not_added s x [] h = refl
  not_added s x (y ∷ xs) h =
      ground (arith, includes-append y s (x ∷ []), beq_sym x y, not_added s x xs)

  append_new :
      (s xs : List K) → IsNodup xs → s ++ filter (λ y. not (includes y s)) xs ≡ set_add_all s xs
  append_new s [] h = append-nil s
  append_new s (x ∷ xs) (apart, h) = elim (Bool-cases (includes x s)) [
    | inl old ↦ rw old (append_new s xs h)
    | inr new ↦ rw new (
        append_assoc_one s x (filter (λ y. not (includes y s)) xs)
        ∙ ap (λ r. (s ++ (x ∷ [])) ++ r) (sym (not_added s x xs apart))
        ∙ append_new (s ++ (x ∷ [])) xs h)
  ]
    where
      append_assoc_one :
          (ys : List K) (z : K) (zs : List K) → ys ++ (z ∷ zs) ≡ (ys ++ (z ∷ [])) ++ zs
      append_assoc_one [] z zs = refl
      append_assoc_one (y ∷ ys) z zs = ap (λ r. y ∷ r) (append_assoc_one ys z zs)

module _ {ℓ κ} {A : Type ℓ} {K : Type κ} ⦃e : Eq K⦄ (row_key : A → K) where
  map-filter :
      (p : K → Bool) (rows : List A)
      → map row_key (filter (λ r. p (row_key r)) rows) ≡ filter p (map row_key rows)
  map-filter p [] = refl
  map-filter p (r ∷ rows) = elim (Bool-cases (p (row_key r))) [
    | inl kept ↦ rw kept (ap (λ ks. row_key r ∷ ks) (map-filter p rows))
    | inr dropped ↦ rw dropped (map-filter p rows)
  ]

  merged_or_same :
      (previous incoming appended : List A)
      → (is_nil incoming ≡ true → is_nil appended ≡ true)
      → (if is_nil incoming || is_nil appended then previous else previous ++ appended)
        ≡ previous ++ appended
  merged_or_same previous [] [] h = sym (append-nil previous)
  merged_or_same previous [] (a ∷ appended) h = let wrong = h refl in cc
  merged_or_same previous (i ∷ incoming) [] h = sym (append-nil previous)
  merged_or_same previous (i ∷ incoming) (a ∷ appended) h = refl

  keys-merge_unique_rows :
      (previous incoming : List A)
      → IsNodup (map row_key incoming)
      → map row_key (merge_unique_rows row_key previous incoming)
        ≡ set_add_all (map row_key previous) (map row_key incoming)
  unfolding merge_unique_rows
  keys-merge_unique_rows previous incoming h =
      let seen = map row_key previous in
      let appended = filter (λ row. not (includes (row_key row) seen)) incoming in
      ap (map row_key) (merged_or_same previous incoming appended (none_new incoming))
      ∙ map-append row_key previous appended
      ∙ ap (λ r. seen ++ r) (map-filter (λ k. not (includes k seen)) incoming)
      ∙ append_new seen (map row_key incoming) h
    where
      none_new :
          (rows : List A)
          → is_nil rows ≡ true
          → is_nil (filter (λ row. not (includes (row_key row) (map row_key previous))) rows) ≡ true
      none_new [] k = refl
      none_new (r ∷ rows) k = cc

  -- The keys of all the pages, in order
  abbrev pub all_keys : List (List A) → List K
  all_keys [] = []
  all_keys (rows ∷ more) = map row_key rows ++ all_keys more

  set_add_all-append :
      (s xs ys : List K) → set_add_all s (xs ++ ys) ≡ set_add_all (set_add_all s xs) ys
  set_add_all-append s [] ys = refl
  set_add_all-append s (x ∷ xs) ys = set_add_all-append (set_add s x) xs ys

  later_pages :
      (page : ℕ) (more : List (List A)) (rows : List A)
      → All (λ r. IsNodup (map row_key r)) more
      → map row_key (pages_arrived row_key (suc (suc page)) more rows)
        ≡ set_add_all (map row_key rows) (all_keys more)
  unfolding page_arrived
  later_pages page [] rows h = refl
  later_pages page (r ∷ more) rows (k, h) =
      let later : leb (suc (suc page)) 1 ≡ false = ground arith in
      ap
        (λ b. map row_key (
          pages_arrived row_key (suc (suc (suc page))) more
            (if b then r else merge_unique_rows row_key rows r)))
        later
      ∙ later_pages (suc page) more (merge_unique_rows row_key rows r) h
      ∙ ap (λ s. set_add_all s (all_keys more)) (keys-merge_unique_rows rows r k)
      ∙ sym (set_add_all-append (map row_key rows) (map row_key r) (all_keys more))

  -- When the pages from the first one on have arrived, none of which repeats a key in itself, the keys
  -- of the list are those of all the pages, each once, where it came first; the rows that the list had
  -- before are gone.
  pub keys-pages_arrived :
      (first : List A) (more : List (List A)) (before : List A)
      → IsNodup (map row_key first)
      → All (λ r. IsNodup (map row_key r)) more
      → map row_key (pages_arrived row_key 1 (first ∷ more) before)
        ≡ set_of (all_keys (first ∷ more))
  unfolding page_arrived
  keys-pages_arrived first more before h k =
      later_pages zero more first k
      ∙ ap (λ s. set_add_all s (all_keys more))
          (sym (kept (map row_key first)) ∙ append_new [] (map row_key first) h)
      ∙ sym (set_add_all-append [] (map row_key first) (all_keys more))
    where
      kept : (ks : List K) → filter (λ y. not (includes y [])) ks ≡ ks
      kept [] = refl
      kept (k ∷ ks) = ap (λ r. k ∷ r) (kept ks)
