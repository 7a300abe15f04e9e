-- ===== src/Pagination/Slices.antt =====
-- Pages as parts of the list.
use omni_python_web_template.Base.{
  ℕ, zero, suc, ◌+◌, ◌-◌, ◌*◌, ◌/◌, ◌≤◌, ◌<◌, ◌≡◌, refl, sym, ap, ◌∙◌, List, [], ◌∷◌, ◌++◌, arith,
  length, take, drop, take-add, take_of_length_le, take-nil, take-min-length, inl, inr, ◌⊎◌, leb,
  false,
}
use native.Mathlib.Nat.{div-add-mod, mod-lt, mul_comm}
use omni_python_web_template.Base.Num.{ℤ, pos, negsuc}
use omni_python_web_template.Pagination.{total_pages, clamp_page, slice_page, slice_through_pages}

div_up_cover : (total size : ℕ) → 0 < size → total ≤ (total + size - 1) / size * size
div_up_cover total size h = grind (
  arith,
  div-add-mod (total + size - 1) size,
  mod-lt (total + size - 1) h,
  mul_comm size ((total + size - 1) / size),
)

pub total_pages_cover : (total size : ℕ) → 0 < size → total ≤ total_pages total size * size
unfolding total_pages
total_pages_cover total size h = ground (arith, div_up_cover total size h)

pub total_pages_pos : (total size : ℕ) → 0 < size → 1 ≤ total_pages total size
unfolding total_pages
total_pages_pos zero size h = omega arith
total_pages_pos (suc total) size h = elim (split ((suc total + size - 1) / size)) [
  | inl e ↦ absurd (omega (arith, rw e at (div_up_cover (suc total) size h)))
  | inr p ↦ ground arith
]
  where
    split : (n : ℕ) → (n ≡ 0) ⊎ (1 ≤ n)
    split n = omega arith

-- Whatever page is asked for, the page shown is one of the pages.
pub clamp_page_range :
    (page : ℤ) (total size : ℕ)
    → 0 < size
    → (1 ≤ clamp_page page total size) × (clamp_page page total size ≤ total_pages total size)
unfolding clamp_page
clamp_page_range (negsuc k) total size h = (omega arith, total_pages_pos total size h)
clamp_page_range (pos p) total size h = ground (arith, total_pages_pos total size h)

-- A page that exists is shown as asked for.
pub clamp_page_self :
    (n total size : ℕ) → 1 ≤ n → n ≤ total_pages total size → clamp_page (pos n) total size ≡ n
unfolding clamp_page
clamp_page_self n total size h k = ground arith

module _ {ℓ} {A : Type ℓ} where
  pub slice_page_self :
      (xs : List A) (n size : ℕ)
      → suc n ≤ total_pages (length xs) size
      → slice_page xs (pos (suc n)) size ≡ take size (drop (n * size) xs)
  unfolding slice_page
  slice_page_self [] n size h = sym (ap (take size) (drop-nil (n * size)) ∙ take-nil size)
    where
      drop-nil : (k : ℕ) → drop {A = A} k [] ≡ []
      drop-nil zero = refl
      drop-nil (suc k) = refl
  slice_page_self (x ∷ xs) n size h =
      rw (clamp_page_self (suc n) (suc (length xs)) size (omega arith) h)
        (ap (λ k. take size (drop (k * size) (x ∷ xs))) (omega arith))

  slice_through_pages-take :
      (xs : List A) (n size : ℕ) → slice_through_pages xs n size ≡ take (n * size) xs
  unfolding slice_through_pages
  slice_through_pages-take [] n size = sym (take-nil (n * size))
  slice_through_pages-take (x ∷ xs) zero size = ap (λ k. take k (x ∷ xs)) (zero_mul size)
    where
      zero_mul : (k : ℕ) → 0 ≡ 0 * k
      zero_mul k = omega arith
  slice_through_pages-take (x ∷ xs) (suc n) size =
      rw (some_loaded n) (take-min-length (suc n * size) (x ∷ xs))
    where
      some_loaded : (k : ℕ) → leb (suc k) 0 ≡ false
      some_loaded k = ground arith

  -- The pages 1 to n, one after the other.
  pub first_pages : List A → ℕ → ℕ → List A
  first_pages xs zero size = []
  first_pages xs (suc n) size = first_pages xs n size ++ slice_page xs (pos (suc n)) size

  first_pages-take :
      (xs : List A) (n size : ℕ)
      → n ≤ total_pages (length xs) size
      → first_pages xs n size ≡ take (n * size) xs
  unfolding first_pages
  first_pages-take xs zero size h = ap (λ k. take k xs) (zero_mul size)
    where
      zero_mul : (k : ℕ) → 0 ≡ 0 * k
      zero_mul k = omega arith
  first_pages-take xs (suc n) size h =
      let e : suc n * size ≡ n * size + size = omega arith in
      rw (first_pages-take xs n size (omega arith), slice_page_self xs n size h, e)
        (sym (take-add (n * size) size xs))

  pub slice_through_pages_lem :
      (xs : List A) (n size : ℕ)
      → n ≤ total_pages (length xs) size
      → slice_through_pages xs n size ≡ first_pages xs n size
  slice_through_pages_lem xs n size h =
      slice_through_pages-take xs n size ∙ sym (first_pages-take xs n size h)

  pub pages_cover :
      (xs : List A) (size : ℕ) → 0 < size → first_pages xs (total_pages (length xs) size) size ≡ xs
  pages_cover xs size h =
      first_pages-take xs (total_pages (length xs) size) size (omega arith)
      ∙ take_of_length_le _ xs (total_pages_cover (length xs) size h)
