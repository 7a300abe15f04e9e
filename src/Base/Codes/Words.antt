-- ===== src/Base/Codes/Words.antt =====
-- What is joined is split again, and a text without spaces is not trimmed.
use omni_python_web_template.Base.{
  ℕ, ◌≡◌, refl, ap, ◌∙◌, Bool, true, false, not, List, [], ◌∷◌, ◌++◌, arith, nat_eq, string_eq,
  and_true_parts, filter, all, All, is_nil,
}
use omni_python_web_template.Base.Text.{is_space}
use omni_python_web_template.Base.Codes.{
  Codes, split_by, words, join_with, trim_codes_start, trim_codes_end, trim_codes,
}

module _ (p : ℕ → Bool) where
  pub split_by-word : (w : Codes) → all (λ c. not (p c)) w ≡ true → split_by p w ≡ w ∷ []
  unfolding split_by
  split_by-word [] h = refl
  split_by-word (c ∷ w) h =
      let (here, later) = and_true_parts (not (p c)) (all (λ d. not (p d)) w) h in
      rw (split_by-word w later) (ground arith)

  pub split_by-append :
      (w : Codes) (s : ℕ) (t : Codes)
      → all (λ c. not (p c)) w ≡ true
      → p s ≡ true
      → split_by p (w ++ s ∷ t) ≡ w ∷ split_by p t
  unfolding split_by
  split_by-append [] s t h k = rw k refl
  split_by-append (c ∷ w) s t h k =
      let (here, later) = and_true_parts (not (p c)) (all (λ d. not (p d)) w) h in
      rw (split_by-append w s t later k) (ground arith)

  -- Parts without a separator are got back, if there is one at least.
  pub split_by-join_with :
      (s : ℕ) (w : Codes) (ws : List Codes)
      → p s ≡ true
      → All (λ v. all (λ c. not (p c)) v ≡ true) (w ∷ ws)
      → split_by p (join_with s (w ∷ ws)) ≡ w ∷ ws
  unfolding join_with
  split_by-join_with s w [] k (h, hs) = split_by-word w h
  split_by-join_with s w (v ∷ ws) k (h, hs) =
      split_by-append w s (join_with s (v ∷ ws)) h k
      ∙ ap (λ r. w ∷ r) (split_by-join_with s v ws k hs)

-- A word: not empty, and without spaces.
abbrev pub IsWord : Codes → Type 0
IsWord w = (is_nil w ≡ false) × (all (λ c. not (is_space c)) w ≡ true)

kept_words : (ws : List Codes) → All IsWord ws → filter (λ w. not (is_nil w)) ws ≡ ws
kept_words [] h = refl
kept_words (w ∷ ws) ((k, l), h) = rw k (ap (λ r. w ∷ r) (kept_words ws h))

spaceless : (ws : List Codes) → All IsWord ws → All (λ v. all (λ c. not (is_space c)) v ≡ true) ws
spaceless [] h = tt
spaceless (w ∷ ws) ((k, l), h) = (l, spaceless ws h)

pub words-join_with :
    (w : Codes) (ws : List Codes) → All IsWord (w ∷ ws) → words (join_with 32 (w ∷ ws)) ≡ w ∷ ws
unfolding words is_space
words-join_with w ws h =
    ap (filter (λ v. not (is_nil v)))
      (split_by-join_with is_space 32 w ws refl (spaceless (w ∷ ws) h))
    ∙ kept_words (w ∷ ws) h

trim_codes_end-spaceless : (s : Codes) → all (λ c. not (is_space c)) s ≡ true → trim_codes_end s ≡ s
unfolding trim_codes_end
trim_codes_end-spaceless [] h = refl
trim_codes_end-spaceless (c ∷ s) h =
    let (here, later) = and_true_parts (not (is_space c)) (all (λ d. not (is_space d)) s) h in
    rw (trim_codes_end-spaceless s later) (ground arith)

trim_codes_start-spaceless :
    (s : Codes) → all (λ c. not (is_space c)) s ≡ true → trim_codes_start s ≡ s
unfolding trim_codes_start
trim_codes_start-spaceless [] h = refl
trim_codes_start-spaceless (c ∷ s) h =
    let (here, later) = and_true_parts (not (is_space c)) (all (λ d. not (is_space d)) s) h in
    ground arith

pub trim_codes-spaceless : (s : Codes) → all (λ c. not (is_space c)) s ≡ true → trim_codes s ≡ s
unfolding trim_codes
trim_codes-spaceless s h =
    ap trim_codes_end (trim_codes_start-spaceless s h) ∙ trim_codes_end-spaceless s h

pub all-implies :
    (p q : ℕ → Bool)
    → ((c : ℕ) → p c ≡ true → q c ≡ true)
    → (s : Codes) → all p s ≡ true
    → all q s ≡ true
all-implies p q imp [] h = refl
all-implies p q imp (c ∷ s) h =
    let (here, later) = and_true_parts (p c) (all p s) h in
    rw (imp c here, all-implies p q imp s later) refl
