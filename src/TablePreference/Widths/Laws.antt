-- ===== src/TablePreference/Widths/Laws.antt =====
-- Distributing the container's width, and the sticky offsets.
use omni_python_web_template.Base.{
  ℕ, zero, suc, ◌+◌, ◌-◌, ◌≤◌, ◌<◌, max, ◌≡◌, ◌∙◌, inl, inr, Bool, true, false, ◌||◌, some, List,
  [], ◌∷◌, map, arith, leb, nat_eq, string_eq, Bool-cases, get_elem?, All, sum_of, sum_of-map,
  All-map,
}
use omni_python_web_template.TablePreference.{min_column_width}
use omni_python_web_template.TablePreference.Widths.{
  SizedColumn, resolve_column_pixel_width, pixel_width, sum, scaled_width, fix_last,
  distribute_table_column_widths, resolve_pinned_column_left, resolve_pinned_column_right,
}

-- All but the last.
abbrev pub others : List ℕ → List ℕ
others [] = []
others (w ∷ []) = []
others (w ∷ v ∷ ws) = w ∷ others (v ∷ ws)

pixel_width-min : (c : SizedColumn) → min_column_width ≤ pixel_width c
unfolding resolve_column_pixel_width
pixel_width-min c = omega arith

sum-fix_last :
    (container filled w : ℕ) (ws : List ℕ)
    → sum (fix_last container filled (w ∷ ws))
      ≡ max (sum (w ∷ ws) + container - filled) (sum (others (w ∷ ws)) + min_column_width)
unfolding fix_last
sum-fix_last container filled w [] = omega arith
sum-fix_last container filled w (v ∷ ws) = omega (arith, sum-fix_last container filled v ws)

fix_last-min :
    (container filled : ℕ) (ws : List ℕ)
    → All (λ w. min_column_width ≤ w) ws
    → All (λ w. min_column_width ≤ w) (fix_last container filled ws)
unfolding fix_last
fix_last-min container filled [] h = tt
fix_last-min container filled (w ∷ []) h = (omega arith, tt)
fix_last-min container filled (w ∷ v ∷ ws) (p, h) = (p, fix_last-min container filled (v ∷ ws) h)

-- The three early returns of the function, and the scaling.
abbrev keeps : List SizedColumn → ℕ → Bool
keeps cs container =
    leb container 0 || leb (sum (map pixel_width cs)) 0 || leb container (sum (map pixel_width cs))

scales :
    (c : SizedColumn) (cs : List SizedColumn) (container : ℕ)
    → sum_of pixel_width (c ∷ cs) < container
    → keeps (c ∷ cs) container ≡ false
scales c cs container h =
    ground (arith, pixel_width-min c, sum_of-map (λ (w : ℕ). w) pixel_width cs)

-- The rounded widths before the last one is corrected.
abbrev pub rounded : List SizedColumn → ℕ → List ℕ
rounded cs container = map (scaled_width container (sum (map pixel_width cs))) (map pixel_width cs)

scaled_width-min : (container total w : ℕ) → min_column_width ≤ scaled_width container total w
unfolding scaled_width
scaled_width-min container total w = omega arith

-- When the preferred widths are narrower than the container, the widths add up to the container
-- exactly, unless the rounded widths of all columns but the last already leave it less than the
-- minimum width; then the sum is theirs with the minimum width for the last column.
pub sum-distribute :
    (c : SizedColumn) (cs : List SizedColumn) (container : ℕ)
    → sum_of pixel_width (c ∷ cs) < container
    → sum (distribute_table_column_widths (c ∷ cs) container)
      ≡ max container (sum (others (rounded (c ∷ cs) container)) + min_column_width)
unfolding distribute_table_column_widths
sum-distribute c cs container h =
    rw (scales c cs container h)
      (sum-fix_last container (sum (rounded (c ∷ cs) container)) _ _ ∙ omega arith)

-- No column is narrower than the minimum width.
pub distribute-min :
    (cs : List SizedColumn) (container : ℕ)
    → All (λ w. min_column_width ≤ w) (distribute_table_column_widths cs container)
unfolding distribute_table_column_widths
distribute-min cs container = elim (Bool-cases (keeps cs container)) [
  | inl kept ↦ rw kept (All-map _ pixel_width cs pixel_width-min)
  | inr scaled ↦
      rw scaled (
        fix_last-min container _ _
          (All-map _ _ (map pixel_width cs) (scaled_width-min container _)))
]

pub distribute_wide :
    (cs : List SizedColumn) (container : ℕ)
    → container ≤ sum_of pixel_width cs
    → distribute_table_column_widths cs container ≡ map pixel_width cs
unfolding distribute_table_column_widths
distribute_wide cs container h =
    let kept : keeps cs container ≡ true =
      ground (arith, sum_of-map (λ (w : ℕ). w) pixel_width cs) in
    rw kept

-- The offset from the left of a column, its width and its offset from the right make the table's width.
pub pinned_offsets :
    (cs : List SizedColumn) (index : ℕ) (col : SizedColumn)
    → get_elem? cs index ≡ some col
    → resolve_pinned_column_left cs index + pixel_width col + resolve_pinned_column_right cs index
      ≡ sum_of pixel_width cs
unfolding resolve_pinned_column_left resolve_pinned_column_right
pinned_offsets [] index col h = cc
pinned_offsets (c ∷ cs) zero col h = let e : c ≡ col = ground arith in rw (← e) (omega arith)
pinned_offsets (c ∷ cs) (suc index) col h =
    let e : suc index + 1 ≡ suc (index + 1) = omega arith in
    rw e (omega (arith, pinned_offsets cs index col h))
