-- ===== src/TablePreference/Config/Normal.antt =====
-- Normalising a column's preference.
use omni_python_web_template.Base.{
  ◌≡◌, refl, ap, inl, inr, some, ◌∷◌, arith, nat_eq, string_eq, Bool-cases,
}
use omni_python_web_template.Base.Num.{Fraction, whole, is_positive}
use omni_python_web_template.Base.Text.{trim, is_empty, trim_idempotent}
use omni_python_web_template.TablePreference.Value.{
  Value, undefined, num, str, arr, Values, nil, cons,
}
use omni_python_web_template.TablePreference.Actions.{resolve_inline_visible_max}
use omni_python_web_template.TablePreference.Normalized.{
  RawColumn, flag_of, positive_of, text_of, ids_of, order_of, inline_max_of, raw_flag, raw_number,
  raw_text, raw_ids, raw_order, normal, normalize_table_column_preference,
}

pub flag_again : (v : Value) → flag_of (raw_flag (flag_of v)) ≡ flag_of v
flag_again undefined = refl
flag_again _ = refl

pub width_again : (v : Value) → positive_of (raw_number (positive_of v)) ≡ positive_of v
width_again (num x) = elim (Bool-cases (is_positive x)) [
  | inl up ↦ rw up (rw up refl)
  | inr down ↦ rw down refl
]
width_again _ = refl

pub text_again : (v : Value) → text_of (raw_text (text_of v)) ≡ text_of v
text_again (str s) = elim (Bool-cases (is_empty (trim s))) [
  | inl blank ↦ rw blank refl
  | inr shown ↦ rw shown (rw (trim_idempotent s, shown) refl)
]
text_again _ = refl

pub ids_again : (vs : Values) → ids_of (raw_ids (ids_of vs)) ≡ ids_of vs
ids_again nil = refl
ids_again (cons (str s) vs) = elim (Bool-cases (is_empty s)) [
  | inl blank ↦ rw blank (ids_again vs)
  | inr shown ↦ rw shown (rw shown (ap (λ r. s ∷ r) (ids_again vs)))
]
ids_again (cons _ vs) = ids_again vs

pub order_again : (v : Value) → order_of (raw_order (order_of v)) ≡ order_of v
order_again (arr vs) = ap some (ids_again vs)
order_again _ = refl

pub inline_again : (v : Value) → inline_max_of (raw_number (inline_max_of v)) ≡ inline_max_of v
inline_again (num x) = ap (λ n. some (whole n)) (clamped x)
  where
    clamped :
        (y : Fraction)
        → resolve_inline_visible_max (some (whole (resolve_inline_visible_max (some y))))
          ≡ resolve_inline_visible_max (some y)
    clamped y = unfold resolve_inline_visible_max in omega arith
inline_again _ = refl

-- Normalising what has been normalised changes nothing: what is written to the store is what is
-- read back and normalised again.
pub normal_of_normalized :
    (raw : RawColumn)
    → normal (normalize_table_column_preference (some raw))
      ≡ normalize_table_column_preference (some raw)
unfolding normalize_table_column_preference
normal_of_normalized raw = λ i. record {
  visible = (normalize_table_column_preference (some raw)).visible;
  pinned = (normalize_table_column_preference (some raw)).pinned;
  pin_right = flag_again raw.pin_right i;
  width = width_again raw.width i;
  label = text_again raw.label i;
  tip = text_again raw.tip i;
  order = (normalize_table_column_preference (some raw)).order;
  action_order = order_again raw.action_order i;
  action_inline_visible_max = inline_again raw.action_inline_visible_max i;
}
