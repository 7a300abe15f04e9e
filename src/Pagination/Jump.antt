-- ===== src/Pagination/Jump.antt =====
-- lib/pagination.ts: the page that a user types. A text is a list of code units; `Number.parseInt` on a
-- text of digits is the platform's and a parameter, `none` where its result is not finite.
use omni_python_web_template.Base.{
  ℕ, Option, none, some, if◌then◌else◌, filter, is_nil, ltb, nat_eq,
}
use omni_python_web_template.Base.Codes.{Codes, is_digit}

-- `raw.replace(/\D/g, "")`
unfoldable pub sanitize_page_jump_input : Codes → Codes
sanitize_page_jump_input raw = filter is_digit raw

-- `!Number.isFinite(n) || n < 1`
abbrev pub positive_page : Option ℕ → Option ℕ
positive_page none = none
positive_page (some n) = if ltb n 1 then none else some n

module _ (parse_int : Codes → Option ℕ) where
  unfoldable pub parse_page_jump_input : Codes → Option ℕ
  parse_page_jump_input raw =
      let digits = sanitize_page_jump_input raw in
      if is_nil digits then none else positive_page (parse_int digits)
