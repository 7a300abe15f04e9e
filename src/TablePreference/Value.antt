-- ===== src/TablePreference/Value.antt =====
-- A value of type `unknown`, as far as the program looks into it.
use omni_python_web_template.Base.{String, Bool}
use omni_python_web_template.Base.Num.{Fraction}

mutual
  pub data Value : Type 0 where
    undefined : Value
    null : Value
    bool : Bool → Value
    num : Fraction → Value
    str : String → Value
    arr : Values → Value
    object : Value

  pub data Values : Type 0 where
    nil : Values
    cons : Value → Values → Values
