-- ===== src/Stdplus/Tests.antt =====
-- The theorems on ranges and on integers at concrete inputs.
use galaxy.Prelude.{◌≡◌, refl, true, false}
use galaxy.Stdplus.Eint.{pos, negsuc, IntegralType}
use galaxy.Stdplus.Eint.Compare.{eint_less, eint_equal, eint_greater, eint_compare_exact}

abbrev signed_char : IntegralType
signed_char = record { is_signed = true; max_value = 127 }

abbrev unsigned_int : IntegralType
unsigned_int = record { is_signed = false; max_value = 4294967295 }

-- -1 and 4294967295
eint_compare_exact_example :
    (eint_less signed_char unsigned_int (negsuc 0) (pos 4294967295) ≡ true)
    × (eint_equal signed_char unsigned_int (negsuc 0) (pos 4294967295) ≡ false)
    × (eint_greater signed_char unsigned_int (negsuc 0) (pos 4294967295) ≡ false)
eint_compare_exact_example =
    eint_compare_exact signed_char unsigned_int (negsuc 0) (pos 4294967295) refl refl
