-- ===== src/Decimal/Tests.antt =====
-- Values that Python computes, checked by evaluation.
use gm_validator.Prelude.{◌≡◌, refl}
use gm_validator.Prelude.Int.{pos, negsuc}
use gm_validator.Decimal.{of_int, one, div, to_int, floor_scale}

-- Decimal(1) / 65535
quantum_value :
    div one (of_int (pos 65535))
    ≡ record { coef = pos 1525902189669642175936522469; exp = negsuc 31 }
unfolding div
quantum_value = refl

-- Decimal(2) / 3 rounds up in the last place.
two_thirds :
    div (of_int (pos 2)) (of_int (pos 3))
    ≡ record { coef = pos 6666666666666666666666666667; exp = negsuc 27 }
unfolding div
two_thirds = refl

floors_below_zero : floor_scale (negsuc 6) (record { coef = pos 5; exp = negsuc 0 }) ≡ negsuc 3
unfolding floor_scale
floors_below_zero = refl

truncates : to_int (record { coef = negsuc 24; exp = negsuc 0 }) ≡ negsuc 1
unfolding to_int
truncates = refl
