-- ===== src/Screening/Fraction/Tests.antt =====
-- Runs of `round_percent`: a half goes to the even neighbour, as Python's `round` has it, except where
-- the double lies below the half.
use proofrail_evidence_api.Screening.Fraction.{round_percent, tie_up}
use proofrail_evidence_api.Prelude.{◌≡◌, refl}

half_up : round_percent (record { num = 179; den = 200 }) ≡ 90
unfolding round_percent tie_up
half_up = refl

half_down : round_percent (record { num = 181; den = 200 }) ≡ 90
unfolding round_percent tie_up
half_down = refl

below_half : round_percent (record { num = 89; den = 100 }) ≡ 89
unfolding round_percent tie_up
below_half = refl

double_below_half :
    (round_percent (record { num = 23; den = 40 }) ≡ 57)
    × (round_percent (record { num = 109; den = 200 }) ≡ 55)
unfolding round_percent tie_up
double_below_half = (refl, refl)
