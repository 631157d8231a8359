-- ===== src/Common/Examples.antt =====
-- Concrete values of the shared definitions.
use llm_inference_control_pl.Common.{◌≡◌, refl, true, false, ◌+◌, ◌^◌}
use llm_inference_control_pl.Common.Decimal.{format_int}
use llm_inference_control_pl.Common.Float.{
  float_lt, float_eq, zero_bits, one_bits, two_and_half_bits, nan_bits,
}

format_int_used : format_int 9223372036854775807 ≡ "9223372036854775807"
unfolding format_int
format_int_used = refl

float_order :
    (float_lt one_bits two_and_half_bits ≡ true)
    × (float_lt (2 ^ 63 + one_bits) zero_bits ≡ true)
    × (float_eq (2 ^ 63) zero_bits ≡ true)
unfolding float_lt float_eq
float_order = (refl, refl, refl)

float_nan : (float_lt nan_bits one_bits ≡ false) × (float_eq nan_bits nan_bits ≡ false)
unfolding float_lt float_eq
float_nan = (refl, refl)
