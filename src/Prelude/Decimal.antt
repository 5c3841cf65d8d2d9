-- ===== src/Prelude/Decimal.antt =====
-- `str(n)` of a number that is not negative: its decimal digits, which determine the number.
use Prim.Native.Nat.{ℕ, zero, suc, ◌+◌, ◌-◌, ◌*◌, ◌/◌, ◌%◌, ◌<◌, ◌≤◌}
use Prim.Native.Char.{Char, code}
use Prim.Native.String.{String}
use mathlib.Core.Path.{◌≡◌, refl, ap, sym, ◌∙◌}
use native.Mathlib.Omega.{arith}
use proofrail_evidence_api.Prelude.Tests.{ltb, if◌then◌else◌}

digit : ℕ → Char
digit zero = "0"
digit (suc zero) = "1"
digit (suc (suc zero)) = "2"
digit (suc (suc (suc zero))) = "3"
digit (suc (suc (suc (suc zero)))) = "4"
digit (suc (suc (suc (suc (suc zero))))) = "5"
digit (suc (suc (suc (suc (suc (suc zero)))))) = "6"
digit (suc (suc (suc (suc (suc (suc (suc zero))))))) = "7"
digit (suc (suc (suc (suc (suc (suc (suc (suc zero)))))))) = "8"
digit (suc (suc (suc (suc (suc (suc (suc (suc (suc d))))))))) = "9"

-- the digits of a number in front of a text; the first argument, at least the number, is the fuel
digits : ℕ → ℕ → String → String
digits zero n out = String.◌∷◌ (digit n) out
digits (suc fuel) n out =
    let more = digits fuel (n / 10) (String.◌∷◌ (digit (n % 10)) out) in
    if ltb 9 n then more else String.◌∷◌ (digit n) out

unfoldable pub show : ℕ → String
unfolding digits digit
show n = digits n n String.[]

-- the number that digits spell, from the number of those before
value : ℕ → String → ℕ
value n String.[] = n
value n (String.◌∷◌ c s) = value (n * 10 + (code c - 48)) s

code-digit : (d : ℕ) → d < 10 → code (digit d) ≡ 48 + d
unfolding digit
code-digit zero h = refl
code-digit (suc zero) h = refl
code-digit (suc (suc zero)) h = refl
code-digit (suc (suc (suc zero))) h = refl
code-digit (suc (suc (suc (suc zero)))) h = refl
code-digit (suc (suc (suc (suc (suc zero))))) h = refl
code-digit (suc (suc (suc (suc (suc (suc zero)))))) h = refl
code-digit (suc (suc (suc (suc (suc (suc (suc zero))))))) h = refl
code-digit (suc (suc (suc (suc (suc (suc (suc (suc zero)))))))) h = refl
code-digit (suc (suc (suc (suc (suc (suc (suc (suc (suc zero))))))))) h = refl
code-digit (suc (suc (suc (suc (suc (suc (suc (suc (suc (suc d)))))))))) h =
    absurd (omega (arith, h))

value-digits : (fuel n : ℕ) (out : String) → n ≤ fuel → value 0 (digits fuel n out) ≡ value n out
unfolding digits value
value-digits zero n out h = ground (arith, h, code-digit n)
value-digits (suc fuel) n out h = ground (
  arith,
  h,
  code-digit n,
  code-digit (n % 10),
  value-digits fuel (n / 10) (String.◌∷◌ (digit (n % 10)) out),
)

-- the digits tell numbers apart
pub show-injective : (m n : ℕ) → show m ≡ show n → m ≡ n
unfolding show value
show-injective m n h =
    sym (value-digits m m String.[] (omega arith))
    ∙ ap (value 0) h
    ∙ value-digits n n String.[] (omega arith)
