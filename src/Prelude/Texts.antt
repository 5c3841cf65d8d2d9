-- ===== src/Prelude/Texts.antt =====
-- The order of texts by code points, as SQLite's BINARY collation compares their UTF-8 bytes.
use Prim.Native.Char.{code}
use Prim.Native.String.{String, [], ◌∷◌}
use mathlib.Core.Path.{◌≡◌, refl}
use mathlib.Core.Bool.{Bool, true, false, ◌&&◌, ◌||◌}
use native.Mathlib.Omega.{arith}
use text.Mathlib.TextEquality.{Char-path}
use proofrail_evidence_api.Prelude.Tests.{ltb, ◌==◌}

unfoldable pub text_lt : String → String → Bool
text_lt [] [] = false
text_lt [] (d ∷ t) = true
text_lt (c ∷ s) [] = false
text_lt (c ∷ s) (d ∷ t) =
    let rest = text_lt s t in ltb (code c) (code d) || ((code c == code d) && rest)

pub text_lt-irreflexive : (s : String) → text_lt s s ≡ false
unfolding text_lt
text_lt-irreflexive [] = refl
text_lt-irreflexive (c ∷ s) = ground (arith, text_lt-irreflexive s)

pub text_lt-transitive :
    (s t u : String) → text_lt s t ≡ true → text_lt t u ≡ true → text_lt s u ≡ true
unfolding text_lt
text_lt-transitive s [] [] h k = ground (arith, k)
text_lt-transitive [] [] (e ∷ u) h k = refl
text_lt-transitive (c ∷ s) [] (e ∷ u) h k = ground (arith, h)
text_lt-transitive s (d ∷ t) [] h k = ground (arith, k)
text_lt-transitive [] (d ∷ t) (e ∷ u) h k = refl
text_lt-transitive (c ∷ s) (d ∷ t) (e ∷ u) h k = ground (arith, h, k, text_lt-transitive s t u)

-- two texts that the order does not tell apart are one
pub text_lt-total : (s t : String) → text_lt s t ≡ false → text_lt t s ≡ false → s ≡ t
unfolding text_lt
text_lt-total [] [] h k = refl
text_lt-total [] (d ∷ t) h k = ground (arith, h)
text_lt-total (c ∷ s) [] h k = ground (arith, k)
text_lt-total (c ∷ s) (d ∷ t) h k =
    let same : code c ≡ code d = ground (arith, h, k) in
    let heads = Char-path c d same in
    let tails = text_lt-total s t (ground (arith, h, same)) (ground (arith, k, same)) in
    λ i. heads i ∷ tails i
