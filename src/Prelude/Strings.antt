-- ===== src/Prelude/Strings.antt =====
-- C strings in a buffer of bytes.
use Prim.Native.Nat.{ℕ}
use mathlib.Core.Path.{◌≡◌, refl}
use mathlib.Core.Bool.{false}
use mathlib.Core.List.{List, [], ◌∷◌, ◌++◌}
use network_course.Prelude.Tests.{◌==◌, if◌then◌else◌}

-- The bytes of a C string, up to the first 0: `strlen` counts them.
abbrev pub c_string : List ℕ → List ℕ
c_string [] = []
c_string (c ∷ cs) = let rest = c_string cs in if c == 0 then [] else c ∷ rest

abbrev pub NoZero : List ℕ → Type 0
NoZero [] = Unit
NoZero (c ∷ cs) = ((c == 0) ≡ false) × NoZero cs

-- Behind a string in a buffer stands a 0, and then anything.
pub c_string-append : (cs rest : List ℕ) → NoZero cs → c_string (cs ++ 0 ∷ rest) ≡ cs
c_string-append [] rest h = refl
c_string-append (c ∷ cs) rest (z, h) = rw (z, c_string-append cs rest h) refl

pub c_string-NoZero : (cs : List ℕ) → NoZero cs → c_string cs ≡ cs
c_string-NoZero [] h = refl
c_string-NoZero (c ∷ cs) (z, h) = rw (z, c_string-NoZero cs h) refl
