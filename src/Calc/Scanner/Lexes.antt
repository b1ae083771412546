-- ===== src/Calc/Scanner/Lexes.antt =====
-- The tokens of a text, as packetdrill/calc.l describes them.
use network_course.Prelude.{
  ℕ, suc, ◌+◌, ◌-◌, ◌<◌, ◌^◌, ◌≡◌, refl, ap, Bool, true, false, ◌&&◌, none, some, List, [], ◌∷◌,
  ◌++◌, length, if◌then◌else◌, arith,
}
use network_course.Prelude.Int.{pos}
use network_course.Calc.State.{Token}
use network_course.Calc.Grammar.{integer_token, variable_token}
use network_course.Calc.Scanner.{atoi}
use network_course.Calc.Scanner.Rules.{
  is_letter, is_digit, is_operator, is_blank, rule, digits, match_length,
}

abbrev pub all_digits : List ℕ → Bool
all_digits [] = true
all_digits (c ∷ cs) = is_digit c && all_digits cs

-- A text that no digit begins.
abbrev pub no_digit : List ℕ → Bool
no_digit [] = true
no_digit (c ∷ cs) = if is_digit c then false else true

-- The tokens of a text, and how many of its characters are invalid.
pub data Lexes : List ℕ → List Token → ℕ → Type 0 where
  no_text : Lexes [] [] 0
  letter :
      (c : ℕ) (cs : List ℕ) (ts : List Token) (bad : ℕ)
      → is_letter c ≡ true
      → Lexes cs ts bad
      → Lexes (c ∷ cs) ((variable_token, some (pos (c - b'a'))) ∷ ts) bad
  numeral :
      (c : ℕ) (cs rest : List ℕ) (ts : List Token) (bad : ℕ)
      → is_digit c ≡ true
      → all_digits cs ≡ true
      → no_digit rest ≡ true
      → atoi (c ∷ cs) < 2 ^ 31
      → Lexes rest ts bad
      → Lexes (c ∷ cs ++ rest) ((integer_token, some (pos (atoi (c ∷ cs)))) ∷ ts) bad
  operator :
      (c : ℕ) (cs : List ℕ) (ts : List Token) (bad : ℕ)
      → is_operator c ≡ true
      → Lexes cs ts bad
      → Lexes (c ∷ cs) ((c, none) ∷ ts) bad
  blank :
      (c : ℕ) (cs : List ℕ) (ts : List Token) (bad : ℕ)
      → is_blank c ≡ true
      → Lexes cs ts bad
      → Lexes (c ∷ cs) ts bad
  invalid_char :
      (c : ℕ) (cs : List ℕ) (ts : List Token) (bad : ℕ)
      → rule c ≡ 5
      → Lexes cs ts bad
      → Lexes (c ∷ cs) ts (bad + 1)

pub rule_letter : (c : ℕ) → is_letter c ≡ true → rule c ≡ 1
rule_letter c h = ground arith

pub rule_operator : (c : ℕ) → is_operator c ≡ true → rule c ≡ 3
rule_operator c h = ground arith

pub rule_blank : (c : ℕ) → is_blank c ≡ true → rule c ≡ 4
rule_blank c h = ground arith

pub not_digit : (c : ℕ) (cs : List ℕ) → is_digit c ≡ false → match_length c cs ≡ 1
not_digit c cs h = ground arith

pub letter_no_digit : (c : ℕ) → is_letter c ≡ true → is_digit c ≡ false
letter_no_digit c h = ground arith

pub operator_no_digit : (c : ℕ) → is_operator c ≡ true → is_digit c ≡ false
operator_no_digit c h = ground arith

pub blank_no_digit : (c : ℕ) → is_blank c ≡ true → is_digit c ≡ false
blank_no_digit c h = ground arith

pub rule_no_digit : (c : ℕ) → rule c ≡ 5 → is_digit c ≡ false
rule_no_digit c h = ground arith

pub digits-append :
    (cs rest : List ℕ)
    → all_digits cs ≡ true
    → no_digit rest ≡ true
    → digits (cs ++ rest) ≡ length cs
digits-append [] [] a n = refl
digits-append [] (c ∷ rest) a n = ground arith
digits-append (c ∷ cs) rest a n =
    let first : is_digit c ≡ true = ground arith in
    let others : all_digits cs ≡ true = ground arith in
    rw first (ap suc (digits-append cs rest others n))
