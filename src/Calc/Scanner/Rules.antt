-- ===== src/Calc/Scanner/Rules.antt =====
-- Which rule of packetdrill/calc.l the scanner applies, and to how much of the text.
use network_course.Prelude.{
  ℕ, zero, suc, ◌+◌, ◌<◌, ◌≡◌, refl, ap, ◌∙◌, Bool, true, false, ◌&&◌, ◌||◌, some, List, [], ◌∷◌,
  length, drop, leb, ◌==◌, ==_iff, Bool-cases, if◌then◌else◌, ◌⊎◌, inl, inr, arith, holds_below,
  holds_below_at,
}
use native.Mathlib.Numerals.{add-one}
use network_course.Calc.ScannerTables.{yy_ec, yy_base}
use network_course.Calc.Scanner.{Scan, char_at, move, match_loop}

-- The patterns of calc.l, on one character.
abbrev pub is_letter : ℕ → Bool
is_letter c = leb b'a' c && leb c b'z'

abbrev pub is_digit : ℕ → Bool
is_digit c = leb b'0' c && leb c b'9'

abbrev pub is_operator : ℕ → Bool
is_operator c =
    c == b'-'
    || c == b'+'
    || c == b'('
    || c == b')'
    || c == b'='
    || c == b'/'
    || c == b'*'
    || c == b'\n'

abbrev pub is_blank : ℕ → Bool
is_blank c = c == b' ' || c == b'\t'

-- The rule whose pattern a text that begins with `c` matches.
abbrev pub rule : ℕ → ℕ
rule c =
    if is_letter c
    then 1
    else if is_digit c
    then 2
    else if is_operator c
    then 3
    else if is_blank c
    then 4
    else 5

-- How many digits a text begins with.
abbrev pub digits : List ℕ → ℕ
digits [] = 0
digits (c ∷ cs) = if is_digit c then suc (digits cs) else 0

-- The length of the longest match.
abbrev pub match_length : ℕ → List ℕ → ℕ
match_length c cs = if is_digit c then suc (digits cs) else 1

-- Characters of a text with no 0 in it.
abbrev pub IsText : List ℕ → Type 0
IsText [] = Unit
IsText (c ∷ cs) = (0 < c) × (c < 256) × IsText cs

-- The classes of `yy_ec`.
abbrev pub class : ℕ → ℕ
class c =
    if is_letter c
    then 6
    else if is_digit c
    then 5
    else if c == b'\n'
    then 3
    else if is_operator c
    then 4
    else if is_blank c
    then 2
    else 1

class_table : holds_below 256 (λ c. c == 0 || yy_ec c == class c) ≡ true
unfolding holds_below yy_ec
class_table = refl

pub yy_ec-class : (c : ℕ) → 0 < c → c < 256 → yy_ec c ≡ class c
yy_ec-class c p h =
    (==_iff (yy_ec c) (class c)).0
      (ground (arith, holds_below_at 256 (λ c. c == 0 || yy_ec c == class c) c class_table h))

abbrev pub at : ℕ → ℕ → ℕ → ℕ → Scan
at s k ls lc = record { state = s; cp = k; last_state = ls; last_cp = lc }

-- One round from the first state ends the loop, but for a digit.
abbrev pub Single : ℕ → Type 0
Single k = (k ≡ 1) ⊎ (k ≡ 2) ⊎ (k ≡ 3) ⊎ (k ≡ 4) ⊎ (k ≡ 6)

pub match-Single :
    (k c : ℕ) (cs : List ℕ) (f ls lc : ℕ)
    → yy_ec c ≡ k
    → Single k
    → match_loop (suc f) (c ∷ cs) (at 1 0 ls lc) ≡ some (at (3 + k) 1 ls lc)
unfolding match_loop move yy_base
match-Single k c cs f ls lc e h = ground arith

yy_ec-zero : yy_ec 0 ≡ 0
unfolding yy_ec
yy_ec-zero = refl

-- What stands at an index, by what is left from there on.
pub char_at-drop : (k : ℕ) (text : List ℕ) → char_at text k ≡ char_at (drop k text) 0
char_at-drop zero text = refl
char_at-drop (suc k) [] = refl
char_at-drop (suc k) (x ∷ text) = char_at-drop k text

drop-next : (k c : ℕ) (text rest : List ℕ) → drop k text ≡ c ∷ rest → drop (suc k) text ≡ rest
drop-next zero c [] rest h = cc
drop-next zero c (x ∷ text) rest h = cc
drop-next (suc k) c [] rest h = cc
drop-next (suc k) c (x ∷ text) rest h = drop-next k c text rest h

drop_past : (k : ℕ) (text : List ℕ) → drop k text ≡ [] → drop (suc k) text ≡ []
drop_past zero [] h = refl
drop_past zero (x ∷ text) h = cc
drop_past (suc k) [] h = refl
drop_past (suc k) (x ∷ text) h = drop_past k text h

-- A number's second and later digits, the character behind it, and the end of the buffer.
abbrev pub InNumber : ℕ → Type 0
InNumber st = (st ≡ 8) ⊎ (st ≡ 10)

pub move_digit : (st k ls lc : ℕ) → InNumber st → move 5 (at st k ls lc) ≡ some (at 10 (k + 1) st k)
unfolding move
move_digit st k ls lc h = ground arith

move_behind :
    (c st k ls lc : ℕ) → InNumber st → Single c → move c (at st k ls lc) ≡ some (at 11 (k + 1) st k)
unfolding move
move_behind c st k ls lc h j = ground arith

move_end : (st k ls lc : ℕ) → InNumber st → move 0 (at st k ls lc) ≡ some (at 3 (k + 1) st k)
unfolding move
move_end st k ls lc h = ground arith

move_end_twice : (k ls lc : ℕ) → move 0 (at 3 k ls lc) ≡ some (at 11 (k + 1) 3 k)
unfolding move
move_end_twice k ls lc = refl

-- Where the loop stops after a number, read up to `k`.
abbrev pub number_end : ℕ → ℕ → List ℕ → Scan
number_end st k [] = at 11 (k + 1 + 1) 3 (k + 1)
number_end st k (c ∷ cs) = if is_digit c then number_end 10 (k + 1) cs else at 11 (k + 1) st k

pub class_digit : (c : ℕ) → is_digit c ≡ true → class c ≡ 5
class_digit c h = ground arith

pub class_other : (c : ℕ) → is_digit c ≡ false → Single (class c)
class_other c h = ground arith

-- One round of the loop, by the move made in it.
match_stop :
    (f : ℕ) (text : List ℕ) (s s' : Scan)
    → move (yy_ec (char_at text s.cp)) s ≡ some s'
    → yy_base s'.state ≡ 9
    → match_loop (suc f) text s ≡ some s'
unfolding match_loop
match_stop f text s s' e b = ground arith

pub match_more :
    (f : ℕ) (text : List ℕ) (s s' : Scan)
    → move (yy_ec (char_at text s.cp)) s ≡ some s'
    → yy_base s'.state ≡ 0
    → match_loop (suc f) text s ≡ match_loop f text s'
unfolding match_loop
match_more f text s s' e b = ground arith

-- Likewise in the end-of-buffer state, whose base is 8.
match_past :
    (f : ℕ) (text : List ℕ) (s s' : Scan)
    → move (yy_ec (char_at text s.cp)) s ≡ some s'
    → yy_base s'.state ≡ 8
    → match_loop (suc f) text s ≡ match_loop f text s'
unfolding match_loop
match_past f text s s' e b = ground arith

pub at_char :
    (k : ℕ) (text : List ℕ) (c d : ℕ) (rest : List ℕ)
    → drop k text ≡ c ∷ rest
    → 0 < c
    → c < 256
    → class c ≡ d
    → yy_ec (char_at text k) ≡ d
at_char k text c d rest e p h j =
    ap yy_ec (char_at-drop k text ∙ ap (λ t. char_at t 0) e) ∙ yy_ec-class c p h ∙ j

at_end : (k : ℕ) (text : List ℕ) → drop k text ≡ [] → yy_ec (char_at text k) ≡ 0
at_end k text e = ap yy_ec (char_at-drop k text ∙ ap (λ t. char_at t 0) e) ∙ yy_ec-zero

pub drop_next : (k c : ℕ) (text rest : List ℕ) → drop k text ≡ c ∷ rest → drop (k + 1) text ≡ rest
drop_next k c text rest h = rw add-one (drop-next k c text rest h)

pub match_number :
    (rest text : List ℕ) (k f st ls lc : ℕ)
    → InNumber st
    → IsText rest
    → drop k text ≡ rest
    → length rest + 1 < f
    → match_loop f text (at st k ls lc) ≡ some (number_end st k rest)
match_number rest text k zero st ls lc n t e h = absurd (omega arith)
match_number [] text k (suc zero) st ls lc n t e h = absurd (omega arith)
match_number [] text k (suc (suc f)) st ls lc n t e h =
    match_past (suc f) text (at st k ls lc) (at 3 (k + 1) st k)
      (rw (at_end k text e) (move_end st k ls lc n)) (unfold yy_base in refl)
    ∙ match_stop f text (at 3 (k + 1) st k) (at 11 (k + 1 + 1) 3 (k + 1))
        (rw (at_end (k + 1) text (rw add-one (drop_past k text e))) (move_end_twice (k + 1) st k))
        (unfold yy_base in refl)
match_number (c ∷ cs) text k (suc f) st ls lc n (p, b, t) e h = elim (Bool-cases (is_digit c)) [
  | inl d ↦ rw d (
      match_more f text (at st k ls lc) (at 10 (k + 1) st k)
        (rw (at_char k text c 5 cs e p b (class_digit c d)) (move_digit st k ls lc n))
        (unfold yy_base in refl)
      ∙ match_number cs text (k + 1) f 10 st k (inr refl) t (drop_next k c text cs e) (omega arith))
  | inr d ↦ rw d (
      match_stop f text (at st k ls lc) (at 11 (k + 1) st k)
        (rw (at_char k text c (class c) cs e p b refl)
          (move_behind (class c) st k ls lc n (class_other c d)))
        (unfold yy_base in refl))
]
