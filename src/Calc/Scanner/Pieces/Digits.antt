-- ===== src/Calc/Scanner/Pieces/Digits.antt =====
-- packetdrill/lex.yy.c: the scanner in a number that its buffer breaks off.
use network_course.Prelude.{
  ℕ, zero, suc, ◌+◌, ◌≤◌, ◌<◌, ◌≡◌, refl, sym, ap, ◌∙◌, true, none, some, List, [], ◌∷◌, ◌++◌,
  length, ◌==◌, Bool-cases, Option-cases, if◌then◌else◌, inl, inr, arith,
}
use mathlib.Core.Option.{some-injective}
use network_course.Calc.ScannerTables.{yy_ec}
use network_course.Calc.Scanner.{Scan, char_at, chain, descend, move, previous_loop}
use network_course.Calc.Scanner.Rules.{IsText, is_digit, digits, at, InNumber, number_end}
use network_course.Calc.Scanner.Numbers.{AtCharacter, Previous, Previous-digits}

move-cp : (c : ℕ) (s s' : Scan) → move c s ≡ some s' → s'.cp ≡ s.cp + 1
unfolding move
move-cp c s s' h = elim (Option-cases (descend chain s.state c)) [
  | inl e ↦ absurd (ground arith)
  | inr (n, e) ↦ sym (ap (λ q. q.cp) (some-injective _ s' (rw (move, e) at h)))
]

char_at-append : (t p : List ℕ) (i : ℕ) → i < length t → char_at (t ++ p) i ≡ char_at t i
char_at-append [] p i h = absurd (omega arith)
char_at-append (x ∷ t) p zero h = refl
char_at-append (x ∷ t) p (suc i) h = char_at-append t p i (omega arith)

abbrev previous_class : ℕ → ℕ
previous_class c = if c == 0 then 1 else yy_ec c

previous_none :
    (n : ℕ) (t : List ℕ) (s : Scan)
    → move (previous_class (char_at t s.cp)) s ≡ none
    → previous_loop (suc n) t s ≡ none
unfolding previous_loop
previous_none n t s h = rw (previous_loop, h) refl

previous_some :
    (n : ℕ) (t : List ℕ) (s q : Scan)
    → move (previous_class (char_at t s.cp)) s ≡ some q
    → previous_loop (suc n) t s ≡ previous_loop n t q
unfolding previous_loop
previous_some n t s q h = rw (previous_loop, h) refl

-- What stands behind the characters that are gone over does not matter.
previous_loop-append :
    (n : ℕ) (t p : List ℕ) (s : Scan)
    → s.cp + n ≤ length t
    → previous_loop n (t ++ p) s ≡ previous_loop n t s
unfolding previous_loop
previous_loop-append zero t p s h = refl
previous_loop-append (suc n) t p s h =
    let same = char_at-append t p s.cp (omega arith) in
    elim (Option-cases (move (previous_class (char_at t s.cp)) s)) [
      | inl e ↦ previous_none n (t ++ p) s (rw same e) ∙ rw (previous_none n t s e) refl
      | inr (q, e) ↦
          let next = move-cp (previous_class (char_at t s.cp)) s q e in
          previous_some n (t ++ p) s q (rw same e)
          ∙ previous_loop-append n t p q (omega (arith, next))
          ∙ rw (previous_some n t s q e) refl
    ]

-- The state after the digits of a number that goes on in the next piece, or ends with the text.
pub Previous-piece :
    (c : ℕ) (cs p : List ℕ) (ls lc : ℕ)
    → IsText (c ∷ cs)
    → is_digit c ≡ true
    → digits cs ≡ length cs
    → Previous ((c ∷ cs) ++ p) (length (c ∷ cs)) (length (c ∷ cs)) (at 1 0 ls lc)
Previous-piece c cs p ls lc t d l =
    let r = Previous-digits c cs ls lc t d l in
    record {
      end = r.end;
      in_number = r.in_number;
      end_cp = r.end_cp;
      runs =
          previous_loop-append (length (c ∷ cs)) (c ∷ cs) p (at 1 0 ls lc) (omega arith) ∙ r.runs;
    }

pub number_end-all :
    (st k : ℕ) (rest : List ℕ)
    → digits rest ≡ length rest
    → number_end st k rest ≡ at 11 (k + length rest + 2) 3 (k + length rest + 1)
number_end-all st k [] l = ground arith
number_end-all st k (c ∷ cs) l = elim (Bool-cases (is_digit c)) [
  | inl d ↦ rw d (number_end-all 10 (k + 1) cs (ground arith) ∙ ground arith)
  | inr d ↦ absurd (ground arith)
]

pub number_end-some :
    (st k : ℕ) (rest : List ℕ)
    → InNumber st
    → digits rest < length rest
    → AtCharacter k (digits rest) (number_end st k rest)
number_end-some st k [] n l = absurd (omega arith)
number_end-some st k (c ∷ cs) n l = elim (Bool-cases (is_digit c)) [
  | inl d ↦ rw d (
      let a = number_end-some 10 (k + 1) cs (inr refl) (ground arith) in
      record {
        state_before = a.state_before;
        in_number = a.in_number;
        stopped = a.stopped ∙ ground arith;
      })
  | inr d ↦ rw d (record { state_before = st; in_number = n; stopped = ground arith })
]

pub digits_most : (cs : List ℕ) → digits cs ≤ length cs
digits_most [] = omega arith
digits_most (c ∷ cs) = ground (arith, digits_most cs)

pub digits-broken : (cs p : List ℕ) → digits cs < length cs → digits (cs ++ p) ≡ digits cs
digits-broken [] p l = absurd (omega arith)
digits-broken (c ∷ cs) p l = elim (Bool-cases (is_digit c)) [
  | inl d ↦ rw d (ap suc (digits-broken cs p (ground arith)))
  | inr d ↦ rw d refl
]

pub digits-joined :
    (cs p : List ℕ) → digits cs ≡ length cs → digits (cs ++ p) ≡ length cs + digits p
digits-joined [] p l = omega arith
digits-joined (c ∷ cs) p l = elim (Bool-cases (is_digit c)) [
  | inl d ↦ rw d (let r = digits-joined cs p (ground arith) in omega (arith, r))
  | inr d ↦ absurd (ground arith)
]
