-- ===== src/Calc/Scanner/Numbers.antt =====
-- The scanner of packetdrill/lex.yy.c on numbers: where its loop stops, and the states it goes back to.
use network_course.Prelude.{
  ℕ, suc, ◌+◌, ◌<◌, ◌≡◌, ◌≢◌, refl, ap, ◌∙◌, true, false, some, List, [], ◌∷◌, length, drop,
  Bool-cases, ◌⊎◌, inl, inr, arith,
}
use network_course.Calc.ScannerTables.{yy_accept, yy_ec, yy_base}
use network_course.Calc.Scanner.{
  Scan, char_at, move, match_loop, previous_loop, begin, back_up, find, end_of_buffer, buffer_end,
}
use network_course.Calc.Scanner.Rules.{
  IsText, is_digit, rule, digits, at, char_at-drop, InNumber, number_end, match_number, match_more,
  class, class_digit, move_digit, at_char, drop_next,
}

-- The loop stopped in a state that accepts, or whose last accepting state does.
pub find_stop :
    (f : ℕ) (text : List ℕ) (s m : Scan) (act : ℕ)
    → match_loop (length text + 3) text s ≡ some m
    → yy_accept (back_up m).state ≡ act
    → act ≢ end_of_buffer
    → find (suc f) true text s ≡ some (act, back_up m)
unfolding find
find_stop f text s m act e a n = ground arith

pub rule-accept : (c : ℕ) → is_digit c ≡ false → yy_accept (3 + class c) ≡ rule c
unfolding yy_accept
rule-accept c h = ground arith

pub back_up_self : (s : Scan) → yy_accept s.state ≢ 0 → back_up s ≡ s
unfolding back_up
back_up_self s h = ground arith

-- The two ways in which the loop stops after a number: at a character, or at the buffer's end.
pub record AtCharacter (k m : ℕ) (s : Scan) : Type 0 where
  pub state_before : ℕ
  pub in_number : InNumber state_before
  pub stopped : s ≡ at 11 (k + m + 1) state_before (k + m)

pub number_end_cases :
    (st k : ℕ) (rest : List ℕ)
    → InNumber st
    → AtCharacter k (digits rest) (number_end st k rest)
      ⊎ ((number_end st k rest ≡ at 11 (k + digits rest + 2) 3 (k + digits rest + 1))
          × (digits rest ≡ length rest))
number_end_cases st k [] n = inr (ground arith, refl)
number_end_cases st k (c ∷ cs) n = elim (Bool-cases (is_digit c)) [
  | inl d ↦ rw d (elim (number_end_cases 10 (k + 1) cs (inr refl)) [
    | inl a ↦ inl (record {
      state_before = a.state_before;
      in_number = a.in_number;
      stopped = a.stopped ∙ ground arith;
    })
    | inr (e, l) ↦ inr (e ∙ ground arith, ap suc l)
  ])
  | inr d ↦ rw d (inl (record { state_before = st; in_number = n; stopped = ground arith }))
]

-- `yy_get_previous_state` over the digits of a number.
pub record Previous (text : List ℕ) (n k : ℕ) (s : Scan) : Type 0 where
  pub end : Scan
  pub in_number : InNumber end.state
  pub end_cp : end.cp ≡ k
  pub runs : previous_loop n text s ≡ some end

previous_round :
    (n : ℕ) (text : List ℕ) (s s' : Scan)
    → char_at text s.cp ≢ 0
    → move (yy_ec (char_at text s.cp)) s ≡ some s'
    → previous_loop (suc n) text s ≡ previous_loop n text s'
unfolding previous_loop
previous_round n text s s' z e = ground arith

digit_char :
    (k c : ℕ) (text cs : List ℕ) → drop k text ≡ c ∷ cs → is_digit c ≡ true → char_at text k ≢ 0
digit_char k c text cs e d = rw (char_at-drop k text, e) (ground arith)

Previous-number :
    (rest text : List ℕ) (k st ls lc : ℕ)
    → InNumber st
    → IsText rest
    → digits rest ≡ length rest
    → drop k text ≡ rest
    → Previous text (length rest) (k + length rest) (at st k ls lc)
unfolding previous_loop
Previous-number [] text k st ls lc n t l e = record {
  end = at st k ls lc;
  in_number = n;
  end_cp = omega arith;
  runs = refl;
}
Previous-number (c ∷ cs) text k st ls lc n (p, b, t) l e = elim (Bool-cases (is_digit c)) [
  | inl d ↦
      let r =
        Previous-number cs text (k + 1) 10 st k (inr refl) t (ground arith)
          (drop_next k c text cs e) in
      record {
        end = r.end;
        in_number = r.in_number;
        end_cp = omega (arith, r.end_cp);
        runs =
            previous_round (length cs) text (at st k ls lc) (at 10 (k + 1) st k)
              (digit_char k c text cs e d)
              (rw (at_char k text c 5 cs e p b (class_digit c d)) (move_digit st k ls lc n))
            ∙ r.runs;
      }
  | inr d ↦ absurd (ground arith)
]

pub find-buffer_end :
    (f : ℕ) (text : List ℕ) (s m p : Scan)
    → match_loop (length text + 3) text s ≡ some m
    → yy_accept (back_up m).state ≡ end_of_buffer
    → buffer_end text (back_up m) ≡ some (some (false, p))
    → back_up p ≡ p
    → yy_accept p.state ≡ 2
    → find (suc (suc f)) true text s ≡ some (2, p)
unfolding find
find-buffer_end f text s m p e a b u k = ground arith

pub buffer_end_number :
    (text : List ℕ) (s p : Scan)
    → s.cp ≡ length text + 1
    → 0 < length text
    → previous_loop (length text) text (begin s) ≡ some p
    → buffer_end text s ≡ some (some (false, p))
unfolding buffer_end
buffer_end_number text s p e z h = ground arith

pub InNumber-accept : (st : ℕ) → InNumber st → yy_accept st ≡ 2
unfolding yy_accept
InNumber-accept st n = ground arith

first_digit : (ls lc : ℕ) → move 5 (at 1 0 ls lc) ≡ some (at 8 1 ls lc)
unfolding move
first_digit ls lc = refl

pub match_digits :
    (c : ℕ) (cs : List ℕ) (ls lc : ℕ)
    → IsText (c ∷ cs)
    → is_digit c ≡ true
    → match_loop (length (c ∷ cs) + 3) (c ∷ cs) (at 1 0 ls lc) ≡ some (number_end 8 1 cs)
match_digits c cs ls lc (p, b, t) d =
    ap (λ f. match_loop f (c ∷ cs) (at 1 0 ls lc)) (omega arith)
    ∙ match_more (length cs + 3) (c ∷ cs) (at 1 0 ls lc) (at 8 1 ls lc)
        (rw (at_char 0 (c ∷ cs) c 5 cs refl p b (class_digit c d)) (first_digit ls lc))
        (unfold yy_base in refl)
    ∙ match_number cs (c ∷ cs) 1 (length cs + 3) 8 ls lc (inl refl) t refl (omega arith)

pub Previous-digits :
    (c : ℕ) (cs : List ℕ) (ls lc : ℕ)
    → IsText (c ∷ cs)
    → is_digit c ≡ true
    → digits cs ≡ length cs
    → Previous (c ∷ cs) (length (c ∷ cs)) (length (c ∷ cs)) (at 1 0 ls lc)
Previous-digits c cs ls lc (p, b, t) d l =
    let r = Previous-number cs (c ∷ cs) 1 8 ls lc (inl refl) t l refl in
    record {
      end = r.end;
      in_number = r.in_number;
      end_cp = omega (arith, r.end_cp);
      runs =
          previous_round (length cs) (c ∷ cs) (at 1 0 ls lc) (at 8 1 ls lc)
            (digit_char 0 c (c ∷ cs) cs refl d)
            (rw (at_char 0 (c ∷ cs) c 5 cs refl p b (class_digit c d)) (first_digit ls lc))
          ∙ r.runs;
    }
