-- ===== src/Calc/Scanner/Match.antt =====
-- `yylex` takes the longest match of the first rule of packetdrill/calc.l that fits.
use network_course.Prelude.{
  ℕ, suc, ◌+◌, ◌*◌, ◌≡◌, refl, ap, ◌∙◌, true, false, some, List, [], ◌∷◌, length, Bool-cases, inl,
  inr, arith,
}
use network_course.Calc.ScannerTables.{yy_accept}
use network_course.Calc.Scanner.{Scan, match_loop, begin, back_up, find, scan, state_eof}
use network_course.Calc.Scanner.Rules.{
  IsText, is_digit, rule, digits, match_length, at, match-Single, InNumber, class, yy_ec-class,
  class_other,
}
use network_course.Calc.Scanner.Numbers.{
  find_stop, rule-accept, back_up_self, number_end_cases, find-buffer_end, buffer_end_number,
  InNumber-accept, match_digits, Previous-digits,
}

-- `yylex` is to take action `act`, on the first `n` characters of the text.
pub record Scanned (text : List ℕ) (s : Scan) (act n : ℕ) : Type 0 where
  pub end : Scan
  pub runs : scan text s ≡ some (act, end)
  pub end_cp : end.cp ≡ n

scan-find :
    (f : ℕ) (text : List ℕ) (s : Scan)
    → 2 * length text + 4 ≡ f
    → scan text s ≡ find f true text (begin s)
unfolding scan
scan-find f text s e = ap (λ g. find g true text (begin s)) e

scan_other :
    (c : ℕ) (cs : List ℕ) (s : Scan)
    → IsText (c ∷ cs)
    → is_digit c ≡ false
    → Scanned (c ∷ cs) s (rule c) 1
scan_other c cs s (p, b, t) d =
    let m = at (3 + class c) 1 s.last_state s.last_cp in
    let act = rule-accept c d in
    let stay = back_up_self m (rw act (ground arith)) in
    record {
      end = m;
      runs =
          scan-find (suc (2 * length (c ∷ cs) + 3)) (c ∷ cs) s (omega arith)
          ∙ find_stop (2 * length (c ∷ cs) + 3) (c ∷ cs) (begin s) m (rule c)
              (ap (λ f. match_loop f (c ∷ cs) (begin s)) (omega arith)
                ∙ match-Single (class c) c cs (length cs + 3) s.last_state s.last_cp
                    (yy_ec-class c p b) (class_other c d))
              (rw stay act) (ground arith)
          ∙ ap (λ q. some (rule c, q)) stay;
      end_cp = refl;
    }

pub rule_digit : (c : ℕ) → is_digit c ≡ true → rule c ≡ 2
rule_digit c d = ground arith

pub back_up_number : (st k : ℕ) → InNumber st → back_up (at 11 (k + 1) st k) ≡ at st k st k
unfolding back_up
back_up_number st k n = refl

scan_number :
    (c : ℕ) (cs : List ℕ) (s : Scan)
    → IsText (c ∷ cs)
    → is_digit c ≡ true
    → Scanned (c ∷ cs) s 2 (suc (digits cs))
scan_number c cs s t d = elim (number_end_cases 8 1 cs (inl refl)) [
  | inl a ↦
      let k = 1 + digits cs in
      let m = at 11 (k + 1) a.state_before k in
      let stay = back_up_number a.state_before k a.in_number in
      record {
        end = back_up m;
        runs =
            scan-find (suc (2 * length (c ∷ cs) + 3)) (c ∷ cs) s (omega arith)
            ∙ find_stop (2 * length (c ∷ cs) + 3) (c ∷ cs) (begin s) m 2
                (match_digits c cs s.last_state s.last_cp t d ∙ ap some a.stopped)
                (rw stay (InNumber-accept a.state_before a.in_number)) (ground arith);
        end_cp = rw stay (omega arith);
      }
  | inr (e, l) ↦
      let k = 1 + digits cs in
      let m = at 11 (k + 2) 3 (k + 1) in
      let b = at 3 (k + 1) 3 (k + 1) in
      let stay : back_up m ≡ b = unfold back_up in refl in
      let r = Previous-digits c cs 3 (k + 1) t d l in
      record {
        end = r.end;
        runs =
            scan-find (suc (suc (2 * length (c ∷ cs) + 2))) (c ∷ cs) s (omega arith)
            ∙ find-buffer_end (2 * length (c ∷ cs) + 2) (c ∷ cs) (begin s) m r.end
                (match_digits c cs s.last_state s.last_cp t d ∙ ap some e)
                (rw stay (unfold yy_accept in refl))
                (rw stay
                  (buffer_end_number (c ∷ cs) b r.end (omega (arith, l)) (omega arith) r.runs))
                (back_up_self r.end (rw (InNumber-accept r.end.state r.in_number) (ground arith)))
                (InNumber-accept r.end.state r.in_number);
        end_cp = omega (arith, r.end_cp, l);
      }
]

pub match_length-one : (c : ℕ) (cs : List ℕ) → is_digit c ≡ false → match_length c cs ≡ 1
match_length-one c cs d = ground arith

-- On a text of bytes with no 0 among them, and whatever the scanner's variables held, `yylex` applies the first rule of calc.l that fits the first
-- character, to the longest run of digits or to that one character.
pub scan_lem :
    (c : ℕ) (cs : List ℕ) (s : Scan)
    → IsText (c ∷ cs)
    → Scanned (c ∷ cs) s (rule c) (match_length c cs)
scan_lem c cs s t = elim (Bool-cases (is_digit c)) [
  | inl d ↦ rw (rule_digit c d, d) (scan_number c cs s t d)
  | inr d ↦ rw (match_length-one c cs d) (scan_other c cs s t d)
]

-- With no text left, and whatever its variables held, it takes the action of the end of the file.
pub scan_end : (s : Scan) → Scanned [] s state_eof 1
unfolding scan
scan_end s = record { end = at 3 1 3 1; runs = refl; end_cp = refl }
