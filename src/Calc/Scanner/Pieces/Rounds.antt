-- ===== src/Calc/Scanner/Pieces/Rounds.antt =====
-- packetdrill/lex.yy.c: the rounds of `yylex` at the end of its buffer, by what the refill answers.
use network_course.Prelude.{
  ℕ, suc, ◌+◌, ◌-◌, ◌≡◌, ◌≢◌, refl, ap, ◌∙◌, Bool, true, false, none, some, List, [], ◌∷◌, ◌++◌,
  length, leb, ◌==◌, ◌>>=◌, arith,
}
use network_course.Prelude.Cells.{if-else, bind-some}
use network_course.Calc.ScannerTables.{yy_accept}
use network_course.Calc.Buffers.Refill.{Action, continue_scan, end_of_file, last_match}
use network_course.Calc.Scanner.{
  Scan, match_loop, previous_loop, begin, back_up, end_of_buffer, state_eof,
}
use network_course.Calc.Scanner.Pieces.{
  Feed, refill_action, next_buffer, refilled, feed_end, find_fed,
}

abbrev pub fed : List ℕ → List (List ℕ) → Bool → Feed
fed t ps b = record { text = t; pieces = ps; pending = b }

pub fed_stop :
    (n : ℕ) (f : Feed) (s m : Scan) (act : ℕ)
    → match_loop (length f.text + 3) f.text s ≡ some m
    → yy_accept (back_up m).state ≡ act
    → act ≢ end_of_buffer
    → find_fed (suc n) true f s ≡ some (act, back_up m, f)
unfolding find_fed
fed_stop n f s m act e a h = ground arith

pub fed_again :
    (n : ℕ) (f g : Feed) (s m q : Scan) (matching : Bool)
    → match_loop (length f.text + 3) f.text s ≡ some m
    → yy_accept (back_up m).state ≡ end_of_buffer
    → feed_end f (back_up m) ≡ some (some (matching, q), g)
    → find_fed (suc n) true f s ≡ find_fed n matching g q
unfolding find_fed
fed_again n f g s m q matching e a h = rw (find_fed, e, ◌>>=◌, a, h) refl

pub fed_eof :
    (n : ℕ) (f g : Feed) (s m : Scan)
    → match_loop (length f.text + 3) f.text s ≡ some m
    → yy_accept (back_up m).state ≡ end_of_buffer
    → feed_end f (back_up m) ≡ some (none, g)
    → find_fed (suc n) true f s ≡ some (state_eof, back_up m, g)
unfolding find_fed
fed_eof n f g s m e a h = rw (find_fed, e, ◌>>=◌, a, h) refl

pub fed_found :
    (n : ℕ) (f : Feed) (p : Scan)
    → back_up p ≡ p
    → yy_accept p.state ≡ 2
    → find_fed (suc n) false f p ≡ some (2, p, f)
unfolding find_fed
fed_found n f p u a = rw (find_fed, u, a) refl

feed_end-refilled :
    (f : Feed) (r : Action × Feed) (s : Scan) (k : ℕ)
    → s.cp ≡ k + 1
    → length f.text ≡ k
    → next_buffer k f ≡ r
    → feed_end f s ≡ refilled r s
unfolding feed_end
feed_end-refilled f r s k c l h =
    let back : s.cp - 1 ≡ k = omega (arith, c) in
    if-else {t = leb s.cp (length f.text)} _ _ (ground (arith, c, l))
    ∙ if-else {t = leb (length f.text + 2) s.cp} _ _ (ground (arith, c, l))
    ∙ ap (λ n. refilled (next_buffer n f) s) back
    ∙ ap (λ x. refilled x s) h

pub feed_continue :
    (f g : Feed) (s p : Scan) (k : ℕ)
    → s.cp ≡ k + 1
    → length f.text ≡ k
    → next_buffer k f ≡ (continue_scan, g)
    → previous_loop k g.text (begin s) ≡ some p
    → feed_end f s ≡ some (some (true, p), g)
unfolding refilled
feed_continue f g s p k c l h r =
    let back : s.cp - 1 ≡ k = omega (arith, c) in
    feed_end-refilled f (continue_scan, g) s k c l h
    ∙ bind-some {m = previous_loop (s.cp - 1) g.text (begin s)} _
        (ap (λ n. previous_loop n g.text (begin s)) back ∙ r)

pub feed_last :
    (f g : Feed) (s p : Scan) (k : ℕ)
    → s.cp ≡ k + 1
    → length f.text ≡ k
    → next_buffer k f ≡ (last_match, g)
    → previous_loop (length g.text) g.text (begin s) ≡ some p
    → feed_end f s ≡ some (some (false, p), g)
unfolding refilled
feed_last f g s p k c l h r = feed_end-refilled f (last_match, g) s k c l h ∙ bind-some _ r

pub feed_eof :
    (f g : Feed) (s : Scan) (k : ℕ)
    → s.cp ≡ k + 1
    → length f.text ≡ k
    → next_buffer k f ≡ (end_of_file, g)
    → feed_end f s ≡ some (none, g)
unfolding refilled
feed_eof f g s k c l h = feed_end-refilled f (end_of_file, g) s k c l h

pub next_piece :
    (n x : ℕ) (t p : List ℕ) (ps : List (List ℕ))
    → next_buffer n (fed t ((x ∷ p) ∷ ps) false) ≡ (continue_scan, fed (t ++ x ∷ p) ps false)
unfolding next_buffer refill_action
next_piece n x t p ps = refl

pub next_last :
    (n : ℕ) (t : List ℕ) (b : Bool)
    → (n == 0) ≡ false
    → next_buffer n (fed t [] b) ≡ (last_match, fed t [] true)
unfolding next_buffer refill_action
next_last n t true h = rw h refl
next_last n t false h = rw h refl

pub next_eof : (t : List ℕ) (b : Bool) → next_buffer 0 (fed t [] b) ≡ (end_of_file, fed t [] false)
unfolding next_buffer refill_action
next_eof t true = refl
next_eof t false = refl
