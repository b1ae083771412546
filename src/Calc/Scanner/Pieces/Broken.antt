-- ===== src/Calc/Scanner/Pieces/Broken.antt =====
-- packetdrill/lex.yy.c: `yylex` on a number that is cut into pieces.
use network_course.Prelude.{
  ℕ, zero, suc, ◌+◌, ◌≤◌, ◌<◌, ◌≡◌, refl, sym, ap, ◌∙◌, Bool, true, false, some, List, [], ◌∷◌,
  ◌++◌, append_assoc, append-nil, length, length-append, drop, ◌==◌, Bool-cases, inl, inr, arith,
}
use network_course.Calc.ScannerTables.{yy_accept}
use network_course.Calc.Scanner.{Scan, match_loop, back_up}
use network_course.Calc.Scanner.Rules.{
  IsText, is_digit, digits, at, InNumber, number_end, match_number,
}
use network_course.Calc.Scanner.Numbers.{back_up_self, InNumber-accept, Previous-digits}
use network_course.Calc.Scanner.Match.{back_up_number}
use network_course.Calc.Scanner.Rounds.{drop-length, IsText-append}
use network_course.Calc.Scanner.Pieces.{Feed, find_fed}
use network_course.Calc.Scanner.Pieces.Feeds.{joined, whole, AreSome, IsFeed, Found}
use network_course.Calc.Scanner.Pieces.Digits.{
  Previous-piece, number_end-all, number_end-some, digits_most, digits-broken, digits-joined,
}
use network_course.Calc.Scanner.Pieces.Rounds.{
  fed, fed_stop, fed_again, fed_found, feed_continue, feed_last, next_piece, next_last,
}

pub IsText-start : (xs ys : List ℕ) → IsText (xs ++ ys) → IsText xs
IsText-start [] ys t = tt
IsText-start (x ∷ xs) ys (p, b, t) = (p, b, IsText-start xs ys t)

-- A scan that has read up to `k`, in a number, and goes on over `rest`.
pub record InMatch (c : ℕ) (cs : List ℕ) (s : Scan) : Type 0 where
  pub k : ℕ
  pub st : ℕ
  pub rest : List ℕ
  pub matches : match_loop (length (c ∷ cs) + 3) (c ∷ cs) s ≡ some (number_end st k rest)
  pub in_number : InNumber st
  pub digit : is_digit c ≡ true
  pub digits_are : k + digits rest ≡ digits (c ∷ cs)
  pub all : k + length rest ≡ length (c ∷ cs)

number_stops :
    (c : ℕ) (cs : List ℕ) (ps : List (List ℕ)) (b : Bool) (s : Scan) (n : ℕ)
    → (w : InMatch c cs s) → IsFeed (fed (c ∷ cs) ps b)
    → digits w.rest < length w.rest
    → Found (fed (c ∷ cs) ps b) s (suc n) 2 (digits ((c ∷ cs) ++ joined ps))
number_stops c cs ps b s n w f l =
    let a = number_end-some w.st w.k w.rest w.in_number l in
    let k = w.k + digits w.rest in
    let m = at 11 (k + 1) a.state_before k in
    let stay = back_up_number a.state_before k a.in_number in
    let short = digits-broken (c ∷ cs) (joined ps) (omega (arith, w.digits_are, w.all, l)) in
    record {
      end = back_up m;
      left = fed (c ∷ cs) ps b;
      runs =
          fed_stop n (fed (c ∷ cs) ps b) s m 2 (w.matches ∙ ap some a.stopped)
            (rw stay (InNumber-accept a.state_before a.in_number)) (ground arith);
      end_cp = rw stay (omega (arith, w.digits_are, short));
      held = omega (arith, short, digits_most (c ∷ cs));
      same = refl;
      feeds = f;
    }

-- The loop has run into the end of the buffer.
abbrev pub past : List ℕ → Scan
past t = at 3 (length t + 1) 3 (length t + 1)

number_breaks :
    (c : ℕ) (cs : List ℕ) (s : Scan)
    → (w : InMatch c cs s) → digits w.rest ≡ length w.rest
    → (m : Scan) × (match_loop (length (c ∷ cs) + 3) (c ∷ cs) s ≡ some m)
      × (back_up m ≡ past (c ∷ cs))
unfolding back_up yy_accept
number_breaks c cs s w l =
    let e = number_end-all w.st w.k w.rest l in
    (
      at 11 (w.k + length w.rest + 2) 3 (w.k + length w.rest + 1),
      w.matches ∙ ap some e,
      ap (λ n. at 3 (n + 1) 3 (n + 1)) w.all,
    )

-- Behind a refill the scan is in the number, before the piece.
resumed :
    (c x : ℕ) (cs p : List ℕ) (q : Scan)
    → IsText ((c ∷ cs) ++ x ∷ p)
    → is_digit c ≡ true
    → digits cs ≡ length cs
    → InNumber q.state
    → q.cp ≡ length (c ∷ cs)
    → InMatch c (cs ++ x ∷ p) q
resumed c x cs p q t d l n e =
    let text = (c ∷ cs) ++ x ∷ p in
    let full : digits (c ∷ cs) ≡ length (c ∷ cs) = ground (arith, d, l) in
    let behind : drop q.cp text ≡ x ∷ p = ap (λ k. drop k text) e ∙ drop-length (c ∷ cs) (x ∷ p) in
    let long = length-append (c ∷ cs) (x ∷ p) in
    record {
      k = q.cp;
      st = q.state;
      rest = x ∷ p;
      matches =
          match_number (x ∷ p) text q.cp (length text + 3) q.state q.last_state q.last_cp n
            (IsText-append (c ∷ cs) (x ∷ p) t) behind (omega (arith, long));
      in_number = n;
      digit = d;
      digits_are = omega (arith, e, digits-joined (c ∷ cs) (x ∷ p) full);
      all = omega (arith, e, long);
    }

digits_full :
    (c : ℕ) (cs : List ℕ) (s : Scan)
    → (w : InMatch c cs s) → digits w.rest ≡ length w.rest
    → digits cs ≡ length cs
digits_full c cs s w l = ground (arith, w.digit, w.digits_are, w.all, l)

regrouped : (t p : List ℕ) (ps : List (List ℕ)) → (t ++ p) ++ joined ps ≡ t ++ joined (p ∷ ps)
regrouped t p ps = append_assoc t p (joined ps)

IsText-same : (xs ys : List ℕ) → xs ≡ ys → IsText ys → IsText xs
IsText-same xs ys e t = rw e t

at_most : (n m k : ℕ) → n ≡ m → n ≤ k → m ≤ k
at_most n m k e h = omega arith

pub unmarked : (t : List ℕ) (ps : List (List ℕ)) → AreSome ps → IsFeed (fed t ps false)
unmarked t ps a = record { some_pieces = a; at_end = λ q. absurd (ground arith) }

-- The last text is matched as it stands.
number_last :
    (c : ℕ) (cs : List ℕ) (b : Bool) (s : Scan) (n : ℕ)
    → (w : InMatch c cs s) → IsText (c ∷ cs)
    → digits w.rest ≡ length w.rest
    → Found (fed (c ∷ cs) [] b) s (suc (suc n)) 2 (digits ((c ∷ cs) ++ []))
number_last c cs b s n w t l =
    let full = digits_full c cs s w l in
    let k = length (c ∷ cs) in
    let f = fed (c ∷ cs) [] b in
    let g = fed (c ∷ cs) [] true in
    let (m, e, stay) = number_breaks c cs s w l in
    let r = Previous-digits c cs 3 (k + 1) t w.digit full in
    let ended : digits ((c ∷ cs) ++ []) ≡ k =
      ap digits (append-nil (c ∷ cs)) ∙ ground (arith, w.digit, full) in
    let accepted = InNumber-accept r.end.state r.in_number in
    record {
      end = r.end;
      left = g;
      runs =
          fed_again (suc n) f g s m r.end false e (rw stay (unfold yy_accept in refl)) (
            rw stay (
              feed_last f g (past (c ∷ cs)) r.end k refl refl
                (next_last k (c ∷ cs) b (ground arith)) r.runs))
          ∙ fed_found n g r.end (back_up_self r.end (rw accepted (ground arith))) accepted;
      end_cp = r.end_cp ∙ sym ended;
      held = omega (arith, ended);
      same = refl;
      feeds = record { some_pieces = tt; at_end = λ _. refl };
    }

-- What is found behind a refill is found before it.
pub Found-again :
    (f g : Feed) (s q : Scan) (n act k j : ℕ)
    → find_fed (suc n) true f s ≡ find_fed n true g q
    → whole g ≡ whole f
    → k ≡ j
    → Found g q n act k
    → Found f s (suc n) act j
Found-again f g s q n act k j e w a v = record {
  end = v.end;
  left = v.left;
  runs = e ∙ v.runs;
  end_cp = v.end_cp ∙ a;
  held = at_most _ _ _ a v.held;
  same = v.same ∙ w;
  feeds = v.feeds;
}

-- The buffer ends in the number, and the refill brings a piece.
record Refills (c x : ℕ) (cs p : List ℕ) (ps : List (List ℕ)) (s : Scan) (n : ℕ) : Type 0 where
  q : Scan
  again : InMatch c (cs ++ x ∷ p) q
  goes_on :
      find_fed (suc n) true (fed (c ∷ cs) ((x ∷ p) ∷ ps) false) s
      ≡ find_fed n true (fed ((c ∷ cs) ++ x ∷ p) ps false) q

number-Refills :
    (c x : ℕ) (cs p : List ℕ) (ps : List (List ℕ)) (s : Scan) (n : ℕ)
    → (w : InMatch c cs s) → IsText ((c ∷ cs) ++ x ∷ p)
    → digits w.rest ≡ length w.rest
    → Refills c x cs p ps s n
number-Refills c x cs p ps s n w t l =
    let full = digits_full c cs s w l in
    let k = length (c ∷ cs) in
    let (m, e, stay) = number_breaks c cs s w l in
    let f = fed (c ∷ cs) ((x ∷ p) ∷ ps) false in
    let g = fed ((c ∷ cs) ++ x ∷ p) ps false in
    let r = Previous-piece c cs (x ∷ p) 3 (k + 1) (IsText-start (c ∷ cs) (x ∷ p) t) w.digit full in
    record {
      q = r.end;
      again = resumed c x cs p r.end t w.digit full r.in_number r.end_cp;
      goes_on = fed_again n f g s m r.end true e (rw stay (unfold yy_accept in refl)) (
          rw stay (
            feed_continue f g (past (c ∷ cs)) r.end k refl refl (next_piece k x (c ∷ cs) p ps)
              r.runs));
    }

pub number_fed :
    (c : ℕ) (ps : List (List ℕ)) (cs : List ℕ) (b : Bool) (s : Scan) (n : ℕ)
    → InMatch c cs s
    → IsText ((c ∷ cs) ++ joined ps)
    → IsFeed (fed (c ∷ cs) ps b)
    → length ps + 1 < n
    → Found (fed (c ∷ cs) ps b) s n 2 (digits ((c ∷ cs) ++ joined ps))
number_fed c ps cs b s zero w t f h = absurd (omega arith)
number_fed c [] cs b s (suc zero) w t f h = absurd (omega arith)
number_fed c [] cs b s (suc (suc n)) w t f h = elim (Bool-cases (digits w.rest == length w.rest)) [
  | inl l ↦ number_last c cs b s n w (IsText-start (c ∷ cs) [] t) (ground arith)
  | inr l ↦ number_stops c cs [] b s (suc n) w f (ground (arith, digits_most w.rest))
]
number_fed c ([] ∷ ps) cs b s (suc n) w t f h = absurd (omega (arith, f.some_pieces.0))
number_fed c ((x ∷ p) ∷ ps) cs true s (suc n) w t f h =
    absurd (omega (arith, ap length (f.at_end refl)))
number_fed c ((x ∷ p) ∷ ps) cs false s (suc n) w t f h =
    elim (Bool-cases (digits w.rest == length w.rest)) [
      | inl l ↦
          let group = regrouped (c ∷ cs) (x ∷ p) ps in
          let t' = IsText-same _ _ group t in
          let r =
            number-Refills c x cs p ps s n w (IsText-start ((c ∷ cs) ++ x ∷ p) (joined ps) t')
              (ground arith) in
          Found-again (fed (c ∷ cs) ((x ∷ p) ∷ ps) false) (fed ((c ∷ cs) ++ x ∷ p) ps false) s r.q n
            2 _ _ r.goes_on group (ap digits group)
            (number_fed c ps (cs ++ x ∷ p) false r.q n r.again t' (unmarked _ ps f.some_pieces.1)
              (omega arith))
      | inr l ↦ number_stops c cs ((x ∷ p) ∷ ps) false s n w f (ground (arith, digits_most w.rest))
    ]
