-- ===== src/Calc/Scanner/Rounds.antt =====
-- A round of `yylex` of packetdrill/lex.yy.c, and the next token of a text.
use network_course.Prelude.{
  ℕ, suc, ◌+◌, ◌-◌, ◌<◌, ◌^◌, ◌≡◌, refl, ap, ◌∙◌, true, false, ◌||◌, Option, none, some, List, [],
  ◌∷◌, ◌++◌, length, take, drop, lt→ltb, ◌==◌, arith,
}
use network_course.Prelude.Cells.{if-then, if-else, bind-some}
use network_course.Prelude.Int.{pos, ◌-ℤ◌, to_int}
use network_course.Calc.State.{Token}
use network_course.Calc.Grammar.{integer_token, variable_token}
use network_course.Calc.Scanner.{Scan, scan, state_eof, atoi, Lexed, return_token, act_on, yylex}
use network_course.Calc.Scanner.Rules.{IsText, is_letter, is_digit, rule, match_length}
use network_course.Calc.Scanner.Match.{Scanned, scan_lem}
use network_course.Calc.Scanner.Lexes.{all_digits, no_digit, Lexes, not_digit, digits-append}

-- What a round of `yylex` does, by the action.
pub act_on_token :
    (go : List ℕ → Scan → ℕ → Option Lexed) (text : List ℕ) (bad act : ℕ) (q : Scan) (t : Token)
    → act < 4
    → return_token act (take q.cp text) ≡ some t
    → act_on go text bad act q
      ≡ some (record { token = some t; unread = drop q.cp text; scanner = q; invalid = bad })
unfolding act_on
act_on_token go text bad act q t l r =
    let not_eof : (act == state_eof) ≡ false = ground arith in
    let not_blank : (act == 4 || act == 6) ≡ false = ground arith in
    let valid : (act == 5) ≡ false = ground arith in
    if-else _ _ not_eof ∙ if-else _ _ not_blank ∙ if-else _ _ valid ∙ bind-some _ r

pub yylex-scan :
    (f : ℕ) (text : List ℕ) (s q : Scan) (act bad : ℕ)
    → scan text s ≡ some (act, q)
    → yylex (suc f) text s bad ≡ act_on (yylex f) text bad act q
unfolding yylex
yylex-scan f text s q act bad h = bind-some _ h

-- The next token, or the end, and what is left to scan.
pub data Next (text : List ℕ) (bad : ℕ) : List Token → ℕ → Option Lexed → Type 0 where
  ends : (b : ℕ) (x : Lexed) → x.token ≡ none → x.invalid ≡ bad + b → Next text bad [] b (some x)
  token_next :
      (t : Token) (ts : List Token) (b1 b2 b : ℕ) (x : Lexed)
      → b1 + b2 ≡ b
      → x.token ≡ some t
      → x.invalid ≡ bad + b1
      → length x.unread < length text
      → IsText x.unread
      → Lexes x.unread ts b2
      → Next text bad (t ∷ ts) b (some x)

pub Next-longer :
    (c : ℕ) (cs : List ℕ) (bad : ℕ) (ts : List Token) (b : ℕ) (o : Option Lexed)
    → Next cs bad ts b o
    → Next (c ∷ cs) bad ts b o
Next-longer c cs bad [] b o (ends b' x t i) = ends b' x t i
Next-longer c cs bad (t ∷ ts) b o (token_next t' ts' b1 b2 b' x e k i l w d) =
    token_next t' ts' b1 b2 b' x e k i (omega (arith, l)) w d

pub Next-invalid :
    (c : ℕ) (cs : List ℕ) (bad : ℕ) (ts : List Token) (b : ℕ) (o : Option Lexed)
    → Next cs (bad + 1) ts b o
    → Next (c ∷ cs) bad ts (b + 1) o
Next-invalid c cs bad [] b o (ends b' x t i) = ends (b + 1) x t (i ∙ omega arith)
Next-invalid c cs bad (t ∷ ts) b o (token_next t' ts' b1 b2 b' x e k i l w d) =
    token_next t' ts' (b1 + 1) b2 (b' + 1) x (omega (arith, e)) k (i ∙ omega arith)
      (omega (arith, l)) w d

pub Scanned-to :
    (text : List ℕ) (s : Scan) (a b k n : ℕ)
    → Scanned text s a k
    → a ≡ b
    → k ≡ n
    → Scanned text s b n
Scanned-to text s a b k n w h j = record {
  end = w.end;
  runs = w.runs ∙ ap (λ x. some (x, w.end)) h;
  end_cp = w.end_cp ∙ j;
}

pub one_char_scan :
    (c : ℕ) (cs : List ℕ) (s : Scan) (a : ℕ)
    → IsText (c ∷ cs)
    → is_digit c ≡ false
    → rule c ≡ a
    → Scanned (c ∷ cs) s a 1
one_char_scan c cs s a t d h =
    Scanned-to (c ∷ cs) s (rule c) a (match_length c cs) 1 (scan_lem c cs s t) h (not_digit c cs d)

-- A token of `k` characters.
pub token_of :
    (f k a : ℕ) (text rest : List ℕ) (s : Scan) (bad : ℕ) (t : Token) (ts : List Token) (b : ℕ)
    → Scanned text s a k
    → a < 4
    → return_token a (take k text) ≡ some t
    → drop k text ≡ rest
    → length rest < length text
    → IsText rest
    → Lexes rest ts b
    → Next text bad (t ∷ ts) b (yylex (suc f) text s bad)
token_of f k a text rest s bad t ts b w l r e m i d =
    let all =
      yylex-scan f text s w.end a bad w.runs
      ∙ act_on_token (yylex f) text bad a w.end t l
          (ap (λ n. return_token a (take n text)) w.end_cp ∙ r) in
    let left : drop w.end.cp text ≡ rest = ap (λ n. drop n text) w.end_cp ∙ e in
    rw (all, left) (token_next t ts 0 b b _ (omega arith) refl (omega arith) m i d)

pub act_on_blank :
    (go : List ℕ → Scan → ℕ → Option Lexed) (text : List ℕ) (bad : ℕ) (q : Scan)
    → act_on go text bad 4 q ≡ go (drop q.cp text) q bad
unfolding act_on
act_on_blank go text bad q = refl

pub act_on_invalid :
    (go : List ℕ → Scan → ℕ → Option Lexed) (text : List ℕ) (bad : ℕ) (q : Scan)
    → act_on go text bad 5 q ≡ go (drop q.cp text) q (bad + 1)
unfolding act_on
act_on_invalid go text bad q = refl

pub act_on_eof :
    (go : List ℕ → Scan → ℕ → Option Lexed) (text : List ℕ) (bad : ℕ) (q : Scan)
    → act_on go text bad state_eof q
      ≡ some (record { token = none; unread = text; scanner = q; invalid = bad })
unfolding act_on
act_on_eof go text bad q = refl

pub return_letter :
    (c : ℕ) (cs : List ℕ)
    → is_letter c ≡ true
    → return_token 1 (c ∷ cs) ≡ some (variable_token, some (pos (c - b'a')))
unfolding return_token ◌-ℤ◌
return_letter c cs h = ground arith

pub return_operator : (c : ℕ) (cs : List ℕ) → return_token 3 (c ∷ cs) ≡ some (c, none)
unfolding return_token
return_operator c cs = refl

pub return_number :
    (text : List ℕ)
    → atoi text < 2 ^ 31
    → return_token 2 text ≡ some (integer_token, some (pos (atoi text)))
unfolding return_token to_int
return_number text h = rw (lt→ltb _ _ h) refl

pub IsText-append : (cs rest : List ℕ) → IsText (cs ++ rest) → IsText rest
IsText-append [] rest t = t
IsText-append (c ∷ cs) rest (p, b, t) = IsText-append cs rest t

pub drop-length : (cs rest : List ℕ) → drop (length cs) (cs ++ rest) ≡ rest
drop-length [] rest = refl
drop-length (c ∷ cs) rest = drop-length cs rest

pub number_scan :
    (c : ℕ) (cs rest : List ℕ) (s : Scan)
    → IsText (c ∷ (cs ++ rest))
    → is_digit c ≡ true
    → all_digits cs ≡ true
    → no_digit rest ≡ true
    → Scanned (c ∷ (cs ++ rest)) s 2 (suc (length cs))
number_scan c cs rest s t d a n =
    let two : rule c ≡ 2 = ground arith in
    let long : match_length c (cs ++ rest) ≡ suc (length cs) =
      if-then _ _ d ∙ ap suc (digits-append cs rest a n) in
    Scanned-to (c ∷ (cs ++ rest)) s (rule c) 2 _ _ (scan_lem c (cs ++ rest) s t) two long
