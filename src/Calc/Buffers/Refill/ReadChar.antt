-- ===== src/Calc/Buffers/Refill/ReadChar.antt =====
-- packetdrill/lex.yy.c: `input` (`read_char`), which takes one character, and what it undoes of `yyunput`.
use network_course.Prelude.{
  ℕ, zero, suc, ◌+◌, ◌-◌, ◌%◌, ◌≤◌, ◌<◌, ◌≡◌, refl, sym, ap, ◌∙◌, Bool, false, not, ◌&&◌, Option,
  none, some, List, [], ◌∷◌, length, get_elem?, get_or, set, take, drop, ltb, ◌==◌, if◌then◌else◌,
  ◌>>=◌, arith,
}
use network_course.Prelude.Int.{ℤ, pos, negsuc}
use network_course.Prelude.Cells.{length-set, get_elem?-set, if-else, bind-some}
use network_course.Calc.Buffers.Refill.{
  Window, Action, continue_scan, end_of_file, last_match, get_next_buffer, restarted, to_char,
  restored, unput,
}
use network_course.Calc.Buffers.Refill.Unput.{
  unread, Fits, PutBack, room_left, overflow, room_before, unput-PutBack, drop-set, drop-set_before,
}

-- The character at `yy_c_buf_p`, read as an `unsigned char`, with the one behind it held.
abbrev pub take_char : Window → Option (ℕ × Window)
take_char w = do
  c ← get_elem? w.buffer.ch_buf w.c_buf_p
  next ← get_elem? w.buffer.ch_buf (w.c_buf_p + 1)
  let b = w.buffer
  some (
    c % 256,
    record w {
      buffer = record b { ch_buf = set b.ch_buf w.c_buf_p 0 };
      hold_char = next;
      c_buf_p = w.c_buf_p + 1;
    },
  )

module _ (input : ℕ → Option (List ℕ)) (yyrealloc : ℕ → List ℕ → Option (List ℕ))
    (isatty : ℕ → Bool) where
  -- `yyrestart (yyin)`.
  abbrev pub rewound : Option ℕ → Window → Window
  rewound yyin w = record w {
    buffer = restarted input yyrealloc isatty yyin w.buffer;
    n_chars = 0;
    c_buf_p = 0;
    text_ptr = 0;
    hold_char = 0;
  }

  -- `yywrap` is 1, so the end of the file is returned as 0.
  abbrev pub after_refill : Option ℕ → ℕ → Action → Window → Option (ℕ × Window)
  after_refill yyin offset continue_scan w = take_char (record w { c_buf_p = w.text_ptr + offset })
  after_refill yyin offset end_of_file w = some (0, w)
  after_refill yyin offset last_match w = some (0, rewound yyin w)

  unfoldable pub read_char : Option ℕ → Window → Option (ℕ × Window)
  unfolding get_next_buffer
  read_char yyin w =
      let more : Option (ℕ × Window) = (do
        r ←
            get_next_buffer input yyrealloc isatty yyin
              (record (restored w) { c_buf_p = w.c_buf_p + 1 })
        after_refill yyin (w.c_buf_p - w.text_ptr) (r.0) (r.1)) in
      if w.hold_char == 0 && not (ltb w.c_buf_p w.n_chars) then more else take_char (restored w)

get_elem?-exists : (xs : List ℕ) (i : ℕ) → i < length xs → (x : ℕ) × (get_elem? xs i ≡ some x)
get_elem?-exists [] i h = absurd (omega arith)
get_elem?-exists (x ∷ xs) zero h = (x, refl)
get_elem?-exists (x ∷ xs) (suc i) h = get_elem?-exists xs i (omega arith)

set-same : (xs : List ℕ) (i x : ℕ) → get_elem? xs i ≡ some x → set xs i x ≡ xs
set-same [] i x h = refl
set-same (y ∷ xs) zero x h =
    ap (λ o. get_or (elim o [ none ↦ [] | some z ↦ z ∷ [] ]) 0 x ∷ xs) (sym h)
set-same (y ∷ xs) (suc i) x h = ap (◌∷◌ y) (set-same xs i x h)

read_rest :
    (cells : List ℕ) (p n h x : ℕ)
    → p < n
    → n < length cells
    → get_elem? (set (set cells p h) p 0) (p + 1) ≡ some x
    → take (n - p) (drop p (set cells p h))
      ≡ h ∷ take (n - (p + 1)) (drop (p + 1) (set (set (set cells p h) p 0) (p + 1) x))
read_rest cells p n h x k l e =
    let ys = set (set cells p h) p 0 in
    let one : n - p ≡ suc (n - (p + 1)) = omega (arith, k) in
    let next : p + 1 ≡ suc p = omega arith in
    let behind : drop (p + 1) (set ys (p + 1) x) ≡ drop (suc p) cells =
      ap (drop (p + 1)) (set-same ys (p + 1) x e)
      ∙ ap (λ q. drop q ys) next
      ∙ drop-set_before (set cells p h) p 0
      ∙ drop-set_before cells p h in
    ap (λ m. take m (drop p (set cells p h))) one
    ∙ ap (take (suc (n - (p + 1)))) (drop-set cells p h (omega (arith, k, l)))
    ∙ ap (λ r. h ∷ take (n - (p + 1)) r) (sym behind)

get_elem?-set_after :
    (xs : List ℕ) (i v : ℕ) → get_elem? (set xs i v) (suc i) ≡ get_elem? xs (suc i)
get_elem?-set_after [] i v = refl
get_elem?-set_after (x ∷ xs) zero v = refl
get_elem?-set_after (x ∷ xs) (suc i) v = get_elem?-set_after xs i v

-- What `input` takes.
pub record Takes (w : Window) (c : ℕ) (w' : Window) : Type 0 where
  pub first : unread w ≡ c ∷ unread w'
  pub fits : Fits w'

take_char-Takes :
    (w : Window)
    → Fits w
    → w.c_buf_p < w.n_chars
    → (c : ℕ) × (w' : Window) × (take_char (restored w) ≡ some (c % 256, w')) × Takes w c w'
take_char-Takes w f h =
    let cells = w.buffer.ch_buf in
    let p = w.c_buf_p in
    let c = w.hold_char in
    let ys = set cells p c in
    let next : p + 1 ≡ suc p = omega arith in
    let inside : p < length cells = omega (arith, f.sized, f.within, h) in
    let (x, e) =
      get_elem?-exists ys (p + 1) (omega (arith, length-set cells p c, f.sized, f.within, h)) in
    let e' : get_elem? (set ys p 0) (p + 1) ≡ some x =
      ap (get_elem? (set ys p 0)) next
      ∙ get_elem?-set_after ys p 0
      ∙ ap (get_elem? ys) (sym next)
      ∙ e in
    (
      c,
      _,
      bind-some _ (get_elem?-set cells p c inside) ∙ bind-some _ e,
      record {
        first = read_rest cells p w.n_chars c x h (omega (arith, f.sized, f.within)) e';
        fits = record {
          sized = length-set ys p 0 ∙ length-set cells p c ∙ f.sized;
          within = f.within;
          behind = omega (arith, h);
          near = f.near;
        };
      },
    )

length-take_le : (n : ℕ) (xs : List ℕ) → length (take n xs) ≤ n
length-take_le zero xs = omega arith
length-take_le (suc n) [] = omega arith
length-take_le (suc n) (x ∷ xs) = omega (arith, length-take_le n xs)

to_char-byte : (c : ℤ) → to_char c % 256 ≡ to_char c
to_char-byte (pos n) = omega arith
to_char-byte (negsuc n) = omega arith

cons_inj : (c d : ℕ) (xs ys : List ℕ) → List.◌∷◌ c xs ≡ d ∷ ys → (c ≡ d) × (xs ≡ ys)
cons_inj c d xs ys e = (ap (λ l. get_or l 0 c) e, ap (drop 1) e)

module _ (input : ℕ → Option (List ℕ)) (yyrealloc : ℕ → List ℕ → Option (List ℕ))
    (isatty : ℕ → Bool) where
  read_char-there :
      (yyin : Option ℕ) (w : Window)
      → w.c_buf_p < w.n_chars
      → read_char input yyrealloc isatty yyin w ≡ take_char (restored w)
  unfolding read_char
  read_char-there yyin w h =
      let some_left : (w.hold_char == 0 && not (ltb w.c_buf_p w.n_chars)) ≡ false = ground arith in
      if-else _ _ some_left

  -- In a buffer of the noted size, which is below 2^31, whose text is within it and where the scanner has not run past
  -- the text, and which has room for the push-back once the text is moved to its end: `input` after `yyunput` of
  -- any `int` returns the `int` modulo 256, also where it was negative, and leaves the scanner to read what it would
  -- have read before both.
  pub unput-read_char :
      (yyin : Option ℕ) (c : ℤ) (w : Window)
      → Fits w
      → 2 ≤ room_before w
      → (w' : Window) × ((unput c w >>= read_char input yyrealloc isatty yyin)
          ≡ some (to_char c, w'))
        × (unread w' ≡ unread w)
        × Fits w'
  unput-read_char yyin c w f h = after (unput-PutBack c w f)
    where
      after :
          PutBack c w
          → (w' : Window) × ((unput c w >>= read_char input yyrealloc isatty yyin)
              ≡ some (to_char c, w'))
            × (unread w' ≡ unread w)
            × Fits w'
      after (overflow l e) = absurd (omega (arith, l, h))
      after (room_left v r e u g) =
          let left : v.c_buf_p < v.n_chars = omega (
            arith,
            ap length u,
            length-take_le (v.n_chars - v.c_buf_p)
                (drop v.c_buf_p (set v.buffer.ch_buf v.c_buf_p v.hold_char)),
          ) in
          let (d, w', takes, t) = take_char-Takes v g left in
          let (same, rest) = cons_inj d (to_char c) (unread w') (unread w) (sym t.first ∙ u) in
          (
            w',
            bind-some _ e
                ∙ read_char-there yyin v left
                ∙ takes
                ∙ ap (λ x. some (x, w')) (ap (λ x. x % 256) same ∙ to_char-byte c),
            rest,
            t.fits,
          )
