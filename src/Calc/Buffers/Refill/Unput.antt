-- ===== src/Calc/Buffers/Refill/Unput.antt =====
-- What the scanner reads next after `yyunput`.
use network_course.Prelude.{
  ℕ, zero, suc, ◌+◌, ◌-◌, ◌%◌, ◌^◌, ◌≤◌, ◌<◌, ◌≡◌, refl, ap, ◌∙◌, true, false, none, some, List, [],
  ◌∷◌, ◌++◌, append-nil, length, set, take, drop, ltb, leb, inl, inr, Bool-cases, if◌then◌else◌,
  arith,
}
use network_course.Prelude.Int.{ℤ}
use network_course.Prelude.Cells.{length-take, length-set, take-take, if-then, if-else}
use network_course.Calc.Buffers.Refill.{
  Window, overwrite, to_char, shift_by, shifted, restored, put_back, unput,
}
use network_course.Calc.Buffers.Refill.Text.{length-overwrite}

-- The characters that the scanner has not read; the first of them is in `yy_hold_char`.
abbrev pub unread : Window → List ℕ
unread w = take (w.n_chars - w.c_buf_p) (drop w.c_buf_p (set w.buffer.ch_buf w.c_buf_p w.hold_char))

drop-append : (xs ys : List ℕ) (i k : ℕ) → k ≡ length xs + i → drop k (xs ++ ys) ≡ drop i ys
drop-append [] ys i k h = let e : k ≡ i = omega (arith, h) in ap (λ n. drop n ys) e
drop-append (x ∷ xs) ys i zero h = absurd (omega arith)
drop-append (x ∷ xs) ys i (suc k) h = drop-append xs ys i k (omega arith)

drop-nil : (xs : List ℕ) (k : ℕ) → length xs ≤ k → drop k xs ≡ []
drop-nil [] zero h = refl
drop-nil [] (suc k) h = refl
drop-nil (x ∷ xs) zero h = absurd (omega arith)
drop-nil (x ∷ xs) (suc k) h = drop-nil xs k (omega arith)

take-drop-take :
    (xs : List ℕ) (k n m : ℕ) → k + n ≤ m → take n (drop k (take m xs)) ≡ take n (drop k xs)
take-drop-take xs zero n m h = take-take n m xs (omega arith)
take-drop-take [] (suc k) n zero h = absurd (omega arith)
take-drop-take [] (suc k) n (suc m) h = refl
take-drop-take (x ∷ xs) (suc k) n zero h = absurd (omega arith)
take-drop-take (x ∷ xs) (suc k) n (suc m) h = take-drop-take xs k n m (omega arith)

pub drop-set : (xs : List ℕ) (i v : ℕ) → i < length xs → drop i (set xs i v) ≡ v ∷ drop (suc i) xs
drop-set [] i v h = absurd (omega arith)
drop-set (x ∷ xs) zero v h = refl
drop-set (x ∷ xs) (suc i) v h = drop-set xs i v (omega arith)

pub drop-set_before : (xs : List ℕ) (i v : ℕ) → drop (suc i) (set xs i v) ≡ drop (suc i) xs
drop-set_before [] i v = refl
drop-set_before (x ∷ xs) zero v = refl
drop-set_before (x ∷ xs) (suc i) v = drop-set_before xs i v

-- What is read from where a character was put back.
read_back :
    (cells : List ℕ) (i p n c : ℕ)
    → suc i ≡ p
    → p ≤ n
    → n < length cells
    → take (n - i) (drop i (set (set cells i c) i c)) ≡ c ∷ take (n - p) (drop p cells)
read_back cells i p n c h k l =
    let one : n - i ≡ suc (n - p) = omega (arith, h, k) in
    let written = drop-set (set cells i c) i c (omega (arith, length-set cells i c)) in
    let before = drop-set_before cells i c in
    ap (λ m. take m (drop i (set (set cells i c) i c))) one
    ∙ ap (take (suc (n - p))) (written ∙ ap (◌∷◌ c) (before ∙ ap (λ m. drop m cells) h))

-- The text in the buffer, and where the shift moves it.
pub record Fits (w : Window) : Type 0 where
  pub sized : length w.buffer.ch_buf ≡ w.buffer.buf_size + 2
  pub within : w.n_chars ≤ w.buffer.buf_size
  pub behind : w.c_buf_p ≤ w.n_chars
  pub near : w.buffer.buf_size < 2 ^ 31

shifted_text :
    (cells : List ℕ) (p n size : ℕ)
    → length cells ≡ size + 2
    → n ≤ size
    → p ≤ n
    → take (size - (p + (size + 2 - (n + 2)))) (
        drop (p + (size + 2 - (n + 2))) (overwrite (size + 2 - (n + 2)) (take (n + 2) cells) cells))
      ≡ take (n - p) (drop p cells)
shifted_text cells p n size l h k =
    let by = size + 2 - (n + 2) in
    let start = take by cells in
    let moved = take (n + 2) cells in
    let rest = drop (by + length moved) cells in
    let end : rest ≡ [] =
      drop-nil cells (by + length moved) (omega (arith, length-take (n + 2) cells (omega arith))) in
    let whole : overwrite by moved cells ≡ start ++ moved =
      ap (λ r. start ++ moved ++ r) end ∙ append-nil (start ++ moved) in
    let count : size - (p + by) ≡ n - p = omega arith in
    ap (λ m. take m (drop (p + by) (overwrite by moved cells))) count
    ∙ ap (λ r. take (n - p) (drop (p + by) r)) whole
    ∙ ap (take (n - p))
        (drop-append start moved p (p + by) (omega (arith, length-take by cells (omega arith))))
    ∙ take-drop-take cells p (n - p) (n + 2) (omega arith)

unput-there :
    (c : ℤ) (w : Window) → ltb w.c_buf_p 2 ≡ false → unput c w ≡ some (put_back c (restored w))
unfolding unput
unput-there c w h = rw (unput, h, h) refl

shift_by-near : (w : Window) → w.buffer.buf_size < 2 ^ 31 → shift_by w % 2 ^ 32 ≡ shift_by w
shift_by-near w h = omega arith

shift_by-small :
    (w : Window) → w.buffer.buf_size < 2 ^ 31 → leb (2 ^ 31) (shift_by w % 2 ^ 32) ≡ false
shift_by-small w h = ground (arith, shift_by-near w h)

unput-shifted :
    (c : ℤ) (w : Window)
    → w.buffer.buf_size < 2 ^ 31
    → ltb w.c_buf_p 2 ≡ true
    → unput c w ≡ (
        if ltb (shifted (restored w)).c_buf_p 2
        then none
        else some (put_back c (shifted (restored w))))
unfolding unput
unput-shifted c w s h = rw (unput, h, shift_by-small w s) refl

put_back-unread :
    (c : ℤ) (w : Window)
    → Fits w
    → 0 < w.c_buf_p
    → unread (put_back c w)
      ≡ to_char c ∷ take (w.n_chars - w.c_buf_p) (drop w.c_buf_p w.buffer.ch_buf)
put_back-unread c w f h =
    read_back w.buffer.ch_buf (w.c_buf_p - 1) w.c_buf_p w.n_chars (to_char c) (omega arith) f.behind
      (omega (arith, f.sized, f.within))

put_back-Fits : (c : ℤ) (w : Window) → Fits w → Fits (put_back c w)
put_back-Fits c w f = record {
  sized = length-set w.buffer.ch_buf (w.c_buf_p - 1) (to_char c) ∙ f.sized;
  within = f.within;
  behind = omega (arith, f.behind);
  near = f.near;
}

restored-Fits : (w : Window) → Fits w → Fits (restored w)
restored-Fits w f = record {
  sized = length-set w.buffer.ch_buf w.c_buf_p w.hold_char ∙ f.sized;
  within = f.within;
  behind = f.behind;
  near = f.near;
}

shifted-Fits : (w : Window) → Fits w → Fits (shifted w)
shifted-Fits w f =
    let number = w.n_chars + 2 in
    let by = w.buffer.buf_size + 2 - number in
    let l = length-take number w.buffer.ch_buf (omega (arith, f.sized, f.within)) in
    record {
      sized =
          length-overwrite by (take number w.buffer.ch_buf) w.buffer.ch_buf
            (omega (arith, l, f.sized, f.within))
          ∙ f.sized;
      within = omega arith;
      behind = omega (arith, f.behind, f.within, shift_by-near w f.near);
      near = f.near;
    }

-- The room that `yyunput` has in front of the character that is read next, once the text is moved to the end.
abbrev pub room_before : Window → ℕ
room_before w = w.c_buf_p + (w.buffer.buf_size - w.n_chars)

-- What `yyunput` comes to.
pub data PutBack (c : ℤ) (w : Window) : Type 0 where
  room_left :
      (w' : Window)
      → 2 ≤ room_before w
      → unput c w ≡ some w'
      → unread w' ≡ to_char c ∷ unread w
      → Fits w'
      → PutBack c w
  overflow : room_before w < 2 → unput c w ≡ none → PutBack c w

-- In a buffer of the noted size, which is below 2^31, whose text is within it and where the scanner has not run
-- past the text: the push-back of an `int` fails where it has fewer than two cells in front of the next character
-- once the text is moved to the end. Otherwise what the scanner reads next is that `int` as a `char` and then what
-- it would have read, and the buffer is as before in these respects.
pub unput-PutBack : (c : ℤ) (w : Window) → Fits w → PutBack c w
unput-PutBack c w f =
    let there = restored w in
    let g = restored-Fits w f in
    let moved = shifted there in
    let far = shifted-Fits there g in
    elim (Bool-cases (ltb w.c_buf_p 2)) [
      | inr h ↦
          let roomy : 2 ≤ w.c_buf_p = ground arith in
          room_left (put_back c there) (omega arith) (unput-there c w h)
            (put_back-unread c there g (omega arith)) (put_back-Fits c there g)
      | inl h ↦ elim (Bool-cases (ltb moved.c_buf_p 2)) [
        | inl k ↦
            let tight : moved.c_buf_p < 2 = ground arith in
            overflow (omega (arith, tight, f.within)) (unput-shifted c w f.near h ∙ if-then _ _ k)
        | inr k ↦
            let roomy : 2 ≤ moved.c_buf_p = ground arith in
            room_left (put_back c moved) (omega (arith, roomy, f.within))
              (unput-shifted c w f.near h ∙ if-else _ _ k)
              (put_back-unread c moved far (omega (arith, roomy))
                ∙ ap
                    (λ x.
                      to_char c
                      ∷ take (w.buffer.buf_size - (w.c_buf_p + x))
                          (drop (w.c_buf_p + x) moved.buffer.ch_buf))
                    (shift_by-near w f.near)
                ∙ ap (◌∷◌ (to_char c)) (
                    shifted_text there.buffer.ch_buf w.c_buf_p w.n_chars w.buffer.buf_size g.sized
                      f.within f.behind))
              (put_back-Fits c moved far)
      ]
    ]
