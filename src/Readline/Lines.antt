-- ===== src/Readline/Lines.antt =====
-- `readline2` in terms of the stream of bytes: what it returns and stores, and what it leaves.
use network_course.Prelude.{
  ℕ, zero, suc, ◌+◌, ◌-◌, ◌≤◌, ◌<◌, ◌≡◌, refl, sym, ap, ◌∙◌, false, Option, none, some, List, [],
  ◌∷◌, length, set, ◌==◌, if◌then◌else◌, arith, Bool-cases, inl, inr,
}
use network_course.Prelude.Int.{ℤ, pos, negsuc}
use network_course.Readline.{
  Reader, Got, byte, eof, error, blocked, my_read, Line, returned, waiting, readline_loop,
  readline2,
}
use network_course.Readline.Stream.{stream, IsValid, Took, first, later, my_read-Took}

-- Why a line ends: a newline, no room, the end of the stream, an error, or no more input.
pub data Ending : Type 0 where
  newline full ended broken stuck : Ending

-- The bytes of a line, its ending, and the stream behind it.
pub record Reading : Type 0 where
  pub bytes : List ℕ
  pub ending : Ending
  pub rest : List Got

-- At most `room` bytes of a stream, up to a newline.
unfoldable pub gather : ℕ → List Got → Reading
gather zero gs = record { bytes = []; ending = full; rest = gs }
gather (suc room) [] = record { bytes = []; ending = stuck; rest = [] }
gather (suc room) (blocked ∷ gs) = record { bytes = []; ending = stuck; rest = gs }
gather (suc room) (eof ∷ gs) = record { bytes = []; ending = ended; rest = gs }
gather (suc room) (error ∷ gs) = record { bytes = []; ending = broken; rest = gs }
gather (suc room) (byte c ∷ gs) =
    let line = gather room gs in
    if c == b'\n'
    then record { bytes = c ∷ []; ending = newline; rest = gs }
    else record line { bytes = c ∷ line.bytes }

-- A buffer with bytes stored from an index on.
abbrev pub store : List ℕ → ℕ → List ℕ → List ℕ
store buf i [] = buf
store buf i (b ∷ bs) = store (set buf i b) (i + 1) bs

-- What `readline2` does with a line that it stores from index `i` on. Behind a full line the count
-- is one more than the bytes stored.
abbrev pub answer : Ending → List ℕ → ℕ → List ℕ → Reader → Line
answer newline bytes i buf r =
    let n = i + length bytes in returned (pos n) (set (store buf i bytes) n 0) r
answer full bytes i buf r =
    let n = i + length bytes in returned (pos (n + 1)) (set (store buf i bytes) n 0) r
answer ended bytes i buf r =
    let n = i + length bytes in returned (pos n) (set (store buf i bytes) n 0) r
answer broken bytes i buf r = returned (negsuc 0) (store buf i bytes) r
answer stuck bytes i buf r = waiting (store buf i bytes) r

-- `line` is the answer to a reading, by a reader that has the rest before it.
pub record Answers (g : Reading) (i : ℕ) (buf : List ℕ) (line : Line) : Type 0 where
  pub reader : Reader
  pub valid : IsValid reader
  pub left : stream reader ≡ g.rest
  pub answers : line ≡ answer g.ending g.bytes i buf reader

-- One round of the loop, by what `my_read` got.
round_byte :
    (k i c : ℕ) (buf : List ℕ) (r : Reader)
    → (my_read r).0 ≡ byte c
    → readline_loop (suc k) (suc i) buf r ≡ (
        if c == b'\n'
        then returned (pos (suc i)) (set (set buf i c) (suc i) 0) ((my_read r).1)
        else readline_loop k (suc i + 1) (set buf i c) ((my_read r).1))
unfolding readline_loop
round_byte k i c buf r e = ground arith

round_eof :
    (k i : ℕ) (buf : List ℕ) (r : Reader)
    → (my_read r).0 ≡ eof
    → readline_loop (suc k) (suc i) buf r ≡ returned (pos i) (set buf i 0) ((my_read r).1)
unfolding readline_loop
round_eof k i buf r e = ground arith

round_error :
    (k i : ℕ) (buf : List ℕ) (r : Reader)
    → (my_read r).0 ≡ error
    → readline_loop (suc k) (suc i) buf r ≡ returned (negsuc 0) buf ((my_read r).1)
unfolding readline_loop
round_error k i buf r e = ground arith

round_blocked :
    (k i : ℕ) (buf : List ℕ) (r : Reader)
    → (my_read r).0 ≡ blocked
    → readline_loop (suc k) (suc i) buf r ≡ waiting buf ((my_read r).1)
unfolding readline_loop
round_blocked k i buf r e = ground arith

answer-cons :
    (e : Ending) (c i : ℕ) (bytes buf : List ℕ) (r : Reader)
    → answer e bytes (suc i) (set buf i c) r ≡ answer e (c ∷ bytes) i buf r
answer-cons newline c i bytes buf r = ground arith
answer-cons full c i bytes buf r = ground arith
answer-cons ended c i bytes buf r = ground arith
answer-cons broken c i bytes buf r = ground arith
answer-cons stuck c i bytes buf r = ground arith

round_other :
    (k i c : ℕ) (buf : List ℕ) (r : Reader) (line : Line)
    → (c == b'\n') ≡ false
    → (if c == b'\n' then line else readline_loop k (suc i + 1) (set buf i c) r)
      ≡ readline_loop k (suc (suc i)) (set buf i c) r
round_other k i c buf r line h = rw h (ap (λ n. readline_loop k n (set buf i c) r) (omega arith))

-- What one round does to the rest of the stream, if the later rounds do what they should.
round-Answers :
    (gs : List Got) (k i : ℕ) (buf : List ℕ) (r : Reader)
    → Took gs (my_read r)
    → ((i' : ℕ) (buf' : List ℕ)
        → Answers (gather k (later gs)) i' buf' (readline_loop k (suc i') buf' ((my_read r).1)))
    → Answers (gather (suc k) gs) i buf (readline_loop (suc k) (suc i) buf r)
unfolding gather
round-Answers [] k i buf r t ih = record {
  reader = (my_read r).1;
  valid = t.valid;
  left = t.left;
  answers = round_blocked k i buf r t.got;
}
round-Answers (blocked ∷ gs) k i buf r t ih = record {
  reader = (my_read r).1;
  valid = t.valid;
  left = t.left;
  answers = round_blocked k i buf r t.got;
}
round-Answers (eof ∷ gs) k i buf r t ih = record {
  reader = (my_read r).1;
  valid = t.valid;
  left = t.left;
  answers = round_eof k i buf r t.got ∙ ground arith;
}
round-Answers (error ∷ gs) k i buf r t ih = record {
  reader = (my_read r).1;
  valid = t.valid;
  left = t.left;
  answers = round_error k i buf r t.got;
}
round-Answers (byte c ∷ gs) k i buf r t ih = elim (Bool-cases (c == b'\n')) [
  | inl nl ↦ rw nl (record {
    reader = (my_read r).1;
    valid = t.valid;
    left = t.left;
    answers = round_byte k i c buf r t.got ∙ ground arith;
  })
  | inr other ↦
      let a = ih (suc i) (set buf i c) in
      rw other (record {
        reader = a.reader;
        valid = a.valid;
        left = a.left;
        answers =
            round_byte k i c buf r t.got
            ∙ round_other k i c buf ((my_read r).1) _ other
            ∙ a.answers
            ∙ answer-cons (gather k gs).ending c i (gather k gs).bytes buf a.reader;
      })
]

loop-Answers :
    (k i : ℕ) (buf : List ℕ) (r : Reader) (gs : List Got)
    → IsValid r
    → stream r ≡ gs
    → Answers (gather k gs) i buf (readline_loop k (suc i) buf r)
unfolding gather
loop-Answers zero i buf r gs v e = record {
  reader = r;
  valid = v;
  left = e;
  answers = unfold readline_loop in ground arith;
}
loop-Answers (suc k) i buf r gs v e =
    let t = my_read-Took r v in
    let t' : Took gs (my_read r) = record {
      got = t.got ∙ ap first e;
      left = t.left ∙ ap later e;
      valid = t.valid;
    } in
    round-Answers gs k i buf r t'
      (λ i' buf'. loop-Answers k i' buf' ((my_read r).1) (later gs) t.valid t'.left)

-- From a reader whose `read_ptr` and `read_cnt` are within `read_buf`, `readline2` returns, stores
-- and leaves what the stream of bytes says, however `read` cuts it into pieces and however often it
-- is interrupted: at most `maxlen - 1` bytes up to a newline, and a 0 behind them but for an error.
pub readline2-Answers :
    (buf : List ℕ) (maxlen : ℕ) (r : Reader)
    → IsValid r
    → Answers (gather (maxlen - 1) (stream r)) 0 buf (readline2 buf maxlen r)
unfolding readline2
readline2-Answers buf maxlen r v = loop-Answers (maxlen - 1) 0 buf r (stream r) v refl

length-gather-le : (room : ℕ) (gs : List Got) → length (gather room gs).bytes ≤ room
unfolding gather
length-gather-le zero gs = omega arith
length-gather-le (suc room) [] = omega arith
length-gather-le (suc room) (blocked ∷ gs) = omega arith
length-gather-le (suc room) (eof ∷ gs) = omega arith
length-gather-le (suc room) (error ∷ gs) = omega arith
length-gather-le (suc room) (byte c ∷ gs) = elim (Bool-cases (c == b'\n')) [
  | inl nl ↦ rw nl (omega arith)
  | inr other ↦ rw other (omega (arith, length-gather-le room gs))
]

-- The value returned, and the caller's buffer; none while the call waits.
abbrev pub visible : Line → Option (ℤ × List ℕ)
visible (returned n buf r) = some (n, buf)
visible (waiting buf r) = none

visible-answer :
    (e : Ending) (bytes : List ℕ) (i : ℕ) (buf : List ℕ) (r s : Reader)
    → visible (answer e bytes i buf r) ≡ visible (answer e bytes i buf s)
visible-answer newline bytes i buf r s = refl
visible-answer full bytes i buf r s = refl
visible-answer ended bytes i buf r s = refl
visible-answer broken bytes i buf r s = refl
visible-answer stuck bytes i buf r s = refl

-- Two readers, each with `read_ptr` and `read_cnt` within `read_buf`, that have the same stream of
-- bytes before them give the same line, however `read` cuts the bytes into pieces and whatever
-- interrupts it: `readline2` returns the same and leaves the same buffer, or waits on both.
pub readline2_pieces :
    (buf : List ℕ) (maxlen : ℕ) (r s : Reader)
    → IsValid r
    → IsValid s
    → stream r ≡ stream s
    → visible (readline2 buf maxlen r) ≡ visible (readline2 buf maxlen s)
readline2_pieces buf maxlen r s v w e =
    let a = readline2-Answers buf maxlen r v in
    let b = readline2-Answers buf maxlen s w in
    let g = λ (gs : List Got). gather (maxlen - 1) gs in
    ap visible a.answers
    ∙ ap (λ gs. visible (answer (g gs).ending (g gs).bytes 0 buf a.reader)) e
    ∙ visible-answer (g (stream s)).ending (g (stream s)).bytes 0 buf a.reader b.reader
    ∙ ap visible (sym b.answers)

-- The place of the terminating 0, behind the bytes of the line, is in the `maxlen` bytes.
pub gather_fits :
    (maxlen : ℕ) (gs : List Got) → 0 < maxlen → length (gather (maxlen - 1) gs).bytes < maxlen
gather_fits maxlen gs h = omega (arith, length-gather-le (maxlen - 1) gs)
