-- ===== src/Echo/Client.antt =====
-- The client shows the answers.
use network_course.Prelude.{
  ℕ, zero, suc, ◌+◌, ◌-◌, ◌<◌, ◌≡◌, refl, sym, ap, ◌∙◌, Bool, true, some, List, [], ◌∷◌, ◌++◌, map,
  length, length-append, set, drop, append_assoc, append-nil, arith,
}
use network_course.Prelude.Strings.{c_string, NoZero, c_string-append}
use network_course.Prelude.Int.{pos}
use network_course.Readline.{Got, byte}
use network_course.Readline.Lines.{newline, Reading, gather, store}
use network_course.Readline.Client.{Receiver, readline}
use network_course.Readline.Client.Stream.{IsSound, incoming}
use network_course.Readline.Client.Lines.{readline-Replies, terminated, value_of}
use network_course.Echo.{finished, client_buffer, write_string, ask_lines}
use network_course.Echo.Server.{Lines, line, over, IsLine, gather-line}

store-cons : (bytes ys : List ℕ) (y i : ℕ) → store (y ∷ ys) (suc i) bytes ≡ y ∷ store ys i bytes
store-cons [] ys y i = refl
store-cons (b ∷ bs) ys y i =
    let e : suc i + 1 ≡ suc (i + 1) = omega arith in rw e (store-cons bs (set ys i b) y (i + 1))

-- A string and its 0, stored at the start of a buffer that has room for them.
stored_string :
    (bytes buf : List ℕ)
    → length bytes < length buf
    → (rest : List ℕ) × (set (store buf 0 bytes) (length bytes) 0 ≡ bytes ++ 0 ∷ rest)
stored_string bytes [] h = absurd (omega arith)
stored_string [] (y ∷ ys) h = (ys, refl)
stored_string (b ∷ bs) (y ∷ ys) h =
    let (rest, e) = stored_string bs ys (omega arith) in
    (rest, rw (store-cons bs ys b 0) (ap (◌∷◌ b) e))

length-set : (xs : List ℕ) (i v : ℕ) → length (set xs i v) ≡ length xs
length-set [] i v = refl
length-set (x ∷ xs) zero v = refl
length-set (x ∷ xs) (suc i) v = ap suc (length-set xs i v)

length-store : (bytes buf : List ℕ) (i : ℕ) → length (store buf i bytes) ≡ length buf
length-store [] buf i = refl
length-store (b ∷ bs) buf i = length-store bs (set buf i b) (i + 1) ∙ length-set buf i b

length-drop : (n : ℕ) (xs : List ℕ) → length (drop n xs) ≡ length xs - n
length-drop zero xs = omega arith
length-drop (suc n) [] = omega arith
length-drop (suc n) (x ∷ xs) = length-drop n xs ∙ omega arith

length-write_string :
    (text buf : List ℕ) → length text < length buf → length (write_string text buf) ≡ length buf
length-write_string text buf h =
    omega (
      arith,
      length-append text (0 ∷ drop (length text + 1) buf),
      length-drop (length text + 1) buf,
    )

NoZero-snoc : (cs : List ℕ) → NoZero cs → NoZero (cs ++ b'\n' ∷ [])
NoZero-snoc [] h = (refl, tt)
NoZero-snoc (c ∷ cs) (z, h) = (z, NoZero-snoc cs h)

-- A reply that is a line of the stream.
record Answered (r : Receiver) (buf cs : List ℕ) (gs : List Got) : Type 0 where
  counts : (readline buf client_buffer r).value ≡ some (pos (suc (length cs)))
  text : c_string (readline buf client_buffer r).buffer ≡ cs ++ b'\n' ∷ []
  sized : length (readline buf client_buffer r).buffer ≡ client_buffer
  left : incoming (readline buf client_buffer r).receiver ≡ gs
  sound : IsSound (readline buf client_buffer r).receiver

readline-Answered :
    (r : Receiver) (buf cs : List ℕ) (gs : List Got)
    → IsSound r
    → incoming r ≡ map byte cs ++ byte b'\n' ∷ gs
    → IsLine cs
    → NoZero cs
    → length cs + 1 < client_buffer
    → length buf ≡ client_buffer
    → Answered r buf cs gs
readline-Answered r buf cs gs v e h z l b =
    let a = readline-Replies buf client_buffer r (λ q. absurd (omega arith)) v in
    let g : gather 119 (incoming r)
        ≡ record { bytes = cs ++ b'\n' ∷ []; ending = newline; rest = gs } =
      ap (gather 119) e ∙ gather-line 119 cs gs h (omega arith) in
    let stored = cs ++ b'\n' ∷ [] in
    let n : 0 + length stored ≡ length stored = omega arith in
    let m : length stored ≡ suc (length cs) = omega (arith, length-append cs (b'\n' ∷ [])) in
    let (rest, same) = stored_string stored buf (omega arith) in
    let buffer : (readline buf client_buffer r).buffer
        ≡ set (store buf 0 stored) (length stored) 0 =
      a.buffer_is
      ∙ ap (λ (g : Reading). terminated g.ending (0 + length g.bytes) (store buf 0 g.bytes)) g
      ∙ ap (λ k. set (store buf 0 stored) k 0) n in
    record {
      counts =
          a.value_is
          ∙ ap (λ (g : Reading). value_of g.ending (0 + length g.bytes)) g
          ∙ ap (λ k. some (pos k)) (n ∙ m);
      text = ap c_string (buffer ∙ same) ∙ c_string-append stored rest (NoZero-snoc cs z);
      sized =
          ap length buffer
          ∙ length-set (store buf 0 stored) (length stored) 0
          ∙ length-store stored buf 0
          ∙ b;
      left = a.left ∙ ap (λ (g : Reading). g.rest) g;
      sound = a.sound;
    }

-- The lines as `fputs` shows them.
abbrev pub shown_lines : List (List ℕ) → List (List ℕ)
shown_lines [] = []
shown_lines (l ∷ ls) = (l ++ b'\n' ∷ []) ∷ shown_lines ls

-- No line has a 0 in it.
abbrev pub NoZeros : List (List ℕ) → Type 0
NoZeros [] = Unit
NoZeros (l ∷ ls) = NoZero l × NoZeros ls

-- What `fgets` stores fits into `buf`.
abbrev pub AllFit : List (List ℕ) → Type 0
AllFit [] = Unit
AllFit (l ∷ ls) = (length l < client_buffer) × AllFit ls

module _ (send : List ℕ → Bool) where
  ask_lines-Lines :
      (asked : List (List ℕ)) (buf : List ℕ) (r : Receiver) (shown : List (List ℕ))
      {ls : List (List ℕ)} {gs : List Got}
      → ((text : List ℕ) → send text ≡ true)
      → AllFit asked
      → NoZeros ls
      → length asked ≡ length ls
      → length buf ≡ client_buffer
      → IsSound r
      → incoming r ≡ gs
      → Lines client_buffer ls gs
      → ask_lines send asked buf r shown ≡ finished (shown ++ shown_lines ls)
  unfolding ask_lines
  ask_lines-Lines [] buf r shown w fit z n b v e (over gs) = ap finished (sym (append-nil shown))
  ask_lines-Lines [] buf r shown w fit z n b v e (line cs h k l) = absurd (omega arith)
  ask_lines-Lines (q ∷ asked) buf r shown w fit z n b v e (over gs) = absurd (omega arith)
  ask_lines-Lines (q ∷ asked) buf r shown w fit zs n b v e (line {ls} {gs} cs h k l) =
      let asked_buf = write_string q buf in
      let x =
        readline-Answered r asked_buf cs gs v e h zs.0 k
          (length-write_string q buf (omega (arith, fit.0)) ∙ b) in
      rw (ask_lines, w q, x.counts, x.text)
        (ask_lines-Lines asked (readline asked_buf client_buffer r).buffer
            (readline asked_buf client_buffer r).receiver (shown ++ (cs ++ b'\n' ∷ []) ∷ []) w fit.1
            zs.1 (omega arith) x.sized x.sound x.left l
          ∙ ap finished (append_assoc shown ((cs ++ b'\n' ∷ []) ∷ []) (shown_lines ls)))

  -- Where each line that `fgets` stores fits into `buf` and is sent, and the answers are as many lines
  -- of fewer than 120 bytes, with no 0 in them, the client shows the answers in order and ends with
  -- its input. `buf` has 120 bytes, and the reader's indices are within its buffer.
  pub ask_lines-shown :
      (asked : List (List ℕ)) (buf : List ℕ) (r : Receiver) (ls : List (List ℕ))
      → ((text : List ℕ) → send text ≡ true)
      → AllFit asked
      → NoZeros ls
      → length asked ≡ length ls
      → length buf ≡ client_buffer
      → IsSound r
      → Lines client_buffer ls (incoming r)
      → ask_lines send asked buf r [] ≡ finished (shown_lines ls)
  ask_lines-shown asked buf r ls w fit z n b v l =
      ask_lines-Lines asked buf r [] w fit z n b v refl l
