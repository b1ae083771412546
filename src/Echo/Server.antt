-- ===== src/Echo/Server.antt =====
-- The server answers each line.
use network_course.Prelude.{
  ℕ, zero, suc, ◌+◌, ◌^◌, ◌≤◌, ◌<◌, ◌≡◌, refl, sym, ap, ◌∙◌, Bool, true, false, Option, some, List,
  [], ◌∷◌, ◌++◌, map, length, length-append, set, lt→ltb, append_assoc, append-nil, ltb, ◌==◌,
  arith,
}
use network_course.Prelude.Int.{ℤ, pos, ◌+ℤ◌, to_int}
use network_course.Readline.{Got, byte, eof, Reader, returned, readline2}
use network_course.Readline.Stream.{IsValid, stream}
use network_course.Readline.Lines.{newline, Reading, gather, store, answer, readline2-Answers}
use network_course.Echo.{Ended, finished, write_string, server_buffer, answer_line, serve_lines}

-- Bytes of a line, none of them a newline.
abbrev pub IsLine : List ℕ → Type 0
IsLine [] = Unit
IsLine (c ∷ cs) = ((c == b'\n') ≡ false) × IsLine cs

-- A stream of lines, each of fewer than `room` bytes with its newline, and its end behind them.
pub data Lines (room : ℕ) : List (List ℕ) → List Got → Type 0 where
  over : (gs : List Got) → Lines room [] (eof ∷ gs)
  line :
      {ls : List (List ℕ)} {gs : List Got} (cs : List ℕ)
      → IsLine cs
      → length cs + 1 < room
      → Lines room ls gs
      → Lines room (cs ∷ ls) (map byte cs ++ byte b'\n' ∷ gs)

pub gather-line :
    (room : ℕ) (cs : List ℕ) (gs : List Got)
    → IsLine cs
    → length cs < room
    → gather room (map byte cs ++ byte b'\n' ∷ gs)
      ≡ record { bytes = cs ++ b'\n' ∷ []; ending = newline; rest = gs }
unfolding gather
gather-line zero cs gs h l = absurd (omega arith)
gather-line (suc room) [] gs h l = refl
gather-line (suc room) (c ∷ cs) gs (n, h) l = rw (n, gather-line room cs gs h (omega arith)) refl

-- What the reader comes to on a line, and at the end.
pub record LineRead (r : Reader) (buf : List ℕ) (n : ℕ) (gs : List Got) : Type 0 where
  pub reader : Reader
  pub buffer : List ℕ
  pub returns : readline2 buf server_buffer r ≡ returned (pos n) buffer reader
  pub valid : IsValid reader
  pub left : stream reader ≡ gs

readline2-line :
    (buf : List ℕ) (r : Reader) (cs : List ℕ) (gs : List Got)
    → IsValid r
    → stream r ≡ map byte cs ++ byte b'\n' ∷ gs
    → IsLine cs
    → length cs + 1 < server_buffer
    → LineRead r buf (suc (length cs)) gs
readline2-line buf r cs gs v e h l =
    let a = readline2-Answers buf server_buffer r v in
    let g : gather 19 (stream r)
        ≡ record { bytes = cs ++ b'\n' ∷ []; ending = newline; rest = gs } =
      ap (gather 19) e ∙ gather-line 19 cs gs h (omega arith) in
    let n : 0 + length (cs ++ b'\n' ∷ []) ≡ suc (length cs) =
      omega (arith, length-append cs (b'\n' ∷ [])) in
    let stored = cs ++ b'\n' ∷ [] in
    let buf' = set (store buf 0 stored) (0 + length stored) 0 in
    record {
      reader = a.reader;
      buffer = buf';
      returns =
          a.answers
          ∙ ap (λ (g : Reading). answer g.ending g.bytes 0 buf a.reader) g
          ∙ ap (λ k. returned (pos k) buf' a.reader) n;
      valid = a.valid;
      left = a.left ∙ ap (λ (g : Reading). g.rest) g;
    }

readline2-eof :
    (buf : List ℕ) (r : Reader) (gs : List Got)
    → IsValid r
    → stream r ≡ eof ∷ gs
    → LineRead r buf 0 gs
unfolding gather
readline2-eof buf r gs v e =
    let a = readline2-Answers buf server_buffer r v in
    let g = ap (gather 19) e in
    record {
      reader = a.reader;
      buffer = _;
      returns = a.answers ∙ ap (λ (g : Reading). answer g.ending g.bytes 0 buf a.reader) g;
      valid = a.valid;
      left = a.left ∙ ap (λ (g : Reading). g.rest) g;
    }

next_count :
    (c bound : ℕ) → bound < 2 ^ 31 → c < bound → to_int (pos c +ℤ pos 1) ≡ some (pos (c + 1))
unfolding to_int ◌+ℤ◌
next_count c bound w h = ground arith

module _ (message : ℤ → List ℕ) (send : List ℕ → Bool) where
  abbrev pub messages : ℕ → List (List ℕ) → List (List ℕ)
  messages c [] = []
  messages c (l ∷ ls) = message (pos c) ∷ messages (c + 1) ls

  -- `message` fits into `buf` for the numbers below a bound.
  pub record Fits (bound : ℕ) : Type 0 where
    pub below_max : bound < 2 ^ 31
    pub fits : (n : ℕ) → n < bound → length (message (pos n)) < server_buffer
    pub sends : (text : List ℕ) → send text ≡ true

  answer_line-next :
      (go : ℤ → List ℕ → List (List ℕ) → Option Ended) (c : ℕ) (buf : List ℕ) (sent : List (List ℕ))
      (bound : ℕ)
      → Fits bound
      → c < bound
      → answer_line message send go (pos c) buf sent
        ≡ go (pos (c + 1)) (write_string (message (pos c)) buf) (sent ++ message (pos c) ∷ [])
  unfolding answer_line
  answer_line-next go c buf sent bound w h =
      let small : ltb (length (message (pos c))) 20 ≡ true = lt→ltb _ _ (w.fits c h) in
      rw (small, w.sends (message (pos c)), next_count c bound (w.below_max) h) refl

  serve_lines-Lines :
      (f c bound : ℕ) (buf : List ℕ) (r : Reader) (sent : List (List ℕ)) {ls : List (List ℕ)}
      {gs : List Got}
      → Fits bound
      → c + length ls ≤ bound
      → IsValid r
      → stream r ≡ gs
      → Lines server_buffer ls gs
      → length ls < f
      → serve_lines message send f (pos c) buf r sent ≡ some (finished (sent ++ messages c ls))
  unfolding serve_lines
  serve_lines-Lines zero c bound buf r sent w b v e l f = absurd (omega arith)
  serve_lines-Lines (suc f) c bound buf r sent w b v e (over gs) k =
      let x = readline2-eof buf r gs v e in
      rw (serve_lines, x.returns) (ap (λ s. some (finished s)) (sym (append-nil sent)))
  serve_lines-Lines (suc f) c bound buf r sent w b v e (line {ls} {gs} cs h n l) k =
      let x = readline2-line buf r cs gs v e h n in
      rw (serve_lines, x.returns)
        (answer_line-next (λ c' b' s'. serve_lines message send f c' b' x.reader s') c x.buffer sent
            bound w (omega arith)
          ∙ serve_lines-Lines f (c + 1) bound (write_string (message (pos c)) x.buffer) x.reader
              (sent ++ message (pos c) ∷ []) w (omega arith) x.valid x.left l (omega arith)
          ∙ ap (λ s. some (finished s))
              (append_assoc sent (message (pos c) ∷ []) (messages (c + 1) ls)))

  -- Where the connection carries lines of fewer than 20 bytes, their newlines counted, and then ends,
  -- and the messages for the numbers from `count` on fit into `buf` and are sent, the server ends after
  -- as many rounds as there are lines, and has sent one message for each of them, numbered from
  -- `count` on. The numbers stay below 2^31, and the reader's indices are within its buffer.
  pub serve_lines-messages :
      (count : ℕ) (buf : List ℕ) (r : Reader) (ls : List (List ℕ))
      → Fits (count + length ls)
      → IsValid r
      → Lines server_buffer ls (stream r)
      → serve_lines message send (length ls + 1) (pos count) buf r []
        ≡ some (finished (messages count ls))
  serve_lines-messages count buf r ls w v l =
      serve_lines-Lines (length ls + 1) count (count + length ls) buf r [] w (omega arith) v refl l
        (omega arith)
