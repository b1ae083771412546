-- ===== src/Readline/Bounds.antt =====
-- `readline2` keeps to the caller's buffer.
use network_course.Prelude.{
  ℕ, zero, suc, ◌+◌, ◌-◌, ◌≤◌, ◌<◌, ◌≡◌, refl, ap, ◌∙◌, List, [], ◌∷◌, length, set, drop, arith,
}
use network_course.Readline.{Reader, Line, returned, waiting, readline2}
use network_course.Readline.Stream.{IsValid, stream}
use network_course.Readline.Lines.{
  Ending, newline, full, ended, broken, stuck, gather, gather_fits, store, answer,
  readline2-Answers,
}

-- The caller's memory after the call.
abbrev pub memory : Line → List ℕ
memory (returned n buf r) = buf
memory (waiting buf r) = buf

drop-set : (n i v : ℕ) (xs : List ℕ) → i < n → drop n (set xs i v) ≡ drop n xs
drop-set zero i v xs h = absurd (omega arith)
drop-set (suc n) i v [] h = ground arith
drop-set (suc n) zero v (x ∷ xs) h = refl
drop-set (suc n) (suc i) v (x ∷ xs) h = drop-set n i v xs (omega arith)

drop-store :
    (n i : ℕ) (bytes xs : List ℕ) → i + length bytes ≤ n → drop n (store xs i bytes) ≡ drop n xs
drop-store n i [] xs h = refl
drop-store n i (b ∷ bytes) xs h =
    drop-store n (i + 1) bytes (set xs i b) (omega arith) ∙ drop-set n i b xs (omega arith)

drop-answer :
    (e : Ending) (n i : ℕ) (bytes xs : List ℕ) (r : Reader)
    → i + length bytes < n
    → drop n (memory (answer e bytes i xs r)) ≡ drop n xs
drop-answer newline n i bytes xs r h =
    drop-set n (i + length bytes) 0 (store xs i bytes) h ∙ drop-store n i bytes xs (omega arith)
drop-answer full n i bytes xs r h =
    drop-set n (i + length bytes) 0 (store xs i bytes) h ∙ drop-store n i bytes xs (omega arith)
drop-answer ended n i bytes xs r h =
    drop-set n (i + length bytes) 0 (store xs i bytes) h ∙ drop-store n i bytes xs (omega arith)
drop-answer broken n i bytes xs r h = drop-store n i bytes xs (omega arith)
drop-answer stuck n i bytes xs r h = drop-store n i bytes xs (omega arith)

-- With `maxlen` not 0, and `read_ptr` and `read_cnt` within `read_buf`, `readline2` writes nothing behind the first `maxlen` bytes of the memory at
-- `vptr`, the terminating 0 included.
pub readline2_keeps :
    (mem : List ℕ) (maxlen : ℕ) (r : Reader)
    → IsValid r
    → 0 < maxlen
    → drop maxlen (memory (readline2 mem maxlen r)) ≡ drop maxlen mem
readline2_keeps mem maxlen r v h =
    let a = readline2-Answers mem maxlen r v in
    let g = gather (maxlen - 1) (stream r) in
    ap (λ l. drop maxlen (memory l)) a.answers
    ∙ drop-answer g.ending maxlen 0 g.bytes mem a.reader
        (omega (arith, gather_fits maxlen (stream r) h))
