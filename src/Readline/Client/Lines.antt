-- ===== src/Readline/Client/Lines.antt =====
-- `readline` of the client in terms of the stream of bytes.
use network_course.Prelude.{
  ℕ, zero, suc, ◌+◌, ◌-◌, ◌≡◌, ◌≢◌, refl, ap, ◌∙◌, Option, none, some, List, [], ◌∷◌, length, set,
  ◌==◌, arith, Bool-cases, inl, inr,
}
use network_course.Prelude.Int.{ℤ, pos, negsuc}
use network_course.Readline.{Got, byte, eof, error, blocked}
use network_course.Readline.Stream.{first, later}
use network_course.Readline.Lines.{
  Ending, newline, full, ended, broken, stuck, Reading, gather, store,
}
use network_course.Readline.Client.{Receiver, next_byte, Reply, receive_loop, readline}
use network_course.Readline.Client.Stream.{IsSound, incoming, TookNext, next_byte-TookNext}

-- The value for a line whose last byte is at an index, by its ending.
abbrev pub value_of : Ending → ℕ → Option ℤ
value_of newline n = some (pos n)
value_of full n = some (negsuc 0)
value_of ended n = some (pos 0)
value_of broken n = some (negsuc 0)
value_of stuck n = none

-- Only behind a newline a 0 is written.
abbrev pub terminated : Ending → ℕ → List ℕ → List ℕ
terminated newline n buf = set buf n 0
terminated full n buf = buf
terminated ended n buf = buf
terminated broken n buf = buf
terminated stuck n buf = buf

-- `x` is the reply to a reading that is stored from index `i` on.
pub record Replies (g : Reading) (i : ℕ) (buf : List ℕ) (x : Reply) : Type 0 where
  pub value_is : x.value ≡ value_of g.ending (i + length g.bytes)
  pub buffer_is : x.buffer ≡ terminated g.ending (i + length g.bytes) (store buf i g.bytes)
  pub left : incoming x.receiver ≡ g.rest
  pub sound : IsSound x.receiver

-- What one round does, if the later rounds do what they should.
round-Replies :
    (gs : List Got) (k i : ℕ) (buf : List ℕ) (r : Receiver)
    → TookNext gs (next_byte r.cnt r)
    → ((i' : ℕ) (buf' : List ℕ)
        → Replies (gather k (later gs)) i' buf' (receive_loop k i' buf' ((next_byte r.cnt r).1)))
    → Replies (gather (suc k) gs) i buf (receive_loop (suc k) i buf r)
unfolding gather receive_loop
round-Replies [] k i buf r t ih =
    rw (receive_loop, t.got)
      (record { value_is = refl; buffer_is = refl; left = t.left; sound = t.sound })
round-Replies (blocked ∷ gs) k i buf r t ih =
    rw (receive_loop, t.got)
      (record { value_is = refl; buffer_is = refl; left = t.left; sound = t.sound })
round-Replies (eof ∷ gs) k i buf r t ih =
    rw (receive_loop, t.got)
      (record { value_is = refl; buffer_is = refl; left = t.left; sound = t.sound })
round-Replies (error ∷ gs) k i buf r t ih =
    rw (receive_loop, t.got)
      (record { value_is = refl; buffer_is = refl; left = t.left; sound = t.sound })
round-Replies (byte c ∷ gs) k i buf r t ih = elim (Bool-cases (c == b'\n')) [
  | inl nl ↦
      rw (receive_loop, t.got, nl)
        (record { value_is = refl; buffer_is = refl; left = t.left; sound = t.sound })
  | inr other ↦
      let a = ih (i + 1) (set buf i c) in
      let e : i + 1 + length (gather k gs).bytes ≡ i + suc (length (gather k gs).bytes) =
        omega arith in
      rw (receive_loop, t.got, other)
        (record {
          value_is = a.value_is ∙ ap (value_of (gather k gs).ending) e;
          buffer_is =
              a.buffer_is
              ∙ ap
                  (λ n.
                    terminated (gather k gs).ending n
                      (store (set buf i c) (i + 1) (gather k gs).bytes))
                  e;
          left = a.left;
          sound = a.sound;
        })
]

loop-Replies :
    (k i : ℕ) (buf : List ℕ) (r : Receiver) (gs : List Got)
    → IsSound r
    → incoming r ≡ gs
    → Replies (gather k gs) i buf (receive_loop k i buf r)
loop-Replies zero i buf r gs v e =
    unfold gather receive_loop in record { value_is = refl; buffer_is = refl; left = e; sound = v }
loop-Replies (suc k) i buf r gs v e =
    let t = next_byte-TookNext r.cnt r refl v in
    let t' : TookNext gs (next_byte r.cnt r) = record {
      got = t.got ∙ ap first e;
      left = t.left ∙ ap later e;
      sound = t.sound;
    } in
    round-Replies gs k i buf r t'
      (λ i' buf'. loop-Replies k i' buf' ((next_byte r.cnt r).1) (later gs) t.sound t'.left)

pub readline-Replies :
    (buf : List ℕ) (len : ℕ) (r : Receiver)
    → len ≢ 0
    → IsSound r
    → Replies (gather (len - 1) (incoming r)) 0 buf (readline buf len r)
unfolding readline
readline-Replies buf len r h v = elim (Bool-cases (len == 0)) [
  | inl e ↦ absurd (ground arith)
  | inr e ↦ rw e (loop-Replies (len - 1) 0 buf r (incoming r) v refl)
]
