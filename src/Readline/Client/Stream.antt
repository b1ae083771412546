-- ===== src/Readline/Client/Stream.antt =====
-- The bytes that the client has before it, however `recv` cuts them into pieces.
use network_course.Prelude.{
  ℕ, zero, suc, ◌+◌, ◌≤◌, ◌≡◌, refl, ap, List, [], ◌∷◌, ◌++◌, length, length-append, take, drop,
  map, arith,
}
use network_course.Prelude.Int.{ℤ, pos, negsuc}
use network_course.Readline.{Read, interrupted, failed, received, Got, byte, eof, error}
use network_course.Readline.Stream.{items, first, later, take-length_append, take-drop_next}
use network_course.Readline.Client.{Receiver, take_next, receive, next_byte}

-- `cnt` counts the byte that was taken last.
abbrev pub left_in : ℤ → ℕ
left_in (pos zero) = 0
left_in (pos (suc n)) = n
left_in (negsuc n) = 0

abbrev pub unread : Receiver → List ℕ
unread r = take (left_in r.cnt) (drop r.bp r.b)

abbrev pub incoming : Receiver → List Got
incoming r = map byte (unread r) ++ items r.recvs

-- `bp` and `cnt` stay within what was received.
pub record IsSound (r : Receiver) : Type 0 where
  pub within : r.bp + left_in r.cnt ≤ length r.b

-- A receiver that took the first item of a stream.
pub record TookNext (gs : List Got) (out : Got × Receiver) : Type 0 where
  pub got : out.0 ≡ first gs
  pub left : incoming (out.1) ≡ later gs
  pub sound : IsSound (out.1)

-- Without bytes that wait, the items are those of the calls to come.
TookNext-recvs :
    (g : Got) (c : ℤ) (rs : List Read) (r : Receiver)
    → left_in c ≡ 0
    → IsSound r
    → TookNext (g ∷ items rs) (g, record r { cnt = c; recvs = rs })
TookNext-recvs g c rs r e v = record {
  got = refl;
  left = rw (e, take) refl;
  sound = record { within = omega (arith, v.within) };
}

receive-TookNext :
    (rs : List Read) (r : Receiver)
    → left_in r.cnt ≡ 0
    → IsSound r
    → TookNext (items rs) (receive rs r)
unfolding receive take_next
receive-TookNext [] r z v = record {
  got = refl;
  left = rw (z, take) refl;
  sound = record { within = v.within };
}
receive-TookNext (interrupted ∷ rs) r z v =
    receive-TookNext rs (record r { cnt = negsuc 1 }) refl
      (record { within = omega (arith, v.within) })
receive-TookNext (failed ∷ rs) r z v = TookNext-recvs error (negsuc 0) rs r refl v
receive-TookNext (received [] ∷ rs) r z v = TookNext-recvs eof (pos 0) rs r refl v
receive-TookNext (received (c ∷ cs) ∷ rs) r z v = record {
  got = refl;
  left = rw (take-length_append cs (drop (suc (length cs)) r.b)) refl;
  sound = record { within = omega (arith, length-append cs (drop (suc (length cs)) r.b)) };
}

-- Where `cnt` says that no byte waits, the next one comes from `recv`.
drained-TookNext :
    (c : ℤ) (r : Receiver)
    → left_in r.cnt ≡ 0
    → left_in c ≡ 0
    → IsSound r
    → TookNext (incoming r) (receive r.recvs (record r { cnt = c }))
drained-TookNext c r z e v =
    rw (z, take)
      (receive-TookNext r.recvs (record r { cnt = c }) e
        (record { within = omega (arith, v.within) }))

waiting-TookNext :
    (n : ℕ) (r : Receiver)
    → r.cnt ≡ pos (suc (suc n))
    → IsSound r
    → TookNext (incoming r) (take_next (pos (suc n)) r)
unfolding take_next
waiting-TookNext n r e v =
    let bound : r.bp + suc n ≤ length r.b = omega (arith, v.within, ap left_in e) in
    rw (e, take-drop_next n r.bp r.b (omega arith))
      (record { got = refl; left = refl; sound = record { within = omega arith } })

-- Where `bp` and `cnt` are within what was received, the loop's next byte is the first item of the
-- stream, the rest of it is left, and `bp` and `cnt` stay within.
pub next_byte-TookNext :
    (cnt : ℤ) (r : Receiver) → r.cnt ≡ cnt → IsSound r → TookNext (incoming r) (next_byte cnt r)
unfolding next_byte
next_byte-TookNext (pos (suc (suc n))) r e v = waiting-TookNext n r e v
next_byte-TookNext (pos (suc zero)) r e v = drained-TookNext (pos 0) r (ap left_in e) refl v
next_byte-TookNext (pos zero) r e v = drained-TookNext (negsuc 0) r (ap left_in e) refl v
next_byte-TookNext (negsuc n) r e v = drained-TookNext (negsuc (suc n)) r (ap left_in e) refl v
