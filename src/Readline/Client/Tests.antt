-- ===== src/Readline/Client/Tests.antt =====
-- The client's `readline` on an answer that comes in two pieces, with an interruption between them.
use network_course.Prelude.{ℕ, ◌≡◌, refl, some, List, [], ◌∷◌, arith}
use network_course.Prelude.Int.{pos}
use network_course.Readline.{interrupted, received}
use network_course.Readline.Client.{Receiver, readline, next_byte}
use network_course.Readline.Client.Stream.{IsSound, incoming, TookNext, next_byte-TookNext}

abbrev answer_pieces : Receiver
answer_pieces = record {
  cnt = pos 0;
  bp = 0;
  b = 0 ∷ 0 ∷ 0 ∷ [];
  recvs = received (b'o' ∷ []) ∷ interrupted ∷ received (b'k' ∷ b'\n' ∷ b'!' ∷ []) ∷ [];
}

abbrev buffer_of_5 : List ℕ
buffer_of_5 = 7 ∷ 7 ∷ 7 ∷ 7 ∷ 7 ∷ []

answer_pieces-IsSound : IsSound answer_pieces
answer_pieces-IsSound = record { within = omega arith }

answer_pieces_value : (readline buffer_of_5 5 answer_pieces).value ≡ some (pos 3)
unfolding readline
answer_pieces_value = refl

answer_pieces_buffer :
    (readline buffer_of_5 5 answer_pieces).buffer ≡ b'o' ∷ b'k' ∷ b'\n' ∷ 0 ∷ 7 ∷ []
unfolding readline
answer_pieces_buffer = refl

next_byte-TookNext_example : TookNext (incoming answer_pieces) (next_byte (pos 0) answer_pieces)
next_byte-TookNext_example = next_byte-TookNext (pos 0) answer_pieces refl answer_pieces-IsSound
