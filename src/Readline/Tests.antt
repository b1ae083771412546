-- ===== src/Readline/Tests.antt =====
-- The reader of intro/reliable_test_client.c on a connection that brings "hi" and a newline in two
-- pieces, with an interruption between them.
use network_course.Prelude.{ℕ, ◌-◌, ◌≡◌, refl, some, List, [], ◌∷◌, drop, arith}
use network_course.Prelude.Int.{pos}
use network_course.Readline.{Read, interrupted, received, Reader, readline2, my_read}
use network_course.Readline.Stream.{IsValid, stream, Took, my_read-Took}
use network_course.Readline.Lines.{Answers, gather, readline2-Answers, readline2_pieces, visible}
use network_course.Readline.Bounds.{memory, readline2_keeps}

abbrev connection : List Read → Reader
connection rs = record { read_cnt = pos 0; read_ptr = 0; read_buf = 0 ∷ 0 ∷ 0 ∷ 0 ∷ []; reads = rs }

abbrev pieces : Reader
pieces = connection (received (b'h' ∷ []) ∷ interrupted ∷ received (b'i' ∷ b'\n' ∷ []) ∷ [])

abbrev whole : Reader
whole = connection (received (b'h' ∷ b'i' ∷ b'\n' ∷ []) ∷ [])

abbrev room : List ℕ
room = 7 ∷ 7 ∷ 7 ∷ 7 ∷ 7 ∷ 7 ∷ []

pieces-IsValid : IsValid pieces
pieces-IsValid = record { within = omega arith }

whole-IsValid : IsValid whole
whole-IsValid = record { within = omega arith }

pieces_line : visible (readline2 room 5 pieces) ≡ some (pos 3, b'h' ∷ b'i' ∷ b'\n' ∷ 0 ∷ 7 ∷ 7 ∷ [])
unfolding readline2
pieces_line = refl

my_read-Took_example : Took (stream pieces) (my_read pieces)
my_read-Took_example = my_read-Took pieces pieces-IsValid

readline2-Answers_example :
    Answers (gather (5 - 1) (stream pieces)) 0 room (readline2 room 5 pieces)
readline2-Answers_example = readline2-Answers room 5 pieces pieces-IsValid

readline2_pieces_example : visible (readline2 room 5 pieces) ≡ visible (readline2 room 5 whole)
readline2_pieces_example = readline2_pieces room 5 pieces whole pieces-IsValid whole-IsValid refl

readline2_keeps_example : drop 5 (memory (readline2 room 5 pieces)) ≡ drop 5 room
readline2_keeps_example = readline2_keeps room 5 pieces pieces-IsValid (omega arith)
