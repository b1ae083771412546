-- ===== src/Echo/Tests.antt =====
-- The echo programs on two lines.
use network_course.Prelude.{
  ℕ, zero, suc, ◌+◌, ◌≡◌, refl, Bool, true, some, List, [], ◌∷◌, length, arith,
}
use network_course.Prelude.Int.{ℤ, pos}
use network_course.Readline.{received, Reader}
use network_course.Readline.Client.{Receiver}
use network_course.Echo.{finished, serve_lines, ask_lines}
use network_course.Echo.Server.{line, over, messages, serve_lines-messages}
use network_course.Echo.Client.{shown_lines, ask_lines-shown}

-- "m" for every number.
abbrev short_message : ℤ → List ℕ
short_message n = b'm' ∷ []

abbrev sent : List ℕ → Bool
sent text = true

abbrev zeros : ℕ → List ℕ
zeros zero = []
zeros (suc n) = 0 ∷ zeros n

abbrev questions : Reader
questions = record {
  read_cnt = pos 0;
  read_ptr = 0;
  read_buf = [];
  reads = received (b'a' ∷ b'\n' ∷ b'b' ∷ []) ∷ received (b'\n' ∷ []) ∷ received [] ∷ [];
}

abbrev two_questions : List (List ℕ)
two_questions = (b'a' ∷ []) ∷ (b'b' ∷ []) ∷ []

serve_lines-messages_example :
    serve_lines short_message sent (length two_questions + 1) (pos 5) (zeros 20) questions []
    ≡ some (finished (messages short_message sent 5 two_questions))
serve_lines-messages_example =
    serve_lines-messages short_message sent 5 (zeros 20) questions two_questions
      (record { below_max = omega arith; fits = λ n h. omega arith; sends = λ t. refl })
      (record { within = omega arith })
      (line (b'a' ∷ []) (refl, tt) (omega arith)
        (line (b'b' ∷ []) (refl, tt) (omega arith) (over [])))

abbrev answers : Receiver
answers = record {
  cnt = pos 0;
  bp = 0;
  b = [];
  recvs = received (b'a' ∷ b'\n' ∷ b'b' ∷ []) ∷ received (b'\n' ∷ []) ∷ received [] ∷ [];
}

ask_lines-shown_example :
    ask_lines sent two_questions (zeros 120) answers [] ≡ finished (shown_lines two_questions)
ask_lines-shown_example =
    ask_lines-shown sent two_questions (zeros 120) answers two_questions (λ t. refl)
      (omega arith, (omega arith, tt)) ((refl, tt), ((refl, tt), tt)) refl refl
      (record { within = omega arith })
      (line (b'a' ∷ []) (refl, tt) (omega arith)
        (line (b'b' ∷ []) (refl, tt) (omega arith) (over [])))
