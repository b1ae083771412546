-- ===== src/Calc/Buffers/Lifetime/Tests.antt =====
-- packetdrill/lex.yy.c: the end of a scanner and its next beginning, on the buffers of two short texts.
use network_course.Prelude.{
  ℕ, zero, suc, ◌≡◌, refl, ap, true, Option, none, some, List, [], ◌∷◌, length, ◌>>=◌,
}
use network_course.Calc.Buffers.{Buffer, Flex, scan_bytes}
use network_course.Calc.Buffers.Tests.{
  zeros, no_terminal, allocate, first_buffer, second_buffer, reading, reading-Reads,
}
use network_course.Calc.Buffers.Lifetime.{
  Globals, initialise, destroy_buffers, destroy, scan_string,
}
use network_course.Calc.Buffers.Lifetime.Begins.{Begins, destroy-initialise}

abbrev running : Globals
running = record { flex = reading; init = true; start = 1; yyout = some 1 }

length-zeros : (n : ℕ) → length (zeros n) ≡ n
length-zeros zero = refl
length-zeros (suc n) = ap suc (length-zeros n)

destroy-initialise_example :
    (t : Globals) × ((destroy no_terminal allocate 2 running
        >>= initialise no_terminal allocate 0 1)
      ≡ some t)
    × Begins no_terminal allocate running 0 0 1 t
destroy-initialise_example =
    destroy-initialise no_terminal allocate running (some 0 ∷ []) 0 first_buffer 0 0 1
      (λ n. (zeros n, refl, length-zeros n)) reading-Reads

-- Of two buffers on the stack only the one on top is freed.
abbrev stacked : Flex
stacked = record reading { stack = some (some 1 ∷ some 0 ∷ []); stack_top = 1; stack_max = 2 }

abbrev heap_of : Option Flex → Option (List (Option Buffer))
heap_of none = none
heap_of (some s) = some s.heap

only_top :
    heap_of (destroy_buffers no_terminal allocate 2 stacked) ≡ some (none ∷ some second_buffer ∷ [])
unfolding destroy_buffers
only_top = refl

-- A string ends at its first 0.
string_text :
    scan_string no_terminal allocate (55 ∷ 0 ∷ 56 ∷ []) reading
    ≡ scan_bytes no_terminal allocate (55 ∷ []) reading
unfolding scan_string
string_text = refl
