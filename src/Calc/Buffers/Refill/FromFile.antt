-- ===== src/Calc/Buffers/Refill/FromFile.antt =====
-- The refill with YY_INPUT on a file.
use network_course.Prelude.{
  ℕ, ◌≤◌, ◌≡◌, ◌≢◌, ap, Bool, false, Option, some, List, [], ◌++◌, length, take,
}
use network_course.Calc.Buffers.Input.{Getc, yy_input, stored}
use network_course.Calc.Buffers.Input.Pieces.{chars, IsClean, AtEnd, yy_input-Piece}
use network_course.Calc.Buffers.Refill.{Window, Action, continue_scan, end_of_file, last_match}
use network_course.Calc.Buffers.Refill.Text.{IsRefilled, Environment, kept}

-- `yyrealloc` that gives memory and keeps what was in it.
pub record Memory (yyrealloc : ℕ → List ℕ → Option (List ℕ)) : Type 0 where
  pub cells : ℕ → List ℕ → List ℕ
  pub reallocates : (n : ℕ) (xs : List ℕ) → yyrealloc n xs ≡ some (cells n xs)
  pub as_many : (n : ℕ) (xs : List ℕ) → length (cells n xs) ≡ n
  pub same : (n : ℕ) (xs : List ℕ) → length xs ≤ n → take (length xs) (cells n xs) ≡ xs

abbrev pub file_input : Bool → List Getc → ℕ → Option (List ℕ)
file_input is_interactive rs n =
    stored (yy_input is_interactive n record { results = rs; error = false })

pub Environment-file :
    (yyrealloc : ℕ → List ℕ → Option (List ℕ)) (isatty : ℕ → Bool) (b : Bool) (rs : List Getc)
    → Memory yyrealloc
    → IsClean rs
    → Environment (file_input b rs) yyrealloc isatty
Environment-file yyrealloc isatty b rs m h = record {
  cells = m.cells;
  reallocates = m.reallocates;
  as_many = m.as_many;
  same = m.same;
  got = λ n. (yy_input-Piece b n rs h).got;
  reads = λ n. ap stored (yy_input-Piece b n rs h).reads;
  limited = λ n. (yy_input-Piece b n rs h).limited;
}

-- Where the scan goes on, or what of the text is left to match.
pub data Next (w : Window) (rs : List Getc) : Action → Type 0 where
  go_on : Next w rs continue_scan
  at_end : AtEnd rs → kept w ≡ [] → Next w rs end_of_file
  match_rest : AtEnd rs → kept w ≢ [] → Next w rs last_match

-- What is left of the file, and no character lost.
pub record Refilled (b : Bool) (w : Window) (rs : List Getc) (act : Action) (w' : Window)
    : Type 0 where
  pub limit : ℕ
  pub got : List ℕ
  pub rest : List Getc
  pub reads : stored (yy_input b limit record { results = rs; error = false }) ≡ some got
  pub is_refilled : IsRefilled (kept w ++ got) w'
  pub all_kept : kept w ++ chars rs ≡ take w'.n_chars w'.buffer.ch_buf ++ chars rest
  pub next : Next w rs act
