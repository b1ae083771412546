-- ===== src/Calc/Buffers/Input.antt =====
-- packetdrill/lex.yy.c: YY_INPUT, on a file that is the list of what `getc` returns. `fread` calls `getc` until it
-- has as many characters as it was asked for, or `getc` returns EOF.
pub mod Ends
pub mod Pieces
use network_course.Prelude.{
  ℕ, zero, suc, ◌+◌, Bool, true, false, not, ◌&&◌, Option, none, some, List, [], ◌∷◌, length, ◌==◌,
  if◌then◌else◌,
}

-- A character, or EOF: at the end of the file, by EINTR, or by another error. A list that has run out is at its end.
pub data Getc : Type 0 where
  char : ℕ → Getc
  end interrupted failed : Getc

-- `error` is what `ferror` returns.
pub record File : Type 0 where
  pub results : List Getc
  pub error : Bool

-- What YY_INPUT comes to: characters, YY_FATAL_ERROR, or no more fuel.
pub data Input : Type 0 where
  has_read : List ℕ → File → Input
  fatal unfinished : Input

abbrev pub prepend : ℕ → Input → Input
prepend c (has_read got f) = has_read (c ∷ got) f
prepend c fatal = fatal
prepend c unfinished = unfinished

-- EOF, which is fatal where `ferror` is set.
abbrev pub at_eof : File → Input
at_eof f = if f.error then fatal else has_read [] f

-- The `for` over `getc`, for as many characters as there is room.
unfoldable pub getc_loop : ℕ → List Getc → Bool → Input
getc_loop zero rs e = has_read [] record { results = rs; error = e }
getc_loop (suc n) [] e = at_eof record { results = []; error = e }
getc_loop (suc n) (end ∷ rs) e = at_eof record { results = rs; error = e }
getc_loop (suc n) (interrupted ∷ rs) e = fatal
getc_loop (suc n) (failed ∷ rs) e = fatal
getc_loop (suc n) (char c ∷ rs) e =
    let rest = getc_loop n rs e in
    if c == 10 then has_read (c ∷ []) record { results = rs; error = e } else prepend c rest

-- What `fread` returns, whether `errno` is EINTR after it, and the file.
pub record Fread : Type 0 where
  pub got : List ℕ
  pub is_interrupted : Bool
  pub file : File

unfoldable pub fread : ℕ → List Getc → Bool → Fread
fread zero rs e = record {
  got = [];
  is_interrupted = false;
  file = record { results = rs; error = e };
}
fread (suc n) [] e = record {
  got = [];
  is_interrupted = false;
  file = record { results = []; error = e };
}
fread (suc n) (end ∷ rs) e = record {
  got = [];
  is_interrupted = false;
  file = record { results = rs; error = e };
}
fread (suc n) (interrupted ∷ rs) e = record {
  got = [];
  is_interrupted = true;
  file = record { results = rs; error = true };
}
fread (suc n) (failed ∷ rs) e = record {
  got = [];
  is_interrupted = false;
  file = record { results = rs; error = true };
}
fread (suc n) (char c ∷ rs) e = let rest = fread n rs e in record rest { got = c ∷ rest.got }

-- `result == 0 && ferror (yyin)`.
abbrev pub nothing_read : Fread → Bool
nothing_read r = length r.got == 0 && r.file.error

-- The `while` over `fread`; a unit of fuel for each call.
unfoldable pub fread_loop : ℕ → ℕ → File → Input
unfolding fread
fread_loop zero n f = unfinished
fread_loop (suc fuel) n f =
    let r = fread n f.results f.error in
    let again = fread_loop fuel n (record r.file { error = false }) in
    if nothing_read r then (if r.is_interrupted then again else fatal) else has_read r.got r.file

unfoldable pub yy_input : Bool → ℕ → File → Input
unfolding getc_loop fread_loop
yy_input is_interactive n f =
    if is_interactive
    then getc_loop n f.results f.error
    else fread_loop (suc (length f.results)) n f

-- The characters that it stores.
abbrev pub stored : Input → Option (List ℕ)
stored (has_read got f) = some got
stored fatal = none
stored unfinished = none
