-- ===== src/Calc/Buffers/Input/Pieces.antt =====
-- What YY_INPUT reads of a file.
use network_course.Prelude.{
  ℕ, zero, suc, ◌≤◌, ◌<◌, ◌≡◌, refl, ap, Bool, true, false, Bool-cases, List, [], ◌∷◌, ◌++◌, length,
  ◌==◌, inl, inr, arith,
}
use network_course.Prelude.Cells.{if-then, if-else}
use network_course.Calc.Buffers.Input.{
  Getc, char, end, interrupted, failed, File, Input, has_read, prepend, getc_loop, Fread, fread,
  nothing_read, fread_loop, yy_input,
}

-- The characters of a file, and files without errors.
abbrev pub chars : List Getc → List ℕ
chars [] = []
chars (char c ∷ rs) = c ∷ chars rs
chars (end ∷ rs) = chars rs
chars (interrupted ∷ rs) = chars rs
chars (failed ∷ rs) = chars rs

pub data IsClean : List Getc → Type 0 where
  clean_nil : IsClean []
  clean_char : {c : ℕ} {rs : List Getc} → IsClean rs → IsClean (char c ∷ rs)
  clean_end : {rs : List Getc} → IsClean rs → IsClean (end ∷ rs)

-- The next call of `getc` finds the end.
pub data AtEnd : List Getc → Type 0 where
  no_results : AtEnd []
  end_first : {rs : List Getc} → AtEnd (end ∷ rs)

-- What a read of at most `n` characters of a clean file is.
pub record Piece (n : ℕ) (rs : List Getc) (i : Input) : Type 0 where
  pub got : List ℕ
  pub rest : List Getc
  pub reads : i ≡ has_read got record { results = rest; error = false }
  pub split : chars rs ≡ got ++ chars rest
  pub limited : length got ≤ n
  pub nothing_at_end : got ≡ [] → 0 < n → AtEnd rs
  pub clean : IsClean rest

Piece-prepend :
    (n c : ℕ) (rs : List Getc) (i : Input)
    → Piece n rs i
    → Piece (suc n) (char c ∷ rs) (prepend c i)
Piece-prepend n c rs i p = record {
  got = c ∷ p.got;
  rest = p.rest;
  reads = ap (prepend c) p.reads;
  split = ap (◌∷◌ c) p.split;
  limited = omega (arith, p.limited);
  nothing_at_end = λ e _. absurd (omega (arith, ap length e));
  clean = p.clean;
}

getc_loop-Piece : (n : ℕ) (rs : List Getc) → IsClean rs → Piece n rs (getc_loop n rs false)
unfolding getc_loop
getc_loop-Piece zero rs h = record {
  got = [];
  rest = rs;
  reads = refl;
  split = refl;
  limited = omega arith;
  nothing_at_end = λ _ p. absurd (omega (arith, p));
  clean = h;
}
getc_loop-Piece (suc n) [] h = record {
  got = [];
  rest = [];
  reads = refl;
  split = refl;
  limited = omega arith;
  nothing_at_end = λ _ _. no_results;
  clean = h;
}
getc_loop-Piece (suc n) (end ∷ rs) (clean_end h) = record {
  got = [];
  rest = rs;
  reads = refl;
  split = refl;
  limited = omega arith;
  nothing_at_end = λ _ _. end_first;
  clean = h;
}
getc_loop-Piece (suc n) (char c ∷ rs) (clean_char h) = elim (Bool-cases (c == 10)) [
  | inl e ↦ record {
    got = c ∷ [];
    rest = rs;
    reads = if-then _ _ e;
    split = refl;
    limited = omega arith;
    nothing_at_end = λ e' _. absurd (omega (arith, ap length e'));
    clean = h;
  }
  | inr e ↦ rw e (Piece-prepend n c rs (getc_loop n rs false) (getc_loop-Piece n rs h))
]
getc_loop-Piece (suc n) (interrupted ∷ rs) h = elim h [ ]
getc_loop-Piece (suc n) (failed ∷ rs) h = elim h [ ]

abbrev input_of : Fread → Input
input_of r = has_read r.got r.file

input_of-prepend :
    (n c : ℕ) (rs : List Getc)
    → input_of (fread (suc n) (char c ∷ rs) false) ≡ prepend c (input_of (fread n rs false))
unfolding fread
input_of-prepend n c rs = refl

fread-Piece : (n : ℕ) (rs : List Getc) → IsClean rs → Piece n rs (input_of (fread n rs false))
unfolding fread
fread-Piece zero rs h = record {
  got = [];
  rest = rs;
  reads = refl;
  split = refl;
  limited = omega arith;
  nothing_at_end = λ _ p. absurd (omega (arith, p));
  clean = h;
}
fread-Piece (suc n) [] h = record {
  got = [];
  rest = [];
  reads = refl;
  split = refl;
  limited = omega arith;
  nothing_at_end = λ _ _. no_results;
  clean = h;
}
fread-Piece (suc n) (end ∷ rs) (clean_end h) = record {
  got = [];
  rest = rs;
  reads = refl;
  split = refl;
  limited = omega arith;
  nothing_at_end = λ _ _. end_first;
  clean = h;
}
fread-Piece (suc n) (char c ∷ rs) (clean_char h) =
    Piece-prepend n c rs (input_of (fread n rs false)) (fread-Piece n rs h)
fread-Piece (suc n) (interrupted ∷ rs) h = elim h [ ]
fread-Piece (suc n) (failed ∷ rs) h = elim h [ ]

fread-error : (n : ℕ) (rs : List Getc) → IsClean rs → (fread n rs false).file.error ≡ false
unfolding fread
fread-error zero rs h = refl
fread-error (suc n) [] h = refl
fread-error (suc n) (end ∷ rs) h = refl
fread-error (suc n) (char c ∷ rs) (clean_char h) = fread-error n rs h
fread-error (suc n) (interrupted ∷ rs) h = elim h [ ]
fread-error (suc n) (failed ∷ rs) h = elim h [ ]

fread_loop-once :
    (fuel n : ℕ) (f : File)
    → nothing_read (fread n f.results f.error) ≡ false
    → fread_loop (suc fuel) n f ≡ input_of (fread n f.results f.error)
unfolding fread_loop
fread_loop-once fuel n f h = if-else _ _ h

-- From a file without errors, of which `n` characters at most are asked for, YY_INPUT takes the first characters,
-- at most `n` of them, and leaves the others: on a terminal and elsewhere. It reads nothing, of at least one that
-- is asked for, only where the next call of `getc` finds the end of the file. It leaves a file without errors.
pub yy_input-Piece :
    (is_interactive : Bool) (n : ℕ) (rs : List Getc)
    → IsClean rs
    → Piece n rs (yy_input is_interactive n record { results = rs; error = false })
unfolding yy_input
yy_input-Piece true n rs h = getc_loop-Piece n rs h
yy_input-Piece false n rs h =
    let f : File = record { results = rs; error = false } in
    let no_error = fread-error n rs h in
    let some_read : nothing_read (fread n rs false) ≡ false =
      elim (Bool-cases (length (fread n rs false).got == 0)) [
        | inl e ↦ rw (e, no_error) refl
        | inr e ↦ rw e refl
      ] in
    rw (fread_loop-once (length rs) n f some_read) (fread-Piece n rs h)
