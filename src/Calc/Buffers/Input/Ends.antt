-- ===== src/Calc/Buffers/Input/Ends.antt =====
-- YY_INPUT ends, however often `fread` is interrupted.
use network_course.Prelude.{
  ℕ, zero, suc, ◌<◌, ◌≡◌, Bool, true, false, Bool-cases, List, [], ◌∷◌, length, ◌==◌, inl, inr,
  arith,
}
use network_course.Calc.Buffers.Input.{
  Getc, char, end, interrupted, failed, File, Input, has_read, fatal, unfinished, prepend, at_eof,
  getc_loop, fread, nothing_read, fread_loop, yy_input,
}

fread-shorter :
    (n : ℕ) (rs : List Getc) (e : Bool)
    → (fread n rs e).is_interrupted ≡ true
    → length (fread n rs e).file.results < length rs
unfolding fread
fread-shorter zero rs e h = ground arith
fread-shorter (suc n) [] e h = ground arith
fread-shorter (suc n) (end ∷ rs) e h = omega arith
fread-shorter (suc n) (interrupted ∷ rs) e h = omega arith
fread-shorter (suc n) (failed ∷ rs) e h = omega arith
fread-shorter (suc n) (char c ∷ rs) e h = omega (arith, fread-shorter n rs e h)

-- What is not the end of the fuel.
pub data Finishes : Input → Type 0 where
  finishes_read : (got : List ℕ) (f : File) → Finishes (has_read got f)
  finishes_fatal : Finishes fatal

Finishes-prepend : (c : ℕ) (i : Input) → Finishes i → Finishes (prepend c i)
Finishes-prepend c (has_read got f) h = finishes_read (c ∷ got) f
Finishes-prepend c fatal h = finishes_fatal
Finishes-prepend c unfinished h = elim h [ ]

Finishes-at_eof : (f : File) → Finishes (at_eof f)
Finishes-at_eof f = elim (Bool-cases f.error) [
  | inl e ↦ rw e finishes_fatal
  | inr e ↦ rw e (finishes_read [] _)
]

getc_loop-Finishes : (n : ℕ) (rs : List Getc) (e : Bool) → Finishes (getc_loop n rs e)
unfolding getc_loop
getc_loop-Finishes zero rs e = finishes_read [] _
getc_loop-Finishes (suc n) [] e = Finishes-at_eof record { results = []; error = e }
getc_loop-Finishes (suc n) (end ∷ rs) e = Finishes-at_eof record { results = rs; error = e }
getc_loop-Finishes (suc n) (interrupted ∷ rs) e = finishes_fatal
getc_loop-Finishes (suc n) (failed ∷ rs) e = finishes_fatal
getc_loop-Finishes (suc n) (char c ∷ rs) e = elim (Bool-cases (c == 10)) [
  | inl h ↦ rw h (finishes_read _ _)
  | inr h ↦ rw h (Finishes-prepend c (getc_loop n rs e) (getc_loop-Finishes n rs e))
]

fread_loop-Finishes :
    (fuel n : ℕ) (f : File) → length f.results < fuel → Finishes (fread_loop fuel n f)
unfolding fread_loop
fread_loop-Finishes zero n f h = absurd (omega arith)
fread_loop-Finishes (suc fuel) n f h =
    let r = fread n f.results f.error in
    elim (Bool-cases (nothing_read r)) [
      | inr e ↦ rw e (finishes_read _ _)
      | inl e ↦ elim (Bool-cases r.is_interrupted) [
        | inr k ↦ rw (e, k) finishes_fatal
        | inl k ↦
            rw (e, k)
              (fread_loop-Finishes fuel n (record r.file { error = false })
                (omega (arith, fread-shorter n f.results f.error k)))
      ]
    ]

-- Whatever the file, its errors and interruptions included, YY_INPUT ends: with what it has read, or fatally.
pub yy_input-Finishes :
    (is_interactive : Bool) (n : ℕ) (f : File) → Finishes (yy_input is_interactive n f)
unfolding yy_input
yy_input-Finishes true n f = getc_loop-Finishes n f.results f.error
yy_input-Finishes false n f = fread_loop-Finishes (suc (length f.results)) n f (omega arith)
