-- ===== src/Readline/Stream.antt =====
-- The bytes as they come over the connection, however `read` cuts them into pieces.
use network_course.Prelude.{
  ℕ, zero, suc, ◌+◌, ◌≤◌, ◌<◌, ◌≡◌, refl, ap, ◌∙◌, List, [], ◌∷◌, ◌++◌, length, length-append,
  get_or, take, drop, map, arith,
}
use network_course.Prelude.Int.{ℤ, pos, negsuc, pos_part}
use network_course.Readline.{
  Read, interrupted, failed, received, Reader, Got, byte, eof, error, blocked, fill, read_from,
  my_read,
}

-- What reading byte by byte meets. An interruption is not met.
abbrev pub items : List Read → List Got
items [] = []
items (interrupted ∷ rs) = items rs
items (failed ∷ rs) = error ∷ items rs
items (received [] ∷ rs) = eof ∷ items rs
items (received (b ∷ bs) ∷ rs) = map byte (b ∷ bs) ++ items rs

-- The bytes of `read_buf` that were not taken yet.
abbrev pub pending : Reader → List ℕ
pending r = take (pos_part r.read_cnt) (drop r.read_ptr r.read_buf)

abbrev pub stream : Reader → List Got
stream r = map byte (pending r) ++ items r.reads

-- `read_ptr` and `read_cnt` stay within what was read.
pub record IsValid (r : Reader) : Type 0 where
  pub within : r.read_ptr + pos_part r.read_cnt ≤ length r.read_buf

-- The first item of a stream, and what is left.
abbrev pub first : List Got → Got
first [] = blocked
first (g ∷ gs) = g

abbrev pub later : List Got → List Got
later [] = []
later (g ∷ gs) = gs

-- A reader that took the first item of a stream.
pub record Took (gs : List Got) (out : Got × Reader) : Type 0 where
  pub got : out.0 ≡ first gs
  pub left : stream (out.1) ≡ later gs
  pub valid : IsValid (out.1)

pub take-length_append : (xs ys : List ℕ) → take (length xs) (xs ++ ys) ≡ xs
take-length_append [] ys = refl
take-length_append (x ∷ xs) ys = ap (◌∷◌ x) (take-length_append xs ys)

pub take-drop_next :
    (n k : ℕ) (xs : List ℕ)
    → k < length xs
    → take (suc n) (drop k xs) ≡ get_or xs k 0 ∷ take n (drop (k + 1) xs)
take-drop_next n zero [] h = absurd (omega arith)
take-drop_next n zero (x ∷ xs) h = refl
take-drop_next n (suc k) [] h = absurd (omega arith)
take-drop_next n (suc k) (x ∷ xs) h =
    let e : suc (k + 1) ≡ suc k + 1 = omega arith in
    take-drop_next n k xs (omega arith) ∙ ap (λ (j : ℕ). get_or xs k 0 ∷ take n (drop j (x ∷ xs))) e

Took-reads :
    (g : Got) (c : ℤ) (rs : List Read) (r : Reader)
    → pos_part c ≡ 0
    → IsValid r
    → Took (g ∷ items rs) (g, record r { read_cnt = c; reads = rs })
Took-reads g c rs r e v = record {
  got = refl;
  left = rw (e, take) refl;
  valid = record { within = omega (arith, v.within) };
}

fill-Took :
    (rs : List Read) (r : Reader)
    → pos_part r.read_cnt ≡ 0
    → IsValid r
    → Took (items rs) (fill rs r)
unfolding fill
fill-Took [] r z v = record {
  got = refl;
  left = rw (z, take) refl;
  valid = record { within = v.within };
}
fill-Took (interrupted ∷ rs) r z v =
    fill-Took rs (record r { read_cnt = negsuc 0 }) refl
      (record { within = omega (arith, v.within) })
fill-Took (failed ∷ rs) r z v = Took-reads error (negsuc 0) rs r refl v
fill-Took (received [] ∷ rs) r z v = Took-reads eof (pos 0) rs r refl v
fill-Took (received (b ∷ bs) ∷ rs) r z v = record {
  got = refl;
  left = rw (take-length_append bs (drop (suc (length bs)) r.read_buf)) refl;
  valid = record { within = omega (arith, length-append bs (drop (suc (length bs)) r.read_buf)) };
}

read_from-Took :
    (cnt : ℤ) (r : Reader)
    → r.read_cnt ≡ cnt
    → IsValid r
    → Took
        (map byte (take (pos_part cnt) (drop r.read_ptr r.read_buf)) ++ items r.reads)
        (read_from cnt r)
unfolding read_from
read_from-Took (pos zero) r e v = fill-Took r.reads r (ap pos_part e) v
read_from-Took (negsuc n) r e v = fill-Took r.reads r (ap pos_part e) v
read_from-Took (pos (suc n)) r e v =
    let bound : r.read_ptr + suc n ≤ length r.read_buf = omega (arith, v.within, ap pos_part e) in
    rw (take-drop_next n r.read_ptr r.read_buf (omega arith))
      (record { got = refl; left = refl; valid = record { within = omega arith } })

-- Where `read_ptr` and `read_cnt` are within `read_buf`, `my_read` takes the next byte of the stream,
-- or meets its end or an error, leaves the rest, and keeps them within `read_buf`.
pub my_read-Took : (r : Reader) → IsValid r → Took (stream r) (my_read r)
unfolding my_read
my_read-Took r v = read_from-Took r.read_cnt r refl v
