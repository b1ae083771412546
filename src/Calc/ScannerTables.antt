-- ===== src/Calc/ScannerTables.antt =====
-- packetdrill/lex.yy.c: the tables of the scanner's automaton, and their use by index.
use network_course.Prelude.{ℕ, List, [], ◌∷◌, get_or}

yy_accept_table : List ℕ
yy_accept_table = 0 ∷ 0 ∷ 0 ∷ 7 ∷ 5 ∷ 4 ∷ 3 ∷ 3 ∷ 2 ∷ 1 ∷ 2 ∷ 0 ∷ []

unfoldable pub yy_accept : ℕ → ℕ
unfolding yy_accept_table
yy_accept i = get_or yy_accept_table i 0

yy_ec_table : List ℕ
yy_ec_table =
    0 ∷ 1 ∷ 1 ∷ 1 ∷ 1 ∷ 1 ∷ 1 ∷ 1 ∷ 1 ∷ 2 ∷ 3 ∷ 1 ∷ 1 ∷ 1 ∷ 1 ∷ 1 ∷ 1 ∷ 1 ∷ 1 ∷ 1 ∷ 1 ∷ 1 ∷ 1 ∷ 1
    ∷ 1 ∷ 1 ∷ 1 ∷ 1 ∷ 1 ∷ 1 ∷ 1 ∷ 1 ∷ 2 ∷ 1 ∷ 1 ∷ 1 ∷ 1 ∷ 1 ∷ 1 ∷ 1 ∷ 4 ∷ 4 ∷ 4 ∷ 4 ∷ 1 ∷ 4 ∷ 1 ∷ 4
    ∷ 5 ∷ 5 ∷ 5 ∷ 5 ∷ 5 ∷ 5 ∷ 5 ∷ 5 ∷ 5 ∷ 5 ∷ 1 ∷ 1 ∷ 1 ∷ 4 ∷ 1 ∷ 1 ∷ 1 ∷ 1 ∷ 1 ∷ 1 ∷ 1 ∷ 1 ∷ 1 ∷ 1
    ∷ 1 ∷ 1 ∷ 1 ∷ 1 ∷ 1 ∷ 1 ∷ 1 ∷ 1 ∷ 1 ∷ 1 ∷ 1 ∷ 1 ∷ 1 ∷ 1 ∷ 1 ∷ 1 ∷ 1 ∷ 1 ∷ 1 ∷ 1 ∷ 1 ∷ 1 ∷ 1 ∷ 1
    ∷ 1 ∷ 6 ∷ 6 ∷ 6 ∷ 6 ∷ 6 ∷ 6 ∷ 6 ∷ 6 ∷ 6 ∷ 6 ∷ 6 ∷ 6 ∷ 6 ∷ 6 ∷ 6 ∷ 6 ∷ 6 ∷ 6 ∷ 6 ∷ 6 ∷ 6 ∷ 6 ∷ 6
    ∷ 6 ∷ 6 ∷ 6 ∷ 1 ∷ 1 ∷ 1 ∷ 1 ∷ 1 ∷ 1 ∷ 1 ∷ 1 ∷ 1 ∷ 1 ∷ 1 ∷ 1 ∷ 1 ∷ 1 ∷ 1 ∷ 1 ∷ 1 ∷ 1 ∷ 1 ∷ 1 ∷ 1
    ∷ 1 ∷ 1 ∷ 1 ∷ 1 ∷ 1 ∷ 1 ∷ 1 ∷ 1 ∷ 1 ∷ 1 ∷ 1 ∷ 1 ∷ 1 ∷ 1 ∷ 1 ∷ 1 ∷ 1 ∷ 1 ∷ 1 ∷ 1 ∷ 1 ∷ 1 ∷ 1 ∷ 1
    ∷ 1 ∷ 1 ∷ 1 ∷ 1 ∷ 1 ∷ 1 ∷ 1 ∷ 1 ∷ 1 ∷ 1 ∷ 1 ∷ 1 ∷ 1 ∷ 1 ∷ 1 ∷ 1 ∷ 1 ∷ 1 ∷ 1 ∷ 1 ∷ 1 ∷ 1 ∷ 1 ∷ 1
    ∷ 1 ∷ 1 ∷ 1 ∷ 1 ∷ 1 ∷ 1 ∷ 1 ∷ 1 ∷ 1 ∷ 1 ∷ 1 ∷ 1 ∷ 1 ∷ 1 ∷ 1 ∷ 1 ∷ 1 ∷ 1 ∷ 1 ∷ 1 ∷ 1 ∷ 1 ∷ 1 ∷ 1
    ∷ 1 ∷ 1 ∷ 1 ∷ 1 ∷ 1 ∷ 1 ∷ 1 ∷ 1 ∷ 1 ∷ 1 ∷ 1 ∷ 1 ∷ 1 ∷ 1 ∷ 1 ∷ 1 ∷ 1 ∷ 1 ∷ 1 ∷ 1 ∷ 1 ∷ 1 ∷ 1 ∷ 1
    ∷ 1 ∷ 1 ∷ 1 ∷ 1 ∷ 1 ∷ 1 ∷ 1 ∷ 1 ∷ 1 ∷ 1 ∷ 1 ∷ 1 ∷ 1 ∷ 1 ∷ 1 ∷ 1 ∷ []

unfoldable pub yy_ec : ℕ → ℕ
unfolding yy_ec_table
yy_ec i = get_or yy_ec_table i 0

yy_meta_table : List ℕ
yy_meta_table = 0 ∷ 1 ∷ 1 ∷ 1 ∷ 1 ∷ 2 ∷ 1 ∷ []

unfoldable pub yy_meta : ℕ → ℕ
unfolding yy_meta_table
yy_meta i = get_or yy_meta_table i 0

yy_base_table : List ℕ
yy_base_table = 0 ∷ 0 ∷ 0 ∷ 8 ∷ 9 ∷ 9 ∷ 9 ∷ 9 ∷ 0 ∷ 9 ∷ 0 ∷ 9 ∷ 5 ∷ []

unfoldable pub yy_base : ℕ → ℕ
unfolding yy_base_table
yy_base i = get_or yy_base_table i 0

yy_def_table : List ℕ
yy_def_table = 0 ∷ 11 ∷ 1 ∷ 11 ∷ 11 ∷ 11 ∷ 11 ∷ 11 ∷ 12 ∷ 11 ∷ 12 ∷ 0 ∷ 11 ∷ []

unfoldable pub yy_def : ℕ → ℕ
unfolding yy_def_table
yy_def i = get_or yy_def_table i 0

yy_nxt_table : List ℕ
yy_nxt_table = 0 ∷ 4 ∷ 5 ∷ 6 ∷ 7 ∷ 8 ∷ 9 ∷ 10 ∷ 11 ∷ 3 ∷ 11 ∷ 11 ∷ 11 ∷ 11 ∷ 11 ∷ 11 ∷ []

unfoldable pub yy_nxt : ℕ → ℕ
unfolding yy_nxt_table
yy_nxt i = get_or yy_nxt_table i 0

yy_chk_table : List ℕ
yy_chk_table = 0 ∷ 1 ∷ 1 ∷ 1 ∷ 1 ∷ 1 ∷ 1 ∷ 12 ∷ 3 ∷ 11 ∷ 11 ∷ 11 ∷ 11 ∷ 11 ∷ 11 ∷ 11 ∷ []

unfoldable pub yy_chk : ℕ → ℕ
unfolding yy_chk_table
yy_chk i = get_or yy_chk_table i 0
