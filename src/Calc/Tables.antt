-- ===== src/Calc/Tables.antt =====
-- packetdrill/calc.tab.c: the tables of the LALR(1) automaton, and their use by index.
-- No index leaves its table on the parser's runs, so the value past the end is never seen.
use network_course.Prelude.{ℕ, List, [], ◌∷◌, get_or, leb, if◌then◌else◌}
use network_course.Prelude.Int.{ℤ, pos, negsuc}

-- `yytranslate`: the symbol number of each character and token number.
yytranslate_table : List ℕ
yytranslate_table =
    0 ∷ 2 ∷ 2 ∷ 2 ∷ 2 ∷ 2 ∷ 2 ∷ 2 ∷ 2 ∷ 2 ∷ 9 ∷ 2 ∷ 2 ∷ 2 ∷ 2 ∷ 2 ∷ 2 ∷ 2 ∷ 2 ∷ 2 ∷ 2 ∷ 2 ∷ 2 ∷ 2
    ∷ 2 ∷ 2 ∷ 2 ∷ 2 ∷ 2 ∷ 2 ∷ 2 ∷ 2 ∷ 2 ∷ 2 ∷ 2 ∷ 2 ∷ 2 ∷ 2 ∷ 2 ∷ 2 ∷ 11 ∷ 12 ∷ 7 ∷ 5 ∷ 2 ∷ 6 ∷ 2
    ∷ 8 ∷ 2 ∷ 2 ∷ 2 ∷ 2 ∷ 2 ∷ 2 ∷ 2 ∷ 2 ∷ 2 ∷ 2 ∷ 2 ∷ 2 ∷ 2 ∷ 10 ∷ 2 ∷ 2 ∷ 2 ∷ 2 ∷ 2 ∷ 2 ∷ 2 ∷ 2 ∷ 2
    ∷ 2 ∷ 2 ∷ 2 ∷ 2 ∷ 2 ∷ 2 ∷ 2 ∷ 2 ∷ 2 ∷ 2 ∷ 2 ∷ 2 ∷ 2 ∷ 2 ∷ 2 ∷ 2 ∷ 2 ∷ 2 ∷ 2 ∷ 2 ∷ 2 ∷ 2 ∷ 2 ∷ 2
    ∷ 2 ∷ 2 ∷ 2 ∷ 2 ∷ 2 ∷ 2 ∷ 2 ∷ 2 ∷ 2 ∷ 2 ∷ 2 ∷ 2 ∷ 2 ∷ 2 ∷ 2 ∷ 2 ∷ 2 ∷ 2 ∷ 2 ∷ 2 ∷ 2 ∷ 2 ∷ 2 ∷ 2
    ∷ 2 ∷ 2 ∷ 2 ∷ 2 ∷ 2 ∷ 2 ∷ 2 ∷ 2 ∷ 2 ∷ 2 ∷ 2 ∷ 2 ∷ 2 ∷ 2 ∷ 2 ∷ 2 ∷ 2 ∷ 2 ∷ 2 ∷ 2 ∷ 2 ∷ 2 ∷ 2 ∷ 2
    ∷ 2 ∷ 2 ∷ 2 ∷ 2 ∷ 2 ∷ 2 ∷ 2 ∷ 2 ∷ 2 ∷ 2 ∷ 2 ∷ 2 ∷ 2 ∷ 2 ∷ 2 ∷ 2 ∷ 2 ∷ 2 ∷ 2 ∷ 2 ∷ 2 ∷ 2 ∷ 2 ∷ 2
    ∷ 2 ∷ 2 ∷ 2 ∷ 2 ∷ 2 ∷ 2 ∷ 2 ∷ 2 ∷ 2 ∷ 2 ∷ 2 ∷ 2 ∷ 2 ∷ 2 ∷ 2 ∷ 2 ∷ 2 ∷ 2 ∷ 2 ∷ 2 ∷ 2 ∷ 2 ∷ 2 ∷ 2
    ∷ 2 ∷ 2 ∷ 2 ∷ 2 ∷ 2 ∷ 2 ∷ 2 ∷ 2 ∷ 2 ∷ 2 ∷ 2 ∷ 2 ∷ 2 ∷ 2 ∷ 2 ∷ 2 ∷ 2 ∷ 2 ∷ 2 ∷ 2 ∷ 2 ∷ 2 ∷ 2 ∷ 2
    ∷ 2 ∷ 2 ∷ 2 ∷ 2 ∷ 2 ∷ 2 ∷ 2 ∷ 2 ∷ 2 ∷ 2 ∷ 2 ∷ 2 ∷ 2 ∷ 2 ∷ 2 ∷ 2 ∷ 2 ∷ 2 ∷ 2 ∷ 2 ∷ 2 ∷ 2 ∷ 2 ∷ 2
    ∷ 2 ∷ 2 ∷ 2 ∷ 2 ∷ 2 ∷ 2 ∷ 2 ∷ 2 ∷ 2 ∷ 2 ∷ 2 ∷ 2 ∷ 2 ∷ 2 ∷ 2 ∷ 2 ∷ 2 ∷ 1 ∷ 2 ∷ 3 ∷ 4 ∷ []

-- `yydefact`
unfoldable pub yydefact_table : List ℕ
yydefact_table =
    3 ∷ 0 ∷ 1 ∷ 6 ∷ 7 ∷ 0 ∷ 0 ∷ 4 ∷ 0 ∷ 7 ∷ 0 ∷ 2 ∷ 0 ∷ 0 ∷ 0 ∷ 0 ∷ 5 ∷ 12 ∷ 8 ∷ 9 ∷ 10 ∷ 11 ∷ []

-- `yyr1`
yyr1_table : List ℕ
yyr1_table = 0 ∷ 13 ∷ 14 ∷ 14 ∷ 15 ∷ 15 ∷ 16 ∷ 16 ∷ 16 ∷ 16 ∷ 16 ∷ 16 ∷ 16 ∷ []

-- `yyr2`
yyr2_table : List ℕ
yyr2_table = 0 ∷ 2 ∷ 3 ∷ 0 ∷ 1 ∷ 3 ∷ 1 ∷ 1 ∷ 3 ∷ 3 ∷ 3 ∷ 3 ∷ 3 ∷ []

-- `yytable`
yytable_table : List ℕ
yytable_table =
    2 ∷ 14 ∷ 15 ∷ 3 ∷ 4 ∷ 8 ∷ 10 ∷ 11 ∷ 0 ∷ 16 ∷ 0 ∷ 5 ∷ 0 ∷ 18 ∷ 19 ∷ 20 ∷ 21 ∷ 3 ∷ 9 ∷ 0 ∷ 12 ∷ 13
    ∷ 14 ∷ 15 ∷ 0 ∷ 5 ∷ 0 ∷ 17 ∷ 12 ∷ 13 ∷ 14 ∷ 15 ∷ []

-- `yypact`
yypact_table : List ℤ
yypact_table =
    negsuc 6
    ∷ pos 0
    ∷ negsuc 6
    ∷ negsuc 6
    ∷ negsuc 4
    ∷ pos 14
    ∷ negsuc 1
    ∷ pos 23
    ∷ pos 14
    ∷ negsuc 6
    ∷ pos 15
    ∷ negsuc 6
    ∷ pos 14
    ∷ pos 14
    ∷ pos 14
    ∷ pos 14
    ∷ pos 23
    ∷ negsuc 6
    ∷ negsuc 5
    ∷ negsuc 5
    ∷ negsuc 6
    ∷ negsuc 6
    ∷ []

-- `yycheck`
yycheck_table : List ℤ
yycheck_table =
    pos 0
    ∷ pos 7
    ∷ pos 8
    ∷ pos 3
    ∷ pos 4
    ∷ pos 10
    ∷ pos 5
    ∷ pos 9
    ∷ negsuc 0
    ∷ pos 8
    ∷ negsuc 0
    ∷ pos 11
    ∷ negsuc 0
    ∷ pos 12
    ∷ pos 13
    ∷ pos 14
    ∷ pos 15
    ∷ pos 3
    ∷ pos 4
    ∷ negsuc 0
    ∷ pos 5
    ∷ pos 6
    ∷ pos 7
    ∷ pos 8
    ∷ negsuc 0
    ∷ pos 11
    ∷ negsuc 0
    ∷ pos 12
    ∷ pos 5
    ∷ pos 6
    ∷ pos 7
    ∷ pos 8
    ∷ []

-- `yypgoto`
yypgoto_table : List ℤ
yypgoto_table = negsuc 6 ∷ negsuc 6 ∷ negsuc 6 ∷ pos 1 ∷ []

-- `yydefgoto`
yydefgoto_table : List ℤ
yydefgoto_table = negsuc 0 ∷ pos 1 ∷ pos 6 ∷ pos 7 ∷ []

-- The macro YYTRANSLATE: what is no token is YYUNDEFTOK.
unfoldable pub translate : ℕ → ℕ
unfolding yytranslate_table
translate c = if leb c 259 then get_or yytranslate_table c 2 else 2

unfoldable pub yydefact : ℕ → ℕ
unfolding yydefact_table
yydefact s = get_or yydefact_table s 0

unfoldable pub yyr1 : ℕ → ℕ
unfolding yyr1_table
yyr1 r = get_or yyr1_table r 0

unfoldable pub yyr2 : ℕ → ℕ
unfolding yyr2_table
yyr2 r = get_or yyr2_table r 0

unfoldable pub yytable : ℕ → ℕ
unfolding yytable_table
yytable i = get_or yytable_table i 0

unfoldable pub yypact : ℕ → ℤ
unfolding yypact_table
yypact s = get_or yypact_table s (pos 0)

unfoldable pub yycheck : ℕ → ℤ
unfolding yycheck_table
yycheck i = get_or yycheck_table i (pos 0)

-- By nonterminal, counted from 0: `$accept`, `program`, `statement`, `expr`.
unfoldable pub yypgoto : ℕ → ℤ
unfolding yypgoto_table
yypgoto x = get_or yypgoto_table x (pos 0)

unfoldable pub yydefgoto : ℕ → ℤ
unfolding yydefgoto_table
yydefgoto x = get_or yydefgoto_table x (pos 0)
