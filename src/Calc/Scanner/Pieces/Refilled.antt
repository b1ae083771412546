-- ===== src/Calc/Scanner/Pieces/Refilled.antt =====
-- packetdrill/lex.yy.c: however its text is cut into pieces, `yylex` takes the match of the whole text.
