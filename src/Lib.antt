-- ===== src/Lib.antt =====
-- The parts of the repository that keep state of their own and compute with it: the calculator of
-- packetdrill, which flex and bison generate from calc.l and calc.y, the buffered line readers of the
-- intro programs with the loops over them, the loops over `epoll_wait` and `select`, the connection
-- counter and the search for a port, and a character device that can be polled.
--
-- The calculator. `yyparse` (packetdrill/calc.tab.c) is an LALR automaton that asks `yylex`
-- (packetdrill/lex.yy.c) for one token at a time; its actions print numbers and write the 26 cells
-- of `sym`.
--   Calc/Tables: the parser's tables, entry by entry.
--   Calc/State: the variables of `yyparse` as the record `Parser`, and `Outcome`, what a pass comes
--     to: another pass, `return yyresult`, or undefined behaviour. The state stack and the value
--     stack are one list of pairs, the top first.
--   Calc/Reduce, Calc/Recover, Calc/Parser: `yyreduce` (`reduce`), `yyerrlab` and `yyerrlab1`
--     (`parse_error`, `recover`), `yybackup` (`backup`), and `yysetstate` with the growth of the
--     stacks (`step`). `run` repeats `step`. `malloc` is a parameter, by the number of bytes.
--   Calc/Grammar: calc.y as trees, the tokens of a tree, what it prints and assigns, and how deep
--     the parser's stack gets on it.
--   Calc/Parser/Reach, Phrases, Operators, Expressions, Statements: the parser on the tokens of a
--     tree. Actions: what the actions leave alone. Termination, Halts: a measure that every pass
--     lowers. Total: both together. Verdicts: what is returned and reported.
--   Calc/Parser/Automaton: the states as a graph. Trail: the stack as a way through it. Derives, Rules:
--     the token strings of the rules. Refusal, LookAhead, Sound: only programs are accepted.
--   Calc/ScannerTables, Calc/Scanner: the scanner's tables, `yylex`, `yy_get_previous_state`
--     (`previous_loop`) and `yy_try_NUL_trans` (`nul_scan`). Calc/Scanner/Rules: the patterns of
--     calc.l. Calc/Scanner/Numbers, Match: the automaton on them. Calc/Scanner/Lexes: the tokens of a
--     text, as calc.l describes them. Calc/Scanner/Rounds, Tokens, Found: `yylex` up to the
--     end of a text, and back.
--   Calc/Scanner/Pieces: `yylex` where refills bring the text in pieces (`Feed`). Pieces/Feeds: what it
--     is to find. Pieces/Rounds: the refills. Pieces/Digits, Broken: a number that is cut.
--     Pieces/Refilled: all texts.
--   Calc/Calculator: `main`, from the characters to the output. Calc/Calculator/Accepts: and back.
--   Calc/Printing: programs as text.
--     Calc/Printing/Scanned: the tokens of that text.
--   Calc/Buffers: the buffers that the scanner reads (`Buffer`) and its globals (`Flex`): the stack of
--     buffers, `yyrestart`, `yy_scan_buffer`, `yy_scan_bytes`. Calc/Buffers/Stack: a push and a pop.
--     Calc/Buffers/Scan: a buffer made of bytes.
--   Calc/Buffers/Input: YY_INPUT, on a file that is a list of what `getc` returns. Input/Pieces: what it
--     reads. Input/Ends: that it ends.
--   Calc/Buffers/Refill: `yy_get_next_buffer` and `yyunput`, on the current buffer with the globals
--     that point into it (`Window`). Refill/Text, Ending: the text after a refill. Refill/FromFile: the
--     refill from a file. Refill/Unput: what is read after `yyunput`.
--     Refill/ReadChar: `input`.
--   Calc/Buffers/Lifetime: the set-up at the start of `yylex`, `yylex_destroy` and `yy_scan_string`.
--     Lifetime/Made: the buffer that is set up. Lifetime/Begins: `yylex` after `yylex_destroy`.
--
-- The line reader. `my_read` and `readline2` of intro/reliable_test_client.c, which
-- intro/reliable_test_server.c has once more (`readline2` is `readline` there).
--   Readline: the static variables as the record `Reader`; `read` is a list of what its calls return.
--   Readline/Stream: the bytes of a connection, however they arrive. Readline/Lines: lines of that
--     stream. Readline/Bounds: the memory that is written.
--
-- The client's own `readline` keeps a second buffer, which `recv` fills.
--   Readline/Client: its static variables as the record `Receiver`. Readline/Client/Stream, Lines: it
--     on the same streams of bytes.
--
-- The echo programs. The loops of intro/reliable_test_server.c and intro/reliable_test_client.c call
-- the readers above.
--   Echo: the two loops. Echo/Server, Echo/Client: what they send and show.
--
-- The other loops over sockets, each over a list of what the kernel returns.
--   Epoll: live/epoll/epoll_test.c. Epoll/Batch: its batches. Epoll/Watched: the sockets it looks at.
--   Select, Select/Rounds: live/epoll/select_test.c.
--   Connect: port/connect_test_client.c. Connect/Count: its counter. Connect/Elapsed: `time_elapse`.
--
-- The search for a port, as the two excerpts of the Linux kernel stand, with the kernel functions that
-- they call as parameters.
--   Port: `inet_csk_find_open_port` of port/inet_connection_sock.c. Port/Scan: what it finds, and what
--     it means that it finds nothing.
--   Port/Hash: `inet_hash_connect` of port/net_ipv4_inet_hashtables.c, which uses names that the
--     excerpt does not declare and returns nothing: what it comes to is `i`, `port` and `tb` at the
--     label `ok`, and the static variables. Port/Hash/Scan: its loop. Port/Hash/Start: where it starts.
--     Port/Hash/Again: two calls in a row.
--
-- The device. `read`, `my_dev_poll` and a round of `kthread_func` of
-- live/epoll/my_poll_dev/my_poll_dev.c, as steps that interleave.
--   PollDevice: the static variables as the record `Device`. PollDevice/Once: what is read.
--
-- Numbers. `int` is an integer within 32 bits: arithmetic that leaves the range, a division by 0,
-- `sym` out of its range and a value that was never written are undefined behaviour, `none` of an
-- `Option` or the outcome `undefined`. A conversion to `int` or `char` wraps around: a character is
-- its byte, an offset that is negative as an `int` leaves the buffer and is undefined. `yychar` is
-- not negative, since `yylex` returns 0, the two token numbers or an ASCII operator.
--
-- Fuel. `run` takes one unit for a pass; 4 + 5n are enough for n tokens. `descend` follows `yy_def`
-- at most 4 times, `find` and `match_loop` have more than the characters of the text.
-- `grow` has 64 units, and needs two where the text is within the buffer's size, for it doubles that.
-- YY_INPUT has a unit for each result of `getc` and one more. `find_fed` needs three units more than
-- there are pieces.
--
-- Not modelled. The loop of `yylex` over the tokens of a text that refills bring in pieces (under the
-- calculator here the whole text is in the buffer, so the first refill finds the end of the file), the
-- accessors of the scanner, which the calculator does not call, debug output and messages of the parser, and `free`.
-- handshake/syn_retries.c, port/socket_connect_test.c, port/socket_bind_test.c,
-- port/connect_test_server.c, live/epoll/file_epoll.c and live/epoll/my_poll_dev_test.c are system
-- calls in a row whose results are printed or dropped, and so are the C++, Go and Java programs.
pub mod Prelude
pub mod Calc
pub mod Readline
pub mod Port
pub mod Epoll
pub mod Connect
pub mod Select
pub mod Echo
pub mod PollDevice
