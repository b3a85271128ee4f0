-- ===== src/Tests/Scanner.antt =====
-- The scanner at concrete inputs.
use basedlang.Prelude.{◌≡◌, refl, [], ◌∷◌}
use basedlang.Lexing.Token.{Token, Location}
use basedlang.Lexing.Scanner.{lex_error, make_lexeme, scan, word_token}
use basedlang.Lexing.Scanner.Grammar.{Spelled}
use basedlang.Lexing.Scanner.Sound.{Result, scan-Result}
use basedlang.Lexing.Scanner.RoundTrip.{scan-Spelled}

abbrev start : Location
start = record { line = 1; column = 1 }

-- ` \n`, `1.5f` and `\n`
scan-Spelled_example :
    scan (b' ' ∷ b'\n' ∷ b'1' ∷ b'.' ∷ b'5' ∷ b'f' ∷ b'\n' ∷ []) start
    ≡ make_lexeme Token.float_literal
        (b'1' ∷ b'.' ∷ b'5' ∷ b'f' ∷ [])
        (record { line = 2; column = 1 })
        (b'\n' ∷ [])
        (record { line = 2; column = 5 })
scan-Spelled_example =
    scan-Spelled (b' ' ∷ b'\n' ∷ []) (b'1' ∷ b'.' ∷ b'5' ∷ b'f' ∷ []) (b'\n' ∷ [])
      Token.float_literal start (refl, (refl, tt))
      (Spelled.float_both (b'1' ∷ []) (b'5' ∷ []) b'f' (refl, tt) (refl, tt) refl refl refl) refl

-- `let` is a keyword, `lets` is not, and `^mut` ends before a word goes on.
let_word : word_token (b'l' ∷ b'e' ∷ b't' ∷ []) ≡ Token.kw_let
unfolding word_token
let_word = refl

mut_x :
    scan (b'^' ∷ b'm' ∷ b'u' ∷ b't' ∷ b'x' ∷ []) start
    ≡ make_lexeme Token.caret
        (b'^' ∷ [])
        start
        (b'm' ∷ b'u' ∷ b't' ∷ b'x' ∷ [])
        (record { line = 1; column = 2 })
unfolding scan
mut_x = refl

no_suffix :
    scan (b'1' ∷ b'i' ∷ b';' ∷ []) start
    ≡ lex_error start (b';' ∷ []) (record { line = 1; column = 3 })
unfolding scan
no_suffix = refl

-- `( ` behind a newline
scan-Result_example :
    Result (b'\n' ∷ b'(' ∷ b' ' ∷ []) start (scan (b'\n' ∷ b'(' ∷ b' ' ∷ []) start)
scan-Result_example = scan-Result (b'\n' ∷ b'(' ∷ b' ' ∷ []) start
