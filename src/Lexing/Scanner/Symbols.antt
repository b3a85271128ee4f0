-- ===== src/Lexing/Scanner/Symbols.antt =====
-- The scanner (code/lexing/src/lexeme_stream.cpp) on operators and brackets.
use basedlang.Prelude.{ℕ, ◌≡◌, refl, true, Option, some, none, List, [], ◌∷◌, ◌++◌, arith}
use basedlang.Lexing.Token.{Token, Location, next_column}
use basedlang.Lexing.Scanner.{make_lexeme, sigil, scan}
use basedlang.Lexing.Scanner.Grammar.{symbol_text, is_space, along}
use basedlang.Lexing.Scanner.Runs.{Delimited}

-- The text, if there is one, is scanned as the token.
abbrev Scans : Token → Location → List ℕ → Option (List ℕ) → Type 0
Scans t l rest none = Unit
Scans t l rest (some text) = scan (text ++ rest) l ≡ make_lexeme t text l rest (along text l)

not_mut :
    (c : ℕ) (cs : List ℕ)
    → is_space c ≡ true
    → (p : ℕ) (plain with_mut : Token) (start l : Location)
    → sigil p plain with_mut (c ∷ cs) start l ≡ make_lexeme plain (p ∷ []) start (c ∷ cs) l
not_mut c [] h p plain with_mut start l = refl
not_mut c (d ∷ []) h p plain with_mut start l = refl
not_mut c (d ∷ e ∷ []) h p plain with_mut start l = ground arith
not_mut c (d ∷ e ∷ f ∷ cs) h p plain with_mut start l = ground arith

symbol-Scans :
    (t : Token) (rest : List ℕ) (l : Location) → Delimited rest → Scans t l rest (symbol_text t)
unfolding scan
symbol-Scans _ [] l d = ground arith
symbol-Scans Token.caret (c ∷ rest) l d =
    not_mut c rest d b'^' Token.caret Token.caret_mut l (next_column l)
symbol-Scans Token.ampersand (c ∷ rest) l d =
    not_mut c rest d b'&' Token.ampersand Token.ampersand_mut l (next_column l)
symbol-Scans Token.caret_mut (c ∷ rest) l d = ground arith
symbol-Scans Token.ampersand_mut (c ∷ rest) l d = ground arith
symbol-Scans _ (c ∷ rest) l d = ground arith

pub scan_symbol :
    (t : Token) (text rest : List ℕ) (l : Location)
    → symbol_text t ≡ some text
    → Delimited rest
    → scan (text ++ rest) l ≡ make_lexeme t text l rest (along text l)
scan_symbol t text rest l e d = rw e at (symbol-Scans t rest l d)
