-- ===== src/Lexing/Scanner.antt =====
-- `Lexeme_stream::lex` (code/lexing/src/lexeme_stream.cpp). The reader is the text that it has yet to
-- give. The states of the loop are functions that recur on this text: 0 is `scan`, 1 `word`, 2
-- `number`, 3 `fraction`. A lexeme has its text in place of the spelling that stands for it.
pub mod Grammar
pub mod Words
pub mod Runs
pub mod Symbols
pub mod RoundTrip
pub mod Tails
pub mod Signs
pub mod SymbolTails
pub mod Sound
use basedlang.Prelude.{
  ℕ, zero, suc, ◌+◌, ◌-◌, ◌≡◌, Bool, true, false, not, ◌&&◌, ◌||◌, Option, some, none, List, [],
  ◌∷◌, ◌++◌, text_eq, leb, ◌==◌, if◌then◌else◌,
}
use basedlang.Lexing.Token.{Token, Location, Span, next_line, next_column}

-- The lexeme, or `Lex_error` at a location; then the text that is left and the location there.
pub data Lexed : Type 0 where
  lexeme : Token → List ℕ → Span → List ℕ → Location → Lexed
  lex_error : Location → List ℕ → Location → Lexed

-- `std::isalpha`, `std::isdigit` and `std::isalnum` of an ASCII character
abbrev pub is_alpha : ℕ → Bool
is_alpha c = leb b'a' c && leb c b'z' || leb b'A' c && leb c b'Z'

abbrev pub is_digit : ℕ → Bool
is_digit c = leb b'0' c && leb c b'9'

abbrev pub is_word_start : ℕ → Bool
is_word_start c = is_alpha c || c == b'_'

abbrev pub is_word : ℕ → Bool
is_word c = is_alpha c || is_digit c || c == b'_'

abbrev pub is_blank : ℕ → Bool
is_blank c = c == b' ' || c == b'\t' || c == b'\r'

-- `make_lexeme`, for a token other than `eof`
abbrev pub make_lexeme : Token → List ℕ → Location → List ℕ → Location → Lexed
make_lexeme token text start rest l =
    lexeme token text
      (record { start = start; end = record { line = l.line; column = l.column - 1 } }) rest l

abbrev pub kw_else_text : List ℕ
kw_else_text = b'e' ∷ b'l' ∷ b's' ∷ b'e' ∷ []

abbrev pub kw_fn_text : List ℕ
kw_fn_text = b'f' ∷ b'n' ∷ []

abbrev pub kw_if_text : List ℕ
kw_if_text = b'i' ∷ b'f' ∷ []

abbrev pub kw_let_text : List ℕ
kw_let_text = b'l' ∷ b'e' ∷ b't' ∷ []

abbrev pub kw_mut_text : List ℕ
kw_mut_text = b'm' ∷ b'u' ∷ b't' ∷ []

abbrev pub kw_recurse_text : List ℕ
kw_recurse_text = b'r' ∷ b'e' ∷ b'c' ∷ b'u' ∷ b'r' ∷ b's' ∷ b'e' ∷ []

abbrev pub kw_return_text : List ℕ
kw_return_text = b'r' ∷ b'e' ∷ b't' ∷ b'u' ∷ b'r' ∷ b'n' ∷ []

abbrev pub kw_while_text : List ℕ
kw_while_text = b'w' ∷ b'h' ∷ b'i' ∷ b'l' ∷ b'e' ∷ []

unfoldable pub word_token : List ℕ → Token
word_token text =
    if text_eq text kw_else_text
    then Token.kw_else
    else if text_eq text kw_fn_text
    then Token.kw_fn
    else if text_eq text kw_if_text
    then Token.kw_if
    else if text_eq text kw_let_text
    then Token.kw_let
    else if text_eq text kw_mut_text
    then Token.kw_mut
    else if text_eq text kw_recurse_text
    then Token.kw_recurse
    else if text_eq text kw_return_text
    then Token.kw_return
    else if text_eq text kw_while_text
    then Token.kw_while
    else Token.identifier

-- State 1, with the text so far.
unfoldable pub word : List ℕ → Location → List ℕ → Location → Lexed
word text start [] l = make_lexeme (word_token text) text start [] l
word text start (c ∷ cs) l = elim (is_word c) [
  | true ↦ word (text ++ c ∷ []) start cs (next_column l)
  | false ↦ make_lexeme (word_token text) text start (c ∷ cs) l
]

-- The loop over the digits behind an `i`; `empty` while there are none.
unfoldable pub suffix : Bool → List ℕ → Location → List ℕ → Location → Lexed
suffix empty text start [] l =
    if empty then lex_error start [] l else make_lexeme Token.int_literal text start [] l
suffix empty text start (c ∷ cs) l = elim (is_digit c) [
  | true ↦ suffix false (text ++ c ∷ []) start cs (next_column l)
  | false ↦
      if empty
      then lex_error start (c ∷ cs) l
      else make_lexeme Token.int_literal text start (c ∷ cs) l
]

-- State 3.
unfoldable pub fraction : List ℕ → Location → List ℕ → Location → Lexed
fraction text start [] l = make_lexeme Token.float_literal text start [] l
fraction text start (c ∷ cs) l = elim (is_digit c) [
  | true ↦ fraction (text ++ c ∷ []) start cs (next_column l)
  | false ↦
      if c == b'f' || c == b'd'
      then make_lexeme Token.float_literal (text ++ c ∷ []) start cs (next_column l)
      else make_lexeme Token.float_literal text start (c ∷ cs) l
]

-- State 2.
unfoldable pub number : List ℕ → Location → List ℕ → Location → Lexed
unfolding fraction suffix
number text start [] l = make_lexeme Token.int_literal text start [] l
number text start (c ∷ cs) l = elim (is_digit c) [
  | true ↦ number (text ++ c ∷ []) start cs (next_column l)
  | false ↦
      if c == b'.'
      then fraction (text ++ c ∷ []) start cs (next_column l)
      else if c == b'f' || c == b'd'
      then make_lexeme Token.float_literal (text ++ c ∷ []) start cs (next_column l)
      else if c == b'i'
      then suffix true (text ++ c ∷ []) start cs (next_column l)
      else make_lexeme Token.int_literal text start (c ∷ cs) l
]

-- An operator of one character, `c`, unless the next is `d`.
abbrev pub pair : ℕ → ℕ → Token → List ℕ → Location → Location → Lexed → Lexed
pair c d both [] start l otherwise = otherwise
pair c d both (e ∷ cs) start l otherwise =
    if e == d then make_lexeme both (c ∷ e ∷ []) start cs (next_column l) else otherwise

-- The next three characters are `mut`, and no word goes on behind them.
abbrev pub before_mut : List ℕ → Bool
before_mut (a ∷ b ∷ c ∷ []) = a == b'm' && b == b'u' && c == b't'
before_mut (a ∷ b ∷ c ∷ d ∷ rest) = a == b'm' && b == b'u' && c == b't' && not (is_word d)
before_mut _ = false

-- `&` and `^`
abbrev pub sigil : ℕ → Token → Token → List ℕ → Location → Location → Lexed
sigil c plain with_mut (a ∷ b ∷ m ∷ cs) start l =
    if before_mut (a ∷ b ∷ m ∷ cs)
    then make_lexeme with_mut (c ∷ a ∷ b ∷ m ∷ []) start cs
        (next_column (next_column (next_column l)))
    else make_lexeme plain (c ∷ []) start (a ∷ b ∷ m ∷ cs) l
sigil c plain with_mut cs start l = make_lexeme plain (c ∷ []) start cs l

-- The characters that are tokens by themselves, whatever follows.
unfoldable pub single : ℕ → Option Token
single c =
    if c == b'+'
    then some Token.plus
    else if c == b'*'
    then some Token.star
    else if c == b'/'
    then some Token.slash
    else if c == b'%'
    then some Token.percent
    else if c == b'{'
    then some Token.lbrace
    else if c == b'['
    then some Token.lbracket
    else if c == b'}'
    then some Token.rbrace
    else if c == b']'
    then some Token.rbracket
    else if c == b'('
    then some Token.lparen
    else if c == b')'
    then some Token.rparen
    else if c == b':'
    then some Token.colon
    else if c == b','
    then some Token.comma
    else if c == b';'
    then some Token.semicolon
    else none

-- The `switch` of state 0, behind the character `c`.
unfoldable pub symbol : ℕ → Location → List ℕ → Location → Lexed
unfolding single
symbol c start cs l =
    let alone = λ (t : Token). make_lexeme t (c ∷ []) start cs l in
    if c == b'-'
    then pair c b'>' Token.arrow cs start l (alone Token.minus)
    else if c == b'&'
    then sigil c Token.ampersand Token.ampersand_mut cs start l
    else if c == b'^'
    then sigil c Token.caret Token.caret_mut cs start l
    else if c == b'='
    then pair c b'=' Token.eq_eq cs start l
        (pair c b'>' Token.fat_arrow cs start l (alone Token.eq))
    else if c == b'!'
    then pair c b'=' Token.bang_eq cs start l (lex_error start cs l)
    else if c == b'<'
    then pair c b'=' Token.le cs start l (alone Token.lt)
    else if c == b'>'
    then pair c b'=' Token.ge cs start l (alone Token.gt)
    else elim (single c) [ some t ↦ alone t | none ↦ lex_error start cs l ]

-- State 0.
unfoldable pub scan : List ℕ → Location → Lexed
unfolding word number symbol
scan [] l = lexeme Token.eof [] (record { start = l; end = l }) [] l
scan (c ∷ cs) l = elim (c == b'\n') [
  | true ↦ scan cs (next_line l)
  | false ↦ elim (is_blank c) [
    | true ↦ scan cs (next_column l)
    | false ↦
        if is_word_start c
        then word (c ∷ []) l cs (next_column l)
        else if is_digit c
        then number (c ∷ []) l cs (next_column l)
        else symbol c l cs (next_column l)
  ]
]
