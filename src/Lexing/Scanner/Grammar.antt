-- ===== src/Lexing/Scanner/Grammar.antt =====
-- The lexemes of the language, apart from the code that finds them (code/lexing/test and
-- code/lexing/include/lexing/token.h): nothing here uses a function of the scanner.
use basedlang.Prelude.{
  ℕ, ◌+◌, ◌-◌, ◌≡◌, Bool, true, false, ◌&&◌, ◌||◌, leb, Option, some, none, List, [], ◌∷◌, ◌++◌,
  ◌==◌, if◌then◌else◌,
}
use basedlang.Lexing.Token.{Token, Location, Span}
use basedlang.Lexing.Scanner.{Lexed, lexeme}

-- The classes of characters.
abbrev pub letter : ℕ → Bool
letter c = leb b'a' c && leb c b'z' || leb b'A' c && leb c b'Z'

abbrev pub digit : ℕ → Bool
digit c = leb b'0' c && leb c b'9'

abbrev pub word_start : ℕ → Bool
word_start c = letter c || c == b'_'

abbrev pub word_character : ℕ → Bool
word_character c = letter c || digit c || c == b'_'

abbrev pub blank : ℕ → Bool
blank c = c == b' ' || c == b'\t' || c == b'\r'

abbrev pub AllOf : (ℕ → Bool) → List ℕ → Type 0
AllOf p [] = Unit
AllOf p (c ∷ cs) = (p c ≡ true) × AllOf p cs

abbrev pub IsWord : List ℕ → Type 0
IsWord [] = ⊥
IsWord (c ∷ cs) = (word_start c ≡ true) × AllOf word_character cs

-- One digit or more.
abbrev pub IsDigits : List ℕ → Type 0
IsDigits [] = ⊥
IsDigits (c ∷ cs) = (digit c ≡ true) × AllOf digit cs

-- The letter behind a floating-point literal.
abbrev pub is_float_letter : ℕ → Bool
is_float_letter c = c == b'f' || c == b'd'

-- The text of an operator or a bracket.
abbrev pub symbol_text : Token → Option (List ℕ)
symbol_text Token.arrow = some (b'-' ∷ b'>' ∷ [])
symbol_text Token.fat_arrow = some (b'=' ∷ b'>' ∷ [])
symbol_text Token.colon = some (b':' ∷ [])
symbol_text Token.plus = some (b'+' ∷ [])
symbol_text Token.minus = some (b'-' ∷ [])
symbol_text Token.star = some (b'*' ∷ [])
symbol_text Token.caret = some (b'^' ∷ [])
symbol_text Token.caret_mut = some (b'^' ∷ b'm' ∷ b'u' ∷ b't' ∷ [])
symbol_text Token.ampersand = some (b'&' ∷ [])
symbol_text Token.ampersand_mut = some (b'&' ∷ b'm' ∷ b'u' ∷ b't' ∷ [])
symbol_text Token.slash = some (b'/' ∷ [])
symbol_text Token.percent = some (b'%' ∷ [])
symbol_text Token.eq = some (b'=' ∷ [])
symbol_text Token.eq_eq = some (b'=' ∷ b'=' ∷ [])
symbol_text Token.bang_eq = some (b'!' ∷ b'=' ∷ [])
symbol_text Token.lt = some (b'<' ∷ [])
symbol_text Token.le = some (b'<' ∷ b'=' ∷ [])
symbol_text Token.gt = some (b'>' ∷ [])
symbol_text Token.ge = some (b'>' ∷ b'=' ∷ [])
symbol_text Token.lbrace = some (b'{' ∷ [])
symbol_text Token.lbracket = some (b'[' ∷ [])
symbol_text Token.lparen = some (b'(' ∷ [])
symbol_text Token.rbrace = some (b'}' ∷ [])
symbol_text Token.rbracket = some (b']' ∷ [])
symbol_text Token.rparen = some (b')' ∷ [])
symbol_text Token.comma = some (b',' ∷ [])
symbol_text Token.semicolon = some (b';' ∷ [])
symbol_text _ = none

abbrev pub keyword_text : Token → Option (List ℕ)
keyword_text Token.kw_else = some (b'e' ∷ b'l' ∷ b's' ∷ b'e' ∷ [])
keyword_text Token.kw_fn = some (b'f' ∷ b'n' ∷ [])
keyword_text Token.kw_if = some (b'i' ∷ b'f' ∷ [])
keyword_text Token.kw_let = some (b'l' ∷ b'e' ∷ b't' ∷ [])
keyword_text Token.kw_mut = some (b'm' ∷ b'u' ∷ b't' ∷ [])
keyword_text Token.kw_recurse = some (b'r' ∷ b'e' ∷ b'c' ∷ b'u' ∷ b'r' ∷ b's' ∷ b'e' ∷ [])
keyword_text Token.kw_return = some (b'r' ∷ b'e' ∷ b't' ∷ b'u' ∷ b'r' ∷ b'n' ∷ [])
keyword_text Token.kw_while = some (b'w' ∷ b'h' ∷ b'i' ∷ b'l' ∷ b'e' ∷ [])
keyword_text _ = none

-- What lies between lexemes.
abbrev pub is_space : ℕ → Bool
is_space c = c == b'\n' || blank c

-- The texts of a token.
pub data Spelled (t : Token) (text : List ℕ) : Type 0 where
  keyword : keyword_text t ≡ some text → Spelled t text
  identifier :
      IsWord text
      → ((k : Token) → ¬ (keyword_text k ≡ some text))
      → t ≡ Token.identifier
      → Spelled t text
  int : IsDigits text → t ≡ Token.int_literal → Spelled t text
  int_suffixed :
      (ds es : List ℕ)
      → IsDigits ds
      → IsDigits es
      → text ≡ ds ++ b'i' ∷ es
      → t ≡ Token.int_literal
      → Spelled t text
  float_letter :
      (ds : List ℕ) (c : ℕ)
      → IsDigits ds
      → is_float_letter c ≡ true
      → text ≡ ds ++ c ∷ []
      → t ≡ Token.float_literal
      → Spelled t text
  float :
      (ds es : List ℕ)
      → IsDigits ds
      → AllOf digit es
      → text ≡ ds ++ b'.' ∷ es
      → t ≡ Token.float_literal
      → Spelled t text
  float_both :
      (ds es : List ℕ) (c : ℕ)
      → IsDigits ds
      → AllOf digit es
      → is_float_letter c ≡ true
      → text ≡ ds ++ b'.' ∷ (es ++ c ∷ [])
      → t ≡ Token.float_literal
      → Spelled t text
  symbol : symbol_text t ≡ some text → Spelled t text

abbrev pub NoDigit : List ℕ → Type 0
NoDigit [] = Unit
NoDigit (c ∷ cs) = digit c ≡ false

-- What no lexeme begins with: a character that is no part of the language there, or digits and an `i`
-- with no digit behind it.
pub data Malformed (text rest : List ℕ) : Type 0 where
  stray :
      (c : ℕ)
      → text ≡ c ∷ []
      → is_space c ≡ false
      → word_start c ≡ false
      → digit c ≡ false
      → ((t : Token) (sign more : List ℕ) → symbol_text t ≡ some sign → ¬ (c ∷ rest ≡ sign ++ more))
      → Malformed text rest
  no_size :
      (ds : List ℕ) → IsDigits ds → text ≡ ds ++ b'i' ∷ [] → NoDigit rest → Malformed text rest

-- The locations after a character and after a newline.
abbrev pub right_of : Location → Location
right_of l = record { line = l.line; column = l.column + 1 }

abbrev pub below : Location → Location
below l = record { line = l.line + 1; column = 1 }

-- The location behind a text without newlines, and behind any text.
abbrev pub along : List ℕ → Location → Location
along [] l = l
along (c ∷ cs) l = along cs (right_of l)

abbrev pub past : List ℕ → Location → Location
past [] l = l
past (c ∷ cs) l = past cs (if c == b'\n' then below l else right_of l)

abbrev pub span_to : Location → Location → Span
span_to start l = record { start = start; end = record { line = l.line; column = l.column - 1 } }

-- A lexeme from a location, and where it ends.
abbrev pub token_at : Token → List ℕ → Location → List ℕ → Lexed
token_at t text start rest =
    lexeme t text (span_to start (along text start)) rest (along text start)
