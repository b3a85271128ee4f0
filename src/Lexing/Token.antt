-- ===== src/Lexing/Token.antt =====
-- code/lexing/include/lexing/token.h, and the locations of code/source/include/source.
use basedlang.Prelude.{
  ℕ, ◌+◌, ◌==◌, ==_iff, ◌≡◌, refl, sym, ap, ◌∙◌, Bool, true, List, [], ◌∷◌, get_or,
}

-- `enum class Token`
pub data Token : Type 0 where
  eof identifier int_literal float_literal : Token
  kw_else kw_fn kw_if kw_let kw_mut kw_recurse kw_return kw_while : Token
  arrow fat_arrow colon plus minus star caret caret_mut ampersand ampersand_mut : Token
  slash percent eq eq_eq bang_eq lt le gt ge : Token
  lbrace lbracket lparen rbrace rbracket rparen comma semicolon : Token

-- `struct Source_location` and `struct Source_span`
pub record Location : Type 0 where
  pub line : ℕ
  pub column : ℕ

pub record Span : Type 0 where
  pub start : Location
  pub end : Location

-- The updates of `consume_newline` and `consume_non_newline`
abbrev pub next_line : Location → Location
next_line l = record { line = l.line + 1; column = 1 }

abbrev pub next_column : Location → Location
next_column l = record { line = l.line; column = l.column + 1 }

-- `struct Lexeme`, with its text in place of the spelling
pub record Lexeme : Type 0 where
  pub token : Token
  pub text : List ℕ
  pub span : Span

-- `hull` of two spans
abbrev pub hull : Span → Span → Span
hull begin end = record { start = begin.start; end = end.end }

-- The value of an enumerator, by which tokens are compared.
abbrev pub token_number : Token → ℕ
token_number Token.eof = 0
token_number Token.identifier = 1
token_number Token.int_literal = 2
token_number Token.float_literal = 3
token_number Token.kw_else = 4
token_number Token.kw_fn = 5
token_number Token.kw_if = 6
token_number Token.kw_let = 7
token_number Token.kw_mut = 8
token_number Token.kw_recurse = 9
token_number Token.kw_return = 10
token_number Token.kw_while = 11
token_number Token.arrow = 12
token_number Token.fat_arrow = 13
token_number Token.colon = 14
token_number Token.plus = 15
token_number Token.minus = 16
token_number Token.star = 17
token_number Token.caret = 18
token_number Token.caret_mut = 19
token_number Token.ampersand = 20
token_number Token.ampersand_mut = 21
token_number Token.slash = 22
token_number Token.percent = 23
token_number Token.eq = 24
token_number Token.eq_eq = 25
token_number Token.bang_eq = 26
token_number Token.lt = 27
token_number Token.le = 28
token_number Token.gt = 29
token_number Token.ge = 30
token_number Token.lbrace = 31
token_number Token.lbracket = 32
token_number Token.lparen = 33
token_number Token.rbrace = 34
token_number Token.rbracket = 35
token_number Token.rparen = 36
token_number Token.comma = 37
token_number Token.semicolon = 38

abbrev pub token_eq : Token → Token → Bool
token_eq a b = token_number a == token_number b

abbrev tokens : List Token
tokens =
    Token.eof ∷ Token.identifier ∷ Token.int_literal ∷ Token.float_literal ∷ Token.kw_else
    ∷ Token.kw_fn ∷ Token.kw_if ∷ Token.kw_let ∷ Token.kw_mut ∷ Token.kw_recurse ∷ Token.kw_return
    ∷ Token.kw_while ∷ Token.arrow ∷ Token.fat_arrow ∷ Token.colon ∷ Token.plus ∷ Token.minus
    ∷ Token.star ∷ Token.caret ∷ Token.caret_mut ∷ Token.ampersand ∷ Token.ampersand_mut
    ∷ Token.slash ∷ Token.percent ∷ Token.eq ∷ Token.eq_eq ∷ Token.bang_eq ∷ Token.lt ∷ Token.le
    ∷ Token.gt ∷ Token.ge ∷ Token.lbrace ∷ Token.lbracket ∷ Token.lparen ∷ Token.rbrace
    ∷ Token.rbracket ∷ Token.rparen ∷ Token.comma ∷ Token.semicolon ∷ []

of_number : (t : Token) → get_or tokens (token_number t) Token.eof ≡ t
of_number Token.eof = refl
of_number _ = refl

pub token_eq-Path : (a b : Token) → token_eq a b ≡ true → a ≡ b
token_eq-Path a b h =
    sym (of_number a)
    ∙ ap (λ n. get_or tokens n Token.eof) ((==_iff (token_number a) (token_number b)).0 h)
    ∙ of_number b

pub token_eq_refl : (a : Token) → token_eq a a ≡ true
token_eq_refl Token.eof = refl
token_eq_refl _ = refl
