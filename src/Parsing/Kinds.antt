-- ===== src/Parsing/Kinds.antt =====
-- The first tokens of statements and of blocks, as the parser (code/parsing/src/parser.cpp) looks for them.
use basedlang.Prelude.{◌≡◌, refl, ap, Bool, true, false}
use basedlang.Lexing.Token.{Token}
use basedlang.Ast.{Expression, Block, Statement}
use basedlang.Parsing.Result.{Stream, next, at_eof, scanner_throws}
use basedlang.Parsing.Parser.{StatementKind, statement_kind}
use basedlang.Parsing.Grammar.{IsExpression, IsBlock, IsStatement}
use basedlang.Parsing.Onto.{onto, onto_block, onto_optional, onto_statement, onto_statements}
use basedlang.Parsing.Heads.{
  expression_start, StartsWith, expression_start-statement_kind, onto_starts, Closed, Has-Closed,
}
use basedlang.Parsing.Rounds.{KindAt}

abbrev pub kind_of : Statement → StatementKind
kind_of (Statement.let_statement kw_let kw_mut name eq initializer semicolon) =
    StatementKind.let_kind
kind_of (Statement.while_statement kw_while condition body) = StatementKind.while_kind
kind_of (Statement.return_statement kw_return value semicolon) = StatementKind.return_kind
kind_of (Statement.expression_statement expression semicolon) = StatementKind.expression_kind

abbrev pub statement_start : Token → Bool
statement_start Token.kw_let = true
statement_start Token.kw_return = true
statement_start Token.kw_while = true
statement_start t = expression_start t

start_lem : (t : Token) → expression_start t ≡ true → statement_start t ≡ true
start_lem Token.kw_let h = refl
start_lem Token.kw_return h = refl
start_lem Token.kw_while h = refl
start_lem _ h = h

pub expression-StartsWith :
    (e : Expression) (s : Stream)
    → IsExpression e
    → StartsWith statement_start (onto e s) × KindAt StatementKind.expression_kind (onto e s)
expression-StartsWith e s is = go (onto e s) (onto_starts e s is)
  where
    go :
        (s : Stream)
        → StartsWith expression_start s
        → StartsWith statement_start s × KindAt StatementKind.expression_kind s
    go (next l s) h = (start_lem (l.token) h, expression_start-statement_kind (l.token) h)
    go (at_eof span) h = absurd h
    go scanner_throws h = absurd h

pub statement-StartsWith :
    (st : Statement) (s : Stream)
    → IsStatement st
    → StartsWith statement_start (onto_statement st s) × KindAt (kind_of st) (onto_statement st s)
unfolding onto IsExpression
statement-StartsWith (Statement.let_statement kw_let kw_mut name eq initializer semicolon) s h =
    (ap statement_start h.0, ap statement_kind h.0)
statement-StartsWith (Statement.while_statement kw_while condition body) s h =
    (ap statement_start h.0, ap statement_kind h.0)
statement-StartsWith (Statement.return_statement kw_return value semicolon) s h =
    (ap statement_start h.0, ap statement_kind h.0)
statement-StartsWith (Statement.expression_statement expression semicolon) s h =
    expression-StartsWith expression (next semicolon s) h.0

-- A block closes the condition before it.
pub block-Closed : (b : Block) (s : Stream) → IsBlock b → Closed (onto_block b s)
unfolding onto IsExpression
block-Closed (Block.braces lbrace ss tail rbrace) s h =
    Has-Closed lbrace (onto_statements ss (onto_optional tail (next rbrace s))) Token.lbrace h.0
      refl refl refl

abbrev pub brace_start : Token → Bool
brace_start Token.lbrace = true
brace_start _ = false

pub block-StartsWith :
    (b : Block) (s : Stream) → IsBlock b → StartsWith brace_start (onto_block b s)
unfolding onto IsExpression
block-StartsWith (Block.braces lbrace ss tail rbrace) s h = ap brace_start h.0
