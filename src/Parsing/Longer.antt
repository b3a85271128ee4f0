-- ===== src/Parsing/Longer.antt =====
-- How many lexemes a tree puts in front of a stream (code/parsing/src/parser.cpp takes them off again).
use basedlang.Prelude.{
  ◌≤◌, ◌<◌, ◌≡◌, ap, arith, Option, none, some, List, [], ◌∷◌, ◌++◌, length, length-append,
}
use basedlang.Lexing.Token.{Lexeme}
use basedlang.Ast.{
  Expression, Optional, Arguments, Parameters, Block, ElseIfParts, ElsePart, Statement, Statements,
}
use basedlang.Ast.Lexemes.{
  lexemes, lexemes_optional, lexemes_arguments, lexemes_parameters, lexemes_block, lexemes_else_if,
  lexemes_else, lexemes_statement, lexemes_statements,
}
use basedlang.Parsing.Result.{Stream, give, remaining, remaining-give}
use basedlang.Parsing.Onto.{
  onto_option, onto, onto_optional, onto_arguments, onto_parameters, onto_block, onto_else_if,
  onto_else, onto_statement, onto_statements, onto-give, onto_optional-give, onto_arguments-give,
  onto_parameters-give, onto_block-give, onto_else_if-give, onto_else-give, onto_statement-give,
  onto_statements-give,
}

no_shorter : (ls : List Lexeme) (s s' : Stream) → s' ≡ give ls s → remaining s ≤ remaining s'
no_shorter ls s s' h = omega (arith, ap remaining h, remaining-give ls s)

longer :
    (ls : List Lexeme) (s s' : Stream) → 1 ≤ length ls → s' ≡ give ls s → remaining s < remaining s'
longer ls s s' n h = omega (arith, n, ap remaining h, remaining-give ls s)

one_and : (xs ys : List Lexeme) (l : Lexeme) → 1 ≤ length (xs ++ l ∷ ys)
one_and xs ys l = omega (arith, length-append xs (l ∷ ys))

expression_length : (e : Expression) → 1 ≤ length (lexemes e)
unfolding lexemes
expression_length (Expression.postfix operand op) = one_and (lexemes operand) [] op
expression_length (Expression.binary left op right) = one_and (lexemes left) (lexemes right) op
expression_length (Expression.call callee lparen es commas rparen) =
    one_and (lexemes callee) (lexemes_arguments es commas ++ rparen ∷ []) lparen
expression_length (Expression.index operand lbracket subscript rbracket) =
    one_and (lexemes operand) (lexemes subscript ++ rbracket ∷ []) lbracket
expression_length (Expression.block (Block.braces lbrace ss tail rbrace)) = omega arith
expression_length _ = omega arith

block_length : (b : Block) → 1 ≤ length (lexemes_block b)
unfolding lexemes
block_length (Block.braces lbrace ss tail rbrace) = omega arith

statement_length : (st : Statement) → 1 ≤ length (lexemes_statement st)
unfolding lexemes
statement_length (Statement.expression_statement expression semicolon) =
    one_and (lexemes expression) [] semicolon
statement_length _ = omega arith

pub onto_longer : (e : Expression) (s : Stream) → remaining s < remaining (onto e s)
onto_longer e s = longer (lexemes e) s (onto e s) (expression_length e) (onto-give e s)

pub onto_block_longer : (b : Block) (s : Stream) → remaining s < remaining (onto_block b s)
onto_block_longer b s =
    longer (lexemes_block b) s (onto_block b s) (block_length b) (onto_block-give b s)

pub onto_statement_longer :
    (st : Statement) (s : Stream) → remaining s < remaining (onto_statement st s)
onto_statement_longer st s =
    longer (lexemes_statement st) s (onto_statement st s) (statement_length st)
      (onto_statement-give st s)

pub onto_option_longer :
    (o : Option Lexeme) (s : Stream) → remaining s ≤ remaining (onto_option o s)
onto_option_longer none s = omega arith
onto_option_longer (some l) s = omega arith

pub onto_optional_longer : (o : Optional) (s : Stream) → remaining s ≤ remaining (onto_optional o s)
onto_optional_longer o s =
    no_shorter (lexemes_optional o) s (onto_optional o s) (onto_optional-give o s)

pub onto_arguments_longer :
    (es : Arguments) (commas : List Lexeme) (s : Stream)
    → remaining s ≤ remaining (onto_arguments es commas s)
onto_arguments_longer es commas s =
    no_shorter (lexemes_arguments es commas) s (onto_arguments es commas s)
      (onto_arguments-give es commas s)

pub onto_parameters_longer :
    (ps : Parameters) (commas : List Lexeme) (s : Stream)
    → remaining s ≤ remaining (onto_parameters ps commas s)
onto_parameters_longer ps commas s =
    no_shorter (lexemes_parameters ps commas) s (onto_parameters ps commas s)
      (onto_parameters-give ps commas s)

pub onto_else_if_longer :
    (parts : ElseIfParts) (s : Stream) → remaining s ≤ remaining (onto_else_if parts s)
onto_else_if_longer parts s =
    no_shorter (lexemes_else_if parts) s (onto_else_if parts s) (onto_else_if-give parts s)

pub onto_else_longer : (last : ElsePart) (s : Stream) → remaining s ≤ remaining (onto_else last s)
onto_else_longer last s =
    no_shorter (lexemes_else last) s (onto_else last s) (onto_else-give last s)

pub onto_statements_longer :
    (ss : Statements) (s : Stream) → remaining s ≤ remaining (onto_statements ss s)
onto_statements_longer ss s =
    no_shorter (lexemes_statements ss) s (onto_statements ss s) (onto_statements-give ss s)
