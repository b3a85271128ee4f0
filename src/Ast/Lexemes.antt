-- ===== src/Ast/Lexemes.antt =====
-- The lexemes of a tree (code/ast/include/ast/ast.h), first to last.
use basedlang.Prelude.{Option, some, none, List, [], ◌∷◌, ◌++◌}
use basedlang.Lexing.Token.{Lexeme}
use basedlang.Ast.{
  Expression, Optional, Arguments, Parameters, Block, ElseIfParts, ElsePart, Statement, Statements,
}

abbrev pub of_option : Option Lexeme → List Lexeme
of_option none = []
of_option (some l) = l ∷ []

unfoldable mutual
  pub lexemes : Expression → List Lexeme
  lexemes (Expression.int_literal l) = l ∷ []
  lexemes (Expression.float_literal l) = l ∷ []
  lexemes (Expression.identifier l) = l ∷ []
  lexemes (Expression.recurse l) = l ∷ []
  lexemes (Expression.fn kw_fn name lparen ps commas rparen colon type arrow body) =
      kw_fn
      ∷ (of_option name
          ++ lparen
            ∷ (lexemes_parameters ps commas
                ++ rparen ∷ colon ∷ (lexemes type ++ arrow ∷ lexemes body)))
  lexemes (Expression.paren lparen inner rparen) = lparen ∷ (lexemes inner ++ rparen ∷ [])
  lexemes (Expression.prefix op operand) = op ∷ lexemes operand
  lexemes (Expression.postfix operand op) = lexemes operand ++ op ∷ []
  lexemes (Expression.binary left op right) = lexemes left ++ op ∷ lexemes right
  lexemes (Expression.call callee lparen arguments commas rparen) =
      lexemes callee ++ lparen ∷ (lexemes_arguments arguments commas ++ rparen ∷ [])
  lexemes (Expression.index operand lbracket subscript rbracket) =
      lexemes operand ++ lbracket ∷ (lexemes subscript ++ rbracket ∷ [])
  lexemes (Expression.prefix_bracket lbracket size rbracket operand) =
      lbracket ∷ (lexemes_optional size ++ rbracket ∷ lexemes operand)
  lexemes (Expression.block b) = lexemes_block b
  lexemes (Expression.if_expression kw_if condition then_block parts last) =
      kw_if
      ∷ (lexemes condition
          ++ (lexemes_block then_block ++ (lexemes_else_if parts ++ lexemes_else last)))

  pub lexemes_optional : Optional → List Lexeme
  lexemes_optional Optional.absent = []
  lexemes_optional (Optional.present e) = lexemes e

  -- Every argument but the last has its comma; the last may have one.
  pub lexemes_arguments : Arguments → List Lexeme → List Lexeme
  lexemes_arguments Arguments.no_arguments commas = commas
  lexemes_arguments (Arguments.argument e es) [] = lexemes e ++ lexemes_arguments es []
  lexemes_arguments (Arguments.argument e es) (c ∷ commas) =
      lexemes e ++ c ∷ lexemes_arguments es commas

  pub lexemes_parameters : Parameters → List Lexeme → List Lexeme
  lexemes_parameters Parameters.no_parameters commas = commas
  lexemes_parameters (Parameters.parameter kw_mut name colon type ps) [] =
      of_option kw_mut ++ name ∷ colon ∷ (lexemes type ++ lexemes_parameters ps [])
  lexemes_parameters (Parameters.parameter kw_mut name colon type ps) (c ∷ commas) =
      of_option kw_mut ++ name ∷ colon ∷ (lexemes type ++ c ∷ lexemes_parameters ps commas)

  pub lexemes_block : Block → List Lexeme
  lexemes_block (Block.braces lbrace statements tail rbrace) =
      lbrace ∷ (lexemes_statements statements ++ (lexemes_optional tail ++ rbrace ∷ []))

  pub lexemes_else_if : ElseIfParts → List Lexeme
  lexemes_else_if ElseIfParts.no_else_if = []
  lexemes_else_if (ElseIfParts.else_if kw_else kw_if condition body parts) =
      kw_else ∷ kw_if ∷ (lexemes condition ++ (lexemes_block body ++ lexemes_else_if parts))

  pub lexemes_else : ElsePart → List Lexeme
  lexemes_else ElsePart.no_else = []
  lexemes_else (ElsePart.else_part kw_else body) = kw_else ∷ lexemes_block body

  pub lexemes_statement : Statement → List Lexeme
  lexemes_statement (Statement.let_statement kw_let kw_mut name eq initializer semicolon) =
      kw_let ∷ (of_option kw_mut ++ name ∷ eq ∷ (lexemes initializer ++ semicolon ∷ []))
  lexemes_statement (Statement.while_statement kw_while condition body) =
      kw_while ∷ (lexemes condition ++ lexemes_block body)
  lexemes_statement (Statement.return_statement kw_return value semicolon) =
      kw_return ∷ (lexemes value ++ semicolon ∷ [])
  lexemes_statement (Statement.expression_statement expression semicolon) =
      lexemes expression ++ semicolon ∷ []

  pub lexemes_statements : Statements → List Lexeme
  lexemes_statements Statements.no_statements = []
  lexemes_statements (Statements.statement s ss) = lexemes_statement s ++ lexemes_statements ss
