-- ===== src/Parsing/Onto.antt =====
-- The lexemes of a tree in front of a stream, as the parser (code/parsing/src/parser.cpp) takes them.
use basedlang.Prelude.{◌≡◌, refl, Option, some, none, List, [], ◌∷◌}
use basedlang.Lexing.Token.{Lexeme}
use basedlang.Ast.{
  Expression, Optional, Arguments, Parameters, Block, ElseIfParts, ElsePart, Statement, Statements,
}
use basedlang.Ast.Lexemes.{
  of_option, lexemes, lexemes_optional, lexemes_arguments, lexemes_parameters, lexemes_block,
  lexemes_else_if, lexemes_else, lexemes_statement, lexemes_statements,
}
use basedlang.Parsing.Result.{Stream, next, give, give-append}

abbrev pub onto_option : Option Lexeme → Stream → Stream
onto_option none s = s
onto_option (some l) s = next l s

unfoldable mutual
  pub onto : Expression → Stream → Stream
  onto (Expression.int_literal l) s = next l s
  onto (Expression.float_literal l) s = next l s
  onto (Expression.identifier l) s = next l s
  onto (Expression.recurse l) s = next l s
  onto (Expression.fn kw_fn name lparen ps commas rparen colon type arrow body) s = next kw_fn (
      onto_option name (
        next lparen (
          onto_parameters ps commas
            (next rparen (next colon (onto type (next arrow (onto body s))))))))
  onto (Expression.paren lparen inner rparen) s = next lparen (onto inner (next rparen s))
  onto (Expression.prefix op operand) s = next op (onto operand s)
  onto (Expression.postfix operand op) s = onto operand (next op s)
  onto (Expression.binary left op right) s = onto left (next op (onto right s))
  onto (Expression.call callee lparen es commas rparen) s =
      onto callee (next lparen (onto_arguments es commas (next rparen s)))
  onto (Expression.index operand lbracket subscript rbracket) s =
      onto operand (next lbracket (onto subscript (next rbracket s)))
  onto (Expression.prefix_bracket lbracket size rbracket operand) s =
      next lbracket (onto_optional size (next rbracket (onto operand s)))
  onto (Expression.block b) s = onto_block b s
  onto (Expression.if_expression kw_if condition then_block parts last) s =
      next kw_if (onto condition (onto_block then_block (onto_else_if parts (onto_else last s))))

  pub onto_optional : Optional → Stream → Stream
  onto_optional Optional.absent s = s
  onto_optional (Optional.present e) s = onto e s

  pub onto_arguments : Arguments → List Lexeme → Stream → Stream
  onto_arguments Arguments.no_arguments commas s = give commas s
  onto_arguments (Arguments.argument e es) [] s = onto e (onto_arguments es [] s)
  onto_arguments (Arguments.argument e es) (c ∷ commas) s =
      onto e (next c (onto_arguments es commas s))

  pub onto_parameters : Parameters → List Lexeme → Stream → Stream
  onto_parameters Parameters.no_parameters commas s = give commas s
  onto_parameters (Parameters.parameter kw_mut name colon type ps) [] s =
      onto_option kw_mut (next name (next colon (onto type (onto_parameters ps [] s))))
  onto_parameters (Parameters.parameter kw_mut name colon type ps) (c ∷ commas) s =
      onto_option kw_mut (next name (next colon (onto type (next c (onto_parameters ps commas s)))))

  pub onto_block : Block → Stream → Stream
  onto_block (Block.braces lbrace ss tail rbrace) s =
      next lbrace (onto_statements ss (onto_optional tail (next rbrace s)))

  pub onto_else_if : ElseIfParts → Stream → Stream
  onto_else_if ElseIfParts.no_else_if s = s
  onto_else_if (ElseIfParts.else_if kw_else kw_if condition body parts) s =
      next kw_else (next kw_if (onto condition (onto_block body (onto_else_if parts s))))

  pub onto_else : ElsePart → Stream → Stream
  onto_else ElsePart.no_else s = s
  onto_else (ElsePart.else_part kw_else body) s = next kw_else (onto_block body s)

  pub onto_statement : Statement → Stream → Stream
  onto_statement (Statement.let_statement kw_let kw_mut name eq initializer semicolon) s =
      next kw_let (onto_option kw_mut (next name (next eq (onto initializer (next semicolon s)))))
  onto_statement (Statement.while_statement kw_while condition body) s =
      next kw_while (onto condition (onto_block body s))
  onto_statement (Statement.return_statement kw_return value semicolon) s =
      next kw_return (onto value (next semicolon s))
  onto_statement (Statement.expression_statement expression semicolon) s =
      onto expression (next semicolon s)

  pub onto_statements : Statements → Stream → Stream
  onto_statements Statements.no_statements s = s
  onto_statements (Statements.statement st ss) s = onto_statement st (onto_statements ss s)

onto_option-give : (o : Option Lexeme) (s : Stream) → onto_option o s ≡ give (of_option o) s
onto_option-give none s = refl
onto_option-give (some l) s = refl

mutual
  unfolding onto lexemes

  pub onto-give : (e : Expression) (s : Stream) → onto e s ≡ give (lexemes e) s
  onto-give (Expression.int_literal l) s = refl
  onto-give (Expression.float_literal l) s = refl
  onto-give (Expression.identifier l) s = refl
  onto-give (Expression.recurse l) s = refl
  onto-give (Expression.fn kw_fn name lparen ps commas rparen colon type arrow body) s = simp (
    give-append,
    onto_option-give,
    onto_parameters-give ps commas,
    onto-give type,
    onto-give body,
  )
  onto-give (Expression.paren lparen inner rparen) s = simp (give-append, onto-give inner)
  onto-give (Expression.prefix op operand) s = simp (onto-give operand)
  onto-give (Expression.postfix operand op) s = simp (give-append, onto-give operand)
  onto-give (Expression.binary left op right) s =
      simp (give-append, onto-give left, onto-give right)
  onto-give (Expression.call callee lparen es commas rparen) s =
      simp (give-append, onto-give callee, onto_arguments-give es commas)
  onto-give (Expression.index operand lbracket subscript rbracket) s =
      simp (give-append, onto-give operand, onto-give subscript)
  onto-give (Expression.prefix_bracket lbracket size rbracket operand) s =
      simp (give-append, onto_optional-give size, onto-give operand)
  onto-give (Expression.block b) s = onto_block-give b s
  onto-give (Expression.if_expression kw_if condition then_block parts last) s = simp (
    give-append,
    onto-give condition,
    onto_block-give then_block,
    onto_else_if-give parts,
    onto_else-give last,
  )

  pub onto_optional-give :
      (o : Optional) (s : Stream) → onto_optional o s ≡ give (lexemes_optional o) s
  onto_optional-give Optional.absent s = refl
  onto_optional-give (Optional.present e) s = onto-give e s

  pub onto_arguments-give :
      (es : Arguments) (commas : List Lexeme) (s : Stream)
      → onto_arguments es commas s ≡ give (lexemes_arguments es commas) s
  onto_arguments-give Arguments.no_arguments commas s = refl
  onto_arguments-give (Arguments.argument e es) [] s =
      simp (give-append, onto-give e, onto_arguments-give es [])
  onto_arguments-give (Arguments.argument e es) (c ∷ commas) s =
      simp (give-append, onto-give e, onto_arguments-give es commas)

  pub onto_parameters-give :
      (ps : Parameters) (commas : List Lexeme) (s : Stream)
      → onto_parameters ps commas s ≡ give (lexemes_parameters ps commas) s
  onto_parameters-give Parameters.no_parameters commas s = refl
  onto_parameters-give (Parameters.parameter kw_mut name colon type ps) [] s =
      simp (give-append, onto_option-give, onto-give type, onto_parameters-give ps [])
  onto_parameters-give (Parameters.parameter kw_mut name colon type ps) (c ∷ commas) s =
      simp (give-append, onto_option-give, onto-give type, onto_parameters-give ps commas)

  pub onto_block-give : (b : Block) (s : Stream) → onto_block b s ≡ give (lexemes_block b) s
  onto_block-give (Block.braces lbrace ss tail rbrace) s =
      simp (give-append, onto_statements-give ss, onto_optional-give tail)

  pub onto_else_if-give :
      (parts : ElseIfParts) (s : Stream) → onto_else_if parts s ≡ give (lexemes_else_if parts) s
  onto_else_if-give ElseIfParts.no_else_if s = refl
  onto_else_if-give (ElseIfParts.else_if kw_else kw_if condition body parts) s =
      simp (give-append, onto-give condition, onto_block-give body, onto_else_if-give parts)

  pub onto_else-give :
      (last : ElsePart) (s : Stream) → onto_else last s ≡ give (lexemes_else last) s
  onto_else-give ElsePart.no_else s = refl
  onto_else-give (ElsePart.else_part kw_else body) s = simp (onto_block-give body)

  pub onto_statement-give :
      (st : Statement) (s : Stream) → onto_statement st s ≡ give (lexemes_statement st) s
  onto_statement-give (Statement.let_statement kw_let kw_mut name eq initializer semicolon) s =
      simp (give-append, onto_option-give, onto-give initializer)
  onto_statement-give (Statement.while_statement kw_while condition body) s =
      simp (give-append, onto-give condition, onto_block-give body)
  onto_statement-give (Statement.return_statement kw_return value semicolon) s =
      simp (give-append, onto-give value)
  onto_statement-give (Statement.expression_statement expression semicolon) s =
      simp (give-append, onto-give expression)

  pub onto_statements-give :
      (ss : Statements) (s : Stream) → onto_statements ss s ≡ give (lexemes_statements ss) s
  onto_statements-give Statements.no_statements s = refl
  onto_statements-give (Statements.statement st ss) s =
      simp (give-append, onto_statement-give st, onto_statements-give ss)
