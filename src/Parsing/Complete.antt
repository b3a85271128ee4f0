-- ===== src/Parsing/Complete.antt =====
-- The parser (code/parsing/src/parser.cpp) on the lexemes of a tree of the grammar.
use basedlang.Prelude.{ℕ, ◌≤◌, ◌≡◌, refl, arith, List, [], ◌∷◌}
use basedlang.Lexing.Token.{Lexeme}
use basedlang.Ast.{
  Expression, Optional, Arguments, Parameters, Block, ElseIfParts, ElsePart, Statement, Statements,
}
use basedlang.Parsing.Grammar.{
  IsExpression, IsOptional, IsArguments, IsParameters, IsBlock, IsElseIf, IsElse, IsStatement,
  IsStatements,
}
use basedlang.Parsing.Expects.{binary_bounds}
use basedlang.Parsing.Spines.{Spine-Whole, Spine-Any, Parses, Chain-Parses, Atom-Parses}
use basedlang.Parsing.Parts.{ArgumentsOk, ParametersOk, BlockOk, BodyOk, ElseOk, StatementOk}
use basedlang.Parsing.Parts.{
  no_arguments_ok, last_argument_ok, argument_ok, no_parameters_ok, last_parameter_ok, parameter_ok,
}
use basedlang.Parsing.Blocks.{
  braces_ok, no_statements-BodyOk, tail_ok, expression_statement-BodyOk, statement-BodyOk, let_ok,
  return_ok, while_ok, expression_statement_ok, no_else_ok, else_ok, else_if_ok,
}
use basedlang.Parsing.Primary.{
  int_ok, float_ok, identifier_ok, recurse_ok, fn_ok, paren_ok, block_ok, if_ok,
}
use basedlang.Parsing.Operands.{
  postfix_ok, call_ok, index_ok, binary_ok, prefix_ok, SizeOk, absent_ok, present_ok, bracket_ok,
}

above : (l : ℕ) → l ≡ 0 → 1 ≤ l → ⊥
above l h k = omega (arith, h, k)

mutual
  unfolding IsExpression

  expression-Parses : (e : Expression) → IsExpression e → Parses e
  expression-Parses (Expression.int_literal l) h =
      Atom-Parses (Expression.int_literal l) h refl (int_ok l h)
  expression-Parses (Expression.float_literal l) h =
      Atom-Parses (Expression.float_literal l) h refl (float_ok l h)
  expression-Parses (Expression.identifier l) h =
      Atom-Parses (Expression.identifier l) h refl (identifier_ok l h)
  expression-Parses (Expression.recurse l) h =
      Atom-Parses (Expression.recurse l) h refl (recurse_ok l h)
  expression-Parses (Expression.fn kw_fn name lparen ps commas rparen colon type arrow body) h =
      let (h₁, h₂, h₃, h₄, h₅, h₆, h₇, h₈, h₉) = h in
      Atom-Parses (Expression.fn kw_fn name lparen ps commas rparen colon type arrow body) h refl (
        fn_ok kw_fn name lparen ps commas rparen colon type arrow body h
          (parameters_parse ps commas h₄) (Spine-Any type h₇ (expression-Parses type h₇).1)
          (Spine-Any body h₉ (expression-Parses body h₉).1))
  expression-Parses (Expression.paren lparen e rparen) h =
      Atom-Parses (Expression.paren lparen e rparen) h refl
        (paren_ok lparen e rparen h (Spine-Any e h.1 (expression-Parses e h.1).1))
  expression-Parses (Expression.prefix op e) h = (
    (λ z. absurd (above 1 z (omega arith))),
    prefix_ok op e h (Spine-Whole e (expression-Parses e h.1).1),
  )
  expression-Parses (Expression.postfix e op) h =
      let (h₁, (h₂, h₃, h₄)) = h in
      Chain-Parses (Expression.postfix e op) h refl
        (postfix_ok e h₄ ((expression-Parses e h₂).0 h₃) op h₁)
  expression-Parses (Expression.binary left op right) h =
      let ((o, h₁), h₂, h₃, h₄, h₅, h₆) = h in
      let (same, twice, six) = binary_bounds (op.token) o h₁ in
      (
        (λ z. absurd (omega (arith, z, same, twice))),
        binary_ok left op right h (expression-Parses left h₂).1
            (Spine-Whole right (expression-Parses right h₅).1),
      )
  expression-Parses (Expression.call e lp es commas rp) h =
      let ((h₁, h₂, h₃), h₄, h₅, h₆) = h in
      Chain-Parses (Expression.call e lp es commas rp) h refl (
        call_ok e h₃ ((expression-Parses e h₁).0 h₂) lp es commas rp h₄
          (arguments_parse es commas h₅) h₆)
  expression-Parses (Expression.index e lb i rb) h =
      let ((h₁, h₂, h₃), h₄, h₅, h₆) = h in
      Chain-Parses (Expression.index e lb i rb) h refl (
        index_ok e h₃ ((expression-Parses e h₁).0 h₂) lb i rb h₄
          (Spine-Any i h₅ (expression-Parses i h₅).1) h₆)
  expression-Parses (Expression.prefix_bracket lb size rb e) h =
      let (h₁, h₂, h₃, h₄, h₅) = h in
      (
        (λ z. absurd (above 1 z (omega arith))),
        bracket_ok lb size rb e h (size_parses size h₂) (Spine-Whole e (expression-Parses e h₄).1),
      )
  expression-Parses (Expression.block b) h =
      Atom-Parses (Expression.block b) h refl (block_ok b h (block_parses b h))
  expression-Parses (Expression.if_expression kw_if e b parts last) h =
      let (h₁, h₂, h₃, h₄, h₅) = h in
      Atom-Parses (Expression.if_expression kw_if e b parts last) h refl (
        if_ok kw_if e b parts last h (Spine-Any e h₂ (expression-Parses e h₂).1) (block_parses b h₃)
          (else_parses parts last h₄ (last_else_parses last h₅)))

  size_parses : (size : Optional) → IsOptional size → SizeOk size
  size_parses Optional.absent h = absent_ok
  size_parses (Optional.present e) h = present_ok e h (Spine-Any e h (expression-Parses e h).1)

  arguments_parse :
      (es : Arguments) (commas : List Lexeme) → IsArguments es commas → ArgumentsOk es commas
  arguments_parse Arguments.no_arguments [] h = no_arguments_ok
  arguments_parse Arguments.no_arguments (c ∷ commas) h = absurd h
  arguments_parse (Arguments.argument e Arguments.no_arguments) [] h =
      last_argument_ok e h.0 (Spine-Any e h.0 (expression-Parses e h.0).1)
  arguments_parse (Arguments.argument e (Arguments.argument e' es)) [] h = absurd (cc h.1)
  arguments_parse (Arguments.argument e es) (c ∷ commas) (h₁, h₂, h₃) =
      argument_ok e es c commas h₁ (Spine-Any e h₁ (expression-Parses e h₁).1) h₂
        (arguments_parse es commas h₃)

  parameters_parse :
      (ps : Parameters) (commas : List Lexeme) → IsParameters ps commas → ParametersOk ps commas
  parameters_parse Parameters.no_parameters [] h = no_parameters_ok
  parameters_parse Parameters.no_parameters (c ∷ commas) h = absurd h
  parameters_parse (Parameters.parameter kw_mut name colon type Parameters.no_parameters) []
        (h, q) =
      last_parameter_ok kw_mut name colon type h (Spine-Any type h.3 (expression-Parses type h.3).1)
  parameters_parse
        (Parameters.parameter kw_mut name colon type
          (Parameters.parameter kw_mut' name' colon' type' ps))
        [] (h, q) =
      absurd (cc q)
  parameters_parse (Parameters.parameter kw_mut name colon type ps) (c ∷ commas) (h₁, h₂, h₃) =
      parameter_ok kw_mut name colon type h₁ (Spine-Any type h₁.3 (expression-Parses type h₁.3).1)
        ps c commas h₂ (parameters_parse ps commas h₃)

  block_parses : (b : Block) → IsBlock b → BlockOk b
  block_parses (Block.braces lbrace ss tail rbrace) (h₁, h₂, h₃, h₄) =
      braces_ok lbrace ss tail rbrace h₁ h₄ (body_parses ss tail h₂ (tail_parses tail h₃))

  body_parses :
      (ss : Statements) (tail : Optional)
      → IsStatements ss
      → BodyOk Statements.no_statements tail
      → BodyOk ss tail
  body_parses Statements.no_statements tail h k = k
  body_parses (Statements.statement (Statement.expression_statement e semicolon) ss) tail
        ((h, h'), h'') k =
      expression_statement-BodyOk e semicolon ss tail h (Spine-Any e h (expression-Parses e h).1) h'
        (body_parses ss tail h'' k)
  body_parses (Statements.statement (Statement.let_statement kw_let kw_mut name eq e semicolon) ss)
        tail h k =
      statement-BodyOk (Statement.let_statement kw_let kw_mut name eq e semicolon) ss tail h.0 refl
        (let_ok kw_let kw_mut name eq e semicolon h.0
          (Spine-Any e h.0.4 (expression-Parses e h.0.4).1))
        (body_parses ss tail h.1 k)
  body_parses (Statements.statement (Statement.while_statement kw_while e b) ss) tail h k =
      statement-BodyOk (Statement.while_statement kw_while e b) ss tail h.0 refl
        (while_ok kw_while e b h.0 (Spine-Any e h.0.1 (expression-Parses e h.0.1).1)
          (block_parses b h.0.2))
        (body_parses ss tail h.1 k)
  body_parses (Statements.statement (Statement.return_statement kw_return e semicolon) ss) tail h
        k =
      statement-BodyOk (Statement.return_statement kw_return e semicolon) ss tail h.0 refl
        (return_ok kw_return e semicolon h.0 (Spine-Any e h.0.1 (expression-Parses e h.0.1).1))
        (body_parses ss tail h.1 k)

  tail_parses : (tail : Optional) → IsOptional tail → BodyOk Statements.no_statements tail
  tail_parses Optional.absent h = no_statements-BodyOk
  tail_parses (Optional.present e) h = tail_ok e h (Spine-Any e h (expression-Parses e h).1)

  last_else_parses : (last : ElsePart) → IsElse last → ElseOk ElseIfParts.no_else_if last
  last_else_parses ElsePart.no_else h = no_else_ok
  last_else_parses (ElsePart.else_part kw_else b) h = else_ok kw_else b h.0 h.1 (block_parses b h.1)

  else_parses :
      (parts : ElseIfParts) (last : ElsePart)
      → IsElseIf parts
      → ElseOk ElseIfParts.no_else_if last
      → ElseOk parts last
  else_parses ElseIfParts.no_else_if last h k = k
  else_parses (ElseIfParts.else_if kw_else kw_if e b parts) last h k =
      let (h₁, h₂, h₃, h₄, h₅) = h in
      else_if_ok kw_else kw_if e b parts last h (Spine-Any e h₃ (expression-Parses e h₃).1)
        (block_parses b h₄) (else_parses parts last h₅ k)

  pub statement_parses : (st : Statement) → IsStatement st → StatementOk st
  statement_parses (Statement.let_statement kw_let kw_mut name eq e semicolon) h =
      let (h₁, h₂, h₃, h₄, h₅, h₆) = h in
      let_ok kw_let kw_mut name eq e semicolon h (Spine-Any e h₅ (expression-Parses e h₅).1)
  statement_parses (Statement.while_statement kw_while e b) h =
      let (h₁, h₂, h₃) = h in
      while_ok kw_while e b h (Spine-Any e h₂ (expression-Parses e h₂).1) (block_parses b h₃)
  statement_parses (Statement.return_statement kw_return e semicolon) h =
      return_ok kw_return e semicolon h (Spine-Any e h.1 (expression-Parses e h.1).1)
  statement_parses (Statement.expression_statement e semicolon) h =
      expression_statement_ok e semicolon h (Spine-Any e h.0 (expression-Parses e h.0).1)
