-- ===== src/Parsing/Grammar.antt =====
-- Which trees are those of a program: every lexeme has its token, and operators bind by their
-- precedence and associativity (code/ast/src/operator.cpp, and the table in code/parsing/src/parser.cpp).
use basedlang.Prelude.{
  ℕ, ◌-◌, ◌≤◌, ◌≡◌, ◌==◌, Bool, true, false, Option, none, some, List, [], ◌∷◌, if◌then◌else◌,
}
use basedlang.Lexing.Token.{Token, Lexeme}
use basedlang.Ast.{
  Expression, Optional, Arguments, Parameters, Block, ElseIfParts, ElsePart, Statement, Statements,
}
use basedlang.Ast.Operators.{
  Operator, get_operator_precedence, get_prefix_operator, get_binary_operator,
}

abbrev pub Has : Lexeme → Token → Type 0
Has l t = l.token ≡ t

abbrev pub HasOption : Option Lexeme → Token → Type 0
HasOption none t = Unit
HasOption (some l) t = Has l t

abbrev pub operator_level : Option Operator → ℕ
operator_level none = 0
operator_level (some op) = get_operator_precedence op

-- The precedence of the operator at the top of a tree.
abbrev pub level : Expression → ℕ
level (Expression.prefix op operand) = 1
level (Expression.prefix_bracket lbracket size rbracket operand) = 1
level (Expression.binary left op right) = operator_level (get_binary_operator (op.token))
level _ = 0

-- A function's body takes every operator behind it: such a tree cannot be a left operand.
abbrev pub is_open : Expression → Bool
is_open (Expression.fn kw_fn name lparen ps commas rparen colon type arrow body) = true
is_open (Expression.prefix op operand) = is_open operand
is_open (Expression.prefix_bracket lbracket size rbracket operand) = is_open operand
is_open (Expression.binary left op right) = is_open right
is_open _ = false

-- The highest level of the left and of the right operand: assignment is right-associative, and the
-- others are left-associative.
abbrev pub left_level : ℕ → ℕ
left_level precedence = if precedence == 6 then 5 else precedence

abbrev pub right_level : ℕ → ℕ
right_level precedence = if precedence == 6 then 6 else precedence - 1

-- What a postfix operator can follow, if it is an expression.
abbrev pub Primary : Expression → Type 0 → Type 0
Primary e Is = Is × (level e ≡ 0) × (is_open e ≡ false)

abbrev pub Parameter : Option Lexeme → Lexeme → Lexeme → Type 0 → Type 0
Parameter kw_mut name colon Is =
    HasOption kw_mut Token.kw_mut × Has name Token.identifier × Has colon Token.colon × Is

unfoldable mutual
  pub IsExpression : Expression → Type 0
  IsExpression (Expression.int_literal l) = Has l Token.int_literal
  IsExpression (Expression.float_literal l) = Has l Token.float_literal
  IsExpression (Expression.identifier l) = Has l Token.identifier
  IsExpression (Expression.recurse l) = Has l Token.kw_recurse
  IsExpression (Expression.fn kw_fn name lparen ps commas rparen colon type arrow body) =
      Has kw_fn Token.kw_fn
      × HasOption name Token.identifier
      × Has lparen Token.lparen
      × IsParameters ps commas
      × Has rparen Token.rparen
      × Has colon Token.colon
      × IsExpression type
      × Has arrow Token.fat_arrow
      × IsExpression body
  IsExpression (Expression.paren lparen inner rparen) =
      Has lparen Token.lparen × IsExpression inner × Has rparen Token.rparen
  IsExpression (Expression.prefix op operand) =
      ((o : Operator) × (get_prefix_operator (op.token) ≡ some o))
      × IsExpression operand
      × (level operand ≤ 1)
  IsExpression (Expression.postfix operand op) =
      Has op Token.caret × Primary operand (IsExpression operand)
  IsExpression (Expression.binary left op right) =
      ((o : Operator) × (get_binary_operator (op.token) ≡ some o))
      × IsExpression left
      × (level left ≤ left_level (operator_level (get_binary_operator (op.token))))
      × (is_open left ≡ false)
      × IsExpression right
      × (level right ≤ right_level (operator_level (get_binary_operator (op.token))))
  IsExpression (Expression.call callee lparen arguments commas rparen) =
      Primary callee (IsExpression callee)
      × Has lparen Token.lparen
      × IsArguments arguments commas
      × Has rparen Token.rparen
  IsExpression (Expression.index operand lbracket subscript rbracket) =
      Primary operand (IsExpression operand)
      × Has lbracket Token.lbracket
      × IsExpression subscript
      × Has rbracket Token.rbracket
  IsExpression (Expression.prefix_bracket lbracket size rbracket operand) =
      Has lbracket Token.lbracket
      × IsOptional size
      × Has rbracket Token.rbracket
      × IsExpression operand
      × (level operand ≤ 1)
  IsExpression (Expression.block b) = IsBlock b
  IsExpression (Expression.if_expression kw_if condition then_block parts last) =
      Has kw_if Token.kw_if
      × IsExpression condition
      × IsBlock then_block
      × IsElseIf parts
      × IsElse last

  pub IsOptional : Optional → Type 0
  IsOptional Optional.absent = Unit
  IsOptional (Optional.present e) = IsExpression e

  -- A comma stands between two arguments, and may stand behind the last.
  pub IsArguments : Arguments → List Lexeme → Type 0
  IsArguments Arguments.no_arguments [] = Unit
  IsArguments Arguments.no_arguments (c ∷ commas) = ⊥
  IsArguments (Arguments.argument e es) [] = IsExpression e × (es ≡ Arguments.no_arguments)
  IsArguments (Arguments.argument e es) (c ∷ commas) =
      IsExpression e × Has c Token.comma × IsArguments es commas

  pub IsParameters : Parameters → List Lexeme → Type 0
  IsParameters Parameters.no_parameters [] = Unit
  IsParameters Parameters.no_parameters (c ∷ commas) = ⊥
  IsParameters (Parameters.parameter kw_mut name colon type ps) [] =
      Parameter kw_mut name colon (IsExpression type) × (ps ≡ Parameters.no_parameters)
  IsParameters (Parameters.parameter kw_mut name colon type ps) (c ∷ commas) =
      Parameter kw_mut name colon (IsExpression type) × Has c Token.comma × IsParameters ps commas

  pub IsBlock : Block → Type 0
  IsBlock (Block.braces lbrace statements tail rbrace) =
      Has lbrace Token.lbrace × IsStatements statements × IsOptional tail × Has rbrace Token.rbrace

  pub IsElseIf : ElseIfParts → Type 0
  IsElseIf ElseIfParts.no_else_if = Unit
  IsElseIf (ElseIfParts.else_if kw_else kw_if condition body parts) =
      Has kw_else Token.kw_else
      × Has kw_if Token.kw_if
      × IsExpression condition
      × IsBlock body
      × IsElseIf parts

  pub IsElse : ElsePart → Type 0
  IsElse ElsePart.no_else = Unit
  IsElse (ElsePart.else_part kw_else body) = Has kw_else Token.kw_else × IsBlock body

  pub IsStatement : Statement → Type 0
  IsStatement (Statement.let_statement kw_let kw_mut name eq initializer semicolon) =
      Has kw_let Token.kw_let
      × HasOption kw_mut Token.kw_mut
      × Has name Token.identifier
      × Has eq Token.eq
      × IsExpression initializer
      × Has semicolon Token.semicolon
  IsStatement (Statement.while_statement kw_while condition body) =
      Has kw_while Token.kw_while × IsExpression condition × IsBlock body
  IsStatement (Statement.return_statement kw_return value semicolon) =
      Has kw_return Token.kw_return × IsExpression value × Has semicolon Token.semicolon
  IsStatement (Statement.expression_statement expression semicolon) =
      IsExpression expression × Has semicolon Token.semicolon

  pub IsStatements : Statements → Type 0
  IsStatements Statements.no_statements = Unit
  IsStatements (Statements.statement s ss) = IsStatement s × IsStatements ss
