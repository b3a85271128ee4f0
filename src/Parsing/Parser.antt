-- ===== src/Parsing/Parser.antt =====
-- `Parser` (code/parsing/src/parser.cpp). Each call, and each round of a loop, costs a unit of fuel. A
-- loop that fills a vector gives the rest of the vector.
use basedlang.Prelude.{
  ℕ, zero, suc, ◌+◌, ◌-◌, ◌*◌, leb, Bool, false, Option, none, some, List, [], ◌∷◌, if◌then◌else◌,
}
use basedlang.Lexing.Token.{Token, Lexeme, token_eq}
use basedlang.Ast.{
  Expression, Optional, Arguments, Parameters, Block, ElseIfParts, ElsePart, Statement, Statements,
}
use basedlang.Ast.Operators.{
  Operator, OperatorAssociativity, get_operator_precedence, get_precedence_associativity,
  get_prefix_operator, get_postfix_operator, get_binary_operator,
}
use basedlang.Parsing.Result.{
  Stream, unexpected, out_of_fuel, Parser, pure, ◌>>=◌, choose, peek, read, remaining,
}

-- `_reader->peek().token == token`
abbrev pub next_is : Token → Parser Bool
next_is token = do l ← peek; pure (token_eq (l.token) token)

abbrev pub check_token : Token → Lexeme → Parser Lexeme
check_token token l = choose (token_eq (l.token) token) (pure l) (λ s. unexpected l)

abbrev pub expect : Token → Parser Lexeme
expect token = do l ← read; check_token token l

abbrev pub expect_if : Token → Bool → Parser (Option Lexeme)
expect_if token b = choose b (do l ← expect token; pure (some l)) (pure none)

-- `std::numeric_limits<int>::max()`
abbrev pub any_precedence : ℕ
any_precedence = 2147483647

-- The operator, if its precedence fits.
abbrev pub fitting : Option Operator → ℕ → Option Operator
fitting none current_precedence = none
fitting (some op) current_precedence =
    if leb (get_operator_precedence op) current_precedence then some op else none

abbrev pub rhs_precedence : ℕ → ℕ
rhs_precedence op_prec = elim (get_precedence_associativity op_prec) [
  | OperatorAssociativity.right ↦ op_prec
  | OperatorAssociativity.left ↦ op_prec - 1
]

-- The kinds of statement and of primary expression, by their first token.
pub data StatementKind : Type 0 where
  let_kind return_kind while_kind expression_kind : StatementKind

abbrev pub statement_kind : Token → StatementKind
statement_kind Token.kw_let = StatementKind.let_kind
statement_kind Token.kw_return = StatementKind.return_kind
statement_kind Token.kw_while = StatementKind.while_kind
statement_kind _ = StatementKind.expression_kind

pub data PrimaryKind : Type 0 where
  int_kind float_kind identifier_kind recurse_kind if_kind block_kind paren_kind : PrimaryKind
  fn_kind no_kind : PrimaryKind

abbrev pub primary_kind : Token → PrimaryKind
primary_kind Token.int_literal = PrimaryKind.int_kind
primary_kind Token.float_literal = PrimaryKind.float_kind
primary_kind Token.identifier = PrimaryKind.identifier_kind
primary_kind Token.kw_recurse = PrimaryKind.recurse_kind
primary_kind Token.kw_if = PrimaryKind.if_kind
primary_kind Token.lbrace = PrimaryKind.block_kind
primary_kind Token.lparen = PrimaryKind.paren_kind
primary_kind Token.kw_fn = PrimaryKind.fn_kind
primary_kind _ = PrimaryKind.no_kind

unfoldable mutual
  pub parse_expression : ℕ → ℕ → Parser Expression
  parse_expression zero current_precedence = λ s. out_of_fuel
  parse_expression (suc f) current_precedence = do
    expr ← parse_operand f current_precedence
    parse_binary f current_precedence expr

  -- The λ at the start of `parse_expression`.
  pub parse_operand : ℕ → ℕ → Parser Expression
  parse_operand zero current_precedence = λ s. out_of_fuel
  parse_operand (suc f) current_precedence = do
    l ← peek
    parse_operand_at f current_precedence
        (fitting (get_prefix_operator (l.token)) current_precedence)

  pub parse_operand_at : ℕ → ℕ → Option Operator → Parser Expression
  parse_operand_at zero current_precedence prefix_op = λ s. out_of_fuel
  parse_operand_at (suc f) current_precedence (some prefix_op) = do
    op ← read
    operand ← parse_expression f (get_operator_precedence prefix_op)
    pure (Expression.prefix op operand)
  parse_operand_at (suc f) current_precedence none = do
    bracket ← next_is Token.lbracket
    choose (if bracket then leb 1 current_precedence else false) (parse_prefix_bracket f)
        (do primary ← parse_primary_expression f; parse_postfix f current_precedence primary)

  pub parse_prefix_bracket : ℕ → Parser Expression
  parse_prefix_bracket zero = λ s. out_of_fuel
  parse_prefix_bracket (suc f) = do
    lbracket ← expect Token.lbracket
    closed ← next_is Token.rbracket
    size ←
        choose closed (pure Optional.absent)
          (do e ← parse_expression f any_precedence; pure (Optional.present e))
    rbracket ← expect Token.rbracket
    operand ← parse_expression f 1
    pure (Expression.prefix_bracket lbracket size rbracket operand)

  -- The loop over postfix operators.
  pub parse_postfix : ℕ → ℕ → Expression → Parser Expression
  parse_postfix zero current_precedence primary = λ s. out_of_fuel
  parse_postfix (suc f) current_precedence primary = do
    l ← peek
    parse_postfix_at f current_precedence primary
        (fitting (get_postfix_operator (l.token)) current_precedence)

  pub parse_postfix_at : ℕ → ℕ → Expression → Option Operator → Parser Expression
  parse_postfix_at zero current_precedence primary postfix_op = λ s. out_of_fuel
  parse_postfix_at (suc f) current_precedence primary none = pure primary
  parse_postfix_at (suc f) current_precedence primary (some Operator.call) = do
    lparen ← expect Token.lparen
    arguments ← parse_arguments f
    rparen ← expect Token.rparen
    parse_postfix f current_precedence
        (Expression.call primary lparen arguments.0 arguments.1 rparen)
  parse_postfix_at (suc f) current_precedence primary (some Operator.index) = do
    lbracket ← expect Token.lbracket
    subscript ← parse_expression f any_precedence
    rbracket ← expect Token.rbracket
    parse_postfix f current_precedence (Expression.index primary lbracket subscript rbracket)
  parse_postfix_at (suc f) current_precedence primary (some _) = do
    op ← read
    parse_postfix f current_precedence (Expression.postfix primary op)

  -- The loop over binary operators.
  pub parse_binary : ℕ → ℕ → Expression → Parser Expression
  parse_binary zero current_precedence expr = λ s. out_of_fuel
  parse_binary (suc f) current_precedence expr = do
    l ← peek
    parse_binary_at f current_precedence expr
        (fitting (get_binary_operator (l.token)) current_precedence)

  pub parse_binary_at : ℕ → ℕ → Expression → Option Operator → Parser Expression
  parse_binary_at zero current_precedence expr bin_op = λ s. out_of_fuel
  parse_binary_at (suc f) current_precedence expr none = pure expr
  parse_binary_at (suc f) current_precedence expr (some bin_op) = do
    op ← read
    right ← parse_expression f (rhs_precedence (get_operator_precedence bin_op))
    parse_binary f current_precedence (Expression.binary expr op right)

  -- The arguments of a call, and their commas.
  pub parse_arguments : ℕ → Parser (Arguments × List Lexeme)
  parse_arguments zero = λ s. out_of_fuel
  parse_arguments (suc f) = do
    closed ← next_is Token.rparen
    choose closed (pure (Arguments.no_arguments, [])) do
      e ← parse_expression f any_precedence
      more ← next_is Token.comma
      choose more
          (do
            comma ← expect Token.comma
            rest ← parse_arguments f
            pure (Arguments.argument e rest.0, comma ∷ rest.1))
          (pure (Arguments.argument e Arguments.no_arguments, []))

  pub parse_primary_expression : ℕ → Parser Expression
  parse_primary_expression zero = λ s. out_of_fuel
  parse_primary_expression (suc f) = do l ← peek; parse_primary_at f l (primary_kind (l.token))

  pub parse_primary_at : ℕ → Lexeme → PrimaryKind → Parser Expression
  parse_primary_at zero l kind = λ s. out_of_fuel
  parse_primary_at (suc f) l PrimaryKind.int_kind = do
    literal ← expect Token.int_literal
    pure (Expression.int_literal literal)
  parse_primary_at (suc f) l PrimaryKind.float_kind = do
    literal ← expect Token.float_literal
    pure (Expression.float_literal literal)
  parse_primary_at (suc f) l PrimaryKind.identifier_kind = do
    identifier ← expect Token.identifier
    pure (Expression.identifier identifier)
  parse_primary_at (suc f) l PrimaryKind.recurse_kind = do
    kw_recurse ← read
    pure (Expression.recurse kw_recurse)
  parse_primary_at (suc f) l PrimaryKind.if_kind = parse_if_expression f
  parse_primary_at (suc f) l PrimaryKind.block_kind = do
    b ← parse_block_expression f
    pure (Expression.block b)
  parse_primary_at (suc f) l PrimaryKind.paren_kind = do
    lparen ← expect Token.lparen
    inner ← parse_expression f any_precedence
    rparen ← expect Token.rparen
    pure (Expression.paren lparen inner rparen)
  parse_primary_at (suc f) l PrimaryKind.fn_kind = parse_fn_expression f
  parse_primary_at (suc f) l PrimaryKind.no_kind = λ s. unexpected l

  pub parse_fn_expression : ℕ → Parser Expression
  parse_fn_expression zero = λ s. out_of_fuel
  parse_fn_expression (suc f) = do
    kw_fn ← expect Token.kw_fn
    named ← next_is Token.identifier
    name ← expect_if Token.identifier named
    lparen ← expect Token.lparen
    parameters ← parse_parameters f
    rparen ← expect Token.rparen
    colon ← expect Token.colon
    return_type ← parse_expression f any_precedence
    arrow ← expect Token.fat_arrow
    body ← parse_expression f any_precedence
    pure (
        Expression.fn kw_fn name lparen parameters.0 parameters.1 rparen colon return_type arrow
          body)

  -- The parameters of a function, and their commas.
  pub parse_parameters : ℕ → Parser (Parameters × List Lexeme)
  parse_parameters zero = λ s. out_of_fuel
  parse_parameters (suc f) = do
    closed ← next_is Token.rparen
    choose closed (pure (Parameters.no_parameters, [])) do
      is_mut ← next_is Token.kw_mut
      kw_mut ← expect_if Token.kw_mut is_mut
      name ← expect Token.identifier
      colon ← expect Token.colon
      type ← parse_expression f any_precedence
      more ← next_is Token.comma
      choose more
          (do
            comma ← expect Token.comma
            rest ← parse_parameters f
            pure (Parameters.parameter kw_mut name colon type rest.0, comma ∷ rest.1))
          (pure (Parameters.parameter kw_mut name colon type Parameters.no_parameters, []))

  pub parse_if_expression : ℕ → Parser Expression
  parse_if_expression zero = λ s. out_of_fuel
  parse_if_expression (suc f) = do
    kw_if ← expect Token.kw_if
    condition ← parse_expression f any_precedence
    then_block ← parse_block_expression f
    parts ← parse_else f
    pure (Expression.if_expression kw_if condition then_block parts.0 parts.1)

  -- The loop over the `else` parts.
  pub parse_else : ℕ → Parser (ElseIfParts × ElsePart)
  parse_else zero = λ s. out_of_fuel
  parse_else (suc f) = do
    again ← next_is Token.kw_else
    choose again
        (do
          kw_else ← expect Token.kw_else
          has_if ← next_is Token.kw_if
          choose has_if
              (do
                kw_if ← expect Token.kw_if
                condition ← parse_expression f any_precedence
                body ← parse_block_expression f
                rest ← parse_else f
                pure (ElseIfParts.else_if kw_else kw_if condition body rest.0, rest.1))
              (do
                body ← parse_block_expression f
                pure (ElseIfParts.no_else_if, ElsePart.else_part kw_else body)))
        (pure (ElseIfParts.no_else_if, ElsePart.no_else))

  pub parse_block_expression : ℕ → Parser Block
  parse_block_expression zero = λ s. out_of_fuel
  parse_block_expression (suc f) = do
    lbrace ← expect Token.lbrace
    body ← parse_block_statements f
    rbrace ← expect Token.rbrace
    pure (Block.braces lbrace body.0 body.1 rbrace)

  -- The loop over the statements of a block, and its tail.
  pub parse_block_statements : ℕ → Parser (Statements × Optional)
  parse_block_statements zero = λ s. out_of_fuel
  parse_block_statements (suc f) = do
    closed ← next_is Token.rbrace
    choose closed (pure (Statements.no_statements, Optional.absent))
        do l ← peek; parse_block_statement_at f (statement_kind (l.token))

  pub parse_block_statement_at : ℕ → StatementKind → Parser (Statements × Optional)
  parse_block_statement_at zero kind = λ s. out_of_fuel
  parse_block_statement_at (suc f) StatementKind.expression_kind = do
    expr ← parse_expression f any_precedence
    ended ← next_is Token.semicolon
    choose ended
        (do
          semicolon ← expect Token.semicolon
          rest ← parse_block_statements f
          pure
              (Statements.statement (Statement.expression_statement expr semicolon) rest.0, rest.1))
        (pure (Statements.no_statements, Optional.present expr))
  parse_block_statement_at (suc f) StatementKind.let_kind = do
    s ← parse_statement_at f StatementKind.let_kind
    rest ← parse_block_statements f
    pure (Statements.statement s rest.0, rest.1)
  parse_block_statement_at (suc f) StatementKind.return_kind = do
    s ← parse_statement_at f StatementKind.return_kind
    rest ← parse_block_statements f
    pure (Statements.statement s rest.0, rest.1)
  parse_block_statement_at (suc f) StatementKind.while_kind = do
    s ← parse_statement_at f StatementKind.while_kind
    rest ← parse_block_statements f
    pure (Statements.statement s rest.0, rest.1)

  -- `parse_let_statement`, `parse_return_statement`, `parse_while_statement` and
  -- `parse_expression_statement`
  pub parse_statement_at : ℕ → StatementKind → Parser Statement
  parse_statement_at zero kind = λ s. out_of_fuel
  parse_statement_at (suc f) StatementKind.let_kind = do
    kw_let ← expect Token.kw_let
    is_mut ← next_is Token.kw_mut
    kw_mut ← expect_if Token.kw_mut is_mut
    name ← expect Token.identifier
    eq ← expect Token.eq
    initializer ← parse_expression f any_precedence
    semicolon ← expect Token.semicolon
    pure (Statement.let_statement kw_let kw_mut name eq initializer semicolon)
  parse_statement_at (suc f) StatementKind.return_kind = do
    kw_return ← expect Token.kw_return
    value ← parse_expression f any_precedence
    semicolon ← expect Token.semicolon
    pure (Statement.return_statement kw_return value semicolon)
  parse_statement_at (suc f) StatementKind.while_kind = do
    kw_while ← expect Token.kw_while
    condition ← parse_expression f any_precedence
    body ← parse_block_expression f
    pure (Statement.while_statement kw_while condition body)
  parse_statement_at (suc f) StatementKind.expression_kind = do
    expression ← parse_expression f any_precedence
    semicolon ← expect Token.semicolon
    pure (Statement.expression_statement expression semicolon)

unfoldable pub parse_statement : ℕ → Parser Statement
unfolding parse_expression
parse_statement f = do l ← peek; parse_statement_at f (statement_kind (l.token))

-- The loop of `parse_translation_unit`: each statement takes a lexeme, and the first argument bounds
-- the rounds.
unfoldable pub parse_statements : ℕ → ℕ → Parser Statements
unfolding parse_statement
parse_statements zero f = λ s. out_of_fuel
parse_statements (suc n) f = do
  ended ← next_is Token.eof
  choose ended (pure Statements.no_statements)
      do s ← parse_statement f; rest ← parse_statements n f; pure (Statements.statement s rest)

-- More fuel than the calls on a stream of so many lexemes can take.
abbrev pub fuel_for : Stream → ℕ
fuel_for s = 20 * remaining s + 20

unfoldable pub parse_translation_unit : Parser Statements
unfolding parse_statements
parse_translation_unit s = parse_statements (suc (remaining s)) (fuel_for s) s
