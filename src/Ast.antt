-- ===== src/Ast.antt =====
-- The trees of the parser (code/ast/include/ast/ast.h), with a constructor for each alternative of a
-- variant. A vector of trees, and a pointer to one that may be null, is a type of its own.
pub mod Operators
pub mod Lexemes
pub mod Spans
use basedlang.Prelude.{Option, List}
use basedlang.Lexing.Token.{Lexeme}

mutual
  pub data Expression : Type 0 where
    int_literal float_literal identifier recurse : Lexeme → Expression
    fn :
        (kw_fn : Lexeme) (name : Option Lexeme) (lparen : Lexeme) (parameters : Parameters)
        (parameter_commas : List Lexeme) (rparen colon : Lexeme) (return_type : Expression)
        (arrow : Lexeme) (body : Expression)
        → Expression
    paren : (lparen : Lexeme) (inner : Expression) (rparen : Lexeme) → Expression
    prefix : (op : Lexeme) (operand : Expression) → Expression
    postfix : (operand : Expression) (op : Lexeme) → Expression
    binary : (left : Expression) (op : Lexeme) (right : Expression) → Expression
    call :
        (callee : Expression) (lparen : Lexeme) (arguments : Arguments)
        (argument_commas : List Lexeme) (rparen : Lexeme)
        → Expression
    index :
        (operand : Expression) (lbracket : Lexeme) (subscript : Expression) (rbracket : Lexeme)
        → Expression
    prefix_bracket :
        (lbracket : Lexeme) (size : Optional) (rbracket : Lexeme) (operand : Expression)
        → Expression
    block : Block → Expression
    if_expression :
        (kw_if : Lexeme) (condition : Expression) (then_block : Block) (else_if_parts : ElseIfParts)
        (else_part : ElsePart)
        → Expression

  pub data Optional : Type 0 where
    absent : Optional
    present : Expression → Optional

  pub data Arguments : Type 0 where
    no_arguments : Arguments
    argument : Expression → Arguments → Arguments

  -- `Parameter_declaration`
  pub data Parameters : Type 0 where
    no_parameters : Parameters
    parameter :
        (kw_mut : Option Lexeme) (name colon : Lexeme) (type : Expression) → Parameters → Parameters

  -- `Block_expression`
  pub data Block : Type 0 where
    braces : (lbrace : Lexeme) (statements : Statements) (tail : Optional) (rbrace : Lexeme) → Block

  pub data ElseIfParts : Type 0 where
    no_else_if : ElseIfParts
    else_if :
        (kw_else kw_if : Lexeme) (condition : Expression) (body : Block) → ElseIfParts → ElseIfParts

  pub data ElsePart : Type 0 where
    no_else : ElsePart
    else_part : (kw_else : Lexeme) (body : Block) → ElsePart

  pub data Statement : Type 0 where
    let_statement :
        (kw_let : Lexeme) (kw_mut : Option Lexeme) (name eq : Lexeme) (initializer : Expression)
        (semicolon : Lexeme)
        → Statement
    while_statement : (kw_while : Lexeme) (condition : Expression) (body : Block) → Statement
    return_statement : (kw_return : Lexeme) (value : Expression) (semicolon : Lexeme) → Statement
    expression_statement : (expression : Expression) (semicolon : Lexeme) → Statement

  pub data Statements : Type 0 where
    no_statements : Statements
    statement : Statement → Statements → Statements
