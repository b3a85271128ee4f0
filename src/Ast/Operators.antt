-- ===== src/Ast/Operators.antt =====
-- Operators, their precedence and their tokens (code/ast/src/operator.cpp).
use basedlang.Prelude.{ℕ, Option, some, none, ◌==◌, if◌then◌else◌}
use basedlang.Lexing.Token.{Token}

pub data Operator : Type 0 where
  call index dereference address_of address_of_mut pointer_to pointer_to_mut : Operator
  unary_plus unary_minus multiply divide modulo add subtract : Operator
  less less_eq greater greater_eq equal not_equal assign : Operator

pub data OperatorAssociativity : Type 0 where
  left right : OperatorAssociativity

abbrev pub get_operator_precedence : Operator → ℕ
get_operator_precedence Operator.call = 0
get_operator_precedence Operator.index = 0
get_operator_precedence Operator.dereference = 0
get_operator_precedence Operator.address_of = 1
get_operator_precedence Operator.address_of_mut = 1
get_operator_precedence Operator.pointer_to = 1
get_operator_precedence Operator.pointer_to_mut = 1
get_operator_precedence Operator.unary_plus = 1
get_operator_precedence Operator.unary_minus = 1
get_operator_precedence Operator.multiply = 2
get_operator_precedence Operator.divide = 2
get_operator_precedence Operator.modulo = 2
get_operator_precedence Operator.add = 3
get_operator_precedence Operator.subtract = 3
get_operator_precedence Operator.less = 4
get_operator_precedence Operator.less_eq = 4
get_operator_precedence Operator.greater = 4
get_operator_precedence Operator.greater_eq = 4
get_operator_precedence Operator.equal = 5
get_operator_precedence Operator.not_equal = 5
get_operator_precedence Operator.assign = 6

abbrev pub get_precedence_associativity : ℕ → OperatorAssociativity
get_precedence_associativity precedence =
    if precedence == 6 then OperatorAssociativity.right else OperatorAssociativity.left

abbrev pub get_prefix_operator : Token → Option Operator
get_prefix_operator Token.ampersand = some Operator.address_of
get_prefix_operator Token.ampersand_mut = some Operator.address_of_mut
get_prefix_operator Token.caret = some Operator.pointer_to
get_prefix_operator Token.caret_mut = some Operator.pointer_to_mut
get_prefix_operator Token.plus = some Operator.unary_plus
get_prefix_operator Token.minus = some Operator.unary_minus
get_prefix_operator _ = none

abbrev pub get_postfix_operator : Token → Option Operator
get_postfix_operator Token.lparen = some Operator.call
get_postfix_operator Token.lbracket = some Operator.index
get_postfix_operator Token.caret = some Operator.dereference
get_postfix_operator _ = none

abbrev pub get_binary_operator : Token → Option Operator
get_binary_operator Token.star = some Operator.multiply
get_binary_operator Token.slash = some Operator.divide
get_binary_operator Token.percent = some Operator.modulo
get_binary_operator Token.plus = some Operator.add
get_binary_operator Token.minus = some Operator.subtract
get_binary_operator Token.lt = some Operator.less
get_binary_operator Token.le = some Operator.less_eq
get_binary_operator Token.gt = some Operator.greater
get_binary_operator Token.ge = some Operator.greater_eq
get_binary_operator Token.eq_eq = some Operator.equal
get_binary_operator Token.bang_eq = some Operator.not_equal
get_binary_operator Token.eq = some Operator.assign
get_binary_operator _ = none
