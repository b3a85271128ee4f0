-- ===== src/Tests/Parsing.antt =====
-- The parser at concrete inputs.
use basedlang.Prelude.{◌↔◌, ℕ, ◌≡◌, refl, [], ◌∷◌}
use basedlang.Lexing.Token.{Token, Lexeme, Span}
use basedlang.Ast.{Expression, Arguments, Statement, Statements}
use basedlang.Ast.Lexemes.{lexemes_statement}
use basedlang.Ast.Spans.{Covers, span_of_statement, span_of_statement-Covers}
use basedlang.Parsing.Result.{Stream, at_eof, ok, unexpected, give}
use basedlang.Parsing.Parser.{
  parse_expression, parse_statement, parse_statements, parse_translation_unit,
}
use basedlang.Parsing.Result.{Ensures}
use basedlang.Parsing.Exact.{parse_translation_unit_iff}
use basedlang.Parsing.Unit.{ReadsAll, parse_translation_unit-Reads}

abbrev on_column : ℕ → Span
on_column n = record {
  start = record { line = 1; column = n };
  end = record { line = 1; column = n };
}

abbrev lexeme : Token → ℕ → Lexeme
lexeme t n = record { token = t; text = []; span = on_column n }

abbrev word : ℕ → Expression
word n = Expression.identifier (lexeme Token.identifier n)

-- `a + b * c - d;`
abbrev sum_of_product : Stream
sum_of_product =
    give
      (lexeme Token.identifier 1
        ∷ lexeme Token.plus 2
        ∷ lexeme Token.identifier 3
        ∷ lexeme Token.star 4
        ∷ lexeme Token.identifier 5
        ∷ lexeme Token.minus 6
        ∷ lexeme Token.identifier 7
        ∷ lexeme Token.semicolon 8
        ∷ [])
      (at_eof (on_column 9))

-- `(a + (b * c)) - d;`
abbrev sum_of_product_tree : Statement
sum_of_product_tree =
    Statement.expression_statement
      (Expression.binary
        (Expression.binary (word 1) (lexeme Token.plus 2)
          (Expression.binary (word 3) (lexeme Token.star 4) (word 5)))
        (lexeme Token.minus 6) (word 7))
      (lexeme Token.semicolon 8)

product_first :
    parse_translation_unit sum_of_product
    ≡ ok (Statements.statement sum_of_product_tree Statements.no_statements, at_eof (on_column 9))
unfolding parse_translation_unit parse_statements parse_statement parse_expression
product_first = refl

-- `a = b = &f(c);` is `a = (b = (&(f(c))));`.
assignment_from_the_right :
    parse_translation_unit (
      give
        (lexeme Token.identifier 1
          ∷ lexeme Token.eq 2
          ∷ lexeme Token.identifier 3
          ∷ lexeme Token.eq 4
          ∷ lexeme Token.ampersand 5
          ∷ lexeme Token.identifier 6
          ∷ lexeme Token.lparen 7
          ∷ lexeme Token.identifier 8
          ∷ lexeme Token.rparen 9
          ∷ lexeme Token.semicolon 10
          ∷ [])
        (at_eof (on_column 11)))
    ≡ ok (
      Statements.statement
          (Statement.expression_statement
            (Expression.binary (word 1) (lexeme Token.eq 2) (
              Expression.binary (word 3) (lexeme Token.eq 4) (
                Expression.prefix (lexeme Token.ampersand 5) (
                  Expression.call
                    (word 6)
                    (lexeme Token.lparen 7)
                    (Arguments.argument (word 8) Arguments.no_arguments)
                    []
                    (lexeme Token.rparen 9)))))
            (lexeme Token.semicolon 10))
          Statements.no_statements,
      at_eof (on_column 11),
    )
unfolding parse_translation_unit parse_statements parse_statement parse_expression
assignment_from_the_right = refl

-- `a b` is an error at `b`.
missing_semicolon :
    parse_translation_unit
      (give (lexeme Token.identifier 1 ∷ lexeme Token.identifier 2 ∷ []) (at_eof (on_column 3)))
    ≡ unexpected (lexeme Token.identifier 2)
unfolding parse_translation_unit parse_statements parse_statement parse_expression
missing_semicolon = refl

parse_translation_unit-Reads_example :
    Ensures (ReadsAll sum_of_product) (parse_translation_unit sum_of_product)
parse_translation_unit-Reads_example = parse_translation_unit-Reads sum_of_product

span_of_statement-Covers_example :
    Covers (lexemes_statement sum_of_product_tree) (span_of_statement sum_of_product_tree)
span_of_statement-Covers_example = span_of_statement-Covers sum_of_product_tree

abbrev sum_of_product_unit : Statements × Stream
sum_of_product_unit =
    (Statements.statement sum_of_product_tree Statements.no_statements, at_eof (on_column 9))

parse_translation_unit_iff_example :
    (parse_translation_unit sum_of_product ≡ ok sum_of_product_unit)
    ↔ ReadsAll sum_of_product sum_of_product_unit
parse_translation_unit_iff_example =
    parse_translation_unit_iff sum_of_product
      (Statements.statement sum_of_product_tree Statements.no_statements) (at_eof (on_column 9))

-- and the left side holds there
sum_of_product-ReadsAll : ReadsAll sum_of_product sum_of_product_unit
sum_of_product-ReadsAll = parse_translation_unit_iff_example.0 product_first
