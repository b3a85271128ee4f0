-- ===== src/Parsing/Parts.antt =====
-- Each rule of the parser (code/parsing/src/parser.cpp) on the lexemes of its parts, where the parts are
-- parsed.
use basedlang.Prelude.{
  ℕ, zero, suc, ◌+◌, ◌*◌, ◌<◌, ◌≡◌, refl, ap, ◌∙◌, Bool, true, false, arith, Option, none, some,
  List, [], ◌∷◌,
}
use basedlang.Lexing.Token.{Token, Lexeme, token_eq}
use basedlang.Ast.{
  Expression, Optional, Arguments, Parameters, Block, ElseIfParts, ElsePart, Statement, Statements,
}
use basedlang.Parsing.Result.{Stream, next, ok, remaining}
use basedlang.Parsing.Parser.{
  parse_expression, parse_arguments, parse_parameters, parse_else, parse_block_expression,
  parse_block_statements, parse_statement_at,
}
use basedlang.Parsing.Grammar.{Has, HasOption, Parameter, IsExpression}
use basedlang.Parsing.Onto.{
  onto_option, onto, onto_optional, onto_arguments, onto_parameters, onto_block, onto_else_if,
  onto_else, onto_statement, onto_statements,
}
use basedlang.Parsing.Longer.{onto_longer, onto_option_longer}
use basedlang.Parsing.Heads.{expression_start, StartsWith, onto_starts, NoElse, Has-Closed}
use basedlang.Parsing.Rounds.{
  bind-ok, choose-true, choose-false, token_eq-true, expect-ok, next_is-false, next_is-option,
  expect_if-option,
}
use basedlang.Parsing.Spines.{Any}
use basedlang.Parsing.Kinds.{kind_of}

pub token_false :
    (l : Lexeme) (t u : Token) → Has l t → token_eq t u ≡ false → token_eq (l.token) u ≡ false
token_false l t u h q = ap (λ x. token_eq x u) h ∙ q

abbrev pub ArgumentsOk : Arguments → List Lexeme → Type 0
ArgumentsOk es commas =
    (f : ℕ) (r : Lexeme) (s : Stream)
    → Has r Token.rparen
    → 20 * remaining (onto_arguments es commas (next r s)) + 8 < f
    → parse_arguments f (onto_arguments es commas (next r s)) ≡ ok ((es, commas), next r s)

abbrev pub ParametersOk : Parameters → List Lexeme → Type 0
ParametersOk ps commas =
    (f : ℕ) (r : Lexeme) (s : Stream)
    → Has r Token.rparen
    → 20 * remaining (onto_parameters ps commas (next r s)) + 8 < f
    → parse_parameters f (onto_parameters ps commas (next r s)) ≡ ok ((ps, commas), next r s)

abbrev pub BlockOk : Block → Type 0
BlockOk b =
    (f : ℕ) (s : Stream)
    → 20 * remaining (onto_block b s) + 1 < f
    → parse_block_expression f (onto_block b s) ≡ ok (b, s)

abbrev pub BodyOk : Statements → Optional → Type 0
BodyOk ss tail =
    (f : ℕ) (r : Lexeme) (s : Stream)
    → Has r Token.rbrace
    → 20 * remaining (onto_statements ss (onto_optional tail (next r s))) + 9 < f
    → parse_block_statements f (onto_statements ss (onto_optional tail (next r s)))
      ≡ ok ((ss, tail), next r s)

abbrev pub ElseOk : ElseIfParts → ElsePart → Type 0
ElseOk parts last =
    (f : ℕ) (s : Stream)
    → NoElse s
    → 20 * remaining (onto_else_if parts (onto_else last s)) + 5 < f
    → parse_else f (onto_else_if parts (onto_else last s)) ≡ ok ((parts, last), s)

abbrev pub StatementOk : Statement → Type 0
StatementOk st =
    (f : ℕ) (s : Stream)
    → 20 * remaining (onto_statement st s) + 7 < f
    → parse_statement_at f (kind_of st) (onto_statement st s) ≡ ok (st, s)

pub no_arguments_ok : ArgumentsOk Arguments.no_arguments []
unfolding parse_expression onto
no_arguments_ok zero r s h fuel = absurd (omega arith)
no_arguments_ok (suc f) r s h fuel =
    choose-true _ _ _ (next r s) (token_eq-true Token.rparen r h) refl

pub last_argument_ok :
    (e : Expression)
    → IsExpression e
    → Any e
    → ArgumentsOk (Arguments.argument e Arguments.no_arguments) []
unfolding parse_expression onto
last_argument_ok e is any zero r s h fuel = absurd (omega arith)
last_argument_ok e is any (suc f) r s h fuel =
    bind-ok _
      (next_is-false expression_start Token.rparen (onto e (next r s)) (onto_starts e (next r s) is)
        refl)
      (bind-ok _
        (any f (next r s) (omega (arith, fuel)) (Has-Closed r s Token.rparen h refl refl refl))
        (choose-false _ _ _ (next r s) (token_false r Token.rparen Token.comma h refl) refl))

pub argument_ok :
    (e : Expression) (es : Arguments) (c : Lexeme) (commas : List Lexeme)
    → IsExpression e
    → Any e
    → Has c Token.comma
    → ArgumentsOk es commas
    → ArgumentsOk (Arguments.argument e es) (c ∷ commas)
unfolding parse_expression onto
argument_ok e es c commas is any k more zero r s h fuel = absurd (omega arith)
argument_ok e es c commas is any k more (suc f) r s h fuel =
    let rest = onto_arguments es commas (next r s) in
    bind-ok _
      (next_is-false expression_start Token.rparen (onto e (next c rest))
        (onto_starts e (next c rest) is) refl)
      (bind-ok _
        (any f (next c rest) (omega (arith, fuel)) (Has-Closed c rest Token.comma k refl refl refl))
        (choose-true _ _ _ (next c rest) (token_eq-true Token.comma c k) (
          bind-ok _ (expect-ok Token.comma c rest k)
            (bind-ok _ (more f r s h (omega (arith, fuel, onto_longer e (next c rest)))) refl))))

abbrev parameter_start : Token → Bool
parameter_start Token.kw_mut = true
parameter_start Token.identifier = true
parameter_start _ = false

option_starts :
    (o : Option Lexeme) (name : Lexeme) (s : Stream)
    → HasOption o Token.kw_mut
    → Has name Token.identifier
    → StartsWith parameter_start (onto_option o (next name s))
option_starts none name s h k = ap parameter_start k
option_starts (some l) name s h k = ap parameter_start h

pub no_parameters_ok : ParametersOk Parameters.no_parameters []
unfolding parse_expression onto
no_parameters_ok zero r s h fuel = absurd (omega arith)
no_parameters_ok (suc f) r s h fuel =
    choose-true _ _ _ (next r s) (token_eq-true Token.rparen r h) refl

module _ (kw_mut : Option Lexeme) (name colon : Lexeme) (type : Expression)
    (is : Parameter kw_mut name colon (IsExpression type)) (any : Any type) where
  pub last_parameter_ok :
      ParametersOk (Parameters.parameter kw_mut name colon type Parameters.no_parameters) []
  unfolding parse_expression onto
  last_parameter_ok zero r s h fuel = absurd (omega arith)
  last_parameter_ok (suc f) r s h fuel =
      let (h₁, h₂, h₃, h₄) = is in
      let s₃ = onto type (next r s) in
      let s₂ = next colon s₃ in
      bind-ok _
        (next_is-false parameter_start Token.rparen (onto_option kw_mut (next name s₂))
          (option_starts kw_mut name s₂ h₁ h₂) refl)
        (bind-ok _
          (next_is-option Token.kw_mut kw_mut name s₂ h₁
            (token_false name Token.identifier Token.kw_mut h₂ refl))
          (bind-ok _ (expect_if-option Token.kw_mut kw_mut (next name s₂) h₁) (
            bind-ok _ (expect-ok Token.identifier name s₂ h₂) (
              bind-ok _ (expect-ok Token.colon colon s₃ h₃) (
                bind-ok _
                  (any f (next r s) (omega (arith, fuel, onto_option_longer kw_mut (next name s₂)))
                    (Has-Closed r s Token.rparen h refl refl refl))
                  (choose-false _ _ _ (next r s) (token_false r Token.rparen Token.comma h refl)
                    refl))))))

  pub parameter_ok :
      (ps : Parameters) (c : Lexeme) (commas : List Lexeme)
      → Has c Token.comma
      → ParametersOk ps commas
      → ParametersOk (Parameters.parameter kw_mut name colon type ps) (c ∷ commas)
  unfolding parse_expression onto
  parameter_ok ps c commas k more zero r s h fuel = absurd (omega arith)
  parameter_ok ps c commas k more (suc f) r s h fuel =
      let (h₁, h₂, h₃, h₄) = is in
      let rest = onto_parameters ps commas (next r s) in
      let s₃ = onto type (next c rest) in
      let s₂ = next colon s₃ in
      bind-ok _
        (next_is-false parameter_start Token.rparen (onto_option kw_mut (next name s₂))
          (option_starts kw_mut name s₂ h₁ h₂) refl)
        (bind-ok _
          (next_is-option Token.kw_mut kw_mut name s₂ h₁
            (token_false name Token.identifier Token.kw_mut h₂ refl))
          (bind-ok _ (expect_if-option Token.kw_mut kw_mut (next name s₂) h₁) (
            bind-ok _ (expect-ok Token.identifier name s₂ h₂) (
              bind-ok _ (expect-ok Token.colon colon s₃ h₃) (
                bind-ok _
                  (any f (next c rest)
                    (omega (arith, fuel, onto_option_longer kw_mut (next name s₂)))
                    (Has-Closed c rest Token.comma k refl refl refl))
                  (choose-true _ _ _ (next c rest) (token_eq-true Token.comma c k) (
                    bind-ok _ (expect-ok Token.comma c rest k) (
                      bind-ok _
                        (more f r s h (
                          omega (
                            arith,
                            fuel,
                            onto_longer type (next c rest),
                            onto_option_longer kw_mut (next name s₂),
                          )))
                        refl))))))))
