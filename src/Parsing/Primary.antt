-- ===== src/Parsing/Primary.antt =====
-- The rules of the parser (code/parsing/src/parser.cpp) for primary expressions, where the parts are
-- parsed.
use basedlang.Prelude.{zero, suc, refl, ◌∙◌, arith, Option, List}
use basedlang.Lexing.Token.{Token, Lexeme}
use basedlang.Ast.{Expression, Parameters, Block, ElseIfParts, ElsePart}
use basedlang.Parsing.Result.{next}
use basedlang.Parsing.Parser.{parse_expression}
use basedlang.Parsing.Grammar.{Has, IsExpression}
use basedlang.Parsing.Onto.{
  onto_option, onto, onto_optional, onto_parameters, onto_block, onto_else_if, onto_else,
  onto_statements,
}
use basedlang.Parsing.Longer.{
  onto_longer, onto_block_longer, onto_option_longer, onto_parameters_longer,
}
use basedlang.Parsing.Heads.{Has-Closed}
use basedlang.Parsing.Rounds.{bind-ok, expect-ok, primary_round, next_is-option, expect_if-option}
use basedlang.Parsing.Spines.{Any, Atom}
use basedlang.Parsing.Kinds.{block-Closed}
use basedlang.Parsing.Parts.{token_false, ParametersOk, BlockOk, ElseOk}

-- The primary expressions of one lexeme.
module _ (l : Lexeme) where
  pub int_ok : Has l Token.int_literal → Atom (Expression.int_literal l)
  unfolding parse_expression onto
  int_ok h f s fuel c n =
      primary_round (suc f) l s Token.int_literal h
      ∙ bind-ok _ (expect-ok Token.int_literal l s h) refl

  pub float_ok : Has l Token.float_literal → Atom (Expression.float_literal l)
  unfolding parse_expression onto
  float_ok h f s fuel c n =
      primary_round (suc f) l s Token.float_literal h
      ∙ bind-ok _ (expect-ok Token.float_literal l s h) refl

  pub identifier_ok : Has l Token.identifier → Atom (Expression.identifier l)
  unfolding parse_expression onto
  identifier_ok h f s fuel c n =
      primary_round (suc f) l s Token.identifier h
      ∙ bind-ok _ (expect-ok Token.identifier l s h) refl

  pub recurse_ok : Has l Token.kw_recurse → Atom (Expression.recurse l)
  unfolding parse_expression onto
  recurse_ok h f s fuel c n = primary_round (suc f) l s Token.kw_recurse h

pub fn_ok :
    (kw_fn : Lexeme) (name : Option Lexeme) (lparen : Lexeme) (ps : Parameters)
    (commas : List Lexeme) (rparen colon : Lexeme) (type : Expression) (arrow : Lexeme)
    (body : Expression)
    → IsExpression (Expression.fn kw_fn name lparen ps commas rparen colon type arrow body)
    → ParametersOk ps commas
    → Any type
    → Any body
    → Atom (Expression.fn kw_fn name lparen ps commas rparen colon type arrow body)
unfolding parse_expression onto IsExpression
fn_ok kw_fn name lparen ps commas rparen colon type arrow body h more any last zero s fuel c n =
    absurd (omega arith)
fn_ok kw_fn name lparen ps commas rparen colon type arrow body h more any last (suc f) s fuel c n =
    let (h₁, h₂, h₃, h₄, h₅, h₆, h₇, h₈, h₉) = h in
    let s₆ = onto body s in
    let s₅ = onto type (next arrow s₆) in
    let s₄ = next colon s₅ in
    let s₃ = onto_parameters ps commas (next rparen s₄) in
    let s₂ = onto_option name (next lparen s₃) in
    let size₂ = onto_option_longer name (next lparen s₃) in
    let size₃ = onto_parameters_longer ps commas (next rparen s₄) in
    primary_round (suc (suc f)) kw_fn s₂ Token.kw_fn h₁
    ∙ bind-ok _ (expect-ok Token.kw_fn kw_fn s₂ h₁) (
        bind-ok _
          (next_is-option Token.identifier name lparen s₃ h₂
            (token_false lparen Token.lparen Token.identifier h₃ refl))
          (bind-ok _ (expect_if-option Token.identifier name (next lparen s₃) h₂) (
            bind-ok _ (expect-ok Token.lparen lparen s₃ h₃) (
              bind-ok _ (more f rparen s₄ h₅ (omega (arith, fuel, size₂))) (
                bind-ok _ (expect-ok Token.rparen rparen s₄ h₅) (
                  bind-ok _ (expect-ok Token.colon colon s₅ h₆) (
                    bind-ok _
                      (any f (next arrow s₆) (omega (arith, fuel, size₂, size₃))
                        (Has-Closed arrow s₆ Token.fat_arrow h₈ refl refl refl))
                      (bind-ok _ (expect-ok Token.fat_arrow arrow s₆ h₈) (
                        bind-ok _
                          (last f s
                            (omega (arith, fuel, size₂, size₃, onto_longer type (next arrow s₆)))
                            ((c refl).0, (c refl).1, n))
                          refl)))))))))

pub paren_ok :
    (lparen : Lexeme) (e : Expression) (rparen : Lexeme)
    → IsExpression (Expression.paren lparen e rparen)
    → Any e
    → Atom (Expression.paren lparen e rparen)
unfolding parse_expression onto IsExpression
paren_ok lparen e rparen (h₁, h₂, h₃) any f s fuel c n =
    primary_round (suc f) lparen (onto e (next rparen s)) Token.lparen h₁
    ∙ bind-ok _ (expect-ok Token.lparen lparen (onto e (next rparen s)) h₁) (
        bind-ok _
          (any f (next rparen s) (omega (arith, fuel))
            (Has-Closed rparen s Token.rparen h₃ refl refl refl))
          (bind-ok _ (expect-ok Token.rparen rparen s h₃) refl))

pub block_ok :
    (b : Block) → IsExpression (Expression.block b) → BlockOk b → Atom (Expression.block b)
unfolding parse_expression onto IsExpression
block_ok (Block.braces lbrace ss tail rbrace) h body f s fuel c n =
    primary_round (suc f) lbrace (onto_statements ss (onto_optional tail (next rbrace s)))
      Token.lbrace h.0
    ∙ bind-ok _ (body f s (omega (arith, fuel))) refl

pub if_ok :
    (kw_if : Lexeme) (e : Expression) (b : Block) (parts : ElseIfParts) (last : ElsePart)
    → IsExpression (Expression.if_expression kw_if e b parts last)
    → Any e
    → BlockOk b
    → ElseOk parts last
    → Atom (Expression.if_expression kw_if e b parts last)
unfolding parse_expression onto IsExpression
if_ok kw_if e b parts last h any body more zero s fuel c n = absurd (omega arith)
if_ok kw_if e b parts last (h₁, h₂, h₃, h₄, h₅) any body more (suc f) s fuel c n =
    let s₃ = onto_else_if parts (onto_else last s) in
    let s₂ = onto_block b s₃ in
    primary_round (suc (suc f)) kw_if (onto e s₂) Token.kw_if h₁
    ∙ bind-ok _ (expect-ok Token.kw_if kw_if (onto e s₂) h₁) (
        bind-ok _ (any f s₂ (omega (arith, fuel)) (block-Closed b s₃ h₃)) (
          bind-ok _ (body f s₃ (omega (arith, fuel, onto_longer e s₂))) (
            bind-ok _ (more f s n (omega (arith, fuel, onto_longer e s₂, onto_block_longer b s₃)))
              refl)))
