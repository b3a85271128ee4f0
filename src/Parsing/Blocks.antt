-- ===== src/Parsing/Blocks.antt =====
-- The rules of the parser (code/parsing/src/parser.cpp) with blocks, statements and functions, where the
-- parts are parsed.
use basedlang.Prelude.{ℕ, zero, suc, ◌≡◌, refl, ◌∙◌, Bool, true, false, arith, Option}
use basedlang.Lexing.Token.{Token, Lexeme}
use basedlang.Ast.{Expression, Optional, Block, ElseIfParts, ElsePart, Statement, Statements}
use basedlang.Parsing.Result.{Stream, next, ok, bind}
use basedlang.Parsing.Parser.{
  StatementKind, parse_expression, parse_block_statements, parse_block_statement_at,
  parse_statement_at,
}
use basedlang.Parsing.Grammar.{Has, IsExpression, IsBlock, IsElseIf, IsStatement}
use basedlang.Parsing.Onto.{
  onto_option, onto, onto_optional, onto_block, onto_else_if, onto_else, onto_statement,
  onto_statements,
}
use basedlang.Parsing.Longer.{
  onto_longer, onto_block_longer, onto_statement_longer, onto_option_longer,
}
use basedlang.Parsing.Heads.{Has-Closed}
use basedlang.Parsing.Rounds.{
  bind-ok, choose-true, choose-false, token_eq-true, expect-ok, next_is-false, next_is-option,
  expect_if-option, else_stop, block_round,
}
use basedlang.Parsing.Spines.{Any}
use basedlang.Parsing.Kinds.{
  kind_of, statement_start, expression-StartsWith, statement-StartsWith, block-Closed,
  block-StartsWith, brace_start,
}
use basedlang.Parsing.Parts.{token_false, BlockOk, BodyOk, ElseOk, StatementOk}

pub braces_ok :
    (lb : Lexeme) (ss : Statements) (tail : Optional) (rb : Lexeme)
    → Has lb Token.lbrace
    → Has rb Token.rbrace
    → BodyOk ss tail
    → BlockOk (Block.braces lb ss tail rb)
unfolding parse_expression onto
braces_ok lb ss tail rb h k body zero s fuel = absurd (omega arith)
braces_ok lb ss tail rb h k body (suc f) s fuel =
    bind-ok _ (expect-ok Token.lbrace lb (onto_statements ss (onto_optional tail (next rb s))) h) (
      bind-ok _ (body f rb s k (omega (arith, fuel)))
        (bind-ok _ (expect-ok Token.rbrace rb s k) refl))

pub no_statements-BodyOk : BodyOk Statements.no_statements Optional.absent
unfolding parse_expression onto
no_statements-BodyOk zero r s h fuel = absurd (omega arith)
no_statements-BodyOk (suc f) r s h fuel =
    choose-true _ _ _ (next r s) (token_eq-true Token.rbrace r h) refl

pub tail_ok :
    (e : Expression) → IsExpression e → Any e → BodyOk Statements.no_statements (Optional.present e)
unfolding parse_expression onto
tail_ok e is any zero r s h fuel = absurd (omega arith)
tail_ok e is any (suc zero) r s h fuel = absurd (omega arith)
tail_ok e is any (suc (suc f)) r s h fuel =
    let (start, kind) = expression-StartsWith e (next r s) is in
    block_round (suc f) statement_start StatementKind.expression_kind (onto e (next r s)) start refl
      kind
    ∙ bind-ok _
        (any f (next r s) (omega (arith, fuel)) (Has-Closed r s Token.rbrace h refl refl refl))
        (choose-false _ _ _ (next r s) (token_false r Token.rbrace Token.semicolon h refl) refl)

pub expression_statement-BodyOk :
    (e : Expression) (semicolon : Lexeme) (ss : Statements) (tail : Optional)
    → IsExpression e
    → Any e
    → Has semicolon Token.semicolon
    → BodyOk ss tail
    → BodyOk (Statements.statement (Statement.expression_statement e semicolon) ss) tail
unfolding parse_expression onto
expression_statement-BodyOk e semicolon ss tail is any k body zero r s h fuel = absurd (omega arith)
expression_statement-BodyOk e semicolon ss tail is any k body (suc zero) r s h fuel =
    absurd (omega arith)
expression_statement-BodyOk e semicolon ss tail is any k body (suc (suc f)) r s h fuel =
    let rest = onto_statements ss (onto_optional tail (next r s)) in
    let (start, kind) = expression-StartsWith e (next semicolon rest) is in
    block_round (suc f) statement_start StatementKind.expression_kind (onto e (next semicolon rest))
      start refl kind
    ∙ bind-ok _
        (any f (next semicolon rest) (omega (arith, fuel))
          (Has-Closed semicolon rest Token.semicolon k refl refl refl))
        (choose-true _ _ _ (next semicolon rest) (token_eq-true Token.semicolon semicolon k) (
          bind-ok _ (expect-ok Token.semicolon semicolon rest k) (
            bind-ok _ (body f r s h (omega (arith, fuel, onto_longer e (next semicolon rest))))
              refl)))

abbrev pub is_plain : StatementKind → Bool
is_plain StatementKind.expression_kind = false
is_plain _ = true

plain_round :
    (f : ℕ) (k : StatementKind) (s : Stream)
    → is_plain k ≡ true
    → parse_block_statement_at (suc f) k s
      ≡ bind (parse_statement_at f k s) (λ (st, s').
        bind
          (parse_block_statements f s')
          (λ (r, s''). ok ((Statements.statement st r.0, r.1), s'')))
unfolding parse_expression
plain_round f StatementKind.let_kind s h = refl
plain_round f StatementKind.return_kind s h = refl
plain_round f StatementKind.while_kind s h = refl
plain_round f StatementKind.expression_kind s h = absurd (cc h)

pub statement-BodyOk :
    (st : Statement) (ss : Statements) (tail : Optional)
    → IsStatement st
    → is_plain (kind_of st) ≡ true
    → StatementOk st
    → BodyOk ss tail
    → BodyOk (Statements.statement st ss) tail
unfolding parse_expression onto
statement-BodyOk st ss tail is plain one body zero r s h fuel = absurd (omega arith)
statement-BodyOk st ss tail is plain one body (suc zero) r s h fuel = absurd (omega arith)
statement-BodyOk st ss tail is plain one body (suc (suc f)) r s h fuel =
    let rest = onto_statements ss (onto_optional tail (next r s)) in
    let (start, kind) = statement-StartsWith st rest is in
    block_round (suc f) statement_start (kind_of st) (onto_statement st rest) start refl kind
    ∙ plain_round f (kind_of st) (onto_statement st rest) plain
    ∙ bind-ok _ (one f rest (omega (arith, fuel)))
        (bind-ok _ (body f r s h (omega (arith, fuel, onto_statement_longer st rest))) refl)

pub let_ok :
    (kw_let : Lexeme) (kw_mut : Option Lexeme) (name eq : Lexeme) (e : Expression)
    (semicolon : Lexeme)
    → IsStatement (Statement.let_statement kw_let kw_mut name eq e semicolon)
    → Any e
    → StatementOk (Statement.let_statement kw_let kw_mut name eq e semicolon)
unfolding parse_expression onto IsExpression
let_ok kw_let kw_mut name eq e semicolon h any zero s fuel = absurd (omega arith)
let_ok kw_let kw_mut name eq e semicolon h any (suc f) s fuel =
    let (h₁, h₂, h₃, h₄, h₅, h₆) = h in
    let s₃ = onto e (next semicolon s) in
    let s₂ = next eq s₃ in
    bind-ok _ (expect-ok Token.kw_let kw_let (onto_option kw_mut (next name s₂)) h₁) (
      bind-ok _
        (next_is-option Token.kw_mut kw_mut name s₂ h₂
          (token_false name Token.identifier Token.kw_mut h₃ refl))
        (bind-ok _ (expect_if-option Token.kw_mut kw_mut (next name s₂) h₂) (
          bind-ok _ (expect-ok Token.identifier name s₂ h₃) (
            bind-ok _ (expect-ok Token.eq eq s₃ h₄) (
              bind-ok _
                (any f (next semicolon s)
                  (omega (arith, fuel, onto_option_longer kw_mut (next name s₂)))
                  (Has-Closed semicolon s Token.semicolon h₆ refl refl refl))
                (bind-ok _ (expect-ok Token.semicolon semicolon s h₆) refl))))))

pub return_ok :
    (kw_return : Lexeme) (e : Expression) (semicolon : Lexeme)
    → IsStatement (Statement.return_statement kw_return e semicolon)
    → Any e
    → StatementOk (Statement.return_statement kw_return e semicolon)
unfolding parse_expression onto IsExpression
return_ok kw_return e semicolon h any zero s fuel = absurd (omega arith)
return_ok kw_return e semicolon (h₁, h₂, h₃) any (suc f) s fuel =
    bind-ok _ (expect-ok Token.kw_return kw_return (onto e (next semicolon s)) h₁) (
      bind-ok _
        (any f (next semicolon s) (omega (arith, fuel))
          (Has-Closed semicolon s Token.semicolon h₃ refl refl refl))
        (bind-ok _ (expect-ok Token.semicolon semicolon s h₃) refl))

pub while_ok :
    (kw_while : Lexeme) (e : Expression) (b : Block)
    → IsStatement (Statement.while_statement kw_while e b)
    → Any e
    → BlockOk b
    → StatementOk (Statement.while_statement kw_while e b)
unfolding parse_expression onto IsExpression
while_ok kw_while e b h any body zero s fuel = absurd (omega arith)
while_ok kw_while e b (h₁, h₂, h₃) any body (suc f) s fuel =
    bind-ok _ (expect-ok Token.kw_while kw_while (onto e (onto_block b s)) h₁) (
      bind-ok _ (any f (onto_block b s) (omega (arith, fuel)) (block-Closed b s h₃))
        (bind-ok _ (body f s (omega (arith, fuel, onto_longer e (onto_block b s)))) refl))

pub expression_statement_ok :
    (e : Expression) (semicolon : Lexeme)
    → IsStatement (Statement.expression_statement e semicolon)
    → Any e
    → StatementOk (Statement.expression_statement e semicolon)
unfolding parse_expression onto IsExpression
expression_statement_ok e semicolon h any zero s fuel = absurd (omega arith)
expression_statement_ok e semicolon (h₁, h₂) any (suc f) s fuel =
    bind-ok _
      (any f (next semicolon s) (omega (arith, fuel))
        (Has-Closed semicolon s Token.semicolon h₂ refl refl refl))
      (bind-ok _ (expect-ok Token.semicolon semicolon s h₂) refl)

pub no_else_ok : ElseOk ElseIfParts.no_else_if ElsePart.no_else
unfolding onto
no_else_ok zero s n fuel = absurd (omega arith)
no_else_ok (suc f) s n fuel = else_stop f s n

pub else_ok :
    (kw_else : Lexeme) (b : Block)
    → Has kw_else Token.kw_else
    → IsBlock b
    → BlockOk b
    → ElseOk ElseIfParts.no_else_if (ElsePart.else_part kw_else b)
unfolding parse_expression onto
else_ok kw_else b h is body zero s n fuel = absurd (omega arith)
else_ok kw_else b h is body (suc f) s n fuel =
    let rest = onto_block b s in
    choose-true _ _ _ (next kw_else rest) (token_eq-true Token.kw_else kw_else h) (
      bind-ok _ (expect-ok Token.kw_else kw_else rest h) (
        bind-ok _ (next_is-false brace_start Token.kw_if rest (block-StartsWith b s is) refl)
          (bind-ok _ (body f s (omega (arith, fuel))) refl)))

pub else_if_ok :
    (kw_else kw_if : Lexeme) (e : Expression) (b : Block) (parts : ElseIfParts) (last : ElsePart)
    → IsElseIf (ElseIfParts.else_if kw_else kw_if e b parts)
    → Any e
    → BlockOk b
    → ElseOk parts last
    → ElseOk (ElseIfParts.else_if kw_else kw_if e b parts) last
unfolding parse_expression onto IsExpression
else_if_ok kw_else kw_if e b parts last h any body more zero s n fuel = absurd (omega arith)
else_if_ok kw_else kw_if e b parts last (h₁, h₂, h₃, h₄, h₅) any body more (suc f) s n fuel =
    let s₄ = onto_else_if parts (onto_else last s) in
    let s₃ = onto_block b s₄ in
    let s₂ = onto e s₃ in
    choose-true _ _ _ (next kw_else (next kw_if s₂)) (token_eq-true Token.kw_else kw_else h₁) (
      bind-ok _ (expect-ok Token.kw_else kw_else (next kw_if s₂) h₁) (
        choose-true _ _ _ (next kw_if s₂) (token_eq-true Token.kw_if kw_if h₂) (
          bind-ok _ (expect-ok Token.kw_if kw_if s₂ h₂) (
            bind-ok _ (any f s₃ (omega (arith, fuel)) (block-Closed b s₄ h₄)) (
              bind-ok _ (body f s₄ (omega (arith, fuel, onto_longer e s₃))) (
                bind-ok _
                  (more f s n (omega (arith, fuel, onto_longer e s₃, onto_block_longer b s₄)))
                  refl))))))
