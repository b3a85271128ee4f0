-- ===== src/Ast/Spans.antt =====
-- The source span of a tree (code/ast/src/source_span.cpp), against the lexemes of the tree.
use basedlang.Prelude.{append-nil, ap, ◌≡◌, refl, ap, ◌∙◌, Option, some, none, List, [], ◌∷◌, ◌++◌}
use basedlang.Lexing.Token.{Lexeme, Location, Span, hull}
use basedlang.Ast.{Expression, Block, ElseIfParts, ElsePart, Statement}
use basedlang.Ast.Lexemes.{
  of_option, lexemes, lexemes_block, lexemes_parameters, lexemes_arguments, lexemes_optional,
  lexemes_else_if, lexemes_else, lexemes_statement, lexemes_statements,
}

abbrev rbrace_span : Block → Span
rbrace_span (Block.braces lbrace ss tail rbrace) = rbrace.span

abbrev lbrace_span : Block → Span
lbrace_span (Block.braces lbrace ss tail rbrace) = lbrace.span

-- `end_span` of an if expression
abbrev end_span : Block → ElseIfParts → ElsePart → Span
end_span then_block parts (ElsePart.else_part kw_else body) = rbrace_span body
end_span then_block ElseIfParts.no_else_if ElsePart.no_else = rbrace_span then_block
end_span then_block (ElseIfParts.else_if kw_else kw_if condition body parts) ElsePart.no_else =
    end_span body parts ElsePart.no_else

unfoldable pub span_of : Expression → Span
span_of (Expression.int_literal l) = l.span
span_of (Expression.float_literal l) = l.span
span_of (Expression.identifier l) = l.span
span_of (Expression.recurse l) = l.span
span_of (Expression.fn kw_fn name lparen ps commas rparen colon type arrow body) =
    hull (kw_fn.span) (span_of body)
span_of (Expression.paren lparen inner rparen) = hull (lparen.span) (rparen.span)
span_of (Expression.prefix op operand) = hull (op.span) (span_of operand)
span_of (Expression.postfix operand op) = hull (span_of operand) (op.span)
span_of (Expression.binary left op right) = hull (span_of left) (span_of right)
span_of (Expression.call callee lparen es commas rparen) = hull (span_of callee) (rparen.span)
span_of (Expression.index operand lbracket subscript rbracket) =
    hull (span_of operand) (rbracket.span)
span_of (Expression.prefix_bracket lbracket size rbracket operand) =
    hull (lbracket.span) (span_of operand)
span_of (Expression.block b) = hull (lbrace_span b) (rbrace_span b)
span_of (Expression.if_expression kw_if condition then_block parts last) =
    hull (kw_if.span) (end_span then_block parts last)

unfoldable pub span_of_statement : Statement → Span
unfolding span_of
span_of_statement (Statement.let_statement kw_let kw_mut name eq initializer semicolon) =
    hull (kw_let.span) (semicolon.span)
span_of_statement (Statement.while_statement kw_while condition body) =
    hull (kw_while.span) (rbrace_span body)
span_of_statement (Statement.return_statement kw_return value semicolon) =
    hull (kw_return.span) (semicolon.span)
span_of_statement (Statement.expression_statement expression semicolon) =
    hull (span_of expression) (semicolon.span)

-- Where the first lexeme of a list starts, and where the last one ends.
abbrev pub first_start : List Lexeme → Option Location
first_start [] = none
first_start (l ∷ ls) = some (l.span.start)

abbrev pub last_end : List Lexeme → Option Location
last_end [] = none
last_end (l ∷ []) = some (l.span.end)
last_end (l ∷ l' ∷ ls) = last_end (l' ∷ ls)

-- From the first character of the first lexeme to the last character of the last one.
abbrev pub Covers : List Lexeme → Span → Type 0
Covers ls span = (first_start ls ≡ some (span.start)) × (last_end ls ≡ some (span.end))

first_start-append :
    (xs ys : List Lexeme) (p : Location) → first_start xs ≡ some p → first_start (xs ++ ys) ≡ some p
first_start-append [] ys p h = absurd (cc h)
first_start-append (x ∷ xs) ys p h = h

last_end-cons :
    (x : Lexeme) (ys : List Lexeme) (p : Location)
    → last_end ys ≡ some p
    → last_end (x ∷ ys) ≡ some p
last_end-cons x [] p h = absurd (cc h)
last_end-cons x (y ∷ ys) p h = h

last_end-append :
    (xs ys : List Lexeme) (p : Location) → last_end ys ≡ some p → last_end (xs ++ ys) ≡ some p
last_end-append [] ys p h = h
last_end-append (x ∷ xs) ys p h = last_end-cons x (xs ++ ys) p (last_end-append xs ys p h)

last_end-last : (xs : List Lexeme) (l : Lexeme) → last_end (xs ++ l ∷ []) ≡ some (l.span.end)
last_end-last xs l = last_end-append xs (l ∷ []) (l.span.end) refl

block-Covers : (b : Block) → Covers (lexemes_block b) (hull (lbrace_span b) (rbrace_span b))
unfolding lexemes
block-Covers (Block.braces lbrace ss tail rbrace) = (
  refl,
  last_end-cons lbrace (lexemes_statements ss ++ (lexemes_optional tail ++ rbrace ∷ []))
      (rbrace.span.end)
      (last_end-append (lexemes_statements ss) (lexemes_optional tail ++ rbrace ∷ [])
        (rbrace.span.end) (last_end-last (lexemes_optional tail) rbrace)),
)

block-end : (b : Block) → last_end (lexemes_block b) ≡ some ((rbrace_span b).end)
unfolding lexemes
block-end (Block.braces lbrace ss tail rbrace) =
    (block-Covers (Block.braces lbrace ss tail rbrace)).1

-- The last brace of an if expression without `else`.
else_if-end :
    (b : Block) (parts : ElseIfParts)
    → last_end (lexemes_block b ++ lexemes_else_if parts)
      ≡ some ((end_span b parts ElsePart.no_else).end)
unfolding lexemes
else_if-end b ElseIfParts.no_else_if = ap last_end (append-nil (lexemes_block b)) ∙ block-end b
else_if-end b (ElseIfParts.else_if kw_else kw_if condition body parts) =
    let p = (end_span body parts ElsePart.no_else).end in
    let rest = lexemes condition ++ (lexemes_block body ++ lexemes_else_if parts) in
    last_end-append (lexemes_block b) (kw_else ∷ kw_if ∷ rest) p (
      last_end-cons kw_if rest p (
        last_end-append (lexemes condition) (lexemes_block body ++ lexemes_else_if parts) p
          (else_if-end body parts)))

else-end :
    (b : Block) (parts : ElseIfParts) (last : ElsePart)
    → last_end (lexemes_block b ++ (lexemes_else_if parts ++ lexemes_else last))
      ≡ some ((end_span b parts last).end)
unfolding lexemes
else-end b parts ElsePart.no_else =
    ap (λ ls. last_end (lexemes_block b ++ ls)) (append-nil (lexemes_else_if parts))
    ∙ else_if-end b parts
else-end b parts (ElsePart.else_part kw_else body) =
    let p = (rbrace_span body).end in
    last_end-append (lexemes_block b) (lexemes_else_if parts ++ kw_else ∷ lexemes_block body) p (
      last_end-append (lexemes_else_if parts) (kw_else ∷ lexemes_block body) p
        (last_end-cons kw_else (lexemes_block body) p (block-end body)))

-- A list that starts with a lexeme, or with what covers a span.
cons-Covers :
    (l : Lexeme) (ys : List Lexeme) (span : Span)
    → last_end ys ≡ some (span.end)
    → Covers (l ∷ ys) (hull (l.span) span)
cons-Covers l ys span h = (refl, last_end-cons l ys (span.end) h)

append-Covers :
    (xs ys : List Lexeme) (span span' : Span)
    → Covers xs span
    → last_end ys ≡ some (span'.end)
    → Covers (xs ++ ys) (hull span span')
append-Covers xs ys span span' (s, e) h =
    (first_start-append xs ys (span.start) s, last_end-append xs ys (span'.end) h)

-- The span of an expression goes from the first character of its leftmost lexeme to the last
-- character of its rightmost one.
pub span_of-Covers : (e : Expression) → Covers (lexemes e) (span_of e)
unfolding span_of lexemes
span_of-Covers (Expression.int_literal l) = (refl, refl)
span_of-Covers (Expression.float_literal l) = (refl, refl)
span_of-Covers (Expression.identifier l) = (refl, refl)
span_of-Covers (Expression.recurse l) = (refl, refl)
span_of-Covers (Expression.fn kw_fn name lparen ps commas rparen colon type arrow body) =
    let p = (span_of body).end in
    let typed = lexemes type ++ arrow ∷ lexemes body in
    let rest = lexemes_parameters ps commas ++ rparen ∷ colon ∷ typed in
    cons-Covers kw_fn (of_option name ++ lparen ∷ rest) (span_of body) (
      last_end-append (of_option name) (lparen ∷ rest) p (
        last_end-cons lparen rest p (
          last_end-append (lexemes_parameters ps commas) (rparen ∷ colon ∷ typed) p (
            last_end-cons colon typed p (
              last_end-append (lexemes type) (arrow ∷ lexemes body) p
                (last_end-cons arrow (lexemes body) p (span_of-Covers body).1))))))
span_of-Covers (Expression.paren lparen inner rparen) =
    cons-Covers lparen (lexemes inner ++ rparen ∷ []) (rparen.span)
      (last_end-last (lexemes inner) rparen)
span_of-Covers (Expression.prefix op operand) =
    cons-Covers op (lexemes operand) (span_of operand) (span_of-Covers operand).1
span_of-Covers (Expression.postfix operand op) =
    append-Covers (lexemes operand) (op ∷ []) (span_of operand) (op.span) (span_of-Covers operand)
      refl
span_of-Covers (Expression.binary left op right) =
    append-Covers (lexemes left) (op ∷ lexemes right) (span_of left) (span_of right)
      (span_of-Covers left)
      (last_end-cons op (lexemes right) ((span_of right).end) (span_of-Covers right).1)
span_of-Covers (Expression.call callee lparen es commas rparen) =
    append-Covers (lexemes callee) (lparen ∷ (lexemes_arguments es commas ++ rparen ∷ []))
      (span_of callee) (rparen.span) (span_of-Covers callee)
      (last_end-last (lparen ∷ lexemes_arguments es commas) rparen)
span_of-Covers (Expression.index operand lbracket subscript rbracket) =
    append-Covers (lexemes operand) (lbracket ∷ (lexemes subscript ++ rbracket ∷ []))
      (span_of operand) (rbracket.span) (span_of-Covers operand)
      (last_end-last (lbracket ∷ lexemes subscript) rbracket)
span_of-Covers (Expression.prefix_bracket lbracket size rbracket operand) =
    let p = (span_of operand).end in
    cons-Covers lbracket (lexemes_optional size ++ rbracket ∷ lexemes operand) (span_of operand) (
      last_end-append (lexemes_optional size) (rbracket ∷ lexemes operand) p
        (last_end-cons rbracket (lexemes operand) p (span_of-Covers operand).1))
span_of-Covers (Expression.block b) = block-Covers b
span_of-Covers (Expression.if_expression kw_if condition then_block parts last) =
    let rest = lexemes_block then_block ++ (lexemes_else_if parts ++ lexemes_else last) in
    let span = end_span then_block parts last in
    cons-Covers kw_if (lexemes condition ++ rest) span
      (last_end-append (lexemes condition) rest (span.end) (else-end then_block parts last))

-- The span of a statement goes from the first character of its leftmost lexeme to the last character of
-- its rightmost one.
pub span_of_statement-Covers : (s : Statement) → Covers (lexemes_statement s) (span_of_statement s)
unfolding span_of_statement lexemes
span_of_statement-Covers (Statement.let_statement kw_let kw_mut name eq initializer semicolon) =
    let assigned = eq ∷ (lexemes initializer ++ semicolon ∷ []) in
    let p = semicolon.span.end in
    cons-Covers kw_let (of_option kw_mut ++ name ∷ assigned) (semicolon.span) (
      last_end-append (of_option kw_mut) (name ∷ assigned) p
        (last_end-cons name assigned p (last_end-last (eq ∷ lexemes initializer) semicolon)))
span_of_statement-Covers (Statement.while_statement kw_while condition body) =
    cons-Covers kw_while (lexemes condition ++ lexemes_block body) (rbrace_span body) (
      last_end-append (lexemes condition) (lexemes_block body) ((rbrace_span body).end)
        (block-end body))
span_of_statement-Covers (Statement.return_statement kw_return value semicolon) =
    cons-Covers kw_return (lexemes value ++ semicolon ∷ []) (semicolon.span)
      (last_end-last (lexemes value) semicolon)
span_of_statement-Covers (Statement.expression_statement expression semicolon) =
    append-Covers (lexemes expression) (semicolon ∷ []) (span_of expression) (semicolon.span)
      (span_of-Covers expression) refl
