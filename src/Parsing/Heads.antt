-- ===== src/Parsing/Heads.antt =====
-- The first tokens of the trees of the parser (code/parsing/src/parser.cpp), and what may stand behind a
-- tree.
use basedlang.Prelude.{
  ℕ, ◌≤◌, ◌≡◌, refl, ap, ◌∙◌, ◌⊎◌, inl, inr, Bool, true, false, arith, none, some,
}
use basedlang.Lexing.Token.{Token, Lexeme, token_eq, token_eq-Path}
use basedlang.Ast.{Expression, Block}
use basedlang.Ast.Operators.{
  Operator, get_prefix_operator, get_postfix_operator, get_binary_operator,
}
use basedlang.Parsing.Result.{Stream, next, at_eof, scanner_throws}
use basedlang.Parsing.Parser.{StatementKind, statement_kind}
use basedlang.Parsing.Grammar.{Has, level, IsExpression}
use basedlang.Parsing.Expects.{NoPostfix, NoBinary, binary_bounds}
use basedlang.Parsing.Onto.{onto}

-- The tokens that a primary expression, and an expression, begins with.
abbrev pub primary_start : Token → Bool
primary_start Token.int_literal = true
primary_start Token.float_literal = true
primary_start Token.identifier = true
primary_start Token.kw_recurse = true
primary_start Token.kw_if = true
primary_start Token.lbrace = true
primary_start Token.lparen = true
primary_start Token.kw_fn = true
primary_start _ = false

abbrev pub expression_start : Token → Bool
expression_start Token.lbracket = true
expression_start Token.ampersand = true
expression_start Token.ampersand_mut = true
expression_start Token.caret = true
expression_start Token.caret_mut = true
expression_start Token.plus = true
expression_start Token.minus = true
expression_start Token.int_literal = true
expression_start Token.float_literal = true
expression_start Token.identifier = true
expression_start Token.kw_recurse = true
expression_start Token.kw_if = true
expression_start Token.lbrace = true
expression_start Token.lparen = true
expression_start Token.kw_fn = true
expression_start _ = false

abbrev pub StartsWith : (Token → Bool) → Stream → Type 0
StartsWith test (next l s) = test (l.token) ≡ true
StartsWith test _ = ⊥

-- A token that a test separates from another.
pub token_eq-false :
    (test : Token → Bool) (t u : Token) → test t ≡ true → test u ≡ false → token_eq t u ≡ false
token_eq-false test t u h k = go (token_eq t u) refl
  where
    go : (b : Bool) → token_eq t u ≡ b → token_eq t u ≡ false
    go false q = q
    go true q = absurd (cc (h, k, ap test (token_eq-Path t u q)))

pub expression_start-statement_kind :
    (t : Token) → expression_start t ≡ true → statement_kind t ≡ StatementKind.expression_kind
expression_start-statement_kind Token.kw_let h = absurd (cc h)
expression_start-statement_kind Token.kw_return h = absurd (cc h)
expression_start-statement_kind Token.kw_while h = absurd (cc h)
expression_start-statement_kind _ h = refl

pub primary_start-prefix : (t : Token) → primary_start t ≡ true → get_prefix_operator t ≡ none
primary_start-prefix Token.ampersand h = absurd (cc h)
primary_start-prefix Token.ampersand_mut h = absurd (cc h)
primary_start-prefix Token.caret h = absurd (cc h)
primary_start-prefix Token.caret_mut h = absurd (cc h)
primary_start-prefix Token.plus h = absurd (cc h)
primary_start-prefix Token.minus h = absurd (cc h)
primary_start-prefix _ h = refl

prefix_starts :
    (t : Token) (o : Operator) → get_prefix_operator t ≡ some o → expression_start t ≡ true
prefix_starts Token.ampersand o h = refl
prefix_starts Token.ampersand_mut o h = refl
prefix_starts Token.caret o h = refl
prefix_starts Token.caret_mut o h = refl
prefix_starts Token.plus o h = refl
prefix_starts Token.minus o h = refl
prefix_starts _ o h = absurd (cc h)

pub onto_starts :
    (e : Expression) (s : Stream) → IsExpression e → StartsWith expression_start (onto e s)
unfolding onto IsExpression
onto_starts (Expression.int_literal l) s h = ap expression_start h
onto_starts (Expression.float_literal l) s h = ap expression_start h
onto_starts (Expression.identifier l) s h = ap expression_start h
onto_starts (Expression.recurse l) s h = ap expression_start h
onto_starts (Expression.fn kw_fn name lparen ps commas rparen colon type arrow body) s h =
    ap expression_start h.0
onto_starts (Expression.paren lparen inner rparen) s h = ap expression_start h.0
onto_starts (Expression.prefix op operand) s ((o, h), is, k) = prefix_starts (op.token) o h
onto_starts (Expression.postfix operand op) s h = onto_starts operand (next op s) h.1.0
onto_starts (Expression.binary left op right) s h = onto_starts left (next op (onto right s)) h.1
onto_starts (Expression.call callee lparen es commas rparen) s h = onto_starts callee _ h.0.0
onto_starts (Expression.index operand lbracket subscript rbracket) s h = onto_starts operand _ h.0.0
onto_starts (Expression.prefix_bracket lbracket size rbracket operand) s h = ap expression_start h.0
onto_starts (Expression.block (Block.braces lbrace ss tail rbrace)) s h = ap expression_start h.0
onto_starts (Expression.if_expression kw_if condition then_block parts last) s h =
    ap expression_start h.0

pub onto_primary_starts :
    (e : Expression) (s : Stream)
    → IsExpression e
    → level e ≡ 0
    → StartsWith primary_start (onto e s)
unfolding onto IsExpression
onto_primary_starts (Expression.int_literal l) s h z = ap primary_start h
onto_primary_starts (Expression.float_literal l) s h z = ap primary_start h
onto_primary_starts (Expression.identifier l) s h z = ap primary_start h
onto_primary_starts (Expression.recurse l) s h z = ap primary_start h
onto_primary_starts (Expression.fn kw_fn name lparen ps commas rparen colon type arrow body) s h z =
    ap primary_start h.0
onto_primary_starts (Expression.paren lparen inner rparen) s h z = ap primary_start h.0
onto_primary_starts (Expression.prefix op operand) s h z = absurd (omega (arith, z))
onto_primary_starts (Expression.postfix operand op) s h z =
    onto_primary_starts operand (next op s) h.1.0 h.1.1
onto_primary_starts (Expression.binary left op right) s h z =
    let (e, two, six) = binary_bounds (op.token) h.0.0 h.0.1 in absurd (omega (arith, z, e, two))
onto_primary_starts (Expression.call callee lparen es commas rparen) s h z =
    onto_primary_starts callee _ h.0.0 h.0.1
onto_primary_starts (Expression.index operand lbracket subscript rbracket) s h z =
    onto_primary_starts operand _ h.0.0 h.0.1
onto_primary_starts (Expression.prefix_bracket lbracket size rbracket operand) s h z =
    absurd (omega (arith, z))
onto_primary_starts (Expression.block (Block.braces lbrace ss tail rbrace)) s h z =
    ap primary_start h.0
onto_primary_starts (Expression.if_expression kw_if condition then_block parts last) s h z =
    ap primary_start h.0

-- The level of a tree is that of an operator.
pub level_le : (e : Expression) → IsExpression e → level e ≤ 6
unfolding IsExpression
level_le (Expression.binary left op right) h =
    let (e, two, six) = binary_bounds (op.token) h.0.0 h.0.1 in omega (arith, e, six)
level_le (Expression.prefix op operand) h = omega arith
level_le (Expression.prefix_bracket lbracket size rbracket operand) h = omega arith
level_le _ h = omega arith

-- No `else` stands at the front, and the scanner does not throw there.
abbrev pub NoElse : Stream → Type 0
NoElse (next l s) = token_eq (l.token) Token.kw_else ≡ false
NoElse (at_eof span) = Unit
NoElse scanner_throws = ⊥

-- Nothing at the front goes on with an expression.
abbrev pub Closed : Stream → Type 0
Closed s = NoPostfix s × NoBinary 6 s × NoElse s

pub NoBinary-any : (p : ℕ) (s : Stream) → NoBinary 6 s → NoBinary p s
NoBinary-any p (next l s) h =
    λ op q. let (e, two, six) = binary_bounds (l.token) op q in absurd (omega (arith, h op q, six))
NoBinary-any p (at_eof span) h = tt
NoBinary-any p scanner_throws h = tt

pub NoBinary-one : (p : ℕ) (s : Stream) → p ≤ 1 → NoBinary p s
NoBinary-one p (next l s) h =
    λ op q. let (e, two, six) = binary_bounds (l.token) op q in omega (arith, h, two)
NoBinary-one p (at_eof span) h = tt
NoBinary-one p scanner_throws h = tt

-- A token that closes an expression.
pub Has-Closed :
    (l : Lexeme) (s : Stream) (t : Token)
    → Has l t
    → get_postfix_operator t ≡ none
    → get_binary_operator t ≡ none
    → token_eq t Token.kw_else ≡ false
    → Closed (next l s)
Has-Closed l s t h post bin no_else = (
  ap get_postfix_operator h ∙ post,
  (λ op q. absurd (cc (ap get_binary_operator h, q, bin))),
  ap (λ x. token_eq x Token.kw_else) h ∙ no_else,
)

binary_no_postfix : (t : Token) → (get_binary_operator t ≡ none) ⊎ (get_postfix_operator t ≡ none)
binary_no_postfix Token.eof = inr refl
binary_no_postfix Token.lparen = inl refl
binary_no_postfix Token.lbracket = inl refl
binary_no_postfix Token.caret = inl refl
binary_no_postfix _ = inr refl

binary_no_else : (t : Token) → (get_binary_operator t ≡ none) ⊎ (token_eq t Token.kw_else ≡ false)
binary_no_else Token.eof = inr refl
binary_no_else Token.kw_else = inl refl
binary_no_else _ = inr refl

pub binary-NoPostfix :
    (op : Lexeme) (o : Operator) (s : Stream)
    → get_binary_operator (op.token) ≡ some o
    → NoPostfix (next op s)
binary-NoPostfix op o s h = go (binary_no_postfix (op.token))
  where
    go :
        (get_binary_operator (op.token) ≡ none) ⊎ (get_postfix_operator (op.token) ≡ none)
        → NoPostfix (next op s)
    go (inl n) = absurd (cc (n, h))
    go (inr n) = n

pub binary-NoElse :
    (op : Lexeme) (o : Operator) (s : Stream)
    → get_binary_operator (op.token) ≡ some o
    → NoElse (next op s)
binary-NoElse op o s h = go (binary_no_else (op.token))
  where
    go :
        (get_binary_operator (op.token) ≡ none) ⊎ (token_eq (op.token) Token.kw_else ≡ false)
        → NoElse (next op s)
    go (inl n) = absurd (cc (n, h))
    go (inr n) = n
