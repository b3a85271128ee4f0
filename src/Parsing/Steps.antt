-- ===== src/Parsing/Steps.antt =====
-- One step of the parser (code/parsing/src/parser.cpp): what it has read, and why a tree that it
-- builds is a tree of a program.
use basedlang.Prelude.{
  ℕ, ◌≤◌, ◌<◌, ◌≡◌, refl, sym, ap, ◌∙◌, subst, Bool, true, false, arith, Option, none, some,
  some-injective, ◌⊎◌, List, ◌++◌, inl, inr,
}
use basedlang.Lexing.Token.{Token, Lexeme}
use basedlang.Ast.{Expression, Optional, Statements}
use basedlang.Ast.Operators.{
  Operator, get_operator_precedence, get_prefix_operator, get_postfix_operator, get_binary_operator,
}
use basedlang.Ast.Lexemes.{lexemes, lexemes_optional, lexemes_statements}
use basedlang.Parsing.Result.{
  Stream, next, at_eof, scanner_throws, Parsed, read, give, remaining, Ensures, holds,
}
use basedlang.Parsing.Parser.{fitting, rhs_precedence, PrimaryKind, primary_kind}
use basedlang.Parsing.Grammar.{
  Has, level, is_open, left_level, right_level, operator_level, IsExpression, IsOptional,
  IsStatements,
}
use basedlang.Parsing.Expects.{
  Takes, First, HeadIs, HeadIsOption, First-HeadIs, fitting-some, fitting-NoBinary,
  fitting-NoPostfix, NoPostfix, NoBinary, LeftOf, binary_bounds, rhs-right,
}

-- A tree has been read off the stream, which is shorter now.
abbrev pub Reads : {A : Type 0} → (A → List Lexeme) → (A → Type 0) → Stream → A × Stream → Type 0
Reads flat Is s (a, s') = (s ≡ give (flat a) s') × (remaining s' < remaining s) × Is a

-- The same, but perhaps nothing has been read.
abbrev pub ReadsSome :
    {A : Type 0} → (A → List Lexeme) → (A → Type 0) → Stream → A × Stream → Type 0
ReadsSome flat Is s (a, s') = (s ≡ give (flat a) s') × (remaining s' ≤ remaining s) × Is a

-- What holds behind an expression that has been read at a precedence.
pub record After (p : ℕ) (e : Expression) (s : Stream) : Type 0 where
  pub fits : level e ≤ p
  pub no_postfix : NoPostfix s
  pub no_binary : NoBinary p s
  pub closed : is_open e ≡ true → NoBinary 6 s

abbrev pub ReadsExpression : ℕ → Stream → Expression × Stream → Type 0
ReadsExpression p s (e, s') =
    (s ≡ give (lexemes e) s') × (remaining s' < remaining s) × IsExpression e × After p e s'

-- An operand, from which the loop over binary operators starts.
abbrev pub ReadsOperand : Stream → Expression × Stream → Type 0
ReadsOperand s (e, s') =
    (s ≡ give (lexemes e) s')
    × (remaining s' < remaining s)
    × IsExpression e
    × (level e ≤ 1)
    × NoPostfix s'
    × (is_open e ≡ true → NoBinary 6 s')

-- A primary expression, from which the loop over postfix operators starts: an open one has no operator
-- behind it.
abbrev pub ReadsPrimary : Stream → Expression × Stream → Type 0
ReadsPrimary s (e, s') =
    (s ≡ give (lexemes e) s')
    × (remaining s' < remaining s)
    × IsExpression e
    × (level e ≡ 0)
    × (is_open e ≡ true → NoPostfix s' × NoBinary 6 s')

-- The loops go on from a tree that has been read from `s₀`.
abbrev pub FromPrimary : Expression → Stream → Stream → Type 0
FromPrimary e s₀ s =
    (s₀ ≡ give (lexemes e) s)
    × (remaining s < remaining s₀)
    × IsExpression e
    × (level e ≡ 0)
    × (is_open e ≡ true → NoPostfix s × NoBinary 6 s)

abbrev pub FromOperand : ℕ → Expression → Stream → Stream → Type 0
FromOperand p e s₀ s =
    (s₀ ≡ give (lexemes e) s)
    × (remaining s < remaining s₀)
    × IsExpression e
    × (level e ≤ p)
    × NoPostfix s
    × LeftOf e s

pub shut :
    (e : Expression) (s : Stream) (op : Operator)
    → HeadIs get_postfix_operator op s
    → (is_open e ≡ true → NoPostfix s × NoBinary 6 s)
    → is_open e ≡ false
shut e (next l s) op h c = go (is_open e) refl
  where
    go : (b : Bool) → is_open e ≡ b → is_open e ≡ false
    go false q = q
    go true q = absurd (cc (h, (c q).0))
shut e (at_eof span) op h c = absurd h
shut e scanner_throws op h c = absurd h

pub operand-LeftOf :
    (e : Expression) (s : Stream) → level e ≤ 1 → (is_open e ≡ true → NoBinary 6 s) → LeftOf e s
operand-LeftOf e (next l s) le c = λ op h.
    let (q, two, six) = binary_bounds (l.token) op h in
    (ground (arith, le, two), go (is_open e) refl op h six)
  where
    go :
        (b : Bool)
        → is_open e ≡ b
        → (op : Operator) → get_binary_operator (l.token) ≡ some op
        → get_operator_precedence op ≤ 6
        → is_open e ≡ false
    go false q op h six = q
    go true q op h six = absurd (omega (arith, c q op h, six))
operand-LeftOf e (at_eof span) le c = tt
operand-LeftOf e scanner_throws le c = tt

pub LeftOf-closed : (e : Expression) (s : Stream) → LeftOf e s → is_open e ≡ true → NoBinary 6 s
LeftOf-closed e (next l s) h o = λ op q. absurd (cc (o, (h op q).1))
LeftOf-closed e (at_eof span) h o = tt
LeftOf-closed e scanner_throws h o = tt

-- A tree with a binary operator can be the left operand of the next, where its right operand has been
-- read at the operator's right level.
pub binary-LeftOf :
    (left right : Expression) (op : Lexeme) (o : Operator) (s : Stream)
    → get_binary_operator (op.token) ≡ some o
    → NoBinary (right_level (get_operator_precedence o)) s
    → (is_open right ≡ true → NoBinary 6 s)
    → LeftOf (Expression.binary left op right) s
binary-LeftOf left right op o (next l s) h n c = λ q k.
    let (e, two, six) = binary_bounds (l.token) q k in
    let (e', two', six') = binary_bounds (op.token) o h in
    (ground (arith, n q k, two, six, e', two', six'), go (is_open right) refl q k six)
  where
    go :
        (b : Bool)
        → is_open right ≡ b
        → (q : Operator) → get_binary_operator (l.token) ≡ some q
        → get_operator_precedence q ≤ 6
        → is_open right ≡ false
    go false e q k six = e
    go true e q k six = absurd (omega (arith, c e q k, six))
binary-LeftOf left right op o (at_eof span) h n c = tt
binary-LeftOf left right op o scanner_throws h n c = tt

pub First-operator :
    (get : Token → Option Operator) (p : ℕ) (l : Lexeme) (s : Stream)
    → get Token.eof ≡ none
    → First l s
    → (o : Option Operator) → fitting (get (l.token)) p ≡ o
    → HeadIsOption get o s
First-operator get p l s z f none h = tt
First-operator get p l s z f (some op) h =
    First-HeadIs get l s op z f (fitting-some (get (l.token)) p op h).0

-- What a peek of the loop over binary operators finds.
abbrev pub BinaryHead : ℕ → Option Operator → Stream → Type 0
BinaryHead p none s = NoBinary p s
BinaryHead p (some op) s = HeadIs get_binary_operator op s × (get_operator_precedence op ≤ p)

pub First-binary :
    (p : ℕ) (l : Lexeme) (s : Stream)
    → First l s
    → (o : Option Operator) → fitting (get_binary_operator (l.token)) p ≡ o
    → BinaryHead p o s
First-binary p l s f none h = fitting-NoBinary p l s f h
First-binary p l s f (some op) h =
    let (e, le) = fitting-some (get_binary_operator (l.token)) p op h in
    (First-HeadIs get_binary_operator l s op refl f e, le)

abbrev pub PostfixHead : Option Operator → Stream → Type 0
PostfixHead none s = NoPostfix s
PostfixHead (some op) s = HeadIs get_postfix_operator op s

pub First-postfix :
    (p : ℕ) (l : Lexeme) (s : Stream)
    → First l s
    → (o : Option Operator) → fitting (get_postfix_operator (l.token)) p ≡ o
    → PostfixHead o s
First-postfix p l s f none h = fitting-NoPostfix p l s f h
First-postfix p l s f (some op) h =
    First-HeadIs get_postfix_operator l s op refl f
      (fitting-some (get_postfix_operator (l.token)) p op h).0

unfoldable pub is_other : Operator → Bool
is_other Operator.call = false
is_other Operator.index = false
is_other _ = true

pub caret_lem :
    (t : Token) (op : Operator)
    → get_postfix_operator t ≡ some op
    → is_other op ≡ true
    → t ≡ Token.caret
unfolding is_other
caret_lem Token.caret op h o = refl
caret_lem Token.lparen op h o = absurd (cc (h, o, ap is_other (some-injective Operator.call op h)))
caret_lem Token.lbracket op h o =
    absurd (cc (h, o, ap is_other (some-injective Operator.index op h)))
caret_lem _ op h o = absurd (cc h)

prefix_level :
    (t : Token) → (get_prefix_operator t ≡ none) ⊎ (operator_level (get_prefix_operator t) ≡ 1)
prefix_level Token.eof = inl refl
prefix_level Token.ampersand = inr refl
prefix_level Token.ampersand_mut = inr refl
prefix_level Token.caret = inr refl
prefix_level Token.caret_mut = inr refl
prefix_level Token.plus = inr refl
prefix_level Token.minus = inr refl
prefix_level _ = inl refl

pub prefix_one :
    (s : Stream) (op : Operator) → HeadIs get_prefix_operator op s → get_operator_precedence op ≡ 1
prefix_one (next l s) op h = go (prefix_level (l.token))
  where
    go :
        (get_prefix_operator (l.token) ≡ none)
          ⊎ (operator_level (get_prefix_operator (l.token)) ≡ 1)
        → get_operator_precedence op ≡ 1
    go (inl n) = absurd (cc (n, h))
    go (inr e) = sym (ap operator_level h) ∙ e
prefix_one (at_eof span) op h = absurd h
prefix_one scanner_throws op h = absurd h

pub HeadIs-bounds :
    (s : Stream) (o : Operator)
    → HeadIs get_binary_operator o s
    → (2 ≤ get_operator_precedence o) × (get_operator_precedence o ≤ 6)
HeadIs-bounds (next l s) o h = let (q, two, six) = binary_bounds (l.token) o h in (two, six)
HeadIs-bounds (at_eof span) o h = absurd h
HeadIs-bounds scanner_throws o h = absurd h

pub LeftOf-at :
    (e : Expression) (s : Stream) (o : Operator)
    → LeftOf e s
    → HeadIs get_binary_operator o s
    → (level e ≤ left_level (get_operator_precedence o)) × (is_open e ≡ false)
LeftOf-at e (next l s) o left h = left o h
LeftOf-at e (at_eof span) o left h = absurd h
LeftOf-at e scanner_throws o left h = absurd h

pub rhs_one : (q : ℕ) → 2 ≤ q → 1 ≤ rhs_precedence q
rhs_one q h = ground arith

pub binary-IsExpression :
    (left right : Expression) (op : Lexeme) (o : Operator)
    → get_binary_operator (op.token) ≡ some o
    → IsExpression left
    → (level left ≤ left_level (get_operator_precedence o)) × (is_open left ≡ false)
    → IsExpression right
    → level right ≤ rhs_precedence (get_operator_precedence o)
    → IsExpression (Expression.binary left op right)
unfolding IsExpression
binary-IsExpression left right op o h il (le, shut) ir re =
    let same : operator_level (get_binary_operator (op.token)) ≡ get_operator_precedence o =
      ap operator_level h in
    (
      (o, h),
      il,
      subst (λ k. level left ≤ left_level k) (sym same) le,
      shut,
      ir,
      subst (λ k. level right ≤ right_level k) (sym same)
          (subst (λ k. level right ≤ k) (rhs-right (get_operator_precedence o)) re),
    )

-- What is read from a stream is read from an equal one.
pub moved :
    {A : Type 0} (P : Stream → A → Type 0) {s s' : Stream} {r : Parsed A}
    → s ≡ s'
    → Ensures (P s') r
    → Ensures (P s) r
moved P {r = r} q h = subst (λ x. Ensures (P x) r) (sym q) h

-- The statements of a block and its tail.
abbrev pub ReadsBody : Stream → (Statements × Optional) × Stream → Type 0
ReadsBody =
    ReadsSome (λ r. lexemes_statements r.0 ++ lexemes_optional r.1)
      (λ r. IsStatements r.0 × IsOptional r.1)

-- A peek has found `recurse`.
abbrev pub RecurseHead : PrimaryKind → Stream → Type 0
RecurseHead PrimaryKind.recurse_kind (next l s) = Has l Token.kw_recurse
RecurseHead PrimaryKind.recurse_kind _ = ⊥
RecurseHead _ s = Unit

recurse_lem : (t : Token) → primary_kind t ≡ PrimaryKind.recurse_kind → t ≡ Token.kw_recurse
recurse_lem Token.kw_recurse h = refl
recurse_lem _ h = absurd (cc h)

pub First-recurse :
    (l : Lexeme) (s : Stream)
    → First l s
    → (kind : PrimaryKind) → primary_kind (l.token) ≡ kind
    → RecurseHead kind s
First-recurse l (next l' s) f PrimaryKind.recurse_kind h =
    ap (λ x. x.token) (sym f) ∙ recurse_lem (l.token) h
First-recurse l (at_eof span) f PrimaryKind.recurse_kind h =
    absurd (cc (f, ap (λ x. primary_kind (x.token)) f, h))
First-recurse l scanner_throws f PrimaryKind.recurse_kind h = absurd f
First-recurse l s f _ h = tt

pub read-recurse :
    (s : Stream)
    → RecurseHead PrimaryKind.recurse_kind s
    → Ensures (Takes s Token.kw_recurse) (read s)
read-recurse (next l s) h = holds (refl, refl, h)
read-recurse (at_eof span) h = absurd h
read-recurse scanner_throws h = absurd h
