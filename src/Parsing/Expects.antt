-- ===== src/Parsing/Expects.antt =====
-- What the parser's primitive steps ensure (code/parsing/src/parser.cpp), and what is asked of the input
-- before and behind a tree.
use basedlang.Prelude.{
  ℕ, suc, ◌≤◌, ◌<◌, ◌≡◌, refl, sym, ap, ◌∙◌, ◌⊎◌, inl, inr, Bool, true, false, leb, if◌then◌else◌,
  arith, Option, none, some, some-injective,
}
use basedlang.Lexing.Token.{Token, Lexeme, token_eq, token_eq-Path}
use basedlang.Ast.{Expression}
use basedlang.Ast.Operators.{
  Operator, get_operator_precedence, get_postfix_operator, get_binary_operator,
}
use basedlang.Parsing.Result.{
  Stream, next, at_eof, scanner_throws, peek, read, remaining, Ensures, holds, rejected,
  scanner_threw, Ensures-bind, eof_lexeme,
}
use basedlang.Parsing.Parser.{expect, check_token, next_is, expect_if, fitting, rhs_precedence}
use basedlang.Parsing.Grammar.{
  Has, HasOption, level, is_open, left_level, right_level, operator_level,
}
use basedlang.Ast.Lexemes.{of_option}
use basedlang.Parsing.Result.{give}

-- The lexeme has been taken off the stream.
abbrev pub Takes : Stream → Token → Lexeme × Stream → Type 0
Takes s t (l, s') = (s ≡ next l s') × (remaining s ≡ suc (remaining s')) × Has l t

pub expect-Takes :
    (t : Token) (s : Stream) → token_eq Token.eof t ≡ false → Ensures (Takes s t) (expect t s)
expect-Takes t (next l s) h = check (token_eq (l.token) t) refl
  where
    check : (b : Bool) → token_eq (l.token) t ≡ b → Ensures (Takes (next l s) t) (check_token t l s)
    check true e = rw e (holds (refl, refl, token_eq-Path (l.token) t e))
    check false e = rw e rejected
expect-Takes t (at_eof span) h = rw h rejected
expect-Takes t scanner_throws h = scanner_threw

abbrev pub Same : {A : Type 0} → Stream → A × Stream → Type 0
Same s (a, s') = s ≡ s'

pub next_is-Same : (t : Token) (s : Stream) → Ensures (Same s) (next_is t s)
next_is-Same t (next l s) = holds refl
next_is-Same t (at_eof span) = holds refl
next_is-Same t scanner_throws = scanner_threw

-- An optional lexeme has been taken off the stream, if it is there.
abbrev pub TakesOption : Stream → Token → Option Lexeme × Stream → Type 0
TakesOption s t (o, s') = (s ≡ give (of_option o) s') × (remaining s' ≤ remaining s) × HasOption o t

pub expect_if-TakesOption :
    (t : Token) (b : Bool) (s : Stream)
    → token_eq Token.eof t ≡ false
    → Ensures (TakesOption s t) (expect_if t b s)
expect_if-TakesOption t true s h =
    Ensures-bind (expect-Takes t s h) λ (l, s₁) (e, n, k). holds (e, omega arith, k)
expect_if-TakesOption t false s h = holds (refl, omega arith, tt)

-- The lexeme that a peek gives.
abbrev pub First : Lexeme → Stream → Type 0
First l (next l' s) = l ≡ l'
First l (at_eof span) = l ≡ eof_lexeme span
First l scanner_throws = ⊥

pub peek-First : (s : Stream) → Ensures (λ (l, s'). (s ≡ s') × First l s') (peek s)
peek-First (next l s) = holds (refl, refl)
peek-First (at_eof span) = holds (refl, refl)
peek-First scanner_throws = scanner_threw

-- The stream begins with an operator of a kind.
abbrev pub HeadIs : (Token → Option Operator) → Operator → Stream → Type 0
HeadIs get op (next l s) = get (l.token) ≡ some op
HeadIs get op _ = ⊥

abbrev pub HeadIsOption : (Token → Option Operator) → Option Operator → Stream → Type 0
HeadIsOption get none s = Unit
HeadIsOption get (some op) s = HeadIs get op s

pub First-HeadIs :
    (get : Token → Option Operator) (l : Lexeme) (s : Stream) (op : Operator)
    → get Token.eof ≡ none
    → First l s
    → get (l.token) ≡ some op
    → HeadIs get op s
First-HeadIs get l (next l' s) op z f h = ap (λ x. get (x.token)) (sym f) ∙ h
First-HeadIs get l (at_eof span) op z f h = absurd (cc (z, h, ap (λ x. get (x.token)) f))
First-HeadIs get l scanner_throws op z f h = absurd f

pub read-HeadIs :
    (get : Token → Option Operator) (op : Operator) (s : Stream)
    → HeadIs get op s
    → Ensures
        (λ (l, s').
          (s ≡ next l s') × (remaining s ≡ suc (remaining s')) × (get (l.token) ≡ some op))
        (read s)
read-HeadIs get op (next l s) h = holds (refl, refl, h)
read-HeadIs get op (at_eof span) h = absurd h
read-HeadIs get op scanner_throws h = absurd h

pub fitting-some :
    (o : Option Operator) (p : ℕ) (op : Operator)
    → fitting o p ≡ some op
    → (o ≡ some op) × (get_operator_precedence op ≤ p)
fitting-some none p op h = absurd (cc h)
fitting-some (some o) p op h = go (leb (get_operator_precedence o) p) refl h
  where
    go :
        (b : Bool)
        → leb (get_operator_precedence o) p ≡ b
        → (if b then some o else none) ≡ some op
        → (some o ≡ some op) × (get_operator_precedence op ≤ p)
    go true e h = (h, rw (some-injective op o (sym h)) (ground (arith, e)))
    go false e h = absurd (cc h)

pub fitting-none :
    (o : Option Operator) (p : ℕ) (op : Operator)
    → fitting o p ≡ none
    → o ≡ some op
    → p < get_operator_precedence op
fitting-none none p op h e = absurd (cc e)
fitting-none (some o) p op h e = rw (some-injective op o (sym e)) (ground (arith, h))

-- What may follow a tree that has been read at a precedence.
abbrev pub NoPostfix : Stream → Type 0
NoPostfix (next l s) = get_postfix_operator (l.token) ≡ none
NoPostfix _ = Unit

abbrev pub NoBinary : ℕ → Stream → Type 0
NoBinary p (next l s) =
    (op : Operator) → get_binary_operator (l.token) ≡ some op → p < get_operator_precedence op
NoBinary p _ = Unit

-- The tree can be the left operand of a binary operator that follows.
abbrev pub LeftOf : Expression → Stream → Type 0
LeftOf e (next l s) =
    (op : Operator)
    → get_binary_operator (l.token) ≡ some op
    → (level e ≤ left_level (get_operator_precedence op)) × (is_open e ≡ false)
LeftOf e _ = Unit

pub NoBinary-le : (p q : ℕ) (s : Stream) → p ≤ q → NoBinary q s → NoBinary p s
NoBinary-le p q (next l s) h n = λ op e. omega (arith, n op e)
NoBinary-le p q (at_eof span) h n = tt
NoBinary-le p q scanner_throws h n = tt

pub fitting-NoBinary :
    (p : ℕ) (l : Lexeme) (s : Stream)
    → First l s
    → fitting (get_binary_operator (l.token)) p ≡ none
    → NoBinary p s
fitting-NoBinary p l (next l' s) f h = λ op e.
    fitting-none (get_binary_operator (l.token)) p op h
      (ap (λ x. get_binary_operator (x.token)) f ∙ e)
fitting-NoBinary p l (at_eof span) f h = tt
fitting-NoBinary p l scanner_throws f h = tt

pub fitting-NoPostfix :
    (p : ℕ) (l : Lexeme) (s : Stream)
    → First l s
    → fitting (get_postfix_operator (l.token)) p ≡ none
    → NoPostfix s
fitting-NoPostfix p l (next l' s) f h =
    ap (λ x. get_postfix_operator (x.token)) (sym f) ∙ unfit (l.token) h
  where
    unfit : (t : Token) → fitting (get_postfix_operator t) p ≡ none → get_postfix_operator t ≡ none
    unfit Token.lparen h = absurd (ground (arith, h))
    unfit _ h = ground (arith, h)
fitting-NoPostfix p l (at_eof span) f h = tt
fitting-NoPostfix p l scanner_throws f h = tt

pub binary_level :
    (t : Token)
    → (get_binary_operator t ≡ none)
      ⊎ ((2 ≤ operator_level (get_binary_operator t))
          × (operator_level (get_binary_operator t) ≤ 6))
binary_level Token.eof = inl refl
binary_level Token.star = inr (omega arith)
binary_level Token.slash = inr (omega arith)
binary_level Token.percent = inr (omega arith)
binary_level Token.plus = inr (omega arith)
binary_level Token.minus = inr (omega arith)
binary_level Token.lt = inr (omega arith)
binary_level Token.le = inr (omega arith)
binary_level Token.gt = inr (omega arith)
binary_level Token.ge = inr (omega arith)
binary_level Token.eq_eq = inr (omega arith)
binary_level Token.bang_eq = inr (omega arith)
binary_level Token.eq = inr (omega arith)
binary_level _ = inl refl

-- Where there is a binary operator its precedence is from 2 to 6.
pub binary_bounds :
    (t : Token) (op : Operator)
    → get_binary_operator t ≡ some op
    → (operator_level (get_binary_operator t) ≡ get_operator_precedence op)
      × (2 ≤ get_operator_precedence op)
      × (get_operator_precedence op ≤ 6)
binary_bounds t op h = go (binary_level t)
  where
    same : operator_level (get_binary_operator t) ≡ get_operator_precedence op
    same = ap operator_level h

    go :
        (get_binary_operator t ≡ none)
          ⊎ ((2 ≤ operator_level (get_binary_operator t))
              × (operator_level (get_binary_operator t) ≤ 6))
        → (operator_level (get_binary_operator t) ≡ get_operator_precedence op)
          × (2 ≤ get_operator_precedence op)
          × (get_operator_precedence op ≤ 6)
    go (inl n) = absurd (cc (n, h))
    go (inr b) = (same, omega (arith, same, b.0), omega (arith, same, b.1))

pub rhs-right : (q : ℕ) → rhs_precedence q ≡ right_level q
rhs-right q = ground arith
