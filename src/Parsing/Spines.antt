-- ===== src/Parsing/Spines.antt =====
-- What the parser (code/parsing/src/parser.cpp) makes of a tree's lexemes in front of a stream, before its
-- loops over postfix and binary operators end.
use basedlang.Prelude.{ℕ, zero, suc, ◌+◌, ◌*◌, ◌≤◌, ◌<◌, ◌≡◌, refl, ap, ◌∙◌, subst, true, arith}
use basedlang.Lexing.Token.{Lexeme}
use basedlang.Ast.{Expression}
use basedlang.Ast.Operators.{get_operator_precedence, get_binary_operator}
use basedlang.Parsing.Result.{Stream, next, ok, bind, remaining}
use basedlang.Parsing.Parser.{
  any_precedence, parse_expression, parse_operand, parse_postfix, parse_binary,
  parse_primary_expression,
}
use basedlang.Parsing.Grammar.{
  level, is_open, left_level, right_level, operator_level, IsExpression,
}
use basedlang.Parsing.Expects.{NoPostfix, NoBinary, NoBinary-le, binary_bounds}
use basedlang.Parsing.Onto.{onto}
use basedlang.Parsing.Longer.{onto_longer}
use basedlang.Parsing.Heads.{NoElse, Closed, NoBinary-any, level_le, onto_primary_starts}
use basedlang.Parsing.Rounds.{bind-ok, two, postfix_ends, binary_ends, operand_primary}

-- The loop over postfix operators gets to the tree, with fuel left.
abbrev pub Chain : Expression → Type 0
Chain e =
    (f p : ℕ) (s : Stream)
    → 20 * remaining (onto e s) + 3 < f
    → (is_open e ≡ true → NoPostfix s × NoBinary 6 s)
    → NoElse s
    → (g : ℕ) × (20 * remaining s + 9 < g)
      × (bind (parse_primary_expression f (onto e s)) (λ (x, s'). parse_postfix f p x s')
          ≡ parse_postfix g p e s)

-- The loop over binary operators gets to the tree, with fuel left.
abbrev pub Spine : Expression → Type 0
Spine e =
    (f p : ℕ) (s : Stream)
    → level e ≤ p
    → 1 ≤ p
    → 20 * remaining (onto e s) + 5 < f
    → NoPostfix s
    → NoBinary (right_level (level e)) s
    → (is_open e ≡ true → NoBinary 6 s)
    → NoElse s
    → (g : ℕ) × (20 * remaining s + 9 < g)
      × (bind (parse_operand f p (onto e s)) (λ (x, s'). parse_binary f p x s')
          ≡ parse_binary g p e s)

-- The expression is parsed.
abbrev pub Whole : Expression → Type 0
Whole e =
    (f p : ℕ) (s : Stream)
    → level e ≤ p
    → 1 ≤ p
    → 20 * remaining (onto e s) + 6 < f
    → NoPostfix s
    → NoBinary p s
    → (is_open e ≡ true → NoBinary 6 s)
    → NoElse s
    → parse_expression f p (onto e s) ≡ ok (e, s)

abbrev pub Any : Expression → Type 0
Any e =
    (f : ℕ) (s : Stream)
    → 20 * remaining (onto e s) + 6 < f
    → Closed s
    → parse_expression f any_precedence (onto e s) ≡ ok (e, s)

right_level_le : (q : ℕ) → right_level q ≤ q
right_level_le q = ground arith

pub Spine-Whole : (e : Expression) → Spine e → Whole e
unfolding parse_expression
Spine-Whole e spine zero p s le one fuel np nb c n = absurd (omega arith)
Spine-Whole e spine (suc f) p s le one fuel np nb c n =
    let no =
      NoBinary-le (right_level (level e)) p s (omega (arith, right_level_le (level e), le)) nb in
    let (g, more, q) = spine f p s le one (omega (arith, fuel)) np no c n in
    q ∙ binary_ends g p e s (omega (arith, more)) n nb

pub Spine-Any : (e : Expression) → IsExpression e → Spine e → Any e
Spine-Any e is spine f s fuel (np, nb, n) =
    Spine-Whole e spine f any_precedence s (omega (arith, level_le e is)) (omega arith) fuel np
      (NoBinary-any any_precedence s nb) (λ o. nb) n

-- An operand that is read at once.
pub operand-Spine :
    (e : Expression) (f p : ℕ) (s : Stream)
    → 20 * remaining (onto e s) + 5 < f
    → parse_operand f p (onto e s) ≡ ok (e, s)
    → (g : ℕ) × (20 * remaining s + 9 < g)
      × (bind (parse_operand f p (onto e s)) (λ (x, s'). parse_binary f p x s')
          ≡ parse_binary g p e s)
operand-Spine e f p s fuel q = (f, omega (arith, fuel, onto_longer e s), bind-ok _ q refl)

pub Chain-Spine : (e : Expression) → IsExpression e → level e ≡ 0 → Chain e → Spine e
Chain-Spine e is z chain f p s le one fuel np nb c n =
    let (f', q) = two f (omega (arith, fuel)) in
    let (g, more, q') = chain f' p s (omega (arith, fuel, q)) (λ o. (np, c o)) n in
    operand-Spine e f p s fuel (
      ap (λ f. parse_operand f p (onto e s)) q
      ∙ operand_primary f' p (onto e s) (onto_primary_starts e s is z)
      ∙ q'
      ∙ postfix_ends g p e s (omega (arith, more)) n np)

-- A primary expression that is read at once.
abbrev pub Atom : Expression → Type 0
Atom e =
    (f : ℕ) (s : Stream)
    → 20 * remaining (onto e s) + 1 < f
    → (is_open e ≡ true → NoPostfix s × NoBinary 6 s)
    → NoElse s
    → parse_primary_expression (suc (suc f)) (onto e s) ≡ ok (e, s)

pub Atom-Chain : (e : Expression) → Atom e → Chain e
Atom-Chain e atom f p s fuel c n =
    let (f', q) = two f (omega (arith, fuel)) in
    (
      f,
      omega (arith, fuel, onto_longer e s),
      bind-ok _
          (ap (λ f. parse_primary_expression f (onto e s)) q
            ∙ atom f' s (omega (arith, fuel, q)) c n)
          refl,
    )

abbrev pub Parses : Expression → Type 0
Parses e = (level e ≡ 0 → Chain e) × Spine e

pub Chain-Parses : (e : Expression) → IsExpression e → level e ≡ 0 → Chain e → Parses e
Chain-Parses e is z chain = ((λ _. chain), Chain-Spine e is z chain)

pub Atom-Parses : (e : Expression) → IsExpression e → level e ≡ 0 → Atom e → Parses e
Atom-Parses e is z atom = Chain-Parses e is z (Atom-Chain e atom)

-- The bound that a left operand's own right operand keeps, before the operator.
pub left-NoBinary :
    (left : Expression) (op : Lexeme) (s : Stream)
    → level left ≤ left_level (operator_level (get_binary_operator (op.token)))
    → NoBinary (right_level (level left)) (next op s)
left-NoBinary left op s le o h =
    let (q, twice, six) = binary_bounds (op.token) o h in
    bound (level left) (get_operator_precedence o) (subst (λ k. level left ≤ left_level k) q le)
      twice six
  where
    bound : (l k : ℕ) → l ≤ left_level k → 2 ≤ k → k ≤ 6 → right_level l < k
    bound l k le t s = ground arith
