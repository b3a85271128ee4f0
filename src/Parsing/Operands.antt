-- ===== src/Parsing/Operands.antt =====
-- The rules of the parser (code/parsing/src/parser.cpp) for operators and their operands, where the parts
-- are parsed.
use basedlang.Prelude.{
  ℕ, zero, suc, ◌+◌, ◌*◌, ◌≤◌, ◌<◌, ◌≡◌, refl, sym, ap, ◌∙◌, subst, true, false, arith, List,
}
use basedlang.Lexing.Token.{Token, Lexeme}
use basedlang.Ast.{Expression, Optional, Arguments}
use basedlang.Ast.Operators.{get_operator_precedence, get_binary_operator}
use basedlang.Parsing.Result.{Stream, next, ok, remaining}
use basedlang.Parsing.Parser.{
  rhs_precedence, parse_expression, parse_operand, parse_prefix_bracket, parse_postfix,
  parse_binary,
}
use basedlang.Parsing.Grammar.{Has, is_open, left_level, right_level, operator_level, IsExpression}
use basedlang.Parsing.Expects.{NoBinary, binary_bounds, rhs-right}
use basedlang.Parsing.Steps.{prefix_one, rhs_one}
use basedlang.Parsing.Onto.{onto, onto_optional, onto_arguments}
use basedlang.Parsing.Longer.{onto_longer, onto_optional_longer, onto_arguments_longer}
use basedlang.Parsing.Heads.{
  expression_start, onto_starts, NoBinary-one, Has-Closed, binary-NoPostfix, binary-NoElse,
}
use basedlang.Parsing.Rounds.{
  bind-ok, choose-true, token_eq-true, expect-ok, next_is-false, operand_prefix, operand_bracket,
  binary_round, caret_round, call_round, index_round, two,
}
use basedlang.Parsing.Spines.{Chain, Spine, Whole, Any, operand-Spine, left-NoBinary}
use basedlang.Parsing.Parts.{token_false, ArgumentsOk}

one_more : (f : ℕ) → 0 < f → (f' : ℕ) × (f ≡ suc f')
one_more zero h = absurd (omega arith)
one_more (suc f) h = (f, refl)

left_level_le : (k : ℕ) → left_level k ≤ k
left_level_le k = ground arith

-- The loop over postfix operators takes one more of them.
module _ (e : Expression) (z : is_open e ≡ false) (chain : Chain e) where
  shut : is_open e ≡ true → ⊥
  shut o = absurd (cc (z, o))

  pub postfix_ok : (op : Lexeme) → Has op Token.caret → Chain (Expression.postfix e op)
  unfolding onto
  postfix_ok op h f p s fuel c n =
      let (g, more, q) =
        chain f p (next op s) fuel (λ o. absurd (shut o))
          (token_false op Token.caret Token.kw_else h refl) in
      let (g', q') = two g (omega (arith, more)) in
      (
        g',
        omega (arith, more, q'),
        q ∙ ap (λ g. parse_postfix g p e (next op s)) q' ∙ caret_round g' p e op s h,
      )

  pub call_ok :
      (lp : Lexeme) (es : Arguments) (commas : List Lexeme) (rp : Lexeme)
      → Has lp Token.lparen
      → ArgumentsOk es commas
      → Has rp Token.rparen
      → Chain (Expression.call e lp es commas rp)
  unfolding onto
  call_ok lp es commas rp h args k f p s fuel c n =
      let rest = onto_arguments es commas (next rp s) in
      let (g, more, q) =
        chain f p (next lp rest) fuel (λ o. absurd (shut o))
          (token_false lp Token.lparen Token.kw_else h refl) in
      let (g', q') = two g (omega (arith, more)) in
      (
        g',
        omega (arith, more, q', onto_arguments_longer es commas (next rp s)),
        q
            ∙ ap (λ g. parse_postfix g p e (next lp rest)) q'
            ∙ call_round g' p e lp rest h
            ∙ bind-ok _ (args g' rp s k (omega (arith, more, q')))
                (bind-ok _ (expect-ok Token.rparen rp s k) refl),
      )

  pub index_ok :
      (lb : Lexeme) (i : Expression) (rb : Lexeme)
      → Has lb Token.lbracket
      → Any i
      → Has rb Token.rbracket
      → Chain (Expression.index e lb i rb)
  unfolding onto
  index_ok lb i rb h any k f p s fuel c n =
      let rest = onto i (next rb s) in
      let (g, more, q) =
        chain f p (next lb rest) fuel (λ o. absurd (shut o))
          (token_false lb Token.lbracket Token.kw_else h refl) in
      let (g', q') = two g (omega (arith, more)) in
      (
        g',
        omega (arith, more, q', onto_longer i (next rb s)),
        q
            ∙ ap (λ g. parse_postfix g p e (next lb rest)) q'
            ∙ index_round g' p e lb rest h
            ∙ bind-ok _
                (any g' (next rb s) (omega (arith, more, q'))
                  (Has-Closed rb s Token.rbracket k refl refl refl))
                (bind-ok _ (expect-ok Token.rbracket rb s k) refl),
      )

pub binary_ok :
    (left : Expression) (op : Lexeme) (right : Expression)
    → IsExpression (Expression.binary left op right)
    → Spine left
    → Whole right
    → Spine (Expression.binary left op right)
unfolding onto IsExpression
binary_ok left op right ((o, h), hl, ll, shut, hr, lr) spine whole f p s le one fuel np nb c n =
    let (same, twice, six) = binary_bounds (op.token) o h in
    let k = operator_level (get_binary_operator (op.token)) in
    let rhs : rhs_precedence (get_operator_precedence o) ≡ right_level k =
      rhs-right (get_operator_precedence o) ∙ ap right_level (sym same) in
    let (g, more, q) =
      spine f p (next op (onto right s)) (omega (arith, ll, le, left_level_le k)) one fuel
        (binary-NoPostfix op o (onto right s) h) (left-NoBinary left op (onto right s) ll)
        (λ z. absurd (cc (z, shut))) (binary-NoElse op o (onto right s) h) in
    let (g', q') = two g (omega (arith, more)) in
    (
      g',
      omega (arith, more, q', onto_longer right s),
      q
          ∙ ap (λ g. parse_binary g p left (next op (onto right s))) q'
          ∙ binary_round g' p left op o (onto right s) h (omega (arith, same, le))
          ∙ bind-ok _
              (whole g' (rhs_precedence (get_operator_precedence o)) s (omega (arith, rhs, lr))
                (rhs_one (get_operator_precedence o) twice) (omega (arith, more, q')) np
                (subst (λ k. NoBinary k s) (sym rhs) nb) c n)
              refl,
    )

pub prefix_ok :
    (op : Lexeme) (e : Expression)
    → IsExpression (Expression.prefix op e)
    → Whole e
    → Spine (Expression.prefix op e)
unfolding onto IsExpression
prefix_ok op e ((o, h), is, le) whole f p s lp one fuel np nb c n =
    let single : get_operator_precedence o ≡ 1 = prefix_one (next op s) o h in
    let (f', q) = two f (omega (arith, fuel)) in
    operand-Spine (Expression.prefix op e) f p s fuel (
      ap (λ f. parse_operand f p (next op (onto e s))) q
      ∙ operand_prefix f' p op o (onto e s) h (omega (arith, single, one))
      ∙ bind-ok _
          (whole f' (get_operator_precedence o) s (omega (arith, single, le))
            (omega (arith, single)) (omega (arith, fuel, q)) np
            (NoBinary-one (get_operator_precedence o) s (omega (arith, single))) c n)
          refl)

-- The size of a sized array, or none.
abbrev pub SizeOk : Optional → Type 0
SizeOk size =
    (f : ℕ) (rb : Lexeme) (e : Expression) (lb : Lexeme) (s : Stream)
    → Has rb Token.rbracket
    → Has lb Token.lbracket
    → 20 * remaining (onto_optional size (next rb (onto e s))) + 7 < f
    → parse_expression f 1 (onto e s) ≡ ok (e, s)
    → parse_prefix_bracket (suc f) (next lb (onto_optional size (next rb (onto e s))))
      ≡ ok (Expression.prefix_bracket lb size rb e, s)

pub absent_ok : SizeOk Optional.absent
unfolding parse_expression onto
absent_ok f rb e lb s h k fuel q = bind-ok _ (expect-ok Token.lbracket lb (next rb (onto e s)) k) (
    bind-ok _ (choose-true _ _ _ (next rb (onto e s)) (token_eq-true Token.rbracket rb h) refl)
      (bind-ok _ (expect-ok Token.rbracket rb (onto e s) h) (bind-ok _ q refl)))

pub present_ok : (i : Expression) → IsExpression i → Any i → SizeOk (Optional.present i)
unfolding parse_expression onto
present_ok i is any f rb e lb s h k fuel q =
    let rest = next rb (onto e s) in
    bind-ok _ (expect-ok Token.lbracket lb (onto i rest) k) (
      bind-ok _
        (next_is-false expression_start Token.rbracket (onto i rest) (onto_starts i rest is) refl)
        (bind-ok _
          (bind-ok _
            (any f rest (omega (arith, fuel))
              (Has-Closed rb (onto e s) Token.rbracket h refl refl refl))
            refl)
          (bind-ok _ (expect-ok Token.rbracket rb (onto e s) h) (bind-ok _ q refl))))

pub bracket_ok :
    (lb : Lexeme) (size : Optional) (rb : Lexeme) (e : Expression)
    → IsExpression (Expression.prefix_bracket lb size rb e)
    → SizeOk size
    → Whole e
    → Spine (Expression.prefix_bracket lb size rb e)
unfolding onto IsExpression
bracket_ok lb size rb e (h₁, h₂, h₃, h₄, le) ready whole f p s lp one fuel np nb c n =
    let (f', q) = two f (omega (arith, fuel)) in
    let rest = onto_optional size (next rb (onto e s)) in
    let (f'', q') = one_more f' (omega (arith, fuel, q)) in
    operand-Spine (Expression.prefix_bracket lb size rb e) f p s fuel (
      ap (λ f. parse_operand f p (next lb rest)) q
      ∙ operand_bracket f' p lb rest h₁ one
      ∙ ap (λ f. parse_prefix_bracket f (next lb rest)) q'
      ∙ ready f'' rb e lb s h₃ h₁ (omega (arith, fuel, q, q')) (
          whole f'' 1 s le (omega arith)
            (omega (arith, fuel, q, q', onto_optional_longer size (next rb (onto e s)))) np
            (NoBinary-one 1 s (omega arith)) c n))
