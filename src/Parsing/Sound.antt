-- ===== src/Parsing/Sound.antt =====
-- What each rule of the parser (code/parsing/src/parser.cpp) reads. The rules call each other, hence one
-- mutual block.
use basedlang.Prelude.{
  ℕ, zero, suc, ◌+◌, ◌*◌, ◌≤◌, ◌<◌, ◌≡◌, refl, sym, ap, ◌∙◌, subst, false, leb, if◌then◌else◌,
  arith, Option, none, some, ◌++◌,
}
use basedlang.Lexing.Token.{Token, Lexeme}
use basedlang.Ast.{Expression}
use basedlang.Ast.Operators.{
  Operator, get_operator_precedence, get_prefix_operator, get_postfix_operator, get_binary_operator,
}
use basedlang.Ast.Lexemes.{
  lexemes, lexemes_optional, lexemes_arguments, lexemes_parameters, lexemes_block, lexemes_else_if,
  lexemes_else, lexemes_statement,
}
use basedlang.Parsing.Result.{
  Stream, give-append, remaining, Ensures, holds, rejected, Ensures-bind, Ensures-choose,
}
use basedlang.Parsing.Parser.{
  fitting, any_precedence, rhs_precedence, StatementKind, statement_kind, PrimaryKind, primary_kind,
  parse_expression, parse_operand, parse_operand_at, parse_prefix_bracket, parse_postfix,
  parse_postfix_at, parse_binary, parse_binary_at, parse_arguments, parse_primary_expression,
  parse_primary_at, parse_fn_expression, parse_parameters, parse_if_expression, parse_else,
  parse_block_expression, parse_block_statements, parse_block_statement_at, parse_statement_at,
}
use basedlang.Parsing.Grammar.{
  operator_level, IsExpression, IsOptional, IsArguments, IsParameters, IsBlock, IsElseIf, IsElse,
  IsStatement,
}
use basedlang.Parsing.Expects.{
  expect-Takes, next_is-Same, expect_if-TakesOption, peek-First, HeadIsOption, read-HeadIs,
  NoBinary, NoBinary-le, rhs-right,
}
use basedlang.Parsing.Steps.{
  Reads, ReadsSome, ReadsExpression, ReadsOperand, ReadsPrimary, FromPrimary, FromOperand, shut,
  operand-LeftOf, LeftOf-closed, binary-LeftOf, First-operator, BinaryHead, First-binary,
  PostfixHead, First-postfix, is_other, caret_lem, prefix_one, HeadIs-bounds, LeftOf-at, rhs_one,
  binary-IsExpression, moved, ReadsBody, RecurseHead, First-recurse, read-recurse,
}

mutual
  unfolding parse_expression lexemes IsExpression is_other

  parse_expression-Reads :
      (f p : ℕ) (s : Stream)
      → 1 ≤ p
      → 20 * remaining s + 6 < f
      → Ensures (ReadsExpression p s) (parse_expression f p s)
  parse_expression-Reads zero p s one h = absurd (omega arith)
  parse_expression-Reads (suc f) p s one h =
      Ensures-bind (parse_operand-Reads f p s one (omega arith)) λ (e, s₁) (q, less, is, le, np, c).
        parse_binary-Reads f p e s s₁ one (omega arith)
          (q, less, is, omega arith, np, operand-LeftOf e s₁ le c)

  parse_operand-Reads :
      (f p : ℕ) (s : Stream)
      → 1 ≤ p
      → 20 * remaining s + 5 < f
      → Ensures (ReadsOperand s) (parse_operand f p s)
  parse_operand-Reads zero p s one h = absurd (omega arith)
  parse_operand-Reads (suc f) p s one h = Ensures-bind (peek-First s) λ (l, s₁) (q, first).
      moved ReadsOperand q (
        parse_operand_at-Reads f p (fitting (get_prefix_operator (l.token)) p) s₁ one
          (omega (arith, ap remaining q))
          (First-operator get_prefix_operator p l s₁ refl first
            (fitting (get_prefix_operator (l.token)) p) refl))

  parse_operand_at-Reads :
      (f p : ℕ) (o : Option Operator) (s : Stream)
      → 1 ≤ p
      → 20 * remaining s + 4 < f
      → HeadIsOption get_prefix_operator o s
      → Ensures (ReadsOperand s) (parse_operand_at f p o s)
  parse_operand_at-Reads zero p o s one h k = absurd (omega arith)
  parse_operand_at-Reads (suc f) p (some o) s one h k =
      let one' : get_operator_precedence o ≡ 1 = prefix_one s o k in
      Ensures-bind (read-HeadIs get_prefix_operator o s k) λ (op, s₁) (q, n, t).
        Ensures-bind
          (parse_expression-Reads f (get_operator_precedence o) s₁ (omega arith) (omega arith))
          λ (e, s₂) (q₂, less₂, is₂, a). holds (
            simp (q, q₂),
            omega arith,
            ((o, t), is₂, omega (arith, a.fits)),
            omega arith,
            a.no_postfix,
            a.closed,
          )
  parse_operand_at-Reads (suc f) p none s one h k =
      Ensures-bind (next_is-Same Token.lbracket s) λ (b, s₁) q. moved ReadsOperand q (
        Ensures-choose (if b then leb 1 p else false) _ _ s₁
          (λ _. parse_prefix_bracket-Reads f s₁ (omega (arith, ap remaining q)))
          (λ _.
            Ensures-bind (parse_primary_expression-Reads f s₁ (omega (arith, ap remaining q)))
              λ (e, s₂) (q₂, less, is, lv, c).
                parse_postfix-Reads f p e s₁ s₂ (omega (arith, ap remaining q))
                  (q₂, less, is, lv, c)))

  parse_prefix_bracket-Reads :
      (f : ℕ) (s : Stream)
      → 20 * remaining s + 1 < f
      → Ensures (ReadsOperand s) (parse_prefix_bracket f s)
  parse_prefix_bracket-Reads zero s h = absurd (omega arith)
  parse_prefix_bracket-Reads (suc f) s h =
      Ensures-bind (expect-Takes Token.lbracket s refl) λ (lb, s₁) (q₁, n₁, t₁).
        Ensures-bind (next_is-Same Token.rbracket s₁) λ (b, s₂) q₂.
          Ensures-bind
            (Ensures-choose {P = ReadsSome lexemes_optional IsOptional s₂} b _ _ s₂
              (λ _. holds (refl, omega arith, tt))
              (λ _.
                Ensures-bind
                  (parse_expression-Reads f any_precedence s₂ (omega arith)
                    (omega (arith, ap remaining q₂)))
                  λ (e, s₃) (q₃, less₃, is₃, a₃). holds (q₃, omega arith, is₃)))
            λ (size, s₃) (q₃, less₃, is₃).
              Ensures-bind (expect-Takes Token.rbracket s₃ refl) λ (rb, s₄) (q₄, n₄, t₄).
                Ensures-bind
                  (parse_expression-Reads f 1 s₄ (omega arith) (omega (arith, ap remaining q₂)))
                  λ (e, s₅) (q₅, less₅, is₅, a₅). holds (
                    simp (q₁, q₂, q₃, q₄, q₅, give-append),
                    omega (arith, ap remaining q₂),
                    (t₁, is₃, t₄, is₅, a₅.fits),
                    omega arith,
                    a₅.no_postfix,
                    a₅.closed,
                  )

  parse_postfix-Reads :
      (f p : ℕ) (e : Expression) (s₀ s : Stream)
      → 20 * remaining s + 2 < f
      → FromPrimary e s₀ s
      → Ensures (ReadsOperand s₀) (parse_postfix f p e s)
  parse_postfix-Reads zero p e s₀ s h k = absurd (omega arith)
  parse_postfix-Reads (suc f) p e s₀ s h k = Ensures-bind (peek-First s) λ (l, s₁) (q, first).
      parse_postfix_at-Reads f p e s₀ s₁ (fitting (get_postfix_operator (l.token)) p)
        (omega (arith, ap remaining q)) (subst (FromPrimary e s₀) q k)
        (First-postfix p l s₁ first (fitting (get_postfix_operator (l.token)) p) refl)

  parse_postfix_at-Reads :
      (f p : ℕ) (e : Expression) (s₀ s : Stream) (o : Option Operator)
      → 20 * remaining s + 1 < f
      → FromPrimary e s₀ s
      → PostfixHead o s
      → Ensures (ReadsOperand s₀) (parse_postfix_at f p e o s)
  parse_postfix_at-Reads zero p e s₀ s o h k b = absurd (omega arith)
  parse_postfix_at-Reads (suc f) p e s₀ s none h (q, less, is, lv, c) b =
      holds (q, less, is, omega arith, b, λ o. (c o).1)
  parse_postfix_at-Reads (suc f) p e s₀ s (some Operator.call) h (q, less, is, lv, c) b =
      Ensures-bind (expect-Takes Token.lparen s refl) λ (lp, s₁) (q₁, n₁, t₁).
        Ensures-bind (parse_arguments-Reads f s₁ (omega arith)) λ (es, s₂) (q₂, less₂, is₂).
          Ensures-bind (expect-Takes Token.rparen s₂ refl) λ (rp, s₃) (q₃, n₃, t₃).
            parse_postfix-Reads f p (Expression.call e lp es.0 es.1 rp) s₀ s₃ (omega arith) (
              simp (q, q₁, q₂, q₃, give-append),
              omega arith,
              ((is, lv, shut e s Operator.call b c), t₁, is₂, t₃),
              refl,
              λ o. absurd (cc o),
            )
  parse_postfix_at-Reads (suc f) p e s₀ s (some Operator.index) h (q, less, is, lv, c) b =
      Ensures-bind (expect-Takes Token.lbracket s refl) λ (lb, s₁) (q₁, n₁, t₁).
        Ensures-bind (parse_expression-Reads f any_precedence s₁ (omega arith) (omega arith))
          λ (i, s₂) (q₂, less₂, is₂, a₂).
            Ensures-bind (expect-Takes Token.rbracket s₂ refl) λ (rb, s₃) (q₃, n₃, t₃).
              parse_postfix-Reads f p (Expression.index e lb i rb) s₀ s₃ (omega arith) (
                simp (q, q₁, q₂, q₃, give-append),
                omega arith,
                ((is, lv, shut e s Operator.index b c), t₁, is₂, t₃),
                refl,
                λ o. absurd (cc o),
              )
  parse_postfix_at-Reads (suc f) p e s₀ s (some op) h (q, less, is, lv, c) b =
      Ensures-bind (read-HeadIs get_postfix_operator op s b) λ (l, s₁) (q₁, n₁, t₁).
        parse_postfix-Reads f p (Expression.postfix e l) s₀ s₁ (omega arith) (
          simp (q, q₁, give-append),
          omega arith,
          (caret_lem (l.token) op t₁ refl, (is, lv, shut e s op b c)),
          refl,
          λ o. absurd (cc o),
        )

  parse_binary-Reads :
      (f p : ℕ) (e : Expression) (s₀ s : Stream)
      → 1 ≤ p
      → 20 * remaining s + 2 < f
      → FromOperand p e s₀ s
      → Ensures (ReadsExpression p s₀) (parse_binary f p e s)
  parse_binary-Reads zero p e s₀ s one h k = absurd (omega arith)
  parse_binary-Reads (suc f) p e s₀ s one h k = Ensures-bind (peek-First s) λ (l, s₁) (q, first).
      parse_binary_at-Reads f p e s₀ s₁ (fitting (get_binary_operator (l.token)) p) one
        (omega (arith, ap remaining q)) (subst (FromOperand p e s₀) q k)
        (First-binary p l s₁ first (fitting (get_binary_operator (l.token)) p) refl)

  parse_binary_at-Reads :
      (f p : ℕ) (e : Expression) (s₀ s : Stream) (o : Option Operator)
      → 1 ≤ p
      → 20 * remaining s + 1 < f
      → FromOperand p e s₀ s
      → BinaryHead p o s
      → Ensures (ReadsExpression p s₀) (parse_binary_at f p e o s)
  parse_binary_at-Reads zero p e s₀ s o one h k b = absurd (omega arith)
  parse_binary_at-Reads (suc f) p e s₀ s none one h (q, less, is, le, np, left) b = holds (
    q,
    less,
    is,
    record { fits = le; no_postfix = np; no_binary = b; closed = LeftOf-closed e s left },
  )
  parse_binary_at-Reads (suc f) p e s₀ s (some o) one h (q, less, is, le, np, left) (b, fits) =
      Ensures-bind (read-HeadIs get_binary_operator o s b) λ (op, s₁) (q₁, n₁, t).
        Ensures-bind
          (parse_expression-Reads f (rhs_precedence (get_operator_precedence o)) s₁
            (rhs_one (get_operator_precedence o) (HeadIs-bounds s o b).0) (omega arith))
          λ (r, s₂) (q₂, less₂, is₂, a).
            parse_binary-Reads f p (Expression.binary e op r) s₀ s₂ one (omega arith) (
              simp (q, q₁, q₂, give-append),
              omega arith,
              binary-IsExpression e r op o t is (LeftOf-at e s o left b) is₂ (a.fits),
              subst (λ k. k ≤ p) (sym (ap operator_level t)) fits,
              a.no_postfix,
              binary-LeftOf e r op o s₂ t
                  (subst (λ k. NoBinary k s₂) (rhs-right (get_operator_precedence o)) (a.no_binary))
                  (a.closed),
            )

  parse_arguments-Reads :
      (f : ℕ) (s : Stream)
      → 20 * remaining s + 7 < f
      → Ensures
          (ReadsSome (λ r. lexemes_arguments r.0 r.1) (λ r. IsArguments r.0 r.1) s)
          (parse_arguments f s)
  parse_arguments-Reads zero s h = absurd (omega arith)
  parse_arguments-Reads (suc f) s h = Ensures-bind (next_is-Same Token.rparen s) λ (b, s₁) q₁.
      Ensures-choose b _ _ s₁ (λ _. holds (q₁, omega (arith, ap remaining q₁), tt))
        λ _.
          Ensures-bind
            (parse_expression-Reads f any_precedence s₁ (omega arith)
              (omega (arith, ap remaining q₁)))
            λ (e, s₂) (q₂, less₂, is₂, a₂).
              Ensures-bind (next_is-Same Token.comma s₂) λ (more, s₃) q₃.
                Ensures-choose more _ _ s₃
                  (λ _. Ensures-bind (expect-Takes Token.comma s₃ refl) λ (c, s₄) (q₄, n₄, t₄).
                    Ensures-bind
                      (parse_arguments-Reads f s₄ (omega (arith, ap remaining q₁, ap remaining q₃)))
                      λ (es, s₅) (q₅, less₅, is₅). holds (
                        simp (q₁, q₂, q₃, q₄, q₅, give-append),
                        omega (arith, ap remaining q₁, ap remaining q₃),
                        (is₂, t₄, is₅),
                      ))
                  (λ _. holds (
                    simp (q₁, q₂, q₃, give-append),
                    omega (arith, ap remaining q₁, ap remaining q₃),
                    (is₂, refl),
                  ))

  parse_primary_expression-Reads :
      (f : ℕ) (s : Stream)
      → 20 * remaining s + 3 < f
      → Ensures (ReadsPrimary s) (parse_primary_expression f s)
  parse_primary_expression-Reads zero s h = absurd (omega arith)
  parse_primary_expression-Reads (suc f) s h = Ensures-bind (peek-First s) λ (l, s₁) (q, first).
      moved ReadsPrimary q (
        parse_primary_at-Reads f l (primary_kind (l.token)) s₁ (omega (arith, ap remaining q))
          (First-recurse l s₁ first (primary_kind (l.token)) refl))

  parse_primary_at-Reads :
      (f : ℕ) (l : Lexeme) (kind : PrimaryKind) (s : Stream)
      → 20 * remaining s + 2 < f
      → RecurseHead kind s
      → Ensures (ReadsPrimary s) (parse_primary_at f l kind s)
  parse_primary_at-Reads zero l kind s h k = absurd (omega arith)
  parse_primary_at-Reads (suc f) l PrimaryKind.int_kind s h k =
      Ensures-bind (expect-Takes Token.int_literal s refl)
        λ (l', s₁) (q, n, t). holds (q, omega arith, t, refl, λ o. absurd (cc o))
  parse_primary_at-Reads (suc f) l PrimaryKind.float_kind s h k =
      Ensures-bind (expect-Takes Token.float_literal s refl)
        λ (l', s₁) (q, n, t). holds (q, omega arith, t, refl, λ o. absurd (cc o))
  parse_primary_at-Reads (suc f) l PrimaryKind.identifier_kind s h k =
      Ensures-bind (expect-Takes Token.identifier s refl)
        λ (l', s₁) (q, n, t). holds (q, omega arith, t, refl, λ o. absurd (cc o))
  parse_primary_at-Reads (suc f) l PrimaryKind.recurse_kind s h k =
      Ensures-bind (read-recurse s k)
        λ (l', s₁) (q, n, t). holds (q, omega arith, t, refl, λ o. absurd (cc o))
  parse_primary_at-Reads (suc f) l PrimaryKind.if_kind s h k =
      parse_if_expression-Reads f s (omega arith)
  parse_primary_at-Reads (suc f) l PrimaryKind.block_kind s h k =
      Ensures-bind (parse_block_expression-Reads f s (omega arith))
        λ (b, s₁) (q, less, is). holds (q, less, is, refl, λ o. absurd (cc o))
  parse_primary_at-Reads (suc f) l PrimaryKind.paren_kind s h k =
      Ensures-bind (expect-Takes Token.lparen s refl) λ (lp, s₁) (q₁, n₁, t₁).
        Ensures-bind (parse_expression-Reads f any_precedence s₁ (omega arith) (omega arith))
          λ (e, s₂) (q₂, less₂, is₂, a₂).
            Ensures-bind (expect-Takes Token.rparen s₂ refl) λ (rp, s₃) (q₃, n₃, t₃).
              holds (
                simp (q₁, q₂, q₃, give-append),
                omega arith,
                (t₁, is₂, t₃),
                refl,
                λ o. absurd (cc o),
              )
  parse_primary_at-Reads (suc f) l PrimaryKind.fn_kind s h k =
      parse_fn_expression-Reads f s (omega arith)
  parse_primary_at-Reads (suc f) l PrimaryKind.no_kind s h k = rejected

  parse_fn_expression-Reads :
      (f : ℕ) (s : Stream)
      → 20 * remaining s + 1 < f
      → Ensures (ReadsPrimary s) (parse_fn_expression f s)
  parse_fn_expression-Reads zero s h = absurd (omega arith)
  parse_fn_expression-Reads (suc f) s h =
      Ensures-bind (expect-Takes Token.kw_fn s refl) λ (kw, s₁) (q₁, n₁, t₁).
        Ensures-bind (next_is-Same Token.identifier s₁) λ (named, s₂) q₂.
          Ensures-bind (expect_if-TakesOption Token.identifier named s₂ refl)
            λ (name, s₃) (q₃, n₃, t₃).
              Ensures-bind (expect-Takes Token.lparen s₃ refl) λ (lp, s₄) (q₄, n₄, t₄).
                Ensures-bind (parse_parameters-Reads f s₄ (omega (arith, ap remaining q₂)))
                  λ (ps, s₅) (q₅, less₅, is₅).
                    Ensures-bind (expect-Takes Token.rparen s₅ refl) λ (rp, s₆) (q₆, n₆, t₆).
                      Ensures-bind (expect-Takes Token.colon s₆ refl) λ (co, s₇) (q₇, n₇, t₇).
                        Ensures-bind
                          (parse_expression-Reads f any_precedence s₇ (omega arith)
                            (omega (arith, ap remaining q₂)))
                          λ (ty, s₈) (q₈, less₈, is₈, a₈).
                            Ensures-bind (expect-Takes Token.fat_arrow s₈ refl)
                              λ (ar, s₉) (q₉, n₉, t₉).
                                Ensures-bind
                                  (parse_expression-Reads f any_precedence s₉ (omega arith)
                                    (omega (arith, ap remaining q₂)))
                                  λ (body, s') (q', less', is', a'). holds (
                                    simp (q₁, q₂, q₃, q₄, q₅, q₆, q₇, q₈, q₉, q', give-append),
                                    omega (arith, ap remaining q₂),
                                    (t₁, t₃, t₄, is₅, t₆, t₇, is₈, t₉, is'),
                                    refl,
                                    λ o. (
                                      a'.no_postfix,
                                      NoBinary-le 6 any_precedence s' (omega arith) (a'.no_binary),
                                    ),
                                  )

  parse_parameters-Reads :
      (f : ℕ) (s : Stream)
      → 20 * remaining s + 1 < f
      → Ensures
          (ReadsSome (λ r. lexemes_parameters r.0 r.1) (λ r. IsParameters r.0 r.1) s)
          (parse_parameters f s)
  parse_parameters-Reads zero s h = absurd (omega arith)
  parse_parameters-Reads (suc f) s h = Ensures-bind (next_is-Same Token.rparen s) λ (b, s₁) q₁.
      Ensures-choose b _ _ s₁ (λ _. holds (q₁, omega (arith, ap remaining q₁), tt))
        λ _. Ensures-bind (next_is-Same Token.kw_mut s₁) λ (is_mut, s₂) q₂.
          Ensures-bind (expect_if-TakesOption Token.kw_mut is_mut s₂ refl) λ (kw, s₃) (q₃, n₃, t₃).
            Ensures-bind (expect-Takes Token.identifier s₃ refl) λ (name, s₄) (q₄, n₄, t₄).
              Ensures-bind (expect-Takes Token.colon s₄ refl) λ (co, s₅) (q₅, n₅, t₅).
                Ensures-bind
                  (parse_expression-Reads f any_precedence s₅ (omega arith)
                    (omega (arith, ap remaining q₁, ap remaining q₂)))
                  λ (ty, s₆) (q₆, less₆, is₆, a₆).
                    Ensures-bind (next_is-Same Token.comma s₆) λ (more, s₇) q₇.
                      Ensures-choose more _ _ s₇
                        (λ _.
                          Ensures-bind (expect-Takes Token.comma s₇ refl) λ (c, s₈) (q₈, n₈, t₈).
                            Ensures-bind
                              (parse_parameters-Reads f s₈
                                (omega (arith, ap remaining q₁, ap remaining q₂, ap remaining q₇)))
                              λ (ps, s₉) (q₉, less₉, is₉). holds (
                                simp (q₁, q₂, q₃, q₄, q₅, q₆, q₇, q₈, q₉, give-append),
                                omega (arith, ap remaining q₁, ap remaining q₂, ap remaining q₇),
                                ((t₃, t₄, t₅, is₆), t₈, is₉),
                              ))
                        (λ _. holds (
                          simp (q₁, q₂, q₃, q₄, q₅, q₆, q₇, give-append),
                          omega (arith, ap remaining q₁, ap remaining q₂, ap remaining q₇),
                          ((t₃, t₄, t₅, is₆), refl),
                        ))

  parse_if_expression-Reads :
      (f : ℕ) (s : Stream)
      → 20 * remaining s + 1 < f
      → Ensures (ReadsPrimary s) (parse_if_expression f s)
  parse_if_expression-Reads zero s h = absurd (omega arith)
  parse_if_expression-Reads (suc f) s h =
      Ensures-bind (expect-Takes Token.kw_if s refl) λ (kw, s₁) (q₁, n₁, t₁).
        Ensures-bind (parse_expression-Reads f any_precedence s₁ (omega arith) (omega arith))
          λ (c, s₂) (q₂, less₂, is₂, a₂).
            Ensures-bind (parse_block_expression-Reads f s₂ (omega arith))
              λ (b, s₃) (q₃, less₃, is₃).
                Ensures-bind (parse_else-Reads f s₃ (omega arith)) λ (parts, s₄) (q₄, less₄, is₄).
                  holds (
                    simp (q₁, q₂, q₃, q₄, give-append),
                    omega arith,
                    (t₁, is₂, is₃, is₄.0, is₄.1),
                    refl,
                    λ o. absurd (cc o),
                  )

  parse_else-Reads :
      (f : ℕ) (s : Stream)
      → 20 * remaining s + 1 < f
      → Ensures
          (ReadsSome
            (λ r. lexemes_else_if r.0 ++ lexemes_else r.1)
            (λ r. IsElseIf r.0 × IsElse r.1)
            s)
          (parse_else f s)
  parse_else-Reads zero s h = absurd (omega arith)
  parse_else-Reads (suc f) s h = Ensures-bind (next_is-Same Token.kw_else s) λ (b, s₁) q₁.
      Ensures-choose b _ _ s₁
        (λ _. Ensures-bind (expect-Takes Token.kw_else s₁ refl) λ (ke, s₂) (q₂, n₂, t₂).
          Ensures-bind (next_is-Same Token.kw_if s₂) λ (has_if, s₃) q₃.
            Ensures-choose has_if _ _ s₃
              (λ _. Ensures-bind (expect-Takes Token.kw_if s₃ refl) λ (ki, s₄) (q₄, n₄, t₄).
                Ensures-bind
                  (parse_expression-Reads f any_precedence s₄ (omega arith)
                    (omega (arith, ap remaining q₁, ap remaining q₃)))
                  λ (c, s₅) (q₅, less₅, is₅, a₅).
                    Ensures-bind
                      (parse_block_expression-Reads f s₅
                        (omega (arith, ap remaining q₁, ap remaining q₃)))
                      λ (body, s₆) (q₆, less₆, is₆).
                        Ensures-bind
                          (parse_else-Reads f s₆ (omega (arith, ap remaining q₁, ap remaining q₃)))
                          λ (r, s₇) (q₇, less₇, is₇). holds (
                            simp (q₁, q₂, q₃, q₄, q₅, q₆, q₇, give-append),
                            omega (arith, ap remaining q₁, ap remaining q₃),
                            ((t₂, t₄, is₅, is₆, is₇.0), is₇.1),
                          ))
              (λ _.
                Ensures-bind
                  (parse_block_expression-Reads f s₃
                    (omega (arith, ap remaining q₁, ap remaining q₃)))
                  λ (body, s₄) (q₄, less₄, is₄). holds (
                    simp (q₁, q₂, q₃, q₄, give-append),
                    omega (arith, ap remaining q₁, ap remaining q₃),
                    (tt, (t₂, is₄)),
                  )))
        (λ _. holds (q₁, omega (arith, ap remaining q₁), (tt, tt)))

  parse_block_expression-Reads :
      (f : ℕ) (s : Stream)
      → 20 * remaining s + 1 < f
      → Ensures (Reads lexemes_block IsBlock s) (parse_block_expression f s)
  parse_block_expression-Reads zero s h = absurd (omega arith)
  parse_block_expression-Reads (suc f) s h =
      Ensures-bind (expect-Takes Token.lbrace s refl) λ (lb, s₁) (q₁, n₁, t₁).
        Ensures-bind (parse_block_statements-Reads f s₁ (omega arith))
          λ (body, s₂) (q₂, less₂, is₂).
            Ensures-bind (expect-Takes Token.rbrace s₂ refl) λ (rb, s₃) (q₃, n₃, t₃).
              holds (simp (q₁, q₂, q₃, give-append), omega arith, (t₁, is₂.0, is₂.1, t₃))

  parse_block_statements-Reads :
      (f : ℕ) (s : Stream)
      → 20 * remaining s + 9 < f
      → Ensures (ReadsBody s) (parse_block_statements f s)
  parse_block_statements-Reads zero s h = absurd (omega arith)
  parse_block_statements-Reads (suc f) s h =
      Ensures-bind (next_is-Same Token.rbrace s) λ (b, s₁) q₁.
        Ensures-choose b _ _ s₁ (λ _. holds (q₁, omega (arith, ap remaining q₁), (tt, tt)))
          λ _. Ensures-bind (peek-First s₁) λ (l, s₂) (q₂, first). moved ReadsBody (q₁ ∙ q₂) (
            parse_block_statement_at-Reads f (statement_kind (l.token)) s₂
              (omega (arith, ap remaining q₁, ap remaining q₂)))

  parse_block_statement_at-Reads :
      (f : ℕ) (kind : StatementKind) (s : Stream)
      → 20 * remaining s + 8 < f
      → Ensures (ReadsBody s) (parse_block_statement_at f kind s)
  parse_block_statement_at-Reads zero kind s h = absurd (omega arith)
  parse_block_statement_at-Reads (suc f) StatementKind.expression_kind s h =
      Ensures-bind (parse_expression-Reads f any_precedence s (omega arith) (omega arith))
        λ (e, s₁) (q₁, less₁, is₁, a₁).
          Ensures-bind (next_is-Same Token.semicolon s₁) λ (ended, s₂) q₂.
            Ensures-choose ended _ _ s₂
              (λ _. Ensures-bind (expect-Takes Token.semicolon s₂ refl) λ (semi, s₃) (q₃, n₃, t₃).
                Ensures-bind (parse_block_statements-Reads f s₃ (omega (arith, ap remaining q₂)))
                  λ (r, s₄) (q₄, less₄, is₄). holds (
                    simp (q₁, q₂, q₃, q₄, give-append),
                    omega (arith, ap remaining q₂),
                    (((is₁, t₃), is₄.0), is₄.1),
                  ))
              (λ _. holds (simp (q₁, q₂, give-append), omega (arith, ap remaining q₂), (tt, is₁)))
  parse_block_statement_at-Reads (suc f) kind s h =
      Ensures-bind (parse_statement_at-Reads f kind s (omega arith)) λ (st, s₁) (q₁, less₁, is₁).
        Ensures-bind (parse_block_statements-Reads f s₁ (omega arith)) λ (r, s₂) (q₂, less₂, is₂).
          holds (simp (q₁, q₂, give-append), omega arith, ((is₁, is₂.0), is₂.1))

  pub parse_statement_at-Reads :
      (f : ℕ) (kind : StatementKind) (s : Stream)
      → 20 * remaining s + 7 < f
      → Ensures (Reads lexemes_statement IsStatement s) (parse_statement_at f kind s)
  parse_statement_at-Reads zero kind s h = absurd (omega arith)
  parse_statement_at-Reads (suc f) StatementKind.let_kind s h =
      Ensures-bind (expect-Takes Token.kw_let s refl) λ (kw, s₁) (q₁, n₁, t₁).
        Ensures-bind (next_is-Same Token.kw_mut s₁) λ (is_mut, s₂) q₂.
          Ensures-bind (expect_if-TakesOption Token.kw_mut is_mut s₂ refl) λ (mut, s₃) (q₃, n₃, t₃).
            Ensures-bind (expect-Takes Token.identifier s₃ refl) λ (name, s₄) (q₄, n₄, t₄).
              Ensures-bind (expect-Takes Token.eq s₄ refl) λ (eq, s₅) (q₅, n₅, t₅).
                Ensures-bind
                  (parse_expression-Reads f any_precedence s₅ (omega arith)
                    (omega (arith, ap remaining q₂)))
                  λ (e, s₆) (q₆, less₆, is₆, a₆).
                    Ensures-bind (expect-Takes Token.semicolon s₆ refl) λ (semi, s₇) (q₇, n₇, t₇).
                      holds (
                        simp (q₁, q₂, q₃, q₄, q₅, q₆, q₇, give-append),
                        omega (arith, ap remaining q₂),
                        (t₁, t₃, t₄, t₅, is₆, t₇),
                      )
  parse_statement_at-Reads (suc f) StatementKind.return_kind s h =
      Ensures-bind (expect-Takes Token.kw_return s refl) λ (kw, s₁) (q₁, n₁, t₁).
        Ensures-bind (parse_expression-Reads f any_precedence s₁ (omega arith) (omega arith))
          λ (e, s₂) (q₂, less₂, is₂, a₂).
            Ensures-bind (expect-Takes Token.semicolon s₂ refl) λ (semi, s₃) (q₃, n₃, t₃).
              holds (simp (q₁, q₂, q₃, give-append), omega arith, (t₁, is₂, t₃))
  parse_statement_at-Reads (suc f) StatementKind.while_kind s h =
      Ensures-bind (expect-Takes Token.kw_while s refl) λ (kw, s₁) (q₁, n₁, t₁).
        Ensures-bind (parse_expression-Reads f any_precedence s₁ (omega arith) (omega arith))
          λ (e, s₂) (q₂, less₂, is₂, a₂).
            Ensures-bind (parse_block_expression-Reads f s₂ (omega arith))
              λ (b, s₃) (q₃, less₃, is₃).
                holds (simp (q₁, q₂, q₃, give-append), omega arith, (t₁, is₂, is₃))
  parse_statement_at-Reads (suc f) StatementKind.expression_kind s h =
      Ensures-bind (parse_expression-Reads f any_precedence s (omega arith) (omega arith))
        λ (e, s₁) (q₁, less₁, is₁, a₁).
          Ensures-bind (expect-Takes Token.semicolon s₁ refl)
            λ (semi, s₂) (q₂, n₂, t₂). holds (simp (q₁, q₂, give-append), omega arith, (is₁, t₂))
