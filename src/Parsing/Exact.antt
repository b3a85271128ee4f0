-- ===== src/Parsing/Exact.antt =====
-- `Parser::parse_translation_unit` (code/parsing/src/parser.cpp) and the trees of the grammar.
use basedlang.Prelude.{ℕ, zero, suc, ◌+◌, ◌*◌, ◌<◌, ◌≡◌, refl, sym, ap, ◌∙◌, subst, arith, ◌↔◌}
use basedlang.Lexing.Token.{Token}
use basedlang.Ast.{Statements}
use basedlang.Parsing.Result.{
  Stream, next, at_eof, scanner_throws, Parsed, ok, remaining, Ensures, holds, rejected,
  scanner_threw,
}
use basedlang.Parsing.Parser.{
  StatementKind, parse_statement, parse_statement_at, parse_statements, parse_translation_unit,
  fuel_for,
}
use basedlang.Parsing.Grammar.{IsStatements}
use basedlang.Parsing.Onto.{onto_statement, onto_statements, onto_statements-give}
use basedlang.Parsing.Longer.{onto_statement_longer}
use basedlang.Parsing.Rounds.{bind-ok, choose-true, next_is-false, token_eq-true, KindAt}
use basedlang.Parsing.Kinds.{kind_of, statement_start, statement-StartsWith}
use basedlang.Parsing.Complete.{statement_parses}
use basedlang.Parsing.Unit.{Ended, ReadsAll, parse_translation_unit-Reads}

statement_round :
    (f : ℕ) (k : StatementKind) (s : Stream)
    → KindAt k s
    → parse_statement f s ≡ parse_statement_at f k s
unfolding parse_statement
statement_round f k (next l s) q = ap (λ k. parse_statement_at f k (next l s)) q
statement_round f k (at_eof span) q = absurd q
statement_round f k scanner_throws q = absurd q

Ended-round :
    (n f : ℕ) (s : Stream)
    → Ended s
    → parse_statements (suc n) f s ≡ ok (Statements.no_statements, s)
unfolding parse_statements
Ended-round n f (next l s) e = choose-true _ _ _ (next l s) (token_eq-true Token.eof l e) refl
Ended-round n f (at_eof span) e = refl
Ended-round n f scanner_throws e = absurd e

statements_parse :
    (n f : ℕ) (ss : Statements) (s : Stream)
    → IsStatements ss
    → Ended s
    → remaining (onto_statements ss s) < n
    → 20 * remaining (onto_statements ss s) + 7 < f
    → parse_statements n f (onto_statements ss s) ≡ ok (ss, s)
unfolding parse_statements onto_statements IsStatements
statements_parse zero f ss s h e rounds fuel = absurd (omega arith)
statements_parse (suc n) f Statements.no_statements s h e rounds fuel = Ended-round n f s e
statements_parse (suc n) f (Statements.statement st ss) s (h, h') e rounds fuel =
    let rest = onto_statements ss s in
    let (start, kind) = statement-StartsWith st rest h in
    let less = onto_statement_longer st rest in
    bind-ok _ (next_is-false statement_start Token.eof (onto_statement st rest) start refl) (
      bind-ok _
        (statement_round f (kind_of st) (onto_statement st rest) kind
          ∙ statement_parses st h f rest fuel)
        (bind-ok _
          (statements_parse n f ss s h' e (omega (arith, rounds, less)) (omega (arith, fuel, less)))
          refl))

abbrev value : {A : Type 0} → A → Parsed A → A
value d (ok a) = a
value d _ = d

Ensures-ok : {A : Type 0} {P : A → Type 0} {r : Parsed A} (a : A) → Ensures P r → r ≡ ok a → P a
Ensures-ok {P = P} a (holds {a = b} h) q = subst P (ap (value b) q) h
Ensures-ok a rejected q = absurd (cc q)
Ensures-ok a scanner_threw q = absurd (cc q)

-- The parser gives a tree exactly where the lexemes that it reads, up to `eof`, are those of the tree,
-- first to last, and the tree is one of the grammar, where operators bind by precedence and
-- associativity.
pub parse_translation_unit_iff :
    (s : Stream) (u : Statements) (s' : Stream)
    → (parse_translation_unit s ≡ ok (u, s')) ↔ ReadsAll s (u, s')
unfolding parse_translation_unit
parse_translation_unit_iff s u s' = (
  Ensures-ok (u, s') (parse_translation_unit-Reads s),
  λ (q, is, e).
      let same = q ∙ sym (onto_statements-give u s') in
      ap parse_translation_unit same
      ∙ statements_parse (suc (remaining (onto_statements u s'))) (fuel_for (onto_statements u s'))
          u s' is e (omega arith) (omega arith),
)
