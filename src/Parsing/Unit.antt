-- ===== src/Parsing/Unit.antt =====
-- `Parser::parse_translation_unit` (code/parsing/src/parser.cpp) on any input.
use basedlang.Prelude.{ℕ, zero, suc, ◌+◌, ◌*◌, ◌<◌, ◌≡◌, refl, ap, true, arith}
use basedlang.Lexing.Token.{Token, token_eq-Path}
use basedlang.Ast.{Statements}
use basedlang.Ast.Lexemes.{lexemes_statement, lexemes_statements}
use basedlang.Parsing.Result.{
  Stream, next, at_eof, scanner_throws, give, give-append, remaining, Ensures, holds, scanner_threw,
  Ensures-bind, Ensures-choose,
}
use basedlang.Parsing.Parser.{
  next_is, statement_kind, parse_statement, parse_statements, parse_translation_unit, fuel_for,
}
use basedlang.Parsing.Grammar.{Has, IsStatement, IsStatements}
use basedlang.Parsing.Expects.{peek-First}
use basedlang.Parsing.Steps.{Reads, moved}
use basedlang.Parsing.Sound.{parse_statement_at-Reads}

-- The next lexeme is `eof`.
abbrev pub Ended : Stream → Type 0
Ended (next l s) = Has l Token.eof
Ended (at_eof span) = Unit
Ended scanner_throws = ⊥

-- The whole input has been read, up to `eof`, and is the lexemes of the tree.
abbrev pub ReadsAll : Stream → Statements × Stream → Type 0
ReadsAll s (u, s') = (s ≡ give (lexemes_statements u) s') × IsStatements u × Ended s'

next_is-Ended :
    (s : Stream) → Ensures (λ (b, s'). (s ≡ s') × (b ≡ true → Ended s')) (next_is Token.eof s)
next_is-Ended (next l s) = holds (refl, λ h. token_eq-Path (l.token) Token.eof h)
next_is-Ended (at_eof span) = holds (refl, λ h. tt)
next_is-Ended scanner_throws = scanner_threw

parse_statement-Reads :
    (f : ℕ) (s : Stream)
    → 20 * remaining s + 7 < f
    → Ensures (Reads lexemes_statement IsStatement s) (parse_statement f s)
unfolding parse_statement
parse_statement-Reads f s h = Ensures-bind (peek-First s) λ (l, s₁) (q, first).
    moved (Reads lexemes_statement IsStatement) q
      (parse_statement_at-Reads f (statement_kind (l.token)) s₁ (omega (arith, ap remaining q)))

parse_statements-Reads :
    (n f : ℕ) (s : Stream)
    → remaining s < n
    → 20 * remaining s + 7 < f
    → Ensures (ReadsAll s) (parse_statements n f s)
unfolding parse_statements lexemes_statements IsStatements
parse_statements-Reads zero f s h k = absurd (omega (arith, h))
parse_statements-Reads (suc n) f s h k = Ensures-bind (next_is-Ended s) λ (ended, s₁) (q₁, e).
    Ensures-choose ended _ _ s₁ (λ b. holds (q₁, tt, e b))
      λ _.
        Ensures-bind (parse_statement-Reads f s₁ (omega (arith, k, ap remaining q₁)))
          λ (st, s₂) (q₂, less, is).
            Ensures-bind
              (parse_statements-Reads n f s₂ (omega (arith, h, less, ap remaining q₁))
                (omega (arith, k, less, ap remaining q₁)))
              λ (u, s₃) (q₃, all, end). holds (simp (q₁, q₂, q₃, give-append), (is, all), end)

-- The parser ends on every stream. Where it does not throw, it has read the stream up to `eof`, and its
-- tree is one of the grammar, whose lexemes, first to last, are the ones that it has read.
pub parse_translation_unit-Reads : (s : Stream) → Ensures (ReadsAll s) (parse_translation_unit s)
unfolding parse_translation_unit
parse_translation_unit-Reads s =
    parse_statements-Reads (suc (remaining s)) (fuel_for s) s (omega arith) (omega arith)
