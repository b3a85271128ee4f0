-- ===== src/Parsing/Rounds.antt =====
-- One step of the parser (code/parsing/src/parser.cpp) in front of lexemes that are known.
use basedlang.Prelude.{
  ℕ, zero, suc, ◌≤◌, ◌<◌, ◌≡◌, refl, ap, ◌∙◌, Bool, true, false, arith, Option, none, some, leb,
  if◌then◌else◌,
}
use basedlang.Lexing.Token.{Token, Lexeme, token_eq, token_eq_refl}
use basedlang.Ast.{Expression, ElseIfParts, ElsePart}
use basedlang.Ast.Operators.{
  Operator, get_operator_precedence, get_prefix_operator, get_postfix_operator, get_binary_operator,
}
use basedlang.Parsing.Result.{
  Stream, next, at_eof, scanner_throws, Parsed, ok, unexpected, bind, choose, Parser,
}
use basedlang.Parsing.Parser.{
  next_is, expect, fitting, rhs_precedence, any_precedence, parse_expression, parse_operand,
  parse_operand_at, parse_prefix_bracket, parse_postfix, parse_postfix_at, parse_binary,
  parse_binary_at, parse_arguments, expect_if, parse_else, parse_block_statements,
  parse_block_statement_at, StatementKind, statement_kind, parse_primary_expression, primary_kind,
  parse_primary_at,
}
use basedlang.Parsing.Grammar.{Has, HasOption}
use basedlang.Parsing.Onto.{onto_option}
use basedlang.Parsing.Expects.{NoPostfix, NoBinary}
use basedlang.Parsing.Heads.{
  primary_start, StartsWith, token_eq-false, primary_start-prefix, NoElse,
}

-- Fuel that is more than nothing.
pub peel : (P : ℕ → Type 0) (f : ℕ) → 0 < f → ((f' : ℕ) → f ≡ suc f' → P (suc f')) → P f
peel P zero h k = absurd (omega arith)
peel P (suc f) h k = k f refl

pub bind-ok :
    {A B : Type 0} {r : Parsed A} {a : A} (k : A → Parsed B) {x : Parsed B}
    → r ≡ ok a
    → k a ≡ x
    → bind r k ≡ x
bind-ok k q q' = ap (λ r. bind r k) q ∙ q'

module _ {A : Type 0} where
  pub choose-true :
      (b : Bool) (p q : Parser A) (s : Stream) {x : Parsed (A × Stream)}
      → b ≡ true
      → p s ≡ x
      → choose b p q s ≡ x
  choose-true b p q s h k = ap (λ b. choose b p q s) h ∙ k

  pub choose-false :
      (b : Bool) (p q : Parser A) (s : Stream) {x : Parsed (A × Stream)}
      → b ≡ false
      → q s ≡ x
      → choose b p q s ≡ x
  choose-false b p q s h k = ap (λ b. choose b p q s) h ∙ k

pub token_eq-true : (t : Token) (l : Lexeme) → Has l t → token_eq (l.token) t ≡ true
token_eq-true t l h = ap (λ x. token_eq x t) h ∙ token_eq_refl t

pub expect-ok : (t : Token) (l : Lexeme) (s : Stream) → Has l t → expect t (next l s) ≡ ok (l, s)
expect-ok t l s h = ap (λ b. choose b (λ s. ok (l, s)) (λ s. unexpected l) s) (token_eq-true t l h)

pub next_is-false :
    (test : Token → Bool) (t : Token) (s : Stream)
    → StartsWith test s
    → test t ≡ false
    → next_is t s ≡ ok (false, s)
next_is-false test t (next l s) h k =
    ap (λ b. ok (b, next l s)) (token_eq-false test (l.token) t h k)
next_is-false test t (at_eof span) h k = absurd h
next_is-false test t scanner_throws h k = absurd h

leb-true : (m n : ℕ) → m ≤ n → leb m n ≡ true
leb-true m n h = ground arith

leb-false : (m n : ℕ) → n < m → leb m n ≡ false
leb-false m n h = ground arith

fitting_yes :
    {x : Option Operator} (o : Operator) (p : ℕ)
    → x ≡ some o
    → get_operator_precedence o ≤ p
    → fitting x p ≡ some o
fitting_yes o p q h =
    ap (λ x. fitting x p) q
    ∙ ap (λ b. if b then some o else none) (leb-true (get_operator_precedence o) p h)

fitting_no :
    (x : Option Operator) (p : ℕ)
    → ((o : Operator) → x ≡ some o → p < get_operator_precedence o)
    → fitting x p ≡ none
fitting_no none p h = refl
fitting_no (some o) p h =
    ap (λ b. if b then some o else none) (leb-false (get_operator_precedence o) p (h o refl))

fitting-none : {x : Option Operator} (p : ℕ) → x ≡ none → fitting x p ≡ none
fitting-none p q = ap (λ x. fitting x p) q

module _ (f p : ℕ) where
  pub operand_prefix :
      (op : Lexeme) (o : Operator) (s : Stream)
      → get_prefix_operator (op.token) ≡ some o
      → get_operator_precedence o ≤ p
      → parse_operand (suc (suc f)) p (next op s)
        ≡ bind
            (parse_expression f (get_operator_precedence o) s)
            (λ (e, s'). ok (Expression.prefix op e, s'))
  unfolding parse_expression
  operand_prefix op o s h le =
      ap (λ x. parse_operand_at (suc f) p x (next op s)) (fitting_yes o p h le)

  pub operand_bracket :
      (l : Lexeme) (s : Stream)
      → Has l Token.lbracket
      → 1 ≤ p
      → parse_operand (suc (suc f)) p (next l s) ≡ parse_prefix_bracket f (next l s)
  unfolding parse_expression
  operand_bracket l s h one =
      ap (λ x. parse_operand_at (suc f) p x (next l s)) (fitting-none p (ap get_prefix_operator h))
      ∙ choose-true _ _ _ (next l s)
          (ap (λ b. if b then leb 1 p else false) (token_eq-true Token.lbracket l h)
            ∙ leb-true 1 p one)
          refl

  pub operand_primary :
      (s : Stream)
      → StartsWith primary_start s
      → parse_operand (suc (suc f)) p s
        ≡ bind (parse_primary_expression f s) (λ (e, s'). parse_postfix f p e s')
  unfolding parse_expression
  operand_primary (next l s) h =
      ap (λ x. parse_operand_at (suc f) p x (next l s))
        (fitting-none p (primary_start-prefix (l.token) h))
      ∙ choose-false _ _ _ (next l s)
          (ap (λ b. if b then leb 1 p else false)
            (token_eq-false primary_start (l.token) Token.lbracket h refl))
          refl
  operand_primary (at_eof span) h = absurd h
  operand_primary scanner_throws h = absurd h

  pub postfix_stop :
      (e : Expression) (s : Stream)
      → NoPostfix s
      → NoElse s
      → parse_postfix (suc (suc f)) p e s ≡ ok (e, s)
  unfolding parse_expression
  postfix_stop e (next l s) h k = ap (λ x. parse_postfix_at (suc f) p e (fitting x p) (next l s)) h
  postfix_stop e (at_eof span) h k = refl
  postfix_stop e scanner_throws h k = absurd k

  pub binary_stop :
      (e : Expression) (s : Stream)
      → NoBinary p s
      → NoElse s
      → parse_binary (suc (suc f)) p e s ≡ ok (e, s)
  unfolding parse_expression
  binary_stop e (next l s) h k =
      ap (λ x. parse_binary_at (suc f) p e x (next l s))
        (fitting_no (get_binary_operator (l.token)) p h)
  binary_stop e (at_eof span) h k = refl
  binary_stop e scanner_throws h k = absurd k

  pub binary_round :
      (e : Expression) (op : Lexeme) (o : Operator) (s : Stream)
      → get_binary_operator (op.token) ≡ some o
      → get_operator_precedence o ≤ p
      → parse_binary (suc (suc f)) p e (next op s)
        ≡ bind
            (parse_expression f (rhs_precedence (get_operator_precedence o)) s)
            (λ (r, s'). parse_binary f p (Expression.binary e op r) s')
  unfolding parse_expression
  binary_round e op o s h le =
      ap (λ x. parse_binary_at (suc f) p e x (next op s)) (fitting_yes o p h le)

  pub caret_round :
      (e : Expression) (op : Lexeme) (s : Stream)
      → Has op Token.caret
      → parse_postfix (suc (suc f)) p e (next op s) ≡ parse_postfix f p (Expression.postfix e op) s
  unfolding parse_expression
  caret_round e op s h =
      ap (λ x. parse_postfix_at (suc f) p e x (next op s))
        (fitting_yes Operator.dereference p (ap get_postfix_operator h) (omega arith))

  pub call_round :
      (e : Expression) (l : Lexeme) (s : Stream)
      → Has l Token.lparen
      → parse_postfix (suc (suc f)) p e (next l s)
        ≡ bind (parse_arguments f s) (λ (es, s').
          bind
            (expect Token.rparen s')
            (λ (r, s''). parse_postfix f p (Expression.call e l es.0 es.1 r) s''))
  unfolding parse_expression
  call_round e l s h =
      ap (λ x. parse_postfix_at (suc f) p e x (next l s))
        (fitting_yes Operator.call p (ap get_postfix_operator h) (omega arith))
      ∙ bind-ok _ (expect-ok Token.lparen l s h) refl

  pub index_round :
      (e : Expression) (l : Lexeme) (s : Stream)
      → Has l Token.lbracket
      → parse_postfix (suc (suc f)) p e (next l s)
        ≡ bind (parse_expression f any_precedence s) (λ (i, s').
          bind
            (expect Token.rbracket s')
            (λ (r, s''). parse_postfix f p (Expression.index e l i r) s''))
  unfolding parse_expression
  index_round e l s h =
      ap (λ x. parse_postfix_at (suc f) p e x (next l s))
        (fitting_yes Operator.index p (ap get_postfix_operator h) (omega arith))
      ∙ bind-ok _ (expect-ok Token.lbracket l s h) refl

pub two : (g : ℕ) → 1 < g → (g' : ℕ) × (g ≡ suc (suc g'))
two zero h = absurd (omega arith)
two (suc zero) h = absurd (omega arith)
two (suc (suc g)) h = (g, refl)

module _ (g p : ℕ) (e : Expression) (s : Stream) (h : 1 < g) (n : NoElse s) where
  pub postfix_ends : NoPostfix s → parse_postfix g p e s ≡ ok (e, s)
  postfix_ends k =
      let (g', q) = two g h in ap (λ g. parse_postfix g p e s) q ∙ postfix_stop g' p e s k n

  pub binary_ends : NoBinary p s → parse_binary g p e s ≡ ok (e, s)
  binary_ends k =
      let (g', q) = two g h in ap (λ g. parse_binary g p e s) q ∙ binary_stop g' p e s k n

pub primary_round :
    (f : ℕ) (l : Lexeme) (s : Stream) (t : Token)
    → Has l t
    → parse_primary_expression (suc f) (next l s) ≡ parse_primary_at f l (primary_kind t) (next l s)
unfolding parse_expression
primary_round f l s t h = ap (λ t. parse_primary_at f l (primary_kind t) (next l s)) h

abbrev pub is_some : Option Lexeme → Bool
is_some none = false
is_some (some l) = true

pub next_is-option :
    (t : Token) (o : Option Lexeme) (l : Lexeme) (s : Stream)
    → HasOption o t
    → token_eq (l.token) t ≡ false
    → next_is t (onto_option o (next l s)) ≡ ok (is_some o, onto_option o (next l s))
next_is-option t none l s h k = ap (λ b. ok (b, next l s)) k
next_is-option t (some l') l s h k = ap (λ b. ok (b, next l' (next l s))) (token_eq-true t l' h)

pub expect_if-option :
    (t : Token) (o : Option Lexeme) (s : Stream)
    → HasOption o t
    → expect_if t (is_some o) (onto_option o s) ≡ ok (o, s)
expect_if-option t none s h = refl
expect_if-option t (some l) s h = bind-ok _ (expect-ok t l s h) refl

pub else_stop :
    (f : ℕ) (s : Stream)
    → NoElse s
    → parse_else (suc f) s ≡ ok ((ElseIfParts.no_else_if, ElsePart.no_else), s)
unfolding parse_expression
else_stop f (next l s) n = choose-false _ _ _ (next l s) n refl
else_stop f (at_eof span) n = refl
else_stop f scanner_throws n = absurd n

-- A statement of a kind is at the front.
abbrev pub KindAt : StatementKind → Stream → Type 0
KindAt k (next l s) = statement_kind (l.token) ≡ k
KindAt k _ = ⊥

pub block_round :
    (f : ℕ) (test : Token → Bool) (k : StatementKind) (s : Stream)
    → StartsWith test s
    → test Token.rbrace ≡ false
    → KindAt k s
    → parse_block_statements (suc f) s ≡ parse_block_statement_at f k s
unfolding parse_expression
block_round f test k (next l s) h n q =
    choose-false _ _ _ (next l s) (token_eq-false test (l.token) Token.rbrace h n)
      (ap (λ k. parse_block_statement_at f k (next l s)) q)
block_round f test k (at_eof span) h n q = absurd h
block_round f test k scanner_throws h n q = absurd h
