-- ===== src/Lexing/Scanner/Signs.antt =====
-- The characters that the operators and brackets of the language begin with
-- (code/lexing/src/lexeme_stream.cpp).
use basedlang.Prelude.{
  ℕ, ◌≡◌, refl, sym, ap, ◌∙◌, Bool, true, false, ◌==◌, ==_iff, Option, List, [], ◌∷◌, ◌++◌, ◌||◌,
  ◌⊎◌, some-injective, some, none, arith, inl, inr,
}
use basedlang.Lexing.Token.{Token}
use basedlang.Lexing.Scanner.{single}
use basedlang.Lexing.Scanner.Grammar.{symbol_text}

-- The first character of a text.
abbrev pub text_head : Option (List ℕ) → ℕ
text_head (some (d ∷ ds)) = d
text_head _ = 0

-- The characters that a sign begins with.
unfoldable pub begins : ℕ → Bool
unfolding single
begins c =
    c == b'-'
    || c == b'&'
    || c == b'^'
    || c == b'='
    || c == b'!'
    || c == b'<'
    || c == b'>'
    || elim (single c) [ some t ↦ true | none ↦ false ]

sign-begins : (t : Token) → (symbol_text t ≡ none) ⊎ (begins (text_head (symbol_text t)) ≡ true)
unfolding begins
sign-begins Token.eof = inl refl
sign-begins Token.identifier = inl refl
sign-begins Token.int_literal = inl refl
sign-begins Token.float_literal = inl refl
sign-begins Token.kw_else = inl refl
sign-begins Token.kw_fn = inl refl
sign-begins Token.kw_if = inl refl
sign-begins Token.kw_let = inl refl
sign-begins Token.kw_mut = inl refl
sign-begins Token.kw_recurse = inl refl
sign-begins Token.kw_return = inl refl
sign-begins Token.kw_while = inl refl
sign-begins _ = inr refl

no_empty_sign : (t : Token) → ¬ (symbol_text t ≡ some [])
no_empty_sign Token.eof h = absurd (cc h)
no_empty_sign _ h = absurd (cc h)

-- A sign at the front begins with the first character.
front-sign :
    (c : ℕ) (rest : List ℕ) (t : Token) (sign more : List ℕ)
    → symbol_text t ≡ some sign
    → c ∷ rest ≡ sign ++ more
    → text_head (symbol_text t) ≡ c
front-sign c rest t [] more q p = absurd (no_empty_sign t q)
front-sign c rest t (d ∷ sign) more q p = ap text_head q ∙ ap (λ xs. text_head (some xs)) (sym p)

pub no_sign :
    (c : ℕ) (rest : List ℕ)
    → begins c ≡ false
    → (t : Token) (sign more : List ℕ) → symbol_text t ≡ some sign
    → ¬ (c ∷ rest ≡ sign ++ more)
no_sign c rest h t sign more q p = go (sign-begins t)
  where
    go : (symbol_text t ≡ none) ⊎ (begins (text_head (symbol_text t)) ≡ true) → ⊥
    go (inl n) = absurd (cc (n, q))
    go (inr b) = absurd (cc (b, h, ap begins (front-sign c rest t sign more q p)))

bang_lem : (t : Token) → text_head (symbol_text t) ≡ b'!' → t ≡ Token.bang_eq
bang_lem Token.bang_eq h = refl
bang_lem _ h = absurd (omega (arith, h))

abbrev rest_of : List ℕ → List ℕ
rest_of [] = []
rest_of (c ∷ cs) = cs

abbrev pub NoEq : List ℕ → Type 0
NoEq [] = Unit
NoEq (e ∷ cs) = (e == b'=') ≡ false

-- No sign is a `!` without `=` behind it.
pub no_bang :
    (c : ℕ) (rest : List ℕ)
    → b'!' ≡ c
    → NoEq rest
    → (t : Token) (sign more : List ℕ) → symbol_text t ≡ some sign
    → ¬ (c ∷ rest ≡ sign ++ more)
no_bang c rest h n t sign more q p =
    let same : t ≡ Token.bang_eq = bang_lem t (front-sign c rest t sign more q p ∙ sym h) in
    let shown : some sign ≡ some (b'!' ∷ b'=' ∷ []) = sym q ∙ ap symbol_text same in
    go rest n
      (ap rest_of p ∙ ap (λ x. rest_of (x ++ more)) (some-injective sign (b'!' ∷ b'=' ∷ []) shown))
  where
    go : (rest : List ℕ) → NoEq rest → rest ≡ b'=' ∷ more → ⊥
    go [] n e = absurd (cc e)
    go (d ∷ ds) n e = absurd (cc (n, (==_iff d b'=').1 (ap (λ x. text_head (some x)) e)))
