-- ===== src/Lexing/Scanner/SymbolTails.antt =====
-- What the scanner gives behind a character that begins no word or number
-- (code/lexing/src/lexeme_stream.cpp).
use basedlang.Prelude.{
  ℕ, ◌≡◌, refl, sym, ap, ◌∙◌, Bool, true, false, ◌==◌, ==_iff, Option, List, [], ◌∷◌, ◌++◌, some,
  none, arith, if◌then◌else◌, Bool-cases, inl, inr,
}
use basedlang.Lexing.Token.{Token, Location, next_column}
use basedlang.Lexing.Scanner.{
  Lexed, lex_error, make_lexeme, pair, before_mut, sigil, single, symbol,
}
use basedlang.Lexing.Scanner.Grammar.{is_space, word_start, digit, Spelled, Malformed, symbol_text}
use basedlang.Lexing.Scanner.Tails.{Tail, stop, error_stop}
use basedlang.Lexing.Scanner.Signs.{begins, no_sign, NoEq, no_bang}

single-text : (c : ℕ) (t : Token) → single c ≡ some t → symbol_text t ≡ some (c ∷ [])
unfolding single
single-text c t h = ground (arith, h)

module _ (c : ℕ) (start : Location) (cs : List ℕ) (l : Location) where
  pair-Tail :
      (d : ℕ) (both : Token) (otherwise : Lexed)
      → symbol_text both ≡ some (c ∷ d ∷ [])
      → Tail start (c ∷ []) cs l otherwise
      → Tail start (c ∷ []) cs l (pair c d both cs start l otherwise)
  pair-Tail d both otherwise s rest = go cs rest
    where
      go :
          (cs : List ℕ)
          → Tail start (c ∷ []) cs l otherwise
          → Tail start (c ∷ []) cs l (pair c d both cs start l otherwise)
      go [] rest = rest
      go (e ∷ cs) rest = elim (Bool-cases (e == d)) [
        | inl q ↦ rw q (
            Tail.token both (e ∷ []) cs refl refl
              (Spelled.symbol (s ∙ ap (λ x. some (c ∷ x ∷ [])) (sym ((==_iff e d).0 q)))))
        | inr q ↦ rw q rest
      ]

  before_mut-text :
      (a b m : ℕ) (rest : List ℕ)
      → before_mut (a ∷ b ∷ m ∷ rest) ≡ true
      → a ∷ b ∷ m ∷ [] ≡ b'm' ∷ b'u' ∷ b't' ∷ []
  before_mut-text a b m [] h = ground (arith, h)
  before_mut-text a b m (d ∷ rest) h = ground (arith, h)

  sigil-Tail :
      (plain with_mut : Token)
      → symbol_text plain ≡ some (c ∷ [])
      → symbol_text with_mut ≡ some (c ∷ b'm' ∷ b'u' ∷ b't' ∷ [])
      → Tail start (c ∷ []) cs l (sigil c plain with_mut cs start l)
  sigil-Tail plain with_mut p w = go cs
    where
      alone : (cs : List ℕ) → Tail start (c ∷ []) cs l (make_lexeme plain (c ∷ []) start cs l)
      alone cs = stop plain start (c ∷ []) cs l (Spelled.symbol p)

      go : (cs : List ℕ) → Tail start (c ∷ []) cs l (sigil c plain with_mut cs start l)
      go [] = alone []
      go (a ∷ []) = alone (a ∷ [])
      go (a ∷ b ∷ []) = alone (a ∷ b ∷ [])
      go (a ∷ b ∷ m ∷ rest) = split rest (before_mut (a ∷ b ∷ m ∷ rest)) refl
        where
          split :
              (rest : List ℕ) (x : Bool)
              → before_mut (a ∷ b ∷ m ∷ rest) ≡ x
              → Tail start (c ∷ []) (a ∷ b ∷ m ∷ rest) l (
                  if x
                  then make_lexeme with_mut
                      (c ∷ a ∷ b ∷ m ∷ [])
                      start
                      rest
                      (next_column (next_column (next_column l)))
                  else make_lexeme plain (c ∷ []) start (a ∷ b ∷ m ∷ rest) l)
          split rest true e =
              Tail.token with_mut (a ∷ b ∷ m ∷ []) rest refl refl
                (Spelled.symbol (w ∙ ap (λ x. some (c ∷ x)) (sym (before_mut-text a b m rest e))))
          split rest false e = alone (a ∷ b ∷ m ∷ rest)

  alone-Tail :
      (t : Token)
      → symbol_text t ≡ some (c ∷ [])
      → Tail start (c ∷ []) cs l (make_lexeme t (c ∷ []) start cs l)
  alone-Tail t s = stop t start (c ∷ []) cs l (Spelled.symbol s)

  -- The character is none of those before it in the loop.
  record IsOther : Type 0 where
    no_space : is_space c ≡ false
    no_word : word_start c ≡ false
    no_digit : digit c ≡ false

  stray-Tail :
      IsOther
      → ((t : Token) (sign more : List ℕ) → symbol_text t ≡ some sign → ¬ (c ∷ cs ≡ sign ++ more))
      → Tail start (c ∷ []) cs l (lex_error start cs l)
  stray-Tail o none_fits =
      error_stop start (c ∷ []) cs l
        (Malformed.stray c refl (o.no_space) (o.no_word) (o.no_digit) none_fits)

  single-Tail :
      (o : Option Token)
      → IsOther
      → (single c ≡ none → begins c ≡ false)
      → single c ≡ o
      → Tail start
          (c ∷ [])
          cs
          l
          (elim o [ some t ↦ make_lexeme t (c ∷ []) start cs l | none ↦ lex_error start cs l ])
  single-Tail (some t) o h e = alone-Tail t (single-text c t e)
  single-Tail none o h e = stray-Tail o (no_sign c cs (h e))

  -- A test of the `switch`.
  case :
      (d : ℕ) (r otherwise : Lexed)
      → (d ≡ c → Tail start (c ∷ []) cs l r)
      → ((c == d) ≡ false → Tail start (c ∷ []) cs l otherwise)
      → Tail start (c ∷ []) cs l (if c == d then r else otherwise)
  case d r otherwise y n = go (c == d) refl
    where
      go : (b : Bool) → (c == d) ≡ b → Tail start (c ∷ []) cs l (if b then r else otherwise)
      go true e = y (sym ((==_iff c d).0 e))
      go false e = n e

  bang-Tail :
      IsOther
      → b'!' ≡ c
      → Tail start (c ∷ []) cs l (pair c b'=' Token.bang_eq cs start l (lex_error start cs l))
  bang-Tail o h = go cs (λ n. stray-Tail o (no_bang c cs h n))
    where
      go :
          (ds : List ℕ)
          → (NoEq ds → Tail start (c ∷ []) ds l (lex_error start ds l))
          → Tail start (c ∷ []) ds l (pair c b'=' Token.bang_eq ds start l (lex_error start ds l))
      go [] k = k tt
      go (e ∷ ds) k = elim (Bool-cases (e == b'=')) [
        | inl q ↦ rw q (
            Tail.token Token.bang_eq (e ∷ []) ds refl refl (
              Spelled.symbol (
                ap (λ x. some (x ∷ b'=' ∷ [])) h
                ∙ ap (λ x. some (c ∷ x ∷ [])) (sym ((==_iff e b'=').0 q)))))
        | inr q ↦ rw q (k q)
      ]

  pub symbol-Tail :
      is_space c ≡ false
      → word_start c ≡ false
      → digit c ≡ false
      → Tail start (c ∷ []) cs l (symbol c start cs l)
  unfolding symbol begins
  symbol-Tail ns nw nd =
      let o : IsOther = record { no_space = ns; no_word = nw; no_digit = nd } in
      case b'-' _ _
        (λ q.
          pair-Tail b'>' Token.arrow _ (ap (λ x. some (x ∷ b'>' ∷ [])) q)
            (alone-Tail Token.minus (ap (λ x. some (x ∷ [])) q)))
        (λ e0.
          case b'&' _ _
            (λ q.
              sigil-Tail Token.ampersand Token.ampersand_mut (ap (λ x. some (x ∷ [])) q)
                (ap (λ x. some (x ∷ b'm' ∷ b'u' ∷ b't' ∷ [])) q))
            (λ e1.
              case b'^' _ _
                (λ q.
                  sigil-Tail Token.caret Token.caret_mut (ap (λ x. some (x ∷ [])) q)
                    (ap (λ x. some (x ∷ b'm' ∷ b'u' ∷ b't' ∷ [])) q))
                (λ e2.
                  case b'=' _ _
                    (λ q. pair-Tail b'=' Token.eq_eq _ (ap (λ x. some (x ∷ b'=' ∷ [])) q) (
                      pair-Tail b'>' Token.fat_arrow _ (ap (λ x. some (x ∷ b'>' ∷ [])) q)
                        (alone-Tail Token.eq (ap (λ x. some (x ∷ [])) q))))
                    (λ e3. case b'!' _ _ (bang-Tail o) (λ e4.
                      case b'<' _ _
                        (λ q.
                          pair-Tail b'=' Token.le _ (ap (λ x. some (x ∷ b'=' ∷ [])) q)
                            (alone-Tail Token.lt (ap (λ x. some (x ∷ [])) q)))
                        (λ e5.
                          case b'>' _ _
                            (λ q.
                              pair-Tail b'=' Token.ge _ (ap (λ x. some (x ∷ b'=' ∷ [])) q)
                                (alone-Tail Token.gt (ap (λ x. some (x ∷ [])) q)))
                            (λ e6.
                              single-Tail (single c) o
                                (λ e. rw (e0, e1, e2, e3, e4, e5, e6, e, begins) refl) refl)))))))
