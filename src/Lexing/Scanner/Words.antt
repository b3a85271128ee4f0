-- ===== src/Lexing/Scanner/Words.antt =====
-- The tokens of words in the scanner (code/lexing/src/lexeme_stream.cpp) and in the language.
use basedlang.Prelude.{
  ℕ, ◌≡◌, refl, sym, ap, ◌∙◌, subst, true, false, arith, Option, some, none, List, ◌⊎◌, inl, inr,
  Bool, if◌then◌else◌, text_eq, text_eq-Path,
}
use basedlang.Lexing.Token.{Token}
use basedlang.Lexing.Scanner.{
  word_token, kw_else_text, kw_fn_text, kw_if_text, kw_let_text, kw_mut_text, kw_recurse_text,
  kw_return_text, kw_while_text,
}
use basedlang.Lexing.Scanner.Grammar.{IsWord, keyword_text, Spelled}

-- A keyword is a word, and the scanner finds it.
abbrev Found : Token → Option (List ℕ) → Type 0
Found t none = Unit
Found t (some text) = IsWord text × (word_token text ≡ t)

keyword-Found : (t : Token) → Found t (keyword_text t)
unfolding word_token
keyword-Found Token.kw_else = (ground arith, refl)
keyword-Found Token.kw_fn = (ground arith, refl)
keyword-Found Token.kw_if = (ground arith, refl)
keyword-Found Token.kw_let = (ground arith, refl)
keyword-Found Token.kw_mut = (ground arith, refl)
keyword-Found Token.kw_recurse = (ground arith, refl)
keyword-Found Token.kw_return = (ground arith, refl)
keyword-Found Token.kw_while = (ground arith, refl)
keyword-Found _ = tt

pub keyword-word_token :
    (t : Token) (text : List ℕ) → keyword_text t ≡ some text → IsWord text × (word_token text ≡ t)
keyword-word_token t text q = subst (Found t) q (keyword-Found t)

-- A keyword with this text, or `identifier`.
abbrev IsTokenOf : List ℕ → Token → Type 0
IsTokenOf text t = (keyword_text t ≡ some text) ⊎ (t ≡ Token.identifier)

-- A test of the chain.
keyword_test :
    (text kw : List ℕ) (k other : Token)
    → keyword_text k ≡ some kw
    → IsTokenOf text other
    → IsTokenOf text (if text_eq text kw then k else other)
keyword_test text kw k other q rest = go (text_eq text kw) refl
  where
    go : (b : Bool) → text_eq text kw ≡ b → IsTokenOf text (if b then k else other)
    go true e = inl (q ∙ ap some (sym (text_eq-Path text kw e)))
    go false e = rest

word_token-IsTokenOf : (text : List ℕ) → IsTokenOf text (word_token text)
unfolding word_token
word_token-IsTokenOf text = keyword_test text kw_else_text Token.kw_else _ refl (
    keyword_test text kw_fn_text Token.kw_fn _ refl (
      keyword_test text kw_if_text Token.kw_if _ refl (
        keyword_test text kw_let_text Token.kw_let _ refl (
          keyword_test text kw_mut_text Token.kw_mut _ refl (
            keyword_test text kw_recurse_text Token.kw_recurse _ refl (
              keyword_test text kw_return_text Token.kw_return _ refl
                (keyword_test text kw_while_text Token.kw_while _ refl (inr refl))))))))

-- No keyword has the text of an identifier.
not_keyword :
    (text : List ℕ)
    → word_token text ≡ Token.identifier
    → (k : Token) → ¬ (keyword_text k ≡ some text)
not_keyword text e k q =
    let (word, found) = keyword-word_token k text q in
    absurd (cc (q, ap keyword_text (sym found ∙ e)))

pub word_token-Spelled : (text : List ℕ) → IsWord text → Spelled (word_token text) text
word_token-Spelled text h = go (word_token-IsTokenOf text)
  where
    go : IsTokenOf text (word_token text) → Spelled (word_token text) text
    go (inl q) = Spelled.keyword q
    go (inr e) = Spelled.identifier h (not_keyword text e) e

pub identifier-word_token :
    (text : List ℕ)
    → ((k : Token) → ¬ (keyword_text k ≡ some text))
    → word_token text ≡ Token.identifier
identifier-word_token text none_fits = go (word_token-IsTokenOf text)
  where
    go : IsTokenOf text (word_token text) → word_token text ≡ Token.identifier
    go (inl q) = absurd (none_fits (word_token text) q)
    go (inr e) = e
