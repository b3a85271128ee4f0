-- ===== src/Tests/Lexing.antt =====
-- The ring buffer and the reader at concrete inputs.
use basedlang.Prelude.{ℕ, suc, ◌≡◌, refl, Option, some, none, [], ◌∷◌, ltb, if◌then◌else◌}
use basedlang.Lexing.RingBuffer.{Ring, empty, push_back, pop_front, get, grow, move_slots}
use basedlang.Lexing.Queue.{Denotes, empty-Denotes, push_back-Denotes, pop_front-Denotes}
use basedlang.Lexing.Reader.{Reader, value, lex_error, peek, read}
use basedlang.Lexing.LexErrors.{peek-lex_error}
use basedlang.Lexing.Lookahead.{nth_lex, Shows, peek-Shows, read-Shows}

abbrev four : Ring ℕ
four = push_back 4 (push_back 3 (push_back 2 (push_back 1 empty)))

four-Denotes : Denotes four (1 ∷ 2 ∷ 3 ∷ 4 ∷ [])
four-Denotes = push_back-Denotes _ (1 ∷ 2 ∷ 3 ∷ []) 4 (
    push_back-Denotes _ (1 ∷ 2 ∷ []) 3
      (push_back-Denotes _ (1 ∷ []) 2 (push_back-Denotes empty [] 1 empty-Denotes)))

-- The fifth element makes the buffer grow.
push_back-Denotes_example : Denotes (push_back 5 four) (1 ∷ 2 ∷ 3 ∷ 4 ∷ 5 ∷ [])
push_back-Denotes_example = push_back-Denotes four (1 ∷ 2 ∷ 3 ∷ 4 ∷ []) 5 four-Denotes

get-grown : get (push_back 5 four) 4 ≡ some 5
unfolding get push_back grow move_slots empty
get-grown = refl

pop_front-Denotes_example : (r : Ring ℕ) × (pop_front four ≡ some r) × Denotes r (2 ∷ 3 ∷ 4 ∷ [])
pop_front-Denotes_example = pop_front-Denotes four 1 (2 ∷ 3 ∷ 4 ∷ []) four-Denotes

-- A lexer that counts.
abbrev lex : ℕ → Option ℕ × ℕ
lex n = (some n, suc n)

abbrev reader : Reader ℕ ℕ
reader = record { stream = 7; buffer = empty }

reader-Shows : Shows lex reader (nth_lex lex 7)
reader-Shows = record { lexed = []; denotes = empty-Denotes; ahead_eq = λ i. refl }

peek-Shows_example :
    (r : Reader ℕ ℕ) × (peek lex 2 reader ≡ (value 9, r)) × Shows lex r (nth_lex lex 7)
peek-Shows_example = peek-Shows lex reader (nth_lex lex 7) 9 reader-Shows 2 refl

read-Shows_example :
    (r : Reader ℕ ℕ) × (read lex reader ≡ (value 7, r)) × Shows lex r (λ i. nth_lex lex 7 (suc i))
read-Shows_example = read-Shows lex reader (nth_lex lex 7) 7 reader-Shows refl

-- A lexer that counts to 8, and then throws.
abbrev lex_to_8 : ℕ → Option ℕ × ℕ
lex_to_8 n = (if ltb 8 n then none else some n, suc n)

to_8-Shows : Shows lex_to_8 reader (nth_lex lex_to_8 7)
to_8-Shows = record { lexed = []; denotes = empty-Denotes; ahead_eq = λ i. refl }

peek-lex_error_example : (peek lex_to_8 2 reader).0 ≡ lex_error
peek-lex_error_example = peek-lex_error lex_to_8 reader (nth_lex lex_to_8 7) 2 to_8-Shows refl
