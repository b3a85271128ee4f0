-- ===== src/Format/Code.antt =====
-- Bytes that were written somewhere in a code vector are held there.
use basedlang.Prelude.{
  ℕ, suc, ◌+◌, ◌≡◌, List, [], ◌∷◌, ◌++◌, length, length-append, get_elem?-append-length, get_elem?,
  append_assoc, ap, ◌∙◌, subst, arith,
}
use basedlang.Format.Defs.{Holds}

pub Holds-middle :
    (xs bs rest : List ℕ) (p : ℕ) → p ≡ length xs → Holds (xs ++ (bs ++ rest)) p bs (p + length bs)
Holds-middle xs [] rest p e = omega arith
Holds-middle xs (b ∷ bs) rest p e = (
  ap (get_elem? (xs ++ b ∷ (bs ++ rest))) e ∙ get_elem?-append-length xs (bs ++ rest) b,
  subst (λ q. Holds (xs ++ b ∷ (bs ++ rest)) (suc p) bs q) (omega arith)
      (subst (λ c. Holds c (suc p) bs (suc p + length bs)) (append_assoc xs (b ∷ []) (bs ++ rest))
        (Holds-middle (xs ++ b ∷ []) bs rest (suc p) (omega (arith, length-append xs (b ∷ []))))),
)
