-- ===== src/Bytecode/Relocation.antt =====
-- Patching of forward jumps (`Module_builder::build`, code/bytecode/src/module_builder.cpp): where the
-- patch sites lie, and what the patched code holds.
use basedlang.Prelude.{
  ℕ, ◌+◌, ◌/◌, ◌%◌, ◌≤◌, ◌<◌, ◌≡◌, ◌≢◌, refl, ◌⊎◌, inl, inr, Bool, true, false, ap, ◌∙◌, Option,
  some, none, List, [], ◌∷◌, ◌++◌, length, get_elem?, set, ltb, arith, length-set,
  get_elem?-set_self, get_elem?-set_ne, sym, subst, if◌then◌else◌, ltb→lt,
}
use basedlang.Bytecode.Builder.{Result, ok, err, BuildError, jmp_target_out_of_range}
use basedlang.Bytecode.Build.{offset_of, patch_bytes, patch}

-- The sites lie one behind another between two positions, each of two bytes.
abbrev pub Ordered : ℕ → List (ℕ × ℕ) → ℕ → Type 0
Ordered lo [] hi = lo ≤ hi
Ordered lo ((p, l) ∷ us) hi = (lo ≤ p) × Ordered (p + 2) us hi

-- A position outside every site.
abbrev pub Outside : ℕ → List (ℕ × ℕ) → Type 0
Outside i [] = Unit
Outside i ((p, l) ∷ us) = (i ≢ p) × (i ≢ p + 1) × Outside i us

-- The site is one of the list.
abbrev pub Noted : ℕ → ℕ → List (ℕ × ℕ) → Type 0
Noted p l [] = ⊥
Noted p l ((p', l') ∷ us) = ((p ≡ p') × (l ≡ l')) ⊎ Noted p l us

pub Ordered-le : (lo : ℕ) (us : List (ℕ × ℕ)) (hi : ℕ) → Ordered lo us hi → lo ≤ hi
Ordered-le lo [] hi h = h
Ordered-le lo ((p, l) ∷ us) hi h = omega (arith, Ordered-le (p + 2) us hi (h.1))

pub Outside-below :
    (i lo : ℕ) (us : List (ℕ × ℕ)) (hi : ℕ) → Ordered lo us hi → i < lo → Outside i us
Outside-below i lo [] hi h lt = tt
Outside-below i lo ((p, l) ∷ us) hi h lt =
    (omega arith, omega arith, Outside-below i (p + 2) us hi (h.1) (omega arith))

pub Outside-above :
    (i lo : ℕ) (us : List (ℕ × ℕ)) (hi : ℕ) → Ordered lo us hi → hi ≤ i → Outside i us
Outside-above i lo [] hi h le = tt
Outside-above i lo ((p, l) ∷ us) hi h le =
    let le' = Ordered-le (p + 2) us hi (h.1) in
    (omega arith, omega arith, Outside-above i (p + 2) us hi (h.1) le)

pub Outside-append :
    (i : ℕ) (us vs : List (ℕ × ℕ)) → Outside i us → Outside i vs → Outside i (us ++ vs)
Outside-append i [] vs h k = k
Outside-append i ((p, l) ∷ us) vs h k = (h.0, h.1, Outside-append i us vs (h.2) k)

pub Noted-append_left : (p l : ℕ) (us vs : List (ℕ × ℕ)) → Noted p l us → Noted p l (us ++ vs)
Noted-append_left p l [] vs h = absurd h
Noted-append_left p l ((p', l') ∷ us) vs (inl e) = inl e
Noted-append_left p l ((p', l') ∷ us) vs (inr h) = inr (Noted-append_left p l us vs h)

pub Noted-append_last : (p l : ℕ) (us : List (ℕ × ℕ)) → Noted p l (us ++ (p, l) ∷ [])
Noted-append_last p l [] = inl (refl, refl)
Noted-append_last p l ((p', l') ∷ us) = inr (Noted-append_last p l us)

pub Ordered-append :
    (lo : ℕ) (us : List (ℕ × ℕ)) (mid : ℕ) (vs : List (ℕ × ℕ)) (hi : ℕ)
    → Ordered lo us mid
    → Ordered mid vs hi
    → Ordered lo (us ++ vs) hi
Ordered-append lo [] mid [] hi h k = omega arith
Ordered-append lo [] mid ((p, l) ∷ vs) hi h k = (omega arith, k.1)
Ordered-append lo ((p, l) ∷ us) mid vs hi h k = (h.0, Ordered-append (p + 2) us mid vs hi (h.1) k)

if-ok :
    {A : Type 0} (b : Bool) (x : Result A) (e : BuildError) {a : A}
    → (if b then x else err e) ≡ ok a
    → (b ≡ true) × (x ≡ ok a)
if-ok true x e h = (refl, h)
if-ok false x e h = cc

ok-injective : {A : Type 0} {a b : A} → ok a ≡ ok b → a ≡ b
ok-injective h = cc

-- The parts of a patching that succeeds: the label of the first site is placed in reach.
patch-cons :
    (labels : List (Option ℕ)) (p l : ℕ) (us : List (ℕ × ℕ)) (code code' : List ℕ)
    → patch labels ((p, l) ∷ us) code ≡ ok code'
    → (t : ℕ) × (get_elem? labels l ≡ some (some t))
      × (offset_of t p < 32768)
      × (patch labels us (patch_bytes code p (offset_of t p)) ≡ ok code')
unfolding patch
patch-cons labels p l us code code' h = go (get_elem? labels l) refl
  where
    go :
        (o : Option (Option ℕ))
        → get_elem? labels l ≡ o
        → (t : ℕ) × (get_elem? labels l ≡ some (some t))
          × (offset_of t p < 32768)
          × (patch labels us (patch_bytes code p (offset_of t p)) ≡ ok code')
    go none e = cc (rw (e, patch) at h)
    go (some none) e = cc (rw (e, patch) at h)
    go (some (some t)) e =
        let (fits, rest) =
          if-ok (ltb (offset_of t p) 32768) (patch labels us (patch_bytes code p (offset_of t p)))
            jmp_target_out_of_range (rw (e, patch) at h) in
        (t, e, ltb→lt (offset_of t p) 32768 fits, rest)

length-patch_bytes : (code : List ℕ) (p o : ℕ) → length (patch_bytes code p o) ≡ length code
length-patch_bytes code p o =
    length-set (set code p (o % 256)) (p + 1) (o / 256 % 256) ∙ length-set code p (o % 256)

get_elem?-patch_bytes :
    (code : List ℕ) (p o : ℕ)
    → p + 2 ≤ length code
    → (get_elem? (patch_bytes code p o) p ≡ some (o % 256))
      × (get_elem? (patch_bytes code p o) (p + 1) ≡ some (o / 256 % 256))
get_elem?-patch_bytes code p o h = (
  get_elem?-set_ne (set code p (o % 256)) (o / 256 % 256) (omega arith)
      ∙ get_elem?-set_self code p (o % 256) (omega arith),
  get_elem?-set_self (set code p (o % 256)) (p + 1) (o / 256 % 256)
      (omega (arith, length-set code p (o % 256))),
)

-- What a patching that succeeds keeps and writes.
pub length-patch :
    (labels : List (Option ℕ)) (us : List (ℕ × ℕ)) (code code' : List ℕ)
    → patch labels us code ≡ ok code'
    → length code' ≡ length code
unfolding patch
length-patch labels [] code code' h = ap length (sym (ok-injective h))
length-patch labels ((p, l) ∷ us) code code' h =
    let (t, e, r, h') = patch-cons labels p l us code code' h in
    length-patch labels us (patch_bytes code p (offset_of t p)) code' h'
    ∙ length-patch_bytes code p (offset_of t p)

pub get_elem?-patch-Outside :
    (labels : List (Option ℕ)) (us : List (ℕ × ℕ)) (code code' : List ℕ) (i : ℕ)
    → patch labels us code ≡ ok code'
    → Outside i us
    → get_elem? code' i ≡ get_elem? code i
unfolding patch
get_elem?-patch-Outside labels [] code code' i h o = ap (λ c. get_elem? c i) (sym (ok-injective h))
get_elem?-patch-Outside labels ((p, l) ∷ us) code code' i h o =
    let (t, e, r, h') = patch-cons labels p l us code code' h in
    get_elem?-patch-Outside labels us (patch_bytes code p (offset_of t p)) code' i h' (o.2)
    ∙ get_elem?-set_ne (set code p (offset_of t p % 256)) (offset_of t p / 256 % 256)
        (λ q. o.1 (sym q))
    ∙ get_elem?-set_ne code (offset_of t p % 256) (λ q. o.0 (sym q))

-- The label of a site is placed, in reach of it, and the site holds the offset, low byte first.
abbrev pub Patched : List (Option ℕ) → List ℕ → ℕ → ℕ → Type 0
Patched labels code p l =
    (t : ℕ) × (get_elem? labels l ≡ some (some t))
    × (offset_of t p < 32768)
    × (get_elem? code p ≡ some (offset_of t p % 256))
    × (get_elem? code (p + 1) ≡ some (offset_of t p / 256 % 256))

pub patch-Patched :
    (labels : List (Option ℕ)) (us : List (ℕ × ℕ)) (code code' : List ℕ) (lo p l : ℕ)
    → patch labels us code ≡ ok code'
    → Ordered lo us (length code)
    → Noted p l us
    → Patched labels code' p l
patch-Patched labels [] code code' lo p l h o n = absurd n
patch-Patched labels ((p', l') ∷ us) code code' lo p l h o (inl (e, f)) =
    let (t, g, r, h') = patch-cons labels p' l' us code code' h in
    let out = λ (i : ℕ) (lt : i < p' + 2).
      get_elem?-patch-Outside labels us (patch_bytes code p' (offset_of t p')) code' i h'
        (Outside-below i (p' + 2) us (length code) (o.1) lt) in
    let room = Ordered-le (p' + 2) us (length code) (o.1) in
    let (low, high) = get_elem?-patch_bytes code p' (offset_of t p') room in
    rw (e, f) (t, g, r, out p' (omega arith) ∙ low, out (p' + 1) (omega arith) ∙ high)
patch-Patched labels ((p', l') ∷ us) code code' lo p l h o (inr n) =
    let (t, g, r, h') = patch-cons labels p' l' us code code' h in
    patch-Patched labels us (patch_bytes code p' (offset_of t p')) code' (p' + 2) p l h'
      (subst (λ n. Ordered (p' + 2) us n) (sym (length-patch_bytes code p' (offset_of t p'))) (o.1))
      n

pub Ordered-weaken :
    (lo : ℕ) (us : List (ℕ × ℕ)) (hi hi' : ℕ) → Ordered lo us hi → hi ≤ hi' → Ordered lo us hi'
Ordered-weaken lo [] hi hi' h le = omega arith
Ordered-weaken lo ((p, l) ∷ us) hi hi' h le = (h.0, Ordered-weaken (p + 2) us hi hi' (h.1) le)
