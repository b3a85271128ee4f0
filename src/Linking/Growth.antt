-- ===== src/Linking/Growth.antt =====
-- What keeps a module builder valid and extends it (code/bytecode/src/module_builder.cpp).
use basedlang.Prelude.{
  ℕ, ◌≤◌, ◌+◌, ◌≡◌, refl, sym, ap, ◌∙◌, subst, subst₂, Option, some, none, List, [], ◌∷◌, ◌++◌,
  length, get_elem?, append-nil, append_assoc, length-append, arith, lt-of_get_elem?,
}
use basedlang.Bytecode.Writer.{Writer}
use basedlang.Bytecode.Builder.{Builder}
use basedlang.Bytecode.Relocation.{Ordered, Ordered-append, Ordered-weaken}
use basedlang.Format.Emits.{append, Appended}
use basedlang.Format.RoundTrip.{IsPositioned}
use basedlang.Bytecode.Building.{Forward, IsValid, Extends}

pub Extends-refl : (b : Builder) → Extends b b
Extends-refl b = record {
  code = [];
  stream_eq = sym (append-nil (b.writer.stream));
  sites = [];
  unresolved_eq = sym (append-nil (b.unresolved));
  ordered = omega arith;
  kept = λ l t e. e;
}

pub Extends-trans : {a b c : Builder} → Extends a b → Extends b c → Extends a c
Extends-trans {a} {b} {c} x y = record {
  code = x.code ++ y.code;
  stream_eq =
      y.stream_eq
      ∙ ap (λ s. s ++ y.code) x.stream_eq
      ∙ append_assoc (a.writer.stream) x.code y.code;
  sites = x.sites ++ y.sites;
  unresolved_eq =
      y.unresolved_eq
      ∙ ap (λ s. s ++ y.sites) x.unresolved_eq
      ∙ append_assoc a.unresolved x.sites y.sites;
  ordered =
      Ordered-append (a.writer.position) x.sites (b.writer.position) y.sites (c.writer.position)
        x.ordered y.ordered;
  kept = λ l t e. y.kept l t (x.kept l t e);
}

module _ (b : Builder) (w : Writer) (a : Appended (b.writer) w) where
  -- An emission.
  pub Extends-writer : Extends b (record b { writer = w })
  Extends-writer = record {
    code = a.0;
    stream_eq = ap (λ x. x.stream) (a.1);
    sites = [];
    unresolved_eq = sym (append-nil (b.unresolved));
    ordered = omega (arith, ap (λ x. x.position) (a.1));
    kept = λ l t e. e;
  }

  IsPositioned-writer : IsPositioned (b.writer) → IsPositioned w
  IsPositioned-writer e = omega (
    arith,
    ap (λ x. x.position) (a.1),
    ap (λ x. length (x.stream)) (a.1),
    length-append (b.writer.stream) (a.0),
  )

  pub IsValid-writer : IsValid b → IsValid (record b { writer = w })
  IsValid-writer v = record {
    positioned = IsPositioned-writer (v.positioned);
    ordered =
        Ordered-weaken 0 (b.unresolved) (b.writer.position) (w.position) (v.ordered)
          (omega (arith, ap (λ x. x.position) (a.1)));
    forward = v.forward;
    bounded = λ l t e. omega (arith, v.bounded l t e, ap (λ x. x.position) (a.1));
  }

-- The builder after a jump to a label that is not yet placed: its last two bytes are noted.
abbrev pub noted : List ℕ → ℕ → ℕ → Builder → Builder
noted bs k l b = record b {
  writer = append bs (b.writer);
  unresolved = b.unresolved ++ (b.writer.position + k, l) ∷ [];
}

Forward-append :
    (labels : List (Option ℕ)) (us : List (ℕ × ℕ)) (p l : ℕ)
    → get_elem? labels l ≡ some none
    → Forward labels us
    → Forward labels (us ++ (p, l) ∷ [])
Forward-append labels [] p l e f = (lt-of_get_elem? labels l none e, λ t h. cc, tt)
Forward-append labels ((p', l') ∷ us) p l e f = (f.0, f.1, Forward-append labels us p l e (f.2))

module _ (b : Builder) (bs : List ℕ) (k l : ℕ) (tail : k + 2 ≡ length bs) where
  pub Extends-noted : Extends b (noted bs k l b)
  Extends-noted = record {
    code = bs;
    stream_eq = refl;
    sites = (b.writer.position + k, l) ∷ [];
    unresolved_eq = refl;
    ordered = (omega arith, omega arith);
    kept = λ l t e. e;
  }

  pub IsValid-noted :
      get_elem? (b.label_positions) l ≡ some none → IsValid b → IsValid (noted bs k l b)
  IsValid-noted e v = record {
    positioned = omega (arith, v.positioned, length-append (b.writer.stream) bs);
    ordered =
        Ordered-append 0 (b.unresolved) (b.writer.position) ((b.writer.position + k, l) ∷ [])
          (b.writer.position + length bs) (v.ordered) (omega arith, omega arith);
    forward =
        Forward-append (b.label_positions) (b.unresolved) (b.writer.position + k) l e (v.forward);
    bounded = λ l' t e'. omega (arith, v.bounded l' t e');
  }

-- An operation that leaves the code, the sites and the labels alone.
module _ (b b' : Builder) (same_writer : b'.writer ≡ b.writer)
    (same_sites : b'.unresolved ≡ b.unresolved) where
  pub Extends-labels :
      ((l t : ℕ)
        → get_elem? (b.label_positions) l ≡ some (some t)
        → get_elem? (b'.label_positions) l ≡ some (some t))
      → Extends b b'
  Extends-labels kept = record {
    code = [];
    stream_eq = ap (λ w. w.stream) same_writer ∙ sym (append-nil (b.writer.stream));
    sites = [];
    unresolved_eq = same_sites ∙ sym (append-nil (b.unresolved));
    ordered = omega (arith, ap (λ w. w.position) same_writer);
    kept = kept;
  }

  pub IsValid-labels :
      Forward (b'.label_positions) (b.unresolved)
      → ((l t : ℕ) → get_elem? (b'.label_positions) l ≡ some (some t) → t ≤ b.writer.position)
      → IsValid b
      → IsValid b'
  IsValid-labels f bound v = record {
    positioned = subst IsPositioned (sym same_writer) (v.positioned);
    ordered =
        subst₂ (λ us w. Ordered 0 us w) (sym same_sites) (ap (λ w. w.position) (sym same_writer))
          (v.ordered);
    forward = subst (λ us. Forward (b'.label_positions) us) (sym same_sites) f;
    bounded = λ l t e. subst (λ w. t ≤ w.position) (sym same_writer) (bound l t e);
  }
