-- ===== src/Linking/Patches.antt =====
-- What the built module holds where a jump to an open label was emitted
-- (`Module_builder::build`, code/bytecode/src/module_builder.cpp).
use basedlang.Prelude.{
  ℕ, ◌+◌, ◌≤◌, ◌<◌, ◌≡◌, refl, sym, ap, ◌∙◌, subst, inl, inr, Bool, true, false, Option, some, List,
  [], ◌∷◌, ◌++◌, length, get_elem?, append_assoc, arith, get_elem?-append, get_elem?-append_right,
}
use basedlang.Bytecode.Module.{Module}
use basedlang.Bytecode.Builder.{Builder, ok}
use basedlang.Bytecode.Build.{patch, build, all_placed}
use basedlang.Bytecode.Relocation.{
  Ordered, Outside, Noted, Outside-below, Outside-above, Outside-append, Noted-append_left,
  Noted-append_last, get_elem?-patch-Outside, Patched, patch-Patched,
}
use basedlang.Bytecode.Building.{Forward, IsValid, Extends}
use basedlang.Linking.Growth.{noted}

pub build-ok :
    (b : Builder) (m : Module)
    → build b ≡ ok m
    → patch (b.label_positions) (b.unresolved) (b.writer.stream) ≡ ok (m.code)
unfolding build
build-ok b m h = go (all_placed (b.functions)) refl
  where
    go :
        (t : Bool)
        → all_placed (b.functions) ≡ t
        → patch (b.label_positions) (b.unresolved) (b.writer.stream) ≡ ok (m.code)
    go false e = cc (rw e at h)
    go true e = ground arith

pub Forward-Noted :
    (labels : List (Option ℕ)) (us : List (ℕ × ℕ)) (p l t : ℕ)
    → Forward labels us
    → Noted p l us
    → get_elem? labels l ≡ some (some t)
    → p + 2 ≤ t
Forward-Noted labels [] p l t f n h = absurd n
Forward-Noted labels ((p', l') ∷ us) p l t f (inl (e, g)) h =
    omega (arith, f.1 t (ap (get_elem? labels) (sym g) ∙ h))
Forward-Noted labels ((p', l') ∷ us) p l t f (inr n) h = Forward-Noted labels us p l t (f.2) n h

module _ (b b₂ : Builder) (bs : List ℕ) (k l : ℕ) (m : Module) (tail : k + 2 ≡ length bs)
    (v : IsValid b) (v₂ : IsValid b₂) (x : Extends (noted bs k l b) b₂)
    (built : build b₂ ≡ ok m) where
  outside : (i : ℕ) → i < k → Outside (b.writer.position + i) (b₂.unresolved)
  outside i lt = subst (Outside (b.writer.position + i)) (sym x.unresolved_eq) (
      Outside-append (b.writer.position + i) (b.unresolved ++ (b.writer.position + k, l) ∷ [])
        x.sites
        (Outside-append (b.writer.position + i) (b.unresolved) ((b.writer.position + k, l) ∷ [])
          (Outside-above (b.writer.position + i) 0 (b.unresolved) (b.writer.position) v.ordered
            (omega arith))
          (omega arith, omega arith, tt))
        (Outside-below (b.writer.position + i) (b.writer.position + length bs) x.sites
          (b₂.writer.position) x.ordered (omega arith)))

  -- The bytes in front of the noted ones are in the module as they were emitted.
  pub emitted : (i : ℕ) → i < k → get_elem? (m.code) (b.writer.position + i) ≡ get_elem? bs i
  emitted i lt =
      get_elem?-patch-Outside (b₂.label_positions) (b₂.unresolved) (b₂.writer.stream) (m.code)
        (b.writer.position + i) (build-ok b₂ m built) (outside i lt)
      ∙ ap (λ s. get_elem? s (b.writer.position + i))
          (x.stream_eq ∙ append_assoc (b.writer.stream) bs x.code)
      ∙ ap (λ n. get_elem? (b.writer.stream ++ (bs ++ x.code)) (n + i)) v.positioned
      ∙ get_elem?-append_right (b.writer.stream) (bs ++ x.code) i
      ∙ get_elem?-append bs x.code i (omega arith)

  Noted-there : Noted (b.writer.position + k) l (b₂.unresolved)
  Noted-there = subst (Noted (b.writer.position + k) l) (sym x.unresolved_eq) (
      Noted-append_left (b.writer.position + k) l (b.unresolved ++ (b.writer.position + k, l) ∷ [])
        x.sites (Noted-append_last (b.writer.position + k) l (b.unresolved)))

  -- The noted bytes hold the offset of the label, which is placed.
  pub patched : Patched (b₂.label_positions) (m.code) (b.writer.position + k) l
  patched =
      patch-Patched (b₂.label_positions) (b₂.unresolved) (b₂.writer.stream) (m.code) 0
        (b.writer.position + k) l (build-ok b₂ m built)
        (subst (Ordered 0 (b₂.unresolved)) v₂.positioned v₂.ordered) Noted-there

  -- The label lies behind the noted bytes.
  pub behind :
      (t : ℕ) → get_elem? (b₂.label_positions) l ≡ some (some t) → b.writer.position + k + 2 ≤ t
  behind t e =
      Forward-Noted (b₂.label_positions) (b₂.unresolved) (b.writer.position + k) l t v₂.forward
        Noted-there e
