-- ===== src/Linking/Valid.antt =====
-- The uses of a module builder (code/bytecode/src/module_builder.cpp) before it is built.
use basedlang.Prelude.{ℕ, ◌≡◌, refl, sym, ap, ◌∙◌, subst, Option, some, none, get_elem?, arith}
use basedlang.Bytecode.Opcode.{Opcode}
use basedlang.Bytecode.Writer.{Writer}
use basedlang.Bytecode.Emitter.{emit_exit, emit_jmp, emit_jnz}
use basedlang.Bytecode.Instruction.{emitter, Args, emit}
use basedlang.Bytecode.Builder.{
  Builder, ok, new, make_label, place_label, emit_jmp_label, emit_jnz_label,
}
use basedlang.Bytecode.Building.{
  Step, emits, exits, jumps, branches, jumps_to_label, branches_to_label, makes_label, places_label,
  declares, places_function, interns, Steps, done, next, Forward, IsValid, Extends,
}
use basedlang.Format.Emits.{Appended, emit_exit_lem}
use basedlang.Format.RoundTrip.{emit-Encodes}
use basedlang.Format.JumpTargets.{emit_jmp-Appended, emit_jnz-Appended}
use basedlang.Linking.Growth.{
  Extends-refl, Extends-trans, Extends-writer, IsValid-writer, Extends-noted, IsValid-noted,
  Extends-labels, IsValid-labels,
}
use basedlang.Linking.Labels.{
  kept_make, Forward-make, kept_place, Forward-place, bound_place, placed_before_make,
}
use basedlang.Linking.Operations.{
  open_jmp, open_jnz, emit_jmp_label-placed, emit_jmp_label-noted, emit_jmp_label-missing,
  emit_jnz_label-placed, emit_jnz_label-noted, emit_jnz_label-missing, written-ok, place_label-ok,
  declare_function-ok, place_function-ok, constant-ok,
}

-- A use keeps the builder valid, and extends it.
abbrev Keeps : Builder → Builder → Type 0
Keeps b b' = Extends b b' × (IsValid b → IsValid b')

Keeps-writer :
    (b : Builder) (w : Writer) → Appended (b.writer) w → Keeps b (record b { writer = w })
Keeps-writer b w a = (Extends-writer b w a, IsValid-writer b w a)

emit-Appended : (op : Opcode) (a : Args (emitter op)) (w : Writer) → Appended w (emit op a w)
emit-Appended op a w = (_, emit-Encodes op a w)

module _ (b b' : Builder) where
  same :
      (b'.writer ≡ b.writer)
        × (b'.unresolved ≡ b.unresolved)
        × (b'.label_positions ≡ b.label_positions)
      → Keeps b b'
  same (w, u, ls) = (
    Extends-labels b b' w u (λ l t e. ap (λ x. get_elem? x l) ls ∙ e),
    λ v.
        IsValid-labels b b' w u (subst (λ x. Forward x (b.unresolved)) (sym ls) (v.forward))
          (λ l t e. v.bounded l t (sym (ap (λ x. get_elem? x l) ls) ∙ e)) v,
  )

  ok-injective : {c : Builder} → ok c ≡ ok b' → c ≡ b'
  ok-injective e = cc

  emit_jmp_label-Keeps : (l : ℕ) → emit_jmp_label l b ≡ ok b' → Keeps b b'
  emit_jmp_label-Keeps l h = go (get_elem? (b.label_positions) l) refl
    where
      go : (o : Option (Option ℕ)) → get_elem? (b.label_positions) l ≡ o → Keeps b b'
      go none e = cc (emit_jmp_label-missing l b e)
      go (some none) e =
          subst (Keeps b) (ok-injective (sym (emit_jmp_label-noted l b e) ∙ h))
            (Extends-noted b open_jmp 2 l refl, IsValid-noted b open_jmp 2 l refl e)
      go (some (some t)) e =
          let (w, j, same_b) =
            written-ok b b' (emit_jmp t (b.writer)) (sym (emit_jmp_label-placed l b t e) ∙ h) in
          subst (Keeps b) (sym same_b) (Keeps-writer b w (emit_jmp-Appended t (b.writer) w j))

  emit_jnz_label-Keeps : (src l : ℕ) → emit_jnz_label src l b ≡ ok b' → Keeps b b'
  emit_jnz_label-Keeps src l h = go (get_elem? (b.label_positions) l) refl
    where
      go : (o : Option (Option ℕ)) → get_elem? (b.label_positions) l ≡ o → Keeps b b'
      go none e = cc (emit_jnz_label-missing l b src e)
      go (some none) e =
          subst (Keeps b) (ok-injective (sym (emit_jnz_label-noted l b src e) ∙ h))
            (Extends-noted b (open_jnz src) 4 l refl, IsValid-noted b (open_jnz src) 4 l refl e)
      go (some (some t)) e =
          let (w, j, same_b) =
            written-ok b b' (emit_jnz src t (b.writer))
              (sym (emit_jnz_label-placed l b src t e) ∙ h) in
          subst (Keeps b) (sym same_b) (Keeps-writer b w (emit_jnz-Appended src t (b.writer) w j))

  place_label-Keeps : (l : ℕ) → place_label l b ≡ ok b' → Keeps b b'
  place_label-Keeps l h =
      let (o, e) = place_label-ok b b' l h in
      (
        Extends-labels b b' (ap (λ x. x.writer) e) (ap (λ x. x.unresolved) e) (λ k t p.
            ap (λ x. get_elem? (x.label_positions) k) e
            ∙ kept_place (b.label_positions) l (b.writer.position) k t o p),
        λ v.
            IsValid-labels b b' (ap (λ x. x.writer) e) (ap (λ x. x.unresolved) e)
              (subst (λ x. Forward (x.label_positions) (b.unresolved)) (sym e)
                (Forward-place (b.label_positions) l (b.writer.position) 0 (b.unresolved) o
                  (v.ordered) (v.forward)))
              (λ k t p.
                bound_place (b.label_positions) l (b.writer.position) o (v.bounded) k t
                  (sym (ap (λ x. get_elem? (x.label_positions) k) e) ∙ p))
              v,
      )

make_label-Keeps : (b : Builder) → Keeps b (make_label b).1
unfolding make_label
make_label-Keeps b = (
  Extends-labels b (make_label b).1 refl refl (kept_make (b.label_positions)),
  λ v.
      IsValid-labels b (make_label b).1 refl refl
        (Forward-make (b.label_positions) (b.unresolved) (v.forward))
        (λ l t e. v.bounded l t (placed_before_make (b.label_positions) l t e)) v,
)

Step-Keeps : {b b' : Builder} → Step b b' → Keeps b b'
Step-Keeps {b} (emits op a) = Keeps-writer b (emit op a (b.writer)) (emit-Appended op a (b.writer))
Step-Keeps {b} exits = Keeps-writer b (emit_exit (b.writer)) (_, emit_exit_lem (b.writer))
Step-Keeps {b} (jumps t w e) = Keeps-writer b w (emit_jmp-Appended t (b.writer) w e)
Step-Keeps {b} (branches src t w e) = Keeps-writer b w (emit_jnz-Appended src t (b.writer) w e)
Step-Keeps {b} {b'} (jumps_to_label l e) = emit_jmp_label-Keeps b b' l e
Step-Keeps {b} {b'} (branches_to_label src l e) = emit_jnz_label-Keeps b b' src l e
Step-Keeps {b} makes_label = make_label-Keeps b
Step-Keeps {b} {b'} (places_label l e) = place_label-Keeps b b' l e
Step-Keeps {b} {b'} (declares name ts t n f e) =
    same b b' (declare_function-ok b b' name f n ts t e)
Step-Keeps {b} {b'} (places_function f e) = same b b' (place_function-ok b b' f e)
Step-Keeps {b} {b'} (interns bytes k e) = same b b' (constant-ok b b' bytes k e)

-- Any uses of a builder other than `build` only add code and patch sites, behind what is there, and keep
-- the positions of placed labels.
pub Steps-Extends : {b b' : Builder} → Steps b b' → Extends b b'
Steps-Extends {b} done = Extends-refl b
Steps-Extends (next r s) = Extends-trans (Steps-Extends r) ((Step-Keeps s).0)

-- A valid builder stays valid until it is built.
pub Steps-IsValid : {b b' : Builder} → Steps b b' → IsValid b → IsValid b'
Steps-IsValid done v = v
Steps-IsValid (next r s) v = (Step-Keeps s).1 (Steps-IsValid r v)

pub new-IsValid : IsValid new
unfolding new
new-IsValid = record {
  positioned = refl;
  ordered = omega arith;
  forward = tt;
  bounded = λ l t e. cc;
}

-- Whatever sequence of operations other than `build`, and of emissions, a new builder has been through,
-- its position is the length of its code, its patch sites of two bytes lie one behind another within the code, each noted
-- label exists and, once placed, lies behind the bytes to be patched, and no label is placed behind
-- the code.
pub reachable-IsValid : {b : Builder} → Steps new b → IsValid b
reachable-IsValid r = Steps-IsValid r new-IsValid
