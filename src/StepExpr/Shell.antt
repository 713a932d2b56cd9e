-- ===== src/StepExpr/Shell.antt =====
-- packages/workflow/src/expressions.ts: `interpolateForShell` keeps the values of placeholders out
-- of the command, and carries each in a variable of its own.
use Prim.Native.String.{◌++◌}
use ai_orchestration.Prelude.{
  ℕ, suc, ◌<◌, ◌≡◌, refl, sym, ap, subst, ◌∙◌, String, Option, some, List, [], ◌∷◌, str_eq-false,
  ok, ◌>>=◌, >>=-eq-ok, ok-injective, Thrown-cases, none, inl, inr, arith,
}
use ai_orchestration.Prelude.Dict.{Dict, lookup, insert, lookup-insert, lookup-insert_self}
use ai_orchestration.Value.{Value}
use ai_orchestration.StepExpr.Eval.{ExpressionContext}
use ai_orchestration.StepExpr.Names.{var_name-injective}
use ai_orchestration.StepExpr.Template.{
  Segment, plain, hole, segments, resolve, splice, indirect, var_name, reference_to, interpolate,
  interpolate_for_shell,
}

-- The command as a function of the template alone: every placeholder is a reference to the
-- variable with its number.
unfoldable pub referenced : ℕ → List Segment → String
unfolding reference_to
referenced index [] = ""
referenced index (plain c ∷ rest) = String.◌∷◌ c (referenced index rest)
referenced index (hole source ∷ rest) = reference_to (var_name index) ++ referenced (suc index) rest

module _ (json : Value → String) (ctx : ExpressionContext) where
  -- Every placeholder resolves, and its variable has its value.
  abbrev pub Carries : ℕ → List Segment → Dict String → Type 0
  Carries index [] env = Unit
  Carries index (plain c ∷ rest) env = Carries index rest env
  Carries index (hole source ∷ rest) env =
      ((v : String) × (resolve json ctx source ≡ ok v) × (lookup (var_name index) env ≡ some v))
      × Carries (suc index) rest env

  -- A variable with a smaller number keeps its value.
  indirect-keeps :
      (i index : ℕ) (env : Dict String) (segs : List Segment) (r : String × Dict String)
      → i < index
      → indirect json ctx index env segs ≡ ok r
      → lookup (var_name i) r.1 ≡ lookup (var_name i) env
  unfolding indirect
  indirect-keeps i index env [] r h e =
      ap (λ (x : String × Dict String). lookup (var_name i) x.1) (sym (ok-injective e))
  indirect-keeps i index env (plain c ∷ rest) r h e =
      let (q, called, made) = >>=-eq-ok (indirect json ctx index env rest) _ e in
      ap (λ (x : String × Dict String). lookup (var_name i) x.1) (sym (ok-injective made))
      ∙ indirect-keeps i index env rest q h called
  indirect-keeps i index env (hole source ∷ rest) r h e =
      let (v, _, next) = >>=-eq-ok (resolve json ctx source) _ e in
      let (q, called, made) =
        >>=-eq-ok (indirect json ctx (suc index) (insert (var_name index) v env) rest) _ next in
      ap (λ (x : String × Dict String). lookup (var_name i) x.1) (sym (ok-injective made))
      ∙ indirect-keeps i (suc index) (insert (var_name index) v env) rest q (omega (arith, h))
          called
      ∙ other_name i index v env h
    where
      other_name :
          (i index : ℕ) (v : String) (env : Dict String)
          → i < index
          → lookup (var_name i) (insert (var_name index) v env) ≡ lookup (var_name i) env
      other_name i index v env h =
          rw
            (
              lookup-insert (var_name index) (var_name i) v env,
              str_eq-false (var_name index) (var_name i)
                  (λ e. omega (arith, h, var_name-injective index i e)),
            )
            refl

  -- What the shell form returns, from any state of the callback.
  indirect-eq-ok :
      (index : ℕ) (env : Dict String) (segs : List Segment) (r : String × Dict String)
      → indirect json ctx index env segs ≡ ok r
      → (r.0 ≡ referenced index segs) × Carries index segs r.1
  unfolding indirect referenced
  indirect-eq-ok index env [] r e =
      (ap (λ (x : String × Dict String). x.0) (sym (ok-injective e)), tt)
  indirect-eq-ok index env (plain c ∷ rest) r e =
      let (q, called, made) = >>=-eq-ok (indirect json ctx index env rest) _ e in
      let (text, carried) = indirect-eq-ok index env rest q called in
      (
        ap (λ (x : String × Dict String). x.0) (sym (ok-injective made))
            ∙ ap (λ s. String.◌∷◌ c s) text,
        subst (λ (x : String × Dict String). Carries index rest x.1) (ok-injective made) carried,
      )
  indirect-eq-ok index env (hole source ∷ rest) r e =
      let (v, found, next) = >>=-eq-ok (resolve json ctx source) _ e in
      let (q, called, made) =
        >>=-eq-ok (indirect json ctx (suc index) (insert (var_name index) v env) rest) _ next in
      let (text, carried) =
        indirect-eq-ok (suc index) (insert (var_name index) v env) rest q called in
      (
        ap (λ (x : String × Dict String). x.0) (sym (ok-injective made))
            ∙ ap (λ s. reference_to (var_name index) ++ s) text,
        subst (λ (x : String × Dict String). Carries index (hole source ∷ rest) x.1)
            (ok-injective made)
            (
              (
                v,
                found,
                indirect-keeps index (suc index) (insert (var_name index) v env) rest q
                      (omega arith) called
                    ∙ lookup-insert_self (var_name index) v env,
              ),
              carried,
            ),
      )

-- What a text becomes when every reference is replaced by its variable's value.
abbrev value_or_empty : Option String → String
value_or_empty none = ""
value_or_empty (some v) = v

unfoldable pub expand : ℕ → List Segment → Dict String → String
expand index [] env = ""
expand index (plain c ∷ rest) env = String.◌∷◌ c (expand index rest env)
expand index (hole source ∷ rest) env =
    value_or_empty (lookup (var_name index) env) ++ expand (suc index) rest env

module _ (json : Value → String) (ctx : ExpressionContext) where
  splice-indirect :
      (index : ℕ) (env : Dict String) (segs : List Segment)
      → splice json ctx segs
        ≡ (indirect json ctx index env segs >>= (λ r. ok (expand index segs r.1)))
  unfolding splice indirect expand
  splice-indirect index env [] = refl
  splice-indirect index env (plain c ∷ rest) =
      elim (Thrown-cases (indirect json ctx index env rest)) [
        | inl (e, eq) ↦ let ih = splice-indirect index env rest in rw (ih, eq) refl
        | inr (q, eq) ↦ let ih = splice-indirect index env rest in rw (ih, eq) refl
      ]
  splice-indirect index env (hole source ∷ rest) = elim (Thrown-cases (resolve json ctx source)) [
    | inl (e, eq) ↦ rw eq refl
    | inr (v, found) ↦
        let env' = insert (var_name index) v env in
        let ih = splice-indirect (suc index) env' rest in
        elim (Thrown-cases (indirect json ctx (suc index) env' rest)) [
          | inl (e, eq) ↦ rw (found, ih, eq) refl
          | inr (q, eq) ↦
              rw
                (
                  found,
                  ih,
                  eq,
                  indirect-keeps json ctx index (suc index) env' rest q (omega arith) eq,
                  lookup-insert_self (var_name index) v env,
                )
                refl
        ]
  ]

module _ (json : Value → String) (template : String) (ctx : ExpressionContext) where
  -- When the shell form returns, its command is the template with a reference to a generated
  -- variable in place of each placeholder, which no value of the context enters; every placeholder
  -- resolves, and the variable that stands for it has its value.
  pub interpolate_for_shell-eq-ok :
      (result : String × Dict String)
      → interpolate_for_shell json template ctx ≡ ok result
      → (result.0 ≡ referenced 0 (segments template))
        × Carries json ctx 0 (segments template) result.1
  unfolding interpolate_for_shell
  interpolate_for_shell-eq-ok result e = indirect-eq-ok json ctx 0 [] (segments template) result e

  -- The direct form is the shell form with every reference replaced by its variable's value: the
  -- two fail alike, with the same error.
  pub interpolate-interpolate_for_shell :
      interpolate json template ctx
      ≡ (interpolate_for_shell json template ctx >>= (λ r. ok (expand 0 (segments template) r.1)))
  unfolding interpolate interpolate_for_shell
  interpolate-interpolate_for_shell = splice-indirect json ctx 0 [] (segments template)
