-- ===== src/StepExpr/Names.antt =====
-- packages/workflow/src/expressions.ts: the generated names `OVERTURE_VAR_0`, `OVERTURE_VAR_1`, ….
use Prim.Native.Char.{code}
use Prim.Native.String.append
use Prim.Native.String.{◌++◌}
use Prim.Native.Nat.{◌/◌, ◌%◌}
use ai_orchestration.Prelude.{
  ℕ, zero, suc, ◌+◌, ◌-◌, ◌*◌, ◌<◌, ltb, ltb→lt, String, ◌≡◌, refl, ap, sym, ◌∙◌, Bool-cases, inl,
  inr, arith,
}
use ai_orchestration.ScopeExpr.Lexer.{digits_value, text_length}
use ai_orchestration.StepExpr.Template.{digit, digits_before, decimal_text, var_name}

code-digit : (n : ℕ) → n < 10 → code (digit n) - b'0' ≡ n
unfolding digit
code-digit zero h = refl
code-digit (suc zero) h = refl
code-digit (suc (suc zero)) h = refl
code-digit (suc (suc (suc zero))) h = refl
code-digit (suc (suc (suc (suc zero)))) h = refl
code-digit (suc (suc (suc (suc (suc zero))))) h = refl
code-digit (suc (suc (suc (suc (suc (suc zero)))))) h = refl
code-digit (suc (suc (suc (suc (suc (suc (suc zero))))))) h = refl
code-digit (suc (suc (suc (suc (suc (suc (suc (suc zero)))))))) h = refl
code-digit (suc (suc (suc (suc (suc (suc (suc (suc (suc zero))))))))) h = refl
code-digit (suc (suc (suc (suc (suc (suc (suc (suc (suc (suc n)))))))))) h = omega arith

-- Reading the digits of a number gives the number.
digits_value-digits_before :
    (fuel n : ℕ) (s : String)
    → n < fuel
    → digits_value 0 (digits_before fuel n s) ≡ digits_value n s
unfolding digits_before digits_value
digits_value-digits_before zero n s h = omega arith
digits_value-digits_before (suc fuel) n s h = elim (Bool-cases (ltb n 10)) [
  | inl small ↦ rw small (ap (λ k. digits_value k s) (unit n (ltb→lt n 10 small)))
  | inr large ↦ rw large (
      digits_value-digits_before fuel (n / 10) (String.◌∷◌ (digit (n % 10)) s) (ground arith)
      ∙ ap (λ k. digits_value k s) (below n))
]
  where
    unit : (n : ℕ) → n < 10 → 0 + (code (digit (n % 10)) - b'0') ≡ n
    unit n h = omega (arith, code-digit (n % 10) (omega arith))

    below : (n : ℕ) → n / 10 * 10 + (code (digit (n % 10)) - b'0') ≡ n
    below n = omega (arith, code-digit (n % 10) (omega arith))

digits_value-decimal_text : (n : ℕ) → digits_value 0 (decimal_text n) ≡ n
unfolding decimal_text digits_value
digits_value-decimal_text n = digits_value-digits_before (suc n) n "" (omega arith)

drop : ℕ → String → String
drop zero s = s
drop (suc n) String.[] = String.[]
drop (suc n) (String.◌∷◌ c s) = drop n s

drop-append : (p s : String) → drop (text_length p) (p ++ s) ≡ s
unfolding drop text_length
drop-append String.[] s = append.nil s
drop-append (String.◌∷◌ c p) s = rw (append.cons c p s) (drop-append p s)

drop-var_name : (n : ℕ) → drop 13 (var_name n) ≡ decimal_text n
unfolding var_name text_length
drop-var_name n = drop-append "OVERTURE_VAR_" (decimal_text n)

-- No two placeholders of a command get the same variable.
pub var_name-injective : (i j : ℕ) → var_name i ≡ var_name j → i ≡ j
var_name-injective i j e =
    sym (digits_value-decimal_text i)
    ∙ ap (digits_value 0) (sym (drop-var_name i) ∙ ap (drop 13) e ∙ drop-var_name j)
    ∙ digits_value-decimal_text j
