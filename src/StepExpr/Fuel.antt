-- ===== src/StepExpr/Fuel.antt =====
-- packages/workflow/src/expressions.ts: the tokenizer and the parser have enough fuel for every
-- text.
use ai_orchestration.Prelude.{
  ℕ, zero, suc, ◌+◌, ◌*◌, ◌≤◌, ◌<◌, String, Bool, true, false, ◌≡◌, refl, List, [], ◌∷◌, length,
  Thrown, ok, throw, Thrown-cases, Bool-cases, str_eq, sym, ap, ◌∙◌, inl, inr, arith,
}
use mathlib.Core.Bool.{not as bool_not}
use ai_orchestration.ScopeExpr.Parser.{split_dots}
use ai_orchestration.ScopeExpr.Lexer.{eq, ne, and, or, not}
use ai_orchestration.StepExpr.Tokens.{
  Token, ident, string, number, op, lparen, rparen, eof, ExpressionError, out_of_fuel,
}
use ai_orchestration.StepExpr.Parser.{
  Expression, binary, Parsed, parsed, threw, then_parse, atom, close, parse_or, or_rest, parse_and,
  and_rest, parse_equality, equality_rest, parse_unary, parse_primary, parse_reference,
  reference_of, vars_reference, steps_reference, field_reference, field_of, StepField, enough_for,
  finish,
}

abbrev pub is_fuel : ExpressionError → Bool
is_fuel out_of_fuel = true
is_fuel _ = false

-- Fewer than so many tokens are left, or an error of the text was thrown.
abbrev pub Leaves : ℕ → Parsed → Type 0
Leaves n (parsed e ts) = length ts < n
Leaves n (threw e) = is_fuel e ≡ false

then_parse-Leaves :
    (n m : ℕ) (p : Parsed) (k : Expression → List Token → Parsed)
    → Leaves n p
    → ((e : Expression) (ts : List Token) → length ts < n → Leaves m (k e ts))
    → Leaves m (then_parse p k)
then_parse-Leaves n m (parsed e ts) k h f = f e ts h
then_parse-Leaves n m (threw e) k h f = h

close-Leaves :
    (e : Expression) (ts : List Token) (n : ℕ) → length ts < n → Leaves (suc n) (close e ts)
unfolding close
close-Leaves e (rparen ∷ ts) n h = omega (arith, h)
close-Leaves e ts n h = refl

-- It returns, or throws an error of the text.
abbrev pub no_fuel_error {ℓ} : {A : Type ℓ} → Thrown ExpressionError A → Bool
no_fuel_error (ok a) = true
no_fuel_error (throw e) = bool_not (is_fuel e)

vars_reference-error :
    (path : String) (parts : List String) → no_fuel_error (vars_reference path parts) ≡ true
unfolding vars_reference
vars_reference-error path [] = refl
vars_reference-error path (name ∷ []) = ground arith
vars_reference-error path (name ∷ other ∷ rest) = refl

field_reference-error :
    (path id : String) (fields : List StepField)
    → no_fuel_error (field_reference path id fields) ≡ true
unfolding field_reference
field_reference-error path id [] = refl
field_reference-error path id (f ∷ fs) = ground arith

steps_reference-error :
    (path : String) (parts : List String) → no_fuel_error (steps_reference path parts) ≡ true
unfolding steps_reference
steps_reference-error path [] = refl
steps_reference-error path (id ∷ []) = refl
steps_reference-error path (id ∷ field ∷ []) = field_reference-error path id (field_of field)
steps_reference-error path (id ∷ outputs ∷ key ∷ []) = ground arith
steps_reference-error path (id ∷ outputs ∷ key ∷ other ∷ rest) = refl

reference_of-error :
    (path : String) (parts : List String) → no_fuel_error (reference_of path parts) ≡ true
unfolding reference_of
reference_of-error path [] = refl
reference_of-error path (first ∷ parts) =
    ground (arith, vars_reference-error path parts, steps_reference-error path parts)

parse_reference-error : (path : String) → no_fuel_error (parse_reference path) ≡ true
unfolding parse_reference
parse_reference-error path = reference_of-error path (split_dots path)

atom-Leaves : (ts : List Token) → Leaves (length ts) (atom ts)
unfolding atom
atom-Leaves [] = refl
atom-Leaves (string s ∷ ts) = omega arith
atom-Leaves (number n ∷ ts) = omega arith
atom-Leaves (ident s ∷ ts) = elim (Bool-cases (str_eq s "true")) [
  | inl e ↦ rw e (omega arith)
  | inr e ↦ elim (Bool-cases (str_eq s "false")) [
    | inl f ↦ rw (e, f) (omega arith)
    | inr f ↦ elim (Thrown-cases (parse_reference s)) [
      | inr (r, g) ↦ rw (e, f, g) (omega arith)
      | inl (x, g) ↦
          let h : bool_not (is_fuel x) ≡ true =
            sym (ap no_fuel_error g) ∙ parse_reference-error s in
          rw (e, f, g) (ground (arith, h))
    ]
  ]
]
atom-Leaves (t ∷ ts) = refl

-- What each function leaves, with fuel for the tokens that it is given.
abbrev EnoughFor : (fuel spare : ℕ) → List Token → Type 0
EnoughFor fuel spare ts = 6 * length ts + spare ≤ fuel

record Parses (fuel : ℕ) : Type 0 where
  at_or : (ts : List Token) → EnoughFor fuel 5 ts → Leaves (length ts) (parse_or fuel ts)
  at_or_rest :
      (e : Expression) (ts : List Token)
      → EnoughFor fuel 1 ts
      → Leaves (suc (length ts)) (or_rest fuel e ts)
  at_and : (ts : List Token) → EnoughFor fuel 4 ts → Leaves (length ts) (parse_and fuel ts)
  at_and_rest :
      (e : Expression) (ts : List Token)
      → EnoughFor fuel 1 ts
      → Leaves (suc (length ts)) (and_rest fuel e ts)
  at_equality :
      (ts : List Token) → EnoughFor fuel 3 ts → Leaves (length ts) (parse_equality fuel ts)
  at_equality_rest :
      (e : Expression) (ts : List Token)
      → EnoughFor fuel 1 ts
      → Leaves (suc (length ts)) (equality_rest fuel e ts)
  at_unary : (ts : List Token) → EnoughFor fuel 2 ts → Leaves (length ts) (parse_unary fuel ts)
  at_primary : (ts : List Token) → EnoughFor fuel 1 ts → Leaves (length ts) (parse_primary fuel ts)

weaker : (n m : ℕ) (p : Parsed) → n ≤ m → Leaves n p → Leaves m p
weaker n m (parsed e ts) le h = omega (arith, le, h)
weaker n m (threw e) le h = h

-- A chain of operators: the operand, and what follows it.
chain :
    (n : ℕ) (p : Parsed) (k : Expression → List Token → Parsed)
    → Leaves n p
    → ((e : Expression) (ts : List Token) → length ts < n → Leaves (suc (length ts)) (k e ts))
    → Leaves n (then_parse p k)
chain n p k h f =
    then_parse-Leaves n n p k h (λ e ts lt. weaker (suc (length ts)) n (k e ts) lt (f e ts lt))

module _ (fuel : ℕ) (p : Parses fuel) where
  or-step :
      (ts : List Token) → EnoughFor (suc fuel) 5 ts → Leaves (length ts) (parse_or (suc fuel) ts)
  unfolding parse_or
  or-step ts h =
      chain (length ts) (parse_and fuel ts) (or_rest fuel) (p.at_and ts (omega (arith, h)))
        (λ e rest lt. p.at_or_rest e rest (omega (arith, h, lt)))

  and-step :
      (ts : List Token) → EnoughFor (suc fuel) 4 ts → Leaves (length ts) (parse_and (suc fuel) ts)
  unfolding parse_and
  and-step ts h =
      chain (length ts) (parse_equality fuel ts) (and_rest fuel)
        (p.at_equality ts (omega (arith, h)))
        (λ e rest lt. p.at_and_rest e rest (omega (arith, h, lt)))

  equality-step :
      (ts : List Token)
      → EnoughFor (suc fuel) 3 ts
      → Leaves (length ts) (parse_equality (suc fuel) ts)
  unfolding parse_equality
  equality-step ts h =
      chain (length ts) (parse_unary fuel ts) (equality_rest fuel)
        (p.at_unary ts (omega (arith, h)))
        (λ e rest lt. p.at_equality_rest e rest (omega (arith, h, lt)))

  -- Behind an operator.
  further :
      (ts : List Token) (q : Parsed) (k : Expression → List Token → Parsed)
      → Leaves (length ts) q
      → ((e : Expression) (rest : List Token)
          → length rest < length ts
          → Leaves (suc (length rest)) (k e rest))
      → Leaves (suc (suc (length ts))) (then_parse q k)
  further ts q k h f =
      weaker (length ts) (suc (suc (length ts))) (then_parse q k) (omega arith)
        (chain (length ts) q k h f)

  or_rest-step :
      (e : Expression) (ts : List Token)
      → EnoughFor (suc fuel) 1 ts
      → Leaves (suc (length ts)) (or_rest (suc fuel) e ts)
  unfolding or_rest
  or_rest-step e (op or ∷ ts) h =
      further ts (parse_and fuel ts) (λ right rest. or_rest fuel (binary or e right) rest)
        (p.at_and ts (omega (arith, h)))
        (λ right rest lt. p.at_or_rest (binary or e right) rest (omega (arith, h, lt)))
  or_rest-step e ts h = omega arith

  and_rest-step :
      (e : Expression) (ts : List Token)
      → EnoughFor (suc fuel) 1 ts
      → Leaves (suc (length ts)) (and_rest (suc fuel) e ts)
  unfolding and_rest
  and_rest-step e (op and ∷ ts) h =
      further ts (parse_equality fuel ts) (λ right rest. and_rest fuel (binary and e right) rest)
        (p.at_equality ts (omega (arith, h)))
        (λ right rest lt. p.at_and_rest (binary and e right) rest (omega (arith, h, lt)))
  and_rest-step e ts h = omega arith

  equality_rest-step :
      (e : Expression) (ts : List Token)
      → EnoughFor (suc fuel) 1 ts
      → Leaves (suc (length ts)) (equality_rest (suc fuel) e ts)
  unfolding equality_rest
  equality_rest-step e (op eq ∷ ts) h =
      further ts (parse_unary fuel ts) (λ right rest. equality_rest fuel (binary eq e right) rest)
        (p.at_unary ts (omega (arith, h)))
        (λ right rest lt. p.at_equality_rest (binary eq e right) rest (omega (arith, h, lt)))
  equality_rest-step e (op ne ∷ ts) h =
      further ts (parse_unary fuel ts) (λ right rest. equality_rest fuel (binary ne e right) rest)
        (p.at_unary ts (omega (arith, h)))
        (λ right rest lt. p.at_equality_rest (binary ne e right) rest (omega (arith, h, lt)))
  equality_rest-step e ts h = omega arith

  unary-step :
      (ts : List Token) → EnoughFor (suc fuel) 2 ts → Leaves (length ts) (parse_unary (suc fuel) ts)
  unfolding parse_unary
  unary-step (op not ∷ ts) h =
      then_parse-Leaves (length ts) (suc (length ts)) (parse_unary fuel ts) _
        (p.at_unary ts (omega (arith, h))) (λ e rest lt. omega (arith, lt))
  unary-step ts h = p.at_primary ts (omega (arith, h))

  primary-step :
      (ts : List Token)
      → EnoughFor (suc fuel) 1 ts
      → Leaves (length ts) (parse_primary (suc fuel) ts)
  unfolding parse_primary
  primary-step (lparen ∷ ts) h =
      then_parse-Leaves (length ts) (suc (length ts)) (parse_or fuel ts) close
        (p.at_or ts (omega (arith, h))) (λ e rest lt. close-Leaves e rest (length ts) lt)
  primary-step ts h = atom-Leaves ts

parses : (fuel : ℕ) → Parses fuel
parses zero = record {
  at_or = λ ts h. absurd (omega (arith, h));
  at_or_rest = λ e ts h. absurd (omega (arith, h));
  at_and = λ ts h. absurd (omega (arith, h));
  at_and_rest = λ e ts h. absurd (omega (arith, h));
  at_equality = λ ts h. absurd (omega (arith, h));
  at_equality_rest = λ e ts h. absurd (omega (arith, h));
  at_unary = λ ts h. absurd (omega (arith, h));
  at_primary = λ ts h. absurd (omega (arith, h));
}
parses (suc fuel) =
    let p = parses fuel in
    record {
      at_or = or-step fuel p;
      at_or_rest = or_rest-step fuel p;
      at_and = and-step fuel p;
      at_and_rest = and_rest-step fuel p;
      at_equality = equality-step fuel p;
      at_equality_rest = equality_rest-step fuel p;
      at_unary = unary-step fuel p;
      at_primary = primary-step fuel p;
    }

finish-error : (n : ℕ) (p : Parsed) → Leaves n p → no_fuel_error (finish p) ≡ true
unfolding finish
finish-error n (threw e) h = ground (arith, h)
finish-error n (parsed e (eof ∷ ts)) h = refl
finish-error n (parsed e ts) h = refl

pub parse-error : (ts : List Token) → no_fuel_error (finish (parse_or (enough_for ts) ts)) ≡ true
parse-error ts =
    finish-error (length ts) (parse_or (enough_for ts) ts)
      ((parses (enough_for ts)).at_or ts (omega arith))
