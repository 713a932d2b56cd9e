-- ===== src/StepExpr/Scan.antt =====
-- packages/workflow/src/expressions.ts: every round of the tokenizer takes a character.
use Prim.Native.Char.{Char, code}
use ai_orchestration.Prelude.{
  ℕ, zero, suc, ◌≤◌, ◌<◌, ◌==◌, String, Bool, true, false, ◌≡◌, refl, sym, ap, ◌∙◌, Option, none,
  some, List, [], ◌∷◌, Bool-cases, Thrown-cases, inl, inr, Thrown, ok, throw, arith, ◌&&◌,
}
use ai_orchestration.ScopeExpr.Lexer.{text_length, span, to_quote, two_ops, is_digit, is_letter, Op}
use ai_orchestration.StepExpr.Tokens.{
  Token, ExpressionError, Round, done, skip, push, fail, quoted, one_char, round, tokens, tokenize,
  prepend, is_blank, is_number_char, is_ident_char,
}
use ai_orchestration.StepExpr.Parser.{parse_expression}
use ai_orchestration.StepExpr.Fuel.{is_fuel, no_fuel_error, parse-error}

-- What a round leaves of a text with so many characters.
abbrev Takes : ℕ → Round → Type 0
Takes n done = Unit
Takes n (skip rest) = text_length rest < n
Takes n (push t rest) = text_length rest < n
Takes n (fail e) = is_fuel e ≡ false

length-span : (p : ℕ → Bool) (s : String) → text_length (span p s).1 ≤ text_length s
unfolding span text_length
length-span p String.[] = omega arith
length-span p (String.◌∷◌ c s) = elim (Bool-cases (p (code c))) [
  | inl e ↦ rw e (omega (arith, length-span p s))
  | inr e ↦ rw e (omega arith)
]

quoted-Takes : (s : String) (n : ℕ) → text_length s < n → Takes n (quoted (to_quote s))
unfolding quoted to_quote text_length
quoted-Takes String.[] n h = refl
quoted-Takes (String.◌∷◌ c s) n h = elim (Bool-cases (code c == 0x27)) [
  | inl e ↦ rw e (omega (arith, h))
  | inr e ↦ rw e (shift (to_quote s) (quoted-Takes s n (omega (arith, h))))
]
  where
    shift :
        (o : Option (String × String))
        → Takes n (quoted o)
        → Takes n
            (quoted (elim o [ none ↦ none | some (taken, rest) ↦ some (String.◌∷◌ c taken, rest) ]))
    shift none h = h
    shift (some (taken, rest)) h = h

abbrev Behind : ℕ → Option (Op × String) → Type 0
Behind n none = Unit
Behind n (some (o, rest)) = text_length rest ≤ n

two_ops-Behind : (c : ℕ) (s : String) → Behind (text_length s) (two_ops c s)
unfolding two_ops text_length
two_ops-Behind c String.[] = tt
two_ops-Behind c (String.◌∷◌ d s) = elim (Bool-cases (c == b'=' && code d == b'=')) [
  | inl e0 ↦ rw (e0) (omega arith)
  | inr e0 ↦ elim (Bool-cases (c == b'!' && code d == b'=')) [
    | inl e1 ↦ rw (e0, e1) (omega arith)
    | inr e1 ↦ elim (Bool-cases (c == b'&' && code d == b'&')) [
      | inl e2 ↦ rw (e0, e1, e2) (omega arith)
      | inr e2 ↦ elim (Bool-cases (c == b'|' && code d == b'|')) [
        | inl e3 ↦ rw (e0, e1, e2, e3) (omega arith)
        | inr e3 ↦ rw (e0, e1, e2, e3) (tt)
      ]
    ]
  ]
]

one_char-Takes : (c : Char) (s : String) → Takes (suc (text_length s)) (one_char c s)
unfolding one_char text_length is_number_char is_ident_char
one_char-Takes c s = elim (Bool-cases (code c == b'!')) [
  | inl e0 ↦ rw (e0) (omega arith)
  | inr e0 ↦ elim (Bool-cases (is_digit (code c))) [
    | inl e1 ↦ rw (e0, e1) (omega (arith, length-span is_number_char s))
    | inr e1 ↦ elim (Bool-cases (is_letter (code c))) [
      | inl e2 ↦ rw (e0, e1, e2) (omega (arith, length-span is_ident_char s))
      | inr e2 ↦ rw (e0, e1, e2) (refl)
    ]
  ]
]

round-Takes : (s : String) → Takes (text_length s) (round s)
unfolding round text_length
round-Takes String.[] = tt
round-Takes (String.◌∷◌ c s) = elim (Bool-cases (is_blank (code c))) [
  | inl e0 ↦ rw (e0) (omega arith)
  | inr e0 ↦ elim (Bool-cases (code c == b'(')) [
    | inl e1 ↦ rw (e0, e1) (omega arith)
    | inr e1 ↦ elim (Bool-cases (code c == b')')) [
      | inl e2 ↦ rw (e0, e1, e2) (omega arith)
      | inr e2 ↦ elim (Bool-cases (code c == 0x27)) [
        | inl e3 ↦ rw (e0, e1, e2, e3) (quoted-Takes s (suc (text_length s)) (omega arith))
        | inr e3 ↦ rw (e0, e1, e2, e3) (by_ops (two_ops (code c) s) (two_ops-Behind (code c) s))
      ]
    ]
  ]
]
  where
    by_ops :
        (o : Option (Op × String))
        → Behind (text_length s) o
        → Takes
            (suc (text_length s))
            (elim o [ some (o, rest) ↦ push (Token.op o) rest | none ↦ one_char c s ])
    by_ops none h = one_char-Takes c s
    by_ops (some (o, rest)) h = omega (arith, h)

prepend-error :
    (t : Token) (ts : Thrown ExpressionError (List Token))
    → no_fuel_error ts ≡ true
    → no_fuel_error (prepend t ts) ≡ true
prepend-error t (ok ts) h = refl
prepend-error t (throw e) h = h

tokens-error : (fuel : ℕ) (s : String) → text_length s < fuel → no_fuel_error (tokens fuel s) ≡ true
unfolding tokens
tokens-error zero s h = absurd (omega (arith, h))
tokens-error (suc fuel) s h =
    by_round (round s) (round-Takes s) (λ rest lt. tokens-error fuel rest (omega (arith, h, lt)))
  where
    by_round :
        (r : Round)
        → Takes (text_length s) r
        → ((rest : String)
            → text_length rest < text_length s
            → no_fuel_error (tokens fuel rest) ≡ true)
        → no_fuel_error (elim r [
          | done ↦ ok (Token.eof ∷ [])
          | skip rest ↦ tokens fuel rest
          | push t rest ↦ prepend t (tokens fuel rest)
          | fail e ↦ throw e
        ])
          ≡ true
    by_round done t k = refl
    by_round (skip rest) t k = k rest t
    by_round (push token rest) t k = prepend-error token (tokens fuel rest) (k rest t)
    by_round (fail e) t k = ground (arith, t)

-- Parsing an expression returns it or throws an error of its text, whatever the text: the model's
-- fuel is never used up.
pub parse_expression-ends : (source : String) → no_fuel_error (parse_expression source) ≡ true
unfolding parse_expression tokenize
parse_expression-ends source = elim (Thrown-cases (tokens (suc (text_length source)) source)) [
  | inl (e, h) ↦
      rw h (sym (ap no_fuel_error h) ∙ tokens-error (suc (text_length source)) source (omega arith))
  | inr (ts, h) ↦ rw h (parse-error ts)
]
