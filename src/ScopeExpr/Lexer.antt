-- ===== src/ScopeExpr/Lexer.antt =====
-- packages/workflow/src/graph-engine/scope-expr.ts: `tokenize`.
use Prim.Native.Char.{Char, code}
use ai_orchestration.Prelude.{
  ℕ, zero, suc, ◌+◌, ◌-◌, ◌*◌, ◌==◌, String, Bool, true, false, ◌&&◌, ◌||◌, Option, none, some,
  List, [], ◌∷◌, leb, if◌then◌else◌, Thrown, ok, throw, any,
}
use ai_orchestration.Value.{Decimal}

pub data Op : Type 0 where
  eq ne and or not : Op

pub data Token : Type 0 where
  ident : String → Token
  string : String → Token
  number : Decimal → Token
  op : Op → Token
  lparen rparen eof : Token

-- `ScopeExpressionError`, by its message. `out_of_fuel` is the model's own.
pub data ScopeError : Type 0 where
  unterminated_string unexpected_character : ScopeError
  unexpected_trailing missing_rparen unexpected_token : ScopeError
  out_of_fuel : ScopeError

abbrev pub characters : String → List ℕ
characters String.[] = []
characters (String.◌∷◌ c s) = code c ∷ characters s

-- `/\s/`
unfoldable pub is_space : ℕ → Bool
is_space c =
    any (λ k. k == c)
      (0x20 ∷ 0x9 ∷ 0xa ∷ 0xb ∷ 0xc ∷ 0xd ∷ 0xa0 ∷ 0x1680 ∷ 0x2028 ∷ 0x2029 ∷ 0x202f ∷ 0x205f
        ∷ 0x3000 ∷ 0xfeff ∷ [])
    || (leb 0x2000 c && leb c 0x200a)

unfoldable pub is_digit : ℕ → Bool
is_digit c = leb b'0' c && leb c b'9'

-- `/[A-Za-z_]/`
unfoldable pub is_letter : ℕ → Bool
is_letter c = (leb b'A' c && leb c b'Z') || ((leb b'a' c && leb c b'z') || c == b'_')

-- `/[A-Za-z0-9_.-]/`
is_word : ℕ → Bool
is_word c = is_letter c || (is_digit c || (c == b'.' || c == b'-'))

-- The longest prefix of characters that pass the test, and the rest.
unfoldable pub span : (ℕ → Bool) → String → String × String
span p String.[] = (String.[], String.[])
span p (String.◌∷◌ c s) =
    let (taken, rest) = span p s in
    if p (code c) then (String.◌∷◌ c taken, rest) else (String.[], String.◌∷◌ c s)

-- The text up to the next quote, and what follows it.
unfoldable pub to_quote : String → Option (String × String)
to_quote String.[] = none
to_quote (String.◌∷◌ c s) =
    let more = to_quote s in
    if code c == 0x27
    then some (String.[], s)
    else elim more [ none ↦ none | some (taken, rest) ↦ some (String.◌∷◌ c taken, rest) ]

-- The value of decimal digits behind those read so far.
unfoldable pub digits_value : ℕ → String → ℕ
digits_value n String.[] = n
digits_value n (String.◌∷◌ c s) = digits_value (n * 10 + (code c - b'0')) s

abbrev text_empty : String → Bool
text_empty String.[] = true
text_empty (String.◌∷◌ _ _) = false

-- A fraction without the zeros at its end.
trim_zeros : String → String
trim_zeros String.[] = String.[]
trim_zeros (String.◌∷◌ c s) =
    let rest = trim_zeros s in
    if text_empty rest && code c == b'0' then String.[] else String.◌∷◌ c rest

unfoldable pub text_length : String → ℕ
text_length String.[] = 0
text_length (String.◌∷◌ c s) = suc (text_length s)

-- `Number(match[0])`, from the digits before the point and those behind it.
unfoldable pub decimal_of : String → String → Decimal
unfolding digits_value trim_zeros text_length
decimal_of whole fraction =
    let part = trim_zeros fraction in
    record {
      is_negative = false;
      digits = digits_value (digits_value 0 whole) part;
      places = text_length part;
    }

-- What `/^[0-9]+(\.[0-9]+)?/` matches, and the rest.
number_token : String → Token × String
unfolding span is_digit decimal_of
number_token s = let (whole, rest) = span is_digit s in with_fraction whole rest
  where
    join : String → String → String × String → Token × String
    join whole rest (fraction, after) =
        if text_empty fraction
        then (number (decimal_of whole String.[]), rest)
        else (number (decimal_of whole fraction), after)

    with_fraction : String → String → Token × String
    with_fraction whole String.[] = (number (decimal_of whole String.[]), String.[])
    with_fraction whole (String.◌∷◌ c s) =
        if code c == b'.'
        then join whole (String.◌∷◌ c s) (span is_digit s)
        else (number (decimal_of whole String.[]), String.◌∷◌ c s)

-- One round of the loop: it ends, skips, pushes a token or throws.
pub data Round : Type 0 where
  done : Round
  skip : String → Round
  push : Token → String → Round
  fail : ScopeError → Round

-- `source.slice(index, index + 2)`, where it is an operator.
unfoldable pub two_ops : ℕ → String → Option (Op × String)
two_ops c String.[] = none
two_ops c (String.◌∷◌ d s) =
    if c == b'=' && code d == b'='
    then some (eq, s)
    else if c == b'!' && code d == b'='
    then some (ne, s)
    else if c == b'&' && code d == b'&'
    then some (and, s)
    else if c == b'|' && code d == b'|'
    then some (or, s)
    else none

quoted : Option (String × String) → Round
quoted none = fail unterminated_string
quoted (some (text, rest)) = push (string text) rest

-- The tests behind the two-character operators, for a character and the text behind it.
one_char : Char → String → Round
unfolding to_quote quoted is_digit number_token is_letter is_word span
one_char c s =
    if code c == b'!'
    then push (op not) s
    else if code c == 0x27
    then quoted (to_quote s)
    else if is_digit (code c)
    then (let (t, rest) = number_token (String.◌∷◌ c s) in push t rest)
    else if is_letter (code c)
    then (let (word, rest) = span is_word (String.◌∷◌ c s) in push (ident word) rest)
    else fail unexpected_character

unfoldable pub round : String → Round
unfolding is_space two_ops one_char
round String.[] = done
round (String.◌∷◌ c s) =
    if is_space (code c)
    then skip s
    else if code c == b'('
    then push lparen s
    else if code c == b')'
    then push rparen s
    else elim (two_ops (code c) s) [ some (o, rest) ↦ push (op o) rest | none ↦ one_char c s ]

abbrev prepend : Token → Thrown ScopeError (List Token) → Thrown ScopeError (List Token)
prepend t (ok ts) = ok (t ∷ ts)
prepend t (throw e) = throw e

-- The loop. Every round but the last takes a character.
unfoldable pub tokens : ℕ → String → Thrown ScopeError (List Token)
unfolding round
tokens zero s = throw out_of_fuel
tokens (suc fuel) s = elim (round s) [
  | done ↦ ok (eof ∷ [])
  | skip rest ↦ tokens fuel rest
  | push t rest ↦ prepend t (tokens fuel rest)
  | fail e ↦ throw e
]

unfoldable pub tokenize : String → Thrown ScopeError (List Token)
unfolding tokens text_length
tokenize s = tokens (suc (text_length s)) s
