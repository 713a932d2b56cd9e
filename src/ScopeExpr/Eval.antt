-- ===== src/ScopeExpr/Eval.antt =====
-- packages/workflow/src/graph-engine/scope-expr.ts: `resolveRef`, `evaluateNode`, `truthy` and the
-- two evaluators. A read of an object finds its own member, or one that the language's prototypes
-- give every object or every array; the scope is an object.
use Prim.Native.Char.{code}
use ai_orchestration.Prelude.{
  ℕ, ◌+◌, ◌-◌, ◌*◌, ◌==◌, String, Bool, true, false, ◌&&◌, Option, none, some, List, [], ◌∷◌, leb,
  if◌then◌else◌, str_eq, any, zero, suc, Thrown, ok, ◌>>=◌,
}
use mathlib.Core.Bool.{not as bool_not}
use ai_orchestration.Value.{
  Value, Items, Fields, undefined, null, boolean, number, nan, string, array, object, inherited,
  nil, cons, end, field, bool_eq, decimal_eq, same_object,
}
use ai_orchestration.ScopeExpr.Lexer.{ScopeError, Op, eq, and, or}
use ai_orchestration.ScopeExpr.Parser.{Expr, literal, ref, negation, binary, parse_scope_expression}

-- The members of `Object.prototype` and of `Array.prototype`, besides those that `resolveRef` bars.
abbrev pub object_members : List String
object_members =
    "hasOwnProperty" ∷ "isPrototypeOf" ∷ "propertyIsEnumerable" ∷ "toLocaleString" ∷ "toString"
    ∷ "valueOf" ∷ "__defineGetter__" ∷ "__defineSetter__" ∷ "__lookupGetter__" ∷ "__lookupSetter__"
    ∷ []

abbrev array_members : List String
array_members =
    "at" ∷ "concat" ∷ "copyWithin" ∷ "entries" ∷ "every" ∷ "fill" ∷ "filter" ∷ "find" ∷ "findIndex"
    ∷ "findLast" ∷ "findLastIndex" ∷ "flat" ∷ "flatMap" ∷ "forEach" ∷ "includes" ∷ "indexOf"
    ∷ "join" ∷ "keys" ∷ "lastIndexOf" ∷ "map" ∷ "pop" ∷ "push" ∷ "reduce" ∷ "reduceRight"
    ∷ "reverse" ∷ "shift" ∷ "slice" ∷ "some" ∷ "sort" ∷ "splice" ∷ "toReversed" ∷ "toSorted"
    ∷ "toSpliced" ∷ "unshift" ∷ "values" ∷ "with" ∷ []

unfoldable pub inherited_member : List String → String → Value
inherited_member names segment =
    if any (λ n. str_eq n segment) names then inherited segment else undefined

unfoldable pub own_field : String → Fields → Option Value
own_field segment end = none
own_field segment (field k v rest) = if str_eq k segment then some v else own_field segment rest

-- The number that a segment is the index of, if it is written as an index.
index_digits : ℕ → String → Option ℕ
index_digits n String.[] = some n
index_digits n (String.◌∷◌ c s) =
    let rest = index_digits (n * 10 + (code c - b'0')) s in
    if leb b'0' (code c) && leb (code c) b'9' then rest else none

index_of : String → Option ℕ
unfolding index_digits
index_of String.[] = none
index_of (String.◌∷◌ c String.[]) = index_digits 0 (String.◌∷◌ c String.[])
index_of (String.◌∷◌ c (String.◌∷◌ d s)) =
    if code c == b'0' then none else index_digits 0 (String.◌∷◌ c (String.◌∷◌ d s))

item_at : ℕ → Items → Value
item_at n nil = undefined
item_at zero (cons v rest) = v
item_at (suc n) (cons v rest) = item_at n rest

count_items : Items → ℕ
count_items nil = 0
count_items (cons v rest) = suc (count_items rest)

array_member : String → Items → Value
unfolding index_of item_at count_items inherited_member
array_member segment items =
    if str_eq segment "length"
    then number (record { is_negative = false; digits = count_items items; places = 0 })
    else elim (index_of segment) [
      | some n ↦ item_at n items
      | none ↦ elim (inherited_member array_members segment) [
        | undefined ↦ inherited_member object_members segment
        | v ↦ v
      ]
    ]

-- `current[segment]`, behind the test that `current` is an object.
unfoldable pub member : String → Value → Value
unfolding own_field array_member inherited_member
member segment (object id fields) = elim (own_field segment fields) [
  | some v ↦ v
  | none ↦ inherited_member object_members segment
]
member segment (array id items) = array_member segment items
member segment _ = undefined

unfoldable pub is_barred : String → Bool
is_barred segment = any (λ n. str_eq n segment) ("__proto__" ∷ "constructor" ∷ "prototype" ∷ [])

unfoldable pub resolve_ref : List String → Value → Value
unfolding member is_barred
resolve_ref [] current = current
resolve_ref (segment ∷ path) current =
    let next = resolve_ref path (member segment current) in
    if is_barred segment then undefined else next

-- `NaN` is none of the values that count as false.
unfoldable pub truthy : Value → Bool
truthy (boolean b) = b
truthy undefined = false
truthy null = false
truthy (number n) = bool_not (n.digits == 0)
truthy nan = true
truthy (string s) = bool_not (str_eq s "")
truthy _ = true

-- `left === right`
unfoldable pub strict_eq : Value → Value → Bool
strict_eq undefined undefined = true
strict_eq null null = true
strict_eq (boolean a) (boolean b) = bool_eq a b
strict_eq (number a) (number b) = decimal_eq a b
strict_eq (string a) (string b) = str_eq a b
strict_eq (array p _) (array q _) = same_object p q
strict_eq (object p _) (object q _) = same_object p q
strict_eq (inherited a) (inherited b) = str_eq a b
strict_eq _ _ = false

-- The operators on the values of the two sides.
unfoldable pub apply_op : Op → Value → Value → Value
unfolding truthy strict_eq
apply_op and left right = boolean (truthy left && truthy right)
apply_op or left right = boolean (if truthy left then true else truthy right)
apply_op eq left right = boolean (strict_eq left right)
apply_op _ left right = boolean (bool_not (strict_eq left right))

unfoldable pub evaluate_node : Expr → Value → Value
unfolding resolve_ref apply_op truthy
evaluate_node (literal v) scope = v
evaluate_node (ref path) scope = resolve_ref path scope
evaluate_node (negation e) scope = boolean (bool_not (truthy (evaluate_node e scope)))
evaluate_node (binary o left right) scope =
    apply_op o (evaluate_node left scope) (evaluate_node right scope)

unfoldable pub evaluate_scope_value : String → Value → Thrown ScopeError Value
unfolding parse_scope_expression evaluate_node
evaluate_scope_value source scope = do e ← parse_scope_expression source; ok (evaluate_node e scope)

unfoldable pub evaluate_scope_expression : String → Value → Thrown ScopeError Bool
unfolding parse_scope_expression evaluate_node truthy
evaluate_scope_expression source scope = do
  e ← parse_scope_expression source
  ok (truthy (evaluate_node e scope))
