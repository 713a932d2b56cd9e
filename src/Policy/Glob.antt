-- ===== src/Policy/Glob.antt =====
-- packages/policy/src/rule-engine.ts: `globToRegExp`. The expressions that it builds are sequences
-- of three kinds of pieces, anchored at both ends; a special character is escaped, so it stands for
-- itself.
use Prim.Native.Char.{code}
use ai_orchestration.Prelude.{
  ℕ, String, ◌==◌, ◌≡◌, ◌↔◌, inl, inr, refl, sym, subst, ap, Bool, true, false, not, ◌&&◌, ◌||◌,
  List, [], ◌∷◌, ◌++◌, arith, Bool-cases, if◌then◌else◌,
}

pub data Piece : Type 0 where
  anything : Piece
  segment : Piece
  literal : ℕ → Piece

unfoldable pub codes : String → List ℕ
codes String.[] = []
codes (String.◌∷◌ c s) = code c ∷ codes s

-- The loop of `globToRegExp`: `**`, `*`, and any other character.
unfoldable pub pieces : List ℕ → List Piece
pieces [] = []
pieces (c ∷ []) = (if c == 42 then segment else literal c) ∷ []
pieces (c ∷ d ∷ rest) = elim (c == 42) [
  | false ↦ literal c ∷ pieces (d ∷ rest)
  | true ↦ elim (d == 42) [ true ↦ anything ∷ pieces rest | false ↦ segment ∷ pieces (d ∷ rest) ]
]

-- `.` stands for all but the line terminators, `[^/]` for all but the slash.
unfoldable pub is_dot : ℕ → Bool
is_dot c = not (c == 10 || (c == 13 || (c == 0x2028 || c == 0x2029)))

unfoldable pub is_in_segment : ℕ → Bool
is_in_segment c = not (c == 47)

-- A run of characters, then the rest of the expression.
unfoldable pub run_of : (ℕ → Bool) → (List ℕ → Bool) → List ℕ → Bool
run_of p rest [] = rest []
run_of p rest (c ∷ s) = rest (c ∷ s) || (p c && run_of p rest s)

-- `regex.test(text)`
unfoldable pub test : List Piece → List ℕ → Bool
unfolding is_dot is_in_segment run_of
test [] [] = true
test [] (_ ∷ _) = false
test (anything ∷ ps) s = run_of is_dot (test ps) s
test (segment ∷ ps) s = run_of is_in_segment (test ps) s
test (literal c ∷ ps) [] = false
test (literal c ∷ ps) (d ∷ s) = c == d && test ps s

-- What a pattern means, character by character: the text is cut in parts, one for each `**`, each
-- other `*` and each other character.
abbrev pub Consists : (ℕ → Bool) → List ℕ → Type 0
Consists p [] = Unit
Consists p (c ∷ s) = (p c ≡ true) × Consists p s

abbrev starts_with_star : List ℕ → Bool
starts_with_star [] = false
starts_with_star (c ∷ _) = c == 42

pub data Denotes : List ℕ → List ℕ → Type 0 where
  at_end : Denotes [] []
  any_run :
      {g s : List ℕ} (part : List ℕ)
      → Consists is_dot part
      → Denotes g s
      → Denotes (42 ∷ 42 ∷ g) (part ++ s)
  segment_run :
      {g s : List ℕ} (part : List ℕ)
      → starts_with_star g ≡ false
      → Consists is_in_segment part
      → Denotes g s
      → Denotes (42 ∷ g) (part ++ s)
  same : {g s : List ℕ} (c : ℕ) → (c == 42) ≡ false → Denotes g s → Denotes (c ∷ g) (c ∷ s)

-- A run is found exactly if some part of the text can be it.
run_of_part :
    (p : ℕ → Bool) (rest : List ℕ → Bool) (s : List ℕ)
    → run_of p rest s ≡ true
    → (part : List ℕ) × (left : List ℕ) × (s ≡ part ++ left) × Consists p part × (rest left ≡ true)
unfolding run_of
run_of_part p rest [] h = ([], [], refl, tt, h)
run_of_part p rest (c ∷ s) h = elim (Bool-cases (rest (c ∷ s))) [
  | inl now ↦ ([], c ∷ s, refl, tt, now)
  | inr later ↦
      let (part, left, e, fits, done) = run_of_part p rest s (ground arith) in
      (c ∷ part, left, ap (λ l. c ∷ l) e, (ground arith, fits), done)
]

part_run_of :
    (p : ℕ → Bool) (rest : List ℕ → Bool) (part left : List ℕ)
    → Consists p part
    → rest left ≡ true
    → run_of p rest (part ++ left) ≡ true
unfolding run_of
part_run_of p rest [] [] fits done = done
part_run_of p rest [] (c ∷ left) fits done = ground arith
part_run_of p rest (c ∷ part) left (here, fits) done =
    let later = part_run_of p rest part left fits done in ground arith

-- The pieces of a pattern, by what it starts with.
pieces_of_stars : (g : List ℕ) → pieces (42 ∷ 42 ∷ g) ≡ anything ∷ pieces g
unfolding pieces
pieces_of_stars g = refl

pieces_of_star : (g : List ℕ) → starts_with_star g ≡ false → pieces (42 ∷ g) ≡ segment ∷ pieces g
unfolding pieces
pieces_of_star [] h = refl
pieces_of_star (d ∷ g) h = let q : (d == 42) ≡ false = h in rw (q, pieces) refl

pieces_of_literal : (c : ℕ) (g : List ℕ) → (c == 42) ≡ false → pieces (c ∷ g) ≡ literal c ∷ pieces g
unfolding pieces
pieces_of_literal c [] h = rw h refl
pieces_of_literal c (d ∷ g) h = rw (h, pieces) refl

segment-Denotes :
    (g s : List ℕ)
    → starts_with_star g ≡ false
    → ((left : List ℕ) → test (pieces g) left ≡ true → Denotes g left)
    → test (pieces (42 ∷ g)) s ≡ true
    → Denotes (42 ∷ g) s
unfolding test
segment-Denotes g s first k h =
    let (part, left, e, fits, done) =
      run_of_part is_in_segment (test (pieces g)) s (rw (pieces_of_star g first) at h) in
    rw e (segment_run part first fits (k left done))

literal-Denotes :
    (c : ℕ) (g s : List ℕ)
    → (c == 42) ≡ false
    → ((left : List ℕ) → test (pieces g) left ≡ true → Denotes g left)
    → test (pieces (c ∷ g)) s ≡ true
    → Denotes (c ∷ g) s
unfolding test
literal-Denotes c g [] other k h =
    let q : test (literal c ∷ pieces g) [] ≡ true = rw (pieces_of_literal c g other) at h in cc
literal-Denotes c g (d ∷ s) other k h =
    let q : test (literal c ∷ pieces g) (d ∷ s) ≡ true = rw (pieces_of_literal c g other) at h in
    let e : c ≡ d = ground (arith, q) in rw (sym e) (same c other (k s (ground (arith, q))))

test-Denotes : (g s : List ℕ) → test (pieces g) s ≡ true → Denotes g s
unfolding test pieces
test-Denotes [] [] h = at_end
test-Denotes [] (_ ∷ _) h = cc
test-Denotes (c ∷ []) s h = elim (Bool-cases (c == 42)) [
  | inr other ↦ literal-Denotes c [] s other (λ left. test-Denotes [] left) h
  | inl star ↦
      let e : c ≡ 42 = ground (arith, star) in
      subst (λ x. test (pieces (x ∷ [])) s ≡ true → Denotes (x ∷ []) s) (sym e)
        (segment-Denotes [] s refl (λ left. test-Denotes [] left)) h
]
test-Denotes (c ∷ d ∷ g) s h = elim (Bool-cases (c == 42)) [
  | inr other ↦ literal-Denotes c (d ∷ g) s other (λ left. test-Denotes (d ∷ g) left) h
  | inl star ↦
      let e : c ≡ 42 = ground (arith, star) in
      subst (λ x. test (pieces (x ∷ d ∷ g)) s ≡ true → Denotes (x ∷ d ∷ g) s) (sym e)
        (starred (λ left. test-Denotes g left) (λ left. test-Denotes (d ∷ g) left)) h
]
  where
    doubled :
        ((left : List ℕ) → test (pieces g) left ≡ true → Denotes g left)
        → test (pieces (42 ∷ 42 ∷ g)) s ≡ true
        → Denotes (42 ∷ 42 ∷ g) s
    doubled k h =
        let (part, left, e, fits, done) = run_of_part is_dot (test (pieces g)) s h in
        rw e (any_run part fits (k left done))

    starred :
        ((left : List ℕ) → test (pieces g) left ≡ true → Denotes g left)
        → ((left : List ℕ) → test (pieces (d ∷ g)) left ≡ true → Denotes (d ∷ g) left)
        → test (pieces (42 ∷ d ∷ g)) s ≡ true
        → Denotes (42 ∷ d ∷ g) s
    starred k l h = elim (Bool-cases (d == 42)) [
      | inr single ↦ segment-Denotes (d ∷ g) s single l h
      | inl double ↦
          let e : d ≡ 42 = ground (arith, double) in
          subst (λ x. test (pieces (42 ∷ x ∷ g)) s ≡ true → Denotes (42 ∷ x ∷ g) s) (sym e)
            (doubled k) h
    ]

at_both_ends : test (pieces []) [] ≡ true
unfolding test pieces
at_both_ends = refl

Denotes-test : {g s : List ℕ} → Denotes g s → test (pieces g) s ≡ true
unfolding test
Denotes-test at_end = at_both_ends
Denotes-test (any_run {g} {s} part fits rest) =
    rw (pieces_of_stars g) (part_run_of is_dot (test (pieces g)) part s fits (Denotes-test rest))
Denotes-test (segment_run {g} {s} part first fits rest) =
    rw (pieces_of_star g first)
      (part_run_of is_in_segment (test (pieces g)) part s fits (Denotes-test rest))
Denotes-test (same {g} {s} c other rest) =
    let e = Denotes-test rest in rw (pieces_of_literal c g other) (ground (arith, e))

-- The expression that a pattern is translated to accepts exactly the texts that the pattern
-- denotes: reading it from the left, `**` is any run of characters but line terminators, any other
-- `*` is any run without a slash, and every other character is itself.
pub test-Denotes_iff :
    (pattern target : List ℕ) → (test (pieces pattern) target ≡ true) ↔ Denotes pattern target
test-Denotes_iff pattern target = (test-Denotes pattern target, λ d. Denotes-test d)
