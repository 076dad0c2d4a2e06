-- ===== src/Worker/Activities/Mentions.antt =====
-- What one token makes of the set of activities, and the rule that looks at the last mention of each
-- name.
use media_processor.Prelude.{
  ◌≡◌, refl, ◌⊎◌, inl, inr, Bool, true, false, not, ◌&&◌, ◌||◌, List, [], ◌∷◌, ◌++◌, Option, none,
  some, String, str_eq, eq_iff, arith, Bool-cases, if◌then◌else◌,
}
use media_processor.Text.{trim_space}
use media_processor.Worker.Activities.{
  all_token, ResolveError, unknown_token, contains, delete, parse_token, apply_name, apply_token,
}

-- A trimmed token that is no blank, not "all", and does not name a known activity.
pub is_unknown : List String → String → Bool
is_unknown known t =
    not (str_eq t "") && (not (str_eq t all_token) && not (contains known (parse_token t).1))

-- The first token that is unknown, trimmed.
unfoldable pub first_unknown : List String → List String → Option String
first_unknown known [] = none
first_unknown known (t ∷ ts) =
    let rest = first_unknown known ts in
    if is_unknown known (trim_space t) then some (trim_space t) else rest

-- What a trimmed token says of a name: it turns it on, off, or does not mention it.
pub mention : String → String → Option Bool
mention n t =
    if str_eq t ""
    then none
    else if str_eq t all_token
    then some true
    else if str_eq (parse_token t).1 n
    then some (not (parse_token t).0)
    else none

abbrev after : Option Bool → Bool → Bool
after none before = before
after (some b) before = b

-- The last mention of a name decides; without one, `before` does.
unfoldable pub is_enabled : Bool → String → List String → Bool
is_enabled before n [] = before
is_enabled before n (t ∷ ts) = is_enabled (after (mention n (trim_space t)) before) n ts

contains-append :
    (xs ys : List String) (n : String) → contains (xs ++ ys) n ≡ (contains xs n || contains ys n)
unfolding contains
contains-append [] ys n = refl
contains-append (x ∷ xs) ys n = ground (arith, contains-append xs ys n)

contains-delete :
    (xs : List String) (m n : String)
    → contains (delete xs m) n ≡ (if str_eq m n then false else contains xs n)
unfolding contains delete
contains-delete [] m n = ground arith
contains-delete (x ∷ xs) m n =
    ground (arith, eq_iff x m, eq_iff x n, eq_iff m n, contains-delete xs m n)

-- A set holds known names only.
abbrev pub IsKnown : List String → List String → Type 0
IsKnown known set = (n : String) → contains set n ≡ true → contains known n ≡ true

-- What one token makes of a set.
abbrev Applied : List String → String → List String → ResolveError ⊎ List String → Type 0
Applied known t set r =
    (set' : List String) × (r ≡ inr set')
    × ((n : String)
        → contains known n ≡ true
        → contains set' n ≡ after (mention n t) (contains set n))
    × IsKnown known set'

pub apply_unknown :
    (known : List String) (t : String) (set : List String)
    → is_unknown known t ≡ true
    → apply_token known t set ≡ inl (unknown_token t)
unfolding is_unknown apply_token apply_name
apply_unknown known t set h = ground arith

module _ (known : List String) (t : String) (set : List String) (k : IsKnown known set) where
  apply_blank : str_eq t "" ≡ true → Applied known t set (apply_token known t set)
  unfolding apply_token mention
  apply_blank e = (set, rw e refl, λ n h. rw e refl, k)

  apply_all :
      str_eq t "" ≡ false
      → str_eq t all_token ≡ true
      → Applied known t set (apply_token known t set)
  unfolding apply_token mention
  apply_all e f = (
    known ++ set,
    rw (e, f) refl,
    λ n h. rw (e, f) (ground (arith, contains-append known set n)),
    λ n h. ground (arith, contains-append known set n, k n),
  )

  apply_negated :
      str_eq t "" ≡ false
      → str_eq t all_token ≡ false
      → contains known (parse_token t).1 ≡ true
      → (parse_token t).0 ≡ true
      → Applied known t set (apply_token known t set)
  unfolding apply_token apply_name mention
  apply_negated e f g h = (
    delete set (parse_token t).1,
    ground arith,
    λ n l. ground (arith, contains-delete set (parse_token t).1 n),
    λ n l. ground (arith, contains-delete set (parse_token t).1 n, k n),
  )

  apply_named :
      str_eq t "" ≡ false
      → str_eq t all_token ≡ false
      → contains known (parse_token t).1 ≡ true
      → (parse_token t).0 ≡ false
      → Applied known t set (apply_token known t set)
  unfolding apply_token apply_name mention contains
  apply_named e f g h = (
    (parse_token t).1 ∷ set,
    ground arith,
    λ n l. ground arith,
    λ n l. ground (arith, eq_iff (parse_token t).1 n, k n),
  )

  pub apply_known : is_unknown known t ≡ false → Applied known t set (apply_token known t set)
  unfolding is_unknown
  apply_known u = elim (Bool-cases (str_eq t "")) [
    | inl e ↦ apply_blank e
    | inr e ↦ elim (Bool-cases (str_eq t all_token)) [
      | inl f ↦ apply_all e f
      | inr f ↦ elim (Bool-cases (parse_token t).0) [
        | inl h ↦ apply_negated e f (ground arith) h
        | inr h ↦ apply_named e f (ground arith) h
      ]
    ]
  ]
