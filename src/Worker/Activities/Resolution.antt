-- ===== src/Worker/Activities/Resolution.antt =====
-- What a list of tokens resolves to, by the last mention of each name.
use media_processor.Prelude.{
  ◌≡◌, ◌≢◌, refl, sym, ap, ◌∙◌, ◌⊎◌, inl, inr, true, false, List, [], ◌∷◌, Option, none, some,
  String, eq_iff, arith, Bool-cases, Option-cases, if◌then◌else◌,
}
use media_processor.Text.{trim_space}
use media_processor.Worker.Activities.{
  ResolveError, unknown_token, empty_set, contains, resolve_tokens, in_order, finish,
  resolve_activities,
}
use media_processor.Worker.Activities.Mentions.{
  is_unknown, first_unknown, is_enabled, IsKnown, apply_unknown, apply_known,
}

-- What a list of tokens makes of a set, if all of them are known.
abbrev Resolved : List String → List String → List String → ResolveError ⊎ List String → Type 0
Resolved known ts set r =
    (set' : List String) × (r ≡ inr set')
    × ((n : String) → contains known n ≡ true → contains set' n ≡ is_enabled (contains set n) n ts)
    × IsKnown known set'

resolve_unknown :
    (known : List String) (ts : List String) (set : List String) (u : String)
    → IsKnown known set
    → first_unknown known ts ≡ some u
    → resolve_tokens known ts set ≡ inl (unknown_token u)
unfolding resolve_tokens first_unknown
resolve_unknown known [] set u k h = cc
resolve_unknown known (t ∷ ts) set u k h = elim (Bool-cases (is_unknown known (trim_space t))) [
  | inl e ↦ rw (apply_unknown known (trim_space t) set e) (ground arith)
  | inr e ↦
      let (set', f, g, k') = apply_known known (trim_space t) set k e in
      rw f (resolve_unknown known ts set' u k' (ground arith))
]

resolve_known :
    (known : List String) (ts : List String) (set : List String)
    → IsKnown known set
    → first_unknown known ts ≡ none
    → Resolved known ts set (resolve_tokens known ts set)
unfolding resolve_tokens first_unknown is_enabled
resolve_known known [] set k h = (set, refl, λ n l. refl, k)
resolve_known known (t ∷ ts) set k h =
    let (set', f, g, k') = apply_known known (trim_space t) set k (ground arith) in
    let (set'', f', g', k'') = resolve_known known ts set' k' (ground arith) in
    (set'', rw f f', λ n l. g' n l ∙ ap (λ b. is_enabled b n ts) (g n l), k'')

-- The names that the tokens leave on, in the order of the known ones.
enabled : List String → List String → List String
enabled [] tokens = []
enabled (n ∷ ns) tokens =
    let rest = enabled ns tokens in if is_enabled false n tokens then n ∷ rest else rest

in_order-enabled :
    (ks set tokens : List String)
    → ((n : String) → contains ks n ≡ true → contains set n ≡ is_enabled false n tokens)
    → in_order ks set ≡ enabled ks tokens
unfolding in_order enabled contains
in_order-enabled [] set tokens h = refl
in_order-enabled (n ∷ ns) set tokens h =
    ground (arith, h n, eq_iff n n, in_order-enabled ns set tokens (λ m l. h m (ground arith)))

in_order-ne-nil :
    (ks set : List String) (n : String)
    → contains ks n ≡ true
    → contains set n ≡ true
    → in_order ks set ≢ []
unfolding in_order contains
in_order-ne-nil [] set n h l = cc
in_order-ne-nil (m ∷ ms) set n h l = ground (arith, eq_iff m n, in_order-ne-nil ms set n)

in_order_nil : (ks : List String) → in_order ks [] ≡ []
unfolding in_order contains
in_order_nil [] = refl
in_order_nil (k ∷ ks) = in_order_nil ks

abbrev or_empty : List String → ResolveError ⊎ List String
or_empty [] = inl empty_set
or_empty (n ∷ ns) = inr (n ∷ ns)

abbrev refused_or : Option String → ResolveError ⊎ List String → ResolveError ⊎ List String
refused_or none r = r
refused_or (some t) r = inl (unknown_token t)

-- What the tokens are to resolve to.
pub expected : List String → List String → ResolveError ⊎ List String
expected tokens known = refused_or (first_unknown known tokens) (or_empty (enabled known tokens))

IsKnown-nil : (known : List String) → IsKnown known []
unfolding contains
IsKnown-nil known n h = cc

finish_refused : (known : List String) (e : ResolveError) → finish known (inl e) ≡ inl e
unfolding finish
finish_refused known e = refl

finish_known :
    (known tokens set : List String)
    → ((n : String) → contains known n ≡ true → contains set n ≡ is_enabled false n tokens)
    → IsKnown known set
    → finish known (inr set) ≡ or_empty (enabled known tokens)
unfolding finish contains
finish_known known tokens [] h k =
    ap or_empty (sym (in_order_nil known) ∙ in_order-enabled known [] tokens h)
finish_known known tokens (x ∷ xs) h k =
    nonempty (in_order known (x ∷ xs)) (
      in_order-ne-nil known (x ∷ xs) x (k x (ground (arith, eq_iff x x)))
        (ground (arith, eq_iff x x)))
    ∙ ap or_empty (in_order-enabled known (x ∷ xs) tokens h)
  where
    nonempty : (ns : List String) → ns ≢ [] → inr ns ≡ or_empty ns
    nonempty [] e = absurd (e refl)
    nonempty (n ∷ ns) e = refl

-- A list of tokens is refused with its first token that names no known activity, if there is one.
-- Otherwise an activity is resolved exactly if the last token that mentions it, by its name or by
-- "all", is not negated; the activities stand in the order of the known ones, and if there is none
-- the list is refused as empty.
pub resolve_activities_lem :
    (tokens known : List String) → resolve_activities tokens known ≡ expected tokens known
unfolding resolve_activities expected contains
resolve_activities_lem tokens known = elim (Option-cases (first_unknown known tokens)) [
  | inl e ↦
      let (set, f, g, k) = resolve_known known tokens [] (IsKnown-nil known) e in
      rw (e, f) (finish_known known tokens set g k)
  | inr (u, e) ↦
      rw (e, resolve_unknown known tokens [] u (IsKnown-nil known) e)
        (finish_refused known (unknown_token u))
]
