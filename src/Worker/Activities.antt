-- ===== src/Worker/Activities.antt =====
-- cmd/worker/activities_resolver.go. The set of names is a list.
pub mod Mentions
pub mod Resolution
use Prim.Native.Char.{code}
use media_processor.Prelude.{
  ℕ, Bool, true, false, not, ◌&&◌, ◌||◌, List, [], ◌∷◌, ◌++◌, Option, none, some, String, str_eq,
  ◌==◌, ◌⊎◌, inl, inr, if◌then◌else◌,
}
use media_processor.Text.{trim_space}

abbrev pub all_token : String
all_token = "all"

pub data ResolveError : Type 0 where
  unknown_token : String → ResolveError
  empty_set : ResolveError

-- slices.Contains, and the test of the map.
unfoldable pub contains : List String → String → Bool
contains [] n = false
contains (x ∷ xs) n = str_eq x n || contains xs n

unfoldable pub delete : List String → String → List String
delete [] n = []
delete (x ∷ xs) n = let rest = delete xs n in if str_eq x n then rest else x ∷ rest

-- A trimmed token: whether it is negated, and the name.
unfoldable pub parse_token : String → Bool × String
parse_token String.[] = (false, String.[])
parse_token (String.◌∷◌ c s) =
    if code c == b'!' then (true, trim_space s) else (false, String.◌∷◌ c s)

unfoldable pub apply_name :
    List String → String → Bool × String → List String → ResolveError ⊎ List String
apply_name known token (negate, name) set =
    if not (contains known name)
    then inl (unknown_token token)
    else if negate
    then inr (delete set name)
    else inr (name ∷ set)

-- One token of the loop, trimmed.
unfoldable pub apply_token : List String → String → List String → ResolveError ⊎ List String
apply_token known token set =
    if str_eq token ""
    then inr set
    else if str_eq token all_token
    then inr (known ++ set)
    else apply_name known token (parse_token token) set

unfoldable pub or_error :
    ResolveError ⊎ List String
    → (List String → ResolveError ⊎ List String)
    → ResolveError ⊎ List String
or_error (inl e) rest = inl e
or_error (inr set) rest = rest set

unfoldable pub resolve_tokens : List String → List String → List String → ResolveError ⊎ List String
unfolding or_error
resolve_tokens known [] set = inr set
resolve_tokens known (t ∷ ts) set =
    or_error (apply_token known (trim_space t) set) (resolve_tokens known ts)

-- The names of the set in the order of the known ones.
unfoldable pub in_order : List String → List String → List String
in_order [] set = []
in_order (k ∷ ks) set = let rest = in_order ks set in if contains set k then k ∷ rest else rest

unfoldable pub finish : List String → ResolveError ⊎ List String → ResolveError ⊎ List String
finish known (inl e) = inl e
finish known (inr []) = inl empty_set
finish known (inr (x ∷ xs)) = inr (in_order known (x ∷ xs))

-- `resolveActivities`.
unfoldable pub resolve_activities : List String → List String → ResolveError ⊎ List String
resolve_activities tokens known = finish known (resolve_tokens known tokens [])

-- strings.Split(s, ","): the pieces, the first one apart.
unfoldable pub split_commas : String → String × List String
split_commas String.[] = (String.[], [])
split_commas (String.◌∷◌ c s) =
    let (first, rest) = split_commas s in
    if code c == b',' then (String.[], first ∷ rest) else (String.◌∷◌ c first, rest)

unfoldable pub trimmed : List String → List String
trimmed [] = []
trimmed (p ∷ ps) =
    let rest = trimmed ps in let t = trim_space p in if str_eq t "" then rest else t ∷ rest

abbrev pub or_all : List String → List String
or_all [] = all_token ∷ []
or_all (t ∷ ts) = t ∷ ts

-- `parseWorkerActivities`.
unfoldable pub parse_worker_activities : String → List String
parse_worker_activities raw =
    let s = trim_space raw in
    if str_eq s ""
    then all_token ∷ []
    else let (first, rest) = split_commas s in or_all (trimmed (first ∷ rest))
