-- ===== src/Files/Tree.antt =====
-- A directory tree as the os calls of the program see it.
use media_processor.Prelude.{
  ℕ, ◌≡◌, refl, String, Bool, true, false, ◌&&◌, ◌||◌, not, List, [], ◌∷◌, Option, none, some,
  arith, if◌then◌else◌,
}
use media_processor.Files.Paths.{FilePath, same_path, same_path_iff}

-- A regular file with its contents, which are opaque, or a directory.
pub data Node : Type 0 where
  file : ℕ → Node
  directory : Node

abbrev pub Tree : Type 0
Tree = List (FilePath × Node)

-- os.Stat.
unfoldable pub lookup : Tree → FilePath → Option Node
lookup [] p = none
lookup ((q, n) ∷ t) p = if same_path q p then some n else lookup t p

unfoldable pub erase : Tree → FilePath → Tree
erase [] p = []
erase ((q, n) ∷ t) p = let rest = erase t p in if same_path q p then rest else (q, n) ∷ rest

unfoldable pub write : Tree → FilePath → Node → Tree
write t p n = (p, n) ∷ erase t p

-- Whether a path is an entry of a directory.
unfoldable pub is_entry : FilePath → FilePath → Bool
is_entry d [] = false
is_entry d (b ∷ p) = same_path p d

-- ReadDir finds no entry.
unfoldable pub is_empty : Tree → FilePath → Bool
unfolding is_entry
is_empty [] d = true
is_empty ((q, n) ∷ t) d = not (is_entry d q) && is_empty t d

-- What os.Remove answers.
pub data Removed : Type 0 where
  gone not_exist refused : Removed

abbrev remove_node : Tree → FilePath → Bool → Option Node → Tree × Removed
remove_node t p fault none = (t, not_exist)
remove_node t p fault (some (file c)) = if fault then (t, refused) else (erase t p, gone)
remove_node t p fault (some directory) =
    if fault || not (is_empty t p) then (t, refused) else (erase t p, gone)

-- os.Remove; `fault` is any further reason to refuse, such as permissions.
unfoldable pub remove : Tree → FilePath → Bool → Tree × Removed
unfolding is_empty
remove t p fault = remove_node t p fault (lookup t p)

pub lookup-erase :
    (t : Tree) (p q : FilePath)
    → lookup (erase t p) q ≡ (if same_path p q then none else lookup t q)
unfolding lookup erase
lookup-erase [] p q = ground arith
lookup-erase ((r, n) ∷ t) p q =
    ground (arith, same_path_iff r p, same_path_iff r q, same_path_iff p q, lookup-erase t p q)

pub lookup-write :
    (t : Tree) (p q : FilePath) (n : Node)
    → lookup (write t p n) q ≡ (if same_path p q then some n else lookup t q)
unfolding lookup write
lookup-write t p q n = ground (arith, lookup-erase t p q)

-- An empty directory has no entry.
pub is_empty-lookup :
    (t : Tree) (d : FilePath) (b : String) → is_empty t d ≡ true → lookup t (b ∷ d) ≡ none
unfolding is_empty lookup same_path
is_empty-lookup [] d b h = refl
is_empty-lookup (([], n) ∷ t) d b h = ground (arith, is_empty-lookup t d b)
is_empty-lookup ((c ∷ q, n) ∷ t) d b h = ground (arith, is_empty-lookup t d b, same_path_iff q d)
