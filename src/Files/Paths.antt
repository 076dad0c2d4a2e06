-- ===== src/Files/Paths.antt =====
-- path/filepath on absolute clean paths. A path is its list of segments, the innermost one first:
-- /downloads/show/ep.mkv is "ep.mkv" ∷ "show" ∷ "downloads" ∷ [], and / is [].
use mathlib.Core.List.{reverse, reverse-reverse, reverse-append}
use media_processor.Prelude.{
  ℕ, suc, ◌≡◌, refl, sym, ap, ◌∙◌, ◌↔◌, Bool, true, false, ◌&&◌, List, [], ◌∷◌, ◌++◌, String,
  str_eq, eq_iff, arith, length, if◌then◌else◌,
}

abbrev pub FilePath : Type 0
FilePath = List String

-- filepath.Dir; the directory of / is / itself.
unfoldable pub dir : FilePath → FilePath
dir [] = []
dir (b ∷ d) = d

-- filepath.Base; the base of / is "/".
unfoldable pub base : FilePath → String
base [] = "/"
base (b ∷ d) = b

-- Equality of paths.
unfoldable pub same_path : FilePath → FilePath → Bool
same_path [] [] = true
same_path [] (q ∷ qs) = false
same_path (p ∷ ps) [] = false
same_path (p ∷ ps) (q ∷ qs) = str_eq p q && same_path ps qs

pub same_path_iff : (p q : FilePath) → (same_path p q ≡ true) ↔ (p ≡ q)
unfolding same_path
same_path_iff [] [] = (λ h. refl, λ h. refl)
same_path_iff [] (q ∷ qs) = (λ h. cc, λ h. cc)
same_path_iff (p ∷ ps) [] = (λ h. cc, λ h. cc)
same_path_iff (p ∷ ps) (q ∷ qs) = (
  λ h. ground (arith, eq_iff p q, same_path_iff ps qs),
  λ h. ground (arith, eq_iff p q, same_path_iff ps qs),
)

-- A relative path: the number of leading `..`, and the segments under them, innermost first.
pub record Relative : Type 0 where
  pub ups : ℕ
  pub downs : FilePath

-- filepath.Rel on segments from the root inwards: the common segments go.
unfoldable pub rel_from : List String → List String → ℕ × List String
rel_from [] ts = (0, ts)
rel_from (b ∷ bs) [] = (suc (length bs), [])
rel_from (b ∷ bs) (t ∷ ts) =
    let rest = rel_from bs ts in if str_eq b t then rest else (suc (length bs), t ∷ ts)

unfoldable pub rel : FilePath → FilePath → Relative
unfolding rel_from
rel root target =
    let (u, d) = rel_from (reverse root) (reverse target) in record { ups = u; downs = reverse d }

rel_from_inside : (bs ts : List String) → (rel_from bs ts).0 ≡ 0 → ts ≡ bs ++ (rel_from bs ts).1
unfolding rel_from
rel_from_inside [] ts h = refl
rel_from_inside (b ∷ bs) [] h = absurd (omega arith)
rel_from_inside (b ∷ bs) (t ∷ ts) h = ground (arith, eq_iff b t, rel_from_inside bs ts)

rel_from-append : (bs ts : List String) → rel_from bs (bs ++ ts) ≡ (0, ts)
unfolding rel_from
rel_from-append [] ts = refl
rel_from-append (b ∷ bs) ts = ground (arith, eq_iff b b, rel_from-append bs ts)

-- A relative path with no `..` leads from the root to the target.
pub rel_inside :
    (root target : FilePath) → (rel root target).ups ≡ 0 → target ≡ (rel root target).downs ++ root
unfolding rel
rel_inside root target h =
    let e = rel_from_inside (reverse root) (reverse target) h in
    sym (reverse-reverse target)
    ∙ ap reverse e
    ∙ reverse-append (reverse root) _
    ∙ ap (λ r. (rel root target).downs ++ r) (reverse-reverse root)

-- What lies under a root has a relative path with no `..`, its own segments.
pub rel-append : (xs root : FilePath) → rel root (xs ++ root) ≡ record { ups = 0; downs = xs }
unfolding rel
rel-append xs root =
    rw (reverse-append xs root, rel_from-append (reverse root) (reverse xs), reverse-reverse xs)
