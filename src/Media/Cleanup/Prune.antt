-- ===== src/Media/Cleanup/Prune.antt =====
-- workflows/media/cleanup.go: what pruning can and cannot remove.
use media_processor.Prelude.{
  ◌≡◌, ◌≢◌, refl, ap, sym, ◌⊎◌, inl, inr, true, false, [], ◌∷◌, none, some, String, arith,
  Bool-cases,
}
use mathlib.Core.Path.{subst}
use media_processor.Files.Paths.{FilePath, dir, rel, same_path, same_path_iff}
use media_processor.Files.Tree.{
  Tree, directory, lookup, erase, is_empty, remove, lookup-erase, is_empty-lookup,
}
use media_processor.Media.Cleanup.{Faults, prune_loop, prune_empty_parents}

-- A directory or one of the directories above it.
abbrev pub InChain : FilePath → FilePath → Type 0
InChain q [] = q ≡ []
InChain q (b ∷ d) = (q ≡ b ∷ d) ⊎ InChain q d

-- Strictly below a root.
pub record IsBelow (root q : FilePath) : Type 0 where
  pub inside : (rel root q).ups ≡ 0
  pub proper : (rel root q).downs ≢ []

-- What a pruning from the directory `d` up may make of a path.
abbrev pub PruneOutcome : FilePath → FilePath → Tree → Tree → FilePath → Type 0
PruneOutcome root d t t' q =
    (lookup t' q ≡ lookup t q)
    ⊎ ((lookup t q ≡ some directory) × (lookup t' q ≡ none) × IsBelow root q × InChain q d)

-- Every entry stands in a directory.
abbrev pub IsClosed : Tree → Type 0
IsClosed t = (b : String) (d : FilePath) → lookup t d ≡ none → lookup t (b ∷ d) ≡ none

-- A round of the loop stops with the tree as it is, or removes one empty directory and goes on.
pub round :
    (f : Faults) (root : FilePath) (b : String) (d : FilePath) (t : Tree)
    → (prune_loop f root (b ∷ d) t ≡ t)
      ⊎ ((lookup t (b ∷ d) ≡ some directory)
          × (is_empty t (b ∷ d) ≡ true)
          × (f.remove_fails (b ∷ d) ≡ false)
          × IsBelow root (b ∷ d)
          × (prune_loop f root (b ∷ d) t ≡ prune_loop f root d (erase t (b ∷ d))))
unfolding prune_loop remove
round f root b d t = grind (arith)

pub prune_loop-root : (f : Faults) (root : FilePath) (t : Tree) → prune_loop f root [] t ≡ t
unfolding prune_loop
prune_loop-root f root t = refl

-- One more directory in front of a pruning.
step_outcome :
    (root : FilePath) (b : String) (d : FilePath) (t t' : Tree) (q : FilePath)
    → lookup t (b ∷ d) ≡ some directory
    → IsBelow root (b ∷ d)
    → PruneOutcome root d (erase t (b ∷ d)) t' q
    → PruneOutcome root (b ∷ d) t t' q
step_outcome root b d t t' q h below rest = elim (Bool-cases (same_path (b ∷ d) q)) [
  | inl hit ↦
      let e = (same_path_iff (b ∷ d) q).0 hit in
      inr (
        rw (← e) h,
        ground (arith, lookup-erase t (b ∷ d) q),
        subst (IsBelow root) e below,
        inl (sym e),
      )
  | inr miss ↦ ground (arith, lookup-erase t (b ∷ d) q)
]

pub prune_loop_outcome :
    (f : Faults) (root d : FilePath) (t : Tree) (q : FilePath)
    → PruneOutcome root d t (prune_loop f root d t) q
prune_loop_outcome f root [] t q = inl (ap (λ u. lookup u q) (prune_loop-root f root t))
prune_loop_outcome f root (b ∷ d) t q = elim (round f root b d t) [
  | inl e ↦ inl (ap (λ u. lookup u q) e)
  | inr (h, empty, ok, below, e) ↦
      rw e (step_outcome root b d t _ q h below (prune_loop_outcome f root d (erase t (b ∷ d)) q))
]

-- Pruning above a file changes nothing but that some directories are gone, each strictly below the
-- watch root and on the way from the file up to it.
pub prune_empty_parents_outcome :
    (f : Faults) (p root : FilePath) (t : Tree) (q : FilePath)
    → PruneOutcome root (dir p) t (prune_empty_parents f p (some root) t) q
unfolding prune_empty_parents
prune_empty_parents_outcome f p root t q = ground (arith, prune_loop_outcome f root (dir p) t q)

erase-IsClosed : (t : Tree) (p : FilePath) → is_empty t p ≡ true → IsClosed t → IsClosed (erase t p)
erase-IsClosed t p empty closed b d gap = ground (
  arith,
  lookup-erase t p d,
  lookup-erase t p (b ∷ d),
  same_path_iff p d,
  is_empty-lookup t p b empty,
  closed b d,
)

prune_loop-IsClosed :
    (f : Faults) (root d : FilePath) (t : Tree) → IsClosed t → IsClosed (prune_loop f root d t)
prune_loop-IsClosed f root [] t c = rw (prune_loop-root f root t) c
prune_loop-IsClosed f root (b ∷ d) t c = elim (round f root b d t) [
  | inl e ↦ rw e c
  | inr (h, empty, ok, below, e) ↦
      rw e (prune_loop-IsClosed f root d (erase t (b ∷ d)) (erase-IsClosed t (b ∷ d) empty c))
]

pruned-IsClosed :
    (f : Faults) (p root : FilePath) (t : Tree)
    → IsClosed t
    → IsClosed (prune_empty_parents f p (some root) t)
unfolding prune_empty_parents
pruned-IsClosed f p root t c = elim (Bool-cases (f.open_fails root)) [
  | inl e ↦ rw e c
  | inr e ↦ rw e (prune_loop-IsClosed f root (dir p) t c)
]

-- Where every entry stood in a directory before a pruning, none stands outside one after it.
prune_empty_parents-IsClosed :
    (f : Faults) (p root : FilePath) (t : Tree) (b : String) (d : FilePath)
    → IsClosed t
    → lookup (prune_empty_parents f p (some root) t) d ≡ none
    → lookup (prune_empty_parents f p (some root) t) (b ∷ d) ≡ none
prune_empty_parents-IsClosed f p root t b d c h = pruned-IsClosed f p root t c b d h
