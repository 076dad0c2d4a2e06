-- ===== src/Media/Cleanup/Exhaustion.antt =====
-- workflows/media/cleanup.go: that pruning leaves no empty directory behind.
use media_processor.Prelude.{
  ◌≡◌, refl, ap, sym, ◌∙◌, ◌⊎◌, inl, inr, false, [], ◌∷◌, ◌++◌, some, String, arith, Bool-cases,
  length, ◌<◌,
}
use mathlib.Core.Path.{subst}
use media_processor.Files.Paths.{
  FilePath, Relative, dir, rel, rel_inside, rel-append, same_path, same_path_iff,
}
use media_processor.Files.Tree.{
  Tree, Node, directory, lookup, erase, is_empty, remove, lookup-erase, is_empty-lookup,
}
use media_processor.Media.Cleanup.{Faults, prune_loop, prune_empty_parents}
use media_processor.Media.Cleanup.Prune.{InChain, IsBelow, prune_loop_outcome}

-- No fault on the way.
abbrev pub IsSound : Faults → Type 0
IsSound f = (p : FilePath) → (f.open_fails p ≡ false) × (f.remove_fails p ≡ false)

-- Every directory from `d` up to the root is there.
abbrev pub AllThere : FilePath → Tree → FilePath → Type 0
AllThere root t [] = Unit
AllThere root t (b ∷ d) =
    (IsBelow root (b ∷ d) → lookup t (b ∷ d) ≡ some directory) × AllThere root t d

AllThere-erase :
    (root : FilePath) (t : Tree) (p d : FilePath)
    → length d < length p
    → AllThere root t d
    → AllThere root (erase t p) d
AllThere-erase root t p [] s a = tt
AllThere-erase root t p (b ∷ d) s a =
    (λ below. kept (a.0 below), AllThere-erase root t p d (omega arith) a.1)
  where
    kept : lookup t (b ∷ d) ≡ some directory → lookup (erase t p) (b ∷ d) ≡ some directory
    kept h = elim (Bool-cases (same_path p (b ∷ d))) [
      | inl hit ↦ absurd (omega (arith, ap length ((same_path_iff p (b ∷ d)).0 hit)))
      | inr miss ↦ ground (arith, lookup-erase t p (b ∷ d))
    ]

IsBelow-append : (root : FilePath) (b : String) (xs : FilePath) → IsBelow root (b ∷ xs ++ root)
IsBelow-append root b xs = record {
  inside = ap (λ (r : Relative). r.ups) (rel-append (b ∷ xs) root);
  proper = λ h. cc (ap (λ (r : Relative). r.downs) (rel-append (b ∷ xs) root));
}

IsBelow-cons : (root : FilePath) (b : String) (d : FilePath) → IsBelow root d → IsBelow root (b ∷ d)
IsBelow-cons root b d below =
    subst (λ e. IsBelow root (b ∷ e)) (sym (rel_inside root d below.inside))
      (IsBelow-append root b (rel root d).downs)

-- A chain that holds something below the root is below the root itself.
IsBelow-chain : (root d q : FilePath) → InChain q d → IsBelow root q → IsBelow root d
IsBelow-chain root [] q e below = subst (IsBelow root) e below
IsBelow-chain root (b ∷ d) q (inl e) below = subst (IsBelow root) e below
IsBelow-chain root (b ∷ d) q (inr up) below =
    IsBelow-cons root b d (IsBelow-chain root d q up below)

occupied :
    (t : Tree) (b : String) (d : FilePath) (n : Node)
    → lookup t (b ∷ d) ≡ some n
    → is_empty t d ≡ false
occupied t b d n h = elim (Bool-cases (is_empty t d)) [
  | inl e ↦ cc (is_empty-lookup t d b e)
  | inr e ↦ e
]

above_nonempty :
    (root : FilePath) (b : String) (d : FilePath) (t : Tree) (n : Node)
    → lookup t (b ∷ d) ≡ some n
    → AllThere root t d
    → (q : FilePath) → InChain q d
    → IsBelow root q
    → is_empty t q ≡ false
above_nonempty root b [] t n h a q e below = rw e (occupied t b [] n h)
above_nonempty root b (c ∷ d) t n h a q (inl e) below = rw e (occupied t b (c ∷ d) n h)
above_nonempty root b (c ∷ d) t n h a q (inr up) below =
    above_nonempty root c d t directory (a.0 (IsBelow-chain root (c ∷ d) q (inr up) below)) a.1 q up
      below

round_sound :
    (f : Faults) (root : FilePath) (b : String) (d : FilePath) (t : Tree)
    → IsSound f
    → lookup t (b ∷ d) ≡ some directory
    → IsBelow root (b ∷ d)
    → ((prune_loop f root (b ∷ d) t ≡ t) × (is_empty t (b ∷ d) ≡ false))
      ⊎ (prune_loop f root (b ∷ d) t ≡ prune_loop f root d (erase t (b ∷ d)))
unfolding prune_loop remove
round_sound f root b d t sound h below = ground (arith, sound (b ∷ d), below.inside, below.proper)

nothing_under : (xs ys : FilePath) → [] ≡ xs ++ ys → xs ≡ []
nothing_under [] ys h = refl
nothing_under (x ∷ xs) ys h = cc

not-IsBelow-nil : (root q : FilePath) → q ≡ [] → ¬ IsBelow root q
not-IsBelow-nil root q e below =
    below.proper (nothing_under (rel root q).downs root (sym e ∙ rel_inside root q below.inside))

prune_loop_complete :
    (f : Faults) (root d : FilePath) (t : Tree)
    → IsSound f
    → AllThere root t d
    → (q : FilePath) → InChain q d
    → IsBelow root q
    → lookup (prune_loop f root d t) q ≡ some directory
    → is_empty (prune_loop f root d t) q ≡ false
prune_loop_complete f root [] t sound a q e below h = absurd (not-IsBelow-nil root q e below)
prune_loop_complete f root (b ∷ d) t sound a q e below h =
    elim (round_sound f root b d t sound (a.0 there) there) [
      | inl (same, full) ↦ rw same (stopped e full)
      | inr next ↦ rw next (
          went_on e (rw next at h) (λ up.
            prune_loop_complete f root d (erase t (b ∷ d)) sound
              (AllThere-erase root t (b ∷ d) d (omega arith) a.1) q up below))
    ]
  where
    there : IsBelow root (b ∷ d)
    there = IsBelow-chain root (b ∷ d) q e below

    t' : Tree
    t' = prune_loop f root d (erase t (b ∷ d))

    stopped : InChain q (b ∷ d) → is_empty t (b ∷ d) ≡ false → is_empty t q ≡ false
    stopped (inl hit) full = rw hit full
    stopped (inr up) full = above_nonempty root b d t directory (a.0 there) a.1 q up below

    went_on :
        InChain q (b ∷ d)
        → lookup t' q ≡ some directory
        → (InChain q d → lookup t' q ≡ some directory → is_empty t' q ≡ false)
        → is_empty t' q ≡ false
    went_on (inl hit) k ih = ground (
      arith,
      prune_loop_outcome f root d (erase t (b ∷ d)) q,
      lookup-erase t (b ∷ d) q,
      same_path_iff (b ∷ d) q,
    )
    went_on (inr up) k ih = ih up k

-- With no fault and every directory from the file up to the watch root in place, none of those
-- directories strictly below the root is left behind empty.
prune_empty_parents_complete :
    (f : Faults) (p root : FilePath) (t : Tree)
    → IsSound f
    → AllThere root t (dir p)
    → (q : FilePath) → InChain q (dir p)
    → IsBelow root q
    → lookup (prune_empty_parents f p (some root) t) q ≡ some directory
    → is_empty (prune_empty_parents f p (some root) t) q ≡ false
unfolding prune_empty_parents
prune_empty_parents_complete f p root t sound a q chain below =
    rw (sound root).0 (prune_loop_complete f root (dir p) t sound a q chain below)
