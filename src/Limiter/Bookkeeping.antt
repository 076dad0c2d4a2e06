-- ===== src/Limiter/Bookkeeping.antt =====
-- pkg/transcodelimiter/limiter.go: the in-flight count against the set of marked permits.
use media_processor.Prelude.{
  ℕ, suc, ◌≤◌, ◌≡◌, refl, ap, ◌∙◌, Bool, true, false, List, [], ◌∷◌, some, arith, ◌==◌,
  if◌then◌else◌, length,
}
use media_processor.Limiter.Defs.{Limiter, contains, delete, mark_used, release}

-- No permit stands twice in the list.
abbrev pub Distinct : List ℕ → Type 0
Distinct [] = Unit
Distinct (p ∷ ps) = (contains ps p ≡ false) × Distinct ps

pub contains-delete :
    (ps : List ℕ) (p q : ℕ) → contains (delete ps p) q ≡ (if p == q then false else contains ps q)
unfolding contains delete
contains-delete [] p q = ground arith
contains-delete (r ∷ ps) p q = ground (arith, contains-delete ps p q)

pub delete-Distinct : (ps : List ℕ) (p : ℕ) → Distinct ps → Distinct (delete ps p)
unfolding contains delete
delete-Distinct [] p d = tt
delete-Distinct (r ∷ ps) p d = ground (arith, delete-Distinct ps p d.1, contains-delete ps p r)

delete_absent : (ps : List ℕ) (p : ℕ) → contains ps p ≡ false → delete ps p ≡ ps
unfolding contains delete
delete_absent [] p h = refl
delete_absent (r ∷ ps) p h = ground (arith, delete_absent ps p)

pub length-delete :
    (ps : List ℕ) (p : ℕ)
    → Distinct ps
    → contains ps p ≡ true
    → suc (length (delete ps p)) ≡ length ps
unfolding contains delete
length-delete [] p d h = cc
length-delete (r ∷ ps) p d h =
    ground (arith, length-delete ps p d.1, delete_absent ps p, delete_absent ps r)

pub length-delete-le : (ps : List ℕ) (p : ℕ) → length (delete ps p) ≤ length ps
unfolding delete
length-delete-le [] p = omega arith
length-delete-le (r ∷ ps) p = ground (arith, length-delete-le ps p)

pub length-delete-lt :
    (ps : List ℕ) (p : ℕ) → contains ps p ≡ true → suc (length (delete ps p)) ≤ length ps
unfolding contains delete
length-delete-lt [] p h = cc
length-delete-lt (r ∷ ps) p h = ground (arith, length-delete-lt ps p, length-delete-le ps p)

-- The count is the number of marked permits, each marked once.
pub record IsCounted {F : Type 0} (l : Limiter F) : Type 0 where
  pub counted : l.in_flight ≡ length l.marked
  pub distinct : Distinct l.marked

module _ {F : Type 0} where
  pub mark_used-IsCounted :
      (l : Limiter F) (now p : ℕ) → IsCounted l → IsCounted (mark_used l now (some p))
  unfolding mark_used
  mark_used-IsCounted l now p c = ground arith

  pub release-IsCounted : (l : Limiter F) (p : ℕ) → IsCounted l → IsCounted (release l (some p))
  unfolding release
  release-IsCounted l p c = ground (arith, length-delete l.marked p, delete-Distinct l.marked p)

-- A call that Temporal makes with a permit of its own.
pub data Op : Type 0 where
  marks : ℕ → ℕ → Op
  releases : ℕ → Op

module _ {F : Type 0} where
  unfoldable pub apply : Limiter F → Op → Limiter F
  apply l (marks now p) = mark_used l now (some p)
  apply l (releases p) = release l (some p)

  unfoldable pub run : Limiter F → List Op → Limiter F
  run l [] = l
  run l (o ∷ os) = run (apply l o) os

-- The contract, from the history alone: a permit is in use if the last call about it marked it.
abbrev pub in_use : ℕ → Bool → List Op → Bool
in_use p b [] = b
in_use p b (marks now q ∷ os) = in_use p (if q == p then true else b) os
in_use p b (releases q ∷ os) = in_use p (if q == p then false else b) os

module _ {F : Type 0} where
  apply-IsCounted : (l : Limiter F) (o : Op) → IsCounted l → IsCounted (apply l o)
  unfolding apply
  apply-IsCounted l (marks now p) c = mark_used-IsCounted l now p c
  apply-IsCounted l (releases p) c = release-IsCounted l p c

  run-IsCounted : (l : Limiter F) (os : List Op) → IsCounted l → IsCounted (run l os)
  unfolding run
  run-IsCounted l [] c = c
  run-IsCounted l (o ∷ os) c = run-IsCounted (apply l o) os (apply-IsCounted l o c)

  pub contains-mark :
      (l : Limiter F) (now q p : ℕ)
      → contains (mark_used l now (some q)).marked p
        ≡ (if q == p then true else contains l.marked p)
  unfolding mark_used contains
  contains-mark l now q p = ground arith

  pub contains-release :
      (l : Limiter F) (q p : ℕ)
      → contains (release l (some q)).marked p ≡ (if q == p then false else contains l.marked p)
  unfolding release
  contains-release l q p = ground (arith, contains-delete l.marked q p)

  contains-run :
      (l : Limiter F) (os : List Op) (p : ℕ)
      → contains (run l os).marked p ≡ in_use p (contains l.marked p) os
  unfolding run apply
  contains-run l [] p = refl
  contains-run l (marks now q ∷ os) p =
      contains-run (mark_used l now (some q)) os p
      ∙ ap (λ b. in_use p b os) (contains-mark l now q p)
  contains-run l (releases q ∷ os) p =
      contains-run (release l (some q)) os p ∙ ap (λ b. in_use p b os) (contains-release l q p)

  -- From a limiter whose count is right, any calls with permits of Temporal's own leave the count at
  -- the number of marked permits, each held once, and a permit is marked exactly if the history
  -- says that it is in use.
  pub run_lem :
      (l : Limiter F) (os : List Op)
      → IsCounted l
      → IsCounted (run l os)
        × ((p : ℕ) → contains (run l os).marked p ≡ in_use p (contains l.marked p) os)
  run_lem l os c = (run-IsCounted l os c, contains-run l os)
