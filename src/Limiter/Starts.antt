-- ===== src/Limiter/Starts.antt =====
-- pkg/transcodelimiter/limiter.go: the times that the cooldown is counted from, by the calls that were made.
use media_processor.Prelude.{
  ℕ, suc, ◌<◌, ◌≡◌, ◌⊎◌, refl, ap, ◌∙◌, inl, inr, Bool, true, false, List, [], ◌∷◌, ◌++◌, some,
  arith, ◌==◌, if◌then◌else◌, length,
}
use media_processor.Limiter.Defs.{Limiter, contains, delete, mark_used, release}
use media_processor.Limiter.Bookkeeping.{
  Distinct, contains-delete, delete-Distinct, length-delete, contains-mark, contains-release, Op,
  marks, releases, run, apply,
}

-- Two lists without repetition that hold the same permits have the same length.
pub same_length :
    (ps qs : List ℕ)
    → Distinct ps
    → Distinct qs
    → ((p : ℕ) → contains ps p ≡ contains qs p)
    → length ps ≡ length qs
unfolding contains
same_length [] [] d e h = refl
same_length [] (q ∷ qs) d e h = absurd (ground (arith, h q))
same_length (p ∷ ps) qs d e h =
    let is_in : contains qs p ≡ true = ground (arith, h p) in
    let rest =
      same_length ps (delete qs p) d.1 (delete-Distinct qs p e)
        (λ r. ground (arith, h r, contains-delete qs p r, d.0)) in
    ap suc rest ∙ length-delete qs p e is_in

-- The times at which a permit that was not in use is marked, in order; `held` says what is in use.
abbrev pub starts : (ℕ → Bool) → List Op → List ℕ
starts held [] = []
starts held (marks now p ∷ os) =
    let rest = starts (λ q. if p == q then true else held q) os in
    if held p then rest else now ∷ rest
starts held (releases p ∷ os) = starts (λ q. if p == q then false else held q) os

pub starts_cong :
    (held held' : ℕ → Bool) (os : List Op)
    → ((p : ℕ) → held p ≡ held' p)
    → starts held os ≡ starts held' os
starts_cong held held' [] h = refl
starts_cong held held' (marks now p ∷ os) h = ground (
  arith,
  h p,
  starts_cong (λ q. if p == q then true else held q) (λ q. if p == q then true else held' q) os
      (λ q. ground (arith, h q)),
)
starts_cong held held' (releases p ∷ os) h =
    starts_cong (λ q. if p == q then false else held q) (λ q. if p == q then false else held' q) os
      (λ q. ground (arith, h q))

-- The last of some times, or a first one.
abbrev pub latest : ℕ → List ℕ → ℕ
latest d [] = d
latest d (t ∷ ts) = latest t ts

module _ {F : Type 0} where
  last_admit-mark :
      (l : Limiter F) (now p : ℕ) (os : List Op)
      → latest
          (mark_used l now (some p)).last_admit
          (starts (contains (mark_used l now (some p)).marked) os)
        ≡ latest l.last_admit (starts (contains l.marked) (marks now p ∷ os))
  unfolding mark_used contains
  last_admit-mark l now p os = ground (
    arith,
    starts_cong (contains (mark_used l now (some p)).marked)
        (λ q. if p == q then true else contains l.marked q) os (contains-mark l now p),
  )

  last_admit-release :
      (l : Limiter F) (p : ℕ) (os : List Op)
      → latest (release l (some p)).last_admit (starts (contains (release l (some p)).marked) os)
        ≡ latest l.last_admit (starts (contains l.marked) (releases p ∷ os))
  unfolding release
  last_admit-release l p os = ground (
    arith,
    starts_cong (contains (release l (some p)).marked)
        (λ q. if p == q then false else contains l.marked q) os (contains-release l p),
  )

  -- The time that the cooldown is counted from.
  pub last_admit-run :
      (l : Limiter F) (os : List Op)
      → (run l os).last_admit ≡ latest l.last_admit (starts (contains l.marked) os)
  unfolding run apply
  last_admit-run l [] = refl
  last_admit-run l (marks now p ∷ os) =
      last_admit-run (mark_used l now (some p)) os ∙ last_admit-mark l now p os
  last_admit-run l (releases p ∷ os) =
      last_admit-run (release l (some p)) os ∙ last_admit-release l p os

  pub run_keeps :
      (l : Limiter F) (os : List Op) → ((run l os).cfg ≡ l.cfg) × ((run l os).fallback ≡ l.fallback)
  unfolding run apply mark_used release
  run_keeps l [] = (refl, refl)
  run_keeps l (marks now p ∷ os) = ground (arith, run_keeps (mark_used l now (some p)) os)
  run_keeps l (releases p ∷ os) = ground (arith, run_keeps (release l (some p)) os)

pub latest-append : (d : ℕ) (ts : List ℕ) (t : ℕ) → latest d (ts ++ t ∷ []) ≡ t
latest-append d [] t = refl
latest-append d (s ∷ ts) t = latest-append s ts t

-- The last of some times.
abbrev pub Last : List ℕ → ℕ → Type 0
Last ts t = (before : List ℕ) × (ts ≡ before ++ t ∷ [])

pub snoc_cases : (ts : List ℕ) → (ts ≡ []) ⊎ ((t : ℕ) × Last ts t)
snoc_cases [] = inl refl
snoc_cases (t ∷ ts) = elim (snoc_cases ts) [
  | inl e ↦ inr (t, ([], ap (λ r. t ∷ r) e))
  | inr (u, (before, e)) ↦ inr (u, (t ∷ before, ap (λ r. t ∷ r) e))
]

-- The clock is never at its zero when a permit is marked.
abbrev pub Timed : List Op → Type 0
Timed [] = Unit {0}
Timed (marks now p ∷ os) = (0 < now) × Timed os
Timed (releases p ∷ os) = Timed os

pub starts_positive :
    (held : ℕ → Bool) (os : List Op) (d : ℕ)
    → Timed os
    → (starts held os ≡ []) ⊎ (0 < latest d (starts held os))
starts_positive held [] d timed = inl refl
starts_positive held (marks now p ∷ os) d timed = ground (
  arith,
  starts_positive (λ q. if p == q then true else held q) os d timed.1,
  starts_positive (λ q. if p == q then true else held q) os now timed.1,
)
starts_positive held (releases p ∷ os) d timed =
    starts_positive (λ q. if p == q then false else held q) os d timed
