-- ===== src/Limiter/History.antt =====
-- pkg/transcodelimiter/limiter.go: when a slot is admitted, by the calls that were made before.
use media_processor.Prelude.{
  ℕ, ◌+◌, ◌<◌, ◌≡◌, ◌↔◌, ◌⊎◌, refl, sym, ap, ◌∙◌, inl, inr, true, false, List, [], some, arith,
  length,
}
use media_processor.Prelude.Int.{ℤ, pos, sub_ℕ, ◌≤ℤ◌}
use media_processor.Limiter.Defs.{Floats, Limiter, contains, try_reserve_slot}
use media_processor.Limiter.Admission.{IsOpen, admission_state_iff}
use media_processor.Limiter.Bookkeeping.{Distinct, Op, run, in_use, IsCounted, run_lem}
use media_processor.Limiter.Starts.{
  Last, Timed, last_admit-run, latest, latest-append, run_keeps, same_length, snoc_cases, starts,
  starts_cong, starts_positive,
}

-- No time, or the last one is a cooldown ago.
abbrev pub IsSpaced : ℤ → List ℕ → ℕ → Type 0
IsSpaced cooldown ts now = (ts ≡ []) ⊎ ((t : ℕ) × Last ts t × (cooldown ≤ℤ sub_ℕ now t))

latest-Last : (d : ℕ) (ts : List ℕ) (t : ℕ) → Last ts t → latest d ts ≡ t
latest-Last d ts t (before, e) = ap (latest d) e ∙ latest-append d before t

latest-IsSpaced :
    (cooldown : ℤ) (ts : List ℕ) (now : ℕ)
    → (ts ≡ []) ⊎ (0 < latest 0 ts)
    → (latest 0 ts ≡ 0) ⊎ (cooldown ≤ℤ sub_ℕ now (latest 0 ts))
    → IsSpaced cooldown ts now
latest-IsSpaced cooldown ts now (inl e) h = inl e
latest-IsSpaced cooldown ts now (inr p) (inl z) = absurd (omega arith)
latest-IsSpaced cooldown ts now (inr p) (inr h) = elim (snoc_cases ts) [
  | inl e ↦ inl e
  | inr (t, l) ↦ inr (t, l, (rw (latest-Last 0 ts t l) at h))
]

IsSpaced-latest :
    (cooldown : ℤ) (ts : List ℕ) (now : ℕ)
    → IsSpaced cooldown ts now
    → (latest 0 ts ≡ 0) ⊎ (cooldown ≤ℤ sub_ℕ now (latest 0 ts))
IsSpaced-latest cooldown ts now (inl e) = inl (ap (latest 0) e)
IsSpaced-latest cooldown ts now (inr (t, l, h)) = inr (rw (latest-Last 0 ts t l) h)

module _ (fs : Floats) where
  open fs use {Float}

  -- A limiter that was never called.
  abbrev pub IsUnused : Limiter Float → Type 0
  IsUnused l = (l.in_flight ≡ 0) × (l.marked ≡ []) × (l.last_admit ≡ 0)

  -- The times at which calls marked a permit that was not in use, from a limiter that was never called.
  abbrev pub starts_of : List Op → List ℕ
  starts_of os = starts (λ p. false) os

  -- The contract of an admission, from the configuration and the calls before.
  pub record IsFree (l : Limiter Float) (os : List Op) (load : Float) (now : ℕ) : Type 0 where
    pub held : List ℕ
    pub distinct : Distinct held
    pub is_held : (p : ℕ) → contains held p ≡ in_use p false os
    pub below_cap : pos (length held + 1) ≤ℤ l.cfg.static_cap
    pub by_mode :
        (l.fallback ≡ true)
        ⊎ ((fs.le l.cfg.gpu_threshold load ≡ false)
            × IsSpaced l.cfg.post_admission_cooldown (starts_of os) now)

  module _ (l : Limiter Float) (os : List Op) where
    unused-IsCounted : IsUnused l → IsCounted l
    unused-IsCounted u = record { counted = ground arith; distinct = rw u.1 tt }

    unused_held : (p : ℕ) → IsUnused l → contains l.marked p ≡ false
    unfolding contains
    unused_held p u = rw u.1 refl

    last_admit_lem : IsUnused l → (run l os).last_admit ≡ latest 0 (starts_of os)
    last_admit_lem u =
        last_admit-run l os
        ∙ ground (arith, starts_cong (contains l.marked) (λ p. false) os (λ p. unused_held p u))

    -- The test of the cooldown is that of the last start.
    cooldown_iff :
        (cooldown : ℤ) (now : ℕ)
        → IsUnused l
        → Timed os
        → (((run l os).last_admit ≡ 0) ⊎ (cooldown ≤ℤ sub_ℕ now (run l os).last_admit))
          ↔ IsSpaced cooldown (starts_of os) now
    cooldown_iff cooldown now u timed =
        let positive = starts_positive (λ p. false) os 0 timed in
        rw (last_admit_lem u) (
          latest-IsSpaced cooldown (starts_of os) now positive,
          IsSpaced-latest cooldown (starts_of os) now,
        )

    is_held_lem : (p : ℕ) → IsUnused l → contains (run l os).marked p ≡ in_use p false os
    is_held_lem p u =
        (run_lem l os (unused-IsCounted u)).1 p ∙ ap (λ b. in_use p b os) (unused_held p u)

    below_cap_lem :
        (held : List ℕ)
        → IsUnused l
        → Distinct held
        → ((p : ℕ) → contains held p ≡ in_use p false os)
        → length held ≡ (run l os).in_flight
    below_cap_lem held u d is_held =
        let c = (run_lem l os (unused-IsCounted u)).0 in
        same_length held (run l os).marked d c.distinct (λ p. is_held p ∙ sym (is_held_lem p u))
        ∙ sym c.counted

    after_run_iff :
        (load : Float) (now : ℕ)
        → IsUnused l
        → Timed os
        → IsOpen fs (run l os) load now ↔ IsFree l os load now
    after_run_iff load now u timed =
        let (same_cfg, same_fallback) = run_keeps l os in
        let c = (run_lem l os (unused-IsCounted u)).0 in
        let spaced = cooldown_iff l.cfg.post_admission_cooldown now u timed in
        (
          λ o. record {
            held = (run l os).marked;
            distinct = c.distinct;
            is_held = λ p. is_held_lem p u;
            below_cap = ground (arith, o.below_cap, c.counted, same_cfg);
            by_mode = ground (arith, o.by_mode, same_cfg, same_fallback, spaced.0);
          },
          λ f. record {
            below_cap =
                ground (arith, f.below_cap, same_cfg, below_cap_lem f.held u f.distinct f.is_held);
            by_mode = ground (arith, f.by_mode, same_cfg, same_fallback, spaced.1);
          },
        )

  -- After any calls that marked and released permits of Temporal's own, at times that are not 0, a
  -- limiter that was never called before admits one more slot exactly if the permits in use and it
  -- are at most the cap; and the limiter is in fallback, or the load is below the threshold and no
  -- call ever marked a permit that was not in use, or the last such call was at least a cooldown ago.
  -- Which permits are in use, and which calls count, is read off the list of calls.
  pub try_reserve_slot_iff :
      (l : Limiter Float) (os : List Op) (load : Float) (now address : ℕ)
      → IsUnused l
      → Timed os
      → (try_reserve_slot fs (run l os) load now address ≡ some address) ↔ IsFree l os load now
  unfolding try_reserve_slot
  try_reserve_slot_iff l os load now address u timed =
      let admits = admission_state_iff fs (run l os) load now in
      let free = after_run_iff l os load now u timed in
      (λ h. free.0 (admits.0 (ground arith)), λ f. ground (arith, admits.1 (free.1 f)))
