-- ===== src/Limiter/Admission.antt =====
-- pkg/transcodelimiter/limiter.go: when a slot is admitted, and how long a blocked call waits.
use media_processor.Prelude.{
  ℕ, ◌+◌, ◌<◌, ◌≡◌, ◌↔◌, ◌⊎◌, inl, inr, Bool, true, false, List, [], ◌∷◌, Option, some, arith, refl,
  Bool-cases,
}
use media_processor.Prelude.Int.{ℤ, pos, sub_ℕ, ◌≤ℤ◌, ◌-ℤ◌}
use media_processor.Limiter.Defs.{
  Floats, Config, Limiter, normalize, new, admission_state, wait_time, reserve_rounds, reserve_slot,
  Round, timer_fired, reserved,
}

-- What a limiter's configuration and poll interval hold once `new` has filled in the defaults.
pub record IsUsable (fs : Floats) (l : Limiter fs.Float) : Type 0 where
  pub cap_positive : pos 1 ≤ℤ l.cfg.static_cap
  pub threshold_positive : fs.le l.cfg.gpu_threshold fs.float_zero ≡ false
  pub threshold_bounded : fs.lt fs.float_one l.cfg.gpu_threshold ≡ false
  pub cooldown_positive : pos 1 ≤ℤ l.cfg.post_admission_cooldown
  pub poll_positive : pos 1 ≤ℤ l.poll_interval

-- The admission rule on the limiter's fields: below the cap, and either in fallback, or below the load
-- threshold with no permit marked less than a cooldown ago.
pub record IsOpen (fs : Floats) (l : Limiter fs.Float) (load : fs.Float) (now : ℕ) : Type 0 where
  pub below_cap : pos (l.in_flight + 1) ≤ℤ l.cfg.static_cap
  pub by_mode :
      (l.fallback ≡ true)
      ⊎ ((fs.le l.cfg.gpu_threshold load ≡ false)
          × ((l.last_admit ≡ 0) ⊎ (l.cfg.post_admission_cooldown ≤ℤ sub_ℕ now l.last_admit)))

module _ (fs : Floats) where
  open fs use {Float}

  normalize_threshold :
      (cfg : Config Float)
      → (fs.le (normalize fs cfg).gpu_threshold fs.float_zero ≡ false)
        × (fs.lt fs.float_one (normalize fs cfg).gpu_threshold ≡ false)
  unfolding normalize
  normalize_threshold cfg = ground (arith, fs.four_fifths_positive, fs.four_fifths_bounded)

  -- Whatever configuration and poll interval it is given, `New` on a sampler builds a limiter with a
  -- positive cap, a threshold that is not at most 0 and not above 1, a positive cooldown and a
  -- positive poll interval.
  pub new-IsUsable :
      (cfg : Config Float) (failed : Bool) (poll : Option ℤ) (l : Limiter Float)
      → new fs cfg (some failed) poll ≡ some l
      → IsUsable fs l
  unfolding new
  new-IsUsable cfg failed poll l h = ground (arith, normalize_threshold cfg)

  -- A slot is admitted exactly when the limiter is open.
  pub admission_state_iff :
      (l : Limiter Float) (load : Float) (now : ℕ)
      → ((admission_state fs l load now).0 ≡ true) ↔ IsOpen fs l load now
  unfolding admission_state
  admission_state_iff l load now = (λ h. ground arith, λ h. ground arith)

  -- A wait that `admission_state` reports is enough: with the limiter and the load unchanged, the
  -- slot is admitted once that time has passed.
  retry_after_suffices :
      (l : Limiter Float) (load : Float) (now wait : ℕ)
      → admission_state fs l load now ≡ (false, pos wait)
      → 0 < wait
      → admission_state fs l load (now + wait) ≡ (true, pos 0)
  unfolding admission_state ◌-ℤ◌
  retry_after_suffices l load now wait h p = ground arith

  -- Of a usable limiter, no round waits longer than the poll interval, and each waits a positive
  -- time.
  wait_time_bounds :
      (l : Limiter Float) (load : Float) (now : ℕ)
      → IsUsable fs l
      → let w = wait_time fs l (admission_state fs l load now).1 in
        (pos 1 ≤ℤ w) × (w ≤ℤ l.poll_interval)
  unfolding wait_time
  wait_time_bounds l load now u = ground arith

  -- The independent reading of a call: some round finds the limiter open, and in each round before
  -- it the limiter is not open and the timer ends the wait.
  abbrev pub FirstOpen : List (Round Float) → Type 0
  FirstOpen [] = ⊥
  FirstOpen (r ∷ rs) =
      IsOpen fs r.limiter r.load r.now
      ⊎ ((¬ IsOpen fs r.limiter r.load r.now) × (r.wake ≡ timer_fired) × FirstOpen rs)

  -- A round that is not admitted goes on only by its timer.
  goes_on :
      (address : ℕ) (r : Round Float) (rs : List (Round Float))
      → (admission_state fs r.limiter r.load r.now).0 ≡ false
      → reserve_rounds fs address (r ∷ rs) ≡ reserved address
      → (r.wake ≡ timer_fired) × (reserve_rounds fs address rs ≡ reserved address)
  unfolding reserve_rounds
  goes_on address r rs e h = ground arith

  reserve_rounds_iff :
      (address : ℕ) (rs : List (Round Float))
      → (reserve_rounds fs address rs ≡ reserved address) ↔ FirstOpen rs
  unfolding reserve_rounds
  reserve_rounds_iff address [] = (λ h. cc, λ h. absurd h)
  reserve_rounds_iff address (r ∷ rs) =
      elim (Bool-cases (admission_state fs r.limiter r.load r.now).0) [
        | inl e ↦ (λ h. inl ((admission_state_iff r.limiter r.load r.now).0 e), λ h. rw e)
        | inr e ↦ (
          λ h.
              let (w, t) = goes_on address r rs e h in
              inr (
                λ o. cc (e, (admission_state_iff r.limiter r.load r.now).1 o),
                w,
                (reserve_rounds_iff address rs).0 t,
              ),
          λ h. elim h [
            | inl o ↦ cc ((admission_state_iff r.limiter r.load r.now).1 o)
            | inr (n, w, f) ↦ rw (e, w) ((reserve_rounds_iff address rs).1 f)
          ],
        )
      ]

  -- A blocking call returns its permit exactly if the context was live at the call, some round finds
  -- the limiter open, and until then each wait ends by its timer.
  reserve_slot_iff :
      (done : Bool) (address : ℕ) (rs : List (Round Float))
      → (reserve_slot fs done address rs ≡ reserved address) ↔ ((done ≡ false) × FirstOpen rs)
  unfolding reserve_slot
  reserve_slot_iff true address rs = (λ h. cc, λ h. cc)
  reserve_slot_iff false address rs =
      (λ h. (refl, (reserve_rounds_iff address rs).0 h), λ h. (reserve_rounds_iff address rs).1 h.1)
