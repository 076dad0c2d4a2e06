-- ===== src/Limiter/Defs.antt =====
-- pkg/transcodelimiter/limiter.go. A `time.Time` is a number of nanoseconds (the zero time is 0), a
-- `time.Duration` an integer of them; a `*worker.SlotPermit` is its address. `float64` and its
-- comparisons are the record `Floats`; the clock and the sampler are arguments of each call.
use media_processor.Prelude.{
  ℕ, ◌+◌, ◌-◌, ◌≡◌, Bool, true, false, ◌&&◌, ◌||◌, not, List, [], ◌∷◌, Option, none, some, ltb,
  ◌==◌, if◌then◌else◌,
}
use media_processor.Prelude.Int.{ℤ, pos, sub_ℕ, ltb_ℤ, leb_ℤ, ◌-ℤ◌}

-- IEEE comparisons, and the constants that the limiter names; 0.8 lies in (0, 1].
pub record Floats : Type 1 where
  pub Float : Type 0
  pub le : Float → Float → Bool
  pub lt : Float → Float → Bool
  pub float_zero : Float
  pub float_one : Float
  pub four_fifths : Float
  pub four_fifths_positive : le four_fifths float_zero ≡ false
  pub four_fifths_bounded : lt float_one four_fifths ≡ false

pub record Config (F : Type 0) : Type 0 where
  pub static_cap : ℤ
  pub gpu_threshold : F
  pub post_admission_cooldown : ℤ

abbrev pub default_static_cap : ℤ
default_static_cap = pos 5

-- 3 s.
abbrev pub default_cooldown : ℤ
default_cooldown = pos 3_000_000_000

-- 100 ms.
abbrev pub default_poll_interval : ℤ
default_poll_interval = pos 100_000_000

pub record Limiter (F : Type 0) : Type 0 where
  pub cfg : Config F
  pub poll_interval : ℤ
  pub in_flight : ℕ
  pub last_admit : ℕ
  pub fallback : Bool
  pub marked : List ℕ
  pub closed : Bool

-- The set of permit addresses.
unfoldable pub contains : List ℕ → ℕ → Bool
contains [] p = false
contains (q ∷ qs) p = q == p || contains qs p

unfoldable pub delete : List ℕ → ℕ → List ℕ
delete [] p = []
delete (q ∷ qs) p = let rest = delete qs p in if q == p then rest else q ∷ rest

module _ (fs : Floats) where
  open fs use {Float, le, lt, float_zero, float_one, four_fifths}

  -- The defaults that `New` applies before it builds the limiter.
  unfoldable pub normalize : Config Float → Config Float
  normalize cfg = record {
    static_cap = if leb_ℤ cfg.static_cap (pos 0) then default_static_cap else cfg.static_cap;
    gpu_threshold =
        if le cfg.gpu_threshold float_zero || lt float_one cfg.gpu_threshold
        then four_fifths
        else cfg.gpu_threshold;
    post_admission_cooldown =
        if leb_ℤ cfg.post_admission_cooldown (pos 0)
        then default_cooldown
        else cfg.post_admission_cooldown;
  }

  -- `WithPollInterval`.
  unfoldable pub with_poll_interval : ℤ → Limiter Float → Limiter Float
  with_poll_interval d l = if ltb_ℤ (pos 0) d then record l { poll_interval = d } else l

  -- `New`; a nil sampler is `none`, and a sampler says whether it has failed already.
  unfoldable pub new : Config Float → Option Bool → Option ℤ → Option (Limiter Float)
  unfolding normalize with_poll_interval
  new cfg none poll = none
  new cfg (some failed) poll =
      let l : Limiter Float = record {
        cfg = normalize cfg;
        poll_interval = default_poll_interval;
        in_flight = 0;
        last_admit = 0;
        fallback = false;
        marked = [];
        closed = false;
      } in
      let tuned : Limiter Float = elim poll [ none ↦ l | some d ↦ with_poll_interval d l ] in
      some (record tuned { fallback = failed })

  -- `admissionState`: whether a slot is admitted, and the wait for the cooldown.
  unfoldable pub admission_state : Limiter Float → Float → ℕ → Bool × ℤ
  admission_state l load now =
      if leb_ℤ l.cfg.static_cap (pos l.in_flight)
      then (false, pos 0)
      else if l.fallback
      then (true, pos 0)
      else if le l.cfg.gpu_threshold load
      then (false, pos 0)
      else if not (l.last_admit == 0)
          && ltb_ℤ (sub_ℕ now l.last_admit) l.cfg.post_admission_cooldown
      then (false, l.cfg.post_admission_cooldown -ℤ sub_ℕ now l.last_admit)
      else (true, pos 0)

  -- `TryReserveSlot`: the address is that of the permit that would be allocated.
  unfoldable pub try_reserve_slot : Limiter Float → Float → ℕ → ℕ → Option ℕ
  unfolding admission_state
  try_reserve_slot l load now address =
      if (admission_state l load now).0 then some address else none

  -- The wait of one round of `ReserveSlot`.
  unfoldable pub wait_time : Limiter Float → ℤ → ℤ
  wait_time l retry_after =
      if ltb_ℤ (pos 0) retry_after && ltb_ℤ retry_after l.poll_interval
      then retry_after
      else l.poll_interval

-- How the `select` of a round of `ReserveSlot` ends.
pub data Wake : Type 0 where
  timer_fired context_done limiter_closed : Wake

-- What one round of `ReserveSlot` meets: the limiter as the other callers have left it, the load,
-- the clock, and what ends its wait.
pub record Round (F : Type 0) : Type 0 where
  pub limiter : Limiter F
  pub load : F
  pub now : ℕ
  pub wake : Wake

pub data Reservation : Type 0 where
  -- A permit, by its address.
  reserved : ℕ → Reservation
  -- `ctx.Err()`.
  cancelled : Reservation
  -- `errors.New("transcodelimiter: limiter closed")`.
  closed_error : Reservation
  -- The rounds given are over, and the call still waits.
  waiting : Reservation

-- What a round that was not admitted comes to.
unfoldable pub after_wait : Wake → Reservation → Reservation
after_wait timer_fired rest = rest
after_wait context_done rest = cancelled
after_wait limiter_closed rest = closed_error

module _ (fs : Floats) where
  open fs use {Float}

  -- The loop of `ReserveSlot`.
  unfoldable pub reserve_rounds : ℕ → List (Round Float) → Reservation
  unfolding after_wait
  reserve_rounds address [] = waiting
  reserve_rounds address (r ∷ rs) =
      if (admission_state fs r.limiter r.load r.now).0
      then reserved address
      else after_wait r.wake (reserve_rounds address rs)

  -- `ReserveSlot`, with whether the context is done at the call.
  unfoldable pub reserve_slot : Bool → ℕ → List (Round Float) → Reservation
  unfolding reserve_rounds
  reserve_slot done address rounds = if done then cancelled else reserve_rounds address rounds

module _ {F : Type 0} where
  -- `markUsed`; a nil permit is `none`.
  unfoldable pub mark_used : Limiter F → ℕ → Option ℕ → Limiter F
  mark_used l now none = record l { last_admit = now; in_flight = l.in_flight + 1 }
  mark_used l now (some p) =
      if contains l.marked p
      then l
      else record l { marked = p ∷ l.marked; last_admit = now; in_flight = l.in_flight + 1 }

  -- `release`.
  unfoldable pub release : Limiter F → Option ℕ → Limiter F
  release l none = if ltb 0 l.in_flight then record l { in_flight = l.in_flight - 1 } else l
  release l (some p) =
      if contains l.marked p
      then (let l' : Limiter F = record l { marked = delete l.marked p } in
          if ltb 0 l'.in_flight then record l' { in_flight = l'.in_flight - 1 } else l')
      else l

  -- `MarkSlotUsed` and `ReleaseSlot` take the permit out of the call's info, which may be nil.
  unfoldable pub mark_slot_used : Limiter F → ℕ → Option (Option ℕ) → Limiter F
  unfolding mark_used
  mark_slot_used l now none = mark_used l now none
  mark_slot_used l now (some permit) = mark_used l now permit

  unfoldable pub release_slot : Limiter F → Option (Option ℕ) → Limiter F
  unfolding release
  release_slot l none = release l none
  release_slot l (some permit) = release l permit

  -- The body of `watchFallback` once the sampler has failed.
  unfoldable pub enter_fallback : Limiter F → Limiter F
  enter_fallback l = record l { fallback = true }

  unfoldable pub close : Limiter F → Limiter F
  close l = record l { closed = true }

  unfoldable pub max_slots : Limiter F → ℤ
  max_slots l = l.cfg.static_cap
