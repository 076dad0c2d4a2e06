-- ===== src/Limiter/Pollers.antt =====
-- pkg/transcodelimiter/limiter.go between several pollers. A reservation is counted only when its
-- permit is marked, so the calls interleave as steps over the permits that are still out.
use media_processor.Prelude.{
  ℕ, ◌+◌, ◌≤◌, ◌<◌, ◌≡◌, ◌≢◌, Bool, true, false, List, [], ◌∷◌, Option, some, arith, length,
}
use media_processor.Prelude.Int.{ℤ, pos, ◌<ℤ◌}
use media_processor.Limiter.Defs.{
  Floats, Config, Limiter, contains, delete, new, try_reserve_slot, mark_used, release,
  enter_fallback,
}
use media_processor.Limiter.Admission.{new-IsUsable}
use media_processor.Limiter.Bookkeeping.{length-delete-le, length-delete-lt}

-- The limiter, and the permits that were reserved and are neither marked nor released.
pub record Pool (F : Type 0) : Type 0 where
  pub limiter : Limiter F
  pub pending : List ℕ

module _ (fs : Floats) (pollers : ℕ) where
  open fs use {Float}

  -- A poller holds one reservation at a time, so fewer than `pollers` are out when one more is made.
  pub data Step : Pool Float → Pool Float → Type 0 where
    reserve :
        {s t : Pool Float} (load : Float) (now p : ℕ)
        → length s.pending < pollers
        → try_reserve_slot fs s.limiter load now p ≡ some p
        → t ≡ record s { pending = p ∷ s.pending }
        → Step s t
    mark :
        {s t : Pool Float} (now p : ℕ)
        → contains s.pending p ≡ true
        → t ≡ record { limiter = mark_used s.limiter now (some p); pending = delete s.pending p }
        → Step s t
    release_marked :
        {s t : Pool Float} (p : ℕ)
        → contains s.limiter.marked p ≡ true
        → t ≡ record s { limiter = release s.limiter (some p) }
        → Step s t
    release_unused :
        {s t : Pool Float} (p : ℕ)
        → contains s.pending p ≡ true
        → t ≡ record { limiter = release s.limiter (some p); pending = delete s.pending p }
        → Step s t
    fail : {s t : Pool Float} → t ≡ record s { limiter = enter_fallback s.limiter } → Step s t

  pub data Reach (s : Pool Float) : Pool Float → Type 0 where
    here : Reach s s
    next : {t u : Pool Float} → Reach s t → Step t u → Reach s u

  -- With the count, the permits that are out stay under the cap and the number of pollers.
  pub record Inv (cap : ℕ) (s : Pool Float) : Type 0 where
    pub cap_kept : s.limiter.cfg.static_cap ≡ pos cap
    pub bounded : s.limiter.in_flight + length s.pending + 1 ≤ cap + pollers

  Step-Inv : (cap : ℕ) {s t : Pool Float} → Step s t → Inv cap s → Inv cap t
  unfolding try_reserve_slot mark_used release enter_fallback
  Step-Inv cap (reserve load now p room admitted e) v = ground arith
  Step-Inv cap {s} (mark now p out e) v = ground (arith, length-delete-lt s.pending p)
  Step-Inv cap (release_marked p held e) v = ground arith
  Step-Inv cap {s} (release_unused p out e) v = ground (arith, length-delete-le s.pending p)
  Step-Inv cap (fail e) v = ground arith

  Reach-Inv : (cap : ℕ) {s t : Pool Float} → Inv cap s → Reach s t → Inv cap t
  Reach-Inv cap v here = v
  Reach-Inv cap v (next r st) = Step-Inv cap st (Reach-Inv cap v r)

  new_bounded :
      (cap : ℕ) (cfg : Config Float) (failed : Bool) (poll : Option ℤ) (l : Limiter Float)
      → new fs cfg (some failed) poll ≡ some l
      → l.cfg.static_cap ≡ pos cap
      → Inv cap (record { limiter = l; pending = [] })
  unfolding new
  new_bounded cap cfg failed poll l e c = ground (arith, new-IsUsable fs cfg failed poll l)

  -- However reservations, marks, releases and the fallback interleave, a limiter that `New` built
  -- never has more than its cap plus the number of other pollers in flight.
  pub in_flight-le :
      (cap : ℕ) (cfg : Config Float) (failed : Bool) (poll : Option ℤ) (l : Limiter Float)
      {t : Pool Float}
      → new fs cfg (some failed) poll ≡ some l
      → l.cfg.static_cap ≡ pos cap
      → Reach (record { limiter = l; pending = [] }) t
      → t.limiter.in_flight + 1 ≤ cap + pollers
  in_flight-le cap cfg failed poll l e c r =
      omega (arith, Reach-Inv cap (new_bounded cap cfg failed poll l e c) r)

module _ (fs : Floats) where
  open fs use {Float}

  -- In static-cap mode with one slot left under the cap, two reservations in a row of different
  -- permits, neither of them marked, are both admitted, and when both are marked the count stands
  -- above the cap.
  pub reserve_overshoots :
      (l : Limiter Float) (load : Float) (now later p q : ℕ)
      → l.fallback ≡ true
      → l.cfg.static_cap ≡ pos (l.in_flight + 1)
      → p ≢ q
      → contains l.marked p ≡ false
      → contains l.marked q ≡ false
      → (try_reserve_slot fs l load now p ≡ some p)
        × (try_reserve_slot fs l load now q ≡ some q)
        × (l.cfg.static_cap <ℤ pos (mark_used (mark_used l now (some p)) later (some q)).in_flight)
  unfolding try_reserve_slot mark_used contains
  reserve_overshoots l load now later p q f c ne hp hq = ground arith
