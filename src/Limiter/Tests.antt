-- ===== src/Limiter/Tests.antt =====
-- Instances of the limiter's theorems, with floats in thousandths.
use media_processor.Prelude.{
  ℕ, ◌+◌, ◌≤◌, ◌≡◌, ◌↔◌, refl, true, false, List, [], ◌∷◌, none, some, arith, ltb, leb,
}
use media_processor.Prelude.Int.{pos, ◌<ℤ◌}
use media_processor.Limiter.Defs.{
  Floats, Config, Limiter, contains, delete, normalize, with_poll_interval, new, admission_state,
  try_reserve_slot, mark_used,
}
use media_processor.Limiter.History.{IsFree, try_reserve_slot_iff}
use media_processor.Limiter.Bookkeeping.{IsCounted, Op, marks, releases, in_use, run, run_lem}
use media_processor.Limiter.Pollers.{
  Pool, reserve, mark, here, next, in_flight-le, reserve_overshoots,
}

abbrev thousandths : Floats
thousandths = record {
  Float = ℕ;
  le = leb;
  lt = ltb;
  float_zero = 0;
  float_one = 1000;
  four_fifths = 800;
  four_fifths_positive = refl;
  four_fifths_bounded = refl;
}

abbrev config : Config ℕ
config = record { static_cap = pos 2; gpu_threshold = 0; post_admission_cooldown = pos 0 }

-- What `New` builds of it.
abbrev limiter : Limiter ℕ
limiter = record {
  cfg = record {
    static_cap = pos 2;
    gpu_threshold = 800;
    post_admission_cooldown = pos 3_000_000_000;
  };
  poll_interval = pos 100_000_000;
  in_flight = 0;
  last_admit = 0;
  fallback = false;
  marked = [];
  closed = false;
}

-- One permit is marked, and the sampler has failed.
abbrev last_slot : Limiter ℕ
last_slot = record limiter { in_flight = 1; last_admit = 1000; fallback = true; marked = 7 ∷ [] }

-- A permit is marked twice and another is given back unused.
abbrev calls : List Op
calls = marks 5 7 ∷ marks 6 7 ∷ releases 8 ∷ []

try_reserve_slot_iff_example :
    (try_reserve_slot thousandths (run limiter calls) 500 1001 9 ≡ some 9)
    ↔ IsFree thousandths limiter calls 500 1001
try_reserve_slot_iff_example =
    try_reserve_slot_iff thousandths limiter calls 500 1001 9 (refl, refl, refl)
      (omega arith, (omega arith, tt))

run_lem_example :
    IsCounted (run limiter (marks 5 7 ∷ marks 6 7 ∷ releases 8 ∷ []))
    × ((p : ℕ)
        → contains (run limiter (marks 5 7 ∷ marks 6 7 ∷ releases 8 ∷ [])).marked p
          ≡ in_use p (contains limiter.marked p) (marks 5 7 ∷ marks 6 7 ∷ releases 8 ∷ []))
run_lem_example =
    run_lem limiter (marks 5 7 ∷ marks 6 7 ∷ releases 8 ∷ [])
      (record { counted = refl; distinct = tt })

abbrev start : Pool ℕ
start = record { limiter = limiter; pending = [] }

abbrev one_out : Pool ℕ
one_out = record { limiter = limiter; pending = 7 ∷ [] }

-- A poller has reserved and marked.
abbrev one_in : Pool ℕ
one_in = record { limiter = mark_used limiter 6 (some 7); pending = delete (7 ∷ []) 7 }

in_flight-le_example : one_in.limiter.in_flight + 1 ≤ 2 + 3
unfolding contains new normalize with_poll_interval try_reserve_slot admission_state
in_flight-le_example =
    in_flight-le thousandths 3 2 config false none limiter {t = one_in} refl refl (
      next (next here (reserve {t = one_out} 500 5 7 (omega arith) refl refl)) (mark 6 7 refl refl))

reserve_overshoots_example :
    (try_reserve_slot thousandths last_slot 500 5 8 ≡ some 8)
    × (try_reserve_slot thousandths last_slot 500 5 9 ≡ some 9)
    × (last_slot.cfg.static_cap
        <ℤ pos (mark_used (mark_used last_slot 5 (some 8)) 6 (some 9)).in_flight)
unfolding contains
reserve_overshoots_example =
    reserve_overshoots thousandths last_slot 500 5 6 8 9 refl refl (omega arith) refl refl
