-- ===== src/Ffmpeg/CropDetect/Tracking.antt =====
-- Every step of the detection keeps the state in line with the readings.
use media_processor.Prelude.{
  ℕ, zero, suc, ◌+◌, ◌≤◌, ◌<◌, ◌≡◌, refl, sym, ap, ◌∙◌, ◌⊎◌, inl, inr, true, false, List, [], ◌∷◌,
  Option, none, some, arith, Bool-cases, leb,
}
use mathlib.Core.List.{append_assoc}
use media_processor.Media.Types.{CropParams}
use media_processor.Ffmpeg.CropDetect.{
  keyframe_switch_count, stability_threshold, Metadata, parse_crop_metadata, CropError, Libav,
  State, converged, failed, Run, halt_of, is_same, record_reading, read_crop, read_output,
  drain_outputs,
}
use media_processor.Ffmpeg.CropDetect.Readings.{
  Log, crops_of, latest, readings, IsRepeated, IsStable, IsPositive, IsTracked, Tracked,
  parse_crop_metadata-IsPositive, is_same-eq,
}

-- A run that is halted by convergence has five equal readings at hand.
abbrev pub HaltsWell : Run → Type 0
HaltsWell (s, none) = Unit {0}
HaltsWell (s, some converged) = IsStable stability_threshold s.log
HaltsWell (s, some (failed e)) = Unit {0}

abbrev pub Keeps : Libav → Run → Type 0
Keeps v r = Tracked v r.0 × HaltsWell r

IsStable-suc :
    (k n : ℕ) (c : CropParams) (l : Log)
    → keyframe_switch_count < n
    → latest l ≡ some c
    → IsStable k l
    → IsStable (suc k) ((n, c) ∷ l)
IsStable-suc zero n c l h e s = (h, tt)
IsStable-suc (suc k) n c [] h e s = absurd s
IsStable-suc (suc k) n c ((m, d) ∷ l) h e (g, r) =
    let f : d ≡ c = ground arith in (h, (g, f, rw (← f) r))

IsStable-cut : (j k : ℕ) (l : Log) → j ≤ k → IsStable k l → IsStable j l
IsStable-cut zero k l h s = tt
IsStable-cut (suc j) zero l h s = absurd (omega arith)
IsStable-cut (suc j) (suc k) [] h s = absurd s
IsStable-cut (suc j) (suc k) ((n, c) ∷ l) h (g, r) = (g, cut j k c l (omega arith) r)
  where
    cut : (j k : ℕ) (c : CropParams) (l : Log) → j ≤ k → IsRepeated k c l → IsRepeated j c l
    cut zero k c l h r = tt
    cut (suc j) zero c l h r = absurd (omega arith)
    cut (suc j) (suc k) c [] h r = absurd r
    cut (suc j) (suc k) c ((n, d) ∷ l) h (g, e, r) = (g, e, cut j k c l (omega arith) r)

-- A reading that comes is read.
record_reading-IsTracked :
    (v : Libav) (c : CropParams) (n : ℕ) (coming : List CropParams) (s : State)
    → IsTracked v (c ∷ coming) s
    → IsPositive c
    → IsStable n ((s.frame_counter, c) ∷ s.log)
    → ((s.in_phase2 ≡ true) ⊎ (n ≡ 0))
    → IsTracked v coming (record_reading c n s)
unfolding record_reading
record_reading-IsTracked v c n coming s t p st ph = record {
  headed = refl;
  stable = st;
  positive = (p, t.positive);
  linked = append_assoc (crops_of s.log) (c ∷ []) coming ∙ t.linked;
  phase = ground arith;
}

-- The branches of a reading.
module _ (c : CropParams) (s : State) (rest : State → Run) where
  pub read_phase1 :
      s.in_phase2 ≡ false → read_crop c s rest ≡ rest (record_reading c s.consecutive_stable s)
  unfolding read_crop
  read_phase1 e = ground arith

  pub read_other :
      s.in_phase2 ≡ true
      → is_same s.crop c ≡ false
      → read_crop c s rest ≡ rest (record_reading c 1 s)
  unfolding read_crop
  read_other e f = ground arith

  pub read_last :
      s.in_phase2 ≡ true
      → is_same s.crop c ≡ true
      → leb stability_threshold (s.consecutive_stable + 1) ≡ true
      → read_crop c s rest ≡ (record_reading c (s.consecutive_stable + 1) s, some converged)
  unfolding read_crop
  read_last e f g = ground arith

  pub read_same :
      s.in_phase2 ≡ true
      → is_same s.crop c ≡ true
      → leb stability_threshold (s.consecutive_stable + 1) ≡ false
      → read_crop c s rest ≡ rest (record_reading c (s.consecutive_stable + 1) s)
  unfolding read_crop
  read_same e f g = ground arith

converged-Keeps :
    (v : Libav) (c : CropParams) (n : ℕ) (s : State)
    → IsTracked v (readings s.outputs) (record_reading c n s)
    → IsStable stability_threshold ((s.frame_counter, c) ∷ s.log)
    → Keeps v (record_reading c n s, some converged)
unfolding record_reading
converged-Keeps v c n s t h = (t, h)

-- The facts of phase 2, and the end of a run of equal readings.
module _ (v : Libav) (c : CropParams) (coming : List CropParams) (s : State)
    (t : IsTracked v (c ∷ coming) s) where
  phase1_zero : s.in_phase2 ≡ false → s.consecutive_stable ≡ 0
  phase1_zero e = elim t.phase [ inl (f, g) ↦ g | inr (f, g) ↦ cc ]

  phase2_late : s.in_phase2 ≡ true → keyframe_switch_count < s.frame_counter
  phase2_late e = elim t.phase [ inl (f, g) ↦ cc | inr (f, g) ↦ g ]

  IsStable-once : s.in_phase2 ≡ true → IsStable 1 ((s.frame_counter, c) ∷ s.log)
  IsStable-once e = (phase2_late e, tt)

  IsStable-longer :
      s.in_phase2 ≡ true
      → is_same s.crop c ≡ true
      → IsStable (suc s.consecutive_stable) ((s.frame_counter, c) ∷ s.log)
  IsStable-longer e f =
      IsStable-suc s.consecutive_stable s.frame_counter c s.log (phase2_late e)
        (sym t.headed ∙ is_same-eq s.crop c f) t.stable

  IsStable-phase1 :
      s.in_phase2 ≡ false → IsStable s.consecutive_stable ((s.frame_counter, c) ∷ s.log)
  IsStable-phase1 e = rw (phase1_zero e) tt

suc_add : (n : ℕ) → n + 1 ≡ suc n
suc_add n = omega arith

module _ (v : Libav) (c : CropParams) (s : State) (rest : State → Run)
    (t : IsTracked v (c ∷ readings s.outputs) s) (p : IsPositive c)
    (next : (u : State) → IsTracked v (readings s.outputs) u → Keeps v (rest u)) where
  read_crop-Keeps : Keeps v (read_crop c s rest)
  read_crop-Keeps = elim (Bool-cases s.in_phase2) [
    | inr e ↦ rw (read_phase1 c s rest e) (
        next _ (
          record_reading-IsTracked v c s.consecutive_stable _ s t p (IsStable-phase1 v c _ s t e)
            (inr (phase1_zero v c _ s t e))))
    | inl e ↦ elim (Bool-cases (is_same s.crop c)) [
      | inr f ↦
          rw (read_other c s rest e f)
            (next _ (record_reading-IsTracked v c 1 _ s t p (IsStable-once v c _ s t e) (inl e)))
      | inl f ↦
          let longer : IsStable (s.consecutive_stable + 1) ((s.frame_counter, c) ∷ s.log) =
            rw (suc_add s.consecutive_stable) (IsStable-longer v c _ s t e f) in
          let u = record_reading-IsTracked v c (s.consecutive_stable + 1) _ s t p longer (inl e) in
          elim (Bool-cases (leb stability_threshold (s.consecutive_stable + 1))) [
            | inl g ↦ rw (read_last c s rest e f g) (
                converged-Keeps v c (s.consecutive_stable + 1) s u
                  (IsStable-cut 5 (s.consecutive_stable + 1) _ (ground arith) longer))
            | inr g ↦ rw (read_same c s rest e f g) (next _ u)
          ]
    ]
  ]

-- The filter and the decoder are drained.
pub retracked :
    (v : Libav) (coming : List CropParams) (s t : State)
    → s.crop ≡ t.crop
    → s.consecutive_stable ≡ t.consecutive_stable
    → s.log ≡ t.log
    → s.pushes ≡ t.pushes
    → s.in_phase2 ≡ t.in_phase2
    → s.frame_counter ≡ t.frame_counter
    → IsTracked v coming s
    → IsTracked v coming t
retracked v coming s t e f g h i j k = record {
  headed = sym e ∙ k.headed ∙ ap latest g;
  stable = rw (← f, ← g) k.stable;
  positive = rw (← g) k.positive;
  linked = rw (← g, ← h) k.linked;
  phase = rw (← i, ← f, ← j) k.phase;
}

pub halt_of-HaltsWell : (s : State) (e : Option CropError) → HaltsWell (s, halt_of e)
unfolding halt_of
halt_of-HaltsWell s none = tt
halt_of-HaltsWell s (some e) = tt

read_output-Keeps :
    (v : Libav) (o : Option CropParams) (s : State) (rest : State → Run)
    → ((c : CropParams) → o ≡ some c → IsPositive c)
    → IsTracked v (elim o [ none ↦ readings s.outputs | some c ↦ c ∷ readings s.outputs ]) s
    → ((u : State) → IsTracked v (readings s.outputs) u → Keeps v (rest u))
    → Keeps v (read_output o s rest)
unfolding read_output
read_output-Keeps v none s rest p t next = next s t
read_output-Keeps v (some c) s rest p t next = read_crop-Keeps v c s rest t (p c refl) next

pub drain_outputs-Keeps :
    (v : Libav) (e : Option CropError) (os : List (Option Metadata)) (s : State)
    → IsTracked v (readings os) s
    → Keeps v (drain_outputs e os s)
unfolding drain_outputs
drain_outputs-Keeps v e [] s t = (
  retracked v [] s _ refl refl refl refl refl refl t,
  halt_of-HaltsWell (record s { outputs = [] }) e,
)
drain_outputs-Keeps v e (o ∷ os) s t =
    read_output-Keeps v (parse_crop_metadata o) (record s { outputs = os }) (drain_outputs e os)
      (parse_crop_metadata-IsPositive o) (retracked v _ s _ refl refl refl refl refl refl t)
      (drain_outputs-Keeps v e os)
