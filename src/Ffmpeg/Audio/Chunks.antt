-- ===== src/Ffmpeg/Audio/Chunks.antt =====
-- How the FIFO is drained: the frames hold the samples in order, without a gap in time.
use mathlib.Core.List.{append_assoc}
use media_processor.Prelude.{
  ℕ, zero, suc, ◌+◌, ◌≤◌, ◌<◌, ◌≡◌, refl, sym, ap, ◌∙◌, inl, inr, Bool, List, [], ◌∷◌, ◌++◌, Option,
  arith, leb, length, length-append, Bool-cases, Option-cases,
}
use media_processor.Prelude.Int.{ℤ, pos, ◌+ℤ◌}
use media_processor.Ffmpeg.Int64.{wrap}
use media_processor.Ffmpeg.Audio.{
  Frame, AudioFifo, Resampler, Encoder, Outcome, going, stopped, out_of_fuel, ◌>>=◌, State,
  send_frame, drain_round, drain_fifo, drain_all, write_fifo,
}

-- The samples of frames, the latest frame first.
abbrev pub joined : {S : Type 0} → List (Frame S) → List S
joined [] = []
joined (f ∷ fs) = joined fs ++ f.samples

-- Frames of `n` samples, the latest first: the oldest one has the timestamp `p`, each other one that
-- of the frame before it and `n`, and `q` is the next one.
abbrev pub Paced : {S : Type 0} → ℕ → ℤ → List (Frame S) → ℤ → Type 0
Paced n p [] q = q ≡ p
Paced n p (f ∷ fs) q = (q ≡ wrap (f.pts +ℤ pos n)) × (length f.samples ≡ n) × Paced n p fs f.pts

module _ {S : Type 0} (fifo : AudioFifo S) (resampler : Resampler S) (encoder : Encoder S) where
  open fifo use {Queue, contents, size, write, read, size_lem, write_lem, read_lem, length-read}
  open resampler use {Context}
  open encoder use {writable, takes, writes}

  -- The frames that were sent and the FIFO hold the samples `xs`; `r` are the resampler and the flag.
  abbrev pub Holds : ℕ → ℤ → List S → Option Context × Bool → State fifo resampler encoder → Type 0
  Holds n p xs r s =
      (joined s.sent ++ contents s.fifo ≡ xs)
      × Paced n p s.sent s.next_pts
      × (s.next_pts_initialized ≡ r.1)
      × (s.resample_context ≡ r.0)

  -- The frames that were sent hold the first of the samples `xs`.
  abbrev pub HoldsSome : ℕ → ℤ → List S → State fifo resampler encoder → Type 0
  HoldsSome n p xs s = (zs : List S) × (q : ℤ) × (joined s.sent ++ zs ≡ xs) × Paced n p s.sent q

  abbrev pub Drained :
      ℕ
      → ℤ
      → List S
      → Option Context × Bool
      → (State fifo resampler encoder → Type 0)
      → Outcome (State fifo resampler encoder)
      → Type 0
  Drained n p xs r P (going s) = Holds n p xs r s × P s
  Drained n p xs r P (stopped s e) = HoldsSome n p xs s
  Drained n p xs r P out_of_fuel = ⊥

  pub Holds-some :
      (n : ℕ) (p : ℤ) (xs : List S) (r : Option Context × Bool) (s : State fifo resampler encoder)
      → Holds n p xs r s
      → HoldsSome n p xs s
  Holds-some n p xs r s h = (contents s.fifo, s.next_pts, h.0, h.1)

  pub Drained-weaken :
      (n : ℕ) (p : ℤ) (xs : List S) (r : Option Context × Bool)
      (P Q : State fifo resampler encoder → Type 0) (o : Outcome (State fifo resampler encoder))
      → ((s : State fifo resampler encoder) → P s → Q s)
      → Drained n p xs r P o
      → Drained n p xs r Q o
  Drained-weaken n p xs r P Q (going s) f h = (h.0, f s h.1)
  Drained-weaken n p xs r P Q (stopped s e) f h = h
  Drained-weaken n p xs r P Q out_of_fuel f h = h

  pub Drained-bind :
      (n : ℕ) (p : ℤ) (xs : List S) (r : Option Context × Bool)
      (P Q : State fifo resampler encoder → Type 0) (o : Outcome (State fifo resampler encoder))
      (k : State fifo resampler encoder → Outcome (State fifo resampler encoder))
      → ((s : State fifo resampler encoder) → Holds n p xs r s → P s → Drained n p xs r Q (k s))
      → Drained n p xs r P o
      → Drained n p xs r Q (o >>= k)
  Drained-bind n p xs r P Q (going s) k f h = f s h.0 h.1
  Drained-bind n p xs r P Q (stopped s e) k f h = h
  Drained-bind n p xs r P Q out_of_fuel k f h = h

  -- A frame of `n` samples that were read.
  send_frame-Drained :
      (n : ℕ) (p : ℤ) (xs ys : List S) (r : Option Context × Bool) (q : Queue)
      (s : State fifo resampler encoder)
      → Holds n p xs r s
      → contents s.fifo ≡ ys ++ contents q
      → length ys ≡ n
      → Drained n p xs r
          (λ s'. s'.fifo ≡ q)
          (send_frame fifo resampler encoder
            (record { pts = s.next_pts; samples = ys })
            (record s { next_pts = wrap (s.next_pts +ℤ pos n); fifo = q }))
  unfolding send_frame
  send_frame-Drained n p xs ys r q s h e l =
      let whole : (joined s.sent ++ ys) ++ contents q ≡ xs =
        append_assoc (joined s.sent) ys (contents q) ∙ ap (λ t. joined s.sent ++ t) (sym e) ∙ h.0 in
      let f : Frame S = record { pts = s.next_pts; samples = ys } in
      elim (Bool-cases (takes s.sent f)) [
        | inl t ↦ elim (Bool-cases (writes (f ∷ s.sent))) [
          | inl w ↦ rw (t, w) (((whole, (refl, l, h.1), h.2, h.3), refl))
          | inr w ↦ rw (t, w) (contents q, wrap (s.next_pts +ℤ pos n), whole, (refl, l, h.1))
        ]
        | inr t ↦ rw t (contents s.fifo, s.next_pts, h.0, h.1)
      ]

  size-read :
      (n : ℕ) (q q' : Queue) (ys : List S)
      → contents q ≡ ys ++ contents q'
      → length ys ≡ n
      → size q' + n ≡ size q
  size-read n q q' ys e l =
      omega (arith, size_lem q, size_lem q', ap length e, length-append ys (contents q'), l)

  drain_round-Drained :
      (n : ℕ) (p : ℤ) (xs : List S) (r : Option Context × Bool) (s : State fifo resampler encoder)
      → Holds n p xs r s
      → n ≤ size s.fifo
      → Drained n p xs r
          (λ s'. size s'.fifo + n ≡ size s.fifo)
          (drain_round fifo resampler encoder n s)
  unfolding drain_round
  drain_round-Drained n p xs r s h enough = elim (Bool-cases (writable s.sent)) [
    | inl w ↦ elim (Option-cases (read n s.fifo)) [
      | inl none_read ↦ rw (w, none_read) (Holds-some n p xs r s h)
      | inr ((ys, q), e) ↦
          let parts = read_lem n s.fifo q ys e in
          let full = length-read n s.fifo q ys enough e in
          rw (w, e)
            (Drained-weaken n p xs r (λ s'. s'.fifo ≡ q) (λ s'. size s'.fifo + n ≡ size s.fifo) _
              (λ s' k. ap (λ t. size t + n) k ∙ size-read n s.fifo q ys parts full)
              (send_frame-Drained n p xs ys r q s h parts full))
    ]
    | inr w ↦ rw w (Holds-some n p xs r s h)
  ]

  -- The FIFO is left with less than a frame, and the fuel does not run out.
  drain_fifo-Drained :
      (fuel n : ℕ) (p : ℤ) (xs : List S) (r : Option Context × Bool)
      (s : State fifo resampler encoder)
      → 1 ≤ n
      → size s.fifo < fuel
      → Holds n p xs r s
      → Drained n p xs r (λ s'. size s'.fifo < n) (drain_fifo fifo resampler encoder fuel n s)
  unfolding drain_fifo
  drain_fifo-Drained zero n p xs r s pos_n lt h = absurd (omega arith)
  drain_fifo-Drained (suc fuel) n p xs r s pos_n lt h = elim (Bool-cases (leb n (size s.fifo))) [
    | inl more ↦
        let enough : n ≤ size s.fifo = ground arith in
        rw more (
          Drained-bind n p xs r (λ s'. size s'.fifo + n ≡ size s.fifo) (λ s'. size s'.fifo < n) _ _
            (λ s' h' k. drain_fifo-Drained fuel n p xs r s' pos_n (omega (arith, k)) h')
            (drain_round-Drained n p xs r s h enough))
    | inr done ↦ rw done (h, ground arith)
  ]

  pub drain_all-Drained :
      (n : ℕ) (p : ℤ) (xs : List S) (r : Option Context × Bool) (s : State fifo resampler encoder)
      → 1 ≤ n
      → Holds n p xs r s
      → Drained n p xs r (λ s'. size s'.fifo < n) (drain_all fifo resampler encoder n s)
  unfolding drain_all
  drain_all-Drained n p xs r s pos_n h =
      drain_fifo-Drained (size s.fifo + 1) n p xs r s pos_n (omega arith) h

  pub HoldsSome-more :
      (n : ℕ) (p : ℤ) (xs ys : List S) (s : State fifo resampler encoder)
      → HoldsSome n p xs s
      → HoldsSome n p (xs ++ ys) s
  HoldsSome-more n p xs ys s (zs, q, e, paced) =
      (zs ++ ys, q, sym (append_assoc (joined s.sent) zs ys) ∙ ap (λ t. t ++ ys) e, paced)

  pub write_fifo-Drained :
      (n : ℕ) (p : ℤ) (xs ys : List S) (r : Option Context × Bool)
      (s : State fifo resampler encoder)
      → 1 ≤ n
      → Holds n p xs r s
      → Drained n p (xs ++ ys) r (λ s'. size s'.fifo < n) (write_fifo fifo resampler encoder n ys s)
  unfolding write_fifo
  write_fifo-Drained n p xs ys r s pos_n h = elim (Option-cases (write ys s.fifo)) [
    | inl e ↦ rw (e, write_fifo) (HoldsSome-more n p xs ys s (Holds-some n p xs r s h))
    | inr (q, e) ↦
        let whole : joined s.sent ++ contents q ≡ xs ++ ys =
          ap (λ t. joined s.sent ++ t) (write_lem ys s.fifo q e)
          ∙ sym (append_assoc (joined s.sent) (contents s.fifo) ys)
          ∙ ap (λ t. t ++ ys) h.0 in
        rw (e, write_fifo)
          (drain_all-Drained n p (xs ++ ys) r (record s { fifo = q }) pos_n (whole, h.1, h.2, h.3))
  ]
