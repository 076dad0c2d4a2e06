-- ===== src/Ffmpeg/Demux/Routing.antt =====
-- Which packets the streams of a transcode are given.
use mathlib.Core.Path.{subst}
use media_processor.Prelude.{
  ℕ, ◌≡◌, ◌≢◌, ◌⊎◌, refl, sym, ap, ◌∙◌, inl, inr, Bool, true, false, List, [], ◌∷◌, ◌++◌, Option,
  none, some, ◌==◌, arith, Bool-cases, if◌then◌else◌,
}
use media_processor.Ffmpeg.Packets.{Packet}
use media_processor.Ffmpeg.Demux.{
  Pipes, Read, packet_read, read_failed, Round, Ended, finished, failed, Demuxer, Fed, fed,
  not_cloned, refused, fed_of, failure, feed, feed_downmix, after_downmix, read_all_packets,
}

abbrev pub lookup : {S : Type 0} → ℕ → List (ℕ × S) → Option S
lookup k [] = none
lookup k ((j, s) ∷ ss) = if j == k then some s else lookup k ss

-- The downmix, as a list of at most one stream.
abbrev pub as_list : {S : Type 0} → Option (ℕ × S) → List (ℕ × S)
as_list none = []
as_list (some x) = x ∷ []

failure-ne : (b : Bool) → failure b ≢ finished
unfolding failure
failure-ne true h = cc h
failure-ne false h = cc h

module _ (pipes : Pipes) (rebase : ℕ → Packet → Packet) where
  open pipes use {Stream, process_packet}

  -- The packets of a stream among what is read, rebased.
  abbrev pub own : ℕ → List Round → List Packet
  own k [] = []
  own k (r ∷ rs) = elim r.read [
    | packet_read i p ↦ if i == k then rebase i p ∷ own k rs else own k rs
    | read_failed ↦ own k rs
  ]

  -- A stream after packets.
  abbrev pub given : List Packet → Option Stream → Option Stream
  given ps none = none
  given [] (some s) = some s
  given (p ∷ ps) (some s) = given ps (some (process_packet p s).0)

  -- The packet reaches the stream if it is one of its own.
  abbrev step : ℕ → ℕ → Packet → Option Stream → Option Stream
  step k i p s = if i == k then given (p ∷ []) s else s

  -- A stream is given the first of its packets in order, and all of them where the loop finishes.
  abbrev pub IsFed : ℕ → List Round → Option Stream → Option Stream → Ended → Type 0
  IsFed k rs before after e =
      (ps : List Packet) × (rest : List Packet) × (own k rs ≡ ps ++ rest)
      × (after ≡ given ps before)
      × ((rest ≡ []) ⊎ (e ≢ finished))

  step-own :
      (k i : ℕ) (p : Packet) (s : Option Stream) → (i == k) ≡ true → step k i p s ≡ given (p ∷ []) s
  step-own k i p s h = rw h refl

  step-other : (k i : ℕ) (p : Packet) (s : Option Stream) → (i == k) ≡ false → step k i p s ≡ s
  step-other k i p s h = rw h refl

  given-nil : (s : Option Stream) → s ≡ given [] s
  given-nil none = refl
  given-nil (some s) = refl

  given-cons :
      (p : Packet) (ps : List Packet) (s : Option Stream)
      → given (p ∷ ps) s ≡ given ps (given (p ∷ []) s)
  given-cons p ps none = refl
  given-cons p ps (some s) = refl

  stopped-IsFed :
      (k : ℕ) (rs : List Round) (s : Option Stream) (e : Ended) → e ≢ finished → IsFed k rs s s e
  stopped-IsFed k rs s e h = ([], own k rs, refl, given-nil s, inr h)

  -- One packet, and then the rest of the loop.
  step-IsFed :
      (k i : ℕ) (p : Packet) (b : Bool) (rs : List Round) (s t : Option Stream) (e : Ended)
      → IsFed k rs (step k i (rebase i p) s) t e
      → IsFed k (record { read = packet_read i p; interrupted = b } ∷ rs) s t e
  step-IsFed k i p b rs s t e (ps, rest, o, a, f) = elim (Bool-cases (i == k)) [
    | inl y ↦ (
      rebase i p ∷ ps,
      rest,
      rw y (ap (λ qs. rebase i p ∷ qs) o),
      a ∙ ap (given ps) (step-own k i (rebase i p) s y) ∙ sym (given-cons (rebase i p) ps s),
      f,
    )
    | inr n ↦ (ps, rest, rw n o, a ∙ ap (given ps) (step-other k i (rebase i p) s n), f)
  ]

  lookup-feed :
      (k i : ℕ) (p : Packet) (ss : List (ℕ × Stream))
      → lookup k (feed pipes rebase i p ss).0 ≡ step k i p (lookup k ss)
  unfolding feed
  lookup-feed k i p [] = ground arith
  lookup-feed k i p ((j, s) ∷ ss) = ground (arith, lookup-feed k i p ss)

  -- The downmix after a packet, by what comes of it.
  abbrev Mixed : ℕ → ℕ → Packet → Option (ℕ × Stream) → Option (ℕ × Stream) × Fed → Type 0
  Mixed k i p m (mix, fed) = lookup k (as_list mix) ≡ step k i p (lookup k (as_list m))
  Mixed k i p m (mix, not_cloned) = lookup k (as_list mix) ≡ lookup k (as_list m)
  Mixed k i p m (mix, refused) = lookup k (as_list mix) ≡ step k i p (lookup k (as_list m))

  fed_of-Mixed :
      (k i : ℕ) (p : Packet) (m mix : Option (ℕ × Stream)) (b : Bool)
      → lookup k (as_list mix) ≡ step k i p (lookup k (as_list m))
      → Mixed k i p m (mix, fed_of b)
  unfolding fed_of
  fed_of-Mixed k i p m mix true h = h
  fed_of-Mixed k i p m mix false h = h

  feed_downmix-Mixed :
      (k i : ℕ) (p : Packet) (m : Option (ℕ × Stream))
      → Mixed k i p m (feed_downmix pipes rebase i p m)
  unfolding feed_downmix
  feed_downmix-Mixed k i p none = ground arith
  feed_downmix-Mixed k i p (some (j, s)) = elim (Bool-cases (j == i)) [
    | inl y ↦ elim (Bool-cases (pipes.clones p)) [
      | inl c ↦
          rw (y, c)
            (fed_of-Mixed k i p (some (j, s)) (some (j, (process_packet p s).0)) _ (ground arith))
      | inr c ↦ rw (y, c) refl
    ]
    | inr n ↦ rw n (ground arith)
  ]

  -- What all streams and the downmix are given of what is read.
  abbrev pub IsRouted : ℕ → List Round → Demuxer Stream → Ended × Demuxer Stream → Type 0
  IsRouted k rs d (e, d') =
      IsFed k rs (lookup k d.streams) (lookup k d'.streams) e
      × IsFed k rs (lookup k (as_list d.downmix)) (lookup k (as_list d'.downmix)) e

  stepped-IsFed :
      (k i : ℕ) (p : Packet) (b : Bool) (rs : List Round) (s t : Option Stream) (e : Ended)
      → t ≡ step k i (rebase i p) s
      → e ≢ finished
      → IsFed k (record { read = packet_read i p; interrupted = b } ∷ rs) s t e
  stepped-IsFed k i p b rs s t e h ne =
      step-IsFed k i p b rs s t e (subst (λ u. IsFed k rs u t e) h (stopped-IsFed k rs t e ne))

  after_downmix-IsRouted :
      (k i : ℕ) (p : Packet) (b : Bool) (rs : List Round) (d : Demuxer Stream)
      (rest : Demuxer Stream → Ended × Demuxer Stream) (x : Option (ℕ × Stream) × Fed)
      → ((c : Demuxer Stream) → IsRouted k rs c (rest c))
      → Mixed k i (rebase i p) d.downmix x
      → IsRouted k
          (record { read = packet_read i p; interrupted = b } ∷ rs)
          d
          (after_downmix pipes rebase rest b i (rebase i p) d.streams x)
  unfolding after_downmix
  after_downmix-IsRouted k i p b rs d rest (mix, fed) ih m =
      let fs = lookup-feed k i (rebase i p) d.streams in
      let c : Demuxer Stream = record {
        streams = (feed pipes rebase i (rebase i p) d.streams).0;
        downmix = mix;
      } in
      elim (Bool-cases (feed pipes rebase i (rebase i p) d.streams).1) [
        | inl y ↦ rw y (
          step-IsFed k i p b rs _ _ _
              (subst (λ u. IsFed k rs u (lookup k (rest c).1.streams) (rest c).0) fs (ih c).0),
          step-IsFed k i p b rs _ _ _ (
              subst (λ u. IsFed k rs u (lookup k (as_list (rest c).1.downmix)) (rest c).0) m
                (ih c).1),
        )
        | inr n ↦ rw n (
          stepped-IsFed k i p b rs _ _ _ fs (failure-ne b),
          stepped-IsFed k i p b rs _ _ _ m (failure-ne b),
        )
      ]
  after_downmix-IsRouted k i p b rs d rest (mix, not_cloned) ih m = (
    stopped-IsFed k (record { read = packet_read i p; interrupted = b } ∷ rs) _ failed (λ h. cc h),
    subst
        (λ u.
          IsFed k (record { read = packet_read i p; interrupted = b } ∷ rs) u
            (lookup k (as_list mix)) failed)
        m
        (stopped-IsFed k (record { read = packet_read i p; interrupted = b } ∷ rs)
          (lookup k (as_list mix)) failed (λ h. cc h)),
  )
  after_downmix-IsRouted k i p b rs d rest (mix, refused) ih m = (
    stopped-IsFed k (record { read = packet_read i p; interrupted = b } ∷ rs) _ (failure b)
        (failure-ne b),
    stepped-IsFed k i p b rs _ _ _ m (failure-ne b),
  )

  round-IsRouted :
      (k : ℕ) (x : Read) (b : Bool) (rs : List Round) (d : Demuxer Stream)
      → ((c : Demuxer Stream) → IsRouted k rs c (read_all_packets pipes rebase rs c))
      → IsRouted k
          (record { read = x; interrupted = b } ∷ rs)
          d
          (read_all_packets pipes rebase (record { read = x; interrupted = b } ∷ rs) d)
  unfolding read_all_packets
  round-IsRouted k read_failed b rs d ih = (
    stopped-IsFed k (record { read = read_failed; interrupted = b } ∷ rs) _ (failure b)
        (failure-ne b),
    stopped-IsFed k (record { read = read_failed; interrupted = b } ∷ rs) _ (failure b)
        (failure-ne b),
  )
  round-IsRouted k (packet_read i p) b rs d ih =
      after_downmix-IsRouted k i p b rs d (read_all_packets pipes rebase rs) _ ih
        (feed_downmix-Mixed k i (rebase i p) d.downmix)

  -- Whatever fails on the way: the stream of every index, and the downmix for the index of its
  -- source, are given the first of the packets that are read with that index, rebased, in order,
  -- and all of them where the loop finishes.
  pub read_all_packets-IsRouted :
      (k : ℕ) (rs : List Round) (d : Demuxer Stream)
      → IsRouted k rs d (read_all_packets pipes rebase rs d)
  unfolding read_all_packets
  read_all_packets-IsRouted k [] d =
      (([], [], refl, given-nil _, inl refl), ([], [], refl, given-nil _, inl refl))
  read_all_packets-IsRouted k (r ∷ rs) d =
      round-IsRouted k r.read r.interrupted rs d (λ c. read_all_packets-IsRouted k rs c)
