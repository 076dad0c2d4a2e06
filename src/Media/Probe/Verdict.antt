-- ===== src/Media/Probe/Verdict.antt =====
-- workflows/media/probe.go: which files are media, and what becomes of the others.
use media_processor.Prelude.{
  ◌<◌, ◌≡◌, ◌≢◌, ◌⊎◌, refl, inl, inr, Bool, true, false, ◌&&◌, ◌||◌, not, List, [], ◌∷◌, none, some,
  String, arith, Bool-cases,
}
use media_processor.Files.Paths.{FilePath}
use media_processor.Files.Tree.{Tree, lookup, remove, Removed, gone, not_exist, refused}
use media_processor.Media.Types.{AudioStreamInfo}
use media_processor.Media.Cleanup.{Faults}
use media_processor.Media.Cleanup.Effects.{prune_empty_parents-Survives, remove_gone}
use media_processor.Media.Probe.{
  FoundStream, Answer, info, cancelled, unreadable, probe_cancelled, remove_failed, Policy,
  is_non_video_format, is_video, audio_of, first_video, invalid_output, valid_output, after_delete,
  reject, run_probe, ProbeRun,
}

-- Some stream is a video stream.
abbrev pub any_video : List FoundStream → Bool
any_video [] = false
any_video (s ∷ ss) = is_video s.codec_type || any_video ss

-- The file is a motion picture: ffprobe reads it, as a video format, with a video stream.
abbrev pub IsMedia : Answer → Type 0
IsMedia (info i) = (any_video i.streams ≡ true) × (is_non_video_format i.format ≡ false)
IsMedia cancelled = ⊥
IsMedia unreadable = ⊥

-- What a probe leaves: of media, all; of anything else, not the source, unless it is preserved.
abbrev pub Verdict : FilePath → Policy → Answer → Tree → ProbeRun → Type 0
Verdict p policy a t (t', inl probe_cancelled) = (a ≡ cancelled) × (t' ≡ t)
Verdict p policy a t (t', inl remove_failed) =
    (¬ IsMedia a) × (policy.preserve_source ≡ false) × (t' ≡ t)
Verdict p policy a t (t', inr o) =
    ((o.is_valid_media ≡ true) × IsMedia a × (t' ≡ t))
    ⊎ ((o.is_valid_media ≡ false)
        × (a ≢ cancelled)
        × (¬ IsMedia a)
        × (((policy.preserve_source ≡ true) × (t' ≡ t))
            ⊎ ((policy.preserve_source ≡ false) × (lookup t' p ≡ none))))

-- The first video stream, if the format is one of moving pictures.
first_video_lem :
    (format : String) (ss : List FoundStream)
    → ((first_video format ss ≡ none)
        × ((any_video ss ≡ false) ⊎ (is_non_video_format format ≡ true)))
      ⊎ ((s : FoundStream) × (first_video format ss ≡ some s)
          × (any_video ss ≡ true)
          × (is_non_video_format format ≡ false))
unfolding first_video
first_video_lem format [] = inl (refl, inl refl)
first_video_lem format (s ∷ ss) =
    elim (Bool-cases (is_video s.codec_type && not (is_non_video_format format))) [
      | inl e ↦ inr (s, rw e, ground arith, ground arith)
      | inr e ↦ elim (first_video_lem format ss) [
        | inl (n, k) ↦ inl (rw e n, ground arith)
        | inr (v, h, k, l) ↦ inr (v, rw e h, ground arith, l)
      ]
    ]

remove_refused :
    (t : Tree) (p : FilePath) (fault : Bool)
    → (remove t p fault).1 ≡ refused
    → (remove t p fault).0 ≡ t
unfolding remove
remove_refused t p fault h = ground arith

after_delete-Verdict :
    (f : Faults) (p : FilePath) (policy : Policy) (a : Answer) (t t' : Tree) (r : Removed)
    → (¬ IsMedia a)
    → a ≢ cancelled
    → policy.preserve_source ≡ false
    → (r ≡ refused → t' ≡ t)
    → (lookup t' p ≡ none) ⊎ (r ≡ refused)
    → Verdict p policy a t (after_delete f p policy (t', r))
unfolding after_delete
after_delete-Verdict f p policy a t t' refused n c s same away = (n, s, same refl)
after_delete-Verdict f p policy a t t' gone n c s same away =
    inr
      (refl, c, n, inr (s, ground (arith, prune_empty_parents-Survives f p policy.watch_root t' p)))
after_delete-Verdict f p policy a t t' not_exist n c s same away =
    inr
      (refl, c, n, inr (s, ground (arith, prune_empty_parents-Survives f p policy.watch_root t' p)))

reject_kept :
    (f : Faults) (p : FilePath) (policy : Policy) (t : Tree)
    → policy.preserve_source ≡ true
    → reject f p policy t ≡ (t, inr invalid_output)
unfolding reject
reject_kept f p policy t e = rw e refl

reject_deleted :
    (f : Faults) (p : FilePath) (policy : Policy) (t : Tree)
    → policy.preserve_source ≡ false
    → reject f p policy t ≡ after_delete f p policy (remove t p (f.remove_fails p))
unfolding reject
reject_deleted f p policy t e = rw e refl

reject-Verdict :
    (f : Faults) (p : FilePath) (policy : Policy) (a : Answer) (t : Tree)
    → (¬ IsMedia a)
    → a ≢ cancelled
    → Verdict p policy a t (reject f p policy t)
reject-Verdict f p policy a t n c = elim (Bool-cases policy.preserve_source) [
  | inl e ↦ rw (reject_kept f p policy t e) (inr (refl, c, n, inl (e, refl)))
  | inr e ↦
      let fault = f.remove_fails p in
      rw (reject_deleted f p policy t e) (
        after_delete-Verdict f p policy a t _ _ n c e (remove_refused t p fault)
          (remove_gone t p fault))
]

-- Exactly a readable file of a video format with a video stream is reported as media, and then
-- nothing on disk changes. Any other readable answer, and an unreadable file, is reported as no
-- media: the source is gone, or all is left alone where the source is to be preserved. A cancelled
-- probe and a refused deletion are errors that leave all as it was.
pub run_probe-Verdict :
    (f : Faults) (a : Answer) (p : FilePath) (policy : Policy) (t : Tree)
    → Verdict p policy a t (run_probe f a p policy t)
unfolding run_probe valid_output
run_probe-Verdict f cancelled p policy t = (refl, refl)
run_probe-Verdict f unreadable p policy t =
    reject-Verdict f p policy unreadable t (λ h. h) (λ h. cc)
run_probe-Verdict f (info i) p policy t = elim (first_video_lem i.format i.streams) [
  | inl (e, k) ↦ rw e (reject-Verdict f p policy (info i) t (λ h. ground arith) (λ h. cc))
  | inr (s, e, k, l) ↦ rw e (inl (refl, (k, l), refl))
]

abbrev pub Counted : List AudioStreamInfo → Type 0
Counted [] = Unit
Counted (s ∷ ss) =
    (0 < s.effective_channel_count)
    × (((s.reported_channel_count ≡ 0) × (s.effective_channel_count ≡ 6))
        ⊎ ((s.reported_channel_count ≢ 0) × (s.effective_channel_count ≡ s.reported_channel_count)))
    × Counted ss

-- Every audio stream that a probe reports has a positive effective channel count: the reported one,
-- or six where the layout is unknown.
audio_of-Counted : (ss : List FoundStream) → Counted (audio_of ss)
unfolding audio_of
audio_of-Counted [] = tt
audio_of-Counted (s ∷ ss) = ground (arith, audio_of-Counted ss)
