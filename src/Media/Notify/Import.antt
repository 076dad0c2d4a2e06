-- ===== src/Media/Notify/Import.antt =====
-- workflows/media/activities.go: which file the library is asked to import, and what its answer is
-- taken for.
use media_processor.Prelude.{
  ◌≡◌, refl, ◌⊎◌, inl, inr, true, false, ◌==◌, Option, none, some, ◌++◌, arith, ap, Option-cases,
  Bool-cases,
}
use media_processor.Files.Paths.{FilePath, rel, rel_inside, rel-append}
use media_processor.Media.Types.{MediaInput, TranscodeOutput, NotifyOutput}
use media_processor.Media.Notify.{
  Library, ImportAnswer, imported, not_found, not_upgrade, import_failed, NotifyError,
  non_retryable, import_error, ImportCall, get_arr_library, substitute, after_import, Notified,
  import_file, import_substituted, notify_library, notify,
}

-- The path that the library is to see: the one made, or its place under the remote root.
abbrev pub IsSeen : Option FilePath → Option FilePath → Option FilePath → Option FilePath → Type 0
IsSeen none output dest p = p ≡ dest
IsSeen (some remote) output dest p =
    (o : FilePath) × (xs : FilePath) × (output ≡ some o)
    × (dest ≡ some (xs ++ o))
    × (p ≡ some (xs ++ remote))

-- The path cannot be told to the library: there is a remote root, and the file made does not lie
-- under the output root.
abbrev pub Hidden : Option FilePath → Option FilePath → Option FilePath → Type 0
Hidden none output dest = ⊥
Hidden (some remote) output dest =
    (o xs : FilePath) → ¬ ((output ≡ some o) × (dest ≡ some (xs ++ o)))

-- What an answer is taken for: success and the two benign refusals end well, the latter as skipped.
abbrev pub Taken : ImportAnswer → NotifyError ⊎ NotifyOutput → Type 0
Taken imported r = r ≡ inr (record { import_skipped = false })
Taken not_found r = r ≡ inr (record { import_skipped = true })
Taken not_upgrade r = r ≡ inr (record { import_skipped = true })
Taken import_failed r = r ≡ inl import_error

abbrev pub Asked : (ImportCall → ImportAnswer) → MediaInput → TranscodeOutput → Notified → Type 0
Asked answer i o (none, r) =
    (r ≡ inl non_retryable)
    × ((get_arr_library i.media_type ≡ none)
        ⊎ Hidden i.output_remote_path i.output_path o.dest_file_path)
Asked answer i o (some call, r) =
    (get_arr_library i.media_type ≡ some call.library)
    × (call.size ≡ o.dest_file_size_bytes)
    × IsSeen i.output_remote_path i.output_path o.dest_file_path call.path
    × Taken (answer call) r

after_import-Taken : (a : ImportAnswer) → Taken a (after_import a)
unfolding after_import
after_import-Taken imported = refl
after_import-Taken not_found = refl
after_import-Taken not_upgrade = refl
after_import-Taken import_failed = refl

substitute_lem :
    (remote : FilePath) (output dest : Option FilePath)
    → ((substitute remote output dest ≡ none) × Hidden (some remote) output dest)
      ⊎ ((p : FilePath) × (substitute remote output dest ≡ some p)
          × IsSeen (some remote) output dest (some p))
unfolding substitute
substitute_lem remote none dest = inl (refl, λ o xs e. cc e.0)
substitute_lem remote (some o) none = inl (refl, λ o xs e. cc e.1)
substitute_lem remote (some o) (some d) = elim (Bool-cases ((rel o d).ups == 0)) [
  | inl e ↦ inr (
    (rel o d).downs ++ remote,
    rw e refl,
    (o, (rel o d).downs, refl, ap some (rel_inside o d (ground arith)), refl),
  )
  | inr e ↦ inl (rw e refl, λ o' xs k. ground (arith, rel-append xs o'))
]

import_file-Asked :
    (answer : ImportCall → ImportAnswer) (i : MediaInput) (o : TranscodeOutput) (l : Library)
    (p : Option FilePath)
    → get_arr_library i.media_type ≡ some l
    → IsSeen i.output_remote_path i.output_path o.dest_file_path p
    → Asked answer i o (import_file answer l o.dest_file_size_bytes p)
unfolding import_file
import_file-Asked answer i o l p h s = (h, refl, s, after_import-Taken _)

notify_plain :
    (answer : ImportCall → ImportAnswer) (i : MediaInput) (o : TranscodeOutput) (l : Library)
    → i.output_remote_path ≡ none
    → notify_library answer i o (some l)
      ≡ import_file answer l o.dest_file_size_bytes o.dest_file_path
unfolding notify_library
notify_plain answer i o l e = rw e refl

notify_substituted :
    (answer : ImportCall → ImportAnswer) (i : MediaInput) (o : TranscodeOutput) (l : Library)
    (remote : FilePath) (p : Option FilePath)
    → i.output_remote_path ≡ some remote
    → substitute remote i.output_path o.dest_file_path ≡ p
    → notify_library answer i o (some l) ≡ import_substituted answer l o.dest_file_size_bytes p
unfolding notify_library
notify_substituted answer i o l remote p e h = rw (e, h) refl

notify_library-Asked :
    (answer : ImportCall → ImportAnswer) (i : MediaInput) (o : TranscodeOutput) (l : Library)
    → get_arr_library i.media_type ≡ some l
    → Asked answer i o (notify_library answer i o (some l))
notify_library-Asked answer i o l h = elim (Option-cases i.output_remote_path) [
  | inl e ↦
      rw (notify_plain answer i o l e)
        (import_file-Asked answer i o l o.dest_file_path h (rw e refl))
  | inr (remote, e) ↦ elim (substitute_lem remote i.output_path o.dest_file_path) [
    | inl (n, k) ↦ rw (notify_substituted answer i o l remote none e n) (refl, inr (rw e k))
    | inr (p, n, k) ↦
        rw (notify_substituted answer i o l remote (some p) e n)
          (import_file-Asked answer i o l (some p) h (rw e k))
  ]
]

no_library :
    (answer : ImportCall → ImportAnswer) (i : MediaInput) (o : TranscodeOutput)
    → notify_library answer i o none ≡ (none, inl non_retryable)
unfolding notify_library
no_library answer i o = refl

-- Notify asks the library of the media type, once, to import the file that was made, at its recorded
-- size and by the path that the library sees it under: its own, or its place under the remote root.
-- No library of the type, or a file outside of the output root where there is a remote root, is an
-- error that is not retried, with no import asked. An answer that the item is not in the library, or
-- is no upgrade, ends well, as skipped; any other failure is an error.
pub notify-Asked :
    (answer : ImportCall → ImportAnswer) (i : MediaInput) (o : TranscodeOutput)
    → Asked answer i o (notify answer i o)
unfolding notify
notify-Asked answer i o = elim (Option-cases (get_arr_library i.media_type)) [
  | inl e ↦ rw (e, no_library answer i o) (refl, inl e)
  | inr (l, e) ↦ rw e (notify_library-Asked answer i o l e)
]
