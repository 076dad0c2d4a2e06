-- ===== src/Arr/Handover.antt =====
-- The clients as the library that Notify asks (`getArrLibrary` of workflows/media/activities.go and
-- `ArrLibrary` of pkg/medialib/medialib.go): what a skipped import is taken from.
use media_processor.Prelude.{
  ℕ, suc, ◌≤◌, ◌≡◌, ◌≢◌, refl, ap, ◌∙◌, ◌⊎◌, inl, inr, true, Option, none, some, String,
}
use media_processor.Files.Paths.{FilePath}
use media_processor.Media.Types.{MediaInput, TranscodeOutput}
use media_processor.Media.Notify.{
  Library, radarr, sonarr, ImportAnswer, imported, not_found, not_upgrade, import_failed,
  ImportCall, Notified, notify,
}
use media_processor.Media.Notify.Import.{Asked, Taken, notify-Asked}
use media_processor.Arr.Command.{no_imports, wait}
use media_processor.Arr.Queue.{QueuePage}
use media_processor.Arr.Import.{
  missing, after_scan, Service, Client, request, find_tracked_download_id,
}
use media_processor.Arr.Import.Rejection.{IsRejected}
use media_processor.Arr.Import.Outcome.{Imported, import_by_file_path-Imported}
use media_processor.Arr.Radarr
use media_processor.Arr.Radarr.{Radarr, import_movie}
use media_processor.Arr.Sonarr
use media_processor.Arr.Sonarr.{Sonarr, import_episode}

-- The answer of a library to a call of Notify.
unfoldable pub answer_of : Library → ℕ → Radarr → Sonarr → Option FilePath → ℕ → Option ImportAnswer
answer_of radarr fuel r s p n = import_movie fuel r p n
answer_of sonarr fuel r s p n = import_episode fuel s p n

unfoldable pub library_answer : ℕ → Radarr → Sonarr → ImportCall → Option ImportAnswer
unfolding answer_of
library_answer fuel r s call = answer_of call.library fuel r s call.path call.size

abbrev pub client_of : Library → Radarr → Sonarr → Client
client_of radarr r s = Radarr.client r
client_of sonarr r s = Sonarr.client s

abbrev pub service_of : Library → Radarr → Sonarr → Service
service_of radarr r s = r.service
service_of sonarr r s = s.service

-- The scan of the file ran and imported nothing; and the item is missing from the library then, or
-- the library rejects the file as no better than its own.
abbrev pub IsUnwanted : ℕ → Client → Service → Option FilePath → Type 0
IsUnwanted fuel c s p =
    (d : Option String) × (id : ℕ) × (find_tracked_download_id fuel c s p ≡ some d)
    × (s.post (request c p d) ≡ some id)
    × (wait id (s.polls id) ≡ some no_imports)
    × ((c.identify after_scan p ≡ missing) ⊎ IsRejected s p d)

Imported-missing :
    (fuel : ℕ) (c : Client) (s : Service) (p : Option FilePath) (n : ℕ) (r : Option ImportAnswer)
    → Imported fuel c s p n r
    → (r ≡ some not_found) ⊎ (r ≡ some not_upgrade)
    → IsUnwanted fuel c s p
Imported-missing fuel c s p n r (d, e, (imported, f, g)) h = elim h [ inl k ↦ cc | inr k ↦ cc ]
Imported-missing fuel c s p n r (d, e, (import_failed, f, g)) h = elim h [ inl k ↦ cc | inr k ↦ cc ]
Imported-missing fuel c s p n r (d, e, (not_found, f, inl g)) h = cc
Imported-missing fuel c s p n r (d, e, (not_upgrade, f, inl g)) h = cc
Imported-missing fuel c s p n r (d, e, (not_found, f, inr (id, w, k, l, (o, m)))) h =
    (d, id, e, k, ap (λ x. x) l ∙ ap some o, inl m)
Imported-missing fuel c s p n r (d, e, (not_upgrade, f, inr (id, w, k, l, (o, m, q)))) h =
    (d, id, e, k, l ∙ ap some o, inr q)

skipped_call :
    (answer : ImportCall → ImportAnswer) (i : MediaInput) (o : TranscodeOutput) (n : Notified)
    → Asked answer i o n
    → n.1 ≡ inr (record { import_skipped = true })
    → (call : ImportCall) × (n.0 ≡ some call)
      × ((answer call ≡ not_found) ⊎ (answer call ≡ not_upgrade))
skipped_call answer i o (none, r) (e, f) h = cc
skipped_call answer i o (some call, r) (e, f, g, t) h = (call, refl, benign (answer call) t)
  where
    benign : (a : ImportAnswer) → Taken a r → (a ≡ not_found) ⊎ (a ≡ not_upgrade)
    benign imported k = cc
    benign not_found k = inl refl
    benign not_upgrade k = inr refl
    benign import_failed k = cc

answer_of-Imported :
    (limit : ℕ) (l : Library) (r : Radarr) (s : Sonarr) (p : Option FilePath) (n : ℕ)
    → ((k : ℕ) (q : QueuePage) → (service_of l r s).queue k ≡ some q → q.total_records ≤ limit)
    → ((id : ℕ) → wait id ((service_of l r s).polls id) ≢ none)
    → Imported
        (suc limit)
        (client_of l r s)
        (service_of l r s)
        p
        n
        (answer_of l (suc limit) r s p n)
unfolding answer_of import_movie import_episode
answer_of-Imported limit radarr r s p n bound returns =
    import_by_file_path-Imported limit (Radarr.client r) r.service p n bound returns
answer_of-Imported limit sonarr r s p n bound returns =
    import_by_file_path-Imported limit (Sonarr.client s) s.service p n bound returns

answered :
    (r : Option ImportAnswer) (a : ImportAnswer)
    → r ≡ some a
    → (a ≡ not_found) ⊎ (a ≡ not_upgrade)
    → (r ≡ some not_found) ⊎ (r ≡ some not_upgrade)
answered r a h (inl e) = inl (h ∙ ap some e)
answered r a h (inr e) = inr (h ∙ ap some e)

-- Where the queue of neither library promises more than `limit` records on an answered page, every
-- wait for a command returns, and the answers that Notify takes are those of the clients: Notify
-- ends as skipped only after a scan, of the file that it asked its library to import, that ran and
-- imported nothing; and then the library finds no item for the file, or lists the file among those
-- that it rejects as no upgrade.
pub notify-IsUnwanted :
    (limit : ℕ) (r : Radarr) (s : Sonarr) (answer : ImportCall → ImportAnswer) (i : MediaInput)
    (o : TranscodeOutput)
    → ((l : Library) (k : ℕ) (q : QueuePage)
        → (service_of l r s).queue k ≡ some q
        → q.total_records ≤ limit)
    → ((l : Library) (id : ℕ) → wait id ((service_of l r s).polls id) ≢ none)
    → ((call : ImportCall) → library_answer (suc limit) r s call ≡ some (answer call))
    → (notify answer i o).1 ≡ inr (record { import_skipped = true })
    → (call : ImportCall) × ((notify answer i o).0 ≡ some call)
      × IsUnwanted (suc limit) (client_of call.library r s) (service_of call.library r s) call.path
unfolding library_answer
notify-IsUnwanted limit r s answer i o bound returns agree h =
    let (call, e, a) = skipped_call answer i o (notify answer i o) (notify-Asked answer i o) h in
    let p =
      answer_of-Imported limit call.library r s call.path call.size (bound call.library)
        (returns call.library) in
    (call, e, Imported-missing _ _ _ call.path call.size _ p (answered _ _ (agree call) a))
