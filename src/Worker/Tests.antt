-- ===== src/Worker/Tests.antt =====
-- Instances of the theorems on the worker's configuration.
use media_processor.Prelude.{◌≡◌, [], ◌∷◌, List, String}
use media_processor.Worker.Activities.{resolve_activities}
use media_processor.Worker.Activities.Resolution.{expected, resolve_activities_lem}

abbrev tokens : List String
tokens = "all" ∷ " !transcode " ∷ "probe" ∷ []

abbrev known : List String
known = "probe" ∷ "transcode" ∷ "notify" ∷ []

resolve_activities_lem_example : resolve_activities tokens known ≡ expected tokens known
resolve_activities_lem_example = resolve_activities_lem tokens known
