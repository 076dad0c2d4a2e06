-- ===== src/Watcher/Ids.antt =====
-- cmd/watcher/watcher.go: `workflowID`, and the values attached to a workflow. An id is the list of
-- its code points, which are ASCII, so that they are its bytes. The hex digest of a path is a
-- parameter.
pub mod Bounds
use Prim.Native.Char.{code}
use media_processor.Prelude.{
  ℕ, ◌+◌, ◌-◌, Bool, true, false, not, ◌&&◌, ◌||◌, List, [], ◌∷◌, ◌++◌, map, Option, none, some,
  String, ltb, leb, ◌==◌, length, take, replicate, if◌then◌else◌,
}
use mathlib.Core.List.{reverse}
use media_processor.Text.{codes}
use media_processor.Files.Paths.{FilePath, base, rel, Relative}
use media_processor.Media.Types.{MediaType, MediaInput}

-- `workflowIDMaxLen` and `workflowIDShortHashLen`.
abbrev pub workflow_id_max_len : ℕ
workflow_id_max_len = 1000

abbrev pub workflow_id_short_hash_len : ℕ
workflow_id_short_hash_len = 12

-- A code point in [A-Za-z0-9.-].
unfoldable pub is_valid : ℕ → Bool
is_valid c =
    (leb b'A' c && leb c b'Z')
    || ((leb b'a' c && leb c b'z') || ((leb b'0' c && leb c b'9') || (c == b'.' || c == b'-')))

-- `workflowIDSegmentInvalid`: a run of others becomes one underscore. `in_run` says that the
-- code point before was in a run.
unfoldable pub replace_runs : Bool → List ℕ → List ℕ
replace_runs in_run [] = []
replace_runs in_run (c ∷ s) =
    let rest = replace_runs (not (is_valid c)) s in
    if is_valid c then c ∷ rest else if in_run then rest else b'_' ∷ rest

-- strings.TrimLeft(s, ".").
unfoldable pub trim_dots : List ℕ → List ℕ
trim_dots [] = []
trim_dots (c ∷ s) = if c == b'.' then trim_dots s else c ∷ s

-- `sanitizeWorkflowIDSegment`.
unfoldable pub sanitize_workflow_id_segment : List ℕ → Bool → List ℕ
sanitize_workflow_id_segment s strip_leading_dots =
    let out = replace_runs false s in if strip_leading_dots then trim_dots out else out

-- The budget of the mapping and the base name.
abbrev pub budget : ℕ
budget = workflow_id_max_len - (2 + workflow_id_short_hash_len)

-- The trimming to the budget: the base name first.
unfoldable pub trim_segments : ℕ → List ℕ → List ℕ → List ℕ × List ℕ
trim_segments limit mapping name =
    if ltb limit (length mapping + length name)
    then (if leb limit (length mapping)
        then (take limit mapping, [])
        else (mapping, take (limit - length mapping) name))
    else (mapping, name)

unfoldable pub join_id : List ℕ × List ℕ → List ℕ → List ℕ
join_id (mapping, name) hash = mapping ++ (b'-' ∷ (name ++ (b'-' ∷ hash)))

-- `workflowID`.
unfoldable pub workflow_id : (FilePath → List ℕ) → MediaInput → List ℕ
workflow_id sha256_hex i =
    join_id
      (trim_segments budget (sanitize_workflow_id_segment (codes i.mapping_name) false)
        (sanitize_workflow_id_segment (codes (base i.file_path)) true))
      (take workflow_id_short_hash_len (sha256_hex i.file_path))

-- `maxKeywordValueRunes`.
abbrev pub max_keyword_value_runes : ℕ
max_keyword_value_runes = 255

-- The length in bytes of a code point, and of a text.
unfoldable pub utf8_len : ℕ → ℕ
utf8_len c = if ltb c 0x80 then 1 else if ltb c 0x800 then 2 else if ltb c 0x10000 then 3 else 4

unfoldable pub byte_length : List ℕ → ℕ
byte_length [] = 0
byte_length (c ∷ s) = utf8_len c + byte_length s

-- `truncateToRunes`.
unfoldable pub truncate_to_runes : List ℕ → ℕ → List ℕ
truncate_to_runes s max_runes =
    if leb (byte_length s) max_runes
    then s
    else if leb (length s) max_runes
    then s
    else take max_runes s

-- The segments of a relative path as it is written, from the root inwards; none at all is ".".
unfoldable pub written : Relative → List (List ℕ)
written r =
    let segments = replicate r.ups (codes "..") ++ map codes (reverse r.downs) in
    elim segments [ [] ↦ codes "." ∷ [] | s ∷ ss ↦ s ∷ ss ]

-- `pathSegments`.
unfoldable pub path_segments : List (List ℕ) → List (List ℕ)
path_segments = map (λ s. truncate_to_runes s max_keyword_value_runes)

-- `buildSearchAttributes`; a watch root is always given.
pub record SearchAttributes : Type 0 where
  pub media_file_path_segments : List (List ℕ)
  pub media_title : String
  pub media_type : MediaType
  pub media_mapping_name : List ℕ

unfoldable pub build_search_attributes : FilePath → MediaInput → SearchAttributes
build_search_attributes watch_root i = record {
  media_file_path_segments = path_segments (written (rel watch_root i.file_path));
  media_title = base i.file_path;
  media_type = i.media_type;
  media_mapping_name = truncate_to_runes (codes i.mapping_name) max_keyword_value_runes;
}
