-- ===== src/Arr/Artwork.antt =====
-- pkg/medialib/internal/artwork/artwork.go. The parsing and printing of URLs and what a GET meets are
-- parameters. The HTTP client repeats the headers of the first request on each redirect, unless
-- CheckRedirect takes them away. A body is its length and its contents, which are opaque.
pub mod Secrecy
use Prim.Native.Char.{code}
use Prim.Native.String.{◌++◌ as str_append}
use media_processor.Prelude.{
  ℕ, Bool, true, false, not, ◌&&◌, ◌||◌, List, [], ◌∷◌, ◌++◌, map, Option, none, some, String,
  str_eq, leb, ◌==◌, if◌then◌else◌,
}
use media_processor.Text.{has_prefix, lower_is}

pub record Url : Type 0 where
  pub scheme : String
  pub host : String
  pub path : String

-- `starr.Image`, the fields that are read.
pub record Image : Type 0 where
  pub cover_type : String
  pub url : String
  pub remote_url : String
  pub extension : String

-- A response after the redirects: the status, the media type if it can be parsed, and the body if it
-- can be read.
pub record Response : Type 0 where
  pub status : ℕ
  pub mime_type : Option String
  pub body : Option (ℕ × ℕ)

-- What a GET meets: the redirects that are followed, and the response, `none` for an error.
pub record Exchange : Type 0 where
  pub redirects : List Url
  pub response : Option Response

-- `get` is asked with a URL and whether the first request carries the API key.
pub record Web : Type 0 where
  pub parse : String → Option Url
  pub print : Url → String
  pub get : Url → Bool → Exchange

-- A request that is sent, and whether it carries the API key.
pub record Request : Type 0 where
  pub url : Url
  pub has_key : Bool

-- A candidate is skipped, fails, or gives a poster: its length, its contents and its type.
pub record Poster : Type 0 where
  pub length : ℕ
  pub contents : ℕ
  pub mime_type : String

pub data Candidate : Type 0 where
  skipped candidate_failed : Candidate
  poster : Poster → Candidate

abbrev pub max_poster_bytes : ℕ
max_poster_bytes = 10485760

abbrev pub mime_jpeg : String
mime_jpeg = "image/jpeg"

abbrev pub mime_png : String
mime_png = "image/png"

-- strings.TrimRight(s, "/").
unfoldable pub trim_right_slashes : String → String
trim_right_slashes String.[] = String.[]
trim_right_slashes (String.◌∷◌ c s) =
    let rest = trim_right_slashes s in
    if code c == b'/' && str_eq rest "" then String.[] else String.◌∷◌ c rest

-- `isSameBase`.
unfoldable pub is_same_base : Url → Url → Bool
is_same_base b u =
    str_eq u.scheme b.scheme
    && (str_eq u.host b.host
        && has_prefix (str_append u.path "/") (str_append (trim_right_slashes b.path) "/"))

unfoldable pub has_slash : String → Bool
has_slash String.[] = false
has_slash (String.◌∷◌ c s) = code c == b'/' || has_slash s

-- path.Ext: from the last dot of the last segment on.
unfoldable pub path_ext : String → String
unfolding has_slash
path_ext String.[] = String.[]
path_ext (String.◌∷◌ c s) =
    let rest = path_ext s in
    if not (str_eq rest "")
    then rest
    else if code c == b'.' && not (has_slash s)
    then String.◌∷◌ c s
    else String.[]

unfoldable pub ext_of_url : Option Url → String
ext_of_url none = ""
ext_of_url (some u) = path_ext u.path

unfoldable pub image_url : Image → String
image_url i = if str_eq i.url "" then i.remote_url else i.url

unfoldable pub image_ext : Web → Image → String
image_ext w i = if str_eq i.extension "" then ext_of_url (w.parse (image_url i)) else i.extension

unfoldable pub is_supported : String → Bool
is_supported ext = lower_is ext ".jpg" || (lower_is ext ".jpeg" || lower_is ext ".png")

-- `normalizedBaseURL` in front of a relative URL.
unfoldable pub absolute_url : Web → Url → String → String
absolute_url w b s =
    if has_prefix s "/"
    then str_append (w.print (record b { path = trim_right_slashes b.path })) s
    else s

-- The first request, and one for each redirect, past CheckRedirect.
unfoldable pub requests : Url → Url → List Url → List Request
requests b u redirects =
    record { url = u; has_key = is_same_base b u }
    ∷ map (λ r. record { url = r; has_key = is_same_base b u && is_same_base b r }) redirects

unfoldable pub read_body : String → Option (ℕ × ℕ) → Candidate
read_body mime none = candidate_failed
read_body mime (some (n, c)) =
    if leb n max_poster_bytes
    then poster (record { length = n; contents = c; mime_type = mime })
    else skipped

unfoldable pub read_typed : Option String → Option (ℕ × ℕ) → Candidate
read_typed none body = skipped
read_typed (some mime) body =
    if str_eq mime mime_jpeg || str_eq mime mime_png then read_body mime body else skipped

unfoldable pub read_response : Option Response → Candidate
read_response none = candidate_failed
read_response (some r) = if r.status == 200 then read_typed r.mime_type r.body else skipped

abbrev pub Fetched : Type 0
Fetched = List Request × Candidate

-- What follows a URL that can be parsed.
unfoldable pub fetch_url : Web → Url → Option Url → Fetched
fetch_url w b none = ([], candidate_failed)
fetch_url w b (some u) =
    let e = w.get u (is_same_base b u) in (requests b u e.redirects, read_response e.response)

-- `fetchPosterCandidate`.
unfoldable pub fetch_poster_candidate : Web → Url → Image → Fetched
fetch_poster_candidate w b i =
    if not (str_eq i.cover_type "poster")
    then ([], skipped)
    else if str_eq (image_url i) ""
    then ([], skipped)
    else if not (is_supported (image_ext w i))
    then ([], skipped)
    else fetch_url w b (w.parse (absolute_url w b (image_url i)))

-- What the loop does with a candidate: a poster ends it.
unfoldable pub or_next : Fetched → List Request × Option Poster → List Request × Option Poster
or_next (rs, poster p) rest = (rs, some p)
or_next (rs, skipped) (rs', p) = (rs ++ rs', p)
or_next (rs, candidate_failed) (rs', p) = (rs ++ rs', p)

unfoldable pub first_poster : Web → Url → List Image → List Request × Option Poster
unfolding or_next
first_poster w b [] = ([], none)
first_poster w b (i ∷ is) = or_next (fetch_poster_candidate w b i) (first_poster w b is)

-- `FetchPosterImage`, from the parsed base URL; an error, `none`, where it cannot be parsed.
unfoldable pub fetch_poster_image :
    Web → List Image → Option Url → Option (List Request × Option Poster)
fetch_poster_image w is none = none
fetch_poster_image w is (some b) = some (first_poster w b is)
