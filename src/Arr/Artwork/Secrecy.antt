-- ===== src/Arr/Artwork/Secrecy.antt =====
-- Where the API key goes, and which posters come back.
use Prim.Native.String.{◌++◌ as str_append}
use media_processor.Prelude.{
  ℕ, ◌≤◌, ◌≡◌, refl, ◌⊎◌, inl, inr, Bool, true, false, not, ◌&&◌, ◌||◌, List, [], ◌∷◌, ◌++◌, map,
  Option, none, some, String, str_eq, eq_iff, arith, Bool-cases, leb, ◌==◌,
}
use media_processor.Text.{codes, has_prefix, has_prefix_codes}
use media_processor.Arr.Artwork.{
  Url, Image, Response, Web, Request, Poster, Candidate, skipped, candidate_failed, poster,
  max_poster_bytes, mime_jpeg, mime_png, trim_right_slashes, is_same_base, image_url, image_ext,
  is_supported, absolute_url, requests, read_body, read_typed, read_response, Fetched, fetch_url,
  fetch_poster_candidate, or_next, first_poster,
}

-- A URL of the scheme and host of the base whose path is that of the base or goes on below it.
abbrev pub IsWithin : Url → Url → Type 0
IsWithin b u =
    (u.scheme ≡ b.scheme)
    × (u.host ≡ b.host)
    × ((rest : List ℕ) × (codes (str_append u.path "/")
          ≡ codes (str_append (trim_right_slashes b.path) "/") ++ rest))

abbrev pub IsGuarded : Url → Request → Type 0
IsGuarded b r = (r.has_key ≡ false) ⊎ IsWithin b r.url

abbrev pub AllGuarded : Url → List Request → Type 0
AllGuarded b [] = Unit {0}
AllGuarded b (r ∷ rs) = IsGuarded b r × AllGuarded b rs

abbrev pub IsFit : Option Poster → Type 0
IsFit none = Unit {0}
IsFit (some p) =
    (p.length ≤ max_poster_bytes) × ((p.mime_type ≡ mime_jpeg) ⊎ (p.mime_type ≡ mime_png))

prefix_rest : (s t : List ℕ) → has_prefix_codes s t ≡ true → (rest : List ℕ) × (s ≡ t ++ rest)
unfolding has_prefix_codes
prefix_rest s [] h = (s, refl)
prefix_rest [] (d ∷ t) h = cc
prefix_rest (c ∷ s) (d ∷ t) h =
    let (rest, e) = prefix_rest s t (ground arith) in (rest, ground arith)

IsWithin-is_same_base : (b u : Url) → is_same_base b u ≡ true → IsWithin b u
unfolding is_same_base has_prefix
IsWithin-is_same_base b u h = (
  ground (arith, eq_iff u.scheme b.scheme),
  ground (arith, eq_iff u.host b.host),
  prefix_rest _ _ (ground arith),
)

AllGuarded-append :
    (b : Url) (xs ys : List Request) → AllGuarded b xs → AllGuarded b ys → AllGuarded b (xs ++ ys)
AllGuarded-append b [] ys h k = k
AllGuarded-append b (x ∷ xs) ys h k = (h.0, AllGuarded-append b xs ys h.1 k)

guarded :
    (b u : Url) (k : Bool)
    → (k ≡ false) ⊎ (is_same_base b u ≡ true)
    → IsGuarded b (record { url = u; has_key = k })
guarded b u k (inl e) = inl e
guarded b u k (inr e) = inr (IsWithin-is_same_base b u e)

self_or_false : (k : Bool) → (k ≡ false) ⊎ (k ≡ true)
self_or_false true = inr refl
self_or_false false = inl refl

and_or_false : (j k : Bool) → ((j && k) ≡ false) ⊎ (k ≡ true)
and_or_false true k = self_or_false k
and_or_false false k = inl refl

redirects-AllGuarded :
    (b u : Url) (rs : List Url)
    → AllGuarded b
        (map (λ r. record { url = r; has_key = is_same_base b u && is_same_base b r }) rs)
redirects-AllGuarded b u [] = tt
redirects-AllGuarded b u (r ∷ rs) = (
  guarded b r _ (and_or_false (is_same_base b u) (is_same_base b r)),
  redirects-AllGuarded b u rs,
)

requests-AllGuarded : (b u : Url) (rs : List Url) → AllGuarded b (requests b u rs)
unfolding requests
requests-AllGuarded b u rs =
    (guarded b u _ (self_or_false (is_same_base b u)), redirects-AllGuarded b u rs)

abbrev IsFitCandidate : Candidate → Type 0
IsFitCandidate skipped = Unit {0}
IsFitCandidate candidate_failed = Unit {0}
IsFitCandidate (poster p) = IsFit (some p)

read_body-IsFit :
    (mime : String) (o : Option (ℕ × ℕ))
    → (mime ≡ mime_jpeg) ⊎ (mime ≡ mime_png)
    → IsFitCandidate (read_body mime o)
unfolding read_body
read_body-IsFit mime none h = tt
read_body-IsFit mime (some (n, c)) h = elim (Bool-cases (leb n max_poster_bytes)) [
  | inl e ↦ rw e (ground arith, h)
  | inr e ↦ rw e tt
]

either_text : (a b c : String) → (str_eq a b || str_eq a c) ≡ true → (a ≡ b) ⊎ (a ≡ c)
either_text a b c h = ground (arith, eq_iff a b, eq_iff a c)

read_typed-IsFit : (m : Option String) (o : Option (ℕ × ℕ)) → IsFitCandidate (read_typed m o)
unfolding read_typed
read_typed-IsFit none o = tt
read_typed-IsFit (some mime) o = elim (Bool-cases (str_eq mime mime_jpeg || str_eq mime mime_png)) [
  | inl e ↦ rw e (read_body-IsFit mime o (either_text mime mime_jpeg mime_png e))
  | inr e ↦ rw e tt
]

read_response-IsFit : (o : Option Response) → IsFitCandidate (read_response o)
unfolding read_response
read_response-IsFit none = tt
read_response-IsFit (some r) = elim (Bool-cases (r.status == 200)) [
  | inl e ↦ rw e (read_typed-IsFit r.mime_type r.body)
  | inr e ↦ rw e tt
]

abbrev IsSafeFetch : Url → Fetched → Type 0
IsSafeFetch b f = AllGuarded b f.0 × IsFitCandidate f.1

fetch_url-IsSafe : (w : Web) (b : Url) (o : Option Url) → IsSafeFetch b (fetch_url w b o)
unfolding fetch_url
fetch_url-IsSafe w b none = (tt, tt)
fetch_url-IsSafe w b (some u) =
    (requests-AllGuarded b u _, read_response-IsFit (w.get u (is_same_base b u)).response)

fetch_poster_candidate-IsSafe :
    (w : Web) (b : Url) (i : Image) → IsSafeFetch b (fetch_poster_candidate w b i)
unfolding fetch_poster_candidate
fetch_poster_candidate-IsSafe w b i = elim (Bool-cases (not (str_eq i.cover_type "poster"))) [
  | inl e ↦ rw e (tt, tt)
  | inr e ↦ elim (Bool-cases (str_eq (image_url i) "")) [
    | inl f ↦ rw (e, f) (tt, tt)
    | inr f ↦ elim (Bool-cases (not (is_supported (image_ext w i)))) [
      | inl g ↦ rw (e, f, g) (tt, tt)
      | inr g ↦ rw (e, f, g) (fetch_url-IsSafe w b (w.parse (absolute_url w b (image_url i))))
    ]
  ]
]

abbrev pub IsSafe : Url → List Request × Option Poster → Type 0
IsSafe b f = AllGuarded b f.0 × IsFit f.1

or_next-IsSafe :
    (b : Url) (f : Fetched) (rest : List Request × Option Poster)
    → IsSafeFetch b f
    → IsSafe b rest
    → IsSafe b (or_next f rest)
unfolding or_next
or_next-IsSafe b (rs, poster p) rest h k = h
or_next-IsSafe b (rs, skipped) (rs', p) h k = (AllGuarded-append b rs rs' h.0 k.0, k.1)
or_next-IsSafe b (rs, candidate_failed) (rs', p) h k = (AllGuarded-append b rs rs' h.0 k.0, k.1)

-- Of all requests that are sent for the posters of a list of images, redirects included, only those
-- carry the API key whose URL has the scheme and the host of the base, and a path that is that of
-- the base or lies below it. A poster that comes back is a JPEG or a PNG by its content type, and
-- has at most 10 MiB.
pub first_poster-IsSafe : (w : Web) (b : Url) (is : List Image) → IsSafe b (first_poster w b is)
unfolding first_poster
first_poster-IsSafe w b [] = (tt, tt)
first_poster-IsSafe w b (i ∷ is) =
    or_next-IsSafe b (fetch_poster_candidate w b i) (first_poster w b is)
      (fetch_poster_candidate-IsSafe w b i) (first_poster-IsSafe w b is)
