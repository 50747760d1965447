-- ===== src/Tests/Paths.antt =====
-- Paths and uris (pygls/uris.py) at concrete inputs.
use pygls.Prelude.{
  ℕ, ◌≡◌, ◌≢◌, ◌↔◌, refl, true, false, [], ◌∷◌, ◌++◌, Option, none, some, arith, ◌==◌,
  if◌then◌else◌, take, drop, inl, inr, Bool-cases,
}
use pygls.Codec.{Text}
use pygls.Uris.{
  UrlParts, Urllib, Error, answers, raises, forward, has_drive, split_slash, file_parts, quoted,
  quoted_path, urlunparse, from_fs_path, to_fs_path,
}
use pygls.Uris.Normal.{NoSlash, starts_slash, drive, Unended, split_slash-append}
use pygls.Uris.RoundTrip.{IsUrllib, to-from_fs_path, from_fs_path-refused}

-- Only "%" is quoted, as "%%".
unfoldable pub doubled : Text → Text
doubled [] = []
doubled (c ∷ s) = let rest = doubled s in if c == 37 then 37 ∷ 37 ∷ rest else c ∷ rest

unfoldable pub single : Text → Text
single [] = []
single (c ∷ []) = c ∷ []
single (c ∷ d ∷ s) =
    let skipped = single s in let on = single (d ∷ s) in if c == 37 then 37 ∷ skipped else c ∷ on

abbrev found_parts : Option (Text × Text) → Option UrlParts
found_parts none = none
found_parts (some (netloc, path)) = some (file_parts netloc path)

-- Uris of files, "file://" with the authority and the path.
abbrev pub file_urls : Urllib
file_urls = record {
  quote = doubled;
  unquote = single;
  parse = λ uri. found_parts (split_slash (drop 7 uri));
  unparse = λ parts. 102 ∷ 105 ∷ 108 ∷ 101 ∷ 58 ∷ 47 ∷ 47 ∷ parts.netloc ++ parts.path;
}

single_plain : (c : ℕ) (s : Text) → c ≢ 37 → single (c ∷ s) ≡ c ∷ single s
unfolding single
single_plain c [] h = refl
single_plain c (d ∷ s) h = ground (arith, h)

single-doubled : (s : Text) → single (doubled s) ≡ s
unfolding doubled single
single-doubled [] = refl
single-doubled (c ∷ s) = elim (Bool-cases (c == 37)) [
  | inl e ↦ rw e (rw (single-doubled s) (ground arith))
  | inr e ↦ rw (e, single_plain c (doubled s) (λ q. ground arith), single-doubled s) refl
]

NoSlash-doubled : (s : Text) → NoSlash s → NoSlash (doubled s)
unfolding doubled
NoSlash-doubled [] h = tt
NoSlash-doubled (c ∷ s) h = elim (Bool-cases (c == 37)) [
  | inl e ↦ rw e (λ q. omega (arith, q), (λ q. omega (arith, q), NoSlash-doubled s h.1))
  | inr e ↦ rw e (h.0, NoSlash-doubled s h.1)
]

quoted_slash :
    (path : Text)
    → starts_slash path ≡ true
    → (rest : Text) × (quoted_path file_urls path ≡ 47 ∷ rest)
unfolding quoted_path doubled
quoted_slash [] h = cc
quoted_slash (c ∷ path) h =
    let is_slash : c ≡ 47 = ground arith in
    elim (Bool-cases (has_drive (c ∷ path))) [
      | inl e ↦ (take 2 path ++ doubled (drop 2 path), rw e (rw is_slash refl))
      | inr e ↦ (doubled path, rw e (rw is_slash refl))
    ]

parse_file :
    (netloc path : Text)
    → NoSlash netloc
    → starts_slash path ≡ true
    → file_urls.parse (urlunparse file_urls (file_parts netloc path))
      ≡ some (quoted file_urls (file_parts netloc path))
unfolding urlunparse doubled
parse_file netloc path n s =
    let (rest, e) = quoted_slash path s in
    rw (e, split_slash-append (doubled netloc) rest (NoSlash-doubled netloc n)) refl

file_urls-IsUrllib : IsUrllib file_urls
file_urls-IsUrllib = record {
  unquote_quote = λ s h. single-doubled s;
  unquote_plain = single_plain;
  parse_unparse = λ netloc path sn sp n s d. parse_file netloc path n s;
}

-- "C:\a%"
abbrev drive_path : Text
drive_path = 67 ∷ 58 ∷ 92 ∷ 97 ∷ 37 ∷ []

to-from_fs_path_example :
    (uri : Text) × (from_fs_path file_urls true drive_path ≡ answers uri)
    × (to_fs_path file_urls true uri ≡ answers (some (99 ∷ 58 ∷ 92 ∷ 97 ∷ 37 ∷ [])))
to-from_fs_path_example =
    to-from_fs_path file_urls file_urls-IsUrllib true drive_path (99 ∷ 58 ∷ 47 ∷ 97 ∷ 37 ∷ [])
      (drive 67 (47 ∷ 97 ∷ 37 ∷ []) refl)
      (
        inl (omega arith),
        (inl (omega arith), (inl (omega arith), (inl (omega arith), (inl (omega arith), tt)))),
      )

-- "//a"
from_fs_path-refused_example :
    ((e : Error) × (from_fs_path file_urls false (47 ∷ 47 ∷ 97 ∷ []) ≡ raises e))
    ↔ Unended (forward false (47 ∷ 47 ∷ 97 ∷ []))
from_fs_path-refused_example = from_fs_path-refused file_urls false (47 ∷ 47 ∷ 97 ∷ [])
