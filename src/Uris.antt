-- ===== src/Uris.antt =====
-- pygls/uris.py. A text is the list of its code points; `is_win` is IS_WIN.
use pygls.Prelude.{
  ℕ, ◌+◌, Bool, true, false, not, ◌&&◌, ◌||◌, List, [], ◌∷◌, ◌++◌, Option, none, some, ◌==◌, leb,
  if◌then◌else◌, take, drop,
}
use pygls.Codec.{Text}
pub mod Normal
pub mod RoundTrip

-- URLParts
pub record UrlParts : Type 0 where
  pub scheme : Text
  pub netloc : Text
  pub path : Text
  pub params : Text
  pub query : Text
  pub fragment : Text

-- `urllib.parse`. Where `urlparse` raises a ValueError, `parse` is `none`. `quote` raises for texts that
-- UTF-8 cannot encode, which are left out.
pub record Urllib : Type 0 where
  pub quote : Text → Text
  pub unquote : Text → Text
  pub parse : Text → Option UrlParts
  pub unparse : UrlParts → Text

-- The exceptions: a ValueError of `str.index` or of `urlparse`, and that of `uri_with`.
pub data Error : Type 0 where
  value_error path_missing : Error

pub data Answer (A : Type 0) : Type 0 where
  answers : A → Answer A
  raises : Error → Answer A

-- "file"
abbrev pub file : Text
file = 102 ∷ 105 ∷ 108 ∷ 101 ∷ []

-- path.replace("\\", "/") and value.replace("/", "\\")
abbrev pub replace : ℕ → ℕ → Text → Text
replace a b [] = []
replace a b (c ∷ cs) = (if c == a then b else c) ∷ replace a b cs

abbrev pub forward : Bool → Text → Text
forward is_win path = if is_win then replace 92 47 path else path

abbrev pub native : Bool → Text → Text
native is_win value = if is_win then replace 47 92 value else value

abbrev pub is_letter : ℕ → Bool
is_letter c = (leb 65 c && leb c 90) || (leb 97 c && leb c 122)

-- `str.lower` of a letter from A to Z or a to z
abbrev pub lower : ℕ → ℕ
lower c = if leb 65 c && leb c 90 then c + 32 else c

-- RE_DRIVE_LETTER_PATH.match(path)
unfoldable pub has_drive : Text → Bool
has_drive (a ∷ b ∷ c ∷ path) = a == 47 && (is_letter b && c == 58)
has_drive _ = false

-- What stands before the first "/", and the rest from it on.
unfoldable pub split_slash : Text → Option (Text × Text)
split_slash [] = none
split_slash (c ∷ cs) =
    let rest = split_slash cs in
    if c == 47
    then some ([], c ∷ cs)
    else elim rest [ none ↦ none | some (before, after) ↦ some (c ∷ before, after) ]

-- path.index("/", 2) raises a ValueError if there is none.
unfoldable pub cut_authority : Option (Text × Text) → Answer (Text × Text)
cut_authority none = raises value_error
cut_authority (some (netloc, path)) = answers (path, netloc)

-- The path and the authority of a UNC share.
unfoldable pub authority : Text → Answer (Text × Text)
unfolding cut_authority split_slash
authority (a ∷ b ∷ path) =
    if a == 47 && b == 47 then cut_authority (split_slash path) else answers (a ∷ b ∷ path, [])
authority path = answers (path, [])

unfoldable pub with_slash : Text → Text
with_slash [] = 47 ∷ []
with_slash (c ∷ cs) = if c == 47 then c ∷ cs else 47 ∷ c ∷ cs

unfoldable pub lower_drive : Text → Text
lower_drive (a ∷ b ∷ path) = if has_drive (a ∷ b ∷ path) then a ∷ lower b ∷ path else a ∷ b ∷ path
lower_drive path = path

unfoldable pub normalized : Answer (Text × Text) → Answer (Text × Text)
unfolding with_slash lower_drive
normalized (raises e) = raises e
normalized (answers (path, netloc)) = answers (lower_drive (with_slash path), netloc)

unfoldable pub normalize_win_path : Bool → Text → Answer (Text × Text)
unfolding authority normalized
normalize_win_path is_win path = normalized (authority (forward is_win path))

-- scheme == "file"
abbrev pub is_file : Text → Bool
is_file (a ∷ b ∷ c ∷ d ∷ []) = (a == 102 && b == 105) && (c == 108 && d == 101)
is_file _ = false

-- new or old
abbrev pub or_old : Option Text → Text → Text
or_old none old = old
or_old (some []) old = old
or_old (some (c ∷ new)) old = c ∷ new

abbrev pub file_parts : Text → Text → UrlParts
file_parts netloc path = record {
  scheme = file;
  netloc = netloc;
  path = path;
  params = [];
  query = [];
  fragment = [];
}

unfoldable pub without_authority : Text → Text
without_authority (a ∷ b ∷ path) = if has_drive (a ∷ b ∷ path) then lower b ∷ path else a ∷ b ∷ path
without_authority path = path

unfoldable pub path_value : Text → Text → Text
unfolding without_authority
path_value [] path = without_authority path
path_value (n ∷ netloc) [] = without_authority []
path_value (n ∷ netloc) (c ∷ path) = 47 ∷ 47 ∷ n ∷ netloc ++ c ∷ path

module _ (url : Urllib) where
  -- The colon of a drive letter is not encoded.
  unfoldable pub quoted_path : Text → Text
  quoted_path path =
      if has_drive path then take 3 path ++ url.quote (drop 3 path) else url.quote path

  abbrev pub quoted : UrlParts → UrlParts
  quoted parts = record {
    scheme = url.quote parts.scheme;
    netloc = url.quote parts.netloc;
    path = quoted_path parts.path;
    params = url.quote parts.params;
    query = url.quote parts.query;
    fragment = url.quote parts.fragment;
  }

  abbrev pub unquoted : UrlParts → UrlParts
  unquoted parts = record {
    scheme = url.unquote parts.scheme;
    netloc = url.unquote parts.netloc;
    path = url.unquote parts.path;
    params = url.unquote parts.params;
    query = url.unquote parts.query;
    fragment = url.unquote parts.fragment;
  }

  unfoldable pub urlunparse : UrlParts → Text
  unfolding quoted_path
  urlunparse parts = url.unparse (quoted parts)

  unfoldable pub unquote_found : Option UrlParts → Answer UrlParts
  unquote_found none = raises value_error
  unquote_found (some parts) = answers (unquoted parts)

  unfoldable pub urlparse : Text → Answer UrlParts
  unfolding unquote_found
  urlparse uri = unquote_found (url.parse uri)

  -- The exceptions that `from_fs_path` catches are those of a path that is not a text.
  unfoldable pub from_normalized : Answer (Text × Text) → Answer Text
  unfolding urlunparse
  from_normalized (raises e) = raises e
  from_normalized (answers (path, netloc)) = answers (urlunparse (file_parts netloc path))

  unfoldable pub from_fs_path : Bool → Text → Answer Text
  unfolding from_normalized normalize_win_path
  from_fs_path is_win path = from_normalized (normalize_win_path is_win path)

  -- The answer is `none` for a uri with another scheme.
  unfoldable pub to_path : Bool → Answer UrlParts → Answer (Option Text)
  unfolding path_value
  to_path is_win (raises e) = raises e
  to_path is_win (answers parts) =
      if is_file parts.scheme
      then answers (some (native is_win (path_value parts.netloc parts.path)))
      else answers none

  unfoldable pub to_fs_path : Bool → Text → Answer (Option Text)
  unfolding to_path urlparse
  to_fs_path is_win uri = to_path is_win (urlparse uri)

  unfoldable pub scheme_of : Answer UrlParts → Answer Text
  scheme_of (raises e) = raises e
  scheme_of (answers parts) = answers parts.scheme

  unfoldable pub uri_scheme : Text → Answer Text
  unfolding scheme_of urlparse
  uri_scheme uri = scheme_of (urlparse uri)

  -- The path of `uri_with`, without the authority that it may name.
  unfoldable pub with_path : (Text → UrlParts) → Answer (Text × Text) → Answer Text
  unfolding urlunparse
  with_path parts (raises e) = raises e
  with_path parts (answers (path, netloc)) = answers (urlunparse (parts path))

  unfoldable pub replaced :
      Bool
      → Option Text
      → Option Text
      → Option Text
      → Option Text
      → Option Text
      → Option Text
      → Answer UrlParts
      → Answer Text
  unfolding with_path normalize_win_path
  replaced is_win scheme netloc path params query fragment (raises e) = raises e
  replaced is_win scheme netloc none params query fragment (answers old) = raises path_missing
  replaced is_win scheme netloc (some path) params query fragment (answers old) =
      with_path
        (λ p. record {
          scheme = or_old scheme old.scheme;
          netloc = or_old netloc old.netloc;
          path = or_old (some p) old.path;
          params = or_old params old.params;
          query = or_old query old.query;
          fragment = or_old fragment old.fragment;
        })
        (normalize_win_path is_win path)

  unfoldable pub uri_with :
      Bool
      → Text
      → Option Text
      → Option Text
      → Option Text
      → Option Text
      → Option Text
      → Option Text
      → Answer Text
  unfolding replaced urlparse
  uri_with is_win uri scheme netloc path params query fragment =
      replaced is_win scheme netloc path params query fragment (urlparse uri)
