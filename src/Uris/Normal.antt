-- ===== src/Uris/Normal.antt =====
-- `_normalize_win_path` (pygls/uris.py) by the shape of the path.
use pygls.Prelude.{
  ℕ, ◌≡◌, ◌≢◌, ◌<◌, ◌⊎◌, refl, ap, Bool, true, false, ◌&&◌, [], ◌∷◌, ◌++◌, Option, none, some,
  arith, ◌==◌, if◌then◌else◌, Option-cases, inl, inr,
}
use pygls.Codec.{Text}
use pygls.Uris.{
  Error, value_error, answers, raises, is_letter, lower, has_drive, split_slash, cut_authority,
  authority, with_slash, lower_drive, normalized, without_authority, path_value,
}

abbrev pub NoSlash : Text → Type 0
NoSlash [] = Unit
NoSlash (c ∷ cs) = (c ≢ 47) × NoSlash cs

-- The text starts with "/", with "//".
abbrev pub starts_slash : Text → Bool
starts_slash [] = false
starts_slash (c ∷ cs) = c == 47

abbrev pub starts_slashes : Text → Bool
starts_slashes [] = false
starts_slashes (c ∷ cs) = c == 47 && starts_slash cs

-- The code points that are no surrogates, which UTF-8 can encode.
abbrev pub IsScalar : ℕ → Type 0
IsScalar c = (c < 0xD800) ⊎ (0xDFFF < c)

abbrev pub AllScalar : Text → Type 0
AllScalar [] = Unit
AllScalar (c ∷ cs) = IsScalar c × AllScalar cs

AllScalar-split : (s t : Text) → AllScalar (s ++ t) → AllScalar s × AllScalar t
AllScalar-split [] t h = (tt, h)
AllScalar-split (c ∷ s) t h = let (a, b) = AllScalar-split s t h.1 in ((h.0, a), b)

-- The paths, with forward slashes, and their normal forms: the letter of a drive is in lower case, and
-- with no slash before it; another path starts with a slash; and a share has a host.
pub data IsNormal : Text → Text → Type 0 where
  rooted :
      (rest : Text)
      → starts_slash rest ≡ false
      → has_drive (47 ∷ rest) ≡ false
      → IsNormal (47 ∷ rest) (47 ∷ rest)
  relative :
      (path : Text)
      → starts_slash path ≡ false
      → has_drive (47 ∷ path) ≡ false
      → IsNormal path (47 ∷ path)
  drive :
      (l : ℕ) (rest : Text) → is_letter l ≡ true → IsNormal (l ∷ 58 ∷ rest) (lower l ∷ 58 ∷ rest)
  rooted_drive :
      (l : ℕ) (rest : Text)
      → is_letter l ≡ true
      → IsNormal (47 ∷ l ∷ 58 ∷ rest) (lower l ∷ 58 ∷ rest)
  share :
      (h : ℕ) (host rest : Text)
      → NoSlash (h ∷ host)
      → has_drive (47 ∷ rest) ≡ false
      → IsNormal (47 ∷ 47 ∷ h ∷ host ++ 47 ∷ rest) (47 ∷ 47 ∷ h ∷ host ++ 47 ∷ rest)

authority_none : (p : Text) → starts_slashes p ≡ false → authority p ≡ answers (p, [])
unfolding authority
authority_none [] h = refl
authority_none (a ∷ []) h = refl
authority_none (a ∷ b ∷ p) h = ground arith

pub split_slash-append :
    (host rest : Text) → NoSlash host → split_slash (host ++ 47 ∷ rest) ≡ some (host, 47 ∷ rest)
unfolding split_slash
split_slash-append [] rest h = refl
split_slash-append (c ∷ host) rest h = rw (split_slash-append host rest h.1) (ground (arith, h.0))

-- There is no "/".
NoSlash-split_slash : (host : Text) → NoSlash host → split_slash host ≡ none
unfolding split_slash
NoSlash-split_slash [] h = refl
NoSlash-split_slash (c ∷ host) h = rw (NoSlash-split_slash host h.1) (ground (arith, h.0))

lower_drive_none : (p : Text) → has_drive p ≡ false → lower_drive p ≡ p
unfolding lower_drive
lower_drive_none [] h = refl
lower_drive_none (a ∷ []) h = refl
lower_drive_none (a ∷ b ∷ p) h = rw h refl

without_authority_none : (p : Text) → has_drive p ≡ false → without_authority p ≡ p
unfolding without_authority
without_authority_none [] h = refl
without_authority_none (a ∷ []) h = refl
without_authority_none (a ∷ b ∷ p) h = rw h refl

with_slash_relative : (p : Text) → starts_slash p ≡ false → with_slash p ≡ 47 ∷ p
unfolding with_slash
with_slash_relative [] h = refl
with_slash_relative (c ∷ p) h = rw h refl

has_drive_letter :
    (l : ℕ) (rest : Text) → is_letter l ≡ true → has_drive (47 ∷ l ∷ 58 ∷ rest) ≡ true
unfolding has_drive
has_drive_letter l rest h = ground arith

lower_letter :
    (l : ℕ) → is_letter l ≡ true → (is_letter (lower l) ≡ true) × (lower (lower l) ≡ lower l)
lower_letter l h = ground arith

IsScalar-lower : (l : ℕ) → is_letter l ≡ true → IsScalar (lower l)
IsScalar-lower l h = inl (ground arith)

-- What the normalisation leaves of a path, and what is made of it on the way back.
pub record Normalized (path out : Text) : Type 0 where
  pub netloc : Text
  pub rest : Text
  pub comes : normalized (authority path) ≡ answers (rest, netloc)
  pub host : NoSlash netloc
  pub slash : starts_slash rest ≡ true
  pub single : netloc ≡ [] → starts_slashes rest ≡ false
  pub scalars : AllScalar path → AllScalar netloc × AllScalar rest
  pub goes : path_value netloc rest ≡ out

no_slashes : (p : Text) → starts_slash p ≡ false → starts_slashes p ≡ false
no_slashes [] h = refl
no_slashes (c ∷ p) h = rw h refl

drive_goes :
    (l : ℕ) (rest : Text)
    → is_letter l ≡ true
    → path_value [] (47 ∷ lower l ∷ 58 ∷ rest) ≡ lower l ∷ 58 ∷ rest
unfolding path_value without_authority
drive_goes l rest h =
    let (letter, twice) = lower_letter l h in
    rw (has_drive_letter (lower l) rest letter) (ap (λ c. c ∷ 58 ∷ rest) twice)

pub IsNormal-Normalized : {path out : Text} → IsNormal path out → Normalized path out
unfolding normalized path_value authority cut_authority with_slash lower_drive
IsNormal-Normalized (rooted rest s d) = record {
  netloc = [];
  rest = 47 ∷ rest;
  comes = rw (authority_none (47 ∷ rest) s, lower_drive_none (47 ∷ rest) d) refl;
  host = tt;
  slash = refl;
  single = λ e. s;
  scalars = λ h. (tt, h);
  goes = without_authority_none (47 ∷ rest) d;
}
IsNormal-Normalized (relative path s d) = record {
  netloc = [];
  rest = 47 ∷ path;
  comes =
      rw
        (
          authority_none path (no_slashes path s),
          with_slash_relative path s,
          lower_drive_none (47 ∷ path) d,
        )
        refl;
  host = tt;
  slash = refl;
  single = λ e. s;
  scalars = λ h. (tt, (inl (omega arith), h));
  goes = without_authority_none (47 ∷ path) d;
}
IsNormal-Normalized (drive l rest h) = record {
  netloc = [];
  rest = 47 ∷ lower l ∷ 58 ∷ rest;
  comes =
      rw
        (
          authority_none (l ∷ 58 ∷ rest) (ground arith),
          with_slash_relative (l ∷ 58 ∷ rest) (ground arith),
          has_drive_letter l rest h,
        )
        refl;
  host = tt;
  slash = refl;
  single = λ e. ground arith;
  scalars = λ s. (tt, (inl (omega arith), (IsScalar-lower l h, s.1)));
  goes = drive_goes l rest h;
}
IsNormal-Normalized (rooted_drive l rest h) = record {
  netloc = [];
  rest = 47 ∷ lower l ∷ 58 ∷ rest;
  comes = rw (authority_none (47 ∷ l ∷ 58 ∷ rest) (ground arith), has_drive_letter l rest h) refl;
  host = tt;
  slash = refl;
  single = λ e. ground arith;
  scalars = λ s. (tt, (inl (omega arith), (IsScalar-lower l h, s.1.1)));
  goes = drive_goes l rest h;
}
IsNormal-Normalized (share h host rest n d) = record {
  netloc = h ∷ host;
  rest = 47 ∷ rest;
  comes = rw (split_slash-append (h ∷ host) rest n, lower_drive_none (47 ∷ rest) d) refl;
  host = n;
  slash = refl;
  single = λ e. cc;
  scalars = λ s. AllScalar-split (h ∷ host) (47 ∷ rest) s.1.1;
  goes = refl;
}

NoSlash-split : (host : Text) → split_slash host ≡ none → NoSlash host
unfolding split_slash
NoSlash-split [] h = tt
NoSlash-split (c ∷ host) h = elim (Option-cases (split_slash host)) [
  | inl e ↦ (ground (arith, h), NoSlash-split host e)
  | inr (v, e) ↦ absurd (ground (arith, h, e))
]

-- There is no end of the host.
abbrev pub Unended : Text → Type 0
Unended path = (host : Text) × NoSlash host × (path ≡ 47 ∷ 47 ∷ host)

pub Unended-authority : (path : Text) → Unended path → authority path ≡ raises value_error
unfolding authority cut_authority
Unended-authority path (host, n, e) = rw (e, NoSlash-split_slash host n) refl

pub authority-Unended : (path : Text) (e : Error) → authority path ≡ raises e → Unended path
unfolding authority cut_authority
authority-Unended [] e h = cc
authority-Unended (a ∷ []) e h = cc
authority-Unended (a ∷ b ∷ path) e h = by_rest (split_slash path) refl h
  where
    by_rest :
        (o : Option (Text × Text))
        → split_slash path ≡ o
        → (if a == 47 && b == 47 then cut_authority o else answers (a ∷ b ∷ path, [])) ≡ raises e
        → Unended (a ∷ b ∷ path)
    by_rest none q k = (path, NoSlash-split path q, ground arith)
    by_rest (some (host, rest)) q k = absurd (ground arith)
