-- ===== src/Uris/RoundTrip.antt =====
-- Paths through uris and back, over what is assumed of `urllib`.
use pygls.Prelude.{
  ◌↔◌, ℕ, zero, suc, ◌≡◌, ◌≢◌, refl, sym, ap, ◌∙◌, inl, inr, Bool, true, false, [], ◌∷◌, ◌++◌, some,
  arith, take, drop, Bool-cases,
}
use mathlib.Core.Path.{subst}
use pygls.Codec.{Text}
use pygls.Uris.Normal.{
  NoSlash, starts_slash, starts_slashes, IsScalar, AllScalar, IsNormal, IsNormal-Normalized,
  Unended, Unended-authority, authority-Unended,
}
use pygls.Uris.{
  Urllib, Error, value_error, Answer, answers, raises, file, replace, forward, native, is_letter,
  has_drive, authority, normalized, normalize_win_path, quoted_path, quoted, urlunparse, urlparse,
  unquote_found, file_parts, from_normalized, from_fs_path, path_value, to_path, to_fs_path,
}

-- What is assumed of `urllib.parse`: `unquote` undoes `quote` on what UTF-8 can encode and leaves a character
-- that is no "%"; and `urlparse` undoes `urlunparse` on the quoted parts of a file's uri, where the authority has no "/" and
-- the path starts with one, and with one only if there is no authority.
pub record IsUrllib (url : Urllib) : Type 0 where
  pub unquote_quote : (s : Text) → AllScalar s → url.unquote (url.quote s) ≡ s
  pub unquote_plain : (c : ℕ) (s : Text) → c ≢ 37 → url.unquote (c ∷ s) ≡ c ∷ url.unquote s
  pub parse_unparse :
      (netloc path : Text)
      → AllScalar netloc
      → AllScalar path
      → NoSlash netloc
      → starts_slash path ≡ true
      → (netloc ≡ [] → starts_slashes path ≡ false)
      → url.parse (urlunparse url (file_parts netloc path))
        ≡ some (quoted url (file_parts netloc path))

has_drive_shape :
    (path : Text)
    → has_drive path ≡ true
    → (l : ℕ) × (rest : Text) × (path ≡ 47 ∷ l ∷ 58 ∷ rest) × (is_letter l ≡ true)
unfolding has_drive
has_drive_shape [] h = cc
has_drive_shape (a ∷ []) h = cc
has_drive_shape (a ∷ b ∷ []) h = cc
has_drive_shape (a ∷ b ∷ c ∷ rest) h = (b, rest, ground arith, ground arith)

AllScalar-replace : (a b : ℕ) (s : Text) → IsScalar b → AllScalar s → AllScalar (replace a b s)
AllScalar-replace a b [] k h = tt
AllScalar-replace a b (c ∷ s) k h = (ground (arith, k, h.0), AllScalar-replace a b s k h.1)

AllScalar-forward : (is_win : Bool) (s : Text) → AllScalar s → AllScalar (forward is_win s)
AllScalar-forward true s h = AllScalar-replace 92 47 s (inl (omega arith)) h
AllScalar-forward false s h = h

AllScalar-file : AllScalar file
AllScalar-file =
    (inl (omega arith), (inl (omega arith), (inl (omega arith), (inl (omega arith), tt))))

module _ (url : Urllib) (sound : IsUrllib url) where
  letter_plain : (c : ℕ) → is_letter c ≡ true → c ≢ 37
  letter_plain c h = ground arith

  AllScalar-drop : (n : ℕ) (s : Text) → AllScalar s → AllScalar (drop n s)
  AllScalar-drop zero s h = h
  AllScalar-drop (suc n) [] h = h
  AllScalar-drop (suc n) (c ∷ s) h = AllScalar-drop n s h.1

  unquote-quoted_path : (path : Text) → AllScalar path → url.unquote (quoted_path url path) ≡ path
  unfolding quoted_path
  unquote-quoted_path path h = elim (Bool-cases (has_drive path)) [
    | inl e ↦
        let (l, rest, shape, letter) = has_drive_shape path e in
        rw e (
          subst (λ p. url.unquote (take 3 p ++ url.quote (drop 3 p)) ≡ p) (sym shape)
            (drive l rest letter (AllScalar-drop 3 (47 ∷ l ∷ 58 ∷ rest) (subst AllScalar shape h))))
    | inr e ↦ rw e (sound.unquote_quote path h)
  ]
    where
      drive :
          (l : ℕ) (rest : Text)
          → is_letter l ≡ true
          → AllScalar rest
          → url.unquote (47 ∷ l ∷ 58 ∷ url.quote rest) ≡ 47 ∷ l ∷ 58 ∷ rest
      drive l rest letter h =
          sound.unquote_plain 47 (l ∷ 58 ∷ url.quote rest) (λ e. omega arith)
          ∙ ap (◌∷◌ 47) (
              sound.unquote_plain l (58 ∷ url.quote rest) (letter_plain l letter)
              ∙ ap (◌∷◌ l) (
                  sound.unquote_plain 58 (url.quote rest) (λ e. omega arith)
                  ∙ ap (◌∷◌ 58) (sound.unquote_quote rest h)))

  -- What a normalised path and its authority become, through the uri.
  back :
      (is_win : Bool) (netloc path : Text)
      → AllScalar netloc
      → AllScalar path
      → NoSlash netloc
      → starts_slash path ≡ true
      → (netloc ≡ [] → starts_slashes path ≡ false)
      → to_fs_path url is_win (urlunparse url (file_parts netloc path))
        ≡ answers (some (native is_win (path_value netloc path)))
  unfolding to_fs_path to_path urlparse unquote_found
  back is_win netloc path sn sp n p d =
      rw
        (
          sound.parse_unparse netloc path sn sp n p d,
          sound.unquote_quote file AllScalar-file,
          sound.unquote_quote netloc sn,
          unquote-quoted_path path sp,
        )
        refl

  -- Over what is assumed of urllib, for a text that UTF-8 can encode: the uri of a path leads back to
  -- the path in its normal form, with the separators of the platform. The normal form of a path from
  -- the root is the path itself, a relative path is taken from the root, the letter of a drive becomes
  -- lower case and loses a slash before it, and a share has a host, and no drive behind it.
  pub to-from_fs_path :
      (is_win : Bool) (path out : Text)
      → IsNormal (forward is_win path) out
      → AllScalar path
      → (uri : Text) × (from_fs_path url is_win path ≡ answers uri)
        × (to_fs_path url is_win uri ≡ answers (some (native is_win out)))
  unfolding from_fs_path from_normalized normalize_win_path
  to-from_fs_path is_win path out n h =
      let k = IsNormal-Normalized n in
      let (sn, sr) = k.scalars (AllScalar-forward is_win path h) in
      (
        urlunparse url (file_parts k.netloc k.rest),
        rw k.comes refl,
        back is_win k.netloc k.rest sn sr k.host k.slash k.single
            ∙ ap (λ v. answers (some (native is_win v))) k.goes,
      )

from_normalized-raises :
    (url : Urllib) (e : Error) (a : Answer (Text × Text))
    → from_normalized url (normalized a) ≡ raises e
    → a ≡ raises e
unfolding from_normalized normalized
from_normalized-raises url e (raises e') h = cc
from_normalized-raises url e (answers v) h = cc

-- Of the texts that urllib can quote, `from_fs_path` raises an exception exactly for those that start
-- with two slashes and have no other, so that the name of the host does not end.
pub from_fs_path-refused :
    (url : Urllib) (is_win : Bool) (path : Text)
    → ((e : Error) × (from_fs_path url is_win path ≡ raises e)) ↔ Unended (forward is_win path)
unfolding from_fs_path normalize_win_path from_normalized normalized
from_fs_path-refused url is_win path = (
  (λ (e, h).
      authority-Unended (forward is_win path) e
        (from_normalized-raises url e (authority (forward is_win path)) h)),
  (λ u. (value_error, rw (Unended-authority (forward is_win path) u) refl)),
)
