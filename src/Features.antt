-- ===== src/Features.antt =====
-- pygls/feature_manager.py: `FeatureManager`, with the function objects that its decorators mark and
-- wrap on an explicit heap. `O` is the type of the options of features. Whether a function takes the
-- server (`has_ls_param_or_annotation`, which inspects its signature) and whether it is a coroutine
-- function are given with the object.
use pygls.Prelude.{
  ℕ, ◌+◌, String, Bool, true, false, ◌&&◌, ◌||◌, List, [], ◌∷◌, Option, none, some, leb, ◌==◌,
  if◌then◌else◌,
}
use Prim.Native.Char.{code}
use pygls.Prelude.Eq.{string_eq}
use pygls.Prelude.Dict
use pygls.Prelude.Dict.{Dict}
use pygls.Options.{LspTypes, Check, accepted, ill_typed, unknown_method, check_options}
pub mod Register

-- ATTR_COMMAND_TYPE, ATTR_FEATURE_TYPE
pub data RegistrationType : Type 0 where
  command_type feature_type : RegistrationType

-- A function object, with the attributes that pygls sets on it.
pub record Func : Type 0 where
  pub is_coroutine : Bool
  pub takes_server : Bool
  pub in_thread : Bool
  pub registered : Option (String × RegistrationType)

pub record Manager (O : Type 0) : Type 0 where
  pub heap : ℕ → Func
  pub next : ℕ
  pub builtin_features : Dict String ℕ
  pub features : Dict String ℕ
  pub feature_options : Dict String O
  pub commands : Dict String ℕ

pub data Error : Type 0 where
  validation_error already_registered type_error type_not_registered : Error
  thread_error key_error : Error

-- A decorator returns its function, or raises; the manager may have changed either way.
pub data Answer (O : Type 0) : Type 0 where
  ok : Manager O → Answer O
  error : Error → Manager O → Answer O

abbrev pub after : {O : Type 0} → Answer O → Manager O
after (ok m) = m
after (error e m) = m

-- The characters that `str.strip` takes off.
unfoldable pub is_space : ℕ → Bool
is_space c =
    (leb 9 c && leb c 13)
    || ((leb 28 c && leb c 32)
        || (c == 0x85
            || (c == 0xa0
                || (c == 0x1680
                    || ((leb 0x2000 c && leb c 0x200a)
                        || (c == 0x2028
                            || (c == 0x2029 || (c == 0x202f || (c == 0x205f || c == 0x3000)))))))))

-- name.strip() == ""
unfoldable pub is_blank : String → Bool
unfolding is_space
is_blank String.[] = true
is_blank (String.◌∷◌ c s) = is_space (code c) && is_blank s

abbrev pub is_missing : Option String → Bool
is_missing none = true
is_missing (some name) = is_blank name

-- wrap_with_server: a new object if the function takes the server, and else the function. The mark
-- for threads is copied to the `partial` of a plain function only.
abbrev pub wrapper : Func → Func
wrapper f = record {
  is_coroutine = f.is_coroutine;
  takes_server = false;
  in_thread = if f.is_coroutine then false else f.in_thread;
  registered = none;
}

module _ {O : Type 0} where
  abbrev pub write : ℕ → Func → Manager O → Manager O
  write ref f m = record m { heap = λ r. if r == ref then f else m.heap r }

  abbrev pub assign_help_attrs : ℕ → String → RegistrationType → Manager O → Manager O
  assign_help_attrs ref name ty m =
      write ref (record (m.heap ref) { registered = some (name, ty) }) m

  abbrev pub assign_thread_attr : ℕ → Manager O → Manager O
  assign_thread_attr ref m = write ref (record (m.heap ref) { in_thread = true }) m

  abbrev pub wrap_with_server : ℕ → Manager O → ℕ × Manager O
  wrap_with_server ref m =
      if (m.heap ref).takes_server
      then (m.next, record (write m.next (wrapper (m.heap ref)) m) { next = m.next + 1 })
      else (ref, m)

  -- What both decorators do between their checks and the entry in their dict.
  abbrev pub mark_and_wrap : ℕ → String → RegistrationType → Manager O → ℕ × Manager O
  mark_and_wrap ref name ty m =
      let (wrapped, m') = wrap_with_server ref (assign_help_attrs ref name ty m) in
      (wrapped, assign_help_attrs wrapped name ty m')

  unfoldable pub add_command : ℕ → String → Manager O → Manager O
  add_command ref name m =
      let (wrapped, m') = mark_and_wrap ref name command_type m in
      record m' { commands = Dict.put m'.commands name wrapped }

  unfoldable pub checked_command : ℕ → String → Manager O → Answer O
  unfolding add_command
  checked_command ref name m =
      if is_blank name
      then error validation_error m
      else if Dict.contains m.commands name
      then error already_registered m
      else ok (add_command ref name m)

  -- The decorator `command(command_name)` on the function `ref`.
  unfoldable pub command : Option String → ℕ → Manager O → Answer O
  unfolding checked_command
  command none ref m = error validation_error m
  command (some name) ref m = checked_command ref name m

  unfoldable pub add_feature : ℕ → String → Manager O → Manager O
  add_feature ref name m =
      let (wrapped, m') = mark_and_wrap ref name feature_type m in
      record m' { features = Dict.put m'.features name wrapped }

  -- The options are checked when the feature is registered already.
  unfoldable pub store_checked : Check → O → String → Manager O → Answer O
  store_checked accepted o name m =
      ok (record m { feature_options = Dict.put m.feature_options name o })
  store_checked ill_typed o name m = error type_error m
  store_checked unknown_method o name m = error type_not_registered m

  unfoldable pub store_options :
      {T : Type 0} → LspTypes O T → Option O → String → Manager O → Answer O
  unfolding store_checked check_options
  store_options types none name m = ok m
  store_options types (some o) name m = store_checked (check_options types name o) o name m

  unfoldable pub checked_feature :
      {T : Type 0} → LspTypes O T → Option O → ℕ → String → Manager O → Answer O
  unfolding store_options add_feature
  checked_feature types options ref name m =
      if is_blank name
      then error validation_error m
      else if Dict.contains m.features name
      then error already_registered m
      else store_options types options name (add_feature ref name m)

  -- The decorator `feature(feature_name, options)`; options that are false count as `none`.
  unfoldable pub feature :
      {T : Type 0} → LspTypes O T → Option String → Option O → ℕ → Manager O → Answer O
  unfolding checked_feature
  feature types none options ref m = error validation_error m
  feature types (some name) options ref m = checked_feature types options ref name m

  unfoldable pub thread_at : Option ℕ → Manager O → Answer O
  thread_at none m = error key_error m
  thread_at (some ref) m = ok (assign_thread_attr ref m)

  unfoldable pub thread_registered : ℕ → Option (String × RegistrationType) → Manager O → Answer O
  unfolding thread_at
  thread_registered ref none m = ok (assign_thread_attr ref m)
  thread_registered ref (some (name, feature_type)) m = thread_at (Dict.get m.features name) m
  thread_registered ref (some (name, command_type)) m = thread_at (Dict.get m.commands name) m

  -- The decorator `thread()`.
  unfoldable pub thread : ℕ → Manager O → Answer O
  unfolding thread_registered
  thread ref m =
      if (m.heap ref).is_coroutine
      then error thread_error m
      else thread_registered ref (m.heap ref).registered m
