-- ===== src/Features/Register.antt =====
-- What the decorators of the feature manager guarantee.
use pygls.Prelude.{
  ◌||◌, ℕ, ◌<◌, ◌≡◌, refl, ap, ◌∙◌, String, Bool, true, false, Option, none, some, arith,
  if◌then◌else◌, Bool-cases, inl, inr,
}
use pygls.Prelude.Eq.{string_eq}
use pygls.Prelude.Dict
use pygls.Prelude.Dict.{Dict, get-put_self, get-put}
use pygls.Options.{LspTypes, Check, accepted, ill_typed, unknown_method, check_options}
use pygls.Features.{
  Manager, Error, ok, error, already_registered, type_error, thread_error, validation_error,
  feature_type, is_blank, checked_feature, checked_command, store_options, feature, command, thread,
  thread_registered, thread_at, after, type_not_registered, store_checked, add_feature,
  assign_thread_attr,
}

module _ {O : Type 0} where
  -- The function that is registered for a feature runs in a thread.
  abbrev pub RunsInThread : String → Manager O → Type 0
  RunsInThread name m =
      (ref : ℕ) × (Dict.get m.features name ≡ some ref) × ((m.heap ref).in_thread ≡ true)

module _ {O : Type 0} where
  thread-RunsInThread :
      (name : String) (ref w : ℕ) (m : Manager O)
      → (m.heap ref).is_coroutine ≡ false
      → (m.heap ref).registered ≡ some (name, feature_type)
      → Dict.get m.features name ≡ some w
      → RunsInThread name (after (thread ref m))
  unfolding thread thread_registered thread_at
  thread-RunsInThread name ref w m plain marked found =
      rw (plain, marked, found) (w, found, ground arith)

  -- A plain function that is taken into a feature is marked, and what is registered for the feature
  -- can be threaded.
  add_feature-marks :
      (name : String) (ref : ℕ) (m : Manager O)
      → (m.heap ref).is_coroutine ≡ false
      → ref < m.next
      → (((add_feature ref name m).heap ref).is_coroutine ≡ false)
        × (((add_feature ref name m).heap ref).registered ≡ some (name, feature_type))
        × ((w : ℕ) × (Dict.get (add_feature ref name m).features name ≡ some w))
  unfolding add_feature
  add_feature-marks name ref m plain allocated = elim (Bool-cases (m.heap ref).takes_server) [
    | inl server ↦
        (ground arith, ground arith, (m.next, Dict.get-put_self _ name _ ∙ ap some (ground arith)))
    | inr none_ ↦
        (ground arith, ground arith, (ref, Dict.get-put_self _ name _ ∙ ap some (ground arith)))
  ]

  add_feature-in_thread :
      (name : String) (ref : ℕ) (m : Manager O)
      → (m.heap ref).is_coroutine ≡ false
      → (m.heap ref).in_thread ≡ true
      → RunsInThread name (add_feature ref name m)
  unfolding add_feature
  add_feature-in_thread name ref m plain threaded = elim (Bool-cases (m.heap ref).takes_server) [
    | inl server ↦ (m.next, Dict.get-put_self _ name _ ∙ ap some (ground arith), ground arith)
    | inr none_ ↦ (ref, Dict.get-put_self _ name _ ∙ ap some (ground arith), ground arith)
  ]

  thread-unmarked :
      (ref : ℕ) (m : Manager O)
      → (m.heap ref).is_coroutine ≡ false
      → (m.heap ref).registered ≡ none
      → thread ref m ≡ ok (assign_thread_attr ref m)
  unfolding thread thread_registered
  thread-unmarked ref m plain unmarked =
      let found : thread_registered ref (m.heap ref).registered m ≡ ok (assign_thread_attr ref m) =
        ap (λ r. thread_registered ref r m) unmarked in
      ap (λ c. if c then error thread_error m else thread_registered ref (m.heap ref).registered m)
        plain
      ∙ found

  feature-ok :
      {T : Type 0} (types : LspTypes O T) (name : String) (ref : ℕ) (m : Manager O)
      → is_blank name ≡ false
      → Dict.get m.features name ≡ none
      → feature types (some name) none ref m ≡ ok (add_feature ref name m)
  unfolding feature checked_feature store_options
  feature-ok types name ref m named fresh = rw (named, fresh) refl

-- What a check of options raises.
abbrev pub refusal : Check → Option Error
refusal accepted = none
refusal ill_typed = some type_error
refusal unknown_method = some type_not_registered

store_checked-refusal :
    {O : Type 0} (name : String) (c : Check) (o : O) (e : Error) (m : Manager O)
    → refusal c ≡ some e
    → store_checked c o name m ≡ error e m
unfolding store_checked
store_checked-refusal name accepted o e m h = cc
store_checked-refusal name ill_typed o e m h = cc
store_checked-refusal name unknown_method o e m h = cc

module _ {O T : Type 0} (types : LspTypes O T) (name : String) (ref : ℕ) (m : Manager O)
    (named : is_blank name ≡ false) (fresh : Dict.get m.features name ≡ none) where
  -- A plain function with a feature that is not taken yet runs in a thread whichever decorator comes
  -- first: the mark reaches what is registered also when that is a wrapper with the server.
  pub thread_any_order :
      (m.heap ref).is_coroutine ≡ false
      → (m.heap ref).registered ≡ none
      → ref < m.next
      → RunsInThread name (after (thread ref (after (feature types (some name) none ref m))))
        × RunsInThread name (after (feature types (some name) none ref (after (thread ref m))))
  thread_any_order plain unmarked allocated =
      let (plain', marked, (w, found)) = add_feature-marks name ref m plain allocated in
      let threaded : thread ref m ≡ ok (assign_thread_attr ref m) =
        thread-unmarked ref m plain unmarked in
      (
        rw (feature-ok types name ref m named fresh)
            (thread-RunsInThread name ref w (add_feature ref name m) plain' marked found),
        rw (threaded, feature-ok types name ref (assign_thread_attr ref m) named fresh)
            (add_feature-in_thread name ref (assign_thread_attr ref m) (ground arith)
              (ground arith)),
      )

  -- For a name that is not blank and not taken: options of a type that the method does not take raise a
  -- TypeError, and options for a method that the tables do not know raise a
  -- MethodTypeNotRegisteredError, but by then the feature is registered: a second attempt, with options
  -- that fit or with none, finds the name taken.
  pub feature-ill_fitting :
      (o : O) (retry : Option O) (other : ℕ) (e : Error)
      → refusal (check_options types name o) ≡ some e
      → (feature types (some name) (some o) ref m ≡ error e (add_feature ref name m))
        × (feature types (some name) retry other (add_feature ref name m)
            ≡ error already_registered (add_feature ref name m))
  unfolding feature checked_feature store_options
  feature-ill_fitting o retry other e unfit =
      let taken : Dict.contains (add_feature ref name m).features name ≡ true =
        ap Dict.has_some (Dict.get-put_self _ name _) in
      (
        rw (named, fresh)
            (store_checked-refusal name (check_options types name o) o e (add_feature ref name m)
              unfit),
        rw (named, taken) refl,
      )

-- The name is missing or blank, or taken in the table.
abbrev pub unusable : Option String → Dict String ℕ → Bool
unusable none table = true
unusable (some n) table = is_blank n || Dict.contains table n

-- A feature or a command with no name, a blank one or one that is taken already is refused, and the
-- manager is left as it was.
pub refused :
    {O T : Type 0} (types : LspTypes O T) (name command_name : Option String) (options : Option O)
    (ref : ℕ) (m : Manager O)
    → unusable name m.features ≡ true
    → unusable command_name m.commands ≡ true
    → ((e : Error) × (feature types name options ref m ≡ error e m))
      × ((e : Error) × (command command_name ref m ≡ error e m))
unfolding feature checked_feature command checked_command
refused types name command_name options ref m f c =
    (feature_refused name f, command_refused command_name c)
  where
    feature_refused :
        (name : _)
        → unusable name m.features ≡ true
        → (e : Error) × (feature types name options ref m ≡ error e m)
    feature_refused none f = (validation_error, refl)
    feature_refused (some n) f = elim (Bool-cases (is_blank n)) [
      | inl b ↦ (validation_error, rw b refl)
      | inr b ↦
          let taken : Dict.contains m.features n ≡ true = ground arith in
          (already_registered, rw (b, taken) refl)
    ]

    command_refused :
        (name : _)
        → unusable name m.commands ≡ true
        → (e : Error) × (command name ref m ≡ error e m)
    command_refused none f = (validation_error, refl)
    command_refused (some n) f = elim (Bool-cases (is_blank n)) [
      | inl b ↦ (validation_error, rw b refl)
      | inr b ↦
          let taken : Dict.contains m.commands n ≡ true = ground arith in
          (already_registered, rw (b, taken) refl)
    ]
