-- ===== src/Framing/Exact.antt =====
-- The loop of `run_async` (pygls/io_.py) over an asyncio stream, whose `readexactly` raises an
-- IncompleteReadError when the stream ends within a body, and the loop of `run`, whose `read` gives what
-- there is.
use pygls.Prelude.{
  ℕ, zero, suc, ◌≡◌, ◌⊎◌, ◌≤◌, ◌<◌, inl, inr, refl, sym, ap, ◌∙◌, Bool, true, false, ◌&&◌, not,
  List, [], ◌∷◌, ◌++◌, Option, none, some, arith, ltb, ltb→lt, ltb→le, ◌==◌, if◌then◌else◌, length,
  take, drop, take_of_length-le, drop_of_length-le, Bool-cases, lt→ltb,
}
use mathlib.Core.Path.{subst}
use mathlib.Core.Option.{some-injective}
use pygls.Framing.RoundTrip.{run_total}
use pygls.Framing.{
  Bytes, Turn, ended, again, message, known_length, readline, read_body, is_blank, is_empty,
  after_header, turn, run,
}

-- A round of the loop, or an IncompleteReadError.
pub data AsyncTurn : Type 0 where
  turns : Turn → AsyncTurn
  incomplete : AsyncTurn

abbrev read_exactly : ℕ → Bytes → AsyncTurn
read_exactly n rest =
    if ltb (length rest) n then incomplete else turns (message (take n rest) (drop n rest))

abbrev after_header_async : ℕ → Bytes → Bytes → AsyncTurn
after_header_async n header rest =
    if is_empty header
    then turns ended
    else if not (n == 0) && is_blank header
    then read_exactly n rest
    else turns (again n rest)

unfoldable turn_async : ℕ → Bytes → AsyncTurn
turn_async content_length stream =
    let (header, rest) = readline stream in
    after_header_async (known_length content_length header) header rest

-- The loop, on fuel, as `run`; `false` is an IncompleteReadError, which ends it.
unfoldable pub run_async :
    ℕ → (List Bytes → Bool) → List Bytes → ℕ → Bytes → Option (Bool × List Bytes)
unfolding turn_async
run_async zero stop handled content_length stream = none
run_async (suc f) stop handled content_length stream =
    if stop handled then some (true, handled) else (elim (turn_async content_length stream) [
      | incomplete ↦ some (false, handled)
      | turns ended ↦ some (true, handled)
      | turns (again n rest) ↦ run_async f stop handled n rest
      | turns (message body rest) ↦ run_async f stop (handled ++ body ∷ []) 0 rest
    ])

is_empty-take :
    (n : ℕ) (rest : Bytes) → (n == 0) ≡ false → n ≤ length rest → is_empty (take n rest) ≡ false
is_empty-take zero rest z h = cc
is_empty-take (suc n) [] z h = absurd (omega (arith, h))
is_empty-take (suc n) (c ∷ cs) z h = refl

-- The stream ends within a body: after the header, of which the last line is blank, there is less left
-- than the content length.
pub record IsShort (n : ℕ) (header rest : Bytes) : Type 0 where
  pub line : is_empty header ≡ false
  pub blank : (not (n == 0) && is_blank header) ≡ true
  pub few : length rest < n

-- A body that is handled is complete.
abbrev Complete : ℕ → Turn → Bytes → Type 0
Complete n (message body left) rest = n ≤ length rest
Complete n _ rest = Unit

-- A round of both loops is the same, or the stream ends within the body.
read_exactly-cases :
    (n : ℕ) (header rest : Bytes)
    → ((after_header_async n header rest ≡ turns (after_header n header rest))
        × Complete n (after_header n header rest) rest)
      ⊎ ((after_header_async n header rest ≡ incomplete)
          × (after_header n header rest ≡ read_body n rest)
          × IsShort n header rest)
read_exactly-cases n header rest = elim (Bool-cases (is_empty header)) [
  | inl e ↦ inl (rw e refl, rw e tt)
  | inr e ↦ elim (Bool-cases (not (n == 0) && is_blank header)) [
    | inr b ↦ inl (rw (e, b) refl, rw (e, b) tt)
    | inl b ↦ elim (Bool-cases (ltb (length rest) n)) [
      | inl s ↦ inr (
        rw (e, b, s) refl,
        rw (e, b) refl,
        record { line = e; blank = b; few = ltb→lt (length rest) n s },
      )
      | inr s ↦
          let enough = ltb→le (length rest) n s in
          let full = is_empty-take n rest (ground arith) enough in
          inl (rw (e, b, s, full) refl, rw (e, b, full) enough)
    ]
  ]
]

module _ (stop : List Bytes → Bool) where
  -- The loop comes from a state (the bodies handled, the content length and the rest of the stream) to
  -- another, over complete bodies.
  pub data Comes : List Bytes → ℕ → Bytes → List Bytes → ℕ → Bytes → Type 0 where
    here : (l : List Bytes) (n : ℕ) (s : Bytes) → Comes l n s l n s
    after_line :
        {l l' : List Bytes} {n m n' : ℕ} {s r s' : Bytes}
        → stop l ≡ false
        → turn n s ≡ again m r
        → Comes l m r l' n' s'
        → Comes l n s l' n' s'
    after_body :
        {l l' : List Bytes} {n n' : ℕ} {s b r s' : Bytes}
        → stop l ≡ false
        → turn n s ≡ message b r
        → known_length n (readline s).0 ≤ length (readline s).1
        → Comes (l ++ b ∷ []) 0 r l' n' s'
        → Comes l n s l' n' s'

  -- With these bodies handled the loop is where the stream ends within a body, of which `short` is left.
  pub record IsCut (l : List Bytes) (n : ℕ) (s : Bytes) (before : List Bytes) (short : Bytes)
      : Type 0 where
    pub at_length : ℕ
    pub at_stream : Bytes
    pub comes : Comes l n s before at_length at_stream
    pub goes_on : stop before ≡ false
    pub left : (readline at_stream).1 ≡ short
    pub is_short :
        IsShort
          (known_length at_length (readline at_stream).0)
          (readline at_stream).0
          (readline at_stream).1

  -- Either both loops end regularly with the same bodies, or the one raises before a body that the
  -- stream cuts short, and the other handles what there is of it, if there is any.
  abbrev pub Agrees : List Bytes → ℕ → Bytes → Option (Bool × List Bytes) → List Bytes → Type 0
  Agrees l n s r hs =
      (r ≡ some (true, hs))
      ⊎ ((before : List Bytes) × (short : Bytes) × (r ≡ some (false, before))
          × IsCut l n s before short
          × (hs ≡ (if is_empty short then before else before ++ short ∷ [])))

module _ (f : ℕ) (stop : List Bytes → Bool) (handled : List Bytes) where
  -- The rest of the loops, after a round.
  abbrev after : Turn → Option (List Bytes)
  after ended = some handled
  after (again n rest) = run f stop handled n rest
  after (message body rest) = run f stop (handled ++ body ∷ []) 0 rest

  abbrev after_async : AsyncTurn → Option (Bool × List Bytes)
  after_async incomplete = some (false, handled)
  after_async (turns ended) = some (true, handled)
  after_async (turns (again n rest)) = run_async f stop handled n rest
  after_async (turns (message body rest)) = run_async f stop (handled ++ body ∷ []) 0 rest

  unfoldable IsSameLater : Type 0
  IsSameLater =
      (l hs : List Bytes) (n : ℕ) (stream : Bytes)
      → run f stop l n stream ≡ some hs
      → Agrees stop l n stream (run_async f stop l n stream) hs

  -- What agrees after a round agrees before it.
  Agrees-earlier :
      {l : List Bytes} {m n : ℕ} {r s : Bytes} (a : Option (Bool × List Bytes)) (hs : List Bytes)
      → ((before : List Bytes) (n' : ℕ) (s' : Bytes)
          → Comes stop l m r before n' s'
          → Comes stop handled n s before n' s')
      → Agrees stop l m r a hs
      → Agrees stop handled n s a hs
  Agrees-earlier a hs earlier (inl e) = inl e
  Agrees-earlier a hs earlier (inr (before, short, e, cut, k)) = inr (
    before,
    short,
    e,
    record {
      at_length = cut.at_length;
      at_stream = cut.at_stream;
      comes = earlier before cut.at_length cut.at_stream cut.comes;
      goes_on = cut.goes_on;
      left = cut.left;
      is_short = cut.is_short;
    },
    k,
  )

  Agrees-after :
      IsSameLater
      → (n : ℕ) (s : Bytes) (t : Turn) (hs : List Bytes) → stop handled ≡ false
      → turn n s ≡ t
      → Complete (known_length n (readline s).0) t (readline s).1
      → after t ≡ some hs
      → Agrees stop handled n s (after_async (turns t)) hs
  unfolding IsSameLater
  Agrees-after later n s ended hs g e c h =
      inl (ap (λ l. some (true, l)) (some-injective handled hs h))
  Agrees-after later n s (again m rest) hs g e c h =
      Agrees-earlier _ hs (λ b k t c. after_line g e c) (later handled hs m rest h)
  Agrees-after later n s (message b rest) hs g e c h =
      Agrees-earlier _ hs (λ b k t d. after_body g e c d) (later (handled ++ b ∷ []) hs 0 rest h)

  -- The end of the stream comes within the body: what is left of it is all that `read` gives.
  short-handled :
      ((l hs : List Bytes) → run f stop l 0 [] ≡ some hs → hs ≡ l)
      → (n : ℕ) (rest : Bytes) (hs : List Bytes) → length rest < n
      → after (read_body n rest) ≡ some hs
      → hs ≡ (if is_empty rest then handled else handled ++ rest ∷ [])
  short-handled nil n [] hs s h =
      let nothing : take {A = ℕ} n [] ≡ [] = take_of_length-le n [] (omega (arith, s)) in
      sym (
        some-injective handled hs (
          subst (λ t. after (if is_empty t then ended else message t (drop n [])) ≡ some hs) nothing
            h))
  short-handled nil n (c ∷ cs) hs s h =
      let all_left : take n (c ∷ cs) ≡ c ∷ cs = take_of_length-le n (c ∷ cs) (omega (arith, s)) in
      let no_more : drop n (c ∷ cs) ≡ [] = drop_of_length-le n (c ∷ cs) (omega (arith, s)) in
      nil (handled ++ (c ∷ cs) ∷ []) hs (
        subst (λ d. run f stop (handled ++ (c ∷ cs) ∷ []) 0 d ≡ some hs) no_more
          (subst (λ t. after (if is_empty t then ended else message t (drop n (c ∷ cs))) ≡ some hs)
            all_left h))

  Agrees-stop :
      (n : ℕ) (s : Bytes) (b : Bool) (t : Option (List Bytes)) (a : Option (Bool × List Bytes))
      (hs : List Bytes)
      → (b ≡ false → t ≡ some hs → Agrees stop handled n s a hs)
      → (if b then some handled else t) ≡ some hs
      → Agrees stop handled n s (if b then some (true, handled) else a) hs
  Agrees-stop n s true t a hs k h = inl (ap (λ l. some (true, l)) (some-injective handled hs h))
  Agrees-stop n s false t a hs k h = k refl h

  -- On an empty stream the loop ends.
  nil-stop :
      (b : Bool) (hs : List Bytes)
      → (if b then some handled else some handled) ≡ some hs
      → hs ≡ handled
  nil-stop true hs h = sym (some-injective handled hs h)
  nil-stop false hs h = sym (some-injective handled hs h)

run-nil :
    (f : ℕ) (stop : List Bytes → Bool) (handled hs : List Bytes)
    → run f stop handled 0 [] ≡ some hs
    → hs ≡ handled
unfolding run turn readline
run-nil zero stop handled hs h = cc
run-nil (suc f) stop handled hs h = nil-stop f stop handled (stop handled) hs h

run_async-later :
    (f : ℕ) (stop : List Bytes → Bool) (handled hs : List Bytes) (n : ℕ) (stream : Bytes)
    → run f stop handled n stream ≡ some hs
    → Agrees stop handled n stream (run_async f stop handled n stream) hs
unfolding run run_async turn turn_async IsSameLater
run_async-later zero stop handled hs n stream h = cc
run_async-later (suc f) stop handled hs n stream h =
    let k = known_length n (readline stream).0 in
    let (first, rest) = readline stream in
    let later : IsSameLater f stop handled = λ l gs m s g. run_async-later f stop l gs m s g in
    Agrees-stop f stop handled n stream (stop handled)
      (after f stop handled (after_header k first rest))
      (after_async f stop handled (after_header_async k first rest)) hs
      (λ go g. elim (read_exactly-cases k first rest) [
        | inl (same, complete) ↦ rw same (
            Agrees-after f stop handled later n stream (after_header k first rest) hs go refl
              complete g)
        | inr (cut, short, is_short) ↦ rw cut (
            inr (
              handled,
              rest,
              refl,
              record {
                at_length = n;
                at_stream = stream;
                comes = here handled n stream;
                goes_on = go;
                left = refl;
                is_short = is_short;
              },
              short-handled f stop handled (λ l gs q. run-nil f stop l gs q) k rest hs is_short.few
                  (sym (ap (λ t. after f stop handled t) short) ∙ g),
            ))
      ])
      h

-- Where the stream ends within a body, the loop raises.
IsShort-turn :
    (n : ℕ) (stream : Bytes)
    → IsShort (known_length n (readline stream).0) (readline stream).0 (readline stream).1
    → turn_async n stream ≡ incomplete
unfolding turn_async
IsShort-turn n stream h = rw (h.line, h.blank, lt→ltb _ _ h.few) refl

read_body-again : (n m : ℕ) (rest r : Bytes) → read_body n rest ≡ again m r → ⊥
read_body-again n m rest r h = elim (Bool-cases (is_empty (take n rest))) [
  | inl e ↦ cc
  | inr e ↦ cc
]

same-again : (n m : ℕ) (s r : Bytes) → turn n s ≡ again m r → turn_async n s ≡ turns (again m r)
unfolding turn turn_async
same-again n m s r h =
    elim (read_exactly-cases (known_length n (readline s).0) (readline s).0 (readline s).1) [
      | inl (same, c) ↦ same ∙ ap turns h
      | inr (cut, short, i) ↦ absurd (read_body-again _ m _ r (sym short ∙ h))
    ]

same-message :
    (n : ℕ) (s b r : Bytes)
    → turn n s ≡ message b r
    → known_length n (readline s).0 ≤ length (readline s).1
    → turn_async n s ≡ turns (message b r)
unfolding turn turn_async
same-message n s b r h c =
    elim (read_exactly-cases (known_length n (readline s).0) (readline s).0 (readline s).1) [
      | inl (same, k) ↦ same ∙ ap turns h
      | inr (cut, short, i) ↦ absurd (omega (arith, c, i.few))
    ]

IsCut-raises :
    (f : ℕ) (stop : List Bytes → Bool) (l hs : List Bytes) (n : ℕ) (s : Bytes) (before : List Bytes)
    (m : ℕ) (t : Bytes)
    → Comes stop l n s before m t
    → stop before ≡ false
    → IsShort (known_length m (readline t).0) (readline t).0 (readline t).1
    → run f stop l n s ≡ some hs
    → run_async f stop l n s ≡ some (false, before)
unfolding run run_async
IsCut-raises zero stop l hs n s before m t c g i h = cc
IsCut-raises (suc f) stop l hs n s before m t (here _ _ _) g i h = rw (g, IsShort-turn m t i) refl
IsCut-raises (suc f) stop l hs n s before m t (after_line {m = k} {r = r} go e c) g i h =
    rw (go, same-again n k s r e)
      (IsCut-raises f stop l hs k r before m t c g i (sym (rw (go, e) refl) ∙ h))
IsCut-raises (suc f) stop l hs n s before m t (after_body {b = b} {r = r} go e full c) g i h =
    rw (go, same-message n s b r e full)
      (IsCut-raises f stop (l ++ b ∷ []) hs 0 r before m t c g i (sym (rw (go, e) refl) ∙ h))

-- Enough fuel for the loop of `run` is enough for that of `run_async`, on every stream and for every
-- stop event. Either both end regularly with the same bodies handled; or the stream ends within a body:
-- the one raises with the bodies before it handled, and the other handles in addition what is left of the
-- stream after the header, if there is any. The one raises wherever the stream ends within a body, so that
-- a body which is complete is handled by both.
pub run_async-Agrees :
    (stop : List Bytes → Bool) (stream : Bytes)
    → (hs : List Bytes) × (run (suc (length stream)) stop [] 0 stream ≡ some hs)
      × Agrees stop [] 0 stream (run_async (suc (length stream)) stop [] 0 stream) hs
      × ((before : List Bytes) (short : Bytes)
          → IsCut stop [] 0 stream before short
          → run_async (suc (length stream)) stop [] 0 stream ≡ some (false, before))
run_async-Agrees stop stream =
    let (hs, h) = run_total (suc (length stream)) stop [] 0 stream (omega arith) in
    (
      hs,
      h,
      run_async-later (suc (length stream)) stop [] hs 0 stream h,
      λ before short cut.
          IsCut-raises (suc (length stream)) stop [] hs 0 stream before cut.at_length cut.at_stream
            cut.comes cut.goes_on cut.is_short h,
    )
