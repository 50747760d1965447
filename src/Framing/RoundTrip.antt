-- ===== src/Framing/RoundTrip.antt =====
-- What `_send_data` writes, the loop of `run` reads back; and the loop ends.
use pygls.Prelude.{
  ℕ, zero, suc, ◌+◌, ◌≤◌, ◌<◌, ◌≡◌, ◌≢◌, refl, ap, ◌∙◌, Bool, false, not, ◌&&◌, List, [], ◌∷◌, ◌++◌,
  some, arith, length, take, drop, append_assoc, append-nil, ◌==◌, take-append_right,
  drop-append_right, concat, map, Bool-cases, inl, inr, if◌then◌else◌,
}
use mathlib.Core.Option
use pygls.Framing.{
  Bytes, codes, decimal, frame, readline, match_length, is_blank, is_empty, Turn, ended, again,
  message, known_length, after_header, read_body, turn, run,
}
use pygls.Framing.Decimal.{NoLf, length_field-decimal, NoLf-decimal}

readline-append :
    (line rest : Bytes) → NoLf line → readline (line ++ 10 ∷ rest) ≡ (line ++ 10 ∷ [], rest)
unfolding readline
readline-append [] rest h = refl
readline-append (c ∷ line) rest h = ground (arith, readline-append line rest h.1)

NoLf-append : (xs ys : Bytes) → NoLf xs → NoLf ys → NoLf (xs ++ ys)
NoLf-append [] ys h k = k
NoLf-append (x ∷ xs) ys h k = (h.0, NoLf-append xs ys h.1 k)

not-empty : (line : Bytes) → is_empty (line ++ 10 ∷ []) ≡ false
not-empty [] = refl
not-empty (c ∷ line) = refl

turn-header :
    (cl n : ℕ) (line rest : Bytes)
    → NoLf line
    → known_length cl (line ++ 10 ∷ []) ≡ n
    → is_blank (line ++ 10 ∷ []) ≡ false
    → turn cl (line ++ 10 ∷ rest) ≡ again n rest
unfolding turn
turn-header cl n line rest h e b = rw (readline-append line rest h) (ground (arith, not-empty line))

abbrev length_line : ℕ → Bytes
length_line n = codes "Content-Length: " ++ (decimal n ++ 13 ∷ [])

abbrev type_line : Bytes
type_line = codes "Content-Type: application/vscode-jsonrpc; charset=utf-8" ++ (13 ∷ [])

-- A header as three lines.
frame-lines :
    (body tail : Bytes)
    → frame body ++ tail
      ≡ length_line (length body) ++ 10 ∷ (type_line ++ 10 ∷ 13 ∷ 10 ∷ (body ++ tail))
unfolding frame
frame-lines body tail = simp append_assoc

match-length_line : (n : ℕ) → match_length (length_line n ++ 10 ∷ []) ≡ some n
unfolding match_length Option.bind
match-length_line n = simp append_assoc (length_field-decimal n)

read_body-append :
    (body tail : Bytes) → body ≢ [] → read_body (length body) (body ++ tail) ≡ message body tail
read_body-append body tail h =
    let t : take (length body) (body ++ tail) ≡ body =
      take-append_right body tail (length body) 0 (omega arith) ∙ append-nil body in
    let d : drop (length body) (body ++ tail) ≡ tail =
      drop-append_right body tail (length body) 0 (omega arith) in
    rw (t, d) (full body h)
  where
    full : (b : Bytes) → b ≢ [] → (if is_empty b then ended else message b tail) ≡ message b tail
    full [] k = absurd (k refl)
    full (c ∷ b) k = refl

length-ne_zero : (body : Bytes) → body ≢ [] → (length body == 0) ≡ false
length-ne_zero [] h = absurd (h refl)
length-ne_zero (c ∷ b) h = ground arith

turn-blank :
    (body tail : Bytes)
    → body ≢ []
    → turn (length body) (13 ∷ 10 ∷ (body ++ tail)) ≡ message body tail
unfolding turn readline is_blank
turn-blank body tail h = ground (arith, length-ne_zero body h, read_body-append body tail h)

turn-length_line : (n : ℕ) (rest : Bytes) → turn 0 (length_line n ++ 10 ∷ rest) ≡ again n rest
turn-length_line n rest =
    turn-header 0 n (length_line n) rest
      (NoLf-append (codes "Content-Length: ") (decimal n ++ 13 ∷ []) (omega arith)
        (NoLf-append (decimal n) (13 ∷ []) (NoLf-decimal n) (omega arith)))
      (rw (match-length_line n) refl) (unfold is_blank in refl)

turn-type_line :
    (n : ℕ) (rest : Bytes) → (n == 0) ≡ false → turn n (type_line ++ 10 ∷ rest) ≡ again n rest
turn-type_line n rest h =
    turn-header n n type_line rest (omega arith) (rw h refl) (unfold is_blank in refl)

-- The messages that are handled: all, up to the one whose handling sets the stop event.
abbrev pub served : (List Bytes → Bool) → List Bytes → List Bytes → List Bytes
served stop handled [] = handled
served stop handled (b ∷ bs) =
    let later = served stop (handled ++ b ∷ []) bs in if stop handled then handled else later

abbrev pub AllFilled : List Bytes → Type 0
AllFilled [] = Unit
AllFilled (b ∷ bs) = (b ≢ []) × AllFilled bs

abbrev pub rounds : List Bytes → ℕ
rounds [] = 1
rounds (b ∷ bs) = 3 + rounds bs

module _ (f : ℕ) (stop : List Bytes → Bool) (handled : List Bytes)
    (go_on : stop handled ≡ false) where
  run-again :
      (cl n : ℕ) (s rest : Bytes)
      → turn cl s ≡ again n rest
      → run (suc f) stop handled cl s ≡ run f stop handled n rest
  unfolding run
  run-again cl n s rest e = rw (go_on, e) refl

  run-message :
      (cl : ℕ) (s body rest : Bytes)
      → turn cl s ≡ message body rest
      → run (suc f) stop handled cl s ≡ run f stop (handled ++ body ∷ []) 0 rest
  unfolding run
  run-message cl s body rest e = rw (go_on, e) refl

run-frame :
    (f : ℕ) (stop : List Bytes → Bool) (handled : List Bytes) (body tail : Bytes)
    → body ≢ []
    → stop handled ≡ false
    → run (suc (suc (suc f))) stop handled 0 (frame body ++ tail)
      ≡ run f stop (handled ++ body ∷ []) 0 tail
run-frame f stop handled body tail h go_on =
    let n = length body in
    let rest = 13 ∷ 10 ∷ (body ++ tail) in
    ap (run (suc (suc (suc f))) stop handled 0) (frame-lines body tail)
    ∙ run-again (suc (suc f)) stop handled go_on 0 n _ (type_line ++ 10 ∷ rest)
        (turn-length_line n (type_line ++ 10 ∷ rest))
    ∙ run-again (suc f) stop handled go_on n n _ rest
        (turn-type_line n rest (length-ne_zero body h))
    ∙ run-message f stop handled go_on n rest body tail (turn-blank body tail h)

-- The loop of `run`, on the stream that `_send_data` writes for some bodies, handles exactly these
-- bodies, in order and whole, up to the one whose handling sets the stop event. Three rounds of the
-- loop for each body, and one at the end, are enough.
pub run-frames :
    (f : ℕ) (stop : List Bytes → Bool) (handled bodies : List Bytes)
    → AllFilled bodies
    → rounds bodies ≤ f
    → run f stop handled 0 (concat (map frame bodies)) ≡ some (served stop handled bodies)
run-frames zero stop handled [] h e = absurd (omega arith)
run-frames (suc f) stop handled [] h e = elim (Bool-cases (stop handled)) [
  | inl s ↦ unfold run turn readline in rw s refl
  | inr s ↦ unfold run turn readline match_length in rw s refl
]
run-frames zero stop handled (b ∷ bs) h e = absurd (omega arith)
run-frames (suc zero) stop handled (b ∷ bs) h e = absurd (omega arith)
run-frames (suc (suc zero)) stop handled (b ∷ bs) h e = absurd (omega arith)
run-frames (suc (suc (suc f))) stop handled (b ∷ bs) h e = elim (Bool-cases (stop handled)) [
  | inl s ↦ unfold run in rw s refl
  | inr s ↦
      run-frame f stop handled b (concat (map frame bs)) h.0 s
      ∙ run-frames f stop (handled ++ b ∷ []) bs h.1 (omega arith)
      ∙ (rw s refl)
]

length-readline : (s : Bytes) → length (readline s).0 + length (readline s).1 ≡ length s
unfolding readline
length-readline [] = omega arith
length-readline (c ∷ cs) = ground (arith, length-readline cs)

length-drop-le : (n : ℕ) (s : Bytes) → length (drop n s) ≤ length s
length-drop-le zero s = omega arith
length-drop-le (suc n) [] = omega arith
length-drop-le (suc n) (c ∷ s) = omega (arith, length-drop-le n s)

-- A round that goes on has read something.
abbrev Shorter : ℕ → Turn → Type 0
Shorter k ended = Unit
Shorter k (again n rest) = length rest < k
Shorter k (message body rest) = length rest < k

Shorter-after_header :
    (k n : ℕ) (header rest : Bytes)
    → length header + length rest ≤ k
    → Shorter k (after_header n header rest)
Shorter-after_header k n [] rest h = tt
Shorter-after_header k n (c ∷ header) rest h =
    elim (Bool-cases (not (n == 0) && is_blank (c ∷ header))) [
      | inl e ↦ rw e (elim (Bool-cases (is_empty (take n rest))) [
        | inl m ↦ rw m tt
        | inr m ↦ rw m (omega (arith, length-drop-le n rest))
      ])
      | inr e ↦ rw e (omega arith)
    ]

Shorter-turn : (cl : ℕ) (s : Bytes) → Shorter (length s) (turn cl s)
unfolding turn
Shorter-turn cl s =
    Shorter-after_header (length s) (known_length cl (readline s).0) (readline s).0 (readline s).1
      (omega (arith, length-readline s))

-- The loop ends on every stream, well formed or not: it never takes more rounds than there are
-- bytes, and one more.
pub run_total :
    (f : ℕ) (stop : List Bytes → Bool) (handled : List Bytes) (content_length : ℕ) (stream : Bytes)
    → length stream < f
    → (messages : List Bytes) × (run f stop handled content_length stream ≡ some messages)
unfolding run
run_total zero stop handled cl stream h = absurd (omega arith)
run_total (suc f) stop handled cl stream h = elim (Bool-cases (stop handled)) [
  | inl s ↦ (handled, rw s refl)
  | inr s ↦
      rw s (
        next (λ hd n rest p. run_total f stop hd n rest p) (turn cl stream)
          (Shorter-turn cl stream))
]
  where
    next :
        ((hd : List Bytes) (n : ℕ) (rest : Bytes)
          → length rest < f
          → (messages : List Bytes) × (run f stop hd n rest ≡ some messages))
        → (t : Turn) → Shorter (length stream) t
        → (messages : List Bytes) × ((elim t [
          | ended ↦ some handled
          | again n rest ↦ run f stop handled n rest
          | message body rest ↦ run f stop (handled ++ body ∷ []) 0 rest
        ])
            ≡ some messages)
    next ih ended k = (handled, refl)
    next ih (again n rest) k = ih handled n rest (omega arith)
    next ih (message body rest) k = ih (handled ++ body ∷ []) 0 rest (omega arith)
