-- ===== src/Framing.antt =====
-- The byte stream: the header that `JsonRPCProtocol._send_data` (pygls/protocol/json_rpc.py) writes
-- before a body, and the loop of `run` and `run_async` (pygls/io_.py) that reads messages back. A
-- stream is the list of its bytes. `handle` is the body of the `try`: what is done with a message
-- is its own, and so is the error handler's, so here a body is only recorded.
use pygls.Prelude.{
  ℕ, zero, suc, ◌+◌, ◌-◌, ◌*◌, String, Bool, true, false, ◌&&◌, ◌||◌, not, List, [], ◌∷◌, ◌++◌,
  Option, none, some, ltb, leb, ◌==◌, if◌then◌else◌, length, take, drop,
}
use Prim.Native.Nat.{◌/◌, ◌%◌}
use Prim.Native.Char.{code}
use mathlib.Core.Option
pub mod Decimal
pub mod RoundTrip
pub mod Exact

abbrev pub Bytes : Type 0
Bytes = List ℕ

-- The bytes of an ASCII text.
abbrev pub codes : String → Bytes
codes String.[] = []
codes (String.◌∷◌ c s) = code c ∷ codes s

-- str(n), on fuel; the digits of `n` are at most `n + 1`.
unfoldable pub digits_fuel : ℕ → ℕ → Bytes → Bytes
digits_fuel zero n rest = rest
digits_fuel (suc f) n rest =
    let more = digits_fuel f (n / 10) ((b'0' + n % 10) ∷ rest) in
    if ltb n 10 then (b'0' + n) ∷ rest else more

unfoldable pub decimal : ℕ → Bytes
unfolding digits_fuel
decimal n = digits_fuel (suc n) n []

-- f"Content-Length: {len(body)}\r\nContent-Type: {CONTENT_TYPE}; charset={CHARSET}\r\n\r\n" + body
unfoldable pub frame : Bytes → Bytes
unfolding decimal
frame body =
    codes "Content-Length: "
    ++ (decimal (length body)
        ++ (13 ∷ 10 ∷ codes "Content-Type: application/vscode-jsonrpc; charset=utf-8"
            ++ (13 ∷ 10 ∷ 13 ∷ 10 ∷ body)))

-- reader.readline(): up to and with the next line feed, or all that is left; and the rest.
unfoldable pub readline : Bytes → Bytes × Bytes
readline [] = ([], [])
readline (c ∷ cs) =
    let (line, rest) = readline cs in if c == 10 then (10 ∷ [], cs) else (c ∷ line, rest)

strip_prefix : Bytes → Bytes → Option Bytes
strip_prefix [] s = some s
strip_prefix (p ∷ ps) [] = none
strip_prefix (p ∷ ps) (c ∷ cs) = if p == c then strip_prefix ps cs else none

abbrev pub is_crlf : Bytes → Bool
is_crlf (c ∷ d ∷ []) = c == 13 && d == 10
is_crlf _ = false

-- `(\d+)\r\n` to the end, and its number; `seen` says that a digit has been read.
unfoldable pub length_field : ℕ → Bool → Bytes → Option ℕ
length_field n seen [] = none
length_field n seen (c ∷ cs) =
    let more = length_field (n * 10 + (c - b'0')) true cs in
    if leb b'0' c && leb c b'9' then more else if seen && is_crlf (c ∷ cs) then some n else none

-- CONTENT_LENGTH_PATTERN.fullmatch(header), with `int` of its group
unfoldable pub match_length : Bytes → Option ℕ
unfolding strip_prefix length_field
match_length header =
    Option.bind (strip_prefix (codes "Content-Length: ") header) (length_field 0 false)

-- not header.strip()
unfoldable pub is_blank : Bytes → Bool
is_blank [] = true
is_blank (c ∷ cs) = (c == 32 || (leb 9 c && leb c 13)) && is_blank cs

abbrev pub is_empty : Bytes → Bool
is_empty [] = true
is_empty (c ∷ cs) = false

-- One round of the loop: it breaks, it goes on with a content length, or it has a body to handle.
pub data Turn : Type 0 where
  ended : Turn
  again : ℕ → Bytes → Turn
  message : Bytes → Bytes → Turn

abbrev pub known_length : ℕ → Bytes → ℕ
known_length content_length header =
    if content_length == 0 then Option.get_or (match_length header) 0 else content_length

abbrev pub read_body : ℕ → Bytes → Turn
read_body n rest = if is_empty (take n rest) then ended else message (take n rest) (drop n rest)

abbrev pub after_header : ℕ → Bytes → Bytes → Turn
after_header n header rest =
    if is_empty header
    then ended
    else if not (n == 0) && is_blank header
    then read_body n rest
    else again n rest

unfoldable pub turn : ℕ → Bytes → Turn
turn content_length stream =
    let (header, rest) = readline stream in
    after_header (known_length content_length header) header rest

-- The loop, on fuel. `stop` says whether the handling of the messages so far has set the stop event;
-- `none` means that the fuel ran out.
unfoldable pub run : ℕ → (List Bytes → Bool) → List Bytes → ℕ → Bytes → Option (List Bytes)
unfolding turn
run zero stop handled content_length stream = none
run (suc f) stop handled content_length stream =
    if stop handled then some handled else (elim (turn content_length stream) [
      | ended ↦ some handled
      | again n rest ↦ run f stop handled n rest
      | message body rest ↦ run f stop (handled ++ body ∷ []) 0 rest
    ])
