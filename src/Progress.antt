-- ===== src/Progress.antt =====
-- pygls/progress.py: `Progress`, and the cancellation of progress by the client
-- (`lsp_work_done_progress_cancel`, pygls/protocol/language_server.py). The futures stand on a heap,
-- where all that matters of one is whether it is cancelled. A token is a string or an integer, as an
-- id is. `A` is the type of the values that are reported.
use pygls.Prelude.{
  ℕ, ◌+◌, Bool, true, false, List, [], ◌∷◌, ◌++◌, Option, none, some, ◌==◌, if◌then◌else◌,
}
use mathlib.Core.Option
use pygls.Prelude.Dict
use pygls.Prelude.Dict.{Dict}
use pygls.Rpc.{MsgId, id_eq}
pub mod Tracking

pub data Sent (A : Type 0) : Type 0 where
  create_request : MsgId → Sent A
  progress : MsgId → A → Sent A

pub record Progress (A : Type 0) : Type 0 where
  pub tokens : Dict MsgId ℕ
  pub cancelled : ℕ → Bool
  pub next : ℕ
  pub sent : List (Sent A)

module _ {A : Type 0} where
  unfoldable pub register_token : MsgId → Progress A → Progress A
  register_token token p = record p {
    tokens = Dict.put p.tokens token p.next;
    cancelled = λ f. if f == p.next then false else p.cancelled f;
    next = p.next + 1;
  }

  abbrev pub send : Sent A → Progress A → Progress A
  send m p = record p { sent = p.sent ++ m ∷ [] }

  -- `create` and `create_async` up to the response; `none` is the exception for a token that is
  -- registered, with which nothing changes.
  unfoldable pub create : MsgId → Progress A → Option (Progress A)
  create token p =
      if Dict.contains p.tokens token then none else some (send (create_request token) p)

  -- The response to the request of `create`.
  unfoldable pub on_created : MsgId → Progress A → Progress A
  unfolding register_token
  on_created token p = register_token token p

  unfoldable pub begin : MsgId → A → Progress A → Progress A
  unfolding register_token
  begin token value p =
      send (progress token value)
        (if Dict.contains p.tokens token then p else register_token token p)

  unfoldable pub report : MsgId → A → Progress A → Progress A
  report token value p = send (progress token value) p

  unfoldable pub end : MsgId → A → Progress A → Progress A
  end token value p = send (progress token value) p

  cancel_future : Option ℕ → Progress A → Progress A
  cancel_future none p = p
  cancel_future (some f) p = record p { cancelled = λ g. if g == f then true else p.cancelled g }

  -- lsp_work_done_progress_cancel, before the user's handler
  unfoldable pub cancel : MsgId → Progress A → Progress A
  unfolding cancel_future
  cancel token p = cancel_future (Dict.get p.tokens token) p

  -- What a worker sees at its token: no future, or one that is cancelled or not.
  abbrev pub seen : Progress A → MsgId → Option Bool
  seen p token = Option.map p.cancelled (Dict.get p.tokens token)
