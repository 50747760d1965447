-- ===== src/Command.antt =====
-- Commands of the user (pygls/protocol/language_server.py): `_prepare_command_arguments` and
-- `lsp_workspace__execute_command` up to the call of the handler. `V` is the type of the arguments and
-- `structure` is lsprotocol's converter, where `none` is an exception.
use pygls.Prelude.{
  ℕ, String, Bool, true, false, List, [], ◌∷◌, ◌++◌, Option, none, some, if◌then◌else◌,
}
use pygls.Prelude.Eq.{string_eq}
use pygls.Prelude.Dict
use pygls.Prelude.Dict.{Dict}
pub mod Arguments

-- A parameter of the handler: whether it takes the server (by its name or its annotation), whether
-- it is `*args`, and its annotation.
pub record Param : Type 0 where
  pub takes_server : Bool
  pub var_positional : Bool
  pub ptype : Option String

pub data Prepared (V : Type 0) : Type 0 where
  arguments : List V → Prepared V
  type_error structure_error : Prepared V

-- What a request to execute a command comes to: the call of a handler with arguments, or an error for
-- invalid params, because there is no such command or its arguments do not fit.
pub data Execution (H V : Type 0) : Type 0 where
  call : H → List V → Execution H V
  invalid_params : Execution H V

-- The first parameter is passed over if it takes the server.
abbrev pub without_server : List Param → List Param
without_server [] = []
without_server (p ∷ params) = if p.takes_server then params else p ∷ params

unfoldable pub called : {H V : Type 0} → H → Prepared V → Execution H V
called handler (arguments args) = call handler args
called handler type_error = invalid_params
called handler structure_error = invalid_params

module _ {V : Type 0} (structure : V → Option String → Option V) where
  -- The loop over the parameters, with the values that are left and the arguments so far.
  unfoldable pub bind : List Param → List V → List V → Prepared V
  bind [] [] args = arguments args
  bind [] (v ∷ vals) args = type_error
  bind (p ∷ params) [] args =
      let rest = bind params [] args in if p.var_positional then rest else type_error
  bind (p ∷ params) (v ∷ vals) args =
      let rest = bind params [] (args ++ v ∷ vals) in
      if p.var_positional then rest else (elim (structure v p.ptype) [
        | none ↦ structure_error
        | some x ↦ bind params vals (args ++ x ∷ [])
      ])

  -- `_prepare_command_arguments`
  unfoldable pub prepare : List Param → Option (List V) → Prepared V
  unfolding bind
  prepare params none = arguments []
  prepare params (some vals) = bind (without_server params) vals []

  -- The commands with their parameters, which `inspect` reads off the handlers.
  unfoldable pub execute_found :
      {H : Type 0} → (H → List Param) → Option H → Option (List V) → Execution H V
  unfolding prepare called
  execute_found parameters none vals = invalid_params
  execute_found parameters (some handler) vals = called handler (prepare (parameters handler) vals)

  unfoldable pub execute_command :
      {H : Type 0} → (H → List Param) → Dict String H → String → Option (List V) → Execution H V
  unfolding execute_found
  execute_command parameters commands name vals =
      execute_found parameters (Dict.get commands name) vals
