-- ===== src/Cli/Parser/Taken.antt =====
-- src/grpc_helper/cli.py: the options of a command line, one after the other.
use grpc_helper.Base.{String, List, [], ◌∷◌, value_or, arith, ◌≡◌, refl, inl, inr, Option-cases}
use grpc_helper.Base.Number.{ℤ, int}
use grpc_helper.Cli.{config_action, parse_config}
use grpc_helper.Cli.Parser.{
  Shell, RpcCliParser, Argument, system_arg, user_arg, workspace_arg, port_arg, config_arg, Values,
  take_argument, take_arguments,
}
use grpc_helper.Errors.{ok, Result-cases}

-- The last value of an option, or what it is without one.
abbrev pub last_system : Shell → String → List Argument → String
last_system shell path [] = path
last_system shell path (system_arg text ∷ rest) = last_system shell (shell.expanduser text) rest
last_system shell path (_ ∷ rest) = last_system shell path rest

abbrev pub last_user : Shell → String → List Argument → String
last_user shell path [] = path
last_user shell path (user_arg text ∷ rest) = last_user shell (shell.expanduser text) rest
last_user shell path (_ ∷ rest) = last_user shell path rest

abbrev pub last_workspace : Shell → String → List Argument → String
last_workspace shell path [] = path
last_workspace shell path (workspace_arg text ∷ rest) =
    last_workspace shell (shell.expanduser text) rest
last_workspace shell path (_ ∷ rest) = last_workspace shell path rest

abbrev pub last_port : ℤ → List Argument → ℤ
last_port port [] = port
last_port port (port_arg text ∷ rest) = last_port (value_or port (int text)) rest
last_port port (_ ∷ rest) = last_port port rest

-- The definitions of config items, in their order.
abbrev pub definitions : List Argument → List String
definitions [] = []
definitions (config_arg text ∷ rest) = text ∷ definitions rest
definitions (_ ∷ rest) = definitions rest

-- What a command line that was accepted is parsed to from some values on: the three folders, the
-- port and the items.
abbrev pub IsTaken : Shell → List Argument → Values → RpcCliParser → Values → RpcCliParser → Type 0
IsTaken shell arguments v p w q =
    (w.system ≡ last_system shell v.system arguments)
    × (w.user ≡ last_user shell v.user arguments)
    × (w.workspace ≡ last_workspace shell v.workspace arguments)
    × (w.port ≡ last_port v.port arguments)
    × (parse_config (definitions arguments) p.config ≡ ok q.config)

pub take_arguments-IsTaken :
    (shell : Shell) (arguments : List Argument) (v w : Values) (p : RpcCliParser)
    → (take_arguments shell arguments v p).0 ≡ ok w
    → IsTaken shell arguments v p w (take_arguments shell arguments v p).1
unfolding take_arguments take_argument parse_config
take_arguments-IsTaken shell [] v w p done = ground (arith, done)
take_arguments-IsTaken shell (system_arg text ∷ rest) v w p done =
    take_arguments-IsTaken shell rest (record v { system = shell.expanduser text }) w p done
take_arguments-IsTaken shell (user_arg text ∷ rest) v w p done =
    take_arguments-IsTaken shell rest (record v { user = shell.expanduser text }) w p done
take_arguments-IsTaken shell (workspace_arg text ∷ rest) v w p done =
    take_arguments-IsTaken shell rest (record v { workspace = shell.expanduser text }) w p done
take_arguments-IsTaken shell (port_arg text ∷ rest) v w p done = elim (Option-cases (int text)) [
  | inl wrong ↦ ground (arith, done, wrong)
  | inr (port, right) ↦
      let t =
        take_arguments-IsTaken shell rest (record v { port = port }) w p
          (ground (arith, done, right)) in
      ground (arith, right, t)
]
take_arguments-IsTaken shell (config_arg text ∷ rest) v w p done =
    elim (Result-cases (config_action text p.config)) [
      | inl (e, wrong) ↦ ground (arith, done, wrong)
      | inr (changed, right) ↦
          let t =
            take_arguments-IsTaken shell rest v w (record p { config = changed })
              (ground (arith, done, right)) in
          ground (arith, right, t)
    ]

take_argument-parser :
    (shell : Shell) (argument : Argument) (v : Values) (p : RpcCliParser)
    → (take_argument shell argument v p).1
      ≡ record p { config = (take_argument shell argument v p).1.config }
unfolding take_argument
take_argument-parser shell argument v p = ground arith

pub take_arguments-parser :
    (shell : Shell) (arguments : List Argument) (v : Values) (p : RpcCliParser)
    → (take_arguments shell arguments v p).1
      ≡ record p { config = (take_arguments shell arguments v p).1.config }
unfolding take_arguments
take_arguments-parser shell [] v p = refl
take_arguments-parser shell (argument ∷ rest) v p =
    elim (Result-cases (take_argument shell argument v p).0) [
      | inl (e, failed) ↦ ground (arith, failed, take_argument-parser shell argument v p)
      | inr (next, taken) ↦ ground (
        arith,
        taken,
        take_argument-parser shell argument v p,
        take_arguments-parser shell rest next (take_argument shell argument v p).1,
      )
    ]
