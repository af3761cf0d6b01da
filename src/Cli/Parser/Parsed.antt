-- ===== src/Cli/Parser/Parsed.antt =====
-- src/grpc_helper/cli.py: what a command line is parsed to.
use grpc_helper.Base.{some, List, [], arith, ◌≡◌}
use grpc_helper.Cli.{parse_config}
use grpc_helper.Cli.Parser.{
  Shell, RpcCliParser, Argument, Namespace, take_arguments, default_values, parse,
}
use grpc_helper.Errors.{ok}
use grpc_helper.Cli.Parser.Taken.{
  last_system, last_user, last_workspace, last_port, definitions, take_arguments-IsTaken,
  take_arguments-parser,
}

-- A command line that was accepted: each folder and the port are the last that was given, or the
-- default; the folders are the three of the values; the config items are the definitions in their
-- order, onto those that the parser holds.
pub record IsParsed (shell : Shell) (arguments : List Argument) (p : RpcCliParser) (n : Namespace)
    (q : RpcCliParser) : Type 0 where
  pub system : n.values.system ≡ last_system shell p.system arguments
  pub user : n.values.user ≡ last_user shell p.user arguments
  pub workspace : n.values.workspace ≡ last_workspace shell p.workspace arguments
  pub port : n.values.port ≡ last_port p.port arguments
  pub folders : n.folders ≡ record {
    system = some n.values.system;
    user = some n.values.user;
    workspace = some n.values.workspace;
  }
  pub config : parse_config (definitions arguments) p.config ≡ ok n.config
  pub parser : q ≡ record p { config = n.config }

parse-returned :
    (shell : Shell) (arguments : List Argument) (p : RpcCliParser) (n : Namespace)
    → (parse shell arguments p).0 ≡ ok n
    → let taken = take_arguments shell arguments (default_values p) p in
      (taken.0 ≡ ok n.values)
      × (n.config ≡ taken.1.config)
      × ((parse shell arguments p).1 ≡ taken.1)
      × (n.folders ≡ record {
        system = some n.values.system;
        user = some n.values.user;
        workspace = some n.values.workspace;
      })
unfolding parse
parse-returned shell arguments p n parsed = ground (arith, parsed)

parse_once :
    (shell : Shell) (arguments : List Argument) (p : RpcCliParser) (n : Namespace)
    → (parse shell arguments p).0 ≡ ok n
    → IsParsed shell arguments p n (parse shell arguments p).1
unfolding default_values
parse_once shell arguments p n parsed =
    let (taken, config, parser, folders) = parse-returned shell arguments p n parsed in
    let t = take_arguments-IsTaken shell arguments (default_values p) n.values p taken in
    record {
      system = t.0;
      user = t.1;
      workspace = t.2;
      port = t.3;
      folders = folders;
      config = ground (arith, t.4, config);
      parser =
          ground
            (arith, parser, config, take_arguments-parser shell arguments (default_values p) p);
    }

kept_config :
    (shell : Shell) (later : List Argument) (p q : RpcCliParser) (n n' : Namespace)
    → q ≡ record p { config = n.config }
    → definitions later ≡ []
    → (parse shell later q).0 ≡ ok n'
    → n'.config ≡ n.config
unfolding parse_config
kept_config shell later p q n n' same none_defined parsed =
    let again = parse_once shell later q n' parsed in
    ground (arith, same, none_defined, again.config)

-- A command line that `parse` accepts gives the last folders and the last port, or the defaults, and
-- its definitions of config items onto those that the parser holds. The parser holds them from then
-- on, since the dict is the default of the option: what one command line has defined is there in the
-- next, which gives it too if it defines nothing.
pub parse-IsParsed :
    (shell : Shell) (arguments : List Argument) (p : RpcCliParser) (n : Namespace)
    → (parse shell arguments p).0 ≡ ok n
    → IsParsed shell arguments p n (parse shell arguments p).1
      × ((later : List Argument) (n' : Namespace)
          → definitions later ≡ []
          → (parse shell later (parse shell arguments p).1).0 ≡ ok n'
          → n'.config ≡ n.config)
parse-IsParsed shell arguments p n parsed =
    let first = parse_once shell arguments p n parsed in
    (
      first,
      λ later n' none_defined parsed'.
          kept_config shell later p _ n n' first.parser none_defined parsed',
    )
