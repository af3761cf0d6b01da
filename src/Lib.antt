-- ===== src/Lib.antt =====
-- grpc-helper: a library for RPC servers and clients with shared services for configuration, logs,
-- events and proxies. These files model its Python package, src/grpc_helper, and prove properties
-- of the model.
--
-- The parts of the program, and how they interact:
-- - An RPC server (server.py) has services, each with a manager, or a proxy of a service of another
-- server, which registers it with a request. Its methods (methods.py) check the client's API
-- version, wait for a proxy that is not registered yet, and delegate the call.
-- - A client (client.py) sends its metadata (meta.py) with each call, and tries again while a
-- server is unavailable.
-- - The configuration manager (config/cfg_manager.py) builds the items (config/cfg_item.py) of a
-- server from the command line (cli.py), the environment and the files of three folders, and serves
-- requests on them, passing on those for the servers of its proxies.
-- - The events manager (events/events_manager.py) puts events into queues, one for each listener; a
-- listener (events/events_listener.py) reads its queue through a streaming call.
-- - The logs manager (logs/logs_manager.py) sets levels of loggers and persists them.
--
-- Which file models what:
-- - Base: lists, options, dicts in insertion order, texts, `int(text)` and `str(number)`.
-- - Errors: errors.py, results that may raise, and methods that change a state and may raise.
-- - Disk: folders.py, and `_load_config` and `_save_config` of manager.py.
-- - Config/Item: cfg_item.py. Config/Env, Config/Startup: the constructor of `ConfigManager` with
-- its layers. Config/Requests: its `get`, `set` and `reset`. Config/Static: static_config.py.
-- - Events/Manager: `EventsManager`; its Startup is `_init_folders_n_logger`, its Listening the
-- loop of `listen`, its Steps all changes as a relation, its Closing `_shutdown` against
-- `__keep_alive`. Its Mailboxes is a specification without references and files, which its children
-- relate to the code. Events/Listener: `EventsListener`.
-- - Server/Services, Server/Registry: the infos of an `RpcServer`, `info`, `proxy_register` and
-- `proxy_forget`. Server/Servicer: `RpcServicer`, and `is_streaming` of utils.py. Server/Startup:
-- the infos that the constructor builds; its Runs has requests on proxies between two starts.
-- Server/Construct: the constructor as a whole. Server/Lifecycle: the loading of the managers, and
-- `shutdown`. Server/Termination: `__finalize_shutdown`, `is_running` and `wait_shutdown`.
-- Server/Loggers: the loggers of a server from its start to its end. Server/Proxied:
-- `_proxied_servers` of manager.py, and what `RpcProxiedManager` does with the main server.
-- - Managers: `RpcManager` and the client of `RpcProxiedManager` of manager.py.
-- - Calls/Metadata: meta.py. Calls/Trace: the traces of utils.py. Calls/Method: methods.py; its
-- Schedule has calls of several threads. Calls/Chain: both sides of the call of a proxied service.
-- Calls/Client: the retries of client.py; its Construct is the constructor of `RpcClient`, with
-- `get_current_ip` of utils.py.
-- - Logs: logs_manager.py; its Restart is `_load` after `set`. Logs/Handlers: logs/logs_utils.py.
-- - Cli: the option `--config` of cli.py. Cli/Parser: `RpcCliParser`.
-- - Tests: runs at concrete data.
--
-- How the code is modelled:
-- - A method of an object is a function from its state to a result and a new state; an exception is
-- a result, and what was changed before it stays changed. Methods under the lock are single steps,
-- and so is `interrupt`, which takes the lock twice. The queues of the events manager and the
-- messages of the services are shared objects: the former are references into a dict of objects,
-- the latter are changed in the dict by their names.
-- - A file is its decoded JSON value, or the text of the decoding error. Texts are read as ASCII by
-- `int`, by the names of environment variables and by the interval units. Floats are a parameter
-- with `float(text)` and the test for being above zero. Times are numbers of clock ticks.
-- - IDs of queues and listeners are at least 0: a negative client ID is taken like 0 by `listen`. A
-- negative index in a hand-written file of queues is passed over.
-- - Sets are lists without repetition, of which only the elements count.
-- - Loops that wait run on fuel: the wait for a proxy and the retries of a client need one round
-- more than the timeout has ticks, since time passes in each round; the search for a free index
-- needs one round more than there are queues; a listener's loop one round more than its queue has
-- entries; the last calls of a server that ends need one more than are answered, and the attempts
-- of Calls/Chain more than come before the one that reaches the server.
-- - The managers and the gRPC server that the constructor of `RpcServer` calls act on a world,
-- which is a parameter with the operations that the constructor uses.
--
-- What is not modelled: the writing of log output, the making of directories, the dump of debug
-- information on a signal, sockets, and threads other than those of Events/Manager/Closing and
-- Calls/Method/Schedule; the gRPC library and the generated stubs, which are parameters; the
-- splitting of the command line into options by argparse, and its help. Paths are texts, which are
-- joined but not normalised. The package files only pass names on.
pub mod Base
pub mod Errors
pub mod Disk
pub mod Config
pub mod Events
pub mod Server
pub mod Managers
pub mod Calls
pub mod Logs
pub mod Cli
mod Tests
