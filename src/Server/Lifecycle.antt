-- ===== src/Server/Lifecycle.antt =====
-- src/grpc_helper/server.py: the loading of the managers at the end of the constructor of
-- `RpcServer`, and `shutdown`.
use grpc_helper.Base.{Bool, true, false, List, [], ◌∷◌, if◌then◌else◌, arith, ◌≡◌}
use grpc_helper.Errors.{ok, raised, is_ok}
use grpc_helper.Errors.Method.{Method}

-- What the server calls: the loading and the shutdown of a manager that is no proxy, the stop of the
-- gRPC server, and the rest of the termination, up to the shutdown event.
pub record Managers : Type 1 where
  pub World : Type 0
  pub Manager : Type 0
  pub preload : Manager → Method World (Unit {0})
  pub shutdown : Manager → Method World (Unit {0})
  pub stop : World → World
  pub finalize : World → World

-- Whether `self.__server` is set, and the world of the managers.
pub record Running (M : Managers) : Type 0 where
  pub serving : Bool
  pub world : M.World

module _ (M : Managers) where
  -- A loop over the managers that ends at the first exception.
  unfoldable pub each :
      (M.Manager → Method M.World (Unit {0})) → List M.Manager → Method M.World (Unit {0})
  each action [] world = (ok tt, world)
  each action (m ∷ rest) world =
      let (r, after) = action m world in
      elim r [ raised e ↦ (raised e, after) | ok _ ↦ each action rest after ]

  -- `shutdown`
  unfoldable pub shutdown_server : List M.Manager → Method (Running M) (Unit {0})
  unfolding each
  shutdown_server managers s =
      if s.serving
      then (let (r, after) = each M.shutdown managers (M.stop s.world) in
          elim r [
            | raised e ↦ (raised e, record { serving = false; world = after })
            | ok _ ↦ (ok tt, record { serving = false; world = M.finalize after })
          ])
      else (ok tt, s)

  -- The loop that loads the managers; after an exception the server is shut down.
  unfoldable pub load_managers : List M.Manager → Method (Running M) (Unit {0})
  unfolding each shutdown_server
  load_managers managers s =
      let (r, after) = each M.preload managers s.world in
      let loaded : Running M = record s { world = after } in
      elim r [
        | ok _ ↦ (ok tt, loaded)
        | raised e ↦
            let (closed, ended) = shutdown_server managers loaded in
            elim closed [ raised other ↦ (raised other, ended) | ok _ ↦ (raised e, ended) ]
      ]

  shutdown_server-serving :
      (managers : List M.Manager) (s : Running M) → (shutdown_server managers s).1.serving ≡ false
  unfolding shutdown_server
  shutdown_server-serving managers s = ground arith

  -- After a shutdown, whether it returned or raised, another one returns and does nothing.
  pub shutdown_server_twice :
      (managers : List M.Manager) (s : Running M)
      → shutdown_server managers (shutdown_server managers s).1
        ≡ (ok tt, (shutdown_server managers s).1)
  unfolding shutdown_server
  shutdown_server_twice managers s = ground (arith, shutdown_server-serving managers s)

  -- The loading of the managers of a serving server returns exactly if the server still serves
  -- after it; it does so exactly if every manager was loaded.
  pub load_managers-serving :
      (managers : List M.Manager) (s : Running M)
      → s.serving ≡ true
      → ((load_managers managers s).1.serving ≡ is_ok (load_managers managers s).0)
        × (is_ok (load_managers managers s).0 ≡ is_ok (each M.preload managers s.world).0)
  unfolding load_managers
  load_managers-serving managers s serves =
      let loaded : Running M = record s { world = (each M.preload managers s.world).1 } in
      ground (arith, shutdown_server-serving managers loaded, serves)
