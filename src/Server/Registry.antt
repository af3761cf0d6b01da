-- ===== src/Server/Registry.antt =====
-- src/grpc_helper/server.py: the requests `proxy_register` and `proxy_forget` of `RpcServer`. The
-- lock makes the change and the writing of the file one step.
pub mod Changes
pub mod Outcomes
use grpc_helper.Base.{String, Bool, ◌||◌, Option, List, [], ◌∷◌, if◌then◌else◌, ◌==◌}
use grpc_helper.Base.{string_eq}
use grpc_helper.Base.Number.{is_zero, str_ℤ}
use grpc_helper.Base.Text.{join}
use grpc_helper.Disk.{object, Disk, save_config, of_members}
use grpc_helper.Errors.{ok, rpc_exception, error_param_missing, raise_if}
use grpc_helper.Errors.Method.{Method, lift, gets, modify, ◌>>=◌, ◌>>◌}
use grpc_helper.Server.Services.{
  ProxyRegisterRequest, Services, proxy_file, check_proxy_names, proxies_model, change_services,
  register, forget,
}

-- The server's own client: whether it has the events service, and what a call of its `send` does in
-- the world of that service.
pub record EventClient : Type 1 where
  pub World : Type 0
  pub has_events : Bool
  pub send : String → List (String × String) → Method World (Unit {0})

pub record RpcServer (C : EventClient) : Type 0 where
  pub infos : Services
  pub workspace : Option String
  pub disk : Disk
  pub world : C.World

module _ (C : EventClient) where
  -- `__persist_proxies`
  unfoldable pub persist_proxies : RpcServer C → RpcServer C
  unfolding proxies_model
  persist_proxies s = record s {
    disk = save_config proxy_file s.workspace (object (of_members (proxies_model s.infos))) s.disk;
  }

  -- `if self.__can_send_events: self.client.events.send(...)`
  unfoldable pub send_event : String → List (String × String) → Method (RpcServer C) (Unit {0})
  send_event name properties s =
      if C.has_events
      then (let (r, world) = C.send name properties s.world in (r, record s { world = world }))
      else (ok tt, s)

  -- `proxy_register`
  unfoldable pub proxy_register : ProxyRegisterRequest → Method (RpcServer C) (Unit {0})
  unfolding change_services register persist_proxies send_event
  proxy_register request = do
    infos ← gets (λ s. s.infos)
    lift (check_proxy_names request.names infos)
    lift (
        raise_if (request.version == "" || is_zero request.port) (
          rpc_exception "Missing input parameter in request (one of version or port)"
            error_param_missing))
    modify (λ s. record s { infos = change_services (register request) request.names s.infos })
    modify persist_proxies
    send_event "RPC_PROXY_REGISTER" (
        ("names", join "," request.names)
        ∷ ("version", request.version)
        ∷ ("port", str_ℤ request.port)
        ∷ ("host", request.host)
        ∷ [])

  -- `proxy_forget`
  unfoldable pub proxy_forget : List String → Method (RpcServer C) (Unit {0})
  unfolding change_services forget persist_proxies send_event
  proxy_forget names = do
    infos ← gets (λ s. s.infos)
    lift (check_proxy_names names infos)
    modify (λ s. record s { infos = change_services forget names s.infos })
    modify persist_proxies
    send_event "RPC_PROXY_FORGET" (("names", join "," names) ∷ [])
