-- ===== src/Server/Construct/Names.antt =====
-- src/grpc_helper/server.py: the names of the services of a server.
use grpc_helper.Base.{String, List, [], ◌∷◌, arith, ◌≡◌, refl}
use grpc_helper.Base.{string_eq}
use grpc_helper.Base.Dict.{
  Dict, insert, update, from_pairs, values, NodupKeys, update-NodupKeys, from_pairs-NodupKeys,
}
use grpc_helper.Server.Construct.{Setup, server_descriptors, base_descriptors}
use grpc_helper.Server.Startup.{RpcServiceDescriptor, descriptor_pairs, all_descriptors}

-- Each entry of the dict of descriptors has the descriptor's name.
Named : Dict String RpcServiceDescriptor → Type 0
Named [] = Unit
Named ((name, d) ∷ rest) = (d.name ≡ name) × Named rest

insert-Named :
    (d : RpcServiceDescriptor) (descriptors : Dict String RpcServiceDescriptor)
    → Named descriptors
    → Named (insert d.name d descriptors)
unfolding insert Named
insert-Named d [] named = (refl, tt)
insert-Named d ((name, e) ∷ rest) (same, named) = ground (arith, same, insert-Named d rest named)

update-Named :
    (given : List RpcServiceDescriptor) (descriptors : Dict String RpcServiceDescriptor)
    → Named descriptors
    → Named (update descriptors (descriptor_pairs given))
unfolding update descriptor_pairs
update-Named [] descriptors named = named
update-Named (d ∷ given) descriptors named =
    update-Named given (insert d.name d descriptors) (insert-Named d descriptors named)

descriptor_pairs-values :
    (descriptors : Dict String RpcServiceDescriptor)
    → Named descriptors
    → descriptor_pairs (values descriptors) ≡ descriptors
unfolding descriptor_pairs Named
descriptor_pairs-values [] named = refl
descriptor_pairs-values ((name, d) ∷ rest) (same, named) =
    cc (same, descriptor_pairs-values rest named)

-- The services of a server have names of their own.
all_descriptors-NodupKeys :
    (basic given : List RpcServiceDescriptor)
    → NodupKeys (descriptor_pairs (all_descriptors basic given))
unfolding all_descriptors Named
all_descriptors-NodupKeys basic given =
    let first = from_pairs (descriptor_pairs basic) in
    let named : Named (update first (descriptor_pairs given)) =
      update-Named given first (update-Named basic [] tt) in
    rw (descriptor_pairs-values (update first (descriptor_pairs given)) named) (
      update-NodupKeys first (descriptor_pairs given)
        (from_pairs-NodupKeys (descriptor_pairs basic)))

pub server_descriptors-NodupKeys :
    (setup : Setup) → NodupKeys (descriptor_pairs (server_descriptors setup))
unfolding server_descriptors
server_descriptors-NodupKeys setup =
    all_descriptors-NodupKeys (base_descriptors setup) setup.descriptors
