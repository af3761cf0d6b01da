-- ===== src/Disk/Laws.antt =====
-- What is saved is loaded again.
use grpc_helper.Base.{
  String, ◌≡◌, refl, Option, none, some, List, [], ◌∷◌, ◌⊎◌, inl, inr, subst, arith,
}
use grpc_helper.Base.{string_eq}
use grpc_helper.Base.Dict.{lookup, lookup-insert}
use grpc_helper.Errors.{Result, ok, ok_injective, bind-eq-ok}
use grpc_helper.Disk.{
  Json, object, member_end, Disk, File, json_file, malformed, file_path, decode, checked,
  load_config, save_config, members_of, of_members,
}

pub members_of-of_members : (l : List (String × Json)) → members_of (of_members l) ≡ l
members_of-of_members [] = refl
members_of-of_members ((k, v) ∷ rest) = cc (members_of-of_members rest)

-- A model that is saved in a folder is the one that is loaded from it, if the validator takes it.
pub load_config-save_config :
    (name folder : String) (validator : Option (Json → Result (Unit {0}))) (model : Json)
    (disk : Disk)
    → load_config (some name) validator (some folder) (save_config name (some folder) model disk)
      ≡ checked validator model
unfolding load_config save_config
load_config-save_config name folder validator model disk = simp lookup-insert (ground arith)

decode-validated :
    (path : String) (validator : Json → Result (Unit {0})) (file : Option File) (model : Json)
    → decode path (some validator) file ≡ ok model
    → (model ≡ object member_end) ⊎ (validator model ≡ ok tt)
decode-validated path validator none model loaded = inl cc
decode-validated path validator (some (malformed e)) model loaded = cc
decode-validated path validator (some (json_file m)) model loaded =
    let (seen, valid, same) = bind-eq-ok (validator m) (λ u. ok m) loaded in
    inr (subst (λ (j : Json). validator j ≡ ok tt) (ok_injective same) valid)

-- What is loaded is the empty model, or one that the validator takes.
pub load_config-validated :
    (name : Option String) (validator : Json → Result (Unit {0})) (folder : Option String)
    (disk : Disk) (model : Json)
    → load_config name (some validator) folder disk ≡ ok model
    → (model ≡ object member_end) ⊎ (validator model ≡ ok tt)
unfolding load_config
load_config-validated none validator folder disk model loaded = inl cc
load_config-validated (some name) validator none disk model loaded = inl cc
load_config-validated (some name) validator (some folder) disk model loaded =
    decode-validated (file_path folder name) validator (lookup (file_path folder name) disk) model
      loaded
