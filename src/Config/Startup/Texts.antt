-- ===== src/Config/Startup/Texts.antt =====
-- A dict of texts that is saved as the config file is loaded again as it was.
use grpc_helper.Base.{
  String, true, false, not, some, List, [], ◌∷◌, map_option, any, ◌≡◌, refl, arith,
}
use grpc_helper.Base.{string_eq}
use grpc_helper.Base.Dict
use grpc_helper.Base.Dict.{
  Dict, lookup, NodupKeys, from_pairs, from_pairs-NodupKeys, lookup-from_pairs,
}
use grpc_helper.Config.Startup.{
  config_file, texts_of, text_entries, is_text, load_texts, validate_config_file,
}
use grpc_helper.Disk.{Json, text, object, Disk, save_config, of_members}
use grpc_helper.Disk.Laws.{load_config-save_config, members_of-of_members}
use grpc_helper.Errors.{ok}

-- A list of texts is saved as a model that the validator takes, and is read back.
abbrev pub AllText : List (String × Json) → Type 0
AllText [] = Unit
AllText ((k, v) ∷ rest) = (is_text v ≡ true) × AllText rest

pub is_text-text : (t : String) → is_text (text t) ≡ true
unfolding is_text
is_text-text t = refl

insert-AllText :
    (k : String) (v : Json) (d : List (String × Json))
    → is_text v ≡ true
    → AllText d
    → AllText (Dict.insert k v d)
unfolding Dict.insert
insert-AllText k v [] h all = (h, tt)
insert-AllText k v ((j, w) ∷ d) h (hw, all) = ground (arith, insert-AllText k v d h all)

update-AllText :
    (d new : List (String × Json)) → AllText d → AllText new → AllText (Dict.update d new)
unfolding Dict.update
update-AllText d [] hd hn = hd
update-AllText d ((k, v) ∷ new) hd (hv, hn) =
    update-AllText (Dict.insert k v d) new (insert-AllText k v d hv hd) hn

abbrev pub text_of : Json → String
text_of (text t) = t
text_of _ = ""

lookup-text_entries :
    (k : String) (l : List (String × Json))
    → AllText l
    → lookup k (text_entries l) ≡ map_option text_of (lookup k l)
unfolding text_entries lookup is_text
lookup-text_entries k [] all = refl
lookup-text_entries k ((n, text t) ∷ rest) (h, all) = ground (arith, lookup-text_entries k rest all)
lookup-text_entries k ((n, _) ∷ rest) (h, all) = cc

text_entries-NodupKeys :
    (l : List (String × Json)) → AllText l → NodupKeys l → NodupKeys (text_entries l)
unfolding text_entries is_text
text_entries-NodupKeys [] all u = tt
text_entries-NodupKeys ((n, text t) ∷ rest) (h, all) (fresh, u) =
    ground (arith, text_entries-NodupKeys rest all u, lookup-text_entries n rest all)
text_entries-NodupKeys ((n, _) ∷ rest) (h, all) (fresh, u) = cc

any-AllText : (l : List (String × Json)) → AllText l → any (λ (name, v). not (is_text v)) l ≡ false
any-AllText [] all = refl
any-AllText ((n, v) ∷ rest) (h, all) = ground (arith, any-AllText rest all)

-- What `load_config` gives for a saved list of texts.
text_model : List (String × Json) → Json
text_model pairs = object (of_members (from_pairs pairs))

texts_of-text_model :
    (pairs : List (String × Json))
    → texts_of (text_model pairs) ≡ from_pairs (text_entries (from_pairs pairs))
unfolding texts_of text_model
texts_of-text_model pairs = rw members_of-of_members

from_pairs-AllText : (pairs : List (String × Json)) → AllText pairs → AllText (from_pairs pairs)
from_pairs-AllText pairs all = update-AllText [] pairs tt all

validate_config_file-text_model :
    (pairs : List (String × Json)) → AllText pairs → validate_config_file (text_model pairs) ≡ ok tt
unfolding validate_config_file text_model
validate_config_file-text_model pairs all =
    rw (members_of-of_members, any-AllText (from_pairs pairs) (from_pairs-AllText pairs all))

-- A saved list of texts is loaded as a dict with the same entries.
pub load_texts-save_config :
    (folder : String) (pairs : List (String × Json)) (disk : Disk)
    → AllText pairs
    → NodupKeys pairs
    → (currents : Dict String String) × (load_texts
          (some folder)
          (save_config config_file (some folder) (object (of_members (from_pairs pairs))) disk)
        ≡ ok currents)
      × ((k : String) → lookup k currents ≡ map_option text_of (lookup k pairs))
unfolding load_texts text_model
load_texts-save_config folder pairs disk all u = (
  texts_of (text_model pairs),
  rw (load_config-save_config, validate_config_file-text_model pairs all),
  λ k.
      rw
        (
          texts_of-text_model,
          lookup-from_pairs k (text_entries (from_pairs pairs)) (
              text_entries-NodupKeys (from_pairs pairs) (from_pairs-AllText pairs all)
                (from_pairs-NodupKeys pairs)),
          lookup-text_entries k (from_pairs pairs) (from_pairs-AllText pairs all),
          lookup-from_pairs k pairs u,
        )
        refl,
)
