-- ===== src/Base/Dict.antt =====
-- Python's `dict`, in insertion order. Proofs elsewhere go by the laws.
use grpc_helper.Base.{
  ◌≡◌, refl, Bool, true, Option, none, some, List, [], ◌∷◌, ◌++◌, arith, false, ◌||◌,
}
use grpc_helper.Base.{Eq, ◌==◌, contains, if◌then◌else◌, first_some, is_some, absent, sym, ap, ◌∙◌}

abbrev pub Dict {ℓ κ} : Type ℓ → Type κ → Type (ℓ ⊔ κ)
Dict K V = List (K × V)

module _ {ℓ κ} {K : Type ℓ} {V : Type κ} where
  abbrev pub keys : Dict K V → List K
  keys [] = []
  keys ((k, v) ∷ d) = k ∷ keys d

  abbrev pub values : Dict K V → List V
  values [] = []
  values ((k, v) ∷ d) = v ∷ values d

pub append_nil {ℓ} : {A : Type ℓ} (l : List A) → l ≡ l ++ []
append_nil [] = refl
append_nil (a ∷ l) = cc (append_nil l)

module _ {ℓ κ} {K : Type ℓ} {V : Type κ} ⦃e : Eq K⦄ where
  -- `d.get(k)`; `d[k]` where the key is known to be there
  unfoldable pub lookup : K → Dict K V → Option V
  lookup k [] = none
  lookup k ((j, v) ∷ d) = if k == j then some v else lookup k d

  -- `k in d`
  abbrev pub has : K → Dict K V → Bool
  has k d = is_some (lookup k d)

  -- `d[k] = v`: an old key keeps its place
  unfoldable pub insert : K → V → Dict K V → Dict K V
  insert k v [] = (k, v) ∷ []
  insert k v ((j, w) ∷ d) = if k == j then (j, v) ∷ d else (j, w) ∷ insert k v d

  -- `del d[k]`
  unfoldable pub erase : K → Dict K V → Dict K V
  erase k [] = []
  erase k ((j, w) ∷ d) = let rest = erase k d in if k == j then rest else (j, w) ∷ rest

  -- `d.update(new)`
  unfoldable pub update : Dict K V → Dict K V → Dict K V
  update d [] = d
  update d ((k, v) ∷ new) = update (insert k v d) new

  -- `{k: v for k, v in pairs}`
  abbrev pub from_pairs : List (K × V) → Dict K V
  from_pairs pairs = update [] pairs

  -- A key is there once, as in every real `dict`.
  abbrev pub NodupKeys : Dict K V → Type κ
  NodupKeys [] = Unit
  NodupKeys ((k, v) ∷ d) = (lookup k d ≡ none) × NodupKeys d

  pub lookup-nil : (k : K) → lookup k [] ≡ none
  unfolding lookup
  lookup-nil k = refl

  pub lookup-cons :
      (j k : K) (v : V) (d : Dict K V)
      → lookup j ((k, v) ∷ d) ≡ (if j == k then some v else lookup j d)
  unfolding lookup
  lookup-cons j k v d = refl

  pub lookup-insert :
      (j k : K) (v : V) (d : Dict K V)
      → lookup j (insert k v d) ≡ (if j == k then some v else lookup j d)
  unfolding insert lookup
  lookup-insert j k v [] = lookup-cons j k v []
  lookup-insert j k v (_ ∷ d) = ground (arith, lookup-insert j k v d)

  pub lookup-erase :
      (j k : K) (d : Dict K V) → lookup j (erase k d) ≡ (if j == k then none else lookup j d)
  unfolding erase lookup
  lookup-erase j k [] = ground arith
  lookup-erase j k (_ ∷ d) = ground (arith, lookup-erase j k d)

  pub insert-NodupKeys : (k : K) (v : V) (d : Dict K V) → NodupKeys d → NodupKeys (insert k v d)
  unfolding insert
  insert-NodupKeys k v [] _ = (lookup-nil k, tt)
  insert-NodupKeys k v ((j, _) ∷ d) (fresh, u) =
      ground (arith, insert-NodupKeys k v d u, lookup-insert j k v d)

  pub erase-NodupKeys : (k : K) (d : Dict K V) → NodupKeys d → NodupKeys (erase k d)
  unfolding erase
  erase-NodupKeys k [] _ = tt
  erase-NodupKeys k ((j, _) ∷ d) (fresh, u) =
      ground (arith, erase-NodupKeys k d u, lookup-erase j k d)

  pub update-NodupKeys : (d new : Dict K V) → NodupKeys d → NodupKeys (update d new)
  unfolding update
  update-NodupKeys d [] u = u
  update-NodupKeys d ((k, v) ∷ new) u =
      update-NodupKeys (insert k v d) new (insert-NodupKeys k v d u)

  -- A layer over another: the new value where it has one, and else the old one.
  pub lookup-update :
      (k : K) (d new : Dict K V)
      → NodupKeys new
      → lookup k (update d new) ≡ first_some (lookup k new) (lookup k d)
  unfolding update lookup
  lookup-update k d [] u = refl
  lookup-update k d ((j, v) ∷ new) (fresh, u) =
      ground (arith, lookup-update k (insert j v d) new u, lookup-insert k j v d)

  pub from_pairs-NodupKeys : (pairs : List (K × V)) → NodupKeys (from_pairs pairs)
  from_pairs-NodupKeys pairs = update-NodupKeys [] pairs tt

  pub lookup-from_pairs :
      (k : K) (pairs : List (K × V))
      → NodupKeys pairs
      → lookup k (from_pairs pairs) ≡ lookup k pairs
  lookup-from_pairs k pairs u = ground (arith, lookup-update k [] pairs u, lookup-nil k)

  insert_fresh :
      (k : K) (v : V) (d : Dict K V) → has k d ≡ false → insert k v d ≡ d ++ ((k, v) ∷ [])
  unfolding insert lookup
  insert_fresh k v [] h = refl
  insert_fresh k v ((j, w) ∷ d) h = ground (arith, insert_fresh k v d)

  has-append : (k j : K) (v : V) (d : Dict K V) → has k (d ++ ((j, v) ∷ [])) ≡ (has k d || k == j)
  unfolding lookup
  has-append k j v [] = ground arith
  has-append k j v (_ ∷ d) = ground (arith, has-append k j v d)

  append_cons :
      (d new : Dict K V) (k : K) (v : V) → (d ++ ((k, v) ∷ [])) ++ new ≡ d ++ ((k, v) ∷ new)
  append_cons [] new k v = refl
  append_cons (entry ∷ d) new k v = cc (append_cons d new k v)

  update_fresh :
      (d new : Dict K V)
      → NodupKeys new
      → ((k : K) → has k new ≡ true → has k d ≡ false)
      → update d new ≡ d ++ new
  unfolding update lookup
  update_fresh d [] u apart = append_nil d
  update_fresh d ((k, v) ∷ new) (fresh, u) apart =
      rw (insert_fresh k v d (apart k (ground arith)), sym (append_cons d new k v))
        (update_fresh (d ++ ((k, v) ∷ [])) new u
          (λ j known. ground (arith, apart j, has-append j k v d, fresh)))

  -- A dict of pairs whose keys differ has just these pairs.
  pub from_pairs_distinct : (pairs : List (K × V)) → NodupKeys pairs → from_pairs pairs ≡ pairs
  unfolding lookup
  from_pairs_distinct pairs u = update_fresh [] pairs u (λ k known. refl)

  pub contains-keys : (d : Dict K V) (k : K) → contains (keys d) k ≡ has k d
  unfolding lookup
  contains-keys [] k = refl
  contains-keys (_ ∷ d) k = ground (arith, contains-keys d k)

  pub keys-insert : (k : K) (v : V) (d : Dict K V) → has k d ≡ true → keys (insert k v d) ≡ keys d
  unfolding insert lookup
  keys-insert k v [] h = cc
  keys-insert k v ((j, w) ∷ d) h = ground (arith, keys-insert k v d)

  pub lookup_head : (k : K) (v : V) (d : Dict K V) → lookup k ((k, v) ∷ d) ≡ some v
  unfolding lookup
  lookup_head k v d = ground arith

-- What has the same keys has each of them as often.
module _ {ℓ κ ν} {K : Type ℓ} {V : Type κ} {W : Type ν} ⦃e : Eq K⦄ where
  pub has-keys : (k : K) (d : Dict K V) (c : Dict K W) → keys d ≡ keys c → has k d ≡ has k c
  has-keys k d c same =
      sym (contains-keys d k) ∙ ap (λ (names : List K). contains names k) same ∙ contains-keys c k

  pub NodupKeys-keys : (d : Dict K V) (c : Dict K W) → keys d ≡ keys c → NodupKeys c → NodupKeys d
  NodupKeys-keys [] c same u = tt
  NodupKeys-keys ((k, v) ∷ d) [] same u = cc
  NodupKeys-keys ((k, v) ∷ d) ((j, w) ∷ c) same (fresh, u) =
      let head : k ≡ j = cc in
      let rest : keys d ≡ keys c = cc in
      (
        absent (lookup k d) (has-keys k d c rest ∙ ap (λ (i : K). has i c) head ∙ ap is_some fresh),
        NodupKeys-keys d c rest u,
      )

pub ruleset dict_laws = (lookup-nil, lookup-insert, lookup-erase)
