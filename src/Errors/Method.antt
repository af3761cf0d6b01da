-- ===== src/Errors/Method.antt =====
-- Methods that change an object and may raise: what was written before the raise stays written.
use grpc_helper.Base.{◌≡◌, refl}
use grpc_helper.Errors.{Exception, Result, ok, raised}

abbrev pub Method {ℓ κ} : Type ℓ → Type κ → Type (ℓ ⊔ κ)
Method S A = S → Result A × S

module _ {ℓ κ} {S : Type ℓ} {A : Type κ} where
  abbrev pub pure : A → Method S A
  pure a s = (ok a, s)

  abbrev pub raise : Exception → Method S A
  raise e s = (raised e, s)

  -- A function that may raise and changes nothing.
  abbrev pub lift : Result A → Method S A
  lift r s = (r, s)

  abbrev pub gets : (S → A) → Method S A
  gets f s = (ok (f s), s)

abbrev pub modify {ℓ} : {S : Type ℓ} → (S → S) → Method S (Unit {0})
modify f s = (ok tt, f s)

module _ {ℓ κ ν} {S : Type ℓ} {A : Type κ} {B : Type ν} where
  abbrev pub continue : Result A → (A → Method S B) → Method S B
  continue (ok a) f s = f a s
  continue (raised e) f s = (raised e, s)

  infixl 5 ◌>>=◌ ◌>>◌
  abbrev pub ◌>>=◌ : Method S A → (A → Method S B) → Method S B
  ◌>>=◌ m f s = continue (m s).0 f (m s).1

  abbrev pub ◌>>◌ : Method S A → Method S B → Method S B
  m >> n = m >>= λ _. n

  -- To prove something of a sequence: of the first part where it raises, and of the rest where it
  -- does not.
  pub bind_rule {ξ} :
      (Q : Result B → S → Type ξ) (m : Method S A) (f : A → Method S B) (s : S)
      → ((e : Exception) → (m s).0 ≡ raised e → Q (raised e) (m s).1)
      → ((a : A) → (m s).0 ≡ ok a → Q (f a (m s).1).0 (f a (m s).1).1)
      → Q ((m >>= f) s).0 ((m >>= f) s).1
  bind_rule Q m f s failed went = go (m s).0 refl
    where
      go :
          (r : Result A)
          → (m s).0 ≡ r
          → Q (continue (m s).0 f (m s).1).0 (continue (m s).0 f (m s).1).1
      go (ok a) e = rw e (went a e)
      go (raised x) e = rw e (failed x e)
