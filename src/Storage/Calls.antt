-- ===== src/Storage/Calls.antt =====
-- Asynchronous code over a shared storage: a function that may fail, and that returns what the
-- storage is by then. What was done before an error stays done.
use ltsearch.Common.{ok, err, Result, ◌≡◌, refl, arith}
use ltsearch.Errors.{PublishError}

abbrev pub Task : Type 0 → Type 0 → Type 0
Task S A = S → Result PublishError A × S

module _ {S A : Type 0} where
  abbrev pub lift : Result PublishError A → Task S A
  lift r s = (r, s)

  -- Other processes act on the storage before the call.
  abbrev pub after : (S → S) → Task S A → Task S A
  after others m s = m (others s)

module _ {S A B : Type 0} where
  abbrev continue : Result PublishError A → (A → Task S B) → Task S B
  continue (ok a) f s = f a s
  continue (err e) f s = (err e, s)

  infixl 5 ◌>>=◌ ◌>>◌
  unfoldable pub ◌>>=◌ : Task S A → (A → Task S B) → Task S B
  ◌>>=◌ m f s = let (r, s') = m s in continue r f s'

  abbrev pub ◌>>◌ : Task S A → Task S B → Task S B
  m >> n = m >>= λ _. n

  continue-ok :
      (r : Result PublishError A) (f : A → Task S B) (s : S) {b : B} {last : S}
      → continue r f s ≡ (ok b, last)
      → (a : A) × (r ≡ ok a) × (f a s ≡ (ok b, last))
  continue-ok (ok a) f s h = (a, refl, h)
  continue-ok (err e) f s h = ground arith

  -- Inversion of a successful bind.
  pub >>=-eq-ok :
      (m : Task S A) (f : A → Task S B) (s : S) {b : B} {last : S}
      → (m >>= f) s ≡ (ok b, last)
      → (a : A) × ((m s).0 ≡ ok a) × (f a (m s).1 ≡ (ok b, last))
  unfolding ◌>>=◌
  >>=-eq-ok m f s h = continue-ok (m s).0 f (m s).1 h

  continue-leaves :
      (r : Result PublishError A) (f : A → Task S B) (s : S) (P : S → Type 0)
      → P s
      → ((a : A) → P (f a s).1)
      → P (continue r f s).1
  continue-leaves (ok a) f s P p q = q a
  continue-leaves (err e) f s P p q = p

  -- What a bind leaves behind, whether or not its first call fails.
  pub >>=-leaves :
      (m : Task S A) (f : A → Task S B) (s : S) (P : S → Type 0)
      → P (m s).1
      → ((a : A) → P (f a (m s).1).1)
      → P ((m >>= f) s).1
  unfolding ◌>>=◌
  >>=-leaves m f s P p q = continue-leaves (m s).0 f (m s).1 P p q
