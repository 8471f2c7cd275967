-- ===== src/Activation/Upload/Steps.antt =====
-- What a step of an upload does, by its result.
use ltsearch.Common.{String, Result, ok, err, ◌≡◌, refl, arith, ◌⊎◌, inl}
use ltsearch.Errors.{PublishError}
use ltsearch.Activation.Upload.{and_step, resume}

pub resume-cases :
    {S : Type 0} (check : S → Result String (Unit {0})) (p : Result PublishError (Unit {0}) × S)
    → (resume check p).0 ≡ ok tt
    → (p.0 ≡ ok tt) ⊎ (check p.1 ≡ ok tt)
resume-cases check (ok u, s) e = inl refl
resume-cases check (err f, s) e = ground (arith, e)

pub resume-state :
    {S : Type 0} (check : S → Result String (Unit {0})) (p : Result PublishError (Unit {0}) × S)
    → (resume check p).1 ≡ p.1
resume-state check (ok u, s) = refl
resume-state check (err f, s) = ground arith

pub and_step-cases :
    {S : Type 0} (next : S → Result String (Unit {0}) × S) (p : Result String (Unit {0}) × S)
    → (and_step next p).0 ≡ ok tt
    → (p.0 ≡ ok tt) × ((next p.1).0 ≡ ok tt) × (and_step next p ≡ next p.1)
and_step-cases next (ok u, s) e = (refl, e, refl)
and_step-cases next (err f, s) e = absurd (ground (arith, e))
