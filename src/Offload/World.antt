-- ===== src/Offload/World.antt =====
-- What an offloaded call does to the world.
use z4j_celery.Prelude.{ℕ, ◌≡◌, refl, sym, subst, ap, ◌∙◌, inl, inr, Bool-cases}
use z4j_celery.Python.{Io, Runtime, Quiet, Does}
use z4j_celery.Offload.{offload}

module _ (rt : Runtime) where
  open rt use {World}

  pub offload_world :
      {A : Type 0} (timeout : ℕ) (m : Io World A) (w : World) → (offload rt timeout m w).1 ≡ (m w).1
  unfolding offload
  offload_world timeout m w = elim (Bool-cases (rt.outlives timeout w (m w).1)) [
    | inl e ↦ rw e refl
    | inr e ↦ rw e refl
  ]

  module _ {L : Type 0} (log : World → L) where
    pub offload-Quiet :
        {A : Type 0} (timeout : ℕ) (m : Io World A) → Quiet log m → Quiet log (offload rt timeout m)
    offload-Quiet timeout m h w = ap log (offload_world timeout m w) ∙ h w

    pub offload-Does :
        {A : Type 0} (P : L → L → Type 0) (none : (l : L) → P l l) (timeout : ℕ) (m : Io World A)
        → Does log P none m
        → Does log P none (offload rt timeout m)
    offload-Does P none timeout m h w =
        subst (λ u. P (log w) (log u)) (sym (offload_world timeout m w)) (h w)
