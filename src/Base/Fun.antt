-- ===== src/Base/Fun.antt =====
-- Memory and arrays as functions from addresses or indices, written at one place.
use Prim.Native.Nat.{ℕ}
use mathlib.Core.Path.{◌≡◌, ap, sym, refl, fun_ext}
use mathlib.Core.Logic.{◌≢◌, inl, inr}
use native.Mathlib.Omega.{arith}
use clmalloc.Base.Tests.{◌==◌, if◌then◌else◌, Bool-cases}

module _ {ℓ} {A : Type ℓ} where
  abbrev pub update : (ℕ → A) → ℕ → A → ℕ → A
  update f p v q = if q == p then v else f q

  pub update_self : (f : ℕ → A) (p : ℕ) (v : A) → update f p v p ≡ v
  update_self f p v = ground arith

  pub update_ne : (f : ℕ → A) (p q : ℕ) (v : A) → q ≢ p → update f p v q ≡ f q
  update_ne f p q v h = ground arith

  -- Writing what stands there already changes nothing.
  pub update_same : (f : ℕ → A) (p : ℕ) → update f p (f p) ≡ f
  update_same f p = fun_ext (λ q. elim (Bool-cases (q == p)) [
    | inl e ↦ let same : q ≡ p = ground arith in rw e (ap f (sym same))
    | inr e ↦ rw e refl
  ])

  -- Of two writes at one place the last one counts.
  pub update-update : (f : ℕ → A) (p : ℕ) (v v' : A) → update (update f p v) p v' ≡ update f p v'
  update-update f p v v' =
      fun_ext (λ q. elim (Bool-cases (q == p)) [ inl e ↦ rw e refl | inr e ↦ rw e refl ])
