-- ===== src/Prelude/Fallible.antt =====
-- A Go call that returns a value and an error: one or the other. An error is its text.
use p2p_folder_sync.Prelude.Text.{Str}
use mathlib.Core.Path.{◌≡◌, refl}
use mathlib.Core.Logic.{◌⊎◌, inl, inr}

pub data Fallible {ℓ} (A : Type ℓ) : Type ℓ where
  returned : A → Fallible A
  failed : Str → Fallible A

infixl 5 ◌>>=◌
abbrev pub ◌>>=◌ {ℓ κ} : {A : Type ℓ} {B : Type κ} → Fallible A → (A → Fallible B) → Fallible B
returned a >>= f = f a
failed e >>= f = failed e

pub Fallible-cases {ℓ} :
    {A : Type ℓ} (m : Fallible A) → ((e : Str) × (m ≡ failed e)) ⊎ ((a : A) × (m ≡ returned a))
Fallible-cases (returned a) = inr (a, refl)
Fallible-cases (failed e) = inl (e, refl)
