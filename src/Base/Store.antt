-- ===== src/Base/Store.antt =====
-- A store of cells under numbered addresses: a C array, or the structures behind pointers.
use Prim.Native.Nat.{ℕ}
use mathlib.Core.Path.{◌≡◌, ◌∙◌}
use mathlib.Core.Logic.{◌≢◌}
use native.Mathlib.Omega.{arith}
use lacp.Base.Tests.{◌==◌, if◌then◌else◌}

module _ {ℓ} {A : Type ℓ} where
  abbrev pub update : (ℕ → A) → ℕ → A → ℕ → A
  update f i a j = if i == j then a else f j

  pub update_self : (f : ℕ → A) (i : ℕ) (a : A) → update f i a i ≡ a
  update_self f i a = ground arith

  pub update_ne : (f : ℕ → A) (i j : ℕ) (a : A) → i ≢ j → update f i a j ≡ f j
  update_ne f i j a h = ground arith

  -- Three writes to one cell, each from what the last one left: the last one stands.
  pub update_thrice :
      (f c : ℕ → A) (i : ℕ) (x : A) (g s : A → A)
      → ((j : ℕ) → c j ≡ update f i x j)
      → (j : ℕ)
      → update (update c i (g (c i))) i (s (update c i (g (c i)) i)) j ≡ update f i (s (g x)) j
  update_thrice f c i x g s e j =
      let own : c i ≡ x = e i ∙ update_self f i x in
      rw (update_self c i (g (c i)), own) (ground (arith, e j))
