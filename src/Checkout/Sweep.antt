-- ===== src/Checkout/Sweep.antt =====
-- The retention rule of the sweep.
use ebdental_api.Prelude.{
  ℕ, ◌+◌, ◌*◌, ◌≤◌, ◌≡◌, ◌⊎◌, ◌↔◌, refl, some-inj, true, false, Option, none, some, arith, is_some,
  Bool-cases, inl, inr,
}
use ebdental_api.Store.{PendingCheckout, Store, Env}
use ebdental_api.Checkout.{minutes, is_dead, prune_row, prune}
use ebdental_api.Checkout.Linked.{IsSound}
use ebdental_api.Checkout.Preserved.{drop_checkouts-IsSound}

-- A checkout is worth keeping where an order came of it or it expired at most a day ago.
abbrev pub IsRetained : Env → PendingCheckout → Type 0
IsRetained env c = (is_some c.order_id ≡ true) ⊎ (env.now ≤ c.expires_at + minutes (24 * 60))

is_dead-retained : (env : Env) (c : PendingCheckout) → IsRetained env c → is_dead env c ≡ false
unfolding is_dead
is_dead-retained env c (inl h) = rw h refl
is_dead-retained env c (inr h) = ground arith

dead-IsRetained : (env : Env) (c : PendingCheckout) → is_dead env c ≡ false → IsRetained env c
unfolding is_dead
dead-IsRetained env c h = elim (Bool-cases (is_some c.order_id)) [
  | inl e ↦ inl e
  | inr e ↦ inr (ground arith)
]

prune_row-retained :
    (env : Env) (c : PendingCheckout) → is_dead env c ≡ false → prune_row env (some c) ≡ some c
unfolding prune_row
prune_row-retained env c h = rw h refl

prune_row-eq-some :
    (env : Env) (v : Option PendingCheckout) {c : PendingCheckout}
    → prune_row env v ≡ some c
    → (v ≡ some c) × (is_dead env c ≡ false)
unfolding prune_row
prune_row-eq-some env none h = cc
prune_row-eq-some env (some d) {c} h = elim (Bool-cases (is_dead env d)) [
  | inl e ↦ let h1 : none ≡ some c = rw e at h in cc
  | inr e ↦ let h1 : some d ≡ some c = rw e at h in (h1, cc (some-inj h1))
]

prune_row-part :
    (env : Env) (v : Option PendingCheckout) → (prune_row env v ≡ v) ⊎ (prune_row env v ≡ none)
unfolding prune_row
prune_row-part env none = inr refl
prune_row-part env (some d) = elim (Bool-cases (is_dead env d)) [
  | inl e ↦ inr (rw e refl)
  | inr e ↦ inl (rw e refl)
]

-- A checkout is there after the retention delete exactly if it was there before, with the same row,
-- and has become an order or expired no more than 24 hours ago.
pub prune_iff :
    (env : Env) (s : Store) (k : ℕ) (c : PendingCheckout)
    → ((prune env s).checkouts.row k ≡ some c) ↔ ((s.checkouts.row k ≡ some c) × IsRetained env c)
unfolding prune
prune_iff env s k c = (
  λ h.
      let (at, alive) = prune_row-eq-some env (s.checkouts.row k) h in
      (at, dead-IsRetained env c alive),
  λ (at, kept). rw at (prune_row-retained env c (is_dead-retained env c kept)),
)

pub prune-IsSound : (env : Env) {s : Store} → IsSound s → IsSound (prune env s)
unfolding prune
prune-IsSound env {s} h =
    drop_checkouts-IsSound h (λ k. prune_row env (s.checkouts.row k))
      (λ k. prune_row-part env (s.checkouts.row k))
      (λ k i c at e. rw at (prune_row-retained env c (is_dead-retained env c (inl (rw e refl)))))
