-- ===== src/Pool/Ring.antt =====
-- The ring of pool/pool.go as the list of what is still to be read.
use native.Mathlib.Nat.{mod-add-mod, mod-eq_of_lt, mod-eq-sub-mod}
use mathlib.Core.Path.{ap₂}
use native.Mathlib.Decide.{dec_lt}
use loom.Message.{Transaction}
use loom.Pool.{advance, read_loop}
use loom.Prelude.{
  ℕ, zero, suc, ◌+◌, ◌-◌, ◌%◌, ◌<◌, ◌≡◌, refl, sym, ap, ◌∙◌, ◌≢◌, ◌⊎◌, inl, inr, Option, some, List,
  [], ◌∷◌, ◌++◌, map, arith, length, get_elem?, set, get_elem?-set_self, get_elem?-set_ne,
}
use loom.Prelude.Int.{ℤ, pos}
use loom.Prelude.Result.{ok}

-- The k transactions from place s on, going round at m.
abbrev pub items : List Transaction → ℕ → ℕ → ℕ → List (Option Transaction)
items queue m s zero = []
items queue m s (suc k) = get_elem? queue s ∷ items queue m ((s + 1) % m) k

-- The read index behind a read of k transactions: unmoved, or at a place of the ring.
abbrev pub IsBehind : ℤ → ℤ → ℕ → ℕ → Type 0
IsBehind end rind m k = ((k ≡ 0) × (end ≡ rind)) ⊎ ((r : ℕ) × (end ≡ pos r) × (r < m))

IsBehind-suc :
    (end : ℤ) (s m k : ℕ) (rind : ℤ)
    → s < m
    → IsBehind end (pos s) m k
    → IsBehind end rind m (suc k)
IsBehind-suc end s m k rind lt (inl (_, same)) = inr (s, same, lt)
IsBehind-suc end s m k rind lt (inr (r, at_r, in_ring)) = inr (r, at_r, in_ring)

pub step_round : (s k m : ℕ) → 0 < m → ((s + 1) % m + k) % m ≡ (s + suc k) % m
step_round s k m h = mod-add-mod (s + 1) m k ∙ ap (λ x. x % m) (omega arith)

pub here_eq : (s m : ℕ) → s < m → (s + 0) % m ≡ s
here_eq s m h = ap (λ x. x % m) (omega arith) ∙ mod-eq_of_lt h

-- What the loop of `make` reads is what stands there.
pub read_loop-items :
    (k : ℕ) (rind : ℤ) (queue : List Transaction) (m s : ℕ) (txs : List Transaction)
    → s < m
    → advance rind m ≡ pos s
    → items queue m s k ≡ map some txs
    → (end : ℤ) × (read_loop k rind queue m ≡ ok (txs, end))
      × (advance end m ≡ pos ((s + k) % m))
      × IsBehind end rind m k
unfolding read_loop
read_loop-items zero rind queue m s [] lt a h =
    (rind, refl, a ∙ ap pos (sym (here_eq s m lt)), inl (refl, refl))
read_loop-items zero rind queue m s (tx ∷ txs) lt a h = absurd (cc)
read_loop-items (suc k) rind queue m s [] lt a h = absurd (cc)
read_loop-items (suc k) rind queue m s (tx ∷ txs) lt a h =
    let there : get_elem? queue s ≡ some tx = cc in
    let (end, done, next, behind) =
      read_loop-items k (pos s) queue m ((s + 1) % m) txs (omega arith) refl (cc) in
    (
      end,
      rw (a, there, done) refl,
      next ∙ ap pos (step_round s k m (omega arith)),
      IsBehind-suc end s m k rind lt behind,
    )

-- Fewer steps than its size do not lead round the ring.
pub round_ne : (s k m : ℕ) → s < m → 0 < k → k < m → (s + k) % m ≢ s
round_ne s k m h p lt = elim (dec_lt (s + k) m) [
  | yes under ↦ omega (arith, mod-eq_of_lt under)
  | no over ↦ omega (
    arith,
    mod-eq-sub-mod {n = s + k} {m = m} (omega arith),
    mod-eq_of_lt {n = s + k - m} {m = m} (omega arith),
  )
]

-- A write right behind the items adds one to them.
pub items-set :
    (k : ℕ) (queue : List Transaction) (m s i : ℕ) (tx : Transaction)
    → length queue ≡ m
    → s < m
    → k < m
    → i ≡ (s + k) % m
    → items (set queue i tx) m s (suc k) ≡ items queue m s k ++ some tx ∷ []
items-set zero queue m s i tx size lt few e =
    let at_s : i ≡ s = e ∙ here_eq s m lt in
    rw at_s (ap (λ o. o ∷ []) (get_elem?-set_self queue s tx (omega arith)))
items-set (suc k) queue m s i tx size lt few e =
    let elsewhere : i ≢ s = λ same. round_ne s (suc k) m lt (omega arith) few (sym e ∙ same) in
    let rest =
      items-set k queue m ((s + 1) % m) i tx size (omega arith) (omega arith)
        (e ∙ sym (step_round s k m (omega arith))) in
    ap₂ (λ (o : Option Transaction) (os : List (Option Transaction)). o ∷ os)
      (get_elem?-set_ne queue i s tx elsewhere) rest
