-- ===== src/Committee/Quorum.antt =====
-- What the thresholds of core/config.go promise.
use loom.Prelude.{
  ℕ, suc, ◌+◌, ◌-◌, ◌*◌, ◌≤◌, ◌<◌, ◌≡◌, List, [], ◌∷◌, map, length, arith, refl, length-map, false,
  true, ◌≢◌, inl, inr, Bool-cases,
}
use text.Mathlib.TextEquality.{eq_iff}
use loom.Prelude.Int.{eqb_ℤ_iff}
use loom.Prelude.Eq.{int_eq, string_eq, ◌==◌}
use loom.Prelude.Map.{Map, lookup}
use loom.Prelude.Distinct.{contains, Distinct, Within, common, length-common}
use loom.Committee.{
  Committee, Authority, NodeId, size, hight_threshold, low_threshold, others, broad_cast, some,
  address,
}

abbrev pub members : Committee → List NodeId
members c = map (λ entry. entry.0) c.authorities

-- In a committee of n = 3f+1 nodes, any two sets of at least 2f+1 members have at least f+1 members
-- in common.
pub common-quorum :
    (c : Committee) (xs ys : List NodeId) (f : ℕ)
    → size c ≡ 3 * f + 1
    → Distinct xs
    → Distinct ys
    → Within xs (members c)
    → Within ys (members c)
    → hight_threshold c ≤ length xs
    → hight_threshold c ≤ length ys
    → low_threshold c ≤ length (common xs ys)
common-quorum c xs ys f n dx dy wx wy hx hy = omega (
  arith,
  length-common xs ys (members c) dx dy wx wy,
  length-map {0, 0} (λ (entry : NodeId × Authority). entry.0) c.authorities,
)

-- In a non-empty committee of any size, the threshold 2f+1 and the f nodes that may be silent fit into
-- the committee together, and f+1 is at most 2f+1.
pub threshold_bounds :
    (c : Committee)
    → 0 < size c
    → (hight_threshold c + (low_threshold c - 1) ≤ size c) × (low_threshold c ≤ hight_threshold c)
threshold_bounds c h = omega arith

contains-others :
    (i : NodeId) (m : Map NodeId Authority)
    → contains i (map (λ e. e.0) m) ≡ false
    → length (others i m) ≡ length m
unfolding others
contains-others i [] h = refl
contains-others i ((j, a) ∷ m) h = ground (arith, contains-others i m)

length-others :
    (i : NodeId) (m : Map NodeId Authority)
    → Distinct (map (λ e. e.0) m)
    → contains i (map (λ e. e.0) m) ≡ true
    → suc (length (others i m)) ≡ length m
unfolding others
length-others i [] d h = cc
length-others i ((j, a) ∷ m) d h =
    ground (arith, length-others i m, contains-others i m, eqb_ℤ_iff j i)

mem-others :
    (i j : NodeId) (m : Map NodeId Authority) (a : Authority)
    → i ≢ j
    → lookup j m ≡ some a
    → contains a.addr (others i m) ≡ true
unfolding others lookup
mem-others i j [] a ne h = cc
mem-others i j ((k, b) ∷ m) a ne h =
    ground (arith, eqb_ℤ_iff k i, eqb_ℤ_iff k j, eq_iff b.addr a.addr, mem-others i j m a ne)

address-of_contains :
    (c : Committee) (j : NodeId)
    → contains j (members c) ≡ true
    → (a : Authority) × (lookup j c.authorities ≡ some a)
unfolding lookup
address-of_contains c j h = find c.authorities h
  where
    find :
        (m : Map NodeId Authority)
        → contains j (map (λ e. e.0) m) ≡ true
        → (a : Authority) × (lookup j m ≡ some a)
    find [] h = cc
    find ((k, b) ∷ m) h = elim (Bool-cases (k == j)) [
      | inl t ↦ (b, rw t)
      | inr f ↦ let (a, e) = find m (ground arith) in (a, rw f e)
    ]

-- In a committee with one authority for each id, a broadcast of a member i goes to one address fewer than the committee has
-- members, and the address of every other member j is among them.
pub broad_cast_reach :
    (c : Committee) (i j : NodeId)
    → Distinct (members c)
    → contains i (members c) ≡ true
    → contains j (members c) ≡ true
    → i ≢ j
    → (suc (length (broad_cast c i)) ≡ size c) × (contains (address c j) (broad_cast c i) ≡ true)
unfolding broad_cast address
broad_cast_reach c i j d hi hj ne =
    let (a, e) = address-of_contains c j hj in
    (length-others i c.authorities d hi, rw (e, address) (mem-others i j c.authorities a ne e))
