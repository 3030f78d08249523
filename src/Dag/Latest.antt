-- ===== src/Dag/Latest.antt =====
-- The blocks that may be references for `handleRefReq` of core/dag.go: the last ones of the lines.
use mathlib.Core.Path.{subst}
use loom.Message.{Header, Block}
use loom.Dag.{Line}
use loom.Dag.Handlers.{is_even, is_odd}
use loom.Prelude.{
  ℕ, ◌↔◌, zero, suc, ◌≡◌, refl, sym, ap, ◌∙◌, ◌⊎◌, true, some, List, [], ◌∷◌, get_elem?, get_last?,
}
use loom.Prelude.Int.{ℤ, pos, ◌≤ℤ◌, ◌<ℤ◌, ◌-ℤ◌}
use loom.Prelude.Eq.{nat_eq, int_eq, string_eq, list_eq}

-- What the code asks of a reference for round r: the block is of round r or later, and if it is of
-- round r, its author has made two blocks since it entered the round, or one if r is odd.
abbrev pub IsRef : ℤ → Header → Type 0
IsRef r h =
    (r ≤ℤ h.round)
    × ((r <ℤ h.round)
        ⊎ ((is_even r ≡ true) × (pos 2 ≤ℤ (h.slot.height -ℤ h.first_ref_h)))
        ⊎ ((is_odd r ≡ true) × (pos 1 ≤ℤ (h.slot.height -ℤ h.first_ref_h))))

-- h stands in the list.
abbrev pub Listed : Header → List Header → Type 0
Listed h refs = (j : ℕ) × (get_elem? refs j ≡ some h)

-- h is the header of the last block of a line.
abbrev pub IsLatest : List Line → Header → Type 0
IsLatest cache h =
    (i : ℕ) × (l : Line) × (b : Block) × (get_elem? cache i ≡ some l)
    × (get_last? l ≡ some (some b))
    × (b.header ≡ h)

-- The references are the last headers of lines that the code asks for.
abbrev pub Exact : ℤ → List Line → List Header → Type 0
Exact r cache refs = (h : Header) → Listed h refs ↔ (IsLatest cache h × IsRef r h)

pub Exact-nil : (r : ℤ) → Exact r [] []
Exact-nil r h = (λ (j, at_j). absurd (cc), λ ((i, l, b, at_i, _, _), _). absurd (cc))

pub Exact-skip :
    (r : ℤ) (l : Line) (cache : List Line) (rest : List Header)
    → ((b : Block) → get_last? l ≡ some (some b) → ¬ IsRef r b.header)
    → Exact r cache rest
    → Exact r (l ∷ cache) rest
Exact-skip r l cache rest bad exact h = (
  λ has.
      let ((i, x, b, at_i, last, same), good) = (exact h).0 has in
      ((suc i, x, b, at_i, last, same), good),
  λ (latest_h, good). still latest_h good,
)
  where
    still : IsLatest (l ∷ cache) h → IsRef r h → Listed h rest
    still (zero, x, b, at_i, last, same) good =
        let is_l : l ≡ x = cc in
        absurd (bad b (ap get_last? is_l ∙ last) (subst (IsRef r) (sym same) good))
    still (suc i, x, b, at_i, last, same) good = (exact h).1 ((i, x, b, at_i, last, same), good)

pub Exact-cons :
    (r : ℤ) (l : Line) (cache : List Line) (b : Block) (rest : List Header)
    → get_last? l ≡ some (some b)
    → IsRef r b.header
    → Exact r cache rest
    → Exact r (l ∷ cache) (b.header ∷ rest)
Exact-cons r l cache b rest here good exact h =
    (λ has. found has, λ (latest_h, good_h). listed latest_h good_h)
  where
    found : Listed h (b.header ∷ rest) → IsLatest (l ∷ cache) h × IsRef r h
    found (zero, at_j) =
        let same : b.header ≡ h = cc in ((0, l, b, refl, here, same), subst (IsRef r) same good)
    found (suc j, at_j) =
        let ((i, x, c, at_i, last, same), good_h) = (exact h).0 (j, at_j) in
        ((suc i, x, c, at_i, last, same), good_h)

    listed : IsLatest (l ∷ cache) h → IsRef r h → Listed h (b.header ∷ rest)
    listed (zero, x, c, at_i, last, same) good_h =
        let is_l : l ≡ x = cc in
        let is_b : b ≡ c = cc (here, ap get_last? is_l, last) in
        (0, ap some (ap (λ (y : Block). y.header) is_b ∙ same))
    listed (suc i, x, c, at_i, last, same) good_h =
        let (j, at_j) = (exact h).1 ((i, x, c, at_i, last, same), good_h) in (suc j, at_j)
