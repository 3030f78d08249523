-- ===== src/Dag/Invariant.antt =====
-- The invariant of the DAG's cache (core/dag.go), and that a push keeps it.
use loom.Committee.{NodeId, Committee, size}
use loom.Message.{Block}
use loom.Dag.{Line, Dag, Sent, row, set_row, line, set_line, index, at, join}
use loom.Dag.Handlers.{push_at, push_line, answer, handle_block_push_req}
use loom.Dag.Lines.{EndsInBlock, push_line-EndsInBlock, at-push_line_self, at-push_line_ne}
use mathlib.Core.Path.{subst}
use native.Mathlib.Decide.{dec_lt}
use loom.Prelude.{
  ℕ, ◌≡◌, refl, sym, ap, ◌∙◌, ◌≢◌, ◌⊎◌, inl, inr, some, List, [], arith, length, length-set,
  get_elem?-set_self, get_elem?-set_ne, get_elem?-out,
}
use loom.Prelude.Int.{ℤ, pos, negsuc, ◌-ℤ◌, IsSmall}
use loom.Prelude.Eq.{nat_eq, int_eq, string_eq, list_eq, ==-cases}
use loom.Prelude.Result.{ok, index_out_of_range, or_panic, >>=-eq-ok}
use loom.Prelude.Map.{Map, get_or}

-- A line ends in a block unless it is empty; a block stands in its author's line, at the index that
-- its height has there; heights and watermarks are so small that no index wraps around.
pub record IsStored (c : Committee) (cache : List Line) (marks : Map NodeId ℤ) : Type 0 where
  pub rows : length cache ≡ size c
  pub small : (a : NodeId) → IsSmall (get_or a marks (pos 0))
  pub ends : (a : NodeId) (l : Line) → row a cache ≡ ok l → EndsInBlock l
  pub placed :
      (a : NodeId) (l : Line) (i : ℕ) (b : Block)
      → row a cache ≡ ok l
      → at l i ≡ some b
      → (b.header.slot.author ≡ a)
        × IsSmall b.header.slot.height
        × (b.header.slot.height -ℤ get_or a marks (pos 0) -ℤ pos 1 ≡ pos i)

abbrev pub IsWellFormed : Dag → Type 0
IsWellFormed d = IsStored d.committee d.cache d.cache_mark

pub row-set_row_self :
    (a : NodeId) (l l' : Line) (cache : List Line)
    → row a cache ≡ ok l
    → row a (set_row a l' cache) ≡ ok l'
unfolding row set_row
row-set_row_self (pos i) l l' cache h = elim (dec_lt i (length cache)) [
  | yes p ↦ rw (get_elem?-set_self cache i l' p)
  | no q ↦ absurd (ground (arith, get_elem?-out cache i))
]
row-set_row_self (negsuc i) l l' cache h = absurd (cc)

pub row-set_row_ne :
    (a b : NodeId) (l : Line) (cache : List Line) → a ≢ b → row b (set_row a l cache) ≡ row b cache
unfolding row set_row
row-set_row_ne (pos i) (pos j) l cache ne =
    ap (or_panic index_out_of_range) (get_elem?-set_ne cache i j l (λ e. ne (ap pos e)))
row-set_row_ne (pos i) (negsuc j) l cache ne = refl
row-set_row_ne (negsuc i) b l cache ne = refl

length-set_row :
    (a : NodeId) (l : Line) (cache : List Line) → length (set_row a l cache) ≡ length cache
unfolding set_row
length-set_row (pos i) l cache = length-set cache i l
length-set_row (negsuc i) l cache = refl

-- The two ways in which a push succeeds.
pub push_at-cases :
    (z : ℤ) (b : Block) (d d' : Dag) (out : List Sent)
    → push_at z b d ≡ ok (d', out)
    → ((i : ℕ) × (z ≡ negsuc i) × (d' ≡ d) × (out ≡ []))
      ⊎ ((i : ℕ) × (l : Line) × (z ≡ pos i)
          × (line b.header.slot.author d ≡ ok l)
          × (d' ≡ set_line b.header.slot.author (push_line i b l) d)
          × (out ≡ answer b d))
unfolding push_at
push_at-cases (negsuc i) b d d' out h = inl (i, refl, cc, cc)
push_at-cases (pos i) b d d' out h =
    let (l, found, rest) = >>=-eq-ok (line b.header.slot.author d) _ h in
    inr (i, l, refl, found, cc, cc)

pub row-set_row :
    (a b : NodeId) (l l' k : Line) (cache : List Line)
    → row a cache ≡ ok l
    → row b (set_row a l' cache) ≡ ok k
    → ((a ≡ b) × (k ≡ l')) ⊎ ((a ≢ b) × (row b cache ≡ ok k))
row-set_row a b l l' k cache h e = elim (==-cases a b) [
  | inl same ↦
      inl (same, cc (row-set_row_self a l l' cache h, ap (λ c. row c (set_row a l' cache)) same, e))
  | inr ne ↦ inr (ne, sym (row-set_row_ne a b l' cache ne) ∙ e)
]

-- One line and its author's watermark are replaced.
pub store-IsStored :
    (c : Committee) (cache : List Line) (marks marks' : Map NodeId ℤ) (a : NodeId) (l l' : Line)
    → IsStored c cache marks
    → row a cache ≡ ok l
    → IsSmall (get_or a marks' (pos 0))
    → ((b : NodeId) → a ≢ b → get_or b marks' (pos 0) ≡ get_or b marks (pos 0))
    → EndsInBlock l'
    → ((i : ℕ) (b : Block)
        → at l' i ≡ some b
        → (b.header.slot.author ≡ a)
          × IsSmall b.header.slot.height
          × (b.header.slot.height -ℤ get_or a marks' (pos 0) -ℤ pos 1 ≡ pos i))
    → IsStored c (set_row a l' cache) marks'
store-IsStored c cache marks marks' a l l' w found small others ends placed = record {
  rows = length-set_row a l' cache ∙ w.rows;
  small = λ b. elim (==-cases a b) [
    | inl same ↦ subst (λ x. IsSmall (get_or x marks' (pos 0))) same small
    | inr ne ↦ rw (others b ne) (w.small b)
  ];
  ends = λ b k e. elim (row-set_row a b l l' k cache found e) [
    | inl (_, same) ↦ rw same ends
    | inr (_, old) ↦ w.ends b k old
  ];
  placed = λ b k i x e p. elim (row-set_row a b l l' k cache found e) [
    | inl (same, line_same) ↦
        subst
          (λ y.
            (x.header.slot.author ≡ y)
            × IsSmall x.header.slot.height
            × (x.header.slot.height -ℤ get_or y marks' (pos 0) -ℤ pos 1 ≡ pos i))
          same (placed i x (rw line_same at p))
    | inr (ne, old) ↦ rw (others b ne) (w.placed b k i x old p)
  ];
}

-- A push keeps the invariant.
pub push-IsWellFormed :
    (b : Block) (d d' : Dag) (out : List Sent)
    → IsSmall b.header.slot.height
    → IsWellFormed d
    → handle_block_push_req b d ≡ ok (d', out)
    → IsWellFormed d'
unfolding handle_block_push_req
push-IsWellFormed b d d' out small w h = elim (push_at-cases (index b.header.slot d) b d d' out h) [
  | inl (i, _, same, _) ↦ rw same w
  | inr (i, l, at_i, found, same, _) ↦ rw same (
      store-IsStored d.committee d.cache d.cache_mark d.cache_mark b.header.slot.author l
        (push_line i b l) w found (w.small b.header.slot.author) (λ a ne. refl)
        (push_line-EndsInBlock i b l (w.ends b.header.slot.author l found))
        (λ j x k. elim (==-cases i j) [
          | inl same_i ↦
              let is_b : x ≡ b = cc (k, ap join (at-push_line_self i b l), same_i) in
              rw is_b (refl, small, at_i ∙ ap pos same_i)
          | inr ne ↦
              w.placed b.header.slot.author l j x found (sym (at-push_line_ne i j b l ne) ∙ k)
        ]))
]
