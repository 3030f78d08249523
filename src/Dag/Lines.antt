-- ===== src/Dag/Lines.antt =====
-- The lines of core/dag.go under a push and a cut, without the rest of the state.
use loom.Message.{Block}
use loom.Dag.{Line, at, join}
use loom.Dag.Handlers.{push_line, cut}
use native.Mathlib.Decide.{dec_lt}
use mathlib.Core.List.{append_assoc}
use loom.Prelude.{
  ℕ, zero, suc, ◌+◌, ◌-◌, ◌≤◌, ◌<◌, ◌≡◌, refl, sym, ap, ◌∙◌, ◌≢◌, ◌⊎◌, inl, inr, false, Option,
  none, some, List, [], ◌∷◌, ◌++◌, arith, ltb, length, get_elem?, set, drop, replicate, get_last?,
  get_elem?-set_self, get_elem?-set_ne, get_elem?-append_left, get_elem?-append_right,
  get_elem?-out, length-replicate,
}
use loom.Prelude.Int.{ℤ, pos, negsuc}
use loom.Prelude.Eq.{nat_eq, int_eq, string_eq, list_eq}
use loom.Prelude.Result.{ok}

-- A line is empty or ends in a block, so the code may dereference its last entry.
abbrev pub EndsInBlock : Line → Type 0
EndsInBlock l = (l ≡ []) ⊎ ((b : Block) × (get_last? l ≡ some (some b)))

get_last?-append : {A : Type 0} (xs : List A) (x : A) → get_last? (xs ++ x ∷ []) ≡ some x
get_last?-append [] x = refl
get_last?-append (y ∷ []) x = refl
get_last?-append (y ∷ z ∷ xs) x = get_last?-append (z ∷ xs) x

get_last?-cons : {A : Type 0} (x : A) (xs : List A) → xs ≢ [] → get_last? (x ∷ xs) ≡ get_last? xs
get_last?-cons x [] h = absurd (h refl)
get_last?-cons x (y ∷ xs) h = refl

set-EndsInBlock : (l : Line) (i : ℕ) (b : Block) → EndsInBlock l → EndsInBlock (set l i (some b))
set-EndsInBlock [] i b h = inl refl
set-EndsInBlock (x ∷ []) zero b h = inr (b, refl)
set-EndsInBlock (x ∷ []) (suc i) b h = h
set-EndsInBlock (x ∷ y ∷ l) zero b h = elim h [ inl e ↦ absurd (cc) | inr k ↦ inr k ]
set-EndsInBlock (x ∷ y ∷ []) (suc zero) b h = inr (b, refl)
set-EndsInBlock (x ∷ y ∷ z ∷ l) (suc zero) b h = elim h [ inl e ↦ absurd (cc) | inr k ↦ inr k ]
set-EndsInBlock (x ∷ y ∷ l) (suc (suc i)) b h =
    elim (set-EndsInBlock (y ∷ l) (suc i) b (elim h [ inl e ↦ absurd (cc) | inr k ↦ inr k ])) [
      | inl e ↦ absurd (cc)
      | inr k ↦ inr k
    ]

set_filled :
    (l : Line) (k i : ℕ) (x : Option Block)
    → i ≡ length l + k
    → set (l ++ replicate (suc k) none) i x ≡ l ++ (replicate k none ++ x ∷ [])
set_filled [] zero zero x e = refl
set_filled [] zero (suc i) x e = absurd (omega arith)
set_filled [] (suc k) zero x e = absurd (omega arith)
set_filled [] (suc k) (suc i) x e = ap (λ (r : Line). none ∷ r) (set_filled [] k i x (omega arith))
set_filled (y ∷ l) k zero x e = absurd (omega arith)
set_filled (y ∷ l) k (suc i) x e = ap (λ (r : Line). y ∷ r) (set_filled l k i x (omega arith))

-- Behind the end of the line a push fills up with nil blocks.
pub push_line-grow :
    (i : ℕ) (b : Block) (l : Line)
    → length l ≤ i
    → push_line i b l ≡ l ++ (replicate (i - length l) none ++ some b ∷ [])
unfolding push_line
push_line-grow i b l h =
    let gap : i + 1 - length l ≡ suc (i - length l) = omega arith in
    let test : ltb i (length l) ≡ false = ground arith in
    rw (test, gap) (set_filled l (i - length l) i (some b) (omega arith))

pub push_line-set :
    (i : ℕ) (b : Block) (l : Line) → i < length l → push_line i b l ≡ set l i (some b)
unfolding push_line
push_line-set i b l h = ground arith

pub push_line-EndsInBlock :
    (i : ℕ) (b : Block) (l : Line) → EndsInBlock l → EndsInBlock (push_line i b l)
push_line-EndsInBlock i b l h = elim (dec_lt i (length l)) [
  | yes inside ↦ rw (push_line-set i b l inside) (set-EndsInBlock l i b h)
  | no beyond ↦ rw (push_line-grow i b l (omega arith)) (
      inr (b, rw (← append_assoc) (get_last?-append (l ++ replicate (i - length l) none) (some b))))
]

pub at-push_line_self :
    (i : ℕ) (b : Block) (l : Line) → get_elem? (push_line i b l) i ≡ some (some b)
at-push_line_self i b l = elim (dec_lt i (length l)) [
  | yes inside ↦ rw (push_line-set i b l inside) (get_elem?-set_self l i (some b) inside)
  | no beyond ↦
      rw
        (
          push_line-grow i b l (omega arith),
          get_elem?-append_right l (replicate (i - length l) none ++ some b ∷ []) i (i - length l)
              (omega arith),
        )
        (get_elem?-append_right (replicate (i - length l) none) (some b ∷ []) (i - length l) 0
          (omega (arith, length-replicate {0} {A = Option Block} (i - length l) none)))
]

at-replicate : (k j : ℕ) (b : Block) → j ≢ k → at (replicate k none ++ some b ∷ []) j ≡ none
at-replicate zero zero b h = absurd (h refl)
at-replicate zero (suc j) b h = refl
at-replicate (suc k) zero b h = refl
at-replicate (suc k) (suc j) b h = at-replicate k j b (omega arith)

-- Every other entry reads as before: a filler is nil, as an entry out of range is.
pub at-push_line_ne : (i j : ℕ) (b : Block) (l : Line) → i ≢ j → at (push_line i b l) j ≡ at l j
at-push_line_ne i j b l ne = elim (dec_lt i (length l)) [
  | yes inside ↦ rw (push_line-set i b l inside) (ap join (get_elem?-set_ne l i j (some b) ne))
  | no beyond ↦ rw (push_line-grow i b l (omega arith)) (elim (dec_lt j (length l)) [
    | yes low ↦
        ap join (get_elem?-append_left l (replicate (i - length l) none ++ some b ∷ []) j low)
    | no high ↦
        ap join (
          get_elem?-append_right l (replicate (i - length l) none ++ some b ∷ []) j (j - length l)
            (omega arith))
        ∙ at-replicate (i - length l) (j - length l) b (omega arith)
        ∙ sym (ap join (get_elem?-out l j (omega arith)))
  ])
]

pub drop-EndsInBlock : (n : ℕ) (l : Line) → EndsInBlock l → EndsInBlock (drop n l)
drop-EndsInBlock zero l h = h
drop-EndsInBlock (suc n) [] h = inl refl
drop-EndsInBlock (suc n) (x ∷ []) h = drop-EndsInBlock n [] (inl refl)
drop-EndsInBlock (suc n) (x ∷ y ∷ l) h =
    drop-EndsInBlock n (y ∷ l) (elim h [ inl e ↦ absurd (cc) | inr k ↦ inr k ])

pub cut-eq-ok :
    (z : ℤ) (l l' : Line)
    → cut z l ≡ ok l'
    → (n : ℕ) × (z ≡ pos n) × (n ≤ length l) × (l' ≡ drop n l)
unfolding cut
cut-eq-ok (pos n) l l' h = (n, refl, ground arith, ground arith)
cut-eq-ok (negsuc n) l l' h = absurd (cc)
