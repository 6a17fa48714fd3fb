-- ===== src/Gui/Windows/Order.antt =====
-- The order of the windows as a list: raising a window and taking one out.
use paradox_os.Base.{
  Bool, Bool-cases, List, Option, [], ap, arith, false, for_range, for_range_inv, get_or,
  if◌then◌else◌, inl, inr, length, length-set, none, not, refl, set, some, suc, sym, take, true,
  zero, ℕ, ◌&&◌, ◌++◌, ◌+◌, ◌-◌, ◌<◌, ◌==◌, ◌||◌, ◌∙◌, ◌∷◌, ◌≡◌, ◌≤◌, ◌⊎◌,
}
use paradox_os.Gui.Windows.{Desk, find_pos, close_gap, z_bring_to_top, z_remove}

abbrev pub mem : ℕ → List ℕ → Bool
mem v [] = false
mem v (x ∷ xs) = (x == v) || mem v xs

-- A list without the first place of a value
abbrev pub remove_first : ℕ → List ℕ → List ℕ
remove_first v [] = []
remove_first v (x ∷ xs) = if x == v then xs else x ∷ remove_first v xs

-- The windows in the order in which they are painted
abbrev pub painted : Desk → List ℕ
painted s = take s.z_count s.z_order

abbrev next_pos : Option ℕ → Option ℕ
next_pos none = none
next_pos (some p) = some (suc p)

find_pos_cons :
    (x : ℕ) (z : List ℕ) (idx n i : ℕ)
    → find_pos (x ∷ z) idx n (suc i) ≡ next_pos (find_pos z idx n i)
unfolding find_pos
find_pos_cons x z idx zero i = refl
find_pos_cons x z idx (suc n) i =
    let next : suc i + 1 ≡ suc (i + 1) = omega arith in
    elim (Bool-cases (get_or z i 0 == idx)) [
      | inl here ↦ rw here refl
      | inr later ↦ rw (later, next) (find_pos_cons x z idx n (i + 1))
    ]

abbrev move_down : ℕ → List ℕ → List ℕ
move_down i y = set y i (get_or y (i + 1) 0)

move_down_cons :
    (k p x : ℕ) (z : List ℕ) → for_range k (suc p) move_down (x ∷ z) ≡ x ∷ for_range k p move_down z
unfolding for_range
move_down_cons zero p x z = refl
move_down_cons (suc k) p x z =
    let next : suc p + 1 ≡ suc (p + 1) = omega arith in
    rw next (move_down_cons k (p + 1) x (move_down p z))

move_down_first :
    (k x : ℕ) (z : List ℕ) → k ≤ length z → take k (for_range k 0 move_down (x ∷ z)) ≡ take k z
unfolding for_range
move_down_first zero x z h = refl
move_down_first (suc k) x [] h = absurd (omega arith)
move_down_first (suc k) x (y ∷ z) h =
    rw (move_down_cons k 0 y (y ∷ z)) (ap (λ r. y ∷ r) (move_down_first k y z (omega arith)))

length-close_gap : (z : List ℕ) (n p : ℕ) → length (close_gap z n p) ≡ length z
unfolding close_gap
length-close_gap z n p =
    for_range_inv (λ i y. length y ≡ length z) move_down (n - 1 - p) p (p + (n - 1 - p)) z refl
      (λ i y low high same. length-set y i (get_or y (i + 1) 0) ∙ same) refl

-- What the search finds among the first `n` windows.
record Found (z : List ℕ) (idx n p : ℕ) : Type 0 where
  inside : p < n
  present : mem idx (take n z) ≡ true
  gone : take (n - 1) (close_gap z n p) ≡ remove_first idx (take n z)

find_pos_cases :
    (z : List ℕ) (idx n : ℕ)
    → n ≤ length z
    → ((find_pos z idx n 0 ≡ none) × (mem idx (take n z) ≡ false))
      ⊎ ((p : ℕ) × (find_pos z idx n 0 ≡ some p) × Found z idx n p)
unfolding find_pos close_gap
find_pos_cases z idx zero h = inl (refl, refl)
find_pos_cases [] idx (suc n) h = absurd (omega arith)
find_pos_cases (x ∷ z) idx (suc n) h = elim (Bool-cases (x == idx)) [
  | inl here ↦
      let all : suc n - 1 - 0 ≡ n = omega arith in
      let less : suc n - 1 ≡ n = omega arith in
      inr (
        0,
        rw here refl,
        record {
          inside = omega arith;
          present = rw here refl;
          gone = rw (here, all, less) (move_down_first n x z (omega arith));
        },
      )
  | inr other ↦ elim (find_pos_cases z idx n (omega arith)) [
    | inl nowhere ↦
        inl (rw other (find_pos_cons x z idx n 0 ∙ ap next_pos nowhere.0), rw other nowhere.1)
    | inr (p, at, found) ↦
        let below = found.inside in
        let rounds : suc n - 1 - suc p ≡ n - 1 - p = omega (arith, below) in
        let less : suc n - 1 ≡ suc (n - 1) = omega (arith, below) in
        inr (
          suc p,
          rw other (find_pos_cons x z idx n 0 ∙ ap next_pos at),
          record {
            inside = omega (arith, below);
            present = rw other found.present;
            gone =
                rw (other, rounds, less, move_down_cons (n - 1 - p) p x z)
                  (ap (λ r. x ∷ r) found.gone);
          },
        )
  ]
]

take-set_last :
    (xs : List ℕ) (n v : ℕ) → n < length xs → take (suc n) (set xs n v) ≡ take n xs ++ (v ∷ [])
take-set_last [] n v h = absurd (omega arith)
take-set_last (x ∷ xs) zero v h = refl
take-set_last (x ∷ xs) (suc n) v h = ap (λ r. x ∷ r) (take-set_last xs n v (omega arith))

-- What is painted with one more window on top.
pub painted-push :
    (s : Desk) (idx : ℕ)
    → s.z_count < length s.z_order
    → take (s.z_count + 1) (set s.z_order s.z_count idx) ≡ painted s ++ (idx ∷ [])
painted-push s idx room =
    let one : s.z_count + 1 ≡ suc s.z_count = omega arith in
    rw one (take-set_last s.z_order s.z_count idx room)

remove_first-absent : (v : ℕ) (xs : List ℕ) → mem v xs ≡ false → remove_first v xs ≡ xs
remove_first-absent v [] h = refl
remove_first-absent v (x ∷ xs) h =
    let other : (x == v) ≡ false = ground (arith, h) in
    rw other (ap (λ r. x ∷ r) (remove_first-absent v xs (ground (arith, h))))

-- What raising a window does.
pub record Raised (s : Desk) (idx : ℕ) (t : Desk) : Type 0 where
  pub order :
      painted t
      ≡ (if mem idx (painted s) then remove_first idx (painted s) ++ (idx ∷ []) else painted s)
  pub size : length t.z_order ≡ length s.z_order
  pub frame : t ≡ record s { z_order = t.z_order }

-- Raising a window that is painted takes it out of its place and paints it last, on top of all
-- others, which keep their order; for a window that is not painted nothing changes.
pub z_bring_to_top_lem :
    (s : Desk) (idx : ℕ) → s.z_count ≤ length s.z_order → Raised s idx (z_bring_to_top s idx)
unfolding z_bring_to_top
z_bring_to_top_lem s idx fits = elim (find_pos_cases s.z_order idx s.z_count fits) [
  | inl nowhere ↦
      rw (nowhere.0, z_bring_to_top)
        (record { order = rw nowhere.1 refl; size = refl; frame = refl })
  | inr (p, at, found) ↦
      let inside = found.inside in
      let one : s.z_count ≡ suc (s.z_count - 1) = omega (arith, inside) in
      let size = length-close_gap s.z_order s.z_count p in
      let top =
        take-set_last (close_gap s.z_order s.z_count p) (s.z_count - 1) idx
          (omega (arith, size, inside, fits)) in
      rw (at, z_bring_to_top)
        (record {
          order =
              ap (λ n. take n (set (close_gap s.z_order s.z_count p) (s.z_count - 1) idx)) one
              ∙ top
              ∙ rw (found.present, found.gone) refl;
          size = length-set (close_gap s.z_order s.z_count p) (s.z_count - 1) idx ∙ size;
          frame = refl;
        })
]

-- What taking a window out does.
pub record Removed (s : Desk) (idx : ℕ) (t : Desk) : Type 0 where
  pub order : painted t ≡ remove_first idx (painted s)
  pub count : t.z_count ≡ (if mem idx (painted s) then s.z_count - 1 else s.z_count)
  pub size : length t.z_order ≡ length s.z_order
  pub frame : t ≡ record s { z_order = t.z_order; z_count = t.z_count }

pub z_remove_lem :
    (s : Desk) (idx : ℕ) → s.z_count ≤ length s.z_order → Removed s idx (z_remove s idx)
unfolding z_remove
z_remove_lem s idx fits = elim (find_pos_cases s.z_order idx s.z_count fits) [
  | inl nowhere ↦
      rw (nowhere.0, z_remove)
        (record {
          order = sym (remove_first-absent idx (painted s) nowhere.1);
          count = rw nowhere.1 refl;
          size = refl;
          frame = refl;
        })
  | inr (p, at, found) ↦
      rw (at, z_remove)
        (record {
          order = found.gone;
          count = rw found.present refl;
          size = length-close_gap s.z_order s.z_count p;
          frame = refl;
        })
]

-- No window is painted twice.
abbrev pub Distinct : List ℕ → Type 0
Distinct [] = Unit
Distinct (x ∷ xs) = (mem x xs ≡ false) × Distinct xs

pub mem-append : (v : ℕ) (xs ys : List ℕ) → mem v (xs ++ ys) ≡ (mem v xs || mem v ys)
mem-append v [] ys = refl
mem-append v (x ∷ xs) ys = rw (mem-append v xs ys) (ground arith)

pub mem-remove_first :
    (v u : ℕ) (xs : List ℕ) → Distinct xs → mem v (remove_first u xs) ≡ (mem v xs && not (u == v))
mem-remove_first v u [] d = ground arith
mem-remove_first v u (x ∷ xs) d = elim (Bool-cases (x == u)) [
  | inl here ↦
      let same : x ≡ u = ground arith in
      let absent : mem u xs ≡ false = rw (← same) d.0 in
      elim (Bool-cases (u == v)) [
        | inl now ↦
            let at : u ≡ v = ground arith in
            let gone : mem v xs ≡ false = rw (← at) absent in rw (here, gone, now) (ground arith)
        | inr off ↦ let far : (x == v) ≡ false = ground arith in rw (here, far, off) (ground arith)
      ]
  | inr other ↦
      rw (other, mem-remove_first v u xs d.1)
        (elim (Bool-cases (u == v)) [
          | inl now ↦ let far : (x == v) ≡ false = ground arith in rw (far, now) (ground arith)
          | inr off ↦ rw off (ground arith)
        ])
]

pub Distinct-remove_first : (u : ℕ) (xs : List ℕ) → Distinct xs → Distinct (remove_first u xs)
Distinct-remove_first u [] d = tt
Distinct-remove_first u (x ∷ xs) d = elim (Bool-cases (x == u)) [
  | inl here ↦ rw here d.1
  | inr other ↦ rw other (mem-remove_first x u xs d.1 ∙ rw d.0 refl, Distinct-remove_first u xs d.1)
]

pub Distinct-push :
    (v : ℕ) (xs : List ℕ) → mem v xs ≡ false → Distinct xs → Distinct (xs ++ (v ∷ []))
Distinct-push v [] h d = (refl, tt)
Distinct-push v (x ∷ xs) h d =
    (mem-append x xs (v ∷ []) ∙ ground (arith, d.0, h), Distinct-push v xs (ground (arith, h)) d.1)
