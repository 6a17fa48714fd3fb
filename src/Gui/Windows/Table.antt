-- ===== src/Gui/Windows/Table.antt =====
-- The invariant of the window manager: exactly the windows in use are painted, each once, and no
-- application has two of them.
use paradox_os.Base.{
  ==_ne, ==_refl, Bool, Bool-cases, List, [], ap, arith, false, get_or-set_ne, get_or-set_self,
  if◌then◌else◌, inl, inr, length, none, refl, set, some, subst, suc, sym, true, zero, ℕ, ◌&&◌,
  ◌++◌, ◌+◌, ◌<◌, ◌==◌, ◌∙◌, ◌∷◌, ◌≡◌, ◌≤◌, ◌⊎◌,
}
use paradox_os.Gui.Windows.{
  AppType, Window, Desk, window_at, app_code, find_type_from, alloc_from, z_bring_to_top,
  mark_dirty, no_window,
}
use paradox_os.Gui.Windows.Order.{
  mem, remove_first, painted, z_bring_to_top_lem, Distinct, mem-append, mem-remove_first,
  Distinct-remove_first, Distinct-push,
}

abbrev pub count_used : List Window → ℕ
count_used [] = 0
count_used (v ∷ vs) = (if v.used then 1 else 0) + count_used vs

pub count_used-le : (vs : List Window) → count_used vs ≤ length vs
count_used-le [] = omega arith
count_used-le (v ∷ vs) = ground (arith, count_used-le vs)

-- A change of one entry of the table.
pub count_used-set :
    (vs : List Window) (i : ℕ) (v : Window)
    → i < length vs
    → count_used (set vs i v) + (if (window_at vs i).used then 1 else 0)
      ≡ count_used vs + (if v.used then 1 else 0)
count_used-set [] i v h = absurd (omega arith)
count_used-set (u ∷ vs) zero v h = ground arith
count_used-set (u ∷ vs) (suc i) v h =
    let ih = count_used-set vs i v (omega arith) in ground (arith, ih)

pub used_inside : (vs : List Window) (i : ℕ) → (window_at vs i).used ≡ true → i < length vs
used_inside [] i h = absurd (ground (arith, h))
used_inside (u ∷ vs) zero h = omega arith
used_inside (u ∷ vs) (suc i) h = omega (arith, used_inside vs i h)

-- A window of the application in use
abbrev pub runs : List Window → AppType → ℕ → Bool
runs vs t i = (window_at vs i).used && (app_code (window_at vs i).app == app_code t)

pub find_type_cases :
    (vs : List Window) (from : ℕ) (t : AppType)
    → ((find_type_from vs from t ≡ none) × ((i : ℕ) → runs vs t i ≡ false))
      ⊎ ((k : ℕ) × (find_type_from vs from t ≡ some (from + k)) × (runs vs t k ≡ true))
unfolding find_type_from
find_type_cases [] from t = inl (refl, λ i. refl)
find_type_cases (v ∷ vs) from t = elim (Bool-cases (v.used && (app_code v.app == app_code t))) [
  | inl here ↦ inr (0, rw here (ap some (omega arith)), here)
  | inr other ↦ elim (find_type_cases vs (from + 1) t) [
    | inl nowhere ↦ inl (
      rw other nowhere.0,
      λ i. elim i as (λ m. runs (v ∷ vs) t m ≡ false) [ zero ↦ other | suc j ↦ nowhere.1 j ],
    )
    | inr (k, at, it) ↦ inr (suc k, rw other (at ∙ ap some (omega arith)), it)
  ]
]

pub alloc_cases :
    (vs : List Window) (from : ℕ)
    → ((alloc_from vs from ≡ none) × (count_used vs ≡ length vs))
      ⊎ ((k : ℕ) × (alloc_from vs from ≡ some (from + k))
          × (k < length vs)
          × ((window_at vs k).used ≡ false))
unfolding alloc_from
alloc_cases [] from = inl (refl, refl)
alloc_cases (v ∷ vs) from = elim (Bool-cases v.used) [
  | inr spare ↦ inr (0, rw spare (ap some (omega arith)), omega arith, spare)
  | inl taken ↦ elim (alloc_cases vs (from + 1)) [
    | inl full ↦ inl (rw taken full.0, rw (taken, full.1) (omega arith))
    | inr (k, at, inside, spare) ↦
        inr (suc k, rw taken (at ∙ ap some (omega arith)), omega (arith, inside), spare)
  ]
]

pub record IsValid (s : Desk) : Type 0 where
  pub table_size : length s.windows ≡ 8
  pub order_size : length s.z_order ≡ 8
  pub count : s.z_count ≡ count_used s.windows
  pub once : Distinct (painted s)
  pub shown : (i : ℕ) → mem i (painted s) ≡ (window_at s.windows i).used
  pub one_each :
      (i j : ℕ) (t : AppType) → runs s.windows t i ≡ true → runs s.windows t j ≡ true → i ≡ j

-- There is room in the order for every window.
pub z_count-le : {s : Desk} → IsValid s → s.z_count ≤ length s.z_order
z_count-le {s} v = omega (arith, v.count, count_used-le s.windows, v.table_size, v.order_size)

-- A state that differs in the order only is as valid as its order.
reorder :
    {s t : Desk}
    → IsValid s
    → t ≡ record s { z_order = t.z_order }
    → length t.z_order ≡ length s.z_order
    → Distinct (painted t)
    → ((i : ℕ) → mem i (painted t) ≡ mem i (painted s))
    → IsValid t
reorder {s} {t} v frame size once same =
    let table : t.windows ≡ s.windows = ap (λ (u : Desk). u.windows) frame in
    let count : t.z_count ≡ s.z_count = ap (λ (u : Desk). u.z_count) frame in
    record {
      table_size = ap length table ∙ v.table_size;
      order_size = size ∙ v.order_size;
      count = count ∙ v.count ∙ ap count_used (sym table);
      once = once;
      shown = λ i. same i ∙ v.shown i ∙ ap (λ ws. (window_at ws i).used) (sym table);
      one_each =
          subst (λ ws. (i j : ℕ) (a : AppType) → runs ws a i ≡ true → runs ws a j ≡ true → i ≡ j)
            (sym table) v.one_each;
    }

-- The same windows are painted, each once.
raised_order :
    (idx : ℕ) (xs : List ℕ)
    → Distinct xs
    → Distinct (if mem idx xs then remove_first idx xs ++ (idx ∷ []) else xs)
      × ((i : ℕ) → mem i (if mem idx xs then remove_first idx xs ++ (idx ∷ []) else xs) ≡ mem i xs)
raised_order idx xs d = elim (Bool-cases (mem idx xs)) [
  | inr absent ↦ rw absent (d, λ i. refl)
  | inl present ↦
      let gone : mem idx (remove_first idx xs) ≡ false =
        mem-remove_first idx idx xs d ∙ rw (==_refl idx) (ground arith) in
      rw present (
        Distinct-push idx (remove_first idx xs) gone (Distinct-remove_first idx xs d),
        λ i.
            mem-append i (remove_first idx xs) (idx ∷ [])
            ∙ rw (mem-remove_first i idx xs d) (elim (Bool-cases (idx == i)) [
              | inl here ↦
                  let at : idx ≡ i = ground arith in
                  let yes_i : mem i xs ≡ true = rw (← at) present in rw (here, yes_i) refl
              | inr other ↦ rw other (ground arith)
            ]),
      )
]

pub z_bring_to_top-IsValid : {s : Desk} (idx : ℕ) → IsValid s → IsValid (z_bring_to_top s idx)
z_bring_to_top-IsValid {s} idx v =
    let up = z_bring_to_top_lem s idx (z_count-le v) in
    let order = raised_order idx (painted s) v.once in
    reorder v up.frame up.size (subst Distinct (sym up.order) order.0)
      (λ i. ap (mem i) up.order ∙ order.1 i)

pub mark_dirty-IsValid : {s : Desk} → IsValid s → IsValid (mark_dirty s)
mark_dirty-IsValid v = record {
  table_size = v.table_size;
  order_size = v.order_size;
  count = v.count;
  once = v.once;
  shown = v.shown;
  one_each = v.one_each;
}

-- The entries of the table but one.
pub window_at-set_ne :
    (vs : List Window) (k i : ℕ) (v : Window)
    → (k == i) ≡ false
    → window_at (set vs k v) i ≡ window_at vs i
window_at-set_ne vs k i v other = get_or-set_ne vs k i v no_window (==_ne k i other)

pub window_at-set_self :
    (vs : List Window) (k : ℕ) (v : Window) → k < length vs → window_at (set vs k v) k ≡ v
window_at-set_self vs k v h = get_or-set_self vs k v no_window h
