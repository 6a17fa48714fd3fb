-- ===== src/Gui/Windows/Entries.antt =====
-- Changes of a window that keep its use and its application.
use paradox_os.Base.{
  List, [], ap, ap₂, if◌then◌else◌, length, refl, set, suc, sym, zero, ℕ, ◌&&◌, ◌+◌, ◌==◌, ◌∙◌, ◌∷◌,
  ◌≡◌,
}
use paradox_os.Gui.Windows.{AppType, Window, Desk, window_at, app_code}
use paradox_os.Gui.Windows.Table.{IsValid, count_used, runs}

-- The two tables agree on what is in use.
record SameUse (vs ws : List Window) : Type 0 where
  size : length ws ≡ length vs
  count : count_used ws ≡ count_used vs
  used : (i : ℕ) → (window_at ws i).used ≡ (window_at vs i).used
  app : (i : ℕ) → (window_at ws i).app ≡ (window_at vs i).app

set-SameUse :
    (vs : List Window) (k : ℕ) (v : Window)
    → v.used ≡ (window_at vs k).used
    → v.app ≡ (window_at vs k).app
    → SameUse vs (set vs k v)
set-SameUse [] k v hu ha = record { size = refl; count = refl; used = λ i. refl; app = λ i. refl }
set-SameUse (u ∷ vs) zero v hu ha = record {
  size = refl;
  count = rw hu refl;
  used = λ i. elim i as (λ m. (window_at (v ∷ vs) m).used ≡ (window_at (u ∷ vs) m).used) [
    | zero ↦ hu
    | suc j ↦ refl
  ];
  app = λ i. elim i as (λ m. (window_at (v ∷ vs) m).app ≡ (window_at (u ∷ vs) m).app) [
    | zero ↦ ha
    | suc j ↦ refl
  ];
}
set-SameUse (u ∷ vs) (suc k) v hu ha =
    let ih = set-SameUse vs k v hu ha in
    record {
      size = ap suc ih.size;
      count = ap (λ n. (if u.used then 1 else 0) + n) ih.count;
      used = λ i.
          elim i as (λ m. (window_at (u ∷ set vs k v) m).used ≡ (window_at (u ∷ vs) m).used) [
            | zero ↦ refl
            | suc j ↦ ih.used j
          ];
      app = λ i. elim i as (λ m. (window_at (u ∷ set vs k v) m).app ≡ (window_at (u ∷ vs) m).app) [
        | zero ↦ refl
        | suc j ↦ ih.app j
      ];
    }

-- A change of a window that keeps its use and its application keeps the invariant.
pub set_window-IsValid :
    (s : Desk) (k : ℕ) (v : Window)
    → v.used ≡ (window_at s.windows k).used
    → v.app ≡ (window_at s.windows k).app
    → IsValid s
    → IsValid (record s { windows = set s.windows k v })
set_window-IsValid s k v hu ha valid =
    let same = set-SameUse s.windows k v hu ha in
    let runs_same : (t : AppType) (i : ℕ) → runs (set s.windows k v) t i ≡ runs s.windows t i =
      λ t i. ap₂ (λ b a. b && (app_code a == app_code t)) (same.used i) (same.app i) in
    record {
      table_size = same.size ∙ valid.table_size;
      order_size = valid.order_size;
      count = valid.count ∙ sym same.count;
      once = valid.once;
      shown = λ i. valid.shown i ∙ sym (same.used i);
      one_each =
          λ i j t hi hj. valid.one_each i j t (sym (runs_same t i) ∙ hi) (sym (runs_same t j) ∙ hj);
    }
