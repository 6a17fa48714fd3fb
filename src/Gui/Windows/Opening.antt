-- ===== src/Gui/Windows/Opening.antt =====
-- Opening an application.
use paradox_os.Base.{
  Bool-cases, [], ap, arith, false, if◌then◌else◌, inl, inr, length, length-set, refl, set, subst,
  sym, true, ℕ, ◌++◌, ◌+◌, ◌<◌, ◌==◌, ◌∙◌, ◌∷◌, ◌≡◌,
}
use paradox_os.Base.Int.{pos}
use paradox_os.Gui.Windows.{
  AppType, Window, Desk, window_at, app_code, find_window_of_type, alloc_window, new_window,
  open_app,
}
use paradox_os.Gui.Windows.Order.{mem, painted, painted-push, Distinct, mem-append, Distinct-push}
use paradox_os.Gui.Windows.Table.{
  IsValid, count_used, count_used-le, count_used-set, runs, find_type_cases, alloc_cases,
  z_bring_to_top-IsValid, mark_dirty-IsValid, window_at-set_ne, window_at-set_self,
}

-- Opening a window at an entry that is not in use, for an application that has none.
module _ (s : Desk) (k : ℕ) (v : Window) (valid : IsValid s) (inside : k < length s.windows)
    (spare : (window_at s.windows k).used ≡ false) (now : v.used ≡ true)
    (new : (i : ℕ) → runs s.windows v.app i ≡ false) where
  abbrev opened : Desk
  opened = record s {
    windows = set s.windows k v;
    z_order = set s.z_order s.z_count k;
    z_count = s.z_count + 1;
  }

  some_room : s.z_count < length s.z_order
  some_room =
      let counted = count_used-set s.windows k v inside in
      let bound = count_used-le (set s.windows k v) in
      let size = length-set s.windows k v in
      let same = valid.count in
      let table = valid.table_size in
      let order = valid.order_size in
      let counts : count_used (set s.windows k v) ≡ count_used s.windows + 1 =
        ground (arith, counted, spare, now) in
      omega (arith, counts, bound, size, same, table, order)

  opened_order : painted opened ≡ painted s ++ (k ∷ [])
  opened_order = painted-push s k some_room

  hidden : mem k (painted s) ≡ false
  hidden = valid.shown k ∙ spare

  opened_shown : (i : ℕ) → mem i (painted opened) ≡ (window_at (set s.windows k v) i).used
  opened_shown i =
      ap (mem i) opened_order ∙ mem-append i (painted s) (k ∷ []) ∙ elim (Bool-cases (k == i)) [
        | inl here ↦
            let at : k ≡ i = ground arith in
            let entry : (window_at (set s.windows k v) i).used ≡ true =
              rw (← at)
                (ap (λ (u : Window). u.used) (window_at-set_self s.windows k v inside) ∙ now) in
            rw (here, entry) (ground arith)
        | inr other ↦
            rw (other, window_at-set_ne s.windows k i v other, valid.shown i) (ground arith)
      ]

  -- A window of an application in the new table is the new one or an old one.
  opened_runs :
      (t : AppType) (i : ℕ)
      → runs (set s.windows k v) t i
        ≡ (if k == i then app_code v.app == app_code t else runs s.windows t i)
  opened_runs t i = elim (Bool-cases (k == i)) [
    | inl here ↦
        let at : k ≡ i = ground arith in
        let entry : window_at (set s.windows k v) i ≡ v =
          rw (← at) (window_at-set_self s.windows k v inside) in
        rw (here, entry, now) refl
    | inr other ↦ rw (other, window_at-set_ne s.windows k i v other) refl
  ]

  -- Beside the new window there is no other of its application.
  opened_alone :
      (t : AppType) (j : ℕ) → (app_code v.app == app_code t) ≡ true → runs s.windows t j ≡ false
  opened_alone t j same =
      let code : app_code v.app ≡ app_code t = ground (arith, same) in rw (← code) (new j)

  opened_one :
      (i j : ℕ) (t : AppType)
      → runs (set s.windows k v) t i ≡ true
      → runs (set s.windows k v) t j ≡ true
      → i ≡ j
  opened_one i j t hi hj =
      let at_i = sym (opened_runs t i) ∙ hi in
      let at_j = sym (opened_runs t j) ∙ hj in
      elim (Bool-cases (k == i)) [
        | inl e ↦ elim (Bool-cases (k == j)) [
          | inl e2 ↦ ground (arith, e, e2)
          | inr e2 ↦
              let alone = opened_alone t j (ground (arith, at_i, e)) in
              absurd (ground (arith, alone, at_j, e2))
        ]
        | inr e ↦ elim (Bool-cases (k == j)) [
          | inl e2 ↦
              let alone = opened_alone t i (ground (arith, at_j, e2)) in
              absurd (ground (arith, alone, at_i, e))
          | inr e2 ↦ valid.one_each i j t (ground (arith, at_i, e)) (ground (arith, at_j, e2))
        ]
      ]

  opened-IsValid : IsValid opened
  opened-IsValid = record {
    table_size = length-set s.windows k v ∙ valid.table_size;
    order_size = length-set s.z_order s.z_count k ∙ valid.order_size;
    count =
        let counted = count_used-set s.windows k v inside in
        let same = valid.count in ground (arith, counted, spare, now, same);
    once = subst Distinct (sym opened_order) (Distinct-push k (painted s) hidden valid.once);
    shown = opened_shown;
    one_each = opened_one;
  }

new_window_app :
    (w h : ℕ) (cascade : ℕ) (t : AppType)
    → ((new_window (pos w) (pos h) cascade t).app ≡ t)
      × ((new_window (pos w) (pos h) cascade t).used ≡ true)
unfolding new_window
new_window_app w h cascade t = (refl, refl)

-- Opening an application keeps the invariant, whether it has a window already, gets a new one, or
-- finds no room.
pub open_app-IsValid :
    {s : Desk} (screen_w screen_h : ℕ) (t : AppType)
    → IsValid s
    → IsValid (open_app s screen_w screen_h t)
unfolding open_app find_window_of_type alloc_window
open_app-IsValid {s} screen_w screen_h t v = elim (find_type_cases s.windows 0 t) [
  | inr (k, at, it) ↦ rw (at, open_app) (mark_dirty-IsValid (z_bring_to_top-IsValid (0 + k) v))
  | inl nowhere ↦ elim (alloc_cases s.windows 0) [
    | inl full ↦ rw (nowhere.0, full.0, open_app) v
    | inr (k, at, inside, spare) ↦
        let new = new_window_app screen_w screen_h s.next_cascade t in
        let fresh =
          opened-IsValid s k (new_window (pos screen_w) (pos screen_h) s.next_cascade t) v inside
            spare new.1 (λ i. rw new.0 (nowhere.1 i)) in
        let first : 0 + k ≡ k = omega arith in
        rw (nowhere.0, at, open_app, first)
          (record {
            table_size = fresh.table_size;
            order_size = fresh.order_size;
            count = fresh.count;
            once = fresh.once;
            shown = fresh.shown;
            one_each = fresh.one_each;
          })
  ]
]
