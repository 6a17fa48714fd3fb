-- ===== src/Gui/Windows/Closing.antt =====
-- Closing a window.
use paradox_os.Base.{
  Bool-cases, ap, arith, false, inl, inr, leb, length, length-set, not, set, subst, sym, true, ℕ,
  ◌&&◌, ◌==◌, ◌||◌, ◌∙◌, ◌≡◌,
}
use paradox_os.Gui.Windows.{AppType, Window, Desk, window_at, app_code, z_remove, close_window}
use paradox_os.Gui.Windows.Order.{
  mem, painted, Removed, z_remove_lem, Distinct, mem-remove_first, Distinct-remove_first,
}
use paradox_os.Gui.Windows.Table.{
  IsValid, count_used, count_used-set, used_inside, runs, z_count-le, mark_dirty-IsValid,
  window_at-set_ne, window_at-set_self,
}

-- Taking a window that is in use out of the table and of the order.
module _ (s : Desk) (k : ℕ) (valid : IsValid s) (taken : (window_at s.windows k).used ≡ true) where
  abbrev unused : Window
  unused = record (window_at s.windows k) { used = false }

  abbrev closing : Desk
  closing = record s { windows = set s.windows k unused }

  gone : Removed closing k (z_remove closing k)
  gone = z_remove_lem closing k (z_count-le valid)

  table : (z_remove closing k).windows ≡ set s.windows k unused
  table = ap (λ (u : Desk). u.windows) gone.frame

  listed : mem k (painted s) ≡ true
  listed = valid.shown k ∙ taken

  closed_count : (z_remove closing k).z_count ≡ count_used (set s.windows k unused)
  closed_count =
      let counted = count_used-set s.windows k unused (used_inside s.windows k taken) in
      let same = valid.count in gone.count ∙ rw listed (ground (arith, counted, taken, same))

  closed_shown :
      (i : ℕ) → mem i (painted (z_remove closing k)) ≡ (window_at (set s.windows k unused) i).used
  closed_shown i =
      ap (mem i) gone.order
      ∙ mem-remove_first i k (painted s) valid.once
      ∙ elim (Bool-cases (k == i)) [
        | inl here ↦
            let at : k ≡ i = ground arith in
            let entry : (window_at (set s.windows k unused) i).used ≡ false = rw (← at) (
              ap (λ (u : Window). u.used)
                (window_at-set_self s.windows k unused (used_inside s.windows k taken))) in
            rw (here, entry) (ground arith)
        | inr other ↦
            rw (other, window_at-set_ne s.windows k i unused other, valid.shown i) (ground arith)
      ]

  -- What still runs ran before.
  closed_runs :
      (t : AppType) (i : ℕ) → runs (set s.windows k unused) t i ≡ true → runs s.windows t i ≡ true
  closed_runs t i h = elim (Bool-cases (k == i)) [
    | inl here ↦
        let at : k ≡ i = ground arith in
        let entry : (window_at (set s.windows k unused) i).used ≡ false = rw (← at) (
          ap (λ (u : Window). u.used)
            (window_at-set_self s.windows k unused (used_inside s.windows k taken))) in
        absurd (ground (arith, h, entry))
    | inr other ↦
        ap (λ (u : Window). u.used && (app_code u.app == app_code t))
          (sym (window_at-set_ne s.windows k i unused other))
        ∙ h
  ]

  closed-IsValid : IsValid (z_remove closing k)
  closed-IsValid = record {
    table_size = ap length table ∙ length-set s.windows k unused ∙ valid.table_size;
    order_size = gone.size ∙ valid.order_size;
    count = closed_count ∙ ap count_used (sym table);
    once = subst Distinct (sym gone.order) (Distinct-remove_first k (painted s) valid.once);
    shown = λ i. closed_shown i ∙ ap (λ ws. (window_at ws i).used) (sym table);
    one_each =
        subst (λ ws. (i j : ℕ) (t : AppType) → runs ws t i ≡ true → runs ws t j ≡ true → i ≡ j)
          (sym table)
          (λ i j t hi hj. valid.one_each i j t (closed_runs t i hi) (closed_runs t j hj));
  }

-- Closing a window keeps the invariant, whatever the index is.
pub close_window-IsValid : {s : Desk} (idx : ℕ) → IsValid s → IsValid (close_window s idx)
unfolding close_window
close_window-IsValid {s} idx v =
    elim (Bool-cases (leb 8 idx || not (window_at s.windows idx).used)) [
      | inl other ↦ rw other v
      | inr mine ↦
          let taken : (window_at s.windows idx).used ≡ true = ground (arith, mine) in
          rw mine (mark_dirty-IsValid (closed-IsValid s idx v taken))
    ]
