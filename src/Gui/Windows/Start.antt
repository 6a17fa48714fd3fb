-- ===== src/Gui/Windows/Start.antt =====
-- The windows at the start, the loop of `gui_init` in src/kernel/gui.cpp.
use paradox_os.Base.{
  ==_ne, Bool-cases, List, [], ap, arith, false, for_range, for_range_inv, get_or-set_ne,
  get_or-set_self, inl, inr, length, length-set, ltb, ltb→lt, refl, set, suc, sym, zero, ℕ, ◌+◌,
  ◌<◌, ◌==◌, ◌∙◌, ◌∷◌, ◌≡◌, ◌≤◌,
}
use paradox_os.Gui.Windows.{Window, Desk, window_at, no_window}
use paradox_os.Gui.Windows.Table.{IsValid, count_used}
use paradox_os.Gui.Terminal.{term_clear}

unfoldable pub close_all : List Window → List Window
close_all ws = for_range 8 0 (λ i vs. set vs i (record (window_at vs i) { used = false })) ws

unfoldable pub init_windows : Desk → Desk
init_windows s = record s { term = term_clear s.term; windows = close_all s.windows; z_count = 0 }

-- The first `k` windows are closed.
record Closed (ws : List Window) (k : ℕ) (vs : List Window) : Type 0 where
  size : length vs ≡ length ws
  closed : (j : ℕ) → j < k → (window_at vs j).used ≡ false

close_one :
    (ws vs : List Window) (k : ℕ)
    → k < length ws
    → Closed ws k vs
    → Closed ws (k + 1) (set vs k (record (window_at vs k) { used = false }))
close_one ws vs k inside now = record {
  size = length-set vs k (record (window_at vs k) { used = false }) ∙ now.size;
  closed = λ j below. elim (Bool-cases (k == j)) [
    | inl here ↦
        let at : k ≡ j = ground arith in
        rw (← at) (
          ap (λ (v : Window). v.used)
            (get_or-set_self vs k (record (window_at vs k) { used = false }) no_window
              (omega (arith, now.size, inside))))
    | inr other ↦
        ap (λ (v : Window). v.used)
          (get_or-set_ne vs k j (record (window_at vs k) { used = false }) no_window
            (==_ne k j other))
        ∙ now.closed j (ground (arith, other, below))
  ];
}

close_all-Closed : (ws : List Window) → length ws ≡ 8 → Closed ws 8 (close_all ws)
unfolding close_all
close_all-Closed ws size =
    for_range_inv (λ k vs. Closed ws k vs)
      (λ i vs. set vs i (record (window_at vs i) { used = false })) 8 0 8 ws refl
      (λ k vs low high now. close_one ws vs k (omega arith) now)
      (record { size = refl; closed = λ j below. absurd (omega arith) })

unused_from : (vs : List Window) (j : ℕ) → length vs ≤ j → (window_at vs j).used ≡ false
unused_from [] j h = refl
unused_from (v ∷ vs) zero h = absurd (omega arith)
unused_from (v ∷ vs) (suc j) h = unused_from vs j (omega arith)

count_unused : (vs : List Window) → ((j : ℕ) → (window_at vs j).used ≡ false) → count_used vs ≡ 0
count_unused [] h = refl
count_unused (v ∷ vs) h = rw (h 0, count_unused vs (λ j. h (suc j))) refl

-- From any tables of eight places, the start makes a valid empty desktop.
pub init_windows-IsValid :
    (s : Desk) → length s.windows ≡ 8 → length s.z_order ≡ 8 → IsValid (init_windows s)
unfolding init_windows
init_windows-IsValid s size order =
    let all = close_all-Closed s.windows size in
    let none_used : (j : ℕ) → (window_at (close_all s.windows) j).used ≡ false = λ j.
      elim (Bool-cases (ltb j 8)) [
        | inl below ↦ all.closed j (ltb→lt _ _ below)
        | inr beyond ↦ unused_from (close_all s.windows) j (ground (arith, all.size, size, beyond))
      ] in
    record {
      table_size = all.size ∙ size;
      order_size = order;
      count = sym (count_unused (close_all s.windows) none_used);
      once = tt;
      shown = λ i. sym (none_used i);
      one_each = λ i j t hi hj. absurd (ground (arith, hi, none_used i));
    }
