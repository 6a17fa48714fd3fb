-- ===== src/Gui/Input/Pressed.antt =====
-- What a press of the left button does to the windows.
use paradox_os.Base.{
  ==_refl, Bool, Bool-cases, List, Option, Option-cases, [], arith, false, get_or, inl, inr, length,
  none, refl, some, subst, suc, sym, take, true, zero, ℕ, ◌+◌, ◌<◌, ◌==◌, ◌∙◌, ◌∷◌, ◌≡◌, ◌≢◌, ◌≤◌,
  ◌⊎◌,
}
use mathlib.Core.Option.{some-injective}
use paradox_os.Base.Int.{ℤ, pos, ◌-ℤ◌, leb_ℤ}
use paradox_os.Gui.Windows.{AppType, Desk, window_at, z_bring_to_top, find_pos, close_window}
use paradox_os.Gui.Windows.Table.{IsValid, z_bring_to_top-IsValid}
use paradox_os.Gui.Windows.Closing.{close_window-IsValid}
use paradox_os.Gui.Input.{
  DiskFs, Gui, point_in, in_rect, point_in_close_btn, point_in_titlebar, taskbar_btn_rect, icons,
}
use paradox_os.Gui.Input.Press.{
  press_taskbar, window_under, press_icon, press_window, handle_left_press,
}
use paradox_os.Gui.Windows.Order.{mem}
use paradox_os.Gui.Windows.Table.{z_count-le}
use paradox_os.Gui.Input.Safe.{GuiValid, Idle, Idle-GuiValid, open_type-Idle}
use paradox_os.Gui.Input.Clicked.{click_content-Idle}

some-none : (i : ℕ) → some i ≢ none
some-none i e = subst (λ (o : Option ℕ). elim o [ none ↦ ⊥ | some j ↦ Unit ]) e tt

mem-get_or : (z : List ℕ) (n i : ℕ) → i < n → n ≤ length z → mem (get_or z i 0) (take n z) ≡ true
mem-get_or [] n i hi hn = absurd (omega (arith, hi, hn))
mem-get_or (x ∷ z) zero i hi hn = absurd (omega arith)
mem-get_or (x ∷ z) (suc n) zero hi hn = rw (==_refl x) refl
mem-get_or (x ∷ z) (suc n) (suc i) hi hn =
    rw (mem-get_or z n i (omega arith) (omega arith)) (ground arith)

-- A point in the window at a place of the order
abbrev pub covers : Desk → ℕ → ℤ → ℤ → Bool
covers s i cx cy =
    point_in cx cy (window_at s.windows (get_or s.z_order i 0)).x
      (window_at s.windows (get_or s.z_order i 0)).y (window_at s.windows (get_or s.z_order i 0)).w
      (window_at s.windows (get_or s.z_order i 0)).h

-- The search finds the topmost of the first `n` windows that the point is in, and nothing only if it
-- is in none of them.
pub window_under_lem :
    (s : Desk) (n : ℕ) (cx cy : ℤ)
    → ((window_under s n cx cy ≡ none) × ((j : ℕ) → j < n → covers s j cx cy ≡ false))
      ⊎ ((i : ℕ) × (i < n)
          × (window_under s n cx cy ≡ some (get_or s.z_order i 0))
          × (covers s i cx cy ≡ true)
          × ((j : ℕ) → i < j → j < n → covers s j cx cy ≡ false))
unfolding window_under
window_under_lem s zero cx cy = inl (refl, λ j h. absurd (omega arith))
window_under_lem s (suc n) cx cy = elim (Bool-cases (covers s n cx cy)) [
  | inl hit ↦ inr (n, omega arith, rw hit refl, hit, λ j above below. absurd (omega arith))
  | inr miss ↦ elim (window_under_lem s n cx cy) [
    | inl (nothing, out) ↦ inl (
      rw miss nothing,
      λ j below. elim (Bool-cases (j == n)) [
        | inl last ↦
            let at : n ≡ j = ground (arith, last) in subst (λ m. covers s m cx cy ≡ false) at miss
        | inr before ↦ out j (ground (arith, before, below))
      ],
    )
    | inr (i, inside, found, hit, out) ↦ inr (
      i,
      omega (arith, inside),
      rw miss found,
      hit,
      λ j above below. elim (Bool-cases (j == n)) [
        | inl last ↦
            let at : n ≡ j = ground (arith, last) in subst (λ m. covers s m cx cy ≡ false) at miss
        | inr before ↦ out j above (ground (arith, before, below))
      ],
    )
  ]
]

raised_windows : (s : Desk) (idx : ℕ) → (z_bring_to_top s idx).windows ≡ s.windows
unfolding z_bring_to_top
raised_windows s idx = elim (Option-cases (find_pos s.z_order idx s.z_count 0)) [
  | inl e ↦ rw (e, z_bring_to_top) refl
  | inr (p, e) ↦ rw (e, z_bring_to_top) refl
]

module _ {D : Type 0} where
  -- A window that is found is in use.
  found_used :
      (s : Gui D) (cx cy : ℤ) (idx : ℕ)
      → IsValid s.desk
      → window_under s.desk s.desk.z_count cx cy ≡ some idx
      → (window_at s.desk.windows idx).used ≡ true
  found_used s cx cy idx v found = elim (window_under_lem s.desk s.desk.z_count cx cy) [
    | inl nothing ↦ absurd (some-none idx (sym found ∙ nothing.0))
    | inr (i, inside, at, hit, above) ↦
        let same : get_or s.desk.z_order i 0 ≡ idx = some-injective _ _ (sym at ∙ found) in
        let present = mem-get_or s.desk.z_order s.desk.z_count i inside (z_count-le v) in
        rw (← same) (sym (v.shown (get_or s.desk.z_order i 0)) ∙ present)
  ]

  press_taskbar-Idle :
      (n i : ℕ) (s : Gui D) (cx cy : ℤ) → Idle s → Idle (press_taskbar n i s cx cy).1
  unfolding press_taskbar
  press_taskbar-Idle zero i s cx cy v = v
  press_taskbar-Idle (suc n) i s cx cy v =
      elim (Option-cases (taskbar_btn_rect s.desk s.screen_h i)) [
        | inl e ↦ rw (e, press_taskbar) v
        | inr (r, at) ↦ elim (Bool-cases (in_rect cx cy r)) [
          | inl hit ↦
              rw (at, press_taskbar, hit)
                (record {
                  desk = z_bring_to_top-IsValid (get_or s.desk.z_order i 0) v.desk;
                  drag = v.drag;
                })
          | inr miss ↦ rw (at, press_taskbar, miss) (press_taskbar-Idle n (i + 1) s cx cy v)
        ]
      ]

  press_icon-Idle :
      (rest : List (ℤ × ℤ × AppType)) (s : Gui D) (cx cy : ℤ)
      → Idle s
      → Idle (press_icon rest s cx cy).1
  unfolding press_icon
  press_icon-Idle [] s cx cy v = v
  press_icon-Idle ((x, y, app) ∷ rest) s cx cy v =
      elim (Bool-cases (point_in cx cy x y (pos 80) (pos 80))) [
        | inl hit ↦ rw hit (open_type-Idle s app v)
        | inr miss ↦ rw miss (press_icon-Idle rest s cx cy v)
      ]

  press_window-GuiValid :
      (fs : DiskFs D) (now : ℕ) (s : Gui D) (idx : ℕ) (cx cy : ℤ)
      → (window_at s.desk.windows idx).used ≡ true
      → Idle s
      → GuiValid (press_window fs now s idx cx cy)
  unfolding press_window
  press_window-GuiValid fs now s idx cx cy used v =
      let raised = z_bring_to_top-IsValid idx v.desk in
      elim (Bool-cases (point_in_close_btn (window_at s.desk.windows idx) cx cy)) [
        | inl e ↦
            let closed : Idle (record s { desk = close_window s.desk idx }) = record {
              desk = close_window-IsValid idx v.desk;
              drag = v.drag;
            } in
            rw e (Idle-GuiValid closed)
        | inr e ↦ elim (Bool-cases (point_in_titlebar (window_at s.desk.windows idx) cx cy)) [
          | inl e2 ↦
              let still : (window_at (z_bring_to_top s.desk idx).windows idx).used ≡ true =
                rw (raised_windows s.desk idx) used in
              rw (e, e2) (record { desk = raised; drag = still })
          | inr e2 ↦
              rw (e, e2)
                (Idle-GuiValid (
                  click_content-Idle fs now (window_at s.desk.windows idx).app
                    (record s { desk = z_bring_to_top s.desk idx }) cx cy
                    (record { desk = raised; drag = v.drag })))
        ]
      ]

  -- A press anywhere keeps the windows in order: one window more, one less, or another on top; what is
  -- dragged then is in use.
  pub handle_left_press-GuiValid :
      (fs : DiskFs D) (now : ℕ) (s : Gui D) (cx cy : ℤ)
      → Idle s
      → GuiValid (handle_left_press fs now s cx cy).1
  unfolding handle_left_press
  handle_left_press-GuiValid fs now s cx cy v =
      elim (Bool-cases (leb_ℤ (pos s.screen_h -ℤ pos 32) cy)) [
        | inl e ↦ rw e (Idle-GuiValid (press_taskbar-Idle s.desk.z_count 0 s cx cy v))
        | inr e ↦ elim (Option-cases (window_under s.desk s.desk.z_count cx cy)) [
          | inl nothing ↦
              rw (e, nothing, handle_left_press) (Idle-GuiValid (press_icon-Idle icons s cx cy v))
          | inr (idx, found) ↦
              rw (e, found, handle_left_press)
                (press_window-GuiValid fs now s idx cx cy (found_used s cx cy idx v.desk found) v)
        ]
      ]
