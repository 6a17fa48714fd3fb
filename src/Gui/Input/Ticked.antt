-- ===== src/Gui/Input/Ticked.antt =====
-- The tick keeps the windows in order, and a dragged window on the screen.
use paradox_os.Base.{
  Bool-cases, Option, Option-cases, ap, arith, false, inl, inr, length, not, refl, set, some, subst,
  sym, true, ℕ, ◌&&◌, ◌<◌, ◌||◌, ◌∙◌, ◌≡◌, ◌≤◌, ◌⊎◌,
}
use paradox_os.Base.Int.{ℤ, pos, ◌+ℤ◌, ◌-ℤ◌, ◌≤ℤ◌, eq_of_parts}
use paradox_os.Base.Bits.{test_bit}
use paradox_os.Mouse.{MouseEvent}
use paradox_os.Gui.Windows.{Window, Desk, window_at}
use paradox_os.Gui.Windows.Table.{IsValid, window_at-set_self, used_inside}
use paradox_os.Gui.Windows.Entries.{set_window-IsValid}
use paradox_os.Gui.Input.{DiskFs, Gui}
use paradox_os.Gui.Input.Tick.{
  drag_to, update_drag, begin_press, end_drag, watch, gui_tick, eq_ℤ, drag_x, drag_y,
}
use paradox_os.Gui.Input.Safe.{DragUsed, GuiValid, Idle}
use paradox_os.Gui.Input.Areas.{gui_present, gui_present-Drawn}
use paradox_os.Gui.Input.Pressed.{handle_left_press-GuiValid}

clean_desk : {s : Desk} → IsValid s → IsValid (record s { term = record s.term { dirty = false } })
clean_desk v = record {
  table_size = v.table_size;
  order_size = v.order_size;
  count = v.count;
  once = v.once;
  shown = v.shown;
  one_each = v.one_each;
}

module _ {D : Type 0} where
  drag_to-GuiValid :
      (s : Gui D) (idx : ℕ) (ev : MouseEvent)
      → s.drag_idx ≡ some idx
      → GuiValid s
      → GuiValid (drag_to s idx ev).1
  unfolding drag_to
  drag_to-GuiValid s idx ev drags v =
      let w = window_at s.desk.windows idx in
      let nx = drag_x s.screen_w w ev.x s.drag_off_x in
      let ny = drag_y s.screen_h ev.y s.drag_off_y in
      let moved : Window = record w { x = nx; y = ny } in
      let used : w.used ≡ true = subst (λ o. DragUsed s.desk.windows o) drags v.drag in
      let there =
        window_at-set_self s.desk.windows idx moved (used_inside s.desk.windows idx used) in
      elim (Bool-cases (not w.used || (eq_ℤ w.x nx && eq_ℤ w.y ny))) [
        | inl e ↦ rw e v
        | inr e ↦ rw e (record {
          desk = set_window-IsValid s.desk idx moved refl refl v.desk;
          drag =
              subst (λ o. DragUsed (set s.desk.windows idx moved) o) (sym drags)
                (ap (λ (u : Window). u.used) there ∙ used);
        })
      ]

  update_drag-GuiValid : (s : Gui D) (ev : MouseEvent) → GuiValid s → GuiValid (update_drag s ev).1
  unfolding update_drag
  update_drag-GuiValid s ev v = elim (Option-cases s.drag_idx) [
    | inl e ↦ rw (e, update_drag) v
    | inr (idx, e) ↦ rw (e, update_drag) (drag_to-GuiValid s idx ev e v)
  ]

  begin_press-GuiValid :
      (fs : DiskFs D) (now : ℕ) (s : Gui D) (ev : MouseEvent)
      → GuiValid s
      → GuiValid (begin_press fs now s ev).1
  unfolding begin_press
  begin_press-GuiValid fs now s ev v = elim (Option-cases s.drag_idx) [
    | inr (idx, e) ↦ rw (e, begin_press) v
    | inl e ↦ elim (Bool-cases (test_bit ev.pressed 0)) [
      | inl e2 ↦
          let idle : Idle s = record { desk = v.desk; drag = e } in
          rw (e, begin_press, e2) (handle_left_press-GuiValid fs now s ev.x ev.y idle)
      | inr e2 ↦ rw (e, begin_press, e2) v
    ]
  ]

  end_drag-GuiValid : (s : Gui D) (ev : MouseEvent) → GuiValid s → GuiValid (end_drag s ev)
  unfolding end_drag
  end_drag-GuiValid s ev v = elim (Bool-cases (test_bit ev.released 0)) [
    | inl e ↦ rw e (record { desk = v.desk; drag = tt })
    | inr e ↦ rw e v
  ]

  watch-GuiValid :
      (now : ℕ) (s : Gui D) (ev : MouseEvent) → GuiValid s → GuiValid (watch now s ev).1
  unfolding watch
  watch-GuiValid now s ev v = record { desk = v.desk; drag = v.drag }

  -- What a tick does before it paints.
  abbrev pub before_painting : DiskFs D → ℕ → Gui D → MouseEvent → Gui D
  before_painting fs now s ev =
      (watch now (end_drag (update_drag (begin_press fs now s ev).1 ev).1 ev) ev).1

  before_painting-GuiValid :
      (fs : DiskFs D) (now : ℕ) (s : Gui D) (ev : MouseEvent)
      → GuiValid s
      → GuiValid (before_painting fs now s ev)
  before_painting-GuiValid fs now s ev v =
      let t = begin_press-GuiValid fs now s ev v in
      let u = update_drag-GuiValid (begin_press fs now s ev).1 ev t in
      let w = end_drag-GuiValid (update_drag (begin_press fs now s ev).1 ev).1 ev u in
      watch-GuiValid now (end_drag (update_drag (begin_press fs now s ev).1 ev).1 ev) ev w

  gui_tick_cases :
      (fs : DiskFs D) (now : ℕ) (s : Gui D) (ev : MouseEvent)
      → (gui_tick fs now s ev ≡ before_painting fs now s ev)
        ⊎ (gui_tick fs now s ev
            ≡ gui_present (record (before_painting fs now s ev) {
              desk = record (before_painting fs now s ev).desk {
                term = record (before_painting fs now s ev).desk.term { dirty = false };
              };
            }))
  unfolding gui_tick
  gui_tick_cases fs now s ev =
      let t = (begin_press fs now s ev).1 in
      let u = (update_drag t ev).1 in
      elim (Bool-cases (
        s.desk.term.dirty
        || ((begin_press fs now s ev).0
            || ((update_drag t ev).0 || (watch now (end_drag u ev) ev).0)))) [
              | inl e ↦ inr (rw e refl)
              | inr e ↦ inl (rw e refl)
            ]

  -- A tick of the desktop keeps the windows in order, whatever the mouse has done: exactly the windows
  -- in use are painted, each once, no application has two of them, and what is dragged is one of
  -- the windows in use or nothing.
  pub gui_tick-GuiValid :
      (fs : DiskFs D) (now : ℕ) (s : Gui D) (ev : MouseEvent)
      → GuiValid s
      → GuiValid (gui_tick fs now s ev)
  gui_tick-GuiValid fs now s ev v =
      let b = before_painting-GuiValid fs now s ev v in
      elim (gui_tick_cases fs now s ev) [
        | inl quiet ↦ subst GuiValid (sym quiet) b
        | inr painted_now ↦
            let b2 = before_painting fs now s ev in
            let shown : Gui D = record b2 {
              desk = record b2.desk { term = record b2.desk.term { dirty = false } };
            } in
            let drawn = gui_present-Drawn shown in
            subst GuiValid (sym painted_now) (record {
              desk = subst IsValid (sym drawn.desk) (clean_desk b.desk);
              drag =
                  subst (λ (o : Option ℕ). DragUsed (gui_present shown).desk.windows o)
                    (sym drawn.drag)
                    (subst (λ (d : Desk). DragUsed d.windows b2.drag_idx) (sym drawn.desk) b.drag);
            })
      ]

-- Where a window stands while it is dragged
abbrev pub Reachable : ℕ → ℕ → Window → Type 0
Reachable screen_w screen_h w =
    (w.x ≤ℤ pos screen_w -ℤ pos 80)
    × (pos 80 ≤ℤ w.x +ℤ w.w)
    × (pos 0 ≤ℤ w.y)
    × (w.y ≤ℤ pos screen_h -ℤ pos 56)

drag_x_reach :
    (screen_w : ℕ) (w : Window) (pointer off : ℤ)
    → 160 ≤ screen_w
    → pos 0 ≤ℤ w.w
    → (drag_x screen_w w pointer off ≤ℤ pos screen_w -ℤ pos 80)
      × (pos 80 ≤ℤ drag_x screen_w w pointer off +ℤ w.w)
unfolding drag_x ◌+ℤ◌ ◌-ℤ◌
drag_x_reach screen_w w pointer off wide size = (ground arith, ground arith)

drag_y_reach :
    (screen_h : ℕ) (pointer off : ℤ)
    → 56 ≤ screen_h
    → (pos 0 ≤ℤ drag_y screen_h pointer off)
      × (drag_y screen_h pointer off ≤ℤ pos screen_h -ℤ pos 56)
unfolding drag_y ◌+ℤ◌ ◌-ℤ◌
drag_y_reach screen_h pointer off high = (ground arith, ground arith)

eq_ℤ_lem : (a b : ℤ) → eq_ℤ a b ≡ true → a ≡ b
eq_ℤ_lem a b h = eq_of_parts a b (ground (arith, h))

dragged :
    (screen_w screen_h : ℕ) (w : Window) (px ox py oy : ℤ)
    → 160 ≤ screen_w
    → 56 ≤ screen_h
    → pos 0 ≤ℤ w.w
    → Reachable screen_w screen_h
        (record w { x = drag_x screen_w w px ox; y = drag_y screen_h py oy })
dragged screen_w screen_h w px ox py oy wide high size =
    let across = drag_x_reach screen_w w px ox wide size in
    let down = drag_y_reach screen_h py oy high in (across.0, across.1, down.0, down.1)

-- While a window in use is dragged, on a screen of 160 by 56 pixels at least, every tick leaves it
-- where it can be reached, wherever the pointer is: its left edge is 80 pixels at least before the right
-- edge of the screen, its right edge 80 pixels at least behind the left one, and its title bar is
-- neither above the screen nor in the taskbar.
pub update_drag-Reachable :
    {D : Type 0} (s : Gui D) (idx : ℕ) (ev : MouseEvent)
    → s.drag_idx ≡ some idx
    → idx < length s.desk.windows
    → (window_at s.desk.windows idx).used ≡ true
    → pos 0 ≤ℤ (window_at s.desk.windows idx).w
    → 160 ≤ s.screen_w
    → 56 ≤ s.screen_h
    → Reachable s.screen_w s.screen_h (window_at (update_drag s ev).1.desk.windows idx)
unfolding update_drag drag_to
update_drag-Reachable s idx ev drags inside used size wide high =
    let w = window_at s.desk.windows idx in
    let nx = drag_x s.screen_w w ev.x s.drag_off_x in
    let ny = drag_y s.screen_h ev.y s.drag_off_y in
    let there =
      dragged s.screen_w s.screen_h w ev.x s.drag_off_x ev.y s.drag_off_y wide high size in
    elim (Bool-cases (eq_ℤ w.x nx && eq_ℤ w.y ny)) [
      | inl e ↦
          let stay : (not w.used || (eq_ℤ w.x nx && eq_ℤ w.y ny)) ≡ true = ground (arith, e) in
          let same_x : w.x ≡ nx = eq_ℤ_lem w.x nx (ground (arith, e)) in
          let same_y : w.y ≡ ny = eq_ℤ_lem w.y ny (ground (arith, e)) in
          rw (drags, update_drag, stay)
            (subst (λ a. Reachable s.screen_w s.screen_h (record w { x = a })) (sym same_x)
              (subst (λ b. Reachable s.screen_w s.screen_h (record w { x = nx; y = b }))
                (sym same_y) there))
      | inr e ↦
          let go : (not w.used || (eq_ℤ w.x nx && eq_ℤ w.y ny)) ≡ false = ground (arith, e, used) in
          rw (drags, update_drag, go)
            (subst (λ v. Reachable s.screen_w s.screen_h v)
              (sym (window_at-set_self s.desk.windows idx (record w { x = nx; y = ny }) inside))
              there)
    ]
