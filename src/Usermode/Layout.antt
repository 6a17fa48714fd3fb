-- ===== src/Usermode/Layout.antt =====
-- The whole frame, from the top of the page down to the stack pointer.
use paradox_os.Base.{
  All, List, [], ap, arith, false, for_range, for_range_inv, inr, length, length-append, refl, suc,
  sym, ℕ, ◌%◌, ◌*◌, ◌++◌, ◌+◌, ◌/◌, ◌<◌, ◌==◌, ◌^◌, ◌∙◌, ◌∷◌, ◌≡◌, ◌≤◌,
}
use paradox_os.Usermode.{write_byte, push_strings, push_pointers, build_frame}
use paradox_os.Usermode.Writes.{SameBut}
use paradox_os.Usermode.Frame.{
  room_for, Strings, Strings-same, push_strings-Pushed, Words, push_pointers-Stacked,
}

abbrev pub fill : (ℕ → ℕ) → ℕ → ℕ → ℕ
fill m stack = for_range 4096 0 (λ i u. write_byte u (stack + i) 0xCC) m

fill-SameBut : (m : ℕ → ℕ) (stack : ℕ) → SameBut stack (stack + 4096) m (fill m stack)
fill-SameBut m stack b out =
    for_range_inv (λ i u. u b ≡ m b) (λ i u. write_byte u (stack + i) 0xCC) 4096 0 4096 m refl
      (λ i u low high now. let off : (b == stack + i) ≡ false = ground (arith, out) in rw off now)
      refl

push_pointers-append :
    (xs ys : List ℕ) (m : ℕ → ℕ) (sp : ℕ)
    → push_pointers m sp (xs ++ ys)
      ≡ push_pointers (push_pointers m sp ys).0 (push_pointers m sp ys).1 xs
unfolding push_pointers
push_pointers-append [] ys m sp = refl
push_pointers-append (x ∷ xs) ys m sp = rw (push_pointers-append xs ys m sp) refl

-- The words above the stack pointer: the count, the pointers, and two null pointers.
abbrev pub frame_words : List ℕ → List (List ℕ) → List ℕ
frame_words ptrs tokens = length tokens ∷ (ptrs ++ (0 ∷ 0 ∷ []))

build_frame-pushes :
    (m : ℕ → ℕ) (stack : ℕ) (tokens : List (List ℕ))
    → build_frame m stack tokens
      ≡ push_pointers
          (push_strings (fill m stack) (stack + 4096) tokens).0
          ((push_strings (fill m stack) (stack + 4096) tokens).1 / 16 * 16)
          (frame_words (push_strings (fill m stack) (stack + 4096) tokens).2 tokens)
unfolding build_frame push_pointers
build_frame-pushes m stack tokens =
    let r = push_strings (fill m stack) (stack + 4096) tokens in
    sym (push_pointers-append (length tokens ∷ r.2) (0 ∷ 0 ∷ []) r.0 (r.1 / 16 * 16))

Strings-small :
    (ptrs : List ℕ) (ts : List (List ℕ)) (m : ℕ → ℕ) (lo hi : ℕ)
    → hi ≤ 2 ^ 64
    → Strings lo hi m ptrs ts
    → All (λ v. v < 2 ^ 64) (ptrs ++ (0 ∷ 0 ∷ [])) × (length ptrs ≡ length ts)
Strings-small [] [] m lo hi small h = ((omega arith, (omega arith, tt)), refl)
Strings-small [] (t ∷ ts) m lo hi small h = absurd h
Strings-small (a ∷ ptrs) [] m lo hi small h = absurd h
Strings-small (a ∷ ptrs) (t ∷ ts) m lo hi small h =
    let ih = Strings-small ptrs ts m lo hi small h.3 in
    ((omega (arith, h.1, small), ih.0), ap suc ih.1)

-- What the program finds on its stack: the page, whose words above the stack pointer are the number of
-- the tokens, pointers to them, and two null pointers, while each pointer is that of its token's
-- string in the page. Outside of the page no byte is changed.
pub record IsFrame (m : ℕ → ℕ) (stack : ℕ) (tokens : List (List ℕ)) (r : (ℕ → ℕ) × ℕ) : Type 0 where
  pub ptrs : List ℕ
  pub low : stack ≤ r.1
  pub words : Words r.0 r.1 (frame_words ptrs tokens)
  pub strings : Strings stack (stack + 4096) r.0 ptrs tokens
  pub same : SameBut stack (stack + 4096) m r.0

-- For a page that begins at a multiple of 16, and tokens that leave room in it for their pointers, the
-- frame is as the program expects it: the count, pointers to the strings of all tokens in their
-- order, and two null pointers; and the writes stay within the page.
pub build_frame-IsFrame :
    (m : ℕ → ℕ) (stack : ℕ) (tokens : List (List ℕ))
    → stack % 16 ≡ 0
    → stack + 4096 ≤ 2 ^ 64
    → room_for tokens + 8 * (length tokens + 3) + 15 ≤ 4096
    → IsFrame m stack tokens (build_frame m stack tokens)
build_frame-IsFrame m stack tokens aligned small room =
    let first = fill m stack in
    let r = push_strings first (stack + 4096) tokens in
    let pushed = push_strings-Pushed tokens first (stack + 4096) (omega (arith, room)) in
    let bounds = Strings-small r.2 tokens r.0 r.1 (stack + 4096) small pushed.strings in
    let vs = frame_words r.2 tokens in
    let base = r.1 / 16 * 16 in
    let size : length vs ≡ length tokens + 3 =
      omega (arith, length-append r.2 (0 ∷ 0 ∷ []), bounds.1) in
    let down = pushed.down in
    let stacked =
      push_pointers-Stacked vs r.0 base (omega (arith, size, room, down))
        (omega (arith, room), bounds.0) in
    let f = push_pointers r.0 base vs in
    let end = stacked.down in
    let low : stack ≤ f.1 = omega (arith, end, size, room, down, aligned) in
    rw (build_frame-pushes m stack tokens) (record {
      ptrs = r.2;
      low = low;
      words = stacked.words;
      strings =
          Strings-same r.2 tokens r.0 f.0 r.1 stack (stack + 4096)
            (λ b above. stacked.same b (inr (omega (arith, above)))) (omega (arith, down, room))
            pushed.strings;
      same = λ b out.
          stacked.same b (ground (arith, out, low, down))
          ∙ pushed.same b (ground (arith, out, down, room))
          ∙ fill-SameBut m stack b out;
    })
