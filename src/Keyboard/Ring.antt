-- ===== src/Keyboard/Ring.antt =====
-- The ring buffer of the keyboard as a queue.
use paradox_os.Base.{
  Bool-cases, List, [], ap, ap₂, arith, false, get_or, get_or-set_ne, get_or-set_self,
  if◌then◌else◌, inl, inr, length, length-set, ltb, none, refl, set, some, suc, true, zero, ℕ, ◌%◌,
  ◌++◌, ◌+◌, ◌-◌, ◌<◌, ◌==◌, ◌∙◌, ◌∷◌, ◌≡◌, ◌≢◌, ◌≤◌, ◌⊎◌,
}
use paradox_os.Keyboard.{Keyboard, buffer_add, keyboard_getchar}

pub record IsValid (s : Keyboard) : Type 0 where
  pub size : length s.key_buffer ≡ 256
  pub first : s.buffer_start < 256
  pub behind : s.buffer_end < 256

-- The `n` characters from `i` on, around the end of the array.
unfoldable pub ring_items : List ℕ → ℕ → ℕ → List ℕ
ring_items buffer i zero = []
ring_items buffer i (suc n) = get_or buffer i 0 ∷ ring_items buffer ((i + 1) % 256) n

abbrev pub count : Keyboard → ℕ
count s = (s.buffer_end + 256 - s.buffer_start) % 256

abbrev pub pending : Keyboard → List ℕ
pending s = ring_items s.key_buffer s.buffer_start (count s)

length-ring_items : (buffer : List ℕ) (i n : ℕ) → length (ring_items buffer i n) ≡ n
unfolding ring_items
length-ring_items buffer i zero = refl
length-ring_items buffer i (suc n) = ap suc (length-ring_items buffer ((i + 1) % 256) n)

ring_items-snoc :
    (buffer : List ℕ) (i n : ℕ)
    → i < 256
    → ring_items buffer i (suc n) ≡ ring_items buffer i n ++ (get_or buffer ((i + n) % 256) 0 ∷ [])
unfolding ring_items
ring_items-snoc buffer i zero h =
    let here : i ≡ (i + 0) % 256 = omega arith in ap (λ k. get_or buffer k 0 ∷ []) here
ring_items-snoc buffer i (suc n) h =
    let there : ((i + 1) % 256 + n) % 256 ≡ (i + suc n) % 256 = omega arith in
    ap (λ r. get_or buffer i 0 ∷ r)
      (ring_items-snoc buffer ((i + 1) % 256) n (omega arith)
        ∙ ap (λ k. ring_items buffer ((i + 1) % 256) n ++ (get_or buffer k 0 ∷ [])) there)

ring_items-set :
    (buffer : List ℕ) (i n at v : ℕ)
    → i < 256
    → at < 256
    → n ≤ (at + 256 - i) % 256
    → ring_items (set buffer at v) i n ≡ ring_items buffer i n
unfolding ring_items
ring_items-set buffer i zero at v hi ha few = refl
ring_items-set buffer i (suc n) at v hi ha few =
    let apart : at ≢ i = omega arith in
    ap₂ (λ x r. x ∷ r) (get_or-set_ne buffer at i v 0 apart)
      (ring_items-set buffer ((i + 1) % 256) n at v (omega arith) ha (omega arith))

added :
    (s : Keyboard) (c : ℕ)
    → IsValid s
    → ((s.buffer_end + 1) % 256 + 256 - s.buffer_start) % 256 ≡ suc (count s)
    → ring_items
        (set s.key_buffer s.buffer_end c)
        s.buffer_start
        (((s.buffer_end + 1) % 256 + 256 - s.buffer_start) % 256)
      ≡ pending s ++ (c ∷ [])
added s c v more =
    let at : (s.buffer_start + count s) % 256 ≡ s.buffer_end = omega (arith, v.first, v.behind) in
    rw (more, ring_items-snoc (set s.key_buffer s.buffer_end c) s.buffer_start (count s) v.first)
      (ap₂ (λ l x. l ++ (x ∷ []))
        (ring_items-set s.key_buffer s.buffer_start (count s) s.buffer_end c v.first v.behind
          (omega arith))
        (ap (λ k. get_or (set s.key_buffer s.buffer_end c) k 0) at
          ∙ get_or-set_self s.key_buffer s.buffer_end c 0 (omega (arith, v.size, v.behind))))

-- With fewer than 255 characters in the ring, a character is added behind them; a full ring drops it.
-- The ring stays valid.
pub buffer_add-pending :
    {s : Keyboard} (c : ℕ)
    → IsValid s
    → (pending (buffer_add s c)
        ≡ (if ltb (length (pending s)) 255 then pending s ++ (c ∷ []) else pending s))
      × IsValid (buffer_add s c)
unfolding buffer_add
buffer_add-pending {s} c v = elim (Bool-cases ((s.buffer_end + 1) % 256 == s.buffer_start)) [
  | inl full ↦
      let most : ltb (length (pending s)) 255 ≡ false =
        ground
          (arith, length-ring_items s.key_buffer s.buffer_start (count s), v.first, v.behind) in
      simp (full, most) (refl, v)
  | inr room ↦
      let few : ltb (length (pending s)) 255 ≡ true =
        ground
          (arith, length-ring_items s.key_buffer s.buffer_start (count s), v.first, v.behind) in
      simp (room, few)
        (
          added s c v (ground (arith, v.first, v.behind)),
          record {
            size = length-set s.key_buffer s.buffer_end c ∙ v.size;
            first = v.first;
            behind = omega arith;
          },
        )
]

-- A character is taken exactly if the ring has one: it is the oldest, and the others stay.
pub keyboard_getchar-pending :
    {s : Keyboard}
    → IsValid s
    → ((pending s ≡ []) × (keyboard_getchar s ≡ none))
      ⊎ ((c : ℕ) × (t : Keyboard) × (keyboard_getchar s ≡ some (c, t))
          × (pending s ≡ c ∷ pending t)
          × IsValid t)
unfolding keyboard_getchar ring_items
keyboard_getchar-pending {s} v = elim (Bool-cases (s.buffer_start == s.buffer_end)) [
  | inl e ↦
      let none_left : count s ≡ 0 = ground (arith, v.first, v.behind) in
      inl (ap (ring_items s.key_buffer s.buffer_start) none_left, simp e refl)
  | inr e ↦
      let next : Keyboard = record s { buffer_start = (s.buffer_start + 1) % 256 } in
      let more : count s ≡ suc (count next) = ground (arith, v.first, v.behind) in
      inr (
        get_or s.key_buffer s.buffer_start 0,
        next,
        simp e refl,
        ap (ring_items s.key_buffer s.buffer_start) more,
        record { size = v.size; first = omega arith; behind = v.behind },
      )
]
