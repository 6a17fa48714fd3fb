-- ===== src/Vfs/Buffer.antt =====
-- The characters in the buffer of a file.
use paradox_os.Base.{
  ==_refl, Bool-cases, List, [], ap, ap₂, arith, false, for_range, for_range_inv, inl, inr, length,
  refl, suc, zero, ℕ, ◌++◌, ◌+◌, ◌<◌, ◌==◌, ◌∙◌, ◌∷◌, ◌≡◌, ◌≢◌, ◌≤◌, ◌⊎◌,
}
use paradox_os.Vfs.{VfsNode, chars, write_char, mem_copy, copied}

pub length-chars : (b : ℕ → ℕ) (i n : ℕ) → length (chars b i n) ≡ n
unfolding chars
length-chars b i zero = refl
length-chars b i (suc n) = omega (arith, length-chars b (i + 1) n)

-- Only the characters themselves count.
chars_from :
    (b d : ℕ → ℕ) (i n : ℕ) → ((j : ℕ) → i ≤ j → j < i + n → b j ≡ d j) → chars b i n ≡ chars d i n
unfolding chars
chars_from b d i zero same = refl
chars_from b d i (suc n) same =
    ap₂ (λ x r. x ∷ r) (same i (omega arith) (omega arith))
      (chars_from b d (i + 1) n (λ j low high. same j (omega arith) (omega arith)))

pub chars_ext :
    (b d : ℕ → ℕ) (i n : ℕ) → ((j : ℕ) → j < i + n → b j ≡ d j) → chars b i n ≡ chars d i n
chars_ext b d i n same = chars_from b d i n (λ j low high. same j high)

pub chars_snoc : (b : ℕ → ℕ) (i n : ℕ) → chars b i (suc n) ≡ chars b i n ++ (b (i + n) ∷ [])
unfolding chars
chars_snoc b i zero = let at : i + 0 ≡ i = omega arith in rw at refl
chars_snoc b i (suc n) =
    let at : i + 1 + n ≡ i + suc n = omega arith in
    ap (λ r. b i ∷ r) (chars_snoc b (i + 1) n ∙ rw at refl)

-- A character behind the text does not change it.
pub chars-write_char :
    (b : ℕ → ℕ) (i n at c : ℕ) → i + n ≤ at → chars (write_char b at c) i n ≡ chars b i n
chars-write_char b i n at c behind =
    chars_ext (write_char b at c) b i n
      (λ j h. let other : (j == at) ≡ false = ground arith in rw other refl)

mem_copy-before : (b : ℕ → ℕ) (i : ℕ) (text : List ℕ) (j : ℕ) → j < i → mem_copy b i text j ≡ b j
unfolding mem_copy
mem_copy-before b i [] j h = refl
mem_copy-before b i (c ∷ cs) j h =
    let other : (j == i) ≡ false = ground arith in
    mem_copy-before (write_char b i c) (i + 1) cs j (omega arith) ∙ rw other refl

pub chars-mem_copy :
    (b : ℕ → ℕ) (i : ℕ) (text : List ℕ) → chars (mem_copy b i text) i (length text) ≡ text
unfolding chars mem_copy
chars-mem_copy b i [] = refl
chars-mem_copy b i (c ∷ cs) =
    ap₂ (λ x r. x ∷ r)
      (mem_copy-before (write_char b i c) (i + 1) cs i (omega arith) ∙ rw (==_refl i) refl)
      (chars-mem_copy (write_char b i c) (i + 1) cs)

copy_loop :
    (old fresh : ℕ → ℕ) (n j : ℕ)
    → j < n
    → for_range n 0 (λ i b. write_char b i (old i)) fresh j ≡ old j
copy_loop old fresh n j h =
    for_range_inv (λ i (b : ℕ → ℕ). (k : ℕ) → k < i → b k ≡ old k) _ n 0 n fresh (omega arith)
      (λ i b low high so_far k before. elim (Bool-cases (k == i)) [
        | inl here ↦ let at : i ≡ k = ground (arith, here) in rw here (ap old at)
        | inr other ↦ rw other (so_far k (ground (arith, other, before)))
      ])
      (λ k none_yet. absurd (omega arith)) j h

-- The new buffer has the characters of the old one.
pub copied_lem :
    (v : VfsNode) (fresh : ℕ → ℕ) (j : ℕ)
    → (v.content ≢ 0) ⊎ (v.len ≡ 0)
    → j < v.len
    → copied v fresh j ≡ v.buffer j
unfolding copied
copied_lem v fresh j (inl some_buffer) h =
    let there : (v.content == 0) ≡ false = ground arith in
    rw there (copy_loop v.buffer fresh v.len j h)
copied_lem v fresh j (inr nothing) h = absurd (omega (arith, nothing, h))
