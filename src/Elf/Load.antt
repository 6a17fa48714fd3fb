-- ===== src/Elf/Load.antt =====
-- What a loaded segment looks like in memory, and that nothing else is written.
use paradox_os.Base.{
  Bool, Bool-cases, ap, arith, false, for_range, for_range_inv, if◌then◌else◌, inl, inr, leb, ltb,
  ltb→lt, refl, sym, ℕ, ◌%◌, ◌&&◌, ◌+◌, ◌-◌, ◌<◌, ◌==◌, ◌^◌, ◌||◌, ◌∙◌, ◌≡◌, ◌≤◌, ◌⊎◌,
}
use paradox_os.Elf.{Image, Memory, byte_at, Phdr, write_byte, copy_segment}

-- Address `a` lies in the memory of the segment.
abbrev pub inside : Phdr → ℕ → Bool
inside p a = leb p.p_vaddr a && (ltb a (p.p_vaddr + p.p_filesz) || ltb a (p.p_vaddr + p.p_memsz))

-- What the segment puts there: the file's byte, or zero behind it.
abbrev pub content : Image → Phdr → ℕ → ℕ
content image p a =
    if ltb a (p.p_vaddr + p.p_filesz) then byte_at image (p.p_offset + (a - p.p_vaddr)) else 0

-- A loop that writes `f j` at `base + j` for `j` from `i` up to `to`.
record Written (f : ℕ → ℕ) (base from to : ℕ) (mem mem' : Memory) : Type 0 where
  written : (j : ℕ) → from ≤ j → j < to → mem' (base + j) ≡ f j
  kept : (a : ℕ) → (a < base + from) ⊎ (base + to ≤ a) → mem' a ≡ mem a

write_loop-Written :
    (f : ℕ → ℕ) (base from n : ℕ) (mem : Memory)
    → base + (from + n) ≤ 2 ^ 64
    → Written f base from
        (from + n)
        mem
        (for_range n from (λ j m. write_byte m ((base + j) % 2 ^ 64) (f j)) mem)
write_loop-Written f base from n mem small =
    for_range_inv (λ i m. Written f base from i mem m) _ n from (from + n) mem refl
      (λ k m lo hi p. record {
        written = λ j l h.
            let whole : (base + k) % 2 ^ 64 ≡ base + k = omega arith in
            rw whole (elim (Bool-cases (base + j == base + k)) [
              | inl same ↦ rw same (ap f (ground arith))
              | inr other ↦ rw other (p.written j l (ground arith))
            ]);
        kept = λ a out.
            let whole : (base + k) % 2 ^ 64 ≡ base + k = omega arith in
            let off : (a == base + k) ≡ false = ground arith in
            rw (whole, off) (p.kept a (omega arith));
      })
      (record { written = λ j l h. absurd (omega arith); kept = λ a out. refl })

-- In a segment that does not wrap round the end of the address space, every byte is as it should be, and every other byte as before.
pub copy_segment_lem :
    (image : Image) (p : Phdr) (mem : Memory) (a : ℕ)
    → p.p_vaddr + p.p_filesz ≤ 2 ^ 64
    → p.p_vaddr + p.p_memsz ≤ 2 ^ 64
    → copy_segment image p mem a ≡ (if inside p a then content image p a else mem a)
unfolding copy_segment
copy_segment_lem image p mem a small big =
    let copied : Memory =
      for_range p.p_filesz 0
        (λ j m. write_byte m ((p.p_vaddr + j) % 2 ^ 64) (byte_at image (p.p_offset + j))) mem in
    let first =
      write_loop-Written (λ j. byte_at image (p.p_offset + j)) p.p_vaddr 0 p.p_filesz mem
        (omega arith) in
    let second =
      write_loop-Written (λ j. 0) p.p_vaddr p.p_filesz (p.p_memsz - p.p_filesz) copied
        (ground arith) in
    let final : Memory =
      for_range (p.p_memsz - p.p_filesz) p.p_filesz
        (λ j m. write_byte m ((p.p_vaddr + j) % 2 ^ 64) 0) copied in
    elim (Bool-cases (leb p.p_vaddr a)) [
      | inr low ↦
          let below : a < p.p_vaddr = ground arith in
          rw low (second.kept a (inl (omega arith)) ∙ first.kept a (inl (omega arith)))
      | inl high ↦
          let at : p.p_vaddr + (a - p.p_vaddr) ≡ a = ground arith in
          elim (Bool-cases (ltb a (p.p_vaddr + p.p_filesz))) [
            | inl e ↦
                let h = ltb→lt _ _ e in
                rw (high, e)
                  (second.kept a (inl (omega arith))
                    ∙ ap copied (sym at)
                    ∙ first.written (a - p.p_vaddr) (omega arith) (omega arith))
            | inr e ↦
                let past : p.p_vaddr + p.p_filesz ≤ a = ground arith in
                elim (Bool-cases (ltb a (p.p_vaddr + p.p_memsz))) [
                  | inl z ↦
                      let h = ltb→lt _ _ z in
                      rw (high, e, z)
                        (ap final (sym at)
                          ∙ second.written (a - p.p_vaddr) (omega arith) (omega arith))
                  | inr z ↦
                      let beyond : p.p_vaddr + p.p_memsz ≤ a = ground arith in
                      rw (high, e, z)
                        (second.kept a (inr (omega arith)) ∙ first.kept a (inr (omega arith)))
                ]
          ]
    ]
