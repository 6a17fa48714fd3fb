-- ===== src/Elf/Tests.antt =====
-- A small image with one segment of four bytes and two zeros behind them.
use paradox_os.Base.{List, [], for_range, get_or, refl, true, ℕ, ◌∷◌, ◌≡◌}
use paradox_os.Elf.{
  Image, Memory, e_entry, e_phnum, e_phoff, read_le, read_phdr, phdrs_out, segment_out,
  load_segments, copy_segment, elf_load,
}
use paradox_os.Elf.Bounds.{is_executable, all_fit, all_straight, layout, elf_load-layout}

abbrev bytes : List ℕ
bytes =
    127 ∷ 69 ∷ 76 ∷ 70 ∷ 2 ∷ 1 ∷ 0 ∷ 0 ∷ 0 ∷ 0 ∷ 0 ∷ 0 ∷ 0 ∷ 0 ∷ 0 ∷ 0 ∷ 2 ∷ 0 ∷ 62 ∷ 0 ∷ 0 ∷ 0 ∷ 0
    ∷ 0 ∷ 64 ∷ 0 ∷ 0 ∷ 0 ∷ 0 ∷ 0 ∷ 0 ∷ 0 ∷ 64 ∷ 0 ∷ 0 ∷ 0 ∷ 0 ∷ 0 ∷ 0 ∷ 0 ∷ 0 ∷ 0 ∷ 0 ∷ 0 ∷ 0 ∷ 0
    ∷ 0 ∷ 0 ∷ 0 ∷ 0 ∷ 0 ∷ 0 ∷ 0 ∷ 0 ∷ 0 ∷ 0 ∷ 1 ∷ 0 ∷ 0 ∷ 0 ∷ 0 ∷ 0 ∷ 0 ∷ 0 ∷ 1 ∷ 0 ∷ 0 ∷ 0 ∷ 0 ∷ 0
    ∷ 0 ∷ 0 ∷ 120 ∷ 0 ∷ 0 ∷ 0 ∷ 0 ∷ 0 ∷ 0 ∷ 0 ∷ 64 ∷ 0 ∷ 0 ∷ 0 ∷ 0 ∷ 0 ∷ 0 ∷ 0 ∷ 0 ∷ 0 ∷ 0 ∷ 0 ∷ 0
    ∷ 0 ∷ 0 ∷ 0 ∷ 4 ∷ 0 ∷ 0 ∷ 0 ∷ 0 ∷ 0 ∷ 0 ∷ 0 ∷ 6 ∷ 0 ∷ 0 ∷ 0 ∷ 0 ∷ 0 ∷ 0 ∷ 0 ∷ 0 ∷ 0 ∷ 0 ∷ 0 ∷ 0
    ∷ 0 ∷ 0 ∷ 0 ∷ 9 ∷ 8 ∷ 7 ∷ 6 ∷ []

-- The memory behind the image is not empty.
abbrev image : Image
image = record { byte = λ i. get_or bytes i 1; len = 124 }

abbrev empty : Memory
empty a = 0

accepted : is_executable image ≡ true
unfolding read_le
accepted = refl

fits : all_fit image (e_phnum image) (e_phoff image) ≡ true
unfolding read_le all_fit read_phdr
fits = refl

no_wrap : all_straight image (e_phnum image) (e_phoff image) ≡ true
unfolding read_le all_straight read_phdr
no_wrap = refl

third_byte : (elf_load image empty).1 0x42 ≡ 7
unfolding read_le segment_out read_phdr phdrs_out load_segments copy_segment elf_load for_range
third_byte = refl

elf_load-layout_example :
    ((elf_load image empty).0 ≡ e_entry image)
    × ((elf_load image empty).1 0x42
        ≡ layout image (e_phnum image) (e_phoff image) (empty 0x42) 0x42)
elf_load-layout_example = elf_load-layout image empty 0x42 accepted fits no_wrap
