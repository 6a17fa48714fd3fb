-- ===== src/Elf/Bounds.antt =====
-- Loading a whole image: which bytes are written, and when the checks of the bounds hold.
use paradox_os.Base.{
  Bool, Bool-cases, ap, arith, false, if◌then◌else◌, inl, inr, leb, ltb, not, refl, suc, true, zero,
  ℕ, ◌&&◌, ◌*◌, ◌+◌, ◌==◌, ◌^◌, ◌||◌, ◌∙◌, ◌≡◌,
}
use paradox_os.Elf.{
  Image, Memory, Phdr, byte_at, e_phoff, e_phnum, e_type, e_machine, read_phdr, phdrs_out,
  segment_out, copy_segment, load_segments, has_magic, elf_load, e_entry,
}
use paradox_os.Elf.Load.{inside, content, copy_segment_lem}

abbrev pub is_load : Phdr → Bool
is_load p = p.p_type == 1

-- No segment of the `n` headers from `off` on that is loaded holds the address.
unfoldable pub outside : Image → ℕ → ℕ → ℕ → Bool
outside image zero off a = true
outside image (suc n) off a =
    not (is_load (read_phdr image off) && inside (read_phdr image off) a)
    && outside image n (off + 56) a

-- The memory of the segment does not wrap round the end of the address space.
abbrev pub straight : Phdr → Bool
straight p = leb (p.p_vaddr + p.p_filesz) (2 ^ 64) && leb (p.p_vaddr + p.p_memsz) (2 ^ 64)

-- None of the segments that are loaded wraps.
unfoldable pub all_straight : Image → ℕ → ℕ → Bool
all_straight image zero off = true
all_straight image (suc n) off =
    (not (is_load (read_phdr image off)) || straight (read_phdr image off))
    && all_straight image n (off + 56)

-- All segments that are loaded lie in the file.
unfoldable pub all_fit : Image → ℕ → ℕ → Bool
all_fit image zero off = true
all_fit image (suc n) off =
    (not (is_load (read_phdr image off))
      || leb ((read_phdr image off).p_offset + (read_phdr image off).p_filesz) image.len)
    && all_fit image n (off + 56)

-- So the check of the code lets them pass.
fits-segment_out :
    (p : Phdr) (len : ℕ) → leb (p.p_offset + p.p_filesz) len ≡ true → segment_out p len ≡ false
unfolding segment_out
fits-segment_out p len h = ground (arith, h)

-- The byte at `a` when all are loaded over `old`: the last segment that holds `a` gives it.
unfoldable pub layout : Image → ℕ → ℕ → ℕ → ℕ → ℕ
layout image zero off old a = old
layout image (suc n) off old a =
    let p = read_phdr image off in
    layout image n (off + 56) (if is_load p && inside p a then content image p a else old) a

-- The checks of the file header.
abbrev pub header_ok : Image → Bool
header_ok image =
    ((not (ltb image.len 64) && has_magic image)
      && ((byte_at image 4 == 2) && (byte_at image 5 == 1)))
    && (((e_machine image == 62) && (e_type image == 2))
        && not (phdrs_out (e_phoff image) (e_phnum image) image.len))

copied :
    (image : Image) (p : Phdr) (mem : Memory) (a : ℕ)
    → straight p ≡ true
    → copy_segment image p mem a ≡ (if inside p a then content image p a else mem a)
copied image p mem a h = copy_segment_lem image p mem a (ground (arith, h)) (ground (arith, h))

load_segments-layout :
    (image : Image) (n off : ℕ) (mem : Memory) (a : ℕ)
    → all_fit image n off ≡ true
    → all_straight image n off ≡ true
    → ((load_segments image n off mem).0 ≡ true)
      × ((load_segments image n off mem).1 a ≡ layout image n off (mem a) a)
unfolding load_segments all_fit all_straight layout
load_segments-layout image zero off mem a h g = (refl, refl)
load_segments-layout image (suc n) off mem a h g =
    elim (Bool-cases (is_load (read_phdr image off))) [
      | inr skip ↦
          rw skip
            (load_segments-layout image n (off + 56) mem a (ground (arith, h)) (ground (arith, g)))
      | inl load ↦
          let fit : segment_out (read_phdr image off) image.len ≡ false =
            fits-segment_out (read_phdr image off) image.len (ground (arith, h, load)) in
          let sizes : straight (read_phdr image off) ≡ true = ground (arith, g, load) in
          let rest =
            load_segments-layout image n (off + 56) (copy_segment image (read_phdr image off) mem) a
              (ground (arith, h)) (ground (arith, g)) in
          rw (load, fit)
            (
              rest.0,
              rest.1
                  ∙ ap (λ old. layout image n (off + 56) old a)
                      (copied image (read_phdr image off) mem a sizes),
            )
    ]

early_returns {ℓ} :
    {A : Type ℓ} (b1 b2 b3 b4 b5 b6 b7 : Bool) (z r : A)
    → (if b1
        then z
        else if not b2
        then z
        else if not b3
        then z
        else if not b4
        then z
        else if not b5
        then z
        else if not b6
        then z
        else if b7
        then z
        else r)
      ≡ (if ((not b1 && b2) && (b3 && b4)) && ((b5 && b6) && not b7) then r else z)
early_returns b1 b2 b3 b4 b5 b6 b7 z r = ground arith

-- The early returns are one test of the header.
elf_load-header_ok :
    (image : Image) (mem : Memory)
    → elf_load image mem ≡ (
        if header_ok image
        then (
          if (load_segments image (e_phnum image) (e_phoff image) mem).0 then e_entry image else 0,
          (load_segments image (e_phnum image) (e_phoff image) mem).1,
        )
        else (0, mem))
unfolding elf_load
elf_load-header_ok image mem =
    early_returns (ltb image.len 64) (has_magic image) (byte_at image 4 == 2) (byte_at image 5 == 1)
      (e_machine image == 62) (e_type image == 2)
      (phdrs_out (e_phoff image) (e_phnum image) image.len) (0, mem) _

-- The file begins with the header of an executable for the machine, and holds its program headers.
abbrev pub is_executable : Image → Bool
is_executable image =
    ((leb 64 image.len && has_magic image) && ((byte_at image 4 == 2) && (byte_at image 5 == 1)))
    && (((e_machine image == 62) && (e_type image == 2))
        && leb (e_phoff image + e_phnum image * 56) image.len)

is_executable-header_ok : (image : Image) → is_executable image ≡ true → header_ok image ≡ true
unfolding phdrs_out
is_executable-header_ok image h = ground (arith, h)

-- An image that is an executable, whose program headers and loadable segments lie in the file and
-- whose segments do not wrap round the end of the address space, gives its entry point, and each
-- byte of memory is the one that the last loadable segment there puts in place: a byte of the file,
-- or zero behind the file's part, and the old byte where there is no segment.
pub elf_load-layout :
    (image : Image) (mem : Memory) (a : ℕ)
    → is_executable image ≡ true
    → all_fit image (e_phnum image) (e_phoff image) ≡ true
    → all_straight image (e_phnum image) (e_phoff image) ≡ true
    → ((elf_load image mem).0 ≡ e_entry image)
      × ((elf_load image mem).1 a ≡ layout image (e_phnum image) (e_phoff image) (mem a) a)
elf_load-layout image mem a executable fit straight_all =
    let ok = is_executable-header_ok image executable in
    let l = load_segments-layout image (e_phnum image) (e_phoff image) mem a fit straight_all in
    rw (elf_load-header_ok image mem, ok, l.0) (refl, l.1)
