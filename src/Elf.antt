-- ===== src/Elf.antt =====
-- The ELF loader, src/kernel/elf.cpp. `byte` gives the byte at each offset from the start of the image
-- on, where the file has the first `len`: an offset wraps at 2 ^ 64, so that what lies before the image
-- is at the highest ones. The memory gives the byte at each address, of 64 bits as well; the image does
-- not change while its segments are copied. Fields are read little-endian at their offsets in the
-- packed structs.
pub mod Load
pub mod Bounds
mod Tests
use paradox_os.Base.{
  Bool, false, for_range, if◌then◌else◌, ltb, not, suc, true, zero, ℕ, ◌%◌, ◌&&◌, ◌*◌, ◌+◌, ◌-◌,
  ◌==◌, ◌^◌,
}

pub record Image : Type 0 where
  pub byte : ℕ → ℕ
  pub len : ℕ

-- `image[off]`
abbrev pub byte_at : Image → ℕ → ℕ
byte_at image off = image.byte (off % 2 ^ 64)

abbrev pub Memory : Type 0
Memory = ℕ → ℕ

-- `n` bytes at `off`, little-endian
unfoldable pub read_le : Image → ℕ → ℕ → ℕ
read_le image off zero = 0
read_le image off (suc n) = byte_at image off + 256 * read_le image (off + 1) n

-- The fields of `Elf64_Ehdr`; its size is 64.
abbrev pub e_type : Image → ℕ
e_type image = read_le image 16 2

abbrev pub e_machine : Image → ℕ
e_machine image = read_le image 18 2

abbrev pub e_entry : Image → ℕ
e_entry image = read_le image 24 8

abbrev pub e_phoff : Image → ℕ
e_phoff image = read_le image 32 8

abbrev pub e_phnum : Image → ℕ
e_phnum image = read_le image 56 2

-- The fields of the program header at `off`; its size is 56.
pub record Phdr : Type 0 where
  pub p_type : ℕ
  pub p_offset : ℕ
  pub p_vaddr : ℕ
  pub p_filesz : ℕ
  pub p_memsz : ℕ

pub read_phdr : Image → ℕ → Phdr
read_phdr image off = record {
  p_type = read_le image off 4;
  p_offset = read_le image (off + 8) 8;
  p_vaddr = read_le image (off + 16) 8;
  p_filesz = read_le image (off + 32) 8;
  p_memsz = read_le image (off + 40) 8;
}

-- The two comparisons with `len`, in `uint64_t`.
pub phdrs_out : ℕ → ℕ → ℕ → Bool
phdrs_out phoff phnum len = ltb len ((phoff + phnum * 56) % 2 ^ 64)

pub segment_out : Phdr → ℕ → Bool
segment_out p len = ltb len ((p.p_offset + p.p_filesz) % 2 ^ 64)

-- `dst[j] = v`
abbrev pub write_byte : Memory → ℕ → ℕ → Memory
write_byte mem a v q = if q == a then v else mem q

-- The two loops that copy a segment and fill the rest with zeros.
pub copy_segment : Image → Phdr → Memory → Memory
copy_segment image p mem =
    let copied =
      for_range p.p_filesz 0
        (λ j m. write_byte m ((p.p_vaddr + j) % 2 ^ 64) (byte_at image (p.p_offset + j))) mem in
    for_range (p.p_memsz - p.p_filesz) p.p_filesz (λ j m. write_byte m ((p.p_vaddr + j) % 2 ^ 64) 0)
      copied

-- The loop over the program headers: the number left, and the offset of the next.
pub load_segments : Image → ℕ → ℕ → Memory → Bool × Memory
load_segments image zero off mem = (true, mem)
load_segments image (suc n) off mem =
    let p = read_phdr image off in
    let skipped = load_segments image n (off + 56) mem in
    let loaded = load_segments image n (off + 56) (copy_segment image p mem) in
    if not (p.p_type == 1)
    then skipped
    else if segment_out p image.len
    then (false, mem)
    else loaded

abbrev pub has_magic : Image → Bool
has_magic image =
    (byte_at image 0 == 0x7f)
    && (byte_at image 1 == b'E')
    && ((byte_at image 2 == b'L') && (byte_at image 3 == b'F'))

-- The entry point, 0 for a failure. The null image has a length of 0.
pub elf_load : Image → Memory → ℕ × Memory
elf_load image mem =
    if ltb image.len 64
    then (0, mem)
    else if not (has_magic image)
    then (0, mem)
    else if not (byte_at image 4 == 2)
    then (0, mem)
    else if not (byte_at image 5 == 1)
    then (0, mem)
    else if not (e_machine image == 62)
    then (0, mem)
    else if not (e_type image == 2)
    then (0, mem)
    else if phdrs_out (e_phoff image) (e_phnum image) image.len
    then (0, mem)
    else let (done, mem') = load_segments image (e_phnum image) (e_phoff image) mem in
      (if done then e_entry image else 0, mem')
