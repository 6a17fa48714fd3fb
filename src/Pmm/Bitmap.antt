-- ===== src/Pmm/Bitmap.antt =====
-- What a write to one bit of the bitmap does to the tests of all pages, and the invariant of the
-- page accounting.
use paradox_os.Base.{
  ==_ne, All, All-get_or, All-set, Bool-cases, List, arith, false, get_or, get_or-set_ne,
  get_or-set_self, if◌then◌else◌, inl, inr, length, length-set, refl, set, set-get_or, set-set, suc,
  true, ℕ, ◌%◌, ◌*◌, ◌+◌, ◌/◌, ◌<◌, ◌==◌, ◌^◌, ◌≡◌, ◌≤◌,
}
use paradox_os.Base.Bits.{
  set_bit, clear_bit, test_bit, set_bit-lt, clear_bit-lt, clear_bit-set_bit, test_bit-set_bit,
  test_bit-clear_bit,
}
use paradox_os.Pmm.Count.{count, count-le, count-switch}
use paradox_os.Pmm.{Pmm, bitmap_set, bitmap_clear, bitmap_test, take_page, release_page}

abbrev pub IsByte : ℕ → Type 0
IsByte b = b < 256

-- The bitmap is an array of bytes that has a bit for every page, and `used_pages` is the number of
-- pages whose bit is set.
pub record IsValid (s : Pmm) : Type 0 where
  pub bytes : All IsByte s.page_bitmap
  pub covers : s.total_pages ≤ 8 * length s.page_bitmap
  pub small : s.total_pages < 2 ^ 52
  pub counted : s.used_pages ≡ count (bitmap_test s) s.total_pages

-- Writing a byte that keeps all bits but bit `i % 8` changes no other page's test.
module _ (bytes : List ℕ) (i : ℕ) (all : All IsByte bytes) (inside : i < 8 * length bytes) where
  byte-lt : get_or bytes (i / 8) 0 < 256
  byte-lt = All-get_or IsByte bytes (i / 8) 0 all (omega arith)

  test-set :
      (j : ℕ)
      → test_bit
          (get_or (set bytes (i / 8) (set_bit (get_or bytes (i / 8) 0) (i % 8))) (j / 8) 0)
          (j % 8)
        ≡ (if i == j then true else test_bit (get_or bytes (j / 8) 0) (j % 8))
  test-set j = elim (Bool-cases (i / 8 == j / 8)) [
    | inl near ↦
        let e : i / 8 ≡ j / 8 = ground arith in
        rw
          (
            ← e,
            get_or-set_self bytes (i / 8) (set_bit (get_or bytes (i / 8) 0) (i % 8)) 0
                (omega arith),
            test_bit-set_bit (get_or bytes (i / 8) 0) (i % 8) byte-lt (omega arith) (j % 8)
                (omega arith),
          )
          (ground arith)
    | inr far ↦
        rw
          (get_or-set_ne bytes (i / 8) (j / 8) (set_bit (get_or bytes (i / 8) 0) (i % 8)) 0
            (==_ne _ _ far))
          (ground arith)
  ]

  test-clear :
      (j : ℕ)
      → test_bit
          (get_or (set bytes (i / 8) (clear_bit (get_or bytes (i / 8) 0) (i % 8))) (j / 8) 0)
          (j % 8)
        ≡ (if i == j then false else test_bit (get_or bytes (j / 8) 0) (j % 8))
  test-clear j = elim (Bool-cases (i / 8 == j / 8)) [
    | inl near ↦
        let e : i / 8 ≡ j / 8 = ground arith in
        rw
          (
            ← e,
            get_or-set_self bytes (i / 8) (clear_bit (get_or bytes (i / 8) 0) (i % 8)) 0
                (omega arith),
            test_bit-clear_bit (get_or bytes (i / 8) 0) (i % 8) byte-lt (omega arith) (j % 8)
                (omega arith),
          )
          (ground arith)
    | inr far ↦
        rw
          (get_or-set_ne bytes (i / 8) (j / 8) (clear_bit (get_or bytes (i / 8) 0) (i % 8)) 0
            (==_ne _ _ far))
          (ground arith)
  ]

module _ {s : Pmm} (v : IsValid s) (i : ℕ) (inside : i < s.total_pages) where
  pub bitmap_test-take_page :
      (j : ℕ) → bitmap_test (take_page s i) j ≡ (if i == j then true else bitmap_test s j)
  unfolding bitmap_test take_page bitmap_set
  bitmap_test-take_page = test-set s.page_bitmap i v.bytes (omega (arith, v.covers))

  pub bitmap_test-release_page :
      (j : ℕ) → bitmap_test (release_page s i) j ≡ (if i == j then false else bitmap_test s j)
  unfolding bitmap_test release_page bitmap_clear
  bitmap_test-release_page = test-clear s.page_bitmap i v.bytes (omega (arith, v.covers))

  count-take_page :
      bitmap_test s i ≡ false
      → count (bitmap_test (take_page s i)) s.total_pages
        ≡ suc (count (bitmap_test s) s.total_pages)
  count-take_page off =
      count-switch (bitmap_test s) (bitmap_test (take_page s i)) s.total_pages i inside off
        (ground (arith, bitmap_test-take_page i))
        (λ j lt ne. ground (arith, bitmap_test-take_page j))

  count-release_page :
      bitmap_test s i ≡ true
      → count (bitmap_test s) s.total_pages
        ≡ suc (count (bitmap_test (release_page s i)) s.total_pages)
  count-release_page on =
      count-switch (bitmap_test (release_page s i)) (bitmap_test s) s.total_pages i inside
        (ground (arith, bitmap_test-release_page i)) on
        (λ j lt ne. ground (arith, bitmap_test-release_page j))

  -- Marking a free page and counting it keeps the accounting.
  pub take_page-IsValid : bitmap_test s i ≡ false → IsValid (take_page s i)
  unfolding take_page bitmap_set
  take_page-IsValid off = record {
    bytes = All-set IsByte s.page_bitmap (i / 8) _ v.bytes (
        set_bit-lt _ (i % 8) (byte-lt s.page_bitmap i v.bytes (omega (arith, v.covers)))
          (omega arith));
    covers = rw (length-set s.page_bitmap (i / 8)) v.covers;
    small = v.small;
    counted =
        omega
          (arith, v.counted, v.small, count-take_page off, count-le (bitmap_test s) s.total_pages);
  }

  -- Clearing the bit of a used page and counting it off keeps the accounting.
  pub release_page-IsValid : bitmap_test s i ≡ true → IsValid (release_page s i)
  unfolding release_page bitmap_clear
  release_page-IsValid on = record {
    bytes = All-set IsByte s.page_bitmap (i / 8) _ v.bytes (
        clear_bit-lt _ (i % 8) (byte-lt s.page_bitmap i v.bytes (omega (arith, v.covers)))
          (omega arith));
    covers = rw (length-set s.page_bitmap (i / 8)) v.covers;
    small = v.small;
    counted =
        omega (
          arith,
          v.counted,
          v.small,
          count-release_page on,
          count-le (bitmap_test s) s.total_pages,
        );
  }

  pub used-take_page : bitmap_test s i ≡ false → (take_page s i).used_pages ≡ s.used_pages + 1
  unfolding take_page bitmap_set
  used-take_page off = omega (
    arith,
    v.counted,
    v.small,
    count-take_page off,
    count-le (bitmap_test (take_page s i)) s.total_pages,
  )

  pub used-release_page : bitmap_test s i ≡ true → s.used_pages ≡ (release_page s i).used_pages + 1
  unfolding release_page bitmap_clear
  used-release_page on =
      omega
        (arith, v.counted, v.small, count-release_page on, count-le (bitmap_test s) s.total_pages)

  bitmap-release_page-take_page :
      bitmap_test s i ≡ false → (release_page (take_page s i) i).page_bitmap ≡ s.page_bitmap
  unfolding release_page bitmap_clear take_page bitmap_set bitmap_test
  bitmap-release_page-take_page off =
      rw
        (
          get_or-set_self s.page_bitmap (i / 8) (set_bit (get_or s.page_bitmap (i / 8) 0) (i % 8)) 0
              (omega (arith, v.covers)),
          clear_bit-set_bit (get_or s.page_bitmap (i / 8) 0) (i % 8)
              (byte-lt s.page_bitmap i v.bytes (omega (arith, v.covers))) (omega arith) off,
          set-set,
        )
        (set-get_or s.page_bitmap (i / 8) 0)

  used-release_page-take_page :
      bitmap_test s i ≡ false → (release_page (take_page s i) i).used_pages ≡ s.used_pages
  unfolding release_page bitmap_clear
  used-release_page-take_page off =
      omega (arith, used-take_page off, v.counted, v.small, count-le (bitmap_test s) s.total_pages)

  -- Releasing the page just taken gives back the very same state.
  pub release_page-take_page : bitmap_test s i ≡ false → release_page (take_page s i) i ≡ s
  unfolding release_page bitmap_clear take_page bitmap_set
  release_page-take_page off = λ k. record s {
    page_bitmap = bitmap-release_page-take_page off k;
    used_pages = used-release_page-take_page off k;
  }

pub total-take_page : (s : Pmm) (i : ℕ) → (take_page s i).total_pages ≡ s.total_pages
unfolding take_page bitmap_set
total-take_page s i = refl

pub total-release_page : (s : Pmm) (i : ℕ) → (release_page s i).total_pages ≡ s.total_pages
unfolding release_page bitmap_clear
total-release_page s i = refl
