-- ===== src/Pmm/Contiguous.antt =====
-- `pmm_alloc_contiguous`: the run it finds is free, it is the first that is long enough, and
-- marking it keeps the accounting.
use paradox_os.Base.{
  ==_ne, Bool-cases, Option, arith, false, false_ne_true, for_range_inv, if◌then◌else◌, inl, inr,
  leb, leb→le, leb→lt, ltb, ltb→le, ltb→lt, none, refl, some, suc, sym, true, zero, ℕ, ◌&&◌, ◌*◌,
  ◌+◌, ◌-◌, ◌<◌, ◌==◌, ◌∙◌, ◌≡◌, ◌≤◌,
}
use paradox_os.Pmm.{
  Pmm, bitmap_test, take_page, find_run, take_run, pmm_alloc_contiguous, page_addr,
}
use paradox_os.Pmm.Bitmap.{
  IsValid, bitmap_test-take_page, take_page-IsValid, used-take_page, total-take_page,
}

-- `n` pages from `k` on are all free.
abbrev pub IsFreeRun : Pmm → ℕ → ℕ → Type 0
IsFreeRun s n k = (j : ℕ) → k ≤ j → j < k + n → bitmap_test s j ≡ false

-- What the search over the pages from 1 up to `to` returns.
abbrev pub RunFound : Pmm → ℕ → ℕ → Option ℕ → Type 0
RunFound s n to none = (k : ℕ) → 0 < k → k + n ≤ to → ¬ IsFreeRun s n k
RunFound s n to (some k) =
    (0 < k) × (k + n ≤ to) × IsFreeRun s n k × ((m : ℕ) → 0 < m → m < k → ¬ IsFreeRun s n m)

-- The loop's invariant at page `i`: the current run ends at `i`, it is shorter than asked for, and
-- each earlier start has a used page before `i`.
record Scan (s : Pmm) (n i run start : ℕ) : Type 0 where
  first : 0 < start
  ends : start + run ≡ i
  short : run < n
  free : IsFreeRun s run start
  blocked : (m : ℕ) → 0 < m → m < start → ¬ IsFreeRun s n m

-- With no current run, the run starts at the page that is looked at.
abbrev effective : ℕ → ℕ → ℕ → ℕ
effective run i start = if run == 0 then i else start

module _ {s : Pmm} {n i run start : ℕ} (c : Scan s n i run start) where
  longer : bitmap_test s i ≡ false → IsFreeRun s (run + 1) start
  longer off j lo hi = elim (Bool-cases (i == j)) [
    | inl e ↦ let e' : i ≡ j = ground arith in rw (← e') off
    | inr ne ↦ c.free j lo (omega (arith, c.ends, ==_ne i j ne))
  ]

  grow : bitmap_test s i ≡ false → run + 1 < n → Scan s n (i + 1) (run + 1) start
  grow off short = record {
    first = c.first;
    ends = omega (arith, c.ends);
    short = short;
    free = longer off;
    blocked = c.blocked;
  }

  -- A used page ends the run, and blocks all starts up to it.
  reset : bitmap_test s i ≡ true → Scan s n (i + 1) 0 (i + 1)
  reset used = record {
    first = omega arith;
    ends = omega arith;
    short = omega (arith, c.short);
    free = λ j lo hi. absurd (omega arith);
    blocked = λ m lo hi run_free. elim (Bool-cases (ltb m start)) [
      | inl before ↦ c.blocked m lo (ltb→lt m start before) run_free
      | inr after ↦ false_ne_true (
          sym (run_free i (omega arith) (omega (arith, ltb→le m start after, c.ends, c.short)))
          ∙ used)
    ];
  }

  found : n ≤ run + 1 → bitmap_test s i ≡ false → (to : ℕ) → i < to → RunFound s n to (some start)
  found enough off to lt =
      let e : n ≡ run + 1 = omega (arith, c.short) in
      (c.first, omega (arith, c.ends), rw e (longer off), c.blocked)

  exhausted : (to : ℕ) → i ≡ to → RunFound s n to none
  exhausted to e k lo hi run_free = elim (Bool-cases (ltb k start)) [
    | inl before ↦ c.blocked k lo (ltb→lt k start before) run_free
    | inr after ↦ absurd (omega (arith, ltb→le k start after, c.ends, c.short))
  ]

find_run-RunFound :
    (s : Pmm) (n rounds i run start e to : ℕ)
    → e ≡ effective run i start
    → Scan s n i run e
    → i + rounds ≡ to
    → RunFound s n to (find_run s n rounds i run start)
unfolding find_run
find_run-RunFound s n zero i run start e to eff c bound = exhausted c to (omega arith)
find_run-RunFound s n (suc rounds) i run start e to eff c bound =
    elim (Bool-cases (bitmap_test s i)) [
      | inl used ↦
          rw (used, find_run)
            (find_run-RunFound s n rounds (i + 1) 0 start (i + 1) to refl (reset c used)
              (omega arith))
      | inr off ↦
          rw (off, find_run)
            (elim (Bool-cases (leb n (run + 1))) [
              | inl enough ↦
                  rw (enough, ← eff) (found c (leb→le n (run + 1) enough) off to (omega arith))
              | inr more ↦
                  rw (more, ← eff)
                    (find_run-RunFound s n rounds (i + 1) (run + 1) e e to (ground arith)
                      (grow c off (leb→lt n (run + 1) more)) (omega arith))
            ])
    ]

-- Marking a free run, page by page.
record Taken (s : Pmm) (start n i : ℕ) (t : Pmm) : Type 0 where
  valid : IsValid t
  same : t.total_pages ≡ s.total_pages
  marked : (j : ℕ) → bitmap_test t j ≡ (if leb start j && ltb j i then true else bitmap_test s j)
  added : t.used_pages + start ≡ s.used_pages + i

take_run-Taken :
    {s : Pmm}
    → IsValid s
    → (start n : ℕ) → start + n ≤ s.total_pages
    → IsFreeRun s n start
    → Taken s start n (start + n) (take_run s start n)
unfolding take_run
take_run-Taken {s} v start n inside free =
    for_range_inv (Taken s start n) (λ j t. take_page t j) n start (start + n) s refl
      (λ k t lo hi p.
        let kin : k < t.total_pages = omega (arith, p.same) in
        let off : bitmap_test t k ≡ false = ground (arith, p.marked k, free k lo hi) in
        record {
          valid = take_page-IsValid p.valid k kin off;
          same = total-take_page t k ∙ p.same;
          marked = λ j. ground (arith, bitmap_test-take_page p.valid k kin j, p.marked j);
          added = omega (arith, used-take_page p.valid k kin off, p.added);
        })
      (record { valid = v; same = refl; marked = λ j. ground arith; added = refl })

-- What `pmm_alloc_contiguous` promises of its result `r` for `n` pages.
pub data AllocatedRun (s : Pmm) (n : ℕ) (r : ℕ × Pmm) : Type 0 where
  -- the first run of `n` free pages after page 0: all of it is used, nothing else changes
  run :
      (k : ℕ)
      → r.0 ≡ k * 4096
      → 0 < k
      → k + n ≤ s.total_pages
      → IsFreeRun s n k
      → ((m : ℕ) → 0 < m → m < k → ¬ IsFreeRun s n m)
      → ((j : ℕ) → bitmap_test r.1 j ≡ (if leb k j && ltb j (k + n) then true else bitmap_test s j))
      → r.1.used_pages ≡ s.used_pages + n
      → AllocatedRun s n r
  -- the null pointer: there is no such run, and nothing changes
  no_run :
      r ≡ (0, s)
      → ((k : ℕ) → 0 < k → k + n ≤ s.total_pages → ¬ IsFreeRun s n k)
      → AllocatedRun s n r

run_outcome :
    {s : Pmm} (n : ℕ)
    → IsValid s
    → 0 < n
    → (n == 0) ≡ false
    → (o : Option ℕ) → RunFound s n (1 + (s.total_pages - 1)) o
    → find_run s n (s.total_pages - 1) 1 0 0 ≡ o
    → AllocatedRun s n (pmm_alloc_contiguous s n) × IsValid (pmm_alloc_contiguous s n).1
unfolding pmm_alloc_contiguous
run_outcome n v pos some_pages none f e =
    rw (some_pages, e, pmm_alloc_contiguous) (no_run refl (λ k lo hi. f k lo (omega arith)), v)
run_outcome {s} n v pos some_pages (some k) (lo, hi, free, before) e =
    let addr : page_addr k ≡ k * 4096 = omega (arith, v.small) in
    let t = take_run-Taken v k n (omega arith) free in
    rw (some_pages, e, pmm_alloc_contiguous, addr)
      (run k refl lo (omega arith) free before t.marked (omega (arith, t.added)), t.valid)

-- For at least one page and a state whose accounting is valid, `pmm_alloc_contiguous` either takes
-- the first run of that many free pages after page 0, marks and counts exactly these; or it returns
-- null, there is no such run, and nothing changes. The accounting is valid afterwards.
pub pmm_alloc_contiguous_lem :
    {s : Pmm} (n : ℕ)
    → IsValid s
    → 0 < n
    → AllocatedRun s n (pmm_alloc_contiguous s n) × IsValid (pmm_alloc_contiguous s n).1
pmm_alloc_contiguous_lem {s} n v pos =
    run_outcome n v pos (ground arith) _
      (find_run-RunFound s n (s.total_pages - 1) 1 0 0 1 _ refl start refl) refl
  where
    start : Scan s n 1 0 1
    start = record {
      first = omega arith;
      ends = refl;
      short = pos;
      free = λ j lo hi. absurd (omega arith);
      blocked = λ m lo hi. absurd (omega arith);
    }
