-- ===== src/Diskfs/Slots.antt =====
-- A path keeps its slot.
use paradox_os.Base.{
  ==_refl, Bool-cases, List, Option, Option-cases, [], ap, arith, if◌then◌else◌, inl, inr, leb,
  leb→lt, length, length-append, none, refl, some, suc, sym, take, true, zero, ℕ, ◌++◌, ◌+◌, ◌<◌,
  ◌∙◌, ◌∷◌, ◌≡◌, ◌≤◌, ◌⊎◌,
}
use paradox_os.Diskfs.{
  SuperBlock, Entry, diskfs_max_files, s_eq, search, find_slot, alloc_slot, choose_slot,
}

s_eq_refl : (p : List ℕ) → s_eq p p ≡ true
s_eq_refl [] = refl
s_eq_refl (c ∷ cs) = rw (==_refl c) (s_eq_refl cs)

take-fits : (n : ℕ) (p : List ℕ) → length p ≤ n → take n p ≡ p
take-fits zero [] h = refl
take-fits zero (c ∷ cs) h = absurd (omega arith)
take-fits (suc n) [] h = refl
take-fits (suc n) (c ∷ cs) h = ap (λ r. c ∷ r) (take-fits n cs (omega arith))

-- What is found is found with another entry behind, and the new entry is found if nothing was.
search-append :
    (es : List Entry) (e : Entry) (path : List ℕ) (i : ℕ)
    → search (es ++ (e ∷ [])) path i ≡ elim (search es path i) [
      | some j ↦ some j
      | none ↦ if s_eq e.path path then some (i + length es) else none
    ]
unfolding search
search-append [] e path i =
    let here : i ≡ i + 0 = omega arith in ap (λ k. if s_eq e.path path then some k else none) here
search-append (x ∷ xs) e path i = elim (Bool-cases (s_eq x.path path)) [
  | inl hit ↦ rw hit refl
  | inr miss ↦
      let behind : i + 1 + length xs ≡ i + suc (length xs) = omega arith in
      rw miss (
        search-append xs e path (i + 1)
        ∙ ap
            (λ k. elim (search xs path (i + 1)) [
              | some j ↦ some j
              | none ↦ if s_eq e.path path then some k else none
            ])
            behind)
]

-- What is found for a path stays as it is, unless nothing was found before.
abbrev pub Keeps : SuperBlock → SuperBlock → Type 0
Keeps s t = (other : List ℕ) → (find_slot t other ≡ find_slot s other) ⊎ (find_slot s other ≡ none)

-- A slot is given; or the directory has its 16 entries and nothing has changed.
abbrev pub Refuses : SuperBlock → Option ℕ × SuperBlock → Type 0
Refuses s r =
    ((i : ℕ) × (r.0 ≡ some i)) ⊎ ((r.0 ≡ none) × (length s.entries ≡ diskfs_max_files) × (r.1 ≡ s))

-- With a path of fewer than 64 characters, in any directory of at most 16 entries, the empty one
-- included: the slot that is chosen is the one that is found afterwards; only a directory of 16
-- entries refuses a path, and then nothing changes. The directory never has more than 16 entries, and
-- every path that had a slot keeps it.
pub choose_slot_lem :
    (s : SuperBlock) (path : List ℕ)
    → length s.entries ≤ diskfs_max_files
    → length path < 64
    → ((choose_slot s path).0 ≡ find_slot (choose_slot s path).1 path)
      × Refuses s (choose_slot s path)
      × (length (choose_slot s path).1.entries ≤ diskfs_max_files)
      × Keeps s (choose_slot s path).1
unfolding choose_slot alloc_slot
choose_slot_lem s path bound short = elim (Option-cases (find_slot s path)) [
  | inr (j, e) ↦ rw (e, choose_slot) (sym e, inl (j, refl), bound, (λ other. inl refl))
  | inl e ↦ elim (Bool-cases (leb diskfs_max_files (length s.entries))) [
    | inl full ↦
        rw (e, choose_slot, full)
          (sym e, inr (refl, ground (arith, bound, full), refl), bound, (λ other. inl refl))
    | inr room ↦
        let fresh : Entry = record { path = take 63 path; size = 0; flags = 0 } in
        let first : 0 + length s.entries ≡ length s.entries = omega arith in
        let whole : take 63 path ≡ path = take-fits 63 path (omega arith) in
        rw (e, choose_slot, room)
          (
            sym (
                search-append s.entries fresh path 0
                ∙ rw (e, whole, s_eq_refl path) (ap some first)),
            inl (_, refl),
            omega (arith, length-append s.entries (fresh ∷ []), leb→lt _ _ room),
            (λ other. elim (Option-cases (find_slot s other)) [
              | inl nothing ↦ inr nothing
              | inr (i, had) ↦ inl (search-append s.entries fresh other 0 ∙ rw had refl)
            ]),
          )
  ]
]
