-- ===== src/Usermode/Frame.antt =====
-- The frame that a user program finds on its stack.
use paradox_os.Base.{
  All, List, [], arith, inr, length, refl, ℕ, ◌*◌, ◌+◌, ◌-◌, ◌<◌, ◌^◌, ◌∙◌, ◌∷◌, ◌≡◌, ◌≤◌,
}
use paradox_os.Usermode.{write_string, write_word, push_strings, push_pointers}
use paradox_os.Usermode.Writes.{
  SameBut, write_string-SameBut, write_word-SameBut, IsString, write_string-IsString, IsString-same,
  read_word, read_word-same, byte_power, read_word-write_word,
}

-- The bytes that some strings take.
abbrev pub room_for : List (List ℕ) → ℕ
room_for [] = 0
room_for (t ∷ ts) = length t + 1 + room_for ts

-- Pointers in [lo, hi) to the strings, one for each.
abbrev pub Strings : ℕ → ℕ → (ℕ → ℕ) → List ℕ → List (List ℕ) → Type 0
Strings lo hi m [] [] = Unit
Strings lo hi m (a ∷ ptrs) (t ∷ ts) = (lo ≤ a) × (a < hi) × IsString m a t × Strings lo hi m ptrs ts
Strings lo hi m _ _ = ⊥

pub Strings-same :
    (ptrs : List ℕ) (ts : List (List ℕ)) (m n : ℕ → ℕ) (lo low hi : ℕ)
    → ((b : ℕ) → lo ≤ b → n b ≡ m b)
    → low ≤ lo
    → Strings lo hi m ptrs ts
    → Strings low hi n ptrs ts
Strings-same [] [] m n lo low hi same below h = tt
Strings-same [] (t ∷ ts) m n lo low hi same below h = h
Strings-same (a ∷ ptrs) [] m n lo low hi same below h = h
Strings-same (a ∷ ptrs) (t ∷ ts) m n lo low hi same below h = (
  omega (arith, h.0),
  h.1,
  IsString-same t m n lo a same h.0 h.2,
  Strings-same ptrs ts m n lo low hi same below h.3,
)

-- What the loop over the strings does below `sp`.
pub record Pushed (m : ℕ → ℕ) (sp : ℕ) (ts : List (List ℕ)) (r : (ℕ → ℕ) × ℕ × List ℕ)
    : Type 0 where
  pub down : r.1 + room_for ts ≡ sp
  pub same : SameBut r.1 sp m r.0
  pub strings : Strings r.1 sp r.0 r.2 ts

pub push_strings-Pushed :
    (ts : List (List ℕ)) (m : ℕ → ℕ) (sp : ℕ)
    → room_for ts ≤ sp
    → Pushed m sp ts (push_strings m sp ts)
unfolding push_strings
push_strings-Pushed [] m sp room = record { down = omega arith; same = λ b out. refl; strings = tt }
push_strings-Pushed (t ∷ ts) m sp room =
    let ih = push_strings-Pushed ts m sp (omega arith) in
    let r = push_strings m sp ts in
    let size : r.1 - (length t + 1) + length t + 1 ≡ r.1 = omega (arith, ih.down, room) in
    let kept = write_string-SameBut t r.0 (r.1 - (length t + 1)) in
    record {
      down = omega (arith, ih.down, size);
      same = λ b out.
          kept b (ground (arith, out, size, ih.down))
          ∙ ih.same b (ground (arith, out, size, ih.down));
      strings = (
        omega arith,
        omega (arith, ih.down, size),
        write_string-IsString t r.0 (r.1 - (length t + 1)),
        Strings-same r.2 ts r.0 (write_string r.0 (r.1 - (length t + 1)) t) r.1
            (r.1 - (length t + 1)) sp (λ b above. kept b (inr (omega (arith, size, above))))
            (omega arith) ih.strings,
      );
    }

-- The words stand one after the other.
abbrev pub Words : (ℕ → ℕ) → ℕ → List ℕ → Type 0
Words m a [] = Unit
Words m a (v ∷ vs) = (read_word 8 m a ≡ v) × Words m (a + 8) vs

Words-same :
    (vs : List ℕ) (m n : ℕ → ℕ) (lo a : ℕ)
    → ((b : ℕ) → lo ≤ b → n b ≡ m b)
    → lo ≤ a
    → Words m a vs
    → Words n a vs
Words-same [] m n lo a same above h = tt
Words-same (v ∷ vs) m n lo a same above h = (
  read_word-same 8 m n lo a same above ∙ h.0,
  Words-same vs m n lo (a + 8) same (omega arith) h.1,
)

-- What the loop over the pointers does below `sp`.
pub record Stacked (m : ℕ → ℕ) (sp : ℕ) (vs : List ℕ) (r : (ℕ → ℕ) × ℕ) : Type 0 where
  pub down : r.1 + 8 * length vs ≡ sp
  pub same : SameBut r.1 sp m r.0
  pub words : Words r.0 r.1 vs

pub push_pointers-Stacked :
    (vs : List ℕ) (m : ℕ → ℕ) (sp : ℕ)
    → 8 * length vs ≤ sp
    → All (λ v. v < 2 ^ 64) vs
    → Stacked m sp vs (push_pointers m sp vs)
unfolding push_pointers byte_power
push_pointers-Stacked [] m sp room small = record {
  down = omega arith;
  same = λ b out. refl;
  words = tt;
}
push_pointers-Stacked (v ∷ vs) m sp room small =
    let ih = push_pointers-Stacked vs m sp (omega arith) small.1 in
    let r = push_pointers m sp vs in
    let size : r.1 - 8 + 8 ≡ r.1 = omega (arith, ih.down, room) in
    let kept = write_word-SameBut 8 r.0 (r.1 - 8) v in
    record {
      down = omega (arith, ih.down, size);
      same = λ b out.
          kept b (ground (arith, out, size, ih.down))
          ∙ ih.same b (ground (arith, out, size, ih.down));
      words = (
        read_word-write_word 8 r.0 (r.1 - 8) v (omega (arith, small.0)),
        rw size (
            Words-same vs r.0 (write_word 8 r.0 (r.1 - 8) v) r.1 r.1
              (λ b above. kept b (inr (omega (arith, size, above)))) (omega arith) ih.words),
      );
    }
