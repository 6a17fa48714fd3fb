-- ===== src/Usermode/Writes.antt =====
-- Writes of words and strings to memory, and what they leave alone.
use paradox_os.Base.{
  ==_refl, List, [], arith, false, inl, length, refl, suc, zero, ℕ, ◌%◌, ◌*◌, ◌+◌, ◌/◌, ◌<◌, ◌==◌,
  ◌∙◌, ◌∷◌, ◌≡◌, ◌≤◌, ◌⊎◌,
}
use paradox_os.Usermode.{write_byte, write_string, write_word}

-- An address that is not in [lo, hi).
abbrev pub Outside : ℕ → ℕ → ℕ → Type 0
Outside lo hi b = (b < lo) ⊎ (hi ≤ b)

-- The two memories agree but for [lo, hi).
abbrev pub SameBut : ℕ → ℕ → (ℕ → ℕ) → (ℕ → ℕ) → Type 0
SameBut lo hi m n = (b : ℕ) → Outside lo hi b → n b ≡ m b

pub write_string-SameBut :
    (cs : List ℕ) (m : ℕ → ℕ) (a : ℕ) → SameBut a (a + length cs + 1) m (write_string m a cs)
unfolding write_string
write_string-SameBut [] m a b out = let off : (b == a) ≡ false = ground (arith, out) in rw off refl
write_string-SameBut (c ∷ cs) m a b out =
    let off : (b == a) ≡ false = ground (arith, out) in
    write_string-SameBut cs (write_byte m a c) (a + 1) b (ground (arith, out)) ∙ rw off refl

pub write_word-SameBut : (n : ℕ) (m : ℕ → ℕ) (a v : ℕ) → SameBut a (a + n) m (write_word n m a v)
unfolding write_word
write_word-SameBut zero m a v b out = refl
write_word-SameBut (suc n) m a v b out =
    let off : (b == a) ≡ false = ground (arith, out) in
    write_word-SameBut n (write_byte m a (v % 256)) (a + 1) (v / 256) b (ground (arith, out))
    ∙ rw off refl

-- The string stands at the address, with its NUL.
abbrev pub IsString : (ℕ → ℕ) → ℕ → List ℕ → Type 0
IsString m a [] = m a ≡ 0
IsString m a (c ∷ cs) = (m a ≡ c) × IsString m (a + 1) cs

pub write_string-IsString : (cs : List ℕ) (m : ℕ → ℕ) (a : ℕ) → IsString (write_string m a cs) a cs
unfolding write_string
write_string-IsString [] m a = rw (==_refl a) refl
write_string-IsString (c ∷ cs) m a = (
  write_string-SameBut cs (write_byte m a c) (a + 1) a (inl (omega arith)) ∙ rw (==_refl a) refl,
  write_string-IsString cs (write_byte m a c) (a + 1),
)

pub IsString-same :
    (cs : List ℕ) (m n : ℕ → ℕ) (lo a : ℕ)
    → ((b : ℕ) → lo ≤ b → n b ≡ m b)
    → lo ≤ a
    → IsString m a cs
    → IsString n a cs
IsString-same [] m n lo a same above h = same a above ∙ h
IsString-same (c ∷ cs) m n lo a same above h =
    (same a above ∙ h.0, IsString-same cs m n lo (a + 1) same (omega arith) h.1)

-- The number at an address, the lowest byte first.
unfoldable pub read_word : ℕ → (ℕ → ℕ) → ℕ → ℕ
read_word zero m a = 0
read_word (suc n) m a = m a + 256 * read_word n m (a + 1)

pub read_word-same :
    (k : ℕ) (m n : ℕ → ℕ) (lo a : ℕ)
    → ((b : ℕ) → lo ≤ b → n b ≡ m b)
    → lo ≤ a
    → read_word k n a ≡ read_word k m a
unfolding read_word
read_word-same zero m n lo a same above = refl
read_word-same (suc k) m n lo a same above =
    rw (same a above, read_word-same k m n lo (a + 1) same (omega arith)) refl

unfoldable pub byte_power : ℕ → ℕ
byte_power zero = 1
byte_power (suc n) = 256 * byte_power n

pub read_word-write_word :
    (k : ℕ) (m : ℕ → ℕ) (a v : ℕ) → v < byte_power k → read_word k (write_word k m a v) a ≡ v
unfolding read_word write_word byte_power
read_word-write_word zero m a v h = omega arith
read_word-write_word (suc k) m a v h =
    let low : write_word k (write_byte m a (v % 256)) (a + 1) (v / 256) a ≡ v % 256 =
      write_word-SameBut k (write_byte m a (v % 256)) (a + 1) (v / 256) a (inl (omega arith))
      ∙ rw (==_refl a) refl in
    let high = read_word-write_word k (write_byte m a (v % 256)) (a + 1) (v / 256) (omega arith) in
    rw (low, high) (omega arith)
