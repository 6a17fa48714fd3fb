-- ===== src/Keyboard/Layout.antt =====
-- The two tables of the layout against a description of the keys.
use paradox_os.Base.{==_iff, get_or, if◌then◌else◌, refl, true, ℕ, ◌-◌, ◌<◌, ◌==◌, ◌||◌, ◌≡◌}
use paradox_os.Base.Bits.{all_below, all_below_lem, test_bit}
use paradox_os.Keyboard.{
  scancode_to_ascii, scancode_to_ascii_shift, is_lower, key_char, mod_shift, mod_ctrl, mod_capslock,
}

-- A letter key gives its letter's number with the control key, its capital with shift or caps lock,
-- and its small letter otherwise; any other key has its upper and its lower character.
abbrev pub described : ℕ → ℕ → ℕ
described modifiers scancode =
    let c = get_or scancode_to_ascii scancode 0 in
    if is_lower c
    then (if test_bit modifiers mod_ctrl
        then c - 96
        else if test_bit modifiers mod_shift || test_bit modifiers mod_capslock
        then c - 32
        else c)
    else if test_bit modifiers mod_shift
    then get_or scancode_to_ascii_shift scancode 0
    else c

agree : all_below 16 (λ m. all_below 128 (λ k. key_char m k == described m k)) ≡ true
unfolding all_below test_bit key_char
agree = refl

-- For the flags of the four modifiers and a key of scan code less than 128, the handler's character is
-- the one described: caps lock and shift make capitals and the control key makes control codes of
-- letters alone.
pub key_char-described :
    (modifiers scancode : ℕ)
    → modifiers < 16
    → scancode < 128
    → key_char modifiers scancode ≡ described modifiers scancode
key_char-described modifiers scancode hm hk =
    (==_iff _ _).0 (all_below_lem _ hk (all_below_lem _ hm agree))
