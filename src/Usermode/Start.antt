-- ===== src/Usermode/Start.antt =====
-- What a program gets for its arguments.
use paradox_os.Base.{
  Bool-cases, List, [], arith, inl, inr, length, suc, take, zero, ℕ, ◌%◌, ◌+◌, ◌<◌, ◌^◌, ◌∷◌, ◌≡◌,
  ◌≤◌,
}
use paradox_os.Usermode.{is_blank, all_tokens, build_frame}
use paradox_os.Usermode.Words.{push_some, split, words, tokenize-words}
use paradox_os.Usermode.Frame.{room_for}
use paradox_os.Usermode.Layout.{IsFrame, build_frame-IsFrame}

room_for-push_some :
    (w : List ℕ) (ws : List (List ℕ)) → room_for (push_some w ws) ≤ length w + 1 + room_for ws
room_for-push_some [] ws = omega arith
room_for-push_some (c ∷ w) ws = omega arith

-- The words of a text, each with its NUL, take one place more than the text.
room_for-split : (p : List ℕ) → length (split p).0 + room_for (split p).1 ≤ length p
room_for-split [] = omega arith
room_for-split (c ∷ p) = elim (Bool-cases (is_blank c)) [
  | inl e ↦ rw e (omega (arith, room_for-split p, room_for-push_some (split p).0 (split p).1))
  | inr e ↦ rw e (omega (arith, room_for-split p))
]

room_for-take :
    (n : ℕ) (ws : List (List ℕ)) → (room_for (take n ws) ≤ room_for ws) × (length (take n ws) ≤ n)
room_for-take zero ws = (omega arith, omega arith)
room_for-take (suc n) [] = (omega arith, omega arith)
room_for-take (suc n) (w ∷ ws) =
    (omega (arith, (room_for-take n ws).0), omega (arith, (room_for-take n ws).1))

-- With at most 255 characters of arguments, the frame of a program with a name of at most 3600
-- characters fits on its page and is as the program expects it: the count of the tokens, pointers to
-- their strings in their order, and two null pointers, with no byte written outside of the page.
pub build_frame-all_tokens :
    (m : ℕ → ℕ) (stack : ℕ) (behind prog_name args : List ℕ)
    → stack % 16 ≡ 0
    → stack + 4096 ≤ 2 ^ 64
    → length prog_name ≤ 3600
    → length args < 256
    → IsFrame m stack
        (all_tokens behind prog_name args)
        (build_frame m stack (all_tokens behind prog_name args))
unfolding all_tokens
build_frame-all_tokens m stack behind prog_name args aligned small short few =
    let split_up = tokenize-words behind 15 args few in
    let whole : room_for (words args) ≤ 256 =
      omega (arith, room_for-split args, room_for-push_some (split args).0 (split args).1, few) in
    let some_of = room_for-take 15 (words args) in
    rw split_up (
      build_frame-IsFrame m stack (prog_name ∷ take 15 (words args)) aligned small
        (omega (arith, some_of.0, some_of.1, whole, short)))
