-- ===== src/Usermode/Tests.antt =====
-- A program with two arguments.
use paradox_os.Base.{List, [], arith, refl, take, ℕ, ◌∷◌, ◌≡◌}
use paradox_os.Base.Text.{codes}
use paradox_os.Usermode.{all_tokens, build_frame, tokenize, skip_blanks, take_word}
use paradox_os.Usermode.Words.{words, tokenize-words}
use paradox_os.Usermode.Layout.{IsFrame}
use paradox_os.Usermode.Start.{build_frame-all_tokens}

abbrev prog : List ℕ
prog = codes "cat"

abbrev line : List ℕ
line = codes " a  -n "

two_words : all_tokens [] prog line ≡ codes "cat" ∷ codes "a" ∷ codes "-n" ∷ []
unfolding all_tokens tokenize skip_blanks take_word
two_words = refl

build_frame-all_tokens_example :
    IsFrame
      (λ a. 0)
      8192
      (all_tokens (9 ∷ []) prog line)
      (build_frame (λ a. 0) 8192 (all_tokens (9 ∷ []) prog line))
build_frame-all_tokens_example =
    build_frame-all_tokens (λ a. 0) 8192 (9 ∷ []) prog line refl (omega arith) (omega arith)
      (omega arith)

tokenize-words_example : tokenize [] 15 line 0 ≡ take 15 (words line)
tokenize-words_example = tokenize-words [] 15 line (omega arith)
