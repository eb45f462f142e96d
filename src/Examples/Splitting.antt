-- ===== src/Examples/Splitting.antt =====
-- An answer that is longer than its channel takes.
use invarail.Prelude.{◌≡◌, refl, [], ◌∷◌, some, Text, text, trim_start, arith}
use invarail.Utils.Split.{split_final_message}
use invarail.Utils.Split.Laws.{Whole, split_final_message-Whole}

abbrev reply : Text
reply = text "one two three\nfour five"

three_chunks :
    split_final_message 40 10 reply ≡ some (text "one two" ∷ text "three" ∷ text "four five" ∷ [])
unfolding split_final_message trim_start
three_chunks = refl

split_final_message-Whole_example : Whole 10 reply (split_final_message 40 10 reply)
split_final_message-Whole_example =
    split_final_message-Whole 40 10 reply (omega arith) (omega arith)
