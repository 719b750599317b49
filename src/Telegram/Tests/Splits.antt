-- ===== src/Telegram/Tests/Splits.antt =====
-- Messages that are split: tests, and instances of the theorems.
use protoclaw.Base.{◌≤◌, ◌≡◌, refl, ◌≢◌, some, none, List, [], ◌∷◌, arith, length}
use protoclaw.Base.Text.{Text, bytes}
use protoclaw.Base.Search.{find, rfind, count_matches, take, drop}
use protoclaw.Telegram.Split.{split_message}
use protoclaw.Telegram.Split.Chunks.{All, AllNonempty, concat}
use protoclaw.Telegram.Split.Utf8.{Utf8}
use protoclaw.Telegram.Split.Cuts.{split_message-Utf8, concat-split_message, length-split_message}

abbrev sentences : Text
sentences = bytes "One. Two. Three"

in_sentences : split_message sentences 8 ≡ some (bytes "One. " ∷ bytes "Two. " ∷ bytes "Three" ∷ [])
unfolding split_message count_matches find rfind take drop
in_sentences = refl

concat-split_message_example :
    (4 ≤ 8 → Utf8 sentences → (chunks : List Text) × (split_message sentences 8 ≡ some chunks))
    × ((chunks : List Text)
        → split_message sentences 8 ≡ some chunks
        → (concat chunks ≡ sentences) × (sentences ≢ [] → AllNonempty chunks))
concat-split_message_example = concat-split_message sentences 8 (omega arith)

length-split_message_example :
    (4 ≤ 8 → Utf8 sentences → (chunks : List Text) × (split_message sentences 8 ≡ some chunks))
    × ((chunks : List Text)
        → split_message sentences 8 ≡ some chunks
        → All (λ t. length t ≤ 8) chunks)
length-split_message_example = length-split_message sentences 8 (omega arith) (unfold find in refl)

-- Two letters of two bytes and one of three.
abbrev accents : Text
accents = 0xC3 ∷ 0xA9 ∷ 0xE2 ∷ 0x82 ∷ 0xAC ∷ 0xC3 ∷ 0xA8 ∷ []

split_message-Utf8_example :
    (chunks : List Text) × (split_message accents 4 ≡ some chunks) × All Utf8 chunks
split_message-Utf8_example = split_message-Utf8 accents 4 (omega arith) (refl, tt)

-- A limit of less than a character.
panic_test : split_message accents 1 ≡ none
unfolding split_message find rfind count_matches take drop
panic_test = refl

-- The second block is open at the limit, so that the boundary goes back behind the end of the
-- first one; the line end that is then looked for stands within the first block.
split_in_block :
    split_message (bytes "<pre>a\nb</pre>  <pre>c</pre>") 22
    ≡ some (bytes "<pre>a\n" ∷ bytes "b</pre>  <pre>c</pre>" ∷ [])
unfolding split_message count_matches find rfind take drop
split_in_block = refl
