-- ===== src/Telegram/Tests/Formats.antt =====
-- The markup of a message: tests, with words that end at a space.
use protoclaw.Base.{◌≡◌, refl, none, some, [], ◌∷◌, if◌then◌else◌, is_empty, nat_eqb, list_eqb}
use protoclaw.Base.Text.{Text, bytes}
use protoclaw.Base.Search.{find, take}
use protoclaw.Telegram.Formatting.{Strings, close_open_tags, escape_html}

up_to_space : Text → Text
up_to_space [] = []
up_to_space (c ∷ s) = let rest = up_to_space s in if nat_eqb c b' ' then [] else c ∷ rest

abbrev spaced : Strings
spaced = record {
  matches = λ pattern text. ([], text);
  first_word = λ s. let word = up_to_space s in if is_empty word then none else some word;
}

abbrev link_in_bold : Text
link_in_bold = bytes "<b>see <a href=\"x\">here</b> <br>"

close_test : close_open_tags spaced link_in_bold ≡ bytes "<b>see <a href=\"x\">here</b> <br></a>"
unfolding close_open_tags find take up_to_space list_eqb
close_test = refl

escape_test : escape_html (bytes "a<b>&") ≡ bytes "a&lt;b&gt;&amp;"
unfolding escape_html
escape_test = refl
