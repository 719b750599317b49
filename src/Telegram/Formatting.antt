-- ===== src/Telegram/Formatting.antt =====
-- ext/channels/telegram/src/formatting.rs: from the Markdown of an agent to the HTML of Telegram.
-- The crate regex and the Unicode white space of `split_whitespace` are parameters.
use protoclaw.Base.{
  ℕ, zero, suc, ◌+◌, ◌/◌, ◌%◌, Bool, true, false, ◌&&◌, Option, none, some, List, [], ◌∷◌, ◌++◌,
  map, if◌then◌else◌, length, ltb, nat_eqb, get_elem?, any, ◌=?◌, nat_eq, list_eq,
}
use protoclaw.Base.Text.{Text, bytes}
use protoclaw.Base.Search.{find, replace, starts_with, take, drop}

-- `str::replace` with a character of ASCII as the pattern.
unfoldable pub replace_char : ℕ → Text → Text → Text
replace_char b r [] = []
replace_char b r (c ∷ s) =
    let rest = replace_char b r s in if nat_eqb c b then r ++ rest else c ∷ rest

unfoldable pub escape_html : Text → Text
unfolding replace_char
escape_html s =
    replace_char b'>' (bytes "&gt;")
      (replace_char b'<' (bytes "&lt;") (replace_char b'&' (bytes "&amp;") s))

-- The decimal digits of a number, on fuel: there are no more digits than `n + 1`.
digits : ℕ → ℕ → Text → Text
digits zero n behind = behind
digits (suc fuel) n behind =
    let front = digits fuel (n / 10) ((b'0' + n % 10) ∷ behind) in
    if ltb n 10 then (b'0' + n) ∷ behind else front

unfoldable pub decimal : ℕ → Text
unfolding digits
decimal n = digits (suc n) n []

-- The regular expressions of the file, by their statics.
pub data Pattern : Type 0 where
  fenced_code inline_code blockquote header link bold strike italic_underscore italic_star : Pattern

-- The groups of a match, the whole match as group 0.
abbrev pub Captures : Type 0
Captures = List (Option Text)

-- `matches` gives the matches of a pattern from the left that do not overlap, each with the text
-- before it, and the text behind the last; `first_word` is `split_whitespace().next()`.
pub record Strings : Type 0 where
  pub matches : Pattern → Text → List (Text × Captures) × Text
  pub first_word : Text → Option Text

abbrev pub group : ℕ → Captures → Text
group n caps = elim (get_elem? caps n) [ some (some t) ↦ t | _ ↦ [] ]

abbrev pub placeholder : Text → ℕ → Text
placeholder name i = 0 ∷ (name ++ (b'_' ∷ (decimal i ++ (0 ∷ []))))

-- Each match gives way to the next placeholder, and its block is kept.
extract_from : Text → (Captures → Text) → ℕ → List (Text × Captures) → Text → Text × List Text
unfolding decimal
extract_from name block i [] rest = (rest, [])
extract_from name block i ((before, caps) ∷ ms) rest =
    let (text, blocks) = extract_from name block (suc i) ms rest in
    (before ++ (placeholder name i ++ text), block caps ∷ blocks)

replaced : (Captures → Text) → List (Text × Captures) → Text → Text
replaced template [] rest = rest
replaced template ((before, caps) ∷ ms) rest =
    before ++ (template caps ++ replaced template ms rest)

-- Puts the blocks back.
restore_from : Text → ℕ → List Text → Text → Text
unfolding replace decimal
restore_from name i [] text = text
restore_from name i (block ∷ blocks) text =
    restore_from name (suc i) blocks (replace (placeholder name i) block 0 text)

abbrev before_newline : Text → Bool
before_newline [] = false
before_newline (c ∷ s) = nat_eqb c b'\n'

abbrev on_first : ℕ → List Text → List Text
on_first c [] = (c ∷ []) ∷ []
on_first c (line ∷ lines) = (c ∷ line) ∷ lines

-- `str::lines`.
unfoldable pub lines : Text → List Text
lines [] = []
lines (c ∷ s) =
    let rest = lines s in
    if nat_eqb c b'\n'
    then [] ∷ rest
    else if nat_eqb c b'\r' && before_newline s
    then rest
    else on_first c rest

unfoldable pub join : Text → List Text → Text
join by [] = []
join by (t ∷ []) = t
join by (t ∷ u ∷ ts) = t ++ (by ++ join by (u ∷ ts))

-- A line of a quotation without its mark.
unquoted : Text → Text
unfolding starts_with drop
unquoted line =
    if starts_with (bytes "> ") line
    then drop 2 line
    else if starts_with (bytes ">") line
    then drop 1 line
    else line

code_block : Captures → Text
unfolding escape_html
code_block caps =
    let code = escape_html (group 2 caps) in
    let lang = group 1 caps in
    if nat_eqb (length lang) 0
    then bytes "<pre>" ++ (code ++ bytes "</pre>")
    else bytes "<pre><code class=\"language-"
      ++ (lang ++ (bytes "\">" ++ (code ++ bytes "</code></pre>")))

inline_block : Captures → Text
unfolding escape_html
inline_block caps = bytes "<code>" ++ (escape_html (group 1 caps) ++ bytes "</code>")

quote_block : Captures → Text
unfolding escape_html lines join unquoted
quote_block caps =
    bytes "<blockquote>"
    ++ (escape_html (join (bytes "\n") (map unquoted (lines (group 0 caps))))
        ++ bytes "</blockquote>")

in_tag : Text → Captures → Text
in_tag tag caps =
    (b'<' ∷ (tag ++ bytes ">")) ++ (group 1 caps ++ (bytes "</" ++ (tag ++ bytes ">")))

a_link : Captures → Text
a_link caps =
    bytes "<a href=\"" ++ (group 2 caps ++ (bytes "\">" ++ (group 1 caps ++ bytes "</a>")))

module _ (str : Strings) where
  open str use {matches, first_word}

  extract : Pattern → Text → (Captures → Text) → Text → Text × List Text
  unfolding extract_from
  extract pattern name block text =
      let (ms, rest) = matches pattern text in extract_from name block 0 ms rest

  replace_all : Pattern → (Captures → Text) → Text → Text
  unfolding replaced
  replace_all pattern template text =
      let (ms, rest) = matches pattern text in replaced template ms rest

  -- Steps 4 and 5: what is left is escaped, then its marks become tags.
  mark_up : Text → Text
  unfolding replace_all in_tag a_link escape_html
  mark_up text = replace_all italic_star (in_tag (bytes "i")) (
      replace_all italic_underscore (in_tag (bytes "i")) (
        replace_all strike (in_tag (bytes "s")) (
          replace_all bold (in_tag (bytes "b")) (
            replace_all link a_link (replace_all header (in_tag (bytes "b")) (escape_html text))))))

  unfoldable pub format_telegram_html : Text → Text
  unfolding extract mark_up restore_from code_block inline_block quote_block
  format_telegram_html text =
      let (t1, code_blocks) = extract fenced_code (bytes "CODEBLOCK") code_block text in
      let (t2, inline_codes) = extract inline_code (bytes "INLINE") inline_block t1 in
      let (t3, blockquotes) = extract blockquote (bytes "BLOCKQUOTE") quote_block t2 in
      restore_from (bytes "CODEBLOCK") 0 code_blocks (
        restore_from (bytes "INLINE") 0 inline_codes
          (restore_from (bytes "BLOCKQUOTE") 0 blockquotes (mark_up t3)))

  abbrev pub tags : List Text
  tags =
      bytes "b"
      ∷ bytes "i"
      ∷ bytes "s"
      ∷ bytes "u"
      ∷ bytes "code"
      ∷ bytes "pre"
      ∷ bytes "blockquote"
      ∷ bytes "a"
      ∷ []

  abbrev pub word : Text → Text
  word s = elim (first_word s) [ none ↦ [] | some w ↦ w ]

  -- Takes the tag of that name out of the stack, the one that was opened last.
  unfoldable pub remove_tag : Text → List Text → List Text
  remove_tag name [] = []
  remove_tag name (t ∷ stack) =
      let rest = remove_tag name stack in if t =? name then stack else t ∷ rest

  -- The stack after a tag, with the last tag first.
  unfoldable pub on_tag : Text → List Text → List Text
  unfolding remove_tag
  on_tag [] stack = if any (λ t. t =? word []) tags then word [] ∷ stack else stack
  on_tag (c ∷ content) stack =
      if nat_eqb c b'/'
      then remove_tag (word content) stack
      else if any (λ t. t =? word (c ∷ content)) tags
      then word (c ∷ content) ∷ stack
      else stack

  -- The loop over the bytes, behind `skip` bytes that a tag has taken.
  unfoldable pub open_tags : List Text → (skip : ℕ) → Text → List Text
  unfolding on_tag find take
  open_tags stack skip [] = stack
  open_tags stack (suc skip) (c ∷ s) = open_tags stack skip s
  open_tags stack zero (c ∷ s) = elim (nat_eqb c b'<') [
    | false ↦ open_tags stack zero s
    | true ↦ elim (find (bytes ">") s) [
      | none ↦ open_tags (on_tag s stack) (length s) s
      | some n ↦ open_tags (on_tag (take n s) stack) (suc n) s
    ]
  ]

  abbrev pub closing : List Text → Text
  closing [] = []
  closing (t ∷ stack) = (bytes "</" ++ (t ++ bytes ">")) ++ closing stack

  unfoldable pub close_open_tags : Text → Text
  unfolding open_tags
  close_open_tags html = html ++ closing (open_tags [] 0 html)
