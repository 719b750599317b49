-- ===== src/Telegram/Split.antt =====
-- ext/channels/telegram/src/deliver.rs: `split_message`. `none` is the panic of a slice
-- that begins or ends inside of a character.
pub mod Chunks
pub mod Bounds
pub mod Utf8
pub mod Cuts
use protoclaw.Base.{
  ℕ, zero, suc, ◌+◌, Bool, true, false, not, ◌&&◌, ◌||◌, Option, none, some, List, [], ◌∷◌,
  if◌then◌else◌, length, leb, ltb, nat_eqb, is_empty,
}
use protoclaw.Base.Text.{Text, bytes}
use protoclaw.Base.Search.{find, rfind, count_matches, take, drop}
use protoclaw.Telegram.Permissions.{is_continuation}

boundary_within : ℕ → Text → Bool
boundary_within zero [] = true
boundary_within zero (c ∷ s) = not (is_continuation c)
boundary_within (suc n) [] = false
boundary_within (suc n) (c ∷ s) = boundary_within n s

-- `str::is_char_boundary`.
unfoldable pub is_char_boundary : ℕ → Text → Bool
unfolding boundary_within
is_char_boundary zero s = true
is_char_boundary (suc n) s = boundary_within (suc n) s

-- The last boundary of a character that is not behind `n`.
unfoldable pub floor_char_boundary : ℕ → Text → ℕ
unfolding is_char_boundary
floor_char_boundary zero s = 0
floor_char_boundary (suc n) s =
    let before = floor_char_boundary n s in if is_char_boundary (suc n) s then suc n else before

abbrev pub or_if_zero : ℕ → ℕ → ℕ
or_if_zero max_len n = if nat_eqb n 0 then max_len else n

-- Behind the first `</pre>`, if the candidate opens more blocks than it closes.
unfoldable pub past_pre_block : Text → ℕ → ℕ
past_pre_block s boundary =
    let candidate = take boundary s in
    if ltb (count_matches (bytes "</pre>") 0 candidate)
      (count_matches (bytes "<pre>") 0 candidate + count_matches (bytes "<pre ") 0 candidate)
    then elim (find (bytes "</pre>") s) [
      | none ↦ boundary
      | some pos ↦ if leb (pos + 6) (length s) then pos + 6 else boundary
    ]
    else boundary

-- Behind the last empty line, the last line or the last sentence of the candidate.
unfoldable pub at_line_end : Text → ℕ → ℕ
at_line_end s boundary = elim (rfind (bytes "\n\n") (take boundary s)) [
  | some pos ↦ pos + 2
  | none ↦ elim (rfind (bytes "\n") (take boundary s)) [
    | some pos ↦ pos + 1
    | none ↦ elim (rfind (bytes ". ") (take boundary s)) [ some pos ↦ pos + 2 | none ↦ boundary ]
  ]
]

-- Where the text, which is longer than `max_len`, is split.
unfoldable pub split_boundary : ℕ → Text → ℕ
unfolding floor_char_boundary past_pre_block at_line_end
split_boundary max_len s =
    let boundary = past_pre_block s (or_if_zero max_len (floor_char_boundary max_len s)) in
    if leb boundary max_len then at_line_end s boundary else boundary

-- Where the candidate ends that a block or a line end is looked for in.
abbrev pub candidate_end : ℕ → Text → ℕ
candidate_end max_len s = or_if_zero max_len (floor_char_boundary max_len s)

-- The slices that a round takes of the text begin or end between characters.
unfoldable pub is_sliceable : ℕ → Text → Bool
unfolding is_char_boundary floor_char_boundary past_pre_block split_boundary
is_sliceable max_len s =
    let boundary = past_pre_block s (candidate_end max_len s) in
    is_char_boundary (candidate_end max_len s) s
    && ((not (leb boundary max_len) || is_char_boundary boundary s)
        && is_char_boundary (split_boundary max_len s) s)

abbrev pub cons_chunk : Text → Option (List Text) → Option (List Text)
cons_chunk chunk none = none
cons_chunk chunk (some chunks) = some (chunk ∷ chunks)

-- The loop, on fuel.
unfoldable pub split_loop : ℕ → ℕ → Text → Option (List Text)
unfolding split_boundary is_sliceable
split_loop zero max_len s = some []
split_loop (suc fuel) max_len s =
    let rest = split_loop fuel max_len (drop (split_boundary max_len s) s) in
    if is_empty s
    then some []
    else if leb (length s) max_len
    then some (s ∷ [])
    else if is_sliceable max_len s
    then cons_chunk (take (split_boundary max_len s) s) rest
    else none

unfoldable pub split_message : Text → ℕ → Option (List Text)
unfolding split_loop
split_message text max_len =
    if leb (length text) max_len then some (text ∷ []) else split_loop (length text) max_len text
