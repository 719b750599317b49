-- ===== src/Telegram/Split/Bounds.antt =====
-- How long the chunks of a split message are.
use protoclaw.Base.{
  ℕ, zero, suc, ◌≤◌, ◌<◌, ◌≡◌, none, [], ◌∷◌, arith, inl, inr, length, leb, Bool-cases,
}
use protoclaw.Base.Text.{Text, bytes}
use protoclaw.Base.Search.{find, take, drop}
use protoclaw.Base.Search.Laws.{length-take, find-drop, find-take, count_matches_zero}
use protoclaw.Telegram.Split.{floor_char_boundary, or_if_zero, past_pre_block, split_boundary}
use protoclaw.Telegram.Split.Chunks.{
  chunks_loop, message_chunks, Inside, All, floor_char_boundary-le, at_line_end_bounds,
  split_boundary-Inside,
}

-- The text opens no `<pre>`.
abbrev pub NoPre : Text → Type 0
NoPre s = find (bytes "<pre") s ≡ none

past_pre_block-NoPre : (s : Text) (n : ℕ) → NoPre s → past_pre_block s n ≡ n
unfolding past_pre_block
past_pre_block-NoPre s n h =
    let t = find-take b'<' (bytes "pre") n s h in
    ground (
      arith,
      count_matches_zero b'<' (bytes "pre") (bytes ">") 0 (take n s) t,
      count_matches_zero b'<' (bytes "pre") (bytes " ") 0 (take n s) t,
    )

split_boundary-le :
    (max_len : ℕ) (s : Text)
    → 0 < max_len
    → max_len < length s
    → NoPre s
    → split_boundary max_len s ≤ max_len
unfolding split_boundary
split_boundary-le max_len s p q h =
    let n = or_if_zero max_len (floor_char_boundary max_len s) in
    let start : Inside n s = ground (arith, floor_char_boundary-le max_len s) in
    let le : n ≤ max_len = ground (arith, floor_char_boundary-le max_len s) in
    ground (arith, past_pre_block-NoPre s n h, at_line_end_bounds s n start)

chunks_loop-le :
    (fuel max_len : ℕ) (s : Text)
    → 0 < max_len
    → NoPre s
    → All (λ t. length t ≤ max_len) (chunks_loop fuel max_len s)
unfolding chunks_loop
chunks_loop-le zero max_len s p h = tt
chunks_loop-le (suc fuel) max_len [] p h = tt
chunks_loop-le (suc fuel) max_len (c ∷ s) p h = elim (Bool-cases (leb (length (c ∷ s)) max_len)) [
  | inl short ↦ rw short (ground arith, tt)
  | inr long ↦
      let n = split_boundary max_len (c ∷ s) in
      let b = split_boundary-Inside max_len (c ∷ s) p (ground arith) in
      let le = split_boundary-le max_len (c ∷ s) p (ground arith) h in
      rw long (
        omega (arith, length-take n (c ∷ s) b.1, le),
        chunks_loop-le fuel max_len (drop n (c ∷ s)) p (find-drop b'<' (bytes "pre") n (c ∷ s) h),
      )
]

pub length-message_chunks :
    (text : Text) (max_len : ℕ)
    → 0 < max_len
    → NoPre text
    → All (λ t. length t ≤ max_len) (message_chunks text max_len)
unfolding message_chunks
length-message_chunks text max_len p h = elim (Bool-cases (leb (length text) max_len)) [
  | inl short ↦ rw short (ground arith, tt)
  | inr long ↦ rw long (chunks_loop-le (length text) max_len text p h)
]
