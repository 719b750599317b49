-- ===== src/Telegram/Split/Chunks.antt =====
-- The chunks of a split message make up the message.
use protoclaw.Base.{
  ℕ, zero, suc, ◌≤◌, ◌<◌, ◌≡◌, refl, ap, ◌∙◌, ◌≢◌, some, List, [], ◌∷◌, ◌++◌, arith, inl, inr,
  length, is_empty, if◌then◌else◌, leb, Bool-cases, Option-cases,
}
use mathlib.Core.List.{append-nil}
use protoclaw.Base.Text.{Text, bytes}
use protoclaw.Base.Search.{rfind, take, drop}
use protoclaw.Base.Search.Laws.{rfind_within, take-drop, length-take, length-drop}
use protoclaw.Telegram.Split.{
  floor_char_boundary, or_if_zero, past_pre_block, at_line_end, split_boundary, split_loop,
  split_message,
}

-- Within the text and not at its start.
abbrev pub Inside : ℕ → Text → Type 0
Inside n s = (0 < n) × (n ≤ length s)

pub floor_char_boundary-le : (n : ℕ) (s : Text) → floor_char_boundary n s ≤ n
unfolding floor_char_boundary
floor_char_boundary-le zero s = omega arith
floor_char_boundary-le (suc n) s = ground (arith, floor_char_boundary-le n s)

pub past_pre_block-Inside : (s : Text) (n : ℕ) → Inside n s → Inside (past_pre_block s n) s
unfolding past_pre_block
past_pre_block-Inside s n h = ground arith

-- What is cut off at a line end is not empty, and no longer than the candidate.
pub at_line_end_bounds :
    (s : Text) (n : ℕ) → Inside n s → (0 < at_line_end s n) × (at_line_end s n ≤ n)
unfolding at_line_end
at_line_end_bounds s n h =
    let t = take n s in
    let len = length-take n s h.1 in
    elim (Option-cases (rfind (bytes "\n\n") t)) [
      | inr (pos, e) ↦ rw (at_line_end, e) (omega (arith, rfind_within (bytes "\n\n") t pos e, len))
      | inl e ↦ elim (Option-cases (rfind (bytes "\n") t)) [
        | inr (pos, f) ↦
            rw (at_line_end, e, f) (omega (arith, rfind_within (bytes "\n") t pos f, len))
        | inl f ↦ elim (Option-cases (rfind (bytes ". ") t)) [
          | inr (pos, g) ↦
              rw (at_line_end, e, f, g) (omega (arith, rfind_within (bytes ". ") t pos g, len))
          | inl g ↦ rw (at_line_end, e, f, g) (omega (arith, h))
        ]
      ]
    ]

pub split_boundary-Inside :
    (max_len : ℕ) (s : Text)
    → 0 < max_len
    → max_len < length s
    → Inside (split_boundary max_len s) s
unfolding split_boundary
split_boundary-Inside max_len s p q =
    let n = or_if_zero max_len (floor_char_boundary max_len s) in
    let start : Inside n s = ground (arith, floor_char_boundary-le max_len s) in
    let kept = past_pre_block-Inside s n start in
    let ended = at_line_end_bounds s (past_pre_block s n) kept in ground (arith, kept, ended)

-- The chunks where no slice panics.
unfoldable pub chunks_loop : ℕ → ℕ → Text → List Text
unfolding split_boundary
chunks_loop zero max_len s = []
chunks_loop (suc fuel) max_len s =
    let rest = chunks_loop fuel max_len (drop (split_boundary max_len s) s) in
    if is_empty s
    then []
    else if leb (length s) max_len
    then s ∷ []
    else take (split_boundary max_len s) s ∷ rest

unfoldable pub message_chunks : Text → ℕ → List Text
unfolding chunks_loop
message_chunks text max_len =
    if leb (length text) max_len then text ∷ [] else chunks_loop (length text) max_len text

split_loop-chunks :
    (fuel max_len : ℕ) (s : Text) (chunks : List Text)
    → split_loop fuel max_len s ≡ some chunks
    → chunks ≡ chunks_loop fuel max_len s
unfolding split_loop chunks_loop
split_loop-chunks zero max_len s chunks h = ground (arith, h)
split_loop-chunks (suc fuel) max_len s chunks h =
    let n = split_boundary max_len s in
    elim (Option-cases (split_loop fuel max_len (drop n s))) [
      | inl e ↦ ground (arith, h, e)
      | inr (rest, e) ↦ ground (arith, h, e, split_loop-chunks fuel max_len (drop n s) rest e)
    ]

pub split_message-chunks :
    (text : Text) (max_len : ℕ) (chunks : List Text)
    → split_message text max_len ≡ some chunks
    → chunks ≡ message_chunks text max_len
unfolding split_message message_chunks
split_message-chunks text max_len chunks h =
    ground (arith, h, split_loop-chunks (length text) max_len text chunks)

-- The chunks one after another.
abbrev pub concat : List Text → Text
concat [] = []
concat (t ∷ ts) = t ++ concat ts

abbrev pub All : (Text → Type 0) → List Text → Type 0
All P [] = Unit
All P (t ∷ ts) = P t × All P ts

abbrev pub AllNonempty : List Text → Type 0
AllNonempty ts = All (λ t. t ≢ []) ts

nonempty : (t : Text) → 0 < length t → t ≢ []
nonempty t h e = omega (arith, ap length e)

chunks_loop_lem :
    (fuel max_len : ℕ) (s : Text)
    → 0 < max_len
    → length s ≤ fuel
    → (concat (chunks_loop fuel max_len s) ≡ s) × AllNonempty (chunks_loop fuel max_len s)
unfolding chunks_loop
chunks_loop_lem zero max_len [] p h = (refl, tt)
chunks_loop_lem zero max_len (c ∷ s) p h = absurd (omega arith)
chunks_loop_lem (suc fuel) max_len [] p h = (refl, tt)
chunks_loop_lem (suc fuel) max_len (c ∷ s) p h = elim (Bool-cases (leb (length (c ∷ s)) max_len)) [
  | inl short ↦ rw short (append-nil (c ∷ s), ((λ e. cc), tt))
  | inr long ↦
      let n = split_boundary max_len (c ∷ s) in
      let b = split_boundary-Inside max_len (c ∷ s) p (ground arith) in
      let len = length-drop n (c ∷ s) in
      let rest = chunks_loop_lem fuel max_len (drop n (c ∷ s)) p (omega (arith, len, b)) in
      rw long (
        ap (◌++◌ (take n (c ∷ s))) rest.0 ∙ take-drop n (c ∷ s),
        (nonempty (take n (c ∷ s)) (omega (arith, length-take n (c ∷ s) b.1, b)), rest.1),
      )
]

pub concat-message_chunks :
    (text : Text) (max_len : ℕ)
    → 0 < max_len
    → (concat (message_chunks text max_len) ≡ text)
      × (text ≢ [] → AllNonempty (message_chunks text max_len))
unfolding message_chunks
concat-message_chunks text max_len p = elim (Bool-cases (leb (length text) max_len)) [
  | inl short ↦ rw short (append-nil text, λ e. (e, tt))
  | inr long ↦
      let all = chunks_loop_lem (length text) max_len text p (omega arith) in
      rw long (all.0, λ e. all.1)
]
