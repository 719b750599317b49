-- ===== src/Telegram/Split/Cuts.antt =====
-- A message is split between characters, so that no slice of `split_message` panics.
use protoclaw.Base.{
  ℕ, zero, suc, ◌+◌, ◌≤◌, ◌<◌, ◌≡◌, ◌≢◌, refl, sym, subst, Bool, true, false, none, some, List, [],
  ◌∷◌, arith, inl, inr, length, leb, ltb, Bool-cases, Option-cases, if◌then◌else◌,
}
use protoclaw.Base.Text.{Text, bytes}
use protoclaw.Base.Search.{find, rfind, count_matches, take, drop}
use protoclaw.Base.Search.Laws.{find_at, rfind_at, starts_with-drop-take}
use protoclaw.Telegram.Split.{
  floor_char_boundary, or_if_zero, past_pre_block, at_line_end, split_boundary, is_char_boundary,
  boundary_within, candidate_end, is_sliceable, split_loop, split_message,
}
use protoclaw.Telegram.Split.Chunks.{
  All, AllNonempty, concat, Inside, floor_char_boundary-le, past_pre_block-Inside,
  split_boundary-Inside, chunks_loop, message_chunks, split_message-chunks, concat-message_chunks,
}
use protoclaw.Telegram.Split.Bounds.{length-message_chunks}
use protoclaw.Telegram.Split.Utf8.{
  Utf8, Ascii, Continues-take, char_boundary-Utf8, floor_char_boundary-boundary,
  floor_char_boundary_pos, behind-Utf8,
}

past_pre_block-Utf8 :
    (s : Text) (n : ℕ) → Utf8 s → Utf8 (drop n s) → Utf8 (drop (past_pre_block s n) s)
unfolding past_pre_block
past_pre_block-Utf8 s n u v = elim (Bool-cases opens) [
  | inr f ↦ rw (past_pre_block, f) v
  | inl t ↦ elim (Option-cases (find (bytes "</pre>") s)) [
    | inl e ↦ rw (past_pre_block, t, e) v
    | inr (pos, e) ↦ elim (Bool-cases (leb (pos + 6) (length s))) [
      | inr f ↦ rw (past_pre_block, t, e, f) v
      | inl l ↦
          rw (past_pre_block, t, e, l)
            (behind-Utf8 b'<' (bytes "/pre>") pos s (omega arith) (find_at (bytes "</pre>") s pos e)
              u)
    ]
  ]
]
  where
    opens : Bool
    opens =
        ltb (count_matches (bytes "</pre>") 0 (take n s))
          (count_matches (bytes "<pre>") 0 (take n s) + count_matches (bytes "<pre ") 0 (take n s))

at_line_end-Utf8 : (s : Text) (n : ℕ) → Utf8 s → Utf8 (drop n s) → Utf8 (drop (at_line_end s n) s)
unfolding at_line_end
at_line_end-Utf8 s n u v = elim (Option-cases (rfind (bytes "\n\n") (take n s))) [
  | inr (pos, e) ↦ rw (at_line_end, e) (behind b'\n' (bytes "\n") pos (omega arith) e)
  | inl e ↦ elim (Option-cases (rfind (bytes "\n") (take n s))) [
    | inr (pos, f) ↦ rw (at_line_end, e, f) (behind b'\n' [] pos (omega arith) f)
    | inl f ↦ elim (Option-cases (rfind (bytes ". ") (take n s))) [
      | inr (pos, g) ↦ rw (at_line_end, e, f, g) (behind b'.' (bytes " ") pos (omega arith) g)
      | inl g ↦ rw (at_line_end, e, f, g) v
    ]
  ]
]
  where
    behind :
        (b : ℕ) (p : Text) (pos : ℕ)
        → Ascii (b ∷ p)
        → rfind (b ∷ p) (take n s) ≡ some pos
        → Utf8 (drop (pos + length (b ∷ p)) s)
    behind b p pos a e =
        behind-Utf8 b p pos s a
          (starts_with-drop-take (b ∷ p) pos n s (rfind_at (b ∷ p) (take n s) pos e)) u

either : (P : ℕ → Type 0) (b : Bool) (m n : ℕ) → P m → P n → P (if b then m else n)
either P true m n p q = p
either P false m n p q = q

split_boundary-Utf8 :
    (max_len : ℕ) (s : Text)
    → 4 ≤ max_len
    → max_len < length s
    → Utf8 s
    → Utf8 (drop (split_boundary max_len s) s)
unfolding split_boundary
split_boundary-Utf8 max_len s p q u =
    let n = floor_char_boundary max_len s in
    let start = or_if_zero max_len n in
    let same : n ≡ start = ground (arith, floor_char_boundary_pos max_len s u p q) in
    let v = char_boundary-Utf8 n s (floor_char_boundary-boundary max_len s) u in
    let w = past_pre_block-Utf8 s start u (subst (λ (k : ℕ). Utf8 (drop k s)) same v) in
    let m = past_pre_block s start in
    either (λ (k : ℕ). Utf8 (drop k s)) (leb m max_len) (at_line_end s m) m
      (at_line_end-Utf8 s m u w) w

chunks_loop-Utf8 :
    (fuel max_len : ℕ) (s : Text) → 4 ≤ max_len → Utf8 s → All Utf8 (chunks_loop fuel max_len s)
unfolding chunks_loop
chunks_loop-Utf8 zero max_len s p u = tt
chunks_loop-Utf8 (suc fuel) max_len [] p u = tt
chunks_loop-Utf8 (suc fuel) max_len (c ∷ s) p u = elim (Bool-cases (leb (length (c ∷ s)) max_len)) [
  | inl short ↦ rw short (u, tt)
  | inr long ↦
      let n = split_boundary max_len (c ∷ s) in
      let v = split_boundary-Utf8 max_len (c ∷ s) p (ground arith) u in
      rw long (Continues-take 0 n (c ∷ s) u, chunks_loop-Utf8 fuel max_len (drop n (c ∷ s)) p v)
]

message_chunks-Utf8 :
    (text : Text) (max_len : ℕ) → 4 ≤ max_len → Utf8 text → All Utf8 (message_chunks text max_len)
unfolding message_chunks
message_chunks-Utf8 text max_len p u = elim (Bool-cases (leb (length text) max_len)) [
  | inl short ↦ rw short (u, tt)
  | inr long ↦ rw long (chunks_loop-Utf8 (length text) max_len text p u)
]

-- Where the rest is UTF-8, the text can be sliced.
Utf8-boundary_within :
    (n : ℕ) (s : Text) → n ≤ length s → Utf8 (drop n s) → boundary_within n s ≡ true
unfolding boundary_within drop
Utf8-boundary_within zero [] h u = refl
Utf8-boundary_within zero (c ∷ s) h u = ground (arith, u.0)
Utf8-boundary_within (suc n) [] h u = absurd (omega arith)
Utf8-boundary_within (suc n) (c ∷ s) h u = Utf8-boundary_within n s (omega arith) u

Utf8-char_boundary :
    (n : ℕ) (s : Text) → n ≤ length s → Utf8 (drop n s) → is_char_boundary n s ≡ true
unfolding is_char_boundary
Utf8-char_boundary zero s h u = refl
Utf8-char_boundary (suc n) s h u = Utf8-boundary_within (suc n) s h u

is_sliceable-Utf8 :
    (max_len : ℕ) (s : Text)
    → 4 ≤ max_len
    → max_len < length s
    → Utf8 s
    → is_sliceable max_len s ≡ true
unfolding is_sliceable
is_sliceable-Utf8 max_len s p q u =
    let n = floor_char_boundary max_len s in
    let start = candidate_end max_len s in
    let same : n ≡ start = ground (arith, floor_char_boundary_pos max_len s u p q) in
    let v =
      subst (λ (k : ℕ). Utf8 (drop k s)) same
        (char_boundary-Utf8 n s (floor_char_boundary-boundary max_len s) u) in
    let inside : Inside start s = ground (arith, floor_char_boundary-le max_len s) in
    let m = past_pre_block s start in
    let first = Utf8-char_boundary start s inside.1 v in
    let second =
      Utf8-char_boundary m s (past_pre_block-Inside s start inside).1
        (past_pre_block-Utf8 s start u v) in
    let third =
      Utf8-char_boundary (split_boundary max_len s) s
        (split_boundary-Inside max_len s (omega (arith, p)) q).1
        (split_boundary-Utf8 max_len s p q u) in
    ground (arith, first, second, third)

split_loop-total :
    (fuel max_len : ℕ) (s : Text)
    → 4 ≤ max_len
    → Utf8 s
    → split_loop fuel max_len s ≡ some (chunks_loop fuel max_len s)
unfolding split_loop chunks_loop
split_loop-total zero max_len s p u = refl
split_loop-total (suc fuel) max_len [] p u = refl
split_loop-total (suc fuel) max_len (c ∷ s) p u = elim (Bool-cases (leb (length (c ∷ s)) max_len)) [
  | inl short ↦ ground (arith, short)
  | inr long ↦
      let n = split_boundary max_len (c ∷ s) in
      let v = split_boundary-Utf8 max_len (c ∷ s) p (ground arith) u in
      let whole = is_sliceable-Utf8 max_len (c ∷ s) p (ground arith) u in
      ground (arith, long, whole, split_loop-total fuel max_len (drop n (c ∷ s)) p v)
]

split_message-total :
    (text : Text) (max_len : ℕ)
    → 4 ≤ max_len
    → Utf8 text
    → split_message text max_len ≡ some (message_chunks text max_len)
unfolding split_message message_chunks
split_message-total text max_len p u =
    ground (arith, split_loop-total (length text) max_len text p u)

-- Splitting a text in UTF-8 at a limit of at least four bytes ends without a panic, and each
-- chunk begins with a character and goes on as UTF-8 does: no character is split.
pub split_message-Utf8 :
    (text : Text) (max_len : ℕ)
    → 4 ≤ max_len
    → Utf8 text
    → (chunks : List Text) × (split_message text max_len ≡ some chunks) × All Utf8 chunks
split_message-Utf8 text max_len p u = (
  message_chunks text max_len,
  split_message-total text max_len p u,
  message_chunks-Utf8 text max_len p u,
)

-- Splitting a text in UTF-8 at a limit of at least four bytes ends without a panic. With any limit
-- above zero, where there is no panic the chunks, one after another, are the message: nothing is
-- lost or doubled, and no chunk is empty, unless the message is.
pub concat-split_message :
    (text : Text) (max_len : ℕ)
    → 0 < max_len
    → (4 ≤ max_len → Utf8 text → (chunks : List Text) × (split_message text max_len ≡ some chunks))
      × ((chunks : List Text)
          → split_message text max_len ≡ some chunks
          → (concat chunks ≡ text) × (text ≢ [] → AllNonempty chunks))
concat-split_message text max_len p = (
  λ four u. (message_chunks text max_len, split_message-total text max_len four u),
  λ chunks h.
      subst (λ ts. (concat ts ≡ text) × (text ≢ [] → AllNonempty ts))
        (sym (split_message-chunks text max_len chunks h)) (concat-message_chunks text max_len p),
)

-- Splitting a text in UTF-8 at a limit of at least four bytes ends without a panic. With any limit
-- above zero, where there is no panic no chunk is longer than the limit, if the message opens no
-- `<pre>` block.
pub length-split_message :
    (text : Text) (max_len : ℕ)
    → 0 < max_len
    → find (bytes "<pre") text ≡ none
    → (4 ≤ max_len → Utf8 text → (chunks : List Text) × (split_message text max_len ≡ some chunks))
      × ((chunks : List Text)
          → split_message text max_len ≡ some chunks
          → All (λ t. length t ≤ max_len) chunks)
length-split_message text max_len p h = (
  λ four u. (message_chunks text max_len, split_message-total text max_len four u),
  λ chunks e.
      subst (All (λ t. length t ≤ max_len)) (sym (split_message-chunks text max_len chunks e))
        (length-message_chunks text max_len p h),
)
