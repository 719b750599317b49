-- ===== src/Base/Search/Laws.antt =====
-- Where an occurrence ends, and what the parts of a text come to.
use protoclaw.Base.{
  ℕ, zero, suc, ◌+◌, ◌-◌, ◌≤◌, ◌≡◌, refl, sym, ap, ◌∙◌, subst, true, none, some, [], ◌∷◌, ◌++◌,
  arith, inl, inr, length, Option-cases,
}
use protoclaw.Base.Text.{Text}
use protoclaw.Base.Search.{starts_with, find, rfind, count_matches, take, drop}

pub length-starts_with : (p s : Text) → starts_with p s ≡ true → length p ≤ length s
unfolding starts_with
length-starts_with [] s h = omega arith
length-starts_with (p ∷ ps) [] h = cc
length-starts_with (p ∷ ps) (c ∷ s) h = ground (arith, length-starts_with ps s)

pub find_within : (p s : Text) (n : ℕ) → find p s ≡ some n → n + length p ≤ length s
unfolding find
find_within p [] n h = ground (arith, length-starts_with p [])
find_within p (c ∷ s) n h = elim (Option-cases (find p s)) [
  | inl e ↦ ground (arith, length-starts_with p (c ∷ s), e)
  | inr (m, e) ↦ ground (arith, length-starts_with p (c ∷ s), e, find_within p s m e)
]

pub rfind_within : (p s : Text) (n : ℕ) → rfind p s ≡ some n → n + length p ≤ length s
unfolding rfind
rfind_within p [] n h = ground (arith, length-starts_with p [])
rfind_within p (c ∷ s) n h = elim (Option-cases (rfind p s)) [
  | inl e ↦ ground (arith, length-starts_with p (c ∷ s), e)
  | inr (m, e) ↦ ground (arith, e, rfind_within p s m e)
]

pub take-drop : (n : ℕ) (s : Text) → take n s ++ drop n s ≡ s
unfolding take drop
take-drop zero s = refl
take-drop (suc n) [] = refl
take-drop (suc n) (c ∷ s) = ap (◌∷◌ c) (take-drop n s)

pub length-take : (n : ℕ) (s : Text) → n ≤ length s → length (take n s) ≡ n
unfolding take
length-take zero s h = refl
length-take (suc n) [] h = absurd (omega arith)
length-take (suc n) (c ∷ s) h = omega (arith, length-take n s (omega arith))

pub length-drop : (n : ℕ) (s : Text) → length (drop n s) ≡ length s - n
unfolding drop
length-drop zero s = omega arith
length-drop (suc n) [] = omega arith
length-drop (suc n) (c ∷ s) = omega (arith, length-drop n s)

pub starts_with-take :
    (p : Text) (n : ℕ) (s : Text) → starts_with p (take n s) ≡ true → starts_with p s ≡ true
unfolding starts_with take
starts_with-take [] n s h = refl
starts_with-take (p ∷ ps) zero s h = cc
starts_with-take (p ∷ ps) (suc n) [] h = cc
starts_with-take (p ∷ ps) (suc n) (c ∷ s) h = ground (arith, starts_with-take ps n s)

pub starts_with-append : (p q s : Text) → starts_with (p ++ q) s ≡ true → starts_with p s ≡ true
unfolding starts_with
starts_with-append [] q s h = refl
starts_with-append (p ∷ ps) q [] h = h
starts_with-append (p ∷ ps) q (c ∷ s) h = ground (arith, starts_with-append ps q s)

-- A text without an occurrence: none in its parts.
module _ (c : ℕ) (p : Text) where
  pub find-drop : (n : ℕ) (s : Text) → find (c ∷ p) s ≡ none → find (c ∷ p) (drop n s) ≡ none
  unfolding drop find
  find-drop zero s h = h
  find-drop (suc n) [] h = h
  find-drop (suc n) (b ∷ s) h = find-drop n s (ground arith)

  pub find-take : (n : ℕ) (s : Text) → find (c ∷ p) s ≡ none → find (c ∷ p) (take n s) ≡ none
  unfolding take find
  find-take zero s h = unfold starts_with in refl
  find-take (suc n) [] h = h
  find-take (suc n) (b ∷ s) h =
      ground (arith, find-take n s, starts_with-take (c ∷ p) (suc n) (b ∷ s))

  pub count_matches_zero :
      (q : Text) (skip : ℕ) (s : Text)
      → find (c ∷ p) s ≡ none
      → count_matches ((c ∷ p) ++ q) skip s ≡ 0
  unfolding count_matches find
  count_matches_zero q skip [] h = refl
  count_matches_zero q zero (b ∷ s) h =
      ground (arith, count_matches_zero q zero s, starts_with-append (c ∷ p) q (b ∷ s))
  count_matches_zero q (suc skip) (b ∷ s) h = count_matches_zero q skip s (ground arith)

pub find_at : (p s : Text) (n : ℕ) → find p s ≡ some n → starts_with p (drop n s) ≡ true
unfolding find drop
find_at p [] zero h = ground arith
find_at p [] (suc n) h = ground arith
find_at p (c ∷ s) zero h = elim (Option-cases (find p s)) [
  | inl e ↦ ground (arith, e)
  | inr (m, e) ↦ ground (arith, e)
]
find_at p (c ∷ s) (suc n) h = elim (Option-cases (find p s)) [
  | inl e ↦ ground (arith, e)
  | inr (m, e) ↦ ground (arith, e, find_at p s n)
]

pub rfind_at : (p s : Text) (n : ℕ) → rfind p s ≡ some n → starts_with p (drop n s) ≡ true
unfolding rfind drop
rfind_at p [] zero h = ground arith
rfind_at p [] (suc n) h = ground arith
rfind_at p (c ∷ s) zero h = elim (Option-cases (rfind p s)) [
  | inl e ↦ ground (arith, e)
  | inr (m, e) ↦ ground (arith, e)
]
rfind_at p (c ∷ s) (suc n) h = elim (Option-cases (rfind p s)) [
  | inl e ↦ ground (arith, e)
  | inr (m, e) ↦ ground (arith, e, rfind_at p s n)
]

drop-nil : (n : ℕ) → drop n [] ≡ []
unfolding drop
drop-nil zero = refl
drop-nil (suc n) = refl

pub drop-drop : (m n : ℕ) (s : Text) → drop m (drop n s) ≡ drop (n + m) s
unfolding drop
drop-drop m zero s = subst (λ (k : ℕ). drop m s ≡ drop k s) (omega arith) refl
drop-drop m (suc n) [] = drop-nil m ∙ sym (drop-nil (suc n + m))
drop-drop m (suc n) (c ∷ s) =
    let e : suc (n + m) ≡ suc n + m = omega arith in
    subst (λ (k : ℕ). drop m (drop n s) ≡ drop k (c ∷ s)) e (drop-drop m n s)

pub starts_with-drop-take :
    (p : Text) (n b : ℕ) (s : Text)
    → starts_with p (drop n (take b s)) ≡ true
    → starts_with p (drop n s) ≡ true
unfolding drop take
starts_with-drop-take p zero b s h = starts_with-take p b s h
starts_with-drop-take p (suc n) zero [] h = h
starts_with-drop-take p (suc n) (suc b) [] h = h
starts_with-drop-take p (suc n) zero (c ∷ s) h = starts_with-take p 0 (drop n s) h
starts_with-drop-take p (suc n) (suc b) (c ∷ s) h = starts_with-drop-take p n b s h
