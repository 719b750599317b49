-- ===== src/Config/Rules/Hosts.antt =====
-- Host names, as rules on their labels.
use protoclaw.Base.{
  ◌≡◌, refl, ◌≢◌, ◌↔◌, ◌⊎◌, inl, inr, ◌∙◌, ap, ℕ, ◌≤◌, Bool, true, false, List, [], ◌∷◌, ◌++◌,
  length, nat_eqb, Bool-cases, Option-cases, arith,
}
use protoclaw.Base.Text.{Text}
use protoclaw.Config.{Outside, split_last}
use protoclaw.Config.Hosts.{
  split_dots, all, is_label_char, starts_with_hyphen, ends_with_hyphen, is_valid_label,
  is_valid_host,
}
use protoclaw.Config.Rules.Limits.{split_last_append, split_last_sound}

-- Every element has the property.
abbrev pub All : {A : Type 0} → (A → Type 0) → List A → Type 0
All P [] = Unit
All P (x ∷ xs) = P x × All P xs

abbrev pub IsLabelChar : ℕ → Type 0
IsLabelChar c =
    ((b'0' ≤ c) × (c ≤ b'9')) ⊎ ((b'A' ≤ c) × (c ≤ b'Z')) ⊎ ((b'a' ≤ c) × (c ≤ b'z')) ⊎ (c ≡ b'-')

abbrev pub ValidLabel : Text → Type 0
ValidLabel label =
    (label ≢ [])
    × (length label ≤ 63)
    × All IsLabelChar label
    × ((s : Text) → label ≢ b'-' ∷ s)
    × ((s : Text) → label ≢ s ++ (b'-' ∷ []))

each_holds :
    {A : Type 0} (p : A → Bool) (P : A → Type 0) (xs : List A)
    → ((x : A) → p x ≡ true → P x)
    → all p xs ≡ true
    → All P xs
unfolding all
each_holds p P [] f h = tt
each_holds p P (x ∷ xs) f h = (f x (ground (arith, h)), each_holds p P xs f (ground (arith, h)))

holds_each :
    {A : Type 0} (p : A → Bool) (P : A → Type 0) (xs : List A)
    → ((x : A) → P x → p x ≡ true)
    → All P xs
    → all p xs ≡ true
unfolding all
holds_each p P [] f h = refl
holds_each p P (x ∷ xs) f h = ground (arith, f x h.0, holds_each p P xs f h.1)

label_char : (c : ℕ) → (is_label_char c ≡ true) ↔ IsLabelChar c
unfolding is_label_char
label_char c = ground arith

hyphen : (c : ℕ) → nat_eqb c b'-' ≡ true → c ≡ b'-'
hyphen c h = ground (arith, h)

no_leading : (label s : Text) → starts_with_hyphen label ≡ false → label ≢ b'-' ∷ s
unfolding starts_with_hyphen
no_leading label s h e = ground (arith, h, ap starts_with_hyphen e)

leading : (label : Text) → ((s : Text) → label ≢ b'-' ∷ s) → starts_with_hyphen label ≡ false
unfolding starts_with_hyphen
leading [] h = refl
leading (c ∷ s) h = elim (Bool-cases (nat_eqb c b'-')) [
  | inl t ↦ absurd (h s (ap (λ x. x ∷ s) (hyphen c t)))
  | inr f ↦ f
]

no_trailing : (label s : Text) → ends_with_hyphen label ≡ false → label ≢ s ++ (b'-' ∷ [])
unfolding ends_with_hyphen
no_trailing label s h e =
    let ends : ends_with_hyphen (s ++ (b'-' ∷ [])) ≡ true =
      rw (ends_with_hyphen, split_last_append s b'-') refl in
    ground (arith, h, ap ends_with_hyphen e, ends)

trailing : (label : Text) → ((s : Text) → label ≢ s ++ (b'-' ∷ [])) → ends_with_hyphen label ≡ false
unfolding ends_with_hyphen
trailing label h = elim (Option-cases (split_last label)) [
  | inl n ↦ rw (ends_with_hyphen, n) refl
  | inr ((t, c), e) ↦ elim (Bool-cases (nat_eqb c b'-')) [
    | inl k ↦ absurd (h t (split_last_sound label t c e ∙ ap (λ x. t ++ (x ∷ [])) (hyphen c k)))
    | inr f ↦ rw (ends_with_hyphen, e) f
  ]
]

label_valid : (label : Text) → is_valid_label label ≡ true → ValidLabel label
unfolding is_valid_label
label_valid [] h = absurd (ground (arith, h))
label_valid (c ∷ s) h =
    let label = c ∷ s in
    (
      (λ e. ground (arith, e)),
      ground (arith, h),
      each_holds is_label_char IsLabelChar label (λ d. (label_char d).0) (ground (arith, h)),
      (λ t. no_leading label t (ground (arith, h))),
      (λ t. no_trailing label t (ground (arith, h))),
    )

valid_label : (label : Text) → ValidLabel label → is_valid_label label ≡ true
unfolding is_valid_label
valid_label [] (n, l, a, b, e) = absurd (n refl)
valid_label (c ∷ s) (n, l, a, b, e) =
    let label = c ∷ s in
    ground (
      arith,
      l,
      holds_each is_label_char IsLabelChar label (λ d. (label_char d).1) a,
      leading label b,
      trailing label e,
    )

module _ (out : Outside) where
  -- An IP address, or a name of at most 253 bytes whose parts between dots are labels.
  abbrev pub ValidHost : Text → Type 0
  ValidHost host =
      (host ≢ [])
      × ((out.is_ip host ≡ true) ⊎ ((length host ≤ 253) × All ValidLabel (split_dots host)))

  pub host_valid : (host : Text) → is_valid_host out host ≡ true → ValidHost host
  unfolding is_valid_host
  host_valid [] h = absurd (ground (arith, h))
  host_valid (c ∷ s) h = elim (Bool-cases (out.is_ip (c ∷ s))) [
    | inl t ↦ ((λ e. ground (arith, e)), inl t)
    | inr f ↦ (
      (λ e. ground (arith, e)),
      inr (
        ground (arith, h, f),
        each_holds is_valid_label ValidLabel (split_dots (c ∷ s)) label_valid
            (ground (arith, h, f)),
      ),
    )
  ]

  pub valid_host : (host : Text) → ValidHost host → is_valid_host out host ≡ true
  unfolding is_valid_host
  valid_host [] (n, v) = absurd (n refl)
  valid_host (c ∷ s) (n, inl t) = ground (arith, t)
  valid_host (c ∷ s) (n, inr (l, a)) =
      ground (arith, l, holds_each is_valid_label ValidLabel (split_dots (c ∷ s)) valid_label a)
