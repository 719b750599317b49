-- ===== src/Config/Rules/Checks.antt =====
-- Checks that make no error exactly under a condition, one by one and in a sequence.
use protoclaw.Base.{
  ◌≡◌, refl, ◌↔◌, ◌⊎◌, inl, inr, ◌∙◌, ap, Bool, true, false, ◌||◌, Option, none, some, List, [],
  ◌∷◌, ◌++◌, nat_eqb, Bool-cases, arith,
}
use protoclaw.Base.Text.{Text}
use protoclaw.Config.Validate.{
  ValidationError, Errors, starts_with, has_colon, both, each, push_unless,
}
use protoclaw.Config.Rules.Hosts.{All}

abbrev pub HasColon : Text → Type 0
HasColon s = (a : Text) × (b : Text) × (s ≡ a ++ (b':' ∷ b))

-- A check that makes no error exactly under a condition.
abbrev pub Clean : Option Errors → Type 0 → Type 0
Clean o P = (o ≡ some []) ↔ P

pub push_unless-Clean : (b : Bool) (e : ValidationError) → Clean (push_unless b e) (b ≡ true)
unfolding push_unless
push_unless-Clean true e = ((λ h. refl), (λ h. refl))
push_unless-Clean false e = ((λ h. ground (arith, h)), (λ h. ground (arith, h)))

both_nil : (a b : Option Errors) → both a b ≡ some [] → (a ≡ some []) × (b ≡ some [])
unfolding both
both_nil none b h = absurd (ground (arith, h))
both_nil (some []) none h = absurd (ground (arith, h))
both_nil (some (e ∷ a)) none h = absurd (ground (arith, h))
both_nil (some []) (some b) h = (refl, h)
both_nil (some (e ∷ a)) (some b) h = absurd (ground (arith, h))

nil_both : (a b : Option Errors) → a ≡ some [] → b ≡ some [] → both a b ≡ some []
unfolding both
nil_both a b h k = rw (h, k) refl

pub both-Clean :
    {P Q : Type 0} (a b : Option Errors) → Clean a P → Clean b Q → Clean (both a b) (P × Q)
both-Clean a b (f, g) (h, k) =
    ((λ e. (f (both_nil a b e).0, h (both_nil a b e).1)), (λ p. nil_both a b (g p.0) (k p.1)))

pub each-Clean :
    {A : Type 0} (check : A → Option Errors) (P : A → Type 0) (xs : List A)
    → ((x : A) → Clean (check x) (P x))
    → Clean (each check xs) (All P xs)
unfolding each
each-Clean check P [] f = ((λ h. tt), (λ h. refl))
each-Clean check P (x ∷ xs) f = both-Clean (check x) (each check xs) (f x) (each-Clean check P xs f)

pub via : {P Q : Type 0} (o : Option Errors) → Clean o P → (P ↔ Q) → Clean o Q
via o (f, g) (h, k) = ((λ e. h (f e)), (λ q. g (k q)))

pub starts_with_iff : (p s : Text) → (starts_with p s ≡ true) ↔ ((r : Text) × (s ≡ p ++ r))
unfolding starts_with
starts_with_iff [] s = ((λ h. (s, refl)), (λ h. refl))
starts_with_iff (c ∷ p) [] =
    ((λ h. absurd (ground (arith, h))), (λ h. absurd (ground (arith, h.1))))
starts_with_iff (c ∷ p) (d ∷ s) = (
  (λ h. let (r, e) = (starts_with_iff p s).0 (ground (arith, h)) in (r, ground (arith, h, e))),
  (λ h. let t = (starts_with_iff p s).1 (h.0, ground (arith, h.1)) in ground (arith, h.1, t)),
)

colon_found : (s : Text) → has_colon s ≡ true → HasColon s
unfolding has_colon
colon_found [] h = absurd (ground (arith, h))
colon_found (c ∷ s) h = elim (Bool-cases (nat_eqb c b':')) [
  | inl t ↦ let p : c ≡ b':' = ground (arith, t) in ([], s, ap (λ x. x ∷ s) p)
  | inr f ↦ let (a, b, e) = colon_found s (ground (arith, h, f)) in (c ∷ a, b, ap (λ x. c ∷ x) e)
]

colon_inside : (a b : Text) → has_colon (a ++ (b':' ∷ b)) ≡ true
unfolding has_colon
colon_inside [] b = refl
colon_inside (c ∷ a) b = ground (arith, colon_inside a b)

pub has_colon_iff : (s : Text) → (has_colon s ≡ true) ↔ HasColon s
has_colon_iff s = (colon_found s, (λ h. ap has_colon h.2 ∙ colon_inside h.0 h.1))

pub or_iff :
    {P Q : Type 0} (a b : Bool) → ((a ≡ true) ↔ P) → ((b ≡ true) ↔ Q) → ((a || b) ≡ true) ↔ (P ⊎ Q)
or_iff true b (f, g) (h, k) = ((λ e. inl (f refl)), (λ p. refl))
or_iff false b (f, g) (h, k) =
    ((λ e. inr (h e)), (λ p. elim p [ inl x ↦ absurd (ground (arith, g x)) | inr y ↦ k y ]))
