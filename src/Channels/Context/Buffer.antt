-- ===== src/Channels/Context/Buffer.antt =====
-- What the buffer of a group holds after any sequence of messages.
use mathlib.Core.List.{append-nil, append_assoc}
use protoclaw.Base.{
  ◌≡◌, refl, ◌≢◌, inl, inr, sym, subst, ap, ◌∙◌, ℕ, Bool, true, false, not, ◌&&◌, List, [], ◌∷◌,
  ◌++◌, length, ◌≤◌, leb, nat_eqb, if◌then◌else◌, retain, count_where, length-retain, length-append,
  ◌=?◌, nat_eq, list_eq, Bool-cases, list_eqb_iff, arith,
}
use protoclaw.Base.Text.{Text}
use protoclaw.Channels.Context.{ContextMessage, Rows, of_group, trim, store_context, take_context}

-- The last `limit` elements.
unfoldable pub newest : {A : Type 0} → ℕ → List A → List A
newest limit [] = []
newest limit (x ∷ xs) = let rest = newest limit xs in if leb limit (length xs) then rest else x ∷ xs

unfoldable pub store_all : ℕ → List ContextMessage → Rows → Rows
unfolding store_context
store_all limit [] rows = rows
store_all limit (m ∷ messages) rows = store_all limit messages (store_context m limit rows)

length-newest : {A : Type 0} (limit : ℕ) (xs : List A) → length (newest limit xs) ≤ limit
unfolding newest
length-newest limit [] = omega arith
length-newest limit (x ∷ xs) = ground (arith, length-newest limit xs)

newest-append :
    {A : Type 0} (limit : ℕ) (xs ys : List A)
    → newest limit (newest limit xs ++ ys) ≡ newest limit (xs ++ ys)
unfolding newest
newest-append limit [] ys = refl
newest-append limit (x ∷ xs) ys = ground (arith, newest-append limit xs ys, length-append xs ys)

newest-none : {A : Type 0} (xs : List A) → newest 0 xs ≡ []
unfolding newest
newest-none [] = refl
newest-none (x ∷ xs) = ground (arith, newest-none xs)

retain-append :
    {A : Type 0} (p : A → Bool) (xs ys : List A) → retain p (xs ++ ys) ≡ retain p xs ++ retain p ys
retain-append p [] ys = refl
retain-append p (x ∷ xs) ys = ground (arith, retain-append p xs ys)

retain-if :
    {A : Type 0} (p : A → Bool) (b : Bool) (xs ys : List A)
    → retain p (if b then xs else ys) ≡ (if b then retain p xs else retain p ys)
retain-if p true xs ys = refl
retain-if p false xs ys = refl

newest_all : {A : Type 0} (limit : ℕ) (xs : List A) → length xs ≤ limit → newest limit xs ≡ xs
unfolding newest
newest_all limit [] h = refl
newest_all limit (x ∷ xs) h = ground (arith, h)

trim_own :
    (key : Text) (limit : ℕ) (rows : Rows)
    → retain (of_group key) (trim key limit rows) ≡ newest limit (retain (of_group key) rows)
unfolding trim newest of_group
trim_own key limit [] = refl
trim_own key limit (m ∷ rows) =
    let rest = trim key limit rows in
    let own = retain (of_group key) rows in
    let drop = of_group key m && leb limit (count_where (of_group key) rows) in
    ground (
      arith,
      retain-if (of_group key) drop rest (m ∷ rest),
      newest_all limit own,
      trim_own key limit rows,
      length-retain (of_group key) rows,
    )

trim_other :
    (key other : Text) (limit : ℕ) (rows : Rows)
    → (other =? key) ≡ false
    → retain (of_group key) (trim other limit rows) ≡ retain (of_group key) rows
unfolding trim of_group
trim_other key other limit [] d = refl
trim_other key other limit (m ∷ rows) d = ground (
  arith,
  d,
  retain-if (of_group key) (of_group other m && leb limit (count_where (of_group other) rows))
      (trim other limit rows) (m ∷ trim other limit rows),
  trim_other key other limit rows d,
  list_eqb_iff m.group_key key,
  list_eqb_iff m.group_key other,
  list_eqb_iff other key,
)

store_own :
    (m : ContextMessage) (limit : ℕ) (rows : Rows) (seen : List ContextMessage)
    → retain (of_group m.group_key) rows ≡ newest limit seen
    → retain (of_group m.group_key) (store_context m limit rows) ≡ newest limit (seen ++ (m ∷ []))
unfolding store_context of_group
store_own m limit rows seen e = ground (
  arith,
  e,
  retain-if (of_group m.group_key) (nat_eqb limit 0) rows
      (trim m.group_key limit (rows ++ (m ∷ []))),
  trim_own m.group_key limit (rows ++ (m ∷ [])),
  retain-append (of_group m.group_key) rows (m ∷ []),
  newest-append limit seen (m ∷ []),
  newest-none seen,
  newest-none (seen ++ (m ∷ [])),
  list_eqb_iff m.group_key m.group_key,
)

store_other :
    (key : Text) (m : ContextMessage) (limit : ℕ) (rows : Rows)
    → (m.group_key =? key) ≡ false
    → retain (of_group key) (store_context m limit rows) ≡ retain (of_group key) rows
unfolding store_context of_group
store_other key m limit rows d = ground (
  arith,
  d,
  retain-if (of_group key) (nat_eqb limit 0) rows (trim m.group_key limit (rows ++ (m ∷ []))),
  trim_other key m.group_key limit (rows ++ (m ∷ [])) d,
  append-nil (retain (of_group key) rows),
  retain-append (of_group key) rows (m ∷ []),
)

store_all_kept :
    (key : Text) (limit : ℕ) (messages seen : List ContextMessage) (rows : Rows)
    → retain (of_group key) rows ≡ newest limit seen
    → retain (of_group key) (store_all limit messages rows)
      ≡ newest limit (seen ++ retain (of_group key) messages)
unfolding store_all
store_all_kept key limit [] seen rows e = ground (arith, e, append-nil seen)
store_all_kept key limit (m ∷ messages) seen rows e = elim (Bool-cases (m.group_key =? key)) [
  | inl t ↦
      let p = (list_eqb_iff m.group_key key).1 t in
      let own =
        store_own m limit rows seen
          (subst (λ k. retain (of_group k) rows ≡ newest limit seen) (sym p) e) in
      rw (t) (
        store_all_kept key limit messages (seen ++ (m ∷ [])) (store_context m limit rows) (
          subst
            (λ k.
              retain (of_group k) (store_context m limit rows) ≡ newest limit (seen ++ (m ∷ [])))
            p own)
        ∙ ap (newest limit) (append_assoc seen (m ∷ []) (retain (of_group key) messages)))
  | inr f ↦ rw (f) (
      store_all_kept key limit messages seen (store_context m limit rows)
        (store_other key m limit rows f ∙ e))
]

kept :
    (key : Text) (limit : ℕ) (messages : List ContextMessage)
    → retain (of_group key) (store_all limit messages [])
      ≡ newest limit (retain (of_group key) messages)
unfolding newest
kept key limit messages = store_all_kept key limit messages [] [] refl

retain-remaining :
    (key : Text) (rows : Rows)
    → retain (of_group key) (retain (λ m. not (of_group key m)) rows) ≡ []
retain-remaining key [] = refl
retain-remaining key (m ∷ rows) = elim (Bool-cases (of_group key m)) [
  | inl t ↦ rw (t, retain-remaining key rows) refl
  | inr f ↦ rw (f, f, retain-remaining key rows) refl
]

retain-others :
    (key other : Text) (rows : Rows)
    → (other ≢ key)
    → retain (of_group other) (retain (λ m. not (of_group key m)) rows)
      ≡ retain (of_group other) rows
unfolding of_group
retain-others key other [] d = refl
retain-others key other (m ∷ rows) d = ground (
  arith,
  d,
  retain-others key other rows d,
  list_eqb_iff m.group_key key,
  list_eqb_iff m.group_key other,
)

-- After any sequence of messages of any groups, stored with one limit in an empty table,
-- `take_context` answers the last `limit` messages of the group, in their order: never more than
-- `limit`, and the messages of other groups have dropped none of them. What stays in the table
-- holds no message of the group, and for each other group the same as before.
pub take-store_all :
    (key other : Text) (limit : ℕ) (messages : List ContextMessage)
    → (other ≢ key)
    → (let (taken, rows) = take_context key (store_all limit messages []) in
        (taken ≡ newest limit (retain (of_group key) messages))
        × (length taken ≤ limit)
        × ((take_context key rows).0 ≡ [])
        × ((take_context other rows).0 ≡ newest limit (retain (of_group other) messages)))
unfolding take_context
take-store_all key other limit messages d =
    let rows = store_all limit messages [] in
    (
      kept key limit messages,
      rw (kept key limit messages) (length-newest limit (retain (of_group key) messages)),
      retain-remaining key rows,
      retain-others key other rows d ∙ kept other limit messages,
    )
