-- ===== src/Collector/Paging/Whole.antt =====
-- What fetchAllKeyItems of internal/collector/httpx.go has to return, and the ids that it notes.
use mathlib.Core.List.{append-nil, append_assoc}
use multi_upstream_ai_gatewa.Prelude.{
  Bool, Bool-cases, List, Option, String, Unique, Unique-apart, Unique-append, ℕ, [], ap, arith,
  contains, contains-append, false, if◌then◌else◌, inl, inr, length, nat_eq, none, refl, some,
  string_eq, suc, sym, true, zero, ◌++◌, ◌+◌, ◌<◌, ◌==◌, ◌∙◌, ◌∷◌, ◌≡◌, ◌≤◌, ◌⊎◌,
}
use multi_upstream_ai_gatewa.Collector.Errors.{Err}
use multi_upstream_ai_gatewa.Collector.Paging.{
  Envelope, Listed, Page, has_more, is_bare, max_pages, note_ids,
}

-- By the first number that an envelope has, pages in all, pages in all under the other name, or
-- items in all, page `page` is the last, where `count` items are there; or it has none of them.
abbrev pub NumbersEnd : Option ℕ → Option ℕ → Option ℕ → ℕ → ℕ → Type 0
NumbersEnd (some n) other items page count = n ≤ page
NumbersEnd none (some n) items page count = n ≤ page
NumbersEnd none none (some n) page count = n ≤ count
NumbersEnd none none none page count = Unit

-- Without an envelope, only a bare list that is not empty goes on.
abbrev pub PageEnds : Bool → ℕ → ℕ → ℕ → Option Envelope → Type 0
PageEnds bare page count size (some d) =
    NumbersEnd d.total_pages d.alternate_pages d.total_items page count
PageEnds bare page count size none = (bare ≡ false) ⊎ (size ≡ 0)

-- hasMore says what the numbers say.
pub has_more-end :
    (at pages other items : Option ℕ) (page count : ℕ)
    → has_more
        (record {
          page_number = at;
          total_pages = pages;
          alternate_pages = other;
          total_items = items;
        })
        page
        count
      ≡ false
    → NumbersEnd pages other items page count
has_more-end at (some n) other items page count e = ground (arith, e)
has_more-end at none (some n) items page count e = ground (arith, e)
has_more-end at none none (some n) page count e = ground (arith, e)
has_more-end at none none none page count e = tt

pub has_more-on :
    (at pages other items : Option ℕ) (page count : ℕ)
    → has_more
        (record {
          page_number = at;
          total_pages = pages;
          alternate_pages = other;
          total_items = items;
        })
        page
        count
      ≡ true
    → ¬ NumbersEnd pages other items page count
has_more-on at (some n) other items page count e h = ground (arith, e, h)
has_more-on at none (some n) items page count e h = ground (arith, e, h)
has_more-on at none none (some n) page count e h = ground (arith, e, h)
has_more-on at none none none page count e h = ground (arith, e)

module _ {T : Type 0} where
  abbrev pub items_of : Page T ⊎ Err → List (Listed T)
  items_of (inl p) = p.items
  items_of (inr e) = []

  -- The items of the first pages, in their order.
  unfoldable pub first_pages : (ℕ → Page T ⊎ Err) → ℕ → List (Listed T)
  first_pages pages zero = []
  first_pages pages (suc k) = first_pages pages k ++ items_of (pages (k + 1))

  -- The ids that are there.
  abbrev pub ids_of : List (Listed T) → List String
  ids_of [] = []
  ids_of (x ∷ xs) = let rest = ids_of xs in if x.id == "" then rest else x.id ∷ rest

  abbrev pub AnswerEnds : Bool → ℕ → ℕ → Page T ⊎ Err → Type 0
  AnswerEnds bare page count (inl p) = PageEnds bare page count (length p.items) p.envelope
  AnswerEnds bare page count (inr e) = ⊥

  -- Page `k` says itself that it is the last.
  abbrev pub Ends : Bool → (ℕ → Page T ⊎ Err) → ℕ → Type 0
  Ends bare pages k = AnswerEnds bare k (length (first_pages pages k)) (pages k)

  abbrev pub is_plain : Page T ⊎ Err → Bool
  is_plain (inl p) = is_bare p.envelope
  is_plain (inr e) = false

  -- The site repeats itself: a bare list whose next page has an id again.
  abbrev pub Repeats : Bool → (ℕ → Page T ⊎ Err) → ℕ → Type 0
  Repeats bare pages k =
      (bare ≡ true)
      × (is_plain (pages (k + 1)) ≡ true)
      × ¬ Unique (ids_of (first_pages pages (k + 1)))

  abbrev pub Onward : Bool → (ℕ → Page T ⊎ Err) → ℕ → Type 0
  Onward bare pages k = (j : ℕ) → 0 < j → j < k → ¬ Ends bare pages j

  -- `out` are the items of the pages up to `k`, no earlier page ends the list, and `k` does or the site
  -- repeats itself from there on.
  abbrev pub Whole : Bool → (ℕ → Page T ⊎ Err) → List (Listed T) → ℕ → Type 0
  Whole bare pages out k =
      (0 < k)
      × (out ≡ first_pages pages k)
      × Onward bare pages k
      × (Ends bare pages k ⊎ Repeats bare pages k)

  abbrev pub Returned : Bool → (ℕ → Page T ⊎ Err) → List (Listed T) → Type 0
  Returned bare pages out =
      ((k : ℕ) × (k ≤ max_pages) × Whole bare pages out k) × Unique (ids_of out)

  ids_of-append : (xs ys : List (Listed T)) → ids_of (xs ++ ys) ≡ ids_of xs ++ ids_of ys
  ids_of-append [] ys = refl
  ids_of-append (x ∷ xs) ys = elim (Bool-cases (x.id == "")) [
    | inl b ↦ rw b (ids_of-append xs ys)
    | inr b ↦ rw b (ap (λ r. x.id ∷ r) (ids_of-append xs ys))
  ]

  -- What is known between two passes: `seen` are the ids of `out`, which are all different.
  abbrev pub Noted : List (Listed T) → List String → Type 0
  Noted out seen = Unique (ids_of out) × ((r : String) → contains seen r ≡ contains (ids_of out) r)

  -- An item more.
  note-Noted :
      (out : List (Listed T)) (x : Listed T) (seen : List String)
      → Noted out seen
      → (x.id == "") ≡ false
      → contains seen x.id ≡ false
      → Noted (out ++ x ∷ []) (x.id ∷ seen)
  note-Noted out x seen (unique, same) named new =
      rw (ids_of-append out (x ∷ []), named)
        (
          Unique-append (ids_of out) x.id unique (sym (same x.id) ∙ new),
          λ r. (ground (arith, same r, contains-append (ids_of out) (x.id ∷ []) r)),
        )

  pub note_ids-Noted :
      (xs out : List (Listed T)) (seen seen' : List String)
      → Noted out seen
      → note_ids xs seen ≡ some seen'
      → Noted (out ++ xs) seen'
  unfolding note_ids
  note_ids-Noted [] out seen seen' h e =
      let same : seen ≡ seen' = ground (arith, e) in rw (append-nil out, sym same) h
  note_ids-Noted (x ∷ xs) out seen seen' h e =
      rw (sym (append_assoc out (x ∷ []) xs)) (elim (Bool-cases (x.id == "")) [
        | inl b ↦
            note_ids-Noted xs (out ++ x ∷ []) seen seen'
              (rw (ids_of-append out (x ∷ []), b, append-nil (ids_of out)) h) (rw b at e)
        | inr b ↦ elim (Bool-cases (contains seen x.id)) [
          | inl c ↦ absurd (ground (arith, rw (b, c) at e))
          | inr c ↦
              note_ids-Noted xs (out ++ x ∷ []) (x.id ∷ seen) seen' (note-Noted out x seen h b c)
                (rw (b, c) at e)
        ]
      ])

  ids_of-note :
      (out xs : List (Listed T)) (x : Listed T)
      → (x.id == "") ≡ false
      → ids_of (out ++ x ∷ xs) ≡ ids_of out ++ x.id ∷ ids_of xs
  ids_of-note out xs x named = rw (ids_of-append out (x ∷ xs), named) refl

  -- Where an id stands twice, the ids are not all different.
  pub note_ids-Repeated :
      (xs out : List (Listed T)) (seen : List String)
      → Noted out seen
      → note_ids xs seen ≡ none
      → ¬ Unique (ids_of (out ++ xs))
  unfolding note_ids
  note_ids-Repeated [] out seen h e = absurd (ground (arith, e))
  note_ids-Repeated (x ∷ xs) out seen h e = elim (Bool-cases (x.id == "")) [
    | inl b ↦ rw (sym (append_assoc out (x ∷ []) xs)) (
        note_ids-Repeated xs (out ++ x ∷ []) seen
          (rw (ids_of-append out (x ∷ []), b, append-nil (ids_of out)) h) (rw b at e))
    | inr b ↦ elim (Bool-cases (contains seen x.id)) [
      | inl c ↦ λ u.
          (let apart =
              Unique-apart (ids_of out) x.id (ids_of xs) (rw (ids_of-note out xs x b) at u) in
            absurd (ground (arith, apart, c, h.1 x.id)))
      | inr c ↦ rw (sym (append_assoc out (x ∷ []) xs)) (
          note_ids-Repeated xs (out ++ x ∷ []) (x.id ∷ seen) (note-Noted out x seen h b c)
            (rw (b, c) at e))
    ]
  ]
