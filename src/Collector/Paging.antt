-- ===== src/Collector/Paging.antt =====
-- fetchAllKeyItems of internal/collector/httpx.go. Each page is asked for once, so that what the
-- upstream answers is a function of the number of the page. A number in an envelope that is negative is
-- 0 here, which the code treats alike.
pub mod Whole
pub mod Complete
use multi_upstream_ai_gatewa.Prelude.{
  Bool, List, Option, String, ℕ, [], contains, false, if◌then◌else◌, inl, inr, length, ltb, nat_eq,
  none, not, some, string_eq, suc, true, zero, ◌&&◌, ◌++◌, ◌+◌, ◌==◌, ◌||◌, ◌∷◌, ◌⊎◌,
}
use multi_upstream_ai_gatewa.Collector.Errors.{Err, or_else, text}

-- An item with its id, "" if it has none.
pub record Listed (T : Type 0) : Type 0 where
  pub id : String
  pub item : T

-- The fields of `data` where it is an object.
pub record Envelope : Type 0 where
  pub page_number : Option ℕ
  pub total_pages : Option ℕ
  pub alternate_pages : Option ℕ
  pub total_items : Option ℕ

pub record Page (T : Type 0) : Type 0 where
  pub items : List (Listed T)
  pub envelope : Option Envelope

-- maxPages
abbrev pub max_pages : ℕ
max_pages = 1000

-- How a pass of the loop ends: the function returns, or goes on.
pub data Turn (T : Type 0) : Type 0 where
  returns : List (Listed T) ⊎ Err → Turn T
  goes_on : List (Listed T) → List String → Turn T

abbrev pub has_more : Envelope → ℕ → ℕ → Bool
has_more d page count = elim (or_else d.total_pages d.alternate_pages) [
  | some n ↦ ltb page n
  | none ↦ elim d.total_items [ some n ↦ ltb count n | none ↦ false ]
]

abbrev pub other_page : Option ℕ → ℕ → Bool
other_page none page = false
other_page (some n) page = not (n == page)

-- data == nil
abbrev pub is_bare : Option Envelope → Bool
is_bare none = true
is_bare (some d) = false

module _ {T : Type 0} where
  -- The loop over the ids of a page: the ids seen so far, or nothing if one stands twice.
  unfoldable pub note_ids : List (Listed T) → List String → Option (List String)
  note_ids [] seen = some seen
  note_ids (x ∷ xs) seen =
      if x.id == ""
      then note_ids xs seen
      else (if contains seen x.id then none else note_ids xs (x.id ∷ seen))

  -- What follows out = append(out, items...).
  abbrev pub after_append :
      Bool → ℕ → Page T → List (Listed T) → List String → Option Envelope → Turn T
  after_append bare page p out seen none =
      if not bare || length p.items == 0 then returns (inl out) else goes_on out seen
  after_append bare page p out seen (some d) =
      if other_page d.page_number page
      then returns (inr (text "Key 分页未推进"))
      else (if not (has_more d page (length out))
          then returns (inl out)
          else (if length p.items == 0
              then returns (inr (text "Key 分页提前结束"))
              else goes_on out seen))

  abbrev pub with_ids : Bool → ℕ → Page T → List (Listed T) → Option (List String) → Turn T
  with_ids bare page p out (some seen) = after_append bare page p (out ++ p.items) seen p.envelope
  with_ids bare page p out none =
      if is_bare p.envelope && (bare && ltb 1 page)
      then returns (inl out)
      else returns (inr (text "Key 分页未推进：重复 id"))

  abbrev pub turn : Bool → ℕ → Page T ⊎ Err → List (Listed T) → List String → Turn T
  turn bare page (inr e) out seen = returns (inr e)
  turn bare page (inl p) out seen = with_ids bare page p out (note_ids p.items seen)

  abbrev pub resume :
      (List (Listed T) → List String → List (Listed T) ⊎ Err) → Turn T → List (Listed T) ⊎ Err
  resume next (returns r) = r
  resume next (goes_on out seen) = next out seen

  -- The loop, with the number of pages that may still be asked for.
  unfoldable pub page_loop :
      Bool → (ℕ → Page T ⊎ Err) → ℕ → ℕ → List (Listed T) → List String → List (Listed T) ⊎ Err
  page_loop bare pages zero page out seen = inr (text "Key 分页超过 1000 页")
  page_loop bare pages (suc n) page out seen =
      resume
        (λ (out' : List (Listed T)) (seen' : List String).
          page_loop bare pages n (page + 1) out' seen')
        (turn bare page (pages page) out seen)

  unfoldable pub fetch_all_key_items : Bool → (ℕ → Page T ⊎ Err) → List (Listed T) ⊎ Err
  fetch_all_key_items bare pages = page_loop bare pages max_pages 1 [] []
