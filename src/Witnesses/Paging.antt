-- ===== src/Witnesses/Paging.antt =====
-- Tests of fetchAllKeyItems in internal/collector/httpx.go.
use multi_upstream_ai_gatewa.Prelude.{
  List, String, ℕ, [], false, if◌then◌else◌, inl, nat_eq, none, refl, some, string_eq, true, ◌==◌,
  ◌∷◌, ◌≡◌, ◌⊎◌,
}
use multi_upstream_ai_gatewa.Collector.Errors.{Err}
use multi_upstream_ai_gatewa.Collector.Paging.{
  Listed, Page, fetch_all_key_items, note_ids, page_loop,
}
use multi_upstream_ai_gatewa.Collector.Paging.Complete.{fetch_all_key_items_lem}
use multi_upstream_ai_gatewa.Collector.Paging.Whole.{Returned}

abbrev listed_item : String → ℕ → Listed ℕ
listed_item id n = record { id = id; item = n }

abbrev bare_page : List (Listed ℕ) → Page ℕ ⊎ Err
bare_page xs = inl (record { items = xs; envelope = none })

-- A fork that answers its last page again.
abbrev site_pages : ℕ → Page ℕ ⊎ Err
site_pages n =
    if n == 1
    then bare_page (listed_item "a" 1 ∷ listed_item "b" 2 ∷ [])
    else bare_page (listed_item "c" 3 ∷ [])

abbrev all_three : List (Listed ℕ)
all_three = listed_item "a" 1 ∷ listed_item "b" 2 ∷ listed_item "c" 3 ∷ []

stops_at_repetition : fetch_all_key_items true site_pages ≡ inl all_three
unfolding fetch_all_key_items page_loop note_ids
stops_at_repetition = refl

fetch_all_key_items_lem_example : Returned true site_pages all_three
fetch_all_key_items_lem_example =
    fetch_all_key_items_lem true site_pages all_three stops_at_repetition

-- Page 1 of 2 has an envelope; page 2 has none, which ends the list.
abbrev numbered_page : Page ℕ ⊎ Err
numbered_page = inl (record {
  items = listed_item "a" 1 ∷ [];
  envelope = some (record {
    page_number = some 1;
    total_pages = none;
    alternate_pages = some 2;
    total_items = none;
  });
})

two_numbered_pages :
    fetch_all_key_items false
      (λ n. if n == 1 then numbered_page else inl (record { items = []; envelope = none }))
    ≡ inl (listed_item "a" 1 ∷ [])
unfolding fetch_all_key_items page_loop note_ids
two_numbered_pages = refl
