-- ===== src/Collector/Paging/Complete.antt =====
-- About the items that fetchAllKeyItems of internal/collector/httpx.go returns.
use multi_upstream_ai_gatewa.Prelude.{
  Bool, Bool-cases, List, Option, Option-cases, String, Unique, ℕ, [], ap, arith, false,
  if◌then◌else◌, inl, inr, length, ltb, nat_eq, none, not, refl, some, string_eq, suc, sym, true,
  zero, ◌&&◌, ◌++◌, ◌+◌, ◌<◌, ◌==◌, ◌||◌, ◌∙◌, ◌≡◌, ◌≤◌, ◌⊎◌,
}
use multi_upstream_ai_gatewa.Collector.Errors.{Err, text}
use multi_upstream_ai_gatewa.Collector.Paging.{
  Envelope, Listed, Page, Turn, after_append, fetch_all_key_items, goes_on, has_more, is_bare,
  max_pages, note_ids, other_page, page_loop, resume, returns, turn,
}
use multi_upstream_ai_gatewa.Collector.Paging.Whole.{
  AnswerEnds, Ends, Noted, Onward, PageEnds, Returned, Whole, first_pages, has_more-end,
  has_more-on, ids_of, items_of, note_ids-Noted, note_ids-Repeated,
}

module _ {T : Type 0} where
  -- What a pass does with what is known: it returns a whole list, or goes on with one page more.
  abbrev After : Bool → (ℕ → Page T ⊎ Err) → ℕ → Turn T → Type 0
  After bare pages done (returns (inr e)) = Unit
  After bare pages done (returns (inl out)) =
      ((k : ℕ) × (k ≤ done + 1) × Whole bare pages out k) × Unique (ids_of out)
  After bare pages done (goes_on out seen) =
      (out ≡ first_pages pages (done + 1)) × Noted out seen × ¬ Ends bare pages (done + 1)

  if-After :
      (bare : Bool) (pages : ℕ → Page T ⊎ Err) (done : ℕ) (b : Bool) (s t : Turn T)
      → (b ≡ true → After bare pages done s)
      → (b ≡ false → After bare pages done t)
      → After bare pages done (if b then s else t)
  if-After bare pages done true s t x y = x refl
  if-After bare pages done false s t x y = y refl

  ends-on :
      (bare : Bool) (page count : ℕ) (x : Page T ⊎ Err) (p : Page T)
      → x ≡ inl p
      → PageEnds bare page count (length p.items) p.envelope
      → AnswerEnds bare page count x
  ends-on bare page count x p f h = rw f h

  ends-off :
      (bare : Bool) (page count : ℕ) (x : Page T ⊎ Err) (p : Page T)
      → x ≡ inl p
      → AnswerEnds bare page count x
      → PageEnds bare page count (length p.items) p.envelope
  ends-off bare page count x p f h = rw f at h

  -- `end` and `on` tell of the page what its envelope `d` tells.
  after_append-After :
      (bare : Bool) (pages : ℕ → Page T ⊎ Err) (done : ℕ) (p : Page T) (out : List (Listed T))
      (seen : List String) (d : Option Envelope)
      → (PageEnds bare (done + 1) (length out) (length p.items) d → Ends bare pages (done + 1))
      → (Ends bare pages (done + 1) → PageEnds bare (done + 1) (length out) (length p.items) d)
      → Onward bare pages (done + 1)
      → out ≡ first_pages pages (done + 1)
      → Noted out seen
      → After bare pages done (after_append bare (done + 1) p out seen d)
  after_append-After bare pages done p out seen none up down onward e h =
      if-After bare pages done (not bare || length p.items == 0) (returns (inl out))
        (goes_on out seen)
        (λ t. (
          (
            done + 1,
            omega arith,
            (omega arith, e, onward, inl (up (bare-end bare (length p.items) t))),
          ),
          h.0,
        ))
        (λ f. (e, h, λ k. bare-on bare (length p.items) f (down k)))
    where
      bare-end : (bare : Bool) (n : ℕ) → (not bare || n == 0) ≡ true → (bare ≡ false) ⊎ (n ≡ 0)
      bare-end false n e = inl refl
      bare-end true n e = inr (ground (arith, e))

      bare-on : (bare : Bool) (n : ℕ) → (not bare || n == 0) ≡ false → (bare ≡ false) ⊎ (n ≡ 0) → ⊥
      bare-on bare n e (inl f) = ground (arith, e, f)
      bare-on bare n e (inr f) = ground (arith, e, f)
  after_append-After bare pages done p out seen (some d) up down onward e h =
      if-After bare pages done (other_page d.page_number (done + 1))
        (returns (inr (text "Key 分页未推进")))
        (if not (has_more d (done + 1) (length out))
          then returns (inl out)
          else (if length p.items == 0
              then returns (inr (text "Key 分页提前结束"))
              else goes_on out seen))
        (λ t. tt)
        (λ same.
          if-After bare pages done (not (has_more d (done + 1) (length out))) (returns (inl out))
            (if length p.items == 0 then returns (inr (text "Key 分页提前结束")) else goes_on out seen)
            (λ t. (
              (
                done + 1,
                omega arith,
                (
                  omega arith,
                  e,
                  onward,
                  inl (
                      up (
                        has_more-end d.page_number d.total_pages d.alternate_pages d.total_items
                          (done + 1) (length out) (ground (arith, t)))),
                ),
              ),
              h.0,
            ))
            (λ f.
              if-After bare pages done (length p.items == 0) (returns (inr (text "Key 分页提前结束")))
                (goes_on out seen) (λ t. tt)
                (λ u. (
                  e,
                  h,
                  λ k.
                      has_more-on d.page_number d.total_pages d.alternate_pages d.total_items
                        (done + 1) (length out) (ground (arith, f)) (down k),
                ))))

  first_pages-next :
      (pages : ℕ → Page T ⊎ Err) (k : ℕ)
      → first_pages pages (k + 1) ≡ first_pages pages k ++ items_of (pages (k + 1))
  unfolding first_pages
  first_pages-next pages k = let e : k + 1 ≡ suc k = omega arith in ap (first_pages pages) e

  turn-After :
      (bare : Bool) (pages : ℕ → Page T ⊎ Err) (done : ℕ) (x : Page T ⊎ Err) (out : List (Listed T))
      (seen : List String)
      → pages (done + 1) ≡ x
      → Onward bare pages (done + 1)
      → out ≡ first_pages pages done
      → Noted out seen
      → After bare pages done (turn bare (done + 1) x out seen)
  turn-After bare pages done (inr e) out seen f o g h = tt
  turn-After bare pages done (inl p) out seen f o g h =
      let more : out ++ p.items ≡ first_pages pages (done + 1) =
        sym (first_pages-next pages done ∙ rw (f, sym g) refl) in
      elim (Option-cases (note_ids p.items seen)) [
        | inl n ↦ rw n (
            if-After bare pages done (is_bare p.envelope && (bare && ltb 1 (done + 1)))
              (returns (inl out)) (returns (inr (text "Key 分页未推进：重复 id")))
              (λ t. (
                (
                  done,
                  omega arith,
                  (
                    ground (arith, t),
                    g,
                    λ j a b. o j a (omega (arith, b)),
                    inr (
                      ground (arith, t),
                      rw f (ground (arith, t)),
                      rw (sym more) (note_ids-Repeated p.items out seen h n),
                    ),
                  ),
                ),
                h.0,
              ))
              (λ e. tt))
        | inr (seen', n) ↦ rw n (
            after_append-After bare pages done p (out ++ p.items) seen' p.envelope
              (λ k.
                ends-on bare (done + 1) (length (first_pages pages (done + 1))) (pages (done + 1)) p
                  f (rw (sym more) k))
              (λ k. rw more (
                ends-off bare (done + 1) (length (first_pages pages (done + 1))) (pages (done + 1))
                  p f k))
              o more (note_ids-Noted p.items out seen seen' h n))
      ]

  further :
      (bare : Bool) (pages : ℕ → Page T ⊎ Err) (k : ℕ)
      → Onward bare pages k
      → ¬ Ends bare pages k
      → Onward bare pages (k + 1)
  further bare pages k o n j a b = elim (split j k (omega (arith, b))) [
    | inl l ↦ o j a l
    | inr e ↦ rw e n
  ]
    where
      split : (j k : ℕ) → j < k + 1 → (j < k) ⊎ (j ≡ k)
      split j k b = elim (Bool-cases (j == k)) [
        | inl e ↦ inr (ground (arith, e))
        | inr e ↦ inl (ground (arith, e, b))
      ]

  resume-Returned :
      (bare : Bool) (pages : ℕ → Page T ⊎ Err) (done : ℕ) (t : Turn T) (result : List (Listed T))
      (next : List (Listed T) → List String → List (Listed T) ⊎ Err)
      → done + 1 ≤ max_pages
      → ((out : List (Listed T)) (seen : List String)
          → out ≡ first_pages pages (done + 1)
          → Noted out seen
          → ¬ Ends bare pages (done + 1)
          → next out seen ≡ inl result
          → Returned bare pages result)
      → After bare pages done t
      → resume next t ≡ inl result
      → Returned bare pages result
  resume-Returned bare pages done (returns (inr e)) result next b go a q =
      absurd (ground (arith, q))
  resume-Returned bare pages done (returns (inl out)) result next b go ((k, small, whole), unique)
        q =
      let r : out ≡ result = ground (arith, q) in
      rw (sym r) ((k, omega (arith, small, b), whole), unique)
  resume-Returned bare pages done (goes_on out seen) result next b go (more, known, on) q =
      go out seen more known on q

  page_loop-Returned :
      (bare : Bool) (pages : ℕ → Page T ⊎ Err) (n done : ℕ) (out result : List (Listed T))
      (seen : List String)
      → n + done ≤ max_pages
      → Onward bare pages (done + 1)
      → out ≡ first_pages pages done
      → Noted out seen
      → page_loop bare pages n (done + 1) out seen ≡ inl result
      → Returned bare pages result
  unfolding page_loop
  page_loop-Returned bare pages zero done out result seen b o g h e = absurd (ground (arith, e))
  page_loop-Returned bare pages (suc n) done out result seen b o g h e =
      resume-Returned bare pages done (turn bare (done + 1) (pages (done + 1)) out seen) result _
        (omega (arith, b))
        (λ out' seen' g' h' on e'.
          page_loop-Returned bare pages n (done + 1) out' result seen' (omega (arith, b))
            (further bare pages (done + 1) o on) g' h' e')
        (turn-After bare pages done (pages (done + 1)) out seen refl o g h) e

  -- What fetchAllKeyItems returns without an error are the items of the pages 1 to k in their order,
  -- for a k of at most a thousand: no page before k says that it is the last, by the numbers of its
  -- envelope or by its form, and page k says so, or the pages are bare lists and with page k + 1 an id
  -- comes again. No id stands twice in what is returned.
  pub fetch_all_key_items_lem :
      (bare : Bool) (pages : ℕ → Page T ⊎ Err) (result : List (Listed T))
      → fetch_all_key_items bare pages ≡ inl result
      → Returned bare pages result
  unfolding fetch_all_key_items first_pages
  fetch_all_key_items_lem bare pages result e =
      page_loop-Returned bare pages max_pages 0 [] result [] (omega arith)
        (λ j a b. absurd (omega (arith, a, b))) refl (tt, λ r. refl) e
