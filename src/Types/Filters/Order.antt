-- ===== src/Types/Filters/Order.antt =====
-- The order of a chain's filters (internal/types/types.go).
use sgate.Prelude.{
  ◌≡◌, refl, sym, ap, ◌∙◌, List, [], ◌∷◌, ◌++◌, if◌then◌else◌, arith, All, Bool-cases, inl, inr,
  ◌&&◌, append_assoc, append-nil,
}
use sgate.Prelude.Int.{ℤ, leb_ℤ, ◌≤ℤ◌}
use sgate.Types.Filters.{Filter, FilterChain, new_filter_chain, place, sort_filters, add_filter}

module _ {S : Type 0} where
  -- The filters of one priority, in their order.
  unfoldable pub at_priority : ℤ → List (Filter S) → List (Filter S)
  at_priority p [] = []
  at_priority p (f ∷ fs) =
      let rest = at_priority p fs in
      if leb_ℤ f.priority p && leb_ℤ p f.priority then f ∷ rest else rest

  unfoldable pub Ordered : List (Filter S) → Type 0
  Ordered [] = Unit
  Ordered (f ∷ fs) = All (λ (g : Filter S). f.priority ≤ℤ g.priority) fs × Ordered fs

  at_priority-place :
      (p : ℤ) (f : Filter S) (fs : List (Filter S))
      → at_priority p (place f fs) ≡ at_priority p (f ∷ fs)
  unfolding place at_priority
  at_priority-place p f [] = refl
  at_priority-place p f (g ∷ gs) = ground (arith, at_priority-place p f gs)

  at_priority-sort :
      (p : ℤ) (fs : List (Filter S)) → at_priority p (sort_filters fs) ≡ at_priority p fs
  unfolding sort_filters at_priority
  at_priority-sort p [] = refl
  at_priority-sort p (f ∷ fs) =
      at_priority-place p f (sort_filters fs) ∙ ground (arith, at_priority-sort p fs)

  above_the_rest :
      (f g : Filter S) (fs : List (Filter S))
      → f.priority ≤ℤ g.priority
      → All (λ (h : Filter S). g.priority ≤ℤ h.priority) fs
      → All (λ (h : Filter S). f.priority ≤ℤ h.priority) fs
  above_the_rest f g [] le a = tt
  above_the_rest f g (h ∷ hs) le a = (omega (arith, le, a.0), above_the_rest f g hs le a.1)

  below_place :
      (g f : Filter S) (fs : List (Filter S))
      → g.priority ≤ℤ f.priority
      → All (λ (h : Filter S). g.priority ≤ℤ h.priority) fs
      → All (λ (h : Filter S). g.priority ≤ℤ h.priority) (place f fs)
  unfolding place
  below_place g f [] le a = (le, tt)
  below_place g f (h ∷ hs) le a = elim (Bool-cases (leb_ℤ f.priority h.priority)) [
    | inl first ↦ rw first (le, a)
    | inr later ↦ rw later (a.0, below_place g f hs le a.1)
  ]

  place-Ordered : (f : Filter S) (fs : List (Filter S)) → Ordered fs → Ordered (place f fs)
  unfolding place Ordered
  place-Ordered f [] o = (tt, tt)
  place-Ordered f (g ∷ gs) o = elim (Bool-cases (leb_ℤ f.priority g.priority)) [
    | inl first ↦
        let le : f.priority ≤ℤ g.priority = ground arith in
        rw first ((le, above_the_rest f g gs le o.0), o)
    | inr later ↦
        let le : g.priority ≤ℤ f.priority = ground arith in
        rw later (below_place g f gs le o.0, place-Ordered f gs o.1)
  ]

  sort-Ordered : (fs : List (Filter S)) → Ordered (sort_filters fs)
  unfolding sort_filters
  sort-Ordered [] = unfold Ordered in tt
  sort-Ordered (f ∷ fs) = place-Ordered f (sort_filters fs) (sort-Ordered fs)

  unfoldable pub add_filters : FilterChain S → List (Filter S) → FilterChain S
  add_filters fc [] = fc
  add_filters fc (f ∷ fs) = add_filters (add_filter fc f) fs

  at_priority-append :
      (p : ℤ) (fs gs : List (Filter S))
      → at_priority p (fs ++ gs) ≡ at_priority p fs ++ at_priority p gs
  unfolding at_priority
  at_priority-append p [] gs = refl
  at_priority-append p (f ∷ fs) gs = ground (arith, at_priority-append p fs gs)

  added_from :
      (p : ℤ) (fc : FilterChain S) (fs : List (Filter S))
      → Ordered fc.filters
      → Ordered (add_filters fc fs).filters
        × (at_priority p (add_filters fc fs).filters ≡ at_priority p fc.filters ++ at_priority p fs)
  unfolding add_filters add_filter
  added_from p fc [] o = (o, unfold at_priority in sym (append-nil (at_priority p fc.filters)))
  added_from p fc (f ∷ fs) o =
      let (o', same) = added_from p (add_filter fc f) fs (sort-Ordered (fc.filters ++ (f ∷ []))) in
      (
        o',
        same
            ∙ ap (λ xs. xs ++ at_priority p fs)
                (at_priority-sort p (fc.filters ++ (f ∷ []))
                  ∙ at_priority-append p fc.filters (f ∷ []))
            ∙ append_assoc (at_priority p fc.filters) (at_priority p (f ∷ [])) (at_priority p fs)
            ∙ ap (λ xs. at_priority p fc.filters ++ xs) (sym (at_priority-append p (f ∷ []) fs)),
      )

-- However filters are added to a new chain, the chain runs them by ascending priority, and those of
-- one priority in the order in which they were added: none is lost, none doubled.
pub add_filters-order :
    {S : Type 0} (p : ℤ) (fs : List (Filter S))
    → Ordered (add_filters new_filter_chain fs).filters
      × (at_priority p (add_filters new_filter_chain fs).filters ≡ at_priority p fs)
add_filters-order p fs =
    let (o, same) = added_from p new_filter_chain fs (unfold Ordered in tt) in
    (o, unfold at_priority in same)
