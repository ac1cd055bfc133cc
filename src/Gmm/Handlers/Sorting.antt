-- ===== src/Gmm/Handlers/Sorting.antt =====
-- The loops that sort the slices of a registration request (gmm/handler.go).
use amf_cdac.Base.{
  ◌≡◌, ◌⊎◌, refl, inl, inr, sym, subst, Bool, true, false, ◌&&◌, List, [], ◌∷◌, ◌++◌, All,
  All-append, Among, Among-append, arith, Bool-cases,
}
use amf_cdac.Types.{access_type_eq, Snssai, SubscribedSnssai}
use amf_cdac.Ue.Slices.{in_subscribed_nssai, in_plmn_support_list}
use amf_cdac.Ue.Slices.Membership.{Matches, Selected, in_subscribed-Selected}
use amf_cdac.Gmm.Handlers.Requesting.{Sorting, slices_of, sort_one, sort_requested, add_defaults}

-- A slice that is subscribed or in the old list; and one of the request that no subscribed slice
-- matches.
abbrev pub IsGranted : List Snssai → List Snssai → Snssai → Type 0
IsGranted old subscribed s = Among s old ⊎ Among s subscribed

abbrev pub IsRefused : List Snssai → List Snssai → Snssai → Type 0
IsRefused ts subscribed t = Among t ts × All (λ s. ¬ Matches t s) subscribed

-- A requested slice is rejected, or an allowed one matches it.
abbrev pub IsAnswered : List Snssai → List Snssai → Snssai → Type 0
IsAnswered al re t = Among t re ⊎ ((s : Snssai) × Among s al × Matches t s)

-- The two lists for a request, from the old list and the subscribed slices.
abbrev pub IsSorted : List Snssai → List Snssai → List Snssai → List Snssai → List Snssai → Type 0
IsSorted old subscribed ts al re =
    All (IsGranted old subscribed) al × All (IsRefused ts subscribed) re × All (IsAnswered al re) ts

sort_one-IsGranted :
    (old subscribed : List Snssai) (t : Snssai) (r : Bool × Snssai) (st : Sorting)
    → Selected t subscribed r
    → All (IsGranted old subscribed) st.allowed
    → All (IsGranted old subscribed) (sort_one r.0 r.1 st).allowed
unfolding sort_one
sort_one-IsGranted old subscribed t (true, s) st found h =
    All-append (IsGranted old subscribed) st.allowed (s ∷ []) h (inr found.0, tt)
sort_one-IsGranted old subscribed t (false, s) st found h = h

sort_one-IsRefused :
    (ts subscribed : List Snssai) (t : Snssai) (r : Bool × Snssai) (st : Sorting)
    → Selected t subscribed r
    → Among t ts
    → All (IsRefused ts subscribed) st.rejected
    → All (IsRefused ts subscribed) (sort_one r.0 r.1 st).rejected
unfolding sort_one
sort_one-IsRefused ts subscribed t (true, s) st found i h = h
sort_one-IsRefused ts subscribed t (false, s) st found i h =
    All-append (IsRefused ts subscribed) st.rejected (s ∷ []) h
      (subst (IsRefused ts subscribed) (sym found.0) (i, found.1), tt)

sort_one-keeps :
    (s : Snssai) (b : Bool) (t : Snssai) (st : Sorting)
    → (Among s st.allowed → Among s (sort_one b t st).allowed)
      × (Among s st.rejected → Among s (sort_one b t st).rejected)
unfolding sort_one
sort_one-keeps s true t st = (λ h. (Among-append s st.allowed (t ∷ [])).1 (inl h), λ h. h)
sort_one-keeps s false t st = (λ h. h, λ h. (Among-append s st.rejected (t ∷ [])).1 (inl h))

sort_one-answers :
    (subscribed : List Snssai) (t : Snssai) (r : Bool × Snssai) (st : Sorting)
    → Selected t subscribed r
    → IsAnswered (sort_one r.0 r.1 st).allowed (sort_one r.0 r.1 st).rejected t
unfolding sort_one
sort_one-answers subscribed t (true, s) st found =
    inr (s, (Among-append s st.allowed (s ∷ [])).1 (inr (inl refl)), found.1)
sort_one-answers subscribed t (false, s) st found =
    inl ((Among-append t st.rejected (s ∷ [])).1 (inr (inl (sym found.0))))

sort_requested-keeps :
    (subscribed : List Snssai) (s : Snssai) (ts : List Snssai) (st : Sorting)
    → (Among s st.allowed → Among s (sort_requested subscribed ts st).allowed)
      × (Among s st.rejected → Among s (sort_requested subscribed ts st).rejected)
unfolding sort_requested
sort_requested-keeps subscribed s [] st = (λ h. h, λ h. h)
sort_requested-keeps subscribed s (t ∷ ts) st =
    let r = in_subscribed_nssai subscribed t in
    let first = sort_one-keeps s r.0 r.1 st in
    let later = sort_requested-keeps subscribed s ts (sort_one r.0 r.1 st) in
    (λ h. later.0 (first.0 h), λ h. later.1 (first.1 h))

sort_requested-IsGranted :
    (old subscribed ts : List Snssai) (st : Sorting)
    → All (IsGranted old subscribed) st.allowed
    → All (IsGranted old subscribed) (sort_requested subscribed ts st).allowed
unfolding sort_requested
sort_requested-IsGranted old subscribed [] st h = h
sort_requested-IsGranted old subscribed (t ∷ ts) st h =
    let r = in_subscribed_nssai subscribed t in
    sort_requested-IsGranted old subscribed ts (sort_one r.0 r.1 st)
      (sort_one-IsGranted old subscribed t r st (in_subscribed-Selected subscribed t) h)

sort_requested-IsRefused :
    (all subscribed ts : List Snssai) (st : Sorting)
    → ((t : Snssai) → Among t ts → Among t all)
    → All (IsRefused all subscribed) st.rejected
    → All (IsRefused all subscribed) (sort_requested subscribed ts st).rejected
unfolding sort_requested
sort_requested-IsRefused all subscribed [] st i h = h
sort_requested-IsRefused all subscribed (t ∷ ts) st i h =
    let r = in_subscribed_nssai subscribed t in
    let selected = in_subscribed-Selected subscribed t in
    sort_requested-IsRefused all subscribed ts (sort_one r.0 r.1 st) (λ x j. i x (inr j))
      (sort_one-IsRefused all subscribed t r st selected (i t (inl refl)) h)

IsAnswered-later :
    (subscribed : List Snssai) (t : Snssai) (ts : List Snssai) (st : Sorting)
    → IsAnswered st.allowed st.rejected t
    → IsAnswered
        (sort_requested subscribed ts st).allowed
        (sort_requested subscribed ts st).rejected
        t
IsAnswered-later subscribed t ts st (inl h) = inl ((sort_requested-keeps subscribed t ts st).1 h)
IsAnswered-later subscribed t ts st (inr (s, h, m)) =
    inr (s, (sort_requested-keeps subscribed s ts st).0 h, m)

sort_requested-answers :
    (subscribed ts : List Snssai) (st : Sorting)
    → All
        (IsAnswered
          (sort_requested subscribed ts st).allowed
          (sort_requested subscribed ts st).rejected)
        ts
unfolding sort_requested
sort_requested-answers subscribed [] st = tt
sort_requested-answers subscribed (t ∷ ts) st =
    let r = in_subscribed_nssai subscribed t in
    let st' = sort_one r.0 r.1 st in
    (
      IsAnswered-later subscribed t ts st'
          (sort_one-answers subscribed t r st (in_subscribed-Selected subscribed t)),
      sort_requested-answers subscribed ts st',
    )

pub All-Among :
    (P : Snssai → Type 0) (ss : List Snssai) → ((s : Snssai) → Among s ss → P s) → All P ss
All-Among P [] h = tt
All-Among P (s ∷ ss) h = (h s (inl refl), All-Among P ss (λ t i. h t (inr i)))

pub sort_requested-IsSorted :
    (old subscribed ts : List Snssai) (st : Sorting)
    → st.allowed ≡ old
    → st.rejected ≡ []
    → IsSorted old subscribed ts
        (sort_requested subscribed ts st).allowed
        (sort_requested subscribed ts st).rejected
sort_requested-IsSorted old subscribed ts st e f = (
  sort_requested-IsGranted old subscribed ts st (
      subst (All (IsGranted old subscribed)) (sym e)
        (All-Among (IsGranted old subscribed) old (λ s i. inl i))),
  sort_requested-IsRefused ts subscribed ts st (λ t i. i)
      (subst (All (IsRefused ts subscribed)) (sym f) tt),
  sort_requested-answers subscribed ts st,
)

pub add_defaults-IsGranted :
    (support : List (List Snssai)) (old all : List Snssai) (subscribed : List SubscribedSnssai)
    (ss : List Snssai)
    → ((s : Snssai) → Among s (slices_of subscribed) → Among s all)
    → All (IsGranted old all) ss
    → All (IsGranted old all) (add_defaults support subscribed ss)
unfolding add_defaults
add_defaults-IsGranted support old all [] ss i h = h
add_defaults-IsGranted support old all (s ∷ subscribed) ss i h =
    elim (Bool-cases (s.default_indication && in_plmn_support_list support s.subscribed_snssai)) [
      | inl e ↦ rw e (
          add_defaults-IsGranted support old all subscribed (ss ++ s.subscribed_snssai ∷ [])
            (λ x j. i x (inr j))
            (All-append (IsGranted old all) ss (s.subscribed_snssai ∷ []) h
              (inr (i s.subscribed_snssai (inl refl)), tt)))
      | inr e ↦ rw e (add_defaults-IsGranted support old all subscribed ss (λ x j. i x (inr j)) h)
    ]

pub IsAnswered-more :
    (al re ts : List Snssai) → All (IsAnswered [] re) ts → All (IsAnswered al re) ts
IsAnswered-more al re [] h = tt
IsAnswered-more al re (t ∷ ts) (inl i, h) = (inl i, IsAnswered-more al re ts h)
IsAnswered-more al re (t ∷ ts) (inr (s, i, m), h) = absurd (ground arith)
