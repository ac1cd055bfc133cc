-- ===== src/Ngap/Answering.antt =====
-- The answer to a release request (ngap/handler.go, HandleUEContextReleaseRequest).
use amf_cdac.Base.{
  ℕ, ◌≡◌, ◌≢◌, refl, inl, inr, sym, subst, ap, ◌∙◌, Bool, true, false, Option, none, some, List, [],
  ◌∷◌, ◌++◌, load, Bool-cases, Option-cases, nat_eq, ◌==◌, string_eq,
}
use amf_cdac.Types.{access_type_eq, RelAction, n2_normal_release, release_ue_context}
use amf_cdac.Context.State.{RanUe, World}
use amf_cdac.Context.Ran.{find_by_ran_ue_ngap_id}
use amf_cdac.Ngap.{
  Cause, unknown_local_ue_ngap_id, ngran_generated_reason, Ie, Effect, error_indication,
  ue_context_release_command, Peers, Turn, start, in_world,
}
use amf_cdac.Ngap.Reading.{Ies, no_ies, read_ies}
use amf_cdac.Ngap.Finding.{ran_ue_find_by_ran_ue_ngap_id, send_ue_context_release_command}
use amf_cdac.Ngap.Releasing.{
  release_reading, set_ran, release_each, is_registered, or_unspecified, request_of, accept_of,
  accept_request, refuse, check_gnb, found_or_refused, request_by, request_id,
  handle_ue_context_release_request,
}
use amf_cdac.Ngap.Doomed.{set_ran-at}
use amf_cdac.Ngap.Deactivating.{Comes, bind-Comes, HasRanUe, told, told-Comes}
use amf_cdac.Ngap.Linking.{lookup-local}
use amf_cdac.Ngap.Released.{lookup-pooled}

abbrev pub is_answer : Effect → Bool
is_answer (error_indication r c) = true
is_answer (ue_context_release_command p a c) = true
is_answer _ = false

-- The last effect is an error indication or a release command.
unfoldable pub last_answers : List Effect → Bool
last_answers [] = false
last_answers (e ∷ []) = is_answer e
last_answers (e ∷ f ∷ es) = last_answers (f ∷ es)

abbrev IsAnswered : Turn → Type 0
IsAnswered t = last_answers t.effects ≡ true

-- Whether a handler ends with an answer.
abbrev pub answers : Option Turn → Bool
answers none = false
answers (some t) = last_answers t.effects

answers-Comes : (o : Option Turn) → Comes IsAnswered o → answers o ≡ true
answers-Comes none h = absurd h
answers-Comes (some t) h = h

last-append : (es : List Effect) (e : Effect) → last_answers (es ++ e ∷ []) ≡ is_answer e
unfolding last_answers
last-append [] e = refl
last-append (d ∷ []) e = refl
last-append (d ∷ f ∷ es) e = last-append (f ∷ es) e

module _ (peers : Peers) (r : ℕ) (all : (e : Effect) → peers.encodes e ≡ true) where
  command-IsAnswered :
      (t : Turn) (p : ℕ) (a : RelAction) (c : Cause)
      → IsAnswered (send_ue_context_release_command peers t p a c)
  unfolding send_ue_context_release_command
  command-IsAnswered t p a c =
      rw (all (ue_context_release_command p a c))
        (last-append t.effects (ue_context_release_command p a c))

  refused-IsAnswered : (c : Cause) (t : Turn) → Comes IsAnswered (refuse peers r c t)
  refused-IsAnswered c t =
      rw (all (error_indication r c)) (last-append t.effects (error_indication r c))

  request_of-Comes :
      (p u : ℕ) (ies : Ies) (c : Cause) (t : Turn)
      → HasRanUe t.world u (t.world.rans r).an_type
      → Comes IsAnswered (request_of peers r p u ies c t)
  unfolding request_of
  request_of-Comes p u ies c t has =
      let a = (t.world.rans r).an_type in
      elim (Option-cases (load (t.world.ues u).state a)) [
        | inl e ↦ rw (Comes, e) (command-IsAnswered t p n2_normal_release c)
        | inr (s, e) ↦ elim (Bool-cases (is_registered s)) [
          | inr f ↦
              rw (Comes, e, f)
                (command-IsAnswered (release_each u (t.world.ues u).sm_context_list t) p
                  release_ue_context c)
          | inl f ↦
              rw (Comes, e, f)
                (bind-Comes (λ t'. Unit) IsAnswered (told ies.sessions u a t)
                  (λ t'. some (send_ue_context_release_command peers t' p n2_normal_release c))
                  (told-Comes ies.sessions u a t has)
                  (λ t' k. command-IsAnswered t' p n2_normal_release c))
        ]
      ]

  -- The UE of every RanUe has a RanUe at the access type.
  AllHave : World → Type 0
  AllHave w = (p u : ℕ) → (w.ran_ues p).amf_ue ≡ some u → HasRanUe w u (w.rans r).an_type

  accept_of-Comes :
      (o : Option ℕ) (p : ℕ) (ies : Ies) (c : Cause) (t : Turn)
      → ((u : ℕ) → o ≡ some u → HasRanUe t.world u (t.world.rans r).an_type)
      → Comes IsAnswered (accept_of peers r o p ies c t)
  unfolding accept_of
  accept_of-Comes none p ies c t has = command-IsAnswered t p n2_normal_release c
  accept_of-Comes (some u) p ies c t has = request_of-Comes p u ies c t (has u refl)

  accept-Comes :
      (p : ℕ) (ies : Ies) (t : Turn)
      → AllHave t.world
      → Comes IsAnswered (accept_request peers r p ies t)
  unfolding accept_request AllHave
  accept-Comes p ies t has =
      let t' = in_world t (set_ran t.world p r) in
      accept_of-Comes (t'.world.ran_ues p).amf_ue p ies (or_unspecified ies.reason) t'
        (λ u e. has p u (sym (ap (λ (x : RanUe). x.amf_ue) (set_ran-at t.world p r)) ∙ e))

  check-Comes :
      (p : ℕ) (ies : Ies) (t : Turn)
      → AllHave t.world
      → Comes IsAnswered (check_gnb peers r p ies t)
  unfolding check_gnb
  check-Comes p ies t has = elim (Bool-cases ((t.world.rans r).gnb_id == "")) [
    | inl e ↦ rw (Comes, e) (refused-IsAnswered ngran_generated_reason t)
    | inr e ↦ elim (Option-cases (t.world.ran_ues p).ran) [
      | inl f ↦ rw (Comes, e, f) (accept-Comes p ies t has)
      | inr (q, f) ↦ elim (Bool-cases ((t.world.rans q).gnb_id == (t.world.rans r).gnb_id)) [
        | inl g ↦ rw (Comes, e, f, g) (accept-Comes p ies t has)
        | inr g ↦ rw (Comes, e, f, g) (refused-IsAnswered unknown_local_ue_ngap_id t)
      ]
    ]
  ]

  found-Comes :
      (o : Option ℕ) (ies : Ies) (t : Turn)
      → AllHave t.world
      → Comes IsAnswered (found_or_refused peers r (o, t.world) ies t)
  unfolding found_or_refused
  found-Comes none ies t has = refused-IsAnswered unknown_local_ue_ngap_id t
  found-Comes (some p) ies t has = check-Comes p ies t has

  by-Comes :
      (o : Option ℕ) (rid : ℕ) (ies : Ies) (t : Turn)
      → t.world.enable_db_store ≡ false
      → ies.ran_id ≡ some rid
      → AllHave t.world
      → Comes IsAnswered (request_by peers r (o, t.world) ies t)
  unfolding request_by
  by-Comes (some p) rid ies t off given has = found-Comes (some p) ies t has
  by-Comes none rid ies t off given has =
      subst (λ x. Comes IsAnswered (given_by x t ies)) (sym given)
        (subst (λ x. Comes IsAnswered (found_or_refused peers r x ies t))
          (sym (lookup-local peers r t.world rid off))
          (found-Comes (find_by_ran_ue_ngap_id t.world (t.world.rans r).ran_ue_list rid) ies t has))
    where
      given_by : Option ℕ → Turn → Ies → Option Turn
      given_by o t ies = elim o [
        | none ↦ none
        | some id ↦
            found_or_refused peers r (ran_ue_find_by_ran_ue_ngap_id peers t.world r id) ies t
      ]

request-read :
    (peers : Peers) (r id : ℕ) (list : List Ie) (ies : Ies) (t : Turn)
    → t.world.enable_db_store ≡ false
    → read_ies release_reading list no_ies ≡ some ies
    → ies.amf_id ≡ some id
    → handle_ue_context_release_request peers r list t
      ≡ request_by peers r (load t.world.ran_ue_pool id, t.world) ies t
unfolding handle_ue_context_release_request request_id
request-read peers r id list ies t off read given =
    let first : handle_ue_context_release_request peers r list t
        ≡ request_id peers r ies.amf_id ies t =
      rw (handle_ue_context_release_request, read) refl in
    first
    ∙ ap (λ (o : Option ℕ). request_id peers r o ies t) given
    ∙ ap (λ (x : Option ℕ × World). request_by peers r x ies t) (lookup-pooled peers t.world id off)

-- A release request with both identifiers, in any state of the UE, comes to an end, and its last
-- effect is an error indication or a release command. The UE of every RanUe has a RanUe at the
-- station's access type, messages can be encoded, and the database is not used.
pub request-answers :
    (peers : Peers) (r id rid : ℕ) (list : List Ie) (ies : Ies) (w : World)
    → ((e : Effect) → peers.encodes e ≡ true)
    → w.enable_db_store ≡ false
    → read_ies release_reading list no_ies ≡ some ies
    → ies.amf_id ≡ some id
    → ies.ran_id ≡ some rid
    → ((p u : ℕ) → (w.ran_ues p).amf_ue ≡ some u → load (w.ues u).ran_ue (w.rans r).an_type ≢ none)
    → answers (handle_ue_context_release_request peers r list (start w)) ≡ true
unfolding AllHave
request-answers peers r id rid list ies w all off read amf_given ran_given has =
    subst (λ o. answers o ≡ true)
      (sym (request-read peers r id list ies (start w) off read amf_given))
      (answers-Comes (request_by peers r (load w.ran_ue_pool id, w) ies (start w))
        (by-Comes peers r all (load w.ran_ue_pool id) rid ies (start w) off ran_given has))
