-- ===== src/Context/Ues/Removal.antt =====
-- What Remove does to a UE (context/amf_ue.go).
use amf_cdac.Base.{
  ℕ, ◌≡◌, ◌≢◌, refl, String, pos, true, false, Option, none, some, [], ◌∷◌, Map, load, delete,
  load-delete, ◌==◌, string_eq, arith, if◌then◌else◌, nat_beq_iff, sym, ◌∙◌, ap, elem,
}
use amf_cdac.Types.{AccessType, access_type_eq}
use text.Mathlib.TextEquality.{eq_iff}
use amf_cdac.Context.State.{World}
use amf_cdac.Context.Guti.{free_tmsi}
use amf_cdac.Context.Guti.Tmsi.{tmsi_in_use}
use amf_cdac.Context.Ran.{remove_ran_ue}
use amf_cdac.Context.Ues.{remove_present, remove_ran_ues, remove_amf_ue}
use amf_cdac.Context.Ues.Keyed.{IsKeyed, SamePool, SamePool-IsKeyed, delete-Entry}

-- Removing RanUes leaves the UEs' identities and the pool of UEs.
record SameUe (w w' : World) : Type 0 where
  same_pool : SamePool w w'
  tmsis : (u : ℕ) → (w'.ues u).tmsi ≡ (w.ues u).tmsi
  channels : (u : ℕ) → (w'.ues u).event_channel ≡ (w.ues u).event_channel
  mode : w'.enable_db_store ≡ w.enable_db_store
  quitted : w'.quits ≡ w.quits

remove_ran_ue-SameUe : (w : World) (p : ℕ) → SameUe w (remove_ran_ue w p).1
unfolding remove_ran_ue
remove_ran_ue-SameUe w p = record {
  same_pool = record { pool = ground arith; count = ground arith; supis = λ u. ground arith };
  tmsis = λ u. ground arith;
  channels = λ u. ground arith;
  mode = ground arith;
  quitted = ground arith;
}

SameUe-trans : (w v x : World) → SameUe w v → SameUe v x → SameUe w x
SameUe-trans w v x a b = record {
  same_pool = record {
    pool = b.same_pool.pool ∙ a.same_pool.pool;
    count = b.same_pool.count ∙ a.same_pool.count;
    supis = λ u. b.same_pool.supis u ∙ a.same_pool.supis u;
  };
  tmsis = λ u. b.tmsis u ∙ a.tmsis u;
  channels = λ u. b.channels u ∙ a.channels u;
  mode = b.mode ∙ a.mode;
  quitted = b.quitted ∙ a.quitted;
}

SameUe-refl : (w : World) → SameUe w w
SameUe-refl w = record {
  same_pool = record { pool = refl; count = refl; supis = λ u. refl };
  tmsis = λ u. refl;
  channels = λ u. refl;
  mode = refl;
  quitted = refl;
}

present-SameUe : (w : World) (o : Option ℕ) → SameUe w (remove_present w o)
unfolding remove_present
present-SameUe w none = SameUe-refl w
present-SameUe w (some p) = remove_ran_ue-SameUe w p

ran_ues-SameUe :
    (entries : Map AccessType ℕ) (w : World) (u : ℕ) → SameUe w (remove_ran_ues entries w u)
unfolding remove_ran_ues
ran_ues-SameUe [] w u = SameUe-refl w
ran_ues-SameUe ((a, q) ∷ entries) w u =
    let w' = remove_present w (load (w.ues u).ran_ue a) in
    SameUe-trans w w' (remove_ran_ues entries w' u) (present-SameUe w (load (w.ues u).ran_ue a))
      (ran_ues-SameUe entries w' u)

-- The end of Remove, once the RanUes are gone.
abbrev finish : World → ℕ → World
finish w1 u =
    let w2 = free_tmsi w1 (w1.ues u).tmsi in
    let ue = w2.ues u in
    let w3 = if ue.supi == "" then w2 else record w2 { ue_pool = delete w2.ue_pool ue.supi } in
    if ue.event_channel then record w3 { quits = u ∷ w3.quits } else w3

finish-SamePool :
    (w : World) (u : ℕ)
    → (w.ues u).supi ≢ ""
    → SamePool (record w { ue_pool = delete w.ue_pool (w.ues u).supi }) (finish w u)
unfolding free_tmsi
finish-SamePool w u named = record {
  pool = ground (arith, eq_iff (w.ues u).supi "");
  count = ground arith;
  supis = λ v. ground arith;
}

finish-tmsi : (w : World) (u n : ℕ) → (w.ues u).tmsi ≡ pos n → tmsi_in_use n (finish w u) ≡ false
unfolding free_tmsi
finish-tmsi w u n t = ground (arith, nat_beq_iff n n)

finish-quits :
    (w : World) (u : ℕ) → (w.ues u).event_channel ≡ true → elem u (finish w u).quits ≡ true
unfolding free_tmsi
finish-quits w u c = ground (arith, nat_beq_iff u u)

-- Remove takes a UE with a SUPI out of the pool and gives its TMSI back: for a pool that holds each
-- UE under its own SUPI, the pool then has nothing under the SUPI and holds the others as it did,
-- still each under its own SUPI, the TMSI is not allocated, and a UE with an event channel is sent
-- "quit".
pub remove_amf_ue-IsKeyed :
    (w : World) (u n : ℕ)
    → IsKeyed w
    → (w.ues u).tmsi ≡ pos n
    → (w.ues u).supi ≢ ""
    → let w' = remove_amf_ue w u in
      IsKeyed w'
      × ((supi : String)
          → load w'.ue_pool supi ≡ (if (w.ues u).supi == supi then none else load w.ue_pool supi))
      × (tmsi_in_use n w' ≡ false)
      × ((w.ues u).event_channel ≡ true → elem u w'.quits ≡ true)
unfolding remove_amf_ue
remove_amf_ue-IsKeyed w u n h t named =
    let w1 = remove_ran_ues (w.ues u).ran_ue w u in
    let same = ran_ues-SameUe (w.ues u).ran_ue w u in
    let supi : (w1.ues u).supi ≡ (w.ues u).supi = same.same_pool.supis u in
    let named1 : (w1.ues u).supi ≢ "" = λ e. named (sym supi ∙ e) in
    let pools = finish-SamePool w1 u named1 in
    let keyed = SamePool-IsKeyed w w1 same.same_pool h in
    (
      SamePool-IsKeyed (record w1 { ue_pool = delete w1.ue_pool (w1.ues u).supi }) (finish w1 u)
          pools (delete-Entry w1 w1.ue_pool (w1.ues u).supi keyed),
      λ s.
          ap (λ (m : Map String ℕ). load m s) pools.pool
          ∙ load-delete w1.ue_pool (w1.ues u).supi s
          ∙ rw (supi, same.same_pool.pool) refl,
      finish-tmsi w1 u n (same.tmsis u ∙ t),
      λ c. finish-quits w1 u (same.channels u ∙ c),
    )
