-- ===== src/Ngap/Lookups.antt =====
-- The links between stations, RanUes and the pool under the lookup of the UE that a NAS message names,
-- and under a new UE (nas/nas_security/security.go, context/context.go).
use amf_cdac.Base.{
  ℕ, ◌≡◌, inl, inr, Bool, true, false, Option, none, some, arith, Option-cases, nat_eq,
  if◌then◌else◌,
}
use amf_cdac.Types.{Bytes, access_type_eq}
use amf_cdac.Context.State.{World}
use amf_cdac.Context.Ids.{Generators}
use amf_cdac.Context.Guti.{allocate_guti_to_ue, tmsi_allocate, set_guti}
use amf_cdac.Context.Ues.{
  Database, insert_ue, new_amf_ue, amf_ue_find_by_suci, amf_ue_find_by_guti,
  amf_ue_find_by_guti_local, keep_fetched,
}
use amf_cdac.Nas.Message.{HeaderType, plain_nas, integrity_protected, Library}
use amf_cdac.Nas.Identity.{
  Identities, Fetched, found, panics as fetch_panics, give, by_suci,
  fetch_ue_context_with_mobile_identity,
}
use amf_cdac.Nas.Identity.Fetching.{header-Each}
use amf_cdac.Ngap.Alike.{Alike, Alike-refl, with_ue-Alike}

-- What a lookup of a UE leaves.
abbrev pub Kept : World → Fetched → Type 0
Kept w (found o w') = Alike w w'
Kept w fetch_panics = Unit

module _ (lib : Library) (ids : Identities) (db : Database) where
  lookup-Kept :
      (w : World) (guti : Bytes)
      → w.enable_db_store ≡ false
      → Alike w (amf_ue_find_by_guti db w guti).1
  unfolding amf_ue_find_by_guti
  lookup-Kept w guti off = elim (Option-cases (amf_ue_find_by_guti_local w guti)) [
    | inl e ↦
        rw (amf_ue_find_by_guti, e)
          (local (keep_fetched (db.db_fetch_ue_by_guti w guti)) w.enable_db_store off)
    | inr (u, e) ↦ rw (amf_ue_find_by_guti, e) (Alike-refl w)
  ]
    where
      local : (r : Option ℕ × World) (b : Bool) → b ≡ false → Alike w (if b then r else (none, w)).1
      local r false e = Alike-refl w
      local r true e = absurd (cc)

  give-Kept :
      (w : World) (h : HeaderType) (r : Option ℕ × World)
      → Alike w r.1
      → Kept w (give lib ids db h r)
  unfolding give
  give-Kept w h (none, v) a = a
  give-Kept w plain_nas (some u, v) a = a
  give-Kept w _ (some u, v) a = a

  by_suci-Kept : (w : World) (o : Option ℕ) → Kept w (by_suci lib ids db w o)
  unfolding by_suci
  by_suci-Kept w none = Alike-refl w
  by_suci-Kept w (some u) =
      with_ue-Alike w u (record (w.ues u) { security_context_available = false })

  pub fetch-Kept :
      (w : World) (payload : Bytes)
      → w.enable_db_store ≡ false
      → Kept w (fetch_ue_context_with_mobile_identity lib ids db w (some payload))
  unfolding fetch_ue_context_with_mobile_identity
  fetch-Kept w payload off =
      header-Each lib ids db (Kept w) w tt (Alike-refl w)
        (λ contents. by_suci-Kept w (amf_ue_find_by_suci w (ids.suci_to_string contents))) payload
        (lib.get_security_header_type payload)
        (λ guti. give-Kept w plain_nas (amf_ue_find_by_guti db w guti) (lookup-Kept w guti off))
        (λ e guti.
          give-Kept w integrity_protected (amf_ue_find_by_guti db w guti) (lookup-Kept w guti off))

pub new_amf_ue-Alike :
    (gen : Generators) (w w' : World)
    → w.enable_db_store ≡ false
    → new_amf_ue gen w "" ≡ some w'
    → Alike w w'
unfolding new_amf_ue insert_ue allocate_guti_to_ue tmsi_allocate set_guti
new_amf_ue-Alike gen w w' off e = record {
  same_ran = λ p. ground (arith);
  same_id = λ p. ground (arith);
  same_rans = ground (arith);
  same_pool = ground (arith);
  same_flag = ground (arith);
  same_next = ground (arith);
  same_used = λ i. ground (arith);
}
