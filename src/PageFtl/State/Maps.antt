-- ===== src/PageFtl/State/Maps.antt =====
-- h4h_page_ftl_map_lpa_to_ppa keeps the mapping table sound, and get_ppa finds what it wrote.
use h4h.Base.{
  ℕ, ◌≡◌, ◌≢◌, inl, inr, refl, sym, ap, subst, ◌∙◌, true, Bool-cases, List, Option, some, arith,
  get_elem?, set, length-set, get_elem?-set, Returns, Returns-mono, if◌then◌else◌,
}
use h4h.Params.{DeviceParams}
use h4h.Abm.{Abm}
use h4h.Abm.Valid.{IsValid}
use h4h.PageFtl.{PhyAddr, PageStatus, valid, is_valid, MappingEntry}
use h4h.PageFtl.Ops.{invalidate_entry}
use h4h.PageFtl.State.{
  IsLive, block_of, offset_of, IsMapped, IsMapped-at, SamePlace, IsActive, IsTable, invalidate_live,
}

is_valid-eq : (st : PageStatus) → is_valid st ≡ true → st ≡ valid
is_valid-eq st e = ground arith

-- No entry maps to this subpage.
abbrev pub Unmapped : DeviceParams → List MappingEntry → PhyAddr → ℕ → Type 0
Unmapped np table a sp =
    (l : ℕ) (e : MappingEntry)
    → get_elem? table l ≡ some e
    → e.status ≡ valid
    → block_of np e.phyaddr ≡ block_of np a
    → offset_of np e.phyaddr e.sp_off ≢ offset_of np a sp

-- The entry at `lpa`, if it maps anything, is not alive any more: no other entry named its place.
pub record Released (bai bai' : Abm) (table : List MappingEntry) (lpa : ℕ) : Type 0 where
  pub released_valid : IsValid bai'
  pub released_np : bai'.np ≡ bai.np
  pub released_prepared : bai'.nr_free_blks_prepared ≡ bai.nr_free_blks_prepared
  pub others_live :
      (l : ℕ) (e : MappingEntry)
      → get_elem? table l ≡ some e
      → e.status ≡ valid
      → l ≢ lpa
      → IsMapped bai' e
  pub fresh_live :
      (a : PhyAddr) (sp : ℕ)
      → Unmapped bai.np table a sp
      → IsLive bai (block_of bai.np a) (offset_of bai.np a sp)
      → IsLive bai' (block_of bai.np a) (offset_of bai.np a sp)
  pub active_stays :
      (np : DeviceParams) (bab : List (Option ℕ)) → IsActive np bai bab → IsActive np bai' bab

module _ (bai : Abm) (ok : IsValid bai) (table : List MappingEntry) (sound : IsTable bai table)
    (lpa : ℕ) (me : MappingEntry) (at : get_elem? table lpa ≡ some me) where
  release_mapped :
      me.status ≡ valid → Returns (λ bai'. Released bai bai' table lpa) (invalidate_entry me bai)
  unfolding invalidate_entry
  release_mapped st =
      let mapped = sound.mapped lpa me at st in
      Returns-mono _ (λ bai'. Released bai bai' table lpa) _
        (λ bai' r k. record {
          released_valid = k.still_valid;
          released_np = k.kills_np;
          released_prepared = k.kills_prepared;
          others_live = λ l e g sv ne.
              let old = sound.mapped l e g sv in
              IsMapped-at bai' bai.np e k.kills_np old.place (
                k.still_live _ _
                  (λ same_b same_o. ne (
                    sym (
                      sound.separate lpa l me e at g st sv
                        (record { same_block = same_b; same_offset = same_o }))))
                  old.live);
          fresh_live = λ a sp un live. k.still_live _ _ (λ same_b. un lpa me at st same_b) live;
          active_stays = λ np bab act c h hc hh. k.still_active bab c h _ (act c h hc hh);
        })
        (invalidate_live bai ok me.phyaddr me.sp_off mapped.place mapped.live)

  release_unmapped : me.status ≢ valid → Released bai bai table lpa
  release_unmapped st = record {
    released_valid = ok;
    released_np = refl;
    released_prepared = refl;
    others_live = λ l e g sv ne. sound.mapped l e g sv;
    fresh_live = λ a sp un live. live;
    active_stays = λ np bab act. act;
  }

  pub release :
      Returns
        (λ bai'. Released bai bai' table lpa)
        (if is_valid me.status then invalidate_entry me bai else some bai)
  release = elim (Bool-cases (is_valid me.status)) [
    | inl v ↦ rw v (release_mapped (is_valid-eq me.status v))
    | inr n ↦ rw n (release_unmapped (λ e. ground arith))
  ]

SamePlace-sym : (np : DeviceParams) (e f : MappingEntry) → SamePlace np e f → SamePlace np f e
SamePlace-sym np e f s = record { same_block = sym s.same_block; same_offset = sym s.same_offset }

-- A new entry that, if it is valid, is mapped to a place of its own keeps the table sound.
module _ (bai bai' : Abm) (table : List MappingEntry) (sound : IsTable bai table) (lpa : ℕ)
    (r : Released bai bai' table lpa) (new : MappingEntry)
    (new_mapped : new.status ≡ valid → IsMapped bai' new)
    (new_apart : (l : ℕ) (e : MappingEntry)
      → get_elem? table l ≡ some e
      → e.status ≡ valid
      → new.status ≡ valid
      → ¬ SamePlace bai.np new e) where
  set_separate :
      (l m : ℕ) (e f : MappingEntry)
      → get_elem? (set table lpa new) l ≡ some e
      → get_elem? (set table lpa new) m ≡ some f
      → e.status ≡ valid
      → f.status ≡ valid
      → SamePlace bai.np e f
      → l ≡ m
  set_separate l m e f gl gm se sf same = elim (get_elem?-set table lpa l new gl) [
    | inl (pl, ql) ↦ elim (get_elem?-set table lpa m new gm) [
      | inl (pm, qm) ↦ sym pl ∙ pm
      | inr (pm, qm) ↦ absurd (
          new_apart m f qm sf (rw (← ql) se)
            (subst (λ (x : MappingEntry). SamePlace bai.np x f) ql same))
    ]
    | inr (pl, ql) ↦ elim (get_elem?-set table lpa m new gm) [
      | inl (pm, qm) ↦ absurd (
          new_apart l e ql se (rw (← qm) sf) (
            SamePlace-sym bai.np e new
              (subst (λ (x : MappingEntry). SamePlace bai.np e x) qm same)))
      | inr (pm, qm) ↦ sound.separate l m e f ql qm se sf same
    ]
  ]

  pub set-IsTable : IsTable bai' (set table lpa new)
  set-IsTable = record {
    table_size =
        rw length-set
          (sound.table_size ∙ ap (λ (x : DeviceParams). x.nr_subpages_per_ssd) (sym r.released_np));
    mapped = λ l e g st. elim (get_elem?-set table lpa l new g) [
      | inl (pl, ql) ↦
          subst (λ (x : MappingEntry). IsMapped bai' x) (sym ql) (new_mapped (rw (← ql) st))
      | inr (pl, ql) ↦ r.others_live l e ql st (λ x. pl (sym x))
    ];
    separate =
        subst
          (λ (np : DeviceParams).
            (l m : ℕ) (e f : MappingEntry)
            → get_elem? (set table lpa new) l ≡ some e
            → get_elem? (set table lpa new) m ≡ some f
            → e.status ≡ valid
            → f.status ≡ valid
            → SamePlace np e f
            → l ≡ m)
          (sym r.released_np) set_separate;
  }
