-- ===== src/PageFtl/State/Unmap.antt =====
-- h4h_page_ftl_invalidate_lpa of ftl/algo/page_ftl.c.
use h4h.Base.{
  ℕ, zero, suc, ◌+◌, ◌-◌, ◌<◌, ◌≤◌, ◌≡◌, ◌≢◌, ◌⊎◌, inl, inr, refl, sym, ap, subst, ◌∙◌, ◌^◌, Bool,
  false, Bool-cases, Option, some, arith, get_elem?, set, get_elem?_of_lt, get_elem?-set,
  get_elem?-set_ne, some-inj, Returns, Returns-mono, Returns-bind, ltb, if◌then◌else◌,
}
use native.Mathlib.Nat.{mod-eq_of_lt}
use native.Mathlib.Decide.{dec_lt}
use h4h.Params.{DeviceParams}
use h4h.Abm.{Abm}
use h4h.PageFtl.{PhyAddr, valid, invalid, is_valid, MappingEntry, PageFtl}
use h4h.PageFtl.Ops.{invalidate_entry, unmap_entry, unmap_loop, invalidate_lpa, get_ppa}
use h4h.PageFtl.State.{IsFtl}
use h4h.PageFtl.State.Maps.{Released, release, set-IsTable}

-- Between two states, the entries from `lo` up to `hi` lose their places and the others stay.
pub record Cleared (p q : PageFtl) (lo hi : ℕ) : Type 0 where
  pub keeps : IsFtl q
  pub keeps_np : q.np ≡ p.np
  pub gone :
      (l : ℕ) (e : MappingEntry)
      → lo ≤ l
      → l < hi
      → get_elem? q.ptr_mapping_table l ≡ some e
      → e.status ≢ valid
  pub stays :
      (l : ℕ)
      → (l < lo) ⊎ (hi ≤ l)
      → get_elem? q.ptr_mapping_table l ≡ get_elem? p.ptr_mapping_table l

invalid-ne-valid : ¬ (invalid ≡ valid)
invalid-ne-valid e = ground arith

module _ (p : PageFtl) (ok : IsFtl p) (lpa : ℕ) (me : MappingEntry)
    (at : get_elem? p.ptr_mapping_table lpa ≡ some me) where
  Cleared-entry :
      (bai : Abm)
      → Released p.bai bai p.ptr_mapping_table lpa
      → Cleared p
          (record p {
            bai = bai;
            ptr_mapping_table = set p.ptr_mapping_table lpa (record me { status = invalid });
          })
          lpa
          (suc lpa)
  Cleared-entry bai r = record {
    keeps = record {
      abm = r.released_valid;
      same_np = r.released_np ∙ ok.same_np;
      none_prepared = r.released_prepared ∙ ok.none_prepared;
      punits_eq = ok.punits_eq;
      puid_in = ok.puid_in;
      page_in = ok.page_in;
      active = r.active_stays p.np p.ac_bab ok.active;
      table =
          set-IsTable p.bai bai p.ptr_mapping_table ok.table lpa r (record me { status = invalid })
            (λ st. absurd (invalid-ne-valid st)) (λ l e g sv st same. invalid-ne-valid st);
    };
    keeps_np = refl;
    gone = λ l e lo hi g st.
        elim (get_elem?-set p.ptr_mapping_table lpa l (record me { status = invalid }) g) [
          | inl (pe, qe) ↦ invalid-ne-valid (ap (λ (x : MappingEntry). x.status) (sym qe) ∙ st)
          | inr (pe, qe) ↦ pe (omega arith)
        ];
    stays = λ l out. get_elem?-set_ne p.ptr_mapping_table lpa l _ (λ e. omega arith);
  }

  kept_entry : me.status ≢ valid → Cleared p p lpa (suc lpa)
  kept_entry ne = record {
    keeps = ok;
    keeps_np = refl;
    gone = λ l e lo hi g st.
        let here : l ≡ lpa = omega arith in
        let there : get_elem? p.ptr_mapping_table lpa ≡ some e = rw (← here) g in
        ne (ap (λ (x : MappingEntry). x.status) (some-inj (sym at ∙ there)) ∙ st);
    stays = λ l out. refl;
  }

  unmap_entry-Cleared : Returns (λ q. Cleared p q lpa (suc lpa)) (unmap_entry lpa p)
  unfolding unmap_entry
  unmap_entry-Cleared =
      let r = release p.bai ok.abm p.ptr_mapping_table ok.table lpa me at in
      rw at (elim (Bool-cases (is_valid me.status)) [
        | inl v ↦
            let r' =
              subst
                (λ (x : Bool).
                  Returns (λ bai'. Released p.bai bai' p.ptr_mapping_table lpa)
                    (if x then invalidate_entry me p.bai else some p.bai))
                v r in
            rw v (
              Returns-bind _ (λ q. Cleared p q lpa (suc lpa)) (invalidate_entry me p.bai) _ r'
                λ bai e rel. Cleared-entry bai rel)
        | inr n ↦ rw n (kept_entry (λ e. ground arith))
      ])

module _ (p q r : PageFtl) (lo mid hi : ℕ) (a : Cleared p q lo mid) (b : Cleared q r mid hi)
    (le : lo ≤ mid) (le' : mid ≤ hi) where
  Cleared-trans : Cleared p r lo hi
  Cleared-trans = record {
    keeps = b.keeps;
    keeps_np = b.keeps_np ∙ a.keeps_np;
    gone = λ l e h h' g st. elim (dec_lt l mid) [
      | yes y ↦ a.gone l e h y (sym (b.stays l (inl y)) ∙ g) st
      | no n ↦ b.gone l e (omega arith) h' g st
    ];
    stays = λ l out. b.stays l (omega arith) ∙ a.stays l (omega arith);
  }

unmap_loop-Cleared :
    (rounds lpa : ℕ) (p : PageFtl)
    → IsFtl p
    → lpa + rounds ≤ p.np.nr_subpages_per_ssd
    → Returns (λ q. Cleared p q lpa (lpa + rounds)) (unmap_loop lpa rounds p)
unfolding unmap_loop
unmap_loop-Cleared zero lpa p ok le = record {
  keeps = ok;
  keeps_np = refl;
  gone = λ l e lo hi g st. omega arith;
  stays = λ l out. refl;
}
unmap_loop-Cleared (suc rounds) lpa p ok le =
    let size = ok.table.table_size ∙ ap (λ (x : DeviceParams). x.nr_subpages_per_ssd) ok.same_np in
    let (me, at) = get_elem?_of_lt p.ptr_mapping_table lpa (omega arith) in
    Returns-bind _ (λ q. Cleared p q lpa (lpa + suc rounds)) (unmap_entry lpa p) _
      (unmap_entry-Cleared p ok lpa me at)
      λ q e c.
        let e2 : suc lpa + rounds ≡ lpa + suc rounds = omega arith in
        Returns-mono _ (λ r. Cleared p r lpa (lpa + suc rounds)) (unmap_loop (suc lpa) rounds q)
          (λ r e' d.
            Cleared-trans p q r lpa (suc lpa) (lpa + suc rounds) c
              (subst (Cleared q r (suc lpa)) e2 d) (omega arith) (omega arith))
          (unmap_loop-Cleared rounds (suc lpa) q c.keeps (rw c.keeps_np (omega arith)))

-- What a reader sees for an address without data
abbrev pub nothing_there : Option (PhyAddr × ℕ) × ℕ
nothing_there =
    (some (record { punit_id = 0; channel_no = 0; chip_no = 0; block_no = 0; page_no = 0 }, 0), 1)

get_ppa_gone :
    (p : PageFtl) (l : ℕ)
    → IsFtl p
    → l < p.np.nr_subpages_per_ssd
    → ((e : MappingEntry) → get_elem? p.ptr_mapping_table l ≡ some e → e.status ≢ valid)
    → get_ppa l p ≡ some nothing_there
unfolding get_ppa
get_ppa_gone p l ok lt gone =
    let size = ok.table.table_size ∙ ap (λ (x : DeviceParams). x.nr_subpages_per_ssd) ok.same_np in
    let (me, at) = get_elem?_of_lt p.ptr_mapping_table l (omega arith) in
    let ne = gone me at in
    elim (Bool-cases (is_valid me.status)) [
      | inl v ↦ absurd (ne (ground arith))
      | inr n ↦ ground (arith, at, n, lt)
    ]

get_ppa_same :
    (p q : PageFtl) (l : ℕ)
    → q.np ≡ p.np
    → get_elem? q.ptr_mapping_table l ≡ get_elem? p.ptr_mapping_table l
    → get_ppa l q ≡ get_ppa l p
unfolding get_ppa
get_ppa_same p q l e same = rw (e, same) refl

-- What the readers see after the addresses from `lo` up to `hi` are released
pub record Unmaps (p : PageFtl) (lo hi : ℕ) (r : PageFtl × ℕ) : Type 0 where
  pub succeeds : r.1 ≡ 0
  pub unmaps_keeps : IsFtl r.0
  pub unmaps_np : r.0.np ≡ p.np
  pub unmapped_reads : (l : ℕ) → lo ≤ l → l < hi → get_ppa l r.0 ≡ some nothing_there
  pub other_reads : (l : ℕ) → (l < lo) ⊎ (hi ≤ l) → get_ppa l r.0 ≡ get_ppa l p

-- h4h_page_ftl_invalidate_lpa on a state that satisfies the invariant, for a range of addresses inside
-- the logical space: the call runs through without a bug check, returns 0 and keeps the invariant;
-- afterwards h4h_page_ftl_get_ppa finds no data at any address of the range, and the same as before at
-- every other address.
pub invalidate_lpa-Unmaps :
    (lpa len : ℕ) (p : PageFtl)
    → IsFtl p
    → lpa + len ≤ p.np.nr_subpages_per_ssd
    → Returns (Unmaps p lpa (lpa + len)) (invalidate_lpa lpa len p)
unfolding invalidate_lpa
invalidate_lpa-Unmaps lpa len p ok le =
    let small : p.np.nr_subpages_per_ssd < 2 ^ 64 =
      subst (λ (x : DeviceParams). x.nr_subpages_per_ssd < 2 ^ 64) ok.same_np
        ok.abm.geometry.ssd_small in
    let exact = mod-eq_of_lt {n = lpa + len} {m = 2 ^ 64} (omega arith) in
    let fits : ltb p.np.nr_subpages_per_ssd (lpa + len) ≡ false = ground arith in
    let len_eq : lpa + len - lpa ≡ len = omega arith in
    rw (exact, fits, len_eq)
      (Returns-bind _ (Unmaps p lpa (lpa + len)) (unmap_loop lpa len p) _
        (unmap_loop-Cleared len lpa p ok le)
        λ q e c. record {
          succeeds = refl;
          unmaps_keeps = c.keeps;
          unmaps_np = c.keeps_np;
          unmapped_reads = λ l lo hi.
              get_ppa_gone q l c.keeps (rw c.keeps_np (omega arith)) (λ e g. c.gone l e lo hi g);
          other_reads = λ l out. get_ppa_same p q l c.keeps_np (c.stays l out);
        })
