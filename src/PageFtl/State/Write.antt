-- ===== src/PageFtl/State/Write.antt =====
-- h4h_page_ftl_map_lpa_to_ppa of ftl/algo/page_ftl.c on a page that nothing maps to yet.
use h4h.Base.{
  ℕ, zero, suc, ◌+◌, ◌<◌, ◌≤◌, ◌≡◌, ◌≢◌, inl, inr, refl, sym, ap, subst, ◌∙◌, ◌^◌, ◌%◌, Bool-cases,
  List, some, arith, get_elem?, set, length, get_elem?_of_lt, get_elem?-set, Returns, Returns-mono,
  Returns-bind, ◌==◌, leb, if◌then◌else◌,
}
use native.Mathlib.Nat.{mod-eq_of_lt}
use h4h.Params.{DeviceParams}
use h4h.Abm.{Abm}
use h4h.Abm.Ops.{invalidate_page}
use h4h.PageFtl.{PhyAddr, valid, is_valid, invalid_addr, MappingEntry, PageFtl}
use h4h.PageFtl.Ops.{invalidate_entry, mapped_to, map_subpage, map_loop, map_lpa_to_ppa}
use h4h.PageFtl.State.{
  IsLive, block_of, offset_of, IsPlace, IsMapped-at, SamePlace, IsFtl, invalidate_live,
}
use h4h.PageFtl.State.Maps.{Unmapped, Released, release, set-IsTable}

-- The subpages of a page from the `k`-th on: each is live and no entry maps to it.
abbrev pub IsFresh : DeviceParams → Abm → List MappingEntry → PhyAddr → ℕ → Type 0
IsFresh np bai table a k =
    (j : ℕ)
    → k ≤ j
    → j < np.nr_subpages_per_page
    → IsPlace np a j × Unmapped np table a j × IsLive bai (block_of np a) (offset_of np a j)

-- What one round, and the loop, keep
pub record Kept (p q : PageFtl) (a : PhyAddr) (k : ℕ) : Type 0 where
  pub keeps : IsFtl q
  pub keeps_np : q.np ≡ p.np
  pub rest_fresh : IsFresh p.bai.np q.bai q.ptr_mapping_table a k
  pub keeps_bai_np : q.bai.np ≡ p.bai.np

module _ (p : PageFtl) (ok : IsFtl p) (a : PhyAddr) (k : ℕ)
    (fresh : IsFresh p.bai.np p.bai p.ptr_mapping_table a k)
    (kn : k < p.bai.np.nr_subpages_per_page) (k8 : k % 2 ^ 8 ≡ k) where
  -- A subpage without data dies; the table is as it was.
  blank_round :
      Returns
        (λ bai. Kept p (record p { bai = bai }) a (suc k))
        (invalidate_page a.channel_no a.chip_no a.block_no a.page_no k p.bai)
  blank_round =
      let (pl, un, live) = fresh k (omega arith) kn in
      Returns-mono _ (λ bai. Kept p (record p { bai = bai }) a (suc k)) _
        (λ bai e kills. record {
          keeps = record {
            abm = kills.still_valid;
            same_np = kills.kills_np ∙ ok.same_np;
            none_prepared = kills.kills_prepared ∙ ok.none_prepared;
            punits_eq = ok.punits_eq;
            puid_in = ok.puid_in;
            page_in = ok.page_in;
            active = λ c h hc hh. kills.still_active p.ac_bab c h _ (ok.active c h hc hh);
            table = record {
              table_size =
                  ok.table.table_size
                  ∙ ap (λ (x : DeviceParams). x.nr_subpages_per_ssd) (sym kills.kills_np);
              mapped = λ l f g st.
                  let old = ok.table.mapped l f g st in
                  IsMapped-at bai p.bai.np f kills.kills_np old.place
                    (kills.still_live _ _ (λ sb so. un l f g st (sym sb) (sym so)) old.live);
              separate =
                  subst
                    (λ (np : DeviceParams).
                      (l m : ℕ) (x y : MappingEntry)
                      → get_elem? p.ptr_mapping_table l ≡ some x
                      → get_elem? p.ptr_mapping_table m ≡ some y
                      → x.status ≡ valid
                      → y.status ≡ valid
                      → SamePlace np x y
                      → l ≡ m)
                    (sym kills.kills_np) ok.table.separate;
            };
          };
          keeps_np = refl;
          rest_fresh = λ j lo hi.
              let (pl', un', live') = fresh j (omega arith) hi in
              (pl', un', kills.still_live _ _ (λ sb so. omega arith) live');
          keeps_bai_np = kills.kills_np;
        })
        (invalidate_live p.bai ok.abm a k pl live)

  -- A logical address gives up its old subpage and takes the new one.
  store_round :
      (lpa : ℕ) (me : MappingEntry) (bai : Abm)
      → get_elem? p.ptr_mapping_table lpa ≡ some me
      → Released p.bai bai p.ptr_mapping_table lpa
      → Kept p
          (record p {
            bai = bai;
            ptr_mapping_table = set p.ptr_mapping_table lpa (mapped_to a k me);
          })
          a
          (suc k)
  store_round lpa me bai at r =
      let (pl, un, live) = fresh k (omega arith) kn in
      record {
        keeps = record {
          abm = r.released_valid;
          same_np = r.released_np ∙ ok.same_np;
          none_prepared = r.released_prepared ∙ ok.none_prepared;
          punits_eq = ok.punits_eq;
          puid_in = ok.puid_in;
          page_in = ok.page_in;
          active = r.active_stays p.np p.ac_bab ok.active;
          table =
              set-IsTable p.bai bai p.ptr_mapping_table ok.table lpa r (mapped_to a k me)
                (λ st.
                  IsMapped-at bai p.bai.np (mapped_to a k me) r.released_np
                    (rw k8 (record { addr = pl.addr; page_in = pl.page_in; sub_in = pl.sub_in }))
                    (rw k8 (r.fresh_live a k un live)))
                (λ l e g st st' same.
                  un l e g st (sym same.same_block) (sym same.same_offset ∙ rw k8 refl));
        };
        keeps_np = refl;
        rest_fresh = λ j lo hi.
            let (pl', un', live') = fresh j (omega arith) hi in
            (
              pl',
              (λ l e g st sb. elim (get_elem?-set p.ptr_mapping_table lpa l (mapped_to a k me) g) [
                | inl (pe, qe) ↦
                    subst
                      (λ (x : MappingEntry).
                        offset_of p.bai.np x.phyaddr x.sp_off ≢ offset_of p.bai.np a j)
                      (sym qe) (rw k8 (λ e'. omega arith))
                | inr (pe, qe) ↦ un' l e qe st sb
              ]),
              r.fresh_live a j un' live',
            );
        keeps_bai_np = r.released_np;
      }

  -- One round on a fresh page keeps the invariant and leaves the later subpages fresh.
  map_subpage-Kept :
      (lpa : ℕ) → Returns (λ (r : PageFtl × ℕ). Kept p r.0 a (suc k)) (map_subpage a k lpa p)
  unfolding map_subpage
  map_subpage-Kept lpa = elim (Bool-cases (lpa == invalid_addr)) [
    | inl blank ↦ rw blank (
        Returns-bind _ (λ (r : PageFtl × ℕ). Kept p r.0 a (suc k))
          (invalidate_page a.channel_no a.chip_no a.block_no a.page_no k p.bai) _ blank_round
          λ bai e s. s)
    | inr filled ↦ elim (Bool-cases (leb p.np.nr_subpages_per_ssd lpa)) [
      | inl beyond ↦
          rw (filled, beyond)
            (record {
              keeps = ok;
              keeps_np = refl;
              rest_fresh = λ j lo hi. fresh j (omega arith) hi;
              keeps_bai_np = refl;
            })
      | inr inside ↦
          let size =
            ok.table.table_size ∙ ap (λ (x : DeviceParams). x.nr_subpages_per_ssd) ok.same_np in
          let (me, at) = get_elem?_of_lt p.ptr_mapping_table lpa (ground arith) in
          rw (filled, inside, at)
            (Returns-bind _ (λ (r : PageFtl × ℕ). Kept p r.0 a (suc k))
              (if is_valid me.status then invalidate_entry me p.bai else some p.bai) _
              (release p.bai ok.abm p.ptr_mapping_table ok.table lpa me at)
              λ bai e r. store_round lpa me bai at r)
    ]
  ]

-- The loop over the subpages of one page
map_loop-Kept :
    (lpas : List ℕ) (a : PhyAddr) (rounds k : ℕ) (p : PageFtl)
    → IsFtl p
    → IsFresh p.bai.np p.bai p.ptr_mapping_table a k
    → k + rounds ≡ p.bai.np.nr_subpages_per_page
    → k + rounds ≤ length lpas
    → k + rounds ≤ 2 ^ 8
    → Returns (λ (r : PageFtl × ℕ). IsFtl r.0) (map_loop a lpas k rounds p)
unfolding map_loop
map_loop-Kept lpas a zero k p ok fresh e l small = ok
map_loop-Kept lpas a (suc rounds) k p ok fresh e l small =
    let (lpa, at) = get_elem?_of_lt lpas k (omega arith) in
    let k8 = mod-eq_of_lt {n = k} {m = 2 ^ 8} (omega arith) in
    rw at (
      Returns-bind (λ (r : PageFtl × ℕ). Kept p r.0 a (suc k)) (λ (r : PageFtl × ℕ). IsFtl r.0)
        (map_subpage a k lpa p) _ (map_subpage-Kept p ok a k fresh (omega arith) k8 lpa)
        λ r eq s. elim (Bool-cases (r.1 == 0)) [
          | inl go ↦ rw go (
              map_loop-Kept lpas a rounds (suc k) r.0 s.keeps
                (subst (λ (x : DeviceParams). IsFresh x r.0.bai r.0.ptr_mapping_table a (suc k))
                  (sym s.keeps_bai_np) s.rest_fresh)
                (omega arith
                  ∙ e
                  ∙ ap (λ (x : DeviceParams). x.nr_subpages_per_page) (sym s.keeps_bai_np))
                (omega arith) (omega arith))
          | inr stop ↦ rw stop s.keeps
        ])

-- h4h_page_ftl_map_lpa_to_ppa on a state that satisfies the invariant and on a fresh page (each of
-- its subpages is live and mapped by no entry), with an array that has an entry for each subpage of a
-- page, of which there are at most 256: whatever addresses the array holds (none, one beyond the
-- logical space, one twice), the call runs through without a bug check and keeps the invariant.
pub map_lpa_to_ppa-IsFtl :
    (lpas : List ℕ) (a : PhyAddr) (p : PageFtl)
    → IsFtl p
    → IsFresh p.np p.bai p.ptr_mapping_table a 0
    → p.np.nr_subpages_per_page ≤ length lpas
    → p.np.nr_subpages_per_page ≤ 2 ^ 8
    → Returns (λ (r : PageFtl × ℕ). IsFtl r.0) (map_lpa_to_ppa lpas a p)
unfolding map_lpa_to_ppa
map_lpa_to_ppa-IsFtl lpas a p ok fresh l small =
    map_loop-Kept lpas a p.np.nr_subpages_per_page 0 p ok
      (subst (λ (x : DeviceParams). IsFresh x p.bai p.ptr_mapping_table a 0) (sym ok.same_np) fresh)
      (omega arith ∙ ap (λ (x : DeviceParams). x.nr_subpages_per_page) (sym ok.same_np))
      (omega arith) (omega arith)
