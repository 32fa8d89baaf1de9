-- ===== src/PageFtl/State/Advance.antt =====
-- The end of h4h_page_ftl_get_free_ppas of ftl/algo/page_ftl.c: a full block makes room for a new one.
use native.Mathlib.Nat.{mod-lt, mod-eq_of_lt}
use native.Mathlib.Decide.{ℕ_discrete}
use h4h.Base.Grid.{unit_inj}
use h4h.Base.{
  ℕ, ◌+◌, ◌*◌, ◌%◌, ◌<◌, ◌≡◌, ◌≢◌, ◌^◌, [], false, if◌then◌else◌, get_elem?-set, get_elem?-set_self,
  get_elem?-set_ne, refl, sym, ap, subst, ◌∙◌, Bool, true, inl, inr, Option, none, some, arith,
  get_elem?, set, length, get_elem?-lt, Returns, Returns-bind, add64,
}
use h4h.Abm.{Abm, Block, free, head_free}
use h4h.Abm.Ops.{update_block}
use h4h.PageFtl.{PageFtl, take_free_block, curr_channel, curr_chip, curr_index}
use h4h.PageFtl.Ops.{renew_active}
use h4h.PageFtl.Take.{Took, empty, took, take_free_block-Taking}
use h4h.PageFtl.State.{InUse, IsActive, ActiveAt, IsFtl}
use h4h.PageFtl.State.Fresh.{
  FreshAt, free-not-InUse, block_stays, Took-IsLive, Took-ActiveAt, Took-ActiveAt_new,
}
use h4h.PageFtl.State.Next.{small_punits, channel_in, chip_in, index_exact, kept_table}
use h4h.PageFtl.State.Reoffset.{reoffset-IsValid, reoffset-IsLive, reoffset-ActiveAt}

-- The active block of the current unit, with other pages given out
module _ (p : PageFtl) (ok : IsFtl p) where
  pub reoffset-IsFtl :
      (i : ℕ) (b : Block) (o : ℕ)
      → get_elem? p.bai.blocks i ≡ some b
      → IsFtl (record p { bai = update_block i (record b { offset = o }) p.bai })
  reoffset-IsFtl i b o at = record {
    abm = reoffset-IsValid p.bai ok.abm i b at o;
    same_np = ok.same_np;
    none_prepared = ok.none_prepared;
    punits_eq = ok.punits_eq;
    puid_in = ok.puid_in;
    page_in = ok.page_in;
    active =
        λ c h hc hh. reoffset-ActiveAt p.bai ok.abm i b at o p.ac_bab c h _ (ok.active c h hc hh);
    table =
        kept_table p ok (update_block i (record b { offset = o }) p.bai) refl
          (reoffset-IsLive p.bai ok.abm i b at o);
  }

  module _ (bai : Abm) (n : ℕ) (b : Block)
      (t : Took p.bai (curr_channel p) (curr_chip p) n b bai) where
    renewed_active : IsActive p.np bai (set p.ac_bab (curr_index p) (some n))
    renewed_active c h hc hh =
        elim (ℕ_discrete (c * p.np.nr_chips_per_channel + h) (curr_index p)) [
          | yes e ↦
              let (ec, eh) =
                unit_inj p.np.nr_chips_per_channel c h (curr_channel p) (curr_chip p) hh
                  (chip_in p ok) (e ∙ index_exact p ok) in
              let old = ok.active c h hc hh in
              let inside : curr_index p < length p.ac_bab =
                subst (λ x. x < length p.ac_bab) e (get_elem?-lt p.ac_bab _ old.pointer) in
              let new =
                Took-ActiveAt_new p.bai bai (curr_channel p) (curr_chip p) n b t p.ac_bab
                  (curr_index p) inside in
              subst (λ k. ActiveAt bai (set p.ac_bab (curr_index p) (some n)) c h k) (sym e)
                (subst (λ x. ActiveAt bai (set p.ac_bab (curr_index p) (some n)) x h (curr_index p))
                  (sym ec)
                  (subst
                    (λ x.
                      ActiveAt bai (set p.ac_bab (curr_index p) (some n)) (curr_channel p) x
                        (curr_index p))
                    (sym eh) new))
          | no ne ↦
              Took-ActiveAt p.bai bai (curr_channel p) (curr_chip p) n b t p.ac_bab (curr_index p) c
                h _ ne (ok.active c h hc hh)
        ]

    renewed-IsFtl : IsFtl (record p {
      bai = bai;
      ac_bab = set p.ac_bab (curr_index p) (some n);
      curr_puid = add64 p.curr_puid 1 % p.nr_punits;
    })
    renewed-IsFtl = record {
      abm = t.ends.0;
      same_np = t.ends.1.same_np ∙ ok.same_np;
      none_prepared = t.none_prepared;
      punits_eq = ok.punits_eq;
      puid_in = mod-lt (add64 p.curr_puid 1) (omega (arith, ok.puid_in));
      page_in = ok.page_in;
      active = renewed_active;
      table =
          kept_table p ok bai t.ends.1.same_np
            (Took-IsLive p.bai bai (curr_channel p) (curr_chip p) n b t);
    }

  -- What the turn to a new active block leaves
  pub data Moved (r : PageFtl × Bool) : Type 0 where
    no_block :
        r.1 ≡ false → p.bai.lists head_free (curr_channel p) (curr_chip p) ≡ [] → r.0 ≡ p → Moved r
    new_block :
        (n : ℕ) (b : Block) (bai : Abm)
        → r.1 ≡ true
        → Took p.bai (curr_channel p) (curr_chip p) n b bai
        → r.0 ≡ record p {
          bai = bai;
          ac_bab = set p.ac_bab (curr_index p) (some n);
          curr_puid = add64 p.curr_puid 1 % p.nr_punits;
        }
        → Moved r

  -- The state after the turn, whether or not a new block was found
  pub renew_active-Moved : Returns (λ (r : PageFtl × Bool). IsFtl r.0 × Moved r) (renew_active p)
  unfolding renew_active
  renew_active-Moved =
      Returns-bind _ (λ (r : PageFtl × Bool). IsFtl r.0 × Moved r)
        (take_free_block (curr_channel p) (curr_chip p) p.bai) _
        (take_free_block-Taking p.bai ok.abm (curr_channel p) (curr_chip p) ok.none_prepared)
        λ r eq t. elim t [
          | empty e same ↦
              rw (ap (λ (x : Abm × Option ℕ). x.1) same, ap (λ (x : Abm × Option ℕ). x.0) same)
                (ok, no_block refl e refl)
          | took n b is_n t' ↦ rw is_n (renewed-IsFtl r.0 n b t', new_block n b r.0 refl t' refl)
        ]

-- How a call ends that takes pages of block `i`, which was `b`, up to the offset `o`: there is room left
-- in it, or it is full and the unit gets a block that was free, or there is no free block on the chip.
pub data Advance (p : PageFtl) (channel chip i : ℕ) (b : Block) (o given : ℕ) (p' : PageFtl)
    (ret : Option ℕ) : Type 0 where
  has_room :
      o ≢ p.np.nr_pages_per_block
      → p'
        ≡ record p { bai = record p.bai { blocks = set p.bai.blocks i (record b { offset = o }) } }
      → ret ≡ some given
      → Advance p channel chip i b o given p' ret
  next_block :
      o ≡ p.np.nr_pages_per_block
      → FreshAt p.bai p'.bai p'.ac_bab channel chip (channel * p.np.nr_chips_per_channel + chip)
      → get_elem? p'.bai.blocks i ≡ some (record b { offset = o })
      → ((k : ℕ)
          → channel * p.np.nr_chips_per_channel + chip ≢ k
          → get_elem? p'.ac_bab k ≡ get_elem? p.ac_bab k)
      → p'.curr_puid ≡ (p.curr_puid + 1) % p.nr_punits
      → p'.ptr_mapping_table ≡ p.ptr_mapping_table
      → ret ≡ some given
      → Advance p channel chip i b o given p' ret
  no_block_left :
      o ≡ p.np.nr_pages_per_block
      → p.bai.lists head_free channel chip ≡ []
      → p'
        ≡ record p { bai = record p.bai { blocks = set p.bai.blocks i (record b { offset = o }) } }
      → ret ≡ none
      → Advance p channel chip i b o given p' ret

module _ (p : PageFtl) (ok : IsFtl p) (i : ℕ) (b : Block) (o given : ℕ)
    (at : get_elem? p.bai.blocks i ≡ some b) (used : InUse b.status)
    (full : o ≡ p.np.nr_pages_per_block) where
  -- The state with the offset of the block moved on
  abbrev advanced : PageFtl
  advanced = record p {
    bai = record p.bai { blocks = set p.bai.blocks i (record b { offset = o }) };
  }

  free_there :
      (n : ℕ) (c : Block)
      → get_elem? advanced.bai.blocks n ≡ some c
      → c.status ≡ free
      → get_elem? p.bai.blocks n ≡ some c
  free_there n c g is_free = elim (get_elem?-set p.bai.blocks i n _ g) [
    | inl (_, e) ↦
        let st : b.status ≡ free = ap (λ (x : Block). x.status) (sym e) ∙ is_free in
        absurd (free-not-InUse b.status st used)
    | inr (_, e) ↦ e
  ]

  pub Moved-Advance :
      (okq : IsFtl advanced) (r : PageFtl × Bool)
      → Moved advanced okq r
      → Advance p (curr_channel p) (curr_chip p) i b o given r.0 (if r.1 then some given else none)
  Moved-Advance okq r (no_block e none_free same) = rw e (no_block_left full none_free same refl)
  Moved-Advance okq r (new_block n c bai e t same) =
      let exact =
        mod-eq_of_lt {n = p.curr_puid + 1} {m = 2 ^ 64}
          (omega (arith, small_punits p ok, ok.puid_in)) in
      let a = ok.active (curr_channel p) (curr_chip p) (channel_in p ok) (chip_in p ok) in
      let inside : curr_index p < length p.ac_bab =
        rw (index_exact p ok) (get_elem?-lt p.ac_bab _ a.pointer) in
      rw (e, same)
        (next_block full
          (record {
            fresh_index = n;
            fresh_block = c;
            fresh_pointer =
                subst (λ x. get_elem? (set p.ac_bab (curr_index p) (some n)) x ≡ some (some n))
                  (index_exact p ok) (get_elem?-set_self p.ac_bab (curr_index p) (some n) inside);
            was_there = free_there n c t.was_there t.was_free;
            was_free = t.was_free;
            fresh_channel = t.at_channel;
            fresh_chip = t.at_chip;
            now_clean = rw t.ends.1.new_blocks (
                get_elem?-set_self advanced.bai.blocks n _
                  (get_elem?-lt advanced.bai.blocks n t.was_there));
          })
          (block_stays advanced.bai bai (curr_channel p) (curr_chip p) n c t i
            (record b { offset = o })
            (get_elem?-set_self p.bai.blocks i _ (get_elem?-lt p.bai.blocks i at)) used)
          (λ k ne.
            get_elem?-set_ne p.ac_bab (curr_index p) k (some n)
              (λ (q : curr_index p ≡ k). ne (sym (index_exact p ok) ∙ q)))
          (ap (λ x. x % p.nr_punits) exact) refl refl)
