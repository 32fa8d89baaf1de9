-- ===== src/ReqsPool/Compact/Copy.antt =====
-- The copying loops of hlm_reqs_pool_write_compaction in ftl/hlm_reqs_pool.c.
use native.Mathlib.Nat.{suc-mul}
use native.Mathlib.Decide.{ℕ_discrete}
use h4h.Base.{
  ℕ, zero, suc, ◌+◌, ◌*◌, ◌<◌, ◌≤◌, ◌≡◌, ◌≢◌, ◌⊎◌, refl, sym, ap, subst, ◌∙◌, inl, inr, Bool-cases,
  List, [], ◌∷◌, ◌++◌, Option, none, some, arith, get_elem?, get_elem?_of_lt, get_elem?-append_new,
  get_elem?-append_ne, set, length, length-set, length-append, Every, Every-set, Returns,
  Returns-bind, some-inj, ◌==◌, ◌>>=◌,
}
use h4h.Base.Grid.{unit_inj, row-lt}
use mathlib.Core.List.{append-nil, append_assoc}
use h4h.Request.{
  KernelPage, KpStt, kp_stt_data, kp_stt_hole, kp_stt_done, kp_stt_hole_done, kp_stt_data_done,
  LlmReq,
}
use h4h.ReqsPool.Compact.{Target, copy_data, advance, copy_kp, copy_kps, copy_reqs}
use h4h.ReqsPool.Compact.Slots.{
  look, Kept, kept_kp, kept_at, kept_kps, kept_all, HasSlots, write_slot, look-set_ne,
  look-set_self, write_slot-HasSlots,
}

-- Entry `k` of request `l` holds the data `x`.
pub record Filled (lrs : List LlmReq) (l k : ℕ) (x : Kept) : Type 0 where
  pub pad : Option ℕ
  pub there :
      look lrs l k
      ≡ some (record { kp_stt = kp_stt_data; kp_ptr = x.ptr; kp_pad = pad }, x.lpa, x.oob)

-- It is a hole, with whatever pad it has.
pub record Blank (lrs : List LlmReq) (l k : ℕ) : Type 0 where
  pub pad : Option ℕ
  pub lpa : Option ℕ
  pub oob : Option ℕ
  pub there :
      look lrs l k ≡ some (record { kp_stt = kp_stt_hole; kp_ptr = pad; kp_pad = pad }, lpa, oob)

-- The first entries of `n` requests hold the list `done`, in order; the others are holes.
pub record Packed (n subpages : ℕ) (done : List Kept) (lrs : List LlmReq) : Type 0 where
  pub sized : length lrs ≡ n
  pub each : Every (λ _. HasSlots subpages) lrs
  pub filled :
      (l k : ℕ) (x : Kept)
      → k < subpages
      → get_elem? done (l * subpages + k) ≡ some x
      → Filled lrs l k x
  pub blank : (l k : ℕ) → l < n → k < subpages → length done ≤ l * subpages + k → Blank lrs l k

-- The loop variables stand at the next entry.
pub record Copied (n subpages : ℕ) (done : List Kept) (c : Target) : Type 0 where
  pub packed : Packed n subpages done c.reqs
  pub next : c.dst_loop * subpages + c.dst_kp ≡ length done
  pub in_req : c.dst_kp < subpages
  pub counted : c.nr_llm_reqs ≡ suc c.dst_loop

length-kept_at : (src : LlmReq) (k : ℕ) → length (kept_at src k) ≤ 1
length-kept_at src k =
    elim (get_elem? src.fmain k)
      as (λ o. length (elim o as (λ _. List Kept) [ none ↦ [] | some kp ↦ kept_kp src k kp ]) ≤ 1) [
        | none ↦ omega arith
        | some kp ↦ one_kp kp kp.kp_stt refl
      ]
  where
    one_kp : (kp : KernelPage) (stt : KpStt) → kp.kp_stt ≡ stt → length (kept_kp src k kp) ≤ 1
    one_kp kp kp_stt_data s = rw s (omega arith)
    one_kp kp kp_stt_hole s = rw s (omega arith)
    one_kp kp kp_stt_done s = rw s (omega arith)
    one_kp kp kp_stt_hole_done s = rw s (omega arith)
    one_kp kp kp_stt_data_done s = rw s (omega arith)

length-kept_kps : (src : LlmReq) (m k : ℕ) → length (kept_kps src m k) ≤ m
unfolding kept_kps
length-kept_kps src zero k = omega arith
length-kept_kps src (suc m) k = omega (
  arith,
  length-append (kept_at src k) (kept_kps src m (suc k)),
  length-kept_at src k,
  length-kept_kps src m (suc k),
)

module _ (n subpages : ℕ) where
  write-Packed :
      (done : List Kept) (lrs : List LlmReq) (l k : ℕ) (lr : LlmReq) (kp : KernelPage) (lpa oob : ℕ)
      → Packed n subpages done lrs
      → l * subpages + k ≡ length done
      → k < subpages
      → get_elem? lrs l ≡ some lr
      → kp.kp_stt ≡ kp_stt_data
      → Packed n subpages
          (done ++ (record { ptr = kp.kp_ptr; lpa = some lpa; oob = some oob } ∷ []))
          (set lrs l (write_slot lr k kp lpa oob))
  write-Packed done lrs l k lr kp lpa oob p next in_req there is_data =
      let x : Kept = record { ptr = kp.kp_ptr; lpa = some lpa; oob = some oob } in
      let new = write_slot lr k kp lpa oob in
      let old_slot = λ (l' k' : ℕ) (h : k' < subpages) (ne : l' * subpages + k' ≢ length done).
        look-set_ne lrs l lr k kp lpa oob there l' k' (apart l k l' k' done next ne) in
      record {
        sized = length-set lrs l new ∙ p.sized;
        each =
            Every-set (λ _. HasSlots subpages) lrs l new p.each
              (write_slot-HasSlots lrs l lr k kp lpa oob there subpages (p.each l lr there));
        filled = λ l' k' y h e. elim (ℕ_discrete (l' * subpages + k') (length done)) [
          | yes same ↦
              let this : x ≡ y = some-inj (sym (get_elem?-append_new done x) ∙ rw same at e) in
              let (row, column) = unit_inj subpages l k l' k' in_req h (next ∙ sym same) in
              subst (λ r. Filled (set lrs l new) r k' y) row
                (subst (λ c. Filled (set lrs l new) l c y) column
                  (subst (Filled (set lrs l new) l k) this (record {
                    pad = kp.kp_pad;
                    there =
                        look-set_self lrs l lr k kp lpa oob there subpages in_req
                          (p.each l lr there)
                        ∙ ap (λ s. some (record kp { kp_stt = s }, some lpa, some oob)) is_data;
                  })))
          | no ne ↦
              let f =
                p.filled l' k' y h (sym (get_elem?-append_ne done x (l' * subpages + k') ne) ∙ e) in
              record { pad = f.pad; there = old_slot l' k' h ne ∙ f.there }
        ];
        blank = λ l' k' hl h e.
            let longer = length-append done (x ∷ []) in
            let b = p.blank l' k' hl h (omega (arith, longer)) in
            record {
              pad = b.pad;
              lpa = b.lpa;
              oob = b.oob;
              there = old_slot l' k' h (λ q. omega (arith, longer)) ∙ b.there;
            };
      }
    where
      apart :
          (l k l' k' : ℕ) (done : List Kept)
          → l * subpages + k ≡ length done
          → l' * subpages + k' ≢ length done
          → (l ≢ l') ⊎ (k ≢ k')
      apart l k l' k' done next ne = elim (ℕ_discrete l l') [
        | no other ↦ inl other
        | yes same ↦ inr (λ q. ne (rw (← same, ← q) next))
      ]

  advance-Copied :
      (done : List Kept) (x : Kept) (lrs : List LlmReq) (l k nr : ℕ)
      → Packed n subpages (done ++ (x ∷ [])) lrs
      → l * subpages + k ≡ length done
      → k < subpages
      → nr ≡ suc l
      → Copied n subpages
          (done ++ (x ∷ []))
          (advance subpages (record { reqs = lrs; dst_loop = l; dst_kp = k; nr_llm_reqs = nr }))
  advance-Copied done x lrs l k nr p next in_req counted =
      let longer = length-append done (x ∷ []) in
      elim (Bool-cases (suc k == subpages)) [
        | inl full ↦
            let whole : suc k ≡ subpages = ground arith in
            rw full (record {
              packed = p;
              next = omega (arith, longer, suc-mul l subpages, next, whole);
              in_req = omega arith;
              counted = ap suc counted;
            })
        | inr room ↦ rw room (record {
          packed = p;
          next = omega (arith, longer, next);
          in_req = ground arith;
          counted = counted;
        })
      ]

  module _ (src : LlmReq) (has : HasSlots subpages src) where
    copy_data-Copied :
        (kp : KernelPage) (src_kp : ℕ) (done : List Kept) (c : Target)
        → src_kp < subpages
        → length done < n * subpages
        → kp.kp_stt ≡ kp_stt_data
        → Copied n subpages done c
        → Returns
            (Copied n subpages (
              done
              ++ (record {
                ptr = kp.kp_ptr;
                lpa = get_elem? src.logaddr.lpa src_kp;
                oob = get_elem? src.foob src_kp;
              }
                  ∷ [])))
            (copy_data src src_kp kp c >>= λ d. some (advance subpages d))
    unfolding copy_data
    copy_data-Copied kp src_kp done c h room is_data p =
        let inside : c.dst_loop < length c.reqs =
          rw p.packed.sized (row-lt subpages n c.dst_loop c.dst_kp (omega (arith, p.next))) in
        let (dst, there) = get_elem?_of_lt c.reqs c.dst_loop inside in
        let has_dst = p.packed.each c.dst_loop dst there in
        let in_fm : c.dst_kp < length dst.fmain = omega (arith, has_dst.pages, p.in_req) in
        let (old, e) = get_elem?_of_lt dst.fmain c.dst_kp in_fm in
        let in_lpas : c.dst_kp < length dst.logaddr.lpa = omega (arith, has_dst.lpas, p.in_req) in
        let (lpa', e1) = get_elem?_of_lt dst.logaddr.lpa c.dst_kp in_lpas in
        let in_oobs : c.dst_kp < length dst.foob = omega (arith, has_dst.oobs, p.in_req) in
        let (oob', e2) = get_elem?_of_lt dst.foob c.dst_kp in_oobs in
        let from_lpas : src_kp < length src.logaddr.lpa = omega (arith, has.lpas) in
        let (lpa, e3) = get_elem?_of_lt src.logaddr.lpa src_kp from_lpas in
        let from_oobs : src_kp < length src.foob = omega (arith, has.oobs) in
        let (oob, e4) = get_elem?_of_lt src.foob src_kp from_oobs in
        let new = record old { kp_stt = kp.kp_stt; kp_ptr = kp.kp_ptr } in
        let q =
          write-Packed done c.reqs c.dst_loop c.dst_kp dst new lpa oob p.packed p.next p.in_req
            there is_data in
        rw (there, e, e3, e1, e4, e2)
          (advance-Copied done _ _ c.dst_loop c.dst_kp c.nr_llm_reqs q p.next p.in_req p.counted)

    -- One kernel page of the source, where data fits the target
    copy_kp-Copied :
        (src_kp : ℕ) (done : List Kept) (c : Target)
        → src_kp < subpages
        → length done < n * subpages
        → Copied n subpages done c
        → Returns (Copied n subpages (done ++ kept_at src src_kp)) (copy_kp subpages src src_kp c)
    unfolding copy_kp copy_data
    copy_kp-Copied src_kp done c h room p =
        let (kp, e) = get_elem?_of_lt src.fmain src_kp (omega (arith, has.pages)) in
        let at_kp : kept_at src src_kp ≡ kept_kp src src_kp kp =
          ap (λ (o : Option KernelPage). elim o [ none ↦ [] | some x ↦ kept_kp src src_kp x ]) e in
        rw (at_kp, e) (go kp kp.kp_stt refl)
      where
        go :
            (kp : KernelPage) (stt : KpStt)
            → kp.kp_stt ≡ stt
            → Returns (Copied n subpages (done ++ kept_kp src src_kp kp)) (elim kp.kp_stt [
              | kp_stt_data ↦ copy_data src src_kp kp c >>= λ d. some (advance subpages d)
              | _ ↦ some c
            ])
        go kp kp_stt_data s = rw s (copy_data-Copied kp src_kp done c h room s p)
        go kp kp_stt_hole s = rw (s, append-nil) p
        go kp kp_stt_done s = rw (s, append-nil) p
        go kp kp_stt_hole_done s = rw (s, append-nil) p
        go kp kp_stt_data_done s = rw (s, append-nil) p

    -- The entries from `src_kp` on, with `m` to go
    copy_kps-Copied :
        (m src_kp : ℕ) (done : List Kept) (c : Target)
        → src_kp + m ≡ subpages
        → length done + m ≤ n * subpages
        → Copied n subpages done c
        → Returns
            (Copied n subpages (done ++ kept_kps src m src_kp))
            (copy_kps subpages src m src_kp c)
    unfolding copy_kps kept_kps
    copy_kps-Copied zero src_kp done c e room p = rw append-nil p
    copy_kps-Copied (suc m) src_kp done c e room p =
        Returns-bind (Copied n subpages (done ++ kept_at src src_kp)) _
          (copy_kp subpages src src_kp c) (copy_kps subpages src m (suc src_kp))
          (copy_kp-Copied src_kp done c (omega arith) (omega arith) p)
          λ d _ q. rw (← append_assoc done (kept_at src src_kp) (kept_kps src m (suc src_kp))) (
            copy_kps-Copied m (suc src_kp) (done ++ kept_at src src_kp) d (omega arith)
              (omega (arith, length-append done (kept_at src src_kp), length-kept_at src src_kp)) q)

  -- The requests of the source, with `m` to go
  pub copy_reqs-Copied :
      (m : ℕ) (src : List LlmReq) (done : List Kept) (c : Target)
      → length src ≡ m
      → Every (λ _. HasSlots subpages) src
      → length done + m * subpages ≤ n * subpages
      → Copied n subpages done c
      → Returns (Copied n subpages (done ++ kept_all subpages src)) (copy_reqs subpages m src c)
  unfolding copy_reqs kept_all
  copy_reqs-Copied zero [] done c e has room p = rw append-nil p
  copy_reqs-Copied zero (lr ∷ lrs) done c e has room p = absurd (omega arith)
  copy_reqs-Copied (suc m) [] done c e has room p = absurd (omega arith)
  copy_reqs-Copied (suc m) (lr ∷ lrs) done c e has room p =
      let kept = kept_kps lr subpages 0 in
      let more = suc-mul m subpages in
      Returns-bind (Copied n subpages (done ++ kept)) _ (copy_kps subpages lr subpages 0 c)
        (copy_reqs subpages m lrs)
        (copy_kps-Copied lr (has 0 lr refl) subpages 0 done c (omega arith) (omega (arith, more)) p)
        λ d _ q. rw (← append_assoc done kept (kept_all subpages lrs)) (
          copy_reqs-Copied m lrs (done ++ kept) d (omega arith) (λ k a e. has (suc k) a e)
            (omega (arith, more, length-append done kept, length-kept_kps lr subpages 0)) q)
