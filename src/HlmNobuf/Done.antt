-- ===== src/HlmNobuf/Done.antt =====
-- How ftl/hlm_nobuf.c counts the low-level requests that are done.
use native.Mathlib.Decide.{ℕ_discrete}
use h4h.Base.{
  ℕ, ◌+◌, ◌^◌, ◌<◌, ◌≤◌, ◌≡◌, refl, sym, subst, ap, ◌∙◌, true, false, List, [], ◌∷◌, Option, some,
  get_elem?, set, get_elem?_of_lt, get_elem?-set_self, get_elem?-set_ne, length, length-set, ◌==◌,
  arith, Returns, Returns-bind, Returns-mono, ◌>>=◌, inc64, All, count,
}
use h4h.Request.{LlmReq, HlmReq}
use h4h.HlmNobuf.{end_blkio_req}

module _ {S : Type 0} (end_req : HlmReq → S → S) where
  -- Low-level requests of one request are done in the order of the list.
  abbrev pub end_blkio_reqs : List ℕ → HlmReq → S → Option (HlmReq × S)
  end_blkio_reqs [] hr s = some (hr, s)
  end_blkio_reqs (i ∷ rest) hr s = end_blkio_req end_req i hr s >>= λ r. end_blkio_reqs rest r.0 r.1

  pub record IsDone (hr : HlmReq) (i : ℕ) : Type 0 where
    pub lr : LlmReq
    pub there : get_elem? hr.llm_reqs i ≡ some lr
    pub marked : lr.is_done ≡ true

  -- What is left when the `k` low-level requests of the list `done` are done
  pub record Finished (hr : HlmReq) (s : S) (done : List ℕ) (k : ℕ) (r : HlmReq × S) : Type 0 where
    pub counted : r.0.nr_llm_reqs_done ≡ hr.nr_llm_reqs_done + k
    pub same_number : r.0.nr_llm_reqs ≡ hr.nr_llm_reqs
    pub same_length : length r.0.llm_reqs ≡ length hr.llm_reqs
    pub host_kept : r.0.blkio_req ≡ hr.blkio_req
    pub marked : (i : ℕ) → 0 < count i done → IsDone r.0 i
    pub stay_marked : (i : ℕ) → IsDone hr i → IsDone r.0 i
    pub not_before : hr.nr_llm_reqs_done + k < hr.nr_llm_reqs → r.1 ≡ s
    pub told_once : hr.nr_llm_reqs_done + k ≡ hr.nr_llm_reqs → 0 < k → r.1 ≡ end_req r.0 s

  end_blkio_req-Finished :
      (i : ℕ) (hr : HlmReq) (s : S)
      → i < length hr.llm_reqs
      → hr.nr_llm_reqs_done < hr.nr_llm_reqs
      → hr.nr_llm_reqs < 2 ^ 63
      → Returns (Finished hr s (i ∷ []) 1) (end_blkio_req end_req i hr s)
  unfolding end_blkio_req
  end_blkio_req-Finished i hr s inside left small =
      let (lr, at) = get_elem?_of_lt hr.llm_reqs i inside in
      let next : inc64 hr.nr_llm_reqs_done ≡ hr.nr_llm_reqs_done + 1 = omega arith in
      rw (at, next)
        (record {
          counted = refl;
          same_number = refl;
          same_length = length-set hr.llm_reqs i _;
          host_kept = refl;
          marked = λ j h. let same : i ≡ j = ground arith in rw (← same) (fresh lr);
          stay_marked = λ j d. elim (ℕ_discrete i j) [
            | yes same ↦ rw (← same) (fresh lr)
            | no ne ↦ record {
              lr = d.lr;
              there = get_elem?-set_ne hr.llm_reqs i j _ ne ∙ d.there;
              marked = d.marked;
            }
          ];
          not_before = λ h.
              let differ : (hr.nr_llm_reqs_done + 1 == hr.nr_llm_reqs) ≡ false = ground arith in
              rw differ refl;
          told_once = λ h _.
              let equal : (hr.nr_llm_reqs_done + 1 == hr.nr_llm_reqs) ≡ true = ground arith in
              rw equal refl;
        })
    where
      fresh :
          (lr : LlmReq)
          → IsDone
              (record hr {
                nr_llm_reqs_done = hr.nr_llm_reqs_done + 1;
                llm_reqs = set hr.llm_reqs i (record lr { is_done = true });
              })
              i
      fresh lr = record {
        lr = record lr { is_done = true };
        there = get_elem?-set_self hr.llm_reqs i _ inside;
        marked = refl;
      }

  both :
      (i j : ℕ) (rest : List ℕ) (hr : HlmReq) (s : S) (r q : HlmReq × S)
      → Finished hr s (i ∷ []) 1 r
      → Finished r.0 r.1 (j ∷ rest) (length (j ∷ rest)) q
      → hr.nr_llm_reqs_done + length (i ∷ j ∷ rest) ≤ hr.nr_llm_reqs
      → Finished hr s (i ∷ j ∷ rest) (length (i ∷ j ∷ rest)) q
  both i j rest hr s r q f g fits = record {
    counted = omega (arith, f.counted, g.counted);
    same_number = g.same_number ∙ f.same_number;
    same_length = g.same_length ∙ f.same_length;
    host_kept = g.host_kept ∙ f.host_kept;
    marked = λ k h. elim (ℕ_discrete i k) [
      | yes same ↦ g.stay_marked k (f.marked k (ground arith))
      | no ne ↦ g.marked k (ground arith)
    ];
    stay_marked = λ k d. g.stay_marked k (f.stay_marked k d);
    not_before =
        λ h. g.not_before (omega (arith, f.counted, f.same_number)) ∙ f.not_before (omega arith);
    told_once = λ h _.
        g.told_once (omega (arith, f.counted, f.same_number)) (omega arith)
        ∙ ap (end_req q.0) (f.not_before (omega arith));
  }

  -- __hlm_nobuf_end_blkio_req for any sequence of low-level requests of one request of the host, no more than are
  -- still to be done, of which there are fewer than 2^63: it runs through, counts them, and marks each of
  -- them and keeps the marks there were. The host hears nothing before the last one is done, and with the
  -- last one it is told once, by end_req of the request with all of them counted and marked.
  pub end_blkio_reqs-Finished :
      (done : List ℕ) (hr : HlmReq) (s : S)
      → All (λ i. i < length hr.llm_reqs) done
      → hr.nr_llm_reqs_done + length done ≤ hr.nr_llm_reqs
      → hr.nr_llm_reqs < 2 ^ 63
      → Returns (Finished hr s done (length done)) (end_blkio_reqs done hr s)
  end_blkio_reqs-Finished [] hr s inside fits small = record {
    counted = omega arith;
    same_number = refl;
    same_length = refl;
    host_kept = refl;
    marked = λ i h. absurd (ground arith);
    stay_marked = λ i d. d;
    not_before = λ h. refl;
    told_once = λ h pos. absurd (omega arith);
  }
  end_blkio_reqs-Finished (i ∷ []) hr s inside fits small =
      Returns-bind (Finished hr s (i ∷ []) 1) _ (end_blkio_req end_req i hr s) _
        (end_blkio_req-Finished i hr s inside.0 (omega arith) small) λ r _ f. f
  end_blkio_reqs-Finished (i ∷ j ∷ rest) hr s inside fits small =
      Returns-bind (Finished hr s (i ∷ []) 1) _ (end_blkio_req end_req i hr s) _
        (end_blkio_req-Finished i hr s inside.0 (omega arith) small)
        λ r _ f.
          Returns-mono _ _ (end_blkio_reqs (j ∷ rest) r.0 r.1)
            (λ q _ g. both i j rest hr s r q f g (omega arith))
            (end_blkio_reqs-Finished (j ∷ rest) r.0 r.1
              (subst (λ n. All (λ x. x < n) (j ∷ rest)) (sym f.same_length) inside.1)
              (omega (arith, f.counted, f.same_number)) (rw f.same_number small))
