-- ===== src/HlmNobuf/Collect.antt =====
-- How often ftl/hlm_nobuf.c collects garbage before a request.
use h4h.Base.{
  ℕ, zero, suc, ◌≤◌, ◌≡◌, ◌⊎◌, inl, inr, refl, Bool, Bool-cases, true, false, some, arith, Returns,
  Returns-bind, Returns-mono, ◌>>=◌,
}
use h4h.Request.{HlmReq}
use h4h.ReqsPool.Build.{is_plain_write}
use h4h.FtlInf.{FtlInf}
use h4h.HlmNobuf.{mapping_policy_page, page_gc_loop, check_ondemand_gc}

module _ {F : Type 0} (ftl : FtlInf F) (needed : ℕ → F → Bool) where
  -- From `f`, `k` collections in a row lead to `g`, each of which was needed.
  pub data Collects : ℕ → F → F → Type 0 where
    at_rest : (f : F) → Collects 0 f f
    collect :
        (k : ℕ) (f g h : F) (ret : ℕ)
        → needed 0 f ≡ true
        → ftl.do_gc 0 f ≡ some (g, ret)
        → Collects k g h
        → Collects (suc k) f h

  -- At most `n` collections, fewer only if no more are needed
  pub record Cleaned (n : ℕ) (f g : F) : Type 0 where
    pub times : ℕ
    pub bounded : times ≤ n
    pub collected : Collects times f g
    pub enough : (times ≡ n) ⊎ (needed 0 g ≡ false)

  page_gc_loop-needed :
      (n : ℕ) (f : F)
      → needed 0 f ≡ true
      → page_gc_loop ftl needed (suc n) f ≡ (ftl.do_gc 0 f >>= λ r. page_gc_loop ftl needed n r.0)
  unfolding page_gc_loop
  page_gc_loop-needed n f e = rw (page_gc_loop, e) refl

  page_gc_loop-calm :
      (n : ℕ) (f : F) → needed 0 f ≡ false → page_gc_loop ftl needed (suc n) f ≡ some f
  unfolding page_gc_loop
  page_gc_loop-calm n f e = rw (page_gc_loop, e) refl

  check_ondemand_gc-page :
      (hr : HlmReq) (f : F)
      → is_plain_write hr.req_type ≡ true
      → ftl.is_gc_needed ≡ some needed
      → check_ondemand_gc ftl mapping_policy_page hr f ≡ page_gc_loop ftl needed 10 f
  unfolding check_ondemand_gc
  check_ondemand_gc-page hr f write has = rw (write, has) refl

  module _ (Inv : F → Type 0)
      (runs : (f : F) → Inv f → Returns (λ (r : F × ℕ). Inv r.0) (ftl.do_gc 0 f)) where
    page_gc_loop-Cleaned :
        (n : ℕ) (f : F) → Inv f → Returns (λ g. Inv g × Cleaned n f g) (page_gc_loop ftl needed n f)
    unfolding page_gc_loop
    page_gc_loop-Cleaned zero f inv =
        (inv, record { times = 0; bounded = omega arith; collected = at_rest f; enough = inl refl })
    page_gc_loop-Cleaned (suc n) f inv = elim (Bool-cases (needed 0 f)) [
      | inr calm ↦ rw (page_gc_loop-calm n f calm) (
        inv,
        record { times = 0; bounded = omega arith; collected = at_rest f; enough = inr calm },
      )
      | inl full ↦ rw (page_gc_loop-needed n f full) (
          Returns-bind (λ (r : F × ℕ). Inv r.0) _ (ftl.do_gc 0 f) _ (runs f inv)
            λ r e keeps.
              Returns-mono _ _ (page_gc_loop ftl needed n r.0)
                (λ g _ c. (c.0, more f r g full e c.1)) (page_gc_loop-Cleaned n r.0 keeps))
    ]
      where
        more :
            (f : F) (r : F × ℕ) (g : F)
            → needed 0 f ≡ true
            → ftl.do_gc 0 f ≡ some r
            → Cleaned n r.0 g
            → Cleaned (suc n) f g
        more f r g full e c = record {
          times = suc c.times;
          bounded = omega (arith, c.bounded);
          collected = collect c.times f r.0 g r.1 full e c.collected;
          enough = elim c.enough [ inl all ↦ inl (omega arith) | inr calm ↦ inr calm ];
        }

    -- __hlm_nobuf_check_ondemand_gc for the page-level policy, with an FTL that says when collection is
    -- needed and whose collection runs through on states of an invariant and keeps it: the call runs
    -- through and keeps the invariant. Before a write it makes at most ten collections, each of them when it
    -- is needed, and fewer than ten only if no more is needed then; before another request it makes none.
    pub check_ondemand_gc-Cleaned :
        (hr : HlmReq) (f : F)
        → ftl.is_gc_needed ≡ some needed
        → Inv f
        → Returns
            (λ g.
              Inv g
              × (is_plain_write hr.req_type ≡ true → Cleaned 10 f g)
              × (is_plain_write hr.req_type ≡ false → g ≡ f))
            (check_ondemand_gc ftl mapping_policy_page hr f)
    unfolding check_ondemand_gc
    check_ondemand_gc-Cleaned hr f has inv = elim (Bool-cases (is_plain_write hr.req_type)) [
      | inl write ↦ rw (check_ondemand_gc-page hr f write has) (
          Returns-mono _ _ (page_gc_loop ftl needed 10 f)
            (λ g _ c. (c.0, (λ _. c.1), (λ other. cc (write, other))))
            (page_gc_loop-Cleaned 10 f inv))
      | inr other ↦ rw other (inv, (λ write. cc (write, other)), (λ _. refl))
    ]
