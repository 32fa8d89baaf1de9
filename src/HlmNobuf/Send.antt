-- ===== src/HlmNobuf/Send.antt =====
-- How ftl/hlm_nobuf.c hands requests to a low-level manager that takes every request.
use h4h.Base.{
  ℕ, zero, suc, ◌≤◌, ◌≡◌, refl, not, List, [], ◌∷◌, Option, none, some, length, ◌==◌, bug_on, arith,
  Returns, Returns-bind, Returns-mono, ap, ◌∙◌, ◌>>=◌, ◌>>◌,
}
use h4h.Request.{LlmReq, HlmReq}
use h4h.FtlInf.{LlmInf}
use h4h.HlmNobuf.{send_each, send_reqs}

-- A low-level manager that takes every request
pub record Accepts {M : Type 0} (llm : LlmInf M) : Type 0 where
  pub takes : (lr : LlmReq) (m : M) → Returns (λ r. r.1 ≡ 0) (llm.make_req lr m)
  pub takes_all :
      (make_reqs : HlmReq → M → Option (M × ℕ))
      → llm.make_reqs ≡ some make_reqs
      → (hr : HlmReq) (m : M) → Returns (λ r. r.1 ≡ 0) (make_reqs hr m)

module _ {M : Type 0} (llm : LlmInf M) where
  -- The first requests of the list are handed to the manager, one after the other, and each is taken.
  pub data Handed : ℕ → List LlmReq → M → M → Type 0 where
    all_handed : (lrs : List LlmReq) (m : M) → Handed zero lrs m m
    hand :
        (n : ℕ) (lr : LlmReq) (lrs : List LlmReq) (m m1 m' : M)
        → llm.make_req lr m ≡ some (m1, 0)
        → Handed n lrs m1 m'
        → Handed (suc n) (lr ∷ lrs) m m'

  -- The low-level requests of `hr` are handed over: each of them, or all of them in one call if the
  -- manager has a make_reqs.
  pub data Sent (hr : HlmReq) (m m' : M) : Type 0 where
    one_by_one : llm.make_reqs ≡ none → Handed hr.nr_llm_reqs hr.llm_reqs m m' → Sent hr m m'
    at_once :
        (make_reqs : HlmReq → M → Option (M × ℕ))
        → llm.make_reqs ≡ some make_reqs
        → make_reqs hr m ≡ some (m', 0)
        → Sent hr m m'

module _ {M : Type 0} (llm : LlmInf M) (accepts : Accepts llm) where
  send_each-Handed :
      (n : ℕ) (lrs : List LlmReq) (m : M)
      → n ≤ length lrs
      → Returns (Handed llm n lrs m) (send_each llm n lrs m)
  unfolding send_each
  send_each-Handed zero lrs m long = all_handed lrs m
  send_each-Handed (suc n) [] m long = absurd (omega arith)
  send_each-Handed (suc n) (lr ∷ lrs) m long =
      Returns-bind _ _ (llm.make_req lr m) _ (accepts.takes lr m) λ r eq e. rw e (
        Returns-mono (Handed llm n lrs r.0) (Handed llm (suc n) (lr ∷ lrs) m)
          (send_each llm n lrs r.0)
          (λ m' _ h. hand n lr lrs m r.0 m' (eq ∙ ap (λ z. some (r.0, z)) e) h)
          (send_each-Handed n lrs r.0 (omega arith)))

  pub send_reqs-Sent :
      (hr : HlmReq) (m : M)
      → hr.nr_llm_reqs ≤ length hr.llm_reqs
      → Returns (Sent llm hr m) (send_reqs llm hr m)
  unfolding send_reqs
  send_reqs-Sent hr m long = by_kind llm.make_reqs refl
    where
      by_kind :
          (o : Option (HlmReq → M → Option (M × ℕ)))
          → llm.make_reqs ≡ o
          → Returns (Sent llm hr m) (elim o [
            | none ↦ send_each llm hr.nr_llm_reqs hr.llm_reqs m
            | some make_reqs ↦ make_reqs hr m >>= λ r. bug_on (not (r.1 == 0)) >> some r.0
          ])
      by_kind none e =
          Returns-mono (Handed llm hr.nr_llm_reqs hr.llm_reqs m) (Sent llm hr m)
            (send_each llm hr.nr_llm_reqs hr.llm_reqs m) (λ m' _ h. one_by_one e h)
            (send_each-Handed hr.nr_llm_reqs hr.llm_reqs m long)
      by_kind (some make_reqs) e =
          Returns-bind _ (Sent llm hr m) (make_reqs hr m) _ (accepts.takes_all make_reqs e hr m)
            λ r eq z. rw z (at_once make_reqs e (eq ∙ ap (λ y. some (r.0, y)) z))
