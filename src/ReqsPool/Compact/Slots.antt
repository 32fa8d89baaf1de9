-- ===== src/ReqsPool/Compact/Slots.antt =====
-- The kernel pages of an array of requests in ftl/hlm_reqs_pool.c, by request and entry.
use native.Mathlib.Decide.{ℕ_discrete}
use h4h.Base.{
  ℕ, zero, suc, ◌<◌, ◌≤◌, ◌≡◌, ◌≢◌, ◌⊎◌, refl, ap, ◌∙◌, inl, inr, List, [], ◌∷◌, ◌++◌, Option, none,
  some, arith, get_elem?, get_elem?-lt, get_elem?-set_self, get_elem?-set_ne, set, length,
  length-set, Option-cases, some-inj, none-ne-some, ◌>>=◌,
}
use h4h.Request.{KernelPage, kp_stt_data, LlmReq}

-- Kernel page `k` of request `l`, with its logical address and its spare area
unfoldable pub look : List LlmReq → ℕ → ℕ → Option (KernelPage × Option ℕ × Option ℕ)
look lrs l k = get_elem? lrs l >>= λ lr.
    get_elem? lr.fmain k >>= λ kp. some (kp, get_elem? lr.logaddr.lpa k, get_elem? lr.foob k)

pub look_inv :
    (lrs : List LlmReq) (l k : ℕ) {kp : KernelPage} {lpa oob : Option ℕ}
    → look lrs l k ≡ some (kp, lpa, oob)
    → (lr : LlmReq) × (get_elem? lrs l ≡ some lr)
      × (get_elem? lr.fmain k ≡ some kp)
      × (get_elem? lr.logaddr.lpa k ≡ lpa)
      × (get_elem? lr.foob k ≡ oob)
unfolding look
look_inv lrs l k e = elim (Option-cases (get_elem? lrs l)) [
  | inl missing ↦ absurd (none-ne-some (rw missing at e))
  | inr (lr, there) ↦
      let e' = rw there at e in
      elim (Option-cases (get_elem? lr.fmain k)) [
        | inl missing ↦ absurd (none-ne-some (rw missing at e'))
        | inr (kp, at_k) ↦
            let same = some-inj (rw at_k at e') in
            (lr, there, at_k ∙ ap (λ s. some s.0) same, ap (λ s. s.1) same, ap (λ s. s.2) same)
      ]
]

-- What is copied of a kernel page
pub record Kept : Type 0 where
  pub ptr : Option ℕ
  pub lpa : Option ℕ
  pub oob : Option ℕ

abbrev pub kept_kp : LlmReq → ℕ → KernelPage → List Kept
kept_kp lr k kp = elim kp.kp_stt [
  | kp_stt_data ↦
      record { ptr = kp.kp_ptr; lpa = get_elem? lr.logaddr.lpa k; oob = get_elem? lr.foob k } ∷ []
  | _ ↦ []
]

-- Entry `k` of a request, if it holds data
abbrev pub kept_at : LlmReq → ℕ → List Kept
kept_at lr k = elim (get_elem? lr.fmain k) [ none ↦ [] | some kp ↦ kept_kp lr k kp ]

-- The data of `n` entries of a request from entry `k` on, and of a list of requests
unfoldable pub kept_kps : LlmReq → ℕ → ℕ → List Kept
kept_kps lr zero k = []
kept_kps lr (suc n) k = kept_at lr k ++ kept_kps lr n (suc k)

unfoldable pub kept_all : ℕ → List LlmReq → List Kept
unfolding kept_kps
kept_all subpages [] = []
kept_all subpages (lr ∷ lrs) = kept_kps lr subpages 0 ++ kept_all subpages lrs

-- The arrays of a request have an entry for each subpage.
pub record HasSlots (subpages : ℕ) (lr : LlmReq) : Type 0 where
  pub pages : subpages ≤ length lr.fmain
  pub lpas : subpages ≤ length lr.logaddr.lpa
  pub oobs : subpages ≤ length lr.foob

-- The request with entry `k` replaced
abbrev pub write_slot : LlmReq → ℕ → KernelPage → ℕ → ℕ → LlmReq
write_slot lr k kp lpa oob = record lr {
  fmain = set lr.fmain k kp;
  logaddr = record lr.logaddr { lpa = set lr.logaddr.lpa k lpa };
  foob = set lr.foob k oob;
}

module _ (lrs : List LlmReq) (l : ℕ) (lr : LlmReq) (k : ℕ) (kp : KernelPage) (lpa oob : ℕ)
    (there : get_elem? lrs l ≡ some lr) where
  pub look-set_ne :
      (l' k' : ℕ)
      → (l ≢ l') ⊎ (k ≢ k')
      → look (set lrs l (write_slot lr k kp lpa oob)) l' k' ≡ look lrs l' k'
  unfolding look
  look-set_ne l' k' (inl other) =
      rw (get_elem?-set_ne lrs l l' (write_slot lr k kp lpa oob) other) refl
  look-set_ne l' k' (inr other) = elim (ℕ_discrete l l') [
    | no ne ↦ rw (get_elem?-set_ne lrs l l' (write_slot lr k kp lpa oob) ne) refl
    | yes same ↦
        rw
          (
            ← same,
            get_elem?-set_self lrs l (write_slot lr k kp lpa oob) (get_elem?-lt lrs l there),
            there,
            get_elem?-set_ne lr.fmain k k' kp other,
            get_elem?-set_ne lr.logaddr.lpa k k' lpa other,
            get_elem?-set_ne lr.foob k k' oob other,
          )
          refl
  ]

  pub look-set_self :
      (subpages : ℕ)
      → k < subpages
      → HasSlots subpages lr
      → look (set lrs l (write_slot lr k kp lpa oob)) l k ≡ some (kp, some lpa, some oob)
  unfolding look
  look-set_self subpages h has =
      rw
        (
          get_elem?-set_self lrs l (write_slot lr k kp lpa oob) (get_elem?-lt lrs l there),
          get_elem?-set_self lr.fmain k kp (omega (arith, has.pages)),
          get_elem?-set_self lr.logaddr.lpa k lpa (omega (arith, has.lpas)),
          get_elem?-set_self lr.foob k oob (omega (arith, has.oobs)),
        )
        refl

  pub write_slot-HasSlots :
      (subpages : ℕ) → HasSlots subpages lr → HasSlots subpages (write_slot lr k kp lpa oob)
  write_slot-HasSlots subpages has = record {
    pages = rw (length-set lr.fmain k kp) has.pages;
    lpas = rw (length-set lr.logaddr.lpa k lpa) has.lpas;
    oobs = rw (length-set lr.foob k oob) has.oobs;
  }
