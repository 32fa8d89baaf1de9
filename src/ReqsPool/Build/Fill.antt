-- ===== src/ReqsPool/Build/Fill.antt =====
-- The loop on kernel pages of ftl/hlm_reqs_pool.c, against a walk along the entries of the request.
use h4h.Base.{
  ℕ, zero, suc, ◌+◌, ◌-◌, ◌*◌, ◌/◌, ◌<◌, ◌≤◌, ◌≡◌, refl, sym, ap, subst, ◌∙◌, Bool, true, false,
  not, ◌&&◌, ◌||◌, Bool-cases, inl, inr, List, [], ◌∷◌, some, arith, get_elem?, get_elem?_of_lt,
  set, set-get_elem?, length, some-inj, Returns, Returns-bind, ltb, leb, if◌then◌else◌,
}
use h4h.Request.{KernelPage, kp_stt_data, BlkioReq}
use h4h.ReqsPool.Build.{pg_start, pg_end, Cursor, place_bvec, build_page, build_pages}

-- The first `n` entries of a list are changed, each by its number counted from `k`.
unfoldable pub fill {ℓ} : {A : Type ℓ} → (ℕ → A → A) → ℕ → ℕ → List A → List A
fill f k zero xs = xs
fill f k (suc n) [] = []
fill f k (suc n) (x ∷ xs) = f k x ∷ fill f (suc k) n xs

module _ {ℓ} {A : Type ℓ} (f : ℕ → A → A) where
  pub get_elem?-fill :
      (k n : ℕ) (xs : List A) (i : ℕ) (x : A)
      → get_elem? xs i ≡ some x
      → get_elem? (fill f k n xs) i ≡ some (if ltb i n then f (k + i) x else x)
  unfolding fill
  get_elem?-fill k zero xs i x e = ground arith
  get_elem?-fill k (suc n) [] i x e = ground arith
  get_elem?-fill k (suc n) (y ∷ ys) zero x e =
      let first : k + 0 ≡ k = omega arith in rw first (ground arith)
  get_elem?-fill k (suc n) (y ∷ ys) (suc i) x e =
      let next : k + suc i ≡ suc k + i = omega arith in
      rw next (get_elem?-fill (suc k) n ys i x e ∙ ground arith)

  pub set-fill :
      (k n : ℕ) (xs : List A) (x : A)
      → get_elem? xs n ≡ some x
      → set (fill f k n xs) n (f (k + n) x) ≡ fill f k (suc n) xs
  unfolding fill
  set-fill k n [] x e = ground arith
  set-fill k zero (y ∷ ys) x e = let first : k + 0 ≡ k = omega arith in rw (first, some-inj e) refl
  set-fill k (suc n) (y ∷ ys) x e =
      let next : k + suc n ≡ suc k + n = omega arith in
      rw next (ap (◌∷◌ (f k y)) (set-fill (suc k) n ys x e))

-- Whether a kernel page is one of the request's, and how many of those come before it
abbrev pub inside : BlkioReq → ℕ → Bool
inside br pg = leb (pg_start br) pg && ltb pg (pg_end br)

abbrev pub taken : BlkioReq → ℕ → ℕ
taken br pg =
    if leb pg (pg_start br)
    then 0
    else if leb pg (pg_end br)
    then pg - pg_start br
    else pg_end br - pg_start br

-- The entry for kernel page `pg`
abbrev pub page_of : BlkioReq → ℕ → KernelPage → KernelPage
page_of br pg kp =
    if inside br pg
    then record kp { kp_stt = kp_stt_data; kp_ptr = get_elem? br.bi_bvec_ptr (pg - pg_start br) }
    else kp

-- Whether one of `n` kernel pages from `pg` on is not the request's
abbrev pub outside : BlkioReq → ℕ → ℕ → Bool
outside br pg zero = false
outside br pg (suc n) = outside br pg n || not (inside br (pg + n))

-- The host hands over one vector for each kernel page, and the pages are in order.
pub record IsRequest (br : BlkioReq) : Type 0 where
  pub some_page : pg_start br < pg_end br
  pub each_page : pg_end br ≡ pg_start br + br.bi_bvec_cnt
  pub vectors : br.bi_bvec_cnt ≤ length br.bi_bvec_ptr

-- Where the loop stands after `n` kernel pages of a low-level request that starts at page `pg`
pub record Placed (br : BlkioReq) (pg : ℕ) (fm : List KernelPage) (lpa : List ℕ) (n : ℕ)
    (c : Cursor) : Type 0 where
  pub at_sector : c.sec_start ≡ (pg + n) * 8
  pub used : c.bvec_cnt ≡ taken br (pg + n)
  pub at_entry : c.fm_ofs ≡ n
  pub filled : c.fmain ≡ fill (page_of br) pg n fm
  pub same_lpa : c.lpa ≡ lpa
  pub has_hole : c.hole ≡ outside br pg n

module _ (br : BlkioReq) (ok : IsRequest br) (pg : ℕ) (fm : List KernelPage) (lpa : List ℕ) where
  build_page-Placed :
      (n : ℕ) (c : Cursor)
      → n < length fm
      → Placed br pg fm lpa n c
      → Returns (Placed br pg fm lpa (suc n)) (build_page br c)
  unfolding build_page place_bvec
  build_page-Placed n c h p =
      let here : c.sec_start / 8 ≡ pg + n = omega (arith, p.at_sector) in
      let (kp, e) = get_elem?_of_lt fm n h in
      let entry : get_elem? c.fmain c.fm_ofs ≡ some kp =
        rw (p.filled, p.at_entry) (get_elem?-fill (page_of br) pg n fm n kp e ∙ ground arith) in
      let next = set-fill (page_of br) pg n fm kp e in
      elim (Bool-cases (inside br (pg + n))) [
        | inl is_in ↦
            let is_in' : inside br (c.sec_start / 8) ≡ true = rw here is_in in
            let room : leb br.bi_bvec_cnt c.bvec_cnt ≡ false =
              ground (arith, p.used, ok.each_page) in
            let fits : c.bvec_cnt < length br.bi_bvec_ptr = ground (arith, ok.vectors) in
            let (ptr, v) = get_elem?_of_lt br.bi_bvec_ptr c.bvec_cnt fits in
            let index : pg + n - pg_start br ≡ c.bvec_cnt = ground (arith, p.used) in
            let same : page_of br (pg + n) kp
                ≡ record kp { kp_stt = kp_stt_data; kp_ptr = some ptr } =
              rw (is_in, index, v) refl in
            rw (is_in', room, v, entry)
              (record {
                at_sector = omega (arith, p.at_sector);
                used = ground (arith, p.used);
                at_entry = ap suc p.at_entry;
                filled = rw (p.filled, p.at_entry, ← same) next;
                same_lpa = p.same_lpa;
                has_hole = rw is_in (p.has_hole ∙ ground arith);
              })
        | inr is_out ↦
            let is_out' : inside br (c.sec_start / 8) ≡ false = rw here is_out in
            rw is_out' (record {
              at_sector = omega (arith, p.at_sector);
              used = ground (arith, p.used);
              at_entry = ap suc p.at_entry;
              filled =
                  p.filled
                  ∙ sym (set-get_elem? _ n kp (rw (p.filled, p.at_entry) at entry))
                  ∙ rw is_out at next;
              same_lpa = p.same_lpa;
              has_hole = rw is_out (ground arith);
            })
      ]

  pub build_pages-Placed :
      (k n m : ℕ) (c : Cursor)
      → n + k ≡ m
      → m ≤ length fm
      → Placed br pg fm lpa n c
      → Returns (Placed br pg fm lpa m) (build_pages br k c)
  unfolding build_pages
  build_pages-Placed zero n m c e h p = subst (λ x. Placed br pg fm lpa x c) (omega arith) p
  build_pages-Placed (suc k) n m c e h p =
      Returns-bind (Placed br pg fm lpa (suc n)) (Placed br pg fm lpa m) (build_page br c)
        (build_pages br k) (build_page-Placed n c (omega arith) p)
        λ d _ q. build_pages-Placed k (suc n) m d (omega arith) h q
