-- ===== src/PriorQueue.antt =====
-- ftl/queue/prior_queue.h and ftl/queue/prior_queue.c: queues that serve the requests to one logical
-- address in the order of their arrival, by tags.
-- A pointer to an item is its index in `heap`; a freed item leaves `none` there. The hash table of
-- ftl/3rd/uthash.h is a parameter: its operations, and what they promise.
pub mod Order
pub mod Head
pub mod Tags
pub mod Remove
pub mod Lock
pub mod Move
use h4h.Base.{
  ℕ, zero, suc, ◌+◌, ◌-◌, ◌%◌, ◌^◌, ◌≡◌, ◌≢◌, Bool, true, false, ◌&&◌, not, List, [], ◌∷◌, ◌++◌,
  Option, none, some, map, ◌==◌, ltb, leb, if◌then◌else◌, ◌>>=◌, ◌>>◌, bug_on, get_elem?, set,
  replicate, erase, length, inc64, dec64,
}
use h4h.PageFtl.{deref}
use h4h.Queue.{has_room}

-- h4h_prior_lpa_item_t
pub record LpaItem : Type 0 where
  pub lpa : ℕ
  pub cur_tag : ℕ
  pub max_tag : ℕ

-- What the code uses of uthash: the empty table, HASH_FIND_INT, HASH_ADD_INT, HASH_DEL, and a write
-- through the pointer to an item that was found, with their documented behaviour on integer keys.
pub record LpaHash (H : Type 0) : Type 0 where
  pub no_hash : H
  pub hash_find : H → ℕ → Option LpaItem
  pub hash_add : H → ℕ → LpaItem → H
  pub hash_del : H → ℕ → H
  pub hash_write : H → ℕ → LpaItem → H
  pub find-none : (k : ℕ) → hash_find no_hash k ≡ none
  pub find-add_self : (h : H) (k : ℕ) (q : LpaItem) → hash_find (hash_add h k q) k ≡ some q
  pub find-add_ne :
      (h : H) (k j : ℕ) (q : LpaItem) → k ≢ j → hash_find (hash_add h k q) j ≡ hash_find h j
  pub find-del_self : (h : H) (k : ℕ) → hash_find (hash_del h k) k ≡ none
  pub find-del_ne : (h : H) (k j : ℕ) → k ≢ j → hash_find (hash_del h k) j ≡ hash_find h j
  pub find-write_self : (h : H) (k : ℕ) (q : LpaItem) → hash_find (hash_write h k q) k ≡ some q
  pub find-write_ne :
      (h : H) (k j : ℕ) (q : LpaItem) → k ≢ j → hash_find (hash_write h k q) j ≡ hash_find h j

-- h4h_prior_queue_item_t; its list links are the lists of `qlh`.
pub record PriorItem (A : Type 0) : Type 0 where
  pub ptr_req : A
  pub lpa : ℕ
  pub tag : ℕ
  pub lock : Bool

-- h4h_prior_queue_t
pub record PriorQueue (A : Type 0) (H : Type 0) : Type 0 where
  pub nr_queues : ℕ
  pub max_size : Option ℕ
  pub qic : ℕ
  pub qlh : List (List ℕ)
  pub hash_lpa : H
  pub heap : List (Option (PriorItem A))

-- HASH_FIND_INT and HASH_ADD_INT take the first four bytes of the 64-bit address as the key.
abbrev pub int_key : ℕ → ℕ
int_key lpa = lpa % 2 ^ 32

module _ {H : Type 0} (ops : LpaHash H) where
  open ops use {no_hash, hash_find, hash_add, hash_del, hash_write}

  -- get_highest_priority_tag; -1 as a 64-bit pattern
  unfoldable pub get_highest_priority_tag : H → ℕ → ℕ
  get_highest_priority_tag h lpa = elim (hash_find h (int_key lpa)) [
    | none ↦ 2 ^ 64 - 1
    | some q ↦ q.cur_tag
  ]

  -- The body of remove_highest_priority_tag on a found item
  unfoldable pub advance_tag : H → ℕ → LpaItem → Option H
  advance_tag h lpa q =
      if q.lpa == lpa
      then (if q.max_tag == q.cur_tag
          then some (hash_del h (int_key lpa))
          else if ltb q.cur_tag q.max_tag
          then some (hash_write h (int_key lpa) (record q { cur_tag = inc64 q.cur_tag }))
          else none)
      else some h

  -- remove_highest_priority_tag
  unfoldable pub remove_highest_priority_tag : H → ℕ → Option H
  unfolding advance_tag
  remove_highest_priority_tag h lpa = elim (hash_find h (int_key lpa)) [
    | none ↦ some h
    | some q ↦ advance_tag h lpa q
  ]

  -- get_new_priority_tag, where the allocation succeeds
  unfoldable pub get_new_priority_tag : H → ℕ → H × ℕ
  get_new_priority_tag h lpa = elim (hash_find h (int_key lpa)) [
    | none ↦ (hash_add h (int_key lpa) (record { lpa = lpa; cur_tag = 1; max_tag = 1 }), 1)
    | some q ↦
        (hash_write h (int_key lpa) (record q { max_tag = inc64 q.max_tag }), inc64 q.max_tag)
  ]

  module _ {A : Type 0} where
    -- h4h_prior_queue_create, where the allocations succeed
    unfoldable pub prior_queue_create : ℕ → Option ℕ → PriorQueue A H
    prior_queue_create nr_queues max_size = record {
      nr_queues = nr_queues;
      max_size = max_size;
      qic = 0;
      qlh = replicate nr_queues [];
      hash_lpa = no_hash;
      heap = [];
    }

    -- The part of an enqueue under the lock: a new item at the tail of queue `qid`
    unfoldable pub add_item : ℕ → ℕ → A → List ℕ → PriorQueue A H → PriorQueue A H
    unfolding get_new_priority_tag
    add_item qid lpa req items mq =
        let (h, tag) = get_new_priority_tag mq.hash_lpa lpa in
        record mq {
          hash_lpa = h;
          heap =
              mq.heap ++ (some (record { ptr_req = req; lpa = lpa; tag = tag; lock = false }) ∷ []);
          qlh = set mq.qlh qid (items ++ (length mq.heap ∷ []));
          qic = inc64 mq.qic;
        }

    -- h4h_prior_queue_enqueue; a failed allocation stops at a bug check.
    unfoldable pub prior_enqueue : Bool → ℕ → ℕ → A → PriorQueue A H → Option (PriorQueue A H × ℕ)
    unfolding add_item
    prior_enqueue allocated qid lpa req mq =
        if leb mq.nr_queues qid
        then some (mq, 1)
        else if has_room mq.max_size mq.qic
        then (bug_on (not allocated)
            >> (get_elem? mq.qlh qid >>= λ items. some (add_item qid lpa req items mq, 0)))
        else some (mq, 1)

    -- h4h_prior_queue_is_empty looks at the first item only.
    unfoldable pub prior_is_empty : ℕ → PriorQueue A H → Option Bool
    prior_is_empty qid mq =
        if ltb 0 mq.qic
        then (get_elem? mq.qlh qid >>= λ items. elim items [
          | [] ↦ some true
          | i ∷ rest ↦ deref (get_elem? mq.heap i) >>= λ q. some q.lock
        ])
        else some true

    -- The first item of a list is handed out, and locked, if it is unlocked and its turn has come.
    unfoldable pub hand_out : ℕ → PriorItem A → PriorQueue A H → PriorQueue A H × Option (ℕ × A)
    unfolding get_highest_priority_tag
    hand_out i q mq =
        if not q.lock && get_highest_priority_tag mq.hash_lpa q.lpa == q.tag
        then (
          record mq { heap = set mq.heap i (some (record q { lock = true })) },
          some (i, q.ptr_req),
        )
        else (mq, none)

    -- h4h_prior_queue_dequeue: the item, which goes to `oq`, and the request
    unfoldable pub prior_dequeue : ℕ → PriorQueue A H → Option (PriorQueue A H × Option (ℕ × A))
    unfolding hand_out
    prior_dequeue qid mq =
        if ltb 0 mq.qic
        then (get_elem? mq.qlh qid >>= λ items. elim items [
          | [] ↦ some (mq, none)
          | i ∷ rest ↦ deref (get_elem? mq.heap i) >>= λ q. some (hand_out i q mq)
        ])
        else some (mq, none)

    -- h4h_prior_queue_remove of an item
    unfoldable pub prior_remove : ℕ → PriorQueue A H → Option (PriorQueue A H)
    unfolding remove_highest_priority_tag
    prior_remove i mq = do
      q ← deref (get_elem? mq.heap i)
      h ← remove_highest_priority_tag mq.hash_lpa q.lpa
      some (record mq {
        hash_lpa = h;
        qlh = map (erase i) mq.qlh;
        heap = set mq.heap i none;
        qic = dec64 mq.qic;
      })

    -- h4h_prior_queue_move of an item: to the head of queue `qid`
    unfoldable pub prior_move : ℕ → ℕ → PriorQueue A H → Option (PriorQueue A H)
    prior_move qid i mq = do
      q ← deref (get_elem? mq.heap i)
      items ← get_elem? (map (erase i) mq.qlh) qid
      some (record mq {
        qlh = set (map (erase i) mq.qlh) qid (i ∷ items);
        heap = set mq.heap i (some (record q { lock = false }));
      })

    -- h4h_prior_queue_is_full
    unfoldable pub prior_is_full : PriorQueue A H → Option Bool
    prior_is_full mq = elim mq.max_size [
      | none ↦ some false
      | some n ↦ bug_on (ltb n mq.qic) >>= λ u. some (mq.qic == n)
    ]

    -- h4h_prior_queue_is_all_empty and h4h_prior_queue_get_nr_items of a queue that is not NULL
    unfoldable pub prior_is_all_empty : PriorQueue A H → Bool
    prior_is_all_empty mq = mq.qic == 0

    unfoldable pub prior_get_nr_items : PriorQueue A H → ℕ
    prior_get_nr_items mq = mq.qic
