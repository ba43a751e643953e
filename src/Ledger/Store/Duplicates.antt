-- ===== src/Ledger/Store/Duplicates.antt =====
-- ledger/store.py: a new event behind a duplicate in one batch. The loop links the new row to the
-- digest of the duplicate, and the insertion then leaves the duplicate out.
use goderash.Common.{
  returned, ℕ, suc, ◌+◌, String, str_eq, str-cases, eq_refl, ◌≡◌, ◌≢◌, refl, sym, ap, ◌∙◌, subst,
  ◌⊎◌, inl, inr, true, false, none, some, List, [], ◌∷◌, ◌++◌, map, arith, any, length, length-map,
  Bool-cases, ◌==◌,
}
use goderash.Json.{Fields}
use goderash.Events.{GoderashEventEnvelope}
use goderash.Events.Dump.{model_dump}
use goderash.Ledger.Chain.{
  Hasher, genesis_prev_hash, compute_hash, check_event, verify_from, verify_chain,
}
use goderash.Ledger.Chain.Verdict.{check_event_of_Follows}
use goderash.Ledger.Chain.Evidence.{
  DigestCount, IsBroken, IsBroken-mono, has, has-append, inputs, head_of, head_of-injective,
}
use goderash.Ledger.Store.{
  EventRow, rows_of, violates, fits, insert_row, insert_rows, seal, row_of, seal_all, append_many,
  iter_tenant, fetch_head_hash, fetch_head_sequence,
}
use goderash.Ledger.Store.Order.{
  IsOrdered, last_sequence, last_digest, IsOrdered-append, fetch_head_sequence_lem,
  fetch_head_hash_lem, order_by_sequence_lem,
}
use goderash.Ledger.Store.Linked.{IsLinked, history, length-history, digest_clash, chain_event}
use goderash.Ledger.Store.Fresh.{
  AreKept, hashed, compute_hash-jsonb, has_id, IsChain, violates-cases, sequence_is_new,
  head_digest, rows_of_snoc,
}

module _ {F : Type 0} (hs : Hasher (Fields F)) where
  check_event_gap :
      (h : String) (r : EventRow F)
      → r.prev_hash ≢ h
      → check_event hs h (some r.prev_hash) (some r.payload) (some r.hash) ≡ none
  unfolding check_event
  check_event_gap h r gap = elim (str-cases r.prev_hash h) [
    | inl (same, _) ↦ absurd (gap same)
    | inr (_, differs) ↦ rw differs refl
  ]

  check_event_linked :
      (h : String) (r : EventRow F)
      → r.prev_hash ≡ h
      → r.hash ≡ compute_hash hs h r.payload
      → check_event hs h (some r.prev_hash) (some r.payload) (some r.hash) ≡ some r.hash
  check_event_linked h r links computed =
      check_event_of_Follows hs h (chain_event r) r.hash (record {
        body = r.payload;
        links = ap some links;
        stored = refl;
        carries = refl;
        computed = computed;
      })

  -- The verifier stops at the first row that does not name the digest before it.
  verify_from_gap :
      (h : String) (i : ℕ) (rows : List (EventRow F)) (r : EventRow F)
      → IsLinked hs h rows
      → r.prev_hash ≢ last_digest h rows
      → verify_from hs h i (map chain_event (rows ++ r ∷ [])) ≡ (false, some (i + length rows))
  unfolding verify_from
  verify_from_gap h i [] r k gap = rw (check_event_gap h r gap, verify_from) (ground arith)
  verify_from_gap h i (s ∷ rows) r k gap =
      rw (check_event_linked h s k.0 k.1, verify_from)
        (verify_from_gap s.hash (suc i) rows r k.2 gap ∙ ground arith)

  has-once :
      (older : List (Fields F)) (d : Fields F) (x : String)
      → has x (inputs hs (d ∷ older) ++ inputs hs older) ≡ true
      → has x (inputs hs (d ∷ older)) ≡ true
  has-once older d x h = ground (arith, has-append x (inputs hs (d ∷ older)) (inputs hs older))

  -- The texts hashed for a history, and for two payloads more.
  has-third :
      (older : List (Fields F)) (d e : Fields F) (x : String)
      → has x (inputs hs older ++ inputs hs (e ∷ d ∷ older)) ≡ true
      → has x (inputs hs (e ∷ d ∷ older)) ≡ true
  has-third older d e x h =
      ground (arith, has-append x (inputs hs older) (inputs hs (e ∷ d ∷ older)))

  has-second :
      (older : List (Fields F)) (d e : Fields F) (x : String)
      → has x (inputs hs (d ∷ older)) ≡ true
      → has x (inputs hs (e ∷ d ∷ older)) ≡ true
  has-second older d e x h = ground arith

  -- The digest of a longer history is not the head of the ledger.
  digest_moves :
      DigestCount hs
      → (ds : List (Fields F)) (d : Fields F)
      → ((compute_hash hs (head_of hs ds) d ≢ head_of hs ds)) ⊎ IsBroken hs (inputs hs (d ∷ ds))
  unfolding head_of
  digest_moves dc ds d = elim (str-cases (compute_hash hs (head_of hs ds) d) (head_of hs ds)) [
    | inr (moved, _) ↦ inl moved
    | inl (fixed, _) ↦ elim (head_of-injective hs dc (d ∷ ds) ds fixed) [
      | inr broken ↦ inr (
          IsBroken-mono hs (inputs hs (d ∷ ds) ++ inputs hs ds) (inputs hs (d ∷ ds)) (has-once ds d)
            broken)
      | inl texts ↦ absurd (
          omega (
            arith,
            ap length texts,
            length-map (d ∷ ds) hs.canonical_json,
            length-map ds hs.canonical_json,
          ))
    ]
  ]

  -- What is known of the row behind a duplicate.
  record Skipping (t : String) (d : Fields F) (db : List (EventRow F)) (r : EventRow F)
      : Type 0 where
    own : r.tenant_id ≡ t
    unseen : has_id r.event_id db ≡ false
    numbered : r.sequence_no ≡ last_sequence 0 (rows_of t db) + 2
    links : r.prev_hash ≡ compute_hash hs (head_of hs (history hs [] (rows_of t db))) d
    computed : r.hash ≡ compute_hash hs r.prev_hash r.payload
    fitting : fits r ≡ true

  insert_after_duplicate :
      DigestCount hs
      → (t : String) (d : Fields F) (db : List (EventRow F)) (r : EventRow F)
      → IsChain hs (rows_of t db)
      → Skipping t d db r
      → (insert_row r db ≡ returned (db ++ r ∷ []))
        ⊎ IsBroken hs (inputs hs (r.payload ∷ d ∷ history hs [] (rows_of t db)))
  unfolding insert_row head_of
  insert_after_duplicate dc t d db r chain sk = elim (Bool-cases (any (violates r) db)) [
    | inr good ↦ inl (rw (sk.fitting, sk.unseen, good) refl)
    | inl bad ↦ inr (
        let rows : List (EventRow F) = rows_of t db in
        let e : r.hash ≡ compute_hash hs (head_of hs (d ∷ history hs [] rows)) r.payload =
          subst (λ p. r.hash ≡ compute_hash hs p r.payload) sk.links sk.computed in
        let found : any (λ s. str_eq s.hash r.hash) rows ≡ true =
          subst (λ x. any (λ s. str_eq s.hash r.hash) (rows_of x db) ≡ true) sk.own
            (violates-cases r db
              (subst (λ x. any (λ s. s.sequence_no == r.sequence_no) (rows_of x db) ≡ false)
                (sym sk.own) (sequence_is_new r 0 rows chain.0 (omega (arith, sk.numbered))))
              bad) in
        let older = history hs [] rows in
        IsBroken-mono hs (inputs hs older ++ inputs hs (r.payload ∷ d ∷ older))
          (inputs hs (r.payload ∷ d ∷ older)) (has-third older d r.payload)
          (digest_clash hs dc [] rows (d ∷ older) r.payload chain.1
            (omega (arith, length-history hs [] rows))
            (subst (λ h. any (λ (s : EventRow F). str_eq s.hash h) rows ≡ true) e found)))
  ]

  verify_after_duplicate :
      DigestCount hs
      → (t : String) (d : Fields F) (db : List (EventRow F)) (r : EventRow F)
      → IsChain hs (rows_of t db)
      → Skipping t d db r
      → (verify_chain hs (map chain_event (iter_tenant t none none none (db ++ r ∷ [])))
          ≡ (false, some (length (rows_of t db))))
        ⊎ IsBroken hs (inputs hs (r.payload ∷ d ∷ history hs [] (rows_of t db)))
  unfolding verify_chain iter_tenant
  verify_after_duplicate dc t d db r chain sk =
      let older = history hs [] (rows_of t db) in
      elim (digest_moves dc older d) [
        | inr broken ↦ inr (
            IsBroken-mono hs (inputs hs (d ∷ older)) (inputs hs (r.payload ∷ d ∷ older))
              (has-second older d r.payload) broken)
        | inl moved ↦ inl (
            let snoc : rows_of t (db ++ r ∷ []) ≡ rows_of t db ++ r ∷ [] =
              subst (λ x. rows_of x (db ++ r ∷ []) ≡ rows_of x db ++ r ∷ []) sk.own
                (rows_of_snoc hs r db) in
            let ordered : IsOrdered 0 (rows_of t db ++ r ∷ []) =
              IsOrdered-append 0 (rows_of t db) (r ∷ []) chain.0 (omega (arith, sk.numbered), tt) in
            rw (snoc, order_by_sequence_lem 0 (rows_of t db ++ r ∷ []) ordered)
              (verify_from_gap genesis_prev_hash 0 (rows_of t db) r chain.1
                  (λ same. moved (sym sk.links ∙ same ∙ head_digest hs (rows_of t db) chain.1))
                ∙ ground arith))
      ]

  insert_pair :
      (known new : EventRow F) (db db' : List (EventRow F))
      → fits known ≡ true
      → has_id known.event_id db ≡ true
      → insert_row new db ≡ returned db'
      → insert_rows (known ∷ new ∷ []) db ≡ returned db'
  unfolding insert_rows
  insert_pair known new db db' fit stored put = rw (fit, stored, put) refl

  seal_pair :
      (t : String) (now : ℕ) (prev : String) (seq : ℕ) (dup env : GoderashEventEnvelope F)
      → dup.tenant_id ≡ t
      → env.tenant_id ≡ t
      → let next : String = compute_hash hs prev (model_dump dup.payload) in
        seal_all hs t now prev seq (dup ∷ env ∷ [])
        ≡ returned (
          seal hs now prev dup ∷ seal hs now next env ∷ [],
          row_of hs now prev seq dup ∷ row_of hs now next (seq + 1) env ∷ [],
        )
  unfolding seal_all
  seal_pair t now prev seq dup env own own' =
      rw (ap (λ x. str_eq x t) own, ap (λ x. str_eq x t) own', eq_refl t) refl

  -- Let the rows of tenant `t` be in order and linked from genesis, and a batch of `t` hold an event
  -- that is stored already and behind it one that is not; their fields fit the columns, and JSONB
  -- gives back payloads that read the same. Then `append_many` succeeds and adds one
  -- row, and `verify_chain` reports the ledger of `t` as broken at that row. Else two
  -- different texts of those hashed for the rows of `t` and the batch have one digest, or one has
  -- the genesis sentinel.
  pub append_many-duplicate_breaks :
      DigestCount hs
      → (t : String) (now : ℕ) (dup env : GoderashEventEnvelope F) (db : List (EventRow F))
      → dup.tenant_id ≡ t
      → env.tenant_id ≡ t
      → has_id dup.event_id db ≡ true
      → has_id env.event_id db ≡ false
      → IsChain hs (rows_of t db)
      → AreKept hs (dup ∷ env ∷ [])
      → ((stored : List (GoderashEventEnvelope F)) × (r : EventRow F) × (append_many hs t now
              (dup ∷ env ∷ [])
              db
            ≡ returned (stored, db ++ r ∷ []))
          × (verify_chain hs (map chain_event (iter_tenant t none none none (db ++ r ∷ [])))
              ≡ (false, some (length (rows_of t db)))))
        ⊎ IsBroken hs (hashed hs (rows_of t db) (dup ∷ env ∷ []))
  unfolding append_many row_of fits
  append_many-duplicate_breaks dc t now dup env db own own' known unseen chain kept =
      let prev : String = compute_hash hs (fetch_head_hash t db) (model_dump dup.payload) in
      let r : EventRow F = row_of hs now prev (fetch_head_sequence t db + 1 + 1) env in
      let sk : Skipping t (hs.jsonb (model_dump dup.payload)) db r = record {
        own = own';
        unseen = unseen;
        numbered = omega (arith, fetch_head_sequence_lem t db chain.0);
        links =
            ap (λ p. compute_hash hs p (model_dump dup.payload))
              (fetch_head_hash_lem t db chain.0 ∙ head_digest hs (rows_of t db) chain.1)
            ∙ compute_hash-jsonb hs (head_of hs (history hs [] (rows_of t db)))
                (model_dump dup.payload) kept.1;
        computed = compute_hash-jsonb hs prev (model_dump env.payload) kept.2.1;
        fitting = kept.2.0;
      } in
      elim (insert_after_duplicate dc t (hs.jsonb (model_dump dup.payload)) db r chain sk) [
        | inr broken ↦ inr broken
        | inl put ↦
            elim (verify_after_duplicate dc t (hs.jsonb (model_dump dup.payload)) db r chain sk) [
              | inr broken ↦ inr broken
              | inl refuted ↦ inl (
                seal hs now (fetch_head_hash t db) dup ∷ seal hs now prev env ∷ [],
                r,
                rw
                    (
                      seal_pair t now (fetch_head_hash t db) (fetch_head_sequence t db + 1) dup env
                          own own',
                      insert_pair
                          (row_of hs now (fetch_head_hash t db) (fetch_head_sequence t db + 1) dup)
                          r db _ kept.0 known put,
                    )
                    refl,
                refuted,
              )
            ]
      ]
